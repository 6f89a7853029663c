-- ===== src/App/Tests.antt =====
-- crates/bergamot/src/app.rs: runs on small inputs, and the witness.
use bergamot.Prelude.{ℕ, ◌≡◌, refl, Bool, [], ◌∷◌, none}
use bergamot.Prelude.Int.{pos}
use bergamot.Text.{codes}
use bergamot.Nzb.Model.{NzbFile, not_par}
use bergamot.Queue.Types.{ArticleStatus, undefined, finished, failed, normal}
use bergamot.Queue.Nzb.{ArticleInfo, FileInfo}
use bergamot.Queue.NewNzb.{new_article, new_file}
use bergamot.Queue.Listings.{completed_from, snapshot_if}
use bergamot.App.{with_state}
use bergamot.App.Saved.{CameBack, saved_state, with_state-CameBack}

abbrev article : ℕ → ArticleStatus → ℕ → ArticleInfo
article part status crc = record {
  part_number = part;
  message_id = codes "a@b";
  size = 50;
  status = status;
  segment_offset = 0;
  segment_size = 50;
  crc = crc;
}

-- One article is downloaded, one is lost and one is waiting.
abbrev file : FileInfo
file = record {
  id = 7;
  nzb_id = 1;
  filename = codes "a.rar";
  subject = codes "a.rar";
  output_filename = codes "a.rar";
  groups = [];
  articles = article 1 failed 0 ∷ article 2 finished 99 ∷ article 3 undefined 0 ∷ [];
  size = 150;
  remaining_size = 50;
  success_size = 50;
  failed_size = 50;
  missed_size = 0;
  total_articles = 3;
  missing_articles = 0;
  failed_articles = 1;
  success_articles = 1;
  paused = Bool.false;
  completed = Bool.false;
  priority = normal;
  time = 0;
  active_downloads = 0;
  crc = 0;
  server_stats = [];
}

abbrev document : NzbFile
document = record {
  poster = [];
  date = pos 0;
  subject = codes "a.rar";
  filename = none;
  groups = [];
  segments =
      record { number = 1; bytes = 50; message_id = codes "a@b" }
      ∷ record { number = 2; bytes = 50; message_id = codes "a@b" }
      ∷ record { number = 3; bytes = 50; message_id = codes "a@b" }
      ∷ [];
  par_status = not_par;
  total_size = 150;
}

downloaded : completed_from 0 file.articles ≡ (1, 99) ∷ []
unfolding completed_from
downloaded = refl

with_state-CameBack_example : CameBack file (
    with_state
      (saved_state (snapshot_if file (completed_from 0 file.articles)))
      (new_file 0 normal 1 7 0 document))
unfolding new_article
with_state-CameBack_example =
    with_state-CameBack file document 0 normal 1 7 0
      (record { succeeded = refl; lost = refl; left = refl; hits = refl; misses = refl }) refl refl
