-- ===== src/App.antt =====
-- crates/bergamot/src/app.rs: what the application saves on disk and restores from it, and the flush
-- of crates/bergamot-scheduler/src/lib.rs.
pub mod Saved
mod Tests
use bergamot.Prelude.{
  ℕ, suc, ◌+◌, ◌-◌, Bool, false, List, [], ◌∷◌, ◌++◌, Option, none, some, length, get_elem?,
  if◌then◌else◌, ◌==◌,
}
use bergamot.Prelude.Find.{sum_by, retain}
use bergamot.Prelude.Int.{ℤ}
use bergamot.Prelude.Map.{number_eq, get}
use bergamot.Text.{Text}
use bergamot.Nzb.Model as Parsed
use bergamot.Nzb.Subject.{Libraries}
use bergamot.Nzb.Info.{Readers, parse_nzb_auto}
use bergamot.Queue.Types.{
  nzb_kind, Priority, DupMode, finished, par_none, unpack_none, move_none, delete_none, mark_none,
  url_none, script_none,
}
use bergamot.Queue.Nzb.{ArticleInfo, FileInfo, NzbInfo}
use bergamot.Queue.NewNzb.{new_file, or_default}
use bergamot.Queue.Listings.{FileArticleSnapshot}
use bergamot.Diskstate.{FileArticleState, new_state, is_article_done, mark_all}

-- `NzbState`, in the fields that are read; the priority is that of `priority_from_i32`.
pub record NzbState : Type 0 where
  pub id : ℕ
  pub name : Text
  pub filename : Text
  pub category : Text
  pub dest_dir : Text
  pub final_dir : Option Text
  pub priority : Priority
  pub paused : Bool
  pub url : Option Text
  pub dupe_key : Text
  pub dupe_score : ℤ
  pub dupe_mode : DupMode
  pub file_ids : List ℕ
  pub health : ℕ
  pub critical_health : ℕ

-- The state that is saved for a file.
unfoldable pub file_state_of : FileArticleSnapshot → FileArticleState
unfolding new_state mark_all
file_state_of snap = mark_all snap.completed_articles (new_state snap.file_id snap.total_articles)

unfoldable pub restored_article : ℕ → FileArticleState → ArticleInfo → ArticleInfo
restored_article idx s a = record a {
  status = finished;
  crc = or_default a.crc (get idx s.article_crcs);
}

-- The articles, how many of them are downloaded and how many bytes these have.
pub record Restored : Type 0 where
  pub articles : List ArticleInfo
  pub success_articles : ℕ
  pub success_size : ℕ

unfoldable pub restore_articles : FileArticleState → ℕ → List ArticleInfo → Restored
unfolding is_article_done restored_article
restore_articles s idx [] = record { articles = []; success_articles = 0; success_size = 0 }
restore_articles s idx (a ∷ others) =
    let rest = restore_articles s (suc idx) others in
    if is_article_done idx s
    then record {
      articles = restored_article idx s a ∷ rest.articles;
      success_articles = rest.success_articles + 1;
      success_size = rest.success_size + a.size;
    }
    else record rest { articles = a ∷ rest.articles }

-- No state on disk, or one that does not read, leaves the file as it is.
unfoldable pub with_state : Option FileArticleState → FileInfo → FileInfo
unfolding restore_articles
with_state none f = f
with_state (some s) f =
    let r = restore_articles s 0 f.articles in
    record f {
      articles = r.articles;
      remaining_size = f.size - r.success_size;
      success_size = r.success_size;
      success_articles = r.success_articles;
      completed = r.success_articles == length f.articles;
    }

-- What is on disk: the document of a download, and the state of a file, by their ids.
pub record Disk : Type 0 where
  pub load_nzb_file : ℕ → Option (List ℕ)
  pub load_file_state : ℕ → Option FileArticleState

abbrev pub completed_files : List FileInfo → ℕ
completed_files fs = length (retain (λ (f : FileInfo). f.completed) fs)

abbrev pub id_or : ℕ → Option ℕ → ℕ × ℕ
id_or next none = (next, suc next)
id_or next (some id) = (id, next)

module _ (disk : Disk) (now : ℕ) where
  -- A file without an id gets the next one.
  unfoldable pub restore_files : NzbState → ℕ → ℕ → List Parsed.NzbFile → List FileInfo × ℕ
  unfolding with_state new_file
  restore_files n file_idx max_file_id [] = ([], max_file_id)
  restore_files n file_idx max_file_id (f ∷ fs) =
      let (file_id, next) = id_or max_file_id (get_elem? n.file_ids file_idx) in
      let rest = restore_files n (suc file_idx) next fs in
      (
        with_state (disk.load_file_state file_id) (new_file now n.priority n.id file_id file_idx f)
            ∷ rest.0,
        rest.1,
      )

  unfoldable pub restored_nzb : NzbState → List FileInfo → NzbInfo
  restored_nzb n files =
      let total_size = sum_by (λ (f : FileInfo). f.size) files in
      let success_size = sum_by (λ (f : FileInfo). f.success_size) files in
      record {
        id = n.id;
        kind = nzb_kind;
        name = n.name;
        filename = n.filename;
        url = or_default [] n.url;
        dest_dir = n.dest_dir;
        final_dir = or_default [] n.final_dir;
        temp_dir = [];
        queue_dir = [];
        category = n.category;
        priority = n.priority;
        dup_key = n.dupe_key;
        dup_mode = n.dupe_mode;
        dup_score = n.dupe_score;
        size = total_size;
        remaining_size = total_size - success_size;
        paused_size = 0;
        failed_size = 0;
        success_size = success_size;
        current_downloaded_size = 0;
        par_size = 0;
        par_remaining_size = 0;
        par_current_success_size = 0;
        par_failed_size = 0;
        par_total_article_count = 0;
        par_failed_article_count = 0;
        file_count = length files;
        remaining_file_count = length files - completed_files files;
        remaining_par_count = 0;
        total_article_count = sum_by (λ (f : FileInfo). length f.articles) files;
        success_article_count = sum_by (λ (f : FileInfo). f.success_articles) files;
        failed_article_count = 0;
        added_time = now;
        min_time = none;
        max_time = none;
        download_start_time = none;
        download_sec = 0;
        post_total_sec = 0;
        par_sec = 0;
        repair_sec = 0;
        unpack_sec = 0;
        paused = n.paused;
        deleted = false;
        direct_rename = false;
        force_priority = false;
        reprocess = false;
        par_manual = false;
        clean_up_disk = false;
        par_status = par_none;
        unpack_status = unpack_none;
        move_status = move_none;
        delete_status = delete_none;
        mark_status = mark_none;
        url_status = url_none;
        script_status = script_none;
        health = n.health;
        critical_health = n.critical_health;
        files = files;
        completed_files = [];
        server_stats = [];
        parameters = [];
        post_info = none;
        message_count = 0;
        cached_message_count = 0;
      }

  module _ (lib : Libraries) (readers : Readers) where
    abbrev pub parsed_of : Option (List ℕ) → Option Parsed.NzbInfo
    unfolding parse_nzb_auto
    parsed_of none = none
    parsed_of (some bytes) = elim (parse_nzb_auto lib readers bytes) [
      | Parsed.ok p ↦ some p
      | Parsed.err e ↦ none
    ]

    -- A download whose document is missing or does not parse is skipped.
    abbrev pub next_nzb : NzbState → Option Parsed.NzbInfo → ℕ → List NzbInfo × ℕ
    unfolding restore_files restored_nzb
    next_nzb n none max_file_id = ([], max_file_id)
    next_nzb n (some p) max_file_id =
        let (files, next) = restore_files n 0 max_file_id p.files in
        (restored_nzb n files ∷ [], next)

    -- The downloads, and the next id of a file.
    unfoldable pub restore_nzbs : List NzbState → ℕ → List NzbInfo × ℕ
    unfolding next_nzb parsed_of
    restore_nzbs [] max_file_id = ([], max_file_id)
    restore_nzbs (n ∷ ns) max_file_id =
        let (nzbs, next) = next_nzb n (parsed_of (disk.load_nzb_file n.id)) max_file_id in
        let rest = restore_nzbs ns next in (nzbs ++ rest.0, rest.1)
