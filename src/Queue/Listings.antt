-- ===== src/Queue/Listings.antt =====
-- crates/bergamot-queue/src/coordinator.rs: the listings that commands ask for, with their types in
-- status.rs.
use bergamot.Prelude.{
  ℕ, suc, ◌-◌, Bool, List, [], ◌∷◌, ◌++◌, map, Option, none, some, length, if◌then◌else◌, ◌==◌,
}
use mathlib.Core.Option
use bergamot.Prelude.Find.{find, retain}
use bergamot.Prelude.Int.{ℤ}
use bergamot.Text.{Text}
use bergamot.Queue.Types.{
  Priority, ParStatus, UnpackStatus, MoveStatus, DeleteStatus, MarkStatus, ScriptStatus, DupMode,
  HistoryKind, PostStage, NzbParameter, PostInfo,
}
use bergamot.Queue.Nzb.{ArticleInfo, FileInfo, NzbInfo, HistoryInfo}
use bergamot.Queue.State.{ArticleId, ActiveDownload, nzb_not_found, QueueCoordinator, has_id}
use bergamot.Queue.Edit.{Answer, ok, err}
use bergamot.Queue.Download.Accounts.{is_finished}

pub record NzbSnapshotEntry : Type 0 where
  pub id : ℕ
  pub name : Text
  pub filename : Text
  pub url : Text
  pub category : Text
  pub dest_dir : Text
  pub final_dir : Option Text
  pub priority : Priority
  pub paused : Bool
  pub dupe_key : Text
  pub dupe_score : ℤ
  pub dupe_mode : DupMode
  pub added_time : ℕ
  pub total_size : ℕ
  pub downloaded_size : ℕ
  pub failed_size : ℕ
  pub health : ℕ
  pub critical_health : ℕ
  pub total_article_count : ℕ
  pub success_article_count : ℕ
  pub failed_article_count : ℕ
  pub parameters : List (Text × Text)
  pub active_downloads : ℕ
  pub file_count : ℕ
  pub remaining_file_count : ℕ
  pub remaining_par_count : ℕ
  pub file_ids : List ℕ
  pub post_stage : Option PostStage
  pub post_stage_progress : ℕ
  pub post_info_text : Text
  pub post_stage_time_sec : ℕ
  pub post_total_time_sec : ℕ

pub record HistoryListEntry : Type 0 where
  pub id : ℕ
  pub name : Text
  pub category : Text
  pub dest_dir : Text
  pub final_dir : Text
  pub kind : HistoryKind
  pub time : ℕ
  pub size : ℕ
  pub par_status : ParStatus
  pub unpack_status : UnpackStatus
  pub move_status : MoveStatus
  pub delete_status : DeleteStatus
  pub mark_status : MarkStatus
  pub script_status : ScriptStatus
  pub health : ℕ
  pub file_count : ℕ
  pub remaining_par_count : ℕ
  pub total_article_count : ℕ
  pub success_article_count : ℕ
  pub failed_article_count : ℕ
  pub download_time_sec : ℕ
  pub post_total_sec : ℕ
  pub par_sec : ℕ
  pub repair_sec : ℕ
  pub unpack_sec : ℕ
  pub dupe_key : Text
  pub dupe_score : ℤ
  pub dupe_mode : DupMode
  pub parameters : List (Text × Text)
  pub nzb_filename : Text

pub record QueueSnapshot : Type 0 where
  pub nzbs : List NzbSnapshotEntry
  pub history : List HistoryListEntry
  pub next_nzb_id : ℕ
  pub next_file_id : ℕ
  pub download_paused : Bool
  pub speed_limit : ℕ

pub record FileListEntry : Type 0 where
  pub id : ℕ
  pub nzb_id : ℕ
  pub filename : Text
  pub subject : Text
  pub size : ℕ
  pub remaining_size : ℕ
  pub paused : Bool
  pub total_articles : ℕ
  pub success_articles : ℕ
  pub failed_articles : ℕ
  pub active_downloads : ℕ
  pub completed : Bool

-- The pairs are an article's index and its checksum.
pub record FileArticleSnapshot : Type 0 where
  pub file_id : ℕ
  pub total_articles : ℕ
  pub completed_articles : List (ℕ × ℕ)

-- A path that is not empty.
abbrev pub non_empty : Text → Option Text
non_empty [] = none
non_empty (c ∷ s) = some (c ∷ s)

abbrev pub parameter_pairs : List NzbParameter → List (Text × Text)
parameter_pairs ps = map (λ (p : NzbParameter). (p.name, p.value)) ps

-- What is read off the post-processing of a download, or the default where there is none.
abbrev pub of_post {ℓ} : {A : Type ℓ} → A → (PostInfo → A) → Option PostInfo → A
of_post a f none = a
of_post a f (some p) = f p

-- The downloads of a download that are in flight.
abbrev pub active_of : ℕ → List (ArticleId × ActiveDownload) → ℕ
active_of id active = length (retain (λ (k : ArticleId × ActiveDownload). k.0.nzb_id == id) active)

-- A clock that was set back shows 0 seconds, as `elapsed` then fails.
unfoldable pub snapshot_entry : ℕ → List (ArticleId × ActiveDownload) → NzbInfo → NzbSnapshotEntry
snapshot_entry now active nzb = record {
  id = nzb.id;
  name = nzb.name;
  filename = nzb.filename;
  url = nzb.url;
  category = nzb.category;
  dest_dir = nzb.dest_dir;
  final_dir = non_empty nzb.final_dir;
  priority = nzb.priority;
  paused = nzb.paused;
  dupe_key = nzb.dup_key;
  dupe_score = nzb.dup_score;
  dupe_mode = nzb.dup_mode;
  added_time = nzb.added_time;
  total_size = nzb.size;
  downloaded_size = nzb.success_size;
  failed_size = nzb.failed_size;
  health = nzb.health;
  critical_health = nzb.critical_health;
  total_article_count = nzb.total_article_count;
  success_article_count = nzb.success_article_count;
  failed_article_count = nzb.failed_article_count;
  parameters = parameter_pairs nzb.parameters;
  active_downloads = active_of nzb.id active;
  file_count = nzb.file_count;
  remaining_file_count = nzb.remaining_file_count;
  remaining_par_count = nzb.remaining_par_count;
  file_ids = map (λ (f : FileInfo). f.id) nzb.files;
  post_stage = Option.map (λ (p : PostInfo). p.stage) nzb.post_info;
  post_stage_progress = of_post 0 (λ p. p.stage_progress) nzb.post_info;
  post_info_text = of_post [] (λ p. p.progress_label) nzb.post_info;
  post_stage_time_sec = of_post 0 (λ p. now - p.stage_time) nzb.post_info;
  post_total_time_sec = of_post 0 (λ p. now - p.start_time) nzb.post_info;
}

unfoldable pub history_entry : HistoryInfo → HistoryListEntry
history_entry h =
    let n = h.nzb_info in
    record {
      id = h.id;
      name = n.name;
      category = n.category;
      dest_dir = n.dest_dir;
      final_dir = n.final_dir;
      kind = h.kind;
      time = h.time;
      size = n.size;
      par_status = n.par_status;
      unpack_status = n.unpack_status;
      move_status = n.move_status;
      delete_status = n.delete_status;
      mark_status = n.mark_status;
      script_status = n.script_status;
      health = n.health;
      file_count = n.file_count;
      remaining_par_count = n.remaining_par_count;
      total_article_count = n.total_article_count;
      success_article_count = n.success_article_count;
      failed_article_count = n.failed_article_count;
      download_time_sec = n.download_sec;
      post_total_sec = n.post_total_sec;
      par_sec = n.par_sec;
      repair_sec = n.repair_sec;
      unpack_sec = n.unpack_sec;
      dupe_key = n.dup_key;
      dupe_score = n.dup_score;
      dupe_mode = n.dup_mode;
      parameters = parameter_pairs n.parameters;
      nzb_filename = n.filename;
    }

unfoldable pub file_entry : FileInfo → FileListEntry
file_entry f = record {
  id = f.id;
  nzb_id = f.nzb_id;
  filename = f.filename;
  subject = f.subject;
  size = f.size;
  remaining_size = f.remaining_size;
  paused = f.paused;
  total_articles = f.total_articles;
  success_articles = f.success_articles;
  failed_articles = f.failed_articles;
  active_downloads = f.active_downloads;
  completed = f.completed;
}

-- The articles that are downloaded, from an index on.
unfoldable pub completed_from : ℕ → List ArticleInfo → List (ℕ × ℕ)
completed_from i [] = []
completed_from i (a ∷ rest_articles) =
    let rest = completed_from (suc i) rest_articles in
    if is_finished a.status then (i, a.crc) ∷ rest else rest

abbrev pub snapshot_if : FileInfo → List (ℕ × ℕ) → List FileArticleSnapshot
snapshot_if f [] = []
snapshot_if f (p ∷ ps) =
    record { file_id = f.id; total_articles = f.total_articles; completed_articles = p ∷ ps } ∷ []

unfoldable pub states_of_files : List FileInfo → List FileArticleSnapshot
unfolding completed_from
states_of_files [] = []
states_of_files (f ∷ fs) = snapshot_if f (completed_from 0 f.articles) ++ states_of_files fs

unfoldable pub states_of_nzbs : List NzbInfo → List FileArticleSnapshot
unfolding states_of_files
states_of_nzbs [] = []
states_of_nzbs (n ∷ ns) = states_of_files n.files ++ states_of_nzbs ns

abbrev pub list_of : ℕ → Option NzbInfo → Answer (List FileListEntry)
unfolding file_entry
list_of id none = err (nzb_not_found id)
list_of id (some nzb) = ok (map file_entry nzb.files)

module _ {S : Type 0} where
  unfoldable pub build_history_list : QueueCoordinator S → List HistoryListEntry
  unfolding history_entry
  build_history_list c = map history_entry c.queue.history

  unfoldable pub build_snapshot : ℕ → QueueCoordinator S → QueueSnapshot
  unfolding snapshot_entry build_history_list
  build_snapshot now c = record {
    nzbs = map (snapshot_entry now c.active_downloads) c.queue.queue;
    history = build_history_list c;
    next_nzb_id = c.queue.next_nzb_id;
    next_file_id = c.queue.next_file_id;
    download_paused = c.paused;
    speed_limit = c.download_rate;
  }

  unfoldable pub build_file_list : ℕ → QueueCoordinator S → Answer (List FileListEntry)
  build_file_list id c = list_of id (find (has_id id) c.queue.queue)

  unfoldable pub build_all_file_article_states : QueueCoordinator S → List FileArticleSnapshot
  unfolding states_of_nzbs
  build_all_file_article_states c = states_of_nzbs c.queue.queue
