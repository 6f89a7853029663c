-- ===== src/Queue/Commands.antt =====
-- crates/bergamot-queue/src/coordinator.rs: `new` and what small commands do; command.rs's
-- `QueueCommand`. The scheduler's statistics are not built here.
use bergamot.Prelude.{ℕ, Bool, false, not, List, [], map, Option, none, length, if◌then◌else◌, ◌==◌}
use bergamot.Prelude.Find.{modify_at, retain, sum_by}
use bergamot.Text.{Text}
use bergamot.Nzb.Model.{NzbError}
use bergamot.Nzb.Subject.{Libraries}
use bergamot.Nzb.Info.{Readers}
use bergamot.Queue.Types.{
  Priority, ParStatus, UnpackStatus, MoveStatus, MarkStatus, PostStage, PostStrategy, sequential,
}
use bergamot.Queue.Nzb.{FileInfo, NzbInfo}
use bergamot.Queue.Health.{Scaling}
use bergamot.Queue.State.{
  DownloadResult, nzb_not_found, SchedulerOps, QueueCoordinator, has_id, with_nzbs, modify_nzb,
}
use bergamot.Queue.Edit.{MovePosition, EditAction, Answer, ok, err}
use bergamot.Queue.NewNzb.{AddNzbOptions, NzbSource}
use bergamot.Queue.Listings.{QueueSnapshot, FileListEntry, HistoryListEntry, FileArticleSnapshot}
use bergamot.Queue.Post.{PostProcessTimings}

-- `AddNzb` carries what is found at its path.
pub data QueueCommand : Type 0 where
  add_nzb : NzbSource → Option Text → Priority → AddNzbOptions → QueueCommand
  remove_nzb : ℕ → Bool → QueueCommand
  pause_nzb resume_nzb : ℕ → QueueCommand
  move_nzb_to : ℕ → MovePosition → QueueCommand
  pause_file resume_file : ℕ → ℕ → QueueCommand
  pause_all resume_all : QueueCommand
  set_download_rate : ℕ → QueueCommand
  edit_queue : EditAction → List ℕ → QueueCommand
  get_status get_nzb_list get_queue_snapshot : QueueCommand
  download_complete : DownloadResult → QueueCommand
  par_unpause : ℕ → QueueCommand
  get_file_list : ℕ → QueueCommand
  get_history : QueueCommand
  history_return history_reprocess history_download_again : ℕ → QueueCommand
  history_mark_as : ℕ → MarkStatus → QueueCommand
  history_remove : ℕ → QueueCommand
  post_status : ℕ → Option ParStatus → Option UnpackStatus → Option MoveStatus → QueueCommand
  post_stage : ℕ → PostStage → QueueCommand
  post_progress : ℕ → ℕ → QueueCommand
  post_finished :
      ℕ → ParStatus → UnpackStatus → MoveStatus → Option Text → PostProcessTimings → QueueCommand
  get_all_file_article_states : QueueCommand
  set_strategy : PostStrategy → QueueCommand
  get_scheduler_stats shut_down : QueueCommand

pub record QueueStatus : Type 0 where
  pub queued : ℕ
  pub paused : Bool
  pub download_rate : ℕ
  pub remaining_size : ℕ
  pub downloaded_size : ℕ

pub record NzbListEntry : Type 0 where
  pub id : ℕ
  pub name : Text
  pub priority : Priority

-- What is sent on a command's reply channel; `scheduler_stats` stands for the statistics.
pub data Reply : Type 0 where
  no_reply scheduler_stats : Reply
  with_id : Answer ℕ → Reply
  with_result : Answer (Unit {0}) → Reply
  with_queue_status : QueueStatus → Reply
  with_nzb_list : List NzbListEntry → Reply
  with_snapshot : QueueSnapshot → Reply
  with_file_list : Answer (List FileListEntry) → Reply
  with_history_list : List HistoryListEntry → Reply
  with_article_states : List FileArticleSnapshot → Reply

-- What the program outside hands to a command: the clocks, the libraries and how an error reads.
pub record Environment (S : Type 0) : Type 0 where
  pub ops : SchedulerOps S
  pub scaling : Scaling
  pub libraries : Libraries
  pub readers : Readers
  pub shown : NzbError → Text

abbrev pub set_file_paused : Bool → ℕ → NzbInfo → NzbInfo
set_file_paused b idx n = record n {
  files = modify_at idx (λ (f : FileInfo). record f { paused = b }) n.files;
}

module _ {S : Type 0} where
  unfoldable pub new_coordinator : ℕ → ℕ → Text → Text → QueueCoordinator S
  new_coordinator max_connections max_articles_per_file inter_dir dest_dir = record {
    queue = record { queue = []; history = []; next_nzb_id = 1; next_file_id = 1 };
    active_downloads = [];
    active_per_file = [];
    max_connections = max_connections;
    max_articles_per_file = max_articles_per_file;
    download_rate = 0;
    paused = false;
    shutdown = false;
    strategy = sequential;
    inter_dir = inter_dir;
    dest_dir = dest_dir;
    completion_tx = none;
    session_downloaded = 0;
    server_scheduler = none;
  }

  unfoldable pub remove_from_queue : ℕ → QueueCoordinator S → QueueCoordinator S × Answer (Unit {0})
  remove_from_queue id c =
      let kept = retain (λ (n : NzbInfo). not (has_id id n)) c.queue.queue in
      (
        with_nzbs c kept,
        if length kept == length c.queue.queue then err (nzb_not_found id) else ok tt,
      )

  -- `file_mut`, and the flag set on what it finds.
  unfoldable pub set_paused_at : Bool → ℕ → ℕ → QueueCoordinator S → QueueCoordinator S
  set_paused_at b id idx c = modify_nzb id (set_file_paused b idx) c

  abbrev pub status_of : QueueCoordinator S → QueueStatus
  status_of c = record {
    queued = length c.queue.queue;
    paused = c.paused;
    download_rate = c.download_rate;
    remaining_size = sum_by (λ (n : NzbInfo). n.remaining_size) c.queue.queue;
    downloaded_size = c.session_downloaded;
  }

  abbrev pub nzb_list : QueueCoordinator S → List NzbListEntry
  nzb_list c =
      map
        (λ (n : NzbInfo).
          let e : NzbListEntry = record { id = n.id; name = n.name; priority = n.priority } in e)
        c.queue.queue

  abbrev pub replied :
      {A : Type 0} → (A → Reply) → QueueCoordinator S × A → QueueCoordinator S × Reply
  replied f (c, a) = (c, f a)
