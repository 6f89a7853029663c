-- ===== src/Queue/Loop.antt =====
-- crates/bergamot-queue/src/coordinator.rs: `handle_command` and the loop of `run`.
pub mod Ids
pub mod Outcomes
pub mod Edits
pub mod Filed
pub mod Numbered
use bergamot.Prelude.{
  ℕ, ◌≡◌, Bool, true, false, ◌&&◌, List, [], ◌∷◌, map, Option, none, some, length, ◌==◌,
}
use mathlib.Core.Option
use bergamot.Queue.Nzb.{NzbInfo}
use bergamot.Queue.State.{SchedulerOps, QueueCoordinator, with_nzbs, modify_nzb}
use bergamot.Queue.Download.{handle_download_complete}
use bergamot.Queue.Edit.{Answer, ok, err, move_nzb, apply_edit, unpause_par_files}
use bergamot.Queue.History.{
  history_return_to_queue, history_process, history_redownload, history_mark, history_delete,
}
use bergamot.Queue.Ingest.{ingest_nzb}
use bergamot.Queue.Post.{
  update_post_status, update_post_stage, update_post_progress, finish_post_processing,
}
use bergamot.Queue.Listings.{
  build_snapshot, build_file_list, build_history_list, build_all_file_article_states,
}
use bergamot.Queue.Slots.{ArticleAssignment, Sent, try_fill_download_slots}
use bergamot.Queue.Commands.{
  QueueCommand, add_nzb, remove_nzb, pause_nzb, resume_nzb, move_nzb_to, pause_file, resume_file,
  pause_all, resume_all, set_download_rate, edit_queue, get_status, get_nzb_list,
  get_queue_snapshot, download_complete, par_unpause, get_file_list, get_history, history_return,
  history_reprocess, history_download_again, history_mark_as, history_remove, post_status,
  post_stage, post_progress, post_finished, get_all_file_article_states, set_strategy,
  get_scheduler_stats, shut_down, Reply, no_reply, scheduler_stats, with_id, with_result,
  with_queue_status, with_nzb_list, with_snapshot, with_file_list, with_history_list,
  with_article_states, Environment, remove_from_queue, set_paused_at, status_of, nzb_list, replied,
}

module _ {S : Type 0} (env : Environment S) (now clock : ℕ) where
  unfoldable pub handle_command : QueueCommand → QueueCoordinator S → QueueCoordinator S × Reply
  unfolding ingest_nzb remove_from_queue set_paused_at handle_download_complete move_nzb apply_edit
      unpause_par_files history_return_to_queue history_process history_redownload history_mark
      history_delete update_post_status update_post_stage update_post_progress
      finish_post_processing build_snapshot build_file_list build_history_list
      build_all_file_article_states
  handle_command (add_nzb source category priority options) c = replied with_id (
      ingest_nzb env.scaling now source category priority options env.libraries env.readers
        env.shown c)
  handle_command (remove_nzb id delete_files) c = replied with_result (remove_from_queue id c)
  handle_command (pause_nzb id) c = (modify_nzb id (λ n. record n { paused = true }) c, no_reply)
  handle_command (resume_nzb id) c = (modify_nzb id (λ n. record n { paused = false }) c, no_reply)
  handle_command (move_nzb_to id position) c = ((move_nzb id position c).0, no_reply)
  handle_command (pause_file id idx) c = (set_paused_at true id idx c, no_reply)
  handle_command (resume_file id idx) c = (set_paused_at false id idx c, no_reply)
  handle_command pause_all c = (record c { paused = true }, no_reply)
  handle_command resume_all c = (
    record (with_nzbs c (map (λ (n : NzbInfo). record n { paused = false }) c.queue.queue)) {
      paused = false;
    },
    no_reply,
  )
  handle_command (set_download_rate rate) c = (record c { download_rate = rate }, no_reply)
  handle_command (edit_queue action ids) c = replied with_result (apply_edit action ids c)
  handle_command get_status c = (c, with_queue_status (status_of c))
  handle_command get_nzb_list c = (c, with_nzb_list (nzb_list c))
  handle_command get_queue_snapshot c = (c, with_snapshot (build_snapshot now c))
  handle_command (download_complete r) c =
      (handle_download_complete env.ops env.scaling r now clock c, no_reply)
  handle_command (par_unpause id) c = (unpause_par_files id c, no_reply)
  handle_command (get_file_list id) c = (c, with_file_list (build_file_list id c))
  handle_command get_history c = (c, with_history_list (build_history_list c))
  handle_command (history_return id) c = replied with_id (history_return_to_queue id c)
  handle_command (history_reprocess id) c = replied with_id (history_process now id c)
  handle_command (history_download_again id) c = replied with_id (history_redownload id c)
  handle_command (history_mark_as id mark) c = replied with_result (history_mark id mark c)
  handle_command (history_remove id) c = replied with_result (history_delete id c)
  handle_command (post_status id par unpack move) c =
      (update_post_status id par unpack move c, no_reply)
  handle_command (post_stage id stage) c = (update_post_stage now id stage c, no_reply)
  handle_command (post_progress id progress) c = (update_post_progress id progress c, no_reply)
  handle_command (post_finished id par unpack move final_dir timings) c =
      (finish_post_processing now id par unpack move final_dir timings c, no_reply)
  handle_command get_all_file_article_states c =
      (c, with_article_states (build_all_file_article_states c))
  handle_command (set_strategy strategy) c = (record c { strategy = strategy }, no_reply)
  handle_command get_scheduler_stats c = (c, scheduler_stats)
  handle_command shut_down c =
      (record c { shutdown = true; active_downloads = []; active_per_file = [] }, no_reply)

  -- The test that ends the loop of `run`.
  unfoldable pub done : QueueCoordinator S → Bool
  done c = c.shutdown && length c.active_downloads == 0

-- One round of `run`: a command, or the refill tick, and then the slots are filled. What holds after
-- any number of rounds holds in particular up to the round where `done` ends the loop.
pub data Round {S : Type 0} (env : Environment S) (c c' : QueueCoordinator S) : Type 0 where
  command :
      (now clock : ℕ) (cmd : QueueCommand) (answers : ℕ → Sent) (sent : List ArticleAssignment)
      → try_fill_download_slots env.ops answers clock (handle_command env now clock cmd c).0
        ≡ some (c', sent)
      → Round env c c'
  tick :
      (clock : ℕ) (answers : ℕ → Sent) (sent : List ArticleAssignment)
      → try_fill_download_slots env.ops answers clock c ≡ some (c', sent)
      → Round env c c'

pub data Runs {S : Type 0} (env : Environment S) (c : QueueCoordinator S)
    : QueueCoordinator S → Type 0 where
  starts :
      (c' : QueueCoordinator S) (clock : ℕ) (answers : ℕ → Sent) (sent : List ArticleAssignment)
      → try_fill_download_slots env.ops answers clock c ≡ some (c', sent)
      → Runs env c c'
  round : (c' c'' : QueueCoordinator S) → Runs env c c' → Round env c' c'' → Runs env c c''
