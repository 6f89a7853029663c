-- ===== src/Queue/History.antt =====
-- crates/bergamot-queue/src/coordinator.rs: `history_return_to_queue`, `history_process`,
-- `history_redownload`, `history_mark` and `history_delete`.
pub mod Again
use bergamot.Prelude.{
  ℕ, ◌+◌, Bool, true, false, not, List, [], ◌∷◌, ◌++◌, map, Option, none, some, if◌then◌else◌, ◌==◌,
  length, get_elem?,
}
use bergamot.Prelude.Find.{find, position, remove_at, modify_first, retain}
use bergamot.Text.{Text}
use bergamot.Queue.Types.{
  par_none, unpack_none, move_none, delete_none, MarkStatus, mark_none, script_none, undefined,
}
use bergamot.Queue.Nzb.{ArticleInfo, FileInfo, NzbInfo, HistoryInfo, DownloadQueue}
use bergamot.Queue.State.{nzb_not_found, QueueCoordinator, entry_has_id, with_history}
use bergamot.Queue.Complete.{check_nzb_completion}
use bergamot.Queue.Edit.{Answer, ok, err}

-- A download from the history, under a new id.
abbrev pub revived : ℕ → NzbInfo → NzbInfo
revived new_id n = record n { id = new_id; paused = false; deleted = false }

-- `temp_dir`, or where that is empty the first of two directories that is not.
abbrev work_dir : Text → Text → Text → Text
work_dir (c ∷ s) final dest = c ∷ s
work_dir [] (c ∷ s) dest = c ∷ s
work_dir [] [] dest = dest

unfoldable pub reprocessed : ℕ → NzbInfo → NzbInfo
reprocessed new_id m =
    let n = revived new_id m in
    record n {
      temp_dir = work_dir n.temp_dir n.final_dir n.dest_dir;
      remaining_file_count = 0;
      post_total_sec = 0;
      par_sec = 0;
      repair_sec = 0;
      unpack_sec = 0;
      reprocess = true;
      par_status = par_none;
      unpack_status = unpack_none;
      move_status = move_none;
      delete_status = delete_none;
      mark_status = mark_none;
      script_status = script_none;
      files = map (λ (f : FileInfo). record f { completed = true }) n.files;
    }

unfoldable pub fresh_file : FileInfo → FileInfo
fresh_file f = record f {
  articles = map (λ (a : ArticleInfo). record a { status = undefined }) f.articles;
  remaining_size = f.size;
  success_size = 0;
  failed_size = 0;
  missed_size = 0;
  missing_articles = 0;
  failed_articles = 0;
  success_articles = 0;
  paused = false;
  completed = false;
}

unfoldable pub redownloaded : ℕ → NzbInfo → NzbInfo
unfolding fresh_file
redownloaded new_id m =
    let n = revived new_id m in
    record n {
      remaining_size = n.size;
      failed_size = 0;
      success_size = 0;
      current_downloaded_size = 0;
      success_article_count = 0;
      failed_article_count = 0;
      par_status = par_none;
      unpack_status = unpack_none;
      move_status = move_none;
      delete_status = delete_none;
      mark_status = mark_none;
      health = 1000;
      files = map fresh_file n.files;
    }

abbrev pub entry_at : List HistoryInfo → Option ℕ → Option HistoryInfo
entry_at hs none = none
entry_at hs (some i) = get_elem? hs i

abbrev pub marked : MarkStatus → HistoryInfo → HistoryInfo
marked mark h = let n = h.nzb_info in record h { nzb_info = record n { mark_status = mark } }

abbrev answer_for : {A : Type 0} → ℕ → Option A → Answer (Unit {0})
answer_for id none = err (nzb_not_found id)
answer_for id (some a) = ok tt

module _ {S : Type 0} where
  -- Takes an entry out of the history and puts its download, made over, at the end of the queue.
  abbrev pub requeue :
      (ℕ → NzbInfo → NzbInfo) → QueueCoordinator S → ℕ → HistoryInfo → QueueCoordinator S
  requeue f c idx h =
      let q = c.queue in
      record c {
        queue = record q {
          queue = q.queue ++ f q.next_nzb_id h.nzb_info ∷ [];
          history = remove_at idx q.history;
          next_nzb_id = q.next_nzb_id + 1;
        };
      }

  -- The three operations begin and end alike: `f` makes the download over, `g` comes after.
  abbrev pub take_back :
      (ℕ → NzbInfo → NzbInfo)
      → (ℕ → QueueCoordinator S → QueueCoordinator S)
      → ℕ
      → QueueCoordinator S
      → Option ℕ
      → Option HistoryInfo
      → QueueCoordinator S × Answer ℕ
  take_back f g id c (some idx) (some h) =
      (g c.queue.next_nzb_id (requeue f c idx h), ok c.queue.next_nzb_id)
  take_back f g id c idx h = (c, err (nzb_not_found id))

  abbrev pub from_history :
      (ℕ → NzbInfo → NzbInfo)
      → (ℕ → QueueCoordinator S → QueueCoordinator S)
      → ℕ
      → QueueCoordinator S
      → QueueCoordinator S × Answer ℕ
  from_history f g id c =
      let idx = position (entry_has_id id) c.queue.history in
      take_back f g id c idx (entry_at c.queue.history idx)

  unfoldable pub history_return_to_queue : ℕ → QueueCoordinator S → QueueCoordinator S × Answer ℕ
  history_return_to_queue = from_history revived (λ new_id c. c)

  unfoldable pub history_process : ℕ → ℕ → QueueCoordinator S → QueueCoordinator S × Answer ℕ
  unfolding reprocessed check_nzb_completion
  history_process now = from_history reprocessed (check_nzb_completion now)

  unfoldable pub history_redownload : ℕ → QueueCoordinator S → QueueCoordinator S × Answer ℕ
  unfolding redownloaded
  history_redownload = from_history redownloaded (λ new_id c. c)

  unfoldable pub history_mark :
      ℕ → MarkStatus → QueueCoordinator S → QueueCoordinator S × Answer (Unit {0})
  history_mark id mark c = (
    with_history c (modify_first (entry_has_id id) (marked mark) c.queue.history),
    answer_for id (find (entry_has_id id) c.queue.history),
  )

  unfoldable pub history_delete : ℕ → QueueCoordinator S → QueueCoordinator S × Answer (Unit {0})
  history_delete id c =
      let kept = retain (λ h. not (entry_has_id id h)) c.queue.history in
      (
        with_history c kept,
        if length kept == length c.queue.history then err (nzb_not_found id) else ok tt,
      )
