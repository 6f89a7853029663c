-- ===== src/Queue/Download.antt =====
-- crates/bergamot-queue/src/coordinator.rs: `handle_download_complete`. The arguments `now` and
-- `clock` are the readings of the two clocks that it uses.
pub mod Accounts
pub mod Books
pub mod Steps
pub mod Ledger
use bergamot.Prelude.{
  ℕ, ◌+◌, ◌-◌, Bool, true, false, List, [], ◌∷◌, Option, none, some, if◌then◌else◌, ◌==◌,
}
use bergamot.Prelude.Map.{get, remove}
use bergamot.Queue.Nzb.{NzbInfo}
use bergamot.Queue.Health.{Scaling}
use bergamot.Queue.State.{
  article_id_eq, ArticleId, ActiveDownload, DownloadOutcome, success, failure, blocked,
  DownloadResult, SchedulerOps, QueueCoordinator, modify_nzb, find_nzb, decrement_active_per_file,
}
use bergamot.Queue.Complete.{
  article_at, size_at, terminal_at, nzb_success, nzb_failure, nzb_blocked, update_health,
  check_health_failure, check_file_completion, check_nzb_completion,
}

abbrev or_else {ℓ} : {A : Type ℓ} → Option A → Option A → Option A
or_else none b = b
or_else (some a) b = some a

abbrev server_of : Option ActiveDownload → Option ℕ
server_of none = none
server_of (some d) = d.server_id

abbrev size_of : Option ActiveDownload → ℕ
size_of none = 0
size_of (some d) = d.expected_size

abbrev elapsed_of : Option ℕ → Option ActiveDownload → ℕ → ℕ
elapsed_of (some t) d clock = t
elapsed_of none none clock = 0
elapsed_of none (some d) clock = clock - d.started

abbrev succeeded : DownloadOutcome → Bool
succeeded (success payload offset crc) = true
succeeded o = false

module _ {S : Type 0} (ops : SchedulerOps S) where
  abbrev feed_scheduler :
      DownloadResult → Option ActiveDownload → ℕ → Option S → Option ℕ → Option S
  feed_scheduler r d clock none sid = none
  feed_scheduler r d clock (some s) none = some s
  feed_scheduler r d clock (some s) (some sid) = some (
      ops.complete_on_server s sid (size_of d) (elapsed_of r.elapsed d clock) (succeeded r.outcome))

  -- The article leaves the tables of active downloads, and the scheduler learns of it.
  unfoldable pub release : DownloadResult → ℕ → QueueCoordinator S → QueueCoordinator S
  unfolding decrement_active_per_file
  release r clock c =
      let id = r.article_id in
      let d = get id c.active_downloads in
      let c' = decrement_active_per_file (id.nzb_id, id.file_idx) c in
      record c' {
        active_downloads = remove id c.active_downloads;
        server_scheduler =
            feed_scheduler r d clock c.server_scheduler (or_else r.server_id (server_of d));
      }

-- The last four calls of the handler.
unfoldable pub check_all :
    {S : Type 0} → Scaling → ℕ → ArticleId → QueueCoordinator S → QueueCoordinator S
unfolding update_health check_health_failure check_file_completion check_nzb_completion
check_all sc now id c = check_nzb_completion now id.nzb_id (
    check_file_completion id.nzb_id id.file_idx
      (check_health_failure now id.nzb_id (update_health sc id.nzb_id c)))

-- The match on the outcome, for an article that is not terminal.
unfoldable pub record_outcome :
    {S : Type 0}
    → Scaling
    → ℕ
    → ArticleId
    → NzbInfo
    → DownloadOutcome
    → QueueCoordinator S
    → QueueCoordinator S
unfolding check_all nzb_success nzb_failure nzb_blocked
record_outcome sc now id n (success payload offset crc) c =
    let c' = modify_nzb id.nzb_id (nzb_success id.file_idx id.seg_idx crc now) c in
    check_all sc now id (record c' {
      session_downloaded = c.session_downloaded + size_at (article_at n id.file_idx id.seg_idx);
    })
record_outcome sc now id n (failure message) c =
    check_all sc now id (modify_nzb id.nzb_id (nzb_failure id.file_idx id.seg_idx) c)
record_outcome sc now id n (blocked message) c =
    let c' = modify_nzb id.nzb_id (nzb_blocked id.file_idx id.seg_idx) c in
    record c' { paused = true }

abbrev pub on_found :
    {S : Type 0}
    → Scaling
    → ℕ
    → ArticleId
    → DownloadOutcome
    → QueueCoordinator S
    → Option NzbInfo
    → QueueCoordinator S
unfolding record_outcome check_all
on_found sc now id o c none = check_all sc now id c
on_found sc now id o c (some n) =
    if terminal_at (article_at n id.file_idx id.seg_idx) then c else record_outcome sc now id n o c

unfoldable pub handle_download_complete :
    {S : Type 0}
    → SchedulerOps S
    → Scaling
    → DownloadResult
    → ℕ
    → ℕ
    → QueueCoordinator S
    → QueueCoordinator S
unfolding release record_outcome
handle_download_complete ops sc r now clock c =
    let c' = release ops r clock c in
    on_found sc now r.article_id r.outcome c' (find_nzb r.article_id.nzb_id c')
