-- ===== src/Queue/State.antt =====
-- crates/bergamot-queue/src/coordinator.rs: the coordinator's state, `ArticleId` and
-- `ActiveDownload`; command.rs's `DownloadResult`; status.rs's `NzbCompletionNotice` and
-- `SegmentStatus`; error.rs. The server scheduler is reached through `SchedulerOps`.
use bergamot.Prelude.{
  ℕ, ◌+◌, ◌-◌, ◌≡◌, ◌↔◌, Bool, true, ◌&&◌, List, Option, none, some, arith, ◌==◌, if◌then◌else◌,
}
use bergamot.Prelude.Map.{Eq, get, insert, remove}
use bergamot.Prelude.Find.{find, modify_first}
use bergamot.Text.{Text}
use bergamot.Queue.Types.{PostStrategy}
use bergamot.Queue.Nzb.{NzbInfo, HistoryInfo, DownloadQueue}

pub record ArticleId : Type 0 where
  pub nzb_id : ℕ
  pub file_idx : ℕ
  pub seg_idx : ℕ

abbrev pub same_article : ArticleId → ArticleId → Bool
same_article a b = a.nzb_id == b.nzb_id && a.file_idx == b.file_idx && a.seg_idx == b.seg_idx

pub same_article_iff : (a b : ArticleId) → (same_article a b ≡ true) ↔ (a ≡ b)
same_article_iff a b = ground arith

instance abbrev pub article_id_eq : Eq ArticleId
article_id_eq = record { beq = same_article; beq_iff = same_article_iff }

-- The key of a file: the download's id and the file's index.
abbrev pub FileKey : Type 0
FileKey = ℕ × ℕ

abbrev pub same_file : FileKey → FileKey → Bool
same_file (a, b) (c, d) = a == c && b == d

pub same_file_iff : (a b : FileKey) → (same_file a b ≡ true) ↔ (a ≡ b)
same_file_iff (a, b) (c, d) = ground arith

instance abbrev pub file_key_eq : Eq FileKey
file_key_eq = record { beq = same_file; beq_iff = same_file_iff }

pub record ActiveDownload : Type 0 where
  pub started : ℕ
  pub server_id : Option ℕ
  pub expected_size : ℕ

pub data SegmentStatus : Type 0 where
  segment_undefined downloading segment_completed segment_failed : SegmentStatus

pub data DownloadOutcome : Type 0 where
  success : List ℕ → ℕ → ℕ → DownloadOutcome
  failure blocked : Text → DownloadOutcome

pub record DownloadResult : Type 0 where
  pub article_id : ArticleId
  pub outcome : DownloadOutcome
  pub server_id : Option ℕ
  pub elapsed : Option ℕ

pub record NzbCompletionNotice : Type 0 where
  pub nzb_id : ℕ
  pub nzb_name : Text
  pub working_dir : Text
  pub category : Option Text
  pub parameters : List (Text × Text)

pub data QueueError : Type 0 where
  nzb_not_found : ℕ → QueueError
  shut_down invalid_move : QueueError
  nzb_parse io_error : Text → QueueError
  duplicate : Text → ℕ → QueueError

-- The calls on the server scheduler, over its state `S`.
pub record SchedulerOps (S : Type 0) : Type 0 where
  pub complete_on_server : S → ℕ → ℕ → ℕ → Bool → S
  pub assign_to_server : S → ℕ → ℕ → S
  pub select_server : S → ℕ → Option ℕ
  pub total_max_connections : S → ℕ
  pub total_available_capacity : S → ℕ

-- `completion_tx` holds the notices that were offered to the channel; what `try_send` answers is
-- only logged.
pub record QueueCoordinator (S : Type 0) : Type 0 where
  pub queue : DownloadQueue
  pub active_downloads : List (ArticleId × ActiveDownload)
  pub active_per_file : List (FileKey × ℕ)
  pub max_connections : ℕ
  pub max_articles_per_file : ℕ
  pub download_rate : ℕ
  pub paused : Bool
  pub shutdown : Bool
  pub strategy : PostStrategy
  pub inter_dir : Text
  pub dest_dir : Text
  pub completion_tx : Option (List NzbCompletionNotice)
  pub session_downloaded : ℕ
  pub server_scheduler : Option S

abbrev pub has_id : ℕ → NzbInfo → Bool
has_id id n = n.id == id

abbrev pub entry_has_id : ℕ → HistoryInfo → Bool
entry_has_id id h = h.id == id

abbrev count_or_zero : Option ℕ → ℕ
count_or_zero none = 0
count_or_zero (some n) = n

abbrev lowered : FileKey → List (FileKey × ℕ) → Option ℕ → List (FileKey × ℕ)
lowered key m none = m
lowered key m (some n) = if n - 1 == 0 then remove key m else insert key (n - 1) m

module _ {S : Type 0} where
  -- `self.queue.queue = nzbs`.
  abbrev pub with_nzbs : QueueCoordinator S → List NzbInfo → QueueCoordinator S
  with_nzbs c nzbs = let q = c.queue in record c { queue = record q { queue = nzbs } }

  abbrev pub with_history : QueueCoordinator S → List HistoryInfo → QueueCoordinator S
  with_history c entries = let q = c.queue in record c { queue = record q { history = entries } }

  -- `if let Some(nzb) = self.queue.queue.iter_mut().find(|n| n.id == id) { … }`.
  abbrev pub modify_nzb : ℕ → (NzbInfo → NzbInfo) → QueueCoordinator S → QueueCoordinator S
  modify_nzb id f c = with_nzbs c (modify_first (has_id id) f c.queue.queue)

  abbrev pub find_nzb : ℕ → QueueCoordinator S → Option NzbInfo
  find_nzb id c = find (has_id id) c.queue.queue

  unfoldable pub active_per_file_count : FileKey → QueueCoordinator S → ℕ
  active_per_file_count key c = count_or_zero (get key c.active_per_file)

  unfoldable pub increment_active_per_file : FileKey → QueueCoordinator S → QueueCoordinator S
  increment_active_per_file key c = record c {
    active_per_file = insert key (count_or_zero (get key c.active_per_file) + 1) c.active_per_file;
  }

  unfoldable pub decrement_active_per_file : FileKey → QueueCoordinator S → QueueCoordinator S
  decrement_active_per_file key c = record c {
    active_per_file = lowered key c.active_per_file (get key c.active_per_file);
  }
