-- ===== src/Queue/Loop/Outcomes.antt =====
-- What the end of an article's download does keeps the ids of downloads apart.
use bergamot.Prelude.{ℕ, ◌≡◌, refl, inl, inr, Bool-cases, List, Option, none, some, get_elem?}
use bergamot.Queue.Nzb.{FileInfo, NzbInfo}
use bergamot.Queue.Health.{Scaling}
use bergamot.Queue.State.{
  ArticleId, DownloadOutcome, success, failure, blocked, DownloadResult, SchedulerOps,
  QueueCoordinator, find_nzb, NzbCompletionNotice,
}
use bergamot.Queue.Complete.{
  nzb_success, nzb_failure, nzb_blocked, nzb_health, nzb_file_completion, start_post,
  add_to_history, update_health, check_health_failure, check_file_completion, check_nzb_completion,
  hand_on, all_complete, too_ill, notice, finish_file, finishes, article_at, terminal_at,
  counted_success, counted_failure,
}
use bergamot.Queue.Download.{release, check_all, record_outcome, on_found, handle_download_complete}
use bergamot.Queue.Loop.Ids.{Numbered, modify_nzb-Numbered, retire-Numbered}

finish_file-id : (fi : ℕ) (n : NzbInfo) (o : Option FileInfo) → (finish_file fi n o).id ≡ n.id
finish_file-id fi n none = refl
finish_file-id fi n (some f) = elim (Bool-cases (finishes f)) [
  | inl e ↦ rw e refl
  | inr e ↦ rw e refl
]

module _ {S : Type 0} where
  check_health_failure-Numbered :
      (now id : ℕ) (c : QueueCoordinator S)
      → Numbered c.queue
      → Numbered (check_health_failure now id c).queue
  unfolding check_health_failure
  check_health_failure-Numbered now id c k = elim (Bool-cases (too_ill (find_nzb id c))) [
    | inl e ↦ rw e (retire-Numbered now id _ c _ _ (λ n. refl) refl refl k)
    | inr e ↦ rw e k
  ]

  hand_on-Numbered :
      (now id : ℕ) (c : QueueCoordinator S) (o : Option NzbInfo)
      (sent : Option (List NzbCompletionNotice))
      → find_nzb id c ≡ o
      → Numbered c.queue
      → Numbered (hand_on now id c o sent).queue
  unfolding start_post notice add_to_history
  hand_on-Numbered now id c (some n) (some sent) e k =
      modify_nzb-Numbered id (start_post now) c (λ n. refl) k
  hand_on-Numbered now id c (some n) none e k =
      retire-Numbered now id (start_post now) c (some n) _ (λ n. refl) e refl k
  hand_on-Numbered now id c none none e k = k
  hand_on-Numbered now id c none (some sent) e k = k

  pub check_nzb_completion-Numbered :
      (now id : ℕ) (c : QueueCoordinator S)
      → Numbered c.queue
      → Numbered (check_nzb_completion now id c).queue
  unfolding check_nzb_completion
  check_nzb_completion-Numbered now id c k = elim (Bool-cases (all_complete (find_nzb id c))) [
    | inl e ↦ rw e (hand_on-Numbered now id c _ c.completion_tx refl k)
    | inr e ↦ rw e k
  ]

  check_all-Numbered :
      (sc : Scaling) (now : ℕ) (id : ArticleId) (c : QueueCoordinator S)
      → Numbered c.queue
      → Numbered (check_all sc now id c).queue
  unfolding check_all update_health check_file_completion nzb_health nzb_file_completion
  check_all-Numbered sc now id c k =
      let c1 = update_health sc id.nzb_id c in
      let c2 = check_health_failure now id.nzb_id c1 in
      let c3 = check_file_completion id.nzb_id id.file_idx c2 in
      let k1 = modify_nzb-Numbered id.nzb_id (nzb_health sc) c (λ n. refl) k in
      let k2 = check_health_failure-Numbered now id.nzb_id c1 k1 in
      let k3 =
        modify_nzb-Numbered id.nzb_id (nzb_file_completion id.file_idx) c2
          (λ n. finish_file-id id.file_idx n (get_elem? n.files id.file_idx)) k2 in
      check_nzb_completion-Numbered now id.nzb_id c3 k3

  record_outcome-Numbered :
      (sc : Scaling) (now : ℕ) (id : ArticleId) (n : NzbInfo) (o : DownloadOutcome)
      (c : QueueCoordinator S)
      → Numbered c.queue
      → Numbered (record_outcome sc now id n o c).queue
  unfolding record_outcome nzb_success counted_success nzb_failure counted_failure nzb_blocked
  record_outcome-Numbered sc now id n (success payload offset crc) c k =
      check_all-Numbered sc now id _
        (modify_nzb-Numbered id.nzb_id (nzb_success id.file_idx id.seg_idx crc now) c (λ n. refl) k)
  record_outcome-Numbered sc now id n (failure message) c k =
      check_all-Numbered sc now id _
        (modify_nzb-Numbered id.nzb_id (nzb_failure id.file_idx id.seg_idx) c (λ n. refl) k)
  record_outcome-Numbered sc now id n (blocked message) c k =
      modify_nzb-Numbered id.nzb_id (nzb_blocked id.file_idx id.seg_idx) c (λ n. refl) k

  on_found-Numbered :
      (sc : Scaling) (now : ℕ) (id : ArticleId) (o : DownloadOutcome) (c : QueueCoordinator S)
      (found : Option NzbInfo)
      → Numbered c.queue
      → Numbered (on_found sc now id o c found).queue
  unfolding record_outcome check_all
  on_found-Numbered sc now id o c none k = check_all-Numbered sc now id c k
  on_found-Numbered sc now id o c (some n) k =
      elim (Bool-cases (terminal_at (article_at n id.file_idx id.seg_idx))) [
        | inl e ↦ rw e k
        | inr e ↦ rw e (record_outcome-Numbered sc now id n o c k)
      ]

  pub handle_download_complete-Numbered :
      (ops : SchedulerOps S) (sc : Scaling) (r : DownloadResult) (now clock : ℕ)
      (c : QueueCoordinator S)
      → Numbered c.queue
      → Numbered (handle_download_complete ops sc r now clock c).queue
  unfolding handle_download_complete release
  handle_download_complete-Numbered ops sc r now clock c k =
      on_found-Numbered sc now r.article_id r.outcome (release ops r clock c) _ k
