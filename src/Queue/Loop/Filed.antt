-- ===== src/Queue/Loop/Filed.antt =====
-- What is taken out of the history, put into it, and taken in, keeps the ids of downloads apart.
use bergamot.Prelude.{
  ℕ, ◌+◌, ◌≡◌, refl, inl, inr, Bool, Bool-cases, true, false, not, List, [], ◌∷◌, Option, none,
  some, Option-cases, arith, length, is_some,
}
use bergamot.Text.{Text}
use bergamot.Prelude.Find.{modify_first, sum_by-append}
use bergamot.Prelude.Sums.{sum_by-modify_first_same, sum_by-retain-le, sum_by-remove_at}
use bergamot.Nzb.Model.{NzbError}
use bergamot.Nzb.Model as Parsed
use bergamot.Nzb.Subject.{Libraries}
use bergamot.Nzb.Info.{Readers, parse_nzb_auto}
use bergamot.Queue.Types.{MarkStatus, ParStatus, UnpackStatus, MoveStatus, Priority}
use bergamot.Queue.Nzb.{NzbInfo, HistoryInfo}
use bergamot.Queue.Health.{Scaling}
use bergamot.Queue.State.{QueueCoordinator, entry_has_id, with_history, find_nzb}
use bergamot.Queue.Complete.{check_nzb_completion}
use bergamot.Queue.History.{
  revived, reprocessed, redownloaded, marked, entry_at, requeue, take_back, history_return_to_queue,
  history_process, history_redownload, history_mark, history_delete,
}
use bergamot.Queue.NewNzb.{AddNzbOptions, Contents, NzbSource, contents, unreadable, new_nzb}
use bergamot.Queue.Ingest.{
  put_nzb, check_duplicate, enqueue, skip_id, key_of, mode_of, name_of, ingest_parsed, on_parsed,
  on_contents, ingest_nzb,
}
use bergamot.Queue.Post.{
  PostProcessTimings, with_status, in_entry, post_processed, update_post_status, file_nzb, nzb_at,
  finish_post_processing,
}
use bergamot.Queue.Loop.Ids.{
  Numbered, Numbered-fewer, Numbered-one_more, modify_nzb-Numbered, file-Numbered, queued_as,
  one_at,
}
use bergamot.Queue.Loop.Outcomes.{check_nzb_completion-Numbered}
use bergamot.Queue.Loop.Edits.{with_history-Numbered}

module _ {S : Type 0} where
  take_back-Numbered :
      (f : ℕ → NzbInfo → NzbInfo) (g : ℕ → QueueCoordinator S → QueueCoordinator S) (id : ℕ)
      (c : QueueCoordinator S) (idx : Option ℕ) (h : Option HistoryInfo)
      → ((i : ℕ) (n : NzbInfo) → (f i n).id ≡ i)
      → ((i : ℕ) (c : QueueCoordinator S) → Numbered c.queue → Numbered (g i c).queue)
      → entry_at c.queue.history idx ≡ h
      → Numbered c.queue
      → Numbered (take_back f g id c idx h).0.queue
  take_back-Numbered f g id c none none fi gk e k = k
  take_back-Numbered f g id c none (some h) fi gk e k = k
  take_back-Numbered f g id c (some i) none fi gk e k = k
  take_back-Numbered f g id c (some i) (some h) fi gk e k =
      gk c.queue.next_nzb_id (requeue f c i h) (
        Numbered-one_more c.queue (requeue f c i h).queue refl
          (λ j.
            let next = c.queue.next_nzb_id in
            let same : one_at j (f next h.nzb_info).id ≡ one_at j next =
              rw (fi next h.nzb_info) refl in
            omega (
              arith,
              same,
              sum_by-append (λ (n : NzbInfo). one_at j n.id) c.queue.queue (f next h.nzb_info ∷ []),
              sum_by-remove_at (λ (h : HistoryInfo). one_at j h.id) i c.queue.history e,
            ))
          k)

  pub history_return_to_queue-Numbered :
      (id : ℕ) (c : QueueCoordinator S)
      → Numbered c.queue
      → Numbered (history_return_to_queue id c).0.queue
  unfolding history_return_to_queue
  history_return_to_queue-Numbered id c =
      take_back-Numbered revived (λ i c. c) id c _ _ (λ i n. refl) (λ i c k. k) refl

  pub history_redownload-Numbered :
      (id : ℕ) (c : QueueCoordinator S)
      → Numbered c.queue
      → Numbered (history_redownload id c).0.queue
  unfolding history_redownload redownloaded
  history_redownload-Numbered id c =
      take_back-Numbered redownloaded (λ i c. c) id c _ _ (λ i n. refl) (λ i c k. k) refl

  pub history_process-Numbered :
      (now id : ℕ) (c : QueueCoordinator S)
      → Numbered c.queue
      → Numbered (history_process now id c).0.queue
  unfolding history_process reprocessed
  history_process-Numbered now id c =
      take_back-Numbered reprocessed (check_nzb_completion now) id c _ _ (λ i n. refl)
        (check_nzb_completion-Numbered now) refl

  -- An entry of the history changes, but not its id.
  entry-Numbered :
      (id : ℕ) (f : HistoryInfo → HistoryInfo) (c : QueueCoordinator S)
      → ((h : HistoryInfo) → (f h).id ≡ h.id)
      → Numbered c.queue
      → Numbered (with_history c (modify_first (entry_has_id id) f c.queue.history)).queue
  entry-Numbered id f c e =
      with_history-Numbered c (modify_first (entry_has_id id) f c.queue.history) (λ j. omega (
        arith,
        sum_by-modify_first_same (λ (h : HistoryInfo). one_at j h.id) (entry_has_id id) f
            c.queue.history (λ h. rw (e h) refl),
      ))

  pub history_mark-Numbered :
      (id : ℕ) (mark : MarkStatus) (c : QueueCoordinator S)
      → Numbered c.queue
      → Numbered (history_mark id mark c).0.queue
  unfolding history_mark
  history_mark-Numbered id mark c = entry-Numbered id (marked mark) c (λ h. refl)

  pub history_delete-Numbered :
      (id : ℕ) (c : QueueCoordinator S) → Numbered c.queue → Numbered (history_delete id c).0.queue
  unfolding history_delete
  history_delete-Numbered id c = with_history-Numbered c _ (λ j.
      sum_by-retain-le (λ (h : HistoryInfo). one_at j h.id) (λ h. not (entry_has_id id h))
        c.queue.history)

  pub update_post_status-Numbered :
      (id : ℕ) (p : Option ParStatus) (u : Option UnpackStatus) (m : Option MoveStatus)
      (c : QueueCoordinator S)
      → Numbered c.queue
      → Numbered (update_post_status id p u m c).queue
  unfolding update_post_status
  update_post_status-Numbered id p u m c k = elim (Bool-cases (is_some (find_nzb id c))) [
    | inl e ↦
        rw (update_post_status, e) (modify_nzb-Numbered id (with_status p u m) c (λ n. refl) k)
    | inr e ↦
        rw (update_post_status, e)
          (entry-Numbered id (in_entry (with_status p u m)) c (λ h. refl) k)
  ]

  file_nzb-Numbered :
      (now : ℕ) (f : NzbInfo → NzbInfo) (c : QueueCoordinator S) (idx : Option ℕ)
      (n : Option NzbInfo)
      → ((n : NzbInfo) → (f n).id ≡ n.id)
      → nzb_at c idx ≡ n
      → Numbered c.queue
      → Numbered (file_nzb now f c idx n).queue
  unfolding file_nzb
  file_nzb-Numbered now f c none none h e k = k
  file_nzb-Numbered now f c none (some n) h e k = k
  file_nzb-Numbered now f c (some i) none h e k = k
  file_nzb-Numbered now f c (some i) (some n) h e k = file-Numbered now i n (f n) _ c e (h n) k

  pub finish_post_processing-Numbered :
      (now id : ℕ) (p : ParStatus) (u : UnpackStatus) (m : MoveStatus) (dir : Option Text)
      (t : PostProcessTimings) (c : QueueCoordinator S)
      → Numbered c.queue
      → Numbered (finish_post_processing now id p u m dir t c).queue
  unfolding finish_post_processing
  finish_post_processing-Numbered now id p u m dir t c =
      file_nzb-Numbered now (post_processed p u m dir t) c _ _ (λ n. refl) refl

module _ {S : Type 0} (sc : Scaling) (now : ℕ) (source : NzbSource) (category : Option Text)
    (priority : Priority) (options : AddNzbOptions) (c : QueueCoordinator S)
    (k : Numbered c.queue) where
  queued_as-put_nzb :
      (j : ℕ) (top : Bool) (n : NzbInfo) (ns : List NzbInfo)
      → queued_as j (put_nzb top n ns) ≡ one_at j n.id + queued_as j ns
  queued_as-put_nzb j true n ns = refl
  queued_as-put_nzb j false n ns =
      omega (arith, sum_by-append (λ (n : NzbInfo). one_at j n.id) ns (n ∷ []))

  ingest_parsed-Numbered :
      (fs : List Parsed.NzbFile)
      → Numbered (ingest_parsed sc now source category priority options fs c).0.queue
  unfolding ingest_parsed enqueue
  ingest_parsed-Numbered fs =
      let key = key_of source options in
      let mode = mode_of options in
      let n = new_nzb sc now source (name_of source) key mode category priority options c fs in
      elim (Option-cases (check_duplicate key mode c)) [
        | inr (i, e) ↦
            rw (ingest_parsed, e)
              (Numbered-fewer c.queue (skip_id c).queue (omega arith) (λ j. omega arith) k)
        | inl e ↦
            rw (ingest_parsed, e)
              (Numbered-one_more c.queue (enqueue options.add_to_top n (length fs) c).queue refl
                (λ j. omega (arith, queued_as-put_nzb j options.add_to_top n c.queue.queue)) k)
      ]

  module _ (lib : Libraries) (readers : Readers) (shown : NzbError → Text) where
    on_parsed-Numbered :
        (r : Parsed.Parsed Parsed.NzbInfo)
        → Numbered (on_parsed sc now source category priority options lib readers shown r c).0.queue
    unfolding on_parsed
    on_parsed-Numbered (Parsed.ok info) = ingest_parsed-Numbered info.files
    on_parsed-Numbered (Parsed.err e) = k

    on_contents-Numbered :
        (o : Contents)
        → Numbered
            (on_contents sc now source category priority options lib readers shown o c).0.queue
    unfolding on_contents
    on_contents-Numbered (contents bytes) = on_parsed-Numbered (parse_nzb_auto lib readers bytes)
    on_contents-Numbered (unreadable message) = k

    pub ingest_nzb-Numbered :
        Numbered (ingest_nzb sc now source category priority options lib readers shown c).0.queue
    unfolding ingest_nzb
    ingest_nzb-Numbered = on_contents-Numbered source.file
