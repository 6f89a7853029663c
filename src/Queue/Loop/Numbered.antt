-- ===== src/Queue/Loop/Numbered.antt =====
-- crates/bergamot-queue/src/coordinator.rs: every command, and so every run of the loop, keeps the
-- ids of downloads apart.
use bergamot.Prelude.{
  ℕ, zero, suc, ◌≤◌, ◌≡◌, refl, subst, inl, inr, Bool-cases, true, false, ◌||◌, List, [], ◌∷◌, map,
  Option, none, some, Option-cases, arith, leb, length,
}
use bergamot.Prelude.Sums.{sum_by-map_same, sum_by-retain-le}
use bergamot.Queue.Nzb.{NzbInfo, DownloadQueue}
use bergamot.Queue.State.{SchedulerOps, QueueCoordinator, modify_nzb, increment_active_per_file}
use bergamot.Queue.Edit.{unpause_par_files}
use bergamot.Queue.Select.{mark_segment_status}
use bergamot.Queue.Slots.{
  ArticleAssignment, Sent, accepted, full, closed, next_assignment, dispatched, with_scheduler,
  max_slots, no_capacity, assign, after_send, fill_loop, try_fill_download_slots, untried,
}
use bergamot.Queue.Slots.Progress.{Fresh, Distinct}
use bergamot.Queue.Slots.Filled.{try_fill_download_slots-Filled}
use bergamot.Queue.Post.{with_stage, with_progress, update_post_stage, update_post_progress}
use bergamot.Queue.Commands.{
  QueueCommand, add_nzb, remove_nzb, pause_nzb, resume_nzb, move_nzb_to, pause_file, resume_file,
  pause_all, resume_all, set_download_rate, edit_queue, get_status, download_complete, par_unpause,
  history_return, history_reprocess, history_download_again, history_mark_as, history_remove,
  post_status, post_stage, post_progress, post_finished, shut_down, Environment, set_file_paused,
  remove_from_queue, set_paused_at,
}
use bergamot.Queue.Loop.{handle_command, Round, command, tick, Runs, starts, round}
use bergamot.Queue.Loop.Ids.{Numbered, modify_nzb-Numbered, queued_as, one_at}
use bergamot.Queue.Loop.Outcomes.{handle_download_complete-Numbered}
use bergamot.Queue.Loop.Edits.{with_nzbs-Numbered, apply_edit-Numbered, move_nzb-Numbered}
use bergamot.Queue.Loop.Filed.{
  history_return_to_queue-Numbered, history_redownload-Numbered, history_process-Numbered,
  history_mark-Numbered, history_delete-Numbered, update_post_status-Numbered,
  finish_post_processing-Numbered, ingest_nzb-Numbered,
}

module _ {S : Type 0} (env : Environment S) (now clock : ℕ) (c : QueueCoordinator S)
    (k : Numbered c.queue) where
  changed :
      (id : ℕ) (f : NzbInfo → NzbInfo)
      → ((n : NzbInfo) → (f n).id ≡ n.id)
      → Numbered (modify_nzb id f c).queue
  changed id f e = modify_nzb-Numbered id f c e k

  handle_command-Numbered :
      (cmd : QueueCommand) → Numbered (handle_command env now clock cmd c).0.queue
  unfolding handle_command remove_from_queue set_paused_at update_post_stage update_post_progress
      unpause_par_files
  handle_command-Numbered (add_nzb source category priority options) =
      ingest_nzb-Numbered env.scaling now source category priority options c k env.libraries
        env.readers env.shown
  handle_command-Numbered (remove_nzb id b) =
      with_nzbs-Numbered c _
        (λ j. sum_by-retain-le (λ (n : NzbInfo). one_at j n.id) _ c.queue.queue) k
  handle_command-Numbered (pause_nzb id) = changed id _ (λ n. refl)
  handle_command-Numbered (resume_nzb id) = changed id _ (λ n. refl)
  handle_command-Numbered (move_nzb_to id p) = move_nzb-Numbered id p c k
  handle_command-Numbered (pause_file id idx) = changed id (set_file_paused true idx) (λ n. refl)
  handle_command-Numbered (resume_file id idx) = changed id (set_file_paused false idx) (λ n. refl)
  handle_command-Numbered pause_all = k
  handle_command-Numbered resume_all =
      with_nzbs-Numbered c (map (λ (n : NzbInfo). record n { paused = false }) c.queue.queue)
        (λ j. omega (
          arith,
          sum_by-map_same (λ (n : NzbInfo). one_at j n.id) (λ n. record n { paused = false })
              c.queue.queue (λ n. refl),
        ))
        k
  handle_command-Numbered (set_download_rate r) = k
  handle_command-Numbered (edit_queue a ids) = apply_edit-Numbered a ids c k
  handle_command-Numbered (download_complete r) =
      handle_download_complete-Numbered env.ops env.scaling r now clock c k
  handle_command-Numbered (par_unpause id) = changed id _ (λ n. refl)
  handle_command-Numbered (history_return id) = history_return_to_queue-Numbered id c k
  handle_command-Numbered (history_reprocess id) = history_process-Numbered now id c k
  handle_command-Numbered (history_download_again id) = history_redownload-Numbered id c k
  handle_command-Numbered (history_mark_as id mark) = history_mark-Numbered id mark c k
  handle_command-Numbered (history_remove id) = history_delete-Numbered id c k
  handle_command-Numbered (post_status id p u m) = update_post_status-Numbered id p u m c k
  handle_command-Numbered (post_stage id s) = changed id (with_stage now id s) (λ n. refl)
  handle_command-Numbered (post_progress id p) = changed id (with_progress p) (λ n. refl)
  handle_command-Numbered (post_finished id p u m dir t) =
      finish_post_processing-Numbered now id p u m dir t c k
  handle_command-Numbered shut_down = k
  handle_command-Numbered get_status = k
  handle_command-Numbered other = k

module _ {S : Type 0} (ops : SchedulerOps S) where
  -- Whatever is left of the coordinator has its ids apart.
  abbrev Left : Option (QueueCoordinator S × List ArticleAssignment) → Type 0
  Left o = (r : QueueCoordinator S × List ArticleAssignment) → o ≡ some r → Numbered r.0.queue

  Left-some :
      (c : QueueCoordinator S) (sent : List ArticleAssignment)
      → Numbered c.queue
      → Left (some (c, sent))
  Left-some c sent k r e = let q : (c, sent) ≡ r = cc in subst (λ r. Numbered r.0.queue) q k

  after_send-Left :
      (c : QueueCoordinator S) (s : Option S) (a : ArticleAssignment)
      (rest : Option (QueueCoordinator S × List ArticleAssignment)) (x : Sent)
      → Numbered c.queue
      → Left rest
      → Left (after_send ops c s a rest x)
  unfolding after_send
  after_send-Left c s a none accepted k l = λ r e. cc
  after_send-Left c s a (some (c', sent)) accepted k l = Left-some c' (a ∷ sent) (l (c', sent) refl)
  after_send-Left c s a rest full k l = Left-some (with_scheduler c _) [] k
  after_send-Left c s a rest closed k l = Left-some (with_scheduler c s) [] k

  fill_loop-Left :
      (fuel : ℕ) (answers : ℕ → Sent) (n clock slots : ℕ) (c : QueueCoordinator S)
      → Numbered c.queue
      → Left (fill_loop ops fuel answers n clock slots c)
  unfolding fill_loop dispatched mark_segment_status increment_active_per_file
  fill_loop-Left zero answers n clock slots c k = λ r e. cc
  fill_loop-Left (suc fuel) answers n clock slots c k =
      elim (Bool-cases
        (leb slots (length c.active_downloads) || no_capacity ops c.server_scheduler)) [
          | inl t ↦ rw (fill_loop, t) (Left-some c [] k)
          | inr t ↦ elim (Option-cases (next_assignment c)) [
            | inl e ↦ rw (fill_loop, t, e) (Left-some c [] k)
            | inr (a, e) ↦
                let (s, b) = assign ops c.server_scheduler a in
                let c' : QueueCoordinator S = dispatched clock b (with_scheduler c s) in
                let k' : Numbered c'.queue =
                  modify_nzb-Numbered b.article_id.nzb_id _ c (λ n. refl) k in
                let rest = fill_loop ops fuel answers (suc n) clock slots c' in
                rw (fill_loop, t, e)
                  (after_send-Left c s b rest (answers n) k
                    (fill_loop-Left fuel answers (suc n) clock slots c' k'))
          ]
        ]

  try_fill_download_slots-Left :
      (answers : ℕ → Sent) (clock : ℕ) (c : QueueCoordinator S)
      → Numbered c.queue
      → Left (try_fill_download_slots ops answers clock c)
  unfolding try_fill_download_slots
  try_fill_download_slots-Left answers clock c k = elim (Bool-cases (c.paused || c.shutdown)) [
    | inl e ↦ rw e (Left-some c [] k)
    | inr e ↦
        rw e (fill_loop-Left (suc (untried c.queue.queue)) answers 0 clock (max_slots ops c) c k)
  ]

-- An id that does not occur is that of no download, and so ids that occur once are distinct.
Fresh-absent : (j : ℕ) (ns : List NzbInfo) → queued_as j ns ≡ 0 → Fresh j ns
Fresh-absent j [] h = tt
Fresh-absent j (n ∷ ns) h = ((λ e. ground arith), Fresh-absent j ns (omega arith))

Distinct-once : (ns : List NzbInfo) → ((j : ℕ) → queued_as j ns ≤ 1) → Distinct ns
Distinct-once [] h = tt
Distinct-once (n ∷ ns) h =
    let here : one_at n.id n.id ≡ 1 = ground arith in
    (Fresh-absent n.id ns (omega (arith, h n.id, here)), Distinct-once ns (λ j. omega (arith, h j)))

Numbered-Distinct : (q : DownloadQueue) → Numbered q → Distinct q.queue
Numbered-Distinct q k = Distinct-once q.queue (λ j. omega (arith, k.once j))

fills :
    {S : Type 0} (ops : SchedulerOps S) (answers : ℕ → Sent) (clock : ℕ) (c : QueueCoordinator S)
    → Numbered c.queue
    → (r : QueueCoordinator S × List ArticleAssignment) × (try_fill_download_slots ops answers clock
          c
        ≡ some r)
unfolding try_fill_download_slots
fills ops answers clock c k = elim (Bool-cases (c.paused || c.shutdown)) [
  | inl e ↦ ((c, []), rw (try_fill_download_slots, e) refl)
  | inr e ↦
      let (r, at, f) =
        try_fill_download_slots-Filled ops answers clock c (Numbered-Distinct c.queue k) e in
      (r, at)
]

module _ {S : Type 0} (env : Environment S) where
  Round-Numbered :
      {c c' : QueueCoordinator S} → Round env c c' → Numbered c.queue → Numbered c'.queue
  Round-Numbered {c} {c'} (command now clock cmd answers sent e) k =
      try_fill_download_slots-Left env.ops answers clock _
        (handle_command-Numbered env now clock c k cmd) (c', sent) e
  Round-Numbered {c} {c'} (tick clock answers sent e) k =
      try_fill_download_slots-Left env.ops answers clock c k (c', sent) e

  -- However long the loop runs, and whatever commands it is given, from a state where no two
  -- entries of the queue and the history share an id and the next id is greater than all: in every
  -- state that it reaches this holds again.
  pub Runs-Numbered :
      (c c' : QueueCoordinator S) → Runs env c c' → Numbered c.queue → Numbered c'.queue
  Runs-Numbered c c' (starts _ clock answers sent e) k =
      try_fill_download_slots-Left env.ops answers clock c k (c', sent) e
  Runs-Numbered c c' (round d _ r s) k = Round-Numbered s (Runs-Numbered c d r k)

  -- In every state that the loop reaches from such a state, the next round can be taken whatever
  -- the command, the clocks and the answers of the channel: filling the slots ends with a result.
  pub Runs-Round :
      (c c' : QueueCoordinator S)
      → Runs env c c'
      → Numbered c.queue
      → (now clock : ℕ) (cmd : QueueCommand) (answers : ℕ → Sent)
      → (c'' : QueueCoordinator S) × (sent : List ArticleAssignment) × (try_fill_download_slots
            env.ops answers clock
            (handle_command env now clock cmd c').0
          ≡ some (c'', sent))
        × Runs env c c''
  Runs-Round c c' r k now clock cmd answers =
      let k' = Runs-Numbered c c' r k in
      let ((c'', sent), at) =
        fills env.ops answers clock (handle_command env now clock cmd c').0
          (handle_command-Numbered env now clock c' k' cmd) in
      (c'', sent, at, round c' c'' r (command now clock cmd answers sent at))
