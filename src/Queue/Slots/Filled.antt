-- ===== src/Queue/Slots/Filled.antt =====
-- Filling the download slots ends, and what it has done by then.
use bergamot.Prelude.{
  ℕ, zero, suc, ◌+◌, ◌≤◌, ◌<◌, ◌≡◌, refl, sym, ◌∙◌, ap, ◌≢◌, ◌⊎◌, inl, inr, Bool, true, false, ◌||◌,
  Bool-cases, Option-cases, List, [], ◌∷◌, Option, none, some, arith, leb, get_elem?, length, subst,
  is_some, All,
}
use bergamot.Prelude.Map.{get, has-insert_self, has-insert, length-remove-le}
use bergamot.Prelude.Find.{modify_first, All-modify_first}
use bergamot.Queue.Nzb.{ArticleInfo, FileInfo, NzbInfo}
use bergamot.Queue.State.{
  ArticleId, article_id_eq, SchedulerOps, QueueCoordinator, has_id, downloading, find_nzb,
}
use bergamot.Queue.Select.{next_article, mark_segment_status}
use bergamot.Queue.Slots.{
  ArticleAssignment, Sent, accepted, full, closed, of_article, of_nzb, of_file, of_segment,
  next_assignment, untried, add_sent, max_slots, no_capacity, assign, roll_back, with_scheduler,
  dispatched, after_send, fill_loop, try_fill_download_slots,
}
use bergamot.Queue.Slots.Progress.{
  Fresh, Distinct, running_count, next_article-Waiting, mark_segment_status-untried,
  mark_segment_status-running,
}

-- A change that keeps ids keeps them distinct.
pub Fresh-modify_first :
    (id : ℕ) (p : NzbInfo → Bool) (f : NzbInfo → NzbInfo) (ns : List NzbInfo)
    → ((n : NzbInfo) → (f n).id ≡ n.id)
    → Fresh id ns
    → Fresh id (modify_first p f ns)
Fresh-modify_first id p f ns k h =
    All-modify_first (λ n. n.id ≢ id) p f ns h (λ n e d q. d (sym (k n) ∙ q))

pub Distinct-modify_first :
    (p : NzbInfo → Bool) (f : NzbInfo → NzbInfo) (ns : List NzbInfo)
    → ((n : NzbInfo) → (f n).id ≡ n.id)
    → Distinct ns
    → Distinct (modify_first p f ns)
Distinct-modify_first p f [] k d = tt
Distinct-modify_first p f (n ∷ ns) k d = elim (Bool-cases (p n)) [
  | inl e ↦ rw e (subst (λ id. Fresh id ns) (sym (k n)) d.0, d.1)
  | inr e ↦ rw e (Fresh-modify_first n.id p f ns k d.0, Distinct-modify_first p f ns k d.1)
]

of_segment-id :
    (id : ArticleId) (f : FileInfo) (o : Option ArticleInfo) {a : ArticleAssignment}
    → of_segment id f o ≡ some a
    → a.article_id ≡ id
of_segment-id id f none h = cc
of_segment-id id f (some x) h = ground arith

of_file-id :
    (id : ArticleId) (o : Option FileInfo) {a : ArticleAssignment}
    → of_file id o ≡ some a
    → a.article_id ≡ id
of_file-id id none h = cc
of_file-id id (some f) h = of_segment-id id f (get_elem? f.articles id.seg_idx) h

of_nzb-id :
    (id : ArticleId) (o : Option NzbInfo) {a : ArticleAssignment}
    → of_nzb id o ≡ some a
    → a.article_id ≡ id
of_nzb-id id none h = cc
of_nzb-id id (some n) h = of_file-id id (get_elem? n.files id.file_idx) h

of_article-id :
    {S : Type 0} (c : QueueCoordinator S) (o : Option ArticleId) {a : ArticleAssignment}
    → of_article c o ≡ some a
    → o ≡ some a.article_id
of_article-id c none h = cc
of_article-id c (some id) h = ap some (sym (of_nzb-id id (find_nzb id.nzb_id c) h))

module _ {S : Type 0} (ops : SchedulerOps S) where
  next_assignment-article :
      (c : QueueCoordinator S) (a : ArticleAssignment)
      → next_assignment c ≡ some a
      → next_article c ≡ some a.article_id
  unfolding next_assignment
  next_assignment-article c a h = of_article-id c (next_article c) h

  -- Without an assignment there is no article to choose.
  next_assignment-none :
      (c : QueueCoordinator S)
      → Distinct c.queue.queue
      → next_assignment c ≡ none
      → next_article c ≡ none
  unfolding next_assignment
  next_assignment-none c d h = elim (Option-cases (next_article c)) [
    | inl e ↦ e
    | inr (id, e) ↦
        let w = next_article-Waiting c id d e in
        let k = rw (e, w.found, w.at_file, w.at_article) at h in cc
  ]

  assign-article :
      (s : Option S) (a : ArticleAssignment) → (assign ops s a).1.article_id ≡ a.article_id
  unfolding assign
  assign-article none a = refl
  assign-article (some s) a = ground arith

  -- What was active still is.
  abbrev pub Tracks : QueueCoordinator S → QueueCoordinator S → Type 0
  Tracks c c' =
      (id : ArticleId)
      → is_some (get id c.active_downloads) ≡ true
      → is_some (get id c'.active_downloads) ≡ true

  -- What one accepted send does: an untried article now runs, and its download is active.
  record Advances (id : ArticleId) (c c' : QueueCoordinator S) : Type 0 where
    used : untried c'.queue.queue + 1 ≡ untried c.queue.queue
    runs : running_count c'.queue.queue ≡ running_count c.queue.queue + 1
    tracked : is_some (get id c'.active_downloads) ≡ true
    kept : Tracks c c'
    more : length c'.active_downloads ≤ length c.active_downloads + 1
    distinct : Distinct c'.queue.queue

  mark_segment_status-Distinct :
      (id : ArticleId) (c : QueueCoordinator S)
      → Distinct c.queue.queue
      → Distinct (mark_segment_status id downloading c).queue.queue
  unfolding mark_segment_status
  mark_segment_status-Distinct id c d =
      Distinct-modify_first (has_id id.nzb_id) _ c.queue.queue (λ n. refl) d

  dispatched-Advances :
      (clock : ℕ) (c : QueueCoordinator S) (s : Option S) (a : ArticleAssignment)
      → Distinct c.queue.queue
      → next_article c ≡ some a.article_id
      → Advances a.article_id c (dispatched clock a (with_scheduler c s))
  unfolding dispatched
  dispatched-Advances clock c s a d h = record {
    used = mark_segment_status-untried c a.article_id (next_article-Waiting c a.article_id d h);
    runs = mark_segment_status-running c a.article_id (next_article-Waiting c a.article_id d h);
    tracked = has-insert_self a.article_id _ c.active_downloads;
    kept = λ id k. has-insert a.article_id id _ c.active_downloads k;
    more = let le = length-remove-le a.article_id c.active_downloads in omega arith;
    distinct = mark_segment_status-Distinct a.article_id c d;
  }

  -- Why the loop stopped, after `n` sends.
  pub data Stopped (answers : ℕ → Sent) (slots n : ℕ) (c : QueueCoordinator S) : Type 0 where
    slots_used : slots ≤ length c.active_downloads → Stopped answers slots n c
    servers_full : no_capacity ops c.server_scheduler ≡ true → Stopped answers slots n c
    nothing_left : next_article c ≡ none → Stopped answers slots n c
    refused : answers n ≢ accepted → Stopped answers slots n c

  -- As many articles as assignments were sent have gone from untried to running, each sent one is
  -- active, and where anything was sent the slots are not exceeded.
  pub record Filled (answers : ℕ → Sent) (n slots : ℕ) (c : QueueCoordinator S)
      (r : QueueCoordinator S × List ArticleAssignment) : Type 0 where
    pub used : untried r.0.queue.queue + length r.1 ≡ untried c.queue.queue
    pub running : running_count r.0.queue.queue ≡ running_count c.queue.queue + length r.1
    pub tracked :
        All (λ (a : ArticleAssignment). is_some (get a.article_id r.0.active_downloads) ≡ true) r.1
    pub kept : Tracks c r.0
    pub active : length r.0.active_downloads ≤ length c.active_downloads + length r.1
    pub within : (length r.1 ≡ 0) ⊎ (length r.0.active_downloads ≤ slots)
    pub distinct : Distinct r.0.queue.queue
    pub stopped : Stopped answers slots (n + length r.1) r.0

  abbrev pub Fills :
      (ℕ → Sent)
      → ℕ
      → ℕ
      → QueueCoordinator S
      → Option (QueueCoordinator S × List ArticleAssignment)
      → Type 0
  Fills answers n slots c o =
      (r : QueueCoordinator S × List ArticleAssignment) × (o ≡ some r) × Filled answers n slots c r

  stops :
      (answers : ℕ → Sent) (n slots : ℕ) (c : QueueCoordinator S) (s : Option S)
      → Distinct c.queue.queue
      → Stopped answers slots n (with_scheduler c s)
      → Fills answers n slots c (some (with_scheduler c s, []))
  stops answers n slots c s d why = (
    (with_scheduler c s, []),
    refl,
    record {
      used = omega arith;
      running = omega arith;
      tracked = tt;
      kept = λ id k. k;
      active = omega arith;
      within = inl refl;
      distinct = d;
      stopped = subst (λ k. Stopped answers slots k (with_scheduler c s)) (omega arith) why;
    },
  )

  goes_on :
      (answers : ℕ → Sent) (n slots : ℕ) (c c' : QueueCoordinator S) (a : ArticleAssignment)
      (o : Option (QueueCoordinator S × List ArticleAssignment))
      → Advances a.article_id c c'
      → length c.active_downloads < slots
      → Fills answers (suc n) slots c' o
      → Fills answers n slots c (add_sent a o)
  goes_on answers n slots c c' a o adv free ((e, sent), q, f) = (
    (e, a ∷ sent),
    rw q refl,
    let u = adv.used in
        let m = adv.more in
        record {
          used = let v = f.used in omega arith;
          running = let w = adv.runs in let v = f.running in omega arith;
          tracked = (f.kept a.article_id adv.tracked, f.tracked);
          kept = λ id k. f.kept id (adv.kept id k);
          active = let v = f.active in omega arith;
          within = inr (let v = f.active in elim f.within [ inl z ↦ omega arith | inr w ↦ w ]);
          distinct = f.distinct;
          stopped = subst (λ k. Stopped answers slots k e) (omega arith) f.stopped;
        },
  )

  Sent-cases : (x : Sent) → (x ≡ accepted) ⊎ (x ≢ accepted)
  Sent-cases accepted = inl refl
  Sent-cases full = inr (λ e. cc)
  Sent-cases closed = inr (λ e. cc)

  after_send-Fills :
      (answers : ℕ → Sent) (n slots : ℕ) (c : QueueCoordinator S) (s : Option S)
      (a : ArticleAssignment) (rest : Option (QueueCoordinator S × List ArticleAssignment))
      (x : Sent)
      → Distinct c.queue.queue
      → answers n ≡ x
      → (x ≡ accepted → Fills answers n slots c (add_sent a rest))
      → Fills answers n slots c (after_send ops c s a rest x)
  unfolding after_send
  after_send-Fills answers n slots c s a rest accepted d e h = h refl
  after_send-Fills answers n slots c s a rest full d e h =
      stops answers n slots c (roll_back ops s a) d (refused (λ q. cc))
  after_send-Fills answers n slots c s a rest closed d e h =
      stops answers n slots c s d (refused (λ q. cc))

  fill_loop-Filled :
      (fuel : ℕ) (answers : ℕ → Sent) (n clock slots : ℕ) (c : QueueCoordinator S)
      → Distinct c.queue.queue
      → untried c.queue.queue < fuel
      → Fills answers n slots c (fill_loop ops fuel answers n clock slots c)
  unfolding fill_loop
  fill_loop-Filled zero answers n clock slots c d h = absurd (omega arith)
  fill_loop-Filled (suc fuel) answers n clock slots c d h =
      elim (Bool-cases (leb slots (length c.active_downloads))) [
        | inl t ↦ rw t (stops answers n slots c c.server_scheduler d (slots_used (ground arith)))
        | inr t ↦ elim (Bool-cases (no_capacity ops c.server_scheduler)) [
          | inl u ↦ rw (t, u) (stops answers n slots c c.server_scheduler d (servers_full u))
          | inr u ↦ elim (Option-cases (next_assignment c)) [
            | inl e ↦
                rw (t, u, e)
                  (stops answers n slots c c.server_scheduler d
                    (nothing_left (next_assignment-none c d e)))
            | inr (a, e) ↦
                let (s, b) = assign ops c.server_scheduler a in
                let c' : QueueCoordinator S = dispatched clock b (with_scheduler c s) in
                let adv = dispatched-Advances clock c s b d (
                  next_assignment-article c a e
                  ∙ ap some (sym (assign-article c.server_scheduler a))) in
                let rest = fill_loop ops fuel answers (suc n) clock slots c' in
                rw (t, u, e)
                  (after_send-Fills answers n slots c s b rest (answers n) d refl (λ q.
                    goes_on answers n slots c c' b rest adv (ground arith) (
                      fill_loop-Filled fuel answers (suc n) clock slots c' adv.distinct
                        (let v = adv.used in omega arith))))
          ]
        ]
      ]

  -- Where ids are distinct and nothing is paused or shut down, filling the slots ends, whatever the
  -- channel answers. As many articles as were sent have gone from untried to running; each one sent
  -- is among the active downloads, as are those that were; if any was sent, no more downloads are
  -- active than there are slots; and it stops only when the slots are used up, the servers are
  -- full, no article is left to choose, or the channel refuses the next send.
  pub try_fill_download_slots-Filled :
      (answers : ℕ → Sent) (clock : ℕ) (c : QueueCoordinator S)
      → Distinct c.queue.queue
      → (c.paused || c.shutdown) ≡ false
      → Fills answers 0 (max_slots ops c) c (try_fill_download_slots ops answers clock c)
  unfolding try_fill_download_slots
  try_fill_download_slots-Filled answers clock c d h = rw h (
      fill_loop-Filled (suc (untried c.queue.queue)) answers 0 clock (max_slots ops c) c d
        (omega arith))
