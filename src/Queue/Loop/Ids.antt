-- ===== src/Queue/Loop/Ids.antt =====
-- The ids of downloads: no two entries of the queue and of the history share one, and the next id
-- is greater than all; the steps that keep this.
use bergamot.Prelude.{
  ℕ, ◌+◌, ◌≤◌, ◌≡◌, refl, inl, inr, Bool-cases, List, [], ◌∷◌, Option, none, some, arith,
  if◌then◌else◌, ◌==◌, get_elem?,
}
use bergamot.Prelude.Find.{position, remove_at, sum_by, sum_by-append}
use bergamot.Prelude.Sums.{sum_by-modify_first_same, sum_by-remove_at, find-position}
use bergamot.Queue.Nzb.{NzbInfo, HistoryInfo, DownloadQueue}
use bergamot.Queue.State.{QueueCoordinator, has_id, with_nzbs, modify_nzb, find_nzb}
use bergamot.Queue.Types.{HistoryKind}
use bergamot.Queue.Complete.{add_to_history, retire}

abbrev pub one_at : ℕ → ℕ → ℕ
one_at j i = if i == j then 1 else 0

-- How often an id occurs in the queue and in the history.
abbrev pub queued_as : ℕ → List NzbInfo → ℕ
queued_as j = sum_by (λ n. one_at j n.id)

abbrev pub filed_as : ℕ → List HistoryInfo → ℕ
filed_as j = sum_by (λ h. one_at j h.id)

abbrev pub occurs : ℕ → DownloadQueue → ℕ
occurs j q = queued_as j q.queue + filed_as j q.history

pub record Numbered (q : DownloadQueue) : Type 0 where
  pub once : (j : ℕ) → occurs j q ≤ 1
  pub below : (j : ℕ) → q.next_nzb_id ≤ j → occurs j q ≡ 0

-- No id occurs more often than before.
pub Numbered-fewer :
    (q q' : DownloadQueue)
    → q.next_nzb_id ≤ q'.next_nzb_id
    → ((j : ℕ) → occurs j q' ≤ occurs j q)
    → Numbered q
    → Numbered q'
Numbered-fewer q q' le h k = record {
  once = λ j. omega (arith, h j, k.once j);
  below = λ j m. omega (arith, h j, k.below j (omega arith));
}

-- The next id is given away.
pub Numbered-one_more :
    (q q' : DownloadQueue)
    → q'.next_nzb_id ≡ q.next_nzb_id + 1
    → ((j : ℕ) → occurs j q' ≤ occurs j q + one_at j q.next_nzb_id)
    → Numbered q
    → Numbered q'
Numbered-one_more q q' e h k = record {
  once = λ j. elim (Bool-cases (q.next_nzb_id == j)) [
    | inl t ↦ ground (arith, h j, k.below j (ground arith))
    | inr t ↦ ground (arith, h j, k.once j)
  ];
  below = λ j m. ground (arith, h j, k.below j (omega arith));
}

module _ {S : Type 0} where
  pub modify_nzb-Numbered :
      (id : ℕ) (f : NzbInfo → NzbInfo) (c : QueueCoordinator S)
      → ((n : NzbInfo) → (f n).id ≡ n.id)
      → Numbered c.queue
      → Numbered (modify_nzb id f c).queue
  modify_nzb-Numbered id f c h =
      Numbered-fewer c.queue (modify_nzb id f c).queue (omega arith) (λ j. omega (
        arith,
        sum_by-modify_first_same (λ (n : NzbInfo). one_at j n.id) (has_id id) f c.queue.queue
            (λ n. rw (h n) refl),
      ))

  -- A download leaves the queue for the history, under its id.
  pub file-Numbered :
      (now idx : ℕ) (n m : NzbInfo) (kind : HistoryKind) (c : QueueCoordinator S)
      → get_elem? c.queue.queue idx ≡ some n
      → m.id ≡ n.id
      → Numbered c.queue
      → Numbered (add_to_history now m kind (with_nzbs c (remove_at idx c.queue.queue))).queue
  unfolding add_to_history
  file-Numbered now idx n m kind c at e =
      Numbered-fewer c.queue
        (add_to_history now m kind (with_nzbs c (remove_at idx c.queue.queue))).queue (omega arith)
        (λ j.
          let g : NzbInfo → ℕ = λ n. one_at j n.id in
          let same : one_at j m.id ≡ one_at j n.id = rw e refl in
          omega (
            arith,
            same,
            sum_by-remove_at g idx c.queue.queue at,
            sum_by-append (λ (h : HistoryInfo). one_at j h.id) c.queue.history
                (record { id = m.id; kind = kind; time = now; nzb_info = m } ∷ []),
          ))

  pub retire-Numbered :
      (now id : ℕ) (f : NzbInfo → NzbInfo) (c : QueueCoordinator S) (found : Option NzbInfo)
      (idx : Option ℕ)
      → ((n : NzbInfo) → (f n).id ≡ n.id)
      → find_nzb id c ≡ found
      → position (has_id id) c.queue.queue ≡ idx
      → Numbered c.queue
      → Numbered (retire now id f c found idx).queue
  unfolding add_to_history
  retire-Numbered now id f c none idx h e p k = k
  retire-Numbered now id f c (some n) none h e p k = k
  retire-Numbered now id f c (some n) (some i) h e p k =
      file-Numbered now i n (f n) _ c (find-position (has_id id) c.queue.queue i e p) (h n) k
