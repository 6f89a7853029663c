-- ===== src/Queue/Loop/Edits.antt =====
-- Edits of the queue and of the history keep the ids of downloads apart.
use bergamot.Prelude.{
  ℕ, ◌≤◌, ◌≡◌, refl, ◌⊎◌, inl, inr, not, List, [], ◌∷◌, Option, none, some, arith, length,
}
use bergamot.Prelude.Find.{position, modify_first, remove_at, retain, sum_by}
use bergamot.Prelude.Sums.{
  sum_by-modify_first_same, sum_by-retain-le, sum_by-remove_at, sum_by-insert_at,
}
use bergamot.Queue.Nzb.{NzbInfo, HistoryInfo}
use bergamot.Queue.State.{QueueCoordinator, has_id, with_nzbs, with_history, QueueError}
use bergamot.Queue.Edit.{
  MovePosition, EditAction, move, pause, delete, merge, split, Answer, ok, err, min, new_index,
  put_back, take_out, at_index, move_in, setter, set_all, delete_all, move_all, edit, move_nzb,
  apply_edit,
}
use bergamot.Queue.Edit.Setters.{setter-id}
use bergamot.Queue.Loop.Ids.{Numbered, Numbered-fewer, queued_as, one_at}

Answer-cases :
    {A : Type 0} (r : Answer A) → ((a : A) × (r ≡ ok a)) ⊎ ((e : QueueError) × (r ≡ err e))
Answer-cases (ok a) = inl (a, refl)
Answer-cases (err e) = inr (e, refl)

module _ (j : ℕ) where
  put_back-le :
      (n : NzbInfo) (others : List NzbInfo) (k : Option ℕ)
      → queued_as j (put_back n others k).0 ≤ queued_as j (n ∷ others)
  put_back-le n others none = omega arith
  put_back-le n others (some k) =
      omega
        (arith, sum_by-insert_at (λ (n : NzbInfo). one_at j n.id) (min k (length others)) n others)

  take_out-le :
      (id : ℕ) (p : MovePosition) (xs : List NzbInfo) (index : Option ℕ) (o : Option NzbInfo)
      → at_index xs index ≡ o
      → queued_as j (take_out id p xs index o).0 ≤ queued_as j xs
  unfolding new_index
  take_out-le id p xs none none e = omega arith
  take_out-le id p xs none (some n) e = cc
  take_out-le id p xs (some i) none e = omega arith
  take_out-le id p xs (some i) (some n) e = omega (
    arith,
    put_back-le n (remove_at i xs) (new_index p i (remove_at i xs)),
    sum_by-remove_at (λ (n : NzbInfo). one_at j n.id) i xs e,
  )

  move_in-le :
      (id : ℕ) (p : MovePosition) (xs : List NzbInfo)
      → queued_as j (move_in id p xs).0 ≤ queued_as j xs
  unfolding move_in
  move_in-le id p xs = take_out-le id p xs (position (has_id id) xs) _ refl

  move_all-le :
      (ids : List ℕ) (p : MovePosition) (xs : List NzbInfo)
      → queued_as j (move_all ids p xs).0 ≤ queued_as j xs
  unfolding move_all
  move_all-le [] p xs = omega arith
  move_all-le (id ∷ ids) p xs =
      let ys = (move_in id p xs).0 in
      let first = move_in-le id p xs in
      elim (Answer-cases (move_in id p xs).1) [
        | inl (u, e) ↦ rw (move_all, e) (omega (arith, first, move_all-le ids p ys))
        | inr (u, e) ↦ rw (move_all, e) first
      ]

  set_all-same :
      (a : EditAction) (ids : List ℕ) (xs : List NzbInfo)
      → queued_as j (set_all (setter a) ids xs) ≤ queued_as j xs
  unfolding set_all
  set_all-same a [] xs = omega arith
  set_all-same a (id ∷ ids) xs = omega (
    arith,
    set_all-same a ids (modify_first (has_id id) (setter a) xs),
    sum_by-modify_first_same (λ (n : NzbInfo). one_at j n.id) (has_id id) (setter a) xs
        (λ n. rw (setter-id a n) refl),
  )

  delete_all-le :
      (ids : List ℕ) (xs : List NzbInfo) → queued_as j (delete_all ids xs) ≤ queued_as j xs
  unfolding delete_all
  delete_all-le [] xs = omega arith
  delete_all-le (id ∷ ids) xs = omega (
    arith,
    delete_all-le ids (retain (λ n. not (has_id id n)) xs),
    sum_by-retain-le (λ (n : NzbInfo). one_at j n.id) (λ n. not (has_id id n)) xs,
  )

  edit-le :
      (a : EditAction) (ids : List ℕ) (xs : List NzbInfo)
      → queued_as j (edit a ids xs).0 ≤ queued_as j xs
  unfolding edit
  edit-le (move p) ids xs = move_all-le ids p xs
  edit-le (delete b) ids xs = delete_all-le ids xs
  edit-le (merge t) ids xs = omega arith
  edit-le (split t) ids xs = omega arith
  edit-le pause ids xs = set_all-same pause ids xs
  edit-le a ids xs = set_all-same a ids xs

module _ {S : Type 0} where
  -- A change of the queue's list that gives no id more occurrences.
  pub with_nzbs-Numbered :
      (c : QueueCoordinator S) (ns : List NzbInfo)
      → ((j : ℕ) → queued_as j ns ≤ queued_as j c.queue.queue)
      → Numbered c.queue
      → Numbered (with_nzbs c ns).queue
  with_nzbs-Numbered c ns h =
      Numbered-fewer c.queue (with_nzbs c ns).queue (omega arith) (λ j. omega (arith, h j))

  pub with_history-Numbered :
      (c : QueueCoordinator S) (hs : List HistoryInfo)
      → ((j : ℕ) → sum_by (λ h. one_at j h.id) hs ≤ sum_by (λ h. one_at j h.id) c.queue.history)
      → Numbered c.queue
      → Numbered (with_history c hs).queue
  with_history-Numbered c hs h =
      Numbered-fewer c.queue (with_history c hs).queue (omega arith) (λ j. omega (arith, h j))

  pub apply_edit-Numbered :
      (a : EditAction) (ids : List ℕ) (c : QueueCoordinator S)
      → Numbered c.queue
      → Numbered (apply_edit a ids c).0.queue
  unfolding apply_edit
  apply_edit-Numbered a ids c = with_nzbs-Numbered c _ (λ j. edit-le j a ids c.queue.queue)

  pub move_nzb-Numbered :
      (id : ℕ) (p : MovePosition) (c : QueueCoordinator S)
      → Numbered c.queue
      → Numbered (move_nzb id p c).0.queue
  unfolding move_nzb
  move_nzb-Numbered id p c = with_nzbs-Numbered c _ (λ j. move_in-le j id p c.queue.queue)
