-- ===== src/Queue/Edit/Move.antt =====
-- Moving a download: where it lands, that nothing else moves, and what a bad target does.
use bergamot.Prelude.{
  ◌⊎◌, sym, ◌∙◌, Option-cases, ℕ, zero, suc, ◌+◌, ◌≤◌, ◌<◌, ◌≡◌, refl, ap, List, [], ◌∷◌, none,
  some, arith, length, get_elem?, inl, inr,
}
use mathlib.Core.List.{Perm}
use mathlib.Core.List.Perm
use bergamot.Prelude.Find.{find, find-position, position-Hit, position, remove_at, insert_at}
use bergamot.Queue.Nzb.{NzbInfo}
use bergamot.Queue.State.{has_id, QueueError, nzb_not_found, invalid_move}
use bergamot.Queue.Edit.{
  MovePosition, top, bottom, up, down, before, after, ok, err, min, new_index, put_back, move_in,
}

module _ {ℓ} {A : Type ℓ} where
  insert_at-perm : (k : ℕ) (a : A) (xs : List A) → k ≤ length xs → Perm (insert_at k a xs) (a ∷ xs)
  insert_at-perm zero a xs h = Perm.refl _
  insert_at-perm (suc k) a [] h = Perm.refl _
  insert_at-perm (suc k) a (x ∷ xs) h =
      Perm.trans (Perm.cons x (insert_at-perm k a xs (omega arith))) (Perm.swap a x xs)

  remove_at-perm :
      (i : ℕ) (xs : List A) {a : A} → get_elem? xs i ≡ some a → Perm (a ∷ remove_at i xs) xs
  remove_at-perm i [] e = cc
  remove_at-perm zero (x ∷ xs) {a} e = let q : x ≡ a = cc in rw q (Perm.refl _)
  remove_at-perm (suc i) (x ∷ xs) {a} e =
      Perm.trans (Perm.swap x a _) (Perm.cons x (remove_at-perm i xs e))

  get_elem?-insert_at :
      (k : ℕ) (a : A) (xs : List A) → k ≤ length xs → get_elem? (insert_at k a xs) k ≡ some a
  get_elem?-insert_at zero a xs h = refl
  get_elem?-insert_at (suc k) a [] h = absurd (omega arith)
  get_elem?-insert_at (suc k) a (x ∷ xs) h = get_elem?-insert_at k a xs (omega arith)

  remove_at-insert_at :
      (k : ℕ) (a : A) (xs : List A) → k ≤ length xs → remove_at k (insert_at k a xs) ≡ xs
  remove_at-insert_at zero a xs h = refl
  remove_at-insert_at (suc k) a [] h = absurd (omega arith)
  remove_at-insert_at (suc k) a (x ∷ xs) h = ap (◌∷◌ x) (remove_at-insert_at k a xs (omega arith))

  length-remove_at : (i : ℕ) (xs : List A) → i < length xs → length (remove_at i xs) + 1 ≡ length xs
  length-remove_at i [] h = absurd (omega arith)
  length-remove_at zero (x ∷ xs) h = omega arith
  length-remove_at (suc i) (x ∷ xs) h = omega (arith, length-remove_at i xs (omega arith))

  get_elem?-insert_at_next :
      (k : ℕ) (a : A) (xs : List A) → get_elem? (insert_at k a xs) (suc k) ≡ get_elem? xs k
  get_elem?-insert_at_next zero a xs = refl
  get_elem?-insert_at_next (suc k) a [] = refl
  get_elem?-insert_at_next (suc k) a (x ∷ xs) = get_elem?-insert_at_next k a xs

  get_elem?-insert_at_before :
      (j : ℕ) (a : A) (xs : List A) {b : A}
      → get_elem? xs j ≡ some b
      → get_elem? (insert_at (suc j) a xs) j ≡ some b
  get_elem?-insert_at_before j a [] h = cc
  get_elem?-insert_at_before zero a (x ∷ xs) h = h
  get_elem?-insert_at_before (suc j) a (x ∷ xs) h = get_elem?-insert_at_before j a xs h

-- Where a download stood, which it was, and what was left of the queue without it.
pub record Taken (id : ℕ) (xs : List NzbInfo) : Type 0 where
  pub index : ℕ
  pub nzb : NzbInfo
  pub was : get_elem? xs index ≡ some nzb
  pub named : nzb.id ≡ id
  pub in_range : index < length xs
  pub others : List NzbInfo
  pub others_are : others ≡ remove_at index xs

-- The two ways in which a move can begin.
taken :
    (id : ℕ) (p : MovePosition) (xs : List NzbInfo)
    → ((move_in id p xs ≡ (xs, err (nzb_not_found id))) × (find (has_id id) xs ≡ none))
      ⊎ ((t : Taken id xs) × (move_in id p xs
            ≡ put_back t.nzb t.others (new_index p t.index t.others)))
unfolding move_in
taken id p xs = elim (Option-cases (position (has_id id) xs)) [
  | inl e ↦ inl (rw e refl, find-position (has_id id) xs e)
  | inr (i, e) ↦
      let h = position-Hit (has_id id) xs i e in
      inr (
        record {
          index = i;
          nzb = h.item;
          was = h.at;
          named = let t = h.passes in ground arith;
          in_range = h.in_range;
          others = remove_at i xs;
          others_are = refl;
        },
        rw (e, h.at) refl,
      )
]

-- The download at an index has an id.
abbrev pub IdAt : List NzbInfo → ℕ → ℕ → Type 0
IdAt xs i id = (n : NzbInfo) × (get_elem? xs i ≡ some n) × (n.id ≡ id)

-- Where a position puts a download that stood at `index`: at which index of the queue `ys`, of which
-- it is one beside `count` others.
abbrev pub PutAt : MovePosition → ℕ → ℕ → List NzbInfo → ℕ → Type 0
PutAt top index count ys k = k ≡ 0
PutAt bottom index count ys k = k ≡ count
PutAt (up steps) index count ys k = (k + steps ≡ index) ⊎ ((k ≡ 0) × (index ≤ steps))
PutAt (down steps) index count ys k =
    ((k ≡ index + steps) × (k ≤ count)) ⊎ ((k ≡ count) × (count ≤ index + steps))
PutAt (before other) index count ys k = IdAt ys (suc k) other
PutAt (after other) index count ys k = (j : ℕ) × (k ≡ suc j) × IdAt ys j other

-- The position names a download that is not among the others.
abbrev pub NoSuch : MovePosition → List NzbInfo → Type 0
NoSuch (before other) others = find (has_id other) others ≡ none
NoSuch (after other) others = find (has_id other) others ≡ none
NoSuch p others = ⊥

new_index-PutAt :
    (p : MovePosition) (index k : ℕ) (n : NzbInfo) (others : List NzbInfo)
    → index ≤ length others
    → new_index p index others ≡ some k
    → PutAt p index
        (length others)
        (insert_at (min k (length others)) n others)
        (min k (length others))
unfolding new_index
new_index-PutAt top index k n others le h = ground arith
new_index-PutAt bottom index k n others le h = ground arith
new_index-PutAt (up steps) index k n others le h = ground arith
new_index-PutAt (down steps) index k n others le h = ground arith
new_index-PutAt (before other) index k n others le h =
    let hit = position-Hit (has_id other) others k h in
    let r = hit.in_range in
    let q : min k (length others) ≡ k = ground arith in
    let t = hit.passes in
    (hit.item, rw q (get_elem?-insert_at_next k n others ∙ hit.at), ground arith)
new_index-PutAt (after other) index k n others le h =
    elim (Option-cases (position (has_id other) others)) [
      | inl e ↦ absurd (let q = rw e at h in cc)
      | inr (j, e) ↦
          let hit = position-Hit (has_id other) others j e in
          let r = hit.in_range in
          let s : suc j ≡ k = let q = rw e at h in ground arith in
          let q : min k (length others) ≡ suc j = ground arith in
          let t = hit.passes in
          (j, q, (hit.item, rw q (get_elem?-insert_at_before j n others hit.at), ground arith))
    ]

new_index-NoSuch :
    (p : MovePosition) (index : ℕ) (others : List NzbInfo)
    → new_index p index others ≡ none
    → NoSuch p others
unfolding new_index
new_index-NoSuch top index others h = cc
new_index-NoSuch bottom index others h = cc
new_index-NoSuch (up steps) index others h = cc
new_index-NoSuch (down steps) index others h = cc
new_index-NoSuch (before other) index others h = find-position (has_id other) others h
new_index-NoSuch (after other) index others h =
    elim (Option-cases (position (has_id other) others)) [
      | inl e ↦ find-position (has_id other) others e
      | inr (j, e) ↦ absurd (let q = rw e at h in cc)
    ]

-- The queue after a move that succeeds.
pub record Landed (id : ℕ) (p : MovePosition) (xs ys : List NzbInfo) : Type 0 where
  pub from : Taken id xs
  pub target : ℕ
  pub placed : PutAt p from.index (length from.others) ys target
  pub lands : get_elem? ys target ≡ some from.nzb
  pub rest : remove_at target ys ≡ from.others
  pub kept : Perm ys xs

min-le : (a b : ℕ) → min a b ≤ b
min-le a b = ground arith

-- A move that succeeds puts the named download where the position says: first, last, as many places
-- forward or back as it asks for and the queue has, right before or right after the download that it
-- names. It leaves the others in their order, and neither loses nor adds a download.
pub move_in-Landed :
    (id : ℕ) (p : MovePosition) (xs ys : List NzbInfo)
    → move_in id p xs ≡ (ys, ok tt)
    → Landed id p xs ys
move_in-Landed id p xs ys h = elim (taken id p xs) [
  | inl e ↦ absurd (let q = sym h ∙ e.0 in ground arith)
  | inr (t, e) ↦ elim (Option-cases (new_index p t.index t.others)) [
    | inl m ↦ absurd (let q = rw m at (sym h ∙ e) in ground arith)
    | inr (k, m) ↦
        let q = rw m at (sym h ∙ e) in
        let y : insert_at (min k (length t.others)) t.nzb t.others ≡ ys = ground arith in
        let le = min-le k (length t.others) in
        let range = t.in_range in
        let others = t.others_are in
        let count = length-remove_at t.index xs range in
        let in_others : t.index ≤ length t.others = rw others (omega arith) in
        record {
          from = t;
          target = min k (length t.others);
          placed = rw (← y) (new_index-PutAt p t.index k t.nzb t.others in_others m);
          lands = rw (← y) (get_elem?-insert_at _ t.nzb t.others le);
          rest = rw (← y) (remove_at-insert_at _ t.nzb t.others le);
          kept = rw (← y) (
              Perm.trans (insert_at-perm _ t.nzb t.others le)
                (rw t.others_are (remove_at-perm t.index xs t.was)));
        }
  ]
]

-- A move fails only if it names a download that is not there, and then it changes nothing, or if its
-- position is before or after one that is not among the others; then the queue that it leaves is one
-- download short: the one to be moved is lost.
pub move_in-err :
    (id : ℕ) (p : MovePosition) (xs ys : List NzbInfo) (e : QueueError)
    → move_in id p xs ≡ (ys, err e)
    → ((e ≡ nzb_not_found id) × (ys ≡ xs) × (find (has_id id) xs ≡ none))
      ⊎ ((t : Taken id xs) × (e ≡ invalid_move)
          × NoSuch p t.others
          × (ys ≡ t.others)
          × (length ys + 1 ≡ length xs))
move_in-err id p xs ys e h = elim (taken id p xs) [
  | inl m ↦ inl (let q = sym h ∙ m.0 in (ground arith, ground arith, m.1))
  | inr (t, m) ↦ elim (Option-cases (new_index p t.index t.others)) [
    | inr (k, i) ↦ absurd (let q = rw i at (sym h ∙ m) in ground arith)
    | inl i ↦
        let q = rw i at (sym h ∙ m) in
        let y : ys ≡ t.others = ground arith in
        inr (
          t,
          ground arith,
          new_index-NoSuch p t.index t.others i,
          y,
          rw (y, t.others_are) (length-remove_at t.index xs t.in_range),
        )
  ]
]
