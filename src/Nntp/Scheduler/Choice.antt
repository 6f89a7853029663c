-- ===== src/Nntp/Scheduler/Choice.antt =====
-- crates/bergamot-nntp/src/scheduler.rs: how two servers compare.
use Prim.Native.Nat.{compare}
use bergamot.Prelude.{
  ℕ, zero, suc, ◌≤◌, ◌<◌, ◌≡◌, refl, subst, ◌⊎◌, inl, inr, Bool-cases, true, false, List, [], ◌∷◌,
  some, arith, All,
}
use bergamot.Text.{Text}
use bergamot.Nntp.Scheduler.{
  Floats, ServerSlot, has_capacity, weight, wfq_ratio, by_ordering, after, min_by, at_level,
  new_slot,
}

by_ordering_lem :
    (p q m n : ℕ)
    → (by_ordering (some (compare p q)) (compare m n) ≡ true → (q < p) ⊎ ((q ≡ p) × (n ≤ m)))
      × (by_ordering (some (compare p q)) (compare m n) ≡ false → (p < q) ⊎ ((p ≡ q) × (m ≤ n)))
by_ordering_lem p q m n = ground arith

module _ {F : Type 0} (fl : Floats F) where
  -- A slot whose baseline is greater than 0, as that of every new slot is.
  abbrev pub HasWeight : ServerSlot F → Type 0
  HasWeight s = fl.positive s.baseline_weight ≡ true

  -- Where a slot's ratio stands in the order of numbers.
  abbrev pub ratio : ServerSlot F → ℕ
  ratio s = fl.place (wfq_ratio fl s)

  -- `a` is no worse than `b`: a lower ratio, or the same and at most as many articles in flight.
  abbrev pub Better : ServerSlot F → ServerSlot F → Type 0
  Better a b = (ratio a < ratio b) ⊎ ((ratio a ≡ ratio b) × (a.active_count ≤ b.active_count))

  -- The server picked for the next article.
  pub record Best (slots : List (ServerSlot F)) (sid : ℕ) (s : ServerSlot F) : Type 0 where
    pub picked : s.server_id ≡ sid
    pub room : has_capacity s ≡ true
    pub first_level : All (λ t. (has_capacity t ≡ false) ⊎ (s.level ≤ t.level)) slots
    pub least : All (λ t. (at_level s.level t ≡ false) ⊎ Better s t) slots

  weight-positive : (s : ServerSlot F) → HasWeight s → fl.positive (weight fl s) ≡ true
  unfolding weight
  weight-positive s h = elim (Bool-cases (fl.positive s.ewma_bytes_per_sec)) [
    | inl e ↦ rw (weight, e) e
    | inr e ↦ rw (weight, e) h
  ]

  ratio-number : (s : ServerSlot F) → HasWeight s → fl.is_nan (wfq_ratio fl s) ≡ false
  unfolding wfq_ratio
  ratio-number s h =
      let p = weight-positive s h in
      rw (fl.not_positive_lem (weight fl s) p) (fl.number-div s.pending_bytes (weight fl s) p)

  after-Better :
      (a b : ServerSlot F)
      → HasWeight a
      → HasWeight b
      → (after fl a b ≡ true → Better b a) × (after fl a b ≡ false → Better a b)
  unfolding after
  after-Better a b ha hb =
      rw
        (
          after,
          fl.partial_cmp-place (wfq_ratio fl a) (wfq_ratio fl b) (ratio-number a ha)
              (ratio-number b hb),
        )
        (by_ordering_lem (ratio a) (ratio b) a.active_count b.active_count)

  Better-trans : (a b c : ServerSlot F) → Better a b → Better b c → Better a c
  Better-trans a b c h k = ground arith

  Better-refl : (a : ServerSlot F) → Better a a
  Better-refl a = inr (refl, omega arith)

  -- An item that passes and is no worse than the first one and the others.
  pub record Picked (P : ServerSlot F → Type 0) (first : ServerSlot F) (ss : List (ServerSlot F))
      (m : ServerSlot F) : Type 0 where
    pub passes : P m
    pub over_first : Better m first
    pub over_all : All (Better m) ss

  pub min_by-Picked :
      (P : ServerSlot F → Type 0) (best : ServerSlot F) (ss : List (ServerSlot F))
      → HasWeight best × P best
      → All (λ s. HasWeight s × P s) ss
      → Picked P best ss (min_by fl best ss)
  unfolding min_by
  min_by-Picked P best [] h hs = record {
    passes = h.1;
    over_first = Better-refl best;
    over_all = tt;
  }
  min_by-Picked P best (s ∷ ss) h hs = elim (Bool-cases (after fl best s)) [
    | inl e ↦
        let r = min_by-Picked P s ss hs.0 hs.1 in
        let q : min_by fl s ss ≡ min_by fl best (s ∷ ss) = rw (min_by, e) refl in
        subst (Picked P best (s ∷ ss)) q (record {
          passes = r.passes;
          over_first =
              Better-trans (min_by fl s ss) s best r.over_first
                ((after-Better best s h.0 hs.0.0).0 e);
          over_all = (r.over_first, r.over_all);
        })
    | inr e ↦
        let r = min_by-Picked P best ss h hs.1 in
        let q : min_by fl best ss ≡ min_by fl best (s ∷ ss) = rw (min_by, e) refl in
        subst (Picked P best (s ∷ ss)) q (record {
          passes = r.passes;
          over_first = r.over_first;
          over_all = (
            Better-trans (min_by fl best ss) best s r.over_first
                ((after-Better best s h.0 hs.0.0).1 e),
            r.over_all,
          );
        })
  ]

  -- Every new slot has a baseline greater than 0.
  pub new_slot-HasWeight :
      (id : ℕ) (name : Text) (level max_connections : ℕ)
      → HasWeight (new_slot fl id name level max_connections)
  unfolding new_slot
  new_slot-HasWeight id name level zero = fl.positive-mul 0 499999
  new_slot-HasWeight id name level (suc n) = fl.positive-mul n 499999
