-- ===== src/Nzb/Names/Unique.antt =====
-- crates/bergamot-nzb/src/parser.rs: the search for a free suffix ends, since no two suffixes give
-- one name, and the names that it gives are different.
use bergamot.Prelude.{
  ℕ, zero, suc, ◌≤◌, ◌<◌, ◌≡◌, refl, ◌∙◌, subst, ◌≢◌, inl, inr, true, false, Bool-cases, [], ◌∷◌,
  ◌++◌, none, some, Option-cases, arith, is_some, length,
}
use bergamot.Prelude.Map.{get, remove, insert, get-remove, get-insert, length-remove-le}
use bergamot.Text.{Text, same, same_sound, same_refl, text_eq}
use bergamot.Text.Decimal.{decimal, decimal_injective}
use bergamot.Nzb.Names.{Used, candidate, free_suffix, take_suffix, name_for}

append_cancel : (s : Text) {t u : Text} → s ++ t ≡ s ++ u → t ≡ u
append_cancel [] h = h
append_cancel (c ∷ s) h = append_cancel s (cc)

candidate_injective : (f : Text) (m n : ℕ) → candidate f m ≡ candidate f n → m ≡ n
unfolding candidate
candidate_injective f m n h =
    let e = append_cancel f h in let t : decimal m ≡ decimal n = cc in decimal_injective m n t

candidate_apart : (f : Text) (m n : ℕ) → m < n → same (candidate f m) (candidate f n) ≡ false
candidate_apart f m n h = elim (Bool-cases (same (candidate f m) (candidate f n))) [
  | inl e ↦
      let q = candidate_injective f m n (same_sound (candidate f m) (candidate f n) e) in
      absurd (omega arith)
  | inr e ↦ e
]

length-remove-lt : (k : Text) (m : Used) → is_some (get k m) ≡ true → length (remove k m) < length m
length-remove-lt k [] h = cc
length-remove-lt k ((j, v) ∷ m) h = elim (Bool-cases (same j k)) [
  | inl e ↦ rw e (omega (arith, length-remove-le k m))
  | inr e ↦ rw e (omega (arith, length-remove-lt k m (rw e at h)))
]

-- A key that no later suffix asks for can be dropped.
free_suffix-remove :
    (fuel : ℕ) (used : Used) (f : Text) (m n : ℕ)
    → m < n
    → free_suffix fuel (remove (candidate f m) used) f n ≡ free_suffix fuel used f n
unfolding free_suffix
free_suffix-remove zero used f m n h = refl
free_suffix-remove (suc fuel) used f m n h =
    let rest = free_suffix-remove fuel used f m (suc n) (omega arith) in
    let same_key = get-remove (candidate f m) (candidate f n) used (candidate_apart f m n h) in
    elim (Bool-cases (is_some (get (candidate f n) used))) [
      | inl e ↦ rw (free_suffix, same_key, e) rest
      | inr e ↦ rw (free_suffix, same_key, e)
    ]

-- Each suffix that is taken uses up one of the keys.
free_suffix-none :
    (fuel : ℕ) (used : Used) (f : Text) (n : ℕ)
    → free_suffix fuel used f n ≡ none
    → fuel ≤ length used
unfolding free_suffix
free_suffix-none zero used f n h = omega arith
free_suffix-none (suc fuel) used f n h = elim (Bool-cases (is_some (get (candidate f n) used))) [
  | inl e ↦
      let p = free_suffix-remove fuel used f n (suc n) (omega arith) in
      let rest =
        free_suffix-none fuel (remove (candidate f n) used) f (suc n)
          (p ∙ (rw (free_suffix, e) at h)) in
      omega (arith, length-remove-lt (candidate f n) used e)
  | inr e ↦ absurd (let q = rw (free_suffix, e) at h in cc)
]

-- The suffix found is free.
free_suffix-free :
    (fuel : ℕ) (used : Used) (f : Text) (n k : ℕ)
    → free_suffix fuel used f n ≡ some k
    → get (candidate f k) used ≡ none
unfolding free_suffix
free_suffix-free zero used f n k h = cc
free_suffix-free (suc fuel) used f n k h = elim (Option-cases (get (candidate f n) used)) [
  | inl e ↦
      let q = rw (free_suffix, e) at h in
      let t : n ≡ k = cc in subst (λ i. get (candidate f i) used ≡ none) t e
  | inr (v, e) ↦ free_suffix-free fuel used f (suc n) k (rw (free_suffix, e) at h)
]

free_suffix-found :
    (used : Used) (f : Text) (n : ℕ)
    → (k : ℕ) × (free_suffix (suc (length used)) used f n ≡ some k)
      × (get (candidate f k) used ≡ none)
free_suffix-found used f n = elim (Option-cases (free_suffix (suc (length used)) used f n)) [
  | inl e ↦ absurd (omega (arith, free_suffix-none (suc (length used)) used f n e))
  | inr (k, e) ↦ (k, e, free_suffix-free (suc (length used)) used f n k e)
]

-- A name given: it was free, it is used now, and what was used still is.
pub record Given (name : Text) (used used' : Used) : Type 0 where
  pub free : get name used ≡ none
  pub taken : get name used' ≢ none
  pub grows : (k : Text) → get k used' ≡ none → get k used ≡ none

Given-insert : (k : Text) (v : ℕ) (used : Used) → get k used ≡ none → Given k used (insert k v used)
Given-insert k v used h = record {
  free = h;
  taken = ground (arith, get-insert k k v used, same_refl k);
  grows = λ j e. ground (arith, get-insert k j v used);
}

Given-grow :
    (f : Text) (v : ℕ) {name : Text} {used used' : Used}
    → Given name used used'
    → Given name used (insert f v used')
Given-grow f v {name} {used} {used'} g = record {
  free = g.free;
  taken = ground (arith, get-insert f name v used', g.taken);
  grows = λ j e. ground (arith, get-insert f j v used', g.grows j);
}

pub name_for-Given :
    (c : ℕ) (s : Text) (used : Used)
    → (name : Text) × (used' : Used) × (name_for (c ∷ s) used (get (c ∷ s) used)
        ≡ some (name, used'))
      × (name ≢ [])
      × Given name used used'
unfolding name_for take_suffix
name_for-Given c s used =
    let f : Text = c ∷ s in
    elim (Option-cases (get f used)) [
      | inl e ↦ rw e (f, insert f 1 used, refl, (λ h. cc), Given-insert f 1 used e)
      | inr (i, e) ↦
          let (k, at, free) = free_suffix-found used f (suc i) in
          rw (e, at)
            (
              candidate f k,
              insert f k (insert (candidate f k) 1 used),
              refl,
              (λ h. cc),
              Given-grow f k (Given-insert (candidate f k) 1 used free),
            )
    ]
