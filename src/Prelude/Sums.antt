-- ===== src/Prelude/Sums.antt =====
-- What changes of a list do to a sum over its items.
use bergamot.Prelude.{
  ℕ, zero, suc, ◌+◌, ◌≤◌, ◌≡◌, refl, Bool, List, [], ◌∷◌, map, some, Option-cases, arith, get_elem?,
  Bool-cases, inl, inr,
}
use bergamot.Prelude.Find.{find, position, modify_first, remove_at, insert_at, retain, sum_by}

module _ {ℓ} {A : Type ℓ} (g : A → ℕ) where
  pub sum_by-modify_first_same :
      (p : A → Bool) (f : A → A) (xs : List A)
      → ((x : A) → g (f x) ≡ g x)
      → sum_by g (modify_first p f xs) ≡ sum_by g xs
  sum_by-modify_first_same p f [] h = refl
  sum_by-modify_first_same p f (x ∷ xs) h = ground (arith, h x, sum_by-modify_first_same p f xs h)

  pub sum_by-map_same :
      (f : A → A) (xs : List A) → ((x : A) → g (f x) ≡ g x) → sum_by g (map f xs) ≡ sum_by g xs
  sum_by-map_same f [] h = refl
  sum_by-map_same f (x ∷ xs) h = omega (arith, h x, sum_by-map_same f xs h)

  pub sum_by-retain-le : (p : A → Bool) (xs : List A) → sum_by g (retain p xs) ≤ sum_by g xs
  sum_by-retain-le p [] = omega arith
  sum_by-retain-le p (x ∷ xs) = ground (arith, sum_by-retain-le p xs)

  pub sum_by-remove_at :
      (i : ℕ) (xs : List A) {x : A}
      → get_elem? xs i ≡ some x
      → sum_by g (remove_at i xs) + g x ≡ sum_by g xs
  sum_by-remove_at i [] h = cc
  sum_by-remove_at zero (y ∷ xs) {x} h = let e : y ≡ x = cc in rw e (omega arith)
  sum_by-remove_at (suc i) (y ∷ xs) h = omega (arith, sum_by-remove_at i xs h)

  pub sum_by-insert_at :
      (i : ℕ) (a : A) (xs : List A) → sum_by g (insert_at i a xs) ≡ g a + sum_by g xs
  sum_by-insert_at zero a xs = refl
  sum_by-insert_at (suc i) a [] = refl
  sum_by-insert_at (suc i) a (x ∷ xs) = omega (arith, sum_by-insert_at i a xs)

pub find-position {ℓ} :
    {A : Type ℓ} (p : A → Bool) (xs : List A) (i : ℕ) {x : A}
    → find p xs ≡ some x
    → position p xs ≡ some i
    → get_elem? xs i ≡ some x
find-position p [] i h k = cc
find-position p (y ∷ xs) zero {x} h k = elim (Bool-cases (p y)) [
  | inl e ↦ ground arith
  | inr e ↦ elim (Option-cases (position p xs)) [
    | inl m ↦ absurd (ground arith)
    | inr (j, m) ↦ absurd (ground arith)
  ]
]
find-position p (y ∷ xs) (suc i) {x} h k = elim (Bool-cases (p y)) [
  | inl e ↦ absurd (ground arith)
  | inr e ↦ elim (Option-cases (position p xs)) [
    | inl m ↦ absurd (ground arith)
    | inr (j, m) ↦ let q : j ≡ i = ground arith in find-position p xs i (rw e at h) (ground arith)
  ]
]
