-- ===== src/Prelude/Sort.antt =====
-- `sort_by` and `sort_by_key` as a stable insertion sort.
use Prim.Native.Nat.{ℕ, ◌≤◌}
use mathlib.Core.Path.{◌≡◌, refl}
use mathlib.Core.Logic.{inl, inr}
use mathlib.Core.Bool.{Bool}
use mathlib.Core.List.{List, [], ◌∷◌}
use native.Mathlib.Omega.{arith}
use bergamot.Prelude.{if◌then◌else◌, leb, Bool-cases, All, All-weaken, length, ◌+◌}
use bergamot.Prelude.Find.{sum_by}

module _ {ℓ} {A : Type ℓ} where
  -- `before a b` tells that `a` may stand in front of `b`.
  abbrev pub insert_by : (A → A → Bool) → A → List A → List A
  insert_by before a [] = a ∷ []
  insert_by before a (b ∷ bs) = if before a b then a ∷ b ∷ bs else b ∷ insert_by before a bs

  abbrev pub sort_by : (A → A → Bool) → List A → List A
  sort_by before [] = []
  sort_by before (a ∷ xs) = insert_by before a (sort_by before xs)

  abbrev pub by_key : (A → ℕ) → A → A → Bool
  by_key key a b = leb (key a) (key b)

module _ {ℓ} {A : Type ℓ} (before : A → A → Bool) where
  module _ {κ} (P : A → Type κ) where
    pub All-insert_by : (a : A) (bs : List A) → P a → All P bs → All P (insert_by before a bs)
    All-insert_by a [] p h = (p, tt)
    All-insert_by a (b ∷ bs) p h = elim (Bool-cases (before a b)) [
      | inl e ↦ rw e (p, h)
      | inr e ↦ rw e (h.0, All-insert_by a bs p h.1)
    ]

    pub All-sort_by : (xs : List A) → All P xs → All P (sort_by before xs)
    All-sort_by [] h = tt
    All-sort_by (x ∷ xs) h = All-insert_by x (sort_by before xs) h.0 (All-sort_by xs h.1)

  module _ (g : A → ℕ) where
    sum_by-insert_by : (a : A) (bs : List A) → sum_by g (insert_by before a bs) ≡ g a + sum_by g bs
    sum_by-insert_by a [] = refl
    sum_by-insert_by a (b ∷ bs) = ground (arith, sum_by-insert_by a bs)

    pub sum_by-sort_by : (xs : List A) → sum_by g (sort_by before xs) ≡ sum_by g xs
    sum_by-sort_by [] = refl
    sum_by-sort_by (x ∷ xs) =
        omega (arith, sum_by-insert_by x (sort_by before xs), sum_by-sort_by xs)

  length-insert_by : (a : A) (bs : List A) → length (insert_by before a bs) ≡ 1 + length bs
  length-insert_by a [] = refl
  length-insert_by a (b ∷ bs) = ground (arith, length-insert_by a bs)

  pub length-sort_by : (xs : List A) → length (sort_by before xs) ≡ length xs
  length-sort_by [] = refl
  length-sort_by (x ∷ xs) = omega (arith, length-insert_by x (sort_by before xs), length-sort_by xs)

module _ {ℓ} {A : Type ℓ} (key : A → ℕ) where
  -- Every item's key is at most the keys after it.
  abbrev pub Rising : List A → Type 0
  Rising [] = Unit
  Rising (x ∷ xs) = All (λ y. key x ≤ key y) xs × Rising xs

  Rising-insert_by : (a : A) (bs : List A) → Rising bs → Rising (insert_by (by_key key) a bs)
  Rising-insert_by a [] h = (tt, tt)
  Rising-insert_by a (b ∷ bs) h = elim (Bool-cases (leb (key a) (key b))) [
    | inl e ↦
        let le : key a ≤ key b = ground arith in
        rw e (
          (le, All-weaken (λ y. key b ≤ key y) (λ y. key a ≤ key y) bs (λ y q. omega arith) h.0),
          h,
        )
    | inr e ↦
        let le : key b ≤ key a = ground arith in
        rw e
          (All-insert_by (by_key key) (λ y. key b ≤ key y) a bs le h.0, Rising-insert_by a bs h.1)
  ]

  pub Rising-sort_by : (xs : List A) → Rising (sort_by (by_key key) xs)
  Rising-sort_by [] = tt
  Rising-sort_by (x ∷ xs) = Rising-insert_by x (sort_by (by_key key) xs) (Rising-sort_by xs)
