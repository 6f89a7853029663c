-- ===== src/Prelude/Find.antt =====
-- Searching a vector and changing one item of it: `iter().find`, `iter().position`,
-- `iter_mut().find`, `get_mut`, `remove`, `insert`, `retain`.
use bergamot.Prelude.{
  Option-cases, All, subst, ℕ, zero, suc, ◌+◌, ◌≤◌, ◌<◌, ◌≡◌, refl, ap, Bool, true, List, [], ◌∷◌,
  ◌++◌, Option, none, some, arith, length, get_elem?, if◌then◌else◌, Bool-cases, inl, inr,
}
use mathlib.Core.Option

module _ {ℓ} {A : Type ℓ} where
  -- The first item that passes.
  abbrev pub find : (A → Bool) → List A → Option A
  find p [] = none
  find p (x ∷ xs) = if p x then some x else find p xs

  abbrev pub position : (A → Bool) → List A → Option ℕ
  position p [] = none
  position p (x ∷ xs) = if p x then some 0 else Option.map suc (position p xs)

  -- Changes the first item that passes; nothing where there is none.
  abbrev pub modify_first : (A → Bool) → (A → A) → List A → List A
  modify_first p f [] = []
  modify_first p f (x ∷ xs) = if p x then f x ∷ xs else x ∷ modify_first p f xs

  -- Changes the item at an index; nothing out of range.
  abbrev pub modify_at : ℕ → (A → A) → List A → List A
  modify_at i f [] = []
  modify_at zero f (x ∷ xs) = f x ∷ xs
  modify_at (suc i) f (x ∷ xs) = x ∷ modify_at i f xs

  -- Drops the item at an index in range.
  abbrev pub remove_at : ℕ → List A → List A
  remove_at i [] = []
  remove_at zero (x ∷ xs) = xs
  remove_at (suc i) (x ∷ xs) = x ∷ remove_at i xs

  -- Puts an item at an index that is at most the length.
  abbrev pub insert_at : ℕ → A → List A → List A
  insert_at zero a xs = a ∷ xs
  insert_at (suc i) a [] = a ∷ []
  insert_at (suc i) a (x ∷ xs) = x ∷ insert_at i a xs

  abbrev pub retain : (A → Bool) → List A → List A
  retain p [] = []
  retain p (x ∷ xs) = if p x then x ∷ retain p xs else retain p xs

  -- A sum over the items.
  abbrev pub sum_by : (A → ℕ) → List A → ℕ
  sum_by g [] = 0
  sum_by g (x ∷ xs) = g x + sum_by g xs

  pub sum_by-append : (g : A → ℕ) (xs ys : List A) → sum_by g (xs ++ ys) ≡ sum_by g xs + sum_by g ys
  sum_by-append g [] ys = omega arith
  sum_by-append g (x ∷ xs) ys = omega (arith, sum_by-append g xs ys)

  pub sum_by-modify_first :
      (g : A → ℕ) (p : A → Bool) (f : A → A) (xs : List A) {x : A}
      → find p xs ≡ some x
      → sum_by g (modify_first p f xs) + g x ≡ sum_by g xs + g (f x)
  sum_by-modify_first g p f [] h = cc
  sum_by-modify_first g p f (y ∷ xs) {x} h = elim (Bool-cases (p y)) [
    | inl e ↦ let q : y ≡ x = ground arith in rw (e, q) (omega arith)
    | inr e ↦ let rest = sum_by-modify_first g p f xs (rw e at h) in rw e (omega arith)
  ]

  pub sum_by-modify_at :
      (g : A → ℕ) (f : A → A) (i : ℕ) (xs : List A) {x : A}
      → get_elem? xs i ≡ some x
      → sum_by g (modify_at i f xs) + g x ≡ sum_by g xs + g (f x)
  sum_by-modify_at g f i [] h = cc
  sum_by-modify_at g f zero (y ∷ xs) {x} h = let e : y ≡ x = cc in rw e (omega arith)
  sum_by-modify_at g f (suc i) (y ∷ xs) {x} h =
      let rest = sum_by-modify_at g f i xs h in omega arith

  pub length-modify_at : (i : ℕ) (f : A → A) (xs : List A) → length (modify_at i f xs) ≡ length xs
  length-modify_at i f [] = refl
  length-modify_at zero f (x ∷ xs) = refl
  length-modify_at (suc i) f (x ∷ xs) = ap suc (length-modify_at i f xs)

  pub get_elem?-modify_at :
      (i : ℕ) (f : A → A) (xs : List A) {x : A}
      → get_elem? xs i ≡ some x
      → get_elem? (modify_at i f xs) i ≡ some (f x)
  get_elem?-modify_at i f [] h = cc
  get_elem?-modify_at zero f (y ∷ xs) h = ap (Option.map f) h
  get_elem?-modify_at (suc i) f (y ∷ xs) h = get_elem?-modify_at i f xs h

module _ {ℓ κ} {A : Type ℓ} (P : A → Type κ) where
  pub All-find : (p : A → Bool) (xs : List A) {x : A} → All P xs → find p xs ≡ some x → P x
  All-find p [] h e = cc
  All-find p (y ∷ xs) {x} h e = elim (Bool-cases (p y)) [
    | inl t ↦ let q : y ≡ x = ground arith in subst P q h.0
    | inr t ↦ All-find p xs h.1 (rw t at e)
  ]

  pub All-modify_first :
      (p : A → Bool) (f : A → A) (xs : List A)
      → All P xs
      → ((x : A) → find p xs ≡ some x → P x → P (f x))
      → All P (modify_first p f xs)
  All-modify_first p f [] h k = tt
  All-modify_first p f (x ∷ xs) h k = elim (Bool-cases (p x)) [
    | inl e ↦ rw e (k x (rw e) h.0, h.1)
    | inr e ↦ rw e (h.0, All-modify_first p f xs h.1 (λ y g. k y (rw e g)))
  ]

  pub All-modify_at :
      (i : ℕ) (f : A → A) (xs : List A)
      → All P xs
      → ((x : A) → get_elem? xs i ≡ some x → P x → P (f x))
      → All P (modify_at i f xs)
  All-modify_at i f [] h k = tt
  All-modify_at zero f (x ∷ xs) h k = (k x refl h.0, h.1)
  All-modify_at (suc i) f (x ∷ xs) h k = (h.0, All-modify_at i f xs h.1 k)

  pub All-remove_at : (i : ℕ) (xs : List A) → All P xs → All P (remove_at i xs)
  All-remove_at i [] h = tt
  All-remove_at zero (x ∷ xs) h = h.1
  All-remove_at (suc i) (x ∷ xs) h = (h.0, All-remove_at i xs h.1)

  pub All-get_elem? : (i : ℕ) (xs : List A) {x : A} → All P xs → get_elem? xs i ≡ some x → P x
  All-get_elem? i [] h e = cc
  All-get_elem? zero (y ∷ xs) {x} h e = let q : y ≡ x = cc in subst P q h.0
  All-get_elem? (suc i) (y ∷ xs) h e = All-get_elem? i xs h.1 e

module _ {ℓ} {A : Type ℓ} (g : A → ℕ) where
  -- A change that keeps `g` keeps its sum.
  pub sum_by-modify_at_same :
      (i : ℕ) (f : A → A) (xs : List A)
      → ((x : A) → g (f x) ≡ g x)
      → sum_by g (modify_at i f xs) ≡ sum_by g xs
  sum_by-modify_at_same i f [] h = refl
  sum_by-modify_at_same zero f (x ∷ xs) h = rw (h x)
  sum_by-modify_at_same (suc i) f (x ∷ xs) h = rw (sum_by-modify_at_same i f xs h)

  pub sum_by-get_elem?-le :
      (i : ℕ) (xs : List A) {x : A} → get_elem? xs i ≡ some x → g x ≤ sum_by g xs
  sum_by-get_elem?-le i [] e = cc
  sum_by-get_elem?-le zero (y ∷ xs) {x} e = let q : y ≡ x = cc in rw q (omega arith)
  sum_by-get_elem?-le (suc i) (y ∷ xs) e = omega (arith, sum_by-get_elem?-le i xs e)

module _ {ℓ} {A : Type ℓ} where
  -- An index holds an item that passes.
  pub record Hit (p : A → Bool) (xs : List A) (i : ℕ) : Type ℓ where
    pub item : A
    pub at : get_elem? xs i ≡ some item
    pub passes : p item ≡ true
    pub in_range : i < length xs

  pub position-Hit : (p : A → Bool) (xs : List A) (i : ℕ) → position p xs ≡ some i → Hit p xs i
  position-Hit p [] i e = cc
  position-Hit p (x ∷ xs) i e = elim (Bool-cases (p x)) [
    | inl t ↦
        let q : 0 ≡ i = ground arith in
        subst (Hit p (x ∷ xs)) q
          (record { item = x; at = refl; passes = t; in_range = omega arith })
    | inr t ↦ elim (Option-cases (position p xs)) [
      | inl m ↦ absurd (ground arith)
      | inr (j, m) ↦
          let q : suc j ≡ i = ground arith in
          let h = position-Hit p xs j m in
          subst (Hit p (x ∷ xs)) q (record {
            item = h.item;
            at = h.at;
            passes = h.passes;
            in_range = omega (arith, h.in_range);
          })
    ]
  ]

-- Where there is no position nothing is found.
pub find-position {ℓ} :
    {A : Type ℓ} (p : A → Bool) (xs : List A) → position p xs ≡ none → find p xs ≡ none
find-position p [] e = refl
find-position p (x ∷ xs) e = ground (arith, find-position p xs)
