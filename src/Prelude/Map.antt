-- ===== src/Prelude/Map.antt =====
-- A hash map as an association list with one entry for each key.
use bergamot.Prelude.{
  ◌≤◌, ◌≡◌, refl, length, Bool, true, false, List, [], ◌∷◌, Option, none, some, arith,
  if◌then◌else◌, ◌↔◌, is_some, inl, inr, Bool-cases, ℕ, ◌==◌, ==_iff,
}

pub record Eq {ℓ} (A : Type ℓ) : Type ℓ where
  pub beq : A → A → Bool
  pub beq_iff : (a b : A) → (beq a b ≡ true) ↔ (a ≡ b)

instance abbrev pub number_eq : Eq ℕ
number_eq = record { beq = ◌==◌; beq_iff = ==_iff }

module _ {ℓ κ} {K : Type ℓ} {V : Type κ} ⦃e : Eq K⦄ where
  abbrev pub get : K → List (K × V) → Option V
  get k [] = none
  get k ((j, v) ∷ m) = if e.beq j k then some v else get k m

  -- Drops every entry of a key.
  abbrev pub remove : K → List (K × V) → List (K × V)
  remove k [] = []
  remove k ((j, v) ∷ m) = if e.beq j k then remove k m else (j, v) ∷ remove k m

  abbrev pub insert : K → V → List (K × V) → List (K × V)
  insert k v m = (k, v) ∷ remove k m

  pub get-remove_self : (k : K) (m : List (K × V)) → get k (remove k m) ≡ none
  get-remove_self k [] = refl
  get-remove_self k ((j, v) ∷ m) = ground (arith, get-remove_self k m)

  pub get-remove : (k j : K) (m : List (K × V)) → e.beq k j ≡ false → get j (remove k m) ≡ get j m
  get-remove k j [] h = refl
  get-remove k j ((i, v) ∷ m) h =
      ground (arith, get-remove k j m h, e.beq_iff i k, e.beq_iff i j, e.beq_iff k j)

  pub get-insert :
      (k j : K) (v : V) (m : List (K × V))
      → get j (insert k v m) ≡ (if e.beq k j then some v else get j m)
  get-insert k j v m = ground (arith, get-remove k j m)

  pub has-insert_self : (k : K) (v : V) (m : List (K × V)) → is_some (get k (insert k v m)) ≡ true
  has-insert_self k v m = ground (arith, (e.beq_iff k k).1 refl)

  pub has-insert :
      (k j : K) (v : V) (m : List (K × V))
      → is_some (get j m) ≡ true
      → is_some (get j (insert k v m)) ≡ true
  has-insert k j v m h = elim (Bool-cases (e.beq k j)) [
    | inl q ↦ rw q refl
    | inr q ↦ rw (q, get-remove k j m q) h
  ]

  pub length-remove-le : (k : K) (m : List (K × V)) → length (remove k m) ≤ length m
  length-remove-le k [] = omega arith
  length-remove-le k ((j, v) ∷ m) = ground (arith, length-remove-le k m)
