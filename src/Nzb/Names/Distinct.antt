-- ===== src/Nzb/Names/Distinct.antt =====
-- crates/bergamot-nzb/src/parser.rs: what `ensure_unique_filenames` gives.
use bergamot.Prelude.{
  ℕ, ◌≡◌, refl, sym, ◌∙◌, subst, ◌≢◌, ◌⊎◌, inl, inr, List, [], ◌∷◌, Option, none, some, All,
  All-weaken,
}
use bergamot.Prelude.Map.{get}
use bergamot.Text.{Text, text_eq}
use bergamot.Nzb.Model.{NzbFile}
use bergamot.Nzb.Names.{Used, unique_from, ensure_unique_filenames}
use bergamot.Nzb.Names.Unique.{Given, name_for-Given}

-- The name of a file, empty where it has none.
abbrev pub name_of : NzbFile → Text
name_of f = elim f.filename [ none ↦ [] | some s ↦ s ]

-- A file and what became of it: only the name may change, and only a file with a name is renamed.
pub record Renamed (f g : NzbFile) : Type 0 where
  pub only_name : g ≡ record f { filename = g.filename }
  pub named : ((name_of f ≡ []) × (g ≡ f)) ⊎ ((name_of f ≢ []) × (name_of g ≢ []))

abbrev pub Pairwise : List NzbFile → List NzbFile → Type 0
Pairwise [] [] = Unit
Pairwise [] (g ∷ gs) = ⊥
Pairwise (f ∷ fs) [] = ⊥
Pairwise (f ∷ fs) (g ∷ gs) = Renamed f g × Pairwise fs gs

-- No two files have one name, those without a name aside.
abbrev pub Apart : List NzbFile → Type 0
Apart [] = Unit
Apart (f ∷ fs) = ((name_of f ≡ []) ⊎ All (λ g. name_of g ≢ name_of f) fs) × Apart fs

-- A name that is not used yet.
abbrev New : Used → NzbFile → Type 0
New used g = (name_of g ≡ []) ⊎ (get (name_of g) used ≡ none)

record Outcome (used : Used) (files out : List NzbFile) : Type 0 where
  pairs : Pairwise files out
  apart : Apart out
  fresh : All (New used) out

unnamed :
    (used : Used) (f : NzbFile) (files out : List NzbFile)
    → name_of f ≡ []
    → Outcome used files out
    → Outcome used (f ∷ files) (f ∷ out)
unnamed used f files out e o = record {
  pairs = (record { only_name = refl; named = inl (e, refl) }, o.pairs);
  apart = (inl e, o.apart);
  fresh = (inl e, o.fresh);
}

later-New :
    {name : Text} {used used' : Used} (g : NzbFile)
    → Given name used used'
    → New used' g
    → New used g
later-New g given (inl e) = inl e
later-New g given (inr e) = inr (given.grows (name_of g) e)

other_name :
    {name : Text} {used used' : Used} (g : NzbFile)
    → name ≢ []
    → Given name used used'
    → New used' g
    → name_of g ≢ name
other_name g k given (inl e) h = k (sym h ∙ e)
other_name {used' = used'} g k given (inr e) h = given.taken (subst (λ s. get s used' ≡ none) h e)

renamed :
    (used used' : Used) (f : NzbFile) (name : Text) (files out : List NzbFile)
    → name_of f ≢ []
    → name ≢ []
    → Given name used used'
    → Outcome used' files out
    → Outcome used (f ∷ files) (record f { filename = some name } ∷ out)
renamed used used' f name files out n k given o = record {
  pairs = (record { only_name = refl; named = inr (n, k) }, o.pairs);
  apart = (
    inr (All-weaken (New used') (λ g. name_of g ≢ name) out (λ g. other_name g k given) o.fresh),
    o.apart,
  );
  fresh = (inr given.free, All-weaken (New used') (New used) out (λ g. later-New g given) o.fresh);
}

name_cases :
    (o : Option Text) → (o ≡ none) ⊎ ((o ≡ some []) ⊎ ((c : ℕ) × (s : Text) × (o ≡ some (c ∷ s))))
name_cases none = inl refl
name_cases (some []) = inr (inl refl)
name_cases (some (c ∷ s)) = inr (inr (c, s, refl))

unique_from-Outcome :
    (used : Used) (files : List NzbFile)
    → (out : List NzbFile) × (unique_from used files ≡ some out) × Outcome used files out
unfolding unique_from
unique_from-Outcome used [] = ([], refl, record { pairs = tt; apart = tt; fresh = tt })
unique_from-Outcome used (f ∷ files) = elim (name_cases f.filename) [
  | inl e ↦
      let (out, at, o) = unique_from-Outcome used files in
      (f ∷ out, simp (unique_from, e, at), unnamed used f files out (rw e) o)
  | inr (inl e) ↦
      let (out, at, o) = unique_from-Outcome used files in
      (f ∷ out, simp (unique_from, e, at), unnamed used f files out (rw e) o)
  | inr (inr (c, s, e)) ↦
      let (name, used', given_at, k, given) = name_for-Given c s used in
      let (out, at, o) = unique_from-Outcome used' files in
      (
        record f { filename = some name } ∷ out,
        simp (unique_from, e, given_at, at),
        renamed used used' f name files out (λ h. let q = rw e at h in cc) k given o,
      )
]

-- For any files, the search for names ends, and the result pairs up with the files in order: only
-- the name of a file may change, a file with no name or an empty one stays as it is, any other has
-- a name that is not empty, and no two files of the result have the same name, those without one
-- aside.
pub ensure_unique_filenames-Apart :
    (files : List NzbFile)
    → (out : List NzbFile) × (ensure_unique_filenames files ≡ some out)
      × Pairwise files out
      × Apart out
unfolding ensure_unique_filenames
ensure_unique_filenames-Apart files =
    let (out, at, o) = unique_from-Outcome [] files in (out, at, o.pairs, o.apart)
