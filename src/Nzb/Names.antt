-- ===== src/Nzb/Names.antt =====
-- crates/bergamot-nzb/src/parser.rs: `ensure_unique_filenames`. The set of used names is an
-- association list; the search for a free suffix runs on fuel.
pub mod Unique
pub mod Distinct
use bergamot.Prelude.{
  ℕ, zero, suc, ◌+◌, Bool, true, false, List, [], ◌∷◌, ◌++◌, Option, none, some, if◌then◌else◌,
  is_some, length,
}
use mathlib.Core.Option
use bergamot.Prelude.Map.{get, insert}
use bergamot.Text.{Text, text_eq}
use bergamot.Text.Decimal.{decimal}
use bergamot.Nzb.Model.{NzbFile}

abbrev pub Used : Type 0
Used = List (Text × ℕ)

unfoldable pub candidate : Text → ℕ → Text
unfolding decimal
candidate filename suffix = filename ++ b'_' ∷ decimal suffix

-- The inner loop: the first suffix from here whose candidate is not used.
unfoldable pub free_suffix : ℕ → Used → Text → ℕ → Option ℕ
unfolding candidate
free_suffix zero used filename suffix = none
free_suffix (suc fuel) used filename suffix =
    elim (is_some (get (candidate filename suffix) used)) [
      | true ↦ free_suffix fuel used filename (suc suffix)
      | false ↦ some suffix
    ]

-- One file: its name afterwards, and the names used.
unfoldable pub take_suffix : Text → Used → Option ℕ → Option (Text × Used)
unfolding candidate
take_suffix filename used none = none
take_suffix filename used (some suffix) =
    some (
      candidate filename suffix,
      insert filename suffix (insert (candidate filename suffix) 1 used),
    )

unfoldable pub name_for : Text → Used → Option ℕ → Option (Text × Used)
unfolding free_suffix candidate
name_for filename used none = some (filename, insert filename 1 used)
name_for filename used (some index) =
    take_suffix filename used (free_suffix (suc (length used)) used filename (suc index))

abbrev pub put_first : NzbFile → Option (List NzbFile) → Option (List NzbFile)
put_first f none = none
put_first f (some fs) = some (f ∷ fs)

unfoldable pub unique_from : Used → List NzbFile → Option (List NzbFile)
unfolding free_suffix candidate
unique_from used [] = some []
unique_from used (f ∷ rest) = elim f.filename [
  | none ↦ put_first f (unique_from used rest)
  | some [] ↦ put_first f (unique_from used rest)
  | some (c ∷ s) ↦ elim (name_for (c ∷ s) used (get (c ∷ s) used)) [
    | none ↦ none
    | some (name, used') ↦ put_first (record f { filename = some name }) (unique_from used' rest)
  ]
]

unfoldable pub ensure_unique_filenames : List NzbFile → Option (List NzbFile)
unfolding unique_from
ensure_unique_filenames files = unique_from [] files
