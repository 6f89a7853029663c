-- ===== src/Nzb/Subject.antt =====
-- crates/bergamot-nzb/src/parser.rs: what is read off a subject and a file name, and the hashes.
-- The regular expressions and the hash function are libraries, a parameter of what uses them.
use bergamot.Prelude.{
  ℕ, ◌+◌, ◌%◌, ◌^◌, Bool, true, false, ◌&&◌, List, [], ◌∷◌, ◌++◌, map, reverse, Option, none, some,
  if◌then◌else◌, leb, ltb, ◌==◌,
}
use bergamot.Prelude.Sort.{sort_by}
use bergamot.Text.{Text, codes, starts_with, parse_uint}
use bergamot.Nzb.Model.{ParStatus, not_par, main_par, repair_volume, NzbFile}

-- `quoted` gives the first group of each match of FILENAME_RE, `volume` the two groups of a match
-- of PAR2_VOL_RE, `hash` what the standard hasher gives for texts one after the other.
pub record Libraries : Type 0 where
  pub quoted : Text → List Text
  pub volume : Text → Option (Option Text × Option Text)
  pub hash : List Text → ℕ

abbrev last : List Text → Option Text
last [] = none
last (s ∷ []) = some s
last (s ∷ t ∷ rest) = last (t ∷ rest)

abbrev lower : ℕ → ℕ
lower c = if leb b'A' c && leb c b'Z' then c + 32 else c

abbrev to_ascii_lowercase : Text → Text
to_ascii_lowercase s = map lower s

abbrev ends_with : Text → Text → Bool
ends_with suffix s = starts_with (reverse suffix) (reverse s)

-- `<=` on texts.
abbrev text_le : Text → Text → Bool
text_le [] t = true
text_le (c ∷ s) [] = false
text_le (c ∷ s) (d ∷ t) = if c == d then text_le s t else ltb c d

-- A group of the match as a `u32`, 0 where it is missing or does not parse.
unfoldable pub group_number : Option Text → ℕ
unfolding parse_uint
group_number none = 0
group_number (some s) = elim (parse_uint (2 ^ 32) s) [ none ↦ 0 | some n ↦ n ]

abbrev message_ids : List NzbFile → List Text
message_ids [] = []
message_ids (f ∷ fs) = map (λ s. s.message_id) f.segments ++ message_ids fs

abbrev filenames : List NzbFile → List Text
filenames [] = []
filenames (f ∷ fs) = elim f.filename [ none ↦ filenames fs | some s ↦ s ∷ filenames fs ]

module _ (lib : Libraries) where
  unfoldable pub extract_filename : Text → Option Text
  extract_filename subject = last (lib.quoted subject)

  unfoldable pub classify_par : Option Text → ParStatus
  unfolding group_number
  classify_par none = not_par
  classify_par (some name) =
      if ends_with (codes ".par2") (to_ascii_lowercase name)
      then elim (lib.volume name) [
        | none ↦ main_par
        | some (offset, count) ↦ repair_volume (group_number offset) (group_number count)
      ]
      else not_par

  unfoldable pub compute_content_hash : List NzbFile → ℕ
  compute_content_hash files = lib.hash (sort_by text_le (message_ids files)) % 2 ^ 32

  unfoldable pub compute_name_hash : List NzbFile → ℕ
  compute_name_hash files = lib.hash (sort_by text_le (filenames files)) % 2 ^ 32
