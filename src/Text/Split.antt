-- ===== src/Text/Split.antt =====
-- `str::split`, `str::split_once`, `str::strip_prefix` and `str::contains` with one character.
use mathlib.Core.Option
use bergamot.Prelude.{
  ℕ, ◌≡◌, Bool, false, List, [], ◌∷◌, ◌++◌, Option, none, some, arith, if◌then◌else◌, ◌==◌, any,
}
use bergamot.Text.{Text, is_whitespace}

abbrev cons_first : ℕ → List Text → List Text
cons_first x [] = (x ∷ []) ∷ []
cons_first x (t ∷ ts) = (x ∷ t) ∷ ts

unfoldable pub split : ℕ → Text → List Text
split c [] = [] ∷ []
split c (x ∷ s) = let rest = split c s in if x == c then [] ∷ rest else cons_first x rest

abbrev add_left : ℕ → Text × Text → Text × Text
add_left x (l, r) = (x ∷ l, r)

unfoldable pub split_once : ℕ → Text → Option (Text × Text)
split_once c [] = none
split_once c (x ∷ s) = if x == c then some ([], s) else Option.map (add_left x) (split_once c s)

unfoldable pub strip_prefix : Text → Text → Option Text
strip_prefix [] s = some s
strip_prefix (c ∷ p) [] = none
strip_prefix (c ∷ p) (d ∷ s) = if c == d then strip_prefix p s else none

abbrev pub contains : ℕ → Text → Bool
contains c s = any (λ x. x == c) s

-- The first of the characters is the one that stands between two texts, if it is not in the first.
pub split_once-append :
    (c : ℕ) (s t : Text) → contains c s ≡ false → split_once c (s ++ c ∷ t) ≡ some (s, t)
unfolding split_once
split_once-append c [] t h = ground arith
split_once-append c (x ∷ s) t h = ground (arith, split_once-append c s t)

-- `str::lines`: the lines without their ends; a line end at the end starts no further line.
abbrev without_cr : Text → Text
without_cr [] = []
without_cr (x ∷ []) = if x == b'\r' then [] else x ∷ []
without_cr (x ∷ y ∷ s) = x ∷ without_cr (y ∷ s)

abbrev drop_last_empty : List Text → List Text
drop_last_empty [] = []
drop_last_empty ([] ∷ []) = []
drop_last_empty ((x ∷ s) ∷ []) = (x ∷ s) ∷ []
drop_last_empty (s ∷ t ∷ ts) = s ∷ drop_last_empty (t ∷ ts)

-- The last line ends without a line end, so that its carriage return stays.
abbrev ended : List Text → List Text
ended [] = []
ended (s ∷ []) = s ∷ []
ended (s ∷ t ∷ ts) = without_cr s ∷ ended (t ∷ ts)

unfoldable pub lines : Text → List Text
unfolding split
lines s = drop_last_empty (ended (split b'\n' s))

abbrev non_empty : List Text → List Text
non_empty [] = []
non_empty ([] ∷ ts) = non_empty ts
non_empty ((x ∷ s) ∷ ts) = (x ∷ s) ∷ non_empty ts

abbrev split_at_whitespace : Text → List Text
unfolding is_whitespace
split_at_whitespace [] = [] ∷ []
split_at_whitespace (x ∷ s) =
    let rest = split_at_whitespace s in if is_whitespace x then [] ∷ rest else cons_first x rest

-- `str::split_whitespace`.
unfoldable pub split_whitespace : Text → List Text
unfolding split_at_whitespace
split_whitespace s = non_empty (split_at_whitespace s)
