-- ===== src/Text/Utf8.antt =====
-- `std::str::from_utf8`: bytes as UTF-8, with no overlong form, no surrogate and nothing above
-- U+10FFFF.
use bergamot.Prelude.{
  ℕ, zero, suc, ◌+◌, ◌-◌, ◌*◌, Bool, ◌&&◌, not, List, [], ◌∷◌, Option, none, some, if◌then◌else◌,
  ltb, leb, ◌==◌,
}
use mathlib.Core.Option
use bergamot.Text.{Text}

-- Inside a character: how many bytes are still to come, the code point so far, and the least code
-- point that may be written with this many bytes.
record Partial : Type 0 where
  missing : ℕ
  acc : ℕ
  least : ℕ

abbrev between : Partial
between = record { missing = 0; acc = 0; least = 0 }

abbrev is_scalar : ℕ → ℕ → Bool
is_scalar least c = leb least c && ltb c 0x110000 && not (leb 0xd800 c && ltb c 0xe000)

-- The state after a byte, with the character that it ends.
abbrev first_byte : ℕ → Option (Partial × Option ℕ)
first_byte b =
    if ltb b 0x80
    then some (between, some b)
    else if ltb b 0xc0
    then none
    else if ltb b 0xe0
    then some (record { missing = 1; acc = b - 0xc0; least = 0x80 }, none)
    else if ltb b 0xf0
    then some (record { missing = 2; acc = b - 0xe0; least = 0x800 }, none)
    else if ltb b 0xf8
    then some (record { missing = 3; acc = b - 0xf0; least = 0x10000 }, none)
    else none

abbrev next_byte : ℕ → ℕ → ℕ → ℕ → Option (Partial × Option ℕ)
next_byte missing acc least b =
    let c = acc * 64 + (b - 0x80) in
    if not (leb 0x80 b && ltb b 0xc0)
    then none
    else if not (missing == 0)
    then some (record { missing = missing; acc = c; least = least }, none)
    else if is_scalar least c
    then some (between, some c)
    else none

abbrev byte : Partial → ℕ → Option (Partial × Option ℕ)
byte s b = elim s.missing [ zero ↦ first_byte b | suc n ↦ next_byte n s.acc s.least b ]

abbrev characters : Partial → List ℕ → Option Text
characters s [] = if s.missing == 0 then some [] else none
characters s (b ∷ bytes) = elim (byte s b) [
  | none ↦ none
  | some (s', none) ↦ characters s' bytes
  | some (s', some c) ↦ Option.map (◌∷◌ c) (characters s' bytes)
]

unfoldable pub from_utf8 : List ℕ → Option Text
from_utf8 bytes = characters between bytes
