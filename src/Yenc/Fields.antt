-- ===== src/Yenc/Fields.antt =====
-- crates/bergamot-yenc/src/decode.rs: the fields of header lines, `parse_key_values` and the parsers
-- of their values; error.rs.
use bergamot.Prelude.{
  ℕ, ◌+◌, ◌-◌, ◌*◌, ◌^◌, Bool, true, false, ◌&&◌, ◌||◌, not, List, [], ◌∷◌, reverse, Option, none,
  some, if◌then◌else◌, leb, ◌==◌, all,
}
use mathlib.Core.Option
use bergamot.Prelude.Map.{insert}
use bergamot.Text.{Text, codes, text_eq, byte_len, trim, is_whitespace, parse_uint}
use bergamot.Text.Utf8.{from_utf8}

pub data CrcLevel : Type 0 where
  part_level file_level : CrcLevel

pub data YencError : Type 0 where
  missing_field : Text → YencError
  invalid_header_value : Text → Text → YencError
  crc_mismatch : ℕ → ℕ → CrcLevel → YencError
  unexpected_end size_overflow : YencError

pub data Outcome (A : Type 0) : Type 0 where
  ok : A → Outcome A
  err : YencError → Outcome A

abbrev pub Fields : Type 0
Fields = List (Text × Text)

-- A word that is being read, reversed, before the words that follow.
abbrev pub end_word : Text → List Text → List Text
end_word [] ws = ws
end_word (c ∷ s) ws = reverse (c ∷ s) ∷ ws

unfoldable pub words_after : Text → Text → List Text
unfolding is_whitespace
words_after current [] = end_word current []
words_after current (c ∷ s) = elim (is_whitespace c) [
  | true ↦ end_word current (words_after [] s)
  | false ↦ words_after (c ∷ current) s
]

-- `str::split_whitespace`.
unfoldable pub split_whitespace : Text → List Text
unfolding words_after
split_whitespace s = words_after [] s

abbrev cons_left : ℕ → Text × Text → Text × Text
cons_left c (l, r) = (c ∷ l, r)

-- `str::split_once` at a character.
unfoldable pub split_once : ℕ → Text → Option (Text × Text)
split_once sep [] = none
split_once sep (c ∷ s) =
    if c == sep then some ([], s) else Option.map (cons_left c) (split_once sep s)

abbrev insert_field : Option (Text × Text) → Fields → Fields
insert_field none m = m
insert_field (some (key, value)) m = insert key value m

unfoldable pub insert_tokens : List Text → Fields → Fields
unfolding split_once
insert_tokens [] m = m
insert_tokens (token ∷ rest) m = insert_tokens rest (insert_field (split_once b'=' token) m)

abbrev skip_one : List Text → List Text
skip_one [] = []
skip_one (w ∷ ws) = ws

unfoldable pub key_values : Option Text → Outcome Fields
unfolding split_whitespace insert_tokens
key_values none = err (invalid_header_value (codes "line") (codes "<non-utf8>"))
key_values (some text) = ok (insert_tokens (skip_one (split_whitespace (trim text))) [])

unfoldable pub parse_key_values : List ℕ → Outcome Fields
unfolding from_utf8 key_values
parse_key_values line = key_values (from_utf8 line)

abbrev or_invalid : {A : Type 0} → Text → Text → Option A → Outcome A
or_invalid field value none = err (invalid_header_value field value)
or_invalid field value (some a) = ok a

unfoldable pub parse_u64 : Text → Text → Outcome ℕ
parse_u64 field value = or_invalid field value (parse_uint (2 ^ 64) value)

unfoldable pub parse_u32 : Text → Text → Outcome ℕ
parse_u32 field value = or_invalid field value (parse_uint (2 ^ 32) value)

abbrev is_hex_digit : ℕ → Bool
is_hex_digit c =
    (leb b'0' c && leb c b'9') || (leb b'a' c && leb c b'f') || (leb b'A' c && leb c b'F')

abbrev hex_value : ℕ → ℕ
hex_value c = if leb c b'9' then c - b'0' else if leb b'a' c then c - b'a' + 10 else c - b'A' + 10

-- `u32::from_str_radix` at base 16, on at most eight digits.
abbrev from_hex : ℕ → Text → ℕ
from_hex acc [] = acc
from_hex acc (c ∷ s) = from_hex (acc * 16 + hex_value c) s

unfoldable pub parse_hex_u32 : Text → Text → Outcome ℕ
parse_hex_u32 field untrimmed =
    let value = trim untrimmed in
    if not (byte_len value == 8) || not (all is_hex_digit value)
    then err (invalid_header_value field value)
    else ok (from_hex 0 value)
