-- ===== src/Nntp/Response.antt =====
-- crates/bergamot-nntp/src/machine.rs, the functions on lines: `parse_response`,
-- `is_body_terminator` and `trim_crlf`; model.rs's `NntpResponse`.
pub mod Laws
use bergamot.Prelude.{
  ℕ, zero, suc, ◌+◌, ◌^◌, ◌<◌, ◌≡◌, refl, Bool, true, false, List, [], ◌∷◌, reverse, Option, none,
  some, arith, ltb, ◌==◌, if◌then◌else◌,
}
use bergamot.Text.{Text, same, byte_len, split_at, trim, parse_uint}

pub record NntpResponse : Type 0 where
  pub code : ℕ
  pub message : Text

-- The error is always `ProtocolError("invalid response line")`; `panicked` is the slice `line[..3]`
-- at a byte that is not a character boundary.
pub data Parsed : Type 0 where
  ok : NntpResponse → Parsed
  invalid : Parsed
  panicked : Parsed

abbrev with_code : Option ℕ → Text → Parsed
with_code none rest = invalid
with_code (some code) rest = ok (record { code = code; message = trim rest })

abbrev sliced : Option (Text × Text) → Parsed
sliced none = panicked
sliced (some (digits, rest)) = with_code (parse_uint (2 ^ 16) digits) rest

unfoldable pub parse_response : Text → Parsed
parse_response line = if ltb (byte_len line) 3 then invalid else sliced (split_at 3 line)

unfoldable pub is_body_terminator : List ℕ → Bool
is_body_terminator line = same line (b'.' ∷ [])

-- Drops one byte `b` from the front of a reversed buffer.
abbrev drop_byte : ℕ → List ℕ → List ℕ
drop_byte b [] = []
drop_byte b (x ∷ xs) = if x == b then xs else x ∷ xs

unfoldable pub trim_crlf : List ℕ → List ℕ
trim_crlf buf = reverse (drop_byte 13 (drop_byte 10 (reverse buf)))
