-- ===== src/Nntp/Response/Laws.antt =====
-- Which lines `parse_response` accepts, with what code, and where it panics.
use bergamot.Prelude.{ℕ, ◌+◌, ◌*◌, ◌^◌, ◌≤◌, ◌<◌, ◌≡◌, ◌≢◌, false, [], ◌∷◌, some, arith, ltb, All}
use bergamot.Text.{Text, byte_len, split_at, trim, parse_uint}
use bergamot.Nntp.Response.{ok, panicked, parse_response}

-- The code point of a decimal digit.
abbrev pub digit : ℕ → ℕ
digit d = b'0' + d

three_digits :
    (a b c : ℕ)
    → a ≤ 9
    → b ≤ 9
    → c ≤ 9
    → parse_uint (2 ^ 16) (digit a ∷ digit b ∷ digit c ∷ []) ≡ some (a * 100 + b * 10 + c)
unfolding parse_uint
three_digits a b c ha hb hc = ground arith

first_three :
    (a b c : ℕ) (rest : Text)
    → a < 128
    → b < 128
    → c < 128
    → (ltb (byte_len (a ∷ b ∷ c ∷ rest)) 3 ≡ false)
      × (split_at 3 (a ∷ b ∷ c ∷ rest) ≡ some (a ∷ b ∷ c ∷ [], rest))
unfolding byte_len split_at
first_three a b c [] ha hb hc = (ground arith, ground arith)
first_three a b c (d ∷ rest) ha hb hc = (ground arith, ground arith)

-- A line that starts with three decimal digits is accepted, with their value as the code and the
-- trimmed rest as the message.
pub parse_response-digits :
    (a b c : ℕ) (rest : Text)
    → a ≤ 9
    → b ≤ 9
    → c ≤ 9
    → parse_response (digit a ∷ digit b ∷ digit c ∷ rest)
      ≡ ok (record { code = a * 100 + b * 10 + c; message = trim rest })
unfolding parse_response
parse_response-digits a b c rest ha hb hc = ground (
  arith,
  three_digits a b c ha hb hc,
  first_three (digit a) (digit b) (digit c) rest (omega arith) (omega arith) (omega arith),
)

-- A line of ASCII characters never panics.
pub parse_response-ne-panicked :
    (line : Text) → All (λ c. c < 128) line → parse_response line ≢ panicked
unfolding parse_response byte_len
parse_response-ne-panicked [] h = ground arith
parse_response-ne-panicked (a ∷ []) h = ground arith
parse_response-ne-panicked (a ∷ b ∷ []) h = ground arith
parse_response-ne-panicked (a ∷ b ∷ c ∷ rest) h =
    let e = first_three a b c rest h.0 (h.1.0) (h.1.1.0) in ground arith

-- The slice `line[..3]` panics whenever two ASCII characters precede one that is not ASCII.
pub parse_response_panics :
    (a b c : ℕ) (rest : Text)
    → a < 128
    → b < 128
    → 128 ≤ c
    → parse_response (a ∷ b ∷ c ∷ rest) ≡ panicked
unfolding parse_response byte_len split_at
parse_response_panics a b c rest ha hb hc = ground arith
