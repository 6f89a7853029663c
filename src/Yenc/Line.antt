-- ===== src/Yenc/Line.antt =====
-- crates/bergamot-yenc/src/decode.rs: `decode_yenc_line`, with its fast path over chunks of sixteen
-- bytes. A position `i` in the line is the rest of the line from there.
pub mod Loops
pub mod Encode
use bergamot.Prelude.{
  ℕ, zero, suc, ◌+◌, ◌-◌, ◌%◌, Bool, true, false, ◌||◌, List, [], ◌∷◌, ◌++◌, map, reverse, Option,
  none, some, if◌then◌else◌, ltb, ◌==◌, any, length, take, drop,
}
use mathlib.Core.Option

-- `u8::wrapping_sub`.
unfoldable pub wrapping_sub : ℕ → ℕ → ℕ
wrapping_sub b k = (b + 256 - k) % 256

-- How the loop takes a byte.
pub data Kind : Type 0 where
  line_end escape plain : Kind

abbrev pub kind : ℕ → Kind
kind b = if b == 13 || b == 10 then line_end else if b == b'=' then escape else plain

-- The scalar loop over the rest of the line: the bytes that it pushes.
unfoldable pub scalar_loop : List ℕ → List ℕ
unfolding wrapping_sub
scalar_loop [] = []
scalar_loop (b ∷ []) = elim (kind b) [ plain ↦ wrapping_sub b 42 ∷ [] | k ↦ [] ]
scalar_loop (b ∷ c ∷ rest) = elim (kind b) [
  | line_end ↦ scalar_loop (c ∷ rest)
  | escape ↦ wrapping_sub c 106 ∷ scalar_loop rest
  | plain ↦ wrapping_sub b 42 ∷ scalar_loop (c ∷ rest)
]

-- A byte pushed before what a loop pushes, and where that loop stops.
abbrev pub push_first : ℕ → List ℕ × List ℕ → List ℕ × List ℕ
push_first b (out, rest) = (b ∷ out, rest)

-- The scalar loop up to the end of a chunk, `n` bytes ahead: what it pushes, and the rest of the
-- line. An escape in the last byte takes one byte more.
unfoldable pub chunk_loop : ℕ → List ℕ → List ℕ × List ℕ
unfolding wrapping_sub
chunk_loop zero line = ([], line)
chunk_loop (suc n) [] = ([], [])
chunk_loop (suc n) (b ∷ []) = elim (kind b) [ plain ↦ (wrapping_sub b 42 ∷ [], []) | k ↦ ([], []) ]
chunk_loop (suc n) (b ∷ c ∷ rest) = elim (kind b) [
  | line_end ↦ chunk_loop n (c ∷ rest)
  | escape ↦ push_first (wrapping_sub c 106) (chunk_loop (n - 1) rest)
  | plain ↦ push_first (wrapping_sub b 42) (chunk_loop n (c ∷ rest))
]

abbrev pub special : ℕ → Bool
special b = b == b'=' || b == 13 || b == 10

-- One round of the loop over chunks: what is pushed, and the rest of the line.
unfoldable pub round : List ℕ → List ℕ × List ℕ
unfolding chunk_loop wrapping_sub
round line =
    if any special (take 16 line)
    then chunk_loop 16 line
    else (map (λ b. wrapping_sub b 42) (take 16 line), drop 16 line)

-- The loop over chunks, and the scalar loop over what is left; `none` when the fuel is used up.
unfoldable pub chunks : ℕ → List ℕ → Option (List ℕ)
unfolding round scalar_loop
chunks zero line = none
chunks (suc fuel) line =
    let (out, rest) = round line in
    let more = chunks fuel rest in
    if ltb (length line) 16 then some (scalar_loop line) else Option.map (λ tail. out ++ tail) more

-- Drops line ends from the front of a reversed line.
unfoldable pub drop_line_ends : List ℕ → List ℕ
drop_line_ends [] = []
drop_line_ends (b ∷ rest) = if b == 10 || b == 13 then drop_line_ends rest else b ∷ rest

unfoldable pub strip_line_ends : List ℕ → List ℕ
unfolding drop_line_ends
strip_line_ends line = reverse (drop_line_ends (reverse line))

-- The bytes that are appended to the output. `simd` tells whether the fast path is there: it is on
-- aarch64, and on x86_64 if the processor has SSE2. The fuel is more than the rounds needed.
unfoldable pub decode_yenc_line : Bool → List ℕ → Option (List ℕ)
unfolding chunks strip_line_ends scalar_loop
decode_yenc_line simd line =
    let body = strip_line_ends line in
    if simd then chunks (suc (length body)) body else some (scalar_loop body)
