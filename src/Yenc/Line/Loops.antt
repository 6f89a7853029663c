-- ===== src/Yenc/Line/Loops.antt =====
-- The loop over chunks pushes what the scalar loop pushes, and ends.
use bergamot.Prelude.{
  ℕ, zero, suc, ◌+◌, ◌-◌, ◌≤◌, ◌<◌, ◌≡◌, refl, sym, ◌∙◌, ap, inl, inr, Bool, true, false,
  Bool-cases, List, [], ◌∷◌, ◌++◌, map, some, arith, ltb, any, length, take, drop, length-drop,
  take-append-drop,
}
use bergamot.Yenc.Line.{
  wrapping_sub, scalar_loop, chunk_loop, special, round, chunks, strip_line_ends, decode_yenc_line,
}

chunk_loop-scalar_loop :
    (n : ℕ) (line : List ℕ)
    → scalar_loop line ≡ (chunk_loop n line).0 ++ scalar_loop (chunk_loop n line).1
unfolding chunk_loop scalar_loop
chunk_loop-scalar_loop zero line = refl
chunk_loop-scalar_loop (suc n) [] = refl
chunk_loop-scalar_loop (suc n) (b ∷ []) = ground arith
chunk_loop-scalar_loop (suc n) (b ∷ c ∷ rest) =
    ground (arith, chunk_loop-scalar_loop n (c ∷ rest), chunk_loop-scalar_loop (n - 1) rest)

chunk_loop-length :
    (n : ℕ) (line : List ℕ) → n ≤ length line → length (chunk_loop n line).1 + n ≤ length line
unfolding chunk_loop
chunk_loop-length zero line h = omega arith
chunk_loop-length (suc n) [] h = omega arith
chunk_loop-length (suc n) (b ∷ []) h = ground arith
chunk_loop-length (suc n) (b ∷ c ∷ rest) h = ground (
  arith,
  chunk_loop-length n (c ∷ rest) (omega arith),
  chunk_loop-length (n - 1) rest (omega arith),
)

-- Bytes that are not special are pushed one by one.
scalar_loop-plain :
    (b : ℕ) (rest : List ℕ)
    → special b ≡ false
    → scalar_loop (b ∷ rest) ≡ wrapping_sub b 42 ∷ scalar_loop rest
unfolding scalar_loop
scalar_loop-plain b [] h = ground arith
scalar_loop-plain b (c ∷ rest) h = ground arith

scalar_loop-map :
    (xs ys : List ℕ)
    → any special xs ≡ false
    → scalar_loop (xs ++ ys) ≡ map (λ b. wrapping_sub b 42) xs ++ scalar_loop ys
scalar_loop-map [] ys h = refl
scalar_loop-map (x ∷ xs) ys h =
    rw (scalar_loop-plain x (xs ++ ys) (ground arith), scalar_loop-map xs ys (ground arith))

round-scalar_loop :
    (line : List ℕ) → scalar_loop line ≡ (round line).0 ++ scalar_loop (round line).1
unfolding round
round-scalar_loop line = elim (Bool-cases (any special (take 16 line))) [
  | inl e ↦ rw e (chunk_loop-scalar_loop 16 line)
  | inr e ↦ rw e (
      ap scalar_loop (sym (take-append-drop 16 line))
      ∙ scalar_loop-map (take 16 line) (drop 16 line) e)
]

round-length : (line : List ℕ) → 16 ≤ length line → length (round line).1 + 16 ≤ length line
unfolding round
round-length line h = ground (arith, chunk_loop-length 16 line h, length-drop 16 line)

chunks-scalar_loop :
    (fuel : ℕ) (line : List ℕ) → length line < fuel → chunks fuel line ≡ some (scalar_loop line)
unfolding chunks
chunks-scalar_loop zero line h = absurd (omega arith)
chunks-scalar_loop (suc fuel) line h = elim (Bool-cases (ltb (length line) 16)) [
  | inl e ↦ rw e refl
  | inr e ↦
      let shorter = round-length line (ground arith) in
      rw (e, chunks-scalar_loop fuel (round line).1 (omega arith))
        (ap some (sym (round-scalar_loop line)))
]

-- Decoding a line ends, and with the fast path or without it appends what the scalar loop pushes
-- for the line without the line ends behind it.
pub decode_yenc_line-scalar_loop :
    (simd : Bool) (line : List ℕ)
    → decode_yenc_line simd line ≡ some (scalar_loop (strip_line_ends line))
unfolding decode_yenc_line
decode_yenc_line-scalar_loop true line =
    chunks-scalar_loop (suc (length (strip_line_ends line))) (strip_line_ends line) (omega arith)
decode_yenc_line-scalar_loop false line = refl
