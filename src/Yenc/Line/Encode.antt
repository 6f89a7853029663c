-- ===== src/Yenc/Line/Encode.antt =====
-- An encoder by the yEnc specification (version 1.3), and that the line decoder inverts it.
use bergamot.Prelude.{
  ℕ, ◌+◌, ◌%◌, ◌<◌, ◌≡◌, refl, sym, ◌∙◌, inl, inr, Bool, false, ◌||◌, Bool-cases, List, [], ◌∷◌,
  ◌++◌, reverse, some, arith, if◌then◌else◌, ◌==◌, All, All-append, subst,
}
use mathlib.Core.List.{reverse-append, reverse-cons, reverse-reverse}
use bergamot.Yenc.Line.{
  wrapping_sub, scalar_loop, drop_line_ends, strip_line_ends, decode_yenc_line,
}
use bergamot.Yenc.Line.Loops.{decode_yenc_line-scalar_loop}

-- The critical characters are NUL, LF, CR and "=".
abbrev pub critical : ℕ → Bool
critical e = e == 0 || e == 10 || e == 13 || e == b'='

-- A byte is shifted by 42; a critical result is escaped and shifted by 64 more.
abbrev pub encode_byte : ℕ → List ℕ → List ℕ
encode_byte b rest =
    let e = (b + 42) % 256 in if critical e then b'=' ∷ (e + 64) % 256 ∷ rest else e ∷ rest

abbrev pub encode : List ℕ → List ℕ
encode [] = []
encode (b ∷ bs) = encode_byte b (encode bs)

wrapping_sub-plain : (b : ℕ) → b < 256 → wrapping_sub ((b + 42) % 256) 42 ≡ b
unfolding wrapping_sub
wrapping_sub-plain b h = omega arith

wrapping_sub-escaped : (b : ℕ) → b < 256 → wrapping_sub (((b + 42) % 256 + 64) % 256) 106 ≡ b
unfolding wrapping_sub
wrapping_sub-escaped b h = omega arith

scalar_loop-escaped :
    (c : ℕ) (rest : List ℕ) → scalar_loop (b'=' ∷ c ∷ rest) ≡ wrapping_sub c 106 ∷ scalar_loop rest
unfolding scalar_loop
scalar_loop-escaped c rest = refl

scalar_loop-uncritical :
    (e : ℕ) (rest : List ℕ)
    → critical e ≡ false
    → scalar_loop (e ∷ rest) ≡ wrapping_sub e 42 ∷ scalar_loop rest
unfolding scalar_loop
scalar_loop-uncritical e [] h = ground arith
scalar_loop-uncritical e (c ∷ rest) h = ground arith

scalar_loop-encode : (bs : List ℕ) → All (λ b. b < 256) bs → scalar_loop (encode bs) ≡ bs
unfolding scalar_loop
scalar_loop-encode [] h = refl
scalar_loop-encode (b ∷ bs) h = elim (Bool-cases (critical ((b + 42) % 256))) [
  | inl e ↦ rw e (
      scalar_loop-escaped (((b + 42) % 256 + 64) % 256) (encode bs)
      ∙ rw (wrapping_sub-escaped b h.0, scalar_loop-encode bs h.1) refl)
  | inr e ↦ rw e (
      scalar_loop-uncritical ((b + 42) % 256) (encode bs) e
      ∙ rw (wrapping_sub-plain b h.0, scalar_loop-encode bs h.1) refl)
]

abbrev ends_line : ℕ → Bool
ends_line b = b == 10 || b == 13

abbrev Unbroken : List ℕ → Type 0
Unbroken = All (λ b. ends_line b ≡ false)

encode-Unbroken : (bs : List ℕ) → All (λ b. b < 256) bs → Unbroken (encode bs)
encode-Unbroken [] h = tt
encode-Unbroken (b ∷ bs) h = elim (Bool-cases (critical ((b + 42) % 256))) [
  | inl e ↦ rw e (refl, (ground arith, encode-Unbroken bs h.1))
  | inr e ↦ rw e (ground arith, encode-Unbroken bs h.1)
]

reverse-Unbroken : (xs : List ℕ) → Unbroken xs → Unbroken (reverse xs)
reverse-Unbroken [] h = tt
reverse-Unbroken (x ∷ xs) h = subst Unbroken (sym (reverse-cons x xs)) (
    All-append (λ b. ends_line b ≡ false) (reverse xs) (x ∷ []) (reverse-Unbroken xs h.1) (h.0, tt))

drop_line_ends-Unbroken : (xs : List ℕ) → Unbroken xs → drop_line_ends xs ≡ xs
unfolding drop_line_ends
drop_line_ends-Unbroken [] h = refl
drop_line_ends-Unbroken (x ∷ xs) h = rw (h.0) refl

strip_line_ends-Unbroken : (xs : List ℕ) → Unbroken xs → strip_line_ends (xs ++ 13 ∷ 10 ∷ []) ≡ xs
unfolding strip_line_ends
strip_line_ends-Unbroken xs h = rw (
  reverse-append xs (13 ∷ 10 ∷ []),
  drop_line_ends-Unbroken (reverse xs) (reverse-Unbroken xs h),
  reverse-reverse xs,
)

-- Decoding inverts encoding: a line of encoded bytes with its line end decodes to the bytes, with
-- the fast path or without it.
pub decode_yenc_line-encode :
    (simd : Bool) (bs : List ℕ)
    → All (λ b. b < 256) bs
    → decode_yenc_line simd (encode bs ++ 13 ∷ 10 ∷ []) ≡ some bs
decode_yenc_line-encode simd bs h =
    decode_yenc_line-scalar_loop simd (encode bs ++ 13 ∷ 10 ∷ [])
    ∙ rw (strip_line_ends-Unbroken (encode bs) (encode-Unbroken bs h), scalar_loop-encode bs h) refl
