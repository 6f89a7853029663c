-- ===== src/Text/Decimal.antt =====
-- Numbers as decimal text: what `format!` writes, `str::parse` into a signed type, and that no two
-- numbers are written alike.
use bergamot.Prelude.{
  ℕ, zero, suc, ◌+◌, ◌-◌, ◌*◌, ◌/◌, ◌%◌, ◌≤◌, ◌<◌, ◌≡◌, refl, sym, ◌≢◌, ◌∙◌, ap, inl, inr,
  Bool-cases, [], ◌∷◌, ◌++◌, Option, none, some, arith, if◌then◌else◌, ltb, ◌==◌, length,
  length-append,
}
use mathlib.Core.Option
use bergamot.Prelude.Int.{ℤ, pos, negsuc}
use bergamot.Text.{Text, parse_digits, parse_uint}

-- The digits of a number below the fuel.
abbrev decimal_from : ℕ → ℕ → Text
decimal_from zero n = []
decimal_from (suc fuel) n =
    let front = decimal_from fuel (n / 10) in
    if ltb n 10 then (b'0' + n) ∷ [] else front ++ (b'0' + n % 10) ∷ []

unfoldable pub decimal : ℕ → Text
decimal n = decimal_from (suc n) n

-- The number that digits stand for.
abbrev value : ℕ → Text → ℕ
value acc [] = acc
value acc (c ∷ s) = value (acc * 10 + (c - b'0')) s

value-append :
    (acc : ℕ) (s : Text) (c : ℕ) → value acc (s ++ c ∷ []) ≡ value acc s * 10 + (c - b'0')
value-append acc [] c = refl
value-append acc (d ∷ s) c = value-append (acc * 10 + (d - b'0')) s c

value-decimal_from : (fuel n : ℕ) → n < fuel → value 0 (decimal_from fuel n) ≡ n
value-decimal_from zero n h = absurd (omega arith)
value-decimal_from (suc fuel) n h = elim (Bool-cases (ltb n 10)) [
  | inl e ↦ rw e (omega arith)
  | inr e ↦
      let big : 10 ≤ n = ground arith in
      let rest = value-decimal_from fuel (n / 10) (omega arith) in
      rw (e, value-append 0 (decimal_from fuel (n / 10)) (b'0' + n % 10), rest) (omega arith)
]

-- Numbers that are written alike are equal.
pub decimal_injective : (m n : ℕ) → decimal m ≡ decimal n → m ≡ n
unfolding decimal
decimal_injective m n h =
    sym (value-decimal_from (suc m) m (omega arith))
    ∙ ap (value 0) h
    ∙ value-decimal_from (suc n) n (omega arith)

abbrev negate : ℕ → ℤ
negate zero = pos 0
negate (suc n) = negsuc n

-- `str::parse` into a signed type whose values lie from `-limit` to `limit - 1`.
unfoldable pub parse_int : ℕ → Text → Option ℤ
unfolding parse_digits
parse_int limit [] = none
parse_int limit (c ∷ []) = Option.map pos (parse_digits limit 0 (c ∷ []))
parse_int limit (c ∷ d ∷ s) =
    if c == b'-'
    then Option.map negate (parse_digits (suc limit) 0 (d ∷ s))
    else if c == b'+'
    then Option.map pos (parse_digits limit 0 (d ∷ s))
    else Option.map pos (parse_digits limit 0 (c ∷ d ∷ s))

parse_digits-append :
    (limit acc m : ℕ) (s t : Text)
    → parse_digits limit acc s ≡ some m
    → parse_digits limit acc (s ++ t) ≡ parse_digits limit m t
unfolding parse_digits
parse_digits-append limit acc m [] t h = let e : acc ≡ m = ground arith in rw e
parse_digits-append limit acc m (c ∷ s) t h =
    ground (arith, parse_digits-append limit (acc * 10 + (c - b'0')) m s t)

parse_digits-digit :
    (limit acc d : ℕ)
    → d < 10
    → acc * 10 + d < limit
    → parse_digits limit acc ((b'0' + d) ∷ []) ≡ some (acc * 10 + d)
unfolding parse_digits
parse_digits-digit limit acc d h k = ground arith

parse_digits-decimal :
    (limit fuel n : ℕ) → n < fuel → n < limit → parse_digits limit 0 (decimal_from fuel n) ≡ some n
parse_digits-decimal limit zero n h k = absurd (omega arith)
parse_digits-decimal limit (suc fuel) n h k = elim (Bool-cases (ltb n 10)) [
  | inl e ↦
      let small : n < 10 = ground arith in
      let sum : 0 * 10 + n ≡ n = omega arith in
      rw e (parse_digits-digit limit 0 n small (omega arith) ∙ ap some sum)
  | inr e ↦
      let big : 10 ≤ n = ground arith in
      let rest = parse_digits-decimal limit fuel (n / 10) (omega arith) (omega arith) in
      let last : (n / 10) * 10 + n % 10 ≡ n = omega arith in
      rw e (
        parse_digits-append limit 0 (n / 10) (decimal_from fuel (n / 10)) _ rest
        ∙ parse_digits-digit limit (n / 10) (n % 10) (omega arith) (omega arith)
        ∙ ap some last)
]

-- A text of digits has no sign.
parse_uint-digits :
    (limit n : ℕ) (s : Text)
    → s ≢ []
    → parse_digits limit 0 s ≡ some n
    → parse_uint limit s ≡ some n
unfolding parse_digits parse_uint
parse_uint-digits limit n [] k h = absurd (k refl)
parse_uint-digits limit n (c ∷ []) k h = h
parse_uint-digits limit n (c ∷ d ∷ s) k h = ground arith

decimal-nonempty : (n : ℕ) → decimal n ≢ []
unfolding decimal
decimal-nonempty n h = elim (Bool-cases (ltb n 10)) [
  | inl e ↦ absurd (let q = rw e at h in cc)
  | inr e ↦
      let q = ap length (rw e at h) in
      absurd (omega (arith, q, length-append (decimal_from n (n / 10)) ((b'0' + n % 10) ∷ [])))
]

-- A number is read back from its decimal text.
pub parse_uint-decimal : (limit n : ℕ) → n < limit → parse_uint limit (decimal n) ≡ some n
unfolding decimal
parse_uint-decimal limit n h =
    parse_uint-digits limit n (decimal n) (decimal-nonempty n)
      (parse_digits-decimal limit (suc n) n (omega arith) h)
