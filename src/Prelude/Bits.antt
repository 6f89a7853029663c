-- ===== src/Prelude/Bits.antt =====
-- Single bits of a number, counted from the least: `value & (1 << n) != 0` and `value | 1 << n`.
use bergamot.Prelude.{ℕ, zero, suc, ◌+◌, ◌*◌, ◌/◌, ◌%◌, ◌≡◌, refl, Bool, false, ◌||◌, arith, ◌==◌}

unfoldable pub test_bit : ℕ → ℕ → Bool
test_bit zero v = v % 2 == 1
test_bit (suc n) v = test_bit n (v / 2)

unfoldable pub set_bit : ℕ → ℕ → ℕ
set_bit zero v = v / 2 * 2 + 1
set_bit (suc n) v = set_bit n (v / 2) * 2 + v % 2

-- The bits among the lowest `n` that are set.
unfoldable pub count_ones : ℕ → ℕ → ℕ
count_ones zero v = 0
count_ones (suc n) v = v % 2 + count_ones n (v / 2)

pub test_bit-zero : (n : ℕ) → test_bit n 0 ≡ false
unfolding test_bit
test_bit-zero zero = refl
test_bit-zero (suc n) = test_bit-zero n

halved : (w r : ℕ) → (w * 2 + r % 2) / 2 ≡ w
halved w r = omega arith

pub test_bit-set_bit : (i j v : ℕ) → test_bit j (set_bit i v) ≡ (i == j || test_bit j v)
unfolding test_bit set_bit
test_bit-set_bit zero zero v = ground arith
test_bit-set_bit zero (suc j) v = rw (halved (v / 2) 1) (ground arith)
test_bit-set_bit (suc i) zero v = ground arith
test_bit-set_bit (suc i) (suc j) v =
    rw (halved (set_bit i (v / 2)) v) (ground (arith, test_bit-set_bit i j (v / 2)))
