-- ===== src/Prelude/Int.antt =====
-- Signed integers; the program only stores them.
use bergamot.Prelude.{ℕ}

-- `negsuc n` is -(n + 1).
pub data ℤ : Type 0 where
  pos : ℕ → ℤ
  negsuc : ℕ → ℤ
