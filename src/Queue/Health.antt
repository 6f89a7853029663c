-- ===== src/Queue/Health.antt =====
-- crates/bergamot-queue/src/coordinator.rs: `calculate_health`, `calculate_critical_health` and
-- `is_par_file`. The product of `u32` and `f64` is a parameter, `Scaling`.
pub mod Bounds
use bergamot.Prelude.{
  ℕ, ◌+◌, ◌-◌, ◌*◌, ◌/◌, ◌≤◌, ◌≡◌, Bool, true, false, ◌&&◌, ◌||◌, List, [], ◌∷◌, map, reverse, leb,
  ◌==◌, if◌then◌else◌,
}
use bergamot.Text.{Text, codes, starts_with}

-- `scale n a b` is `(n as f64 * (a as f64 / b as f64)) as u32` for `a ≤ b` and `0 < b`. Conversion
-- to `f64` and rounding are monotone, so the ratio is at most one and the product at most `n`; the
-- ratio of a number to itself is one.
pub record Scaling : Type 0 where
  pub scale : ℕ → ℕ → ℕ → ℕ
  pub scale-le : (n a b : ℕ) → a ≤ b → scale n a b ≤ n
  pub scale-whole : (n a : ℕ) → 1 ≤ a → scale n a a ≡ n

unfoldable pub calculate_health : ℕ → ℕ → ℕ
calculate_health total_articles failed_articles =
    if total_articles == 0 then 1000 else 1000 * (total_articles - failed_articles) / total_articles

unfoldable pub calculate_critical_health : Scaling → ℕ → ℕ → ℕ → ℕ
calculate_critical_health f total_articles par_size par_failed_size =
    let usable_par = par_size - par_failed_size in
    let max_repairable = f.scale (total_articles / 10) usable_par par_size in
    let min_success = total_articles - max_repairable in
    if total_articles == 0 || par_size == 0 then 1000 else 1000 * min_success / total_articles

-- `str::to_lowercase` as far as the tests below can see: no character outside ASCII lowers to one
-- of the characters of ".par2" and ".vol".
abbrev lower : ℕ → ℕ
lower c = if leb b'A' c && leb c b'Z' then c + 32 else c

abbrev contains : Text → Text → Bool
contains part [] = starts_with part []
contains part (c ∷ s) = starts_with part (c ∷ s) || contains part s

abbrev ends_with : Text → Text → Bool
ends_with part s = starts_with (reverse part) (reverse s)

unfoldable pub is_par_file : Text → Bool
is_par_file filename =
    let lowered = map lower filename in
    ends_with (codes ".par2") lowered || contains (codes ".vol") lowered
