-- ===== src/Queue/Health/Bounds.antt =====
-- The range of both measures, and when the one falls below the other.
use bergamot.Prelude.{ℕ, ◌-◌, ◌*◌, ◌/◌, ◌≤◌, ◌<◌, arith}
use bergamot.Queue.Health.{Scaling, calculate_health, calculate_critical_health}

le-div : (a n d : ℕ) → 0 < d → a * d ≤ n → a ≤ n / d
le-div a n d h k = grind arith

pub div-le : (a n d : ℕ) → 0 < d → n ≤ a * d → n / d ≤ a
div-le a n d h k = grind arith

div-lt : (a n d : ℕ) → 0 < d → n < a * d → n / d < a
div-lt a n d h k = grind arith

pub calculate_health-le : (t f : ℕ) → calculate_health t f ≤ 1000
unfolding calculate_health
calculate_health-le t f = ground (arith, div-le 1000 (1000 * (t - f)) t)

-- The critical health stays between 900 and 1000: par2 files are trusted with a tenth of the
-- articles at most.
pub critical_range :
    (s : Scaling) (t p q : ℕ)
    → (900 ≤ calculate_critical_health s t p q) × (calculate_critical_health s t p q ≤ 1000)
unfolding calculate_critical_health
critical_range s t p q = ground (
  arith,
  s.scale-le (t / 10) (p - q) p (omega arith),
  le-div 900 (1000 * (t - s.scale (t / 10) (p - q) p)) t,
  div-le 1000 (1000 * (t - s.scale (t / 10) (p - q) p)) t,
)

-- With no failed article the health is never below the critical one.
pub calculate_health_intact :
    (s : Scaling) (t p q : ℕ) → calculate_critical_health s t p q ≤ calculate_health t 0
unfolding calculate_health
calculate_health_intact s t p q = ground (arith, critical_range s t p q, le-div 1000 (1000 * t) t)

-- When more than a tenth of the articles have failed, of as many as there are at most, the health is
-- below the critical one, whatever par2 data there is.
pub calculate_health_lost :
    (s : Scaling) (t f p q : ℕ)
    → f ≤ t
    → t < 10 * f
    → calculate_health t f < calculate_critical_health s t p q
unfolding calculate_health
calculate_health_lost s t f p q h k =
    ground (arith, critical_range s t p q, div-lt 900 (1000 * (t - f)) t)

-- Without par2 data one failed article, of as many as there are at most, puts the health below the
-- critical one.
pub calculate_health_unprotected :
    (s : Scaling) (t f q : ℕ)
    → f ≤ t
    → 0 < f
    → calculate_health t f < calculate_critical_health s t 0 q
unfolding calculate_health calculate_critical_health
calculate_health_unprotected s t f q h k = ground (arith, div-lt 1000 (1000 * (t - f)) t)
