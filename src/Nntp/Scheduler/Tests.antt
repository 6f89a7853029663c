-- ===== src/Nntp/Scheduler/Tests.antt =====
-- crates/bergamot-nntp/src/scheduler.rs: runs on two servers, and the witnesses of the theorems.
use Prim.Native.Nat.{compare}
use native.Mathlib.Nat.{mul-pos}
use bergamot.Prelude.{
  ℕ, suc, ◌+◌, ◌*◌, ◌/◌, ◌<◌, ◌≡◌, refl, true, false, List, [], ◌∷◌, some, arith, ltb, ◌==◌,
}
use bergamot.Text.{codes}
use bergamot.Nntp.Scheduler.{
  Floats, ServerSlot, new_slot, has_capacity, weight, wfq_ratio, least_level, at_level, after,
  min_by, best_of, select_at, select_server, assign_to_server, complete_on_server,
}
use bergamot.Nntp.Scheduler.Choice.{new_slot-HasWeight}
use bergamot.Nntp.Scheduler.Selection.{Selected, select_server-Selected}
use bergamot.Nntp.Scheduler.InFlight.{Represents}
use bergamot.Nntp.Scheduler.Flights.{idle, assigned, finished, Serves-Represents}

positive_product : (m n : ℕ) → ltb 0 (suc m * suc n) ≡ true
positive_product m n =
    let le : 0 < suc m * suc n = mul-pos (omega arith) (omega arith) in ground arith

positive_not_zero : (x : ℕ) → ltb 0 x ≡ true → (x == 0) ≡ false
positive_not_zero x h = ground arith

-- Whole numbers in place of floating-point numbers.
abbrev whole : Floats ℕ
whole = record {
  of_nat = λ n. n;
  seconds = λ n. n;
  add = λ a b. a + b;
  mul = λ a b. a * b;
  div = λ a b. a / b;
  zero_value = 0;
  alpha = 1;
  rest = 1;
  greatest = 1000000000;
  positive = ltb 0;
  not_positive = λ n. n == 0;
  instant = λ n. n == 0;
  is_nan = λ n. false;
  partial_cmp = λ a b. some (compare a b);
  place = λ n. n;
  partial_cmp-place = λ x y h k. refl;
  not_positive_lem = positive_not_zero;
  number-div = λ n x h. refl;
  positive-mul = positive_product;
}

abbrev two_servers : List (ServerSlot ℕ)
two_servers = new_slot whole 1 (codes "a") 0 2 ∷ new_slot whole 2 (codes "b") 1 8 ∷ []

first_level_first : select_server whole two_servers 700 ≡ some 1
unfolding new_slot has_capacity weight wfq_ratio least_level at_level after min_by best_of select_at
    select_server
first_level_first = refl

select_server-Selected_example : Selected whole two_servers (select_server whole two_servers 700)
select_server-Selected_example =
    select_server-Selected whole two_servers 700
      (new_slot-HasWeight whole 1 (codes "a") 0 2, (new_slot-HasWeight whole 2 (codes "b") 1 8, tt))

two_servers-Represents : Represents whole two_servers []
unfolding new_slot
two_servers-Represents = record {
  apart = (((λ e. cc), tt), (tt, tt));
  counts = (
    record { active = refl; pending = refl; bounded = omega arith; weighs = refl },
    (record { active = refl; pending = refl; bounded = omega arith; weighs = refl }, tt),
  );
}

Serves-Represents_example :
    Represents whole (complete_on_server whole (assign_to_server two_servers 1 700) 1 700 2 true) []
Serves-Represents_example =
    Serves-Represents whole
      (complete_on_server whole (assign_to_server two_servers 1 700) 1 700 2 true) []
      (finished (assign_to_server two_servers 1 700) ((1, 700) ∷ []) 0 1 700 2 true
        (assigned two_servers [] 1 700 (idle two_servers two_servers-Represents) first_level_first)
        refl)
