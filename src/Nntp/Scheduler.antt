-- ===== src/Nntp/Scheduler.antt =====
-- crates/bergamot-nntp/src/scheduler.rs: `ServerSlot` and `ServerScheduler`. Numbers of type f64 are
-- a parameter (`Floats`).
pub mod Choice
pub mod Selection
pub mod InFlight
pub mod Flights
mod Tests
use Prim.Native.Nat.{compare, Ordering}
use bergamot.Prelude.{
  ℕ, zero, suc, ◌+◌, ◌-◌, ◌≡◌, Bool, true, false, ◌&&◌, ◌||◌, not, List, [], ◌∷◌, map, Option, none,
  some, if◌then◌else◌, ltb, leb, ◌==◌,
}
use mathlib.Core.Option
use bergamot.Prelude.Find.{find, modify_first, retain, sum_by}
use bergamot.Text.{Text}
use bergamot.Queue.State.{SchedulerOps}

-- `of_nat` converts from an integer, `seconds` from a duration; `positive` is `> 0.0`,
-- `not_positive` is `<= 0.0` and `instant` is `< 0.001`; `alpha` is 0.3, `rest` 1.0 - 0.3 and
-- `greatest` is `f64::MAX`. Two numbers, none of them NaN, compare as places in the order of all
-- numbers do (`place`); what is greater than 0 is not at most 0; a count divided by a number greater
-- than 0 is a number, and so is the greatest; a product of counts from 1 up is greater than 0.
pub record Floats (F : Type 0) : Type 0 where
  pub of_nat : ℕ → F
  pub seconds : ℕ → F
  pub add : F → F → F
  pub mul : F → F → F
  pub div : F → F → F
  pub zero_value : F
  pub alpha : F
  pub rest : F
  pub greatest : F
  pub positive : F → Bool
  pub not_positive : F → Bool
  pub instant : F → Bool
  pub is_nan : F → Bool
  pub partial_cmp : F → F → Option Ordering
  pub place : F → ℕ
  pub partial_cmp-place :
      (x y : F)
      → is_nan x ≡ false
      → is_nan y ≡ false
      → partial_cmp x y ≡ some (compare (place x) (place y))
  pub not_positive_lem : (x : F) → positive x ≡ true → not_positive x ≡ false
  pub number-div : (n : ℕ) (x : F) → positive x ≡ true → is_nan (div (of_nat n) x) ≡ false
  pub positive-mul : (m n : ℕ) → positive (mul (of_nat (suc m)) (of_nat (suc n))) ≡ true

pub record ServerSlot (F : Type 0) : Type 0 where
  pub server_id : ℕ
  pub server_name : Text
  pub level : ℕ
  pub max_connections : ℕ
  pub active_count : ℕ
  pub pending_bytes : ℕ
  pub ewma_bytes_per_sec : F
  pub baseline_weight : F
  pub total_bytes_downloaded : ℕ
  pub total_articles_success : ℕ
  pub total_articles_failed : ℕ
  pub in_backoff : Bool

-- `max_connections.max(1)`.
abbrev pub at_least_one : ℕ → ℕ
at_least_one zero = 1
at_least_one (suc n) = suc n

-- The comparison of `min_by`: does the second item come before the first?
abbrev pub by_ordering : Option Ordering → Ordering → Bool
by_ordering none Ordering.gt = true
by_ordering none Ordering.eq = false
by_ordering none Ordering.lt = false
by_ordering (some Ordering.lt) tie = false
by_ordering (some Ordering.gt) tie = true
by_ordering (some Ordering.eq) Ordering.gt = true
by_ordering (some Ordering.eq) Ordering.eq = false
by_ordering (some Ordering.eq) Ordering.lt = false

module _ {F : Type 0} where
  unfoldable pub has_capacity : ServerSlot F → Bool
  has_capacity s = ltb s.active_count s.max_connections && not s.in_backoff

  abbrev pub is_server : ℕ → ServerSlot F → Bool
  is_server sid s = s.server_id == sid

  unfoldable pub at_level : ℕ → ServerSlot F → Bool
  unfolding has_capacity
  at_level l s = s.level == l && has_capacity s

  -- The first least level of the servers with room.
  unfoldable pub least_level : List (ServerSlot F) → Option ℕ
  unfolding has_capacity
  least_level [] = none
  least_level (s ∷ ss) =
      let rest = least_level ss in
      if has_capacity s
      then elim rest [ none ↦ some s.level | some l ↦ some (if leb s.level l then s.level else l) ]
      else rest

  unfoldable pub assign_article : ℕ → ServerSlot F → ServerSlot F
  assign_article size s = record s {
    active_count = s.active_count + 1;
    pending_bytes = s.pending_bytes + size;
  }

  unfoldable pub release_article : ℕ → ServerSlot F → ServerSlot F
  release_article size s = record s {
    active_count = s.active_count - 1;
    pending_bytes = s.pending_bytes - size;
  }

module _ {F : Type 0} (fl : Floats F) where
  unfoldable pub new_slot : ℕ → Text → ℕ → ℕ → ServerSlot F
  new_slot server_id server_name level max_connections = record {
    server_id = server_id;
    server_name = server_name;
    level = level;
    max_connections = max_connections;
    active_count = 0;
    pending_bytes = 0;
    ewma_bytes_per_sec = fl.zero_value;
    baseline_weight = fl.mul (fl.of_nat (at_least_one max_connections)) (fl.of_nat 500000);
    total_bytes_downloaded = 0;
    total_articles_success = 0;
    total_articles_failed = 0;
    in_backoff = false;
  }

  unfoldable pub weight : ServerSlot F → F
  weight s = if fl.positive s.ewma_bytes_per_sec then s.ewma_bytes_per_sec else s.baseline_weight

  unfoldable pub wfq_ratio : ServerSlot F → F
  unfolding weight
  wfq_ratio s =
      if fl.not_positive (weight s)
      then fl.greatest
      else fl.div (fl.of_nat s.pending_bytes) (weight s)

  abbrev pub smoothed : F → ServerSlot F → F
  smoothed observed s =
      if fl.not_positive s.ewma_bytes_per_sec
      then observed
      else fl.add (fl.mul fl.alpha observed) (fl.mul fl.rest s.ewma_bytes_per_sec)

  unfoldable pub update_throughput : ℕ → ℕ → ServerSlot F → ServerSlot F
  update_throughput bytes elapsed s =
      let secs = fl.seconds elapsed in
      if fl.instant secs || bytes == 0
      then s
      else record s { ewma_bytes_per_sec = smoothed (fl.div (fl.of_nat bytes) secs) s }

  unfoldable pub after : ServerSlot F → ServerSlot F → Bool
  unfolding wfq_ratio
  after a b =
      by_ordering (fl.partial_cmp (wfq_ratio a) (wfq_ratio b))
        (compare a.active_count b.active_count)

  -- `min_by`: of two items that compare as equal the first stays.
  unfoldable pub min_by : ServerSlot F → List (ServerSlot F) → ServerSlot F
  unfolding after
  min_by best [] = best
  min_by best (s ∷ ss) = min_by (if after best s then s else best) ss

  unfoldable pub best_of : List (ServerSlot F) → Option ℕ
  unfolding min_by
  best_of [] = none
  best_of (s ∷ ss) = some (min_by s ss).server_id

  unfoldable pub select_at : List (ServerSlot F) → Option ℕ → Option ℕ
  unfolding best_of at_level
  select_at slots none = none
  select_at slots (some l) = best_of (retain (at_level l) slots)

  -- `select_server`; the size of the article is not used.
  unfoldable pub select_server : List (ServerSlot F) → ℕ → Option ℕ
  unfolding select_at least_level
  select_server slots article_size = select_at slots (least_level slots)

  -- What `complete_on_server` does to the slot that it finds.
  unfoldable pub completed : ℕ → ℕ → Bool → ServerSlot F → ServerSlot F
  unfolding release_article update_throughput
  completed size elapsed success s =
      if success
      then (let t = update_throughput size elapsed (release_article size s) in
          record t {
            total_bytes_downloaded = t.total_bytes_downloaded + size;
            total_articles_success = t.total_articles_success + 1;
          })
      else (let t = release_article size s in
          record t { total_articles_failed = t.total_articles_failed + 1 })

  unfoldable pub complete_on_server : List (ServerSlot F) → ℕ → ℕ → ℕ → Bool → List (ServerSlot F)
  unfolding completed
  complete_on_server slots sid size elapsed success =
      modify_first (is_server sid) (completed size elapsed success) slots

module _ {F : Type 0} where
  unfoldable pub assign_to_server : List (ServerSlot F) → ℕ → ℕ → List (ServerSlot F)
  unfolding assign_article
  assign_to_server slots sid size = modify_first (is_server sid) (assign_article size) slots

  unfoldable pub set_backoff : List (ServerSlot F) → ℕ → Bool → List (ServerSlot F)
  set_backoff slots sid b = modify_first (is_server sid) (λ s. record s { in_backoff = b }) slots

  unfoldable pub total_available_capacity : List (ServerSlot F) → ℕ
  total_available_capacity slots =
      sum_by (λ s. s.max_connections - s.active_count) (retain (λ s. not s.in_backoff) slots)

  unfoldable pub total_max_connections : List (ServerSlot F) → ℕ
  total_max_connections slots = sum_by (λ s. s.max_connections) slots

-- What the coordinator calls.
unfoldable pub server_scheduler : {F : Type 0} → Floats F → SchedulerOps (List (ServerSlot F))
unfolding complete_on_server assign_to_server select_server total_max_connections
    total_available_capacity
server_scheduler fl = record {
  complete_on_server = complete_on_server fl;
  assign_to_server = assign_to_server;
  select_server = select_server fl;
  total_max_connections = total_max_connections;
  total_available_capacity = total_available_capacity;
}
