-- ===== src/Nntp/Scheduler/InFlight.antt =====
-- crates/bergamot-nntp/src/scheduler.rs: the scheduler as a record of the articles in flight. The
-- specification is a list with an entry for each article that was assigned and is not complete; an
-- assignment adds an entry, a completion takes one out.
use bergamot.Prelude.{
  ℕ, ◌-◌, ◌≤◌, ◌≡◌, refl, sym, ◌∙◌, ◌≢◌, inl, inr, Bool, Bool-cases, true, false, ◌||◌, List, [],
  ◌∷◌, some, arith, if◌then◌else◌, ◌==◌, get_elem?, All,
}
use bergamot.Prelude.Find.{modify_first, remove_at, sum_by, All-modify_first}
use bergamot.Prelude.Sums.{sum_by-remove_at}
use bergamot.Nntp.Scheduler.{
  Floats, ServerSlot, is_server, has_capacity, assign_article, release_article, update_throughput,
  completed,
}
use bergamot.Nntp.Scheduler.Choice.{HasWeight}

-- An article in flight: its server and its size.
abbrev pub Flight : Type 0
Flight = ℕ × ℕ

abbrev pub one_for : ℕ → Flight → ℕ
one_for sid (s, size) = if s == sid then 1 else 0

abbrev pub bytes_for : ℕ → Flight → ℕ
bytes_for sid (s, size) = if s == sid then size else 0

-- No two slots are of one server.
abbrev pub Apart : {F : Type 0} → List (ServerSlot F) → Type 0
Apart [] = Unit
Apart (s ∷ ss) = All (λ t. t.server_id ≢ s.server_id) ss × Apart ss

module _ {F : Type 0} (fl : Floats F) where
  -- A slot counts the articles in flight on its server, no more of them than connections.
  pub record Counts (flights : List Flight) (s : ServerSlot F) : Type 0 where
    pub active : s.active_count ≡ sum_by (one_for s.server_id) flights
    pub pending : s.pending_bytes ≡ sum_by (bytes_for s.server_id) flights
    pub bounded : s.active_count ≤ s.max_connections
    pub weighs : HasWeight fl s

  pub record Represents (slots : List (ServerSlot F)) (flights : List Flight) : Type 0 where
    pub apart : Apart slots
    pub counts : All (Counts flights) slots

  -- A new entry, and an entry taken out, leave the other servers' figures as they are.
  pub other-added :
      (sid size : ℕ) (flights : List Flight) (s : ServerSlot F)
      → s.server_id ≢ sid
      → Counts flights s
      → Counts ((sid, size) ∷ flights) s
  other-added sid size flights s n c = record {
    active = ground (arith, c.active, n);
    pending = ground (arith, c.pending, n);
    bounded = c.bounded;
    weighs = c.weighs;
  }

  pub other-taken :
      (i sid size : ℕ) (flights : List Flight) (s : ServerSlot F)
      → get_elem? flights i ≡ some (sid, size)
      → s.server_id ≢ sid
      → Counts flights s
      → Counts (remove_at i flights) s
  other-taken i sid size flights s at n c = record {
    active = ground (arith, c.active, n, sum_by-remove_at (one_for s.server_id) i flights at);
    pending = ground (arith, c.pending, n, sum_by-remove_at (bytes_for s.server_id) i flights at);
    bounded = c.bounded;
    weighs = c.weighs;
  }

  pub here-added :
      (sid size : ℕ) (flights : List Flight) (s : ServerSlot F)
      → s.server_id ≡ sid
      → has_capacity s ≡ true
      → Counts flights s
      → Counts ((sid, size) ∷ flights) (assign_article size s)
  unfolding assign_article has_capacity
  here-added sid size flights s e room c = record {
    active = ground (arith, c.active, e);
    pending = ground (arith, c.pending, e);
    bounded = ground (arith, room);
    weighs = c.weighs;
  }

  -- The parts of a slot that a completion leaves alone.
  pub record Released (size : ℕ) (s t : ServerSlot F) : Type 0 where
    pub same_id : t.server_id ≡ s.server_id
    pub same_max : t.max_connections ≡ s.max_connections
    pub same_baseline : t.baseline_weight ≡ s.baseline_weight
    pub fewer : t.active_count ≡ s.active_count - 1
    pub lighter : t.pending_bytes ≡ s.pending_bytes - size

  -- Only the rate changes.
  update_throughput-rate :
      (bytes elapsed : ℕ) (s : ServerSlot F)
      → (e : F) × (update_throughput fl bytes elapsed s ≡ record s { ewma_bytes_per_sec = e })
  unfolding update_throughput
  update_throughput-rate bytes elapsed s =
      elim (Bool-cases (fl.instant (fl.seconds elapsed) || bytes == 0)) [
        | inl e ↦ (s.ewma_bytes_per_sec, rw (update_throughput, e) refl)
        | inr e ↦ (
          (update_throughput fl bytes elapsed s).ewma_bytes_per_sec,
          rw (update_throughput, e) refl,
        )
      ]

  pub completed-Released :
      (size elapsed : ℕ) (success : Bool) (s : ServerSlot F)
      → Released size s (completed fl size elapsed success s)
  unfolding completed release_article update_throughput
  completed-Released size elapsed true s =
      let (e, q) = update_throughput-rate size elapsed (release_article size s) in
      rw q (record {
        same_id = refl;
        same_max = refl;
        same_baseline = refl;
        fewer = refl;
        lighter = refl;
      })
  completed-Released size elapsed false s = record {
    same_id = refl;
    same_max = refl;
    same_baseline = refl;
    fewer = refl;
    lighter = refl;
  }

  pub here-taken :
      (i sid size elapsed : ℕ) (success : Bool) (flights : List Flight) (s : ServerSlot F)
      → get_elem? flights i ≡ some (sid, size)
      → s.server_id ≡ sid
      → Counts flights s
      → Counts (remove_at i flights) (completed fl size elapsed success s)
  here-taken i sid size elapsed success flights s at e c =
      let r = completed-Released size elapsed success s in
      let one = sum_by-remove_at (one_for s.server_id) i flights at in
      let bytes = sum_by-remove_at (bytes_for s.server_id) i flights at in
      record {
        active = rw (r.same_id, r.fewer) (ground (arith, c.active, e, one));
        pending = rw (r.same_id, r.lighter) (ground (arith, c.pending, e, bytes));
        bounded = rw (r.same_max, r.fewer) (omega (arith, c.bounded));
        weighs = rw r.same_baseline c.weighs;
      }

module _ {F : Type 0} (sid : ℕ) (f : ServerSlot F → ServerSlot F) where
  -- A change of the one slot of a server.
  pub modify-All :
      {P Q : ServerSlot F → Type 0} (slots : List (ServerSlot F))
      → Apart slots
      → All P slots
      → ((s : ServerSlot F) → s.server_id ≢ sid → P s → Q s)
      → ((s : ServerSlot F) → s.server_id ≡ sid → P s → Q (f s))
      → All Q (modify_first (is_server sid) f slots)
  modify-All [] a h k l = tt
  modify-All {P} {Q} (s ∷ ss) a h k l = elim (Bool-cases (is_server sid s)) [
    | inl e ↦
        let same : s.server_id ≡ sid = ground arith in rw e (l s same h.0, others ss a.0 h.1 same)
    | inr e ↦ rw e (k s (ground arith) h.0, modify-All ss a.1 h.1 k l)
  ]
    where
      others :
          (ts : List (ServerSlot F))
          → All (λ t. t.server_id ≢ s.server_id) ts
          → All P ts
          → s.server_id ≡ sid
          → All Q ts
      others [] n h e = tt
      others (t ∷ ts) n h e = (k t (λ q. n.0 (q ∙ sym e)) h.0, others ts n.1 h.1 e)

  pub modify-Apart :
      (slots : List (ServerSlot F))
      → ((s : ServerSlot F) → (f s).server_id ≡ s.server_id)
      → Apart slots
      → Apart (modify_first (is_server sid) f slots)
  modify-Apart [] e a = tt
  modify-Apart (s ∷ ss) e a = elim (Bool-cases (is_server sid s)) [
    | inl t ↦ rw (t, e s) a
    | inr t ↦ rw t (
      All-modify_first (λ t. t.server_id ≢ s.server_id) (is_server sid) f ss a.0
          (λ t q n. rw (e t) n),
      modify-Apart ss e a.1,
    )
  ]
