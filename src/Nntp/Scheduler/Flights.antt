-- ===== src/Nntp/Scheduler/Flights.antt =====
-- crates/bergamot-nntp/src/scheduler.rs: whatever the scheduler goes through, its slots count the
-- articles in flight.
use bergamot.Prelude.{
  ℕ, ◌≡◌, refl, sym, ◌∙◌, ◌≢◌, inl, inr, Bool, true, List, [], ◌∷◌, some, get_elem?, All, Any,
  All-weaken, Any-weaken,
}
use bergamot.Prelude.Find.{remove_at}
use bergamot.Nntp.Scheduler.{
  Floats, ServerSlot, has_capacity, assign_article, assign_to_server, completed, complete_on_server,
  set_backoff, select_server,
}
use bergamot.Nntp.Scheduler.Choice.{HasWeight, Best}
use bergamot.Nntp.Scheduler.Selection.{select_server-Selected}
use bergamot.Nntp.Scheduler.InFlight.{
  Flight, Counts, Apart, Represents, other-added, other-taken, here-added, here-taken,
  completed-Released, modify-All, modify-Apart,
}

module _ {F : Type 0} (fl : Floats F) where
  -- What the scheduler goes through: every article is assigned to the server that was selected for
  -- it, and what completes was in flight.
  pub data Serves : List (ServerSlot F) → List Flight → Type 0 where
    idle : (slots : List (ServerSlot F)) → Represents fl slots [] → Serves slots []
    assigned :
        (slots : List (ServerSlot F)) (flights : List Flight) (sid size : ℕ)
        → Serves slots flights
        → select_server fl slots size ≡ some sid
        → Serves (assign_to_server slots sid size) ((sid, size) ∷ flights)
    finished :
        (slots : List (ServerSlot F)) (flights : List Flight) (i sid size elapsed : ℕ)
        (success : Bool)
        → Serves slots flights
        → get_elem? flights i ≡ some (sid, size)
        → Serves (complete_on_server fl slots sid size elapsed success) (remove_at i flights)
    backed_off :
        (slots : List (ServerSlot F)) (flights : List Flight) (sid : ℕ) (b : Bool)
        → Serves slots flights
        → Serves (set_backoff slots sid b) flights

  elsewhere :
      (sid : ℕ) (s : ServerSlot F) (ss : List (ServerSlot F)) (Q : ServerSlot F → Type 0)
      → All (λ t. t.server_id ≢ s.server_id) ss
      → Any (λ t. (t.server_id ≡ sid) × Q t) ss
      → s.server_id ≢ sid
  elsewhere sid s [] Q a k h = k
  elsewhere sid s (t ∷ ss) Q a (inl (e, q)) h = a.0 (e ∙ sym h)
  elsewhere sid s (t ∷ ss) Q a (inr k) h = elsewhere sid s ss Q a.1 k h

  All-both :
      (P Q : ServerSlot F → Type 0) (ss : List (ServerSlot F))
      → All P ss
      → All Q ss
      → All (λ s. P s × Q s) ss
  All-both P Q [] p q = tt
  All-both P Q (s ∷ ss) p q = ((p.0, q.0), All-both P Q ss p.1 q.1)

  -- Where ids are distinct, what holds of one slot of a server holds of all its slots.
  only_one :
      (sid : ℕ) (slots : List (ServerSlot F)) (Q : ServerSlot F → Type 0)
      → Apart slots
      → Any (λ s. (s.server_id ≡ sid) × Q s) slots
      → All (λ s. s.server_id ≡ sid → Q s) slots
  only_one sid [] Q a k = tt
  only_one sid (s ∷ ss) Q a (inl (e, q)) =
      ((λ h. q), All-weaken _ _ ss (λ t n h. absurd (n (h ∙ sym e))) a.0)
  only_one sid (s ∷ ss) Q a (inr k) =
      ((λ h. absurd (elsewhere sid s ss Q a.0 k h)), only_one sid ss Q a.1 k)

  -- However articles are assigned to the servers that are selected for them and complete again, and
  -- servers are backed off and let in again: every slot counts the articles and the bytes in flight
  -- on its server, and never more articles than it has connections.
  pub Serves-Represents :
      (slots : List (ServerSlot F)) (flights : List Flight)
      → Serves slots flights
      → Represents fl slots flights
  unfolding assign_to_server complete_on_server set_backoff assign_article
  Serves-Represents slots flights (idle _ r) = r
  Serves-Represents _ _ (assigned slots flights sid size s e) =
      let r = Serves-Represents slots flights s in
      let weighs = All-weaken (Counts fl flights) (HasWeight fl) slots (λ t c. c.weighs) r.counts in
      let chosen = rw e at (select_server-Selected fl slots size weighs) in
      let room =
        only_one sid slots (λ t. has_capacity t ≡ true) r.apart
          (Any-weaken (Best fl slots sid) _ slots (λ t b. (b.picked, b.room)) chosen) in
      record {
        apart = modify-Apart sid (assign_article size) slots (λ t. refl) r.apart;
        counts =
            modify-All sid (assign_article size) slots r.apart (All-both _ _ slots r.counts room)
              (λ t n c. other-added fl sid size flights t n c.0)
              (λ t q c. here-added fl sid size flights t q (c.1 q) c.0);
      }
  Serves-Represents _ _ (finished slots flights i sid size elapsed success s e) =
      let r = Serves-Represents slots flights s in
      record {
        apart =
            modify-Apart sid (completed fl size elapsed success) slots
              (λ t. (completed-Released fl size elapsed success t).same_id) r.apart;
        counts =
            modify-All sid (completed fl size elapsed success) slots r.apart r.counts
              (λ t n c. other-taken fl i sid size flights t e n c)
              (λ t q c. here-taken fl i sid size elapsed success flights t e q c);
      }
  Serves-Represents _ _ (backed_off slots flights sid b s) =
      let r = Serves-Represents slots flights s in
      record {
        apart = modify-Apart sid _ slots (λ t. refl) r.apart;
        counts =
            modify-All sid _ slots r.apart r.counts (λ t n c. c)
              (λ t q c. record {
                active = c.active;
                pending = c.pending;
                bounded = c.bounded;
                weighs = c.weighs;
              });
      }
