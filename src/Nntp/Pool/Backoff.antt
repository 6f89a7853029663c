-- ===== src/Nntp/Pool/Backoff.antt =====
-- How long a server can be backed off.
use Prim.Native.Nat.{min}
use bergamot.Prelude.{
  ℕ, zero, suc, ◌+◌, ◌^◌, ◌≤◌, ◌≡◌, refl, Bool, true, false, List, [], ◌∷◌, Option, none, some,
  arith, get_elem?, if◌then◌else◌, Bool-cases, inl, inr, All, All-weaken,
}
use bergamot.Prelude.Find.{modify_at, All-modify_at, All-get_elem?}
use bergamot.Nntp.Pool.{
  NntpError, timed_out, Result, ok, err, ServerState, ServerPool, Answers, is_in_backoff,
  record_failure, reset_backoff, acquire_connection, return_connection, after_body, with_connection,
  try_fetch_from_server,
}
use bergamot.Nntp.Pool.Fetch.{
  Fetches, is_missing, Outcome, fetched, failed, too_late, attempt, take_outcome, visit,
  fetch_in_order, fetch_article_sequential, dropped, settle_parallel, arrive,
  fetch_article_parallel, fetch_from, some_servers, fetch_article_targeted,
}

power-le : (n : ℕ) → n ≤ 6 → 2 ^ n ≤ 64
power-le zero h = omega arith
power-le (suc zero) h = omega arith
power-le (suc (suc zero)) h = omega arith
power-le (suc (suc (suc zero))) h = omega arith
power-le (suc (suc (suc (suc zero)))) h = omega arith
power-le (suc (suc (suc (suc (suc zero))))) h = omega arith
power-le (suc (suc (suc (suc (suc (suc zero)))))) h = omega arith
power-le (suc (suc (suc (suc (suc (suc (suc n))))))) h = absurd (omega arith)

either_of {ℓ κ} :
    {A : Type ℓ} (P : A → Type κ) (b : Bool) (x y : A) → P x → P y → P (if b then x else y)
either_of P true x y h k = h
either_of P false x y h k = k

first_of_either {ℓ κ} :
    {A B : Type ℓ} (P : A → Type κ) (b : Bool) (x y : A × B)
    → P x.0
    → P y.0
    → P (if b then x else y).0
first_of_either P true x y h k = h
first_of_either P false x y h k = k

-- At most ten failures are counted, and the server is let in again within 64 seconds of a time.
pub record Bounded {C : Type 0} (latest : ℕ) (s : ServerState C) : Type 0 where
  pub few : s.fail_count ≤ 10
  pub soon : s.backoff_until_ms ≤ latest + 64000

module _ {C : Type 0} (latest : ℕ) where
  record_failure-Bounded :
      (now : ℕ) (s : ServerState C) → now ≤ latest → Bounded latest (record_failure now s)
  unfolding record_failure
  record_failure-Bounded now s h =
      let capped = min (min s.fail_count 9 + 1) 10 in
      let power = power-le (min capped 6) (omega arith) in
      record { few = omega arith; soon = omega arith }

  reset_backoff-Bounded : (s : ServerState C) → Bounded latest (reset_backoff s)
  unfolding reset_backoff
  reset_backoff-Bounded s = record { few = omega arith; soon = omega arith }

  module _ (a : Answers C) (s : ServerState C) (b : Bounded latest s) where
    acquire_connection-Bounded : Bounded latest (acquire_connection a s).0
    unfolding acquire_connection
    acquire_connection-Bounded = record { few = b.few; soon = b.soon }

    return_connection-Bounded : (now : ℕ) (conn : C) → Bounded latest (return_connection now conn s)
    unfolding return_connection
    return_connection-Bounded now conn = record {
      few = ground (arith, b);
      soon = ground (arith, b);
    }

    after_body-Bounded : (r : Result (C × List (List ℕ))) → Bounded latest (after_body a s r).0
    unfolding after_body
    after_body-Bounded (ok (conn, lines)) = return_connection-Bounded a.ended conn
    after_body-Bounded (err e) = b

  module _ (a : Answers C) (has_group : Bool) (s : ServerState C) (b : Bounded latest s) where
    with_connection-Bounded : (r : Result C) → Bounded latest (with_connection a has_group s r).0
    unfolding with_connection
    with_connection-Bounded (ok conn) = after_body-Bounded a s b _
    with_connection-Bounded (err e) = b

  module _ (a : Answers C) (has_group : Bool) (s : ServerState C) (b : Bounded latest s) where
    try_fetch_from_server-Bounded : Bounded latest (try_fetch_from_server a has_group s).0
    unfolding try_fetch_from_server
    try_fetch_from_server-Bounded =
        with_connection-Bounded a has_group (acquire_connection a s).0
          (acquire_connection-Bounded a s b) (acquire_connection a s).1

    attempt-Bounded : Bounded latest (attempt a has_group s).0
    unfolding attempt
    attempt-Bounded =
        first_of_either (Bounded latest) a.in_time _ _ try_fetch_from_server-Bounded
          (acquire_connection-Bounded a s b)

  abbrev AllBounded : List (ServerState C) → Type 0
  AllBounded ss = All (Bounded latest) ss

  with_server-AllBounded :
      (i : ℕ) (t : ServerState C) (ss : List (ServerState C))
      → AllBounded ss
      → Bounded latest t
      → AllBounded (modify_at i (λ s. t) ss)
  with_server-AllBounded i t ss h b = All-modify_at (Bounded latest) i (λ s. t) ss h (λ s e k. b)

  module _ (answers : ℕ → Answers C) (has_group : Bool)
      (times : (i : ℕ) → (answers i).ended ≤ latest) where
    abbrev Keeps : Fetches answers has_group → Type 0
    Keeps next =
        (e : NntpError) (p : ServerPool C) → AllBounded p.servers → AllBounded (next e p).0.servers

    module _ (next : Fetches answers has_group) (on : Keeps next) (i : ℕ) (p : ServerPool C)
        (h : AllBounded p.servers) where
      take_outcome-AllBounded :
          (o : ServerState C × Outcome)
          → Bounded latest o.0
          → AllBounded (take_outcome answers has_group next i p o).0.servers
      take_outcome-AllBounded (s, fetched bytes) b =
          with_server-AllBounded i (reset_backoff s) p.servers h (reset_backoff-Bounded s)
      take_outcome-AllBounded (s, too_late) b = on timed_out _ (
          with_server-AllBounded i (record_failure (answers i).ended s) p.servers h
            (record_failure-Bounded (answers i).ended s (times i)))
      take_outcome-AllBounded (s, failed e) b = elim (Bool-cases (is_missing e)) [
        | inl m ↦ rw m (on e _ (with_server-AllBounded i s p.servers h b))
        | inr m ↦ rw m (
            on e _ (
              with_server-AllBounded i (record_failure (answers i).ended s) p.servers h
                (record_failure-Bounded (answers i).ended s (times i))))
      ]

      visit-AllBounded :
          (last : NntpError) (o : Option (ServerState C))
          → get_elem? p.servers i ≡ o
          → AllBounded (visit answers has_group next last i p o).0.servers
      visit-AllBounded last none e = on last p h
      visit-AllBounded last (some s) e =
          let b = All-get_elem? (Bounded latest) i p.servers h e in
          either_of (λ r. AllBounded r.0.servers) (answers i).permit
            (take_outcome answers has_group next i p (attempt (answers i) has_group s))
            (next last p)
            (take_outcome-AllBounded (attempt (answers i) has_group s)
              (attempt-Bounded (answers i) has_group s b))
            (on last p h)

    fetch_in_order-Keeps : (is : List ℕ) → Keeps (fetch_in_order answers has_group is)
    unfolding fetch_in_order
    fetch_in_order-Keeps [] last p h = h
    fetch_in_order-Keeps (i ∷ is) last p h =
        visit-AllBounded (fetch_in_order answers has_group is) (fetch_in_order-Keeps is) i p h last
          (get_elem? p.servers i) refl

    dropped-AllBounded :
        (is : List ℕ) (ss : List (ServerState C))
        → AllBounded ss
        → AllBounded (dropped answers has_group is ss)
    unfolding dropped
    dropped-AllBounded [] ss h = h
    dropped-AllBounded (i ∷ is) ss h = dropped-AllBounded is _ (
        either_of AllBounded (answers i).permit _ ss
          (All-modify_at (Bounded latest) i (λ s. (acquire_connection (answers i) s).0) ss h
            (λ s e b. acquire_connection-Bounded (answers i) s b))
          h)

    module _ (next : Fetches answers has_group) (on : Keeps next) (running : List ℕ) (i : ℕ)
        (p : ServerPool C) (h : AllBounded p.servers) where
      settle_parallel-AllBounded :
          (o : ServerState C × Result (List ℕ))
          → Bounded latest o.0
          → AllBounded (settle_parallel answers has_group next running i p o).0.servers
      unfolding settle_parallel dropped
      settle_parallel-AllBounded (s, ok bytes) b =
          dropped-AllBounded running _
            (with_server-AllBounded i (reset_backoff s) p.servers h (reset_backoff-Bounded s))
      settle_parallel-AllBounded (s, err e) b = elim (Bool-cases (is_missing e)) [
        | inl m ↦ rw m (on e _ (with_server-AllBounded i s p.servers h b))
        | inr m ↦ rw m (
            on e _ (
              with_server-AllBounded i (record_failure (answers i).ended s) p.servers h
                (record_failure-Bounded (answers i).ended s (times i))))
      ]

      arrive-AllBounded :
          (last : NntpError) (o : Option (ServerState C))
          → get_elem? p.servers i ≡ o
          → AllBounded (arrive answers has_group next last running i p o).0.servers
      unfolding arrive
      arrive-AllBounded last none e = on last p h
      arrive-AllBounded last (some s) e =
          settle_parallel-AllBounded (try_fetch_from_server (answers i) has_group s) (
            try_fetch_from_server-Bounded (answers i) has_group s
              (All-get_elem? (Bounded latest) i p.servers h e))

    fetch_article_parallel-Keeps :
        (is : List ℕ) → Keeps (fetch_article_parallel answers has_group is)
    unfolding fetch_article_parallel
    fetch_article_parallel-Keeps [] last p h = h
    fetch_article_parallel-Keeps (i ∷ is) last p h =
        arrive-AllBounded (fetch_article_parallel answers has_group is)
          (fetch_article_parallel-Keeps is) is i p h last (get_elem? p.servers i) refl

    fetch_from-AllBounded :
        (target : Option ℕ) (arrivals available : List ℕ) (p : ServerPool C)
        → AllBounded p.servers
        → AllBounded (fetch_from answers has_group target arrivals available p).0.servers
    unfolding fetch_from fetch_article_sequential
    fetch_from-AllBounded target arrivals [] p h = h
    fetch_from-AllBounded none arrivals (i ∷ is) p h = fetch_article_parallel-Keeps arrivals _ p h
    fetch_from-AllBounded (some id) arrivals (i ∷ is) p h = fetch_in_order-Keeps _ _ p h

    some_servers-AllBounded :
        (now : ℕ) (target : Option ℕ) (arrivals : List ℕ → List ℕ) (ss : List (ServerState C))
        (p : ServerPool C)
        → AllBounded p.servers
        → AllBounded (some_servers answers has_group now target arrivals ss p).0.servers
    unfolding some_servers
    some_servers-AllBounded now target arrivals [] p h = h
    some_servers-AllBounded now target arrivals (s ∷ ss) p h = fetch_from-AllBounded target _ _ p h

  let_in :
      (now : ℕ) (s : ServerState C)
      → latest + 64000 ≤ now
      → Bounded latest s
      → is_in_backoff now s ≡ false
  unfolding is_in_backoff
  let_in now s h b = ground (arith, b)

-- Whatever strategy a fetch takes, whatever it meets, and in whatever order: where every server has
-- at most ten failures counted and is let in again within 64 seconds of a time, and no attempt ends
-- after that time, both hold again; so from 64 seconds after that time on no server is backed off.
pub fetch_article_targeted-Bounded :
    {C : Type 0} (latest : ℕ) (answers : ℕ → Answers C) (has_group : Bool) (now : ℕ)
    (target : Option ℕ) (arrivals : List ℕ → List ℕ) (p : ServerPool C)
    → ((i : ℕ) → (answers i).ended ≤ latest)
    → All (Bounded latest) p.servers
    → All
        (Bounded latest)
        (fetch_article_targeted answers has_group now target arrivals p).0.servers
      × ((later : ℕ)
          → latest + 64000 ≤ later
          → All
              (λ s. is_in_backoff later s ≡ false)
              (fetch_article_targeted answers has_group now target arrivals p).0.servers)
unfolding fetch_article_targeted
fetch_article_targeted-Bounded latest answers has_group now target arrivals p times h =
    let kept =
      some_servers-AllBounded latest answers has_group times now target arrivals p.servers p h in
    (kept, λ later le. All-weaken (Bounded latest) _ _ (λ s b. let_in latest later s le b) kept)
