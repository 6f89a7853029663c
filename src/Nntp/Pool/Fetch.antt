-- ===== src/Nntp/Pool/Fetch.antt =====
-- crates/bergamot-nntp/src/pool.rs: `fetch_article_targeted`, `fetch_article_sequential`, the idle
-- connections and `ServerPoolManager`. A server is known by its index in the pool. No other fetch
-- changes the pool in between.
use bergamot.Prelude.{
  ℕ, suc, ◌-◌, Bool, true, false, not, List, [], ◌∷◌, ◌++◌, map, Option, none, some, length,
  get_elem?, if◌then◌else◌, ltb, ◌==◌,
}
use mathlib.Core.Option
use bergamot.Prelude.Find.{find, retain, modify_at, modify_first, sum_by}
use bergamot.Text.{codes}
use bergamot.Nntp.Pool.{
  NewsServer, NntpError, timed_out, no_servers_configured, article_not_found, protocol_error,
  Result, ok, err, StatCall, record_bytes, record_article_success, record_article_failure,
  ServerState, ServerPool, Answers, with_factory, is_in_backoff, record_failure, reset_backoff,
  acquire_connection, try_fetch_from_server,
}

abbrev pub is_missing : NntpError → Bool
is_missing (article_not_found m) = true
is_missing e = false

pub data Outcome : Type 0 where
  fetched : List ℕ → Outcome
  failed : NntpError → Outcome
  too_late : Outcome

abbrev pub of_result : Result (List ℕ) → Outcome
of_result (ok bytes) = fetched bytes
of_result (err e) = failed e

abbrev pub no_servers_available : NntpError
no_servers_available = protocol_error (codes "no servers available")

abbrev pub found_first : Option ℕ → List ℕ
found_first none = []
found_first (some i) = i ∷ []

module _ {C : Type 0} where
  abbrev pub with_server : ℕ → ServerState C → ServerPool C → ServerPool C
  with_server i s p = record p { servers = modify_at i (λ t. s) p.servers }

  -- A call on the recorder, if there is one.
  abbrev pub recorded : StatCall → ServerPool C → ServerPool C
  recorded call p = record p { stats = Option.map (λ calls. call ∷ calls) p.stats }

  -- What `try_fetch_from_server` records for a body.
  abbrev pub recorded_body : ℕ → List ℕ → ServerPool C → ServerPool C
  recorded_body id bytes p =
      recorded (record_article_success id) (recorded (record_bytes id (length bytes)) p)

  -- The servers that are not backed off, from an index on.
  unfoldable pub available_from : ℕ → ℕ → List (ServerState C) → List ℕ
  unfolding is_in_backoff
  available_from now i [] = []
  available_from now i (s ∷ ss) =
      let rest = available_from now (suc i) ss in if is_in_backoff now s then rest else i ∷ rest

  abbrev pub is_target : ℕ → List (ServerState C) → ℕ → Bool
  is_target id servers i = elim (get_elem? servers i) [ none ↦ false | some s ↦ s.server.id == id ]

  -- The first server with the id, then those with other ids.
  unfoldable pub ordered : ℕ → List (ServerState C) → List ℕ → List ℕ
  ordered id servers available =
      found_first (find (is_target id servers) available)
      ++ retain (λ i. not (is_target id servers i)) available

  -- A connection that was taken is lost when the time is over.
  unfoldable pub attempt : Answers C → Bool → ServerState C → ServerState C × Outcome
  unfolding try_fetch_from_server acquire_connection
  attempt a has_group s =
      if a.in_time
      then (
        (try_fetch_from_server a has_group s).0,
        of_result (try_fetch_from_server a has_group s).1,
      )
      else ((acquire_connection a s).0, too_late)

  module _ (answers : ℕ → Answers C) (has_group : Bool) where
    abbrev pub Fetches : Type 0
    Fetches = NntpError → ServerPool C → ServerPool C × Result (List ℕ)

    -- What becomes of the pool after an attempt; `next` goes on with the next server.
    abbrev pub take_outcome :
        Fetches → ℕ → ServerPool C → ServerState C × Outcome → ServerPool C × Result (List ℕ)
    take_outcome next i p (s, fetched bytes) =
        (with_server i (reset_backoff s) (recorded_body s.server.id bytes p), ok bytes)
    take_outcome next i p (s, failed e) =
        if is_missing e
        then next e (with_server i s p)
        else next e (
            with_server i (record_failure (answers i).ended s)
              (recorded (record_article_failure s.server.id) p))
    take_outcome next i p (s, too_late) =
        next timed_out (with_server i (record_failure (answers i).ended s) p)

    -- A server without a permit is passed over.
    abbrev pub visit :
        Fetches
        → NntpError
        → ℕ
        → ServerPool C
        → Option (ServerState C)
        → ServerPool C × Result (List ℕ)
    visit next last i p none = next last p
    visit next last i p (some s) =
        if (answers i).permit
        then take_outcome next i p (attempt (answers i) has_group s)
        else next last p

    -- The loop over the servers in order.
    unfoldable pub fetch_in_order : List ℕ → Fetches
    unfolding attempt record_failure reset_backoff
    fetch_in_order [] last p = (p, err last)
    fetch_in_order (i ∷ is) last p = visit (fetch_in_order is) last i p (get_elem? p.servers i)

    unfoldable pub fetch_article_sequential :
        ℕ → List ℕ → ServerPool C → ServerPool C × Result (List ℕ)
    unfolding ordered fetch_in_order
    fetch_article_sequential target_id available p =
        fetch_in_order (ordered target_id p.servers available) no_servers_available p

    -- The fetches that are still running when one gives the body are dropped: one that had its
    -- permit has taken a connection.
    unfoldable pub dropped : List ℕ → List (ServerState C) → List (ServerState C)
    unfolding acquire_connection
    dropped [] servers = servers
    dropped (i ∷ is) servers = dropped is (
        if (answers i).permit
        then modify_at i (λ s. (acquire_connection (answers i) s).0) servers
        else servers)

    unfoldable pub settle_parallel :
        Fetches
        → List ℕ
        → ℕ
        → ServerPool C
        → ServerState C × Result (List ℕ)
        → ServerPool C × Result (List ℕ)
    unfolding dropped
    settle_parallel next running i p (s, ok bytes) =
        let q = with_server i (reset_backoff s) (recorded_body s.server.id bytes p) in
        (record q { servers = dropped running q.servers }, ok bytes)
    settle_parallel next running i p (s, err e) =
        let q = recorded (record_article_failure s.server.id) p in
        if is_missing e
        then next e (with_server i s q)
        else next e (with_server i (record_failure (answers i).ended s) q)

    unfoldable pub arrive :
        Fetches
        → NntpError
        → List ℕ
        → ℕ
        → ServerPool C
        → Option (ServerState C)
        → ServerPool C × Result (List ℕ)
    unfolding settle_parallel try_fetch_from_server
    arrive next last running i p none = next last p
    arrive next last running i p (some s) =
        settle_parallel next running i p (try_fetch_from_server (answers i) has_group s)

    -- All servers at once, in the order in which their fetches end.
    unfoldable pub fetch_article_parallel : List ℕ → Fetches
    unfolding arrive record_failure reset_backoff
    fetch_article_parallel [] last p = (p, err last)
    fetch_article_parallel (i ∷ is) last p =
        arrive (fetch_article_parallel is) last is i p (get_elem? p.servers i)

    unfoldable pub fetch_from :
        Option ℕ → List ℕ → List ℕ → ServerPool C → ServerPool C × Result (List ℕ)
    unfolding fetch_article_sequential fetch_article_parallel
    fetch_from target arrivals [] p = (p, err (protocol_error (codes "all servers in backoff")))
    fetch_from none arrivals (i ∷ is) p = fetch_article_parallel arrivals no_servers_available p
    fetch_from (some id) arrivals (i ∷ is) p = fetch_article_sequential id (i ∷ is) p

    unfoldable pub some_servers :
        ℕ
        → Option ℕ
        → (List ℕ → List ℕ)
        → List (ServerState C)
        → ServerPool C
        → ServerPool C × Result (List ℕ)
    unfolding fetch_from available_from
    some_servers now target arrivals [] p = (p, err no_servers_configured)
    some_servers now target arrivals (s ∷ ss) p =
        let available = available_from now 0 (s ∷ ss) in
        fetch_from target (arrivals available) available p

    -- `arrivals` puts the fetches of the parallel strategy in the order in which they end.
    unfoldable pub fetch_article_targeted :
        ℕ → Option ℕ → (List ℕ → List ℕ) → ServerPool C → ServerPool C × Result (List ℕ)
    unfolding some_servers
    fetch_article_targeted now target arrivals p = some_servers now target arrivals p.servers p

  -- Those used less than `max_idle` milliseconds ago are kept; the others are closed and counted.
  unfoldable pub cleanup_idle : ℕ → ℕ → ServerState C → ServerState C
  cleanup_idle now max_idle s = record s {
    idle_connections = retain (λ (k : C × ℕ). ltb (now - k.1) max_idle) s.idle_connections;
  }

  abbrev closed_by : ℕ → ℕ → ServerState C → ℕ
  closed_by now max_idle s =
      length (retain (λ (k : C × ℕ). not (ltb (now - k.1) max_idle)) s.idle_connections)

  unfoldable pub cleanup_idle_connections : ℕ → ℕ → ServerPool C → ServerPool C × ℕ
  unfolding cleanup_idle
  cleanup_idle_connections now max_idle p = (
    record p { servers = map (cleanup_idle now max_idle) p.servers },
    sum_by (closed_by now max_idle) p.servers,
  )

-- `ServerPoolManager`: all servers, and the pool of those that are active.
pub record ServerPoolManager (C : Type 0) : Type 0 where
  pub all_servers : List NewsServer
  pub pool : ServerPool C

-- The pool is made anew, and its recorder is kept.
unfoldable pub set_server_active :
    {C : Type 0} → ℕ → Bool → ServerPoolManager C → ServerPoolManager C × Bool
unfolding with_factory
set_server_active server_id active m =
    elim (find (λ (s : NewsServer). s.id == server_id) m.all_servers) [
      | none ↦ (m, false)
      | some s ↦
          let servers =
            modify_first (λ (s : NewsServer). s.id == server_id)
              (λ (s : NewsServer). record s { active = active }) m.all_servers in
          (
            record m {
              all_servers = servers;
              pool = record (with_factory servers) { stats = m.pool.stats };
            },
            true,
          )
    ]
