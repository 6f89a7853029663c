-- ===== src/Nntp/Pool.antt =====
-- crates/bergamot-nntp/src/pool.rs: `ServerPool`; model.rs's `NewsServer` and error.rs. A connection
-- is of a parameter type, and what the network answers is an argument (`Answers`). Times are
-- milliseconds since the pool's epoch. The TLS settings of a server are part of its connection.
pub mod Fetch
pub mod Fallback
pub mod Target
pub mod Backoff
mod Tests
use mathlib.Core.Option
use Prim.Native.Nat.{min}
use bergamot.Prelude.{
  ℕ, zero, suc, ◌+◌, ◌-◌, ◌*◌, ◌^◌, Bool, true, false, not, ◌&&◌, ◌||◌, map, List, [], ◌∷◌, ◌++◌,
  Option, none, some, length, get_elem?, if◌then◌else◌, ltb, leb, ◌==◌,
}
use bergamot.Prelude.Find.{find, retain, modify_at}
use bergamot.Prelude.Sort.{sort_by}
use bergamot.Text.{Text, codes}

pub data Encryption : Type 0 where
  no_encryption tls start_tls : Encryption

pub data IpVersion : Type 0 where
  any_version ipv4_only ipv6_only : IpVersion

pub record NewsServer : Type 0 where
  pub id : ℕ
  pub name : Text
  pub active : Bool
  pub host : Text
  pub port : ℕ
  pub username : Option Text
  pub password : Option Text
  pub encryption : Encryption
  pub cipher : Option Text
  pub connections : ℕ
  pub retention : ℕ
  pub level : ℕ
  pub optional : Bool
  pub group : ℕ
  pub join_group : Bool
  pub ip_version : IpVersion
  pub cert_verification : Bool

pub data NntpError : Type 0 where
  io_error auth_required timed_out quota_exceeded no_servers_configured : NntpError
  tls_error auth_failed article_not_found protocol_error server_blocked : Text → NntpError
  unexpected_response : ℕ → Text → NntpError
  crc_mismatch : ℕ → ℕ → NntpError

pub data Result (A : Type 0) : Type 0 where
  ok : A → Result A
  err : NntpError → Result A

-- The calls on the recorder of statistics.
pub data StatCall : Type 0 where
  record_bytes : ℕ → ℕ → StatCall
  record_article_success record_article_failure : ℕ → StatCall

-- The last idle connection comes first, each with the time when it was last used.
pub record ServerState (C : Type 0) : Type 0 where
  pub server : NewsServer
  pub idle_connections : List (C × ℕ)
  pub backoff_until_ms : ℕ
  pub fail_count : ℕ

-- `stats` holds the calls that were made, the last one first, where a recorder is there.
pub record ServerPool (C : Type 0) : Type 0 where
  pub servers : List (ServerState C)
  pub stats : Option (List StatCall)

-- What an attempt at a server meets: whether there is a permit in time, when it starts and ends,
-- whether it ends in time, and what connecting, logging in and reading a body give; the last is told
-- whether the group is joined first.
pub record Answers (C : Type 0) : Type 0 where
  pub permit : Bool
  pub started : ℕ
  pub ended : ℕ
  pub in_time : Bool
  pub connect : NewsServer → Result C
  pub authenticate : Text → Text → C → Result C
  pub read_body : Bool → C → Result (C × List (List ℕ))

abbrev is_active : NewsServer → Bool
is_active s = s.active

abbrev pub before_server : NewsServer → NewsServer → Bool
before_server a b = ltb a.level b.level || (a.level == b.level && leb a.group b.group)

abbrev pub at_least_one : ℕ → ℕ
at_least_one zero = 1
at_least_one (suc n) = suc n

-- The lines with a line end between them.
abbrev pub joined : List (List ℕ) → List ℕ
joined [] = []
joined (line ∷ []) = line
joined (line ∷ next ∷ lines) = line ++ (b'\n' ∷ joined (next ∷ lines))

module _ {C : Type 0} where
  abbrev fresh_state : NewsServer → ServerState C
  fresh_state s = record { server = s; idle_connections = []; backoff_until_ms = 0; fail_count = 0 }

  unfoldable pub with_factory : List NewsServer → ServerPool C
  with_factory servers = record {
    servers = map fresh_state (retain is_active (sort_by before_server servers));
    stats = none;
  }

  unfoldable pub is_in_backoff : ℕ → ServerState C → Bool
  is_in_backoff now s = not (s.backoff_until_ms == 0) && ltb now s.backoff_until_ms

  -- `fetch_add` and the two bounds on the count; the delay is in seconds.
  unfoldable pub record_failure : ℕ → ServerState C → ServerState C
  record_failure now s =
      let capped = min (min s.fail_count 9 + 1) 10 in
      record s { fail_count = capped; backoff_until_ms = now + 2 ^ min capped 6 * 1000 }

  unfoldable pub reset_backoff : ServerState C → ServerState C
  reset_backoff s = record s { fail_count = 0; backoff_until_ms = 0 }

  -- The last idle connection that was used less than a minute ago; those behind it are dropped.
  unfoldable pub pop_idle : ℕ → List (C × ℕ) → Option C × List (C × ℕ)
  pop_idle now [] = (none, [])
  pop_idle now ((conn, last_used) ∷ idle) =
      let rest = pop_idle now idle in
      if ltb (now - last_used) 60000 then (some conn, idle) else rest

  abbrev log_in : Answers C → Option Text → Option Text → C → Result C
  log_in a (some (c ∷ user)) (some pass) conn = a.authenticate (c ∷ user) pass conn
  log_in a (some []) pass conn = ok conn
  log_in a (some (c ∷ user)) none conn = ok conn
  log_in a none pass conn = ok conn

  abbrev connected : Answers C → NewsServer → Result C → Result C
  connected a s (ok conn) = log_in a s.username s.password conn
  connected a s (err e) = err e

  abbrev idle_or_new : Answers C → NewsServer → Option C → Result C
  idle_or_new a s (some conn) = ok conn
  idle_or_new a s none = connected a s (a.connect s)

  unfoldable pub acquire_connection : Answers C → ServerState C → ServerState C × Result C
  unfolding pop_idle
  acquire_connection a s =
      let (found, idle) = pop_idle a.started s.idle_connections in
      (record s { idle_connections = idle }, idle_or_new a s.server found)

  unfoldable pub return_connection : ℕ → C → ServerState C → ServerState C
  return_connection now conn s =
      if ltb (length s.idle_connections) (at_least_one s.server.connections)
      then record s { idle_connections = (conn, now) ∷ s.idle_connections }
      else s

  abbrev after_body :
      Answers C → ServerState C → Result (C × List (List ℕ)) → ServerState C × Result (List ℕ)
  unfolding return_connection
  after_body a s (ok (conn, lines)) = (return_connection a.ended conn s, ok (joined lines))
  after_body a s (err e) = (s, err e)

  abbrev with_connection :
      Answers C → Bool → ServerState C → Result C → ServerState C × Result (List ℕ)
  unfolding after_body
  with_connection a has_group s (ok conn) =
      after_body a s (a.read_body (s.server.join_group && has_group) conn)
  with_connection a has_group s (err e) = (s, err e)

  unfoldable pub try_fetch_from_server :
      Answers C → Bool → ServerState C → ServerState C × Result (List ℕ)
  unfolding acquire_connection with_connection
  try_fetch_from_server a has_group s =
      let (s', conn) = acquire_connection a s in with_connection a has_group s' conn
