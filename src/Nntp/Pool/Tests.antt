-- ===== src/Nntp/Pool/Tests.antt =====
-- crates/bergamot-nntp/src/pool.rs: runs on small inputs, and the witnesses.
use bergamot.Prelude.{
  ℕ, ◌+◌, ◌≤◌, ◌≡◌, refl, true, false, List, [], ◌∷◌, none, some, arith, All, if◌then◌else◌, ◌==◌,
}
use bergamot.Text.{codes}
use bergamot.Nntp.Pool.{
  NewsServer, no_encryption, any_version, article_not_found, ok, err, ServerState, ServerPool,
  Answers, is_in_backoff,
}
use bergamot.Nntp.Pool.Fetch.{
  available_from, ordered, fetch_article_sequential, fetch_article_targeted,
}
use bergamot.Nntp.Pool.Fallback.{Fallback, body_of}
use bergamot.Nntp.Pool.Target.{TargetFirst, fetch_article_sequential-Fallback}
use bergamot.Nntp.Pool.Backoff.{Bounded, fetch_article_targeted-Bounded}

abbrev server : ℕ → ℕ → NewsServer
server id level = record {
  id = id;
  name = [];
  active = true;
  host = codes "localhost";
  port = 119;
  username = none;
  password = none;
  encryption = no_encryption;
  cipher = none;
  connections = 2;
  retention = 0;
  level = level;
  optional = false;
  group = 0;
  join_group = true;
  ip_version = any_version;
  cert_verification = false;
}

-- The servers 5 and 7 do not have the article; 5 takes too long to say so.
abbrev states : List (ServerState ℕ)
states =
    record { server = server 5 0; idle_connections = []; backoff_until_ms = 0; fail_count = 3 }
    ∷ record { server = server 7 0; idle_connections = []; backoff_until_ms = 0; fail_count = 0 }
    ∷ record { server = server 9 1; idle_connections = []; backoff_until_ms = 0; fail_count = 0 }
    ∷ []

abbrev pool : ServerPool ℕ
pool = record { servers = states; stats = some [] }

abbrev answers : ℕ → Answers ℕ
answers i = record {
  permit = true;
  started = 100;
  ended = 200;
  in_time = if i == 0 then false else true;
  connect = λ s. ok i;
  authenticate = λ user pass conn. ok conn;
  read_body = λ joins conn.
      if i == 2 then ok (conn, (1 ∷ []) ∷ (2 ∷ []) ∷ []) else err (article_not_found (codes "a@b"));
}

from_the_last :
    body_of (fetch_article_sequential answers true 7 (available_from 0 0 states) pool).1
    ≡ some (1 ∷ 10 ∷ 2 ∷ [])
unfolding fetch_article_sequential available_from
from_the_last = refl

target_first : ordered 7 states (available_from 0 0 states) ≡ 1 ∷ 0 ∷ 2 ∷ []
unfolding ordered available_from
target_first = refl

fetch_article_sequential-Fallback_example :
    (is : List ℕ) × TargetFirst 0 7 states is
    × Fallback answers true states is
        (fetch_article_sequential answers true 7 (available_from 0 0 states) pool)
fetch_article_sequential-Fallback_example = fetch_article_sequential-Fallback answers true 0 7 pool

fetch_article_targeted-Bounded_example :
    All (Bounded 500) (fetch_article_targeted answers true 0 (some 7) (λ is. is) pool).0.servers
    × ((later : ℕ)
        → 500 + 64000 ≤ later
        → All
            (λ s. is_in_backoff later s ≡ false)
            (fetch_article_targeted answers true 0 (some 7) (λ is. is) pool).0.servers)
fetch_article_targeted-Bounded_example =
    fetch_article_targeted-Bounded 500 answers true 0 (some 7) (λ is. is) pool (λ i. omega arith)
      (
        record { few = omega arith; soon = omega arith },
        (
          record { few = omega arith; soon = omega arith },
          (record { few = omega arith; soon = omega arith }, tt),
        ),
      )
