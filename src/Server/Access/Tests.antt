-- ===== src/Server/Access/Tests.antt =====
-- crates/bergamot-server: runs on small inputs, and the witnesses.
use bergamot.Prelude.{
  ℕ, ◌+◌, ◌-◌, ◌≡◌, ◌≢◌, refl, ap, ◌≤◌, ◌↔◌, true, false, List, [], ◌∷◌, ◌++◌, map, none, some,
  arith,
}
use bergamot.Text.{Text, codes, same, same_refl, trim, parse_uint}
use bergamot.Text.Split.{contains}
use bergamot.Server.Access.{
  AccessLevel, control, restricted, add, denied, ServerConfig, Request, Crypto, auth_middleware,
  is_ip_allowed, cidr_matches, wildcard_matches, parse_ipv4, fallback_allows, shortcut_allows,
  pattern_matches, rank,
}
use bergamot.Server.Access.Granted.{Shown, auth_middleware-Shown}
use bergamot.Server.Access.Routes.{Asks, allows_iff}

abbrev config : ServerConfig
config = record {
  authorized_ips = [];
  control_username = codes "admin";
  control_password = codes "secret";
  restricted_username = codes "ro";
  restricted_password = codes "rosecret";
  add_username = codes "add";
  add_password = codes "addsecret";
}

-- Each byte is moved past the dot, and a signature is the key with the text.
abbrev moved : List ℕ → Text
moved bytes = map (λ b. b + 47) bytes

abbrev moved_back : Text → List ℕ
moved_back s = map (λ c. c - 47) s

moved_back-moved : (bytes : List ℕ) → moved_back (moved bytes) ≡ bytes
moved_back-moved [] = refl
moved_back-moved (b ∷ bytes) = ground (arith, moved_back-moved bytes)

moved-ne-dot : (bytes : List ℕ) → contains b'.' (moved bytes) ≡ false
moved-ne-dot [] = refl
moved-ne-dot (b ∷ bytes) = ground (arith, moved-ne-dot bytes)

abbrev toy : Crypto
toy = record {
  encode = moved;
  decode = λ s. some (moved_back s);
  sign = λ key s. key ++ 0 ∷ s;
  verify = λ key s sig. same (key ++ 0 ∷ s) sig;
  decode-encode = λ bytes. ap some (moved_back-moved bytes);
  encode-ne-dot = moved-ne-dot;
  verify-sign = λ key s. same_refl (key ++ 0 ∷ s);
}

cidr : is_ip_allowed (codes "192.168.1.77") (codes "10.0.0.1" ∷ codes "192.168.0.0/16" ∷ []) ≡ true
unfolding is_ip_allowed pattern_matches cidr_matches wildcard_matches parse_ipv4 parse_uint
cidr = refl

wildcard : wildcard_matches (codes "10.0.0.9") (codes "10.0.*.8") ≡ false
unfolding wildcard_matches
wildcard = refl

abbrev request : Request
request = record {
  cookie = some (codes "x=1; y=2");
  authorization = none;
  path = codes "/ro:rosecret/jsonrpc/status";
}

let_in : auth_middleware toy config (codes "10.0.0.1") request ≡ some restricted
unfolding auth_middleware trim
let_in = refl

auth_middleware-Shown_example :
    Shown toy config (codes "10.0.0.1") request restricted × (restricted ≢ denied)
auth_middleware-Shown_example =
    auth_middleware-Shown toy config (codes "10.0.0.1") request restricted let_in

allows_iff_example :
    (asked : AccessLevel) × (Asks (codes "status") asked
      × ((fallback_allows control (codes "status") ≡ true)
          ↔ ((control ≢ denied) × (rank control ≤ rank asked)))
      × ((shortcut_allows control (codes "status") ≡ true) ↔ (rank asked ≤ rank control)))
allows_iff_example = allows_iff control (codes "status")

-- A level that may only add downloads may shut the program down.
shut_down_by_add : shortcut_allows add (codes "shutdown") ≡ true
unfolding shortcut_allows
shut_down_by_add = refl
