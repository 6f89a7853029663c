-- ===== src/Server/Access.antt =====
-- crates/bergamot-server/src/auth.rs, config.rs, and the checks that the routes of server.rs make. A
-- header is the text that `to_str` gives, or none.
mod Evidence
mod Granted
mod Routes
mod Tests
use mathlib.Core.Option
use Prim.Native.Nat.{bit_or}
use bergamot.Prelude.{
  ℕ, ◌+◌, ◌-◌, ◌*◌, ◌/◌, ◌%◌, ◌^◌, ◌≡◌, Bool, true, false, not, ◌&&◌, ◌||◌, List, [], ◌∷◌, ◌++◌,
  Option, none, some, length, if◌then◌else◌, ltb, leb, ◌==◌, any,
}
use bergamot.Text.{Text, codes, same, trim, trim_start, parse_uint}
use bergamot.Text.Split.{split, split_once, strip_prefix, contains}
use bergamot.Text.Utf8.{from_utf8}

pub data AccessLevel : Type 0 where
  control restricted add denied : AccessLevel

-- The derived order of `AccessLevel`: what may do more comes first.
abbrev pub rank : AccessLevel → ℕ
rank control = 0
rank restricted = 1
rank add = 2
rank denied = 3

-- The fields of `ServerConfig` that are read here.
pub record ServerConfig : Type 0 where
  pub authorized_ips : List Text
  pub control_username : Text
  pub control_password : Text
  pub restricted_username : Text
  pub restricted_password : Text
  pub add_username : Text
  pub add_password : Text

pub record Request : Type 0 where
  pub cookie : Option Text
  pub authorization : Option Text
  pub path : Text

-- The libraries for base64 and for HMAC-SHA256, whose keys are the bytes of a text. What is encoded
-- decodes, without a `.` in between; a signature verifies under its key.
pub record Crypto : Type 0 where
  pub encode : List ℕ → Text
  pub decode : Text → Option (List ℕ)
  pub sign : Text → Text → List ℕ
  pub verify : Text → Text → List ℕ → Bool
  pub decode-encode : (bytes : List ℕ) → decode (encode bytes) ≡ some bytes
  pub encode-ne-dot : (bytes : List ℕ) → contains b'.' (encode bytes) ≡ false
  pub verify-sign : (key s : Text) → verify key s (sign key s) ≡ true

abbrev pub or_else {ℓ} : {A : Type ℓ} → Option A → Option A → Option A
or_else none b = b
or_else (some a) b = some a

abbrev pub and_then {ℓ κ} : {A : Type ℓ} {B : Type κ} → Option A → (A → Option B) → Option B
and_then none f = none
and_then (some a) f = f a

unfoldable pub authenticate : Text → Text → ServerConfig → Option AccessLevel
authenticate username password c =
    if same username c.control_username && same password c.control_password
    then some control
    else if same username c.restricted_username && same password c.restricted_password
    then some restricted
    else if same username c.add_username && same password c.add_password
    then some add
    else none

abbrev one_of : Text → List Text → Bool
one_of method names = any (same method) names

unfoldable pub required_access : Text → AccessLevel
required_access method =
    if one_of method (codes "version" ∷ codes "append" ∷ codes "scan" ∷ [])
    then add
    else if one_of method (
        codes "status"
        ∷ codes "sysinfo"
        ∷ codes "systemhealth"
        ∷ codes "listgroups"
        ∷ codes "listfiles"
        ∷ codes "history"
        ∷ codes "log"
        ∷ codes "loadlog"
        ∷ codes "servervolumes"
        ∷ codes "config"
        ∷ codes "configtemplates"
        ∷ codes "loadconfig"
        ∷ [])
    then restricted
    else control

abbrev parts_match : List Text → List Text → Bool
parts_match [] [] = true
parts_match [] (p ∷ ps) = false
parts_match (i ∷ is) [] = false
parts_match (i ∷ is) (p ∷ ps) = (same p (codes "*") || same i p) && parts_match is ps

unfoldable pub wildcard_matches : Text → Text → Bool
unfolding split
wildcard_matches ip pattern_text = parts_match (split b'.' ip) (split b'.' pattern_text)

-- Four parts, each a `u32`; a shift drops what lies above 32 bits.
abbrev address : List Text → Option ℕ
address (a ∷ b ∷ c ∷ d ∷ []) = and_then (parse_uint (2 ^ 32) a) λ a.
    and_then (parse_uint (2 ^ 32) b) λ b. and_then (parse_uint (2 ^ 32) c) λ c.
      and_then (parse_uint (2 ^ 32) d) λ d. some (
        bit_or (bit_or (bit_or (a * 2 ^ 24 % 2 ^ 32) (b * 2 ^ 16 % 2 ^ 32)) (c * 2 ^ 8 % 2 ^ 32)) d)
address parts = none

unfoldable pub parse_ipv4 : Text → Option ℕ
unfolding split
parse_ipv4 ip = address (split b'.' ip)

-- What is left of an address under the mask of a prefix: its first bits.
abbrev masked : ℕ → ℕ → ℕ
masked prefix_len ip = ip / 2 ^ (32 - prefix_len)

abbrev in_network : ℕ → ℕ → ℕ → Bool
in_network prefix_len ip net = leb prefix_len 32 && masked prefix_len ip == masked prefix_len net

unfoldable pub cidr_matches : Text → Text → Bool
unfolding parse_ipv4 split_once
cidr_matches ip cidr = elim (split_once b'/' cidr) [
  | none ↦ false
  | some (network, prefix_text) ↦ elim (parse_uint (2 ^ 32) prefix_text) [
    | none ↦ false
    | some prefix_len ↦ elim (parse_ipv4 ip) [
      | none ↦ false
      | some a ↦ elim (parse_ipv4 network) [ none ↦ false | some n ↦ in_network prefix_len a n ]
    ]
  ]
]

unfoldable pub pattern_matches : Text → Text → Bool
unfolding cidr_matches wildcard_matches
pattern_matches ip p =
    if contains b'/' p
    then cidr_matches ip p
    else if contains b'*' p
    then wildcard_matches ip p
    else same ip p

abbrev is_empty {ℓ} : {A : Type ℓ} → List A → Bool
is_empty [] = true
is_empty (x ∷ xs) = false

unfoldable pub is_ip_allowed : Text → List Text → Bool
unfolding pattern_matches
is_ip_allowed ip allowed =
    same ip (codes "127.0.0.1")
    || same ip (codes "::1")
    || is_empty allowed
    || any (pattern_matches ip) allowed

abbrev first_session : List Text → Option Text
first_session [] = none
first_session (part ∷ parts) =
    or_else (strip_prefix (codes "bergamot_session=") (trim part)) (first_session parts)

unfoldable pub extract_session_cookie : Request → Option Text
unfolding split
extract_session_cookie r = and_then r.cookie λ header. first_session (split b';' header)

-- `trim_start_matches('/')`.
abbrev skip_slashes : Text → Text
skip_slashes [] = []
skip_slashes (c ∷ s) = if c == b'/' then skip_slashes s else c ∷ s

abbrev head_of : List Text → Option Text
head_of [] = none
head_of (s ∷ ss) = some s

unfoldable pub extract_url_credentials : Request → Option (Text × Text)
unfolding split split_once
extract_url_credentials r =
    and_then (head_of (split b'/' (skip_slashes r.path))) λ s. split_once b':' s

abbrev level_name : AccessLevel → Text
level_name control = codes "control"
level_name restricted = codes "restricted"
level_name add = codes "add"
level_name denied = codes "denied"

abbrev named_level : Text → Option AccessLevel
named_level s =
    if same s (codes "control")
    then some control
    else if same s (codes "restricted")
    then some restricted
    else if same s (codes "add")
    then some add
    else none

module _ (crypto : Crypto) where
  unfoldable pub extract_basic_auth : Request → Option (Text × Text)
  unfolding split_once strip_prefix from_utf8
  extract_basic_auth r = and_then r.authorization λ header.
      and_then (strip_prefix (codes "Basic ") header) λ encoded.
        and_then (crypto.decode encoded)
          λ bytes. and_then (from_utf8 bytes) λ decoded. split_once b':' decoded

  -- The names of the levels are ASCII, so that their bytes are their characters.
  unfoldable pub create_session_cookie : AccessLevel → Text → Text
  create_session_cookie level secret =
      let payload = crypto.encode (level_name level) in
      payload ++ b'.' ∷ crypto.encode (crypto.sign secret payload)

  unfoldable pub verify_session_cookie : Text → Text → Option AccessLevel
  unfolding split_once from_utf8
  verify_session_cookie cookie secret = and_then (split_once b'.' cookie) λ parts.
      and_then (crypto.decode parts.1) λ sig_bytes.
        and_then (if crypto.verify secret parts.0 sig_bytes then some parts.0 else none) λ payload.
          and_then (crypto.decode payload)
            λ decoded. and_then (from_utf8 decoded) λ level_str. named_level level_str

  -- The credentials that a request carries, in the order in which they are tried.
  unfoldable pub extract_access : ServerConfig → Request → AccessLevel
  unfolding extract_session_cookie verify_session_cookie extract_url_credentials extract_basic_auth
      authenticate
  extract_access c r =
      let by_cookie =
        and_then (extract_session_cookie r)
          λ cookie. verify_session_cookie cookie c.control_password in
      let by_url = and_then (extract_url_credentials r) λ up. authenticate up.0 up.1 c in
      let by_header = and_then (extract_basic_auth r) λ up. authenticate up.0 up.1 c in
      elim (or_else by_cookie (or_else by_url by_header)) [ none ↦ denied | some level ↦ level ]

  -- `none` is the answer 401. An empty text stands for a client whose address is not known.
  unfoldable pub auth_middleware : ServerConfig → Text → Request → Option AccessLevel
  unfolding is_ip_allowed extract_access
  auth_middleware c client_ip r =
      let ip_authorized =
        not (is_empty c.authorized_ips) && is_ip_allowed client_ip c.authorized_ips in
      let access = if ip_authorized then control else extract_access c r in
      if rank access == rank denied then none else some access

-- Whether a route hands the call of a method on: GET on /jsonrpc/<method>, and GET on
-- /<credentials>/jsonrpc/<method>. The routes for a POST do not look at the level.
unfoldable pub fallback_allows : AccessLevel → Text → Bool
unfolding required_access
fallback_allows access method =
    not (ltb (rank (required_access method)) (rank access) || rank access == rank denied)

unfoldable pub shortcut_allows : AccessLevel → Text → Bool
unfolding required_access
shortcut_allows access method = not (ltb (rank access) (rank (required_access method)))

unfoldable pub post_allows : AccessLevel → Text → Bool
post_allows access method = true
