-- ===== src/Server/Access/Evidence.antt =====
-- crates/bergamot-server/src/auth.rs: what accounts, addresses and cookies that pass the checks are.
use bergamot.Prelude.{
  ℕ, ◌-◌, ◌/◌, ◌^◌, ◌≤◌, ◌≡◌, refl, ap, ◌∙◌, subst, ◌≢◌, List, [], ◌∷◌, any, Bool, Option-cases,
  true, false, ◌&&◌, Option, none, some, arith, Bool-cases, inl, inr, ◌⊎◌, if◌then◌else◌,
}
use bergamot.Text.{Text, codes, same, same_sound, parse_uint}
use bergamot.Text.Split.{split, split_once, contains}
use bergamot.Text.Utf8.{from_utf8}
use bergamot.Server.Access.{
  AccessLevel, control, restricted, add, denied, ServerConfig, Crypto, and_then, authenticate,
  is_ip_allowed, is_empty, verify_session_cookie, level_name, named_level, parts_match,
  cidr_matches, pattern_matches, parse_ipv4,
}

-- The user name and the password are those of an account with this level.
abbrev pub Account : ServerConfig → Text → Text → AccessLevel → Type 0
Account c user pass control = (user ≡ c.control_username) × (pass ≡ c.control_password)
Account c user pass restricted = (user ≡ c.restricted_username) × (pass ≡ c.restricted_password)
Account c user pass add = (user ≡ c.add_username) × (pass ≡ c.add_password)
Account c user pass denied = ⊥

both_same : (a b c d : Text) → (same a b && same c d) ≡ true → (a ≡ b) × (c ≡ d)
both_same a b c d h = (same_sound a b (ground arith), same_sound c d (ground arith))

pub authenticate-Account :
    (c : ServerConfig) (user pass : Text) (level : AccessLevel)
    → authenticate user pass c ≡ some level
    → Account c user pass level
unfolding authenticate
authenticate-Account c user pass level h =
    let is_control = same user c.control_username && same pass c.control_password in
    let is_restricted = same user c.restricted_username && same pass c.restricted_password in
    let is_add = same user c.add_username && same pass c.add_password in
    elim (Bool-cases is_control) [
      | inl e ↦
          let q : control ≡ level = ground arith in
          subst (Account c user pass) q
            (both_same user c.control_username pass c.control_password e)
      | inr e ↦ elim (Bool-cases is_restricted) [
        | inl r ↦
            let q : restricted ≡ level = ground arith in
            subst (Account c user pass) q
              (both_same user c.restricted_username pass c.restricted_password r)
        | inr r ↦ elim (Bool-cases is_add) [
          | inl a ↦
              let q : add ≡ level = ground arith in
              subst (Account c user pass) q (both_same user c.add_username pass c.add_password a)
          | inr a ↦ absurd (ground arith)
        ]
      ]
    ]

-- The parts of a pattern stand at those of an address, each the same or a star.
abbrev pub PartsMatch : List Text → List Text → Type 0
PartsMatch [] [] = Unit
PartsMatch [] (p ∷ ps) = ⊥
PartsMatch (i ∷ is) [] = ⊥
PartsMatch (i ∷ is) (p ∷ ps) = ((p ≡ codes "*") ⊎ (i ≡ p)) × PartsMatch is ps

-- Both addresses read, and their first bits are the same, as many as the number after the slash.
pub record SameNetwork (ip p : Text) : Type 0 where
  pub network : Text
  pub prefix_text : Text
  pub prefix_len : ℕ
  pub addr : ℕ
  pub net : ℕ
  pub parts : split_once b'/' p ≡ some (network, prefix_text)
  pub reads_prefix : parse_uint (2 ^ 32) prefix_text ≡ some prefix_len
  pub short : prefix_len ≤ 32
  pub reads_ip : parse_ipv4 ip ≡ some addr
  pub reads_net : parse_ipv4 network ≡ some net
  pub first_bits : addr / 2 ^ (32 - prefix_len) ≡ net / 2 ^ (32 - prefix_len)

-- The three ways in which a configured address stands for one.
abbrev pub Fits : Text → Text → Type 0
Fits ip p = (ip ≡ p) ⊎ PartsMatch (split b'.' ip) (split b'.' p) ⊎ SameNetwork ip p

abbrev pub FitsOne : Text → List Text → Type 0
FitsOne ip [] = ⊥
FitsOne ip (p ∷ ps) = Fits ip p ⊎ FitsOne ip ps

-- A payload and a signature of it under the password, where the payload is the name of the level.
pub record Signed (crypto : Crypto) (cookie secret : Text) (level : AccessLevel) : Type 0 where
  pub payload : Text
  pub signature : Text
  pub sig_bytes : List ℕ
  pub name_bytes : List ℕ
  pub parts : split_once b'.' cookie ≡ some (payload, signature)
  pub decodes : crypto.decode signature ≡ some sig_bytes
  pub verifies : crypto.verify secret payload sig_bytes ≡ true
  pub holds_name : crypto.decode payload ≡ some name_bytes
  pub is_name : from_utf8 name_bytes ≡ some (level_name level)

parts_match-PartsMatch : (is ps : List Text) → parts_match is ps ≡ true → PartsMatch is ps
parts_match-PartsMatch [] [] h = tt
parts_match-PartsMatch [] (p ∷ ps) h = absurd (cc)
parts_match-PartsMatch (i ∷ is) [] h = absurd (cc)
parts_match-PartsMatch (i ∷ is) (p ∷ ps) h =
    let more = parts_match-PartsMatch is ps (ground arith) in
    elim (Bool-cases (same p (codes "*"))) [
      | inl e ↦ (inl (same_sound p (codes "*") e), more)
      | inr e ↦ (inr (same_sound i p (ground arith)), more)
    ]

cidr_matches-SameNetwork : (ip p : Text) → cidr_matches ip p ≡ true → SameNetwork ip p
unfolding cidr_matches
cidr_matches-SameNetwork ip p h = elim (Option-cases (split_once b'/' p)) [
  | inl e ↦ absurd (let q = rw (e, cidr_matches) at h in cc)
  | inr ((network, prefix_text), e) ↦ elim (Option-cases (parse_uint (2 ^ 32) prefix_text)) [
    | inl f ↦ absurd (let q = rw (e, f, cidr_matches) at h in cc)
    | inr (k, f) ↦ elim (Option-cases (parse_ipv4 ip)) [
      | inl g ↦ absurd (let q = rw (e, f, g, cidr_matches) at h in cc)
      | inr (a, g) ↦ elim (Option-cases (parse_ipv4 network)) [
        | inl m ↦ absurd (let q = rw (e, f, g, m, cidr_matches) at h in cc)
        | inr (n, m) ↦
            let q = rw (e, f, g, m, cidr_matches) at h in
            record {
              network = network;
              prefix_text = prefix_text;
              prefix_len = k;
              addr = a;
              net = n;
              parts = e;
              reads_prefix = f;
              short = ground arith;
              reads_ip = g;
              reads_net = m;
              first_bits = ground arith;
            }
      ]
    ]
  ]
]

pattern_matches-Fits : (ip p : Text) → pattern_matches ip p ≡ true → Fits ip p
unfolding pattern_matches
pattern_matches-Fits ip p h = elim (Bool-cases (contains b'/' p)) [
  | inl e ↦ inr (inr (cidr_matches-SameNetwork ip p (rw e at h)))
  | inr e ↦ elim (Bool-cases (contains b'*' p)) [
    | inl f ↦ inr (inl (parts_match-PartsMatch (split b'.' ip) (split b'.' p) (rw (e, f) at h)))
    | inr f ↦ inl (same_sound ip p (rw (e, f) at h))
  ]
]

any-FitsOne : (ip : Text) (ps : List Text) → any (pattern_matches ip) ps ≡ true → FitsOne ip ps
any-FitsOne ip [] h = absurd (cc)
any-FitsOne ip (p ∷ ps) h = elim (Bool-cases (pattern_matches ip p)) [
  | inl e ↦ inl (pattern_matches-Fits ip p e)
  | inr e ↦ inr (any-FitsOne ip ps (rw e at h))
]

pub is_ip_allowed-Fits :
    (ip : Text) (ps : List Text)
    → is_empty ps ≡ false
    → is_ip_allowed ip ps ≡ true
    → (ip ≡ codes "127.0.0.1") ⊎ (ip ≡ codes "::1") ⊎ FitsOne ip ps
unfolding is_ip_allowed
is_ip_allowed-Fits ip ps some_ips h = elim (Bool-cases (same ip (codes "127.0.0.1"))) [
  | inl e ↦ inl (same_sound ip _ e)
  | inr e ↦ elim (Bool-cases (same ip (codes "::1"))) [
    | inl f ↦ inr (inl (same_sound ip _ f))
    | inr f ↦ inr (inr (any-FitsOne ip ps (rw (e, f, some_ips) at h)))
  ]
]

pub is_empty-ne-nil : (ps : List Text) → is_empty ps ≡ false → ps ≢ []
is_empty-ne-nil [] h e = cc
is_empty-ne-nil (p ∷ ps) h e = cc

named_level-name :
    (s : Text) (level : AccessLevel) → named_level s ≡ some level → s ≡ level_name level
named_level-name s level h = elim (Bool-cases (same s (codes "control"))) [
  | inl e ↦
      let q : control ≡ level = let k = rw e at h in cc in
      same_sound s (codes "control") e ∙ ap level_name q
  | inr e ↦ elim (Bool-cases (same s (codes "restricted"))) [
    | inl f ↦
        let q : restricted ≡ level = let k = rw (e, f) at h in cc in
        same_sound s (codes "restricted") f ∙ ap level_name q
    | inr f ↦ elim (Bool-cases (same s (codes "add"))) [
      | inl g ↦
          let q : add ≡ level = let k = rw (e, f, g) at h in cc in
          same_sound s (codes "add") g ∙ ap level_name q
      | inr g ↦ absurd (let q = rw (e, f, g) at h in cc)
    ]
  ]
]

pub and_then-some :
    {A B : Type 0} (o : Option A) (f : A → Option B) (b : B)
    → and_then o f ≡ some b
    → (a : A) × (o ≡ some a) × (f a ≡ some b)
and_then-some none f b h = absurd (cc)
and_then-some (some a) f b h = (a, refl, h)

was_checked :
    (valid : Bool) (payload checked : Text)
    → (if valid then some payload else none) ≡ some checked
    → (valid ≡ true) × (payload ≡ checked)
was_checked true payload checked h = (refl, cc)
was_checked false payload checked h = absurd (cc)

pub verify_session_cookie-Signed :
    (crypto : Crypto) (cookie secret : Text) (level : AccessLevel)
    → verify_session_cookie crypto cookie secret ≡ some level
    → Signed crypto cookie secret level
unfolding verify_session_cookie
verify_session_cookie-Signed crypto cookie secret level h =
    let ((payload, signature), parts, h1) = and_then-some (split_once b'.' cookie) _ level h in
    let (sig_bytes, decodes, h2) = and_then-some (crypto.decode signature) _ level h1 in
    let checked = crypto.verify secret payload sig_bytes in
    let (same_payload, verified, h3) =
      and_then-some (if checked then some payload else none) _ level h2 in
    let (is_valid, kept) = was_checked checked payload same_payload verified in
    let (name_bytes, holds, h4) = and_then-some (crypto.decode same_payload) _ level h3 in
    let (name, is_text, h5) = and_then-some (from_utf8 name_bytes) _ level h4 in
    let q = named_level-name name level h5 in
    record {
      payload = payload;
      signature = signature;
      sig_bytes = sig_bytes;
      name_bytes = name_bytes;
      parts = parts;
      decodes = decodes;
      verifies = is_valid;
      holds_name = ap crypto.decode kept ∙ holds;
      is_name = is_text ∙ ap some q;
    }
