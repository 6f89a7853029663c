-- ===== src/Server/Access/Granted.antt =====
-- What a request that is let in has shown, and that the cookie of a login is such a thing.
use bergamot.Prelude.{
  ◌≡◌, refl, sym, ◌==◌, ◌≢◌, [], false, not, ◌&&◌, Option, none, some, arith, Bool-cases, inl, inr,
  ◌⊎◌, if◌then◌else◌,
}
use bergamot.Text.{Text, codes}
use bergamot.Text.Split.{split_once-append}
use bergamot.Text.Utf8.{from_utf8}
use bergamot.Server.Access.{
  AccessLevel, control, restricted, add, denied, ServerConfig, Request, Crypto, or_else, and_then,
  authenticate, is_ip_allowed, is_empty, extract_session_cookie, extract_url_credentials,
  extract_basic_auth, create_session_cookie, verify_session_cookie, extract_access, auth_middleware,
  level_name, named_level, rank,
}
use bergamot.Server.Access.Evidence.{
  Account, authenticate-Account, FitsOne, Signed, and_then-some, is_ip_allowed-Fits,
  is_empty-ne-nil, verify_session_cookie-Signed,
}

-- What may have been shown for a level.
pub data Shown (crypto : Crypto) (c : ServerConfig) (client_ip : Text) (r : Request)
    : AccessLevel → Type 0 where
  by_address :
      (level : AccessLevel)
      → level ≡ control
      → c.authorized_ips ≢ []
      → (client_ip ≡ codes "127.0.0.1")
        ⊎ (client_ip ≡ codes "::1")
        ⊎ FitsOne client_ip c.authorized_ips
      → Shown crypto c client_ip r level
  by_cookie :
      (level : AccessLevel) (cookie : Text)
      → extract_session_cookie r ≡ some cookie
      → Signed crypto cookie c.control_password level
      → Shown crypto c client_ip r level
  by_account :
      (level : AccessLevel) (user pass : Text)
      → (extract_url_credentials r ≡ some (user, pass))
        ⊎ (extract_basic_auth crypto r ≡ some (user, pass))
      → Account c user pass level
      → Shown crypto c client_ip r level

or_else-some :
    {A : Type 0} (o p : Option A) (a : A) → or_else o p ≡ some a → (o ≡ some a) ⊎ (p ≡ some a)
or_else-some none p a h = inr h
or_else-some (some b) p a h = inl h

module _ (crypto : Crypto) (c : ServerConfig) (client_ip : Text) (r : Request)
    (level : AccessLevel) where
  abbrev by_cookie_of : Option AccessLevel
  by_cookie_of =
      and_then (extract_session_cookie r)
        λ cookie. verify_session_cookie crypto cookie c.control_password

  abbrev by_url_of : Option AccessLevel
  by_url_of = and_then (extract_url_credentials r) λ up. authenticate up.0 up.1 c

  abbrev by_header_of : Option AccessLevel
  by_header_of = and_then (extract_basic_auth crypto r) λ up. authenticate up.0 up.1 c

  shown :
      or_else by_cookie_of (or_else by_url_of by_header_of) ≡ some level
      → Shown crypto c client_ip r level
  shown h = elim (or_else-some by_cookie_of (or_else by_url_of by_header_of) level h) [
    | inl e ↦
        let (cookie, there, ok) = and_then-some (extract_session_cookie r) _ level e in
        by_cookie level cookie there
          (verify_session_cookie-Signed crypto cookie c.control_password level ok)
    | inr e ↦ elim (or_else-some by_url_of by_header_of level e) [
      | inl u ↦
          let (up, there, ok) = and_then-some (extract_url_credentials r) _ level u in
          by_account level up.0 up.1 (inl there) (authenticate-Account c up.0 up.1 level ok)
      | inr b ↦
          let (up, there, ok) = and_then-some (extract_basic_auth crypto r) _ level b in
          by_account level up.0 up.1 (inr there) (authenticate-Account c up.0 up.1 level ok)
    ]
  ]

  found_level :
      (o : Option AccessLevel)
      → (elim o as (λ o. AccessLevel) [ none ↦ denied | some l ↦ l ]) ≡ level
      → level ≢ denied
      → o ≡ some level
  found_level none e h = absurd (h (cc))
  found_level (some l) e h = cc

  extract_access-Shown :
      extract_access crypto c r ≡ level → level ≢ denied → Shown crypto c client_ip r level
  unfolding extract_access
  extract_access-Shown e h =
      shown (found_level (or_else by_cookie_of (or_else by_url_of by_header_of)) e h)

answered :
    (access level : AccessLevel)
    → (if rank access == rank denied then none else some access) ≡ some level
    → (access ≡ level) × (level ≢ denied)
answered control level h = (cc, λ e. cc)
answered restricted level h = (cc, λ e. cc)
answered add level h = (cc, λ e. cc)
answered denied level h = absurd (cc)

-- A request that is let in at a level has shown that it may: some addresses are configured, its own is
-- that of the local host, one of them, or one that a pattern of them stands for, and the level is
-- `control`; or it carries a cookie with the name of the level and a signature of it that verifies under
-- the control password; or it carries, in its path or in a header, the user name and the password of the
-- account with this level. No request is let in as `denied`.
pub auth_middleware-Shown :
    (crypto : Crypto) (c : ServerConfig) (client_ip : Text) (r : Request) (level : AccessLevel)
    → auth_middleware crypto c client_ip r ≡ some level
    → Shown crypto c client_ip r level × (level ≢ denied)
unfolding auth_middleware
auth_middleware-Shown crypto c client_ip r level h =
    let named = is_empty c.authorized_ips in
    let allowed = is_ip_allowed client_ip c.authorized_ips in
    elim (Bool-cases (not named && allowed)) [
      | inl e ↦
          let (q, ok) = answered control level (rw e at h) in
          let given : named ≡ false = ground arith in
          (
            by_address level (sym q) (is_empty-ne-nil c.authorized_ips given)
                (is_ip_allowed-Fits client_ip c.authorized_ips given (ground arith)),
            ok,
          )
      | inr e ↦
          let (q, ok) = answered (extract_access crypto c r) level (rw e at h) in
          (extract_access-Shown crypto c client_ip r level q ok, ok)
    ]

back :
    (level : AccessLevel)
    → level ≢ denied
    → and_then (from_utf8 (level_name level)) named_level ≡ some level
unfolding from_utf8
back control h = refl
back restricted h = refl
back add h = refl
back denied h = absurd (h refl)

-- The cookie that a login sets gives its level back.
pub verify_session_cookie-create_session_cookie :
    (crypto : Crypto) (level : AccessLevel) (secret : Text)
    → level ≢ denied
    → verify_session_cookie crypto (create_session_cookie crypto level secret) secret ≡ some level
unfolding verify_session_cookie create_session_cookie from_utf8
verify_session_cookie-create_session_cookie crypto level secret h =
    let payload = crypto.encode (level_name level) in
    let sig = crypto.sign secret payload in
    rw
      (
        split_once-append b'.' payload (crypto.encode sig)
            (crypto.encode-ne-dot (level_name level)),
        crypto.decode-encode sig,
        crypto.verify-sign secret payload,
        crypto.decode-encode (level_name level),
      )
      (back level h)
