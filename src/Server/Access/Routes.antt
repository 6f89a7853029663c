-- ===== src/Server/Access/Routes.antt =====
-- Which of the routes hand a call on.
use bergamot.Prelude.{
  ◌≤◌, ◌≡◌, refl, ◌≢◌, ◌↔◌, ◌⊎◌, inl, inr, List, [], ◌∷◌, any, Bool-cases, true, not, ◌||◌, arith,
  ltb, ◌==◌,
}
use bergamot.Text.{Text, codes, same, same_sound, same_iff}
use bergamot.Server.Access.{
  AccessLevel, control, restricted, add, denied, rank, required_access, fallback_allows,
  shortcut_allows,
}

-- The tests that the routes make, for a method that asks for a level.
compared :
    (required access : AccessLevel)
    → ((not (ltb (rank required) (rank access) || rank access == rank denied) ≡ true)
        ↔ ((access ≢ denied) × (rank access ≤ rank required)))
      × ((not (ltb (rank access) (rank required)) ≡ true) ↔ (rank required ≤ rank access))
compared required control =
    ((λ h. (λ e. cc, ground arith), λ h. ground arith), (λ h. ground arith, λ h. ground arith))
compared required restricted =
    ((λ h. (λ e. cc, ground arith), λ h. ground arith), (λ h. ground arith, λ h. ground arith))
compared required add =
    ((λ h. (λ e. cc, ground arith), λ h. ground arith), (λ h. ground arith, λ h. ground arith))
compared required denied =
    ((λ h. absurd (ground arith), λ h. absurd (h.0 refl)), (λ h. ground arith, λ h. ground arith))

abbrev pub OneOf : Text → List Text → Type 0
OneOf method [] = ⊥
OneOf method (name ∷ names) = (method ≡ name) ⊎ OneOf method names

-- The methods that an account needs no more than `Add` for, and those that it needs `Restricted` for.
abbrev pub add_methods : List Text
add_methods = codes "version" ∷ codes "append" ∷ codes "scan" ∷ []

abbrev pub restricted_methods : List Text
restricted_methods =
    codes "status"
    ∷ codes "sysinfo"
    ∷ codes "systemhealth"
    ∷ codes "listgroups"
    ∷ codes "listfiles"
    ∷ codes "history"
    ∷ codes "log"
    ∷ codes "loadlog"
    ∷ codes "servervolumes"
    ∷ codes "config"
    ∷ codes "configtemplates"
    ∷ codes "loadconfig"
    ∷ []

-- The level that a method asks for; a method that is not listed asks for `control`.
pub data Asks (method : Text) : AccessLevel → Type 0 where
  asks_add : (level : AccessLevel) → level ≡ add → OneOf method add_methods → Asks method level
  asks_restricted :
      (level : AccessLevel)
      → level ≡ restricted
      → OneOf method restricted_methods
      → Asks method level
  asks_control :
      (level : AccessLevel)
      → level ≡ control
      → ¬ OneOf method add_methods
      → ¬ OneOf method restricted_methods
      → Asks method level

any-same-OneOf : (m : Text) (names : List Text) → any (same m) names ≡ true → OneOf m names
any-same-OneOf m [] h = absurd (cc)
any-same-OneOf m (n ∷ names) h = elim (Bool-cases (same m n)) [
  | inl e ↦ inl (same_sound m n e)
  | inr e ↦ inr (any-same-OneOf m names (rw e at h))
]

OneOf-any-same : (m : Text) (names : List Text) → OneOf m names → any (same m) names ≡ true
OneOf-any-same m [] h = absurd h
OneOf-any-same m (n ∷ names) (inl e) = let q = (same_iff m n).1 e in ground arith
OneOf-any-same m (n ∷ names) (inr h) = let q = OneOf-any-same m names h in ground arith

required_access-Asks : (method : Text) → Asks method (required_access method)
unfolding required_access
required_access-Asks method = elim (Bool-cases (any (same method) add_methods)) [
  | inl e ↦ rw e (asks_add add refl (any-same-OneOf method add_methods e))
  | inr e ↦
      let not_add : ¬ OneOf method add_methods =
        λ h. let q = OneOf-any-same method add_methods h in let k = rw e at q in cc in
      elim (Bool-cases (any (same method) restricted_methods)) [
        | inl f ↦
            rw (e, f) (asks_restricted restricted refl (any-same-OneOf method restricted_methods f))
        | inr f ↦
            rw (e, f)
              (asks_control control refl not_add
                λ h. let q = OneOf-any-same method restricted_methods h in let k = rw f at q in cc)
      ]
]

-- The two routes for GET, at every level and for every method, where the method asks for the level by
-- the two lists: the one on /jsonrpc/<method> hands a call on exactly if the level of the account is
-- not `denied` and is the one asked for or one that may do more; the one on
-- /<credentials>/jsonrpc/<method> exactly if it is the one asked for or one that may do less.
pub allows_iff :
    (access : AccessLevel) (method : Text)
    → (asked : AccessLevel) × (Asks method asked
        × ((fallback_allows access method ≡ true)
            ↔ ((access ≢ denied) × (rank access ≤ rank asked)))
        × ((shortcut_allows access method ≡ true) ↔ (rank asked ≤ rank access)))
unfolding fallback_allows shortcut_allows
allows_iff access method =
    let required = required_access method in
    let (fallback, shortcut) = compared required access in
    (required, (required_access-Asks method, fallback, shortcut))
