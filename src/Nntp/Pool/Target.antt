-- ===== src/Nntp/Pool/Target.antt =====
-- crates/bergamot-nntp/src/pool.rs: in which order `fetch_article_sequential` asks the servers.
use bergamot.Prelude.{
  ℕ, zero, suc, ◌≤◌, ◌<◌, ◌≡◌, ◌⊎◌, refl, ap, subst, Bool, true, false, not, List, [], ◌∷◌, ◌++◌,
  ◌↔◌, All-append, Option, none, some, arith, get_elem?, ◌==◌, ◌+◌, Bool-cases, Option-cases, inl,
  inr, All, Any,
}
use bergamot.Prelude.Find.{find, retain}
use bergamot.Nntp.Pool.{Answers, ServerState, ServerPool, is_in_backoff}
use bergamot.Nntp.Pool.Fetch.{
  no_servers_available, available_from, is_target, ordered, found_first, fetch_article_sequential,
}
use bergamot.Nntp.Pool.Fallback.{Fresh, Distinct, Fallback, fetch_in_order-Fallback}

retain-Fresh : (i : ℕ) (p : ℕ → Bool) (is : List ℕ) → Fresh i is → Fresh i (retain p is)
retain-Fresh i p [] f = tt
retain-Fresh i p (j ∷ is) f = elim (Bool-cases (p j)) [
  | inl e ↦ rw e (f.0, retain-Fresh i p is f.1)
  | inr e ↦ rw e (retain-Fresh i p is f.1)
]

retain-Distinct : (p : ℕ → Bool) (is : List ℕ) → Distinct is → Distinct (retain p is)
retain-Distinct p [] d = tt
retain-Distinct p (i ∷ is) d = elim (Bool-cases (p i)) [
  | inl e ↦ rw e (retain-Fresh i p is d.0, retain-Distinct p is d.1)
  | inr e ↦ rw e (retain-Distinct p is d.1)
]

apart : (p : ℕ → Bool) (i j : ℕ) → p i ≡ true → p j ≡ false → (i == j) ≡ false
apart p i j h k = elim (Bool-cases (i == j)) [
  | inl q ↦ let same : i ≡ j = ground arith in let both = ap p same in absurd (cc)
  | inr q ↦ q
]

-- What passes a test is none of those that do not.
retain-Fresh-not :
    (i : ℕ) (p : ℕ → Bool) (is : List ℕ) → p i ≡ true → Fresh i (retain (λ j. not (p j)) is)
retain-Fresh-not i p [] h = tt
retain-Fresh-not i p (j ∷ is) h = elim (Bool-cases (p j)) [
  | inl e ↦ rw e (retain-Fresh-not i p is h)
  | inr e ↦ rw e (apart p i j h e, retain-Fresh-not i p is h)
]

find-true : (p : ℕ → Bool) (is : List ℕ) {i : ℕ} → find p is ≡ some i → p i ≡ true
find-true p [] h = absurd (cc)
find-true p (j ∷ is) {i} h = elim (Bool-cases (p j)) [
  | inl e ↦ let q : j ≡ i = ground arith in subst (λ k. p k ≡ true) q e
  | inr e ↦ find-true p is (rw e at h)
]

module _ {C : Type 0} where
  available_from-le :
      (now i k : ℕ) (ss : List (ServerState C)) → k < i → Fresh k (available_from now i ss)
  unfolding available_from
  available_from-le now i k [] h = tt
  available_from-le now i k (s ∷ ss) h = elim (Bool-cases (is_in_backoff now s)) [
    | inl e ↦ rw e (available_from-le now (suc i) k ss (omega arith))
    | inr e ↦ rw e (ground arith, available_from-le now (suc i) k ss (omega arith))
  ]

  available_from-Distinct :
      (now i : ℕ) (ss : List (ServerState C)) → Distinct (available_from now i ss)
  unfolding available_from
  available_from-Distinct now i [] = tt
  available_from-Distinct now i (s ∷ ss) = elim (Bool-cases (is_in_backoff now s)) [
    | inl e ↦ rw e (available_from-Distinct now (suc i) ss)
    | inr e ↦
        rw e
          (available_from-le now (suc i) i ss (omega arith), available_from-Distinct now (suc i) ss)
  ]

  ordered-Distinct :
      (id : ℕ) (ss : List (ServerState C)) (is : List ℕ) → Distinct is → Distinct (ordered id ss is)
  unfolding ordered
  ordered-Distinct id ss is d = elim (Option-cases (find (is_target id ss) is)) [
    | inl e ↦ rw e (retain-Distinct (λ i. not (is_target id ss i)) is d)
    | inr (i, e) ↦ rw e (
      retain-Fresh-not i (is_target id ss) is (find-true (is_target id ss) is e),
      retain-Distinct (λ i. not (is_target id ss i)) is d,
    )
  ]

-- A server at an index that is not backed off at a time.
pub record Ready {C : Type 0} (now : ℕ) (servers : List (ServerState C)) (i : ℕ) : Type 0 where
  pub state : ServerState C
  pub here : get_elem? servers i ≡ some state
  pub not_backed_off : (state.backoff_until_ms ≡ 0) ⊎ (state.backoff_until_ms ≤ now)

-- The server at an index has an id.
abbrev pub HasId : {C : Type 0} → ℕ → List (ServerState C) → ℕ → Type 0
HasId {C} id servers i = (s : ServerState C) × (get_elem? servers i ≡ some s) × (s.server.id ≡ id)

abbrev pub Listed : ℕ → List ℕ → Type 0
Listed i = Any (λ j. j ≡ i)

-- An order for the servers that are ready: each at most once, one with the id of the target at the
-- head if there is one, and all those with other ids.
pub record TargetFirst {C : Type 0} (now id : ℕ) (servers : List (ServerState C)) (is : List ℕ)
    : Type 0 where
  pub once : Distinct is
  pub ready : All (Ready now servers) is
  pub target :
      (i : ℕ)
      → Ready now servers i
      → HasId id servers i
      → (j : ℕ) × (rest : List ℕ) × (is ≡ j ∷ rest) × HasId id servers j
  pub others : (i : ℕ) → Ready now servers i → (HasId id servers i → ⊥) → Listed i is

is_in_backoff_iff :
    {C : Type 0} (now : ℕ) (s : ServerState C)
    → (is_in_backoff now s ≡ false) ↔ ((s.backoff_until_ms ≡ 0) ⊎ (s.backoff_until_ms ≤ now))
unfolding is_in_backoff
is_in_backoff_iff now s = (
  λ h. elim (Bool-cases (s.backoff_until_ms == 0)) [
    | inl e ↦ inl (ground arith)
    | inr e ↦ inr (ground arith)
  ],
  λ h. elim h [ inl e ↦ ground arith | inr e ↦ ground arith ],
)

available_from-All :
    {C : Type 0} (now k : ℕ) (ss : List (ServerState C)) (P : ℕ → Type 0)
    → ((j : ℕ) (s : ServerState C)
        → get_elem? ss j ≡ some s
        → is_in_backoff now s ≡ false
        → P (k + j))
    → All P (available_from now k ss)
unfolding available_from
available_from-All now k [] P h = tt
available_from-All now k (s ∷ ss) P h =
    let rest =
      available_from-All now (suc k) ss P λ j t e r. subst P (omega arith) (h (suc j) t e r) in
    elim (Bool-cases (is_in_backoff now s)) [
      | inl e ↦ rw e rest
      | inr e ↦ rw e (subst P (omega arith) (h 0 s refl e), rest)
    ]

available_from-Listed :
    {C : Type 0} (now k : ℕ) (ss : List (ServerState C)) (j : ℕ) (s : ServerState C)
    → get_elem? ss j ≡ some s
    → is_in_backoff now s ≡ false
    → Listed (k + j) (available_from now k ss)
unfolding available_from
available_from-Listed now k [] j s e r = absurd (cc)
available_from-Listed now k (t ∷ ss) zero s e r =
    let q : is_in_backoff now t ≡ false = cc in rw q (inl (omega arith))
available_from-Listed now k (t ∷ ss) (suc j) s e r =
    let later =
      subst (λ i. Listed i (available_from now (suc k) ss)) (omega arith)
        (available_from-Listed now (suc k) ss j s e r) in
    elim (Bool-cases (is_in_backoff now t)) [ inl b ↦ rw b later | inr b ↦ rw b (inr later) ]

find-Listed :
    (p : ℕ → Bool) (i : ℕ) (is : List ℕ) → Listed i is → p i ≡ true → (j : ℕ) × (find p is ≡ some j)
find-Listed p i [] a h = absurd a
find-Listed p i (k ∷ is) (inl e) h = let q : p k ≡ true = rw e h in (k, rw q refl)
find-Listed p i (k ∷ is) (inr a) h = elim (Bool-cases (p k)) [
  | inl e ↦ (k, rw e refl)
  | inr e ↦ let (j, f) = find-Listed p i is a h in (j, rw e f)
]

retain-Listed :
    (p : ℕ → Bool) (i : ℕ) (is : List ℕ) → Listed i is → p i ≡ true → Listed i (retain p is)
retain-Listed p i [] a h = a
retain-Listed p i (k ∷ is) (inl e) h = let q : p k ≡ true = rw e h in rw q (inl e)
retain-Listed p i (k ∷ is) (inr a) h = elim (Bool-cases (p k)) [
  | inl e ↦ rw e (inr (retain-Listed p i is a h))
  | inr e ↦ rw e (retain-Listed p i is a h)
]

Listed-append : (i : ℕ) (is js : List ℕ) → Listed i js → Listed i (is ++ js)
Listed-append i [] js a = a
Listed-append i (k ∷ is) js a = inr (Listed-append i is js a)

All-find :
    (P : ℕ → Type 0) (p : ℕ → Bool) (is : List ℕ) (o : Option ℕ)
    → All P is
    → find p is ≡ o
    → All P (found_first o)
All-find P p is none a e = tt
All-find P p [] (some i) a e = absurd (cc)
All-find P p (k ∷ is) (some i) a e = elim (Bool-cases (p k)) [
  | inl q ↦ let same : k ≡ i = ground arith in (subst P same a.0, tt)
  | inr q ↦ All-find P p is (some i) a.1 (rw q at e)
]

All-retain : (P : ℕ → Type 0) (p : ℕ → Bool) (is : List ℕ) → All P is → All P (retain p is)
All-retain P p [] a = tt
All-retain P p (k ∷ is) a = elim (Bool-cases (p k)) [
  | inl q ↦ rw q (a.0, All-retain P p is a.1)
  | inr q ↦ rw q (All-retain P p is a.1)
]

module _ {C : Type 0} (now id : ℕ) (ss : List (ServerState C)) where
  is_target-HasId : (i : ℕ) → is_target id ss i ≡ true → HasId id ss i
  is_target-HasId i h = elim (Option-cases (get_elem? ss i)) [
    | inl e ↦ absurd (let q = rw (e, is_target) at h in cc)
    | inr (s, e) ↦ (s, e, let q = rw (e, is_target) at h in ground arith)
  ]

  HasId-is_target : (i : ℕ) → HasId id ss i → is_target id ss i ≡ true
  HasId-is_target i (s, e, q) = rw (e, is_target) (ground arith)

  abbrev available : List ℕ
  available = available_from now 0 ss

  Ready-Listed : (i : ℕ) → Ready now ss i → Listed i available
  Ready-Listed i r =
      subst (λ j. Listed j available) (omega arith)
        (available_from-Listed now 0 ss i r.state r.here
          ((is_in_backoff_iff now r.state).1 r.not_backed_off))

  available-Ready : All (Ready now ss) available
  available-Ready = available_from-All now 0 ss (Ready now ss) (λ j s e r. record {
    state = s;
    here = let q : 0 + j ≡ j = omega arith in rw q e;
    not_backed_off = (is_in_backoff_iff now s).0 r;
  })

  TargetFirst-ordered : TargetFirst now id ss (ordered id ss available)
  unfolding ordered
  TargetFirst-ordered = record {
    once = ordered-Distinct id ss available (available_from-Distinct now 0 ss);
    ready =
        All-append (Ready now ss) (found_first (find (is_target id ss) available)) _
          (All-find (Ready now ss) (is_target id ss) available _ available-Ready refl)
          (All-retain (Ready now ss) _ available available-Ready);
    target = λ i r has.
        let (j, e) =
          find-Listed (is_target id ss) i available (Ready-Listed i r) (HasId-is_target i has) in
        (
          j,
          retain (λ j. not (is_target id ss j)) available,
          rw e refl,
          is_target-HasId j (find-true (is_target id ss) available e),
        );
    others = λ i r other. elim (Bool-cases (is_target id ss i)) [
      | inl e ↦ absurd (other (is_target-HasId i e))
      | inr e ↦
          Listed-append i (found_first (find (is_target id ss) available)) _ (
            retain-Listed (λ j. not (is_target id ss j)) i available (Ready-Listed i r) (rw e refl))
    ];
  }

-- A fetch with a target asks the servers that are not backed off, one with the id of the target
-- first if there is one: its result is the body that the first of them gives, from the state that it
-- was in before, and an error only if none gives one. Afterwards the failures of the one that gave
-- the body are forgotten; those before it that had a permit and met an error other than a missing
-- article, or took too long, are backed off anew, for up to 64 seconds; the servers behind it, and
-- those that were not asked, are as they were.
pub fetch_article_sequential-Fallback :
    {C : Type 0} (answers : ℕ → Answers C) (has_group : Bool) (now target_id : ℕ) (p : ServerPool C)
    → (is : List ℕ) × TargetFirst now target_id p.servers is
      × Fallback answers has_group p.servers is
          (fetch_article_sequential answers has_group target_id (available_from now 0 p.servers) p)
unfolding fetch_article_sequential
fetch_article_sequential-Fallback answers has_group now target_id p =
    let available = available_from now 0 p.servers in
    let is = ordered target_id p.servers available in
    (
      is,
      TargetFirst-ordered now target_id p.servers,
      fetch_in_order-Fallback answers has_group is no_servers_available p (
          ordered-Distinct target_id p.servers available (available_from-Distinct now 0 p.servers)),
    )
