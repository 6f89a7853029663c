-- ===== src/Nntp/Pool/Fallback.antt =====
-- The fallback from server to server against a plain description of it.
use Prim.Native.Nat.{min}
use bergamot.Prelude.{
  ltb, ◌+◌, ◌*◌, ◌^◌, ℕ, zero, suc, ◌≡◌, refl, ◌∙◌, Bool, true, false, List, [], ◌∷◌, map, Option,
  none, some, arith, get_elem?, if◌then◌else◌, ◌==◌, Bool-cases, inl, inr, All,
}
use bergamot.Prelude.Find.{modify_at, get_elem?-modify_at}
use bergamot.Nntp.Pool.{
  NntpError, timed_out, Result, ok, err, ServerState, ServerPool, Answers, record_failure,
  reset_backoff,
}
use bergamot.Nntp.Pool.Fetch.{
  Fetches, is_missing, Outcome, fetched, failed, too_late, attempt, take_outcome, visit,
  fetch_in_order,
}

abbrev pub Fresh : ℕ → List ℕ → Type 0
Fresh i is = All (λ j. (i == j) ≡ false) is

abbrev pub Distinct : List ℕ → Type 0
Distinct [] = Unit
Distinct (i ∷ is) = Fresh i is × Distinct is

abbrev pub body_of : Result (List ℕ) → Option (List ℕ)
body_of (ok bytes) = some bytes
body_of (err e) = none

abbrev pub body_fetched : Outcome → Option (List ℕ)
body_fetched (fetched bytes) = some bytes
body_fetched (failed e) = none
body_fetched too_late = none

abbrev pub first_some : List (Option (List ℕ)) → Option (List ℕ)
first_some [] = none
first_some (none ∷ os) = first_some os
first_some (some b ∷ os) = some b

-- Backed off for 2, 4, 8, 16, 32 and from then on 64 seconds, by the number of failures in a row.
abbrev pub backed_off : {C : Type 0} → ℕ → ServerState C → ServerState C
backed_off now s = record s {
  fail_count = if ltb s.fail_count 9 then s.fail_count + 1 else 10;
  backoff_until_ms = now + (if ltb s.fail_count 5 then 2 ^ (s.fail_count + 1) else 64) * 1000;
}

counts : (n : ℕ) → min (min n 9 + 1) 10 ≡ (if ltb n 9 then n + 1 else 10)
counts n = ground arith

powers : (n : ℕ) → 2 ^ min (min (min n 9 + 1) 10) 6 ≡ (if ltb n 5 then 2 ^ (n + 1) else 64)
powers n = elim (Bool-cases (ltb n 5)) [
  | inl e ↦ let q : min (min (min n 9 + 1) 10) 6 ≡ n + 1 = ground arith in rw (e, q) refl
  | inr e ↦ let q : min (min (min n 9 + 1) 10) 6 ≡ 6 = ground arith in rw (e, q) refl
]

record_failure-backed_off :
    {C : Type 0} (now : ℕ) (s : ServerState C) → record_failure now s ≡ backed_off now s
unfolding record_failure
record_failure-backed_off now s = rw (powers s.fail_count, counts s.fail_count) refl

module _ {C : Type 0} (answers : ℕ → Answers C) (has_group : Bool) where
  -- What a server would give, from the state that it is in before the fetch.
  abbrev answer_of : ℕ → Option (ServerState C) → Option (List ℕ)
  answer_of i none = none
  answer_of i (some s) =
      if (answers i).permit then body_fetched (attempt (answers i) has_group s).1 else none

  abbrev pub answer : List (ServerState C) → ℕ → Option (List ℕ)
  answer servers i = answer_of i (get_elem? servers i)

  -- The state of a server that was asked: with a body it is no longer backed off, with an error other
  -- than a missing article it is backed off for longer.
  abbrev pub settled : ℕ → ServerState C × Outcome → ServerState C
  settled i (s, fetched bytes) = record s { fail_count = 0; backoff_until_ms = 0 }
  settled i (s, failed e) = if is_missing e then s else backed_off (answers i).ended s
  settled i (s, too_late) = backed_off (answers i).ended s

  abbrev asked_of : ℕ → Option (ServerState C) → Option (ServerState C)
  asked_of i none = none
  asked_of i (some s) =
      some (if (answers i).permit then settled i (attempt (answers i) has_group s) else s)

  abbrev asked : List (ServerState C) → ℕ → Option (ServerState C)
  asked servers i = asked_of i (get_elem? servers i)

  abbrev unless_found :
      Option (List ℕ) → Option (ServerState C) → Option (ServerState C) → Option (ServerState C)
  unless_found none found others = others
  unless_found (some bytes) found others = found

  -- A server is asked up to the first one that gives the body; the others stay as they are.
  abbrev pub afterwards : List (ServerState C) → List ℕ → ℕ → Option (ServerState C)
  afterwards servers [] j = get_elem? servers j
  afterwards servers (i ∷ is) j =
      if i == j
      then asked servers i
      else unless_found (answer servers i) (get_elem? servers j) (afterwards servers is j)

  pub record Fallback (servers : List (ServerState C)) (is : List ℕ)
      (r : ServerPool C × Result (List ℕ)) : Type 0 where
    pub body : body_of r.1 ≡ first_some (map (answer servers) is)
    pub servers_after : (j : ℕ) → get_elem? r.0.servers j ≡ afterwards servers is j

get_elem?-modify_at_other {ℓ} :
    {A : Type ℓ} (i j : ℕ) (f : A → A) (xs : List A)
    → (i == j) ≡ false
    → get_elem? (modify_at i f xs) j ≡ get_elem? xs j
get_elem?-modify_at_other i j f [] h = refl
get_elem?-modify_at_other zero zero f (x ∷ xs) h = absurd (ground arith)
get_elem?-modify_at_other zero (suc j) f (x ∷ xs) h = refl
get_elem?-modify_at_other (suc i) zero f (x ∷ xs) h = refl
get_elem?-modify_at_other (suc i) (suc j) f (x ∷ xs) h =
    get_elem?-modify_at_other i j f xs (ground arith)

-- Two pools that have the same servers, except at an index.
abbrev Agree : {C : Type 0} → ℕ → List (ServerState C) → List (ServerState C) → Type 0
Agree i ss ts = (j : ℕ) → (i == j) ≡ false → get_elem? ts j ≡ get_elem? ss j

module _ {C : Type 0} (answers : ℕ → Answers C) (has_group : Bool) (i : ℕ)
    (ss ts : List (ServerState C)) where
  answers-Agree :
      (is : List ℕ)
      → Fresh i is
      → Agree i ss ts
      → map (answer answers has_group ts) is ≡ map (answer answers has_group ss) is
  answers-Agree [] f agree = refl
  answers-Agree (k ∷ is) f agree = rw (agree k f.0, answers-Agree is f.1 agree) refl

  afterwards-Fresh :
      (is : List ℕ) → Fresh i is → afterwards answers has_group ts is i ≡ get_elem? ts i
  afterwards-Fresh [] f = refl
  afterwards-Fresh (k ∷ is) f =
      let other : (k == i) ≡ false = ground (arith, f.0) in
      rw (other, afterwards-Fresh is f.1) (either (answer answers has_group ts k))
    where
      either :
          (o : Option (List ℕ))
          → unless_found answers has_group o (get_elem? ts i) (get_elem? ts i) ≡ get_elem? ts i
      either none = refl
      either (some b) = refl

  afterwards-Agree :
      (is : List ℕ) (j : ℕ)
      → Fresh i is
      → Agree i ss ts
      → (i == j) ≡ false
      → afterwards answers has_group ts is j ≡ afterwards answers has_group ss is j
  afterwards-Agree [] j f agree h = agree j h
  afterwards-Agree (k ∷ is) j f agree h =
      rw (agree k f.0, agree j h, afterwards-Agree is j f.1 agree h) refl

module _ {C : Type 0} (answers : ℕ → Answers C) (has_group : Bool) (i : ℕ) (is : List ℕ)
    (f : Fresh i is) (ss : List (ServerState C)) where
  -- The server has no body to give, and the loop goes on with a pool that differs from the first in
  -- this server only.
  went_on :
      (r : ServerPool C × Result (List ℕ)) (ts : List (ServerState C))
      → answer answers has_group ss i ≡ none
      → Agree i ss ts
      → get_elem? ts i ≡ asked answers has_group ss i
      → Fallback answers has_group ts is r
      → Fallback answers has_group ss (i ∷ is) r
  went_on r ts nothing agree there rest = record {
    body = rw (nothing, ← answers-Agree answers has_group i ss ts is f agree) rest.body;
    servers_after = λ j. elim (Bool-cases (i == j)) [
      | inl e ↦
          let q : j ≡ i = ground arith in
          rw (e, q) (rest.servers_after i ∙ afterwards-Fresh answers has_group i ss ts is f ∙ there)
      | inr e ↦
          rw (e, nothing)
            (rest.servers_after j ∙ afterwards-Agree answers has_group i ss ts is j f agree e)
    ];
  }

  found :
      (r : ServerPool C × Result (List ℕ)) (bytes : List ℕ)
      → answer answers has_group ss i ≡ some bytes
      → r.1 ≡ ok bytes
      → Agree i ss r.0.servers
      → get_elem? r.0.servers i ≡ asked answers has_group ss i
      → Fallback answers has_group ss (i ∷ is) r
  found r bytes yes_body e agree there = record {
    body = rw (yes_body, e) refl;
    servers_after = λ j. elim (Bool-cases (i == j)) [
      | inl e ↦ let q : j ≡ i = ground arith in rw (e, q) there
      | inr e ↦ rw (e, yes_body) (agree j e)
    ];
  }

  module _ (next : Fetches answers has_group) (p : ServerPool C) (here : p.servers ≡ ss)
      (on : (e : NntpError) (q : ServerPool C)
        → Fallback answers has_group q.servers is (next e q)) where
    -- With the pool as it is.
    passed :
        (last : NntpError)
        → answer answers has_group ss i ≡ none
        → get_elem? ss i ≡ asked answers has_group ss i
        → Fallback answers has_group ss (i ∷ is) (next last p)
    passed last nothing there =
        went_on (next last p) p.servers nothing (λ j e. rw here refl) (rw here there) (on last p)

    module _ (s : ServerState C) (h : get_elem? ss i ≡ some s)
        (permit : (answers i).permit ≡ true) where
      -- With another state of the server.
      replaced :
          (t : ServerState C) (e : NntpError) (q : ServerPool C)
          → q.servers ≡ modify_at i (λ s. t) ss
          → body_fetched (attempt (answers i) has_group s).1 ≡ none
          → t ≡ settled answers has_group i (attempt (answers i) has_group s)
          → Fallback answers has_group ss (i ∷ is) (next e q)
      unfolding attempt
      replaced t e q changed nothing kept =
          went_on (next e q) q.servers (rw (h, permit) nothing)
            (λ j other. rw changed (get_elem?-modify_at_other i j (λ s. t) ss other))
            (rw (changed, get_elem?-modify_at i (λ s. t) ss h, h, permit, kept) refl) (on e q)

      take_outcome-Fallback :
          (o : ServerState C × Outcome)
          → attempt (answers i) has_group s ≡ o
          → Fallback answers has_group ss (i ∷ is) (take_outcome answers has_group next i p o)
      unfolding attempt reset_backoff
      take_outcome-Fallback (t, fetched bytes) e =
          let back = reset_backoff t in
          found (take_outcome answers has_group next i p (t, fetched bytes)) bytes
            (rw (h, permit, e) refl) refl
            (λ j other. rw here (get_elem?-modify_at_other i j (λ s. back) ss other))
            (rw (here, get_elem?-modify_at i (λ s. back) ss h, h, permit, e) refl)
      take_outcome-Fallback (t, too_late) e =
          replaced (record_failure (answers i).ended t) timed_out _ (rw here refl) (rw e refl)
            (rw e (record_failure-backed_off (answers i).ended t))
      take_outcome-Fallback (t, failed x) e = elim (Bool-cases (is_missing x)) [
        | inl m ↦ rw m (replaced t x _ (rw here refl) (rw e refl) (rw (e, m) refl))
        | inr m ↦ rw m (
            replaced (record_failure (answers i).ended t) x _ (rw here refl) (rw e refl)
              (rw (e, m) (record_failure-backed_off (answers i).ended t)))
      ]

    visit-Fallback :
        (last : NntpError) (o : Option (ServerState C))
        → get_elem? ss i ≡ o
        → Fallback answers has_group ss (i ∷ is) (visit answers has_group next last i p o)
    unfolding attempt
    visit-Fallback last none h = passed last (rw h refl) (rw h refl)
    visit-Fallback last (some s) h = elim (Bool-cases (answers i).permit) [
      | inl e ↦ rw e (take_outcome-Fallback s h e (attempt (answers i) has_group s) refl)
      | inr e ↦ rw e (passed last (rw (h, e) refl) (rw (h, e) refl))
    ]

pub fetch_in_order-Fallback :
    {C : Type 0} (answers : ℕ → Answers C) (has_group : Bool) (is : List ℕ) (last : NntpError)
    (p : ServerPool C)
    → Distinct is
    → Fallback answers has_group p.servers is (fetch_in_order answers has_group is last p)
unfolding fetch_in_order
fetch_in_order-Fallback answers has_group [] last p d = record {
  body = refl;
  servers_after = λ j. refl;
}
fetch_in_order-Fallback answers has_group (i ∷ is) last p (f, d) =
    visit-Fallback answers has_group i is f p.servers (fetch_in_order answers has_group is) p refl
      (λ e q. fetch_in_order-Fallback answers has_group is e q d) last (get_elem? p.servers i) refl
