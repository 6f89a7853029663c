-- ===== src/Nntp/Scheduler/Selection.antt =====
-- crates/bergamot-nntp/src/scheduler.rs: which server `select_server` picks.
use bergamot.Prelude.{
  ℕ, ◌≤◌, ◌≡◌, refl, sym, ap, ◌∙◌, subst, ◌≢◌, ◌⊎◌, inl, inr, Bool, Bool-cases, true, false, List,
  [], ◌∷◌, Option, none, some, Option-cases, arith, if◌then◌else◌, leb, All, Any, All-weaken,
  Any-weaken,
}
use bergamot.Prelude.Find.{retain}
use bergamot.Nntp.Scheduler.{
  Floats, ServerSlot, has_capacity, least_level, min_by, at_level, best_of, select_at,
  select_server,
}
use bergamot.Nntp.Scheduler.Choice.{HasWeight, Better, Best, min_by-Picked}

module _ {F : Type 0} (fl : Floats F) where
  -- The least level of the servers with room.
  least_level-none :
      (ss : List (ServerSlot F)) → least_level ss ≡ none → All (λ s. has_capacity s ≡ false) ss
  unfolding least_level
  least_level-none [] h = tt
  least_level-none (s ∷ ss) h = elim (Bool-cases (has_capacity s)) [
    | inl e ↦ elim (Option-cases (least_level ss)) [
      | inl q ↦ absurd (let k = rw (least_level, e, q) at h in cc)
      | inr (l, q) ↦ absurd (let k = rw (least_level, e, q) at h in cc)
    ]
    | inr e ↦ (e, least_level-none ss (rw (least_level, e) at h))
  ]

  least_level-least :
      (ss : List (ServerSlot F)) (l : ℕ)
      → least_level ss ≡ some l
      → All (λ t. (has_capacity t ≡ false) ⊎ (l ≤ t.level)) ss
  unfolding least_level
  least_level-least [] l h = cc
  least_level-least (s ∷ ss) l h = elim (Bool-cases (has_capacity s)) [
    | inr e ↦ (inl e, least_level-least ss l (rw (least_level, e) at h))
    | inl e ↦ elim (Option-cases (least_level ss)) [
      | inl q ↦
          let k : s.level ≡ l = let k = rw (least_level, e, q) at h in cc in
          (inr (omega arith), All-weaken _ _ ss (λ t n. inl n) (least_level-none ss q))
      | inr (m, q) ↦
          let k : (if leb s.level m then s.level else m) ≡ l =
            let k = rw (least_level, e, q) at h in cc in
          (
            inr (ground arith),
            All-weaken _ _ ss (λ t n. elim n [ inl x ↦ inl x | inr x ↦ inr (ground arith) ])
                (least_level-least ss m q),
          )
    ]
  ]

  -- What holds of the items kept, said of all the items.
  All-retained :
      (p : ServerSlot F → Bool) (Q : ServerSlot F → Type 0) (ss : List (ServerSlot F))
      → All Q (retain p ss)
      → All (λ s. (p s ≡ false) ⊎ Q s) ss
  All-retained p Q [] h = tt
  All-retained p Q (s ∷ ss) h = elim (Bool-cases (p s)) [
    | inl e ↦ let k = rw e at h in (inr k.0, All-retained p Q ss k.1)
    | inr e ↦ (inl e, All-retained p Q ss (rw e at h))
  ]

  -- The items kept pass, have a weight, and are among the items.
  retained :
      (p : ServerSlot F → Bool) (ss all : List (ServerSlot F))
      → All (HasWeight fl) ss
      → ((s : ServerSlot F) → Any (λ t. t ≡ s) ss → Any (λ t. t ≡ s) all)
      → All (λ s. HasWeight fl s × ((p s ≡ true) × Any (λ t. t ≡ s) all)) (retain p ss)
  retained p [] all w h = tt
  retained p (s ∷ ss) all w h =
      let rest = retained p ss all w.1 (λ t a. h t (inr a)) in
      elim (Bool-cases (p s)) [
        | inl e ↦ rw e ((w.0, (e, h s (inl refl))), rest)
        | inr e ↦ rw e rest
      ]

  -- What is picked where `l` is the least level.
  best_of-Best :
      (slots : List (ServerSlot F)) (l : ℕ) (kept : List (ServerSlot F)) (sid : ℕ)
      → kept ≡ retain (at_level l) slots
      → All (HasWeight fl) slots
      → All (λ t. (has_capacity t ≡ false) ⊎ (l ≤ t.level)) slots
      → best_of fl kept ≡ some sid
      → Any (Best fl slots sid) slots
  unfolding best_of at_level
  best_of-Best slots l [] sid k w h e = cc
  best_of-Best slots l (s ∷ ss) sid k w h e =
      let passing = retained (at_level l) slots slots w (λ t a. a) in
      let split = rw (sym k) at passing in
      let r = min_by-Picked fl _ s ss split.0 split.1 in
      let m = min_by fl s ss in
      let here : All (Better fl m) (retain (at_level l) slots) =
        rw (sym k) (r.over_first, r.over_all) in
      let (at_l, among) = r.passes in
      let le : m.level ≡ l = ground arith in
      let best : Best fl slots sid m = record {
        picked = cc;
        room = ground arith;
        first_level = rw le h;
        least = rw le (All-retained (at_level l) (Better fl m) slots here);
      } in
      Any-weaken (λ t. t ≡ m) (Best fl slots sid) slots
        (λ t q. subst (Best fl slots sid) (sym q) best) among

  -- A server of the least level has room.
  least_level-here :
      (ss : List (ServerSlot F)) (l : ℕ)
      → least_level ss ≡ some l
      → Any (λ t. at_level l t ≡ true) ss
  unfolding least_level at_level
  least_level-here [] l h = cc
  least_level-here (s ∷ ss) l h = elim (Bool-cases (has_capacity s)) [
    | inr e ↦ inr (least_level-here ss l (rw (least_level, e) at h))
    | inl e ↦ elim (Option-cases (least_level ss)) [
      | inl q ↦
          let k : s.level ≡ l = let k = rw (least_level, e, q) at h in cc in
          inl (ground (arith, e, k))
      | inr (m, q) ↦
          let k : (if leb s.level m then s.level else m) ≡ l =
            let k = rw (least_level, e, q) at h in cc in
          elim (Bool-cases (leb s.level m)) [
            | inl t ↦ inl (ground (arith, e, k))
            | inr t ↦
                let same : m ≡ l = ground arith in inr (least_level-here ss l (q ∙ ap some same))
          ]
    ]
  ]

  some_kept :
      (p : ServerSlot F → Bool) (ss : List (ServerSlot F))
      → Any (λ t. p t ≡ true) ss
      → [] ≢ retain p ss
  some_kept p [] a h = a
  some_kept p (s ∷ ss) (inl e) h = let k = rw e at h in cc
  some_kept p (s ∷ ss) (inr a) h = elim (Bool-cases (p s)) [
    | inl e ↦ absurd (let k = rw e at h in cc)
    | inr e ↦ some_kept p ss a (rw e at h)
  ]

  -- What an answer of `select_server` says of the servers.
  abbrev pub Selected : List (ServerSlot F) → Option ℕ → Type 0
  Selected slots none = All (λ s. has_capacity s ≡ false) slots
  Selected slots (some sid) = Any (Best fl slots sid) slots

  best_of-Selected :
      (slots : List (ServerSlot F)) (l : ℕ) (kept : List (ServerSlot F)) (o : Option ℕ)
      → kept ≡ retain (at_level l) slots
      → All (HasWeight fl) slots
      → least_level slots ≡ some l
      → best_of fl kept ≡ o
      → Selected slots o
  unfolding best_of
  best_of-Selected slots l [] o k w h e =
      absurd (some_kept (at_level l) slots (least_level-here slots l h) k)
  best_of-Selected slots l (s ∷ ss) none k w h e = cc
  best_of-Selected slots l (s ∷ ss) (some sid) k w h e =
      best_of-Best slots l (s ∷ ss) sid k w (least_level-least slots l h) e

  -- Where every server has a baseline greater than 0: no server is selected only if none has room;
  -- a server that is selected has room, no server with room has a lower level, and among those of
  -- its level with room none has a lower ratio of pending bytes to weight, nor the same ratio and
  -- fewer articles in flight.
  pub select_server-Selected :
      (slots : List (ServerSlot F)) (article_size : ℕ)
      → All (HasWeight fl) slots
      → Selected slots (select_server fl slots article_size)
  unfolding select_server select_at
  select_server-Selected slots article_size w = elim (Option-cases (least_level slots)) [
    | inl e ↦ rw (select_server, e) (least_level-none slots e)
    | inr (l, e) ↦
        rw (select_server, e) (best_of-Selected slots l (retain (at_level l) slots) _ refl w e refl)
  ]
