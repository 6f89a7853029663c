-- ===== src/Queue/Select/Order.antt =====
-- Candidates in falling order of priority: the first answer is one of the highest priority.
use bergamot.Prelude.{
  ◌≤◌, ◌≡◌, refl, ◌⊎◌, inl, inr, true, Bool-cases, Option-cases, List, [], ◌∷◌, ◌++◌, reverse,
  Option, none, some, arith, leb, is_some, All, Any, All-append, All-weaken, Any-weaken,
}
use mathlib.Core.List.{reverse-cons, reverse-append, reverse-reverse}
use bergamot.Queue.Types.{rank}
use bergamot.Queue.Nzb.{NzbInfo}
use bergamot.Queue.Select.{insert_by_rank, sort_by_rank, first_some}

module _ {ℓ} {A : Type ℓ} where
  pub All-reverse {κ} : (P : A → Type κ) (xs : List A) → All P xs → All P (reverse xs)
  All-reverse P [] h = tt
  All-reverse P (x ∷ xs) h =
      rw reverse-cons (All-append P (reverse xs) (x ∷ []) (All-reverse P xs h.1) (h.0, tt))

  Any-append : (P : A → Type 0) (xs ys : List A) → Any P (xs ++ ys) → Any P xs ⊎ Any P ys
  Any-append P [] ys h = inr h
  Any-append P (x ∷ xs) ys (inl h) = inl (inl h)
  Any-append P (x ∷ xs) ys (inr h) = elim (Any-append P xs ys h) [
    | inl k ↦ inl (inr k)
    | inr k ↦ inr k
  ]

  pub Any-reverse : (P : A → Type 0) (xs : List A) → Any P (reverse xs) → Any P xs
  Any-reverse P [] h = h
  Any-reverse P (x ∷ xs) h = elim (Any-append P (reverse xs) (x ∷ []) (rw reverse-cons at h)) [
    | inl k ↦ inr (Any-reverse P xs k)
    | inr (inl k) ↦ inl k
    | inr (inr k) ↦ absurd k
  ]

abbrev pub Ranked : NzbInfo → NzbInfo → Type 0
Ranked n m = rank m.priority ≤ rank n.priority

-- Nothing that follows has a higher priority.
abbrev pub Falling : List NzbInfo → Type 0
Falling [] = Unit {0}
Falling (n ∷ ns) = All (Ranked n) ns × Falling ns

-- Nothing that follows has a lower priority.
abbrev pub Rising : List NzbInfo → Type 0
Rising [] = Unit {0}
Rising (n ∷ ns) = All (λ m. Ranked m n) ns × Rising ns

module _ (P : NzbInfo → Type 0) where
  All-insert : (n : NzbInfo) (ms : List NzbInfo) → P n → All P ms → All P (insert_by_rank n ms)
  All-insert n [] p h = (p, tt)
  All-insert n (m ∷ ms) p h = elim (Bool-cases (leb (rank n.priority) (rank m.priority))) [
    | inl e ↦ rw e (p, h)
    | inr e ↦ rw e (h.0, All-insert n ms p h.1)
  ]

  pub All-sort : (ns : List NzbInfo) → All P ns → All P (sort_by_rank ns)
  All-sort [] h = tt
  All-sort (n ∷ ns) h = All-insert n (sort_by_rank ns) h.0 (All-sort ns h.1)

  Any-insert : (n : NzbInfo) (ms : List NzbInfo) → Any P (insert_by_rank n ms) → P n ⊎ Any P ms
  Any-insert n [] h = h
  Any-insert n (m ∷ ms) h = elim (Bool-cases (leb (rank n.priority) (rank m.priority))) [
    | inl e ↦ rw e at h
    | inr e ↦ elim (rw e at h) [
      | inl p ↦ inr (inl p)
      | inr r ↦ elim (Any-insert n ms r) [ inl p ↦ inl p | inr k ↦ inr (inr k) ]
    ]
  ]

  pub Any-sort : (ns : List NzbInfo) → Any P (sort_by_rank ns) → Any P ns
  Any-sort [] h = h
  Any-sort (n ∷ ns) h = elim (Any-insert n (sort_by_rank ns) h) [
    | inl p ↦ inl p
    | inr k ↦ inr (Any-sort ns k)
  ]

insert-Rising : (n : NzbInfo) (ms : List NzbInfo) → Rising ms → Rising (insert_by_rank n ms)
insert-Rising n [] h = (tt, tt)
insert-Rising n (m ∷ ms) h = elim (Bool-cases (leb (rank n.priority) (rank m.priority))) [
  | inl e ↦
      let le : rank n.priority ≤ rank m.priority = ground arith in
      rw e (((le, All-weaken (λ k. Ranked k m) (λ k. Ranked k n) ms (λ k g. omega arith) h.0), h))
  | inr e ↦
      let le : rank m.priority ≤ rank n.priority = ground arith in
      rw e (All-insert (λ k. Ranked k m) n ms le h.0, insert-Rising n ms h.1)
]

sort-Rising : (ns : List NzbInfo) → Rising (sort_by_rank ns)
sort-Rising [] = tt
sort-Rising (n ∷ ns) = insert-Rising n (sort_by_rank ns) (sort-Rising ns)

Falling-snoc :
    (ns : List NzbInfo) (n : NzbInfo)
    → Falling ns
    → All (λ m. Ranked m n) ns
    → Falling (ns ++ n ∷ [])
Falling-snoc [] n f h = (tt, tt)
Falling-snoc (m ∷ ms) n f h =
    (All-append (Ranked m) ms (n ∷ []) f.0 (h.0, tt), Falling-snoc ms n f.1 h.1)

reverse-Falling : (ns : List NzbInfo) → Rising ns → Falling (reverse ns)
reverse-Falling [] h = tt
reverse-Falling (n ∷ ns) h =
    rw reverse-cons
      (Falling-snoc (reverse ns) n (reverse-Falling ns h.1) (All-reverse (λ m. Ranked m n) ns h.0))

-- The order in which the downloads are asked.
pub asked-Falling : (ns : List NzbInfo) → Falling (reverse (sort_by_rank ns))
asked-Falling ns = reverse-Falling (sort_by_rank ns) (sort-Rising ns)

-- A download that gives an answer no lower in priority than any other that has one.
abbrev pub Best {κ} : {B : Type κ} → (NzbInfo → Option B) → B → List NzbInfo → NzbInfo → Type κ
Best f b ns n = (f n ≡ some b) × All (λ m. is_some (f m) ≡ true → Ranked n m) ns

module _ {B : Type 0} (f : NzbInfo → Option B) where
  first_some-All :
      (ns : List NzbInfo) (n : NzbInfo)
      → All (Ranked n) ns
      → All (λ m. is_some (f m) ≡ true → Ranked n m) ns
  first_some-All [] n h = tt
  first_some-All (m ∷ ms) n h = ((λ _. h.0), first_some-All ms n h.1)

  silent : (n : NzbInfo) → f n ≡ none → is_some (f n) ≡ true → ⊥
  silent n q a = cc

  first_some-Best :
      (ns : List NzbInfo) (b : B) → Falling ns → first_some f ns ≡ some b → Any (Best f b ns) ns
  first_some-Best [] b h e = cc
  first_some-Best (n ∷ ns) b h e = elim (Option-cases (f n)) [
    | inl q ↦ inr (
        Any-weaken (Best f b ns) (Best f b (n ∷ ns)) ns
          (λ m g. (g.0, ((λ a. absurd (silent n q a)), g.1)))
          (first_some-Best ns b h.1 (rw (q, first_some) at e)))
    | inr (b', q) ↦ inl (ground arith, ((λ _. omega arith), first_some-All ns n h.0))
  ]

  pub first_some-none : (ns : List NzbInfo) → first_some f ns ≡ none → All (λ n. f n ≡ none) ns
  first_some-none [] e = tt
  first_some-none (n ∷ ns) e = elim (Option-cases (f n)) [
    | inl q ↦ (q, first_some-none ns (rw (q, first_some) at e))
    | inr (b, q) ↦ absurd (let r = rw (q, first_some) at e in cc)
  ]

All-unreverse : (P : NzbInfo → Type 0) (ns : List NzbInfo) → All P (reverse ns) → All P ns
All-unreverse P ns h = rw reverse-reverse at (All-reverse P (reverse ns) h)

module _ (P : NzbInfo → Type 0) where
  All-uninsert : (n : NzbInfo) (ms : List NzbInfo) → All P (insert_by_rank n ms) → P n × All P ms
  All-uninsert n [] h = h
  All-uninsert n (m ∷ ms) h = elim (Bool-cases (leb (rank n.priority) (rank m.priority))) [
    | inl e ↦ rw e at h
    | inr e ↦ let k = rw e at h in let r = All-uninsert n ms k.1 in (r.0, (k.0, r.1))
  ]

  All-unsort : (ns : List NzbInfo) → All P (sort_by_rank ns) → All P ns
  All-unsort [] h = tt
  All-unsort (n ∷ ns) h = let r = All-uninsert n (sort_by_rank ns) h in (r.0, All-unsort ns r.1)

module _ {B : Type 0} (f : NzbInfo → Option B) (ns : List NzbInfo) where
  abbrev asked : List NzbInfo
  asked = reverse (sort_by_rank ns)

  -- Of the downloads that answer, one of the highest priority is taken.
  pub asked-Best : (b : B) → first_some f asked ≡ some b → Any (Best f b ns) ns
  asked-Best b e =
      Any-weaken (Best f b asked) (Best f b ns) ns
        (λ n g. (g.0, All-unsort _ ns (All-unreverse _ (sort_by_rank ns) g.1)))
        (Any-sort _ ns
          (Any-reverse _ (sort_by_rank ns) (first_some-Best f asked b (asked-Falling ns) e)))

  pub asked-none : first_some f asked ≡ none → All (λ n. f n ≡ none) ns
  asked-none e = All-unsort _ ns (All-unreverse _ (sort_by_rank ns) (first_some-none f asked e))

insert-snoc :
    (n b : NzbInfo) (ms : List NzbInfo)
    → Ranked b n
    → insert_by_rank n (ms ++ b ∷ []) ≡ insert_by_rank n ms ++ b ∷ []
insert-snoc n b [] h = ground arith
insert-snoc n b (m ∷ ms) h = ground (arith, insert-snoc n b ms h)

sort-snoc :
    (ns : List NzbInfo) (b : NzbInfo)
    → All (Ranked b) ns
    → sort_by_rank (ns ++ b ∷ []) ≡ sort_by_rank ns ++ b ∷ []
sort-snoc [] b h = refl
sort-snoc (n ∷ ns) b h = rw (sort-snoc ns b h.1) (insert-snoc n b (sort_by_rank ns) h.0)

-- The last download is asked first where none has a higher priority.
pub asked_snoc :
    (ns : List NzbInfo) (b : NzbInfo)
    → All (Ranked b) ns
    → reverse (sort_by_rank (ns ++ b ∷ [])) ≡ b ∷ reverse (sort_by_rank ns)
asked_snoc ns b h = rw (sort-snoc ns b h) (reverse-append (sort_by_rank ns) (b ∷ []))
