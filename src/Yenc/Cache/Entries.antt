-- ===== src/Yenc/Cache/Entries.antt =====
-- The sizes of the entries of a cache: what a new segment adds, and what an eviction frees.
use bergamot.Prelude.{
  ℕ, ◌+◌, ◌≤◌, ◌≡◌, ◌≢◌, refl, sym, ◌∙◌, ap, inl, inr, true, false, Bool-cases, List, [], ◌∷◌,
  Option, none, some, arith, leb, All, All-weaken, subst,
}
use bergamot.Prelude.Find.{sum_by, sum_by-append}
use bergamot.Prelude.Map.{get, remove}
use bergamot.Queue.State.{FileKey, same_file, same_file_iff, file_key_eq}
use bergamot.Yenc.Decoder.{DecodedSegment}
use bergamot.Yenc.Cache.{Entry, segment_size, entry_size, push_segment, larger, largest, without}

-- No two entries have the same key.
abbrev pub Absent : FileKey → List Entry → Type 0
Absent key = All (λ (e : Entry). same_file e.0 key ≡ false)

abbrev pub Distinct : List Entry → Type 0
Distinct [] = Unit
Distinct ((key, segs) ∷ rest) = Absent key rest × Distinct rest

pub push_segment-sum :
    (key : FileKey) (seg : DecodedSegment) (es : List Entry)
    → sum_by entry_size (push_segment key seg es) ≡ sum_by entry_size es + segment_size seg
unfolding push_segment
push_segment-sum key seg [] = omega arith
push_segment-sum key seg ((k, segs) ∷ rest) =
    ground (arith, push_segment-sum key seg rest, sum_by-append segment_size segs (seg ∷ []))

push_segment-Absent :
    (key k : FileKey) (seg : DecodedSegment) (es : List Entry)
    → same_file key k ≡ false
    → Absent k es
    → Absent k (push_segment key seg es)
unfolding push_segment
push_segment-Absent key k seg [] n h = (n, tt)
push_segment-Absent key k seg ((j, segs) ∷ rest) n h = elim (Bool-cases (same_file j key)) [
  | inl e ↦ rw e h
  | inr e ↦ rw e (h.0, push_segment-Absent key k seg rest n h.1)
]

same_file_sym : (a b : FileKey) → same_file a b ≡ false → same_file b a ≡ false
same_file_sym (a, b) (c, d) h = ground arith

pub push_segment-Distinct :
    (key : FileKey) (seg : DecodedSegment) (es : List Entry)
    → Distinct es
    → Distinct (push_segment key seg es)
unfolding push_segment
push_segment-Distinct key seg [] h = (tt, tt)
push_segment-Distinct key seg ((j, segs) ∷ rest) h = elim (Bool-cases (same_file j key)) [
  | inl e ↦ rw e h
  | inr e ↦ rw e (
    push_segment-Absent key j seg rest (same_file_sym j key e) h.0,
    push_segment-Distinct key seg rest h.1,
  )
]

remove-Absent : (key k : FileKey) (es : List Entry) → Absent k es → Absent k (remove key es)
remove-Absent key k [] h = tt
remove-Absent key k ((j, segs) ∷ rest) h = elim (Bool-cases (same_file j key)) [
  | inl e ↦ rw e (remove-Absent key k rest h.1)
  | inr e ↦ rw e (h.0, remove-Absent key k rest h.1)
]

pub remove-Distinct : (key : FileKey) (es : List Entry) → Distinct es → Distinct (remove key es)
remove-Distinct key [] h = tt
remove-Distinct key ((j, segs) ∷ rest) h = elim (Bool-cases (same_file j key)) [
  | inl e ↦ rw e (remove-Distinct key rest h.1)
  | inr e ↦ rw e (remove-Absent key j rest h.0, remove-Distinct key rest h.1)
]

remove-le :
    (key : FileKey) (es : List Entry) → sum_by entry_size (remove key es) ≤ sum_by entry_size es
remove-le key [] = omega arith
remove-le key ((j, segs) ∷ rest) = ground (arith, remove-le key rest)

remove_missing : (key : FileKey) (es : List Entry) → Absent key es → remove key es ≡ es
remove_missing key [] h = refl
remove_missing key ((j, segs) ∷ rest) h = rw (h.0, remove_missing key rest h.1) refl

-- What a file's segments leave when they go.
pub remove-sum :
    (key : FileKey) (es : List Entry) (segs : List DecodedSegment)
    → Distinct es
    → get key es ≡ some segs
    → sum_by entry_size (remove key es) + sum_by segment_size segs ≡ sum_by entry_size es
remove-sum key [] segs h g = cc
remove-sum key ((j, ss) ∷ rest) segs h g = elim (Bool-cases (same_file j key)) [
  | inl e ↦
      let here = subst (λ k. Absent k rest) ((same_file_iff j key).0 e) h.0 in
      let found : ss ≡ segs = let q = rw e at g in cc in
      rw (e, remove_missing key rest here, found) (omega arith)
  | inr e ↦
      let found = rw e at g in let below = remove-sum key rest segs h.1 found in rw e (omega arith)
]

abbrev AtMost : Entry → List Entry → Type 0
AtMost e = All (λ f. entry_size f ≤ entry_size e)

-- Removing an entry's key frees at least its size.
abbrev Freed : Entry → List Entry → Type 0
Freed e es = sum_by entry_size (remove e.0 es) + entry_size e ≤ sum_by entry_size es

same_file_refl : (k : FileKey) → same_file k k ≡ true
same_file_refl k = (same_file_iff k k).1 refl

Freed-self : (e : Entry) (rest : List Entry) → Freed e (e ∷ rest)
Freed-self (key, segs) rest = let le = remove-le key rest in rw (same_file_refl key) (omega arith)

Freed-cons : (e x : Entry) (rest : List Entry) → Freed e rest → Freed e (x ∷ rest)
Freed-cons (key, segs) (j, ss) rest h = ground arith

largest-cons : (x : Entry) (rest : List Entry) → (e : Entry) × (largest (x ∷ rest) ≡ some e)
unfolding largest
largest-cons x rest = (_, refl)

-- The largest entry is as large as any, and is one that goes.
largest-le : (es : List Entry) (e : Entry) → largest es ≡ some e → AtMost e es × Freed e es
unfolding largest
largest-le [] e q = cc
largest-le (x ∷ []) e q =
    let same : x ≡ e = cc in
    subst (λ f. AtMost f (x ∷ []) × Freed f (x ∷ [])) same ((omega arith, tt), Freed-self x [])
largest-le (x ∷ y ∷ ys) e q =
    let (m, found) = largest-cons y ys in
    let below = largest-le (y ∷ ys) m found in
    let pick : some (larger x (some m)) ≡ some e = ap (λ o. some (larger x o)) (sym found) ∙ q in
    elim (Bool-cases (leb (entry_size x) (entry_size m))) [
      | inl l ↦
          let same : m ≡ e = let p = rw l at pick in cc in
          subst (λ f. AtMost f (x ∷ y ∷ ys) × Freed f (x ∷ y ∷ ys)) same
            ((ground arith, below.0), Freed-cons m x (y ∷ ys) below.1)
      | inr l ↦
          let same : x ≡ e = let p = rw l at pick in cc in
          let less : entry_size m ≤ entry_size x = ground arith in
          subst (λ f. AtMost f (x ∷ y ∷ ys) × Freed f (x ∷ y ∷ ys)) same
            (
              (
                omega arith,
                All-weaken (λ f. entry_size f ≤ entry_size m) (λ f. entry_size f ≤ entry_size x)
                    (y ∷ ys) (λ f k. omega arith) below.0,
              ),
              Freed-self x (y ∷ ys),
            )
    ]

push_segment-largest :
    (key : FileKey) (seg : DecodedSegment) (es : List Entry) (n : ℕ)
    → All (λ f. entry_size f ≤ n) (push_segment key seg es)
    → segment_size seg ≤ n
unfolding push_segment
push_segment-largest key seg [] n h = let le = h.0 in omega arith
push_segment-largest key seg ((j, segs) ∷ rest) n h = elim (Bool-cases (same_file j key)) [
  | inl e ↦
      let k = rw e at h in
      let le = k.0 in let q = sum_by-append segment_size segs (seg ∷ []) in omega arith
  | inr e ↦ let k = rw e at h in push_segment-largest key seg rest n k.1
]

push_segment-cons :
    (key : FileKey) (seg : DecodedSegment) (es : List Entry)
    → largest (push_segment key seg es) ≢ none
unfolding push_segment largest
push_segment-cons key seg [] h = cc
push_segment-cons key seg ((j, segs) ∷ rest) h = elim (Bool-cases (same_file j key)) [
  | inl e ↦ let k = rw e at h in cc
  | inr e ↦ let k = rw e at h in cc
]

-- Evicting after a segment has come leaves no more than there was before it.
pub evicted :
    (key : FileKey) (seg : DecodedSegment) (es : List Entry) (o : Option Entry)
    → Distinct es
    → largest (push_segment key seg es) ≡ o
    → (sum_by entry_size (without o (push_segment key seg es)) ≤ sum_by entry_size es)
      × Distinct (without o (push_segment key seg es))
evicted key seg es none d q = absurd (push_segment-cons key seg es q)
evicted key seg es (some (k, segs)) d q =
    let (most, freed) = largest-le (push_segment key seg es) (k, segs) q in
    let room = push_segment-largest key seg es (entry_size (k, segs)) most in
    let more = push_segment-sum key seg es in
    (omega arith, remove-Distinct k (push_segment key seg es) (push_segment-Distinct key seg es d))
