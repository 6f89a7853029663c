-- ===== src/Yenc/Cache/Size.antt =====
-- The cache's size counter is right, and within its limit.
use bergamot.Prelude.{
  ℕ, suc, ◌+◌, ◌-◌, ◌≤◌, ◌≡◌, refl, inl, inr, Bool-cases, Option-cases, Bool, true, List, [], ◌∷◌,
  arith, ltb,
}
use bergamot.Prelude.Find.{sum_by}
use bergamot.Prelude.Map.{get}
use bergamot.Queue.State.{FileKey, file_key_eq}
use bergamot.Yenc.Decoder.{DecodedSegment}
use bergamot.Yenc.Cache.{
  ArticleCache, new_cache, segment_size, entry_size, store, write_segments, flush_file,
}
use bergamot.Yenc.Cache.Entries.{
  Distinct, push_segment-sum, push_segment-Distinct, remove-Distinct, remove-sum, evicted,
}

-- The counter covers what is in the cache and keeps to the limit.
pub record WellSized (c : ArticleCache) : Type 0 where
  pub covered : sum_by entry_size c.entries ≤ c.current_size
  pub bounded : c.current_size ≤ c.max_size
  pub distinct : Distinct c.entries

-- A flush lowers the counter by the sizes of what it writes, and by no more.
write_segments-size :
    (fails : ℕ → Bool) (i : ℕ) (segs : List DecodedSegment) (n : ℕ)
    → (n - sum_by segment_size segs ≤ (write_segments fails i segs n).size)
      × ((write_segments fails i segs n).size ≤ n)
      × ((write_segments fails i segs n).complete ≡ true
          → (write_segments fails i segs n).size ≡ n - sum_by segment_size segs)
unfolding write_segments
write_segments-size fails i [] n = (omega arith, omega arith, λ h. omega arith)
write_segments-size fails i (seg ∷ rest) n =
    let (lo, hi, exact) = write_segments-size fails (suc i) rest (n - segment_size seg) in
    elim (Bool-cases (fails i)) [
      | inl e ↦ rw e (omega arith, omega arith, λ h. cc)
      | inr e ↦ rw e (omega arith, omega arith, λ h. let q = exact h in omega arith)
    ]

abbrev Exact : ArticleCache → Type 0
Exact c = c.current_size ≡ sum_by entry_size c.entries

store-WellSized :
    (nzb_id file_index : ℕ) (seg : DecodedSegment) (c : ArticleCache)
    → WellSized c
    → WellSized (store nzb_id file_index seg c) × (Exact c → Exact (store nzb_id file_index seg c))
unfolding store
store-WellSized nzb_id file_index seg c w =
    let key : FileKey = (nzb_id, file_index) in
    let more = push_segment-sum key seg c.entries in
    let k = w.covered in
    let b = w.bounded in
    elim (Bool-cases (ltb c.max_size (c.current_size + segment_size seg))) [
      | inl e ↦
          let (le, d) = evicted key seg c.entries _ w.distinct refl in
          rw e (record { covered = omega arith; bounded = omega arith; distinct = d }, λ x. refl)
      | inr e ↦ rw e (
        record {
          covered = omega arith;
          bounded = ground arith;
          distinct = push_segment-Distinct key seg c.entries w.distinct;
        },
        λ x. omega arith,
      )
    ]

flush_file-WellSized :
    (fails : ℕ → Bool) (nzb_id file_index : ℕ) (c : ArticleCache)
    → WellSized c
    → WellSized (flush_file fails nzb_id file_index c).0
      × (Exact c
          → (flush_file fails nzb_id file_index c).2 ≡ true
          → Exact (flush_file fails nzb_id file_index c).0)
unfolding flush_file
flush_file-WellSized fails nzb_id file_index c w =
    elim (Option-cases (get (nzb_id, file_index) c.entries)) [
      | inl e ↦ rw e (w, λ x h. x)
      | inr (segs, e) ↦
          let gone = remove-sum (nzb_id, file_index) c.entries segs w.distinct e in
          let (lo, hi, exact) = write_segments-size fails 0 segs c.current_size in
          let k = w.covered in
          let b = w.bounded in
          rw e (
            record {
              covered = omega arith;
              bounded = omega arith;
              distinct = remove-Distinct (nzb_id, file_index) c.entries w.distinct;
            },
            λ x h. let q = exact h in omega arith,
          )
    ]

pub data Operation : Type 0 where
  stores : ℕ → ℕ → DecodedSegment → Operation
  flushes : (ℕ → Bool) → ℕ → ℕ → Operation

-- The cache after some operations, the last one first.
abbrev pub after_operations : ℕ → List Operation → ArticleCache
after_operations max_size [] = new_cache max_size
after_operations max_size (stores nzb_id file_index seg ∷ before) =
    store nzb_id file_index seg (after_operations max_size before)
after_operations max_size (flushes fails nzb_id file_index ∷ before) =
    (flush_file fails nzb_id file_index (after_operations max_size before)).0

-- Every flush returned `Ok`.
abbrev pub AllWritten : ℕ → List Operation → Type 0
AllWritten max_size [] = Unit
AllWritten max_size (stores nzb_id file_index seg ∷ before) = AllWritten max_size before
AllWritten max_size (flushes fails nzb_id file_index ∷ before) =
    ((flush_file fails nzb_id file_index (after_operations max_size before)).2 ≡ true)
    × AllWritten max_size before

-- Whatever is stored and flushed, and whichever writes fail, the counter of the cache is at least the
-- size of the segments in it, and it is within the limit: dropping the largest file once always makes
-- enough room. As long as every flush returns `Ok`, the counter is exactly that size.
pub after_operations-WellSized :
    (max_size : ℕ) (ops : List Operation)
    → WellSized (after_operations max_size ops)
      × (AllWritten max_size ops
          → (after_operations max_size ops).current_size
            ≡ sum_by entry_size (after_operations max_size ops).entries)
after_operations-WellSized max_size [] =
    (record { covered = omega arith; bounded = omega arith; distinct = tt }, λ h. refl)
after_operations-WellSized max_size (stores nzb_id file_index seg ∷ before) =
    let (w, exact) = after_operations-WellSized max_size before in
    let (v, keeps) = store-WellSized nzb_id file_index seg _ w in (v, λ h. keeps (exact h))
after_operations-WellSized max_size (flushes fails nzb_id file_index ∷ before) =
    let (w, exact) = after_operations-WellSized max_size before in
    let (v, keeps) = flush_file-WellSized fails nzb_id file_index _ w in
    (v, λ h. keeps (exact h.1) h.0)
