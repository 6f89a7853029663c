-- ===== src/Yenc/Cache.antt =====
-- crates/bergamot-yenc/src/cache.rs: `ArticleCache`. The hash map is a list of entries with
-- different keys, whose order is that of an iteration over the map. A file written to is the list of
-- the writes that were done in full, each an offset and bytes. Which writes fail is an argument.
pub mod Entries
pub mod Size
use bergamot.Prelude.{
  ℕ, suc, ◌+◌, ◌-◌, ◌≡◌, Bool, true, false, ◌&&◌, List, [], ◌∷◌, ◌++◌, Option, none, some,
  if◌then◌else◌, ltb, leb, length,
}
use bergamot.Prelude.Find.{sum_by}
use bergamot.Prelude.Map.{get, remove}
use bergamot.Queue.State.{FileKey, same_file, file_key_eq}
use bergamot.Yenc.Decoder.{DecodedSegment}

abbrev pub Entry : Type 0
Entry = FileKey × List DecodedSegment

pub record ArticleCache : Type 0 where
  pub entries : List Entry
  pub current_size : ℕ
  pub max_size : ℕ

abbrev pub new_cache : ℕ → ArticleCache
new_cache max_size = record { entries = []; current_size = 0; max_size = max_size }

abbrev pub segment_size : DecodedSegment → ℕ
segment_size seg = length seg.bytes

abbrev pub entry_size : Entry → ℕ
entry_size (key, segs) = sum_by segment_size segs

-- `entry(key).or_default().push(segment)`.
unfoldable pub push_segment : FileKey → DecodedSegment → List Entry → List Entry
push_segment key seg [] = (key, seg ∷ []) ∷ []
push_segment key seg ((k, segs) ∷ rest) =
    if same_file k key then (k, segs ++ seg ∷ []) ∷ rest else (k, segs) ∷ push_segment key seg rest

-- `max_by_key`, which keeps the last of several greatest.
abbrev pub larger : Entry → Option Entry → Entry
larger e none = e
larger e (some m) = if leb (entry_size e) (entry_size m) then m else e

unfoldable pub largest : List Entry → Option Entry
largest [] = none
largest (e ∷ rest) = some (larger e (largest rest))

abbrev pub without : Option Entry → List Entry → List Entry
without none entries = entries
without (some (key, segs)) entries = remove key entries

unfoldable pub evict_largest : ArticleCache → ArticleCache
unfolding largest
evict_largest c =
    let left = without (largest c.entries) c.entries in
    record c { entries = left; current_size = sum_by entry_size left }

unfoldable pub store : ℕ → ℕ → DecodedSegment → ArticleCache → ArticleCache
unfolding push_segment evict_largest
store nzb_id file_index seg c =
    let stored = record c {
      entries = push_segment (nzb_id, file_index) seg c.entries;
      current_size = c.current_size + segment_size seg;
    } in
    if ltb stored.max_size stored.current_size then evict_largest stored else stored

-- What a flush leaves of the counter, what it has written, and whether all of it was.
pub record Written : Type 0 where
  pub size : ℕ
  pub writes : List (ℕ × List ℕ)
  pub complete : Bool

abbrev pub one_more : DecodedSegment → Written → Written
one_more seg w = record w { writes = (seg.begin - 1, seg.bytes) ∷ w.writes }

-- The loop over the segments of a file; `fails i` says that seeking or writing fails at segment i,
-- and then the loop ends. The counter is lowered after each write.
unfoldable pub write_segments : (ℕ → Bool) → ℕ → List DecodedSegment → ℕ → Written
write_segments fails i [] size = record { size = size; writes = []; complete = true }
write_segments fails i (seg ∷ rest) size =
    let more = one_more seg (write_segments fails (suc i) rest (size - segment_size seg)) in
    if fails i then record { size = size; writes = []; complete = false } else more

abbrev pub flushed :
    (ℕ → Bool)
    → FileKey
    → Option (List DecodedSegment)
    → ArticleCache
    → ArticleCache × List (ℕ × List ℕ) × Bool
unfolding write_segments
flushed fails key none c = (c, [], true)
flushed fails key (some segs) c =
    let w = write_segments fails 0 segs c.current_size in
    (record c { entries = remove key c.entries; current_size = w.size }, w.writes, w.complete)

-- The entry is removed before anything is written. The last part says whether it returns `Ok`.
unfoldable pub flush_file :
    (ℕ → Bool) → ℕ → ℕ → ArticleCache → ArticleCache × List (ℕ × List ℕ) × Bool
unfolding write_segments
flush_file fails nzb_id file_index c =
    flushed fails (nzb_id, file_index) (get (nzb_id, file_index) c.entries) c
