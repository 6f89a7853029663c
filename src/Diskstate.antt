-- ===== src/Diskstate.antt =====
-- crates/bergamot-diskstate/src/lib.rs: which articles of a file are downloaded, as it is kept on
-- disk: `FileArticleState`, and the methods of `DiskState` on a file's state and its log.
pub mod Marks
pub mod Log
mod Tests
use bergamot.Prelude.{
  zero, ℕ, suc, ◌+◌, ◌-◌, ◌*◌, ◌/◌, ◌%◌, ◌^◌, ◌≡◌, Bool, true, false, List, [], ◌∷◌, ◌++◌, Option,
  none, some, arith, length, get_elem?, ltb, if◌then◌else◌,
}
use bergamot.Prelude.Bits.{test_bit, set_bit, count_ones}
use bergamot.Prelude.Find.{modify_at, sum_by}
use bergamot.Prelude.Map.{number_eq, insert}

pub record FileArticleState : Type 0 where
  pub file_id : ℕ
  pub total_articles : ℕ
  pub completed : List ℕ
  pub article_crcs : List (ℕ × ℕ)

abbrev pub zeros : ℕ → List ℕ
zeros zero = []
zeros (suc n) = 0 ∷ zeros n

unfoldable pub new_state : ℕ → ℕ → FileArticleState
new_state file_id total_articles = record {
  file_id = file_id;
  total_articles = total_articles;
  completed = zeros ((total_articles + 7) / 8);
  article_crcs = [];
}

-- A bit of a byte that is there.
abbrev pub bit_of : ℕ → Option ℕ → Bool
bit_of bit none = false
bit_of bit (some value) = test_bit bit value

unfoldable pub is_article_done : ℕ → FileArticleState → Bool
is_article_done index s = bit_of (index % 8) (get_elem? s.completed (index / 8))

-- `resize`, to a length that leaves room for a byte.
abbrev pub with_room : ℕ → List ℕ → List ℕ
with_room byte bytes =
    if ltb byte (length bytes) then bytes else bytes ++ zeros (byte + 1 - length bytes)

unfoldable pub mark_article_done : ℕ → ℕ → FileArticleState → FileArticleState
mark_article_done index crc s = record s {
  completed = modify_at (index / 8) (set_bit (index % 8)) (with_room (index / 8) s.completed);
  article_crcs = insert index crc s.article_crcs;
}

unfoldable pub completed_count : FileArticleState → ℕ
completed_count s = sum_by (count_ones 8) s.completed

-- Marks one article after the other.
unfoldable pub mark_all : List (ℕ × ℕ) → FileArticleState → FileArticleState
unfolding mark_article_done
mark_all [] s = s
mark_all ((index, crc) ∷ es) s = mark_all es (mark_article_done index crc s)

-- `u32::to_le_bytes` and `u32::from_le_bytes`.
unfoldable pub to_le_bytes : ℕ → List ℕ
to_le_bytes n = n % 256 ∷ n / 256 % 256 ∷ n / 65536 % 256 ∷ n / 16777216 % 256 ∷ []

unfoldable pub from_le_bytes : ℕ → ℕ → ℕ → ℕ → ℕ
from_le_bytes a b c d = a + 256 * b + 65536 * c + 16777216 * d

unfoldable pub wal_bytes : List (ℕ × ℕ) → List ℕ
unfolding to_le_bytes
wal_bytes [] = []
wal_bytes ((index, crc) ∷ es) = to_le_bytes index ++ (to_le_bytes crc ++ wal_bytes es)

-- Reads record after record; what is left over, fewer than eight bytes, is dropped.
unfoldable pub replay : List ℕ → FileArticleState → FileArticleState
unfolding from_le_bytes mark_article_done
replay (a ∷ b ∷ c ∷ d ∷ e ∷ f ∷ g ∷ h ∷ rest) s =
    replay rest (mark_article_done (from_le_bytes a b c d) (from_le_bytes e f g h) s)
replay bytes s = s

-- How a state is written, the type parameter of `DiskState`: what is written reads back.
pub record StateFormat : Type 0 where
  pub serialize : FileArticleState → List ℕ
  pub deserialize : List ℕ → Option FileArticleState
  pub deserialize-serialize : (s : FileArticleState) → deserialize (serialize s) ≡ some s

-- The bytes of the two files of one file id, where they are there.
pub record FileOnDisk : Type 0 where
  pub state : Option (List ℕ)
  pub wal : Option (List ℕ)

abbrev pub after_log : Option (List ℕ) → FileArticleState → FileArticleState
unfolding replay
after_log none s = s
after_log (some wal_data) s = replay wal_data s

abbrev pub log_with : List ℕ → Option (List ℕ) → List ℕ
log_with bytes none = bytes
log_with bytes (some old) = old ++ bytes

-- One change on disk; a state is written by way of a file that is renamed, all at once.
pub data DiskStep : Type 0 where
  write_state : List ℕ → DiskStep
  remove_state remove_wal : DiskStep

-- A file that is not there counts as removed.
abbrev pub carried_out : DiskStep → FileOnDisk → FileOnDisk
carried_out (write_state bytes) d = record d { state = some bytes }
carried_out remove_state d = record d { state = none }
carried_out remove_wal d = record d { wal = none }

-- Steps in order, up to the first that fails, and whether none did. What the disk holds when a step
-- fails is also what a crash before that step leaves.
unfoldable pub run_steps : (DiskStep → Bool) → List DiskStep → FileOnDisk → FileOnDisk × Bool
run_steps fails [] d = (d, true)
run_steps fails (step ∷ steps) d =
    let after = run_steps fails steps (carried_out step d) in
    if fails step then (d, false) else after

unfoldable pub delete_file_state : (DiskStep → Bool) → FileOnDisk → FileOnDisk × Bool
unfolding run_steps
delete_file_state fails d = run_steps fails (remove_state ∷ remove_wal ∷ []) d

unfoldable pub append_file_wal : List (ℕ × ℕ) → FileOnDisk → FileOnDisk
unfolding wal_bytes
append_file_wal entries d = record d { wal = some (log_with (wal_bytes entries) d.wal) }

module _ (format : StateFormat) where
  unfoldable pub save_file_state :
      (DiskStep → Bool) → FileArticleState → FileOnDisk → FileOnDisk × Bool
  unfolding run_steps
  save_file_state fails s d = run_steps fails (write_state (format.serialize s) ∷ []) d

  abbrev pub read_state : Option (List ℕ) → Option FileArticleState
  read_state none = none
  read_state (some bytes) = format.deserialize bytes

  abbrev pub replayed : Option (List ℕ) → Option FileArticleState → Option FileArticleState
  unfolding replay
  replayed wal none = none
  replayed wal (some s) = some (after_log wal s)

  -- `none` stands for an error: no file, or bytes that do not read.
  unfoldable pub load_file_state : FileOnDisk → Option FileArticleState
  load_file_state d = replayed d.wal (read_state d.state)

  -- `save_file_state`, and unless it fails the log is removed.
  unfoldable pub compact_file_state :
      (DiskStep → Bool) → FileArticleState → FileOnDisk → FileOnDisk × Bool
  unfolding save_file_state run_steps
  compact_file_state fails s d =
      let (saved, ok) = save_file_state fails s d in
      if ok then run_steps fails (remove_wal ∷ []) saved else (saved, false)
