-- ===== src/Diskstate/Tests.antt =====
-- crates/bergamot-diskstate: runs on small inputs, and the witness.
use bergamot.Prelude.{
  ℕ, zero, suc, ◌≡◌, refl, Bool, true, false, List, [], ◌∷◌, ◌++◌, Option, none, some, arith,
}
use bergamot.Prelude.Bits.{test_bit, set_bit, count_ones}
use bergamot.Diskstate.{
  FileArticleState, new_state, is_article_done, mark_article_done, mark_all, completed_count,
  to_le_bytes, wal_bytes, from_le_bytes, replay, StateFormat, FileOnDisk, DiskStep, write_state,
  remove_state, remove_wal, load_file_state, compact_file_state,
}
use bergamot.Diskstate.Log.{Reads, compact_file_state-Reads}

abbrev marked : FileArticleState
unfolding new_state mark_article_done set_bit
marked = mark_article_done 9 7 (mark_article_done 3 5 (new_state 1 10))

marked_bytes : marked.completed ≡ 8 ∷ 2 ∷ []
unfolding marked
marked_bytes = refl

marked_count : completed_count marked ≡ 2
unfolding marked completed_count count_ones
marked_count = refl

past_the_end : is_article_done 100 marked ≡ false
unfolding is_article_done marked
past_the_end = refl

-- A torn record at the end of the log.
abbrev log : List ℕ
unfolding wal_bytes to_le_bytes
log = wal_bytes ((5, 300) ∷ []) ++ 1 ∷ 2 ∷ []

torn_record : is_article_done 5 (replay log marked) ≡ true
unfolding marked log is_article_done replay from_le_bytes mark_article_done set_bit test_bit
torn_record = refl

-- A format: each byte after a 1, the end as a 0; the checksums in pairs.
abbrev encoded : List ℕ → List ℕ → List ℕ
encoded [] tail = 0 ∷ tail
encoded (v ∷ vs) tail = 1 ∷ v ∷ encoded vs tail

abbrev decoded : List ℕ → List ℕ × List ℕ
decoded [] = ([], [])
decoded (zero ∷ tail) = ([], tail)
decoded (suc k ∷ []) = ([], [])
decoded (suc k ∷ v ∷ tail) = let rest = decoded tail in (v ∷ rest.0, rest.1)

decoded-encoded : (vs tail : List ℕ) → decoded (encoded vs tail) ≡ (vs, tail)
decoded-encoded [] tail = refl
decoded-encoded (v ∷ vs) tail = rw (decoded-encoded vs tail) refl

abbrev flat : List (ℕ × ℕ) → List ℕ
flat [] = []
flat ((i, crc) ∷ es) = i ∷ crc ∷ flat es

abbrev paired : List ℕ → List (ℕ × ℕ)
paired [] = []
paired (i ∷ []) = []
paired (i ∷ crc ∷ rest) = (i, crc) ∷ paired rest

paired-flat : (es : List (ℕ × ℕ)) → paired (flat es) ≡ es
paired-flat [] = refl
paired-flat ((i, crc) ∷ es) = rw (paired-flat es) refl

abbrev written : FileArticleState → List ℕ
written s = s.file_id ∷ s.total_articles ∷ encoded s.completed (flat s.article_crcs)

abbrev read_back : List ℕ → Option FileArticleState
read_back [] = none
read_back (a ∷ []) = none
read_back (a ∷ b ∷ rest) = some (record {
  file_id = a;
  total_articles = b;
  completed = (decoded rest).0;
  article_crcs = paired (decoded rest).1;
})

read_back-written : (s : FileArticleState) → read_back (written s) ≡ some s
read_back-written s =
    rw (decoded-encoded s.completed (flat s.article_crcs), paired-flat s.article_crcs) refl

abbrev plain : StateFormat
plain = record {
  serialize = written;
  deserialize = read_back;
  deserialize-serialize = read_back-written;
}

abbrev crashed : FileOnDisk
unfolding wal_bytes to_le_bytes marked
crashed = record {
  state = some (written marked);
  wal = some (wal_bytes ((5, 300) ∷ []) ++ 1 ∷ 2 ∷ []);
}

abbrev stays : DiskStep → Bool
stays (write_state bytes) = false
stays remove_state = false
stays remove_wal = true

-- The log cannot be removed.
compact_file_state-Reads_example :
    Reads plain
      (compact_file_state plain stays (mark_all ((5, 300) ∷ []) marked) crashed).0
      (mark_all ((5, 300) ∷ []) marked)
    × ((compact_file_state plain stays (mark_all ((5, 300) ∷ []) marked) crashed).1 ≡ true
        → ((compact_file_state plain stays (mark_all ((5, 300) ∷ []) marked) crashed).0.wal ≡ none)
          × (load_file_state plain
                (compact_file_state plain stays (mark_all ((5, 300) ∷ []) marked) crashed).0
              ≡ some (mark_all ((5, 300) ∷ []) marked)))
unfolding crashed
compact_file_state-Reads_example =
    compact_file_state-Reads plain stays marked ((5, 300) ∷ []) (1 ∷ 2 ∷ [])
      ((omega arith, omega arith), tt) (omega arith) crashed refl refl
