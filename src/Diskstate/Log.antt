-- ===== src/Diskstate/Log.antt =====
-- DiskState: the log of a file's state, and what a crash leaves of it.
use bergamot.Prelude.{
  ℕ, ◌/◌, ◌%◌, ◌^◌, ◌<◌, ◌≡◌, refl, ap, Bool, true, none, List, [], ◌∷◌, ◌++◌, Option, some, arith,
  length, ◌==◌, All, ◌⊎◌, inl, inr, Bool-cases,
}
use bergamot.Prelude.Map.{number_eq, get}
use bergamot.Diskstate.{
  FileArticleState, is_article_done, mark_article_done, mark_all, to_le_bytes, from_le_bytes,
  wal_bytes, replay, StateFormat, FileOnDisk, replayed, load_file_state, DiskStep, write_state,
  remove_wal, compact_file_state,
}
use bergamot.Diskstate.Marks.{last_entry, is_article_done-mark_all, get-mark_all}

pub from_le_bytes-to_le_bytes :
    (n : ℕ)
    → n < 2 ^ 32
    → from_le_bytes (n % 256) (n / 256 % 256) (n / 65536 % 256) (n / 16777216 % 256) ≡ n
unfolding from_le_bytes
from_le_bytes-to_le_bytes n h = omega arith

-- Both numbers of an entry are of type u32.
abbrev pub EntryFits : ℕ × ℕ → Type 0
EntryFits e = (e.0 < 2 ^ 32) × (e.1 < 2 ^ 32)

replay-short : (torn : List ℕ) (s : FileArticleState) → length torn < 8 → replay torn s ≡ s
unfolding replay
replay-short [] s h = refl
replay-short (a ∷ []) s h = refl
replay-short (a ∷ b ∷ []) s h = refl
replay-short (a ∷ b ∷ c ∷ []) s h = refl
replay-short (a ∷ b ∷ c ∷ d ∷ []) s h = refl
replay-short (a ∷ b ∷ c ∷ d ∷ e ∷ []) s h = refl
replay-short (a ∷ b ∷ c ∷ d ∷ e ∷ f ∷ []) s h = refl
replay-short (a ∷ b ∷ c ∷ d ∷ e ∷ f ∷ g ∷ []) s h = refl
replay-short (a ∷ b ∷ c ∷ d ∷ e ∷ f ∷ g ∷ x ∷ rest) s h = ground arith

-- A record that was not written in full is dropped.
pub replay-wal_bytes :
    (es : List (ℕ × ℕ)) (torn : List ℕ) (s : FileArticleState)
    → All EntryFits es
    → length torn < 8
    → replay (wal_bytes es ++ torn) s ≡ mark_all es s
unfolding wal_bytes to_le_bytes replay mark_all
replay-wal_bytes [] torn s fits short = replay-short torn s short
replay-wal_bytes ((i, crc) ∷ es) torn s fits short =
    rw (from_le_bytes-to_le_bytes i fits.0.0, from_le_bytes-to_le_bytes crc fits.0.1)
      (replay-wal_bytes es torn (mark_article_done i crc s) fits.1 short)

-- Two states that agree on every article: whether it is downloaded, and its checksum.
abbrev pub Agree : FileArticleState → FileArticleState → Type 0
Agree s t =
    (j : ℕ)
    → (is_article_done j s ≡ is_article_done j t) × (get j s.article_crcs ≡ get j t.article_crcs)

last_entry-twice :
    (j : ℕ) (es : List (ℕ × ℕ)) (old new : Option ℕ)
    → (last_entry j es new ≡ last_entry j es old) ⊎ (last_entry j es old ≡ old)
last_entry-twice j [] old new = inr refl
last_entry-twice j ((i, crc) ∷ es) old new = elim (Bool-cases (i == j)) [
  | inl e ↦ inl (rw e refl)
  | inr e ↦ rw e (last_entry-twice j es old new)
]

last_entry-last_entry :
    (j : ℕ) (es : List (ℕ × ℕ)) (old : Option ℕ)
    → last_entry j es (last_entry j es old) ≡ last_entry j es old
last_entry-last_entry j es old = elim (last_entry-twice j es old (last_entry j es old)) [
  | inl e ↦ e
  | inr e ↦ ap (last_entry j es) e
]

-- To mark articles again changes nothing.
pub mark_all-twice :
    (es : List (ℕ × ℕ)) (s : FileArticleState) → Agree (mark_all es (mark_all es s)) (mark_all es s)
mark_all-twice es s j =
    let again = is_article_done-mark_all j es (mark_all es s) in
    let once = is_article_done-mark_all j es s in
    let crcs = last_entry-last_entry j es (get j s.article_crcs) in
    (ground arith, rw (get-mark_all j es (mark_all es s), get-mark_all j es s) crcs)

-- What is on disk reads, and agrees with a state.
pub record Reads (format : StateFormat) (d : FileOnDisk) (t : FileArticleState) : Type 0 where
  pub found : FileArticleState
  pub reads : load_file_state format d ≡ some found
  pub agrees : Agree found t

module _ (format : StateFormat) (s : FileArticleState) (es : List (ℕ × ℕ)) (torn : List ℕ)
    (fits : All EntryFits es) (short : length torn < 8) (d : FileOnDisk)
    (wal : d.wal ≡ some (wal_bytes es ++ torn)) where
  -- A state that was saved is read with the entries of the log.
  reads_log :
      (t : FileArticleState)
      → d.state ≡ some (format.serialize t)
      → load_file_state format d ≡ some (mark_all es t)
  unfolding load_file_state replayed mark_all
  reads_log t h =
      rw (wal, h, format.deserialize-serialize t, replay-wal_bytes es torn t fits short) refl

-- A state that holds what the log says is written, and the log is removed. Whichever step fails, or
-- wherever a crash ends it, the file still reads as a state that agrees with the one to be written;
-- and if it returns `Ok`, the log is gone and the file reads as just that state. The entries of the
-- log are numbers of type u32, and the log may end in a record that was not written in full.
pub compact_file_state-Reads :
    (format : StateFormat) (fails : DiskStep → Bool) (s : FileArticleState) (es : List (ℕ × ℕ))
    (torn : List ℕ)
    → All EntryFits es
    → length torn < 8
    → (d : FileOnDisk) → d.state ≡ some (format.serialize s)
    → d.wal ≡ some (wal_bytes es ++ torn)
    → Reads format (compact_file_state format fails (mark_all es s) d).0 (mark_all es s)
      × ((compact_file_state format fails (mark_all es s) d).1 ≡ true
          → ((compact_file_state format fails (mark_all es s) d).0.wal ≡ none)
            × (load_file_state format (compact_file_state format fails (mark_all es s) d).0
                ≡ some (mark_all es s)))
unfolding compact_file_state load_file_state replayed
compact_file_state-Reads format fails s es torn fits short d state wal =
    let t = mark_all es s in
    let saved = record d { state = some (format.serialize t) } in
    elim (Bool-cases (fails (write_state (format.serialize t)))) [
      | inl e ↦ rw e (
        record {
          found = t;
          reads = reads_log format s es torn fits short d wal s state;
          agrees = λ j. (refl, refl);
        },
        λ h. cc,
      )
      | inr e ↦ elim (Bool-cases (fails remove_wal)) [
        | inl r ↦
            rw (e, r)
              (
                record {
                  found = mark_all es t;
                  reads = reads_log format s es torn fits short saved wal t refl;
                  agrees = mark_all-twice es s;
                },
                λ h. cc,
              )
        | inr r ↦
            let back = format.deserialize-serialize t in
            rw (e, r)
              (
                record { found = t; reads = rw back refl; agrees = λ j. (refl, refl) },
                λ h. (refl, rw back refl),
              )
      ]
    ]
