-- ===== src/Diskstate/Marks.antt =====
-- FileArticleState: what marking articles changes for each of them.
use bergamot.Prelude.{
  ℕ, zero, suc, ◌+◌, ◌/◌, ◌%◌, ◌<◌, ◌≡◌, refl, ap, ◌∙◌, ◌-◌, Bool, false, ◌&&◌, ◌||◌, List, [], ◌∷◌,
  ◌++◌, Option, some, arith, length, length-append, get_elem?, ltb, ltb→lt, if◌then◌else◌, ◌==◌,
  Bool-cases, inl, inr,
}
use bergamot.Prelude.Bits.{set_bit, test_bit-zero, test_bit-set_bit}
use bergamot.Prelude.Find.{modify_at}
use bergamot.Prelude.Map.{number_eq, get, get-insert}
use bergamot.Diskstate.{
  FileArticleState, zeros, new_state, is_article_done, bit_of, with_room, mark_article_done,
  mark_all,
}

bit_of-zeros : (j k n : ℕ) → bit_of j (get_elem? (zeros n) k) ≡ false
bit_of-zeros j k zero = refl
bit_of-zeros j zero (suc n) = test_bit-zero j
bit_of-zeros j (suc k) (suc n) = bit_of-zeros j k n

bit_of-append :
    (j k n : ℕ) (bytes : List ℕ)
    → bit_of j (get_elem? (bytes ++ zeros n) k) ≡ bit_of j (get_elem? bytes k)
bit_of-append j k n [] = bit_of-zeros j k n
bit_of-append j zero n (b ∷ bytes) = refl
bit_of-append j (suc k) n (b ∷ bytes) = bit_of-append j k n bytes

bit_of-with_room :
    (j k byte : ℕ) (bytes : List ℕ)
    → bit_of j (get_elem? (with_room byte bytes) k) ≡ bit_of j (get_elem? bytes k)
bit_of-with_room j k byte bytes = elim (Bool-cases (ltb byte (length bytes))) [
  | inl e ↦ rw e refl
  | inr e ↦ rw e (bit_of-append j k _ bytes)
]

length-zeros : (n : ℕ) → length (zeros n) ≡ n
length-zeros zero = refl
length-zeros (suc n) = omega (arith, length-zeros n)

with_room-lt : (byte : ℕ) (bytes : List ℕ) → byte < length (with_room byte bytes)
with_room-lt byte bytes = elim (Bool-cases (ltb byte (length bytes))) [
  | inl e ↦ rw e (ltb→lt byte (length bytes) e)
  | inr e ↦ rw e (
      ground (
        arith,
        length-append bytes (zeros (byte + 1 - length bytes)),
        length-zeros (byte + 1 - length bytes),
      ))
]

bit_of-modify_at :
    (k i j l : ℕ) (bytes : List ℕ)
    → k < length bytes
    → bit_of j (get_elem? (modify_at k (set_bit i) bytes) l)
      ≡ (((k == l) && (i == j)) || bit_of j (get_elem? bytes l))
bit_of-modify_at k i j l [] h = ground arith
bit_of-modify_at zero i j zero (b ∷ bytes) h = test_bit-set_bit i j b
bit_of-modify_at zero i j (suc l) (b ∷ bytes) h = ground arith
bit_of-modify_at (suc k) i j zero (b ∷ bytes) h = ground arith
bit_of-modify_at (suc k) i j (suc l) (b ∷ bytes) h =
    ground (arith, bit_of-modify_at k i j l bytes (omega arith))

split_at_eight : (i j : ℕ) → ((i / 8 == j / 8) && (i % 8 == j % 8)) ≡ (i == j)
split_at_eight i j = ground arith

pub is_article_done-mark_article_done :
    (i crc j : ℕ) (s : FileArticleState)
    → is_article_done j (mark_article_done i crc s) ≡ (i == j || is_article_done j s)
unfolding is_article_done mark_article_done
is_article_done-mark_article_done i crc j s =
    rw
      (
        bit_of-modify_at (i / 8) (i % 8) (j % 8) (j / 8) (with_room (i / 8) s.completed)
            (with_room-lt (i / 8) s.completed),
        split_at_eight i j,
        bit_of-with_room (j % 8) (j / 8) (i / 8) s.completed,
      )
      refl

pub get-mark_article_done :
    (i crc j : ℕ) (s : FileArticleState)
    → get j (mark_article_done i crc s).article_crcs
      ≡ (if i == j then some crc else get j s.article_crcs)
unfolding mark_article_done
get-mark_article_done i crc j s = get-insert i j crc s.article_crcs

pub is_article_done-new_state :
    (file_id total j : ℕ) → is_article_done j (new_state file_id total) ≡ false
unfolding is_article_done new_state
is_article_done-new_state file_id total j = bit_of-zeros (j % 8) (j / 8) ((total + 7) / 8)

-- What the entries say of an article: the checksum of its last entry.
abbrev pub last_entry : ℕ → List (ℕ × ℕ) → Option ℕ → Option ℕ
last_entry j [] old = old
last_entry j ((i, crc) ∷ es) old = last_entry j es (if i == j then some crc else old)

abbrev pub named : ℕ → List (ℕ × ℕ) → Bool
named j [] = false
named j ((i, crc) ∷ es) = i == j || named j es

pub is_article_done-mark_all :
    (j : ℕ) (es : List (ℕ × ℕ)) (s : FileArticleState)
    → is_article_done j (mark_all es s) ≡ (named j es || is_article_done j s)
unfolding mark_all
is_article_done-mark_all j [] s = refl
is_article_done-mark_all j ((i, crc) ∷ es) s =
    let rest = is_article_done-mark_all j es (mark_article_done i crc s) in
    let first = is_article_done-mark_article_done i crc j s in ground arith

pub get-mark_all :
    (j : ℕ) (es : List (ℕ × ℕ)) (s : FileArticleState)
    → get j (mark_all es s).article_crcs ≡ last_entry j es (get j s.article_crcs)
unfolding mark_all
get-mark_all j [] s = refl
get-mark_all j ((i, crc) ∷ es) s =
    let rest = get-mark_all j es (mark_article_done i crc s) in
    rest ∙ ap (last_entry j es) (get-mark_article_done i crc j s)
