-- ===== src/Yenc/Decoder.antt =====
-- crates/bergamot-yenc/src/decode.rs: `YencDecoder`; model.rs. A method returns the decoder beside
-- its result, since an error leaves the fields changed that were set before it. The arithmetic on
-- u64 wraps around, as in a release build.
pub mod Segments
pub mod Transfer
use bergamot.Prelude.{
  ℕ, zero, suc, ◌+◌, ◌-◌, ◌%◌, ◌^◌, ◌≡◌, Bool, true, false, ◌&&◌, not, List, [], ◌∷◌, ◌++◌, Option,
  none, some, if◌then◌else◌, ltb, ◌==◌, length, is_some,
}
use bergamot.Prelude.Map.{get}
use bergamot.Text.{text_eq, Text, codes, starts_with}
use bergamot.Yenc.Fields.{
  part_level, YencError, missing_field, crc_mismatch, unexpected_end, size_overflow, Outcome, ok,
  err, Fields, parse_key_values, parse_u64, parse_u32, parse_hex_u32,
}
use bergamot.Yenc.Line.{decode_yenc_line}

pub data DecoderState : Type 0 where
  waiting_for_header waiting_for_part decoding_body finished : DecoderState
  error : YencError → DecoderState

pub record DecodedSegment : Type 0 where
  pub begin : ℕ
  pub end : ℕ
  pub bytes : List ℕ
  pub crc32 : ℕ

-- The checksum library's `Hasher`: a checksum that is fed in pieces. Pieces count as what they make
-- together.
pub record Hashing (H : Type 0) : Type 0 where
  pub start : H
  pub update : H → List ℕ → H
  pub finalize : H → ℕ
  pub update-nil : (h : H) → update h [] ≡ h
  pub update-append : (h : H) (a b : List ℕ) → update (update h a) b ≡ update h (a ++ b)

pub record YencDecoder (H : Type 0) : Type 0 where
  pub state : DecoderState
  pub filename : Text
  pub file_size : ℕ
  pub part_number : Option ℕ
  pub part_begin : Option ℕ
  pub part_end : Option ℕ
  pub part_crc : H
  pub decoded : List ℕ

abbrev pub or_one : Option ℕ → ℕ
or_one none = 1
or_one (some n) = n

abbrev pub ready : {A : Type 0} → Option A → DecoderState
ready none = decoding_body
ready (some a) = waiting_for_part

-- `end - begin + 1`, the size that the part header declares.
unfoldable pub declared : ℕ → Option ℕ → ℕ
declared end begin = (end + 2 ^ 64 - or_one begin + 1) % 2 ^ 64

abbrev pub too_long : {H : Type 0} → YencDecoder H → Bool
unfolding declared
too_long d = elim d.part_end [
  | none ↦ false
  | some end ↦ ltb (declared end d.part_begin) (length d.decoded)
]

abbrev pub or_nothing : Option (List ℕ) → List ℕ
or_nothing none = []
or_nothing (some bytes) = bytes

-- The bytes that `decode_yenc_line` appends; it always ends.
unfoldable pub appended : Bool → List ℕ → List ℕ
appended simd line = or_nothing (decode_yenc_line simd line)

abbrev pub check_size : Option Text → Option ℕ → ℕ → Outcome (Option ℕ)
check_size none crc len = ok crc
check_size (some value) crc len = elim (parse_u64 (codes "size") value) [
  | err e ↦ err e
  | ok n ↦ if n == len then ok crc else err size_overflow
]

abbrev pub check_end : Option Text → Option Text → ℕ → Outcome (Option ℕ)
check_end none size len = check_size size none len
check_end (some value) size len = elim (parse_hex_u32 (codes "pcrc32") value) [
  | err e ↦ err e
  | ok crc ↦ check_size size (some crc) len
]

module _ {H : Type 0} where
  abbrev pub begin_part : Option Text → YencDecoder H → YencDecoder H × Outcome (Unit {0})
  begin_part none d = (record d { part_number = none }, ok tt)
  begin_part (some value) d = elim (parse_u32 (codes "part") value) [
    | err e ↦ (d, err e)
    | ok n ↦ (record d { part_number = some n }, ok tt)
  ]

  abbrev pub begin_file :
      Option Text → Option Text → Option Text → YencDecoder H → YencDecoder H × Outcome (Unit {0})
  begin_file none name number d = (d, err (missing_field (codes "size")))
  begin_file (some size) none number d = (d, err (missing_field (codes "name")))
  begin_file (some size) (some name) number d = elim (parse_u64 (codes "size") size) [
    | err e ↦ (d, err e)
    | ok n ↦ begin_part number (record d { file_size = n; filename = name })
  ]

  unfoldable pub parse_ybegin : List ℕ → YencDecoder H → YencDecoder H × Outcome (Unit {0})
  unfolding parse_key_values parse_u64 parse_u32
  parse_ybegin line d = elim (parse_key_values line) [
    | err e ↦ (d, err e)
    | ok fields ↦
        begin_file (get (codes "size") fields) (get (codes "name") fields)
          (get (codes "part") fields) d
  ]

  abbrev pub end_part : Text → YencDecoder H → YencDecoder H × Outcome (Unit {0})
  end_part end d = elim (parse_u64 (codes "end") end) [
    | err e ↦ (d, err e)
    | ok n ↦ (record d { part_end = some n }, ok tt)
  ]

  abbrev pub place_part :
      Option Text → Option Text → YencDecoder H → YencDecoder H × Outcome (Unit {0})
  place_part none end d = (d, err (missing_field (codes "begin")))
  place_part (some begin) none d = (d, err (missing_field (codes "end")))
  place_part (some begin) (some end) d = elim (parse_u64 (codes "begin") begin) [
    | err e ↦ (d, err e)
    | ok n ↦ end_part end (record d { part_begin = some n })
  ]

  unfoldable pub parse_ypart : List ℕ → YencDecoder H → YencDecoder H × Outcome (Unit {0})
  unfolding parse_key_values parse_u64
  parse_ypart line d = elim (parse_key_values line) [
    | err e ↦ (d, err e)
    | ok fields ↦ place_part (get (codes "begin") fields) (get (codes "end") fields) d
  ]

  unfoldable pub parse_yend : List ℕ → YencDecoder H → Outcome (Option ℕ)
  unfolding parse_key_values parse_u64 parse_hex_u32
  parse_yend line d = elim (parse_key_values line) [
    | err e ↦ err e
    | ok fields ↦
        check_end (get (codes "pcrc32") fields) (get (codes "size") fields) (length d.decoded)
  ]

abbrev pub take_body :
    {H : Type 0} → YencDecoder H → YencDecoder H × Outcome (Option DecodedSegment)
take_body d = if too_long d then (d, err size_overflow) else (d, ok none)

abbrev pub end_or_rest : Option ℕ → ℕ → ℕ → ℕ
end_or_rest none begin len = (begin + len + 2 ^ 64 - 1) % 2 ^ 64
end_or_rest (some end) begin len = end

abbrev pub agrees : Option ℕ → ℕ → Bool
agrees none actual = true
agrees (some expected) actual = expected == actual

abbrev pub or_zero : Option ℕ → ℕ
or_zero none = 0
or_zero (some n) = n

module _ {H : Type 0} (hashing : Hashing H) where
  abbrev pub new_decoder : YencDecoder H
  new_decoder = record {
    state = waiting_for_header;
    filename = [];
    file_size = 0;
    part_number = none;
    part_begin = none;
    part_end = none;
    part_crc = hashing.start;
    decoded = [];
  }

  unfoldable pub finalize_segment :
      Option ℕ → YencDecoder H → YencDecoder H × Outcome (Option DecodedSegment)
  finalize_segment expected d =
      let actual = hashing.finalize d.part_crc in
      let begin = or_one d.part_begin in
      if length d.decoded == 0
      then (d, err unexpected_end)
      else if not (agrees expected actual)
      then (d, err (crc_mismatch (or_zero expected) actual part_level))
      else (
        record d { decoded = []; part_crc = hashing.start },
        ok (
            some (record {
              begin = begin;
              end = end_or_rest d.part_end begin (length d.decoded);
              bytes = d.decoded;
              crc32 = actual;
            })),
      )

  -- After the header has been parsed: the new state, and nothing to hand out.
  abbrev pub enter_if_ok :
      DecoderState
      → YencDecoder H × Outcome (Unit {0})
      → YencDecoder H × Outcome (Option DecodedSegment)
  enter_if_ok s (d, err e) = (d, err e)
  enter_if_ok s (d, ok u) = (record d { state = s }, ok none)

  abbrev pub finish :
      YencDecoder H → Outcome (Option ℕ) → YencDecoder H × Outcome (Option DecodedSegment)
  unfolding finalize_segment
  finish d (err e) = (d, err e)
  finish d (ok expected) = finalize_segment expected (record d { state = finished })

  unfoldable pub decode_yenc_line_into : Bool → List ℕ → YencDecoder H → YencDecoder H
  unfolding appended
  decode_yenc_line_into simd line d = record d {
    decoded = d.decoded ++ appended simd line;
    part_crc = hashing.update d.part_crc (appended simd line);
  }

  abbrev pub by_state :
      DecoderState → Bool → List ℕ → YencDecoder H → YencDecoder H × Outcome (Option DecodedSegment)
  unfolding parse_ybegin parse_ypart parse_yend finalize_segment decode_yenc_line_into declared
  by_state waiting_for_header simd line d =
      if starts_with (codes "=ybegin ") line
      then (let (d', r) = parse_ybegin line d in enter_if_ok (ready d'.part_number) (d', r))
      else (d, ok none)
  by_state waiting_for_part simd line d =
      if starts_with (codes "=ypart ") line
      then enter_if_ok decoding_body (parse_ypart line d)
      else (d, ok none)
  by_state decoding_body simd line d =
      if starts_with (codes "=yend ") line
      then finish d (parse_yend line d)
      else take_body (decode_yenc_line_into simd line d)
  by_state finished simd line d = (d, ok none)
  by_state (error e) simd line d = (d, err e)

  unfoldable pub decode_line :
      Bool → List ℕ → YencDecoder H → YencDecoder H × Outcome (Option DecodedSegment)
  unfolding parse_ybegin parse_ypart parse_yend finalize_segment decode_yenc_line_into declared
  decode_line simd line d = by_state d.state simd line d
