-- ===== src/Yenc/Decoder/Segments.antt =====
-- What a segment that the decoder hands out has been checked for.
use bergamot.Prelude.{
  ℕ, ◌≡◌, refl, sym, ap, ◌∙◌, ◌≢◌, ◌⊎◌, inl, inr, Bool, true, Bool-cases, ◌==◌, List, [], ◌∷◌,
  Option, none, some, arith, length,
}
use bergamot.Prelude.Map.{get}
use bergamot.Text.{Text, codes, starts_with, text_eq}
use bergamot.Yenc.Fields.{YencError, Outcome, ok, err, parse_key_values, parse_hex_u32, parse_u64}
use bergamot.Yenc.Decoder.{
  DecoderState, waiting_for_header, waiting_for_part, decoding_body, finished, error,
  DecodedSegment, Hashing, YencDecoder, or_one, appended, parse_ybegin, parse_ypart, parse_yend,
  end_or_rest, agrees, check_size, check_end, new_decoder, finalize_segment, finish,
  decode_yenc_line_into, take_body, by_state, decode_line,
}

Outcome-cases :
    {A : Type 0} (o : Outcome A) → ((e : YencError) × (o ≡ err e)) ⊎ ((a : A) × (o ≡ ok a))
Outcome-cases (ok a) = inr (a, refl)
Outcome-cases (err e) = inl (e, refl)

-- What the two numbers of a trailer have been checked for.
check_size-ok :
    (size : Option Text) (crc : Option ℕ) (len : ℕ) (expected : Option ℕ)
    → check_size size crc len ≡ ok expected
    → (crc ≡ expected)
      × ((value : Text) → size ≡ some value → parse_u64 (codes "size") value ≡ ok len)
check_size-ok none crc len expected h = (cc, λ value e. absurd (cc))
check_size-ok (some v) crc len expected h = elim (Outcome-cases (parse_u64 (codes "size") v)) [
  | inl (e, f) ↦ absurd (let q = rw (f, check_size) at h in cc)
  | inr (n, f) ↦ elim (Bool-cases (n == len)) [
    | inl s ↦
        let q = rw (f, s, check_size) at h in
        let p : n ≡ len = ground arith in
        (cc, λ value e. let w : v ≡ value = cc in rw (← w, f, p) refl)
    | inr s ↦ absurd (let q = rw (f, s, check_size) at h in cc)
  ]
]

check_end-ok :
    (given size : Option Text) (len : ℕ) (expected : Option ℕ)
    → check_end given size len ≡ ok expected
    → ((value : Text)
        → given ≡ some value
        → (crc : ℕ) × (parse_hex_u32 (codes "pcrc32") value ≡ ok crc) × (expected ≡ some crc))
      × ((value : Text) → size ≡ some value → parse_u64 (codes "size") value ≡ ok len)
check_end-ok none size len expected h =
    (λ value e. absurd (cc), (check_size-ok size none len expected h).1)
check_end-ok (some v) size len expected h =
    elim (Outcome-cases (parse_hex_u32 (codes "pcrc32") v)) [
      | inl (e, f) ↦ absurd (let q = rw (f, check_end) at h in cc)
      | inr (crc, f) ↦
          let (q, sized) = check_size-ok size (some crc) len expected (rw (f, check_end) at h) in
          (λ value e. let w : v ≡ value = cc in (crc, rw (← w) f, sym q), sized)
    ]

module _ {H : Type 0} (hashing : Hashing H) where
  -- The running checksum is that of the bytes decoded so far.
  abbrev pub Summed : YencDecoder H → Type 0
  Summed d = d.part_crc ≡ hashing.update hashing.start d.decoded

  parse_ybegin-Summed :
      (line : List ℕ) (d : YencDecoder H) → Summed d → Summed (parse_ybegin line d).0
  unfolding parse_ybegin
  parse_ybegin-Summed line d h = ground arith

  parse_ypart-Summed :
      (line : List ℕ) (d : YencDecoder H) → Summed d → Summed (parse_ypart line d).0
  unfolding parse_ypart
  parse_ypart-Summed line d h = ground arith

  decode_yenc_line_into-Summed :
      (simd : Bool) (line : List ℕ) (d : YencDecoder H)
      → Summed d
      → Summed (decode_yenc_line_into hashing simd line d)
  unfolding decode_yenc_line_into
  decode_yenc_line_into-Summed simd line d h =
      rw h (hashing.update-append hashing.start d.decoded (appended simd line))

  finalize_segment-Summed :
      (expected : Option ℕ) (d : YencDecoder H)
      → Summed d
      → Summed (finalize_segment hashing expected d).0
  unfolding finalize_segment
  finalize_segment-Summed expected d h = ground (arith, hashing.update-nil hashing.start)

  finish-Summed :
      (d : YencDecoder H) (r : Outcome (Option ℕ)) → Summed d → Summed (finish hashing d r).0
  unfolding finalize_segment
  finish-Summed d (ok expected) h =
      finalize_segment-Summed expected (record d { state = finished }) h
  finish-Summed d (err e) h = h

  take_body-Summed : (d : YencDecoder H) → Summed d → Summed (take_body d).0
  take_body-Summed d h = ground arith

  by_state-Summed :
      (s : DecoderState) (simd : Bool) (line : List ℕ) (d : YencDecoder H)
      → Summed d
      → Summed (by_state hashing s simd line d).0
  unfolding by_state
  by_state-Summed waiting_for_header simd line d h =
      let k = parse_ybegin-Summed line d h in ground arith
  by_state-Summed waiting_for_part simd line d h =
      let k = parse_ypart-Summed line d h in ground arith
  by_state-Summed decoding_body simd line d h =
      let k =
        take_body-Summed (decode_yenc_line_into hashing simd line d)
          (decode_yenc_line_into-Summed simd line d h) in
      let l = finish-Summed d (parse_yend line d) h in ground arith
  by_state-Summed finished simd line d h = h
  by_state-Summed (error e) simd line d h = h

  -- The decoder after some lines.
  abbrev pub after : Bool → List (List ℕ) → YencDecoder H
  after simd [] = new_decoder hashing
  after simd (line ∷ before) = (decode_line hashing simd line (after simd before)).0

  after-Summed : (simd : Bool) (before : List (List ℕ)) → Summed (after simd before)
  unfolding decode_line
  after-Summed simd [] = sym (hashing.update-nil hashing.start)
  after-Summed simd (line ∷ before) =
      let d = after simd before in by_state-Summed d.state simd line d (after-Summed simd before)

  -- What the last line and the decoder before it say of a segment.
  pub record Verified (line : List ℕ) (d : YencDecoder H) (seg : DecodedSegment) : Type 0 where
    pub all_bytes : seg.bytes ≡ d.decoded
    pub not_empty : length seg.bytes ≢ 0
    pub checksum : seg.crc32 ≡ hashing.finalize (hashing.update hashing.start seg.bytes)
    pub is_trailer : starts_with (codes "=yend ") line ≡ true
    pub in_body : d.state ≡ decoding_body
    pub fields : List (Text × Text)
    pub are_fields : parse_key_values line ≡ ok fields
    pub as_expected :
        (value : Text)
        → get (codes "pcrc32") fields ≡ some value
        → parse_hex_u32 (codes "pcrc32") value ≡ ok seg.crc32
    pub full_length :
        (value : Text)
        → get (codes "size") fields ≡ some value
        → parse_u64 (codes "size") value ≡ ok (length seg.bytes)
    pub begins : seg.begin ≡ or_one d.part_begin
    pub ends : seg.end ≡ end_or_rest d.part_end seg.begin (length seg.bytes)

  finalize_segment-segment :
      (expected : Option ℕ) (d : YencDecoder H) (seg : DecodedSegment)
      → (finalize_segment hashing expected d).1 ≡ ok (some seg)
      → (length d.decoded ≢ 0)
        × (agrees expected (hashing.finalize d.part_crc) ≡ true)
        × (seg ≡ record {
          begin = or_one d.part_begin;
          end = end_or_rest d.part_end (or_one d.part_begin) (length d.decoded);
          bytes = d.decoded;
          crc32 = hashing.finalize d.part_crc;
        })
  unfolding finalize_segment
  finalize_segment-segment expected d seg h = ground arith

  by_state-segment :
      (s : DecoderState) (simd : Bool) (line : List ℕ) (d : YencDecoder H) (seg : DecodedSegment)
      → (by_state hashing s simd line d).1 ≡ ok (some seg)
      → (s ≡ decoding_body)
        × (starts_with (codes "=yend ") line ≡ true)
        × ((finish hashing d (parse_yend line d)).1 ≡ ok (some seg))
  unfolding by_state
  by_state-segment waiting_for_header simd line d seg h = ground arith
  by_state-segment waiting_for_part simd line d seg h = ground arith
  by_state-segment decoding_body simd line d seg h =
      elim (Bool-cases (starts_with (codes "=yend ") line)) [
        | inl e ↦ (refl, e, rw e at h)
        | inr e ↦ absurd (let q = rw e at h in ground arith)
      ]
  by_state-segment finished simd line d seg h = ground arith
  by_state-segment (error e) simd line d seg h = ground arith

  parse_yend-fields :
      (line : List ℕ) (d : YencDecoder H) (expected : Option ℕ)
      → parse_yend line d ≡ ok expected
      → (fields : List (Text × Text)) × (parse_key_values line ≡ ok fields)
        × (check_end (get (codes "pcrc32") fields) (get (codes "size") fields) (length d.decoded)
            ≡ ok expected)
  unfolding parse_yend
  parse_yend-fields line d expected h = elim (Outcome-cases (parse_key_values line)) [
    | inl (e, f) ↦ absurd (let q = rw (f, parse_yend) at h in cc)
    | inr (fields, f) ↦ (fields, f, rw (f, parse_yend) at h)
  ]

  trailer-Verified :
      (line : List ℕ) (d : YencDecoder H) (seg : DecodedSegment) (r : Outcome (Option ℕ))
      → Summed d
      → d.state ≡ decoding_body
      → starts_with (codes "=yend ") line ≡ true
      → parse_yend line d ≡ r
      → (finish hashing d r).1 ≡ ok (some seg)
      → Verified line d seg
  unfolding finalize_segment
  trailer-Verified line d seg (err e) h s t p f = absurd (ground arith)
  trailer-Verified line d seg (ok expected) h s t p f =
      let (n, a, q) = finalize_segment-segment expected (record d { state = finished }) seg f in
      let (fields, are, checks) = parse_yend-fields line d expected p in
      let (crc_of, size_of) = check_end-ok _ _ (length d.decoded) expected checks in
      let c = ap (λ (g : DecodedSegment). g.crc32) q in
      let b = ap (λ (g : DecodedSegment). length g.bytes) q in
      record {
        all_bytes = ap (λ (g : DecodedSegment). g.bytes) q;
        not_empty = rw q n;
        checksum = rw (q, sym h) refl;
        is_trailer = t;
        in_body = s;
        fields = fields;
        are_fields = are;
        as_expected = λ value e.
            let (crc, reads, same) = crc_of value e in
            let k : crc ≡ seg.crc32 = ground arith in reads ∙ ap ok k;
        full_length = λ value e. size_of value e ∙ ap ok (sym b);
        begins = rw q refl;
        ends = rw q refl;
      }

  segment-Verified :
      (line : List ℕ) (d : YencDecoder H) (seg : DecodedSegment)
      → Summed d
      → (d.state ≡ decoding_body)
        × (starts_with (codes "=yend ") line ≡ true)
        × ((finish hashing d (parse_yend line d)).1 ≡ ok (some seg))
      → Verified line d seg
  segment-Verified line d seg h (s, t, f) =
      trailer-Verified line d seg (parse_yend line d) h s t refl f

  -- A segment is handed out at a trailer line only, whatever lines came before. It is not empty, it
  -- has every byte that was decoded, and its checksum is that of its bytes. A `pcrc32` field of the
  -- trailer reads as this checksum, a `size` field as the number of the bytes, and the place is the
  -- one of the part header.
  pub decode_line-Verified :
      (simd : Bool) (before : List (List ℕ)) (line : List ℕ) (seg : DecodedSegment)
      → (decode_line hashing simd line (after simd before)).1 ≡ ok (some seg)
      → Verified line (after simd before) seg
  unfolding decode_line
  decode_line-Verified simd before line seg h =
      segment-Verified line (after simd before) seg (after-Summed simd before)
        (by_state-segment (after simd before).state simd line (after simd before) seg h)
