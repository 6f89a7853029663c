-- ===== src/Yenc/Decoder/Transfer.antt =====
-- The encoded lines of a part reach the decoder as the bytes that were encoded.
use bergamot.Prelude.{
  map, ◌≢◌, ℕ, ◌+◌, ◌%◌, ◌≤◌, ◌<◌, ◌≡◌, refl, ◌∙◌, ap, inl, inr, Bool, true, false, Bool-cases,
  List, [], ◌∷◌, ◌++◌, Option, none, some, arith, length, ◌==◌, append_assoc, append-nil, All,
  length-append, Option-cases,
}
use bergamot.Text.{codes, starts_with}
use bergamot.Yenc.Fields.{Outcome, ok, err}
use bergamot.Yenc.Line.Encode.{critical, encode, decode_yenc_line-encode}
use bergamot.Yenc.Decoder.{
  DecoderState, decoding_body, DecodedSegment, Hashing, YencDecoder, too_long, declared, appended,
  or_one, end_or_rest, agrees, parse_yend, finalize_segment, finished, decode_yenc_line_into,
  or_nothing, by_state, decode_line,
}

abbrev pub Bytes : List ℕ → Type 0
Bytes = All (λ b. b < 256)

-- The line of encoded bytes, with its line end.
abbrev pub data_line : List ℕ → List ℕ
data_line bs = encode bs ++ 13 ∷ 10 ∷ []

-- No line of encoded bytes looks like a keyword line.
data_line-starts_with :
    (bs : List ℕ) (word : List ℕ)
    → Bytes bs
    → starts_with (b'=' ∷ b'y' ∷ word) (data_line bs) ≡ false
data_line-starts_with [] word h = refl
data_line-starts_with (b ∷ bs) word h = elim (Bool-cases (critical ((b + 42) % 256))) [
  | inl e ↦ rw e (ground arith)
  | inr e ↦ rw e (ground arith)
]

appended-data_line : (simd : Bool) (bs : List ℕ) → Bytes bs → appended simd (data_line bs) ≡ bs
unfolding appended
appended-data_line simd bs h = ap or_nothing (decode_yenc_line-encode simd bs h)

abbrev pub joined : List (List ℕ) → List ℕ
joined [] = []
joined (bs ∷ rest) = bs ++ joined rest

abbrev add_segment : DecodedSegment → Outcome (List DecodedSegment) → Outcome (List DecodedSegment)
add_segment seg (ok segs) = ok (seg ∷ segs)
add_segment seg (err e) = err e

abbrev pub after_line :
    Outcome (Option DecodedSegment) → Outcome (List DecodedSegment) → Outcome (List DecodedSegment)
after_line (err e) rest = err e
after_line (ok none) rest = rest
after_line (ok (some seg)) rest = add_segment seg rest

module _ {H : Type 0} (hashing : Hashing H) where
  -- The decoder after more bytes.
  abbrev pub received : YencDecoder H → List ℕ → YencDecoder H
  received d bs = record d { decoded = d.decoded ++ bs; part_crc = hashing.update d.part_crc bs }

  abbrev pub Room : YencDecoder H → ℕ → Type 0
  Room d n = (end : ℕ) → d.part_end ≡ some end → length d.decoded + n ≤ declared end d.part_begin

  decode_yenc_line_into-received :
      (simd : Bool) (bs : List ℕ) (d : YencDecoder H)
      → Bytes bs
      → decode_yenc_line_into hashing simd (data_line bs) d ≡ received d bs
  unfolding decode_yenc_line_into
  decode_yenc_line_into-received simd bs d h = ap (received d) (appended-data_line simd bs h)

  too_long-received :
      (bs : List ℕ) (d : YencDecoder H) → Room d (length bs) → too_long (received d bs) ≡ false
  unfolding too_long
  too_long-received bs d r = elim (Option-cases d.part_end) [
    | inl e ↦ rw e refl
    | inr (end, e) ↦ rw e (let le = r end e in let l = length-append d.decoded bs in ground arith)
  ]

  by_state-data_line :
      (s : DecoderState) (simd : Bool) (bs : List ℕ) (d : YencDecoder H)
      → s ≡ decoding_body
      → Bytes bs
      → Room d (length bs)
      → by_state hashing s simd (data_line bs) d ≡ (received d bs, ok none)
  unfolding by_state
  by_state-data_line decoding_body simd bs d e h r =
      rw
        (
          data_line-starts_with bs (codes "end ") h,
          decode_yenc_line_into-received simd bs d h,
          too_long-received bs d r,
        )
        refl
  by_state-data_line s simd bs d e h r = ground arith

  received_twice :
      (d : YencDecoder H) (xs ys : List ℕ) → received (received d xs) ys ≡ received d (xs ++ ys)
  received_twice d xs ys =
      rw (append_assoc d.decoded xs ys, hashing.update-append d.part_crc xs ys) refl

  -- The segments that the lines of an article make the decoder hand out, up to the first error.
  abbrev pub segments : Bool → List (List ℕ) → YencDecoder H → Outcome (List DecodedSegment)
  segments simd [] d = ok []
  segments simd (line ∷ rest) d =
      let (d', r) = decode_line hashing simd line d in after_line r (segments simd rest d')

  -- What a trailer line has to be for a decoder: it gives the size of the decoded bytes and their
  -- checksum, or leaves them out.
  pub record Closes (trailer : List ℕ) (d : YencDecoder H) : Type 0 where
    pub keyword : starts_with (codes "=yend ") trailer ≡ true
    pub expected : Option ℕ
    pub parses : parse_yend trailer d ≡ ok expected
    pub matching : agrees expected (hashing.finalize d.part_crc) ≡ true

  -- The segment of a decoder's bytes.
  abbrev pub segment_of : YencDecoder H → DecodedSegment
  segment_of d = record {
    begin = or_one d.part_begin;
    end = end_or_rest d.part_end (or_one d.part_begin) (length d.decoded);
    bytes = d.decoded;
    crc32 = hashing.finalize d.part_crc;
  }

  finalize_segment-trailer :
      (expected : Option ℕ) (d : YencDecoder H)
      → (length d.decoded == 0) ≡ false
      → agrees expected (hashing.finalize d.part_crc) ≡ true
      → (finalize_segment hashing expected d).1 ≡ ok (some (segment_of d))
  unfolding finalize_segment
  finalize_segment-trailer expected d n a = ground arith

  by_state-trailer :
      (s : DecoderState) (simd : Bool) (trailer : List ℕ) (d : YencDecoder H)
      → s ≡ decoding_body
      → (length d.decoded == 0) ≡ false
      → Closes trailer d
      → (by_state hashing s simd trailer d).1 ≡ ok (some (segment_of d))
  unfolding by_state
  by_state-trailer decoding_body simd trailer d e n c =
      rw (c.keyword, c.parses)
        (finalize_segment-trailer c.expected (record d { state = finished }) n c.matching)
  by_state-trailer s simd trailer d e n c = ground arith

  decode_line-data_line :
      (simd : Bool) (bs : List ℕ) (d : YencDecoder H)
      → d.state ≡ decoding_body
      → Bytes bs
      → Room d (length bs)
      → decode_line hashing simd (data_line bs) d ≡ (received d bs, ok none)
  unfolding decode_line
  decode_line-data_line simd bs d e h r = by_state-data_line d.state simd bs d e h r

  Room-received :
      (d : YencDecoder H) (bs : List ℕ) (n : ℕ) → Room d (length bs + n) → Room (received d bs) n
  Room-received d bs n r = λ end e. omega (arith, r end e, length-append d.decoded bs)

  segments-data_lines :
      (simd : Bool) (bss : List (List ℕ)) (rest : List (List ℕ)) (d : YencDecoder H)
      → d.state ≡ decoding_body
      → All Bytes bss
      → Room d (length (joined bss))
      → segments simd (map data_line bss ++ rest) d ≡ segments simd rest (received d (joined bss))
  segments-data_lines simd [] rest d e h r =
      ap (segments simd rest) (rw (append-nil d.decoded, hashing.update-nil d.part_crc) refl)
  segments-data_lines simd (bs ∷ bss) rest d e h r =
      let one =
        decode_line-data_line simd bs d e h.0
          (λ end p. omega (arith, r end p, length-append bs (joined bss))) in
      let more = segments-data_lines simd bss rest (received d bs) e h.1 (
        Room-received d bs (length (joined bss))
          (λ end p. omega (arith, r end p, length-append bs (joined bss)))) in
      rw one (more ∙ ap (segments simd rest) (received_twice d bs (joined bss)))

  -- A part of encoded data lines and a trailer line that fits them, after the headers, makes the
  -- decoder hand out one segment, with exactly the bytes that were encoded and their checksum, if
  -- there is a byte and if the part header leaves room for all of them.
  pub segments-transfer :
      (simd : Bool) (bss : List (List ℕ)) (trailer : List ℕ) (d : YencDecoder H)
      → d.state ≡ decoding_body
      → d.decoded ≡ []
      → d.part_crc ≡ hashing.start
      → All Bytes bss
      → length (joined bss) ≢ 0
      → Room d (length (joined bss))
      → Closes trailer (received d (joined bss))
      → segments simd (map data_line bss ++ trailer ∷ []) d
        ≡ ok (
            record {
              begin = or_one d.part_begin;
              end = end_or_rest d.part_end (or_one d.part_begin) (length (joined bss));
              bytes = joined bss;
              crc32 = hashing.finalize (hashing.update hashing.start (joined bss));
            }
            ∷ [])
  unfolding decode_line
  segments-transfer simd bss trailer d e z s h n r c =
      let d' : YencDecoder H = received d (joined bss) in
      let some_bytes : (length d'.decoded == 0) ≡ false = rw z (ground arith) in
      let last = by_state-trailer d.state simd trailer d' e some_bytes c in
      segments-data_lines simd bss (trailer ∷ []) d e h r
      ∙ ap (λ o. after_line o (ok [])) last
      ∙ rw (z, s) refl
