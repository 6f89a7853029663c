-- ===== src/Yenc/Tests.antt =====
-- The yEnc decoder at small inputs. The checksum here adds the bytes up.
use bergamot.Prelude.{
  ℕ, ◌%◌, ◌^◌, ◌≡◌, refl, true, List, [], ◌∷◌, ◌++◌, map, none, some, arith, append_assoc,
  append-nil,
}
use bergamot.Prelude.Find.{sum_by}
use bergamot.Text.{codes, trim, parse_uint, byte_len}
use bergamot.Yenc.Line.{decode_yenc_line, scalar_loop, strip_line_ends}
use bergamot.Yenc.Line.Loops.{decode_yenc_line-scalar_loop}
use bergamot.Yenc.Line.Encode.{encode, decode_yenc_line-encode}
use bergamot.Yenc.Fields.{ok}
use bergamot.Yenc.Decoder.{
  Hashing, YencDecoder, DecodedSegment, decoding_body, decode_line, parse_yend,
}
use bergamot.Yenc.Cache.{entry_size}
use bergamot.Yenc.Cache.Size.{
  WellSized, AllWritten, stores, flushes, Operation, after_operations, after_operations-WellSized,
}
use bergamot.Yenc.Decoder.Segments.{after, Verified, decode_line-Verified}
use bergamot.Yenc.Decoder.Transfer.{
  Bytes, data_line, joined, received, Closes, segments, segments-transfer,
}

abbrev adding : Hashing (List ℕ)
adding = record {
  start = [];
  update = λ h bytes. h ++ bytes;
  finalize = λ h. sum_by (λ b. b) h % 2 ^ 32;
  update-nil = append-nil;
  update-append = append_assoc;
}

-- Three bytes: one whose code is "=", one whose code is a line feed, and a plain one.
abbrev sample : List ℕ
sample = 19 ∷ 224 ∷ 1 ∷ []

sample-Bytes : Bytes sample
sample-Bytes = (omega arith, (omega arith, (omega arith, tt)))

decode_yenc_line-scalar_loop_example :
    decode_yenc_line true (codes "kkkkkkkkkkkkkkkkk=}k\r\n")
    ≡ some (scalar_loop (strip_line_ends (codes "kkkkkkkkkkkkkkkkk=}k\r\n")))
decode_yenc_line-scalar_loop_example =
    decode_yenc_line-scalar_loop true (codes "kkkkkkkkkkkkkkkkk=}k\r\n")

decode_yenc_line-encode_example :
    decode_yenc_line true (encode sample ++ 13 ∷ 10 ∷ []) ≡ some sample
decode_yenc_line-encode_example = decode_yenc_line-encode true sample sample-Bytes

abbrev header : List ℕ
header = codes "=ybegin line=128 size=3 name=t\r\n"

abbrev trailer : List ℕ
trailer = codes "=yend size=3 pcrc32=000000F4\r\n"

abbrev lines_before : List (List ℕ)
lines_before = data_line sample ∷ header ∷ []

abbrev segment : DecodedSegment
segment = record { begin = 1; end = 3; bytes = sample; crc32 = 0xf4 }

handed_out :
    (decode_line adding true trailer (after adding true lines_before)).1 ≡ ok (some segment)
unfolding decode_line trim parse_uint byte_len decode_yenc_line
handed_out = refl

decode_line-Verified_example : Verified adding trailer (after adding true lines_before) segment
decode_line-Verified_example =
    decode_line-Verified adding true lines_before trailer segment handed_out

abbrev in_body : YencDecoder (List ℕ)
in_body = record {
  state = decoding_body;
  filename = codes "t";
  file_size = 3;
  part_number = none;
  part_begin = none;
  part_end = none;
  part_crc = [];
  decoded = [];
}

trailer-Closes : Closes adding trailer (received adding in_body (joined (sample ∷ [])))
unfolding parse_yend trim byte_len parse_uint
trailer-Closes = record { keyword = refl; expected = some 0xf4; parses = refl; matching = refl }

segments-transfer_example :
    segments adding true (map data_line (sample ∷ []) ++ trailer ∷ []) in_body ≡ ok (segment ∷ [])
segments-transfer_example =
    segments-transfer adding true (sample ∷ []) trailer in_body refl refl refl (sample-Bytes, tt)
      (omega arith) (λ end e. cc) trailer-Closes

-- Two files of three bytes are stored where four fit, and then one is flushed; its writes fail.
abbrev operations : List Operation
operations = flushes (λ i. true) 1 0 ∷ stores 1 1 segment ∷ stores 1 0 segment ∷ []

after_operations-WellSized_example :
    WellSized (after_operations 4 operations)
    × (AllWritten 4 operations
        → (after_operations 4 operations).current_size
          ≡ sum_by entry_size (after_operations 4 operations).entries)
after_operations-WellSized_example = after_operations-WellSized 4 operations
