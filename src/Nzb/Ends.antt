-- ===== src/Nzb/Ends.antt =====
-- crates/bergamot-nzb/src/parser.rs: `handle_end`.
use bergamot.Prelude.{ℕ, ◌%◌, ◌^◌, List, [], ◌∷◌, ◌++◌, Option, none, some, if◌then◌else◌}
use bergamot.Prelude.Find.{sum_by}
use bergamot.Text.{Text, codes, same}
use bergamot.Nzb.Model.{Segment, NzbFile, NzbMeta, malformed_nzb, invalid_segment, Parsed, ok, err}
use bergamot.Nzb.Subject.{Libraries, extract_filename, classify_par}
use bergamot.Nzb.Parser.{
  ParseState, initial, in_nzb, in_head, in_file, in_groups, in_group, in_segments, in_meta,
  in_segment, NzbFileBuilder, NzbParser, enter, ◌>>=◌,
}

abbrev pub set_meta : Text → Text → NzbMeta → NzbMeta
set_meta key value m =
    if same key (codes "title")
    then record m { title = some value }
    else if same key (codes "password")
    then record m { password = some value }
    else if same key (codes "category")
    then record m { category = some value }
    else if same key (codes "tag")
    then record m { tags = m.tags ++ value ∷ [] }
    else record m { extra = m.extra ++ (key, value) ∷ [] }

abbrev pub end_meta : Text → NzbParser → NzbParser
end_meta key p = record p {
  meta = set_meta key p.current_text p.meta;
  current_text = [];
  state = in_head;
}

-- At the end of a group, a segment and a file, the file that is open comes first.
abbrev pub end_group : Option NzbFileBuilder → NzbParser → NzbParser
end_group none p = enter in_groups p
end_group (some f) p = record p {
  current_file = some (record f { groups = f.groups ++ p.current_text ∷ [] });
  current_text = [];
  state = in_groups;
}

abbrev pub with_segment : ℕ → ℕ → Text → NzbFileBuilder → NzbFileBuilder
with_segment bytes number id f = record f {
  segments = f.segments ++ record { number = number; bytes = bytes; message_id = id } ∷ [];
}

-- The text taken is the message id.
abbrev pub end_segment : ℕ → ℕ → Option NzbFileBuilder → Text → NzbParser → Parsed NzbParser
end_segment bytes number none id p = ok (enter in_segments p)
end_segment bytes number (some f) [] p = err (invalid_segment (codes "missing message id"))
end_segment bytes number (some f) (c ∷ id) p =
    ok (enter in_segments (record p { current_file = some (with_segment bytes number (c ∷ id) f) }))

module _ (lib : Libraries) where
  unfoldable pub built : NzbFileBuilder → NzbFile
  unfolding extract_filename classify_par
  built b = record {
    poster = b.poster;
    date = b.date;
    subject = b.subject;
    filename = extract_filename lib b.subject;
    groups = b.groups;
    segments = b.segments;
    par_status = classify_par lib (extract_filename lib b.subject);
    total_size = sum_by (λ s. s.bytes) b.segments % 2 ^ 64;
  }

  -- The checks on the file that ends, by its groups and its segments.
  unfoldable pub build : List Text → List Segment → NzbFileBuilder → Parsed NzbFile
  unfolding built
  build [] ss b = err (malformed_nzb (codes "file missing groups"))
  build (g ∷ gs) [] b = err (malformed_nzb (codes "file missing segments"))
  build (g ∷ gs) (s ∷ ss) b = ok (built b)

  unfoldable pub end_file : Option NzbFileBuilder → NzbParser → Parsed NzbParser
  unfolding build
  end_file none p = ok (enter in_nzb p)
  end_file (some b) p = build b.groups b.segments b >>= λ f.
      ok (enter in_nzb (record p { files = p.files ++ f ∷ []; current_file = none }))

  unfoldable pub end_by : ParseState → Text → NzbParser → Parsed NzbParser
  unfolding end_file
  end_by initial tag p = ok p
  end_by (in_meta key) tag p = if same tag (codes "meta") then ok (end_meta key p) else ok p
  end_by in_head tag p = if same tag (codes "head") then ok (enter in_nzb p) else ok p
  end_by in_group tag p = if same tag (codes "group") then ok (end_group p.current_file p) else ok p
  end_by in_groups tag p = if same tag (codes "groups") then ok (enter in_file p) else ok p
  end_by (in_segment bytes number) tag p =
      if same tag (codes "segment")
      then end_segment bytes number p.current_file p.current_text (record p { current_text = [] })
      else ok p
  end_by in_segments tag p = if same tag (codes "segments") then ok (enter in_file p) else ok p
  end_by in_file tag p = if same tag (codes "file") then end_file p.current_file p else ok p
  end_by in_nzb tag p = if same tag (codes "nzb") then ok (enter initial p) else ok p

  unfoldable pub handle_end : Text → NzbParser → Parsed NzbParser
  unfolding end_by
  handle_end tag p = end_by p.state tag p
