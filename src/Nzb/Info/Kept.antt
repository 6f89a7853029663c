-- ===== src/Nzb/Info/Kept.antt =====
-- crates/bergamot-nzb/src/parser.rs: the end of an element, every event and the whole input keep what
-- holds of the parser.
use bergamot.Prelude.{
  ℕ, ◌^◌, ◌<◌, ◌≡◌, refl, ◌||◌, Bool, List, [], ◌∷◌, Option, none, some, All, All-append,
}
use bergamot.Text.{Text}
use bergamot.Nzb.Model.{Segment}
use bergamot.Nzb.Subject.{Libraries}
use bergamot.Nzb.Parser.{
  XmlEvent, start, end, text, other, failed, ParseState, initial, in_nzb, in_head, in_file,
  in_groups, in_group, in_segments, in_meta, in_segment, NzbFileBuilder, NzbParser, handle_start,
}
use bergamot.Nzb.Ensures.{Ensures, Ensures-ok, Ensures-bind, Ensures-if, ensures}
use bergamot.Nzb.Ends.{built, build, end_meta, end_group, end_segment, end_file, end_by, handle_end}
use bergamot.Nzb.Info.{handle_event, read_events, is_root}
use bergamot.Nzb.Info.Good.{
  Valid, Finished, Good, StateFits, BuilderFits, Good-state, start_by-Good,
}

module _ {lib : Libraries} where
  end_meta-Good : (key : Text) (p : NzbParser) → Good lib p → Good lib (end_meta key p)
  end_meta-Good key p g = record { state = tt; builder = g.builder; files = g.files }

  end_group-Good :
      (o : Option NzbFileBuilder) (p : NzbParser)
      → BuilderFits o
      → Good lib p
      → Good lib (end_group o p)
  end_group-Good none p h g = Good-state in_groups p g tt
  end_group-Good (some f) p h g = record { state = tt; builder = h; files = g.files }

  end_segment-Good :
      (bytes number : ℕ) (o : Option NzbFileBuilder) (id : Text) (p : NzbParser)
      → bytes < 2 ^ 64
      → number < 2 ^ 32
      → BuilderFits o
      → Good lib p
      → Ensures (Good lib) (end_segment bytes number o id p)
  end_segment-Good bytes number none id p b n h g = Ensures-ok _ (Good-state in_segments p g tt)
  end_segment-Good bytes number (some f) [] p b n h g = search ensures
  end_segment-Good bytes number (some f) (c ∷ id) p b n h g =
      let s : Segment = record { number = number; bytes = bytes; message_id = c ∷ id } in
      let v : Valid s = record { number_fits = n; bytes_fit = b; has_id = λ e. cc } in
      Ensures-ok _ (record {
        state = tt;
        builder = All-append Valid f.segments (s ∷ []) h (v, tt);
        files = g.files;
      })

  build-Finished :
      (gs : List Text) (ss : List Segment) (b : NzbFileBuilder)
      → gs ≡ b.groups
      → ss ≡ b.segments
      → All Valid b.segments
      → Ensures (Finished lib) (build lib gs ss b)
  unfolding build built
  build-Finished [] ss b eg es v = search ensures
  build-Finished (g ∷ gs) [] b eg es v = search ensures
  build-Finished (g ∷ gs) (s ∷ ss) b eg es v = Ensures-ok _ (record {
    groups = λ e. cc;
    segments = λ e. cc;
    valid = v;
    name = refl;
    kind = refl;
    size = refl;
  })

  end_file-Good :
      (o : Option NzbFileBuilder) (p : NzbParser)
      → BuilderFits o
      → Good lib p
      → Ensures (Good lib) (end_file lib o p)
  unfolding end_file
  end_file-Good none p h g = Ensures-ok _ (Good-state in_nzb p g tt)
  end_file-Good (some b) p h g =
      let r = build lib b.groups b.segments b in
      Ensures-bind r _ (λ f e.
        let done = (build-Finished b.groups b.segments b refl refl h).at f e in
        Ensures-ok _ (record {
          state = tt;
          builder = tt;
          files = All-append (Finished lib) p.files (f ∷ []) g.files (done, tt);
        }))

  end_by-Good :
      (state : ParseState) (tag : Text) (p : NzbParser)
      → Good lib p
      → StateFits state
      → Ensures (Good lib) (end_by lib state tag p)
  unfolding end_by
  end_by-Good initial tag p g h = search ensures
  end_by-Good in_nzb tag p g h = search (ensures, Good-state)
  end_by-Good in_head tag p g h = search (ensures, Good-state)
  end_by-Good in_file tag p g h =
      Ensures-if _ _ _ (end_file-Good p.current_file p g.builder g) (Ensures-ok p g)
  end_by-Good in_groups tag p g h = search (ensures, Good-state)
  end_by-Good in_group tag p g h =
      Ensures-if _ _ _ (Ensures-ok _ (end_group-Good p.current_file p g.builder g)) (Ensures-ok p g)
  end_by-Good in_segments tag p g h = search (ensures, Good-state)
  end_by-Good (in_meta key) tag p g h = search (ensures, end_meta-Good)
  end_by-Good (in_segment bytes number) tag p g h =
      let taken : NzbParser = record p { current_text = [] } in
      let g' : Good lib taken = record { state = g.state; builder = g.builder; files = g.files } in
      Ensures-if _ _ _
        (end_segment-Good bytes number p.current_file p.current_text taken h.0 h.1 g.builder g')
        (Ensures-ok p g)

  pub handle_event-Good :
      (e : XmlEvent) (p : NzbParser) → Good lib p → Ensures (Good lib) (handle_event lib e p)
  unfolding handle_event handle_start handle_end
  handle_event-Good (start tag attrs) p g =
      start_by-Good p.state tag attrs _
        (record { state = g.state; builder = g.builder; files = g.files })
  handle_event-Good (end tag) p g = end_by-Good p.state tag p g g.state
  handle_event-Good (text none) p g = search ensures
  handle_event-Good (text (some s)) p g =
      Ensures-ok _ (record { state = g.state; builder = g.builder; files = g.files })
  handle_event-Good other p g = Ensures-ok p g
  handle_event-Good failed p g = search ensures

  pub read_events-Good :
      (saw : Bool) (p : NzbParser) (events : List XmlEvent)
      → Good lib p
      → Ensures (λ r. Good lib r.1) (read_events lib saw p events)
  unfolding read_events
  read_events-Good saw p [] g = Ensures-ok _ g
  read_events-Good saw p (e ∷ events) g =
      Ensures-bind (handle_event lib e p) _
        (λ q h. read_events-Good (saw || is_root e) q events ((handle_event-Good e p g).at q h))
