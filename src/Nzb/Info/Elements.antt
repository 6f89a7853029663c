-- ===== src/Nzb/Info/Elements.antt =====
-- crates/bergamot-nzb/src/parser.rs: how the parser goes through one element of a document.
use bergamot.Prelude.{
  ℕ, ◌^◌, ◌<◌, ◌≡◌, refl, sym, ◌∙◌, subst, ◌≢◌, ◌⊎◌, inl, inr, true, List, [], ◌∷◌, ◌++◌, map,
  Option, none, some, All, append_assoc, append-nil,
}
use bergamot.Text.{Text}
use bergamot.Text.Decimal.{parse_uint-decimal}
use bergamot.Nzb.Model.{Segment, NzbFile, NzbMeta, NzbError, Parsed, ok, err}
use bergamot.Nzb.Subject.{Libraries}
use bergamot.Nzb.Parser.{
  XmlEvent, ParseState, in_nzb, in_head, in_groups, in_segments, NzbFileBuilder, NzbParser,
  get_attr, number_of, start_meta, start_file, start_segment, start_by, handle_start,
}
use bergamot.Nzb.Ends.{set_meta, with_segment, built, build, end_file, end_by, handle_end}
use bergamot.Nzb.Info.{handle_event, read_events}
use bergamot.Nzb.Info.Good.{Valid}
use bergamot.Nzb.Info.Document.{
  concat_map, meta_events, group_events, segment_events, file_events, FileElement, add_metas,
  builder_of, WellFormed,
}

abbrev pub holding : ParseState → NzbMeta → List NzbFile → Option NzbFileBuilder → Text → NzbParser
holding s m fs b t = record { state = s; meta = m; files = fs; current_file = b; current_text = t }

Parsed-cases : {A : Type 0} (r : Parsed A) → ((a : A) × (r ≡ ok a)) ⊎ ((e : NzbError) × (r ≡ err e))
Parsed-cases (ok a) = inl (a, refl)
Parsed-cases (err e) = inr (e, refl)

module _ (lib : Libraries) where
  -- After the root, the events take one state of the parser to another.
  pub record Reads (p : NzbParser) (events : List XmlEvent) (q : NzbParser) : Type 0 where
    pub run : read_events lib true p events ≡ ok (true, q)

  read_events-append :
      (p q : NzbParser) (xs ys : List XmlEvent)
      → read_events lib true p xs ≡ ok (true, q)
      → read_events lib true p (xs ++ ys) ≡ read_events lib true q ys
  unfolding read_events
  read_events-append p q [] ys h = let e : p ≡ q = cc in rw e
  read_events-append p q (x ∷ xs) ys h = elim (Parsed-cases (handle_event lib x p)) [
    | inl (r, e) ↦ rw e (read_events-append r q xs ys (rw (read_events, e) at h))
    | inr (r, e) ↦ absurd (let k = rw (read_events, e) at h in cc)
  ]

  build-built :
      (gs : List Text) (ss : List Segment) (b : NzbFileBuilder)
      → gs ≢ []
      → ss ≢ []
      → build lib gs ss b ≡ ok (built lib b)
  unfolding build
  build-built [] ss b h k = absurd (h refl)
  build-built (g ∷ gs) [] b h k = absurd (k refl)
  build-built (g ∷ gs) (s ∷ ss) b h k = refl

module _ {lib : Libraries} where
  pub Reads-done : (p : NzbParser) → Reads lib p [] p
  unfolding read_events
  Reads-done p = record { run = refl }

  pub Reads-step :
      {p q r : NzbParser} {events : List XmlEvent} (e : XmlEvent)
      → handle_event lib e p ≡ ok q
      → Reads lib q events r
      → Reads lib p (e ∷ events) r
  unfolding read_events
  Reads-step e h k = record { run = rw (read_events, h) k.run }

  pub Reads-append :
      {p q r : NzbParser} {xs ys : List XmlEvent}
      → Reads lib p xs q
      → Reads lib q ys r
      → Reads lib p (xs ++ ys) r
  Reads-append {p} {q} {xs = xs} {ys} h k = record {
    run = read_events-append lib p q xs ys h.run ∙ k.run;
  }

  meta_events-Reads :
      (key value : Text) (m : NzbMeta) (fs : List NzbFile) (b : Option NzbFileBuilder) (t : Text)
      → Reads lib
          (holding in_head m fs b t)
          (meta_events (key, value))
          (holding in_head (set_meta key value m) fs b [])
  unfolding read_events handle_event handle_start handle_end start_by start_meta get_attr end_by
  meta_events-Reads key value m fs b t = record { run = refl }

  group_events-Reads :
      (g : Text) (m : NzbMeta) (fs : List NzbFile) (f : NzbFileBuilder) (t : Text)
      → Reads lib
          (holding in_groups m fs (some f) t)
          (group_events g)
          (holding in_groups m fs (some (record f { groups = f.groups ++ g ∷ [] })) [])
  unfolding read_events handle_event handle_start handle_end start_by get_attr end_by
  group_events-Reads g m fs f t = record { run = refl }

  segment_events-Reads :
      (n bytes c : ℕ) (id : Text) (m : NzbMeta) (fs : List NzbFile) (f : NzbFileBuilder) (t : Text)
      → n < 2 ^ 32
      → bytes < 2 ^ 64
      → Reads lib
          (holding in_segments m fs (some f) t)
          (segment_events (record { number = n; bytes = bytes; message_id = c ∷ id }))
          (holding in_segments m fs (some (with_segment bytes n (c ∷ id) f)) [])
  unfolding read_events handle_event handle_start handle_end start_by start_segment get_attr end_by
      number_of
  segment_events-Reads n bytes c id m fs f t hn hb = record {
    run = rw (parse_uint-decimal (2 ^ 64) bytes hb, parse_uint-decimal (2 ^ 32) n hn) refl;
  }

  segment-Reads :
      (s : Segment) (m : NzbMeta) (fs : List NzbFile) (f : NzbFileBuilder) (id : Text)
      → s.message_id ≡ id
      → Valid s
      → Reads lib
          (holding in_segments m fs (some f) [])
          (segment_events s)
          (holding in_segments m fs (some (record f { segments = f.segments ++ s ∷ [] })) [])
  segment-Reads s m fs f [] e v = absurd (v.has_id e)
  segment-Reads s m fs f (c ∷ id) e v =
      let whole : Segment = record { number = s.number; bytes = s.bytes; message_id = c ∷ id } in
      let q : whole ≡ s =
        λ i. record { number = s.number; bytes = s.bytes; message_id = (sym e) i } in
      let P : Segment → Type 0 = λ t.
        Reads lib (holding in_segments m fs (some f) []) (segment_events t)
          (holding in_segments m fs (some (record f { segments = f.segments ++ t ∷ [] })) []) in
      subst P q (segment_events-Reads s.number s.bytes c id m fs f [] v.number_fits v.bytes_fit)

  -- The same for all the elements of a list.
  pub metas-Reads :
      (metas : List (Text × Text)) (m : NzbMeta) (fs : List NzbFile) (b : Option NzbFileBuilder)
      → Reads lib
          (holding in_head m fs b [])
          (concat_map meta_events metas)
          (holding in_head (add_metas m metas) fs b [])
  metas-Reads [] m fs b = Reads-done _
  metas-Reads ((key, value) ∷ rest) m fs b =
      Reads-append (meta_events-Reads key value m fs b [])
        (metas-Reads rest (set_meta key value m) fs b)

  groups-Reads :
      (gs : List Text) (m : NzbMeta) (fs : List NzbFile) (f : NzbFileBuilder)
      → Reads lib
          (holding in_groups m fs (some f) [])
          (concat_map group_events gs)
          (holding in_groups m fs (some (record f { groups = f.groups ++ gs })) [])
  groups-Reads [] m fs f = rw append-nil (Reads-done _)
  groups-Reads (g ∷ gs) m fs f =
      let rest = groups-Reads gs m fs (record f { groups = f.groups ++ g ∷ [] }) in
      Reads-append (group_events-Reads g m fs f []) (rw append_assoc at rest)

  segments-Reads :
      (ss : List Segment) (m : NzbMeta) (fs : List NzbFile) (f : NzbFileBuilder)
      → All Valid ss
      → Reads lib
          (holding in_segments m fs (some f) [])
          (concat_map segment_events ss)
          (holding in_segments m fs (some (record f { segments = f.segments ++ ss })) [])
  segments-Reads [] m fs f v = rw append-nil (Reads-done _)
  segments-Reads (s ∷ ss) m fs f v =
      let rest = segments-Reads ss m fs (record f { segments = f.segments ++ s ∷ [] }) v.1 in
      Reads-append (segment-Reads s m fs f s.message_id refl v.0) (rw append_assoc at rest)

  file-Reads :
      (f : FileElement) (m : NzbMeta) (fs : List NzbFile)
      → WellFormed f
      → Reads lib
          (holding in_nzb m fs none [])
          (file_events f)
          (holding in_nzb m (fs ++ built lib (builder_of f) ∷ []) none [])
  unfolding handle_event handle_start handle_end start_by start_file get_attr end_by end_file
  file-Reads f m fs w =
      let b0 : NzbFileBuilder = record (builder_of f) { groups = []; segments = [] } in
      let b1 : NzbFileBuilder = record (builder_of f) { segments = [] } in
      let last = build-built lib f.groups f.segments (builder_of f) w.0 w.1 in
      Reads-step _ refl (
        Reads-step _ refl (
          Reads-append (groups-Reads f.groups m fs b0) (
            Reads-step _ refl (
              Reads-step _ refl (
                Reads-append (segments-Reads f.segments m fs b1 w.2)
                  (Reads-step _ refl (Reads-step _ (rw last refl) (Reads-done _))))))))

  pub files-Reads :
      (files : List FileElement) (m : NzbMeta) (fs : List NzbFile)
      → All WellFormed files
      → Reads lib
          (holding in_nzb m fs none [])
          (concat_map file_events files)
          (holding in_nzb m (fs ++ map (λ f. built lib (builder_of f)) files) none [])
  files-Reads [] m fs w = rw append-nil (Reads-done _)
  files-Reads (f ∷ files) m fs w =
      let rest = files-Reads files m (fs ++ built lib (builder_of f) ∷ []) w.1 in
      Reads-append (file-Reads f m fs w.0) (rw append_assoc at rest)
