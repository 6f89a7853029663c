-- ===== src/Nzb/Info/Document.antt =====
-- crates/bergamot-nzb/src/parser.rs: what `parse` reads from a document that is laid out as the
-- format asks.
use bergamot.Prelude.{◌≢◌, List, [], ◌∷◌, ◌++◌, map, none, some, All}
use bergamot.Text.{Text, codes}
use bergamot.Text.Decimal.{decimal}
use bergamot.Nzb.Model.{Segment, NzbMeta}
use bergamot.Nzb.Subject.{Libraries}
use bergamot.Nzb.Parser.{
  XmlEvent, start, end, text, initial, NzbFileBuilder, NzbParser, new_parser, date_of,
}
use bergamot.Nzb.Ends.{set_meta, built}
use bergamot.Nzb.Info.Good.{Valid}

-- A `file` element: its attributes, groups and segments. The date is what its attribute says.
pub record FileElement : Type 0 where
  pub poster : Text
  pub date : Text
  pub subject : Text
  pub groups : List Text
  pub segments : List Segment

abbrev pub concat_map : {A B : Type 0} → (A → List B) → List A → List B
concat_map f [] = []
concat_map f (x ∷ xs) = f x ++ concat_map f xs

abbrev pub meta_events : Text × Text → List XmlEvent
meta_events (key, value) =
    start (codes "meta") ((codes "type", some key) ∷ [])
    ∷ text (some value)
    ∷ end (codes "meta")
    ∷ []

abbrev pub group_events : Text → List XmlEvent
group_events g = start (codes "group") [] ∷ text (some g) ∷ end (codes "group") ∷ []

abbrev pub segment_events : Segment → List XmlEvent
segment_events s =
    start (codes "segment")
      ((codes "bytes", some (decimal s.bytes)) ∷ (codes "number", some (decimal s.number)) ∷ [])
    ∷ text (some s.message_id)
    ∷ end (codes "segment")
    ∷ []

abbrev pub file_events : FileElement → List XmlEvent
file_events f =
    start (codes "file") (
      (codes "poster", some f.poster)
      ∷ (codes "date", some f.date)
      ∷ (codes "subject", some f.subject)
      ∷ [])
    ∷ start (codes "groups") []
    ∷ (concat_map group_events f.groups
        ++ (end (codes "groups")
            ∷ start (codes "segments") []
            ∷ (concat_map segment_events f.segments
                ++ (end (codes "segments") ∷ end (codes "file") ∷ []))))

abbrev pub document : List (Text × Text) → List FileElement → List XmlEvent
document metas files =
    start (codes "nzb") []
    ∷ start (codes "head") []
    ∷ (concat_map meta_events metas
        ++ (end (codes "head") ∷ (concat_map file_events files ++ (end (codes "nzb") ∷ []))))

-- What the parser holds at the end.
abbrev pub add_metas : NzbMeta → List (Text × Text) → NzbMeta
add_metas m [] = m
add_metas m ((key, value) ∷ rest) = add_metas (set_meta key value m) rest

abbrev pub builder_of : FileElement → NzbFileBuilder
builder_of f = record {
  poster = f.poster;
  date = date_of (some f.date);
  subject = f.subject;
  groups = f.groups;
  segments = f.segments;
}

abbrev pub WellFormed : FileElement → Type 0
WellFormed f = (f.groups ≢ []) × (f.segments ≢ []) × All Valid f.segments

module _ (lib : Libraries) where
  abbrev pub read_document : List (Text × Text) → List FileElement → NzbParser
  read_document metas files = record {
    state = initial;
    meta = add_metas new_parser.meta metas;
    files = map (λ f. built lib (builder_of f)) files;
    current_file = none;
    current_text = [];
  }
