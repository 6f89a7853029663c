-- ===== src/Nzb/Parser.antt =====
-- crates/bergamot-nzb/src/parser.rs: `NzbParser`. The XML reader is a library: the parser is given
-- the events that it reads up to the end of the input. An attribute or a text is `none` where
-- undoing its escapes fails.
use bergamot.Prelude.{ℕ, ◌^◌, true, false, List, [], ◌∷◌, Option, none, some, if◌then◌else◌}
use bergamot.Prelude.Int.{ℤ, pos}
use bergamot.Text.{Text, codes, same, parse_uint}
use bergamot.Text.Decimal.{parse_int}
use bergamot.Nzb.Model.{Segment, NzbFile, NzbMeta, xml_error, invalid_segment, Parsed, ok, err}

pub data XmlEvent : Type 0 where
  start : Text → List (Text × Option Text) → XmlEvent
  end : Text → XmlEvent
  text : Option Text → XmlEvent
  other failed : XmlEvent

pub data ParseState : Type 0 where
  initial in_nzb in_head in_file in_groups in_group in_segments : ParseState
  in_meta : Text → ParseState
  in_segment : ℕ → ℕ → ParseState

pub record NzbFileBuilder : Type 0 where
  pub poster : Text
  pub date : ℤ
  pub subject : Text
  pub groups : List Text
  pub segments : List Segment

pub record NzbParser : Type 0 where
  pub state : ParseState
  pub meta : NzbMeta
  pub files : List NzbFile
  pub current_file : Option NzbFileBuilder
  pub current_text : Text

abbrev pub new_parser : NzbParser
new_parser = record {
  state = initial;
  meta = record { title = none; password = none; category = none; tags = []; extra = [] };
  files = [];
  current_file = none;
  current_text = [];
}

-- `get_attr`: the first attribute with the name; an error where its value does not unescape.
unfoldable pub get_attr : Text → List (Text × Option Text) → Parsed (Option Text)
get_attr name [] = ok none
get_attr name ((key, value) ∷ rest) = elim (same key name) [
  | true ↦ elim value [ none ↦ err xml_error | some v ↦ ok (some v) ]
  | false ↦ get_attr name rest
]

abbrev pub or_empty : Option Text → Text
or_empty none = []
or_empty (some s) = s

infixl 5 ◌>>=◌
abbrev pub ◌>>=◌ : {A B : Type 0} → Parsed A → (A → Parsed B) → Parsed B
ok a >>= f = f a
err e >>= f = err e

-- `.and_then(|s| s.parse().ok())` on the value of an attribute.
unfoldable pub number_of : ℕ → Option Text → Option ℕ
unfolding parse_uint
number_of limit none = none
number_of limit (some s) = parse_uint limit s

unfoldable pub date_of : Option Text → ℤ
unfolding parse_int
date_of none = pos 0
date_of (some s) = elim (parse_int (2 ^ 63) s) [ none ↦ pos 0 | some d ↦ d ]

abbrev pub required : Text → Option ℕ → Parsed ℕ
required what none = err (invalid_segment what)
required what (some n) = ok n

abbrev pub enter : ParseState → NzbParser → NzbParser
enter state p = record p { state = state }

-- The tags of `handle_start` that read attributes.
unfoldable pub start_meta : List (Text × Option Text) → NzbParser → Parsed NzbParser
unfolding get_attr
start_meta attrs p = get_attr (codes "type") attrs >>= λ key. ok (enter (in_meta (or_empty key)) p)

unfoldable pub start_file : List (Text × Option Text) → NzbParser → Parsed NzbParser
unfolding get_attr parse_int
start_file attrs p = get_attr (codes "poster") attrs >>= λ poster.
    get_attr (codes "date") attrs >>= λ date. get_attr (codes "subject") attrs >>= λ subject. ok (
      enter in_file (record p {
        current_file = some (record {
          poster = or_empty poster;
          date = date_of date;
          subject = or_empty subject;
          groups = [];
          segments = [];
        });
      }))

unfoldable pub start_segment : List (Text × Option Text) → NzbParser → Parsed NzbParser
unfolding get_attr parse_uint
start_segment attrs p = get_attr (codes "bytes") attrs >>= λ b.
    required (codes "missing bytes attribute") (number_of (2 ^ 64) b) >>= λ bytes.
    get_attr (codes "number") attrs >>= λ n.
    required (codes "missing number attribute") (number_of (2 ^ 32) n) >>= λ number.
    ok (enter (in_segment bytes number) p)

unfoldable pub start_by :
    ParseState → Text → List (Text × Option Text) → NzbParser → Parsed NzbParser
unfolding get_attr parse_uint parse_int
start_by initial tag attrs p = if same tag (codes "nzb") then ok (enter in_nzb p) else ok p
start_by in_nzb tag attrs p =
    if same tag (codes "head")
    then ok (enter in_head p)
    else if same tag (codes "file")
    then start_file attrs p
    else ok p
start_by in_head tag attrs p = if same tag (codes "meta") then start_meta attrs p else ok p
start_by in_file tag attrs p =
    if same tag (codes "groups")
    then ok (enter in_groups p)
    else if same tag (codes "segments")
    then ok (enter in_segments p)
    else ok p
start_by in_groups tag attrs p = if same tag (codes "group") then ok (enter in_group p) else ok p
start_by in_segments tag attrs p =
    if same tag (codes "segment") then start_segment attrs p else ok p
start_by in_group tag attrs p = ok p
start_by (in_meta key) tag attrs p = ok p
start_by (in_segment bytes number) tag attrs p = ok p

unfoldable pub handle_start : Text → List (Text × Option Text) → NzbParser → Parsed NzbParser
unfolding start_by
handle_start tag attrs p = start_by p.state tag attrs (record p { current_text = [] })
