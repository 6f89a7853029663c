-- ===== src/Nzb/Info/Good.antt =====
-- crates/bergamot-nzb/src/parser.rs: what holds of the parser after every event.
use bergamot.Prelude.{
  ℕ, ◌+◌, ◌-◌, ◌*◌, ◌%◌, ◌^◌, ◌<◌, ◌≡◌, ◌≢◌, inl, inr, List, [], ◌∷◌, Option, none, some,
  Option-cases, arith, subst, All,
}
use bergamot.Prelude.Find.{sum_by}
use bergamot.Text.{Text, codes, parse_digits, parse_uint}
use bergamot.Nzb.Model.{Segment, NzbFile, ok}
use bergamot.Nzb.Subject.{Libraries, extract_filename, classify_par}
use bergamot.Nzb.Parser.{
  ParseState, initial, in_nzb, in_head, in_file, in_groups, in_group, in_segments, in_meta,
  in_segment, NzbFileBuilder, NzbParser, get_attr, number_of, required, enter, start_meta,
  start_file, start_segment, start_by,
}
use bergamot.Nzb.Ensures.{Ensures, Ensures-ok, Ensures-bind, ensures}

-- A segment of an NZB file: its fields fit the machine's integers, its message id is not empty.
pub record Valid (s : Segment) : Type 0 where
  pub number_fits : s.number < 2 ^ 32
  pub bytes_fit : s.bytes < 2 ^ 64
  pub has_id : s.message_id ≢ []

abbrev pub StateFits : ParseState → Type 0
StateFits initial = Unit
StateFits in_nzb = Unit
StateFits in_head = Unit
StateFits in_file = Unit
StateFits in_groups = Unit
StateFits in_group = Unit
StateFits in_segments = Unit
StateFits (in_meta key) = Unit
StateFits (in_segment bytes number) = (bytes < 2 ^ 64) × (number < 2 ^ 32)

abbrev pub BuilderFits : Option NzbFileBuilder → Type 0
BuilderFits none = Unit
BuilderFits (some b) = All Valid b.segments

module _ (lib : Libraries) where
  -- A file that the parser has finished.
  pub record Finished (f : NzbFile) : Type 0 where
    pub groups : f.groups ≢ []
    pub segments : f.segments ≢ []
    pub valid : All Valid f.segments
    pub name : f.filename ≡ extract_filename lib f.subject
    pub kind : f.par_status ≡ classify_par lib (extract_filename lib f.subject)
    pub size : f.total_size ≡ sum_by (λ s. s.bytes) f.segments % 2 ^ 64

  pub record Good (p : NzbParser) : Type 0 where
    pub state : StateFits p.state
    pub builder : BuilderFits p.current_file
    pub files : All Finished p.files

parse_digits-lt :
    (limit acc : ℕ) (s : Text) (n : ℕ) → acc < limit → parse_digits limit acc s ≡ some n → n < limit
unfolding parse_digits
parse_digits-lt limit acc [] n h e = ground arith
parse_digits-lt limit acc (c ∷ s) n h e =
    ground (arith, parse_digits-lt limit (acc * 10 + (c - b'0')) s n)

pub parse_uint-lt :
    (limit : ℕ) (s : Text) (n : ℕ) → 0 < limit → parse_uint limit s ≡ some n → n < limit
unfolding parse_uint
parse_uint-lt limit [] n h e = cc
parse_uint-lt limit (c ∷ []) n h e = parse_digits-lt limit 0 (c ∷ []) n h e
parse_uint-lt limit (c ∷ d ∷ s) n h e =
    ground (arith, parse_digits-lt limit 0 (d ∷ s) n h, parse_digits-lt limit 0 (c ∷ d ∷ s) n h)

required-lt :
    (limit : ℕ) (what : Text) (o : Option Text) (n : ℕ)
    → 0 < limit
    → required what (number_of limit o) ≡ ok n
    → n < limit
unfolding number_of
required-lt limit what none n h e = cc
required-lt limit what (some s) n h e = elim (Option-cases (parse_uint limit s)) [
  | inl q ↦ absurd (let k = rw q at e in cc)
  | inr (m, q) ↦
      let k = rw q at e in
      let eq : m ≡ n = cc in subst (λ i. i < limit) eq (parse_uint-lt limit s m h q)
]

module _ {lib : Libraries} where
  -- A state in which nothing of a segment is held.
  pub Good-state :
      (state : ParseState) (p : NzbParser) → Good lib p → StateFits state → Good lib (enter state p)
  Good-state state p g s = record { state = s; builder = g.builder; files = g.files }

  start_file-Good :
      (attrs : List (Text × Option Text)) (p : NzbParser)
      → Good lib p
      → Ensures (Good lib) (start_file attrs p)
  unfolding start_file
  start_file-Good attrs p g = Ensures-bind (get_attr (codes "poster") attrs) _ (λ poster h.
      Ensures-bind (get_attr (codes "date") attrs) _ (λ date h.
        Ensures-bind (get_attr (codes "subject") attrs) _
          (λ subject h. Ensures-ok _ (record { state = tt; builder = tt; files = g.files }))))

  start_segment-Good :
      (attrs : List (Text × Option Text)) (p : NzbParser)
      → Good lib p
      → Ensures (Good lib) (start_segment attrs p)
  unfolding start_segment
  start_segment-Good attrs p g = Ensures-bind (get_attr (codes "bytes") attrs) _ (λ b h.
      Ensures-bind (required (codes "missing bytes attribute") (number_of (2 ^ 64) b)) _
        (λ bytes eb. Ensures-bind (get_attr (codes "number") attrs) _ (λ n h'.
          Ensures-bind (required (codes "missing number attribute") (number_of (2 ^ 32) n)) _
            (λ number en.
              let bl = required-lt (2 ^ 64) _ b bytes (omega arith) eb in
              let nl = required-lt (2 ^ 32) _ n number (omega arith) en in
              Ensures-ok _ (Good-state (in_segment bytes number) p g (bl, nl))))))

  pub start_by-Good :
      (state : ParseState) (tag : Text) (attrs : List (Text × Option Text)) (p : NzbParser)
      → Good lib p
      → Ensures (Good lib) (start_by state tag attrs p)
  unfolding start_by start_meta
  start_by-Good initial tag attrs p g = search (ensures, Good-state)
  start_by-Good in_nzb tag attrs p g = search (ensures, Good-state, start_file-Good)
  start_by-Good in_head tag attrs p g = search (ensures, Good-state)
  start_by-Good in_file tag attrs p g = search (ensures, Good-state)
  start_by-Good in_groups tag attrs p g = search (ensures, Good-state)
  start_by-Good in_segments tag attrs p g = search (ensures, start_segment-Good)
  start_by-Good other_state tag attrs p g = search ensures
