-- ===== src/Nzb/Info.antt =====
-- crates/bergamot-nzb/src/parser.rs: `build_nzb_info`, with the reader's loop `parse`.
use bergamot.Prelude.{
  ℕ, ◌+◌, ◌%◌, ◌^◌, Bool, true, false, ◌||◌, ◌&&◌, ◌==◌, List, [], ◌∷◌, ◌++◌, map, Option, none,
  some, if◌then◌else◌, leb, length,
}
use mathlib.Core.Option
use bergamot.Prelude.Find.{sum_by}
use bergamot.Prelude.Sort.{sort_by, by_key}
use bergamot.Text.{Text, codes, same}
use bergamot.Nzb.Model.{
  Segment, NzbFile, NzbInfo, NzbError, xml_error, malformed_nzb, no_files, Parsed, ok, err,
}
use bergamot.Nzb.Names.{ensure_unique_filenames}
use bergamot.Nzb.Subject.{Libraries, compute_content_hash, compute_name_hash}
use bergamot.Nzb.Parser.{
  XmlEvent, start, end, text, other, failed, NzbParser, new_parser, handle_start, ◌>>=◌,
}
use bergamot.Nzb.Ends.{handle_end}
pub mod Good
pub mod Kept
pub mod Complete
pub mod Document
pub mod Elements
pub mod Metas
pub mod RoundTrip

abbrev pub sort_segments : NzbFile → NzbFile
sort_segments f = record f { segments = sort_by (by_key (λ s. s.number)) f.segments }

-- The search for names always ends: `none` does not occur.
abbrev pub or_same : List NzbFile → Option (List NzbFile) → List NzbFile
or_same files none = files
or_same files (some out) = out

unfoldable pub named_files : List NzbFile → List NzbFile
unfolding ensure_unique_filenames
named_files files =
    or_same (map sort_segments files) (ensure_unique_filenames (map sort_segments files))

abbrev pub is_root : XmlEvent → Bool
is_root (start tag attrs) = same tag (codes "nzb")
is_root (end tag) = false
is_root (text s) = false
is_root other = false
is_root failed = false

module _ (lib : Libraries) where
  unfoldable pub build_nzb_info : NzbParser → NzbInfo
  unfolding named_files compute_content_hash compute_name_hash
  build_nzb_info p =
      let files = named_files p.files in
      record {
        meta = p.meta;
        files = files;
        total_size = sum_by (λ f. f.total_size) files % 2 ^ 64;
        file_count = length files;
        total_segments = sum_by (λ f. length f.segments) files;
        content_hash = compute_content_hash lib files;
        name_hash = compute_name_hash lib files;
      }

  -- One event of the reader.
  unfoldable pub handle_event : XmlEvent → NzbParser → Parsed NzbParser
  unfolding handle_start handle_end
  handle_event (start tag attrs) p = handle_start tag attrs p
  handle_event (end tag) p = handle_end lib tag p
  handle_event (text none) p = err xml_error
  handle_event (text (some s)) p = ok (record p { current_text = p.current_text ++ s })
  handle_event other p = ok p
  handle_event failed p = err xml_error

  -- The loop of `parse`, with `saw_nzb`.
  unfoldable pub read_events : Bool → NzbParser → List XmlEvent → Parsed (Bool × NzbParser)
  unfolding handle_event
  read_events saw p [] = ok (saw, p)
  read_events saw p (e ∷ events) =
      handle_event e p >>= λ p'. read_events (saw || is_root e) p' events

  -- The checks after the loop: `saw_nzb`, then the files.
  unfoldable pub end_of_input : Bool → List NzbFile → NzbParser → Parsed NzbInfo
  unfolding build_nzb_info
  end_of_input false fs p = err (malformed_nzb (codes "missing nzb root"))
  end_of_input true [] p = err no_files
  end_of_input true (f ∷ fs) p = ok (build_nzb_info p)

  unfoldable pub parse : List XmlEvent → Parsed NzbInfo
  unfolding read_events end_of_input
  parse events = read_events false new_parser events >>= λ (saw, p). end_of_input saw p.files p

-- The XML reader on plain bytes, and on what gzip makes of them.
pub record Readers : Type 0 where
  pub plain : List ℕ → List XmlEvent
  pub gzip : List ℕ → List XmlEvent

abbrev pub is_gzip : List ℕ → Bool
is_gzip [] = false
is_gzip (a ∷ []) = false
is_gzip (a ∷ b ∷ rest) = a == 0x1f && b == 0x8b

unfoldable pub parse_nzb_auto : Libraries → Readers → List ℕ → Parsed NzbInfo
unfolding parse
parse_nzb_auto lib readers bytes =
    if is_gzip bytes then parse lib (readers.gzip bytes) else parse lib (readers.plain bytes)
