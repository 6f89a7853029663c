-- ===== src/Queue/Tests/Runs.antt =====
-- Witnesses of the theorems on filling slots, taking in files and the loop.
use bergamot.Prelude.{ℕ, ◌≡◌, refl, sym, subst, false, List, [], ◌∷◌, none, some, arith, All}
use bergamot.Text.{codes}
use bergamot.Nzb.Model.{NzbError}
use bergamot.Nzb.Model as Parsed
use bergamot.Nzb.Subject.{Libraries}
use bergamot.Nzb.Names.{
  ensure_unique_filenames, unique_from, free_suffix, name_for, take_suffix, candidate,
}
use bergamot.Text.Decimal.{decimal}
use bergamot.Nzb.Subject.{extract_filename}
use bergamot.Nzb.Ends.{built}
use bergamot.Nzb.Info.{Readers, parse, parse_nzb_auto, build_nzb_info, named_files}
use bergamot.Nzb.Info.Document.{FileElement, WellFormed, document, read_document}
use bergamot.Nzb.Info.RoundTrip.{document-parsed}
use bergamot.Queue.Types.{normal}
use bergamot.Queue.State.{QueueCoordinator}
use bergamot.Queue.Download.Steps.{Books}
use bergamot.Queue.NewNzb.{AddNzbOptions, NzbSource, contents}
use bergamot.Queue.Ingest.{ingest_nzb}
use bergamot.Queue.Ingest.Fits.{Small, ingest_nzb-Books}
use bergamot.Queue.Slots.{accepted, try_fill_download_slots}
use bergamot.Queue.Slots.Filled.{Fills, try_fill_download_slots-Filled}
use bergamot.Queue.Slots.{ArticleAssignment}
use bergamot.Queue.Commands.{Environment, add_nzb}
use bergamot.Queue.Loop.{handle_command, Runs, starts}
use bergamot.Queue.Loop.Ids.{Numbered}
use bergamot.Queue.Loop.Numbered.{Runs-Numbered, Runs-Round}
use bergamot.Queue.Tests.Samples.{coordinator, first, second, no_scheduler, exact}

try_fill_download_slots-Filled_example :
    Fills no_scheduler
      (λ n. accepted)
      0
      4
      (coordinator (first ∷ second ∷ []) [])
      (try_fill_download_slots no_scheduler
        (λ n. accepted)
        0
        (coordinator (first ∷ second ∷ []) []))
try_fill_download_slots-Filled_example =
    try_fill_download_slots-Filled no_scheduler (λ n. accepted) 0
      (coordinator (first ∷ second ∷ []) []) (((λ e. cc), tt), (tt, tt)) refl

abbrev empty : QueueCoordinator ℕ
empty = coordinator [] []

abbrev libraries : Libraries
libraries = record { quoted = λ s. s ∷ []; volume = λ s. none; hash = λ ts. 0 }

abbrev one_file : FileElement
one_file = record {
  poster = codes "p";
  date = codes "0";
  subject = codes "s.rar";
  groups = codes "g" ∷ [];
  segments = record { number = 1; bytes = 7; message_id = codes "a@x" } ∷ [];
}

-- Every file reads as the same document.
abbrev readers : Readers
readers = record {
  plain = λ bytes. document [] (one_file ∷ []);
  gzip = λ bytes. document [] (one_file ∷ []);
}

abbrev source : NzbSource
source = record {
  path = codes "/a.nzb";
  file_name = some (codes "a.nzb");
  file = contents (1 ∷ []);
}

abbrev options : AddNzbOptions
options = record {
  add_to_top = false;
  add_paused = false;
  dup_key = none;
  dup_score = none;
  dup_mode = none;
  parameters = [];
}

one_file-WellFormed : All WellFormed (one_file ∷ [])
one_file-WellFormed = (
  (
    (λ e. cc),
    (λ e. cc),
    (record { number_fits = omega arith; bytes_fit = omega arith; has_id = λ e. cc }, tt),
  ),
  tt,
)

one_file-Small :
    All Small (build_nzb_info libraries (read_document libraries [] (one_file ∷ []))).files
unfolding build_nzb_info named_files ensure_unique_filenames unique_from free_suffix name_for
    take_suffix candidate decimal built extract_filename
one_file-Small = (omega arith, tt)

source-Small :
    (bytes : List ℕ) (info : Parsed.NzbInfo)
    → source.file ≡ contents bytes
    → parse_nzb_auto libraries readers bytes ≡ Parsed.ok info
    → All Small info.files
unfolding parse_nzb_auto
source-Small bytes info e h =
    let p = document-parsed libraries [] (one_file ∷ []) (λ e. cc) one_file-WellFormed in
    let one_byte : 1 ∷ [] ≡ bytes = cc in
    let h' : parse libraries (document [] (one_file ∷ [])) ≡ Parsed.ok info =
      rw (sym one_byte) at h in
    let same : build_nzb_info libraries (read_document libraries [] (one_file ∷ [])) ≡ info = cc in
    subst (λ (i : Parsed.NzbInfo). All Small i.files) same one_file-Small

ingest_nzb-Books_example :
    Books (ingest_nzb exact 0 source none normal options libraries readers (λ e. []) empty).0
ingest_nzb-Books_example =
    ingest_nzb-Books exact 0 source none normal options libraries readers (λ e. []) empty
      (record { live = tt; filed = tt }) source-Small

abbrev environment : Environment ℕ
environment = record {
  ops = no_scheduler;
  scaling = exact;
  libraries = libraries;
  readers = readers;
  shown = λ e. [];
}

empty-Numbered : Numbered empty.queue
empty-Numbered = record { once = λ j. omega arith; below = λ j h. refl }

empty-Runs : Runs environment empty empty
unfolding try_fill_download_slots
empty-Runs = starts empty 0 (λ n. accepted) [] refl

Runs-Round_example :
    (c : QueueCoordinator ℕ) × (sent : List ArticleAssignment) × (try_fill_download_slots
        no_scheduler
        (λ n. accepted)
        1
        (handle_command environment 1 1 (add_nzb source none normal options) empty).0
      ≡ some (c, sent))
    × Runs environment empty c
Runs-Round_example =
    Runs-Round environment empty empty empty-Runs empty-Numbered 1 1
      (add_nzb source none normal options) (λ n. accepted)

-- The state after a download was added.
abbrev added : (c : QueueCoordinator ℕ) × Runs environment empty c
added =
    let (c, sent, e, r) =
      Runs-Round environment empty empty empty-Runs empty-Numbered 1 1
        (add_nzb source none normal options) (λ n. accepted) in
    (c, r)

Runs-Numbered_example : Numbered added.0.queue
Runs-Numbered_example = Runs-Numbered environment empty added.0 added.1 empty-Numbered
