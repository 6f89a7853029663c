-- ===== src/Nzb/Info/Complete.antt =====
-- crates/bergamot-nzb/src/parser.rs: what `parse` gives where it gives no error.
use bergamot.Prelude.{
  ◌%◌, ◌^◌, ◌≡◌, refl, sym, subst, ap, arith, ◌≢◌, Bool, true, false, List, [], ◌∷◌, map, All,
  length,
}
use bergamot.Prelude.Find.{sum_by}
use bergamot.Prelude.Sort.{
  sort_by, by_key, Rising, All-sort_by, Rising-sort_by, length-sort_by, sum_by-sort_by,
}
use bergamot.Nzb.Model.{Segment, NzbFile, NzbInfo, ok}
use bergamot.Nzb.Names.Distinct.{Renamed, Pairwise, Apart, ensure_unique_filenames-Apart}
use bergamot.Nzb.Subject.{Libraries, extract_filename, classify_par}
use bergamot.Nzb.Parser.{XmlEvent, NzbParser, new_parser}
use bergamot.Nzb.Ensures.{Ensures, Ensures-ok, Ensures-bind, ensures}
use bergamot.Nzb.Info.{sort_segments, named_files, build_nzb_info, read_events, end_of_input, parse}
use bergamot.Nzb.Info.Good.{Valid, Finished, Good}
use bergamot.Nzb.Info.Kept.{read_events-Good}

module _ (lib : Libraries) where
  -- A file of the result.
  pub record CompleteFile (f : NzbFile) : Type 0 where
    pub groups : f.groups ≢ []
    pub segments : f.segments ≢ []
    pub valid : All Valid f.segments
    pub in_order : Rising (λ s. s.number) f.segments
    pub kind : f.par_status ≡ classify_par lib (extract_filename lib f.subject)
    pub size : f.total_size ≡ sum_by (λ s. s.bytes) f.segments % 2 ^ 64

  pub record Complete (info : NzbInfo) : Type 0 where
    pub files : All CompleteFile info.files
    pub apart : Apart info.files
    pub some_file : info.files ≢ []
    pub size : info.total_size ≡ sum_by (λ f. f.total_size) info.files % 2 ^ 64
    pub file_count : info.file_count ≡ length info.files
    pub segment_count : info.total_segments ≡ sum_by (λ f. length f.segments) info.files

  sort_by-nonempty : (xs : List Segment) → xs ≢ [] → sort_by (by_key (λ s. s.number)) xs ≢ []
  sort_by-nonempty [] h e = h refl
  sort_by-nonempty (x ∷ xs) h e =
      omega (arith, ap length e, length-sort_by (by_key (λ s. s.number)) (x ∷ xs))

  sort_segments-Complete : (f : NzbFile) → Finished lib f → CompleteFile (sort_segments f)
  sort_segments-Complete f d = record {
    groups = d.groups;
    segments = sort_by-nonempty f.segments d.segments;
    valid = All-sort_by (by_key (λ s. s.number)) Valid f.segments d.valid;
    in_order = Rising-sort_by (λ s. s.number) f.segments;
    kind = d.kind;
    size = rw (sum_by-sort_by (by_key (λ s. s.number)) (λ s. s.bytes) f.segments) d.size;
  }

  Renamed-Complete : (f g : NzbFile) → Renamed f g → CompleteFile f → CompleteFile g
  Renamed-Complete f g r c = subst CompleteFile (sym r.only_name) (record {
    groups = c.groups;
    segments = c.segments;
    valid = c.valid;
    in_order = c.in_order;
    kind = c.kind;
    size = c.size;
  })

  Pairwise-Complete :
      (fs gs : List NzbFile) → Pairwise fs gs → All CompleteFile fs → All CompleteFile gs
  Pairwise-Complete [] [] p h = tt
  Pairwise-Complete [] (g ∷ gs) p h = absurd p
  Pairwise-Complete (f ∷ fs) [] p h = absurd p
  Pairwise-Complete (f ∷ fs) (g ∷ gs) p h =
      (Renamed-Complete f g p.0 h.0, Pairwise-Complete fs gs p.1 h.1)

  sorted-Complete :
      (fs : List NzbFile) → All (Finished lib) fs → All CompleteFile (map sort_segments fs)
  sorted-Complete [] h = tt
  sorted-Complete (f ∷ fs) h = (sort_segments-Complete f h.0, sorted-Complete fs h.1)

  Pairwise-nonempty :
      (fs gs : List NzbFile) → Pairwise (map sort_segments fs) gs → fs ≢ [] → gs ≢ []
  Pairwise-nonempty [] gs p n e = n refl
  Pairwise-nonempty (f ∷ fs) [] p n e = p
  Pairwise-nonempty (f ∷ fs) (g ∷ gs) p n e = cc

  build_nzb_info-Complete :
      (p : NzbParser) → p.files ≢ [] → Good lib p → Complete (build_nzb_info lib p)
  unfolding build_nzb_info named_files
  build_nzb_info-Complete p n g =
      let (out, at, pairs, apart) = ensure_unique_filenames-Apart (map sort_segments p.files) in
      rw at (record {
        files = Pairwise-Complete _ out pairs (sorted-Complete p.files g.files);
        apart = apart;
        some_file = Pairwise-nonempty p.files out pairs n;
        size = refl;
        file_count = refl;
        segment_count = refl;
      })

  end_of_input-Complete :
      (saw : Bool) (fs : List NzbFile) (p : NzbParser)
      → fs ≡ p.files
      → Good lib p
      → Ensures Complete (end_of_input lib saw fs p)
  unfolding end_of_input
  end_of_input-Complete false fs p e g = search ensures
  end_of_input-Complete true [] p e g = search ensures
  end_of_input-Complete true (f ∷ fs) p e g = Ensures-ok _ (build_nzb_info-Complete p (λ q. cc) g)

  -- Whatever the events, where `parse` gives no error its result has a file, every file has groups
  -- and segments, its segments are in the order of their numbers, which fit 32 bits, with a message
  -- id that is not empty and a size that fits 64 bits, its PAR status is that of the name in its
  -- subject, its size is the sum over its segments modulo 2^64, no two file names are the same, and
  -- the totals are those of the files.
  pub parse-Complete :
      (events : List XmlEvent) (info : NzbInfo) → parse lib events ≡ ok info → Complete info
  unfolding parse
  parse-Complete events info h =
      let start : Good lib new_parser = record { state = tt; builder = tt; files = tt } in
      let r = Ensures-bind (read_events lib false new_parser events) _ (λ s e.
        end_of_input-Complete s.0 s.1.files s.1 refl
          ((read_events-Good false new_parser events start).at s e)) in
      r.at info h
