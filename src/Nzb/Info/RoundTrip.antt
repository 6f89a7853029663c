-- ===== src/Nzb/Info/RoundTrip.antt =====
-- crates/bergamot-nzb/src/parser.rs: a document and what `parse` gives for it.
use bergamot.Prelude.{◌≡◌, refl, ◌∙◌, ap, ◌≢◌, true, false, List, [], ◌∷◌, map, none, All}
use bergamot.Text.{Text, codes}
use bergamot.Nzb.Model.{NzbInfo, ok}
use bergamot.Nzb.Subject.{Libraries}
use bergamot.Nzb.Parser.{start, end, in_nzb, NzbParser, new_parser, handle_start, start_by, ◌>>=◌}
use bergamot.Nzb.Ends.{built, handle_end, end_by}
use bergamot.Nzb.Info.{build_nzb_info, handle_event, read_events, end_of_input, parse}
use bergamot.Nzb.Info.Document.{
  FileElement, WellFormed, document, builder_of, add_metas, read_document,
}
use bergamot.Nzb.Info.Metas.{MetaRead, AllRead, add_metas-MetaRead, named_files-AllRead}
use bergamot.Nzb.Info.Elements.{
  holding, Reads-done, Reads-step, Reads-append, metas-Reads, files-Reads,
}

module _ (lib : Libraries) where
  document-read :
      (metas : List (Text × Text)) (files : List FileElement)
      → All WellFormed files
      → read_events lib false new_parser (document metas files)
        ≡ ok (true, read_document lib metas files)
  unfolding read_events handle_event handle_start handle_end start_by end_by
  document-read metas files w =
      let m = add_metas new_parser.meta metas in
      (Reads-step {lib = lib} {p = holding in_nzb new_parser.meta [] none []}
        (start (codes "head") []) refl
        (Reads-append (metas-Reads metas new_parser.meta [] none) (
          Reads-step (end (codes "head")) refl (
            Reads-append (files-Reads files m [] w)
              (Reads-step (end (codes "nzb")) refl (Reads-done _)))))).run

  checked :
      (files : List FileElement) (p : NzbParser)
      → files ≢ []
      → end_of_input lib true (map (λ f. built lib (builder_of f)) files) p
        ≡ ok (build_nzb_info lib p)
  unfolding end_of_input
  checked [] p n = absurd (n refl)
  checked (f ∷ files) p n = refl

  pub document-parsed :
      (metas : List (Text × Text)) (files : List FileElement)
      → files ≢ []
      → All WellFormed files
      → parse lib (document metas files) ≡ ok (build_nzb_info lib (read_document lib metas files))
  unfolding parse
  document-parsed metas files n w =
      ap (λ r. r >>= λ (saw, p). end_of_input lib saw p.files p) (document-read metas files w)
      ∙ checked files (read_document lib metas files) n

  -- A document with a root, a head with any metas and one or more files, each with groups and
  -- segments whose numbers and sizes fit 32 and 64 bits and whose message ids are not empty,
  -- parses. The result has the last title, the last password and the last category of the metas,
  -- all tags in order, and the metas with other keys as pairs in order. It has a file for each
  -- element in order, with its poster, its date, its subject, its groups in order, and all of its
  -- segments, by rising numbers.
  pub parse-document :
      (metas : List (Text × Text)) (files : List FileElement)
      → files ≢ []
      → All WellFormed files
      → (info : NzbInfo) × (parse lib (document metas files) ≡ ok info)
        × MetaRead metas info.meta
        × AllRead files info.files
  unfolding build_nzb_info
  parse-document metas files n w = (
    build_nzb_info lib (read_document lib metas files),
    document-parsed metas files n w,
    add_metas-MetaRead metas,
    named_files-AllRead lib files,
  )
