-- ===== src/Nzb/Tests.antt =====
-- crates/bergamot-nzb: runs on small inputs, and the witnesses of the theorems.
use bergamot.Prelude.{◌≡◌, refl, List, [], ◌∷◌, Option, none, some, arith, All}
use bergamot.Prelude.Int.{pos}
use bergamot.Text.{Text, codes}
use bergamot.Nzb.Model.{NzbInfo, not_par, NzbFile, ok}
use bergamot.Nzb.Names.{
  ensure_unique_filenames, unique_from, free_suffix, name_for, take_suffix, candidate,
}
use bergamot.Nzb.Names.Distinct.{Pairwise, Apart, ensure_unique_filenames-Apart}
use bergamot.Nzb.Subject.{Libraries}
use bergamot.Nzb.Info.{build_nzb_info, parse}
use bergamot.Nzb.Info.Complete.{Complete, parse-Complete}
use bergamot.Nzb.Info.Document.{FileElement, WellFormed, document, read_document}
use bergamot.Nzb.Info.RoundTrip.{document-parsed, parse-document}
use bergamot.Nzb.Info.Metas.{MetaRead, AllRead}

-- The subject is the only match, no name has a volume, and the hash counts the texts.
abbrev libraries : Libraries
libraries = record {
  quoted = λ s. s ∷ [];
  volume = λ s. none;
  hash = λ ts. elim ts [ [] ↦ 0 | t ∷ rest ↦ 1 ];
}

abbrev file_named : Option Text → NzbFile
file_named name = record {
  poster = [];
  date = pos 0;
  subject = [];
  filename = name;
  groups = [];
  segments = [];
  par_status = not_par;
  total_size = 0;
}

abbrev three_files : List NzbFile
three_files =
    file_named (some (codes "a"))
    ∷ file_named (some (codes "a"))
    ∷ file_named none
    ∷ file_named (some (codes "a_2"))
    ∷ []

-- The name that the second file takes is that of the last one.
names_taken :
    ensure_unique_filenames three_files
    ≡ some (
        file_named (some (codes "a"))
        ∷ file_named (some (codes "a_2"))
        ∷ file_named none
        ∷ file_named (some (codes "a_2_2"))
        ∷ [])
unfolding ensure_unique_filenames unique_from free_suffix name_for take_suffix candidate
    bergamot.Text.Decimal.decimal
names_taken = refl

ensure_unique_filenames-Apart_example :
    (out : List NzbFile) × (ensure_unique_filenames three_files ≡ some out)
    × Pairwise three_files out
    × Apart out
ensure_unique_filenames-Apart_example = ensure_unique_filenames-Apart three_files

abbrev metas : List (Text × Text)
metas = (codes "title", codes "t") ∷ (codes "tag", codes "x") ∷ []

abbrev one_file : FileElement
one_file = record {
  poster = codes "p";
  date = codes "1706140800";
  subject = codes "s.rar";
  groups = codes "g" ∷ [];
  segments =
      record { number = 2; bytes = 5; message_id = codes "b@x" }
      ∷ record { number = 1; bytes = 7; message_id = codes "a@x" }
      ∷ [];
}

one_file-WellFormed : All WellFormed (one_file ∷ [])
one_file-WellFormed = (
  (
    (λ e. cc),
    (λ e. cc),
    (
      record { number_fits = omega arith; bytes_fit = omega arith; has_id = λ e. cc },
      (record { number_fits = omega arith; bytes_fit = omega arith; has_id = λ e. cc }, tt),
    ),
  ),
  tt,
)

parse-document_example :
    (info : NzbInfo) × (parse libraries (document metas (one_file ∷ [])) ≡ ok info)
    × MetaRead metas info.meta
    × AllRead (one_file ∷ []) info.files
parse-document_example =
    parse-document libraries metas (one_file ∷ []) (λ e. cc) one_file-WellFormed

parse-Complete_example :
    Complete libraries (build_nzb_info libraries (read_document libraries metas (one_file ∷ [])))
parse-Complete_example =
    parse-Complete libraries (document metas (one_file ∷ []))
      (build_nzb_info libraries (read_document libraries metas (one_file ∷ [])))
      (document-parsed libraries metas (one_file ∷ []) (λ e. cc) one_file-WellFormed)
