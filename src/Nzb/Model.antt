-- ===== src/Nzb/Model.antt =====
-- crates/bergamot-nzb/src/model.rs and error.rs.
use bergamot.Prelude.{ℕ, List, Option}
use bergamot.Prelude.Int.{ℤ}
use bergamot.Text.{Text}

pub record Segment : Type 0 where
  pub number : ℕ
  pub bytes : ℕ
  pub message_id : Text

pub data ParStatus : Type 0 where
  not_par main_par : ParStatus
  repair_volume : ℕ → ℕ → ParStatus

pub record NzbFile : Type 0 where
  pub poster : Text
  pub date : ℤ
  pub subject : Text
  pub filename : Option Text
  pub groups : List Text
  pub segments : List Segment
  pub par_status : ParStatus
  pub total_size : ℕ

pub record NzbMeta : Type 0 where
  pub title : Option Text
  pub password : Option Text
  pub category : Option Text
  pub tags : List Text
  pub extra : List (Text × Text)

pub record NzbInfo : Type 0 where
  pub meta : NzbMeta
  pub files : List NzbFile
  pub total_size : ℕ
  pub file_count : ℕ
  pub total_segments : ℕ
  pub content_hash : ℕ
  pub name_hash : ℕ

pub data NzbError : Type 0 where
  xml_error : NzbError
  malformed_nzb : Text → NzbError
  no_files : NzbError
  invalid_segment : Text → NzbError

pub data Parsed (A : Type 0) : Type 0 where
  ok : A → Parsed A
  err : NzbError → Parsed A
