-- ===== src/Queue/Types.antt =====
-- crates/bergamot-core/src/models.rs: the enumerations, and the records without sizes. A time is a
-- number of seconds, a path is a text, and a fraction of a stage is counted in thousandths.
use bergamot.Prelude.{ℕ, Bool, List, Option}
use bergamot.Text.{Text}

pub data NzbKind : Type 0 where
  nzb_kind url_kind : NzbKind

pub data Priority : Type 0 where
  very_low low normal high very_high force : Priority

-- The derived order of `Priority`.
abbrev pub rank : Priority → ℕ
rank very_low = 0
rank low = 1
rank normal = 2
rank high = 3
rank very_high = 4
rank force = 5

-- `priority == Priority::Force`.
abbrev pub is_force : Priority → Bool
is_force force = Bool.true
is_force p = Bool.false

pub data ParStatus : Type 0 where
  par_none par_failure par_success repair_possible par_manually : ParStatus

pub data UnpackStatus : Type 0 where
  unpack_none unpack_failure unpack_success unpack_password unpack_space : UnpackStatus

pub data MoveStatus : Type 0 where
  move_none move_failure move_success : MoveStatus

pub data DeleteStatus : Type 0 where
  delete_none by_hand by_health as_dupe as_bad as_good as_copy by_scan : DeleteStatus

pub data MarkStatus : Type 0 where
  mark_none mark_good mark_bad mark_success : MarkStatus

pub data ScriptStatus : Type 0 where
  script_none script_failure script_success : ScriptStatus

pub data UrlStatus : Type 0 where
  url_none url_failure url_success scan_failure scan_skipped : UrlStatus

pub data DupMode : Type 0 where
  by_score by_all by_force : DupMode

pub data ArticleStatus : Type 0 where
  undefined running finished failed : ArticleStatus

pub data HistoryKind : Type 0 where
  nzb_entry url_entry dup_hidden : HistoryKind

pub data CompletedFileStatus : Type 0 where
  file_success file_failure file_dupe file_deleted : CompletedFileStatus

pub data PostStage : Type 0 where
  queued par_loading par_renaming par_verifying par_repairing : PostStage
  unpacking moving executing stage_finished : PostStage

pub data PostMessageKind : Type 0 where
  info warning error_message detail : PostMessageKind

pub data PostStrategy : Type 0 where
  sequential balanced rocket aggressive : PostStrategy

pub record ServerStat : Type 0 where
  pub server_id : ℕ
  pub success_articles : ℕ
  pub failed_articles : ℕ

pub record CompletedFile : Type 0 where
  pub filename : Text
  pub original_filename : Text
  pub status : CompletedFileStatus
  pub crc : ℕ
  pub id : ℕ
  pub size : ℕ
  pub hash : Option Text

pub record NzbParameter : Type 0 where
  pub name : Text
  pub value : Text

pub record PostMessage : Type 0 where
  pub kind : PostMessageKind
  pub text : Text
  pub time : ℕ

pub record PostInfo : Type 0 where
  pub nzb_id : ℕ
  pub stage : PostStage
  pub progress_label : Text
  pub file_progress : ℕ
  pub stage_progress : ℕ
  pub start_time : ℕ
  pub stage_time : ℕ
  pub working : Bool
  pub messages : List PostMessage
