-- ===== src/Queue/Nzb.antt =====
-- crates/bergamot-core/src/models.rs: downloads, their files and articles, the queue and history.
use bergamot.Prelude.{ℕ, Bool, List, Option}
use bergamot.Prelude.Int.{ℤ}
use bergamot.Text.{Text}
use bergamot.Queue.Types.{
  NzbKind, Priority, ParStatus, UnpackStatus, MoveStatus, DeleteStatus, MarkStatus, ScriptStatus,
  UrlStatus, DupMode, ArticleStatus, HistoryKind, ServerStat, CompletedFile, NzbParameter, PostInfo,
}

pub record ArticleInfo : Type 0 where
  pub part_number : ℕ
  pub message_id : Text
  pub size : ℕ
  pub status : ArticleStatus
  pub segment_offset : ℕ
  pub segment_size : ℕ
  pub crc : ℕ

pub record FileInfo : Type 0 where
  pub id : ℕ
  pub nzb_id : ℕ
  pub filename : Text
  pub subject : Text
  pub output_filename : Text
  pub groups : List Text
  pub articles : List ArticleInfo
  pub size : ℕ
  pub remaining_size : ℕ
  pub success_size : ℕ
  pub failed_size : ℕ
  pub missed_size : ℕ
  pub total_articles : ℕ
  pub missing_articles : ℕ
  pub failed_articles : ℕ
  pub success_articles : ℕ
  pub paused : Bool
  pub completed : Bool
  pub priority : Priority
  pub time : ℕ
  pub active_downloads : ℕ
  pub crc : ℕ
  pub server_stats : List ServerStat

pub record NzbInfo : Type 0 where
  pub id : ℕ
  pub kind : NzbKind
  pub name : Text
  pub filename : Text
  pub url : Text
  pub dest_dir : Text
  pub final_dir : Text
  pub temp_dir : Text
  pub queue_dir : Text
  pub category : Text
  pub priority : Priority
  pub dup_key : Text
  pub dup_mode : DupMode
  pub dup_score : ℤ
  pub size : ℕ
  pub remaining_size : ℕ
  pub paused_size : ℕ
  pub failed_size : ℕ
  pub success_size : ℕ
  pub current_downloaded_size : ℕ
  pub par_size : ℕ
  pub par_remaining_size : ℕ
  pub par_current_success_size : ℕ
  pub par_failed_size : ℕ
  pub par_total_article_count : ℕ
  pub par_failed_article_count : ℕ
  pub file_count : ℕ
  pub remaining_file_count : ℕ
  pub remaining_par_count : ℕ
  pub total_article_count : ℕ
  pub success_article_count : ℕ
  pub failed_article_count : ℕ
  pub added_time : ℕ
  pub min_time : Option ℕ
  pub max_time : Option ℕ
  pub download_start_time : Option ℕ
  pub download_sec : ℕ
  pub post_total_sec : ℕ
  pub par_sec : ℕ
  pub repair_sec : ℕ
  pub unpack_sec : ℕ
  pub paused : Bool
  pub deleted : Bool
  pub direct_rename : Bool
  pub force_priority : Bool
  pub reprocess : Bool
  pub par_manual : Bool
  pub clean_up_disk : Bool
  pub par_status : ParStatus
  pub unpack_status : UnpackStatus
  pub move_status : MoveStatus
  pub delete_status : DeleteStatus
  pub mark_status : MarkStatus
  pub url_status : UrlStatus
  pub script_status : ScriptStatus
  pub health : ℕ
  pub critical_health : ℕ
  pub files : List FileInfo
  pub completed_files : List CompletedFile
  pub server_stats : List ServerStat
  pub parameters : List NzbParameter
  pub post_info : Option PostInfo
  pub message_count : ℕ
  pub cached_message_count : ℕ

pub record HistoryInfo : Type 0 where
  pub id : ℕ
  pub kind : HistoryKind
  pub time : ℕ
  pub nzb_info : NzbInfo

pub record DownloadQueue : Type 0 where
  pub queue : List NzbInfo
  pub history : List HistoryInfo
  pub next_nzb_id : ℕ
  pub next_file_id : ℕ
