-- ===== src/Queue/NewNzb.antt =====
-- crates/bergamot-queue/src/coordinator.rs: the download that `ingest_nzb` makes of a parsed file;
-- command.rs's `AddNzbOptions`. The file at a path and the path's last component are arguments
-- (`NzbSource`).
use bergamot.Prelude.{
  ℕ, suc, Bool, true, false, List, [], ◌∷◌, ◌++◌, map, reverse, drop, Option, none, some, length,
  if◌then◌else◌,
}
use bergamot.Prelude.Int.{ℤ, pos}
use bergamot.Prelude.Find.{sum_by}
use bergamot.Text.{Text, codes, starts_with}
use bergamot.Text.Decimal.{decimal}
use bergamot.Nzb.Model.{Segment, NzbError}
use bergamot.Nzb.Model as Parsed
use bergamot.Queue.Types.{
  nzb_kind, Priority, DupMode, undefined, NzbParameter, par_none, unpack_none, move_none,
  delete_none, mark_none, url_none, script_none,
}
use bergamot.Queue.Nzb.{ArticleInfo, FileInfo, NzbInfo}
use bergamot.Queue.Health.{Scaling, calculate_critical_health}
use bergamot.Queue.State.{QueueCoordinator}

pub record AddNzbOptions : Type 0 where
  pub add_to_top : Bool
  pub add_paused : Bool
  pub dup_key : Option Text
  pub dup_score : Option ℤ
  pub dup_mode : Option DupMode
  pub parameters : List (Text × Text)

pub data Contents : Type 0 where
  contents : List ℕ → Contents
  unreadable : Text → Contents

pub record NzbSource : Type 0 where
  pub path : Text
  pub file_name : Option Text
  pub file : Contents

abbrev pub or_default : {A : Type 0} → A → Option A → A
or_default a none = a
or_default a (some b) = b

-- `name.strip_suffix(".nzb").unwrap_or(name)`.
abbrev pub strip_suffix : Text → Text → Text
strip_suffix suffix name =
    if starts_with (reverse suffix) (reverse name)
    then reverse (drop (length suffix) (reverse name))
    else name

-- `Path::join` with a relative path.
abbrev pub ends_in_slash : Text → Bool
ends_in_slash s = starts_with (b'/' ∷ []) (reverse s)

abbrev pub join : Text → Text → Text
join [] s = s
join (c ∷ d) s = if ends_in_slash (c ∷ d) then (c ∷ d) ++ s else (c ∷ d) ++ b'/' ∷ s

-- `nzb_file.par_status != NotPar`.
abbrev pub is_par : Parsed.NzbFile → Bool
is_par f = elim f.par_status [
  | Parsed.not_par ↦ false
  | Parsed.main_par ↦ true
  | Parsed.repair_volume offset count ↦ true
]

unfoldable pub new_article : Segment → ArticleInfo
new_article s = record {
  part_number = s.number;
  message_id = s.message_id;
  size = s.bytes;
  status = undefined;
  segment_offset = 0;
  segment_size = s.bytes;
  crc = 0;
}

abbrev pub output_filename : ℕ → Option Text → Text
unfolding decimal
output_filename file_idx none = codes "file-" ++ decimal file_idx
output_filename file_idx (some s) = s

-- One round of the loop over the files.
unfoldable pub new_file : ℕ → Priority → ℕ → ℕ → ℕ → Parsed.NzbFile → FileInfo
unfolding new_article output_filename
new_file now priority nzb_id file_id file_idx f = record {
  id = file_id;
  nzb_id = nzb_id;
  filename = output_filename file_idx f.filename;
  subject = f.subject;
  output_filename = output_filename file_idx f.filename;
  groups = f.groups;
  articles = map new_article f.segments;
  size = f.total_size;
  remaining_size = f.total_size;
  success_size = 0;
  failed_size = 0;
  missed_size = 0;
  total_articles = length f.segments;
  missing_articles = 0;
  failed_articles = 0;
  success_articles = 0;
  paused = false;
  completed = false;
  priority = priority;
  time = now;
  active_downloads = 0;
  crc = 0;
  server_stats = [];
}

-- The loop: ids and indices count up.
unfoldable pub new_files : ℕ → Priority → ℕ → ℕ → ℕ → List Parsed.NzbFile → List FileInfo
unfolding new_file
new_files now priority nzb_id file_id file_idx [] = []
new_files now priority nzb_id file_id file_idx (f ∷ fs) =
    new_file now priority nzb_id file_id file_idx f
    ∷ new_files now priority nzb_id (suc file_id) (suc file_idx) fs

-- A figure of the files that are classified as PAR files.
abbrev pub par_sum : (Parsed.NzbFile → ℕ) → List Parsed.NzbFile → ℕ
par_sum g = sum_by (λ f. if is_par f then g f else 0)

unfoldable pub new_nzb :
    {S : Type 0}
    → Scaling
    → ℕ
    → NzbSource
    → Text
    → Text
    → DupMode
    → Option Text
    → Priority
    → AddNzbOptions
    → QueueCoordinator S
    → List Parsed.NzbFile
    → NzbInfo
unfolding new_files decimal
new_nzb sc now source name dup_key dup_mode category priority options c parsed =
    let id = c.queue.next_nzb_id in
    let total_size = sum_by (λ (f : Parsed.NzbFile). f.total_size) parsed in
    let total_article_count = sum_by (λ (f : Parsed.NzbFile). length f.segments) parsed in
    let par_size = par_sum (λ f. f.total_size) parsed in
    record {
      id = id;
      kind = nzb_kind;
      name = name;
      filename = source.path;
      url = [];
      dest_dir = c.dest_dir;
      final_dir = [];
      temp_dir = join c.inter_dir (codes "nzb-" ++ decimal id);
      queue_dir = [];
      category = or_default [] category;
      priority = priority;
      dup_key = dup_key;
      dup_mode = dup_mode;
      dup_score = or_default (pos 0) options.dup_score;
      size = total_size;
      remaining_size = total_size;
      paused_size = 0;
      failed_size = 0;
      success_size = 0;
      current_downloaded_size = 0;
      par_size = par_size;
      par_remaining_size = par_size;
      par_current_success_size = 0;
      par_failed_size = 0;
      par_total_article_count = par_sum (λ f. length f.segments) parsed;
      par_failed_article_count = 0;
      file_count = length parsed;
      remaining_file_count = length parsed;
      remaining_par_count = par_sum (λ f. 1) parsed;
      total_article_count = total_article_count;
      success_article_count = 0;
      failed_article_count = 0;
      added_time = now;
      min_time = none;
      max_time = none;
      download_start_time = none;
      download_sec = 0;
      post_total_sec = 0;
      par_sec = 0;
      repair_sec = 0;
      unpack_sec = 0;
      paused = options.add_paused;
      deleted = false;
      direct_rename = false;
      force_priority = false;
      reprocess = false;
      par_manual = false;
      clean_up_disk = false;
      par_status = par_none;
      unpack_status = unpack_none;
      move_status = move_none;
      delete_status = delete_none;
      mark_status = mark_none;
      url_status = url_none;
      script_status = script_none;
      health = 1000;
      critical_health = calculate_critical_health sc total_article_count par_size 0;
      files = new_files now priority id c.queue.next_file_id 0 parsed;
      completed_files = [];
      server_stats = [];
      parameters =
          map
            (λ (kv : Text × Text). let p : NzbParameter = record { name = kv.0; value = kv.1 } in p)
            options.parameters;
      post_info = none;
      message_count = 0;
      cached_message_count = 0;
    }
