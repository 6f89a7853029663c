-- ===== src/Queue/Tests/Samples.antt =====
-- Small downloads.
use native.Mathlib.Nat.{mul-le-mul_left, div-zero, mul-div_cancel}
use bergamot.Queue.Health.Bounds.{div-le}
use bergamot.Prelude.{zero, suc, ◌*◌, ◌/◌, ◌≤◌, ◌≡◌, arith, ℕ, false, [], ◌∷◌, List, none}
use bergamot.Prelude.Int.{pos}
use bergamot.Text.{codes}
use bergamot.Queue.Types.{
  nzb_kind, normal, high, by_score, undefined, running, par_none, unpack_none, move_none,
  delete_none, mark_none, url_none, script_none, ArticleStatus, Priority, sequential, nzb_entry,
}
use bergamot.Queue.Nzb.{ArticleInfo, FileInfo, NzbInfo, HistoryInfo}
use bergamot.Queue.Health.{Scaling}
use bergamot.Queue.State.{QueueCoordinator, SchedulerOps, DownloadResult, success}
use bergamot.Text.{Text}

abbrev pub article : ℕ → ℕ → ArticleStatus → ArticleInfo
article part size s = record {
  part_number = part;
  message_id = codes "a@b";
  size = size;
  status = s;
  segment_offset = 0;
  segment_size = size;
  crc = 0;
}

abbrev pub file : ℕ → Text → ℕ → List ArticleInfo → FileInfo
file id name size articles = record {
  id = id;
  nzb_id = 1;
  filename = name;
  subject = name;
  output_filename = name;
  groups = codes "alt.test" ∷ [];
  articles = articles;
  size = size;
  remaining_size = size;
  success_size = 0;
  failed_size = 0;
  missed_size = 0;
  total_articles = 2;
  missing_articles = 0;
  failed_articles = 0;
  success_articles = 0;
  paused = false;
  completed = false;
  priority = normal;
  time = 0;
  active_downloads = 0;
  crc = 0;
  server_stats = [];
}

abbrev pub nzb : ℕ → Priority → List FileInfo → ℕ → NzbInfo
nzb id p files size = record {
  id = id;
  kind = nzb_kind;
  name = codes "test";
  filename = codes "test.nzb";
  url = [];
  dest_dir = codes "/dest";
  final_dir = [];
  temp_dir = codes "/inter";
  queue_dir = [];
  category = [];
  priority = p;
  dup_key = [];
  dup_mode = by_score;
  dup_score = pos 0;
  size = size;
  remaining_size = size;
  paused_size = 0;
  failed_size = 0;
  success_size = 0;
  current_downloaded_size = 0;
  par_size = 0;
  par_remaining_size = 0;
  par_current_success_size = 0;
  par_failed_size = 0;
  par_total_article_count = 0;
  par_failed_article_count = 0;
  file_count = 1;
  remaining_file_count = 1;
  remaining_par_count = 0;
  total_article_count = 2;
  success_article_count = 0;
  failed_article_count = 0;
  added_time = 0;
  min_time = none;
  max_time = none;
  download_start_time = none;
  download_sec = 0;
  post_total_sec = 0;
  par_sec = 0;
  repair_sec = 0;
  unpack_sec = 0;
  paused = false;
  deleted = false;
  direct_rename = false;
  force_priority = false;
  reprocess = false;
  par_manual = false;
  clean_up_disk = false;
  par_status = par_none;
  unpack_status = unpack_none;
  move_status = move_none;
  delete_status = delete_none;
  mark_status = mark_none;
  url_status = url_none;
  script_status = script_none;
  health = 1000;
  critical_health = 1000;
  files = files;
  completed_files = [];
  server_stats = [];
  parameters = [];
  post_info = none;
  message_count = 0;
  cached_message_count = 0;
}

abbrev pub two_articles : FileInfo
two_articles = file 7 (codes "a.rar") 30 (article 1 10 running ∷ article 2 20 undefined ∷ [])

abbrev pub first : NzbInfo
first = nzb 1 normal (two_articles ∷ []) 30

abbrev pub second : NzbInfo
second = nzb 2 normal (two_articles ∷ []) 30

abbrev pub coordinator : List NzbInfo → List HistoryInfo → QueueCoordinator ℕ
coordinator nzbs entries = record {
  queue = record { queue = nzbs; history = entries; next_nzb_id = 9; next_file_id = 9 };
  active_downloads = [];
  active_per_file = [];
  max_connections = 4;
  max_articles_per_file = 2;
  download_rate = 0;
  paused = false;
  shutdown = false;
  strategy = sequential;
  inter_dir = codes "/inter";
  dest_dir = codes "/dest";
  completion_tx = none;
  session_downloaded = 0;
  server_scheduler = none;
}

abbrev pub entry : HistoryInfo
entry = record { id = 5; kind = nzb_entry; time = 3; nzb_info = nzb 5 high (two_articles ∷ []) 30 }

abbrev pub no_scheduler : SchedulerOps ℕ
no_scheduler = record {
  complete_on_server = λ s sid bytes elapsed succeeded. s;
  assign_to_server = λ s sid bytes. s;
  select_server = λ s bytes. none;
  total_max_connections = λ s. 0;
  total_available_capacity = λ s. 0;
}

abbrev pub finished_first : DownloadResult
finished_first = record {
  article_id = record { nzb_id = 1; file_idx = 0; seg_idx = 0 };
  outcome = success [] 0 77;
  server_id = none;
  elapsed = none;
}

-- Exact proportions meet the assumptions on the scaling.
abbrev pub proportion : ℕ → ℕ → ℕ → ℕ
proportion n a b = n * a / b

pub proportion-le : (n a b : ℕ) → a ≤ b → proportion n a b ≤ n
proportion-le n a zero h = omega (arith, div-zero (n * a))
proportion-le n a (suc b) h = div-le n (n * a) (suc b) (omega arith) (mul-le-mul_left n h)

pub proportion_whole : (n a : ℕ) → 1 ≤ a → proportion n a a ≡ n
proportion_whole n a h = mul-div_cancel n h

abbrev pub exact : Scaling
exact = record { scale = proportion; scale-le = proportion-le; scale-whole = proportion_whole }
