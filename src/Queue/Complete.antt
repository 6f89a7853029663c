-- ===== src/Queue/Complete.antt =====
-- crates/bergamot-queue/src/coordinator.rs: what happens when an article's download ends,
-- `handle_download_complete` and the checks that follow it.
use bergamot.Prelude.{
  ℕ, ◌+◌, ◌-◌, Bool, true, false, not, ◌&&◌, List, [], ◌∷◌, ◌++◌, map, Option, none, some, ltb,
  if◌then◌else◌, all, get_elem?,
}
use bergamot.Prelude.Find.{position, modify_at, remove_at}
use bergamot.Text.{Text}
use bergamot.Queue.Types.{
  ArticleStatus, undefined, finished, failed, by_health, HistoryKind, nzb_entry, queued,
  NzbParameter,
}
use bergamot.Queue.Nzb.{ArticleInfo, FileInfo, NzbInfo}
use bergamot.Queue.Health.{Scaling, calculate_health, calculate_critical_health, is_par_file}
use bergamot.Queue.State.{
  NzbCompletionNotice, QueueCoordinator, has_id, with_nzbs, with_history, modify_nzb, find_nzb,
}

-- `a.status == Finished || a.status == Failed`.
abbrev pub is_terminal : ArticleStatus → Bool
is_terminal finished = true
is_terminal failed = true
is_terminal s = false

abbrev pub article_in : Option FileInfo → ℕ → Option ArticleInfo
article_in none si = none
article_in (some f) si = get_elem? f.articles si

abbrev pub article_at : NzbInfo → ℕ → ℕ → Option ArticleInfo
article_at n fi si = article_in (get_elem? n.files fi) si

abbrev pub size_at : Option ArticleInfo → ℕ
size_at none = 0
size_at (some a) = a.size

abbrev pub terminal_at : Option ArticleInfo → Bool
terminal_at none = false
terminal_at (some a) = is_terminal a.status

abbrev pub par_at : Option FileInfo → Bool
par_at none = false
par_at (some f) = is_par_file f.filename

unfoldable pub file_success : ℕ → ℕ → ℕ → FileInfo → FileInfo
file_success si size crc f = record f {
  articles = modify_at si (λ a. record a { status = finished; crc = crc }) f.articles;
  remaining_size = f.remaining_size - size;
  success_size = f.success_size + size;
  success_articles = f.success_articles + 1;
}

unfoldable pub file_failure : ℕ → ℕ → FileInfo → FileInfo
file_failure si size f = record f {
  articles = modify_at si (λ a. record a { status = failed }) f.articles;
  remaining_size = f.remaining_size - size;
  failed_size = f.failed_size + size;
  failed_articles = f.failed_articles + 1;
}

abbrev or_now : Option ℕ → ℕ → Option ℕ
or_now none now = some now
or_now (some t) now = some t

-- The counters of a download after a success of `size` bytes, in a par2 file or not.
unfoldable pub counted_success : ℕ → Bool → ℕ → ℕ → ℕ → ℕ → NzbInfo → NzbInfo
unfolding file_success
counted_success size par fi si crc now n = record n {
  remaining_size = n.remaining_size - size;
  success_size = n.success_size + size;
  par_remaining_size = if par then n.par_remaining_size - size else n.par_remaining_size;
  par_current_success_size =
      if par then n.par_current_success_size + size else n.par_current_success_size;
  success_article_count = n.success_article_count + 1;
  download_start_time = or_now n.download_start_time now;
  files = modify_at fi (file_success si size crc) n.files;
}

unfoldable pub nzb_success : ℕ → ℕ → ℕ → ℕ → NzbInfo → NzbInfo
unfolding counted_success
nzb_success fi si crc now n =
    counted_success (size_at (article_at n fi si)) (par_at (get_elem? n.files fi)) fi si crc now n

-- The counters of a download after a failure of `size` bytes, in a par2 file or not.
unfoldable pub counted_failure : ℕ → Bool → ℕ → ℕ → NzbInfo → NzbInfo
unfolding file_failure
counted_failure size par fi si n = record n {
  remaining_size = n.remaining_size - size;
  failed_size = n.failed_size + size;
  par_remaining_size = if par then n.par_remaining_size - size else n.par_remaining_size;
  par_failed_size = if par then n.par_failed_size + size else n.par_failed_size;
  par_failed_article_count =
      if par then n.par_failed_article_count + 1 else n.par_failed_article_count;
  failed_article_count = n.failed_article_count + 1;
  files = modify_at fi (file_failure si size) n.files;
}

unfoldable pub nzb_failure : ℕ → ℕ → NzbInfo → NzbInfo
unfolding counted_failure
nzb_failure fi si n =
    counted_failure (size_at (article_at n fi si)) (par_at (get_elem? n.files fi)) fi si n

-- The article goes back to the queue.
unfoldable pub nzb_blocked : ℕ → ℕ → NzbInfo → NzbInfo
nzb_blocked fi si n = record n {
  files =
      modify_at fi
        (λ f. record f {
          articles = modify_at si (λ a. record a { status = undefined }) f.articles;
        })
        n.files;
}

-- `update_health`, on the download that it finds.
unfoldable pub nzb_health : Scaling → NzbInfo → NzbInfo
nzb_health sc n =
    let data_total = n.total_article_count - n.par_total_article_count in
    let data_failed = n.failed_article_count - n.par_failed_article_count in
    record n {
      health = calculate_health data_total data_failed;
      critical_health = calculate_critical_health sc data_total n.par_size n.par_failed_size;
    }

-- The test and the body of `check_file_completion`.
abbrev pub finishes : FileInfo → Bool
finishes f = not f.completed && all (λ (a : ArticleInfo). is_terminal a.status) f.articles

abbrev pub finish_file : ℕ → NzbInfo → Option FileInfo → NzbInfo
finish_file fi n none = n
finish_file fi n (some f) =
    if finishes f
    then record n {
      remaining_file_count = n.remaining_file_count - 1;
      remaining_par_count =
          if is_par_file f.filename then n.remaining_par_count - 1 else n.remaining_par_count;
      files = modify_at fi (λ g. record g { completed = true }) n.files;
    }
    else n

unfoldable pub nzb_file_completion : ℕ → NzbInfo → NzbInfo
nzb_file_completion fi n = finish_file fi n (get_elem? n.files fi)

abbrev since : Option ℕ → ℕ → ℕ → ℕ
since none now old = old
since (some start) now old = now - start

unfoldable pub start_post : ℕ → NzbInfo → NzbInfo
start_post now n = record n {
  download_sec = since n.download_start_time now n.download_sec;
  post_info = some (record {
    nzb_id = n.id;
    stage = queued;
    progress_label = [];
    file_progress = 0;
    stage_progress = 0;
    start_time = now;
    stage_time = now;
    working = true;
    messages = [];
  });
}

abbrev category_of : Text → Option Text
category_of [] = none
category_of (c ∷ s) = some (c ∷ s)

unfoldable pub notice : NzbInfo → NzbCompletionNotice
notice n = record {
  nzb_id = n.id;
  nzb_name = n.name;
  working_dir = n.temp_dir;
  category = category_of n.category;
  parameters = map (λ (p : NzbParameter). (p.name, p.value)) n.parameters;
}

abbrev pub too_ill : Option NzbInfo → Bool
too_ill none = false
too_ill (some n) = ltb n.health n.critical_health

abbrev pub all_complete : Option NzbInfo → Bool
all_complete none = false
all_complete (some n) = all (λ (f : FileInfo). f.completed) n.files

module _ {S : Type 0} where
  unfoldable pub add_to_history :
      ℕ → NzbInfo → HistoryKind → QueueCoordinator S → QueueCoordinator S
  add_to_history now n kind c =
      with_history c
        (c.queue.history ++ record { id = n.id; kind = kind; time = now; nzb_info = n } ∷ [])

  unfoldable pub update_health : Scaling → ℕ → QueueCoordinator S → QueueCoordinator S
  unfolding nzb_health
  update_health sc id c = modify_nzb id (nzb_health sc) c

  -- Takes a download out of the queue and files it, changed by `f`, in the history.
  abbrev pub retire :
      ℕ
      → ℕ
      → (NzbInfo → NzbInfo)
      → QueueCoordinator S
      → Option NzbInfo
      → Option ℕ
      → QueueCoordinator S
  unfolding add_to_history
  retire now id f c (some n) (some idx) =
      add_to_history now (f n) nzb_entry (with_nzbs c (remove_at idx c.queue.queue))
  retire now id f c n idx = c

  unfoldable pub check_health_failure : ℕ → ℕ → QueueCoordinator S → QueueCoordinator S
  unfolding add_to_history
  check_health_failure now id c =
      if too_ill (find_nzb id c)
      then retire now id (λ n. record n { delete_status = by_health }) c (find_nzb id c)
          (position (has_id id) c.queue.queue)
      else c

  unfoldable pub check_file_completion : ℕ → ℕ → QueueCoordinator S → QueueCoordinator S
  unfolding nzb_file_completion
  check_file_completion id fi c = modify_nzb id (nzb_file_completion fi) c

  -- A completion channel is offered the notice; without one the download is filed at once.
  abbrev pub hand_on :
      ℕ
      → ℕ
      → QueueCoordinator S
      → Option NzbInfo
      → Option (List NzbCompletionNotice)
      → QueueCoordinator S
  unfolding start_post notice add_to_history
  hand_on now id c (some n) (some sent) = record (modify_nzb id (start_post now) c) {
    completion_tx = some (sent ++ notice n ∷ []);
  }
  hand_on now id c found none =
      retire now id (start_post now) c found (position (has_id id) c.queue.queue)
  hand_on now id c none sent = c

  unfoldable pub check_nzb_completion : ℕ → ℕ → QueueCoordinator S → QueueCoordinator S
  unfolding start_post notice add_to_history
  check_nzb_completion now id c =
      if all_complete (find_nzb id c) then hand_on now id c (find_nzb id c) c.completion_tx else c
