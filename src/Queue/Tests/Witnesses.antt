-- ===== src/Queue/Tests/Witnesses.antt =====
-- The properties of the queue at small inputs.
use bergamot.Prelude.{
  none, ℕ, ◌+◌, ◌≤◌, ◌<◌, ◌≡◌, refl, ◌⊎◌, inl, inr, Bool, true, [], ◌∷◌, some, arith, All, Any,
  length,
}
use bergamot.Prelude.Find.{find}
use bergamot.Queue.Types.{high, undefined}
use bergamot.Queue.Nzb.{FileInfo}
use bergamot.Queue.Health.{is_par_file, calculate_health, calculate_critical_health}
use bergamot.Queue.Health.Bounds.{critical_range, calculate_health_lost}
use bergamot.Queue.State.{
  active_per_file_count, QueueCoordinator, ArticleId, nzb_not_found, invalid_move, has_id,
}
use bergamot.Queue.Download.{handle_download_complete}
use bergamot.Queue.Download.Accounts.{FileAccounts}
use bergamot.Queue.Download.Books.{NzbAccounts}
use bergamot.Queue.Download.Steps.{Books}
use bergamot.Queue.Download.Ledger.{handle_download_complete-Books}
use bergamot.Queue.Edit.{top, before, set_priority, ok, move_in, edit}
use bergamot.Queue.Edit.Move.{Taken, NoSuch, Landed, move_in-Landed, move_in-err}
use bergamot.Queue.Edit.Setters.{Edited, edit-find}
use bergamot.Queue.Select.{effective_per_file_cap, next_article_filtered}
use bergamot.Queue.Select.Choice.{
  Eligible, Foremost, next_article_filtered-Foremost, next_article_filtered-none,
}
use bergamot.Queue.Select.Last.{next_article_filtered-last}
use bergamot.Queue.History.{redownloaded}
use bergamot.Queue.History.Again.{redownloaded_stale}
use bergamot.Queue.Tests.Samples.{
  article, first, second, two_articles, coordinator, entry, no_scheduler, finished_first, exact,
}

two_articles-FileAccounts : FileAccounts two_articles
two_articles-FileAccounts = record {
  succeeded = refl;
  lost = refl;
  left = refl;
  hits = refl;
  misses = refl;
}

first-NzbAccounts : NzbAccounts first
unfolding is_par_file
first-NzbAccounts = record {
  each = (two_articles-FileAccounts, tt);
  succeeded = refl;
  lost = refl;
  left = refl;
  hits = refl;
  misses = refl;
  par_gained = refl;
  par_lost = refl;
  par_misses = refl;
  unfinished = refl;
  articles = refl;
}

abbrev both : QueueCoordinator ℕ
both = coordinator (first ∷ second ∷ []) (entry ∷ [])

abbrev alone : QueueCoordinator ℕ
alone = coordinator (first ∷ []) []

handle_download_complete-Books_example :
    Books (handle_download_complete no_scheduler exact finished_first 100 5 alone)
handle_download_complete-Books_example =
    handle_download_complete-Books no_scheduler exact finished_first 100 5 alone
      (record { live = (first-NzbAccounts, tt); filed = tt }) (λ n e. ground arith)

abbrev every : FileInfo → Bool
every f = true

abbrev second_article : ArticleId
second_article = record { nzb_id = 2; file_idx = 0; seg_idx = 1 }

next_article_filtered-Foremost_example :
    Any (Foremost both every second_article) (first ∷ second ∷ [])
unfolding next_article_filtered
next_article_filtered-Foremost_example =
    next_article_filtered-Foremost both every second_article refl

-- A paused download of normal priority.
abbrev resting : QueueCoordinator ℕ
resting = coordinator (record first { paused = true } ∷ []) []

next_article_filtered-none_example :
    All
      (λ n. (id : ArticleId) → ¬ Eligible resting every n id)
      (record first { paused = true } ∷ [])
unfolding next_article_filtered
next_article_filtered-none_example = next_article_filtered-none resting every refl

second-Eligible : Eligible both every second second_article
second-Eligible = record {
  file = two_articles;
  article = article 2 20 undefined;
  of_nzb = refl;
  at_file = refl;
  at_article = refl;
  not_tried = refl;
  not_in_post = refl;
  nzb_runs = inl refl;
  file_runs = inl refl;
  passes = refl;
  below_cap = unfold effective_per_file_cap active_per_file_count in omega arith;
}

next_article_filtered-last_example :
    (chosen : ArticleId) × (next_article_filtered both every ≡ some chosen) × (chosen.nzb_id ≡ 2)
next_article_filtered-last_example =
    next_article_filtered-last both every (first ∷ []) second second_article refl (omega arith)
      second-Eligible

move_in-Landed_example : Landed 2 top (first ∷ second ∷ []) (second ∷ first ∷ [])
unfolding move_in
move_in-Landed_example = move_in-Landed 2 top (first ∷ second ∷ []) (second ∷ first ∷ []) refl

-- Moved before a download that is not there, the second one disappears.
move_in-err_example :
    ((invalid_move ≡ nzb_not_found 2)
      × (first ∷ [] ≡ first ∷ second ∷ [])
      × (find (has_id 2) (first ∷ second ∷ []) ≡ none))
    ⊎ ((t : Taken 2 (first ∷ second ∷ [])) × (invalid_move ≡ invalid_move)
        × NoSuch (before 3) t.others
        × (first ∷ [] ≡ t.others)
        × (length (first ∷ []) + 1 ≡ length (first ∷ second ∷ [])))
unfolding move_in
move_in-err_example = move_in-err 2 (before 3) (first ∷ second ∷ []) (first ∷ []) invalid_move refl

edit-find_example :
    ((edit (set_priority high) (2 ∷ []) (first ∷ second ∷ [])).1 ≡ ok tt)
    × Edited
        (set_priority high)
        true
        (some second)
        (find (has_id 2) (edit (set_priority high) (2 ∷ []) (first ∷ second ∷ [])).0)
edit-find_example = edit-find (set_priority high) (2 ∷ []) 2 (first ∷ second ∷ []) refl

redownloaded_stale_example : ¬ NzbAccounts (redownloaded 9 (record first { par_failed_size = 10 }))
redownloaded_stale_example =
    redownloaded_stale 9 (record first { par_failed_size = 10 }) (inr (inl (omega arith)))

critical_range_example :
    (900 ≤ calculate_critical_health exact 40 100 50)
    × (calculate_critical_health exact 40 100 50 ≤ 1000)
critical_range_example = critical_range exact 40 100 50

calculate_health_lost_example : calculate_health 40 5 < calculate_critical_health exact 40 100 50
calculate_health_lost_example = calculate_health_lost exact 40 5 100 50 (omega arith) (omega arith)

-- The second article of a download is asked for; its file is complete when both have ended.
ends_with_history :
    (handle_download_complete no_scheduler exact finished_first 100 5 alone).session_downloaded ≡ 10
unfolding handle_download_complete calculate_health calculate_critical_health
ends_with_history = refl
