-- ===== src/Queue/Download/Steps.antt =====
-- The counters are kept by the checks that follow an outcome.
use bergamot.Prelude.{
  ℕ, ◌≡◌, refl, ◌∙◌, sym, inl, inr, Bool-cases, true, List, Option, none, some, arith, get_elem?,
  All, All-append,
}
use bergamot.Prelude.Find.{
  position, modify_at, sum_by, sum_by-modify_at, sum_by-modify_at_same, All-modify_at,
  All-modify_first, All-remove_at, All-find,
}
use bergamot.Queue.Types.{by_health}
use bergamot.Queue.Nzb.{FileInfo, NzbInfo, HistoryInfo}
use bergamot.Queue.Health.{Scaling}
use bergamot.Queue.State.{
  ArticleId, NzbCompletionNotice, QueueCoordinator, has_id, modify_nzb, find_nzb,
}
use bergamot.Queue.Complete.{
  finish_file, finishes, nzb_health, nzb_file_completion, start_post, add_to_history, update_health,
  check_health_failure, check_file_completion, check_nzb_completion, retire, hand_on, all_complete,
  too_ill, notice,
}
use bergamot.Queue.Download.{check_all}
use bergamot.Queue.Download.Accounts.{FileAccounts}
use bergamot.Queue.Download.Books.{NzbAccounts, par_only, to_finish, article_count}

nzb_health-NzbAccounts :
    (sc : Scaling) (n : NzbInfo) → NzbAccounts n → NzbAccounts (nzb_health sc n)
unfolding nzb_health
nzb_health-NzbAccounts sc n k = record {
  each = k.each;
  succeeded = k.succeeded;
  lost = k.lost;
  left = k.left;
  hits = k.hits;
  misses = k.misses;
  par_gained = k.par_gained;
  par_lost = k.par_lost;
  par_misses = k.par_misses;
  unfinished = k.unfinished;
  articles = k.articles;
}

start_post-NzbAccounts : (now : ℕ) (n : NzbInfo) → NzbAccounts n → NzbAccounts (start_post now n)
unfolding start_post
start_post-NzbAccounts now n k = record {
  each = k.each;
  succeeded = k.succeeded;
  lost = k.lost;
  left = k.left;
  hits = k.hits;
  misses = k.misses;
  par_gained = k.par_gained;
  par_lost = k.par_lost;
  par_misses = k.par_misses;
  unfinished = k.unfinished;
  articles = k.articles;
}

reset_delete_status :
    (n : NzbInfo) → NzbAccounts n → NzbAccounts (record n { delete_status = by_health })
reset_delete_status n k = record {
  each = k.each;
  succeeded = k.succeeded;
  lost = k.lost;
  left = k.left;
  hits = k.hits;
  misses = k.misses;
  par_gained = k.par_gained;
  par_lost = k.par_lost;
  par_misses = k.par_misses;
  unfinished = k.unfinished;
  articles = k.articles;
}

-- Marking a file as complete moves no counter.
marked : ℕ → NzbInfo → List FileInfo
marked fi n = modify_at fi (λ g. record g { completed = true }) n.files

module _ (fi : ℕ) (n : NzbInfo) (k : NzbAccounts n) where
  same_sum :
      (g : FileInfo → ℕ)
      → ((f : FileInfo) → g (record f { completed = true }) ≡ g f)
      → sum_by g (marked fi n) ≡ sum_by g n.files
  unfolding marked
  same_sum g h = sum_by-modify_at_same g fi (λ f. record f { completed = true }) n.files h

  finish_file-NzbAccounts :
      (o : Option FileInfo) → get_elem? n.files fi ≡ o → NzbAccounts (finish_file fi n o)
  unfolding marked
  finish_file-NzbAccounts none here = k
  finish_file-NzbAccounts (some f) here = elim (Bool-cases (finishes f)) [
    | inr e ↦ rw e k
    | inl e ↦ rw e (record {
      each = All-modify_at FileAccounts fi _ n.files k.each (λ g _ v. record {
        succeeded = v.succeeded;
        lost = v.lost;
        left = v.left;
        hits = v.hits;
        misses = v.misses;
      });
      succeeded = k.succeeded ∙ sym (same_sum (λ g. g.success_size) (λ g. refl));
      lost = k.lost ∙ sym (same_sum (λ g. g.failed_size) (λ g. refl));
      left = k.left ∙ sym (same_sum (λ g. g.remaining_size) (λ g. refl));
      hits = k.hits ∙ sym (same_sum (λ g. g.success_articles) (λ g. refl));
      misses = k.misses ∙ sym (same_sum (λ g. g.failed_articles) (λ g. refl));
      par_gained = k.par_gained ∙ sym (same_sum (par_only (λ g. g.success_size)) (λ g. refl));
      par_lost = k.par_lost ∙ sym (same_sum (par_only (λ g. g.failed_size)) (λ g. refl));
      par_misses = k.par_misses ∙ sym (same_sum (par_only (λ g. g.failed_articles)) (λ g. refl));
      unfinished =
          let done : FileInfo → FileInfo = λ g. record g { completed = true } in
          ground (arith, k.unfinished, sum_by-modify_at to_finish done fi n.files here);
      articles = k.articles ∙ sym (same_sum article_count (λ g. refl));
    })
  ]

nzb_file_completion-NzbAccounts :
    (fi : ℕ) (n : NzbInfo) → NzbAccounts n → NzbAccounts (nzb_file_completion fi n)
unfolding nzb_file_completion
nzb_file_completion-NzbAccounts fi n k = finish_file-NzbAccounts fi n k (get_elem? n.files fi) refl

-- Every download of the queue and of the history has these counters right.
pub record Books {S : Type 0} (c : QueueCoordinator S) : Type 0 where
  pub live : All NzbAccounts c.queue.queue
  pub filed : All (λ (h : HistoryInfo). NzbAccounts h.nzb_info) c.queue.history

module _ {S : Type 0} where
  pub modify_nzb-Books :
      (id : ℕ) (f : NzbInfo → NzbInfo) (c : QueueCoordinator S)
      → Books c
      → ((n : NzbInfo) → find_nzb id c ≡ some n → NzbAccounts n → NzbAccounts (f n))
      → Books (modify_nzb id f c)
  modify_nzb-Books id f c b h = record {
    live = All-modify_first NzbAccounts (has_id id) f c.queue.queue b.live h;
    filed = b.filed;
  }

  -- A download leaves the queue for the history with the counters that it had.
  retire-Books :
      (now id : ℕ) (f : NzbInfo → NzbInfo) (c : QueueCoordinator S) (o : Option NzbInfo)
      (idx : Option ℕ)
      → Books c
      → ((n : NzbInfo) → o ≡ some n → NzbAccounts (f n))
      → Books (retire now id f c o idx)
  unfolding add_to_history
  retire-Books now id f c none idx b h = b
  retire-Books now id f c (some n) none b h = b
  retire-Books now id f c (some n) (some i) b h = record {
    live = All-remove_at NzbAccounts i c.queue.queue b.live;
    filed = All-append _ c.queue.history _ b.filed (h n refl, tt);
  }

  update_health-Books :
      (sc : Scaling) (id : ℕ) (c : QueueCoordinator S) → Books c → Books (update_health sc id c)
  unfolding update_health
  update_health-Books sc id c b =
      modify_nzb-Books id (nzb_health sc) c b (λ n _. nzb_health-NzbAccounts sc n)

  check_health_failure-Books :
      (now id : ℕ) (c : QueueCoordinator S) → Books c → Books (check_health_failure now id c)
  unfolding check_health_failure
  check_health_failure-Books now id c b = elim (Bool-cases (too_ill (find_nzb id c))) [
    | inl e ↦ rw e (
        retire-Books now id _ c (find_nzb id c) (position (has_id id) c.queue.queue) b
          (λ n q. reset_delete_status n (All-find NzbAccounts (has_id id) c.queue.queue b.live q)))
    | inr e ↦ rw e b
  ]

  check_file_completion-Books :
      (id fi : ℕ) (c : QueueCoordinator S) → Books c → Books (check_file_completion id fi c)
  unfolding check_file_completion
  check_file_completion-Books id fi c b =
      modify_nzb-Books id (nzb_file_completion fi) c b (λ n _. nzb_file_completion-NzbAccounts fi n)

  hand_on-Books :
      (now id : ℕ) (c : QueueCoordinator S) (o : Option NzbInfo)
      (sent : Option (List NzbCompletionNotice))
      → Books c
      → ((n : NzbInfo) → o ≡ some n → NzbAccounts n)
      → Books (hand_on now id c o sent)
  unfolding start_post notice add_to_history
  hand_on-Books now id c (some n) (some sent) b h =
      let b' = modify_nzb-Books id (start_post now) c b (λ n _. start_post-NzbAccounts now n) in
      record { live = b'.live; filed = b'.filed }
  hand_on-Books now id c (some n) none b h =
      retire-Books now id (start_post now) c (some n) (position (has_id id) c.queue.queue) b
        (λ m q. start_post-NzbAccounts now m (h m q))
  hand_on-Books now id c none none b h = b
  hand_on-Books now id c none (some sent) b h = b

  check_nzb_completion-Books :
      (now id : ℕ) (c : QueueCoordinator S) → Books c → Books (check_nzb_completion now id c)
  unfolding check_nzb_completion
  check_nzb_completion-Books now id c b = elim (Bool-cases (all_complete (find_nzb id c))) [
    | inl e ↦ rw e (
        hand_on-Books now id c (find_nzb id c) c.completion_tx b
          (λ n q. All-find NzbAccounts (has_id id) c.queue.queue b.live q))
    | inr e ↦ rw e b
  ]

  pub check_all-Books :
      (sc : Scaling) (now : ℕ) (id : ArticleId) (c : QueueCoordinator S)
      → Books c
      → Books (check_all sc now id c)
  unfolding check_all
  check_all-Books sc now id c b = check_nzb_completion-Books now id.nzb_id _ (
      check_file_completion-Books id.nzb_id id.file_idx _
        (check_health_failure-Books now id.nzb_id _ (update_health-Books sc id.nzb_id c b)))
