-- ===== src/Queue/Download/Ledger.antt =====
-- The handler of a finished download keeps the counters right that are sums over files and articles.
use bergamot.Prelude.{
  subst, ℕ, ◌≡◌, refl, inl, inr, Bool-cases, Option-cases, true, false, Option, none, some, arith,
  get_elem?, is_some,
}
use bergamot.Queue.Nzb.{ArticleInfo, FileInfo, NzbInfo}
use bergamot.Queue.Health.{Scaling}
use bergamot.Queue.State.{
  ArticleId, DownloadOutcome, success, failure, blocked, DownloadResult, SchedulerOps,
  QueueCoordinator, find_nzb, modify_nzb,
}
use bergamot.Queue.Complete.{
  article_at, article_in, terminal_at, is_terminal, nzb_success, nzb_failure, nzb_blocked,
}
use bergamot.Queue.Download.{release, check_all, record_outcome, on_found, handle_download_complete}
use bergamot.Queue.Download.Books.{
  NzbAccounts, nzb_success-NzbAccounts, nzb_failure-NzbAccounts, nzb_blocked-NzbAccounts,
}
use bergamot.Queue.Download.Steps.{Books, modify_nzb-Books, check_all-Books}

-- The article at two indices of a download is there and is not terminal.
pub record Waits (n : NzbInfo) (fi si : ℕ) : Type 0 where
  pub file : FileInfo
  pub article : ArticleInfo
  pub at_file : get_elem? n.files fi ≡ some file
  pub at_article : get_elem? file.articles si ≡ some article
  pub waits : is_terminal article.status ≡ false

found_in :
    (o : Option FileInfo) (si : ℕ)
    → is_some (article_in o si) ≡ true
    → terminal_at (article_in o si) ≡ false
    → (f : FileInfo) × (a : ArticleInfo) × (o ≡ some f)
      × (get_elem? f.articles si ≡ some a)
      × (is_terminal a.status ≡ false)
found_in none si h t = cc
found_in (some f) si h t = elim (Option-cases (get_elem? f.articles si)) [
  | inl e ↦ absurd (let h' = rw e at h in cc)
  | inr (a, e) ↦ (f, a, refl, e, rw e at t)
]

found_waiting :
    (n : NzbInfo) (fi si : ℕ)
    → is_some (article_at n fi si) ≡ true
    → terminal_at (article_at n fi si) ≡ false
    → Waits n fi si
found_waiting n fi si h t =
    let (f, a, p, q, w) = found_in (get_elem? n.files fi) si h t in
    record { file = f; article = a; at_file = p; at_article = q; waits = w }

module _ {S : Type 0} (sc : Scaling) (now : ℕ) (id : ArticleId) (c : QueueCoordinator S)
    (n : NzbInfo) (found : find_nzb id.nzb_id c ≡ some n) (w : Waits n id.file_idx id.seg_idx)
    (b : Books c) where
  -- A change of the download that keeps its counters keeps those of all.
  changed :
      (f : NzbInfo → NzbInfo)
      → (NzbAccounts n → NzbAccounts (f n))
      → Books (modify_nzb id.nzb_id f c)
  changed f k =
      modify_nzb-Books id.nzb_id f c b
        λ x q. let e : n ≡ x = ground arith in subst (λ y. NzbAccounts y → NzbAccounts (f y)) e k

  record_outcome-Books : (o : DownloadOutcome) → Books (record_outcome sc now id n o c)
  unfolding record_outcome
  record_outcome-Books (success payload offset crc) =
      let k = changed (nzb_success id.file_idx id.seg_idx crc now) (
        nzb_success-NzbAccounts n id.file_idx id.seg_idx w.file w.article w.at_file w.at_article
          w.waits crc now) in
      check_all-Books sc now id _ (record { live = k.live; filed = k.filed })
  record_outcome-Books (failure message) = check_all-Books sc now id _ (
      changed (nzb_failure id.file_idx id.seg_idx) (
        nzb_failure-NzbAccounts n id.file_idx id.seg_idx w.file w.article w.at_file w.at_article
          w.waits))
  record_outcome-Books (blocked message) =
      let k = changed (nzb_blocked id.file_idx id.seg_idx) (
        nzb_blocked-NzbAccounts n id.file_idx id.seg_idx w.file w.article w.at_file w.at_article
          w.waits) in
      record { live = k.live; filed = k.filed }

module _ {S : Type 0} (sc : Scaling) (now : ℕ) (id : ArticleId) (o : DownloadOutcome)
    (c : QueueCoordinator S) (b : Books c) where
  on_found-Books :
      (found : Option NzbInfo)
      → find_nzb id.nzb_id c ≡ found
      → ((n : NzbInfo) → found ≡ some n → is_some (article_at n id.file_idx id.seg_idx) ≡ true)
      → Books (on_found sc now id o c found)
  unfolding record_outcome check_all
  on_found-Books none e known = check_all-Books sc now id c b
  on_found-Books (some n) e known =
      elim (Bool-cases (terminal_at (article_at n id.file_idx id.seg_idx))) [
        | inl t ↦ rw t b
        | inr t ↦ rw t (
            record_outcome-Books sc now id c n e
              (found_waiting n id.file_idx id.seg_idx (known n refl) t) b o)
      ]

-- If these counters of every download in the queue and the history are the sums over its files and
-- articles, they still are after a finished download is handled, whatever its outcome, and also if
-- it completes a file or moves a download to the history: the sizes and article counts of successes
-- and failures, what remains, how many articles there are, how many files are not complete, and what
-- par2 files have gained and lost. The article is one of the download, where
-- that is still in the queue.
pub handle_download_complete-Books :
    {S : Type 0} (ops : SchedulerOps S) (sc : Scaling) (r : DownloadResult) (now clock : ℕ)
    (c : QueueCoordinator S)
    → Books c
    → ((n : NzbInfo)
        → find_nzb r.article_id.nzb_id c ≡ some n
        → is_some (article_at n r.article_id.file_idx r.article_id.seg_idx) ≡ true)
    → Books (handle_download_complete ops sc r now clock c)
unfolding handle_download_complete
handle_download_complete-Books ops sc r now clock c b known =
    on_found-Books sc now r.article_id r.outcome (release ops r clock c)
      (record { live = b.live; filed = b.filed }) (find_nzb r.article_id.nzb_id c) refl known
