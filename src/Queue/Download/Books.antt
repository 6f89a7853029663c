-- ===== src/Queue/Download/Books.antt =====
-- The counters of a download that are sums over its files, and that an outcome keeps them so. What
-- remains of its par2 files is not among them: the code tells these files by two different tests.
use bergamot.Prelude.{
  ℕ, ◌+◌, ◌≤◌, ◌≡◌, false, some, arith, if◌then◌else◌, get_elem?, All, subst, length,
}
use bergamot.Prelude.Find.{
  modify_at, length-modify_at, sum_by, sum_by-modify_at, sum_by-get_elem?-le, All-modify_at,
  All-get_elem?,
}
use bergamot.Queue.Types.{undefined, finished, failed}
use bergamot.Queue.Nzb.{ArticleInfo, FileInfo, NzbInfo}
use bergamot.Queue.Health.{is_par_file}
use bergamot.Queue.Complete.{
  is_terminal, file_success, file_failure, counted_success, counted_failure, nzb_success,
  nzb_failure, nzb_blocked,
}
use bergamot.Queue.Download.Accounts.{
  file_requeued-FileAccounts, FileAccounts, is_pending, bytes_if, file_success-FileAccounts,
  file_failure-FileAccounts,
}

-- A figure of a file, counted for par2 files only.
abbrev pub par_only : (FileInfo → ℕ) → FileInfo → ℕ
par_only g f = if is_par_file f.filename then g f else 0

-- A file that is not complete counts as one.
abbrev pub to_finish : FileInfo → ℕ
to_finish f = if f.completed then 0 else 1

abbrev pub article_count : FileInfo → ℕ
article_count f = length f.articles

pub record NzbAccounts (n : NzbInfo) : Type 0 where
  pub each : All FileAccounts n.files
  pub succeeded : n.success_size ≡ sum_by (λ f. f.success_size) n.files
  pub lost : n.failed_size ≡ sum_by (λ f. f.failed_size) n.files
  pub left : n.remaining_size ≡ sum_by (λ f. f.remaining_size) n.files
  pub hits : n.success_article_count ≡ sum_by (λ f. f.success_articles) n.files
  pub misses : n.failed_article_count ≡ sum_by (λ f. f.failed_articles) n.files
  pub par_gained : n.par_current_success_size ≡ sum_by (par_only (λ f. f.success_size)) n.files
  pub par_lost : n.par_failed_size ≡ sum_by (par_only (λ f. f.failed_size)) n.files
  pub par_misses : n.par_failed_article_count ≡ sum_by (par_only (λ f. f.failed_articles)) n.files
  pub unfinished : n.remaining_file_count ≡ sum_by to_finish n.files
  pub articles : n.total_article_count ≡ sum_by article_count n.files

module _ (n : NzbInfo) (fi si : ℕ) (f : FileInfo) (a : ArticleInfo)
    (at_file : get_elem? n.files fi ≡ some f) (at_article : get_elem? f.articles si ≡ some a)
    (waits : is_terminal a.status ≡ false) where
  -- How a sum over the files moves when the file is changed.
  moved :
      (g : FileInfo → ℕ) (h : FileInfo → FileInfo)
      → sum_by g (modify_at fi h n.files) + g f ≡ sum_by g n.files + g (h f)
  moved g h = sum_by-modify_at g h fi n.files at_file

  -- What is left of the file has room for the article.
  fits : FileAccounts f → a.size ≤ f.remaining_size
  fits k =
      let le = sum_by-get_elem?-le (bytes_if is_pending) si f.articles at_article in ground arith

  counted_success-NzbAccounts :
      (crc now : ℕ)
      → NzbAccounts n
      → NzbAccounts (counted_success a.size (is_par_file f.filename) fi si crc now n)
  unfolding counted_success file_success
  counted_success-NzbAccounts crc now k =
      let here = All-get_elem? FileAccounts fi n.files k.each at_file in
      let room = fits here in
      let h : FileInfo → FileInfo = file_success si a.size crc in
      let change : ArticleInfo → ArticleInfo = λ b. record b { status = finished; crc = crc } in
      record {
        each = All-modify_at FileAccounts fi h n.files k.each (λ g e v. kept g e v);
        succeeded = ground (arith, moved (λ g. g.success_size) h);
        lost = ground (arith, moved (λ g. g.failed_size) h);
        left = ground (
          arith,
          moved (λ g. g.remaining_size) h,
          sum_by-get_elem?-le (λ g. g.remaining_size) fi n.files at_file,
        );
        hits = ground (arith, moved (λ g. g.success_articles) h);
        misses = ground (arith, moved (λ g. g.failed_articles) h);
        par_gained = ground (arith, moved (par_only (λ g. g.success_size)) h);
        par_lost = ground (arith, moved (par_only (λ g. g.failed_size)) h);
        par_misses = ground (arith, moved (par_only (λ g. g.failed_articles)) h);
        unfinished = ground (arith, moved to_finish h);
        articles = ground (arith, moved article_count h, length-modify_at si change f.articles);
      }
    where
      kept :
          (g : FileInfo)
          → get_elem? n.files fi ≡ some g
          → FileAccounts g
          → FileAccounts (file_success si a.size crc g)
      kept g e v =
          let q : f ≡ g = ground arith in
          subst (λ g. FileAccounts g → FileAccounts (file_success si a.size crc g)) q
            (file_success-FileAccounts si f a at_article waits crc) v

  pub nzb_success-NzbAccounts :
      (crc now : ℕ) → NzbAccounts n → NzbAccounts (nzb_success fi si crc now n)
  unfolding nzb_success
  nzb_success-NzbAccounts crc now k =
      rw (at_file, at_article) (counted_success-NzbAccounts crc now k)

  counted_failure-NzbAccounts :
      NzbAccounts n → NzbAccounts (counted_failure a.size (is_par_file f.filename) fi si n)
  unfolding counted_failure file_failure
  counted_failure-NzbAccounts k =
      let here = All-get_elem? FileAccounts fi n.files k.each at_file in
      let room = fits here in
      let h : FileInfo → FileInfo = file_failure si a.size in
      let change : ArticleInfo → ArticleInfo = λ b. record b { status = failed } in
      record {
        each = All-modify_at FileAccounts fi h n.files k.each (λ g e v. kept g e v);
        succeeded = ground (arith, moved (λ g. g.success_size) h);
        lost = ground (arith, moved (λ g. g.failed_size) h);
        left = ground (
          arith,
          moved (λ g. g.remaining_size) h,
          sum_by-get_elem?-le (λ g. g.remaining_size) fi n.files at_file,
        );
        hits = ground (arith, moved (λ g. g.success_articles) h);
        misses = ground (arith, moved (λ g. g.failed_articles) h);
        par_gained = ground (arith, moved (par_only (λ g. g.success_size)) h);
        par_lost = ground (arith, moved (par_only (λ g. g.failed_size)) h);
        par_misses = ground (arith, moved (par_only (λ g. g.failed_articles)) h);
        unfinished = ground (arith, moved to_finish h);
        articles = ground (arith, moved article_count h, length-modify_at si change f.articles);
      }
    where
      kept :
          (g : FileInfo)
          → get_elem? n.files fi ≡ some g
          → FileAccounts g
          → FileAccounts (file_failure si a.size g)
      kept g e v =
          let q : f ≡ g = ground arith in
          subst (λ g. FileAccounts g → FileAccounts (file_failure si a.size g)) q
            (file_failure-FileAccounts si f a at_article waits) v

  pub nzb_failure-NzbAccounts : NzbAccounts n → NzbAccounts (nzb_failure fi si n)
  unfolding nzb_failure
  nzb_failure-NzbAccounts k = rw (at_file, at_article) (counted_failure-NzbAccounts k)

  pub nzb_blocked-NzbAccounts : NzbAccounts n → NzbAccounts (nzb_blocked fi si n)
  unfolding nzb_blocked
  nzb_blocked-NzbAccounts k = record {
    each = All-modify_at FileAccounts fi requeue n.files k.each kept;
    succeeded = ground (arith, moved (λ g. g.success_size) requeue);
    lost = ground (arith, moved (λ g. g.failed_size) requeue);
    left = ground (arith, moved (λ g. g.remaining_size) requeue);
    hits = ground (arith, moved (λ g. g.success_articles) requeue);
    misses = ground (arith, moved (λ g. g.failed_articles) requeue);
    par_gained = ground (arith, moved (par_only (λ g. g.success_size)) requeue);
    par_lost = ground (arith, moved (par_only (λ g. g.failed_size)) requeue);
    par_misses = ground (arith, moved (par_only (λ g. g.failed_articles)) requeue);
    unfinished = ground (arith, moved to_finish requeue);
    articles = ground (
      arith,
      moved article_count requeue,
      length-modify_at si (λ (b : ArticleInfo). record b { status = undefined }) f.articles,
    );
  }
    where
      requeue : FileInfo → FileInfo
      requeue g = record g {
        articles = modify_at si (λ b. record b { status = undefined }) g.articles;
      }

      kept :
          (g : FileInfo) → get_elem? n.files fi ≡ some g → FileAccounts g → FileAccounts (requeue g)
      kept g e v =
          let q : f ≡ g = ground arith in
          subst (λ g. FileAccounts g → FileAccounts (requeue g)) q
            (file_requeued-FileAccounts si f a at_article waits) v
