-- ===== src/Queue/Download/Accounts.antt =====
-- What the counters of a file and of a download stand for, and that an outcome keeps them right.
use bergamot.Prelude.{
  ℕ, ◌+◌, ◌≡◌, refl, Bool, true, false, not, some, arith, if◌then◌else◌, get_elem?,
}
use bergamot.Prelude.Find.{modify_at, sum_by, sum_by-modify_at}
use bergamot.Queue.Types.{ArticleStatus, undefined, running, finished, failed}
use bergamot.Queue.Nzb.{ArticleInfo, FileInfo}
use bergamot.Queue.Complete.{is_terminal, file_success, file_failure}

abbrev pub is_finished : ArticleStatus → Bool
is_finished finished = true
is_finished s = false

abbrev pub is_failed : ArticleStatus → Bool
is_failed failed = true
is_failed s = false

-- The bytes of an article, and the article itself, counted where its status passes.
abbrev pub bytes_if : (ArticleStatus → Bool) → ArticleInfo → ℕ
bytes_if p a = if p a.status then a.size else 0

abbrev pub one_if : (ArticleStatus → Bool) → ArticleInfo → ℕ
one_if p a = if p a.status then 1 else 0

abbrev pub is_pending : ArticleStatus → Bool
is_pending s = not (is_terminal s)

-- A file's counters are sums over its articles.
pub record FileAccounts (f : FileInfo) : Type 0 where
  pub succeeded : f.success_size ≡ sum_by (bytes_if is_finished) f.articles
  pub lost : f.failed_size ≡ sum_by (bytes_if is_failed) f.articles
  pub left : f.remaining_size ≡ sum_by (bytes_if is_pending) f.articles
  pub hits : f.success_articles ≡ sum_by (one_if is_finished) f.articles
  pub misses : f.failed_articles ≡ sum_by (one_if is_failed) f.articles

not_terminal :
    (s : ArticleStatus) → is_terminal s ≡ false → (is_finished s ≡ false) × (is_failed s ≡ false)
not_terminal undefined h = (refl, refl)
not_terminal running h = (refl, refl)
not_terminal finished h = cc
not_terminal failed h = cc

module _ (si : ℕ) (f : FileInfo) (a : ArticleInfo) (here : get_elem? f.articles si ≡ some a)
    (waits : is_terminal a.status ≡ false) where
  -- How a sum over the articles moves when the article is changed.
  moved :
      (g : ArticleInfo → ℕ) (h : ArticleInfo → ArticleInfo)
      → sum_by g (modify_at si h f.articles) + g a ≡ sum_by g f.articles + g (h a)
  moved g h = sum_by-modify_at g h si f.articles here

  pub file_success-FileAccounts :
      (crc : ℕ) → FileAccounts f → FileAccounts (file_success si a.size crc f)
  unfolding file_success
  file_success-FileAccounts crc k =
      let h : ArticleInfo → ArticleInfo = λ b. record b { status = finished; crc = crc } in
      let s = not_terminal a.status waits in
      record {
        succeeded = ground (arith, s, moved (bytes_if is_finished) h);
        lost = ground (arith, s, moved (bytes_if is_failed) h);
        left = ground (arith, s, moved (bytes_if is_pending) h);
        hits = ground (arith, s, moved (one_if is_finished) h);
        misses = ground (arith, s, moved (one_if is_failed) h);
      }

  pub file_failure-FileAccounts : FileAccounts f → FileAccounts (file_failure si a.size f)
  unfolding file_failure
  file_failure-FileAccounts k =
      let h : ArticleInfo → ArticleInfo = λ b. record b { status = failed } in
      let s = not_terminal a.status waits in
      record {
        succeeded = ground (arith, s, moved (bytes_if is_finished) h);
        lost = ground (arith, s, moved (bytes_if is_failed) h);
        left = ground (arith, s, moved (bytes_if is_pending) h);
        hits = ground (arith, s, moved (one_if is_finished) h);
        misses = ground (arith, s, moved (one_if is_failed) h);
      }

  -- Back in the queue the article is still pending.
  pub file_requeued-FileAccounts :
      FileAccounts f
      → FileAccounts
          (record f { articles = modify_at si (λ b. record b { status = undefined }) f.articles })
  file_requeued-FileAccounts k =
      let h : ArticleInfo → ArticleInfo = λ b. record b { status = undefined } in
      let s = not_terminal a.status waits in
      record {
        succeeded = ground (arith, s, moved (bytes_if is_finished) h);
        lost = ground (arith, s, moved (bytes_if is_failed) h);
        left = ground (arith, s, moved (bytes_if is_pending) h);
        hits = ground (arith, s, moved (one_if is_finished) h);
        misses = ground (arith, s, moved (one_if is_failed) h);
      }
