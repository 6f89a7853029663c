-- ===== src/Queue/History/Again.antt =====
-- Downloading an entry of the history again: what is reset, and what is not.
use bergamot.Prelude.{
  ℕ, ◌+◌, ◌≡◌, refl, sym, ◌∙◌, ◌≢◌, ◌⊎◌, inl, inr, false, List, [], ◌∷◌, ◌++◌, map, none, some,
  arith, All, get_elem?, length, length-map,
}
use bergamot.Prelude.Find.{find, remove_at, sum_by}
use bergamot.Queue.Types.{undefined, par_none, unpack_none, move_none, delete_none, mark_none}
use bergamot.Queue.Nzb.{ArticleInfo, FileInfo, NzbInfo, HistoryInfo}
use bergamot.Queue.State.{QueueCoordinator, nzb_not_found, entry_has_id}
use bergamot.Queue.Download.Accounts.{FileAccounts}
use bergamot.Queue.Download.Books.{NzbAccounts, par_only, to_finish, article_count}
use bergamot.Queue.Edit.{Answer, ok, err}
use bergamot.Queue.History.{fresh_file, redownloaded}

abbrev untried : ArticleInfo → ArticleInfo
untried a = record a { status = undefined }

sum_untried :
    (g h : ArticleInfo → ℕ)
    → ((a : ArticleInfo) → g (untried a) ≡ h a)
    → (xs : List ArticleInfo) → sum_by g (map untried xs) ≡ sum_by h xs
sum_untried g h e [] = refl
sum_untried g h e (a ∷ xs) = rw (e a, sum_untried g h e xs)

sum_zero {ℓ} : {A : Type ℓ} (xs : List A) → sum_by (λ x. 0) xs ≡ 0
sum_zero [] = refl
sum_zero (x ∷ xs) = omega (arith, sum_zero xs)

sum_one {ℓ} : {A : Type ℓ} (xs : List A) → sum_by (λ x. 1) xs ≡ length xs
sum_one [] = refl
sum_one (x ∷ xs) = omega (arith, sum_one xs)

-- A file's size is that of its articles.
abbrev pub Sized : FileInfo → Type 0
Sized f = f.size ≡ sum_by (λ (a : ArticleInfo). a.size) f.articles

fresh_file-FileAccounts : (f : FileInfo) → Sized f → FileAccounts (fresh_file f)
unfolding fresh_file
fresh_file-FileAccounts f s = record {
  succeeded = sym (sum_untried _ (λ a. 0) (λ a. refl) f.articles ∙ sum_zero f.articles);
  lost = sym (sum_untried _ (λ a. 0) (λ a. refl) f.articles ∙ sum_zero f.articles);
  left = s ∙ sym (sum_untried _ (λ a. a.size) (λ a. refl) f.articles);
  hits = sym (sum_untried _ (λ a. 0) (λ a. refl) f.articles ∙ sum_zero f.articles);
  misses = sym (sum_untried _ (λ a. 0) (λ a. refl) f.articles ∙ sum_zero f.articles);
}

sum_fresh :
    (g h : FileInfo → ℕ)
    → ((f : FileInfo) → g (fresh_file f) ≡ h f)
    → (fs : List FileInfo) → sum_by g (map fresh_file fs) ≡ sum_by h fs
sum_fresh g h e [] = refl
sum_fresh g h e (f ∷ fs) = rw (e f, sum_fresh g h e fs)

sum_fresh_zero :
    (g : FileInfo → ℕ)
    → ((f : FileInfo) → g (fresh_file f) ≡ 0)
    → (fs : List FileInfo) → 0 ≡ sum_by g (map fresh_file fs)
sum_fresh_zero g e fs = sym (sum_fresh g (λ f. 0) e fs ∙ sum_zero fs)

each_fresh : (fs : List FileInfo) → All Sized fs → All FileAccounts (map fresh_file fs)
each_fresh [] h = tt
each_fresh (f ∷ fs) h = (fresh_file-FileAccounts f h.0, each_fresh fs h.1)

par_zero : (g : FileInfo → ℕ) (f : FileInfo) → g f ≡ 0 → par_only g f ≡ 0
par_zero g f e = ground arith

-- A download whose sizes add up, whose par2 counters are zero and which counts all of its files as
-- remaining starts again with its counters
-- right.
pub redownloaded-NzbAccounts :
    (id : ℕ) (n : NzbInfo)
    → All Sized n.files
    → n.size ≡ sum_by (λ f. f.size) n.files
    → n.par_current_success_size ≡ 0
    → n.par_failed_size ≡ 0
    → n.par_failed_article_count ≡ 0
    → n.remaining_file_count ≡ length n.files
    → n.total_article_count ≡ sum_by (λ f. length f.articles) n.files
    → NzbAccounts (redownloaded id n)
unfolding redownloaded fresh_file
redownloaded-NzbAccounts id n sized total p q r whole count = record {
  each = each_fresh n.files sized;
  succeeded = sum_fresh_zero _ (λ f. refl) n.files;
  lost = sum_fresh_zero _ (λ f. refl) n.files;
  left = total ∙ sym (sum_fresh _ (λ f. f.size) (λ f. refl) n.files);
  hits = sum_fresh_zero _ (λ f. refl) n.files;
  misses = sum_fresh_zero _ (λ f. refl) n.files;
  par_gained =
      p ∙ sum_fresh_zero _ (λ f. par_zero (λ g. g.success_size) (fresh_file f) refl) n.files;
  par_lost = q ∙ sum_fresh_zero _ (λ f. par_zero (λ g. g.failed_size) (fresh_file f) refl) n.files;
  par_misses =
      r ∙ sum_fresh_zero _ (λ f. par_zero (λ g. g.failed_articles) (fresh_file f) refl) n.files;
  unfinished = whole ∙ sym (sum_fresh to_finish (λ f. 1) (λ f. refl) n.files ∙ sum_one n.files);
  articles =
      count
      ∙ sym (
          sum_fresh article_count (λ f. length f.articles) (λ f. length-map untried f.articles)
            n.files);
}

-- The par2 counters are not reset: if any byte or article of a par2 file had been counted, the
-- counters of the download are wrong when it starts again.
pub redownloaded_stale :
    (id : ℕ) (n : NzbInfo)
    → (n.par_current_success_size ≢ 0) ⊎ (n.par_failed_size ≢ 0) ⊎ (n.par_failed_article_count ≢ 0)
    → ¬ NzbAccounts (redownloaded id n)
unfolding redownloaded fresh_file
redownloaded_stale id n (inl h) k = h (
    k.par_gained
    ∙ sym (sum_fresh_zero _ (λ f. par_zero (λ g. g.success_size) (fresh_file f) refl) n.files))
redownloaded_stale id n (inr (inl h)) k = h (
    k.par_lost
    ∙ sym (sum_fresh_zero _ (λ f. par_zero (λ g. g.failed_size) (fresh_file f) refl) n.files))
redownloaded_stale id n (inr (inr h)) k = h (
    k.par_misses
    ∙ sym (sum_fresh_zero _ (λ f. par_zero (λ g. g.failed_articles) (fresh_file f) refl) n.files))

-- An article as it was, but not tried; the same of lists of them.
abbrev pub AllUntried : List ArticleInfo → List ArticleInfo → Type 0
AllUntried [] [] = Unit
AllUntried [] (b ∷ bs) = ⊥
AllUntried (a ∷ xs) [] = ⊥
AllUntried (a ∷ xs) (b ∷ bs) = (b ≡ record a { status = undefined }) × AllUntried xs bs

-- A file that nothing was downloaded of.
pub record FileReset (f g : FileInfo) : Type 0 where
  pub same_name :
      (g.id ≡ f.id) × (g.filename ≡ f.filename) × (g.output_filename ≡ f.output_filename)
  pub sizes : (g.size ≡ f.size) × (g.remaining_size ≡ f.size)
  pub bytes : (g.success_size ≡ 0) × (g.failed_size ≡ 0) × (g.missed_size ≡ 0)
  pub counts : (g.success_articles ≡ 0) × (g.failed_articles ≡ 0) × (g.missing_articles ≡ 0)
  pub flags : (g.paused ≡ false) × (g.completed ≡ false)
  pub articles : AllUntried f.articles g.articles

abbrev pub AllReset : List FileInfo → List FileInfo → Type 0
AllReset [] [] = Unit
AllReset [] (g ∷ gs) = ⊥
AllReset (f ∷ fs) [] = ⊥
AllReset (f ∷ fs) (g ∷ gs) = FileReset f g × AllReset fs gs

-- A download that starts again under an id.
pub record Restarted (id : ℕ) (n m : NzbInfo) : Type 0 where
  pub new_id : m.id ≡ id
  pub same_name : (m.name ≡ n.name) × (m.size ≡ n.size)
  pub flags : (m.paused ≡ false) × (m.deleted ≡ false)
  pub sizes :
      (m.remaining_size ≡ n.size)
      × (m.success_size ≡ 0)
      × (m.failed_size ≡ 0)
      × (m.current_downloaded_size ≡ 0)
  pub counts : (m.success_article_count ≡ 0) × (m.failed_article_count ≡ 0)
  pub full_health : m.health ≡ 1000
  pub statuses :
      (m.par_status ≡ par_none)
      × (m.unpack_status ≡ unpack_none)
      × (m.move_status ≡ move_none)
      × (m.delete_status ≡ delete_none)
      × (m.mark_status ≡ mark_none)
  pub files : AllReset n.files m.files

-- The two results of asking for an entry of the history again.
pub data Requeued {S : Type 0} (id : ℕ) (c : QueueCoordinator S) (r : QueueCoordinator S × Answer ℕ)
    : Type 0 where
  missing :
      find (entry_has_id id) c.queue.history ≡ none
      → r ≡ (c, err (nzb_not_found id))
      → Requeued id c r
  again :
      (i : ℕ) (h : HistoryInfo) (m : NzbInfo)
      → get_elem? c.queue.history i ≡ some h
      → h.id ≡ id
      → r.1 ≡ ok c.queue.next_nzb_id
      → r.0.queue.queue ≡ c.queue.queue ++ m ∷ []
      → Restarted c.queue.next_nzb_id h.nzb_info m
      → r.0.queue.history ≡ remove_at i c.queue.history
      → r.0.queue.next_nzb_id ≡ c.queue.next_nzb_id + 1
      → Requeued id c r
