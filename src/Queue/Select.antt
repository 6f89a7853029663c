-- ===== src/Queue/Select.antt =====
-- crates/bergamot-queue/src/coordinator.rs: which article is downloaded next, `next_assignment`,
-- `next_article`, `next_article_filtered` and `count_runnable_files`, and `mark_segment_status`.
pub mod Order
pub mod Choice
pub mod Last
use bergamot.Prelude.{
  ℕ, zero, suc, ◌+◌, Bool, true, false, ◌&&◌, ◌||◌, not, List, [], ◌∷◌, reverse, Option, none, some,
  if◌then◌else◌, ltb, leb, get_elem?, any, is_some,
}
use mathlib.Core.Option
use bergamot.Prelude.Find.{position, modify_at, sum_by}
use bergamot.Text.{Text}
use bergamot.Queue.Types.{
  Priority, rank, is_force, ArticleStatus, undefined, running, finished, failed, PostStrategy,
  sequential, balanced, rocket, aggressive,
}
use bergamot.Queue.Nzb.{ArticleInfo, FileInfo, NzbInfo}
use bergamot.Queue.Health.{is_par_file}
use bergamot.Queue.State.{
  ArticleId, SegmentStatus, segment_undefined, downloading, segment_completed, segment_failed,
  QueueCoordinator, active_per_file_count, find_nzb, modify_nzb,
}

abbrev pub is_undefined : ArticleStatus → Bool
is_undefined undefined = true
is_undefined s = false

abbrev pub waiting : ArticleInfo → Bool
waiting a = is_undefined a.status

-- The tests by which both loops pass over a download and a file.
unfoldable pub nzb_skipped : NzbInfo → Bool
nzb_skipped n = is_some n.post_info || (n.paused && not (is_force n.priority))

unfoldable pub file_skipped : (FileInfo → Bool) → NzbInfo → FileInfo → Bool
file_skipped filter n f = (f.paused && not (is_force n.priority)) || not (filter f)

abbrev one_if : Bool → ℕ
one_if true = 1
one_if false = 0

unfoldable pub runnable : (FileInfo → Bool) → NzbInfo → FileInfo → Bool
unfolding file_skipped
runnable filter n f = not (file_skipped filter n f) && any waiting f.articles

unfoldable pub count_runnable_files : (FileInfo → Bool) → List NzbInfo → ℕ
unfolding runnable nzb_skipped
count_runnable_files filter nzbs =
    sum_by
      (λ (n : NzbInfo).
        if nzb_skipped n
        then 0
        else sum_by (λ (f : FileInfo). one_if (runnable filter n f)) n.files)
      nzbs

-- `sort_by_key(|nzb| nzb.priority)`, a stable sort.
abbrev pub insert_by_rank : NzbInfo → List NzbInfo → List NzbInfo
insert_by_rank n [] = n ∷ []
insert_by_rank n (m ∷ ms) =
    if leb (rank n.priority) (rank m.priority) then n ∷ m ∷ ms else m ∷ insert_by_rank n ms

abbrev pub sort_by_rank : List NzbInfo → List NzbInfo
sort_by_rank [] = []
sort_by_rank (n ∷ ns) = insert_by_rank n (sort_by_rank ns)

-- The first answer that a list of candidates gives.
abbrev pub first_some {ℓ κ} : {A : Type ℓ} {B : Type κ} → (A → Option B) → List A → Option B
first_some f [] = none
first_some f (x ∷ xs) = elim (f x) [ none ↦ first_some f xs | some b ↦ some b ]

module _ {S : Type 0} (c : QueueCoordinator S) (filter : FileInfo → Bool) where
  -- A download that is the only one with a runnable file may use every connection.
  unfoldable pub effective_per_file_cap : ℕ
  unfolding count_runnable_files
  effective_per_file_cap =
      if leb (count_runnable_files filter c.queue.queue) 1
      then c.max_connections
      else c.max_articles_per_file

  -- The body of the loop over the files of a download.
  unfoldable pub offer_file : NzbInfo → ℕ → FileInfo → Option ArticleId
  unfolding effective_per_file_cap file_skipped active_per_file_count
  offer_file n fi f =
      if file_skipped filter n f || leb effective_per_file_cap (active_per_file_count (n.id, fi) c)
      then none
      else Option.map (λ si. record { nzb_id = n.id; file_idx = fi; seg_idx = si })
          (position waiting f.articles)

  unfoldable pub offer_files : NzbInfo → ℕ → List FileInfo → Option ArticleId
  unfolding offer_file
  offer_files n fi [] = none
  offer_files n fi (f ∷ fs) =
      let rest = offer_files n (suc fi) fs in
      elim (offer_file n fi f) [ none ↦ rest | some id ↦ some id ]

  unfoldable pub offer : NzbInfo → Option ArticleId
  unfolding offer_files nzb_skipped
  offer n = if nzb_skipped n then none else offer_files n 0 n.files

  unfoldable pub next_article_filtered : Option ArticleId
  unfolding offer
  next_article_filtered = first_some offer (reverse (sort_by_rank c.queue.queue))

abbrev pub or_try {ℓ} : {A : Type ℓ} → Option A → Option A → Option A
or_try none b = b
or_try (some a) b = some a

abbrev pub is_par : FileInfo → Bool
is_par f = is_par_file f.filename

abbrev pub not_par : FileInfo → Bool
not_par f = not (is_par_file f.filename)

abbrev pub every : FileInfo → Bool
every f = true

abbrev pub article_status : SegmentStatus → ArticleStatus
article_status segment_undefined = undefined
article_status downloading = running
article_status segment_completed = finished
article_status segment_failed = failed

module _ {S : Type 0} where
  -- `next_article` by strategy, and the four functions that it calls.
  unfoldable pub by_strategy : PostStrategy → QueueCoordinator S → Option ArticleId
  unfolding next_article_filtered
  by_strategy sequential c = next_article_filtered c every
  by_strategy rocket c = or_try (next_article_filtered c not_par) (next_article_filtered c every)
  by_strategy balanced c = or_try (next_article_filtered c not_par) (next_article_filtered c is_par)
  by_strategy aggressive c =
      or_try (next_article_filtered c is_par) (next_article_filtered c not_par)

  unfoldable pub next_article : QueueCoordinator S → Option ArticleId
  unfolding by_strategy
  next_article c = by_strategy c.strategy c

  unfoldable pub mark_segment_status :
      ArticleId → SegmentStatus → QueueCoordinator S → QueueCoordinator S
  mark_segment_status id s c =
      modify_nzb id.nzb_id
        (λ n. record n {
          files =
              modify_at id.file_idx
                (λ f. record f {
                  articles =
                      modify_at id.seg_idx (λ a. record a { status = article_status s }) f.articles;
                })
                n.files;
        })
        c
