-- ===== src/Queue/Slots/Progress.antt =====
-- Dispatching uses up an article that had not been tried.
use bergamot.Prelude.{
  ℕ, ◌+◌, ◌≡◌, refl, sym, ◌≢◌, ◌⊎◌, inl, inr, Bool, true, false, if◌then◌else◌, Bool-cases, List,
  [], ◌∷◌, Option, none, some, arith, ◌==◌, All, Any, Any-weaken, get_elem?,
}
use bergamot.Prelude.Find.{find, sum_by, modify_at, sum_by-modify_first, sum_by-modify_at}
use bergamot.Queue.Types.{
  ArticleStatus, undefined, running, PostStrategy, sequential, balanced, rocket, aggressive,
}
use bergamot.Queue.Nzb.{ArticleInfo, FileInfo, NzbInfo}
use bergamot.Queue.State.{ArticleId, QueueCoordinator, has_id, downloading, find_nzb}
use bergamot.Queue.Select.{
  next_article, next_article_filtered, mark_segment_status, waiting, is_undefined, by_strategy,
  or_try, every, is_par, not_par,
}
use bergamot.Queue.Select.Choice.{Eligible, next_article_filtered-Foremost}
use bergamot.Queue.Slots.{one_waiting, untried_of, untried_in, untried}

-- No two downloads have the same id.
abbrev pub Fresh : ℕ → List NzbInfo → Type 0
Fresh id = All (λ (n : NzbInfo). n.id ≢ id)

abbrev pub Distinct : List NzbInfo → Type 0
Distinct [] = Unit
Distinct (n ∷ ns) = Fresh n.id ns × Distinct ns

-- How many articles are running: of a file, of a download, of the queue.
abbrev pub is_running : ArticleStatus → Bool
is_running running = true
is_running s = false

abbrev pub one_running : ArticleInfo → ℕ
one_running a = if is_running a.status then 1 else 0

abbrev pub running_of : FileInfo → ℕ
running_of f = sum_by one_running f.articles

abbrev pub running_in : NzbInfo → ℕ
running_in n = sum_by running_of n.files

abbrev pub running_count : List NzbInfo → ℕ
running_count = sum_by running_in

not_running : (s : ArticleStatus) → is_undefined s ≡ true → is_running s ≡ false
not_running undefined h = refl
not_running running h = cc
not_running s h = ground arith

find-absent :
    (id : ℕ) (P : NzbInfo → Type 0) (ns : List NzbInfo)
    → Fresh id ns
    → Any (λ n. (id ≡ n.id) × P n) ns
    → ⊥
find-absent id P [] h a = a
find-absent id P (n ∷ ns) h (inl (e, p)) = h.0 (sym e)
find-absent id P (n ∷ ns) h (inr a) = find-absent id P ns h.1 a

-- Where ids are distinct, the download that has one is the one that is found.
pub find-Distinct :
    (id : ℕ) (P : NzbInfo → Type 0) (ns : List NzbInfo)
    → Distinct ns
    → Any (λ n. (id ≡ n.id) × P n) ns
    → (n : NzbInfo) × (find (has_id id) ns ≡ some n) × P n
find-Distinct id P [] d a = absurd a
find-Distinct id P (n ∷ ns) d (inl (e, p)) = (n, ground arith, p)
find-Distinct id P (n ∷ ns) d (inr a) = elim (Bool-cases (n.id == id)) [
  | inl e ↦ absurd (find-absent id P ns (let q : n.id ≡ id = ground arith in rw q at d.0) a)
  | inr e ↦ let (m, f, p) = find-Distinct id P ns d.1 a in (m, rw e f, p)
]

or_try-eq {ℓ} :
    {A : Type ℓ} (a b : Option A) {x : A} → or_try a b ≡ some x → (a ≡ some x) ⊎ (b ≡ some x)
or_try-eq none b h = inr h
or_try-eq (some a) b h = inl h

module _ {S : Type 0} (c : QueueCoordinator S) (id : ArticleId) where
  -- The article is eligible under some filter.
  abbrev pub Chosen : Type 0
  Chosen = (filter : FileInfo → Bool) × Any (λ n. Eligible c filter n id) c.queue.queue

  filtered-Chosen : (filter : FileInfo → Bool) → next_article_filtered c filter ≡ some id → Chosen
  filtered-Chosen filter h = (
    filter,
    Any-weaken _ _ c.queue.queue (λ n g. g.0) (next_article_filtered-Foremost c filter id h),
  )

  either-Chosen :
      (f g : FileInfo → Bool)
      → or_try (next_article_filtered c f) (next_article_filtered c g) ≡ some id
      → Chosen
  either-Chosen f g h = elim (or_try-eq (next_article_filtered c f) _ h) [
    | inl e ↦ filtered-Chosen f e
    | inr e ↦ filtered-Chosen g e
  ]

  by_strategy-Chosen : (s : PostStrategy) → by_strategy s c ≡ some id → Chosen
  unfolding by_strategy
  by_strategy-Chosen sequential h = filtered-Chosen every h
  by_strategy-Chosen rocket h = either-Chosen not_par every h
  by_strategy-Chosen balanced h = either-Chosen not_par is_par h
  by_strategy-Chosen aggressive h = either-Chosen is_par not_par h

  -- What `next_article` chooses is eligible under a filter of its strategy.
  pub next_article-Chosen : next_article c ≡ some id → Chosen
  unfolding next_article
  next_article-Chosen h = by_strategy-Chosen c.strategy h

  -- An article that was not tried, in the download and the file that its id names.
  pub record Waiting : Type 0 where
    pub nzb : NzbInfo
    pub file : FileInfo
    pub article : ArticleInfo
    pub found : find_nzb id.nzb_id c ≡ some nzb
    pub at_file : get_elem? nzb.files id.file_idx ≡ some file
    pub at_article : get_elem? file.articles id.seg_idx ≡ some article
    pub waits : waiting article ≡ true

  pub next_article-Waiting : Distinct c.queue.queue → next_article c ≡ some id → Waiting
  next_article-Waiting d h =
      let (filter, some_nzb) = next_article-Chosen h in
      let (n, f, el) =
        find-Distinct id.nzb_id (λ n. Eligible c filter n id) c.queue.queue d
          (Any-weaken _ _ c.queue.queue (λ n el. (el.of_nzb, el)) some_nzb) in
      record {
        nzb = n;
        file = el.file;
        article = el.article;
        found = f;
        at_file = el.at_file;
        at_article = el.at_article;
        waits = let e = el.not_tried in ground arith;
      }

  -- One article more is running.
  pub mark_segment_status-running :
      Waiting
      → running_count (mark_segment_status id downloading c).queue.queue
        ≡ running_count c.queue.queue + 1
  unfolding mark_segment_status
  mark_segment_status-running w =
      let mark_article : ArticleInfo → ArticleInfo = λ a. record a { status = running } in
      let mark_file : FileInfo → FileInfo =
        λ f. record f { articles = modify_at id.seg_idx mark_article f.articles } in
      let mark_nzb : NzbInfo → NzbInfo =
        λ n. record n { files = modify_at id.file_idx mark_file n.files } in
      let outer =
        sum_by-modify_first running_in (has_id id.nzb_id) mark_nzb c.queue.queue w.found in
      let middle = sum_by-modify_at running_of mark_file id.file_idx w.nzb.files w.at_file in
      let inner =
        sum_by-modify_at one_running mark_article id.seg_idx w.file.articles w.at_article in
      let none_before : one_running w.article ≡ 0 =
        let q = not_running w.article.status w.waits in ground arith in
      omega arith

  pub mark_segment_status-untried :
      Waiting
      → untried (mark_segment_status id downloading c).queue.queue + 1 ≡ untried c.queue.queue
  unfolding mark_segment_status
  mark_segment_status-untried w =
      let mark_article : ArticleInfo → ArticleInfo = λ a. record a { status = running } in
      let mark_file : FileInfo → FileInfo =
        λ f. record f { articles = modify_at id.seg_idx mark_article f.articles } in
      let mark_nzb : NzbInfo → NzbInfo =
        λ n. record n { files = modify_at id.file_idx mark_file n.files } in
      let outer =
        sum_by-modify_first untried_in (has_id id.nzb_id) mark_nzb c.queue.queue w.found in
      let middle = sum_by-modify_at untried_of mark_file id.file_idx w.nzb.files w.at_file in
      let inner =
        sum_by-modify_at one_waiting mark_article id.seg_idx w.file.articles w.at_article in
      let one : one_waiting w.article ≡ 1 = let h = w.waits in ground arith in omega arith
