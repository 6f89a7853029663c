-- ===== src/Queue/Select/Choice.antt =====
-- What `next_article_filtered` chooses: an article that may be downloaded, of the highest priority,
-- if there is one; among equals the download that stands last in the queue.
use bergamot.Prelude.{
  ℕ, zero, suc, ◌+◌, ◌<◌, ◌≡◌, refl, sym, ◌⊎◌, inl, inr, Bool, true, false, Bool-cases,
  Option-cases, ◌||◌, List, [], ◌∷◌, Option, none, some, arith, leb, is_some, All, Any, Any-weaken,
  All-weaken, get_elem?, subst,
}
use bergamot.Prelude.Find.{position, position-Hit}
use bergamot.Queue.Types.{is_force, undefined}
use bergamot.Queue.Nzb.{ArticleInfo, FileInfo, NzbInfo}
use bergamot.Queue.State.{ArticleId, QueueCoordinator, active_per_file_count}
use bergamot.Queue.Select.{
  waiting, nzb_skipped, file_skipped, effective_per_file_cap, offer_file, offer_files, offer,
  next_article_filtered,
}
use bergamot.Queue.Select.Order.{Ranked, Best, asked-Best, asked-none}

pub silent {ℓ} : {A : Type ℓ} (o : Option A) → o ≡ none → is_some o ≡ true → ⊥
silent o q a = cc

is_some-position {ℓ} :
    {A : Type ℓ} (p : A → Bool) (xs : List A) (i : ℕ) {a : A}
    → get_elem? xs i ≡ some a
    → p a ≡ true
    → is_some (position p xs) ≡ true
is_some-position p [] i e h = cc
is_some-position p (x ∷ xs) zero e h = ground arith
is_some-position p (x ∷ xs) (suc i) e h = ground (arith, is_some-position p xs i e h)

module _ {S : Type 0} (c : QueueCoordinator S) (filter : FileInfo → Bool) where
  -- An article that may be downloaded now: its download is not being post-processed, neither it nor
  -- its file is paused unless the download is forced, the file passes the filter and is below its
  -- cap of running articles, and the article has not been tried.
  pub record Eligible (n : NzbInfo) (id : ArticleId) : Type 0 where
    pub file : FileInfo
    pub article : ArticleInfo
    pub of_nzb : id.nzb_id ≡ n.id
    pub at_file : get_elem? n.files id.file_idx ≡ some file
    pub at_article : get_elem? file.articles id.seg_idx ≡ some article
    pub not_tried : article.status ≡ undefined
    pub not_in_post : n.post_info ≡ none
    pub nzb_runs : (n.paused ≡ false) ⊎ (is_force n.priority ≡ true)
    pub file_runs : (file.paused ≡ false) ⊎ (is_force n.priority ≡ true)
    pub passes : filter file ≡ true
    pub below_cap : active_per_file_count (n.id, id.file_idx) c < effective_per_file_cap c filter

  -- What an offered article has to do with its file.
  record OfFile (n : NzbInfo) (fi : ℕ) (f : FileInfo) (id : ArticleId) : Type 0 where
    article : ArticleInfo
    of_nzb : id.nzb_id ≡ n.id
    same_file : id.file_idx ≡ fi
    at_article : get_elem? f.articles id.seg_idx ≡ some article
    not_tried : article.status ≡ undefined
    file_runs : (f.paused ≡ false) ⊎ (is_force n.priority ≡ true)
    passes : filter f ≡ true
    below_cap : active_per_file_count (n.id, fi) c < effective_per_file_cap c filter

  waiting-undefined : (a : ArticleInfo) → waiting a ≡ true → a.status ≡ undefined
  waiting-undefined a h = ground arith

  offer_file-OfFile :
      (n : NzbInfo) (fi : ℕ) (f : FileInfo) (id : ArticleId)
      → offer_file c filter n fi f ≡ some id
      → OfFile n fi f id
  unfolding offer_file
  offer_file-OfFile n fi f id e =
      elim (Bool-cases (
        file_skipped filter n f
        || leb (effective_per_file_cap c filter) (active_per_file_count (n.id, fi) c))) [
          | inl t ↦ absurd (let q = rw (t, offer_file) at e in cc)
          | inr t ↦ elim (Option-cases (position waiting f.articles)) [
            | inl p ↦ absurd (let q = rw (t, p, offer_file) at e in cc)
            | inr (si, p) ↦
                let q = rw (t, p, offer_file) at e in
                let h = position-Hit waiting f.articles si p in
                let s : si ≡ id.seg_idx = ground arith in
                record {
                  article = h.item;
                  of_nzb = ground arith;
                  same_file = ground arith;
                  at_article = subst (λ k. get_elem? f.articles k ≡ some h.item) s h.at;
                  not_tried = waiting-undefined h.item h.passes;
                  file_runs = ground arith;
                  passes = ground arith;
                  below_cap = ground arith;
                }
          ]
        ]

  record InFiles (n : NzbInfo) (fi : ℕ) (fs : List FileInfo) (id : ArticleId) : Type 0 where
    offset : ℕ
    file : FileInfo
    at : get_elem? fs offset ≡ some file
    of_file : OfFile n (fi + offset) file id

  offer_files-InFiles :
      (n : NzbInfo) (fi : ℕ) (fs : List FileInfo) (id : ArticleId)
      → offer_files c filter n fi fs ≡ some id
      → InFiles n fi fs id
  unfolding offer_files
  offer_files-InFiles n fi [] id e = cc
  offer_files-InFiles n fi (f ∷ fs) id e = elim (Option-cases (offer_file c filter n fi f)) [
    | inl q ↦
        let r = offer_files-InFiles n (suc fi) fs id (ground arith) in
        let k : suc fi + r.offset ≡ fi + suc r.offset = omega arith in
        record {
          offset = suc r.offset;
          file = r.file;
          at = r.at;
          of_file = subst (λ j. OfFile n j r.file id) k r.of_file;
        }
    | inr (i, q) ↦
        let k : fi ≡ fi + 0 = omega arith in
        record {
          offset = 0;
          file = f;
          at = refl;
          of_file = subst (λ j. OfFile n j f id) k (offer_file-OfFile n fi f id (ground arith));
        }
  ]

  pub offer-Eligible : (n : NzbInfo) (id : ArticleId) → offer c filter n ≡ some id → Eligible n id
  unfolding offer
  offer-Eligible n id e = elim (Bool-cases (nzb_skipped n)) [
    | inl t ↦ absurd (let q = rw (t, offer) at e in cc)
    | inr t ↦
        let r = offer_files-InFiles n 0 n.files id (rw (t, offer) at e) in
        let j : r.offset ≡ id.file_idx = omega (arith, r.of_file.same_file) in
        record {
          file = r.file;
          article = r.of_file.article;
          of_nzb = r.of_file.of_nzb;
          at_file = subst (λ k. get_elem? n.files k ≡ some r.file) j r.at;
          at_article = r.of_file.at_article;
          not_tried = r.of_file.not_tried;
          not_in_post = ground arith;
          nzb_runs = ground arith;
          file_runs = r.of_file.file_runs;
          passes = r.of_file.passes;
          below_cap =
              subst (λ k. active_per_file_count (n.id, k) c < effective_per_file_cap c filter)
                (sym r.of_file.same_file) r.of_file.below_cap;
        }
  ]

  -- An article that may be downloaded makes its file and its download answer.
  offer_file-answers :
      (n : NzbInfo) (fi : ℕ) (f : FileInfo)
      → file_skipped filter n f ≡ false
      → active_per_file_count (n.id, fi) c < effective_per_file_cap c filter
      → is_some (position waiting f.articles) ≡ true
      → is_some (offer_file c filter n fi f) ≡ true
  unfolding offer_file
  offer_file-answers n fi f run room some_waiting = ground arith

  offer_files-answers :
      (n : NzbInfo) (fi : ℕ) (fs : List FileInfo) (j : ℕ) {f : FileInfo}
      → get_elem? fs j ≡ some f
      → is_some (offer_file c filter n (fi + j) f) ≡ true
      → is_some (offer_files c filter n fi fs) ≡ true
  unfolding offer_files
  offer_files-answers n fi [] j at h = cc
  offer_files-answers n fi (g ∷ fs) zero {f} at h =
      let e : g ≡ f = ground arith in
      let k : fi + 0 ≡ fi = omega arith in
      let h' : is_some (offer_file c filter n fi g) ≡ true =
        subst (λ x. is_some (offer_file c filter n fi x) ≡ true) (sym e)
          (subst (λ i. is_some (offer_file c filter n i f) ≡ true) k h) in
      ground arith
  offer_files-answers n fi (g ∷ fs) (suc j) {f} at h =
      let k : fi + suc j ≡ suc fi + j = omega arith in
      let rest =
        offer_files-answers n (suc fi) fs j at
          (subst (λ i. is_some (offer_file c filter n i f) ≡ true) k h) in
      ground arith

  pub Eligible-answers :
      (n : NzbInfo) (id : ArticleId) → Eligible n id → is_some (offer c filter n) ≡ true
  unfolding offer
  Eligible-answers n id el =
      let here : waiting el.article ≡ true = let u = el.not_tried in ground arith in
      let some_waiting = is_some-position waiting el.file.articles id.seg_idx el.at_article here in
      let run : file_skipped filter n el.file ≡ false =
        let a = el.file_runs in let b = el.passes in unfold file_skipped in ground arith in
      let answers = offer_files-answers n 0 n.files id.file_idx el.at_file (
        offer_file-answers n (0 + id.file_idx) el.file run
          (subst (λ k. active_per_file_count (n.id, k) c < effective_per_file_cap c filter)
            (omega arith) el.below_cap)
          some_waiting) in
      let skip : nzb_skipped n ≡ false =
        let a = el.nzb_runs in let b = el.not_in_post in unfold nzb_skipped in ground arith in
      rw skip answers

  -- A download of the queue that no other one with an article to download precedes in priority.
  abbrev pub Foremost : ArticleId → NzbInfo → Type 0
  Foremost id n =
      Eligible n id × All (λ m. (id' : ArticleId) → Eligible m id' → Ranked n m) c.queue.queue

  -- The article that `next_article_filtered` chooses may be downloaded, and no download with such an
  -- article has a higher priority than its own.
  pub next_article_filtered-Foremost :
      (id : ArticleId) → next_article_filtered c filter ≡ some id → Any (Foremost id) c.queue.queue
  unfolding next_article_filtered
  next_article_filtered-Foremost id e =
      Any-weaken (Best (offer c filter) id c.queue.queue) (Foremost id) c.queue.queue
        (λ n g. (
          offer-Eligible n id g.0,
          All-weaken _ _ c.queue.queue (λ m r id' el. r (Eligible-answers m id' el)) g.1,
        ))
        (asked-Best (offer c filter) c.queue.queue id e)

  -- Where `next_article_filtered` chooses none, no download of the queue has an article that may be
  -- downloaded.
  pub next_article_filtered-none :
      next_article_filtered c filter ≡ none
      → All (λ n. (id : ArticleId) → ¬ Eligible n id) c.queue.queue
  unfolding next_article_filtered
  next_article_filtered-none e =
      All-weaken _ _ c.queue.queue
        (λ n q id el. let a = Eligible-answers n id el in silent (offer c filter n) q a)
        (asked-none (offer c filter) c.queue.queue e)
