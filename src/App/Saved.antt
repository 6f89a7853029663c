-- ===== src/App/Saved.antt =====
-- What is saved for a file and restored from it.
use bergamot.Prelude.{
  ℕ, suc, ◌+◌, ◌-◌, ◌≤◌, ◌<◌, ◌≡◌, refl, sym, ◌∙◌, subst, ap, true, false, List, [], ◌∷◌, map,
  Option, none, some, arith, if◌then◌else◌, ◌==◌, Bool-cases, inl, inr,
}
use bergamot.Prelude.Find.{sum_by}
use bergamot.Prelude.Map.{number_eq, get}
use bergamot.Nzb.Model as Parsed
use bergamot.Queue.Types.{Priority, undefined, finished}
use bergamot.Queue.NewNzb.{new_article, new_file}
use bergamot.Queue.Nzb.{ArticleInfo, FileInfo}
use bergamot.Queue.Listings.{FileArticleSnapshot, completed_from, snapshot_if}
use bergamot.Queue.Download.Accounts.{FileAccounts, is_finished, bytes_if, one_if}
use bergamot.Diskstate.{FileArticleState, new_state, is_article_done, mark_article_done, mark_all}
use bergamot.Diskstate.Marks.{
  last_entry, named, is_article_done-mark_article_done, is_article_done-mark_all, get-mark_all,
  get-mark_article_done, is_article_done-new_state,
}
use bergamot.App.{Restored, file_state_of, restored_article, restore_articles, with_state}

-- An article as a document gives it: nothing is known of it yet.
abbrev pub fresh : ArticleInfo → ArticleInfo
fresh a = record a { status = undefined; crc = 0 }

-- An article as it should come back: with its checksum if it is downloaded, else fresh.
abbrev pub settled : ArticleInfo → ArticleInfo
settled a = if is_finished a.status then record a { status = finished } else fresh a

named-completed_from :
    (j i : ℕ) (articles : List ArticleInfo) → j < i → named j (completed_from i articles) ≡ false
unfolding completed_from
named-completed_from j i [] h = refl
named-completed_from j i (a ∷ articles) h = elim (Bool-cases (is_finished a.status)) [
  | inl e ↦ rw e (ground (arith, named-completed_from j (suc i) articles (omega arith)))
  | inr e ↦ rw e (named-completed_from j (suc i) articles (omega arith))
]

last_entry-named :
    (j : ℕ) (es : List (ℕ × ℕ)) (old : Option ℕ) → named j es ≡ false → last_entry j es old ≡ old
last_entry-named j [] old h = refl
last_entry-named j ((i, crc) ∷ es) old h = elim (Bool-cases (i == j)) [
  | inl e ↦ ground arith
  | inr e ↦ rw e (last_entry-named j es old (rw e at h))
]

-- A state that says of every article, from an index on, what the article says.
abbrev Matches : FileArticleState → ℕ → List ArticleInfo → Type 0
Matches s i [] = Unit
Matches s i (a ∷ articles) =
    (is_article_done i s ≡ is_finished a.status)
    × ((is_finished a.status ≡ true → get i s.article_crcs ≡ some a.crc)
        × Matches s (suc i) articles)

completed_from-finished :
    (i : ℕ) (a : ArticleInfo) (articles : List ArticleInfo)
    → is_finished a.status ≡ true
    → completed_from i (a ∷ articles) ≡ (i, a.crc) ∷ completed_from (suc i) articles
unfolding completed_from
completed_from-finished i a articles e = rw e refl

completed_from-skipped :
    (i : ℕ) (a : ArticleInfo) (articles : List ArticleInfo)
    → is_finished a.status ≡ false
    → completed_from i (a ∷ articles) ≡ completed_from (suc i) articles
unfolding completed_from
completed_from-skipped i a articles e = rw e refl

mark_all-Matches :
    (i : ℕ) (articles : List ArticleInfo) (s : FileArticleState)
    → ((j : ℕ) → i ≤ j → is_article_done j s ≡ false)
    → Matches (mark_all (completed_from i articles) s) i articles
unfolding mark_all
mark_all-Matches i [] s h = tt
mark_all-Matches i (a ∷ articles) s h =
    let es = completed_from (suc i) articles in
    let unnamed = named-completed_from i (suc i) articles (omega arith) in
    let Goal : List (ℕ × ℕ) → Type 0 = λ es. Matches (mark_all es s) i (a ∷ articles) in
    elim (Bool-cases (is_finished a.status)) [
      | inl e ↦
          let t = mark_article_done i a.crc s in
          let done = is_article_done-mark_all i es t in
          let first = is_article_done-mark_article_done i a.crc i s in
          let crc = get-mark_article_done i a.crc i s in
          let later : (j : ℕ) → suc i ≤ j → is_article_done j t ≡ false = λ j le.
            let old = h j (omega arith) in
            let step = is_article_done-mark_article_done i a.crc j s in ground arith in
          subst Goal (sym (completed_from-finished i a articles e)) (
            ground arith,
            (
              λ q.
                  get-mark_all i es t
                  ∙ last_entry-named i es (get i t.article_crcs) unnamed
                  ∙ ground arith,
              mark_all-Matches (suc i) articles t later,
            ),
          )
      | inr e ↦
          let done = is_article_done-mark_all i es s in
          let old = h i (omega arith) in
          subst Goal (sym (completed_from-skipped i a articles e)) (
            ground arith,
            (λ q. ground arith, mark_all-Matches (suc i) articles s (λ j le. h j (omega arith))),
          )
    ]

abbrev back_from : List ArticleInfo → Restored
back_from articles = record {
  articles = map settled articles;
  success_articles = sum_by (one_if is_finished) articles;
  success_size = sum_by (bytes_if is_finished) articles;
}

abbrev with_done : ArticleInfo → Restored → Restored
with_done a rest = record {
  articles = record a { status = finished } ∷ rest.articles;
  success_articles = rest.success_articles + 1;
  success_size = rest.success_size + a.size;
}

back_from-finished :
    (a : ArticleInfo) (articles : List ArticleInfo)
    → is_finished a.status ≡ true
    → with_done a (back_from articles) ≡ back_from (a ∷ articles)
back_from-finished a articles e =
    let swap : (m n : ℕ) → m + n ≡ n + m = λ m n. omega arith in
    rw
      (
        e,
        swap (sum_by (one_if is_finished) articles) 1,
        swap (sum_by (bytes_if is_finished) articles) a.size,
      )
      refl

back_from-skipped :
    (a : ArticleInfo) (articles : List ArticleInfo)
    → is_finished a.status ≡ false
    → (record (back_from articles) { articles = fresh a ∷ map settled articles })
      ≡ back_from (a ∷ articles)
back_from-skipped a articles e =
    let nothing : (n : ℕ) → 0 + n ≡ n = λ n. omega arith in
    rw
      (
        e,
        nothing (sum_by (one_if is_finished) articles),
        nothing (sum_by (bytes_if is_finished) articles),
      )
      refl

restore_articles-Matches :
    (s : FileArticleState) (i : ℕ) (articles : List ArticleInfo)
    → Matches s i articles
    → restore_articles s i (map fresh articles) ≡ back_from articles
unfolding restore_articles restored_article
restore_articles-Matches s i [] m = refl
restore_articles-Matches s i (a ∷ articles) m = elim (Bool-cases (is_finished a.status)) [
  | inl e ↦
      let done : is_article_done i s ≡ true = m.0 ∙ e in
      rw (done, m.1.0 e, restore_articles-Matches s (suc i) articles m.1.1)
        (back_from-finished a articles e)
  | inr e ↦
      let done : is_article_done i s ≡ false = m.0 ∙ e in
      rw (done, restore_articles-Matches s (suc i) articles m.1.1) (back_from-skipped a articles e)
]

none_back :
    (i : ℕ) (articles : List ArticleInfo)
    → completed_from i articles ≡ []
    → back_from articles
      ≡ (record { articles = map fresh articles; success_articles = 0; success_size = 0 })
none_back i [] h = refl
none_back i (a ∷ articles) h = elim (Bool-cases (is_finished a.status)) [
  | inl e ↦ let q = sym (completed_from-finished i a articles e) ∙ h in cc
  | inr e ↦
      let q = none_back (suc i) articles (sym (completed_from-skipped i a articles e) ∙ h) in
      sym (back_from-skipped a articles e)
      ∙ ap (λ (r : Restored). record r { articles = fresh a ∷ r.articles }) q
]

-- The state that is on disk for a file once the queue is saved.
abbrev pub saved_state : List FileArticleSnapshot → Option FileArticleState
unfolding file_state_of
saved_state [] = none
saved_state (snap ∷ snaps) = some (file_state_of snap)

-- What a file is like when it is restored, against what it was like when it was saved.
pub record CameBack (f g : FileInfo) : Type 0 where
  pub articles_back : g.articles ≡ map settled f.articles
  pub count_back : g.success_articles ≡ f.success_articles
  pub size_back : g.success_size ≡ f.success_size
  pub rest_left : g.remaining_size ≡ f.size - f.success_size

module _ (f g : FileInfo) (ok : FileAccounts f) (articles : g.articles ≡ map fresh f.articles)
    (size : g.size ≡ f.size) (nothing : (g.success_articles ≡ 0) × (g.success_size ≡ 0))
    (left : g.remaining_size ≡ g.size) where
  from_none : completed_from 0 f.articles ≡ [] → CameBack f (with_state none g)
  unfolding with_state
  from_none h =
      let q = none_back 0 f.articles h in
      let hits = ok.hits in
      let bytes = ok.succeeded in
      let count : sum_by (one_if is_finished) f.articles ≡ 0 =
        ap (λ (r : Restored). r.success_articles) q in
      let sizes : sum_by (bytes_if is_finished) f.articles ≡ 0 =
        ap (λ (r : Restored). r.success_size) q in
      record {
        articles_back = articles ∙ sym (ap (λ (r : Restored). r.articles) q);
        count_back = omega (arith, nothing);
        size_back = omega (arith, nothing);
        rest_left = omega arith;
      }

  from_some : (s : FileArticleState) → Matches s 0 f.articles → CameBack f (with_state (some s) g)
  unfolding with_state
  from_some s m =
      let q = ap (restore_articles s 0) articles ∙ restore_articles-Matches s 0 f.articles m in
      let hits = ok.hits in
      let bytes = ok.succeeded in
      record {
        articles_back = ap (λ (r : Restored). r.articles) q;
        count_back = ap (λ (r : Restored). r.success_articles) q ∙ sym hits;
        size_back = ap (λ (r : Restored). r.success_size) q ∙ sym bytes;
        rest_left = rw (q, size, bytes) refl;
      }

  from_saved :
      (es : List (ℕ × ℕ))
      → completed_from 0 f.articles ≡ es
      → CameBack f (with_state (saved_state (snapshot_if f es)) g)
  unfolding file_state_of
  from_saved [] h = from_none h
  from_saved (e ∷ es) h =
      let start = new_state f.id f.total_articles in
      from_some (mark_all (e ∷ es) start) (
        subst (λ xs. Matches (mark_all xs start) 0 f.articles) h
          (mark_all-Matches 0 f.articles start
            (λ j le. is_article_done-new_state f.id f.total_articles j)))

-- A file whose state is saved and read again, over the same document, comes back: an article is
-- downloaded, with its checksum, where it was, and else as the document gives it; the count and the
-- bytes of those downloaded are as before, and all the rest is left to fetch. The counters of the
-- file were right, and the document gives its articles and its size.
pub with_state-CameBack :
    (f : FileInfo) (p : Parsed.NzbFile) (now : ℕ) (priority : Priority)
    (nzb_id file_id file_idx : ℕ)
    → FileAccounts f
    → map new_article p.segments ≡ map fresh f.articles
    → p.total_size ≡ f.size
    → CameBack f (
        with_state
          (saved_state (snapshot_if f (completed_from 0 f.articles)))
          (new_file now priority nzb_id file_id file_idx p))
unfolding new_file
with_state-CameBack f p now priority nzb_id file_id file_idx ok articles size =
    from_saved f (new_file now priority nzb_id file_id file_idx p) ok articles size (refl, refl)
      refl (completed_from 0 f.articles) refl
