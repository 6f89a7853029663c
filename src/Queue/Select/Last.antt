-- ===== src/Queue/Select/Last.antt =====
-- Which of several downloads of equal priority comes first.
use bergamot.Prelude.{
  ◌≡◌, refl, ◌∙◌, ap, Bool, List, [], ◌∷◌, ◌++◌, reverse, some, inl, inr, Option-cases, All,
}
use bergamot.Queue.Nzb.{FileInfo, NzbInfo}
use bergamot.Queue.State.{ArticleId, QueueCoordinator}
use bergamot.Queue.Select.{offer, next_article_filtered, sort_by_rank, first_some}
use bergamot.Queue.Select.Order.{Ranked, asked_snoc}
use bergamot.Queue.Select.Choice.{Eligible, Eligible-answers, offer-Eligible, silent}

module _ {S : Type 0} (c : QueueCoordinator S) (filter : FileInfo → Bool) where
  -- If the download at the end of the queue has an article to download, and no other download has
  -- a higher priority, the article that is chosen is one of its own: those before it wait, also
  -- where their priority is the same.
  pub next_article_filtered-last :
      (ns : List NzbInfo) (b : NzbInfo) (id : ArticleId)
      → c.queue.queue ≡ ns ++ b ∷ []
      → All (Ranked b) ns
      → Eligible c filter b id
      → (chosen : ArticleId) × (next_article_filtered c filter ≡ some chosen)
        × (chosen.nzb_id ≡ b.id)
  unfolding next_article_filtered
  next_article_filtered-last ns b id e h el = elim (Option-cases (offer c filter b)) [
    | inl q ↦ absurd (silent (offer c filter b) q (Eligible-answers c filter b id el))
    | inr (chosen, q) ↦ (
      chosen,
      ap (λ xs. first_some (offer c filter) (reverse (sort_by_rank xs))) e
          ∙ (ap (first_some (offer c filter)) (asked_snoc ns b h) ∙ rw (q, first_some) refl),
      (offer-Eligible c filter b chosen q).of_nzb,
    )
  ]
