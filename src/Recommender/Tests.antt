-- ===== src/Recommender/Tests.antt =====
-- The ranking of crates/server/src/recommender.rs on three articles.
use forgepost.Prelude.{ℕ, ℤ, pos, ◌≡◌, refl, ◌⊎◌, inl, inr, false, some, List, [], ◌∷◌, length, In}
use forgepost.Text.{Text, codes}
use forgepost.Recommender.{PublishedPost, shared_tag_count, behind, rank_related}
use forgepost.Recommender.Ranking.{rank_related-best}

abbrev post : ℕ → ℤ → List Text → PublishedPost
post id time tags = record {
  id = id;
  title = [];
  slug = [];
  published_at_ms = some time;
  tags = tags;
}

abbrev tags : List Text
tags = codes "rust" ∷ codes "web" ∷ []

abbrev old_post : PublishedPost
old_post = post 2 (pos 10) tags

abbrev new_post : PublishedPost
new_post = post 3 (pos 20) []

abbrev posts : List PublishedPost
posts = post 1 (pos 30) tags ∷ new_post ∷ old_post ∷ []

rank_related_run : rank_related posts 1 tags 1 ≡ old_post ∷ []
unfolding rank_related
rank_related_run = refl

rank_related-best_example :
    In new_post (rank_related posts 1 tags 1)
    ⊎ ((length (rank_related posts 1 tags 1) ≡ 1)
        × ((q : PublishedPost)
            → In q (rank_related posts 1 tags 1)
            → behind (shared_tag_count q.tags tags, q) (shared_tag_count [] tags, new_post)
              ≡ false))
rank_related-best_example = rank_related-best posts 1 tags 1 new_post (inr (inl refl)) refl
