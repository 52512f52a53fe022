-- ===== src/Recommender.antt =====
-- crates/server/src/recommender.rs: which articles to suggest after the one that is read.
pub mod Sorting
pub mod Ranking
mod Tests
use forgepost.Prelude.{
  ℕ, ℤ, suc, Bool, true, false, not, ◌&&◌, ◌||◌, Option, none, some, List, [], ◌∷◌, map, length,
  keep, any, take, ltb, ltb_ℤ, ◌==◌, if◌then◌else◌,
}
use forgepost.Text.{Text, text_eq}
use forgepost.Content.{Uuid}

-- crates/domain/src/model.rs.
pub record PublishedPost : Type 0 where
  pub id : Uuid
  pub title : Text
  pub slug : Text
  pub published_at_ms : Option ℤ
  pub tags : List Text

pub shared_tag_count : List Text → List Text → ℕ
shared_tag_count candidate current = length (keep (λ t. any (text_eq t) current) candidate)

-- Option<i64> in its order: an absent value comes first.
abbrev pub lt_option : Option ℤ → Option ℤ → Bool
lt_option none none = false
lt_option none (some y) = true
lt_option (some x) none = false
lt_option (some x) (some y) = ltb_ℤ x y

abbrev pub Ranked : Type 0
Ranked = ℕ × PublishedPost

-- Whether the comparison of a with b is `Greater`: a goes behind b.
abbrev pub behind : Ranked → Ranked → Bool
behind a b = ltb a.0 b.0 || (a.0 == b.0 && lt_option a.1.published_at_ms b.1.published_at_ms)

-- `sort_by`, which is stable.
pub insert_ranked : Ranked → List Ranked → List Ranked
insert_ranked a [] = a ∷ []
insert_ranked a (b ∷ bs) =
    let rest = insert_ranked a bs in if behind a b then b ∷ rest else a ∷ b ∷ bs

pub sort_ranked : List Ranked → List Ranked
unfolding insert_ranked
sort_ranked [] = []
sort_ranked (a ∷ rest) = insert_ranked a (sort_ranked rest)

pub candidates : List PublishedPost → Uuid → List Text → List Ranked
unfolding shared_tag_count
candidates published current_id current_tags =
    map (λ (p : PublishedPost). (shared_tag_count p.tags current_tags, p))
      (keep (λ (p : PublishedPost). not (p.id == current_id)) published)

pub rank_related : List PublishedPost → Uuid → List Text → ℕ → List PublishedPost
unfolding candidates sort_ranked
rank_related published current_id current_tags limit =
    map (λ (r : Ranked). r.1)
      (take limit (sort_ranked (candidates published current_id current_tags)))
