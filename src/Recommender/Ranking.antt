-- ===== src/Recommender/Ranking.antt =====
-- What the ranking promises.
use forgepost.Prelude.{
  ℕ, ◌≡◌, refl, sym, subst, ◌∙◌, ◌⊎◌, inl, inr, false, not, List, arith, length, take, ◌==◌, In,
  In-keep, keep-In, In-map, map-In, length-map,
}
use forgepost.Text.{Text}
use forgepost.Content.{Uuid}
use forgepost.Recommender.{
  PublishedPost, shared_tag_count, Ranked, behind, sort_ranked, candidates, rank_related,
}
use forgepost.Recommender.Sorting.{
  sort_ranked-IsRanked, In-sort_ranked, sort_ranked-In, take-In, take-best,
}

candidates-In :
    (published : List PublishedPost) (current_id : Uuid) (current_tags : List Text) (r : Ranked)
    → In r (candidates published current_id current_tags)
    → (r.0 ≡ shared_tag_count r.1.tags current_tags)
      × In r.1 published
      × ((r.1.id == current_id) ≡ false)
unfolding candidates
candidates-In published current_id current_tags r h =
    let (p, m, e) =
      In-map (λ (p : PublishedPost). (shared_tag_count p.tags current_tags, p)) _ r h in
    let (n, t) = In-keep (λ (p : PublishedPost). not (p.id == current_id)) published p m in
    rw e (refl, n, ground (arith, t))

-- A suggested article is a published one, and not the one that is read.
rank_related-In :
    (published : List PublishedPost) (current_id : Uuid) (current_tags : List Text) (limit : ℕ)
    (p : PublishedPost)
    → In p (rank_related published current_id current_tags limit)
    → In p published × ((p.id == current_id) ≡ false)
unfolding rank_related
rank_related-In published current_id current_tags limit p h =
    let cs = candidates published current_id current_tags in
    let (r, m, e) = In-map (λ (r : Ranked). r.1) (take limit (sort_ranked cs)) p h in
    let (k, n, d) =
      candidates-In published current_id current_tags r
        (sort_ranked-In cs r (take-In limit (sort_ranked cs) r m)) in
    rw e (n, d)

-- A published article other than the one that is read is suggested unless there are as many
-- suggestions as asked for, of which none goes behind it: none shares fewer tags, and none that
-- shares as many is older.
pub rank_related-best :
    (published : List PublishedPost) (current_id : Uuid) (current_tags : List Text) (limit : ℕ)
    (p : PublishedPost)
    → In p published
    → (p.id == current_id) ≡ false
    → let result = rank_related published current_id current_tags limit in
      In p result
      ⊎ ((length result ≡ limit)
          × ((q : PublishedPost)
              → In q result
              → behind
                  (shared_tag_count q.tags current_tags, q)
                  (shared_tag_count p.tags current_tags, p)
                ≡ false))
unfolding rank_related candidates
rank_related-best published current_id current_tags limit p m other =
    let cs = candidates published current_id current_tags in
    let key : PublishedPost → Ranked = λ q. (shared_tag_count q.tags current_tags, q) in
    let there : In (key p) cs =
      map-In key _ p
        (keep-In (λ (q : PublishedPost). not (q.id == current_id)) published p m (rw other refl)) in
    elim (take-best limit (sort_ranked cs) (key p) (sort_ranked-IsRanked cs)
      (In-sort_ranked cs (key p) there)) [
        | inl h ↦ inl (map-In (λ (r : Ranked). r.1) (take limit (sort_ranked cs)) (key p) h)
        | inr (len, best) ↦ inr (
          length-map (λ (r : Ranked). r.1) (take limit (sort_ranked cs)) ∙ len,
          λ q h. ranked len best q h,
        )
      ]
  where
    ranked :
        length (take limit (sort_ranked (candidates published current_id current_tags))) ≡ limit
        → ((r : Ranked)
            → In r (take limit (sort_ranked (candidates published current_id current_tags)))
            → behind r (shared_tag_count p.tags current_tags, p) ≡ false)
        → (q : PublishedPost) → In q (rank_related published current_id current_tags limit)
        → behind (shared_tag_count q.tags current_tags, q) (shared_tag_count p.tags current_tags, p)
          ≡ false
    ranked len best q h =
        let cs = candidates published current_id current_tags in
        let (r, n, e) = In-map (λ (r : Ranked). r.1) (take limit (sort_ranked cs)) q h in
        let (k, u, d) =
          candidates-In published current_id current_tags r
            (sort_ranked-In cs r (take-In limit (sort_ranked cs) r n)) in
        subst
          (λ (x : PublishedPost).
            behind (shared_tag_count x.tags current_tags, x)
              (shared_tag_count p.tags current_tags, p)
            ≡ false)
          (sym e)
          (subst (λ (i : ℕ). behind (i, r.1) (shared_tag_count p.tags current_tags, p) ≡ false) k
            (best r n))
