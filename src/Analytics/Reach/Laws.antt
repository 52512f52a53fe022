-- ===== src/Analytics/Reach/Laws.antt =====
-- What the statistics of the blocks add up to.
use forgepost.Prelude.{
  ℕ, ℤ, pos, negsuc, suc, ◌+◌, ◌-ℤ◌, ◌+ℤ◌, ◌≤ℤ◌, ◌≡◌, refl, max_ℤ, Option, List, [], ◌∷◌, arith,
  length, ap, map, pos_part, neg_part,
}
use forgepost.Content.{Uuid}
use forgepost.Float.{Float}
use forgepost.Analytics.Reach.{
  BandReach, BlockStat, BlockLayout, reach_of, stats_from, block_stats, impressions_of,
  estimated_reach_for_index,
}

-- The readers lost over some blocks.
pub losses : List BlockStat → ℤ
losses [] = pos 0
losses (s ∷ rest) = s.estimated_dropoff +ℤ losses rest

-- The readers that blocks gain on the ones before them, as one with links to it does.
pub gains : ℤ → List BlockStat → ℤ
gains prev [] = pos 0
gains prev (s ∷ rest) = max_ℤ (s.estimated_reach -ℤ prev) (pos 0) +ℤ gains s.estimated_reach rest

-- The readers of the last block, or those at the start if there is none.
pub last_reach : ℤ → List BlockStat → ℤ
last_reach prev [] = prev
last_reach prev (s ∷ rest) = last_reach s.estimated_reach rest

-- No block has fewer readers than saw it.
abbrev pub AllSeen : List BlockStat → Type 0
AllSeen [] = Unit {0}
AllSeen (s ∷ rest) = (s.impressions ≤ℤ s.estimated_reach) × AllSeen rest

max_ℤ_right : (a b : ℤ) → b ≤ℤ max_ℤ a b
max_ℤ_right a b = ground arith

parts_add :
    (a b : ℤ)
    → pos_part (a +ℤ b) + (neg_part a + neg_part b) ≡ neg_part (a +ℤ b) + (pos_part a + pos_part b)
parts_add (pos a) (pos b) = ground arith
parts_add (pos a) (negsuc b) = ground arith
parts_add (negsuc a) (pos b) = ground arith
parts_add (negsuc a) (negsuc b) = ground arith

same_parts : (a b : ℤ) → pos_part a + neg_part b ≡ pos_part b + neg_part a → a ≡ b
same_parts (pos a) (pos b) e = ground (arith, e)
same_parts (pos a) (negsuc b) e = ground (arith, e)
same_parts (negsuc a) (pos b) e = ground (arith, e)
same_parts (negsuc a) (negsuc b) e = ground (arith, e)

-- Two numbers differ by what is lost less what is gained.
parts_change :
    (p r : ℤ)
    → pos_part (max_ℤ (p -ℤ r) (pos 0))
        + (neg_part (max_ℤ (r -ℤ p) (pos 0)) + (pos_part r + neg_part p))
      ≡ neg_part (max_ℤ (p -ℤ r) (pos 0))
        + (pos_part (max_ℤ (r -ℤ p) (pos 0)) + (pos_part p + neg_part r))
parts_change (pos a) (pos b) = ground arith
parts_change (pos a) (negsuc b) = ground arith
parts_change (negsuc a) (pos b) = ground arith
parts_change (negsuc a) (negsuc b) = ground arith

-- A change of readers before blocks that balance.
change_before :
    (p r lost gained all_lost all_gained end : ℤ)
    → pos_part lost + (neg_part gained + (pos_part r + neg_part p))
      ≡ neg_part lost + (pos_part gained + (pos_part p + neg_part r))
    → r +ℤ all_gained ≡ end +ℤ all_lost
    → p +ℤ (gained +ℤ all_gained) ≡ end +ℤ (lost +ℤ all_lost)
change_before p r lost gained all_lost all_gained end h e =
    same_parts (p +ℤ (gained +ℤ all_gained)) (end +ℤ (lost +ℤ all_lost)) (
      omega (
        arith,
        h,
        ap pos_part e,
        ap neg_part e,
        parts_add r all_gained,
        parts_add end all_lost,
        parts_add gained all_gained,
        parts_add lost all_lost,
        parts_add p (gained +ℤ all_gained),
        parts_add end (lost +ℤ all_lost),
      ))

module _ (f : Float) where
  stats_from-balance :
      (prev : ℤ) (index total : ℕ) (impressions : Uuid → Option ℤ) (band_reach : List BandReach)
      (blocks : List BlockLayout)
      → let stats = stats_from f prev index total impressions band_reach blocks in
        prev +ℤ gains prev stats ≡ last_reach prev stats +ℤ losses stats
  unfolding stats_from gains losses last_reach
  stats_from-balance prev index total impressions band_reach [] = refl
  stats_from-balance prev index total impressions band_reach (b ∷ blocks) =
      let reach = reach_of f index total impressions band_reach b in
      let rest = stats_from f reach (suc index) total impressions band_reach blocks in
      change_before prev reach (max_ℤ (prev -ℤ reach) (pos 0)) (max_ℤ (reach -ℤ prev) (pos 0))
        (losses rest) (gains reach rest) (last_reach reach rest) (parts_change prev reach)
        (stats_from-balance reach (suc index) total impressions band_reach blocks)

  stats_from-AllSeen :
      (prev : ℤ) (index total : ℕ) (impressions : Uuid → Option ℤ) (band_reach : List BandReach)
      (blocks : List BlockLayout)
      → AllSeen (stats_from f prev index total impressions band_reach blocks)
  unfolding stats_from reach_of
  stats_from-AllSeen prev index total impressions band_reach [] = tt
  stats_from-AllSeen prev index total impressions band_reach (b ∷ blocks) = (
    max_ℤ_right (estimated_reach_for_index f index total band_reach)
        (impressions_of impressions b.id),
    stats_from-AllSeen (reach_of f index total impressions band_reach b) (suc index) total
        impressions band_reach blocks,
  )

stats_from-ids :
    (f : Float) (prev : ℤ) (index total : ℕ) (impressions : Uuid → Option ℤ)
    (band_reach : List BandReach) (blocks : List BlockLayout)
    → map
        (λ (s : BlockStat). s.block_id)
        (stats_from f prev index total impressions band_reach blocks)
      ≡ map (λ (b : BlockLayout). b.id) blocks
unfolding stats_from
stats_from-ids f prev index total impressions band_reach [] = refl
stats_from-ids f prev index total impressions band_reach (b ∷ blocks) =
    ap (λ ids. b.id ∷ ids)
      (stats_from-ids f (reach_of f index total impressions band_reach b) (suc index) total
        impressions band_reach blocks)

-- The statistics name every block in order, and none has fewer readers than saw it. Over all blocks
-- the readers balance: the views and what blocks gain on the ones before them are together the readers
-- of the last block and those counted as lost on the way.
pub block_stats-balance :
    (f : Float) (blocks : List BlockLayout) (impressions : Uuid → Option ℤ)
    (band_reach : List BandReach) (views : ℤ)
    → let stats = block_stats f blocks impressions band_reach views in
      (map (λ (s : BlockStat). s.block_id) stats ≡ map (λ (b : BlockLayout). b.id) blocks)
      × AllSeen stats
      × (views +ℤ gains views stats ≡ last_reach views stats +ℤ losses stats)
unfolding block_stats
block_stats-balance f blocks impressions band_reach views = (
  stats_from-ids f views 0 (length blocks) impressions band_reach blocks,
  stats_from-AllSeen f views 0 (length blocks) impressions band_reach blocks,
  stats_from-balance f views 0 (length blocks) impressions band_reach blocks,
)
