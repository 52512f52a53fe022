-- ===== src/Analytics/Reach/Tests.antt =====
-- The statistics of two blocks, by the example of the source's own test.
use forgepost.Prelude.{ℤ, pos, ◌+ℤ◌, ◌≡◌, refl, none, List, [], ◌∷◌, map}
use forgepost.Content.{Uuid}
use forgepost.Float.Hundredths.{hundredths}
use forgepost.Analytics.Reach.{BandReach, BlockStat, BlockLayout, block_stats}
use forgepost.Analytics.Reach.Laws.{AllSeen, gains, last_reach, losses, block_stats-balance}

abbrev bands : List BandReach
bands =
    record { band = 25; pageviews = pos 100 }
    ∷ record { band = 50; pageviews = pos 80 }
    ∷ record { band = 100; pageviews = pos 30 }
    ∷ []

abbrev layout : Uuid → ℤ → BlockLayout
layout id position = record { id = id; position = position; kind = []; preview = [] }

abbrev two_blocks : List BlockLayout
two_blocks = layout 1 (pos 0) ∷ layout 2 (pos 1) ∷ []

block_stats_run :
    map
      (λ (s : BlockStat). s.estimated_dropoff)
      (block_stats hundredths two_blocks (λ _. none) bands (pos 100))
    ≡ pos 20 ∷ pos 50 ∷ []
unfolding block_stats
block_stats_run = refl

block_stats-balance_example :
    let stats = block_stats hundredths two_blocks (λ _. none) bands (pos 100) in
    (map (λ (s : BlockStat). s.block_id) stats ≡ 1 ∷ 2 ∷ [])
    × AllSeen stats
    × (pos 100 +ℤ gains (pos 100) stats ≡ last_reach (pos 100) stats +ℤ losses stats)
block_stats-balance_example = block_stats-balance hundredths two_blocks (λ _. none) bands (pos 100)
