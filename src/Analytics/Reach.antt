-- ===== src/Analytics/Reach.antt =====
-- crates/analytics/src/lib.rs: how many readers reach each block, by the bands of scroll depth. An i64
-- is an integer without its bound: the counts are those of queries, which are never negative, so that
-- the difference of two stays within an i64.
pub mod Laws
mod Tests
use forgepost.Prelude.{
  ℕ, ℤ, pos, suc, ◌+◌, ◌-ℤ◌, max_ℤ, ◌==◌, Bool, true, Option, none, some, List, [], ◌∷◌, length,
  find, pos_part, neg_part, if◌then◌else◌,
}
use forgepost.Text.{Text}
use forgepost.Content.{Uuid}
use forgepost.Float.{Float}

pub record BandReach : Type 0 where
  pub band : ℕ
  pub pageviews : ℤ

pub record BlockStat : Type 0 where
  pub block_id : Uuid
  pub position : ℤ
  pub kind : Text
  pub preview : Text
  pub impressions : ℤ
  pub estimated_reach : ℤ
  pub estimated_dropoff : ℤ
  pub is_estimate : Bool

-- The layout of a block: its id, position, kind and preview.
pub record BlockLayout : Type 0 where
  pub id : Uuid
  pub position : ℤ
  pub kind : Text
  pub preview : Text

abbrev pub scroll_bands : List ℕ
scroll_bands = 25 ∷ 50 ∷ 75 ∷ 100 ∷ []

pub reach_for_band : ℕ → List BandReach → ℤ
reach_for_band band band_reach = elim (find (λ (b : BandReach). b.band == band) band_reach) [
  | none ↦ pos 0
  | some b ↦ b.pageviews
]

-- The count under an id in a HashMap, or 0.
pub impressions_of : (Uuid → Option ℤ) → Uuid → ℤ
impressions_of impressions id = elim (impressions id) [ none ↦ pos 0 | some n ↦ n ]

module _ (f : Float) where
  open f use {F64, of_ℕ, literal, mul, div, le}

  -- The first band that a percentage does not pass, or 0.
  pub choose_band : F64 → List ℕ → ℕ
  choose_band pct [] = 0
  choose_band pct (band ∷ bands) =
      let rest = choose_band pct bands in if le pct (of_ℕ band) then band else rest

  pub estimated_reach_for_index : ℕ → ℕ → List BandReach → ℤ
  unfolding choose_band reach_for_band
  estimated_reach_for_index index total band_reach =
      let pct = mul (div (of_ℕ (index + 1)) (of_ℕ total)) (literal 100 0) in
      let chosen = choose_band pct scroll_bands in
      if total == 0 then pos 0 else reach_for_band (if chosen == 0 then 100 else chosen) band_reach

  pub reach_of : ℕ → ℕ → (Uuid → Option ℤ) → List BandReach → BlockLayout → ℤ
  unfolding estimated_reach_for_index impressions_of
  reach_of index total impressions band_reach b =
      max_ℤ (estimated_reach_for_index index total band_reach) (impressions_of impressions b.id)

  -- The statistics from an index on, after the reach of the block before.
  pub stats_from :
      ℤ → ℕ → ℕ → (Uuid → Option ℤ) → List BandReach → List BlockLayout → List BlockStat
  unfolding reach_of
  stats_from prev index total impressions band_reach [] = []
  stats_from prev index total impressions band_reach (b ∷ blocks) =
      let reach = reach_of index total impressions band_reach b in
      record {
        block_id = b.id;
        position = b.position;
        kind = b.kind;
        preview = b.preview;
        impressions = impressions_of impressions b.id;
        estimated_reach = reach;
        estimated_dropoff = max_ℤ (prev -ℤ reach) (pos 0);
        is_estimate = true;
      }
      ∷ stats_from reach (suc index) total impressions band_reach blocks

  pub block_stats : List BlockLayout → (Uuid → Option ℤ) → List BandReach → ℤ → List BlockStat
  unfolding stats_from
  block_stats blocks impressions band_reach views =
      stats_from views 0 (length blocks) impressions band_reach blocks
