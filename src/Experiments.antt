-- ===== src/Experiments.antt =====
-- crates/experiments/src/lib.rs: the types of the experiment engine. A u64 is a natural number.
pub mod Record
pub mod Numerics
pub mod Engine
pub mod Assignment
pub mod Tables
pub mod Store
pub mod Decide
mod Tests
use forgepost.Prelude.{ℕ, ℤ, pos, ◌*◌, Bool, Option, List, map}
use forgepost.Float.{Float, sum}
use forgepost.Content.{Uuid}

abbrev pub prior_alpha : ℕ
prior_alpha = 1

abbrev pub prior_beta : ℕ
prior_beta = 1

pub data ExperimentStatus : Type 0 where
  draft running decided stopped : ExperimentStatus

pub record VariantStats : Type 0 where
  pub variant_id : Uuid
  pub impressions : ℕ
  pub conversions : ℕ

module _ (f : Float) where
  open f use {F64, literal}

  pub record ExperimentVariant : Type 0 where
    pub id : Uuid
    pub block_id : Uuid
    pub version_id : Uuid
    pub weight : F64

  pub record Experiment : Type 0 where
    pub id : Uuid
    pub document_id : Uuid
    pub status : ExperimentStatus
    pub variants : List ExperimentVariant
    pub created_at_ms : ℤ

  pub total_weight : Experiment → F64
  total_weight e = sum f (map (λ (v : ExperimentVariant). v.weight) e.variants)

  pub record EngineConfig : Type 0 where
    pub confidence_threshold : F64
    pub min_sample_per_variant : ℕ
    pub no_winner_prob : F64
    pub max_duration_ms : ℤ

  abbrev pub default_config : EngineConfig
  default_config = record {
    confidence_threshold = literal 95 2;
    min_sample_per_variant = 100;
    no_winner_prob = literal 5 2;
    max_duration_ms = pos (30 * 24 * 60 * 60 * 1000);
  }

  pub data Recommendation : Type 0 where
    continue_ : Recommendation
    promote : Uuid → F64 → Recommendation
    no_winner : Recommendation

  pub record VariantReport : Type 0 where
    pub variant_id : Uuid
    pub is_control : Bool
    pub impressions : ℕ
    pub conversions : ℕ
    pub conversion_rate : F64
    pub posterior_mean : F64
    pub credible_interval : F64 × F64
    pub prob_beats_control : Option F64

  pub record ExperimentReport : Type 0 where
    pub variants : List VariantReport
    pub recommendation : Recommendation
    pub n_looks : ℕ
    pub adjusted_confidence_threshold : F64
    pub elapsed_ms : ℤ
