-- ===== src/Experiments/Record.antt =====
-- crates/domain/src/model.rs: the rows of the experiment tables. An f64 is a value of a Float, an
-- i64 an integer without its bound.
use forgepost.Prelude.{ℕ, ℤ, Bool, Option, List}
use forgepost.Text.{Text}
use forgepost.Json.{Json}
use forgepost.Content.{Uuid}
use forgepost.Float.{Float}

module _ (f : Float) where
  open f use {F64}

  pub record VariantRecord : Type 0 where
    pub id : Uuid
    pub block_id : Uuid
    pub version_id : Uuid
    pub weight : F64
    pub is_control : Bool

  pub record ExperimentRecord : Type 0 where
    pub id : Uuid
    pub document_id : Uuid
    pub block_id : Uuid
    pub name : Text
    pub status : Text
    pub control_version_id : Uuid
    pub goal : Text
    pub traffic_weight : F64
    pub confidence_threshold : F64
    pub min_sample_per_variant : ℤ
    pub no_winner_prob : F64
    pub max_duration_ms : ℤ
    pub started_at_ms : Option ℤ
    pub decided_at_ms : Option ℤ
    pub decision : Option Text
    pub winning_variant_id : Option Uuid
    pub created_at_ms : ℤ
    pub variants : List VariantRecord

  pub record VariantInput : Type 0 where
    pub content : Json
    pub weight : F64

  pub record NewExperiment : Type 0 where
    pub name : Text
    pub goal : Text
    pub traffic_weight : F64
    pub confidence_threshold : F64
    pub min_sample_per_variant : ℕ
    pub no_winner_prob : F64
    pub max_duration_ms : ℤ
    pub variants : List VariantInput

  pub record ExperimentDecision : Type 0 where
    pub id : Uuid
    pub experiment_id : Uuid
    pub decided_at_ms : ℤ
    pub decision : Text
    pub winner_variant_id : Option Uuid
    pub promoted_version_id : Option Uuid
    pub effect_size : Option F64
    pub confidence : Option F64
    pub control_impressions : Option ℤ
    pub control_conversions : Option ℤ
    pub variant_impressions : Option ℤ
    pub variant_conversions : Option ℤ

pub record ExperimentCounts : Type 0 where
  pub variant_id : Uuid
  pub impressions : ℤ
  pub conversions : ℤ
