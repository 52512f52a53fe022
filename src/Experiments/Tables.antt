-- ===== src/Experiments/Tables.antt =====
-- crates/infrastructure/src/sqlite.rs: the experiment tables, the rows that the updates of
-- ExperimentRepo write, and two queries. Every id in a table is one that the program wrote, so that it
-- parses.
use forgepost.Prelude.{
  ℕ, ℤ, pos, negsuc, ltb, ◌^◌, ◌-◌, Bool, ◌&&◌, Option, none, some, List, [], ◌∷◌, map, ◌==◌,
  if◌then◌else◌, find, keep,
}
use forgepost.Text.{Text, codes, text_eq}
use forgepost.Json.{Json}
use forgepost.Content.{Uuid}
use forgepost.Float.{Float}
use forgepost.Experiments.Record.{VariantRecord, ExperimentRecord, ExperimentDecision}

-- The errors, without their messages.
pub data RepositoryError : Type 0 where
  database io migration not_found unauthorized forbidden invalid_input conflict uuid rate_limited :
      RepositoryError

pub data Result (A : Type 0) : Type 0 where
  ok : A → Result A
  err : RepositoryError → Result A

pub record BlockRow : Type 0 where
  pub id : Uuid
  pub document_id : Uuid
  pub current_version_id : Uuid
  pub updated_at_ms : ℤ

pub record VersionRow : Type 0 where
  pub id : Uuid
  pub block_id : Uuid
  pub content : Json
  pub created_at_ms : ℤ

-- `n as i64`, for a u64.
abbrev pub as_i64 : ℕ → ℤ
as_i64 n = if ltb n (2 ^ 63) then pos n else negsuc (2 ^ 64 - 1 - n)

abbrev pub draft_status : Text
draft_status = codes "draft"

abbrev pub running_status : Text
running_status = codes "running"

abbrev pub decided_status : Text
decided_status = codes "decided"

abbrev pub stopped_status : Text
stopped_status = codes "stopped"

-- UPDATE of the row that the condition, which names the primary key, selects.
unfoldable pub update {ℓ} : {A : Type ℓ} → (A → Bool) → (A → A) → List A → List A
update p g [] = []
update p g (x ∷ xs) = if p x then g x ∷ xs else x ∷ update p g xs

-- The `?` of Rust, on an option.
unfoldable pub and_then : {A B : Type 0} → Option A → (A → Option B) → Option B
and_then none k = none
and_then (some a) k = k a

module _ (f : Float) where
  open f use {F64}

  pub record ExperimentRow : Type 0 where
    pub id : Uuid
    pub document_id : Uuid
    pub block_id : Uuid
    pub name : Text
    pub status : Text
    pub control_version_id : Uuid
    pub goal : Text
    pub traffic_weight : F64
    pub confidence_threshold : F64
    pub min_sample_per_variant : ℤ
    pub no_winner_prob : F64
    pub max_duration_ms : ℤ
    pub started_at_ms : Option ℤ
    pub decided_at_ms : Option ℤ
    pub decision : Option Text
    pub winning_variant_id : Option Uuid
    pub created_at_ms : ℤ

  pub record VariantRow : Type 0 where
    pub experiment_id : Uuid
    pub row : VariantRecord f

  pub record Db : Type 0 where
    pub blocks : List BlockRow
    pub versions : List VersionRow
    pub experiments : List ExperimentRow
    pub variants : List VariantRow
    pub decisions : List (ExperimentDecision f)

  abbrev pub has_status : Text → ExperimentRow → Bool
  has_status s r = text_eq r.status s

  abbrev pub draft_with : Uuid → ExperimentRow → Bool
  draft_with id r = (r.id == id) && has_status draft_status r

  abbrev pub running_with : Uuid → ExperimentRow → Bool
  running_with id r = (r.id == id) && has_status running_status r

  abbrev pub running_at : Uuid → ExperimentRow → Bool
  running_at block_id r = (r.block_id == block_id) && has_status running_status r

  unfoldable pub load_experiment : Db → Uuid → Option (ExperimentRecord f)
  load_experiment db id = elim (find (λ (r : ExperimentRow). r.id == id) db.experiments) [
    | none ↦ none
    | some row ↦ some (record {
      id = id;
      document_id = row.document_id;
      block_id = row.block_id;
      name = row.name;
      status = row.status;
      control_version_id = row.control_version_id;
      goal = row.goal;
      traffic_weight = row.traffic_weight;
      confidence_threshold = row.confidence_threshold;
      min_sample_per_variant = row.min_sample_per_variant;
      no_winner_prob = row.no_winner_prob;
      max_duration_ms = row.max_duration_ms;
      started_at_ms = row.started_at_ms;
      decided_at_ms = row.decided_at_ms;
      decision = row.decision;
      winning_variant_id = row.winning_variant_id;
      created_at_ms = row.created_at_ms;
      variants =
          map (λ (v : VariantRow). v.row)
            (keep (λ (v : VariantRow). v.experiment_id == id) db.variants);
    })
  ]

  pub running_experiments : Db → List Uuid
  running_experiments db =
      map (λ (r : ExperimentRow). r.id) (keep (has_status running_status) db.experiments)

  -- What the three UPDATE statements set.
  abbrev pub started : ℤ → ExperimentRow → ExperimentRow
  started now r = record r {
    status = running_status;
    started_at_ms = some now;
    decided_at_ms = none;
    decision = none;
    winning_variant_id = none;
  }

  abbrev pub stopped_at : ℤ → ExperimentRow → ExperimentRow
  stopped_at now r = record r {
    status = stopped_status;
    decided_at_ms = some now;
    decision = some (codes "stopped");
  }

  abbrev pub concluded : ℤ → Text → Option Uuid → ExperimentRow → ExperimentRow
  concluded now decision winner r = record r {
    status = decided_status;
    decided_at_ms = some now;
    decision = some decision;
    winning_variant_id = winner;
  }
