-- ===== src/Experiments/Decide.antt =====
-- crates/application/src/experiments.rs: the live report on an experiment, and the decisions that it
-- or an administrator takes, on the store. The sample counts of the experiment are an argument, as are
-- the clock and the drawn id. An outer `none` stands for a panic: the overflow of the report.
pub mod Control
pub mod Overflow
pub mod Promotion
mod Tests
use Prim.Native.Nat.{Ordering}
use forgepost.Prelude.{
  ℕ, suc, ℤ, pos, negsuc, pos_part, max_ℤ, ◌-ℤ◌, ◌==◌, Bool, true, false, not, Option, none, some,
  List, [], ◌∷◌, map, find, keep, if◌then◌else◌,
}
use forgepost.Text.{Text, codes, text_eq}
use forgepost.Content.{Uuid}
use forgepost.Float.{Float, partial_cmp}
use forgepost.Experiments.{
  VariantStats, EngineConfig, Recommendation, continue_, promote, no_winner, VariantReport,
  ExperimentReport,
}
use forgepost.Experiments.Engine.{analyze, max_by, or_equal, prob_or_zero}
use forgepost.Experiments.Record.{
  VariantRecord, ExperimentRecord, ExperimentCounts, ExperimentDecision,
}
use forgepost.Experiments.Tables.{
  Result, ok, err, not_found, invalid_input, conflict, Db, running_status, load_experiment,
  running_experiments,
}
use forgepost.Experiments.Store.{conclude_experiment}

pub count_of : List ExperimentCounts → Uuid → ExperimentCounts
count_of counts id = elim (find (λ (c : ExperimentCounts). c.variant_id == id) counts) [
  | some c ↦ c
  | none ↦ record { variant_id = id; impressions = pos 0; conversions = pos 0 }
]

-- `n.max(0) as u64` is the positive part of an i64.
pub stats_of : Uuid → ExperimentCounts → VariantStats
stats_of variant_id c = record {
  variant_id = variant_id;
  impressions = pos_part c.impressions;
  conversions = pos_part c.conversions;
}

module _ (f : Float) where
  open f use {F64, literal, of_ℕ, sub, div}

  -- `n as f64` of an i64.
  pub of_ℤ : ℤ → F64
  of_ℤ (pos n) = of_ℕ n
  of_ℤ (negsuc n) = sub (literal 0 0) (of_ℕ (suc n))

  pub record DecisionOutcome : Type 0 where
    pub experiment_id : Uuid
    pub decision : Text
    pub winner_variant_id : Option Uuid
    pub promoted_version_id : Option Uuid
    pub confidence : Option F64
    pub effect_size : Option F64

  pub config_from : ExperimentRecord f → EngineConfig f
  config_from exp = record {
    confidence_threshold = exp.confidence_threshold;
    min_sample_per_variant = pos_part exp.min_sample_per_variant;
    no_winner_prob = exp.no_winner_prob;
    max_duration_ms = exp.max_duration_ms;
  }

  abbrev pub is_control_row : VariantRecord f → Bool
  is_control_row v = v.is_control

  pub live_report : ℤ → ExperimentRecord f → List ExperimentCounts → Option (ExperimentReport f)
  unfolding count_of stats_of config_from
  live_report now exp counts =
      let control : ExperimentCounts = elim (find is_control_row exp.variants) [
        | some v ↦ count_of counts v.id
        | none ↦ record {
          variant_id = exp.control_version_id;
          impressions = pos 0;
          conversions = pos 0;
        }
      ] in
      let variants =
        map (λ (v : VariantRecord f). stats_of v.id (count_of counts v.id))
          (keep (λ (v : VariantRecord f). not v.is_control) exp.variants) in
      let elapsed_ms : ℤ = elim exp.started_at_ms [
        | some s ↦ max_ℤ (now -ℤ s) (pos 0)
        | none ↦ pos 0
      ] in
      analyze f (stats_of control.variant_id control) variants (config_from exp) elapsed_ms

  abbrev pub at_least_one : ℤ → F64
  at_least_one n = of_ℤ (max_ℤ n (pos 1))

  pub winner_outcome :
      ExperimentRecord f → List ExperimentCounts → Uuid → Option F64 → Option DecisionOutcome
  unfolding count_of of_ℤ
  winner_outcome exp counts winner_variant_id confidence =
      elim (find (λ (v : VariantRecord f). v.id == winner_variant_id) exp.variants) [
        | none ↦ none
        | some variant ↦ elim (find is_control_row exp.variants) [
          | none ↦ none
          | some control ↦
              let c = count_of counts control.id in
              let w = count_of counts variant.id in
              let effect =
                sub (div (of_ℤ w.conversions) (at_least_one w.impressions))
                  (div (of_ℤ c.conversions) (at_least_one c.impressions)) in
              some (record {
                experiment_id = exp.id;
                decision = codes "winner";
                winner_variant_id = some winner_variant_id;
                promoted_version_id = some variant.version_id;
                confidence = confidence;
                effect_size = some effect;
              })
        ]
      ]

  abbrev pub no_improvement : Uuid → DecisionOutcome
  no_improvement id = record {
    experiment_id = id;
    decision = codes "no_improvement";
    winner_variant_id = none;
    promoted_version_id = none;
    confidence = none;
    effect_size = none;
  }

  -- The row that a decision appends.
  pub decision_row :
      Uuid → ℤ → ExperimentRecord f → List ExperimentCounts → DecisionOutcome → ExperimentDecision f
  unfolding count_of
  decision_row row_id now exp counts outcome =
      let control = count_of counts exp.control_version_id in
      record {
        id = row_id;
        experiment_id = exp.id;
        decided_at_ms = now;
        decision = outcome.decision;
        winner_variant_id = outcome.winner_variant_id;
        promoted_version_id = outcome.promoted_version_id;
        effect_size = outcome.effect_size;
        confidence = outcome.confidence;
        control_impressions = some control.impressions;
        control_conversions = some control.conversions;
        variant_impressions = elim outcome.winner_variant_id [
          | none ↦ none
          | some wid ↦ some (count_of counts wid).impressions
        ];
        variant_conversions = elim outcome.winner_variant_id [
          | none ↦ none
          | some wid ↦ some (count_of counts wid).conversions
        ];
      }

  pub record_decision :
      Uuid
      → ℤ
      → ExperimentRecord f
      → List ExperimentCounts
      → DecisionOutcome
      → Db f
      → Result Unit × Db f
  unfolding decision_row
  record_decision row_id now exp counts outcome db =
      conclude_experiment f now exp.id outcome.decision outcome.winner_variant_id
        outcome.promoted_version_id (decision_row row_id now exp counts outcome) db

  -- The decision recorded, and the outcome returned if that succeeds.
  pub applied :
      {A : Type 0}
      → Uuid
      → ℤ
      → ExperimentRecord f
      → List ExperimentCounts
      → DecisionOutcome
      → A
      → Db f
      → Result A × Db f
  unfolding record_decision
  applied row_id now exp counts outcome a db =
      let (r, after) = record_decision row_id now exp counts outcome db in
      (elim r [ ok u ↦ ok a | err e ↦ err e ], after)

  -- What the recommendation of a report comes to.
  pub outcome_of :
      Uuid → ExperimentRecord f → List ExperimentCounts → Recommendation f → Option DecisionOutcome
  unfolding winner_outcome
  outcome_of id exp counts (promote variant_id confidence) =
      winner_outcome exp counts variant_id (some confidence)
  outcome_of id exp counts no_winner = some (no_improvement id)
  outcome_of id exp counts continue_ = none

  unfoldable pub decide_experiment :
      Uuid
      → ℤ
      → List ExperimentCounts
      → Uuid
      → Db f
      → Option (Result (Option DecisionOutcome) × Db f)
  unfolding live_report outcome_of applied
  decide_experiment row_id now counts id db = elim (load_experiment f db id) [
    | none ↦ some (err not_found, db)
    | some exp ↦
        if not (text_eq exp.status running_status)
        then some (ok none, db)
        else elim (live_report now exp counts) [
          | none ↦ none
          | some report ↦ elim (outcome_of id exp counts report.recommendation) [
            | none ↦ some (ok none, db)
            | some outcome ↦ some (applied row_id now exp counts outcome (some outcome) db)
          ]
        ]
  ]

  abbrev is_variant : VariantReport f → Bool
  is_variant r = not r.is_control

  -- The best variant of a report: by the chance to beat control and, if that finds none, by the
  -- posterior mean.
  pub best_report : List (VariantReport f) → Option (VariantReport f)
  unfolding max_by
  best_report reports =
      let by_chance =
        max_by
          (λ (a b : VariantReport f). or_equal f (
            partial_cmp f (prob_or_zero f a.prob_beats_control)
              (prob_or_zero f b.prob_beats_control)))
          (keep is_variant reports) in
      let by_mean =
        max_by
          (λ (a b : VariantReport f). or_equal f (partial_cmp f a.posterior_mean b.posterior_mean))
          (keep is_variant reports) in
      elim by_chance [ some best ↦ some best | none ↦ by_mean ]

  pub promote_experiment :
      Uuid → ℤ → List ExperimentCounts → Uuid → Db f → Option (Result DecisionOutcome × Db f)
  unfolding live_report best_report winner_outcome applied
  promote_experiment row_id now counts id db = elim (load_experiment f db id) [
    | none ↦ some (err not_found, db)
    | some exp ↦
        if not (text_eq exp.status running_status)
        then some (err conflict, db)
        else elim (live_report now exp counts) [
          | none ↦ none
          | some report ↦ elim (best_report report.variants) [
            | none ↦ some (err invalid_input, db)
            | some best ↦ elim (winner_outcome exp counts best.variant_id best.prob_beats_control) [
              | none ↦ some (err invalid_input, db)
              | some outcome ↦ some (applied row_id now exp counts outcome outcome db)
            ]
          ]
        ]
  ]

  pub conclude_no_winner :
      Uuid → ℤ → List ExperimentCounts → Uuid → Db f → Result DecisionOutcome × Db f
  unfolding applied
  conclude_no_winner row_id now counts id db = elim (load_experiment f db id) [
    | none ↦ (err not_found, db)
    | some exp ↦
        if not (text_eq exp.status running_status)
        then (err conflict, db)
        else applied row_id now exp counts (no_improvement id) (no_improvement id) db
  ]

  -- The worker: every experiment that runs at the start, in turn; an error is logged and passed over.
  -- The counts and the drawn id are those of each experiment.
  pub auto_decide_list :
      (Uuid → Uuid) → ℤ → (Uuid → List ExperimentCounts) → List Uuid → Db f → Option (Db f)
  unfolding decide_experiment
  auto_decide_list row_id now counts [] db = some db
  auto_decide_list row_id now counts (id ∷ ids) db =
      elim (decide_experiment (row_id id) now (counts id) id db) [
        | none ↦ none
        | some (r, after) ↦ auto_decide_list row_id now counts ids after
      ]

  pub auto_decide_all : (Uuid → Uuid) → ℤ → (Uuid → List ExperimentCounts) → Db f → Option (Db f)
  unfolding auto_decide_list
  auto_decide_all row_id now counts db =
      auto_decide_list row_id now counts (running_experiments f db) db
