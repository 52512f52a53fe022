-- ===== src/Experiments/Decide/Tests.antt =====
-- Assignment and decisions on one experiment with a control and a variant.
use forgepost.Prelude.{
  inl, inr, ℕ, pos, ◌≡◌, ◌↔◌, refl, true, false, none, some, Option, List, [], ◌∷◌, In,
}
use forgepost.Text.{Text, codes}
use forgepost.Content.{Uuid}
use forgepost.Float.Hundredths.{hundredths}
use forgepost.Experiments.{promote}
use forgepost.Experiments.Record.{VariantRecord, ExperimentRecord, ExperimentCounts}
use forgepost.Experiments.Assignment.{assigned_variant, verify_assignment}
use forgepost.Experiments.Assignment.Laws.{assigned_variant_unique}
use forgepost.Experiments.Decide.{
  DecisionOutcome, outcome_of, decision_row, live_report, decide_experiment,
}
use forgepost.Experiments.Tables.{Db, Result, ok, running_status, load_experiment}
use forgepost.Experiments.{ExperimentReport}
use forgepost.Experiments.Engine.{analyze}
use forgepost.Experiments.Numerics.{prob_variant_beats_control, prob_beta_lt, log_beta, log_gamma}
use forgepost.Experiments.Store.{conclude_experiment}
use forgepost.Experiments.Store.Atomicity.{Promoted}
use forgepost.Experiments.Engine.Support.{Supports}
use forgepost.Experiments.Decide.Promotion.{Points, decide_experiment-promotes}
use forgepost.Experiments.Decide.Control.{NamesNone, decision_row-control}
use forgepost.Events.Table.{AnalyticsEvent, impression_type, conversion_type, experiment_counts}

abbrev control : VariantRecord hundredths
control = record { id = 1; block_id = 7; version_id = 11; weight = 5000; is_control = true }

abbrev other : VariantRecord hundredths
other = record { id = 2; block_id = 7; version_id = 12; weight = 5000; is_control = false }

abbrev exp : ExperimentRecord hundredths
exp = record {
  id = 100;
  document_id = 5;
  block_id = 7;
  name = [];
  status = codes "running";
  control_version_id = 11;
  goal = codes "completion";
  traffic_weight = 5000;
  confidence_threshold = 95;
  min_sample_per_variant = pos 2;
  no_winner_prob = 5;
  max_duration_ms = pos 1000;
  started_at_ms = some (pos 20);
  decided_at_ms = none;
  decision = none;
  winning_variant_id = none;
  created_at_ms = pos 10;
  variants = control ∷ other ∷ [];
}

abbrev counts : List ExperimentCounts
counts =
    record { variant_id = 1; impressions = pos 200; conversions = pos 20 }
    ∷ record { variant_id = 2; impressions = pos 200; conversions = pos 60 }
    ∷ []

abbrev digest : Uuid → Uuid → ℕ
digest experiment_id visitor_id = visitor_id

assigned_variant_unique_example :
    (r : VariantRecord hundredths) × In r (control ∷ other ∷ [])
    × (assigned_variant hundredths digest exp 42 ≡ some r.id)
    × ((submitted : Uuid)
        → (verify_assignment hundredths digest exp 42 submitted ≡ some true) ↔ (submitted ≡ r.id))
assigned_variant_unique_example = assigned_variant_unique hundredths digest exp 42 control refl

abbrev outcome : DecisionOutcome hundredths
outcome = record {
  experiment_id = 100;
  decision = codes "winner";
  winner_variant_id = some 2;
  promoted_version_id = some 12;
  confidence = some 97;
  effect_size = some 20;
}

outcome_of_run : outcome_of hundredths 100 exp counts (promote 2 97) ≡ some outcome
unfolding outcome_of
outcome_of_run = refl

abbrev event : Uuid → Text → Uuid → Uuid → AnalyticsEvent
event id event_type visitor_id variant_id = record {
  id = id;
  document_id = 5;
  event_type = event_type;
  band = none;
  block_id = some 7;
  pageview_id = 3;
  visitor_id = visitor_id;
  referrer = none;
  user_agent = none;
  read_time_ms = none;
  experiment_id = some 100;
  variant_id = some variant_id;
  version_id = none;
  recommended_slug = none;
  created_at_ms = pos 11;
}

-- Control was seen and the other variant converted two visitors who had not seen it.
abbrev events : List AnalyticsEvent
events =
    event 3 conversion_type 51 2 ∷ event 2 conversion_type 50 2 ∷ event 1 impression_type 52 1 ∷ []

events-NamesNone : NamesNone 11 events
events-NamesNone e (inl same) = rw same refl
events-NamesNone e (inr (inl same)) = rw same refl
events-NamesNone e (inr (inr (inl same))) = rw same refl
events-NamesNone e (inr (inr (inr m))) = elim m [ ]

decision_row-control_example :
    let row = decision_row hundredths 900 (pos 30) exp (experiment_counts 100 events) outcome in
    (row.control_impressions ≡ some (pos 0)) × (row.control_conversions ≡ some (pos 0))
decision_row-control_example =
    decision_row-control hundredths 900 (pos 30) exp events outcome events-NamesNone

abbrev db : Db hundredths
db = record {
  blocks = record { id = 7; document_id = 5; current_version_id = 11; updated_at_ms = pos 0 } ∷ [];
  versions = [];
  experiments =
      record {
        id = 100;
        document_id = 5;
        block_id = 7;
        name = [];
        status = running_status;
        control_version_id = 11;
        goal = codes "completion";
        traffic_weight = 5000;
        confidence_threshold = 95;
        min_sample_per_variant = pos 2;
        no_winner_prob = 5;
        max_duration_ms = pos 1000;
        started_at_ms = some (pos 20);
        decided_at_ms = none;
        decision = none;
        winning_variant_id = none;
        created_at_ms = pos 10;
      }
      ∷ [];
  variants =
      record { experiment_id = 100; row = control }
      ∷ record { experiment_id = 100; row = other }
      ∷ [];
  decisions = [];
}

abbrev few_counts : List ExperimentCounts
few_counts =
    record { variant_id = 1; impressions = pos 3; conversions = pos 0 }
    ∷ record { variant_id = 2; impressions = pos 3; conversions = pos 3 }
    ∷ []

load_run : load_experiment hundredths db 100 ≡ some exp
unfolding load_experiment
load_run = refl

abbrev after_of :
    Option (Result (Option (DecisionOutcome hundredths)) × Db hundredths) → Db hundredths
after_of none = db
after_of (some (r, after)) = after

abbrev after : Db hundredths
after = after_of (decide_experiment hundredths 900 (pos 30) few_counts 100 db)

abbrev certain : DecisionOutcome hundredths
certain = record outcome { confidence = some 100; effect_size = some 100 }

decide_experiment_run :
    decide_experiment hundredths 900 (pos 30) few_counts 100 db ≡ some (ok (some certain), after)
unfolding decide_experiment load_experiment analyze prob_variant_beats_control prob_beta_lt log_beta
    log_gamma conclude_experiment
decide_experiment_run = refl

decide_experiment-promotes_example :
    (report : ExperimentReport hundredths) × (live_report hundredths (pos 30) exp few_counts
      ≡ some report)
    × ((variant_id : Uuid) × (certain.winner_variant_id ≡ some variant_id)
        × Supports hundredths report variant_id
        × Points hundredths exp variant_id 12)
    × Promoted hundredths (pos 30) 100 12 db after
decide_experiment-promotes_example =
    decide_experiment-promotes hundredths 900 (pos 30) few_counts 100 db after exp certain 12
      load_run decide_experiment_run refl
