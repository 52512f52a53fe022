-- ===== src/Experiments/Tests.antt =====
-- The experiment engine, its store and its decisions on one experiment with a control and a variant.
use forgepost.Prelude.{
  map, ℕ, pos, ◌≤◌, ◌<◌, ◌≡◌, ◌≢◌, ◌⊎◌, refl, inl, inr, Bool, true, false, Option, none, some, List,
  [], ◌∷◌, arith, leb, In,
}
use forgepost.Content.{Uuid}
use forgepost.Float.Hundredths.{hundredths, hundredths-IsTotalOrder}
use forgepost.Experiments.{
  VariantStats, EngineConfig, continue_, promote, VariantReport, ExperimentReport,
}
use forgepost.Experiments.Engine.{build_report, decide, analyze, prob_or_zero}
use forgepost.Experiments.Engine.Decision.{
  decide-promote, decide-promote_best, decide_hard_stop, decide_waits,
}
use forgepost.Experiments.Engine.Samples.{resampled, decide-resampled}
use forgepost.Experiments.Numerics.{credible_interval}
use forgepost.Experiments.Numerics.Quantile.{IsQuantile, credible_interval-IsQuantile}
use forgepost.Experiments.Engine.Totality.{AllReport, analyze_total}

abbrev config : EngineConfig hundredths
config = record {
  confidence_threshold = 95;
  min_sample_per_variant = 100;
  no_winner_prob = 5;
  max_duration_ms = pos 1000;
}

abbrev sample : Uuid → Bool → ℕ → Option ℕ → VariantReport hundredths
sample id is_control impressions prob = record {
  variant_id = id;
  is_control = is_control;
  impressions = impressions;
  conversions = 0;
  conversion_rate = 0;
  posterior_mean = 0;
  credible_interval = (0, 0);
  prob_beats_control = prob;
}

abbrev control_report : ℕ → VariantReport hundredths
control_report impressions = sample 1 true impressions none

abbrev loser : VariantReport hundredths
loser = sample 2 false 120 (some 40)

abbrev winner : VariantReport hundredths
winner = sample 3 false 120 (some 97)

abbrev reports : List (VariantReport hundredths)
reports = control_report 120 ∷ loser ∷ winner ∷ []

decide_run : decide hundredths reports 120 config 95 (pos 10) ≡ promote 3 97
unfolding decide
decide_run = refl

decide-promote_example :
    (r : VariantReport hundredths) × In r reports
    × (r.is_control ≡ false)
    × (r.variant_id ≡ 3)
    × (prob_or_zero hundredths r.prob_beats_control ≡ 97)
    × (leb 95 97 ≡ true)
    × ((100 ≤ r.impressions) ⊎ (100 ≤ 120))
decide-promote_example = decide-promote hundredths reports 120 config 95 (pos 10) 3 97 decide_run

decide-promote_best_example : leb 40 97 ≡ true
decide-promote_best_example =
    decide-promote_best hundredths hundredths-IsTotalOrder reports 120 config 95 (pos 10) 3 97 40
      loser decide_run (inr (inl refl)) refl refl

decide_hard_stop_example : decide hundredths reports 120 config 98 (pos 2000) ≢ continue_
decide_hard_stop_example =
    decide_hard_stop hundredths reports 120 config 98 (pos 2000) loser (inr (inl refl)) refl refl

abbrev few : List (VariantReport hundredths)
few = control_report 50 ∷ sample 3 false 50 (some 99) ∷ []

few_small : (r : VariantReport hundredths) → In r few → r.impressions < 100
few_small r (inl e) = rw e (omega arith)
few_small r (inr (inl e)) = rw e (omega arith)
few_small r (inr (inr m)) = elim m [ ]

decide_waits_example : decide hundredths few 50 config 95 (pos 10) ≡ continue_
decide_waits_example =
    decide_waits hundredths few 50 config 95 (pos 10) few_small (omega arith) refl

decide-resampled_example :
    decide hundredths (map (resampled hundredths (λ r. 1)) reports) 120 config 95 (pos 10)
    ≡ decide hundredths reports 120 config 95 (pos 10)
decide-resampled_example =
    decide-resampled hundredths (λ r. 1) reports 120 config 95 (pos 10) (omega arith)

abbrev stats : Uuid → ℕ → ℕ → VariantStats
stats id impressions conversions = record {
  variant_id = id;
  impressions = impressions;
  conversions = conversions;
}

analyze_total_example :
    (report : ExperimentReport hundredths) × (rs : List (VariantReport hundredths)) × (analyze
        hundredths
        (stats 1 10 3)
        (stats 2 10 5 ∷ [])
        config
        (pos 10)
      ≡ some report)
    × (report.variants ≡ build_report hundredths 1 true 10 3 ∷ rs)
    × AllReport hundredths (stats 2 10 5 ∷ []) rs
analyze_total_example =
    analyze_total hundredths (stats 1 10 3) (stats 2 10 5 ∷ []) config (pos 10) (omega arith)
      (omega arith, tt)

credible_interval-IsQuantile_example :
    let ends = credible_interval hundredths 6 5 95 in
    IsQuantile hundredths 6 5 2 ends.0 × IsQuantile hundredths 6 5 98 ends.1
credible_interval-IsQuantile_example =
    credible_interval-IsQuantile hundredths 5 4 95 refl refl refl refl refl refl refl
