-- ===== src/Experiments/Engine.antt =====
-- crates/experiments/src/lib.rs: the report on a running experiment and the recommendation.
-- `none` stands for the overflow of a u64 subtraction.
pub mod Best
pub mod Decision
pub mod Samples
pub mod Support
pub mod Totality
use Prim.Native.Nat.{Ordering}
use forgepost.Prelude.{
  ℕ, ℤ, zero, suc, ◌+◌, ◌-◌, ◌/◌, ◌≡◌, Bool, true, false, not, ◌&&◌, Option, none, some, List, [],
  ◌∷◌, map, max, ltb, leb, ltb_ℤ, ◌==◌, if◌then◌else◌, keep,
}
use forgepost.Content.{Uuid}
use forgepost.Float.{Float, lt, partial_cmp}
use forgepost.Experiments.{
  prior_alpha, prior_beta, VariantStats, EngineConfig, Recommendation, continue_, promote,
  no_winner, VariantReport, ExperimentReport,
}
use forgepost.Experiments.Numerics.{prob_variant_beats_control, credible_interval}

-- The subtraction of u64, which overflows below zero.
unfoldable pub checked_sub : ℕ → ℕ → Option ℕ
checked_sub a b = if leb b a then some (a - b) else none

-- `Iterator::max_by`: the last of the greatest elements.
pub max_from {ℓ} : {A : Type ℓ} → (A → A → Ordering) → A → List A → A
max_from cmp best [] = best
max_from cmp best (x ∷ xs) = max_from cmp (elim (cmp best x) [ Ordering.gt ↦ best | _ ↦ x ]) xs

unfoldable pub max_by {ℓ} : {A : Type ℓ} → (A → A → Ordering) → List A → Option A
unfolding max_from
max_by cmp [] = none
max_by cmp (x ∷ xs) = some (max_from cmp x xs)

module _ (f : Float) where
  open f use {F64, of_ℕ, literal, sub, div, le}

  -- Option<f64>::partial_cmp: an absent value comes first.
  pub option_cmp : Option F64 → Option F64 → Option Ordering
  option_cmp none none = some Ordering.eq
  option_cmp none (some y) = some Ordering.lt
  option_cmp (some x) none = some Ordering.gt
  option_cmp (some x) (some y) = partial_cmp f x y

  abbrev pub or_equal : Option Ordering → Ordering
  or_equal none = Ordering.eq
  or_equal (some o) = o

  abbrev pub prob_or_zero : Option F64 → F64
  prob_or_zero none = literal 0 0
  prob_or_zero (some p) = p

  pub build_report : Uuid → Bool → ℕ → ℕ → VariantReport f
  build_report variant_id is_control impressions conversions =
      let alpha = prior_alpha + conversions in
      let beta = prior_beta + (impressions - conversions) in
      record {
        variant_id = variant_id;
        is_control = is_control;
        impressions = impressions;
        conversions = conversions;
        conversion_rate =
            if impressions == 0 then literal 0 0 else div (of_ℕ conversions) (of_ℕ impressions);
        posterior_mean = div (of_ℕ alpha) (of_ℕ (alpha + beta));
        credible_interval = credible_interval f alpha beta (literal 95 2);
        prob_beats_control = none;
      }

  pub by_prob : VariantReport f → VariantReport f → Ordering
  unfolding option_cmp
  by_prob a b = or_equal (option_cmp a.prob_beats_control b.prob_beats_control)

  -- The best variant: the last of those with the greatest probability.
  pub best_of : List (VariantReport f) → Option (VariantReport f)
  unfolding by_prob max_by
  best_of reports = max_by by_prob (keep (λ (r : VariantReport f). not r.is_control) reports)

  -- The rules, applied to the best variant.
  pub decide_best : VariantReport f → ℕ → EngineConfig f → F64 → ℤ → Recommendation f
  decide_best best control_impressions config adjusted_confidence elapsed_ms =
      let prob = prob_or_zero best.prob_beats_control in
      let too_long = ltb_ℤ config.max_duration_ms elapsed_ms in
      if ltb 0 config.min_sample_per_variant
        && (ltb best.impressions config.min_sample_per_variant
            && ltb control_impressions config.min_sample_per_variant)
      then if too_long then no_winner else continue_
      else if le adjusted_confidence prob
      then promote best.variant_id prob
      else if too_long
      then no_winner
      else if lt f prob config.no_winner_prob
      then no_winner
      else continue_

  unfoldable pub decide : List (VariantReport f) → ℕ → EngineConfig f → F64 → ℤ → Recommendation f
  unfolding best_of decide_best
  decide reports control_impressions config adjusted_confidence elapsed_ms =
      elim (best_of reports) [
        | none ↦ continue_
        | some best ↦ decide_best best control_impressions config adjusted_confidence elapsed_ms
      ]

  -- The number of looks: checked_div, at least 1.
  pub looks : ℕ → ℕ → ℕ
  looks total_obs min_sample = if min_sample == 0 then 1 else max (total_obs / min_sample) 1

  pub impressions_sum : List VariantStats → ℕ
  impressions_sum [] = 0
  impressions_sum (v ∷ vs) = v.impressions + impressions_sum vs

  -- The report on a variant, from the second parameters of the two posteriors.
  pub with_prob : VariantStats → VariantStats → ℕ → ℕ → VariantReport f
  unfolding build_report
  with_prob control v c_beta v_beta =
      record (build_report v.variant_id false v.impressions v.conversions) {
        prob_beats_control = some (
            prob_variant_beats_control f (prior_alpha + control.conversions) c_beta
              (prior_alpha + v.conversions) v_beta);
      }

  -- The report on one variant, with its chance to beat control.
  pub report_variant : VariantStats → VariantStats → Option (VariantReport f)
  unfolding with_prob checked_sub
  report_variant control v =
      elim (checked_sub (prior_beta + control.impressions) control.conversions) [
        | none ↦ none
        | some c_beta ↦ elim (checked_sub (prior_beta + v.impressions) v.conversions) [
          | none ↦ none
          | some v_beta ↦ some (with_prob control v c_beta v_beta)
        ]
      ]

  pub report_variants : VariantStats → List VariantStats → Option (List (VariantReport f))
  unfolding report_variant
  report_variants control [] = some []
  report_variants control (v ∷ vs) = elim (report_variant control v) [
    | none ↦ none
    | some r ↦ elim (report_variants control vs) [ none ↦ none | some rs ↦ some (r ∷ rs) ]
  ]

  -- The report on the experiment, from those on its variants.
  unfoldable pub conclude :
      VariantStats
      → List VariantStats
      → EngineConfig f
      → ℤ
      → List (VariantReport f)
      → ExperimentReport f
  unfolding build_report decide looks impressions_sum
  conclude control variants config elapsed_ms rs =
      let total_obs = impressions_sum variants + control.impressions in
      let n_looks = looks total_obs config.min_sample_per_variant in
      let adjusted_confidence =
        sub (literal 1 0) (div (sub (literal 1 0) config.confidence_threshold) (of_ℕ n_looks)) in
      let reports =
        build_report control.variant_id true control.impressions control.conversions ∷ rs in
      record {
        variants = reports;
        recommendation = decide reports control.impressions config adjusted_confidence elapsed_ms;
        n_looks = n_looks;
        adjusted_confidence_threshold = adjusted_confidence;
        elapsed_ms = elapsed_ms;
      }

  unfoldable pub analyze :
      VariantStats → List VariantStats → EngineConfig f → ℤ → Option (ExperimentReport f)
  unfolding report_variants conclude
  analyze control variants config elapsed_ms = elim (report_variants control variants) [
    | none ↦ none
    | some rs ↦ some (conclude control variants config elapsed_ms rs)
  ]
