-- ===== src/Experiments/Engine/Decision.antt =====
-- What the recommendation promises.
use forgepost.Prelude.{
  ℕ, ℤ, ◌≤◌, ◌<◌, ◌≡◌, ◌≢◌, sym, ◌∙◌, ◌⊎◌, inl, inr, true, false, some, List, arith, ltb_ℤ,
  Option-cases, In,
}
use forgepost.Content.{Uuid}
use forgepost.Float.{Float, IsTotalOrder}
use forgepost.Experiments.{EngineConfig, Recommendation, continue_, promote, VariantReport}
use forgepost.Experiments.Engine.{prob_or_zero, best_of, decide_best, decide}
use forgepost.Experiments.Engine.Best.{
  best_of-In, best_of-ne-none, best_of-greatest, le_option-some,
}

module _ (f : Float) where
  decide-some :
      (reports : List (VariantReport f)) (ci : ℕ) (config : EngineConfig f) (adjusted : f.F64)
      (elapsed : ℤ) (best : VariantReport f)
      → best_of f reports ≡ some best
      → decide f reports ci config adjusted elapsed ≡ decide_best f best ci config adjusted elapsed
  unfolding decide
  decide-some reports ci config adjusted elapsed best e = rw (e, decide)

continue_-ne-promote :
    (f : Float) (v : Uuid) (p : f.F64) → ¬ (◌≡◌ {A = Recommendation f} continue_ (promote v p))
continue_-ne-promote f v p e = cc

module _ (f : Float) (best : VariantReport f) (ci : ℕ) (config : EngineConfig f) (adjusted : f.F64)
    (elapsed : ℤ) where
  decide_best-promote :
      (v : Uuid) (p : f.F64)
      → decide_best f best ci config adjusted elapsed ≡ promote v p
      → (best.variant_id ≡ v)
        × (prob_or_zero f best.prob_beats_control ≡ p)
        × (f.le adjusted p ≡ true)
        × ((config.min_sample_per_variant ≤ best.impressions)
            ⊎ (config.min_sample_per_variant ≤ ci))
  unfolding decide_best
  decide_best-promote v p h = ground arith

  decide_best_late :
      ltb_ℤ config.max_duration_ms elapsed ≡ true
      → decide_best f best ci config adjusted elapsed ≢ continue_
  unfolding decide_best
  decide_best_late late h = ground arith

  decide_best_waits :
      best.impressions < config.min_sample_per_variant
      → ci < config.min_sample_per_variant
      → ltb_ℤ config.max_duration_ms elapsed ≡ false
      → decide_best f best ci config adjusted elapsed ≡ continue_
  unfolding decide_best
  decide_best_waits h g e = ground arith

-- A recommended promotion names a variant of the report other than control, with that variant's
-- probability, which reaches the corrected threshold; control or the variant has the minimum sample.
pub decide-promote :
    (f : Float) (reports : List (VariantReport f)) (ci : ℕ) (config : EngineConfig f)
    (adjusted : f.F64) (elapsed : ℤ) (v : Uuid) (p : f.F64)
    → decide f reports ci config adjusted elapsed ≡ promote v p
    → (r : VariantReport f) × In r reports
      × (r.is_control ≡ false)
      × (r.variant_id ≡ v)
      × (prob_or_zero f r.prob_beats_control ≡ p)
      × (f.le adjusted p ≡ true)
      × ((config.min_sample_per_variant ≤ r.impressions) ⊎ (config.min_sample_per_variant ≤ ci))
unfolding decide
decide-promote f reports ci config adjusted elapsed v p h =
    elim (Option-cases (best_of f reports)) [
      | inl e ↦ absurd (continue_-ne-promote f v p (rw (e, decide) at h))
      | inr (best, e) ↦
          let (m, c) = best_of-In f reports best e in
          let (i, q, t, n) =
            decide_best-promote f best ci config adjusted elapsed v p (rw (e, decide) at h) in
          (best, m, c, i, q, t, n)
    ]

-- The promoted variant is the best: no variant other than control has a greater probability (over
-- the numbers; NaN has no place in the order).
pub decide-promote_best :
    (f : Float) (laws : IsTotalOrder f) (reports : List (VariantReport f)) (ci : ℕ)
    (config : EngineConfig f) (adjusted : f.F64) (elapsed : ℤ) (v : Uuid) (p q : f.F64)
    (r : VariantReport f)
    → decide f reports ci config adjusted elapsed ≡ promote v p
    → In r reports
    → r.is_control ≡ false
    → r.prob_beats_control ≡ some q
    → f.le q p ≡ true
unfolding decide
decide-promote_best f laws reports ci config adjusted elapsed v p q r h m c e =
    elim (Option-cases (best_of f reports)) [
      | inl none_of ↦ absurd (continue_-ne-promote f v p (rw (none_of, decide) at h))
      | inr (best, there) ↦
          let found = best_of-greatest f laws reports best there r m c in
          let (i, prob, t, n) =
            decide_best-promote f best ci config adjusted elapsed v p (rw (there, decide) at h) in
          le_option-some f r.prob_beats_control best.prob_beats_control q p found e prob
    ]

-- Once the maximal duration is over, and as long as there is a variant beside control, the engine
-- never recommends to go on.
pub decide_hard_stop :
    (f : Float) (reports : List (VariantReport f)) (ci : ℕ) (config : EngineConfig f)
    (adjusted : f.F64) (elapsed : ℤ) (r : VariantReport f)
    → In r reports
    → r.is_control ≡ false
    → ltb_ℤ config.max_duration_ms elapsed ≡ true
    → decide f reports ci config adjusted elapsed ≢ continue_
decide_hard_stop f reports ci config adjusted elapsed r m c late h =
    let (best, e) = best_of-ne-none f reports r m c in
    decide_best_late f best ci config adjusted elapsed late
      (sym (decide-some f reports ci config adjusted elapsed best e) ∙ h)

-- Before the maximal duration, while control and every variant lack the minimum sample, the engine
-- recommends to go on, whatever the probabilities.
pub decide_waits :
    (f : Float) (reports : List (VariantReport f)) (ci : ℕ) (config : EngineConfig f)
    (adjusted : f.F64) (elapsed : ℤ)
    → ((r : VariantReport f) → In r reports → r.impressions < config.min_sample_per_variant)
    → ci < config.min_sample_per_variant
    → ltb_ℤ config.max_duration_ms elapsed ≡ false
    → decide f reports ci config adjusted elapsed ≡ continue_
unfolding decide
decide_waits f reports ci config adjusted elapsed small ci_small early =
    elim (Option-cases (best_of f reports)) [
      | inl e ↦ rw (e, decide)
      | inr (best, e) ↦
          let (m, c) = best_of-In f reports best e in
          rw (e, decide)
            (decide_best_waits f best ci config adjusted elapsed (small best m) ci_small early)
    ]
