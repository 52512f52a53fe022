-- ===== src/Experiments/Engine/Samples.antt =====
-- What the samples of the variants count for in a decision.
use Prim.Native.Nat.{Ordering}
use forgepost.Prelude.{
  ℕ, ℤ, ◌≤◌, ◌≡◌, refl, ap, ◌∙◌, not, Option, none, some, List, [], ◌∷◌, map, arith, keep,
}
use forgepost.Float.{Float}
use forgepost.Experiments.{EngineConfig, Recommendation, continue_, VariantReport}
use forgepost.Experiments.Engine.{max_from, max_by, by_prob, best_of, decide_best, decide}
use forgepost.Experiments.Engine.Best.{better}

module _ (f : Float) (samples : VariantReport f → ℕ) where
  -- A report with another number of impressions.
  abbrev pub resampled : VariantReport f → VariantReport f
  resampled r = record r { impressions = samples r }

  max_from-resampled :
      (r : VariantReport f) (rs : List (VariantReport f))
      → max_from (by_prob f) (resampled r) (map resampled rs)
        ≡ resampled (max_from (by_prob f) r rs)
  unfolding max_from by_prob
  max_from-resampled r [] = refl
  max_from-resampled r (x ∷ rs) = step (by_prob f r x) (λ y. max_from-resampled y rs)
    where
      step :
          (o : Ordering)
          → ((y : VariantReport f)
              → max_from (by_prob f) (resampled y) (map resampled rs)
                ≡ resampled (max_from (by_prob f) y rs))
          → max_from (by_prob f) (better o (resampled r) (resampled x)) (map resampled rs)
            ≡ resampled (max_from (by_prob f) (better o r x) rs)
      step Ordering.lt ih = ih x
      step Ordering.eq ih = ih x
      step Ordering.gt ih = ih r

  candidates-resampled :
      (rs : List (VariantReport f))
      → keep (λ (r : VariantReport f). not r.is_control) (map resampled rs)
        ≡ map resampled (keep (λ (r : VariantReport f). not r.is_control) rs)
  candidates-resampled [] = refl
  candidates-resampled (r ∷ rs) = ground (arith, candidates-resampled rs)

  decide_best-resampled :
      (best : VariantReport f) (ci : ℕ) (config : EngineConfig f) (adjusted : f.F64) (elapsed : ℤ)
      → config.min_sample_per_variant ≤ ci
      → decide_best f (resampled best) ci config adjusted elapsed
        ≡ decide_best f best ci config adjusted elapsed
  unfolding decide_best
  decide_best-resampled best ci config adjusted elapsed h = ground (arith, h)

-- Once control has the minimum sample, the recommendation on reports, at a given corrected threshold,
-- does not depend on how many impressions the variants had: it is the same if each report is given any
-- other number of them, with its probability as it was.
pub decide-resampled :
    (f : Float) (samples : VariantReport f → ℕ) (reports : List (VariantReport f)) (ci : ℕ)
    (config : EngineConfig f) (adjusted : f.F64) (elapsed : ℤ)
    → config.min_sample_per_variant ≤ ci
    → decide f (map (resampled f samples) reports) ci config adjusted elapsed
      ≡ decide f reports ci config adjusted elapsed
unfolding decide best_of max_by
decide-resampled f samples reports ci config adjusted elapsed h =
    ap (λ rs. of_best (max_by (by_prob f) rs)) (candidates-resampled f samples reports)
    ∙ of_candidates (keep (λ (r : VariantReport f). not r.is_control) reports)
  where
    of_best : Option (VariantReport f) → Recommendation f
    of_best best = elim best [
      | none ↦ continue_
      | some r ↦ decide_best f r ci config adjusted elapsed
    ]

    of_candidates :
        (rs : List (VariantReport f))
        → of_best (max_by (by_prob f) (map (resampled f samples) rs))
          ≡ of_best (max_by (by_prob f) rs)
    of_candidates [] = refl
    of_candidates (r ∷ rs) =
        rw (max_from-resampled f samples r rs)
          (decide_best-resampled f samples (max_from (by_prob f) r rs) ci config adjusted elapsed h)
