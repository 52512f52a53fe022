-- ===== src/Experiments/Engine/Support.antt =====
-- What a report that recommends a promotion holds.
use forgepost.Prelude.{
  none-ne-some, ℤ, ◌≡◌, subst, ap, ◌∙◌, false, true, some, some-inj, List, In, inl, inr,
  Option-cases,
}
use forgepost.Content.{Uuid}
use forgepost.Float.{Float}
use forgepost.Experiments.{VariantStats, EngineConfig, promote, VariantReport, ExperimentReport}
use forgepost.Experiments.Engine.{analyze, report_variants, conclude, prob_or_zero}
use forgepost.Experiments.Engine.Decision.{decide-promote}

module _ (f : Float) where
  -- The report's own numbers support the promotion of a variant: it is not control and its chance to
  -- beat control reaches the corrected threshold.
  abbrev pub Supports : ExperimentReport f → Uuid → Type 0
  Supports report variant_id =
      (r : VariantReport f) × In r report.variants
      × (r.is_control ≡ false)
      × (r.variant_id ≡ variant_id)
      × (f.le report.adjusted_confidence_threshold (prob_or_zero f r.prob_beats_control) ≡ true)

  conclude-Supports :
      (control : VariantStats) (variants : List VariantStats) (config : EngineConfig f)
      (elapsed : ℤ) (rs : List (VariantReport f)) (variant_id : Uuid) (p : f.F64)
      → (conclude f control variants config elapsed rs).recommendation ≡ promote variant_id p
      → Supports (conclude f control variants config elapsed rs) variant_id
  unfolding conclude
  conclude-Supports control variants config elapsed rs variant_id p h =
      let report = conclude f control variants config elapsed rs in
      let (r, m, c, v, q, above, sampled) =
        decide-promote f report.variants control.impressions config
          report.adjusted_confidence_threshold elapsed variant_id p h in
      (r, m, c, v, rw q above)

  pub analyze-Supports :
      (control : VariantStats) (variants : List VariantStats) (config : EngineConfig f)
      (elapsed : ℤ) (report : ExperimentReport f) (variant_id : Uuid) (p : f.F64)
      → analyze f control variants config elapsed ≡ some report
      → report.recommendation ≡ promote variant_id p
      → Supports report variant_id
  unfolding analyze
  analyze-Supports control variants config elapsed report variant_id p e h =
      elim (Option-cases (report_variants f control variants)) [
        | inl g ↦ absurd (none-ne-some (rw (g, analyze) at e))
        | inr (rs, g) ↦
            let made = some-inj (rw (g, analyze) at e) in
            subst (λ (x : ExperimentReport f). Supports x variant_id) made
              (conclude-Supports control variants config elapsed rs variant_id p
                (ap (λ (x : ExperimentReport f). x.recommendation) made ∙ h))
      ]
