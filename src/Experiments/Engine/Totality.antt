-- ===== src/Experiments/Engine/Totality.antt =====
-- When the report is computed, and when a u64 subtraction overflows.
use forgepost.Prelude.{
  ℤ, ◌+◌, ◌-◌, ◌≤◌, ◌<◌, ◌≡◌, refl, ◌⊎◌, inl, inr, true, false, Option, none, some, List, [], ◌∷◌,
  arith, leb, All, In,
}
use forgepost.Float.{Float}
use forgepost.Experiments.{VariantStats, EngineConfig, VariantReport, ExperimentReport}
use forgepost.Experiments.Engine.{
  checked_sub, build_report, report_variant, report_variants, with_prob, conclude, analyze,
}

-- The counts that the engine can subtract: at most one conversion more than impressions.
abbrev pub IsCounted : VariantStats → Type 0
IsCounted v = v.conversions ≤ v.impressions + 1

-- The report of a variant names it, and is not about control.
abbrev pub Reports : (f : Float) → VariantStats → VariantReport f → Type 0
Reports f v r =
    (r.variant_id ≡ v.variant_id)
    × (r.is_control ≡ false)
    × (r.impressions ≡ v.impressions)
    × (r.conversions ≡ v.conversions)

abbrev pub AllReport : (f : Float) → List VariantStats → List (VariantReport f) → Type 0
AllReport f [] [] = Unit {0}
AllReport f [] (r ∷ rs) = ⊥
AllReport f (v ∷ vs) [] = ⊥
AllReport f (v ∷ vs) (r ∷ rs) = Reports f v r × AllReport f vs rs

module _ (f : Float) where
  report_variant_total :
      (control v : VariantStats)
      → IsCounted control
      → IsCounted v
      → (r : VariantReport f) × (report_variant f control v ≡ some r) × Reports f v r
  unfolding report_variant checked_sub with_prob
  report_variant_total control v hc hv =
      let c : leb control.conversions (1 + control.impressions) ≡ true = ground arith in
      let d : leb v.conversions (1 + v.impressions) ≡ true = ground arith in
      (
        with_prob f control v (1 + control.impressions - control.conversions)
            (1 + v.impressions - v.conversions),
        rw (c, report_variant, checked_sub, d),
        (refl, refl, refl, refl),
      )

  report_variants_total :
      (control : VariantStats) (vs : List VariantStats)
      → IsCounted control
      → All IsCounted vs
      → (rs : List (VariantReport f)) × (report_variants f control vs ≡ some rs) × AllReport f vs rs
  unfolding report_variants
  report_variants_total control [] hc h = ([], refl, tt)
  report_variants_total control (v ∷ vs) hc (hv, h) =
      let (r, e, p) = report_variant_total control v hc hv in
      let (rs, es, ps) = report_variants_total control vs hc h in
      (r ∷ rs, rw (e, report_variants, es), (p, ps))

-- With at most one conversion more than impressions in each sample, the report is computed: it
-- lists control first and then each variant, in order, with its own counts.
pub analyze_total :
    (f : Float) (control : VariantStats) (variants : List VariantStats) (config : EngineConfig f)
    (elapsed_ms : ℤ)
    → IsCounted control
    → All IsCounted variants
    → (report : ExperimentReport f) × (rs : List (VariantReport f)) × (analyze f control variants
          config elapsed_ms
        ≡ some report)
      × (report.variants
          ≡ build_report f control.variant_id true control.impressions control.conversions ∷ rs)
      × AllReport f variants rs
unfolding analyze conclude
analyze_total f control variants config elapsed_ms hc h =
    let (rs, e, p) = report_variants_total f control variants hc h in
    (conclude f control variants config elapsed_ms rs, rs, rw (e, analyze), refl, p)

overflow_none :
    (f : Float) (control v : VariantStats)
    → (control.impressions + 1 < control.conversions) ⊎ (v.impressions + 1 < v.conversions)
    → report_variant f control v ≡ none
unfolding report_variant checked_sub
overflow_none f control v h = ground arith

variants_overflow :
    (f : Float) (control : VariantStats) (vs : List VariantStats) (v : VariantStats)
    → In v vs
    → (control.impressions + 1 < control.conversions) ⊎ (v.impressions + 1 < v.conversions)
    → report_variants f control vs ≡ none
unfolding report_variants
variants_overflow f control [] v m h = elim m [ ]
variants_overflow f control (x ∷ vs) v (inl e) h =
    rw (overflow_none f control x (rw e at h), report_variants)
variants_overflow f control (x ∷ vs) v (inr m) h =
    split (report_variant f control x) (variants_overflow f control vs v m h)
  where
    split :
        (o : Option (VariantReport f)) {t : Option (List (VariantReport f))}
        → t ≡ none
        → elim o [ none ↦ none | some r ↦ elim t [ none ↦ none | some rs ↦ some (r ∷ rs) ] ] ≡ none
    split none e = refl
    split (some r) e = rw e

-- One sample, control's or a variant's, with two conversions more than impressions makes the engine
-- overflow.
pub analyze_overflow :
    (f : Float) (control : VariantStats) (variants : List VariantStats) (config : EngineConfig f)
    (elapsed_ms : ℤ) (v : VariantStats)
    → In v variants
    → (control.impressions + 1 < control.conversions) ⊎ (v.impressions + 1 < v.conversions)
    → analyze f control variants config elapsed_ms ≡ none
unfolding analyze
analyze_overflow f control variants config elapsed_ms v m h =
    rw (variants_overflow f control variants v m h, analyze)
