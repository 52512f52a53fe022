-- ===== src/Experiments/Assignment.antt =====
-- crates/experiments/src/lib.rs and crates/application/src/experiments.rs: which variant a visitor
-- gets. The SHA-256 digest is a parameter: the first eight bytes of the digest of the two ids, as a
-- u64. `none` stands for the panic of an experiment without control.
pub mod Laws
use forgepost.Prelude.{
  ℕ, ◌-◌, ◌^◌, Bool, true, Option, none, some, List, [], ◌∷◌, map, keep, find, not, ◌==◌,
  if◌then◌else◌,
}
use forgepost.Content.{Uuid}
use forgepost.Float.{Float, lt, clamp, sum, sum_from, zero_f, one_f}
use forgepost.Experiments.Record.{VariantRecord, ExperimentRecord}

module _ (f : Float) where
  open f use {F64, literal, sub, div}

  unfoldable pub others : List (VariantRecord f) → List (Uuid × F64)
  others variants =
      map (λ (v : VariantRecord f). (v.id, v.weight))
        (keep (λ (v : VariantRecord f). not v.is_control) variants)

  unfoldable pub control_share : F64 → F64
  control_share traffic_weight =
      sub (literal 1 0) (clamp f (div traffic_weight (literal 100 0)) (literal 0 0) (literal 1 0))

module _ (f : Float) (digest : Uuid → Uuid → ℕ) where
  open f use {F64, of_ℕ, literal, add, sub, mul, div, le}

  unfoldable pub hash_unit : Uuid → Uuid → F64
  hash_unit experiment_id visitor_id =
      div (of_ℕ (digest experiment_id visitor_id)) (of_ℕ (2 ^ 64 - 1))

  -- The loop over the variants, with the sum of the weights so far.
  unfoldable pub pick : F64 → F64 → F64 → Uuid → F64 → List (Uuid × F64) → Uuid
  pick frac control_share total control_id cum [] = control_id
  pick frac control_share total control_id cum ((id, w) ∷ rest) =
      let cum' = add cum (div w total) in
      let later = pick frac control_share total control_id cum' rest in
      if lt f frac (add control_share (mul (sub (literal 1 0) control_share) cum'))
      then id
      else later

  unfoldable pub assign_variant : Uuid → Uuid → Uuid → F64 → List (Uuid × F64) → Uuid
  unfolding hash_unit pick sum_from
  assign_variant experiment_id visitor_id control_id control_share variants =
      let frac = hash_unit experiment_id visitor_id in
      let total = sum f (map (λ (v : Uuid × F64). v.1) variants) in
      if lt f frac (clamp f control_share (literal 0 0) (literal 1 0))
      then control_id
      else if le total (literal 0 0)
      then control_id
      else pick frac control_share total control_id (literal 0 0) variants

  unfoldable pub assigned_variant : ExperimentRecord f → Uuid → Option Uuid
  unfolding assign_variant others control_share
  assigned_variant exp visitor_id =
      elim (find (λ (v : VariantRecord f). v.is_control) exp.variants) [
        | none ↦ none
        | some control ↦ some (
            assign_variant exp.id visitor_id control.id (control_share f exp.traffic_weight)
              (others f exp.variants))
      ]

  unfoldable pub verify_assignment : ExperimentRecord f → Uuid → Uuid → Option Bool
  unfolding assigned_variant
  verify_assignment exp visitor_id submitted_variant = elim (assigned_variant exp visitor_id) [
    | none ↦ none
    | some assigned ↦ some (assigned == submitted_variant)
  ]
