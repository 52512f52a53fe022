-- ===== src/Experiments/Decide/Control.antt =====
-- What a decision records of control.
use forgepost.Prelude.{
  ℤ, pos, ◌≡◌, refl, ◌∙◌, Bool, if◌then◌else◌, false, not, ◌&&◌, ◌==◌, Option, none, some, List, [],
  ◌∷◌, find-none, any, In, inl, inr, Bool-cases,
}
use forgepost.Content.{Uuid}
use forgepost.Float.{Float}
use forgepost.Events.Table.{AnalyticsEvent, is_id, variants_in, counts_for, experiment_counts}
use forgepost.Experiments.Record.{ExperimentRecord, ExperimentCounts}
use forgepost.Experiments.Decide.{count_of, DecisionOutcome, decision_row}

-- Whether there is a count under an id.
abbrev counted : Uuid → List ExperimentCounts → Bool
counted id counts = any (λ (c : ExperimentCounts). c.variant_id == id) counts

counts_for-keys :
    (experiment_id id : Uuid) (events : List AnalyticsEvent) (vs : List Uuid)
    → counted id (counts_for experiment_id events vs) ≡ any (λ v. v == id) vs
unfolding counts_for
counts_for-keys experiment_id id events [] = refl
counts_for-keys experiment_id id events (v ∷ vs) =
    rw (counts_for-keys experiment_id id events vs) refl

-- No event names an id as its variant.
abbrev pub NamesNone : Uuid → List AnalyticsEvent → Type 0
NamesNone id events = (e : AnalyticsEvent) → In e events → is_id e.variant_id id ≡ false

variants_in-NamesNone :
    (experiment_id id : Uuid) (events : List AnalyticsEvent)
    → NamesNone id events
    → any (λ v. v == id) (variants_in experiment_id events) ≡ false
unfolding variants_in
variants_in-NamesNone experiment_id id [] h = refl
variants_in-NamesNone experiment_id id (e ∷ events) h =
    let rest = variants_in-NamesNone experiment_id id events (λ r m. h r (inr m)) in
    first e.variant_id (h e (inl refl)) rest
  where
    first :
        (o : Option Uuid)
        → is_id o id ≡ false
        → any (λ v. v == id) (variants_in experiment_id events) ≡ false
        → any
            (λ v. v == id)
            (elim o [
              | none ↦ variants_in experiment_id events
              | some v ↦
                  if is_id e.experiment_id experiment_id
                    && not (any (λ w. w == v) (variants_in experiment_id events))
                  then v ∷ variants_in experiment_id events
                  else variants_in experiment_id events
            ])
          ≡ false
    first none n rest = rest
    first (some v) n rest =
        elim (Bool-cases (
          is_id e.experiment_id experiment_id
          && not (any (λ w. w == v) (variants_in experiment_id events)))) [
            | inl new ↦ rw (new, n) rest
            | inr old ↦ rw old rest
          ]

-- Whatever impressions and conversions of control the events hold, the row of a decision on the
-- counts of the events says that control had none; if no event names the version of control as its
-- variant.
pub decision_row-control :
    (f : Float) (row_id : Uuid) (now : ℤ) (exp : ExperimentRecord f) (events : List AnalyticsEvent)
    (outcome : DecisionOutcome f)
    → NamesNone exp.control_version_id events
    → let row = decision_row f row_id now exp (experiment_counts exp.id events) outcome in
      (row.control_impressions ≡ some (pos 0)) × (row.control_conversions ≡ some (pos 0))
unfolding decision_row count_of experiment_counts
decision_row-control f row_id now exp events outcome h =
    rw
      (
        find-none (λ (c : ExperimentCounts). c.variant_id == exp.control_version_id)
            (experiment_counts exp.id events)
            (counts_for-keys exp.id exp.control_version_id events (variants_in exp.id events)
              ∙ variants_in-NamesNone exp.id exp.control_version_id events h),
        count_of,
      )
      (refl, refl)
