-- ===== src/Experiments/Decide/Promotion.antt =====
-- What a decision to promote has found and done.
use forgepost.Prelude.{
  none-ne-some, ℤ, ◌≡◌, refl, subst, sym, ap, ◌∙◌, ◌==◌, Option, none, some, some-inj, List, find,
  find-true, find-In, In, inl, inr, Option-cases, Bool-cases, ==_iff,
}
use forgepost.Text.{text_eq}
use forgepost.Content.{Uuid}
use forgepost.Float.{Float}
use forgepost.Experiments.{Recommendation, promote, no_winner, continue_, ExperimentReport}
use forgepost.Experiments.Engine.Support.{Supports, analyze-Supports}
use forgepost.Experiments.Record.{VariantRecord, ExperimentRecord, ExperimentCounts}
use forgepost.Experiments.Tables.{
  Result, RepositoryError, ok, err, ExperimentRow, Db, running_status, load_experiment,
}
use forgepost.Experiments.Store.{conclude_experiment}
use forgepost.Experiments.Store.Atomicity.{Promoted, conclude_experiment-atomic}
use forgepost.Experiments.Decide.{
  DecisionOutcome, outcome_of, winner_outcome, is_control_row, applied, record_decision,
  decision_row, live_report, decide_experiment,
}

err-ne-ok : {A : Type 0} {c : RepositoryError} {a : A} → ¬ (◌≡◌ {A = Result A} (err c) (ok a))
err-ne-ok h = cc

ok-some-inj :
    {A : Type 0} {a b : A} → ◌≡◌ {A = Result (Option A)} (ok (some a)) (ok (some b)) → a ≡ b
ok-some-inj h = cc

module _ (f : Float) where
  -- The version of a variant of the experiment.
  abbrev pub Points : ExperimentRecord f → Uuid → Uuid → Type 0
  Points exp variant_id version =
      (v : VariantRecord f) × In v exp.variants × (v.id ≡ variant_id) × (v.version_id ≡ version)

  winner_outcome-Points :
      (exp : ExperimentRecord f) (counts : List ExperimentCounts) (variant_id : Uuid)
      (confidence : Option f.F64) (outcome : DecisionOutcome f) (version : Uuid)
      → winner_outcome f exp counts variant_id confidence ≡ some outcome
      → outcome.promoted_version_id ≡ some version
      → (outcome.winner_variant_id ≡ some variant_id) × Points exp variant_id version
  unfolding winner_outcome
  winner_outcome-Points exp counts variant_id confidence outcome version h p =
      elim (Option-cases (find (λ (v : VariantRecord f). v.id == variant_id) exp.variants)) [
        | inl e ↦ absurd (none-ne-some (rw (e, winner_outcome) at h))
        | inr (v, e) ↦ elim (Option-cases (find (is_control_row f) exp.variants)) [
          | inl g ↦ absurd (none-ne-some (rw (e, winner_outcome, g) at h))
          | inr (control, g) ↦
              let made = some-inj (rw (e, winner_outcome, g) at h) in
              (
                ap (λ (o : DecisionOutcome f). o.winner_variant_id) (sym made),
                (
                  v,
                  find-In (λ (w : VariantRecord f). w.id == variant_id) exp.variants v e,
                  (==_iff v.id variant_id).0
                      (find-true (λ (w : VariantRecord f). w.id == variant_id) exp.variants v e),
                  some-inj (ap (λ (o : DecisionOutcome f). o.promoted_version_id) made ∙ p),
                ),
              )
        ]
      ]

  recommended :
      (id : Uuid) (exp : ExperimentRecord f) (counts : List ExperimentCounts)
      (report : ExperimentReport f) (recommendation : Recommendation f)
      (outcome : DecisionOutcome f) (version : Uuid)
      → outcome_of f id exp counts recommendation ≡ some outcome
      → outcome.promoted_version_id ≡ some version
      → ((variant_id : Uuid) (p : f.F64)
          → recommendation ≡ promote variant_id p
          → Supports f report variant_id)
      → (variant_id : Uuid) × (outcome.winner_variant_id ≡ some variant_id)
        × Supports f report variant_id
        × Points exp variant_id version
  unfolding outcome_of
  recommended id exp counts report (promote variant_id p) outcome version h e supports =
      let (won, points) =
        winner_outcome-Points exp counts variant_id (some p) outcome version h e in
      (variant_id, won, supports variant_id p refl, points)
  recommended id exp counts report no_winner outcome version h e supports =
      let made = some-inj h in
      absurd (none-ne-some (ap (λ (o : DecisionOutcome f). o.promoted_version_id) made ∙ e))
  recommended id exp counts report continue_ outcome version h e supports = absurd (none-ne-some h)

  applied-same :
      (row_id : Uuid) (now : ℤ) (exp : ExperimentRecord f) (counts : List ExperimentCounts)
      (outcome given : DecisionOutcome f) (db after : Db f)
      → applied f row_id now exp counts outcome (some outcome) db ≡ (ok (some given), after)
      → outcome ≡ given
  unfolding applied
  applied-same row_id now exp counts outcome given db after h =
      finished (record_decision f row_id now exp counts outcome db).0 (ap (λ x. x.0) h)
    where
      finished :
          (r : Result Unit)
          → ◌≡◌ {A = Result (Option (DecisionOutcome f))}
              (elim r [ ok u ↦ ok (some outcome) | err c ↦ err c ])
              (ok (some given))
          → outcome ≡ given
      finished (ok u) h = ok-some-inj h
      finished (err c) h = absurd (err-ne-ok h)

  applied-Promoted :
      (row_id : Uuid) (now : ℤ) (exp : ExperimentRecord f) (counts : List ExperimentCounts)
      (outcome given : DecisionOutcome f) (version : Uuid) (db after : Db f)
      → outcome.promoted_version_id ≡ some version
      → applied f row_id now exp counts outcome (some outcome) db ≡ (ok (some given), after)
      → Promoted f now exp.id version db after
  unfolding applied record_decision
  applied-Promoted row_id now exp counts outcome given version db after e h =
      finished (record_decision f row_id now exp counts outcome db)
        (subst
          (λ o.
            let end =
              conclude_experiment f now exp.id outcome.decision outcome.winner_variant_id o
                (decision_row f row_id now exp counts outcome) db in
            end.0 ≡ ok tt → Promoted f now exp.id version db end.1)
          (sym e)
          (conclude_experiment-atomic f now exp.id outcome.decision outcome.winner_variant_id
            version (decision_row f row_id now exp counts outcome) db).1)
        h
    where
      finished :
          (end : Result Unit × Db f)
          → (end.0 ≡ ok tt → Promoted f now exp.id version db end.1)
          → ◌≡◌ {A = Result (Option (DecisionOutcome f)) × Db f}
              (elim end.0 [ ok u ↦ ok (some outcome) | err c ↦ err c ], end.1)
              (ok (some given), after)
          → Promoted f now exp.id version db after
      finished (ok tt, there) g h =
          subst (λ x. Promoted f now exp.id version db x) (ap (λ x. x.1) h) (g refl)
      finished (err c, there) g h = absurd (err-ne-ok (ap (λ x. x.0) h))

  live_report-Supports :
      (now : ℤ) (exp : ExperimentRecord f) (counts : List ExperimentCounts)
      (report : ExperimentReport f) (variant_id : Uuid) (p : f.F64)
      → live_report f now exp counts ≡ some report
      → report.recommendation ≡ promote variant_id p
      → Supports f report variant_id
  unfolding live_report
  live_report-Supports now exp counts report variant_id p e h =
      analyze-Supports f _ _ _ _ report variant_id p e h

  load_experiment-id :
      (db : Db f) (id : Uuid) (exp : ExperimentRecord f)
      → load_experiment f db id ≡ some exp
      → exp.id ≡ id
  unfolding load_experiment
  load_experiment-id db id exp h =
      elim (Option-cases (find (λ (r : ExperimentRow f). r.id == id) db.experiments)) [
        | inl e ↦ absurd (none-ne-some (rw (e, load_experiment) at h))
        | inr (row, e) ↦
            sym (ap (λ (x : ExperimentRecord f). x.id) (some-inj (rw (e, load_experiment) at h)))
      ]

-- If the decision on an experiment succeeds and promotes a version, then the live report names the
-- winner among its variants other than control, with a chance that reaches the corrected threshold;
-- the version is that of a variant of the experiment with the winner's id; and the experiment was
-- found running, its block now pointing at the version.
pub decide_experiment-promotes :
    (f : Float) (row_id : Uuid) (now : ℤ) (counts : List ExperimentCounts) (id : Uuid)
    (db after : Db f) (exp : ExperimentRecord f) (outcome : DecisionOutcome f) (version : Uuid)
    → load_experiment f db id ≡ some exp
    → decide_experiment f row_id now counts id db ≡ some (ok (some outcome), after)
    → outcome.promoted_version_id ≡ some version
    → (report : ExperimentReport f) × (live_report f now exp counts ≡ some report)
      × ((variant_id : Uuid) × (outcome.winner_variant_id ≡ some variant_id)
          × Supports f report variant_id
          × Points f exp variant_id version)
      × Promoted f now id version db after
unfolding decide_experiment
decide_experiment-promotes f row_id now counts id db after exp outcome version l h e =
    elim (Bool-cases (text_eq exp.status running_status)) [
      | inr idle ↦ absurd (unchanged (rw (l, decide_experiment, idle) at h))
      | inl runs ↦ elim (Option-cases (live_report f now exp counts)) [
        | inl g ↦ absurd (none-ne-some (rw (l, decide_experiment, runs, g) at h))
        | inr (report, g) ↦ elim (Option-cases (outcome_of f id exp counts report.recommendation)) [
          | inl o ↦ absurd (unchanged (rw (l, decide_experiment, runs, g, o) at h))
          | inr (given, o) ↦
              let end = some-inj (rw (l, decide_experiment, runs, g, o) at h) in
              let same = applied-same f row_id now exp counts given outcome db after end in
              let promoted : given.promoted_version_id ≡ some version =
                ap (λ (x : DecisionOutcome f). x.promoted_version_id) same ∙ e in
              let (v, won, supported, points) =
                recommended f id exp counts report report.recommendation given version o promoted
                  (λ v p r. live_report-Supports f now exp counts report v p g r) in
              (
                report,
                g,
                (
                  v,
                  ap (λ (x : DecisionOutcome f). x.winner_variant_id) (sym same) ∙ won,
                  supported,
                  points,
                ),
                subst (λ i. Promoted f now i version db after) (load_experiment-id f db id exp l)
                    (applied-Promoted f row_id now exp counts given outcome version db after
                      promoted end),
              )
        ]
      ]
    ]
  where
    unchanged : ¬ (
        ◌≡◌ {A = Option (Result (Option (DecisionOutcome f)) × Db f)}
          (some (ok none, db))
          (some (ok (some outcome), after)))
    unchanged h = cc
