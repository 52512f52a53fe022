-- ===== src/Experiments/Store/History.antt =====
-- What holds after any run of the operations on the experiment tables.
use forgepost.Prelude.{
  ℕ, ℤ, ◌≤◌, ◌≡◌, refl, ◌&&◌, Option, List, [], arith, ◌==◌, find, find-true, any, Bool-cases,
  Option-cases, &&_true, inl, inr, ap, subst, ==_refl,
}
use forgepost.Text.{Text}
use forgepost.Content.{Uuid}
use forgepost.Float.{Float}
use forgepost.Experiments.Record.{ExperimentDecision, NewExperiment}
use forgepost.Experiments.Tables.{
  BlockRow, VersionRow, RepositoryError, ok, err, database, conflict, ExperimentRow, Db,
  running_status, has_status, draft_with, running_with, running_at,
}
use forgepost.Experiments.Store.{start_experiment, stop_experiment, conclude_experiment}
use forgepost.Experiments.Store.Create.{create_experiment, insert_all}
use forgepost.Experiments.Store.Counts.{bit, count-append, count_find}
use forgepost.Experiments.Store.Sound.{
  is_open, running_on, decided_of, IsSound, Step, create, start, stop, conclude, Run, done, step,
  start_experiment-IsSound, stop_experiment-IsSound,
}
use forgepost.Experiments.Store.Invariants.{
  conclude_experiment-IsSound, create_experiment-IsSound, insert_all-some,
}

module _ (f : Float) where
  step-IsSound : (a b : Db f) → Step f a b → IsSound f a → IsSound f b
  step-IsSound _ _ (create new_v4 now document_id block_id new a) s =
      create_experiment-IsSound f new_v4 now document_id block_id new a s
  step-IsSound _ _ (start now id a) s = start_experiment-IsSound f now id a s
  step-IsSound _ _ (stop now id a) s = stop_experiment-IsSound f now id a s
  step-IsSound _ _ (conclude now id decision winner promoted stats a) s =
      conclude_experiment-IsSound f now id decision winner promoted stats a s

  pub Run-IsSound : (a b : Db f) → Run f a b → IsSound f a → IsSound f b
  Run-IsSound _ _ (done a) s = s
  Run-IsSound _ _ (step a b c h r) s = Run-IsSound b c r (step-IsSound a b h s)

  abbrev pub new_db : List BlockRow → List VersionRow → Db f
  new_db blocks versions = record {
    blocks = blocks;
    versions = versions;
    experiments = [];
    variants = [];
    decisions = [];
  }

  pub new_db-IsSound :
      (blocks : List BlockRow) (versions : List VersionRow) → IsSound f (new_db blocks versions)
  new_db-IsSound blocks versions = record {
    one_row = λ x. omega arith;
    one_running = λ b. omega arith;
    settled = λ x. omega arith;
  }

-- From a database without experiments, whatever is created, started, stopped and concluded, a block
-- has at most one running experiment and an experiment at most one decision.
pub Run-one_running_one_decision :
    (f : Float) (blocks : List BlockRow) (versions : List VersionRow) (db : Db f)
    → Run f (new_db f blocks versions) db
    → ((b : Uuid) → running_on f b db.experiments ≤ 1)
      × ((e : Uuid) → decided_of f e db.decisions ≤ 1)
Run-one_running_one_decision f blocks versions db r =
    let s = Run-IsSound f (new_db f blocks versions) db r (new_db-IsSound f blocks versions) in
    (s.one_running, λ e. omega (arith, s.one_row e, s.settled e))

module _ (f : Float) where
  conclude_experiment-decided :
      (now : ℤ) (id e : Uuid) (decision : Text) (winner promoted : Option Uuid)
      (stats : ExperimentDecision f) (db : Db f)
      → let (r, after) = conclude_experiment f now id decision winner promoted stats db in
        (decided_of f e db.decisions ≤ decided_of f e after.decisions)
        × (r ≡ ok tt → 1 ≤ decided_of f id after.decisions)
  unfolding conclude_experiment
  conclude_experiment-decided now id e decision winner promoted stats db =
      elim (Bool-cases (any (λ (r : ExperimentRow f). r.id == id) db.experiments)) [
        | inr absent ↦ rw (absent, conclude_experiment) (omega arith, λ h. cc)
        | inl there ↦
            elim (Bool-cases (any (λ (d : ExperimentDecision f). d.id == stats.id) db.decisions)) [
              | inl taken ↦ rw (there, conclude_experiment, taken) (omega arith, λ h. cc)
              | inr fresh ↦ elim (Option-cases (find (running_with f id) db.experiments)) [
                | inl g ↦ rw (there, conclude_experiment, fresh, g) (omega arith, λ h. cc)
                | inr (row, g) ↦
                    let appended = λ (x : Uuid).
                      count-append (λ (d : ExperimentDecision f). d.experiment_id == x) db.decisions
                        (record stats { experiment_id = id; decision = decision }) in
                    rw (there, conclude_experiment, fresh, g)
                      (
                        omega (arith, appended e),
                        λ h. omega (arith, appended id, ap bit (==_refl id)),
                      )
              ]
            ]
      ]

  create_experiment-decisions :
      (new_v4 : ℕ → Uuid) (now : ℤ) (document_id block_id : Uuid) (new : NewExperiment f)
      (db : Db f)
      → (create_experiment f new_v4 now document_id block_id new db).1.decisions ≡ db.decisions
  unfolding create_experiment
  create_experiment-decisions new_v4 now document_id block_id new db =
      elim (Option-cases
        (find (λ (b : BlockRow). (b.id == block_id) && (b.document_id == document_id)) db.blocks)) [
          | inl e ↦ rw (e, create_experiment) refl
          | inr (block, e) ↦
              elim (Option-cases
                (insert_all f new_v4 now document_id block_id block.current_version_id new db)) [
                  | inl g ↦ rw (e, create_experiment, g) refl
                  | inr ((rows, after), g) ↦
                      rw (e, create_experiment, g)
                        (insert_all-some f new_v4 now document_id block_id block.current_version_id
                          new db after rows g).1.1
                ]
        ]

  start_experiment-decisions :
      (now : ℤ) (id : Uuid) (db : Db f) → (start_experiment f now id db).1.decisions ≡ db.decisions
  unfolding start_experiment
  start_experiment-decisions now id db =
      elim (Option-cases (find (draft_with f id) db.experiments)) [
        | inl e ↦ rw (e, start_experiment) refl
        | inr (row, e) ↦ elim (Bool-cases (any (running_at f row.block_id) db.experiments)) [
          | inl busy ↦ rw (e, start_experiment, busy) refl
          | inr free ↦ rw (e, start_experiment, free) refl
        ]
      ]

  stop_experiment-decisions :
      (now : ℤ) (id : Uuid) (db : Db f) → (stop_experiment f now id db).1.decisions ≡ db.decisions
  unfolding stop_experiment
  stop_experiment-decisions now id db =
      elim (Option-cases (find (λ (r : ExperimentRow f). r.id == id) db.experiments)) [
        | inl e ↦ rw (e, stop_experiment) refl
        | inr (row, e) ↦ rw (e, stop_experiment) refl
      ]

  step-decided :
      (e : Uuid) (a b : Db f) → Step f a b → decided_of f e a.decisions ≤ decided_of f e b.decisions
  step-decided e _ _ (create new_v4 now document_id block_id new a) = omega (
    arith,
    ap (decided_of f e) (create_experiment-decisions new_v4 now document_id block_id new a),
  )
  step-decided e _ _ (start now id a) =
      omega (arith, ap (decided_of f e) (start_experiment-decisions now id a))
  step-decided e _ _ (stop now id a) =
      omega (arith, ap (decided_of f e) (stop_experiment-decisions now id a))
  step-decided e _ _ (conclude now id decision winner promoted stats a) =
      (conclude_experiment-decided now id e decision winner promoted stats a).0

  Run-decided :
      (e : Uuid) (a b : Db f) → Run f a b → decided_of f e a.decisions ≤ decided_of f e b.decisions
  Run-decided e _ _ (done a) = omega arith
  Run-decided e _ _ (step a b c h r) = omega (arith, step-decided e a b h, Run-decided e b c r)

  conclude_experiment-latched :
      (now : ℤ) (id : Uuid) (decision : Text) (winner promoted : Option Uuid)
      (stats : ExperimentDecision f) (db : Db f)
      → IsSound f db
      → 1 ≤ decided_of f id db.decisions
      → (c : RepositoryError) × (conclude_experiment f now id decision winner promoted stats db
          ≡ (err c, db))
  unfolding conclude_experiment
  conclude_experiment-latched now id decision winner promoted stats db s d =
      elim (Bool-cases (any (λ (r : ExperimentRow f). r.id == id) db.experiments)) [
        | inr absent ↦ rw (absent, conclude_experiment) (database, refl)
        | inl there ↦
            elim (Bool-cases (any (λ (d : ExperimentDecision f). d.id == stats.id) db.decisions)) [
              | inl taken ↦ rw (there, conclude_experiment, taken) (database, refl)
              | inr fresh ↦ elim (Option-cases (find (running_with f id) db.experiments)) [
                | inl g ↦ rw (there, conclude_experiment, fresh, g) (conflict, refl)
                | inr (row, g) ↦
                    let (i, running) =
                      &&_true (row.id == id) (has_status f running_status row)
                        (find-true (running_with f id) db.experiments row g) in
                    let is =
                      count_find (running_with f id) (is_open f id) db.experiments row g
                        (ground (arith, i, running)) in
                    absurd (omega (arith, is, d, s.settled id, s.one_row id))
              ]
            ]
      ]

-- A conclusion that succeeds is the only one: whatever is created, started, stopped and concluded
-- after it on a sound database, to conclude the experiment again fails and changes nothing.
pub conclude_experiment-once :
    (f : Float) (now now' : ℤ) (id : Uuid) (decision decision' : Text)
    (winner promoted winner' promoted' : Option Uuid) (stats stats' : ExperimentDecision f)
    (db after later : Db f)
    → IsSound f db
    → conclude_experiment f now id decision winner promoted stats db ≡ (ok tt, after)
    → Run f after later
    → (c : RepositoryError) × (conclude_experiment f now' id decision' winner' promoted' stats'
          later
        ≡ (err c, later))
conclude_experiment-once f now now' id decision decision' winner promoted winner' promoted' stats
      stats' db after later s h r =
    let same : (conclude_experiment f now id decision winner promoted stats db).1 ≡ after =
      ap (λ p. p.1) h in
    let sound : IsSound f after =
      subst (IsSound f) same
        (conclude_experiment-IsSound f now id decision winner promoted stats db s) in
    let decided : 1 ≤ decided_of f id after.decisions =
      subst (λ (d : Db f). 1 ≤ decided_of f id d.decisions) same
        ((conclude_experiment-decided f now id id decision winner promoted stats db).1
          (ap (λ p. p.0) h)) in
    conclude_experiment-latched f now' id decision' winner' promoted' stats' later
      (Run-IsSound f after later r sound) (omega (arith, decided, Run-decided f id after later r))
