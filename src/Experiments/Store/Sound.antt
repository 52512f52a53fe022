-- ===== src/Experiments/Store/Sound.antt =====
-- The invariant of the experiment tables, with the operations that start and stop an experiment.
use forgepost.Prelude.{
  ℕ, ℤ, ◌+◌, ◌≤◌, ◌≡◌, refl, Bool, true, false, ◌&&◌, ◌||◌, Option, some, List, arith, ◌==◌, find,
  find-true, any, Bool-cases, Option-cases, &&_true, inl, inr, ap, subst, ==_iff,
}
use forgepost.Text.{Text}
use forgepost.Content.{Uuid}
use forgepost.Float.{Float}
use forgepost.Experiments.Record.{ExperimentDecision, NewExperiment}
use forgepost.Experiments.Tables.{
  ExperimentRow, Db, draft_status, running_status, has_status, draft_with, running_at, started,
  stopped_at, update,
}
use forgepost.Experiments.Store.{start_experiment, stop_experiment, conclude_experiment}
use forgepost.Experiments.Store.Create.{create_experiment}
use forgepost.Experiments.Store.Counts.{bit, count, count-update, count_none, text_eq_subst}

module _ (f : Float) where
  abbrev pub is_open : Uuid → ExperimentRow f → Bool
  is_open e r = (r.id == e) && (has_status f draft_status r || has_status f running_status r)

  abbrev pub rows_of : Uuid → List (ExperimentRow f) → ℕ
  rows_of e rows = count (λ (r : ExperimentRow f). r.id == e) rows

  abbrev pub open_of : Uuid → List (ExperimentRow f) → ℕ
  open_of e rows = count (is_open e) rows

  abbrev pub running_on : Uuid → List (ExperimentRow f) → ℕ
  running_on b rows = count (running_at f b) rows

  abbrev pub decided_of : Uuid → List (ExperimentDecision f) → ℕ
  decided_of e decisions = count (λ (d : ExperimentDecision f). d.experiment_id == e) decisions

  -- One row for an experiment, one running experiment on a block, and a decision for an experiment
  -- only when no row of it is a draft or running.
  pub record IsSound (db : Db f) : Type 0 where
    pub one_row : (e : Uuid) → rows_of e db.experiments ≤ 1
    pub one_running : (b : Uuid) → running_on b db.experiments ≤ 1
    pub settled :
        (e : Uuid) → decided_of e db.decisions + open_of e db.experiments ≤ rows_of e db.experiments

  pub data Step : Db f → Db f → Type 0 where
    create :
        (new_v4 : ℕ → Uuid) (now : ℤ) (document_id block_id : Uuid) (new : NewExperiment f)
        (db : Db f)
        → Step db (create_experiment f new_v4 now document_id block_id new db).1
    start : (now : ℤ) (id : Uuid) (db : Db f) → Step db (start_experiment f now id db).1
    stop : (now : ℤ) (id : Uuid) (db : Db f) → Step db (stop_experiment f now id db).1
    conclude :
        (now : ℤ) (id : Uuid) (decision : Text) (winner promoted : Option Uuid)
        (stats : ExperimentDecision f) (db : Db f)
        → Step db (conclude_experiment f now id decision winner promoted stats db).1

  pub data Run : Db f → Db f → Type 0 where
    done : (db : Db f) → Run db db
    step : (a b c : Db f) → Step a b → Run b c → Run a c

  draft_not_running :
      (r : ExperimentRow f)
      → has_status f draft_status r ≡ true
      → has_status f running_status r ≡ false
  draft_not_running r h = text_eq_subst r.status draft_status running_status h

  pub bit-false : (a : Bool) → bit (a && false) ≡ 0
  bit-false true = refl
  bit-false false = refl

  -- The counts after an update that changes neither the id nor the block.
  module _ (rows : List (ExperimentRow f)) (p : ExperimentRow f → Bool)
      (g : ExperimentRow f → ExperimentRow f) (row : ExperimentRow f)
      (found : find p rows ≡ some row) (same_id : (g row).id ≡ row.id) where
    pub rows_of-update : (x : Uuid) → rows_of x (update p g rows) ≡ rows_of x rows
    rows_of-update x =
        let sum = count-update (λ (r : ExperimentRow f). r.id == x) p g rows row found in
        let same = ap (λ i. bit (i == x)) same_id in omega (arith, same, sum)

    pub open_of-update :
        (x : Uuid)
        → open_of x (update p g rows) + bit (is_open x row)
          ≡ open_of x rows + bit (is_open x (g row))
    open_of-update x = count-update (is_open x) p g rows row found

    pub running_on-update :
        (b : Uuid)
        → running_on b (update p g rows) + bit (running_at f b row)
          ≡ running_on b rows + bit (running_at f b (g row))
    running_on-update b = count-update (running_at f b) p g rows row found

  pub start_experiment-IsSound :
      (now : ℤ) (id : Uuid) (db : Db f) → IsSound db → IsSound (start_experiment f now id db).1
  unfolding start_experiment
  start_experiment-IsSound now id db s =
      elim (Option-cases (find (draft_with f id) db.experiments)) [
        | inl e ↦ rw (e, start_experiment) s
        | inr (row, e) ↦ elim (Bool-cases (any (running_at f row.block_id) db.experiments)) [
          | inl busy ↦ rw (e, start_experiment, busy) s
          | inr free ↦
              let (i, d) =
                &&_true (row.id == id) (has_status f draft_status row)
                  (find-true (draft_with f id) db.experiments row e) in
              rw (e, start_experiment, free)
                (record {
                  one_row = λ x. omega (
                    arith,
                    s.one_row x,
                    rows_of-update db.experiments (draft_with f id) (started f now) row e refl x,
                  );
                  one_running = λ b.
                      one db.experiments (update (draft_with f id) (started f now) db.experiments)
                        row b (count_none _ db.experiments free) (draft_not_running row d)
                        (s.one_running b)
                        (running_on-update db.experiments (draft_with f id) (started f now) row e
                          refl b);
                  settled = λ x. omega (
                    arith,
                    s.settled x,
                    rows_of-update db.experiments (draft_with f id) (started f now) row e refl x,
                    open_of-update db.experiments (draft_with f id) (started f now) row e refl x,
                    ap (λ t. bit ((row.id == x) && (t || has_status f running_status row))) d,
                  );
                })
        ]
      ]
    where
      one :
          (old new : List (ExperimentRow f)) (row : ExperimentRow f) (b : Uuid)
          → running_on row.block_id old ≡ 0
          → has_status f running_status row ≡ false
          → running_on b old ≤ 1
          → running_on b new + bit (running_at f b row)
            ≡ running_on b old + bit ((row.block_id == b) && true)
          → running_on b new ≤ 1
      one old new row b free idle h e = elim (Bool-cases (row.block_id == b)) [
        | inl same ↦
            let none_on : running_on b old ≡ 0 =
              subst (λ c. running_on c old ≡ 0) ((==_iff row.block_id b).0 same) free in
            omega (arith, e, none_on, ap (λ t. bit (t && true)) same)
        | inr other ↦ omega (arith, e, h, ap (λ t. bit (t && true)) other)
      ]

  pub stop_experiment-IsSound :
      (now : ℤ) (id : Uuid) (db : Db f) → IsSound db → IsSound (stop_experiment f now id db).1
  unfolding stop_experiment
  stop_experiment-IsSound now id db s =
      elim (Option-cases (find (λ (r : ExperimentRow f). r.id == id) db.experiments)) [
        | inl e ↦ rw (e, stop_experiment) s
        | inr (row, e) ↦
            let same =
              rows_of-update db.experiments (λ (r : ExperimentRow f). r.id == id) (stopped_at f now)
                row e refl in
            let open' =
              open_of-update db.experiments (λ (r : ExperimentRow f). r.id == id) (stopped_at f now)
                row e refl in
            let running' =
              running_on-update db.experiments (λ (r : ExperimentRow f). r.id == id)
                (stopped_at f now) row e refl in
            rw (e, stop_experiment)
              (record {
                one_row = λ x. omega (arith, s.one_row x, same x);
                one_running =
                    λ b. omega (arith, s.one_running b, running' b, bit-false (row.block_id == b));
                settled = λ x. omega (arith, s.settled x, same x, open' x, bit-false (row.id == x));
              })
      ]
