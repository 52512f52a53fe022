-- ===== src/Experiments/Store.antt =====
-- crates/infrastructure/src/sqlite.rs: the operations of ExperimentRepo on the experiment tables, as
-- functions from the database to a result and the database after it. The ids that Uuid::new_v4 draws
-- and the clock are parameters. A failure of the connection or of the disk is not modelled; `database`
-- stands for the violation of a primary or foreign key. A transaction that fails leaves the database as
-- it was.
pub mod Create
pub mod Counts
pub mod Sound
pub mod Invariants
pub mod History
pub mod Atomicity
mod Tests
use forgepost.Prelude.{
  ℕ, ℤ, pos, negsuc, ltb, ◌^◌, ◌-◌, zero, suc, ◌+◌, ◌*◌, Bool, true, false, not, ◌&&◌, Option, none,
  some, List, [], ◌∷◌, ◌++◌, map, ◌==◌, if◌then◌else◌, find, keep, any,
}
use forgepost.Text.{Text, codes, text_eq}
use forgepost.Json.{Json}
use forgepost.Content.{Uuid}
use forgepost.Float.{Float}
use forgepost.Experiments.Record.{
  VariantRecord, ExperimentRecord, VariantInput, NewExperiment, ExperimentDecision,
}
use forgepost.Experiments.Tables.{
  BlockRow, VersionRow, RepositoryError, Result, ok, err, database, not_found, conflict, as_i64,
  draft_status, running_status, decided_status, stopped_status, update, and_then, ExperimentRow,
  VariantRow, Db, has_status, draft_with, running_with, running_at, load_experiment,
  running_experiments, started, stopped_at, concluded,
}

module _ (f : Float) where
  pub start_experiment : ℤ → Uuid → Db f → Result Unit × Db f
  unfolding update
  start_experiment now id db = elim (find (draft_with f id) db.experiments) [
    | none ↦ (err conflict, db)
    | some row ↦ if any (running_at f row.block_id) db.experiments then (err conflict, db) else (
      ok tt,
      record db { experiments = update (draft_with f id) (started f now) db.experiments },
    )
  ]

  pub stop_experiment : ℤ → Uuid → Db f → Result Unit × Db f
  unfolding update
  stop_experiment now id db = elim (find (λ (r : ExperimentRow f). r.id == id) db.experiments) [
    | none ↦ (err not_found, db)
    | some row ↦ (
      ok tt,
      record db {
        experiments =
            update (λ (r : ExperimentRow f). r.id == id) (stopped_at f now) db.experiments;
      },
    )
  ]

  -- The canonical version of a block. The search index follows it in another component.
  pub promote_block_version : ℤ → Uuid → Uuid → List BlockRow → List BlockRow
  unfolding update
  promote_block_version now block_id version_id blocks =
      update (λ (b : BlockRow). b.id == block_id)
        (λ (b : BlockRow). record b { current_version_id = version_id; updated_at_ms = now }) blocks

  -- The transaction of a conclusion: the decision row, the transition that is its latch, and the
  -- promotion.
  unfoldable pub conclude_experiment :
      ℤ → Uuid → Text → Option Uuid → Option Uuid → ExperimentDecision f → Db f → Result Unit × Db f
  unfolding update promote_block_version
  conclude_experiment now id decision winning_variant_id promoted_version_id stats db =
      if not (any (λ (r : ExperimentRow f). r.id == id) db.experiments)
      then (err database, db)
      else if any (λ (d : ExperimentDecision f). d.id == stats.id) db.decisions
      then (err database, db)
      else elim (find (running_with f id) db.experiments) [
        | none ↦ (err conflict, db)
        | some row ↦ (
          ok tt,
          record db {
            decisions =
                db.decisions ++ record stats { experiment_id = id; decision = decision } ∷ [];
            experiments =
                update (running_with f id)
                  (concluded f stats.decided_at_ms decision winning_variant_id) db.experiments;
            blocks = elim promoted_version_id [
              | none ↦ db.blocks
              | some pid ↦ promote_block_version now row.block_id pid db.blocks
            ];
          },
        )
      ]

  pub experiment_decisions : Db f → Uuid → List (ExperimentDecision f)
  experiment_decisions db id =
      keep (λ (d : ExperimentDecision f). d.experiment_id == id) db.decisions

  pub experiment_variant_belongs : Db f → Uuid → Uuid → Bool
  experiment_variant_belongs db id variant_id =
      any (λ (v : VariantRow f). (v.experiment_id == id) && (v.row.id == variant_id)) db.variants
