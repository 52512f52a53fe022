-- ===== src/Experiments/Store/Create.antt =====
-- crates/infrastructure/src/sqlite.rs: create_experiment, with the rows that it inserts.
use forgepost.Prelude.{
  ℕ, ℤ, ◌+◌, true, false, not, ◌&&◌, Option, none, some, List, [], ◌∷◌, ◌++◌, ◌==◌, if◌then◌else◌,
  find, any,
}
use forgepost.Content.{Uuid}
use forgepost.Float.{Float}
use forgepost.Experiments.Record.{VariantRecord, ExperimentRecord, VariantInput, NewExperiment}
use forgepost.Experiments.Tables.{
  BlockRow, VersionRow, Result, ok, err, database, not_found, as_i64, draft_status, and_then,
  ExperimentRow, VariantRow, Db,
}

module _ (f : Float) where
  -- INSERT, which fails on an id that is taken and, for a variant, on a version without a row. The
  -- other foreign keys hold where these are called: the block has been found, and the experiment is
  -- inserted before its variants.
  unfoldable pub insert_version : VersionRow → Db f → Option (Db f)
  insert_version v db =
      if any (λ (w : VersionRow). w.id == v.id) db.versions
      then none
      else some (record db { versions = db.versions ++ v ∷ [] })

  unfoldable pub insert_variant : VariantRow f → Db f → Option (Db f)
  insert_variant v db =
      if any (λ (w : VariantRow f). w.row.id == v.row.id) db.variants
      then none
      else if not (any (λ (w : VersionRow). w.id == v.row.version_id) db.versions)
      then none
      else some (record db { variants = db.variants ++ v ∷ [] })

  -- The loop over the inputs of the variants, from the number of ids drawn so far.
  unfoldable pub insert_inputs :
      (ℕ → Uuid)
      → ℤ
      → Uuid
      → Uuid
      → ℕ
      → List (VariantInput f)
      → Db f
      → Option (List (VariantRecord f) × Db f)
  unfolding insert_version insert_variant and_then
  insert_inputs new_v4 now id block_id n [] db = some ([], db)
  insert_inputs new_v4 now id block_id n (input ∷ rest) db =
      let variant : VariantRecord f = record {
        id = new_v4 n;
        block_id = block_id;
        version_id = new_v4 (n + 1);
        weight = input.weight;
        is_control = false;
      } in
      let version : VersionRow = record {
        id = new_v4 (n + 1);
        block_id = block_id;
        content = input.content;
        created_at_ms = now;
      } in
      and_then (insert_version version db) (λ with_version.
        and_then (insert_variant (record { experiment_id = id; row = variant }) with_version)
          (λ with_variant.
            and_then (insert_inputs new_v4 now id block_id (n + 2) rest with_variant)
              (λ (rows, after). some (variant ∷ rows, after))))

  unfoldable pub draft_row : ℤ → Uuid → Uuid → Uuid → Uuid → NewExperiment f → ExperimentRow f
  draft_row now id document_id block_id control_version_id new = record {
    id = id;
    document_id = document_id;
    block_id = block_id;
    name = new.name;
    status = draft_status;
    control_version_id = control_version_id;
    goal = new.goal;
    traffic_weight = new.traffic_weight;
    confidence_threshold = new.confidence_threshold;
    min_sample_per_variant = as_i64 new.min_sample_per_variant;
    no_winner_prob = new.no_winner_prob;
    max_duration_ms = new.max_duration_ms;
    started_at_ms = none;
    decided_at_ms = none;
    decision = none;
    winning_variant_id = none;
    created_at_ms = now;
  }

  unfoldable pub insert_experiment : ExperimentRow f → Db f → Option (Db f)
  insert_experiment row db =
      if any (λ (r : ExperimentRow f). r.id == row.id) db.experiments
      then none
      else some (record db { experiments = db.experiments ++ row ∷ [] })

  -- The rows of the variants: that of the control, whose id is drawn second, and those of the inputs.
  unfoldable pub insert_variants :
      (ℕ → Uuid) → ℤ → Uuid → Uuid → NewExperiment f → Db f → Option (List (VariantRecord f) × Db f)
  unfolding insert_inputs insert_variant and_then
  insert_variants new_v4 now block_id control_version_id new db =
      let control : VariantRecord f = record {
        id = new_v4 1;
        block_id = block_id;
        version_id = control_version_id;
        weight = new.traffic_weight;
        is_control = true;
      } in
      and_then (insert_variant (record { experiment_id = new_v4 0; row = control }) db)
        (λ with_control.
          and_then (insert_inputs new_v4 now (new_v4 0) block_id 2 new.variants with_control)
            (λ (rows, after). some (control ∷ rows, after)))

  -- The rows of an experiment on a block whose version is known; the id of the experiment is drawn
  -- first.
  unfoldable pub insert_all :
      (ℕ → Uuid)
      → ℤ
      → Uuid
      → Uuid
      → Uuid
      → NewExperiment f
      → Db f
      → Option (List (VariantRecord f) × Db f)
  unfolding insert_variants draft_row insert_experiment and_then
  insert_all new_v4 now document_id block_id control_version_id new db =
      and_then
        (insert_experiment (draft_row now (new_v4 0) document_id block_id control_version_id new)
          db)
        (λ with_row. insert_variants new_v4 now block_id control_version_id new with_row)

  unfoldable pub create_experiment :
      (ℕ → Uuid) → ℤ → Uuid → Uuid → NewExperiment f → Db f → Result (ExperimentRecord f) × Db f
  unfolding insert_all
  create_experiment new_v4 now document_id block_id new db =
      elim (find (λ (b : BlockRow). (b.id == block_id) && (b.document_id == document_id))
        db.blocks) [
          | none ↦ (err not_found, db)
          | some block ↦
              elim (insert_all new_v4 now document_id block_id block.current_version_id new db) [
                | none ↦ (err database, db)
                | some (variants, after) ↦ (
                  ok (record {
                    id = new_v4 0;
                    document_id = document_id;
                    block_id = block_id;
                    name = new.name;
                    status = draft_status;
                    control_version_id = block.current_version_id;
                    goal = new.goal;
                    traffic_weight = new.traffic_weight;
                    confidence_threshold = new.confidence_threshold;
                    min_sample_per_variant = as_i64 new.min_sample_per_variant;
                    no_winner_prob = new.no_winner_prob;
                    max_duration_ms = new.max_duration_ms;
                    started_at_ms = none;
                    decided_at_ms = none;
                    decision = none;
                    winning_variant_id = none;
                    created_at_ms = now;
                    variants = variants;
                  }),
                  after,
                )
              ]
        ]
