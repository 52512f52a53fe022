-- ===== src/Experiments/Store/Invariants.antt =====
-- What holds of the experiment tables after any run of operations.
use forgepost.Prelude.{
  none-ne-some, not, ℕ, ℤ, ◌+◌, ◌≤◌, ◌≡◌, refl, Bool, true, false, ◌&&◌, ◌||◌, Option, none, some,
  List, [], ◌∷◌, ◌++◌, arith, ◌==◌, if◌then◌else◌, find, find-true, any, Bool-cases, Option-cases,
  &&_true, inl, inr, ap, ◌∙◌, sym, subst, ==_iff,
}
use forgepost.Text.{Text, text_eq}
use forgepost.Content.{Uuid}
use forgepost.Float.{Float}
use forgepost.Experiments.Record.{ExperimentDecision, NewExperiment, VariantRecord, VariantInput}
use forgepost.Experiments.Tables.{
  BlockRow, VersionRow, VariantRow, and_then, ExperimentRow, Db, draft_status, running_status,
  has_status, running_with, running_at, concluded,
}
use forgepost.Experiments.Store.{conclude_experiment}
use forgepost.Experiments.Store.Create.{
  insert_variants, insert_version, insert_variant, create_experiment, insert_all, insert_inputs,
  insert_experiment, draft_row,
}
use forgepost.Experiments.Store.Counts.{bit, count-append, count_none}
use forgepost.Experiments.Store.Sound.{
  is_open, rows_of, open_of, running_on, decided_of, IsSound, rows_of-update, open_of-update,
  running_on-update, bit-false,
}

module _ (f : Float) where
  pub open_running :
      (x : Uuid) (r : ExperimentRow f)
      → has_status f running_status r ≡ true
      → bit (is_open f x r) ≡ bit (r.id == x)
  open_running x r h = ground (arith, h)

  id_bit : (a b x : Uuid) → (a == b) ≡ true → bit (a == x) ≡ bit (b == x)
  id_bit a b x h = ap (λ c. bit (c == x)) ((==_iff a b).0 h)

  pub conclude_experiment-IsSound :
      (now : ℤ) (id : Uuid) (decision : Text) (winner promoted : Option Uuid)
      (stats : ExperimentDecision f) (db : Db f)
      → IsSound f db
      → IsSound f (conclude_experiment f now id decision winner promoted stats db).1
  unfolding conclude_experiment
  conclude_experiment-IsSound now id decision winner promoted stats db s =
      elim (Bool-cases (any (λ (r : ExperimentRow f). r.id == id) db.experiments)) [
        | inr absent ↦ rw (absent, conclude_experiment) s
        | inl there ↦
            elim (Bool-cases (any (λ (d : ExperimentDecision f). d.id == stats.id) db.decisions)) [
              | inl taken ↦ rw (there, conclude_experiment, taken) s
              | inr fresh ↦ elim (Option-cases (find (running_with f id) db.experiments)) [
                | inl e ↦ rw (there, conclude_experiment, fresh, e) s
                | inr (row, e) ↦
                    rw (there, conclude_experiment, fresh, e)
                      (let (i, d) =
                          &&_true (row.id == id) (has_status f running_status row)
                            (find-true (running_with f id) db.experiments row e) in
                        let g = concluded f stats.decided_at_ms decision winner in
                        let same =
                          rows_of-update f db.experiments (running_with f id) g row e refl in
                        let open' =
                          open_of-update f db.experiments (running_with f id) g row e refl in
                        let running' =
                          running_on-update f db.experiments (running_with f id) g row e refl in
                        record {
                          one_row = λ x. omega (arith, s.one_row x, same x);
                          one_running = λ b.
                              omega (
                                arith,
                                s.one_running b,
                                running' b,
                                bit-false f (row.block_id == b),
                              );
                          settled = λ x. omega (
                            arith,
                            s.settled x,
                            same x,
                            open' x,
                            bit-false f (row.id == x),
                            open_running x row d,
                            id_bit row.id id x i,
                            count-append (λ (d : ExperimentDecision f). d.experiment_id == x)
                                db.decisions
                                (record stats { experiment_id = id; decision = decision }),
                          );
                        })
              ]
            ]
      ]

  -- What the insertions of versions and variants leave alone.
  module _ (es : List (ExperimentRow f)) (ds : List (ExperimentDecision f)) where
    abbrev pub Has : Db f → Type 0
    Has db = (db.experiments ≡ es) × (db.decisions ≡ ds)

    abbrev Kept : Option (Db f) → Type 0
    Kept none = Unit
    Kept (some db) = Has db

    abbrev Rows : Option (List (VariantRecord f) × Db f) → Type 0
    Rows none = Unit
    Rows (some (rows, db)) = Has db

    if-Kept : (b : Bool) (db : Db f) → Has db → Kept (if b then none else some db)
    if-Kept true db h = tt
    if-Kept false db h = h

    none_or-Kept : (b : Bool) (o : Option (Db f)) → Kept o → Kept (if b then none else o)
    none_or-Kept true o h = tt
    none_or-Kept false o h = h

    insert_version-Kept : (v : VersionRow) (db : Db f) → Has db → Kept (insert_version f v db)
    unfolding insert_version
    insert_version-Kept v db h =
        if-Kept (any (λ (w : VersionRow). w.id == v.id) db.versions)
          (record db { versions = db.versions ++ v ∷ [] }) h

    insert_variant-Kept : (v : VariantRow f) (db : Db f) → Has db → Kept (insert_variant f v db)
    unfolding insert_variant
    insert_variant-Kept v db h =
        let after : Db f = record db { variants = db.variants ++ v ∷ [] } in
        none_or-Kept (any (λ (w : VariantRow f). w.row.id == v.row.id) db.variants) _
          (if-Kept (not (any (λ (w : VersionRow). w.id == v.row.version_id) db.versions)) after h)

    and_then-Rows :
        (o : Option (Db f)) (k : Db f → Option (List (VariantRecord f) × Db f))
        → Kept o
        → ((db : Db f) → Has db → Rows (k db))
        → Rows (and_then o k)
    unfolding and_then
    and_then-Rows none k h g = tt
    and_then-Rows (some db) k h g = g db h

    push-Rows :
        (v : VariantRecord f) (o : Option (List (VariantRecord f) × Db f))
        → Rows o
        → Rows (and_then o (λ (rows, after). some (v ∷ rows, after)))
    unfolding and_then
    push-Rows v none h = tt
    push-Rows v (some (rows, db)) h = h

    insert_inputs-Rows :
        (new_v4 : ℕ → Uuid) (now : ℤ) (id block_id : Uuid) (n : ℕ) (inputs : List (VariantInput f))
        (db : Db f)
        → Has db
        → Rows (insert_inputs f new_v4 now id block_id n inputs db)
    unfolding insert_inputs
    insert_inputs-Rows new_v4 now id block_id n [] db h = h
    insert_inputs-Rows new_v4 now id block_id n (input ∷ rest) db h =
        and_then-Rows _ _ (insert_version-Kept _ db h) (λ with_version h'.
          and_then-Rows _ _ (insert_variant-Kept _ with_version h') (λ with_variant h''.
            push-Rows _ _
              (insert_inputs-Rows new_v4 now id block_id (n + 2) rest with_variant h'')))

    insert_variants-Rows :
        (new_v4 : ℕ → Uuid) (now : ℤ) (block_id version : Uuid) (new : NewExperiment f) (db : Db f)
        → Has db
        → Rows (insert_variants f new_v4 now block_id version new db)
    unfolding insert_variants
    insert_variants-Rows new_v4 now block_id version new db h =
        and_then-Rows _ _ (insert_variant-Kept _ db h) (λ with_control h'.
          push-Rows _ _
            (insert_inputs-Rows new_v4 now (new_v4 0) block_id 2 new.variants with_control h'))

  pub insert_all-some :
      (new_v4 : ℕ → Uuid) (now : ℤ) (document_id block_id version : Uuid) (new : NewExperiment f)
      (db after : Db f) (rows : List (VariantRecord f))
      → insert_all f new_v4 now document_id block_id version new db ≡ some (rows, after)
      → (any (λ (r : ExperimentRow f). r.id == new_v4 0) db.experiments ≡ false)
        × Has
            (db.experiments ++ draft_row f now (new_v4 0) document_id block_id version new ∷ [])
            db.decisions
            after
  unfolding insert_all insert_experiment draft_row and_then
  insert_all-some new_v4 now document_id block_id version new db after rows h =
      elim (Bool-cases (any (λ (r : ExperimentRow f). r.id == new_v4 0) db.experiments)) [
        | inl taken ↦ absurd (none-ne-some (rw (taken, insert_all) at h))
        | inr fresh ↦
            let row = draft_row f now (new_v4 0) document_id block_id version new in
            let with_row : Db f = record db { experiments = db.experiments ++ row ∷ [] } in
            let inserted : insert_variants f new_v4 now block_id version new with_row
                ≡ some (rows, after) =
              rw (fresh, insert_all) at h in
            (
              fresh,
              subst (Rows (db.experiments ++ row ∷ []) db.decisions) inserted (
                  insert_variants-Rows (db.experiments ++ row ∷ []) db.decisions new_v4 now block_id
                    version new with_row (refl, refl)),
            )
      ]

  bump : (b : Bool) (n : ℕ) → (b ≡ true → n ≡ 0) → n ≤ 1 → n + bit b ≤ 1
  bump true n zero_n h = omega (arith, zero_n refl)
  bump false n zero_n h = omega (arith, h)

  bit-true : (a : Bool) → bit (a && true) ≡ bit a
  bit-true true = refl
  bit-true false = refl

  -- A draft with a new id keeps the tables sound.
  drafted-IsSound :
      (db after : Db f) (row : ExperimentRow f)
      → IsSound f db
      → any (λ (r : ExperimentRow f). r.id == row.id) db.experiments ≡ false
      → row.status ≡ draft_status
      → Has (db.experiments ++ row ∷ []) db.decisions after
      → IsSound f after
  drafted-IsSound db after row s fresh draft (es, ds) = record {
    one_row = λ x.
        subst (λ n. n ≤ 1) (sym (ap (rows_of f x) es ∙ count-append _ db.experiments row))
          (bump (row.id == x) (rows_of f x db.experiments)
            (λ same.
              subst (λ c. rows_of f c db.experiments ≡ 0) ((==_iff row.id x).0 same)
                (count_none _ db.experiments fresh))
            (s.one_row x));
    one_running = λ b. omega (
      arith,
      s.one_running b,
      ap (running_on f b) es,
      count-append (running_at f b) db.experiments row,
      ap (λ t. bit ((row.block_id == b) && text_eq t running_status)) draft,
      bit-false f (row.block_id == b),
    );
    settled = λ x. omega (
      arith,
      s.settled x,
      ap (decided_of f x) ds,
      ap (rows_of f x) es,
      ap (open_of f x) es,
      count-append (λ (r : ExperimentRow f). r.id == x) db.experiments row,
      count-append (is_open f x) db.experiments row,
      ap (λ t. bit ((row.id == x) && (text_eq t draft_status || text_eq t running_status))) draft,
      bit-true (row.id == x),
    );
  }

  pub create_experiment-IsSound :
      (new_v4 : ℕ → Uuid) (now : ℤ) (document_id block_id : Uuid) (new : NewExperiment f)
      (db : Db f)
      → IsSound f db
      → IsSound f (create_experiment f new_v4 now document_id block_id new db).1
  unfolding create_experiment
  create_experiment-IsSound new_v4 now document_id block_id new db s =
      elim (Option-cases
        (find (λ (b : BlockRow). (b.id == block_id) && (b.document_id == document_id)) db.blocks)) [
          | inl e ↦ rw (e, create_experiment) s
          | inr (block, e) ↦
              elim (Option-cases
                (insert_all f new_v4 now document_id block_id block.current_version_id new db)) [
                  | inl g ↦ rw (e, create_experiment, g) s
                  | inr ((rows, after), g) ↦
                      rw (e, create_experiment, g)
                        (let (fresh, has) =
                            insert_all-some new_v4 now document_id block_id block.current_version_id
                              new db after rows g in
                          drafted-IsSound db after _ s fresh refl has)
                ]
        ]
