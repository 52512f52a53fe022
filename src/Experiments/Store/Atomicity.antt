-- ===== src/Experiments/Store/Atomicity.antt =====
-- A conclusion takes effect as a whole or not at all.
use forgepost.Prelude.{
  ℤ, ◌≡◌, refl, sym, Bool, true, false, Option, some, some-inj, List, [], ◌∷◌, ◌==◌, if◌then◌else◌,
  find, find-true, any, Bool-cases, Option-cases, inl, inr,
}
use forgepost.Text.{Text}
use forgepost.Content.{Uuid}
use forgepost.Float.{Float}
use forgepost.Experiments.Record.{ExperimentDecision}
use forgepost.Experiments.Tables.{
  BlockRow, Result, RepositoryError, ok, err, ExperimentRow, Db, running_with, update,
}
use forgepost.Experiments.Store.{promote_block_version, conclude_experiment}

chosen :
    {A : Type 0} (b : Bool) (y z : A) (o : Option A)
    → b ≡ true
    → (if b then some y else o) ≡ some z
    → y ≡ z
chosen true y z o e h = some-inj h
chosen false y z o e h = cc

find-update :
    {A : Type 0} (p : A → Bool) (g : A → A) (xs : List A) (r : A)
    → find p xs ≡ some r
    → p (g r) ≡ true
    → find p (update p g xs) ≡ some (g r)
unfolding update
find-update p g [] r h t = cc
find-update p g (x ∷ xs) r h t = elim (Bool-cases (p x)) [
  | inl hit ↦
      let same : x ≡ r = chosen (p x) x r (find p xs) hit h in
      rw (hit, update) (rw same (rw t refl))
  | inr miss ↦ rw (miss, update) (rw miss (find-update p g xs r (rw miss at h) t))
]

module _ (f : Float) where
  -- What a conclusion with a promoted version has done.
  abbrev pub Promoted : ℤ → Uuid → Uuid → Db f → Db f → Type 0
  Promoted now id version db after =
      (row : ExperimentRow f) × (find (running_with f id) db.experiments ≡ some row)
      × ((b : BlockRow)
          → find (λ (c : BlockRow). c.id == row.block_id) db.blocks ≡ some b
          → find (λ (c : BlockRow). c.id == row.block_id) after.blocks
            ≡ some (record b { current_version_id = version; updated_at_ms = now }))

promote_block_version-find :
    (f : Float) (now : ℤ) (block_id version : Uuid) (blocks : List BlockRow) (b : BlockRow)
    → find (λ (c : BlockRow). c.id == block_id) blocks ≡ some b
    → find
        (λ (c : BlockRow). c.id == block_id)
        (promote_block_version f now block_id version blocks)
      ≡ some (record b { current_version_id = version; updated_at_ms = now })
unfolding promote_block_version
promote_block_version-find f now block_id version blocks b e =
    find-update (λ (c : BlockRow). c.id == block_id)
      (λ (c : BlockRow). record c { current_version_id = version; updated_at_ms = now }) blocks b e
      (find-true (λ (c : BlockRow). c.id == block_id) blocks b e)

-- A conclusion that fails leaves the database as it was; one that succeeds, with a version to
-- promote, has found the experiment running, and its block now points at the version.
pub conclude_experiment-atomic :
    (f : Float) (now : ℤ) (id : Uuid) (decision : Text) (winner : Option Uuid) (version : Uuid)
    (stats : ExperimentDecision f) (db : Db f)
    → let (r, after) = conclude_experiment f now id decision winner (some version) stats db in
      ((c : RepositoryError) → r ≡ err c → after ≡ db)
      × (r ≡ ok tt → Promoted f now id version db after)
unfolding conclude_experiment
conclude_experiment-atomic f now id decision winner version stats db =
    elim (Bool-cases (any (λ (r : ExperimentRow f). r.id == id) db.experiments)) [
      | inr absent ↦ rw (absent, conclude_experiment) (λ c h. refl, λ h. absurd (err-ne-ok h))
      | inl there ↦
          elim (Bool-cases (any (λ (d : ExperimentDecision f). d.id == stats.id) db.decisions)) [
            | inl taken ↦
                rw (there, conclude_experiment, taken) (λ c h. refl, λ h. absurd (err-ne-ok h))
            | inr fresh ↦ elim (Option-cases (find (running_with f id) db.experiments)) [
              | inl g ↦
                  rw (there, conclude_experiment, fresh, g) (λ c h. refl, λ h. absurd (err-ne-ok h))
              | inr (row, g) ↦
                  rw (there, conclude_experiment, fresh, g)
                    (
                      λ c h. absurd (err-ne-ok (sym h)),
                      λ h. (
                        row,
                        refl,
                        λ b e. promote_block_version-find f now row.block_id version db.blocks b e,
                      ),
                    )
            ]
          ]
    ]
  where
    err-ne-ok : {c : RepositoryError} → ¬ (◌≡◌ {A = Result Unit} (err c) (ok tt))
    err-ne-ok h = cc
