-- ===== src/Experiments/Store/Tests.antt =====
-- The store on one block: an experiment is created, started, concluded and stopped.
use forgepost.Prelude.{ℕ, pos, ◌+◌, ◌≤◌, ◌≡◌, refl, none, some, [], ◌∷◌}
use forgepost.Text.{codes}
use forgepost.Json.{string}
use forgepost.Content.{Uuid}
use forgepost.Float.Hundredths.{hundredths}
use forgepost.Experiments.Record.{NewExperiment, ExperimentDecision}
use forgepost.Experiments.Tables.{BlockRow, VersionRow, RepositoryError, ok, err, Db}
use forgepost.Experiments.Store.{start_experiment, stop_experiment, conclude_experiment}
use forgepost.Experiments.Store.Create.{create_experiment}
use forgepost.Experiments.Store.Sound.{Run, done, step, create, start, stop, running_on, decided_of}
use forgepost.Experiments.Store.History.{
  new_db, new_db-IsSound, Run-IsSound, Run-one_running_one_decision, conclude_experiment-once,
}
use forgepost.Experiments.Store.Atomicity.{Promoted, conclude_experiment-atomic}

abbrev draw : ℕ → Uuid
draw n = 100 + n

abbrev block : BlockRow
block = record { id = 7; document_id = 5; current_version_id = 1; updated_at_ms = pos 0 }

abbrev first_version : VersionRow
first_version = record { id = 1; block_id = 7; content = string (codes "a"); created_at_ms = pos 0 }

abbrev plan : NewExperiment hundredths
plan = record {
  name = [];
  goal = codes "completion";
  traffic_weight = 5000;
  confidence_threshold = 95;
  min_sample_per_variant = 100;
  no_winner_prob = 5;
  max_duration_ms = pos 1000;
  variants = record { content = string (codes "b"); weight = 5000 } ∷ [];
}

abbrev decision_of : Uuid → ExperimentDecision hundredths
decision_of id = record {
  id = id;
  experiment_id = 100;
  decided_at_ms = pos 30;
  decision = codes "winner";
  winner_variant_id = some 102;
  promoted_version_id = some 103;
  effect_size = none;
  confidence = none;
  control_impressions = none;
  control_conversions = none;
  variant_impressions = none;
  variant_conversions = none;
}

abbrev empty : Db hundredths
empty = new_db hundredths (block ∷ []) (first_version ∷ [])

abbrev created : Db hundredths
created = (create_experiment hundredths draw (pos 10) 5 7 plan empty).1

abbrev running : Db hundredths
running = (start_experiment hundredths (pos 20) 100 created).1

abbrev decided : Db hundredths
decided =
    (conclude_experiment hundredths (pos 30) 100 (codes "winner") (some 102) (some 103)
      (decision_of 900) running).1

abbrev stopped : Db hundredths
stopped = (stop_experiment hundredths (pos 40) 100 decided).1

to_running : Run hundredths empty running
to_running =
    step empty created running (create draw (pos 10) 5 7 plan empty)
      (step created running running (start (pos 20) 100 created) (done running))

conclude_run :
    conclude_experiment hundredths
      (pos 30)
      100
      (codes "winner")
      (some 102)
      (some 103)
      (decision_of 900)
      running
    ≡ (ok tt, decided)
unfolding conclude_experiment start_experiment create_experiment
conclude_run = refl

Run-one_running_one_decision_example :
    ((b : Uuid) → running_on hundredths b running.experiments ≤ 1)
    × ((e : Uuid) → decided_of hundredths e running.decisions ≤ 1)
Run-one_running_one_decision_example =
    Run-one_running_one_decision hundredths (block ∷ []) (first_version ∷ []) running to_running

conclude_experiment-once_example :
    (c : RepositoryError) × (conclude_experiment hundredths
        (pos 50)
        100
        (codes "no_improvement")
        none
        none
        (decision_of 901)
        stopped
      ≡ (err c, stopped))
conclude_experiment-once_example =
    conclude_experiment-once hundredths (pos 30) (pos 50) 100 (codes "winner")
      (codes "no_improvement") (some 102) (some 103) none none (decision_of 900) (decision_of 901)
      running decided stopped
      (Run-IsSound hundredths empty running to_running
        (new_db-IsSound hundredths (block ∷ []) (first_version ∷ [])))
      conclude_run (step decided stopped stopped (stop (pos 40) 100 decided) (done stopped))

conclude_experiment-atomic_example :
    let (r, after) =
      conclude_experiment hundredths
        (pos 30)
        100
        (codes "winner")
        (some 102)
        (some 103)
        (decision_of 900)
        running in
    ((c : RepositoryError) → r ≡ err c → after ≡ running)
    × (r ≡ ok tt → Promoted hundredths (pos 30) 100 103 running after)
conclude_experiment-atomic_example =
    conclude_experiment-atomic hundredths (pos 30) 100 (codes "winner") (some 102) 103
      (decision_of 900) running
