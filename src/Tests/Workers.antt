-- ===== src/Tests/Workers.antt =====
-- The theorems on the connection and on jobs at concrete inputs.
use bored_manager.Base.{
  ℕ, suc, ◌≡◌, ◌⊎◌, refl, none, some, true, false, List, [], ◌∷◌, ◌++◌, zero, or_else, arith,
  nat_key,
}
use bored_manager.Connection.{ConnectionConfig, Capability, ssh_mode, passwordless}
use bored_manager.Connection.Step.{
  Event, connects, builds, probes, disconnects, run, step, created, connect, built,
  is_current_attempt, build_refused,
}
use bored_manager.Connection.Ownership.{held, creations, executors_accounted}
use bored_manager.Connection.Final.{disconnect_is_final}
use bored_manager.Connection.Stale.{served, overtaken_attempt_serves_nothing}
use bored_manager.Jobs.{Job, JobSpec, new_job, trim_finished_job, persist, lost, saved}
use bored_manager.Jobs.History.{Holds, persist-remembers}
use bored_manager.Jobs.Trimmed.{Trims, trim_finished_job-Trims}
use bored_manager.Jobs.Runner.{Turn, Ending, resolved, threw, walk, run_job}
use bored_manager.Jobs.Runner.Finished.{
  IsFinished, StopsAtFailure, run_job-IsFinished, failure_stops_job,
}

-- connection.ts: a second attempt overtakes the first, whose executor is then disposed of
abbrev cfg : ConnectionConfig
cfg = record {
  mode = ssh_mode;
  label = none;
  host = some "nas";
  username = some "root";
  sudo_password = none;
}

abbrev found : Capability
found = record { sudo_state = passwordless; sudo_password_rejected = false; warning = none }

abbrev overtaken : List Event
overtaken =
    probes 2 (some found) []
    ∷ builds 2 (some 8)
    ∷ builds 1 (some 7)
    ∷ connects cfg
    ∷ connects cfg
    ∷ []

executors_accounted_example : held 7 (run false overtaken) ≡ creations false 7 overtaken
unfolding run step created connect built is_current_attempt build_refused
executors_accounted_example = executors_accounted false overtaken 7 (λ y. ground arith)

disconnect_is_final_example :
    (run false (
      (probes 1 (some found) [] ∷ [])
      ++ disconnects ∷ builds 1 (some 7) ∷ connects cfg ∷ [])).executor
    ≡ none
disconnect_is_final_example =
    disconnect_is_final false (builds 1 (some 7) ∷ connects cfg ∷ [])
      (probes 1 (some found) [] ∷ []) (refl, tt)

overtaken_attempt_serves_nothing_example :
    let m = run false (connects cfg ∷ disconnects ∷ builds 1 (some 7) ∷ connects cfg ∷ []) in
    served (step false (probes 1 (some found) []) m) ≡ served m
unfolding run step connect built is_current_attempt
overtaken_attempt_serves_nothing_example =
    overtaken_attempt_serves_nothing false (builds 1 (some 7) ∷ connects cfg ∷ [])
      (connects cfg ∷ []) disconnects (probes 1 (some found) []) 1 refl (omega arith) refl

-- jobs.ts: three items, of which the second fails
abbrev spec : JobSpec
spec = record {
  kind = "import";
  label = "Import";
  names = "a" ∷ "b" ∷ "c" ∷ [];
  abort_on_error = true;
}

abbrev job : Job
job = new_job "job_1" 10 spec

abbrev good_turn : Turn
good_turn = record {
  current_before = true;
  cancelled_before = false;
  emit_fails_before = false;
  result = resolved none;
  current_after = true;
  cancelled_after = false;
  emit_fails_after = false;
  started_at = 1;
  ended_at = 3;
}

abbrev turns : ℕ → Turn
turns (suc zero) = record good_turn { result = threw "no answer" }
turns _ = good_turn

abbrev ending : Ending
ending = record {
  current_in_handler = true;
  current_at_end = true;
  was_cancelled = false;
  now = 20;
}

abbrev ended : Job
ended = or_else (run_job turns true ending job) job

run_job-IsFinished_example : IsFinished false job ended
unfolding run_job new_job
run_job-IsFinished_example =
    run_job-IsFinished turns true ending job ended ((refl, (refl, (refl, tt))), refl, refl) refl

failure_stops_job_example : StopsAtFailure (walk turns true false 0 job.items).items
unfolding new_job
failure_stops_job_example = failure_stops_job turns job ((refl, (refl, (refl, tt))), refl, refl)

trim_finished_job-Trims_example : Trims job.items (trim_finished_job job).items
trim_finished_job-Trims_example = trim_finished_job-Trims job

persist-remembers_example :
    ((lost ≡ lost) × (saved ≡ lost) × (persist lost saved job [] ≡ []))
    ⊎ Holds lost job [] (persist lost saved job [])
unfolding new_job
persist-remembers_example = persist-remembers lost saved job []
