-- ===== src/Samples/TaskRunner.antt =====
-- Runs of the task runner's theorems on tasks that count.
use mathlib.Core.List.{Perm}
use gardener_extension_provi.Common.{
  ℕ, suc, String, ◌≡◌, ◌≢◌, ◌↔◌, refl, Option, none, some, List, [], ◌∷◌, lookup, arith,
}
use gardener_extension_provi.Failure.{Error, errorf, flat, requeue_after, ok, err, requeue_delay}
use gardener_extension_provi.Action.{Exec, run, call}
use gardener_extension_provi.TaskRunner.{TaskResult, Task, interleave, all_errors, collect}
use gardener_extension_provi.TaskRunner.Outcome.{
  AllOk, last_success, collect_exact, collect_forgets_delay,
}
use gardener_extension_provi.TaskRunner.Schedules.{
  result_names, task_names, every_task_reports_once,
}

-- raises the counter and returns what it was
abbrev tick : Exec ℕ ℕ
tick = call (λ n. (ok n, suc n))

abbrev tasks : List (Task ℕ ℕ)
tasks = record { name = "first"; fn = tick } ∷ record { name = "second"; fn = tick } ∷ []

both_report : Perm (result_names (run (interleave (1 ∷ 0 ∷ []) tasks []) 1).0) (task_names tasks)
both_report = every_task_reports_once (1 ∷ 0 ∷ []) tasks 1

abbrev determine : Option Error → Option Error
determine o = o

-- one task that failed and asked to be put off, and one that returned a value
abbrev channel : List (TaskResult ℕ)
channel =
    record { task_name = "subnets"; outcome = err (requeue_after (errorf "not ready") 5) }
    ∷ record { task_name = "egress"; outcome = ok 7 }
    ∷ []

determine_keeps : (e : Error) → determine (some e) ≢ none
determine_keeps e h = cc

mixed_outcome :
    (((collect determine channel).1 ≡ none) ↔ AllOk channel)
    × ((name : String) → lookup name (collect determine channel).0 ≡ last_success name channel)
mixed_outcome = collect_exact determine channel determine_keeps

determine_adds_none :
    (e f : Error) → determine (some e) ≡ some f → requeue_delay e ≡ none → requeue_delay f ≡ none
determine_adds_none e f h k = ground arith

delay_is_lost : requeue_delay (flat "" (requeue_after (errorf "not ready") 5)) ≡ none
unfolding collect all_errors
delay_is_lost =
    collect_forgets_delay determine channel (flat "" (requeue_after (errorf "not ready") 5))
      determine_adds_none refl
