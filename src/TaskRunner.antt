-- ===== src/TaskRunner.antt =====
-- pkg/taskrunner/taskrunner.go. A task is a thread of atomic calls on the world that the tasks share; goroutines are
-- run by a schedule, a list of numbers that says which thread takes the next call. Whatever the schedule leaves over is
-- run task by task, so a schedule stands for every order in which Go can run the goroutines, and the run always ends.
-- The channel holds the results in the order in which they were sent.
pub mod Outcome
pub mod Schedules
pub mod Success
use gardener_extension_provi.Common.{
  ℕ, zero, suc, String, Option, none, some, List, [], ◌∷◌, ◌++◌, is_empty, insert, if◌then◌else◌,
}
use gardener_extension_provi.Failure.{Error, flat, joined, Result, ok, err}
use gardener_extension_provi.Action.{Action, done, step, Exec, and_then}

pub record TaskResult (V : Type 0) : Type 0 where
  pub task_name : String
  pub outcome : Result V

pub record Task (W V : Type 0) : Type 0 where
  pub name : String
  pub fn : Exec W V

-- sends the result of a goroutine that has ended
abbrev pub send : {V : Type 0} → List (TaskResult V) → String → Result V → List (TaskResult V)
send channel name r = channel ++ record { task_name = name; outcome = r } ∷ []

abbrev pub add_error : Error → Option Error → Option Error
add_error e none = some (flat "" e)
add_error e (some rest) = some (joined (flat "" e) rest)

-- `if len(allErrors) > 0 { return …, errors.DetermineError(err) }`
abbrev pub final_error : (Option Error → Option Error) → Option Error → Option Error
final_error determine none = none
final_error determine (some e) = determine (some e)

-- the Runner's tasks; NewRunner has none
module _ {W V : Type 0} where
  unfoldable pub add_task : List (Task W V) → String → Exec W V → List (Task W V)
  add_task tasks name fn = tasks ++ record { name = name; fn = fn } ∷ []

  -- brings the k-th thread to the front
  unfoldable pub rotate : ℕ → List (Task W V) → List (Task W V)
  rotate zero ts = ts
  rotate (suc k) [] = []
  rotate (suc k) (t ∷ ts) = rotate k (ts ++ t ∷ [])

  unfoldable pub sequential : List (Task W V) → List (TaskResult V) → Action W (List (TaskResult V))
  unfolding and_then
  sequential [] channel = done channel
  sequential (t ∷ ts) channel = and_then t.fn (λ r. sequential ts (send channel t.name r))

  -- one turn of the thread at the front: it sends its result, or makes its next call; `go` runs what is left
  unfoldable pub advance_task :
      (List (Task W V) → List (TaskResult V) → Action W (List (TaskResult V)))
      → String
      → Exec W V
      → List (Task W V)
      → List (TaskResult V)
      → Action W (List (TaskResult V))
  advance_task go name (done r) rest channel = go rest (send channel name r)
  advance_task go name (step act next) rest channel =
      step act (λ w. go (record { name = name; fn = next w } ∷ rest) channel)

  unfoldable pub advance :
      (List (Task W V) → List (TaskResult V) → Action W (List (TaskResult V)))
      → List (Task W V)
      → List (TaskResult V)
      → Action W (List (TaskResult V))
  unfolding advance_task
  advance go [] channel = done channel
  advance go (t ∷ rest) channel = advance_task go t.name t.fn rest channel

  unfoldable pub interleave :
      List ℕ → List (Task W V) → List (TaskResult V) → Action W (List (TaskResult V))
  unfolding sequential rotate advance
  interleave [] ts channel = sequential ts channel
  interleave (k ∷ ks) ts channel = advance (interleave ks) (rotate k ts) channel

module _ {V : Type 0} where
  -- strings.Join(allErrors, ", "); `none` where no task failed
  unfoldable pub all_errors : List (TaskResult V) → Option Error
  all_errors [] = none
  all_errors (r ∷ rs) = elim r.outcome [
    | ok v ↦ all_errors rs
    | err e ↦ add_error e (all_errors rs)
  ]

  -- the loop over the channel that fills successResults
  unfoldable pub success_results : List (TaskResult V) → List (String × V) → List (String × V)
  success_results [] m = m
  success_results (r ∷ rs) m = elim r.outcome [
    | ok v ↦ success_results rs (insert r.task_name v m)
    | err e ↦ success_results rs m
  ]

  -- `determine` is errors.DetermineError
  unfoldable pub collect :
      (Option Error → Option Error) → List (TaskResult V) → List (String × V) × Option Error
  unfolding all_errors success_results
  collect determine channel =
      (success_results channel [], final_error determine (all_errors channel))

module _ {W V : Type 0} (determine : Option Error → Option Error) where
  unfoldable pub run_tasks : List ℕ → List (Task W V) → Action W (List (String × V) × Option Error)
  unfolding interleave and_then collect
  run_tasks schedule tasks =
      if is_empty tasks
      then done ([], none)
      else and_then (interleave schedule tasks []) (λ channel. done (collect determine channel))
