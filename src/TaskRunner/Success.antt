-- ===== src/TaskRunner/Success.antt =====
-- The value of a task where no task failed.
use mathlib.Core.List.{Mem, mem-cons, not-mem-nil}
use mathlib.Core.Path.{subst}
use mathlib.Core.Logic.Or
use gardener_extension_provi.Common.{
  ℕ, is_empty, String, ◌≡◌, ◌≢◌, refl, sym, ◌∙◌, ◌⊎◌, inl, inr, false, Bool-cases, ◌==◌, eq_iff,
  Option, none, some, Option-cases, List, [], ◌∷◌, if◌then◌else◌,
}
use gardener_extension_provi.Failure.{Error, Result, ok, err}
use gardener_extension_provi.Action.{run, done}
use gardener_extension_provi.Action.Laws.{run-and_then}
use gardener_extension_provi.TaskRunner.{TaskResult, Task, interleave, collect, run_tasks}
use gardener_extension_provi.TaskRunner.Outcome.{IsOk, AllOk, or_else, value_of, last_success}
use gardener_extension_provi.TaskRunner.Schedules.{result_names, Meets}

module _ {V : Type 0} (name : String) where
  abbrev own_value : TaskResult V → Option V
  own_value r = if r.task_name == name then value_of r.outcome else none

  last_success_cons :
      (r : TaskResult V) (rs : List (TaskResult V))
      → last_success name (r ∷ rs) ≡ or_else (last_success name rs) (own_value r)
  unfolding last_success
  last_success_cons r rs = refl

  or_else-none : (o p : Option V) → or_else o p ≡ none → (o ≡ none) × (p ≡ none)
  or_else-none none p h = (refl, h)
  or_else-none (some v) p h = absurd (cc (h))

  or_else-some : (o p : Option V) (v : V) → or_else o p ≡ some v → (o ≡ some v) ⊎ (p ≡ some v)
  or_else-some none p v h = inr h
  or_else-some (some u) p v h = inl h

  value_missing : (r : Result V) → IsOk r → value_of r ≢ none
  value_missing (ok v) h e = cc
  value_missing (err e) h q = h

  value_is : (r : Result V) (v : V) → value_of r ≡ some v → r ≡ ok v
  value_is (ok u) v h = cc
  value_is (err e) v h = absurd (cc (h))

  -- a task that reported has a value, if none failed
  last_success_there :
      (ch : List (TaskResult V))
      → AllOk ch
      → Mem name (result_names ch)
      → last_success name ch ≢ none
  last_success_there [] h m e = not-mem-nil m
  last_success_there (r ∷ rs) (x, h) m e =
      let (later, here) =
        or_else-none (last_success name rs) (own_value r) (sym (last_success_cons r rs) ∙ e) in
      Or.elim (λ a. elim a [ ]) (mem-cons.0 m)
        (λ q. value_missing r.outcome x (rw ((eq_iff r.task_name name).1 (sym q)) at here))
        (λ n. last_success_there rs h n later)

  module _ {W : Type 0} (P : W → Type 0) (Q : String → Result V → Type 0) where
    own_value_meets :
        (r : TaskResult V) (v : V) → Q r.task_name r.outcome → own_value r ≡ some v → Q name (ok v)
    own_value_meets r v q e = elim (Bool-cases (r.task_name == name)) [
      | inl same ↦
          subst (λ n. Q n (ok v)) ((eq_iff r.task_name name).0 same)
            (subst (λ o. Q r.task_name o) (value_is r.outcome v (rw same at e)) q)
      | inr other ↦ absurd (cc (rw other at e))
    ]

    last_success_meets :
        (ch : List (TaskResult V)) (v : V)
        → Meets P Q ch
        → last_success name ch ≡ some v
        → Q name (ok v)
    unfolding last_success
    last_success_meets [] v h e = absurd (cc (e))
    last_success_meets (r ∷ rs) v (x, h) e =
        elim (or_else-some (last_success name rs) (own_value r) v e) [
          | inl later ↦ last_success_meets rs v h later
          | inr here ↦ own_value_meets r v x here
        ]

    -- the value of a task, and that it is as its postcondition says
    pub last_success_found :
        (ch : List (TaskResult V))
        → AllOk ch
        → Meets P Q ch
        → Mem name (result_names ch)
        → (v : V) × (last_success name ch ≡ some v) × Q name (ok v)
    last_success_found ch k h m = elim (Option-cases (last_success name ch)) [
      | inl missing ↦ absurd (last_success_there ch k m missing)
      | inr (v, e) ↦ (v, e, last_success_meets ch v h e)
    ]

-- running the tasks is running them under the schedule, and collecting what they sent
pub run-run_tasks :
    {W V : Type 0} (determine : Option Error → Option Error) (schedule : List ℕ)
    (ts : List (Task W V)) (w : W)
    → is_empty ts ≡ false
    → run (run_tasks determine schedule ts) w ≡ (
      collect determine (run (interleave schedule ts []) w).0,
      (run (interleave schedule ts []) w).1,
    )
unfolding run_tasks run
run-run_tasks determine schedule ts w some_task =
    rw (some_task, run_tasks)
      (run-and_then (interleave schedule ts []) (λ channel. done (collect determine channel)) w)
