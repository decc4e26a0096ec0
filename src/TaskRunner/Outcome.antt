-- ===== src/TaskRunner/Outcome.antt =====
-- What the runner makes of the results in the channel.
use gardener_extension_provi.Common.{
  String, ◌≡◌, ◌≢◌, refl, sym, ap, ◌∙◌, ◌↔◌, Option, none, some, List, [], ◌∷◌, All, arith, lookup,
  insert, lookup-insert, ◌==◌, ◌⊎◌, inl, inr, Bool, true, false, if◌then◌else◌,
}
use gardener_extension_provi.Failure.{Error, Result, ok, err, requeue_delay}
use gardener_extension_provi.TaskRunner.{
  TaskResult, add_error, all_errors, success_results, final_error, collect,
}

abbrev pub IsOk : {V : Type 0} → Result V → Type 0
IsOk (ok v) = Unit
IsOk (err e) = ⊥

add_error-ne-none : (e : Error) (o : Option Error) → add_error e o ≢ none
add_error-ne-none e none = cc
add_error-ne-none e (some f) = cc

add_error-requeue :
    (e : Error) (o : Option Error) (f : Error) → add_error e o ≡ some f → requeue_delay f ≡ none
unfolding requeue_delay
add_error-requeue e none f h = ground arith
add_error-requeue e (some g) f h = ground arith

module _ {V : Type 0} where
  abbrev pub or_else : Option V → Option V → Option V
  or_else none p = p
  or_else (some v) p = some v

  abbrev pub value_of : Result V → Option V
  value_of (ok v) = some v
  value_of (err e) = none

  or_else-if :
      (o : Option V) (b : Bool) (v : V) (p : Option V)
      → or_else o (if b then some v else p) ≡ or_else (or_else o (if b then some v else none)) p
  or_else-if none true v p = refl
  or_else-if none false v p = refl
  or_else-if (some w) b v p = refl

  or_else-nothing :
      (o : Option V) (b : Bool) (p : Option V)
      → or_else o p ≡ or_else (or_else o (if b then none else none)) p
  or_else-nothing none true p = refl
  or_else-nothing none false p = refl
  or_else-nothing (some w) b p = refl

  abbrev pub AllOk : List (TaskResult V) → Type 0
  AllOk = All (λ r. IsOk r.outcome)

  -- the step of the loop, by the outcome of the first result
  all_errors-ok :
      (r : TaskResult V) (rs : List (TaskResult V)) (v : V)
      → r.outcome ≡ ok v
      → all_errors (r ∷ rs) ≡ all_errors rs
  unfolding all_errors
  all_errors-ok r rs v e = rw e

  all_errors-err :
      (r : TaskResult V) (rs : List (TaskResult V)) (e : Error)
      → r.outcome ≡ err e
      → all_errors (r ∷ rs) ≡ add_error e (all_errors rs)
  unfolding all_errors
  all_errors-err r rs e h = rw h

  Result-cases : (r : Result V) → ((v : V) × (r ≡ ok v)) ⊎ ((e : Error) × (r ≡ err e))
  Result-cases (ok v) = inl (v, refl)
  Result-cases (err e) = inr (e, refl)

  all_errors-none : (ch : List (TaskResult V)) → all_errors ch ≡ none → AllOk ch
  all_errors-none [] h = tt
  all_errors-none (r ∷ rs) h = elim (Result-cases r.outcome) [
    | inl (v, e) ↦ (rw e tt, all_errors-none rs (sym (all_errors-ok r rs v e) ∙ h))
    | inr (e, q) ↦ absurd (add_error-ne-none e (all_errors rs) (sym (all_errors-err r rs e q) ∙ h))
  ]

  none-all_errors : (ch : List (TaskResult V)) → AllOk ch → all_errors ch ≡ none
  unfolding all_errors
  none-all_errors [] h = refl
  none-all_errors (r ∷ rs) (x, h) = elim (Result-cases r.outcome) [
    | inl (v, e) ↦ all_errors-ok r rs v e ∙ none-all_errors rs h
    | inr (e, q) ↦ absurd (rw q at x)
  ]

  -- no error of the runner's own making asks to be put off
  all_errors-requeue :
      (ch : List (TaskResult V)) (e : Error) → all_errors ch ≡ some e → requeue_delay e ≡ none
  unfolding all_errors requeue_delay
  all_errors-requeue [] e h = cc
  all_errors-requeue (r ∷ rs) e h = elim (Result-cases r.outcome) [
    | inl (v, q) ↦ all_errors-requeue rs e (sym (all_errors-ok r rs v q) ∙ h)
    | inr (f, q) ↦ add_error-requeue f (all_errors rs) e (sym (all_errors-err r rs f q) ∙ h)
  ]

  -- The value that the last successful task of a name returned.
  unfoldable pub last_success : String → List (TaskResult V) → Option V
  last_success name [] = none
  last_success name (r ∷ rs) =
      or_else (last_success name rs) (if r.task_name == name then value_of r.outcome else none)

  lookup-success_results :
      (name : String) (ch : List (TaskResult V)) (m : List (String × V))
      → lookup name (success_results ch m) ≡ or_else (last_success name ch) (lookup name m)
  unfolding success_results last_success
  lookup-success_results name [] m = refl
  lookup-success_results name (r ∷ rs) m = elim (Result-cases r.outcome) [
    | inl (v, q) ↦ rw q (
        lookup-success_results name rs (insert r.task_name v m)
        ∙ rw lookup-insert
            (or_else-if (last_success name rs) (r.task_name == name) v (lookup name m)))
    | inr (e, q) ↦ rw q (
        lookup-success_results name rs m
        ∙ or_else-nothing (last_success name rs) (r.task_name == name) (lookup name m))
  ]

module _ {V : Type 0} (determine : Option Error → Option Error) (ch : List (TaskResult V)) where
  -- The runner reports an error exactly when some task failed, if DetermineError makes errors of errors. A task's name
  -- is bound to the value of its last successful result, and to nothing if it has none.
  pub collect_exact :
      ((e : Error) → determine (some e) ≢ none)
      → (((collect determine ch).1 ≡ none) ↔ AllOk ch)
        × ((name : String) → lookup name (collect determine ch).0 ≡ last_success name ch)
  unfolding collect
  collect_exact keeps = (
    (
      λ h. all_errors-none ch (no_error (all_errors ch) h),
      λ h. ap (final_error determine) (none-all_errors ch h),
    ),
    λ name. lookup-success_results name ch [] ∙ or_else_none (last_success name ch),
  )
    where
      no_error : (o : Option Error) → final_error determine o ≡ none → o ≡ none
      no_error none h = refl
      no_error (some e) h = absurd (keeps e h)

      or_else_none : (o : Option V) → or_else o none ≡ o
      or_else_none none = refl
      or_else_none (some v) = refl

  -- Whatever delay a task asked for, the error of the runner asks for none, if DetermineError adds none.
  pub collect_forgets_delay :
      (e : Error)
      → ((e f : Error)
          → determine (some e) ≡ some f
          → requeue_delay e ≡ none
          → requeue_delay f ≡ none)
      → (collect determine ch).1 ≡ some e
      → requeue_delay e ≡ none
  unfolding collect
  collect_forgets_delay e adds_none h = from (all_errors ch) refl h
    where
      from :
          (o : Option Error)
          → all_errors ch ≡ o
          → final_error determine o ≡ some e
          → requeue_delay e ≡ none
      from none q h = cc
      from (some f) q h = adds_none f e h (all_errors-requeue ch f q)
