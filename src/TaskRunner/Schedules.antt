-- ===== src/TaskRunner/Schedules.antt =====
-- What holds of a run of the tasks under every schedule.
use mathlib.Core.List.{
  map, map-append, append_assoc, append-nil, Perm, perm_append_comm, perm-append_left_iff,
}
use mathlib.Core.List.Perm
use gardener_extension_provi.Common.{ℕ, zero, suc, String, ◌≡◌, List, [], ◌∷◌, ◌++◌, All}
use gardener_extension_provi.Failure.{Result}
use gardener_extension_provi.Action.{Action, done, step, Exec, run}
use gardener_extension_provi.Action.Laws.{run-and_then}
use gardener_extension_provi.Action.Ensures.{Ensures, returns, calls, Ensures-run}
use gardener_extension_provi.TaskRunner.{
  TaskResult, Task, rotate, send, sequential, advance_task, advance, interleave,
}

module _ {V : Type 0} where
  abbrev pub result_names : List (TaskResult V) → List String
  result_names = map (λ r. r.task_name)

  names-send :
      (ch : List (TaskResult V)) (name : String) (r : Result V) (rest : List String)
      → result_names (send ch name r) ++ rest ≡ result_names ch ++ (name ∷ rest)
  names-send ch name r rest = simp (map-append, append_assoc)

module _ {W V : Type 0} where
  abbrev pub task_names : List (Task W V) → List String
  task_names = map (λ t. t.name)

  Perm-rotate : (k : ℕ) (ts : List (Task W V)) → Perm (rotate k ts) ts
  unfolding rotate
  Perm-rotate zero ts = Perm.refl ts
  Perm-rotate (suc k) [] = Perm.refl []
  Perm-rotate (suc k) (t ∷ ts) =
      Perm.trans (Perm-rotate k (ts ++ t ∷ [])) (perm_append_comm ts (t ∷ []))

  -- what a runner of threads does with the channel
  abbrev Reports : (List (Task W V) → List (TaskResult V) → Action W (List (TaskResult V))) → Type 0
  Reports go =
      (ts : List (Task W V)) (ch : List (TaskResult V)) (w : W)
      → Perm (result_names (run (go ts ch) w).0) (result_names ch ++ task_names ts)

  sequential-Reports : Reports sequential
  unfolding sequential run
  sequential-Reports [] ch w = rw append-nil (Perm.refl _)
  sequential-Reports (t ∷ ts) ch w = rw run-and_then (
      rw (← names-send ch t.name (run t.fn w).0 (task_names ts))
        (sequential-Reports ts (send ch t.name (run t.fn w).0) (run t.fn w).1))

  module _ (go : List (Task W V) → List (TaskResult V) → Action W (List (TaskResult V)))
      (reports : Reports go) where
    advance_task-Reports :
        (name : String) (fn : Exec W V) (rest : List (Task W V)) (ch : List (TaskResult V)) (w : W)
        → Perm
            (result_names (run (advance_task go name fn rest ch) w).0)
            (result_names ch ++ name ∷ task_names rest)
    unfolding advance_task run
    advance_task-Reports name (done r) rest ch w =
        rw (← names-send ch name r (task_names rest)) (reports rest (send ch name r) w)
    advance_task-Reports name (step act next) rest ch w =
        reports (record { name = name; fn = next w } ∷ rest) ch (act w)

    advance-Reports : Reports (advance go)
    unfolding advance run
    advance-Reports [] ch w = rw append-nil (Perm.refl _)
    advance-Reports (t ∷ rest) ch w = advance_task-Reports t.name t.fn rest ch w

  -- Whatever the schedule, each task reports exactly once: the names in the channel are those of the tasks, in some
  -- order.
  interleave-Reports : (schedule : List ℕ) → Reports (interleave schedule)
  unfolding interleave
  interleave-Reports [] ts ch w = sequential-Reports ts ch w
  interleave-Reports (k ∷ ks) ts ch w =
      Perm.trans (advance-Reports (interleave ks) (interleave-Reports ks) (rotate k ts) ch w)
        ((perm-append_left_iff (result_names ch)).1 (Perm.map (λ t. t.name) (Perm-rotate k ts)))

  -- `Q name` is what the task of that name returns
  module _ (P : W → Type 0) (Q : String → Result V → Type 0) where
    abbrev pub TasksEnsure : List (Task W V) → Type 0
    TasksEnsure = All (λ t. Ensures P (Q t.name) t.fn)

    abbrev pub Meets : List (TaskResult V) → Type 0
    Meets = All (λ r. Q r.task_name r.outcome)

    TasksEnsure-snoc :
        (ts : List (Task W V)) (t : Task W V)
        → TasksEnsure ts
        → Ensures P (Q t.name) t.fn
        → TasksEnsure (ts ++ t ∷ [])
    TasksEnsure-snoc [] t h k = (k, tt)
    TasksEnsure-snoc (u ∷ ts) t (x, h) k = (x, TasksEnsure-snoc ts t h k)

    Meets-send :
        (ch : List (TaskResult V)) (name : String) (r : Result V)
        → Meets ch
        → Q name r
        → Meets (send ch name r)
    Meets-send [] name r h q = (q, tt)
    Meets-send (c ∷ ch) name r (x, h) q = (x, Meets-send ch name r h q)

    TasksEnsure-rotate : (k : ℕ) (ts : List (Task W V)) → TasksEnsure ts → TasksEnsure (rotate k ts)
    unfolding rotate
    TasksEnsure-rotate zero ts h = h
    TasksEnsure-rotate (suc k) [] h = h
    TasksEnsure-rotate (suc k) (t ∷ ts) (x, h) =
        TasksEnsure-rotate k (ts ++ t ∷ []) (TasksEnsure-snoc ts t h x)

    abbrev Preserves :
        (List (Task W V) → List (TaskResult V) → Action W (List (TaskResult V))) → Type 0
    Preserves go =
        (ts : List (Task W V)) (ch : List (TaskResult V)) (w : W)
        → TasksEnsure ts
        → Meets ch
        → P w
        → P (run (go ts ch) w).1 × Meets (run (go ts ch) w).0

    sequential-Preserves : Preserves sequential
    unfolding sequential run
    sequential-Preserves [] ch w h c p = (p, c)
    sequential-Preserves (t ∷ ts) ch w (k, h) c p =
        let (p', q) = Ensures-run t.fn w k p in
        rw run-and_then (
          sequential-Preserves ts (send ch t.name (run t.fn w).0) (run t.fn w).1 h
            (Meets-send ch _ _ c q) p')

    module _ (go : List (Task W V) → List (TaskResult V) → Action W (List (TaskResult V)))
        (preserves : Preserves go) where
      advance_task-Preserves :
          (name : String) (fn : Exec W V) (rest : List (Task W V)) (ch : List (TaskResult V))
          (w : W)
          → Ensures P (Q name) fn
          → TasksEnsure rest
          → Meets ch
          → P w
          → P (run (advance_task go name fn rest ch) w).1
            × Meets (run (advance_task go name fn rest ch) w).0
      unfolding advance_task run
      advance_task-Preserves name (done r) rest ch w (returns q) h c p =
          preserves rest (send ch name r) w h (Meets-send ch name r c q) p
      advance_task-Preserves name (step act next) rest ch w (calls k r) h c p =
          preserves (record { name = name; fn = next w } ∷ rest) ch (act w) (r w p, h) c (k w p)

      advance-Preserves : Preserves (advance go)
      unfolding advance run
      advance-Preserves [] ch w h c p = (p, c)
      advance-Preserves (t ∷ rest) ch w (k, h) c p =
          advance_task-Preserves t.name t.fn rest ch w k h c p

    interleave-Preserves : (schedule : List ℕ) → Preserves (interleave schedule)
    unfolding interleave
    interleave-Preserves [] ts ch w h c p = sequential-Preserves ts ch w h c p
    interleave-Preserves (k ∷ ks) ts ch w h c p =
        advance-Preserves (interleave ks) (interleave-Preserves ks) (rotate k ts) ch w
          (TasksEnsure-rotate k ts h) c p

module _ {W V : Type 0} (schedule : List ℕ) (tasks : List (Task W V)) (w : W) where
  -- Whatever the schedule, every task reports exactly once: the names in the channel are those of the tasks in some
  -- order.
  pub every_task_reports_once :
      Perm (result_names (run (interleave schedule tasks []) w).0) (task_names tasks)
  every_task_reports_once = interleave-Reports schedule tasks [] w

  -- The rule for tasks that run at the same time. If each call of each task keeps `P`, and each task returns what `Q`
  -- says for its name as long as `P` holds whenever it makes a call, then under every schedule `P` holds at the end and
  -- every result in the channel is as `Q` says.
  pub interleaving_rule :
      (P : W → Type 0) (Q : String → Result V → Type 0)
      → TasksEnsure P Q tasks
      → P w
      → P (run (interleave schedule tasks []) w).1
        × Meets P Q (run (interleave schedule tasks []) w).0
  interleaving_rule P Q h p = interleave-Preserves P Q schedule tasks [] w h tt p
