-- ===== src/Infrastructure/Actuator/Foreign.antt =====
-- Reconciling a shoot whose root subnet belongs to another shoot, with the tasks running at the same time.
pub mod Zones
pub mod Root
use mathlib.Core.List.{Mem, Perm, map, mem-cons, not-mem-nil}
use mathlib.Core.List.Perm
use mathlib.Core.Logic.Or
use mathlib.Core.Bool.{false≢true}
use gardener_extension_provi.Infrastructure.Actuator.Foreign.Zones.{
  LeavesGlobal, Keeps-create_zones, Keeps-delete_zones,
}
use gardener_extension_provi.Infrastructure.Actuator.Foreign.Root.{
  IsErr, stops_at, HasRoot, subnets_fail,
}
use gardener_extension_provi.Infrastructure.Host.{
  FlowState, new_flow_state, Cluster, Host, TaskValue, zone_subnets, egress_cidrs, nothing,
}
use gardener_extension_provi.Common.{
  ℕ, String, ◌≡◌, ◌≢◌, refl, sym, ap, ◌∙◌, Bool, true, false, Option, none, some, List, [], ◌∷◌,
  lookup, Option-cases, inl, inr, All, ◌==◌, eq_iff, is_empty,
}
use gardener_extension_provi.Failure.{Error, Result, ok, err}
use gardener_extension_provi.Action.{
  Exec, done, run, pure, fail, go_on, ◌>>=◌, attempt, or_wrap, on_error, and_then,
}
use gardener_extension_provi.Action.Laws.{run-and_then, run-bind_err}
use gardener_extension_provi.Action.Ensures.{
  Ensures, returns, Ensures-weaken, Anything, Keeps, Ensures-bind, Ensures-call, Ensures-and_then,
  Keeps-bind, Keeps-and_then, Keeps-pure, Keeps-or_wrap, Keeps-call, keeps_rules,
}
use gardener_extension_provi.Apis.{Zone, InfrastructureConfig}
use gardener_extension_provi.Secret.{ServiceAccount}
use gardener_extension_provi.Kube.{Subnet, Gateway, ObjectClient, do_get, do_delete}
use gardener_extension_provi.TaskRunner.{TaskResult, Task, add_task, run_tasks, interleave, collect}
use gardener_extension_provi.TaskRunner.Outcome.{IsOk, AllOk, collect_exact}
use gardener_extension_provi.TaskRunner.Success.{run-run_tasks}
use gardener_extension_provi.TaskRunner.Schedules.{
  result_names, task_names, Meets, TasksEnsure, every_task_reports_once, interleaving_rule,
}
use gardener_extension_provi.Infrastructure.Actuator.{
  subnets_task, create_egress_task, delete_egress_task, add_egress_task, reconcile_tasks,
  record_results, run_and_record, finished,
}
use gardener_extension_provi.Infrastructure.{
  Infrastructure, KubeClient, Zonal, get_ownership_labels,
}
use gardener_extension_provi.Infrastructure.Ready.{
  subnet_answer, gateway_answer, wait_for_zonal_subnet_ready, wait_for_cloud_nat_gateway_ready,
}
use gardener_extension_provi.Infrastructure.Root.{
  desired_root_subnet, check_owner, update_root, settle_root, ensure_root, ensure_root_at,
  first_zone, reconcile_root_subnet,
}
use gardener_extension_provi.Infrastructure.Root.Ownership.{IsForeign, check_owner_foreign}
use gardener_extension_provi.Infrastructure.Zonal.{create_shoot_vm_subnets}
use gardener_extension_provi.Infrastructure.Egress.{
  client_of, create_egress_with, delete_egress_with, create_zone_egress, create_egress_zones,
  create_egress_on_shoot_vms, delete_zone_egress, delete_egress_zones, delete_egress_on_shoot_vms,
}

-- what a failed run hands on
finished_failed :
    {W : Type 0} (c : List (String × TaskValue) × Option Error) (e : Error) (w : W)
    → c.1 ≡ some e
    → run (finished c) w ≡ (err e, w)
unfolding run
finished_failed (m, none) e w h = cc
finished_failed (m, some f) e w h = cc

-- What the tasks return: the task of the subnets an error.
abbrev NamedErr : String → Result TaskValue → Type 0
NamedErr name r = name ≡ "createShootVMSubnets" → IsErr r

IsErr-ne-IsOk : {V : Type 0} (r : Result V) → IsErr r → IsOk r → ⊥
IsErr-ne-IsOk (ok v) h k = h
IsErr-ne-IsOk (err e) h k = k

some_failed :
    {W : Type 0} (P : W → Type 0) (ch : List (TaskResult TaskValue))
    → Meets P NamedErr ch
    → Mem "createShootVMSubnets" (result_names ch)
    → AllOk ch
    → ⊥
some_failed P [] h m k = not-mem-nil m
some_failed P (r ∷ rs) (x, h) m (y, k) =
    Or.elim (λ a. elim a [ ]) (mem-cons.0 m) (λ e. IsErr-ne-IsOk r.outcome (x (sym e)) y)
      (λ later. some_failed P rs h later k)

module _ {W : Type 0} (host : Host W) (global : KubeClient W) (clients : Zonal W)
    (infra : Infrastructure) (config : InfrastructureConfig) (account : ServiceAccount)
    (cur : Subnet) (foreign : IsForeign infra cur)
    (apart : (zone : String) (k : KubeClient W)
      → lookup zone clients ≡ some k
      → LeavesGlobal (HasRoot global infra account cur) k) where
  abbrev RootKept : W → Type 0
  RootKept = HasRoot global infra account cur

  other_task :
      (name : String) (m : Exec W TaskValue)
      → (name == "createShootVMSubnets") ≡ false
      → Keeps RootKept m
      → Ensures RootKept (NamedErr name) m
  other_task name m other k =
      Ensures-weaken (λ r u e. absurd (false≢true (sym other ∙ (eq_iff name _).1 e))) k

  first_task :
      (seed : String)
      → Ensures RootKept
          (NamedErr "createShootVMSubnets")
          (subnets_task host global clients infra config account seed)
  first_task seed =
      Ensures-weaken (λ r failed e. failed)
        (stops_at (create_shoot_vm_subnets host.determine global clients infra config account seed)
          _ (subnets_fail host.determine global clients infra config account cur foreign seed))

  delete_egress_Keeps : Keeps RootKept (delete_egress_task host global clients infra config account)
  unfolding delete_egress_on_shoot_vms
  delete_egress_Keeps =
      Keeps-bind _ _ (Keeps-delete_zones RootKept clients infra account apart config.networks.zones)
        (λ u. Keeps-pure nothing)

  create_egress_Keeps : Keeps RootKept (create_egress_task host global clients infra config account)
  unfolding create_egress_on_shoot_vms
  create_egress_Keeps =
      Keeps-bind _ _
        (Keeps-create_zones RootKept clients infra account apart config.networks.zones [])
        (λ m. Keeps-pure (egress_cidrs m))

  reconcile-TasksEnsure :
      (seed : String) (o : Option Bool)
      → TasksEnsure RootKept NamedErr (
          add_egress_task host global clients infra config account o (
            add_task [] "createShootVMSubnets"
              (subnets_task host global clients infra config account seed)))
  unfolding add_task
  reconcile-TasksEnsure seed (some true) =
      (first_task seed, (other_task _ _ refl create_egress_Keeps, tt))
  reconcile-TasksEnsure seed (some false) =
      (first_task seed, (other_task _ _ refl delete_egress_Keeps, tt))
  reconcile-TasksEnsure seed none = (first_task seed, (other_task _ _ refl delete_egress_Keeps, tt))

  names_root_task :
      (seed : String) (o : Option Bool)
      → Mem "createShootVMSubnets" (
          task_names (
            add_egress_task host global clients infra config account o (
              add_task [] "createShootVMSubnets"
                (subnets_task host global clients infra config account seed))))
  unfolding add_task
  names_root_task seed (some true) = mem-cons.1 (Or.inl refl)
  names_root_task seed (some false) = mem-cons.1 (Or.inl refl)
  names_root_task seed none = mem-cons.1 (Or.inl refl)

  tasks_not_empty :
      (seed : String) (o : Option Bool)
      → is_empty (
          add_egress_task host global clients infra config account o (
            add_task [] "createShootVMSubnets"
              (subnets_task host global clients infra config account seed)))
        ≡ false
  unfolding add_task
  tasks_not_empty seed (some true) = refl
  tasks_not_empty seed (some false) = refl
  tasks_not_empty seed none = refl

  module _ (keeps : (e : Error) → host.determine (some e) ≢ none) (schedule : List ℕ)
      (seed : String) (w : W) (root : RootKept w) where
    abbrev tasks : List (Task W TaskValue)
    tasks = reconcile_tasks host global clients infra config account seed

    abbrev ended : List (TaskResult TaskValue) × W
    ended = run (interleave schedule tasks []) w

    ended-Meets : RootKept ended.1 × Meets RootKept NamedErr ended.0
    unfolding reconcile_tasks
    ended-Meets =
        interleaving_rule schedule tasks w RootKept NamedErr
          (reconcile-TasksEnsure seed config.enable_egress) root

    ended_failed : (collect host.determine ended.0).1 ≢ none
    unfolding reconcile_tasks
    ended_failed h =
        some_failed RootKept ended.0 ended-Meets.1
          (Perm.subset (Perm.symm (every_task_reports_once schedule tasks w)) _
            (names_root_task seed config.enable_egress))
          ((collect_exact host.determine ended.0 keeps).0.0 h)

    run_tasks_ended :
        run (run_tasks host.determine schedule tasks) w ≡ (collect host.determine ended.0, ended.1)
    unfolding reconcile_tasks
    run_tasks_ended =
        run-run_tasks host.determine schedule tasks w (tasks_not_empty seed config.enable_egress)

    -- A shoot whose root subnet belongs to another shoot: under every interleaving of the two tasks of Reconcile the run
    -- ends with an error, and the root subnet is at the end as it was. Assumed are that zonal calls do not touch the
    -- global subnet and that DetermineError makes errors of errors.
    pub foreign_root_fails_under_every_schedule :
        (e : Error) × (v : W) × (run
            (run_and_record host schedule infra config account seed (global, clients))
            w
          ≡ (err e, v))
        × HasRoot global infra account cur v
    unfolding run_and_record
    foreign_root_fails_under_every_schedule =
        elim (Option-cases (collect host.determine ended.0).1) [
          | inl clear ↦ absurd (ended_failed clear)
          | inr (e, failed) ↦ (
            e,
            ended.1,
            run-bind_err (and_then (run_tasks host.determine schedule tasks) finished)
                (record_results host global clients infra config account) w e ended.1
                (run-and_then (run_tasks host.determine schedule tasks) finished w
                  ∙ ap (λ t. run (finished t.0) t.1) run_tasks_ended
                  ∙ run_finished e failed),
            ended-Meets.0,
          )
        ]
      where
        run_finished :
            (e : Error)
            → (collect host.determine ended.0).1 ≡ some e
            → run (finished (collect host.determine ended.0)) ended.1 ≡ (err e, ended.1)
        run_finished e failed = finished_failed (collect host.determine ended.0) e ended.1 failed
