-- ===== src/Infrastructure/Actuator/Recorded.antt =====
-- What a run of Reconcile that goes through has recorded.
use mathlib.Core.List.{Mem}
use mathlib.Core.List.Perm
use gardener_extension_provi.Infrastructure.Host.{
  new_flow_state, Host, TaskValue, zone_subnets, egress_cidrs,
}
use gardener_extension_provi.Infrastructure.Actuator.Promises.{Promised, tasks-Promised}
use gardener_extension_provi.Common.{
  ℕ, String, ◌≡◌, ◌≢◌, refl, sym, ap, ◌∙◌, true, false, Option, none, some, List, [], ◌∷◌, lookup,
  length, is_empty, concat, quoted,
}
use gardener_extension_provi.Failure.{Error, wrap, Result, ok, err}
use gardener_extension_provi.Action.{Exec, run, call, and_then, on_error, or_wrap}
use gardener_extension_provi.Action.Laws.{run-and_then, run-bind_inv, run-or_wrap, run-call}
use gardener_extension_provi.Apis.{Zones, InfrastructureConfig}
use gardener_extension_provi.Secret.{ServiceAccount}
use gardener_extension_provi.TaskRunner.{TaskResult, Task, run_tasks, interleave, collect}
use gardener_extension_provi.TaskRunner.Outcome.{collect_exact}
use gardener_extension_provi.TaskRunner.Schedules.{
  task_names, TasksEnsure, every_task_reports_once, interleaving_rule,
}
use gardener_extension_provi.TaskRunner.Success.{last_success_found, run-run_tasks}
use gardener_extension_provi.Infrastructure.{Infrastructure, KubeClient, Zonal}
use gardener_extension_provi.Infrastructure.Actuator.{
  reconcile_tasks, record_results, update_provider_status, new_status, run_and_record, finished,
  cidr_slice, slice_of, zones_of, cidrs_of,
}
use gardener_extension_provi.Infrastructure.Actuator.Results.{
  Anywhere, zone_names, made_names, length-cidr_slice,
}

finished_ok :
    {W : Type 0} (c : List (String × TaskValue) × Option Error) (m : List (String × TaskValue))
    (w : W)
    → (run (finished c) w).0 ≡ ok m
    → (c.1 ≡ none) × (c.0 ≡ m) × ((run (finished c) w).1 ≡ w)
unfolding run
finished_ok (n, none) m w h = (refl, cc, refl)
finished_ok (n, some e) m w h = absurd (cc (h))

patched_ok :
    {A : Type 0} (f : Error → Error) (r : Result A) (a : A) → on_error f r ≡ ok a → r ≡ ok a
patched_ok f (ok b) a h = h
patched_ok f (err e) a h = absurd (cc (h))

wrapped_call_ok :
    {W A : Type 0} (f : Error → Error) (g : W → Result A × W) (u : W) (a : A)
    → (run (or_wrap f (call g)) u).0 ≡ ok a
    → g u ≡ (ok a, (run (or_wrap f (call g)) u).1)
wrapped_call_ok f g u a h =
    let e = run-or_wrap f (call g) u ∙ ap (λ t. (on_error f t.0, t.1)) (run-call g u) in
    let r = patched_ok f (g u).0 a (sym (ap (λ t. t.0) e) ∙ h) in
    ap (λ r. (r, (g u).1)) r ∙ ap (λ v. (ok a, v)) (sym (ap (λ t. t.1) e))

module _ {W : Type 0} (host : Host W) (global : KubeClient W) (clients : Zonal W)
    (infra : Infrastructure) (config : InfrastructureConfig) (account : ServiceAccount)
    (seed : String) where
  -- the resource with these zones and address ranges in its status
  abbrev pub recorded : List Zones → List String → Infrastructure
  recorded made cidrs = record infra {
    provider_status = some (new_status host global clients infra config account made);
    egress_cidrs = cidrs;
    state = some (host.marshal new_flow_state);
  }

  abbrev update : List Zones → List String → Exec W (Unit {0})
  update made cidrs =
      update_provider_status host infra (new_status host global clients infra config account made)
        (host.marshal new_flow_state) cidrs

  update_patched :
      (made : List Zones) (cidrs : List String) (u : W)
      → (run (update made cidrs) u).0 ≡ ok tt
      → host.patch_status infra (recorded made cidrs) u ≡ (ok tt, (run (update made cidrs) u).1)
  unfolding update_provider_status
  update_patched made cidrs u h =
      wrapped_call_ok
        (wrap (concat ("patch status for infrastructure " ∷ quoted infra.name ∷ ": " ∷ [])))
        (host.patch_status infra (recorded made cidrs)) u tt h

  recorded_with :
      (success : List (String × TaskValue)) (made : List Zones) (m : List (String × String))
      → lookup "createShootVMSubnets" success ≡ some (zone_subnets made)
      → lookup "createEgressOnShootVMs" success ≡ some (egress_cidrs m)
      → record_results host global clients infra config account success
        ≡ update made (cidr_slice made m)
  unfolding record_results
  recorded_with success made m e f =
      ap
        (λ o.
          update (zones_of o)
            (slice_of (zones_of o) (cidrs_of (lookup "createEgressOnShootVMs" success))))
        e
      ∙ ap (λ o. update made (slice_of made (cidrs_of o))) f

  module _ (keeps : (e : Error) → host.determine (some e) ≢ none)
      (egress : config.enable_egress ≡ some true) (schedule : List ℕ) (w : W) where
    abbrev tasks : List (Task W TaskValue)
    tasks = reconcile_tasks host global clients infra config account seed

    abbrev ended : List (TaskResult TaskValue) × W
    ended = run (interleave schedule tasks []) w

    promised :
        TasksEnsure Anywhere (Promised config.networks.zones) tasks
        × Mem "createShootVMSubnets" (task_names tasks)
        × Mem "createEgressOnShootVMs" (task_names tasks)
        × (is_empty tasks ≡ false)
    unfolding reconcile_tasks
    promised =
        tasks-Promised host global clients infra config account seed config.enable_egress egress

    -- the value of a task, found under its name
    value_of_task :
        (name : String)
        → Mem name (task_names tasks)
        → (collect host.determine ended.0).1 ≡ none
        → (v : TaskValue) × (lookup name (collect host.determine ended.0).0 ≡ some v)
          × Promised config.networks.zones name (ok v)
    value_of_task name m clear =
        let exact = collect_exact host.determine ended.0 keeps in
        let met =
          (interleaving_rule schedule tasks w Anywhere (Promised config.networks.zones) promised.0
            tt).1 in
        let reported = Perm.subset (Perm.symm (every_task_reports_once schedule tasks w)) _ m in
        let (v, e, q) =
          last_success_found name {W = W} Anywhere (Promised config.networks.zones) ended.0
            (exact.0.0 clear) met reported in
        (v, exact.1 name ∙ e, q)

    -- A run of Reconcile with egress that goes through, under any schedule of its tasks, has as its last call recorded a
    -- status with the zones of the configuration, in their order, and with one address range for each of them. Assumed
    -- is that DetermineError makes errors of errors.
    pub reconcile_records_each_zone :
        (run (run_and_record host schedule infra config account seed (global, clients)) w).0 ≡ ok tt
        → (made : List Zones) × (cidrs : List String) × (u : W) × (made_names made
            ≡ zone_names config.networks.zones)
          × (length cidrs ≡ length config.networks.zones)
          × (host.patch_status infra (recorded made cidrs) u ≡ (
            ok tt,
            (run (run_and_record host schedule infra config account seed (global, clients)) w).1,
          ))
    unfolding run_and_record
    reconcile_records_each_zone h =
        let first = and_then (run_tasks host.determine schedule tasks) finished in
        let (success, r, e) =
          run-bind_inv first (record_results host global clients infra config account) w tt h in
        let through =
          run-and_then (run_tasks host.determine schedule tasks) finished w
          ∙ ap (λ t. run (finished t.0) t.1)
              (run-run_tasks host.determine schedule tasks w promised.3) in
        let (clear, same, u) =
          finished_ok (collect host.determine ended.0) success ended.1
            (sym (ap (λ t. t.0) through) ∙ r) in
        let (v, found_v, pv) = value_of_task "createShootVMSubnets" promised.1 clear in
        let (x, found_x, px) = value_of_task "createEgressOnShootVMs" promised.2 clear in
        let (made, is_made, names) = pv.0 refl in
        let (m, is_m, bound) = px.1 refl in
        let e₂ =
          e
          ∙ ap (λ a. run a (run first w).1)
              (recorded_with success made m
                (ap (lookup "createShootVMSubnets") (sym same) ∙ found_v ∙ ap some is_made)
                (ap (lookup "createEgressOnShootVMs") (sym same) ∙ found_x ∙ ap some is_m)) in
        (
          made,
          cidr_slice made m,
          (run first w).1,
          names,
          length-cidr_slice made config.networks.zones m names bound,
          update_patched made (cidr_slice made m) (run first w).1 (sym (ap (λ t. t.0) e₂) ∙ h)
              ∙ ap (λ t. (ok tt, t.1)) (sym e₂),
        )
