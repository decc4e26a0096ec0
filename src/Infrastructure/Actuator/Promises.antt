-- ===== src/Infrastructure/Actuator/Promises.antt =====
-- What the two tasks of Reconcile with egress promise.
use mathlib.Core.List.{Mem, mem-cons}
use mathlib.Core.Logic.Or
use mathlib.Core.Bool.{false≢true}
use gardener_extension_provi.Infrastructure.Host.{Host, TaskValue, zone_subnets, egress_cidrs}
use gardener_extension_provi.Common.{
  String, ◌≡◌, ◌≢◌, refl, sym, ◌∙◌, Bool, true, false, ◌==◌, eq_iff, Option, none, some, List, [],
  All, is_empty,
}
use gardener_extension_provi.Failure.{Result}
use gardener_extension_provi.Action.Ensures.{Ensures, Ensures-weaken}
use gardener_extension_provi.Apis.{Zone, Zones, InfrastructureConfig}
use gardener_extension_provi.Secret.{ServiceAccount}
use gardener_extension_provi.TaskRunner.{Task, add_task}
use gardener_extension_provi.TaskRunner.Schedules.{task_names, TasksEnsure}
use gardener_extension_provi.Infrastructure.{Infrastructure, KubeClient, Zonal}
use gardener_extension_provi.Infrastructure.Actuator.{
  subnets_task, create_egress_task, add_egress_task,
}
use gardener_extension_provi.Infrastructure.Actuator.Results.{
  Anywhere, ThenOk, after-Ensures, pure-Ensures, zone_names, made_names, IsBound, subnets_made,
  egress_made,
}

-- the values of the two tasks
abbrev pub SubnetsOf : List Zone → TaskValue → Type 0
SubnetsOf zones v =
    (made : List Zones) × (v ≡ zone_subnets made) × (made_names made ≡ zone_names zones)

abbrev pub EgressOf : List Zone → TaskValue → Type 0
EgressOf zones v =
    (m : List (String × String)) × (v ≡ egress_cidrs m) × All (λ z. IsBound m z.name) zones

abbrev pub Promised : List Zone → String → Result TaskValue → Type 0
Promised zones name r =
    (name ≡ "createShootVMSubnets" → ThenOk (SubnetsOf zones) r)
    × (name ≡ "createEgressOnShootVMs" → ThenOk (EgressOf zones) r)

module _ {W : Type 0} (host : Host W) (global : KubeClient W) (clients : Zonal W)
    (infra : Infrastructure) (config : InfrastructureConfig) (account : ServiceAccount)
    (seed : String) where
  subnets_promised :
      Ensures Anywhere
        (ThenOk (SubnetsOf config.networks.zones))
        (subnets_task host global clients infra config account seed)
  subnets_promised =
      after-Ensures {R = λ made. made_names made ≡ zone_names config.networks.zones} _ _
        (subnets_made host.determine global clients infra config account seed)
        (λ made e. pure-Ensures (zone_subnets made) (made, refl, e))

  egress_promised :
      Ensures Anywhere
        (ThenOk (EgressOf config.networks.zones))
        (create_egress_task host global clients infra config account)
  egress_promised =
      after-Ensures {R = λ m. All (λ z. IsBound m z.name) config.networks.zones} _ _
        (egress_made clients infra account config)
        (λ m h. pure-Ensures (egress_cidrs m) (m, refl, h))

  different : (a b : String) → (a == b) ≡ false → a ≢ b
  different a b h e = false≢true (sym h ∙ (eq_iff a b).1 e)

  abbrev pub egress_tasks : Option Bool → List (Task W TaskValue)
  egress_tasks o = add_egress_task host global clients infra config account o (
      add_task [] "createShootVMSubnets"
        (subnets_task host global clients infra config account seed))

  pub tasks-Promised :
      (o : Option Bool)
      → o ≡ some true
      → TasksEnsure Anywhere (Promised config.networks.zones) (egress_tasks o)
        × Mem "createShootVMSubnets" (task_names (egress_tasks o))
        × Mem "createEgressOnShootVMs" (task_names (egress_tasks o))
        × (is_empty (egress_tasks o) ≡ false)
  unfolding add_task
  tasks-Promised none e = absurd (cc (e))
  tasks-Promised (some false) e = absurd (cc (e))
  tasks-Promised (some true) e = (
    (
      Ensures-weaken
          (λ r h. (
            (λ q. h),
            λ q. absurd (different "createShootVMSubnets" "createEgressOnShootVMs" refl q),
          ))
          subnets_promised,
      (
        Ensures-weaken
            (λ r h. (
              (λ q. absurd (different "createEgressOnShootVMs" "createShootVMSubnets" refl q)),
              λ q. h,
            ))
            egress_promised,
        tt,
      ),
    ),
    mem-cons.1 (Or.inl refl),
    mem-cons.1 (Or.inr (mem-cons.1 (Or.inl refl))),
    refl,
  )
