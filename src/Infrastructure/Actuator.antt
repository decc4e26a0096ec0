-- ===== src/Infrastructure/Actuator.antt =====
-- actuator.go: Reconcile, Delete and the other entry points of the infrastructure controller;
-- pkg/cloudprofile/cloudprofile.go.
pub mod Foreign
pub mod Results
pub mod Promises
pub mod Recorded
use gardener_extension_provi.Infrastructure.Host.{
  FlowState, new_flow_state, Cluster, Host, TaskValue, zone_subnets, egress_cidrs, nothing,
}
use gardener_extension_provi.Common.{
  quoted, ℕ, String, concat, Option, none, some, List, [], ◌∷◌, Bool, true, false, ◌==◌, lookup,
  if◌then◌else◌,
}
use gardener_extension_provi.Failure.{Error, errorf, wrap, panic, Result, ok, err}
use gardener_extension_provi.Action.{Action, done, Exec, and_then, call, pure, ◌>>=◌, ◌>>◌, or_wrap}
use gardener_extension_provi.Apis.{
  Zones, NetworkStatus, InfrastructureConfig, InfrastructureStatus, CloudProfileConfig,
}
use gardener_extension_provi.Secret.{
  ServiceAccount, OrgClusterConfig, Secret, SecretReference,
  get_service_account_from_secret_reference,
}
use gardener_extension_provi.TaskRunner.{Task, add_task, run_tasks}
use gardener_extension_provi.Infrastructure.{Infrastructure, KubeClient, Zonal}
use gardener_extension_provi.Infrastructure.Deletion.{determined, delete_all_subnets}
use gardener_extension_provi.Infrastructure.Zonal.{create_shoot_vm_subnets}
use gardener_extension_provi.Infrastructure.Egress.{
  create_egress_on_shoot_vms, delete_egress_on_shoot_vms,
}
use gardener_extension_provi.Infrastructure.Clients.{create_kube_clients, wrapped}

abbrev pub zones_of : Option TaskValue → List Zones
zones_of (some (zone_subnets zs)) = zs
zones_of _ = []

abbrev pub cidrs_of : Option TaskValue → Option (List (String × String))
cidrs_of (some (egress_cidrs m)) = some m
cidrs_of _ = none

abbrev pub cons_found : Option String → List String → List String
cons_found none rest = rest
cons_found (some cidr) rest = cidr ∷ rest

unfoldable pub cidr_slice : List Zones → List (String × String) → List String
cidr_slice [] m = []
cidr_slice (z ∷ zs) m = cons_found (lookup z.name m) (cidr_slice zs m)

abbrev pub slice_of : List Zones → Option (List (String × String)) → List String
slice_of zs none = []
slice_of zs (some m) = cidr_slice zs m

abbrev pub seed_name : String → String
seed_name seed = if seed == "" then "unknown-seed" else seed

-- the results of the runner, split on its error
abbrev pub finished :
    {W : Type 0} → List (String × TaskValue) × Option Error → Exec W (List (String × TaskValue))
finished (m, none) = done (ok m)
finished (m, some e) = done (err e)

-- `return errors.DetermineError(err)`, also where err is nil
abbrev pub determine_all : (Option Error → Option Error) → Result (Unit {0}) → Result (Unit {0})
determine_all determine (ok u) = elim (determine none) [ none ↦ ok tt | some e ↦ err e ]
determine_all determine (err e) = determined determine (err e)

module _ {W : Type 0} (host : Host W) where
  abbrev pub decode_profile : Option String → Result CloudProfileConfig
  decode_profile none = err (panic "nil ProviderConfig")
  decode_profile (some raw) = wrapped "decode cloud profile: " (host.decode_cloud_profile raw)

  unfoldable pub get_from_cluster : Cluster → Result CloudProfileConfig
  get_from_cluster cluster = elim cluster.cloud_profile [
    | none ↦ err (errorf "cloud profile is not set")
    | some raw ↦ decode_profile raw
  ]

  abbrev pub decode_raw : Option String → Result InfrastructureConfig
  decode_raw none = err (errorf "provider config is not specified")
  decode_raw (some raw) =
      if raw == ""
      then err (errorf "provider config is not specified")
      else wrapped "decode infrastructure config: " (host.decode_infrastructure_config raw)

  unfoldable pub decode_infrastructure_config : Infrastructure → Result InfrastructureConfig
  decode_infrastructure_config infra = decode_raw infra.provider_config

  unfoldable pub update_provider_status :
      Infrastructure → InfrastructureStatus → String → List String → Exec W (Unit {0})
  unfolding or_wrap call
  update_provider_status infra status state cidrs =
      or_wrap (wrap (concat ("patch status for infrastructure " ∷ quoted infra.name ∷ ": " ∷ []))) (
        call (
          host.patch_status infra (record infra {
            provider_status = some status;
            egress_cidrs = cidrs;
            state = some state;
          })))

  module _ (global : KubeClient W) (clients : Zonal W) (infra : Infrastructure)
      (config : InfrastructureConfig) (account : ServiceAccount) where
    abbrev pub subnets_task : String → Exec W TaskValue
    subnets_task seed = do
      zs ← create_shoot_vm_subnets host.determine global clients infra config account seed
      pure (zone_subnets zs)

    abbrev pub create_egress_task : Exec W TaskValue
    create_egress_task = do
      m ← create_egress_on_shoot_vms clients infra account config
      pure (egress_cidrs m)

    abbrev pub delete_egress_task : Exec W TaskValue
    delete_egress_task = do delete_egress_on_shoot_vms clients infra account config; pure nothing

    -- the switch on EnableEgress
    abbrev pub add_egress_task : Option Bool → List (Task W TaskValue) → List (Task W TaskValue)
    add_egress_task (some true) ts = add_task ts "createEgressOnShootVMs" create_egress_task
    add_egress_task _ ts = add_task ts "deleteEgressOnShootVMs" delete_egress_task

    unfoldable pub reconcile_tasks : String → List (Task W TaskValue)
    unfolding add_task ◌>>=◌ pure create_shoot_vm_subnets create_egress_on_shoot_vms
        delete_egress_on_shoot_vms
    reconcile_tasks seed =
        add_egress_task config.enable_egress
          (add_task [] "createShootVMSubnets" (subnets_task seed))

    -- the status that a successful run is recorded as
    unfoldable pub new_status : List Zones → InfrastructureStatus
    new_status zs = record {
      enable_egress = config.enable_egress;
      networks = record {
        node_address_pool_claim = "";
        node_cidr = config.networks.node_cidr;
        node_subnet = "";
        zones = zs;
      };
    }

    unfoldable pub record_results : List (String × TaskValue) → Exec W (Unit {0})
    unfolding update_provider_status new_status cidr_slice
    record_results success =
        let zs = zones_of (lookup "createShootVMSubnets" success) in
        let cidrs = cidrs_of (lookup "createEgressOnShootVMs" success) in
        update_provider_status infra (new_status zs) (host.marshal new_flow_state)
          (slice_of zs cidrs)

    unfoldable pub delete_tasks : List (Task W TaskValue)
    unfolding add_task ◌>>=◌ pure delete_all_subnets delete_egress_on_shoot_vms
    delete_tasks =
        add_task
          (add_task [] "deleteAllSubnets" (do
            delete_all_subnets host.determine global clients account.project infra.name
                config.networks.zones
            pure nothing))
          "deleteEgressOnShootVMs" delete_egress_task

  unfoldable pub run_and_record :
      List ℕ
      → Infrastructure
      → InfrastructureConfig
      → ServiceAccount
      → String
      → KubeClient W × Zonal W
      → Exec W (Unit {0})
  unfolding ◌>>=◌ and_then run_tasks reconcile_tasks record_results
  run_and_record schedule infra config account seed (global, clients) = do
    success ←
        and_then
          (run_tasks host.determine schedule
            (reconcile_tasks global clients infra config account seed))
          finished
    record_results global clients infra config account success

  unfoldable pub reconcile_config :
      List ℕ → Infrastructure → CloudProfileConfig → ServiceAccount → String → Exec W (Unit {0})
  unfolding ◌>>=◌ or_wrap decode_infrastructure_config create_kube_clients run_and_record
  reconcile_config schedule infra profile account seed = do
    config ← done (decode_infrastructure_config infra)
    made ←
        or_wrap (wrap "could not create kubeclients: ")
          (done (create_kube_clients host.load account profile config))
    run_and_record schedule infra config account seed made

  abbrev pub account_of : SecretReference → Exec W ServiceAccount
  account_of ref =
      or_wrap
        (wrap (
          concat (
            "could not retrieve service account from secret reference '" ∷ ref.namespace ∷ "/"
            ∷ ref.name ∷ "': " ∷ [])))
        (get_service_account_from_secret_reference host.fetch_secret host.parse_service_account ref)

  abbrev pub profile_of : Cluster → Exec W CloudProfileConfig
  profile_of cluster =
      or_wrap (wrap "could not get cloud profile: ") (done (get_from_cluster cluster))

  unfoldable pub reconcile : List ℕ → Infrastructure → SecretReference → Cluster → Exec W (Unit {0})
  unfolding ◌>>=◌ and_then or_wrap get_from_cluster get_service_account_from_secret_reference
      reconcile_config
  reconcile schedule infra ref cluster = do
    profile ← profile_of cluster
    account ← account_of ref
    and_then (reconcile_config schedule infra profile account (seed_name cluster.seed))
        (λ r. done (determine_all host.determine r))

  -- Restore reconciles again; Migrate and ForceDelete do nothing
  unfoldable pub restore : List ℕ → Infrastructure → SecretReference → Cluster → Exec W (Unit {0})
  unfolding reconcile
  restore schedule infra ref cluster = reconcile schedule infra ref cluster

  unfoldable pub migrate : Infrastructure → Cluster → Exec W (Unit {0})
  unfolding pure
  migrate infra cluster = pure tt

  unfoldable pub force_delete : Infrastructure → Cluster → Exec W (Unit {0})
  unfolding pure
  force_delete infra cluster = pure tt

  unfoldable pub run_delete :
      List ℕ
      → Infrastructure
      → InfrastructureConfig
      → ServiceAccount
      → KubeClient W × Zonal W
      → Exec W (Unit {0})
  unfolding ◌>>=◌ and_then pure run_tasks delete_tasks
  run_delete schedule infra config account (global, clients) = do
    and_then (run_tasks host.determine schedule (delete_tasks global clients infra config account))
        finished
    pure tt

  unfoldable pub delete_infrastructure :
      List ℕ → Infrastructure → SecretReference → Cluster → Exec W (Unit {0})
  unfolding ◌>>=◌ or_wrap get_from_cluster get_service_account_from_secret_reference
      decode_infrastructure_config create_kube_clients run_delete
  delete_infrastructure schedule infra ref cluster = do
    profile ← profile_of cluster
    account ← account_of ref
    config ← done (decode_infrastructure_config infra)
    made ← done (create_kube_clients host.load account profile config)
    run_delete schedule infra config account made
