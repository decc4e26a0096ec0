-- ===== src/Worker/Classes.antt =====
-- pkg/controller/worker/actuator.go: the machine classes of a worker, one for each zone of each pool.
use gardener_extension_provi.Common.{
  ℕ, String, concat, Bool, true, false, Option, none, some, List, [], ◌∷◌, ◌&&◌, not, ◌==◌, insert,
  flatten, if◌then◌else◌,
}
use gardener_extension_provi.Failure.{Error, errorf, wrap, panic, Result, ok, err}
use gardener_extension_provi.Apis.{
  Zones, InfrastructureStatus, ZoneEndpoints, OrgConfig, CloudProfileConfig,
}
use gardener_extension_provi.Action.{Exec, done, call, ◌>>=◌, or_wrap, pure, for_each}
use gardener_extension_provi.Secret.{ServiceAccount, get_service_account_from_secret_reference}
use gardener_extension_provi.Validation.Workers.{ResourceList}
use gardener_extension_provi.Worker.Objects.{
  PoolTemplate, WorkerConfig, WorkerPool, WorkerResource, Cluster, MachineTemplate, MachineClass,
  Surroundings,
}
use gardener_extension_provi.Worker.Labels.{get_gdch_pool_labels}
use gardener_extension_provi.Worker.Disks.{generate_disks}
use gardener_extension_provi.Worker.Images.{architecture_of, find_worker_image, no_image_of}
use gardener_extension_provi.Worker.Names.{determine_deployment_name, worker_pool_hash}

-- the loop of findSubnet
unfoldable pub find_subnet_in : String → List Zones → Result String
find_subnet_in name [] =
    err (errorf (concat ("cannot find zone network subnet for zone " ∷ name ∷ [])))
find_subnet_in name (z ∷ zs) =
    if z.name == name && not (z.subnet == "") then ok z.subnet else find_subnet_in name zs

unfoldable pub find_subnet : String → InfrastructureStatus → Result String
unfolding find_subnet_in
find_subnet name status = find_subnet_in name status.networks.zones

-- the loop of findManagementURL
unfoldable pub management_api_in : String → List (Option ZoneEndpoints) → Result String
management_api_in name [] =
    err (errorf (concat ("cannot find zone management url for zone " ∷ name ∷ [])))
management_api_in name (none ∷ zs) = err (panic "nil ZoneEndpoints")
management_api_in name (some z ∷ zs) =
    if z.name == name then ok z.management_api else management_api_in name zs

-- a field of the nil OrgConfig is read
abbrev pub org_config_of : CloudProfileConfig → Result OrgConfig
org_config_of profile = elim profile.org_config [
  | none ↦ err (panic "nil OrgConfig")
  | some org ↦ ok org
]

unfoldable pub find_zone_management_url : String → CloudProfileConfig → Result String
unfolding management_api_in
find_zone_management_url name profile = elim (org_config_of profile) [
  | err e ↦ err e
  | ok org ↦ management_api_in name org.zones
]

abbrev pub format_bool : Bool → String
format_bool true = "true"
format_bool false = "false"

-- what the hash of a pool takes besides the pool
abbrev pub additional_data : String → InfrastructureStatus → List String
additional_data zone status =
    zone ∷ elim status.enable_egress [ none ↦ [] | some b ↦ format_bool b ∷ [] ]

-- a map that may be nil
abbrev pub entries : Option ResourceList → ResourceList
entries none = []
entries (some l) = l

-- maps.Copy(dst, src)
unfoldable pub copy_entries : ResourceList → ResourceList → ResourceList
copy_entries dst [] = dst
copy_entries dst ((k, v) ∷ src) = copy_entries (insert k v dst) src

abbrev pub copied : Option ResourceList → Option ResourceList → Option ResourceList
copied dst src = some (copy_entries (entries dst) (entries src))

-- the pool's template, with the resources of the provider configuration's written over it
unfoldable pub merge_template : Option PoolTemplate → Option PoolTemplate → Option PoolTemplate
unfolding copy_entries
merge_template pool none = pool
merge_template none (some c) =
    some record {
      capacity = copied none c.capacity;
      virtual_capacity = copied none c.virtual_capacity;
    }
merge_template (some p) (some c) = some record {
  capacity = copied p.capacity c.capacity;
  virtual_capacity = copied p.virtual_capacity c.virtual_capacity;
}

abbrev pub machine_template :
    String → String → String → Option PoolTemplate → Option MachineTemplate
machine_template instance_type region zone none = none
machine_template instance_type region zone (some t) = some record {
  capacity = t.capacity;
  virtual_capacity = t.virtual_capacity;
  instance_type = instance_type;
  region = region;
  zone = zone;
}

abbrev no_account_of : WorkerResource → Error → Error
no_account_of worker e =
    wrap
      (concat (
        "could not get service account from secret '" ∷ worker.secret_ref.namespace ∷ "/"
        ∷ worker.secret_ref.name ∷ "':" ∷ []))
      e

module _ {W : Type 0} (env : Surroundings W) (cluster : Cluster) (worker : WorkerResource) where
  -- what the two generators read before they go over the pools
  unfoldable pub worker_account : Exec W ServiceAccount
  unfolding get_service_account_from_secret_reference or_wrap
  worker_account = or_wrap (no_account_of worker) (
      get_service_account_from_secret_reference env.fetch_secret env.parse_service_account
        worker.secret_ref)

  unfoldable pub infrastructure_status_of : Result InfrastructureStatus
  infrastructure_status_of = elim worker.infrastructure_provider_status [
    | none ↦ err (panic "nil InfrastructureProviderStatus")
    | some raw ↦ env.decode_infrastructure_status raw
  ]

  abbrev pub pool_config : Option (Option String) → Result WorkerConfig
  pool_config none = ok record { node_template = none }
  pool_config (some none) = ok record { node_template = none }
  pool_config (some (some raw)) = env.decode_worker_config raw

  abbrev pub hash_of_zone : InfrastructureStatus → WorkerPool → String → Exec W String
  hash_of_zone status pool zone =
      or_wrap (wrap (concat ("get hash for worker pool " ∷ pool.name ∷ ":" ∷ [])))
        (done (worker_pool_hash env cluster pool (additional_data zone status) []))

  module _ (profile : CloudProfileConfig) (account : ServiceAccount)
      (status : InfrastructureStatus) where
    -- the body of the loop over the zones of a pool
    unfoldable pub class_of_zone :
        WorkerPool → WorkerConfig → String × String → ℕ → String → Exec W MachineClass
    unfolding ◌>>=◌ call or_wrap pure get_gdch_pool_labels generate_disks determine_deployment_name
        find_subnet find_zone_management_url merge_template
    class_of_zone pool config (image, project) zone_index zone = do
      let labels = get_gdch_pool_labels worker pool cluster.name
      disks ← done (generate_disks env pool image project labels)
      user_data ←
          or_wrap (wrap "failed to get user data from worker:")
            (call (λ w. (env.fetch_user_data worker.secret_ref.namespace pool w, w)))
      deployment_name ← determine_deployment_name env worker pool zone_index
      hash ← hash_of_zone status pool zone
      subnet ← done (find_subnet zone status)
      management_url ← done (find_zone_management_url zone profile)
      org ← done (org_config_of profile)
      pure record {
        name = concat (deployment_name ∷ "-" ∷ hash ∷ []);
        resource_labels = ("gardener.cloud/purpose", "machineclass") ∷ [];
        project = account.project;
        annotations =
            (
              "description",
              concat (
                  "Machine of Shoot " ∷ worker.name ∷ " created by machine-controller-manager"
                  ∷ []),
            )
            ∷ [];
        labels = labels;
        disks = disks;
        cloud_config = user_data;
        credentials_secret_ref = worker.secret_ref;
        node_template =
            machine_template pool.machine_type worker.region zone
              (merge_template pool.node_template config.node_template);
        subnet_name = subnet;
        machine_type = pool.machine_type;
        ca_data = org.ca_data;
        org_cluster_url = management_url;
        registry_url = org.registry_url;
        enable_egress = status.enable_egress;
      }

    -- the body of the loop over the pools
    unfoldable pub classes_of_pool : WorkerPool → Exec W (List MachineClass)
    unfolding ◌>>=◌ or_wrap find_worker_image for_each class_of_zone
    classes_of_pool pool = do
      config ←
          or_wrap (wrap "could not decode provider config:")
            (done (pool_config pool.provider_config))
      image ← or_wrap (no_image_of env pool) (
          done (
            find_worker_image env profile worker pool.image_name pool.image_version
              (architecture_of pool.architecture)))
      for_each (class_of_zone pool config image) 0 pool.zones

  unfoldable pub generate_machine_classes : CloudProfileConfig → Exec W (List MachineClass)
  unfolding ◌>>=◌ pure for_each worker_account infrastructure_status_of classes_of_pool
  generate_machine_classes profile = do
    account ← worker_account
    status ← done infrastructure_status_of
    classes ← for_each (λ i. classes_of_pool profile account status) 0 worker.pools
    pure (flatten classes)
