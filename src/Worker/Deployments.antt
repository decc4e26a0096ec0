-- ===== src/Worker/Deployments.antt =====
-- pkg/controller/worker/actuator.go: the machine deployments of a worker, one for each zone of each pool.
use gardener_extension_provi.Common.{ℕ, String, concat, List, [], ◌∷◌, length, flatten}
use gardener_extension_provi.Apis.{InfrastructureStatus}
use gardener_extension_provi.Action.{Exec, done, ◌>>=◌, pure, for_each}
use gardener_extension_provi.Secret.{ServiceAccount}
use gardener_extension_provi.Worker.Objects.{
  WorkerPool, WorkerResource, Cluster, MachineDeployment, Surroundings,
}
use gardener_extension_provi.Worker.Names.{determine_deployment_name}
use gardener_extension_provi.Worker.Classes.{worker_account, infrastructure_status_of, hash_of_zone}

module _ {W : Type 0} (env : Surroundings W) (cluster : Cluster) (worker : WorkerResource) where
  abbrev pub add_baremetal_namespace_label :
      List (String × String) → String → List (String × String)
  add_baremetal_namespace_label labels project =
      env.merge_string_maps labels (("baremetal.cluster.gke.io/namespace", project) ∷ [])

  -- the body of the loop over the zones of a pool
  unfoldable pub deployment_of_zone :
      ServiceAccount → InfrastructureStatus → WorkerPool → ℕ → String → Exec W MachineDeployment
  unfolding ◌>>=◌ pure determine_deployment_name
  deployment_of_zone account status pool zone_index zone = do
    deployment_name ← determine_deployment_name env worker pool zone_index
    hash ← hash_of_zone env cluster worker status pool zone
    let class_name = concat (deployment_name ∷ "-" ∷ hash ∷ [])
    let zone_len = length pool.zones
    pure record {
      name = deployment_name;
      pool_name = pool.name;
      class_name = class_name;
      secret_name = class_name;
      minimum = env.distribute_over_zones zone_index pool.minimum zone_len;
      maximum = env.distribute_over_zones zone_index pool.maximum zone_len;
      max_unavailable =
          env.distribute_int_or_percent zone_index pool.max_unavailable zone_len pool.maximum;
      max_surge = env.distribute_int_or_percent zone_index pool.max_surge zone_len pool.maximum;
      labels = add_baremetal_namespace_label pool.labels account.project;
      annotations = pool.annotations;
      taints = pool.taints;
      machine_configuration = env.read_machine_configuration pool;
    }

  unfoldable pub generate_machine_deployments : Exec W (List MachineDeployment)
  unfolding ◌>>=◌ pure for_each worker_account infrastructure_status_of deployment_of_zone
  generate_machine_deployments = do
    account ← worker_account env cluster worker
    status ← done (infrastructure_status_of env cluster worker)
    deployments ←
        for_each (λ i pool. for_each (deployment_of_zone account status pool) 0 pool.zones) 0
          worker.pools
    pure (flatten deployments)
