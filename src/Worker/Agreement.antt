-- ===== src/Worker/Agreement.antt =====
-- The machine classes that a worker gets, and the deployments that name them.
pub mod Named
pub mod Placed
use gardener_extension_provi.Common.{
  ℕ, ◌+◌, String, concat, ◌≡◌, refl, sym, ap, ◌∙◌, List, [], ◌∷◌, ◌++◌, flatten, length, arith,
}
use gardener_extension_provi.Failure.{Error, Result, ok, err}
use gardener_extension_provi.Apis.{InfrastructureStatus, OrgConfig, CloudProfileConfig}
use gardener_extension_provi.Action.{Exec, run, done, call, pure, ◌>>=◌, or_wrap, for_each, attempt}
use gardener_extension_provi.Action.Ensures.{Ensures, returns, Anything, Ensures-run, Ensures-call}
use gardener_extension_provi.Action.Loops.{
  Succeeds, Each, Succeeds-pure, Succeeds-done, Succeeds-bind, Succeeds-or_wrap, Succeeds-read_any,
  Succeeds-attempt_read, Succeeds-for_each, Succeeds-weaken,
}
use gardener_extension_provi.Secret.{
  ServiceAccount, get_service_account_from_secret, get_service_account_from_secret_reference,
}
use gardener_extension_provi.Worker.Objects.{
  Disk, WorkerConfig, WorkerPool, WorkerResource, Cluster, MachineClass, MachineDeployment,
  Surroundings,
}
use gardener_extension_provi.Worker.Labels.{get_gdch_pool_labels}
use gardener_extension_provi.Worker.Disks.{generate_disks}
use gardener_extension_provi.Worker.Images.{architecture_of, find_worker_image, no_image_of}
use gardener_extension_provi.Worker.Names.{
  name_for, old_deployment_name, new_deployment_name, determine_deployment_name, worker_pool_hash,
  decimal,
}
use gardener_extension_provi.Worker.Classes.{
  find_subnet, find_zone_management_url, additional_data, worker_account, infrastructure_status_of,
  pool_config, hash_of_zone, class_of_zone, classes_of_pool, generate_machine_classes,
  org_config_of,
}
use gardener_extension_provi.Worker.Deployments.{deployment_of_zone, generate_machine_deployments}

abbrev pub hyphenated : Result String → Result String → Result String
hyphenated (ok n) (ok h) = ok (concat (n ∷ "-" ∷ h ∷ []))
hyphenated (ok n) (err e) = err e
hyphenated (err e) h = err e

hyphenated-ok :
    (r s : Result String) (n h : String)
    → r ≡ ok n
    → s ≡ ok h
    → hyphenated r s ≡ ok (concat (n ∷ "-" ∷ h ∷ []))
hyphenated-ok r s n h e k = rw (e, k) refl

module _ {W : Type 0} (env : Surroundings W) (cluster : Cluster) (worker : WorkerResource)
    (answers : String → Result (Unit {0})) where
  -- what the API server answers when it is asked for a machine deployment of the worker's namespace
  abbrev pub Answers : W → Type 0
  Answers w = (n : String) → env.get_deployment worker.namespace n w ≡ answers n

  abbrev pub name_of_zone : WorkerPool → ℕ → Result String
  name_of_zone pool i =
      let old = old_deployment_name worker pool i in
      name_for old (new_deployment_name worker pool i) (answers old)

  determine-Succeeds :
      (pool : WorkerPool) (i : ℕ)
      → Ensures Answers
          (Succeeds (λ n. name_of_zone pool i ≡ ok n))
          (determine_deployment_name env worker pool i)
  unfolding determine_deployment_name
  determine-Succeeds pool i =
      let old = old_deployment_name worker pool i in
      Succeeds-bind _ _
        (Succeeds-attempt_read (λ r. r ≡ answers old)
          (λ w. env.get_deployment worker.namespace old w) (λ w p. p old))
        (λ r e.
          Succeeds-done _
            (λ n h. ap (λ r. name_for old (new_deployment_name worker pool i) r) (sym e) ∙ h))

  -- the name of the class for a zone: the deployment's name and the pool's hash
  abbrev pub class_name_in : InfrastructureStatus → WorkerPool → ℕ → String → Result String
  class_name_in status pool i zone =
      hyphenated (name_of_zone pool i)
        (worker_pool_hash env cluster pool (additional_data zone status) [])

  hash-Succeeds :
      (status : InfrastructureStatus) (pool : WorkerPool) (zone : String)
      → Ensures Answers
          (Succeeds
            (λ h. worker_pool_hash env cluster pool (additional_data zone status) [] ≡ ok h))
          (hash_of_zone env cluster worker status pool zone)
  hash-Succeeds status pool zone = Succeeds-or_wrap _ _ (Succeeds-done _ (λ h e. e))

  -- what a class has of its zone and its pool
  pub record IsClassFor (profile : CloudProfileConfig) (status : InfrastructureStatus)
      (pool : WorkerPool) (image : String × String) (i : ℕ) (zone : String) (c : MachineClass)
      : Type 0 where
    pub named : class_name_in status pool i zone ≡ ok c.name
    pub in_subnet : find_subnet zone status ≡ ok c.subnet_name
    pub managed_at : find_zone_management_url zone profile ≡ ok c.org_cluster_url
    pub with_disks :
        generate_disks env pool image.0 image.1 (get_gdch_pool_labels worker pool cluster.name)
        ≡ ok c.disks
    pub trusts :
        (org : OrgConfig) × (org_config_of profile ≡ ok org)
        × (c.ca_data ≡ org.ca_data)
        × (c.registry_url ≡ org.registry_url)
    pub runs_on : c.machine_type ≡ pool.machine_type
    pub reaches_out : c.enable_egress ≡ status.enable_egress

  abbrev pub IsDeploymentFor :
      InfrastructureStatus → WorkerPool → ℕ → String → MachineDeployment → Type 0
  IsDeploymentFor status pool i zone d =
      (name_of_zone pool i ≡ ok d.name)
      × (class_name_in status pool i zone ≡ ok d.class_name)
      × (d.pool_name ≡ pool.name)

  class_of_zone-Succeeds :
      (profile : CloudProfileConfig) (account : ServiceAccount) (status : InfrastructureStatus)
      (pool : WorkerPool) (config : WorkerConfig) (image : String × String) (i : ℕ) (zone : String)
      → Ensures Answers
          (Succeeds (IsClassFor profile status pool image i zone))
          (class_of_zone env cluster worker profile account status pool config image i zone)
  unfolding class_of_zone
  class_of_zone-Succeeds profile account status pool config (image, project) i zone =
      Succeeds-bind _ _ (Succeeds-done _ (λ ds e. e)) λ disks d.
        Succeeds-bind _ _
          (Succeeds-or_wrap _ _
            (Succeeds-read_any (λ w. env.fetch_user_data worker.secret_ref.namespace pool w)))
          λ text u. Succeeds-bind _ _ (determine-Succeeds pool i) λ n e.
            Succeeds-bind _ _ (hash-Succeeds status pool zone) λ h k.
              Succeeds-bind _ _ (Succeeds-done _ (λ s e. e)) λ subnet s.
                Succeeds-bind _ _ (Succeeds-done _ (λ s e. e)) λ url m.
                  Succeeds-bind _ _
                    (Succeeds-done {Q = λ o. org_config_of profile ≡ ok o} (org_config_of profile)
                      (λ o e. e))
                    λ org o. Succeeds-pure _ record {
                      named = hyphenated-ok _ _ n h e k;
                      in_subnet = s;
                      managed_at = m;
                      with_disks = d;
                      trusts = (org, o, refl, refl);
                      runs_on = refl;
                      reaches_out = refl;
                    }

  -- what the classes of a pool have of it
  abbrev pub PoolClasses :
      CloudProfileConfig → InfrastructureStatus → WorkerPool → List MachineClass → Type 0
  PoolClasses profile status pool classes =
      (image : String × String) × (find_worker_image env profile worker pool.image_name
          pool.image_version (architecture_of pool.architecture)
        ≡ ok image)
      × Each (IsClassFor profile status pool image) 0 pool.zones classes

  abbrev pub PoolDeployments : InfrastructureStatus → WorkerPool → List MachineDeployment → Type 0
  PoolDeployments status pool = Each (IsDeploymentFor status pool) 0 pool.zones

  -- what the classes of a worker have of its pools
  abbrev pub WorkerClasses : CloudProfileConfig → List MachineClass → Type 0
  WorkerClasses profile classes =
      (status : InfrastructureStatus) × (groups : List (List MachineClass))
      × (infrastructure_status_of env cluster worker ≡ ok status)
      × (classes ≡ flatten groups)
      × Each (λ i. PoolClasses profile status) 0 worker.pools groups

  abbrev pub WorkerDeployments : List MachineDeployment → Type 0
  WorkerDeployments deployments =
      (status : InfrastructureStatus) × (groups : List (List MachineDeployment))
      × (infrastructure_status_of env cluster worker ≡ ok status)
      × (deployments ≡ flatten groups)
      × Each (λ i. PoolDeployments status) 0 worker.pools groups

  classes_of_pool-Succeeds :
      (profile : CloudProfileConfig) (account : ServiceAccount) (status : InfrastructureStatus)
      (pool : WorkerPool)
      → Ensures Answers
          (Succeeds (PoolClasses profile status pool))
          (classes_of_pool env cluster worker profile account status pool)
  unfolding classes_of_pool
  classes_of_pool-Succeeds profile account status pool =
      Succeeds-bind _ _
        (Succeeds-or_wrap _ _ (
          Succeeds-done {Q = Anything} (pool_config env cluster worker pool.provider_config)
            (λ c e. tt)))
        λ config u. Succeeds-bind _ _ (Succeeds-or_wrap _ _ (Succeeds-done _ (λ m e. e))) λ image e.
          Succeeds-weaken {Q = Each (IsClassFor profile status pool image) 0 pool.zones}
            (λ cs q. (image, e, q))
            (Succeeds-for_each _ (class_of_zone-Succeeds profile account status pool config image) 0
              pool.zones)

  account-Succeeds :
      Ensures Answers (Succeeds {A = ServiceAccount} Anything) (worker_account env cluster worker)
  unfolding worker_account get_service_account_from_secret_reference
  account-Succeeds = Succeeds-or_wrap _ _ (
      Succeeds-bind _ _ (Succeeds-read_any (λ w. env.fetch_secret worker.secret_ref w)) λ s u.
        Succeeds-done {Q = Anything} (get_service_account_from_secret env.parse_service_account s)
          (λ a e. tt))

  pub generate_machine_classes-Succeeds :
      (profile : CloudProfileConfig)
      → Ensures Answers
          (Succeeds (WorkerClasses profile))
          (generate_machine_classes env cluster worker profile)
  unfolding generate_machine_classes
  generate_machine_classes-Succeeds profile = Succeeds-bind _ _ account-Succeeds λ account u.
      Succeeds-bind _ _ (Succeeds-done _ (λ s e. e)) λ status s.
        Succeeds-bind _ _
          (Succeeds-for_each {R = λ i. PoolClasses profile status} _
            (λ i. classes_of_pool-Succeeds profile account status) 0 worker.pools)
          λ groups q. Succeeds-pure _ (status, groups, s, refl, q)

  deployment_of_zone-Succeeds :
      (account : ServiceAccount) (status : InfrastructureStatus) (pool : WorkerPool) (i : ℕ)
      (zone : String)
      → Ensures Answers
          (Succeeds (IsDeploymentFor status pool i zone))
          (deployment_of_zone env cluster worker account status pool i zone)
  unfolding deployment_of_zone
  deployment_of_zone-Succeeds account status pool i zone =
      Succeeds-bind _ _ (determine-Succeeds pool i) λ n e.
        Succeeds-bind _ _ (hash-Succeeds status pool zone)
          λ h k. Succeeds-pure _ (e, hyphenated-ok _ _ n h e k, refl)

  generate_machine_deployments-Succeeds :
      Ensures Answers (Succeeds WorkerDeployments) (generate_machine_deployments env cluster worker)
  unfolding generate_machine_deployments
  generate_machine_deployments-Succeeds = Succeeds-bind _ _ account-Succeeds λ account u.
      Succeeds-bind _ _ (Succeeds-done _ (λ s e. e)) λ status s.
        Succeeds-bind _ _
          (Succeeds-for_each {R = λ i. PoolDeployments status} _
            (λ i pool.
              Succeeds-for_each _ (deployment_of_zone-Succeeds account status pool) 0 pool.zones)
            0 worker.pools)
          λ groups q. Succeeds-pure _ (status, groups, s, refl, q)
