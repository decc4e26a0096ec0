-- ===== src/Worker/Agreement/Named.antt =====
-- The names under which machine deployments refer to machine classes.
use mathlib.Core.Path.{subst}
use mathlib.Core.List.{map}
use gardener_extension_provi.Common.{ℕ, String, ◌≡◌, sym, ap, ◌∙◌, List, flatten}
use gardener_extension_provi.Failure.{Result, ok}
use gardener_extension_provi.Apis.{InfrastructureStatus, CloudProfileConfig}
use gardener_extension_provi.Action.{run}
use gardener_extension_provi.Action.Ensures.{Ensures-run}
use gardener_extension_provi.Action.Loops.{Succeeds, Each, Each-agree, map-flatten}
use gardener_extension_provi.Worker.Objects.{
  WorkerPool, WorkerResource, Cluster, MachineClass, MachineDeployment, Surroundings,
}
use gardener_extension_provi.Worker.Classes.{generate_machine_classes}
use gardener_extension_provi.Worker.Deployments.{generate_machine_deployments}
use gardener_extension_provi.Worker.Agreement.{
  Answers, IsClassFor, IsDeploymentFor, PoolClasses, PoolDeployments, WorkerClasses,
  WorkerDeployments, generate_machine_classes-Succeeds, generate_machine_deployments-Succeeds,
}

ok_inj : {A : Type 0} {x y : A} → Path (Result A) (ok x) (ok y) → x ≡ y
ok_inj h = cc

same_ok : {A : Type 0} (r : Result A) (x y : A) → r ≡ ok x → r ≡ ok y → x ≡ y
same_ok r x y h k = ok_inj (sym h ∙ k)

succeeded : {A : Type 0} (Q : A → Type 0) (r : Result A) (a : A) → Succeeds Q r → r ≡ ok a → Q a
succeeded Q r a q e = subst (Succeeds Q) e q

module _ {W : Type 0} (env : Surroundings W) (cluster : Cluster) (worker : WorkerResource)
    (answers : String → Result (Unit {0})) where
  pool_agrees :
      (profile : CloudProfileConfig) (status : InfrastructureStatus) (i : ℕ) (pool : WorkerPool)
      (cs : List MachineClass) (ds : List MachineDeployment)
      → PoolClasses env cluster worker answers profile status pool cs
      → PoolDeployments env cluster worker answers status pool ds
      → map (λ c. c.name) cs ≡ map (λ d. d.class_name) ds
  pool_agrees profile status i pool cs ds (image, found, c) d =
      Each-agree (IsClassFor env cluster worker answers profile status pool image)
        (IsDeploymentFor env cluster worker answers status pool) (λ c. c.name) (λ d. d.class_name)
        (λ j zone x y r (n, k, p). same_ok _ _ _ r.named k) 0 pool.zones cs ds c d

  lists_agree :
      (profile : CloudProfileConfig) (cs : List MachineClass) (ds : List MachineDeployment)
      → WorkerClasses env cluster worker answers profile cs
      → WorkerDeployments env cluster worker answers ds
      → map (λ c. c.name) cs ≡ map (λ d. d.class_name) ds
  lists_agree profile cs ds (status, groups, s, e, c) (status', groups', s', e', d) =
      let same = same_ok _ _ _ s' s in
      rw (e, e', map-flatten, map-flatten)
        (ap flatten (
          Each-agree (λ i. PoolClasses env cluster worker answers profile status)
            (λ i. PoolDeployments env cluster worker answers status) (map (λ c. c.name))
            (map (λ d. d.class_name)) (pool_agrees profile status) 0 worker.pools groups groups' c
            (subst
              (λ t. Each (λ i. PoolDeployments env cluster worker answers t) 0 worker.pools groups')
              same d)))

  -- The deployments of a worker name its machine classes, in order: the class names of the deployments that are generated
  -- are the names of the classes that are generated, though the two are generated apart, and between them anything may
  -- change but what the API server answers to a request for a machine deployment of the worker's namespace.
  pub deployments_name_classes :
      (profile : CloudProfileConfig) (w v : W)
      → Answers env cluster worker answers w
      → Answers env cluster worker answers v
      → (cs : List MachineClass) (ds : List MachineDeployment)
      → (run (generate_machine_classes env cluster worker profile) w).0 ≡ ok cs
      → (run (generate_machine_deployments env cluster worker) v).0 ≡ ok ds
      → map (λ c. c.name) cs ≡ map (λ d. d.class_name) ds
  deployments_name_classes profile w v p q cs ds c d =
      let classes =
        Ensures-run _ w (generate_machine_classes-Succeeds env cluster worker answers profile) p in
      let deployments =
        Ensures-run _ v (generate_machine_deployments-Succeeds env cluster worker answers) q in
      lists_agree profile cs ds (succeeded _ _ cs classes.1 c) (succeeded _ _ ds deployments.1 d)
