-- ===== src/Worker/Delegate.antt =====
-- pkg/controller/worker/actuator.go and machine_images.go: the delegate, with what it keeps between its calls.
use gardener_extension_provi.Common.{String, concat, Option, none, some, List, [], ◌∷◌}
use gardener_extension_provi.Failure.{errorf, wrap, Result, ok, err}
use gardener_extension_provi.Apis.{CloudProfileConfig}
use gardener_extension_provi.Action.{Action, done, call, and_then}
use gardener_extension_provi.Worker.Objects.{
  MachineImage, WorkerStatus, WorkerResource, CloudProfile, Cluster, MachineClass,
  MachineDeployment, Surroundings,
}
use gardener_extension_provi.Worker.Images.{generate_machine_images}
use gardener_extension_provi.Worker.Classes.{generate_machine_classes}
use gardener_extension_provi.Worker.Deployments.{generate_machine_deployments}

-- A nil slice is `none`.
pub record WorkerDelegate : Type 0 where
  pub machine_deployments : Option (List MachineDeployment)
  pub machine_classes : Option (List MachineClass)
  pub machine_images : Option (List MachineImage)
  pub cloud_profile_config : CloudProfileConfig
  pub worker : WorkerResource
  pub cluster : Cluster

-- a slice that starts as nil and is appended to
abbrev pub appended : {A : Type 0} → List A → Option (List A)
appended [] = none
appended (a ∷ l) = some (a ∷ l)

-- the elements of a slice that may be nil
abbrev pub elements : {A : Type 0} → Option (List A) → List A
elements none = []
elements (some l) = l

abbrev no_cloud_profile_config : {A : Type 0} → Result A
no_cloud_profile_config = err (errorf "no cloud profile config")

abbrev pub raw_config : CloudProfile → Option String
raw_config profile = elim profile.provider_config [ none ↦ none | some raw ↦ raw ]

module _ {W : Type 0} (env : Surroundings W) where
  abbrev decoded_profile : CloudProfile → Option String → Result CloudProfileConfig
  decoded_profile profile none = no_cloud_profile_config
  decoded_profile profile (some raw) = elim (env.decode_cloud_profile raw) [
    | ok config ↦ ok config
    | err e ↦
        err (wrap (concat ("decode raw cloud profile config for '" ∷ profile.name ∷ "':" ∷ [])) e)
  ]

  unfoldable pub to_cloud_profile_config : Option Cluster → Result CloudProfileConfig
  to_cloud_profile_config none = no_cloud_profile_config
  to_cloud_profile_config (some cluster) = elim cluster.cloud_profile [
    | none ↦ no_cloud_profile_config
    | some profile ↦ decoded_profile profile (raw_config profile)
  ]

  -- The cluster is not nil where the configuration was found in it.
  unfoldable pub new_worker_delegate : WorkerResource → Option Cluster → Result WorkerDelegate
  unfolding to_cloud_profile_config
  new_worker_delegate worker none = no_cloud_profile_config
  new_worker_delegate worker (some cluster) = elim (to_cloud_profile_config (some cluster)) [
    | err e ↦ err e
    | ok config ↦ ok record {
      machine_deployments = none;
      machine_classes = none;
      machine_images = none;
      cloud_profile_config = config;
      worker = worker;
      cluster = cluster;
    }
  ]

  abbrev Method : Type 0 → Type 0
  Method A = Action W (Result A × WorkerDelegate)

  unfoldable pub apply_classes : WorkerDelegate → Method (Unit {0})
  unfolding call
  apply_classes d = call λ w.
      let (answer, v) =
        env.apply_machine_classes d.worker.namespace (elements d.machine_classes) w in
      ((answer, d), v)

  abbrev after_classes : WorkerDelegate → Result (List MachineClass) → Method (Unit {0})
  unfolding apply_classes
  after_classes d (err e) = done (err e, d)
  after_classes d (ok classes) = apply_classes (record d { machine_classes = appended classes })

  -- DeployMachineClasses
  unfoldable pub deploy_machine_classes : WorkerDelegate → Method (Unit {0})
  unfolding apply_classes and_then generate_machine_classes
  deploy_machine_classes d = elim d.machine_classes [
    | some classes ↦ apply_classes d
    | none ↦
        and_then (generate_machine_classes env d.cluster d.worker d.cloud_profile_config)
          (after_classes d)
  ]

  abbrev after_deployments :
      WorkerDelegate → Result (List MachineDeployment) → Method (List MachineDeployment)
  after_deployments d (err e) = done (err e, d)
  after_deployments d (ok ds) = done (ok ds, record d { machine_deployments = some ds })

  -- GenerateMachineDeployments
  unfoldable pub machine_deployments_of : WorkerDelegate → Method (List MachineDeployment)
  unfolding and_then generate_machine_deployments
  machine_deployments_of d = elim d.machine_deployments [
    | some ds ↦ done (ok ds, d)
    | none ↦ and_then (generate_machine_deployments env d.cluster d.worker) (after_deployments d)
  ]

  unfoldable pub decode_worker_provider_status : WorkerResource → Result WorkerStatus
  decode_worker_provider_status worker = elim worker.provider_status [
    | none ↦ ok record { machine_images = [] }
    | some status ↦ elim (env.decode_worker_status status.raw) [
      | ok decoded ↦ ok decoded
      | err e ↦ err (
          wrap
            (concat (
              "could not decode WorkerStatus \"" ∷ worker.namespace ∷ "/" ∷ worker.name ∷ "\":"
              ∷ []))
            e)
    ]
  ]

  abbrev keep_patched :
      WorkerDelegate → Result WorkerResource × W → (Result (Unit {0}) × WorkerDelegate) × W
  keep_patched d (ok worker, w) = ((ok tt, record d { worker = worker }), w)
  keep_patched d (err e, w) = ((err (wrap "unable to update worker provider status:" e), d), w)

  -- The new status has no bytes yet; the server's answer to the patch takes the worker's place.
  unfoldable pub update_worker_provider_status : WorkerDelegate → WorkerStatus → Method (Unit {0})
  unfolding call
  update_worker_provider_status d status = elim (env.convert_status status) [
    | err e ↦ done (err (wrap "unable to update worker provider status:" e), d)
    | ok versioned ↦
        let changed = record d.worker {
          provider_status = some record { raw = ""; object = some versioned };
        } in
        call
          (λ w. keep_patched (record d { worker = changed }) (env.patch_status d.worker changed w))
  ]

  abbrev write_images : WorkerDelegate → List MachineImage → Method (Unit {0})
  unfolding update_worker_provider_status decode_worker_provider_status
  write_images d images = elim (decode_worker_provider_status d.worker) [
    | err e ↦ done (err (wrap "unable to decode the worker provider status:" e), d)
    | ok status ↦ update_worker_provider_status d (record status { machine_images = images })
  ]

  -- UpdateMachineImagesStatus
  unfoldable pub update_machine_images_status : WorkerDelegate → Method (Unit {0})
  unfolding generate_machine_images update_worker_provider_status decode_worker_provider_status
  update_machine_images_status d = elim d.machine_images [
    | some images ↦ write_images d images
    | none ↦ elim (generate_machine_images env d.cloud_profile_config d.worker [] d.worker.pools) [
      | err e ↦ done (err (wrap "unable to generate the machine images:" e), d)
      | ok images ↦ write_images (record d { machine_images = some images }) images
    ]
  ]

  -- PreReconcileHook, PostReconcileHook, PreDeleteHook and PostDeleteHook do nothing.
  unfoldable pub hook : WorkerDelegate → Method (Unit {0})
  hook d = done (ok tt, d)
