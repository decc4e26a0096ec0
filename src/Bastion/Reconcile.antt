-- ===== src/Bastion/Reconcile.antt =====
-- pkg/controller/bastion/actuator_reconcile.go and actuator.go.
pub mod Settled
pub mod Endings
pub mod Retried
use gardener_extension_provi.Common.{
  ℕ, String, concat, quoted, Bool, true, false, not, ◌==◌, Option, none, some, List, [], ◌∷◌,
  if◌then◌else◌,
}
use gardener_extension_provi.Failure.{Error, errorf, wrap, panic, requeue_after, Result, ok, err}
use gardener_extension_provi.Apis.{InfrastructureConfig, CloudProfileConfig}
use gardener_extension_provi.Action.{Exec, done, call, and_then, ◌>>=◌, ◌>>◌, or_wrap, pure}
use gardener_extension_provi.Secret.{
  ServiceAccount, OrgClusterConfig, SecretReference, get_service_account_from_secret_reference,
}
use gardener_extension_provi.Kube.{ObjectClient, do_get}
use gardener_extension_provi.Bastion.{
  Bastion, ProviderStatusRaw, BastionProfile, BastionCluster, ScriptSecret, VirtualMachineDisk,
  VirtualMachine, ExternalAccess, ProjectNetworkPolicy, BastionClient, BastionHost, vm_name,
  disk_name, setup_script_secret_name, project_network_policy_name, get_provider_status,
}
use gardener_extension_provi.Bastion.Choices.{
  find_most_suitable_machine_type, get_gdch_machine_image, get_bastion_zone, get_org_config,
}
use gardener_extension_provi.Bastion.Objects.{
  wait_time, awaited, not_made, is_running, has_succeeded, has_address, await,
  wait_for_virtual_machine_ready, wait_for_virtual_machine_external_access_ready,
  wait_for_virtual_machine_disk_ready, create_or_update_setup_script_secret,
  create_or_update_virtual_machine_disk, create_or_update_virtual_machine,
  create_or_update_virtual_machine_external_access, create_or_update_project_network_policy,
}

module _ {W : Type 0} where
  -- what follows once the client is there
  unfoldable pub reconcile_bastion_objects :
      CloudProfileConfig
      → BastionProfile
      → BastionClient W
      → String
      → Bastion
      → Exec W ExternalAccess
  reconcile_bastion_objects profile held client project bastion = do
    or_wrap (wrap "error creating setup secret:")
        (create_or_update_setup_script_secret client project bastion)
    machine ←
        or_wrap (wrap "error getting machine type:")
          (done (find_most_suitable_machine_type held.machine_types))
    image ←
        or_wrap (wrap "error getting machine type:")
          (done (get_gdch_machine_image held.machine_images machine.1 profile.machine_images))
    or_wrap (wrap "error creating virtual machine:") (
        create_or_update_virtual_machine client project bastion image.1.image image.0.project
          machine.0)
    access ←
        or_wrap (wrap "error creating virtual machine external access:")
          (create_or_update_virtual_machine_external_access client project bastion)
    or_wrap (wrap "error creating project network policy:")
        (create_or_update_project_network_policy client project bastion)
    pure access

module _ {W : Type 0} (host : BastionHost W) where
  abbrev pub decoded_profile : Option String → Result CloudProfileConfig
  decoded_profile none = err (panic "nil ProviderConfig")
  decoded_profile (some raw) = elim (host.decode_cloud_profile raw) [
    | ok profile ↦ ok profile
    | err e ↦ err (wrap "decode cloud profile:" e)
  ]

  -- cloudprofile.GetFromCluster, with the profile that the cluster holds
  abbrev pub profile_from : Option BastionProfile → Result (CloudProfileConfig × BastionProfile)
  profile_from none = err (errorf "cloud profile is not set")
  profile_from (some held) = elim (decoded_profile held.provider_config) [
    | err e ↦ err e
    | ok profile ↦ ok (profile, held)
  ]

  unfoldable pub get_client_and_project :
      OrgClusterConfig → SecretReference → Exec W (BastionClient W × String)
  unfolding get_service_account_from_secret_reference
  get_client_and_project config ref = do
    account ← get_service_account_from_secret_reference host.fetch_secret host.parse_account ref
    client ← or_wrap (wrap "failed to create kubeClient:") (done (host.get_client config account))
    pure (client, account.project)

  -- what Reconcile and Delete begin with: the profile, the status and the zone
  abbrev pub secret_of : BastionCluster → SecretReference
  secret_of cluster = record { namespace = cluster.name; name = "cloudprovider" }

  abbrev pub patch : Bastion → Bastion → Exec W Bastion
  patch old new = call (host.patch_status old new)

  -- the zone is stored when the bastion has no status yet
  unfoldable pub store_zone : Bastion → Option ProviderStatusRaw → String → Exec W Bastion
  store_zone bastion (some status) zone = pure bastion
  store_zone bastion none zone = do
    raw ←
        or_wrap (wrap "error marshalling provider status:")
          (done (host.marshal_status (record { zone = zone })))
    or_wrap (wrap (concat ("failed to store status.providerStatus for zone: " ∷ zone ∷ " :" ∷ [])))
        (patch bastion (record bastion { provider_status = some raw }))

  unfoldable pub reconcile_bastion : Bastion → BastionCluster → Exec W Bastion
  unfolding get_provider_status
  reconcile_bastion bastion cluster = do
    profile ←
        or_wrap (wrap "error getting cloud profile cluster:")
          (done (profile_from cluster.cloud_profile))
    status ← done (get_provider_status host bastion)
    zone ←
        or_wrap (wrap "error getting bastion zone:") (done (get_bastion_zone host cluster status))
    stored ← store_zone bastion status zone
    config ←
        or_wrap (wrap "error getting org cluster config:") (done (get_org_config profile.0 zone))
    client ←
        or_wrap (wrap "error creating kube client:")
          (get_client_and_project config (secret_of cluster))
    access ← reconcile_bastion_objects profile.0 profile.1 client.0 client.1 stored
    or_wrap (wrap "error patching bastion object:")
        (patch stored (record stored { ingress_ip = some access.ingress_ip }))
