-- ===== src/Bastion/Delete.antt =====
-- pkg/controller/bastion/actuator_delete.go.
use gardener_extension_provi.Common.{String, concat, quoted, [], ◌∷◌, if◌then◌else◌}
use gardener_extension_provi.Failure.{wrap, is_not_found, Result, ok, err}
use gardener_extension_provi.Action.{Exec, done, and_then, ◌>>=◌, ◌>>◌, or_wrap, pure}
use gardener_extension_provi.Kube.{ObjectClient, do_delete}
use gardener_extension_provi.Bastion.{
  Bastion, BastionCluster, BastionClient, BastionHost, get_provider_status, vm_name, disk_name,
  setup_script_secret_name, project_network_policy_name,
}
use gardener_extension_provi.Bastion.Choices.{get_bastion_zone, get_org_config}
use gardener_extension_provi.Bastion.Reconcile.{profile_from, secret_of, get_client_and_project}

-- an object that is not there counts as deleted
abbrev pub gone_or : String → Result (Unit {0}) → Result (Unit {0})
gone_or text (ok u) = ok tt
gone_or text (err e) = if is_not_found e then ok tt else err (wrap text e)

module _ {W : Type 0} where
  -- the five functions that delete one object are this one
  unfoldable pub delete_object :
      {Obj : Type 0} → ObjectClient W Obj → String → String → String → Exec W (Unit {0})
  delete_object c kind project name =
      and_then (do_delete c project name)
        (λ r. done (gone_or (concat ("error deleting " ∷ kind ∷ " " ∷ quoted name ∷ ":" ∷ [])) r))

  module _ (c : BastionClient W) (project : String) (bastion : String) where
    unfoldable pub delete_bastion_objects : Exec W (Unit {0})
    delete_bastion_objects = do
      or_wrap (wrap "error deleting project network policy:") (
          delete_object c.policies "project network policy" project
            (project_network_policy_name bastion))
      or_wrap (wrap "error deleting virtual machine external access:")
          (delete_object c.accesses "virtual machine external access" project (vm_name bastion))
      or_wrap (wrap "error deleting virtual machine:")
          (delete_object c.machines "virtual machine" project (vm_name bastion))
      or_wrap (wrap "error deleting virtual machine disk:")
          (delete_object c.disks "virtual machine disk" project (disk_name bastion))
      or_wrap (wrap "error deleting setup script secret:")
          (delete_object c.secrets "setup script secret" project (setup_script_secret_name bastion))

module _ {W : Type 0} (host : BastionHost W) where
  unfoldable pub delete_bastion : Bastion → BastionCluster → Exec W (Unit {0})
  unfolding get_provider_status
  delete_bastion bastion cluster = do
    profile ←
        or_wrap (wrap "error getting cloud profile cluster:")
          (done (profile_from host cluster.cloud_profile))
    status ← done (get_provider_status host bastion)
    zone ←
        or_wrap (wrap "error getting bastion zone:") (done (get_bastion_zone host cluster status))
    config ←
        or_wrap (wrap "error getting org cluster config:") (done (get_org_config profile.0 zone))
    client ←
        or_wrap (wrap "error creating kube client:")
          (get_client_and_project host config (secret_of host cluster))
    delete_bastion_objects client.0 client.1 bastion.name

  -- ForceDelete does nothing
  unfoldable pub force_delete_bastion : Bastion → BastionCluster → Exec W (Unit {0})
  force_delete_bastion bastion cluster = pure tt
