-- ===== src/Bastion/Objects.antt =====
-- pkg/controller/bastion/actuator_reconcile.go: the objects of a bastion, made and awaited.
use gardener_extension_provi.Common.{
  ℕ, String, concat, quoted, Bool, true, false, not, ◌==◌, [], ◌∷◌, if◌then◌else◌,
}
use gardener_extension_provi.Failure.{Error, errorf, wrap, requeue_after, Result, ok, err}
use gardener_extension_provi.Action.{Exec, done, and_then, ◌>>=◌, ◌>>◌, or_wrap, pure}
use gardener_extension_provi.Kube.{ObjectClient, do_get}
use gardener_extension_provi.Bastion.{
  Bastion, ScriptSecret, VirtualMachineDisk, VirtualMachine, ExternalAccess, ProjectNetworkPolicy,
  BastionClient, vm_name, disk_name, setup_script_secret_name, project_network_policy_name,
}

-- in seconds
abbrev pub wait_time : ℕ
wait_time = 30

abbrev pub awaited : {Obj : Type 0} → (Obj → Bool) → String → Error → Result Obj → Result Obj
awaited ready text waiting (err e) = err (requeue_after (wrap text e) wait_time)
awaited ready text waiting (ok obj) =
    if ready obj then ok obj else err (requeue_after waiting wait_time)

abbrev pub not_made : String → String → String → Error → Error
not_made kind name project = wrap (
    concat (
      "failed to create "
      ∷ kind
      ∷ " "
      ∷ quoted name
      ∷ " in namespace: "
      ∷ quoted project
      ∷ ","
      ∷ []))

abbrev pub is_running : VirtualMachine → Bool
is_running vm = vm.state == "Running"

abbrev pub has_succeeded : VirtualMachineDisk → Bool
has_succeeded disk = disk.phase == "Succeeded"

abbrev pub has_address : ExternalAccess → Bool
has_address access = not (access.ingress_ip == "")

module _ {W : Type 0} where
  -- one read, and what is not ready comes back as a RequeueAfterError
  abbrev pub await :
      {Obj : Type 0}
      → ObjectClient W Obj
      → String
      → String
      → (Obj → Bool)
      → String
      → Error
      → Exec W Obj
  await c namespace name ready text waiting =
      and_then (do_get c namespace name) (λ r. done (awaited ready text waiting r))

  module _ (c : BastionClient W) (project : String) where
    unfoldable pub wait_for_virtual_machine_ready : String → Exec W VirtualMachine
    wait_for_virtual_machine_ready name =
        await c.machines project name is_running "error getting VirtualMachine:"
          (errorf "waiting for VirtualMachine state to be \"Running\"")

    unfoldable pub wait_for_virtual_machine_external_access_ready : String → Exec W ExternalAccess
    wait_for_virtual_machine_external_access_ready name =
        await c.accesses project name has_address "error getting VirtualMachineExternalAccess:" (
          errorf (
            concat (
              "waiting for VirtualMachineExternalAccess "
              ∷ quoted name
              ∷ " to have an IngressIP"
              ∷ [])))

    unfoldable pub wait_for_virtual_machine_disk_ready : String → Exec W VirtualMachineDisk
    wait_for_virtual_machine_disk_ready name =
        await c.disks project name has_succeeded "error getting VirtualMachineDisk:"
          (errorf "waiting for VirtualMachineDisk phase to be \"Succeeded\"")

    unfoldable pub create_or_update_setup_script_secret : Bastion → Exec W ScriptSecret
    create_or_update_setup_script_secret bastion =
        or_wrap (not_made "setup secret for" bastion.name project) (
          c.secrets.create_or_update
            record {
              name = setup_script_secret_name bastion.name;
              namespace = project;
              script = "";
            }
            (λ s. record s { script = bastion.user_data }))

    -- the name of the disk that is attached; ParseQuantity of the constant size does not fail
    unfoldable pub create_or_update_virtual_machine_disk : Bastion → String → String → Exec W String
    create_or_update_virtual_machine_disk bastion image image_project = do
      let name = disk_name bastion.name
      or_wrap (not_made "VirtualMachineDisk for" name project) (
          c.disks.create_or_update
            record {
              name = name;
              namespace = project;
              image = "";
              image_namespace = "";
              size = "";
              phase = "";
            }
            (λ d. record d { image = image; image_namespace = image_project; size = "16Gi" }))
      or_wrap (wrap "error waiting for VirtualMachineDisk to be ready:")
          (wait_for_virtual_machine_disk_ready name)
      pure name

    unfoldable pub create_or_update_virtual_machine :
        Bastion → String → String → String → Exec W VirtualMachine
    create_or_update_virtual_machine bastion image image_project machine_type = do
      let name = vm_name bastion.name
      disk ←
          or_wrap (wrap "failed to create disk:")
            (create_or_update_virtual_machine_disk bastion image image_project)
      or_wrap (not_made "VirtualMachine for" bastion.name project) (
          c.machines.create_or_update
            record {
              name = name;
              namespace = project;
              type = "";
              disk = "";
              script_secret = "";
              state = "";
            }
            (λ vm. record vm {
              type = machine_type;
              disk = disk;
              script_secret = setup_script_secret_name bastion.name;
            }))
      wait_for_virtual_machine_ready name

    unfoldable pub create_or_update_virtual_machine_external_access :
        Bastion → Exec W ExternalAccess
    create_or_update_virtual_machine_external_access bastion = do
      let name = vm_name bastion.name
      or_wrap (not_made "VirtualMachineExternalAccess for" bastion.name project) (
          c.accesses.create_or_update
            record { name = name; namespace = project; enabled = false; port = 0; ingress_ip = "" }
            (λ a. record a { enabled = true; port = 22 }))
      wait_for_virtual_machine_external_access_ready name

    unfoldable pub create_or_update_project_network_policy : Bastion → Exec W ProjectNetworkPolicy
    create_or_update_project_network_policy bastion =
        or_wrap (not_made "project network policy" bastion.name project) (
          c.policies.create_or_update
            record {
              name = project_network_policy_name bastion.name;
              namespace = project;
              from = [];
            }
            (λ p. record p { from = bastion.ingress }))
