-- ===== src/Bastion/Reconcile/Endings.antt =====
-- pkg/controller/bastion/actuator_reconcile.go: how a reconciliation of a bastion's objects ends, by how its calls
-- end.
use gardener_extension_provi.Common.{String, ◌≡◌, refl}
use gardener_extension_provi.Failure.{Error, ok}
use gardener_extension_provi.Action.Ensures.{Ensures, Anything}
use gardener_extension_provi.Action.Ends.{
  Ends, IsWrapped, Ends-pure, Ends-bind, Ends-or_wrap, Ends-done,
}
use gardener_extension_provi.Kube.{ObjectClient}
use gardener_extension_provi.Apis.{MachineImages, MachineImageVersion, CloudProfileConfig}
use gardener_extension_provi.Bastion.{Bastion, BastionProfile, BastionClient}
use gardener_extension_provi.Bastion.Choices.{
  find_most_suitable_machine_type, get_gdch_machine_image,
}
use gardener_extension_provi.Bastion.Reconcile.{reconcile_bastion_objects}
use gardener_extension_provi.Bastion.Objects.{
  wait_for_virtual_machine_ready, wait_for_virtual_machine_external_access_ready,
  wait_for_virtual_machine_disk_ready, create_or_update_setup_script_secret,
  create_or_update_virtual_machine_disk, create_or_update_virtual_machine,
  create_or_update_virtual_machine_external_access, create_or_update_project_network_policy,
}

-- every CreateOrUpdate ends in this way
abbrev pub Writes : {W Obj : Type 0} → (W → Type 0) → (Error → Type 0) → ObjectClient W Obj → Type 0
Writes {Obj = Obj} P E c =
    (obj : Obj) (change : Obj → Obj) → Ensures P (Ends E Anything) (c.create_or_update obj change)

module _ {W : Type 0} (P : W → Type 0) (E : Error → Type 0) (c : BastionClient W) where
  pub record WritesAll : Type 0 where
    pub secrets : Writes P E c.secrets
    pub disks : Writes P E c.disks
    pub machines : Writes P E c.machines
    pub accesses : Writes P E c.accesses
    pub policies : Writes P E c.policies

  pub record Waits (project : String) : Type 0 where
    pub disk :
        (name : String)
        → Ensures P (Ends E Anything) (wait_for_virtual_machine_disk_ready c project name)
    pub machine :
        (name : String)
        → Ensures P (Ends E Anything) (wait_for_virtual_machine_ready c project name)
    pub access :
        (name : String)
        → Ensures P
            (Ends E Anything)
            (wait_for_virtual_machine_external_access_ready c project name)

-- the profile has a machine type and an image for its architecture
abbrev pub Chooses : CloudProfileConfig → BastionProfile → Type 0
Chooses profile held =
    (machine : String × String) × (image : MachineImages × MachineImageVersion)
    × (find_most_suitable_machine_type held.machine_types ≡ ok machine)
    × (get_gdch_machine_image held.machine_images machine.1 profile.machine_images ≡ ok image)

module _ {W : Type 0} {P : W → Type 0} {E : Error → Type 0} (wraps : IsWrapped E)
    (c : BastionClient W) (project : String) (writes : WritesAll P E c)
    (waits : Waits P E c project) where
  machine-Ends :
      (bastion : Bastion) (image image_project machine_type : String)
      → Ensures P
          (Ends E Anything)
          (create_or_update_virtual_machine c project bastion image image_project machine_type)
  unfolding create_or_update_virtual_machine create_or_update_virtual_machine_disk
  machine-Ends bastion image image_project machine_type =
      Ends-bind {Q = Anything} _ _
        (Ends-or_wrap _ _ (wraps _) (
          Ends-bind _ _ (Ends-or_wrap _ _ (wraps _) (writes.disks _ _))
            λ d u. Ends-bind _ _ (Ends-or_wrap _ _ (wraps _) (waits.disk _)) λ d u. Ends-pure _ tt))
        λ disk u.
          Ends-bind _ _ (Ends-or_wrap _ _ (wraps _) (writes.machines _ _)) λ vm u. waits.machine _

  pub objects-Ends :
      (profile : CloudProfileConfig) (held : BastionProfile) (bastion : Bastion)
      → Chooses profile held
      → Ensures P (Ends E Anything) (reconcile_bastion_objects profile held c project bastion)
  unfolding reconcile_bastion_objects create_or_update_setup_script_secret
      create_or_update_virtual_machine_external_access create_or_update_project_network_policy
  objects-Ends profile held bastion (machine, image, m, i) =
      Ends-bind _ _ (Ends-or_wrap _ _ (wraps _) (Ends-or_wrap _ _ (wraps _) (writes.secrets _ _)))
        λ s u.
          Ends-bind {Q = λ a. a ≡ machine} _ _
            (Ends-or_wrap _ _ (wraps _) (Ends-done _ (rw m refl)))
            λ k e.
              Ends-bind {Q = Anything} _ _
                (Ends-or_wrap _ _ (wraps _) (Ends-done _ (rw e (rw i tt))))
                λ j u.
                  Ends-bind _ _ (Ends-or_wrap _ _ (wraps _) (machine-Ends bastion _ _ _)) λ vm u.
                    Ends-bind _ _
                      (Ends-or_wrap _ _ (wraps _) (
                        Ends-bind _ _ (Ends-or_wrap _ _ (wraps _) (writes.accesses _ _))
                          λ a u. waits.access _))
                      λ access u.
                        Ends-bind _ _
                          (Ends-or_wrap _ _ (wraps _)
                            (Ends-or_wrap _ _ (wraps _) (writes.policies _ _)))
                          λ policy u. Ends-pure access tt
