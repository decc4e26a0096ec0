-- ===== src/Immutability.antt =====
-- What the admission of an update (pkg/apis/gdc/validation/infrastructure.go) means for the reconciliation of the root
-- subnet (pkg/controller/infrastructure/actuator.go).
use gardener_extension_provi.Common.{
  String, ◌≡◌, refl, sym, ap, ◌∙◌, false, eq_iff, Option, none, some, List, [], ◌∷◌, arith, lookup,
  text_of,
}
use gardener_extension_provi.Apis.{
  SubnetReference, Zone, NetworkConfig, InfrastructureConfig, single_subnet,
}
use gardener_extension_provi.Kube.{Subnet}
use gardener_extension_provi.Failure.{Error, ok}
use gardener_extension_provi.Action.{run}
use gardener_extension_provi.Secret.{ServiceAccount}
use gardener_extension_provi.Infrastructure.{Infrastructure, KubeClient, Zonal}
use gardener_extension_provi.Infrastructure.Ready.{wait_for_global_subnet_ready}
use gardener_extension_provi.Infrastructure.Ready.ReadOnly.{wait_for_global_subnet_ready-ReadOnly}
use gardener_extension_provi.Infrastructure.Root.{
  or_project, parent_changed_same, parent_reference, parent_changed, desired_root_subnet,
  reconcile_root_subnet,
}
use gardener_extension_provi.Infrastructure.Root.Kept.{reconcile_root_kept}
use gardener_extension_provi.Validation.{FieldPath}
use gardener_extension_provi.Validation.InfrastructureUpdate.{
  or_single, validate_networks_update, validate_infrastructure_config_update,
}

-- what a reference stands for
abbrev pub Target : Type 0
Target = String × String × String

abbrev pub target_of : NetworkConfig → Option SubnetReference → Target
target_of n none = (n.parent_subnet, n.parent_subnet_project, single_subnet)
target_of n (some r) = (r.name, text_of r.namespace, or_single r.type)

module _ (old new : NetworkConfig) (path : FieldPath) where
  -- by which of the two references are set
  networks_keep :
      (o n : Option SubnetReference)
      → old.parent_reference ≡ o
      → new.parent_reference ≡ n
      → validate_networks_update old new path ≡ []
      → (new.node_cidr ≡ old.node_cidr) × (target_of new n ≡ target_of old o)
  unfolding validate_networks_update
  networks_keep none none p q h = ground (
    arith,
    eq_iff old.node_cidr new.node_cidr,
    eq_iff old.parent_subnet new.parent_subnet,
    eq_iff old.parent_subnet_project new.parent_subnet_project,
  )
  networks_keep none (some r) p q h = ground (
    arith,
    eq_iff old.node_cidr new.node_cidr,
    eq_iff r.name old.parent_subnet,
    eq_iff (text_of r.namespace) old.parent_subnet_project,
    eq_iff (or_single r.type) single_subnet,
  )
  networks_keep (some r) none p q h = ground arith
  networks_keep (some r) (some s) p q h = ground (
    arith,
    eq_iff old.node_cidr new.node_cidr,
    eq_iff r.name s.name,
    eq_iff (text_of r.namespace) (text_of s.namespace),
    eq_iff r.type s.type,
  )

-- An update that admission accepts leaves the node range and the parent subnet as they were. The parent is compared by
-- name, by namespace with nil read as "", and by type with "" read as SingleSubnet, whichever fields give it.
pub accepted_update_keeps_parent :
    (old new : InfrastructureConfig) (path : FieldPath)
    → validate_infrastructure_config_update (some old) (some new) path ≡ []
    → (new.networks.node_cidr ≡ old.networks.node_cidr)
      × (target_of new.networks new.networks.parent_reference
          ≡ target_of old.networks old.networks.parent_reference)
unfolding validate_infrastructure_config_update
accepted_update_keeps_parent old new path h =
    networks_keep old.networks new.networks _ _ _ refl refl h

-- the reconciler's parent reference, as the target gives it
parent_reference-target :
    (n : NetworkConfig) (o : Option SubnetReference) (project : String)
    → n.parent_reference ≡ o
    → ((parent_reference n project).name ≡ (target_of n o).0)
      × ((parent_reference n project).namespace ≡ some (or_project project (target_of n o).1))
unfolding parent_reference
parent_reference-target n none project p = (rw p, rw p)
parent_reference-target n (some r) project p = (rw p, rw p)

same_target-parent_changed :
    (old new : NetworkConfig) (project : String)
    → target_of new new.parent_reference ≡ target_of old old.parent_reference
    → parent_changed (parent_reference new project) (parent_reference old project) ≡ false
same_target-parent_changed old new project h =
    let (a, b) = parent_reference-target new _ project refl in
    let (c, d) = parent_reference-target old _ project refl in
    parent_changed_same (parent_reference new project) (parent_reference old project)
      (a ∙ ap (λ t. t.0) h ∙ sym c) (b ∙ ap (λ t. some (or_project project t.1)) h ∙ sym d)

-- Let an update from `old` to `new` be accepted, and let the root subnet carry this shoot's UID and have the spec that
-- reconciling `old` asks for (under any ownership label). Then reconciling the root subnet for `new`, which has a zone,
-- only waits for it: the subnets are not torn down, and nothing at all is written.
pub accepted_update_keeps_root :
    {W : Type 0} (determine : Option Error → Option Error) (global : KubeClient W)
    (clients : Zonal W) (infra : Infrastructure) (account : ServiceAccount)
    (old new : InfrastructureConfig) (path : FieldPath) (label : String × String) (cur : Subnet)
    (z : Zone) (zs : List Zone) (seed : String) (w : W)
    → validate_infrastructure_config_update (some old) (some new) path ≡ []
    → new.networks.zones ≡ z ∷ zs
    → global.global_subnets.get account.project infra.name w ≡ ok cur
    → lookup "infra-uid" cur.labels ≡ some infra.uid
    → cur.spec ≡ (desired_root_subnet infra old.networks account label).spec
    → (run (reconcile_root_subnet determine global clients infra new account seed) w
        ≡ run (wait_for_global_subnet_ready infra.name account.project global.global_subnets) w)
      × ((run (reconcile_root_subnet determine global clients infra new account seed) w).1 ≡ w)
accepted_update_keeps_root determine global clients infra account old new path label cur z zs seed w
      h zones found uid spec =
    let (cidr, target) = accepted_update_keeps_parent old new path h in
    let only_waits =
      reconcile_root_kept determine global clients infra account old new label cur z zs seed w zones
        found uid spec cidr
        (same_target-parent_changed old.networks new.networks account.project target) in
    (
      only_waits,
      ap (λ t. t.1) only_waits
          ∙ wait_for_global_subnet_ready-ReadOnly infra.name account.project global.global_subnets
              w,
    )
