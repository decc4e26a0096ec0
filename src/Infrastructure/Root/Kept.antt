-- ===== src/Infrastructure/Root/Kept.antt =====
-- When reconcileRootSubnet leaves the root subnet as it is.
use gardener_extension_provi.Common.{
  String, ◌≡◌, refl, ap, ◌∙◌, false, eq_refl, Option, some, List, ◌∷◌, lookup,
}
use gardener_extension_provi.Failure.{Error, ok}
use gardener_extension_provi.Action.{run, pure}
use gardener_extension_provi.Action.Laws.{run-bind_ok, run-done}
use gardener_extension_provi.Apis.{Zone, NetworkConfig, InfrastructureConfig}
use gardener_extension_provi.Secret.{ServiceAccount}
use gardener_extension_provi.Kube.{Subnet, ObjectClient, run-attempt_get}
use gardener_extension_provi.Infrastructure.{
  Infrastructure, KubeClient, Zonal, get_ownership_labels,
}
use gardener_extension_provi.Infrastructure.Ready.{wait_for_global_subnet_ready}
use gardener_extension_provi.Infrastructure.Root.{
  parent_reference, parent_changed, desired_root_subnet, root_changed, check_owner, recreate,
  update_root, settle_root, ensure_root, ensure_root_at, first_zone, reconcile_root_subnet,
}

pub check_owner_own :
    {W : Type 0} (c : ObjectClient W Subnet) (infra : Infrastructure) (label : String × String)
    (cur : Subnet) (w : W)
    → lookup "infra-uid" cur.labels ≡ some infra.uid
    → run (check_owner c infra label cur) w ≡ (ok cur, w)
unfolding check_owner run
check_owner_own c infra label cur w h = rw (h, check_owner, run) (rw (eq_refl infra.uid, run))

pub root_changed_kept :
    {W : Type 0} (infra : Infrastructure) (old new : NetworkConfig) (account : ServiceAccount)
    (label label' : String × String) (w : W)
    → new.node_cidr ≡ old.node_cidr
    → parent_changed (parent_reference new account.project) (parent_reference old account.project)
      ≡ false
    → run
        (root_changed
          (desired_root_subnet infra new account label).spec
          (desired_root_subnet infra old account label').spec)
        w
      ≡ (ok false, w)
unfolding root_changed run desired_root_subnet
root_changed_kept infra old new account label label' w cidr parent =
    rw (cidr, eq_refl) (ap (λ b. (ok b, w)) parent)

-- The root subnet that was made for `old` and is this shoot's own.
module _ {W : Type 0} (determine : Option Error → Option Error) (global : KubeClient W)
    (clients : Zonal W) (infra : Infrastructure) (account : ServiceAccount) where
  update_root_kept :
      (old new : InfrastructureConfig) (label label' : String × String) (cur : Subnet) (w : W)
      → lookup "infra-uid" cur.labels ≡ some infra.uid
      → cur.spec ≡ (desired_root_subnet infra old.networks account label').spec
      → new.networks.node_cidr ≡ old.networks.node_cidr
      → parent_changed
          (parent_reference new.networks account.project)
          (parent_reference old.networks account.project)
        ≡ false
      → run
          (update_root determine global clients infra new account
            (desired_root_subnet infra new.networks account label)
            label
            cur)
          w
        ≡ (ok tt, w)
  unfolding update_root
  update_root_kept old new label label' cur w uid spec cidr parent =
      run-bind_ok _ _ w cur w (check_owner_own global.global_subnets infra label cur w uid)
      ∙ (rw spec (
          run-bind_ok _ _ w false w
            (root_changed_kept infra old.networks new.networks account label label' w cidr parent)
          ∙ (unfold recreate run pure in refl)))

  pub reconcile_root_kept :
      (old new : InfrastructureConfig) (label : String × String) (cur : Subnet) (z : Zone)
      (zs : List Zone) (seed : String) (w : W)
      → new.networks.zones ≡ z ∷ zs
      → global.global_subnets.get account.project infra.name w ≡ ok cur
      → lookup "infra-uid" cur.labels ≡ some infra.uid
      → cur.spec ≡ (desired_root_subnet infra old.networks account label).spec
      → new.networks.node_cidr ≡ old.networks.node_cidr
      → parent_changed
          (parent_reference new.networks account.project)
          (parent_reference old.networks account.project)
        ≡ false
      → run (reconcile_root_subnet determine global clients infra new account seed) w
        ≡ run (wait_for_global_subnet_ready infra.name account.project global.global_subnets) w
  unfolding reconcile_root_subnet ensure_root_at ensure_root settle_root
  reconcile_root_kept old new label cur z zs seed w zones found uid spec cidr parent =
      let own = get_ownership_labels account.project infra.name seed z.name in
      let desired = desired_root_subnet infra new.networks account own in
      run-bind_ok _ (ensure_root_at determine global clients infra new account seed) w z.name w
        (run-done (first_zone new.networks.zones) w ∙ ap (λ l. (first_zone l, w)) zones)
      ∙ run-bind_ok _ (ensure_root determine global clients infra new account desired own) w
          (ok cur) w
          (run-attempt_get global.global_subnets account.project infra.name w
            ∙ ap (λ r. (ok r, w)) found)
      ∙ run-bind_ok _
          (λ u. wait_for_global_subnet_ready infra.name account.project global.global_subnets) w tt
          w (update_root_kept old new own label cur w uid spec cidr parent)
