-- ===== src/Infrastructure/Zonal.antt =====
-- actuator.go: reconcileGlobalSubnet, createGlobalSubnet, ReconcileZonalSubnet and createShootVMSubnets.
use gardener_extension_provi.Common.{
  quoted, String, concat, Option, none, some, List, [], ◌∷◌, Bool, true, false, not, ◌==◌, opt_eq,
  insert, if◌then◌else◌,
}
use gardener_extension_provi.Failure.{Error, flat, wrap, panic, Result, ok, err, is_not_found}
use gardener_extension_provi.Action.{done, Exec, pure, fail, ◌>>=◌, ◌>>◌, attempt, or_wrap}
use gardener_extension_provi.Apis.{SubnetReference, Zone, Zones, InfrastructureConfig}
use gardener_extension_provi.Kube.{
  SubnetRequest, SubnetSpec, Subnet, ObjectClient, do_get, do_create,
}
use gardener_extension_provi.Secret.{ServiceAccount}
use gardener_extension_provi.Infrastructure.{
  Infrastructure, KubeClient, Zonal, zonal_client, zone_subnet_name, zone_network_subnet_name,
}
use gardener_extension_provi.Infrastructure.Ready.{
  wait_for_zonal_subnet_ready, wait_for_global_subnet_ready,
}
use gardener_extension_provi.Infrastructure.Deletion.{delete_zonal_subnet, delete_subnet}
use gardener_extension_provi.Infrastructure.Root.{reconcile_root_subnet}

-- the spec of a zone's branch of the root subnet
abbrev pub global_subnet : String → String → String → String → Subnet
global_subnet project infra zone cidr = record {
  name = zone_subnet_name infra zone;
  namespace = project;
  labels =
      insert "ipam.gdc.goog/usage" "zone-network-root-range"
        (insert "ipam.gdc.goog/vpc" "default-vpc" []);
  spec = record {
    type = "Branch";
    zone = some zone;
    propagation_strategy = "SingleZone";
    ipv4_request = some (record { cidr = some cidr; prefix_length = none });
    parent_reference = some (record { name = infra; namespace = some project; type = "" });
    enable_gateway = none;
  };
  ready = none;
  allocation_cidr = none;
}

abbrev pub network_subnet : String → String → String → String → Subnet
network_subnet project name parent cidr = record {
  name = name;
  namespace = project;
  labels = insert "ipam.gdc.goog/vpc" "default-vpc" [];
  spec = record {
    type = "Branch";
    zone = none;
    propagation_strategy = "";
    ipv4_request = some (record { cidr = some cidr; prefix_length = none });
    parent_reference = some (record { name = parent; namespace = some project; type = "" });
    enable_gateway = some true;
  };
  ready = none;
  allocation_cidr = none;
}

-- `!Equal(cur.Spec.IPv4Request.CIDR, &cidr) || cur.Spec.ParentReference.Name != infra`: the parent is looked at only
-- where the ranges agree; nil pointers panic
abbrev pub stale_parent : String → Option SubnetReference → Result Bool
stale_parent infra none = err (panic "nil ParentReference")
stale_parent infra (some r) = ok (not (r.name == infra))

abbrev pub stale_range : String → Option (Option String) → Result Bool → Result Bool
stale_range cidr none rest = err (panic "nil IPv4Request")
stale_range cidr (some range) rest = if opt_eq range (some cidr) then rest else ok true

abbrev pub requested : Option SubnetRequest → Option (Option String)
requested none = none
requested (some r) = some r.cidr

unfoldable pub is_stale : String → String → SubnetSpec → Result Bool
is_stale infra cidr spec =
    stale_range cidr (requested spec.ipv4_request) (stale_parent infra spec.parent_reference)

module _ {W : Type 0} where
  unfoldable pub create_global_subnet :
      ObjectClient W Subnet → String → String → String → String → Exec W (Unit {0})
  unfolding or_wrap do_create
  create_global_subnet c project infra zone cidr =
      or_wrap (wrap "failed to create Subnet: ")
        (do_create c (global_subnet project infra zone cidr))

module _ {W : Type 0} (global : KubeClient W) (clients : Zonal W)
    (infra project zone cidr : String) where
  abbrev pub recreate_global : Bool → Exec W (Unit {0})
  recreate_global false = pure tt
  recreate_global true = do
    c ← zonal_client zone clients
    delete_zonal_subnet c.subnets project (zone_network_subnet_name infra zone)
    delete_subnet global.global_subnets project (zone_subnet_name infra zone)
    create_global_subnet global.global_subnets project infra zone cidr

  abbrev pub settle_global : Result Subnet → Exec W (Unit {0})
  settle_global (ok cur) = do stale ← done (is_stale infra cidr cur.spec); recreate_global stale
  settle_global (err e) =
      if is_not_found e
      then create_global_subnet global.global_subnets project infra zone cidr
      else fail (wrap "unable to get Subnet: " e)

  unfoldable pub reconcile_global_subnet : Exec W Subnet
  unfolding ◌>>=◌ attempt do_get pure fail create_global_subnet zonal_client delete_zonal_subnet
      delete_subnet is_stale wait_for_global_subnet_ready
  reconcile_global_subnet = do
    found ← attempt (do_get global.global_subnets project (zone_subnet_name infra zone))
    settle_global found
    wait_for_global_subnet_ready (zone_subnet_name infra zone) project global.global_subnets

module _ {W : Type 0} (c : ObjectClient W Subnet) (cidr name parent namespace : String) where
  abbrev pub settle_zonal : Result Subnet → Exec W (Unit {0})
  settle_zonal (ok cur) = pure tt
  settle_zonal (err e) =
      if is_not_found e
      then or_wrap (wrap "failed to create subnet: ")
          (do_create c (network_subnet namespace name parent cidr))
      else fail (wrap "unable to get Subnet: " e)

  unfoldable pub reconcile_zonal_subnet : Exec W Subnet
  unfolding ◌>>=◌ attempt do_get do_create or_wrap pure fail wait_for_zonal_subnet_ready
  reconcile_zonal_subnet = do
    found ← attempt (do_get c namespace name)
    settle_zonal found
    wait_for_zonal_subnet_ready name namespace c

module _ {W : Type 0} (determine : Option Error → Option Error) (global : KubeClient W)
    (clients : Zonal W) (infra : Infrastructure) (config : InfrastructureConfig)
    (account : ServiceAccount) where
  unfoldable pub create_zone_subnets : Zone → Exec W Zones
  unfolding ◌>>=◌ or_wrap pure reconcile_global_subnet zonal_client wait_for_zonal_subnet_ready
      reconcile_zonal_subnet
  create_zone_subnets zone = do
    let name = zone_subnet_name infra.name zone.name
    let network_name = zone_network_subnet_name infra.name zone.name
    or_wrap
        (flat (
          concat (
            "error creating infrastructure zone subnet "
            ∷ quoted name
            ∷ " (zone: "
            ∷ zone.name
            ∷ ", cidr: "
            ∷ zone.cidr
            ∷ "): "
            ∷ [])))
        (reconcile_global_subnet global clients infra.name account.project zone.name zone.cidr)
    c ← zonal_client zone.name clients
    or_wrap
        (wrap (
          concat (
            "timeout waiting for global subnet "
            ∷ quoted name
            ∷ " to propagate to zone "
            ∷ zone.name
            ∷ " (project: "
            ∷ account.project
            ∷ "): "
            ∷ [])))
        (wait_for_zonal_subnet_ready name account.project c.subnets)
    made ←
        or_wrap
          (flat (
            concat (
              "error creating infrastructure zone network subnet "
              ∷ quoted network_name
              ∷ " (zone: "
              ∷ zone.name
              ∷ ", cidr: "
              ∷ zone.cidr
              ∷ "): "
              ∷ [])))
          (reconcile_zonal_subnet c.subnets zone.cidr network_name name account.project)
    pure (record { name = zone.name; subnet = made.name })

  unfoldable pub create_all_zone_subnets : List Zone → Exec W (List Zones)
  unfolding ◌>>=◌ pure create_zone_subnets
  create_all_zone_subnets [] = pure []
  create_all_zone_subnets (zone ∷ zones) = do
    made ← create_zone_subnets zone
    rest ← create_all_zone_subnets zones
    pure (made ∷ rest)

  unfoldable pub create_shoot_vm_subnets : String → Exec W (List Zones)
  unfolding ◌>>=◌ or_wrap reconcile_root_subnet create_all_zone_subnets
  create_shoot_vm_subnets seed = do
    or_wrap
        (flat (
          concat (
            "error creating infrastructure node subnet "
            ∷ quoted infra.name
            ∷ " (project: "
            ∷ account.project
            ∷ ", nodeCIDR: "
            ∷ config.networks.node_cidr
            ∷ "): "
            ∷ [])))
        (reconcile_root_subnet determine global clients infra config account seed)
    create_all_zone_subnets config.networks.zones
