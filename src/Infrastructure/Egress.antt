-- ===== src/Infrastructure/Egress.antt =====
-- actuator.go: createEgressOnShootVMs and deleteEgressOnShootVMs.
use gardener_extension_provi.Common.{
  quoted, String, concat, Option, none, some, List, [], ◌∷◌, ◌||◌, lookup, insert, if◌then◌else◌,
}
use gardener_extension_provi.Failure.{
  errorf, wrap, panic, Result, ok, err, is_not_found, is_forbidden,
}
use gardener_extension_provi.Action.{done, Exec, and_then, pure, ◌>>=◌, ◌>>◌, or_wrap}
use gardener_extension_provi.Apis.{Zone, InfrastructureConfig}
use gardener_extension_provi.Kube.{Subnet, Gateway, do_delete}
use gardener_extension_provi.Secret.{ServiceAccount}
use gardener_extension_provi.Infrastructure.{
  Infrastructure, KubeClient, Zonal, get_egress_resource_name,
}
use gardener_extension_provi.Infrastructure.Ready.{
  wait_for_zonal_subnet_ready, wait_for_cloud_nat_gateway_ready,
}

-- gdc/pkg/constants: the label that workloads carry
abbrev pub workload_label_selector_key : String
workload_label_selector_key = "provider.extensions.gardener.gdc.goog/cluster"

abbrev pub egress_subnet : String → String → String → Subnet
egress_subnet project name zone = record {
  name = name;
  namespace = project;
  labels = [];
  spec = record {
    type = "Leaf";
    zone = none;
    propagation_strategy = "";
    ipv4_request = some (record { cidr = none; prefix_length = some 32 });
    parent_reference = some (record {
      name = concat ("data-network-segment-" ∷ zone ∷ "-group" ∷ []);
      namespace = some "platform";
      type = "SubnetGroup";
    });
    enable_gateway = none;
  };
  ready = none;
  allocation_cidr = none;
}

abbrev pub nat_gateway : String → String → String → Gateway
nat_gateway project name shoot = record {
  name = name;
  namespace = project;
  match_labels = (workload_label_selector_key, shoot) ∷ [];
  subnet_refs = name ∷ [];
  ready = none;
}

-- `readySubnet.Status.IPv4Allocation.CIDR`; a nil allocation panics
abbrev pub allocated : Option String → Result String
allocated none = err (panic "nil IPv4Allocation")
allocated (some cidr) = ok cidr

-- the client of a zone, looked up with `ok`
abbrev pub client_of : {W : Type 0} → String → Option (KubeClient W) → Result (KubeClient W)
client_of zone none = err (errorf (concat ("no kubeclient for zone " ∷ zone ∷ [])))
client_of zone (some c) = ok c

abbrev pub zone_text : String → String → String
zone_text text zone = concat (text ∷ " in zone " ∷ zone ∷ ": " ∷ [])

-- the answer to a Delete: what is not there, or may not be touched, is passed over
abbrev pub passed_over : String → Result (Unit {0}) → Result (Unit {0})
passed_over text (ok u) = ok u
passed_over text (err e) = if is_not_found e || is_forbidden e then ok tt else err (wrap text e)

module _ {W : Type 0} (clients : Zonal W) (infra : Infrastructure) (account : ServiceAccount) where
  -- what follows the look-up of the zone's client
  unfoldable pub create_egress_with : String → KubeClient W → Exec W String
  unfolding ◌>>=◌ or_wrap wait_for_zonal_subnet_ready wait_for_cloud_nat_gateway_ready
  create_egress_with zone c = do
    let name = get_egress_resource_name infra.namespace zone
    or_wrap (wrap (zone_text "failed to create egress subnet" zone))
        (c.subnets.create_or_update (egress_subnet account.project name zone) (λ s. s))
    ready ←
        or_wrap (wrap (zone_text "error waiting for egress subnet to be ready" zone))
          (wait_for_zonal_subnet_ready name account.project c.subnets)
    or_wrap (wrap (zone_text "failed to create CloudNATGateway" zone))
        (c.gateways.create_or_update (nat_gateway account.project name infra.namespace) (λ g. g))
    or_wrap
        (wrap (
          concat (
            "timeout waiting for CloudNATGateway "
            ∷ quoted name
            ∷ " to be ready in zone "
            ∷ zone
            ∷ ": "
            ∷ [])))
        (wait_for_cloud_nat_gateway_ready name account.project c.gateways)
    done (allocated ready.allocation_cidr)

  unfoldable pub create_zone_egress : String → Exec W String
  unfolding ◌>>=◌ create_egress_with
  create_zone_egress zone = done (client_of zone (lookup zone clients)) >>= create_egress_with zone

  -- `cidrs` is the map built so far
  unfoldable pub create_egress_zones :
      List Zone → List (String × String) → Exec W (List (String × String))
  unfolding ◌>>=◌ pure create_zone_egress
  create_egress_zones [] cidrs = pure cidrs
  create_egress_zones (zone ∷ zones) cidrs = do
    cidr ← create_zone_egress zone.name
    create_egress_zones zones (insert zone.name cidr cidrs)

  unfoldable pub create_egress_on_shoot_vms : InfrastructureConfig → Exec W (List (String × String))
  unfolding create_egress_zones
  create_egress_on_shoot_vms config = create_egress_zones config.networks.zones []

  unfoldable pub delete_egress_with : String → KubeClient W → Exec W (Unit {0})
  unfolding ◌>>=◌ and_then do_delete
  delete_egress_with zone c = do
    let name = get_egress_resource_name infra.namespace zone
    and_then (do_delete c.gateways account.project name)
        (λ r. done (passed_over (zone_text "failed to delete CloudNATGateway" zone) r))
    and_then (do_delete c.subnets account.project name)
        (λ r. done (passed_over (zone_text "failed to delete egress subnet" zone) r))

  unfoldable pub delete_zone_egress : String → Exec W (Unit {0})
  unfolding ◌>>=◌ delete_egress_with
  delete_zone_egress zone = done (client_of zone (lookup zone clients)) >>= delete_egress_with zone

  unfoldable pub delete_egress_zones : List Zone → Exec W (Unit {0})
  unfolding ◌>>=◌ pure delete_zone_egress
  delete_egress_zones [] = pure tt
  delete_egress_zones (zone ∷ zones) = do delete_zone_egress zone.name; delete_egress_zones zones

  unfoldable pub delete_egress_on_shoot_vms : InfrastructureConfig → Exec W (Unit {0})
  unfolding delete_egress_zones
  delete_egress_on_shoot_vms config = delete_egress_zones config.networks.zones
