-- ===== src/Infrastructure.antt =====
-- pkg/controller/infrastructure/actuator.go: what the infrastructure controller works on, and the names of its objects.
pub mod Ready
pub mod Deletion
pub mod Root
pub mod Zonal
pub mod Egress
pub mod Clients
pub mod Host
pub mod Actuator
use gardener_extension_provi.Common.{
  String, concat, ◌≡◌, Option, none, some, List, [], ◌∷◌, lookup, Bool, if◌then◌else◌,
}
use text.Mathlib.Text.{starts_with}
use gardener_extension_provi.Failure.{panic}
use gardener_extension_provi.Apis.{InfrastructureStatus}
use gardener_extension_provi.Action.{Exec, pure, fail}
use gardener_extension_provi.Kube.{ObjectClient, Subnet, Gateway}

-- The Infrastructure resource, as far as the controller reads and writes it.
pub record Infrastructure : Type 0 where
  pub name : String
  pub namespace : String
  pub uid : String
  -- Spec.ProviderConfig.Raw; `none` where ProviderConfig is nil
  pub provider_config : Option String
  pub provider_status : Option InfrastructureStatus
  pub egress_cidrs : List String
  -- Status.State, a JSON text
  pub state : Option String

-- A client of one API server, for each kind of object that the controller handles there.
pub record KubeClient (W : Type 0) : Type 0 where
  pub global_subnets : ObjectClient W Subnet
  pub subnets : ObjectClient W Subnet
  pub gateways : ObjectClient W Gateway

abbrev pub Zonal : Type 0 → Type 0
Zonal W = List (String × KubeClient W)

-- `zonalKubeClients[zone]` with a call on what it gives: a missing client is a nil interface
abbrev pub some_client : {W : Type 0} → Option (KubeClient W) → Exec W (KubeClient W)
some_client none = fail (panic "nil client")
some_client (some c) = pure c

unfoldable pub zonal_client : {W : Type 0} → String → Zonal W → Exec W (KubeClient W)
unfolding pure fail
zonal_client zone clients = some_client (lookup zone clients)

abbrev pub zone_subnet_name : String → String → String
zone_subnet_name infra zone = concat (infra ∷ "-" ∷ zone ∷ [])

abbrev pub zone_network_subnet_name : String → String → String
zone_network_subnet_name infra zone = concat ("z-" ∷ infra ∷ "-" ∷ zone ∷ [])

abbrev pub get_egress_resource_name : String → String → String
get_egress_resource_name shoot zone = concat (shoot ∷ "-" ∷ zone ∷ [])

-- the key and the value of the ownership label
abbrev pub get_ownership_labels : String → String → String → String → String × String
get_ownership_labels project shoot seed zone =
    (concat ("shootcontrolplane-" ∷ project ∷ "-" ∷ shoot ∷ []), concat (zone ∷ "-" ∷ seed ∷ []))

-- Go visits a map in an order of its own; the model takes the order of the list.
unfoldable pub get_existing_owner_label : List (String × String) → String
get_existing_owner_label [] = "unknown"
get_existing_owner_label ((k, v) ∷ labels) =
    if starts_with k "shootcontrolplane-"
    then concat (k ∷ ": " ∷ v ∷ [])
    else get_existing_owner_label labels
