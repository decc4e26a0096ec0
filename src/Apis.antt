-- ===== src/Apis.antt =====
-- The provider's configuration and status types: pkg/apis/gdc/types_infrastructure.go, types_cloudprofile.go and
-- types_worker.go. A Go pointer is an `Option`, a map a list of its entries. TypeMeta is left out: nothing reads it.
use gardener_extension_provi.Common.{String, Bool, Option, List, true, ◌==◌, none, some}

-- "SingleSubnet" or "SubnetGroup"; Go's type is a string, so any text can stand there
abbrev pub ReferenceType : Type 0
ReferenceType = String

abbrev pub single_subnet : ReferenceType
single_subnet = "SingleSubnet"

pub record SubnetReference : Type 0 where
  pub name : String
  pub namespace : Option String
  pub type : ReferenceType

pub record Zone : Type 0 where
  pub name : String
  pub cidr : String

pub record NetworkConfig : Type 0 where
  pub parent_address_pool_claim : String
  pub node_cidr : String
  pub parent_subnet : String
  pub parent_subnet_project : String
  pub parent_reference : Option SubnetReference
  pub zones : List Zone

pub record InfrastructureConfig : Type 0 where
  pub networks : NetworkConfig
  pub enable_egress : Option Bool

pub record Zones : Type 0 where
  pub name : String
  pub subnet : String

pub record NetworkStatus : Type 0 where
  pub node_address_pool_claim : String
  pub node_cidr : String
  pub node_subnet : String
  pub zones : List Zones

pub record InfrastructureStatus : Type 0 where
  pub enable_egress : Option Bool
  pub networks : NetworkStatus

pub record MachineImageVersion : Type 0 where
  pub version : String
  pub image : String
  pub architecture : Option String

pub record MachineImages : Type 0 where
  pub name : String
  pub project : String
  pub versions : List MachineImageVersion

pub record ZoneEndpoints : Type 0 where
  pub name : String
  pub management_api : String
  pub infrastructure_api : String

-- the zones are pointers, and may be nil
pub record OrgConfig : Type 0 where
  pub org_name : String
  pub global_management_api : String
  pub registry_url : String
  pub ca_data : String
  pub zones : List (Option ZoneEndpoints)

-- where a loop that looks for the zone of a name comes to its end
abbrev pub stops_at : String → Option ZoneEndpoints → Bool
stops_at name none = true
stops_at name (some z) = z.name == name

pub record CloudProfileConfig : Type 0 where
  pub machine_images : List MachineImages
  pub org_config : Option OrgConfig
