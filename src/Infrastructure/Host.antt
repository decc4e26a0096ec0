-- ===== src/Infrastructure/Host.antt =====
-- What the infrastructure controller is given (actuator.go, pkg/cloudprofile/cloudprofile.go), what its tasks hand back, and
-- flowstate.go.
use gardener_extension_provi.Common.{String, Option, List, []}
use gardener_extension_provi.Failure.{Error, Result}
use gardener_extension_provi.Apis.{Zones, InfrastructureConfig, CloudProfileConfig}
use gardener_extension_provi.Secret.{ServiceAccount, OrgClusterConfig, Secret, SecretReference}
use gardener_extension_provi.Infrastructure.{Infrastructure, KubeClient}

-- flowstate.go
pub record FlowState : Type 0 where
  pub kind : String
  pub api_version : String
  pub data_of : List (String × String)

abbrev pub new_flow_state : FlowState
new_flow_state = record {
  kind = "FlowState";
  api_version = "gdch.provider.extensions.gardener.gdc.goog/v1alpha1";
  data_of = [];
}

-- `cloud_profile` is nil, or has a provider config that may be nil
pub record Cluster : Type 0 where
  pub cloud_profile : Option (Option String)
  -- the seed's name, "" where there is no seed
  pub seed : String

-- What the actuator is given: the decoders, the client of the seed, the loader of clients and errors.DetermineError.
pub record Host (W : Type 0) : Type 0 where
  pub decode_cloud_profile : String → Result CloudProfileConfig
  pub decode_infrastructure_config : String → Result InfrastructureConfig
  pub parse_service_account : String → Result ServiceAccount
  pub marshal : FlowState → String
  pub fetch_secret : SecretReference → W → Result Secret
  pub patch_status : Infrastructure → Infrastructure → W → Result (Unit {0}) × W
  pub load : OrgClusterConfig → ServiceAccount → Result (KubeClient W)
  pub determine : Option Error → Option Error

-- what a task hands back as `any`
pub data TaskValue : Type 0 where
  zone_subnets : List Zones → TaskValue
  egress_cidrs : List (String × String) → TaskValue
  nothing : TaskValue
