-- ===== src/Worker/Objects.antt =====
-- pkg/controller/worker/machine_class.go, pkg/apis/gdc/types_worker.go, and the parts of Gardener's Worker that the
-- controller reads. A Go pointer, and a map that can be nil, is an `Option`.
use gardener_extension_provi.Common.{ℕ, String, Bool, Option, List}
use gardener_extension_provi.Failure.{Error, Result}
use gardener_extension_provi.Apis.{InfrastructureStatus, CloudProfileConfig}
use gardener_extension_provi.Secret.{ServiceAccount, Secret, SecretReference}
use gardener_extension_provi.Validation.Workers.{ResourceList}

-- extensionsv1alpha1.NodeTemplate
pub record PoolTemplate : Type 0 where
  pub capacity : Option ResourceList
  pub virtual_capacity : Option ResourceList

pub record WorkerConfig : Type 0 where
  pub node_template : Option PoolTemplate

pub record MachineImage : Type 0 where
  pub name : String
  pub project : String
  pub version : String
  pub image : String
  pub architecture : Option String

pub record WorkerStatus : Type 0 where
  pub machine_images : List MachineImage

pub record PoolVolume : Type 0 where
  pub type : Option String
  pub size : String

pub record DataVolume : Type 0 where
  pub name : String
  pub type : Option String
  pub size : String

-- intstr.IntOrString
pub data IntOrString : Type 0 where
  int : ℕ → IntOrString
  string : String → IntOrString

pub record WorkerPool : Type 0 where
  pub name : String
  pub machine_type : String
  pub image_name : String
  pub image_version : String
  pub architecture : Option String
  pub zones : List String
  pub minimum : ℕ
  pub maximum : ℕ
  pub max_surge : IntOrString
  pub max_unavailable : IntOrString
  pub labels : List (String × String)
  pub annotations : List (String × String)
  pub taints : List String
  pub volume : Option PoolVolume
  pub data_volumes : List DataVolume
  -- ProviderConfig, and its Raw
  pub provider_config : Option (Option String)
  pub node_template : Option PoolTemplate

-- runtime.RawExtension
pub record ProviderStatus : Type 0 where
  pub raw : String
  pub object : Option WorkerStatus

pub record WorkerResource : Type 0 where
  pub name : String
  pub namespace : String
  pub region : String
  pub secret_ref : SecretReference
  -- Spec.InfrastructureProviderStatus.Raw; `none` where the pointer is nil
  pub infrastructure_provider_status : Option String
  pub pools : List WorkerPool
  pub provider_status : Option ProviderStatus

pub record CloudProfile : Type 0 where
  pub name : String
  pub provider_config : Option (Option String)

pub record Cluster : Type 0 where
  pub name : String
  pub cloud_profile : Option CloudProfile

pub record Disk : Type 0 where
  pub auto_delete : Bool
  pub boot : Bool
  pub size_gb : ℕ
  pub labels : List (String × String)
  pub image : String
  pub project : String
  pub type : String

-- machinev1alpha1.NodeTemplate
pub record MachineTemplate : Type 0 where
  pub capacity : Option ResourceList
  pub virtual_capacity : Option ResourceList
  pub instance_type : String
  pub region : String
  pub zone : String

-- AddressPoolName is left out: the controller never sets it.
pub record MachineClass : Type 0 where
  pub name : String
  pub resource_labels : List (String × String)
  pub project : String
  pub annotations : List (String × String)
  pub labels : List (String × String)
  pub disks : List Disk
  -- Secret.CloudConfig
  pub cloud_config : String
  pub credentials_secret_ref : SecretReference
  pub node_template : Option MachineTemplate
  pub subnet_name : String
  pub machine_type : String
  pub ca_data : String
  pub org_cluster_url : String
  pub registry_url : String
  pub enable_egress : Option Bool

-- worker.MachineDeployment, with the update strategy's two bounds
pub record MachineDeployment : Type 0 where
  pub name : String
  pub pool_name : String
  pub class_name : String
  pub secret_name : String
  pub minimum : ℕ
  pub maximum : ℕ
  pub max_unavailable : IntOrString
  pub max_surge : IntOrString
  pub labels : List (String × String)
  pub annotations : List (String × String)
  pub taints : List String
  pub machine_configuration : String

-- The calls that leave the package: decoders and json.Marshal, Gardener's worker library, the seed's API server and the
-- chart applier. None is part of the repository.
pub record Surroundings (W : Type 0) : Type 0 where
  pub decode_infrastructure_status : String → Result InfrastructureStatus
  pub decode_worker_config : String → Result WorkerConfig
  pub marshal_worker_config : WorkerConfig → Result String
  pub decode_worker_status : String → Result WorkerStatus
  pub decode_cloud_profile : String → Result CloudProfileConfig
  pub parse_service_account : String → Result ServiceAccount
  -- worker.DiskSize, ErrorMachineImageNotFound, WorkerPoolHash, DistributeOverZones, DistributePositiveIntOrPercent
  pub disk_size : String → Result ℕ
  pub image_not_found : String → String → String → Error
  pub pool_hash : WorkerPool → Cluster → List String → List String → Result String
  pub distribute_over_zones : ℕ → ℕ → ℕ → ℕ
  pub distribute_int_or_percent : ℕ → IntOrString → ℕ → ℕ → IntOrString
  -- utils.MergeStringMaps
  pub merge_string_maps : List (String × String) → List (String × String) → List (String × String)
  -- genericactuator.ReadMachineConfiguration
  pub read_machine_configuration : WorkerPool → String
  pub fetch_secret : SecretReference → W → Result Secret
  -- worker.FetchUserData
  pub fetch_user_data : String → WorkerPool → W → Result String
  -- client.Get of a MachineDeployment, by namespace and name
  pub get_deployment : String → String → W → Result (Unit {0})
  pub apply_machine_classes : String → List MachineClass → W → Result (Unit {0}) × W
  -- scheme.Convert to the versioned status
  pub convert_status : WorkerStatus → Result WorkerStatus
  -- client.Status().Patch with the old worker and the new
  pub patch_status : WorkerResource → WorkerResource → W → Result WorkerResource × W
