-- ===== src/Bastion.antt =====
-- pkg/controller/bastion: names.go, providerstatus.go, and what the bastion controller works on.
pub mod Choices
pub mod Objects
pub mod Reconcile
pub mod Delete
use gardener_extension_provi.Common.{ℕ, ℤ, String, concat, Bool, Option, none, some, List, [], ◌∷◌}
use gardener_extension_provi.Failure.{Error, errorf, Result, ok, err}
use gardener_extension_provi.Apis.{InfrastructureConfig, CloudProfileConfig}
use gardener_extension_provi.Secret.{ServiceAccount, OrgClusterConfig, Secret, SecretReference}
use gardener_extension_provi.Kube.{ObjectClient}

-- The Bastion resource, as far as the controller reads and writes it.
pub record Bastion : Type 0 where
  pub name : String
  pub namespace : String
  -- the CIDRs of Spec.Ingress
  pub ingress : List String
  pub user_data : String
  -- Status.ProviderStatus.Raw
  pub provider_status : Option String
  -- Status.Ingress.IP
  pub ingress_ip : Option String

pub record ProviderStatusRaw : Type 0 where
  pub zone : String

-- gardencorev1beta1.MachineType. Its CPU is what Value returns for the quantity: an int64, the amount rounded up.
pub record MachineType : Type 0 where
  pub name : String
  pub cpu : ℤ
  pub architecture : Option String

pub record ProfileImageVersion : Type 0 where
  pub version : String
  pub classification : Option String
  pub architectures : List String

pub record ProfileImage : Type 0 where
  pub name : String
  pub versions : List ProfileImageVersion

-- Of the cluster: its name, its cloud profile, and the shoot's infrastructure configuration.
pub record BastionProfile : Type 0 where
  pub provider_config : Option String
  pub machine_types : List MachineType
  pub machine_images : List ProfileImage

pub record BastionCluster : Type 0 where
  pub name : String
  pub cloud_profile : Option BastionProfile
  pub infrastructure_config : Option String

-- The objects of the GDC APIs that make up a bastion.
pub record ScriptSecret : Type 0 where
  pub name : String
  pub namespace : String
  pub script : String

pub record VirtualMachineDisk : Type 0 where
  pub name : String
  pub namespace : String
  pub image : String
  pub image_namespace : String
  pub size : String
  -- Status.Phase
  pub phase : String

pub record VirtualMachine : Type 0 where
  pub name : String
  pub namespace : String
  pub type : String
  pub disk : String
  pub script_secret : String
  -- Status.State
  pub state : String

pub record ExternalAccess : Type 0 where
  pub name : String
  pub namespace : String
  pub enabled : Bool
  pub port : ℕ
  -- Status.IngressIP
  pub ingress_ip : String

pub record ProjectNetworkPolicy : Type 0 where
  pub name : String
  pub namespace : String
  pub from : List String

pub record BastionClient (W : Type 0) : Type 0 where
  pub secrets : ObjectClient W ScriptSecret
  pub disks : ObjectClient W VirtualMachineDisk
  pub machines : ObjectClient W VirtualMachine
  pub accesses : ObjectClient W ExternalAccess
  pub policies : ObjectClient W ProjectNetworkPolicy

-- The calls that leave the package: decoders and encoding/json, the client of the organisation's cluster, and the seed's
-- API server.
pub record BastionHost (W : Type 0) : Type 0 where
  pub decode_cloud_profile : String → Result CloudProfileConfig
  pub unmarshal_config : String → Result InfrastructureConfig
  pub unmarshal_status : String → Result ProviderStatusRaw
  pub marshal_status : ProviderStatusRaw → Result String
  pub parse_account : String → Result ServiceAccount
  pub fetch_secret : SecretReference → W → Result Secret
  -- gdcclient.Get
  pub get_client : OrgClusterConfig → ServiceAccount → Result (BastionClient W)
  -- client.Status().Patch with the old bastion and the new; the server's bastion comes back
  pub patch_status : Bastion → Bastion → W → Result Bastion × W

abbrev suffixed : String → String → String
suffixed name suffix = concat (name ∷ "-" ∷ suffix ∷ [])

unfoldable pub vm_name : String → String
vm_name bastion = suffixed bastion "bastion-vm"

unfoldable pub disk_name : String → String
disk_name bastion = suffixed bastion "bastion-vm-disk"

unfoldable pub setup_script_secret_name : String → String
setup_script_secret_name bastion = suffixed bastion "bastion-setup-script"

unfoldable pub project_network_policy_name : String → String
project_network_policy_name bastion = suffixed bastion "allow-ssh"

module _ {W : Type 0} (host : BastionHost W) where
  abbrev unmarshalled : Result ProviderStatusRaw → Result (Option ProviderStatusRaw)
  unmarshalled (ok status) = ok (some status)
  unmarshalled (err e) = err (errorf "failed to parse json for status.ProviderStatus")

  abbrev pub status_of : Option String → Result (Option ProviderStatusRaw)
  status_of none = ok none
  status_of (some raw) = unmarshalled (host.unmarshal_status raw)

  unfoldable pub get_provider_status : Bastion → Result (Option ProviderStatusRaw)
  get_provider_status bastion = status_of bastion.provider_status
