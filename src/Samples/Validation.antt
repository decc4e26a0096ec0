-- ===== src/Samples/Validation.antt =====
-- Configurations that the theorems on the validations are applied to.
use gardener_extension_provi.Common.{
  ℤ, pos, ◌+◌, ◌/◌, arith, String, ◌≡◌, ◌≢◌, refl, ◌↔◌, Bool, true, false, ◌==◌, Option, none, some,
  List, [], ◌∷◌, All, first, inl, if◌then◌else◌,
}
use gardener_extension_provi.Failure.{Result, ok}
use gardener_extension_provi.Apis.{
  Zone, NetworkConfig, InfrastructureConfig, OrgConfig, CloudProfileConfig,
}
use gardener_extension_provi.Secret.{ServiceAccount, OrgClusterConfig}
use gardener_extension_provi.Infrastructure.{KubeClient, Zonal}
use gardener_extension_provi.Infrastructure.Clients.{
  zone_clients, create_kube_clients, find_management_url,
}
use gardener_extension_provi.Infrastructure.Clients.Complete.{
  HasClient, create_kube_clients_complete,
}
use gardener_extension_provi.Validation.{FieldPath, child_of, invalid, CidrChecks}
use gardener_extension_provi.Validation.InfrastructureConfig.{validate_infrastructure_config}
use gardener_extension_provi.Validation.InfrastructureConfig.Zones.{ZonesFit, Disjoint}
use gardener_extension_provi.Validation.InfrastructureConfig.Accepted.{
  IsNodeRange, HasParent, validate_infrastructure_config_iff,
}
use gardener_extension_provi.Validation.Workers.{
  Worker, Quantity, NodeTemplate, validate_workers, validate_worker_config,
}
use gardener_extension_provi.Validation.Workers.Accepted.{
  Distinct, IsComplete, validate_workers_iff,
}
use gardener_extension_provi.Validation.Workers.Resources.{
  RoundsUp, HasSoundTemplate, validate_worker_config_iff,
}
use gardener_extension_provi.Validation.CloudProfile.{
  CoreMachineImage, errors, nil_dereference, Architectures, validate_cloud_profile_config,
}
use gardener_extension_provi.Validation.CloudProfile.Accepted.{
  IsMapped, IsOrg, validate_cloud_profile_config_iff,
}
use gardener_extension_provi.Validation.CloudProfile.Panic.{
  missing_architecture_panics, nil_zone_panics,
}
use gardener_extension_provi.Samples.World.{World, client}

abbrev root : FieldPath
root = []

-- ranges overlap where their texts agree
abbrev pub checks : CidrChecks
checks = record {
  parse = λ s p. [];
  is_canonical = λ p s. [];
  subset = λ outer inner p. [];
  not_overlap = λ c d. if c == d then invalid root c "overlaps" ∷ [] else [];
}

abbrev pub zone_a : Zone
zone_a = record { name = "zone-a"; cidr = "10.0.0.0/24" }

abbrev pub zone_b : Zone
zone_b = record { name = "zone-b"; cidr = "10.0.1.0/24" }

abbrev pub networks : NetworkConfig
networks = record {
  parent_address_pool_claim = "";
  node_cidr = "10.0.0.0/16";
  parent_subnet = "parent";
  parent_subnet_project = "";
  parent_reference = none;
  zones = zone_a ∷ zone_b ∷ [];
}

abbrev regions : List (String × Bool)
regions = ("zone-a", true) ∷ ("zone-b", true) ∷ []

two_zones_accepted : (validate_infrastructure_config checks networks regions none root ≡ []) ↔ (
    IsNodeRange checks networks regions none root (child_of (child_of root "networks") "nodecidr")
    × HasParent "parent" none
    × (networks.zones ≢ [])
    × ZonesFit checks regions (child_of root "networks") "10.0.0.0/16" 0 networks.zones
    × Disjoint checks networks.zones)
two_zones_accepted = validate_infrastructure_config_iff checks networks regions none root

abbrev pub workers : List Worker
workers =
    record {
      name = "pool";
      zones = "zone-a" ∷ [];
      volume = some (record { type = some "ssd"; size = "50Gi" });
    }
    ∷ []

one_pool_accepted :
    (validate_workers workers regions (zone_a ∷ zone_b ∷ []) root ≡ [])
    ↔ (Distinct workers × All (IsComplete regions (zone_a ∷ zone_b ∷ [])) workers)
one_pool_accepted = validate_workers_iff regions (zone_a ∷ zone_b ∷ []) workers root

abbrev half : Quantity
half = record { negative = false; nanos = 500000000; text = "500m" }

abbrev nearly_one : Quantity
nearly_one = record { negative = false; nanos = 999999000; text = "999999u" }

abbrev template : Option (Option NodeTemplate)
template =
    some
      (some (record { capacity = ("cpu", half) ∷ []; virtual_capacity = ("gpu", nearly_one) ∷ [] }))

-- MilliValue, without the bound of an int64
abbrev rounded_up : Quantity → ℤ
rounded_up q = pos ((q.nanos + 999999) / 1000000)

rounded_up-RoundsUp : RoundsUp rounded_up
rounded_up-RoundsUp q sign fits = ((q.nanos + 999999) / 1000000, refl, omega arith, omega arith)

nearly_one_is_taken :
    (validate_worker_config rounded_up template root ≡ []) ↔ HasSoundTemplate template
nearly_one_is_taken =
    validate_worker_config_iff rounded_up rounded_up-RoundsUp template root (omega arith, tt)

abbrev pub org : OrgConfig
org = record {
  org_name = "org";
  global_management_api = "https://global";
  registry_url = "";
  ca_data = "";
  zones =
      some (record {
        name = "zone-a";
        management_api = "https://zone-a";
        infrastructure_api = "https://infra-a";
      })
      ∷ [];
}

abbrev pub profile : Option String → CloudProfileConfig
profile architecture = record {
  machine_images =
      record {
        name = "ubuntu";
        project = "images";
        versions =
            record { version = "22.4"; image = "ubuntu-22.4"; architecture = architecture } ∷ [];
      }
      ∷ [];
  org_config = some org;
}

abbrev images : List CoreMachineImage
images = record { name = "ubuntu"; versions = "22.4" ∷ [] } ∷ []

abbrev architectures : Architectures
architectures = "amd64" ∷ "arm64" ∷ []

sample_profile_accepted :
    (validate_cloud_profile_config architectures (profile (some "amd64")) images root regions
      ≡ errors [])
    ↔ (All
          (λ image.
            IsMapped architectures image
              (first (λ m. image.name == m.name) (profile (some "amd64")).machine_images))
          images
        × IsOrg regions (profile (some "amd64")).org_config)
sample_profile_accepted =
    validate_cloud_profile_config_iff architectures (profile (some "amd64")) images root regions

unmapped_architecture :
    validate_cloud_profile_config architectures (profile none) images root regions ≡ nil_dereference
unmapped_architecture =
    missing_architecture_panics architectures (profile none) images root regions (inl (inl refl))

-- `zones: [null]`
abbrev org_with_nil : OrgConfig
org_with_nil = record org { zones = none ∷ [] }

zone_left_null :
    validate_cloud_profile_config architectures
      (record (profile (some "amd64")) { org_config = some org_with_nil })
      images
      root
      regions
    ≡ nil_dereference
zone_left_null =
    nil_zone_panics architectures
      (record (profile (some "amd64")) { org_config = some org_with_nil }) images root regions
      org_with_nil refl (inl refl)

abbrev account : ServiceAccount
account = record {
  name = "robot";
  project = "project";
  token_uri = "";
  private_key_id = "";
  private_key = "";
}

abbrev pub one_zone : InfrastructureConfig
one_zone = record { networks = record networks { zones = zone_a ∷ [] }; enable_egress = none }

abbrev made_clients : Zonal World
made_clients = ("zone-a", client) ∷ []

abbrev load : OrgClusterConfig → ServiceAccount → Result (KubeClient World)
load c a = ok client

one_client :
    (o : OrgConfig) × ((profile none).org_config ≡ some o)
    × (o.global_management_api ≢ "")
    × (load (record { org_cluster_url = o.global_management_api; ca_data = o.ca_data }) account
        ≡ ok client)
    × (one_zone.networks.zones ≢ [])
    × All (HasClient load account o made_clients) one_zone.networks.zones
unfolding create_kube_clients zone_clients find_management_url
one_client =
    create_kube_clients_complete load account (profile none) one_zone client made_clients refl
