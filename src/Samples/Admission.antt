-- ===== src/Samples/Admission.antt =====
-- Runs of the theorems on admissions.
use gardener_extension_provi.Admission.NamespacedCloudProfile.{
  get_deleted_versions, shoots_in_use, validate_profile_update,
}
use gardener_extension_provi.Admission.BackupBucket.{
  backup_config_eq, get_effective_retention_days, validate_checksum_value, validate_seed,
}
use gardener_extension_provi.Validation.Workers.{validate_workers}
use gardener_extension_provi.Validation.InfrastructureConfig.{
  validate_infrastructure_config, validate_networking,
}
use gardener_extension_provi.Admission.{and_if, get_allowed_zones}
use gardener_extension_provi.Admission.Shoot.{
  config_eq, new_validation_context, overlaps, provider_config_errors, validate_context,
  validate_create, validate_node_cidr_not_overlap, validate_shoot, validate_update,
}
use gardener_extension_provi.Common.{
  ℕ, ◌^◌, ◌*◌, ◌+◌, String, ◌≡◌, refl, ◌↔◌, true, false, ◌==◌, none, some, List, [], ◌∷◌, All,
  is_empty, if◌then◌else◌, pos, ◌/◌,
}
use gardener_extension_provi.Failure.{ok}
use gardener_extension_provi.Apis.{InfrastructureConfig, MachineImages}
use gardener_extension_provi.Immutability.{target_of}
use gardener_extension_provi.Admission.{Decoders}
use gardener_extension_provi.Admission.Ranges.{IpNet, In, cidr_overlap, cidr_overlap_iff}
use gardener_extension_provi.Admission.Shoot.{Shoot, ShootAdmission}
use gardener_extension_provi.Admission.Shoot.Disjoint.{OwnRange}
use gardener_extension_provi.Admission.Shoot.Update.{
  admitted_update_keeps_parent, admitted_shoot_shares_no_address,
}
use gardener_extension_provi.Admission.BackupBucket.{BackupBucketConfig, Seed}
use gardener_extension_provi.Admission.BackupBucket.Immutable.{
  SameConfig, admitted_backup_is_unchanged,
}
use gardener_extension_provi.Admission.NamespacedCloudProfile.{
  NamespacedProfile, UsingShoot, ProfileAdmission,
}
use gardener_extension_provi.Admission.NamespacedCloudProfile.InUse.{
  ShootKeeps, admitted_profile_keeps_what_is_used,
}
use gardener_extension_provi.Admission.Merge.{merge_machine_images}
use gardener_extension_provi.Admission.Merge.Named.{named, last_named, joined_images, named-merge}
use gardener_extension_provi.Samples.Validation.{checks, networks, profile}

-- 10.0.0.0/16 and 10.1.0.0/16
abbrev first_range : IpNet
first_range = record { bits = 32; base = 10 * 2 ^ 24; prefix = 16; text = "10.0.0.0/16" }

abbrev second_range : IpNet
second_range = record { bits = 32; base = 10 * 2 ^ 24 + 2 ^ 16; prefix = 16; text = "10.1.0.0/16" }

ranges_of_two :
    (cidr_overlap (some first_range) (some second_range) ≡ true)
    ↔ ((ip : ℕ) × In 32 ip first_range × In 32 ip second_range)
ranges_of_two = cidr_overlap_iff first_range second_range

abbrev sample_config : InfrastructureConfig
sample_config = record { networks = networks; enable_egress = none }

abbrev other_config : InfrastructureConfig
other_config = record sample_config { networks = record networks { node_cidr = "10.1.0.0/16" } }

abbrev sample_decoders : Decoders
sample_decoders = record {
  infrastructure = λ raw. if raw == "mine" then ok sample_config else ok other_config;
  cloud_profile = λ raw. ok (profile (some "amd64"));
  worker = λ raw. ok none;
}

abbrev sample_shoot : Shoot
sample_shoot = record {
  namespace = "garden-a";
  name = "mine";
  profile_name = some "gdc";
  networking = some (some "10.0.0.0/16");
  infrastructure_config = some "mine";
  workers =
      record {
        worker = record {
          name = "pool";
          zones = "zone-a" ∷ [];
          volume = some (record { type = some "ssd"; size = "50Gi" });
        };
        provider_config = none;
      }
      ∷ [];
}

abbrev other_shoot : Shoot
other_shoot = record sample_shoot { name = "other"; infrastructure_config = some "other" }

abbrev sample_admission : ShootAdmission
sample_admission = record {
  checks = checks;
  strict = sample_decoders;
  lenient = sample_decoders;
  is_workerless = λ shoot. is_empty shoot.workers;
  convert = λ shoot. ok shoot;
  get_cloud_profile = λ shoot. ok (
      some record {
        name = "gdc";
        provider_config = some "profile";
        regions = record { name = "region"; zones = "zone-a" ∷ "zone-b" ∷ [] } ∷ [];
      });
  list_shoots = ok (other_shoot ∷ []);
  parse_cidr = λ text. if text == "10.0.0.0/16" then ok first_range else ok second_range;
  milli_value = λ q. pos ((q.nanos + 999999) / 1000000);
}

shoot_beside_another :
    (config : InfrastructureConfig) × (raw : String) × (sample_shoot.infrastructure_config
      ≡ some raw)
    × (sample_admission.strict.infrastructure raw ≡ ok config)
    × OwnRange sample_admission sample_shoot config (other_shoot ∷ [])
unfolding validate_shoot validate_create and_if new_validation_context validate_context
    validate_node_cidr_not_overlap overlaps validate_networking validate_infrastructure_config
    get_allowed_zones validate_workers provider_config_errors
shoot_beside_another =
    admitted_shoot_shares_no_address sample_admission sample_shoot none (some "10.0.0.0/16")
      (other_shoot ∷ []) refl refl refl refl

shoot_updated :
    (before after : InfrastructureConfig) × (was is : String) × (sample_shoot.infrastructure_config
      ≡ some was)
    × (sample_admission.lenient.infrastructure was ≡ ok before)
    × (sample_shoot.infrastructure_config ≡ some is)
    × (sample_admission.strict.infrastructure is ≡ ok after)
    × (after.networks.node_cidr ≡ before.networks.node_cidr)
    × (target_of after.networks after.networks.parent_reference
        ≡ target_of before.networks before.networks.parent_reference)
unfolding validate_update and_if new_validation_context validate_context
    validate_node_cidr_not_overlap overlaps validate_networking validate_infrastructure_config
    get_allowed_zones validate_workers provider_config_errors config_eq
shoot_updated = admitted_update_keeps_parent sample_admission sample_shoot sample_shoot refl

abbrev bucket_config : BackupBucketConfig
bucket_config = record {
  dual_zone_bucket_location = "";
  request_checksum_calculation = "WHEN_REQUIRED";
  response_checksum_validation = "";
  default_object_retention_days = some (pos 7);
}

abbrev sample_seed : Seed
sample_seed = record { annotations = []; backup = some (some "config") }

backup_of_a_seed : SameConfig (λ raw. ok bucket_config) (some "config") (some "config")
unfolding validate_seed and_if validate_checksum_value get_effective_retention_days backup_config_eq
backup_of_a_seed =
    admitted_backup_is_unchanged (λ raw. ok bucket_config) sample_seed sample_seed (some "config")
      (some "config") refl refl refl refl

abbrev old_profile : NamespacedProfile
old_profile = record {
  namespace = "garden-a";
  name = "profile";
  deleting = false;
  parent_kind = "CloudProfile";
  parent_name = "gdc";
  provider_config = none;
  kubernetes = some ("1.30.0" ∷ "1.31.0" ∷ []);
  machine_images = record { name = "ubuntu"; versions = "22.4" ∷ [] } ∷ [];
}

abbrev new_profile : NamespacedProfile
new_profile = record old_profile { kubernetes = some ("1.31.0" ∷ []) }

abbrev using : UsingShoot
using = record {
  name = "mine";
  kubernetes_version = "1.31.0";
  images = some ("ubuntu", some "22.4") ∷ [];
}

abbrev profile_admission : ProfileAdmission
profile_admission = record {
  valid_architectures = "amd64" ∷ [];
  decode = λ raw. ok (profile (some "amd64"));
  list_using = λ ns name. ok (using ∷ []);
  get_parent = λ name. ok record { regions = []; machine_images = [] };
}

version_not_in_use_removed : All (ShootKeeps old_profile new_profile) (using ∷ [])
unfolding validate_profile_update get_deleted_versions and_if shoots_in_use
version_not_in_use_removed =
    admitted_profile_keeps_what_is_used profile_admission old_profile new_profile (using ∷ []) refl
      refl

abbrev ubuntu : String → String → List MachineImages
ubuntu version project =
    record {
      name = "ubuntu";
      project = project;
      versions = record { version = version; image = "image"; architecture = some "amd64" } ∷ [];
    }
    ∷ []

ubuntu_of_both_lists :
    named "ubuntu" (merge_machine_images (ubuntu "24.4" "images") (ubuntu "22.4" "images"))
    ≡ joined_images "ubuntu"
        (last_named "ubuntu" (ubuntu "22.4" "images") none)
        (last_named "ubuntu" (ubuntu "24.4" "images") none)
ubuntu_of_both_lists = named-merge "ubuntu" (ubuntu "24.4" "images") (ubuntu "22.4" "images")
