-- ===== src/Bastion/Choices.antt =====
-- pkg/controller/bastion/actuator_reconcile.go: the zone, the machine type and the image of a bastion.
pub mod Smallest
use gardener_extension_provi.Common.{
  ℤ, ltb_ℤ, ℕ, String, concat, quoted, Bool, true, false, not, ◌&&◌, ◌==◌, ltb, is_empty, Option,
  none, some, List, [], ◌∷◌, lookup, insert, opt_eq, any, if◌then◌else◌,
}
use gardener_extension_provi.Failure.{Error, errorf, wrap, panic, Result, ok, err}
use gardener_extension_provi.Apis.{
  Zone, InfrastructureConfig, MachineImageVersion, MachineImages, ZoneEndpoints, OrgConfig,
  CloudProfileConfig,
}
use gardener_extension_provi.Secret.{OrgClusterConfig}
use gardener_extension_provi.Bastion.{
  Bastion, ProviderStatusRaw, MachineType, ProfileImageVersion, ProfileImage, BastionCluster,
  BastionHost,
}

-- the machine that is held so far: its name, its architecture and its CPUs
abbrev pub Held : Type 0
Held = Option (String × String × ℤ)

abbrev pub fewer : MachineType → String → Held → Held
fewer m arch none = some (m.name, arch, m.cpu)
fewer m arch (some (name, old, least)) =
    if ltb_ℤ m.cpu least then some (m.name, arch, m.cpu) else some (name, old, least)

abbrev pub consider : MachineType → Option String → Held → Held
consider m none held = held
consider m (some arch) held = fewer m arch held

-- the loop of findMostSuitableMachineType
unfoldable pub smallest_machine : List MachineType → Held → Held
smallest_machine [] held = held
smallest_machine (m ∷ ms) held = smallest_machine ms (consider m m.architecture held)

abbrev pub or_none_found : Held → Result (String × String)
or_none_found none = err (errorf "no suitable machine found")
or_none_found (some (name, arch, cpu)) = ok (name, arch)

unfoldable pub find_most_suitable_machine_type : List MachineType → Result (String × String)
unfolding smallest_machine
find_most_suitable_machine_type types = or_none_found (smallest_machine types none)

abbrev pub with_project : MachineImages → MachineImages
with_project image = if image.project == "" then record image { project = "vm-system" } else image

abbrev pub images_by_name :
    List (String × MachineImages) → List MachineImages → List (String × MachineImages)
images_by_name m [] = m
images_by_name m (i ∷ is) = images_by_name (insert i.name (with_project i) m) is

abbrev pub is_suitable : String → ProfileImageVersion → Bool
is_suitable arch v =
    opt_eq v.classification (some "supported") && any (λ a. a == arch) v.architectures

-- the innermost loop
abbrev pub version_named : String → List MachineImageVersion → Option MachineImageVersion
version_named version [] = none
version_named version (v ∷ vs) = if v.version == version then some v else version_named version vs

abbrev pub version_of : Option MachineImages → String → Option (MachineImages × MachineImageVersion)
version_of none version = none
version_of (some image) version = elim (version_named version image.versions) [
  | none ↦ none
  | some v ↦ some (image, v)
]

abbrev pub or_else :
    Option (MachineImages × MachineImageVersion)
    → Option (MachineImages × MachineImageVersion)
    → Option (MachineImages × MachineImageVersion)
or_else none later = later
or_else (some found) later = some found

-- the loop over the versions of an image of the cloud profile
unfoldable pub first_version :
    Option MachineImages
    → String
    → List ProfileImageVersion
    → Option (MachineImages × MachineImageVersion)
first_version image arch [] = none
first_version image arch (v ∷ vs) =
    or_else (if is_suitable arch v then version_of image v.version else none)
      (first_version image arch vs)

unfoldable pub first_image :
    List (String × MachineImages)
    → String
    → List ProfileImage
    → Option (MachineImages × MachineImageVersion)
unfolding first_version
first_image configured arch [] = none
first_image configured arch (i ∷ is) =
    or_else (first_version (lookup i.name configured) arch i.versions)
      (first_image configured arch is)

unfoldable pub get_gdch_machine_image :
    List ProfileImage → String → List MachineImages → Result (MachineImages × MachineImageVersion)
unfolding first_image
get_gdch_machine_image images arch configured =
    elim (first_image (images_by_name [] configured) arch images) [
      | none ↦
          err (errorf (concat ("could not find any supported bastion image for arch " ∷ arch ∷ [])))
      | some found ↦ ok found
    ]

abbrev pub first_zone : List Zone → String
first_zone [] = ""
first_zone (z ∷ zs) = z.name

module _ {W : Type 0} (host : BastionHost W) where
  abbrev pub configured_zone : Option String → Result String
  configured_zone none = err (errorf "InfrastructureConfig is nil")
  configured_zone (some raw) = elim (host.unmarshal_config raw) [
    | err e ↦ err (wrap "error unmarshalling provider status:" e)
    | ok config ↦ ok (first_zone config.networks.zones)
  ]

  unfoldable pub get_bastion_zone : BastionCluster → Option ProviderStatusRaw → Result String
  get_bastion_zone cluster (some status) = ok status.zone
  get_bastion_zone cluster none = configured_zone cluster.infrastructure_config

-- the loop over the zones; "" where none has the name
unfoldable pub management_url : String → List (Option ZoneEndpoints) → Result String
management_url zone [] = ok ""
management_url zone (none ∷ zs) = err (panic "nil ZoneEndpoints")
management_url zone (some z ∷ zs) =
    if z.name == zone then ok z.management_api else management_url zone zs

abbrev pub with_url : String → OrgConfig → Result String → Result OrgClusterConfig
with_url zone org (err e) = err e
with_url zone org (ok url) =
    if url == ""
    then err (errorf (concat ("OrgClusterURL is empty for target zone " ∷ quoted zone ∷ [])))
    else ok (record { org_cluster_url = url; ca_data = org.ca_data })

-- a nil OrgConfig is dereferenced
abbrev pub org_config_for : String → Option OrgConfig → Result OrgClusterConfig
org_config_for zone none = err (panic "nil OrgConfig")
org_config_for zone (some org) =
    if is_empty org.zones
    then err (errorf "could not get zones from cloud profile")
    else with_url zone org (management_url zone org.zones)

unfoldable pub get_org_config : CloudProfileConfig → String → Result OrgClusterConfig
unfolding management_url
get_org_config profile zone = org_config_for zone profile.org_config
