-- ===== src/Validation/CloudProfile.antt =====
-- pkg/apis/gdc/validation/cloudprofile.go.
pub mod Accepted
pub mod Panic
use gardener_extension_provi.Common.{
  quoted, ℕ, ◌+◌, String, concat, Bool, not, ◌&&◌, ◌==◌, Option, none, some, List, [], ◌∷◌, ◌++◌,
  is_empty, any, allowed, if◌then◌else◌,
}
use gardener_extension_provi.Apis.{
  MachineImageVersion, MachineImages, ZoneEndpoints, OrgConfig, CloudProfileConfig,
}
use gardener_extension_provi.Validation.{
  FieldPath, child_of, index_of, required, invalid, not_supported, ErrorList, fails_if,
}

-- an image of Gardener's core.MachineImage, with its versions
pub record CoreMachineImage : Type 0 where
  pub name : String
  pub versions : List String

-- what the check of the configuration ends with: the errors, or a nil pointer that is dereferenced
pub data Checked : Type 0 where
  errors : ErrorList → Checked
  nil_dereference : Checked

abbrev pub and_also : Checked → Checked → Checked
and_also nil_dereference d = nil_dereference
and_also (errors a) nil_dereference = nil_dereference
and_also (errors a) (errors b) = errors (a ++ b)

-- v1beta1constants.ValidArchitectures
abbrev pub Architectures : Type 0
Architectures = List String

abbrev pub member : String → List String → Bool
member s l = any (λ t. t == s) l

-- the checks of the entry that maps a version; `*versionConfig.Architecture` panics on nil
unfoldable pub version_errors : Architectures → FieldPath → MachineImageVersion → Checked
version_errors valid path v = elim v.architecture [
  | none ↦ nil_dereference
  | some a ↦ errors (
      fails_if (v.image == "") (required (child_of path "image") "must provide an image")
      ++ fails_if (not (member a valid)) (not_supported (child_of path "architecture") a valid))
]

-- the inner loop, from the j-th entry on
unfoldable pub find_version :
    Architectures → FieldPath → ℕ → String → List MachineImageVersion → Checked
unfolding version_errors
find_version valid path j version [] = errors (
    required path (concat ("must provide an image mapping for version " ∷ quoted version ∷ []))
    ∷ [])
find_version valid path j version (v ∷ vs) =
    if version == v.version
    then version_errors valid (index_of path j) v
    else find_version valid path (j + 1) version vs

unfoldable pub validate_versions :
    Architectures → List MachineImageVersion → List String → FieldPath → Checked
unfolding find_version
validate_versions valid configs [] path = errors []
validate_versions valid configs (v ∷ vs) path =
    and_also (find_version valid path 0 v configs) (validate_versions valid configs vs path)

unfoldable pub find_image :
    Architectures → FieldPath → ℕ → CoreMachineImage → List MachineImages → Checked
unfolding validate_versions
find_image valid path i image [] = errors (
    fails_if (not (is_empty image.versions)) (
      required path (concat ("must provide an image mapping for image " ∷ quoted image.name ∷ []))))
find_image valid path i image (c ∷ cs) =
    if image.name == c.name
    then validate_versions valid c.versions image.versions (child_of (index_of path i) "versions")
    else find_image valid path (i + 1) image cs

unfoldable pub validate_machine_images :
    Architectures → List MachineImages → List CoreMachineImage → FieldPath → Checked
unfolding find_image
validate_machine_images valid configs [] path = errors []
validate_machine_images valid configs (image ∷ images) path =
    and_also (find_image valid path 0 image configs)
      (validate_machine_images valid configs images path)

-- the checks of an entry that is there
unfoldable pub endpoints_errors : ZoneEndpoints → List (String × Bool) → FieldPath → ErrorList
endpoints_errors z regions path =
    if z.name == ""
    then required (child_of path "name") "name must be specified for this zone entry" ∷ []
    else fails_if (not (allowed z.name regions)) (
        invalid (child_of path "name") z.name (
          concat (
            "zone " ∷ z.name
            ∷ " is not a supported zone, must be defined in the CloudProfile regions" ∷ [])))
      ++ (fails_if (z.management_api == "") (
            required (child_of path "managementAPI")
              "managementAPI must be specified for this zone entry")
          ++ fails_if (z.infrastructure_api == "") (
              required (child_of path "infrastructureAPI")
                "infrastructureAPI must be specified for this zone entry"))

unfoldable pub validate_zone_endpoints :
    Option ZoneEndpoints → List (String × Bool) → FieldPath → Checked
unfolding endpoints_errors
validate_zone_endpoints none regions path = nil_dereference
validate_zone_endpoints (some z) regions path = errors (endpoints_errors z regions path)

unfoldable pub validate_registry_config : OrgConfig → FieldPath → ErrorList
validate_registry_config o path =
    fails_if (not (o.registry_url == "") && o.ca_data == "")
      (required (child_of path "caData") "caData must be specified when registryURL is set")

unfoldable pub validate_zones_endpoints :
    ℕ → List (Option ZoneEndpoints) → List (String × Bool) → FieldPath → Checked
unfolding validate_zone_endpoints
validate_zones_endpoints i [] regions path = errors []
validate_zones_endpoints i (z ∷ zs) regions path =
    and_also (validate_zone_endpoints z regions (index_of path i))
      (validate_zones_endpoints (i + 1) zs regions path)

unfoldable pub validate_org_config : Option OrgConfig → FieldPath → List (String × Bool) → Checked
unfolding validate_zones_endpoints validate_registry_config
validate_org_config none path regions = errors (required path "must provide an orgConfig" ∷ [])
validate_org_config (some o) path regions =
    and_also
      (if is_empty o.zones
        then errors (required (child_of path "zones") "At least one zone must be specified" ∷ [])
        else validate_zones_endpoints 0 o.zones regions (child_of path "zones"))
      (errors (validate_registry_config o path))

unfoldable pub validate_cloud_profile_config :
    Architectures
    → CloudProfileConfig
    → List CoreMachineImage
    → FieldPath
    → List (String × Bool)
    → Checked
unfolding validate_machine_images validate_org_config
validate_cloud_profile_config valid c images path regions =
    and_also (validate_machine_images valid c.machine_images images (child_of path "machineImages"))
      (validate_org_config c.org_config (child_of path "orgConfig") regions)
