-- ===== src/Admission/NamespacedCloudProfile/Images.antt =====
-- pkg/admission/validator/namespacedcloudprofile.go: the machine images of a namespaced cloud profile, and Validate.
use gardener_extension_provi.Common.{
  ℕ, ◌+◌, String, concat, Bool, true, false, not, ◌&&◌, Option, none, some, List, [], ◌∷◌, ◌++◌,
  lookup, insert, if◌then◌else◌,
}
use gardener_extension_provi.Failure.{wrap}
use gardener_extension_provi.Apis.{MachineImageVersion, MachineImages, CloudProfileConfig}
use gardener_extension_provi.Validation.{
  FieldPath, child_of, index_of, required, invalid, not_supported, forbidden_field, ErrorList,
  fails_if,
}
use gardener_extension_provi.Validation.CloudProfile.{
  Architectures, CoreMachineImage, Checked, errors, nil_dereference, and_also, member,
  validate_org_config,
}
use gardener_extension_provi.Admission.{
  failed, nil_pointer, Verdict, granted, refused, aggregate, and_if, or_failed, wrong_type,
  get_allowed_zones,
}
use gardener_extension_provi.Admission.NamespacedCloudProfile.{
  NamespacedProfile, ParentProfile, ProfileAdmission, spec_path, validate_profile_update,
  validate_namespaced_cloud_profile_deletion, get_parent_profiles,
}

-- a map from the name of an image to its versions
abbrev pub Versions : Type 0
Versions = List (String × List String)

abbrev pub set_of : Option (List String) → List String
set_of none = []
set_of (some l) = l

-- m[name] with `versions` put in
abbrev pub add_versions : String → List String → Versions → Versions
add_versions name versions m = insert name (set_of (lookup name m) ++ versions) m

abbrev pub core_versions : Versions → List CoreMachineImage → Versions
core_versions m [] = m
core_versions m (i ∷ is) = core_versions (add_versions i.name i.versions m) is

abbrev pub version_names : List MachineImageVersion → List String
version_names [] = []
version_names (v ∷ vs) = v.version ∷ version_names vs

abbrev pub config_versions : Versions → List MachineImages → Versions
config_versions m [] = m
config_versions m (i ∷ is) = config_versions (add_versions i.name (version_names i.versions) m) is

-- Has of a set that may be nil
abbrev pub has : String → Option (List String) → Bool
has v none = false
has v (some l) = member v l

abbrev pub both_nil : Option (List String) → Option (List String) → Bool
both_nil none none = true
both_nil _ _ = false

-- the versions of one image of the profile's specification
unfoldable pub declared_errors :
    FieldPath → String → Option (List String) → Option (List String) → ℕ → List String → ErrorList
declared_errors path name provider parent j [] = []
declared_errors path name provider parent j (v ∷ vs) =
    (if both_nil provider parent
      then required path (
          concat (
            "machine image " ∷ name
            ∷ " is not defined in the NamespacedCloudProfile providerConfig and parent CloudProfile"
            ∷ []))
        ∷ []
      else fails_if (not (has v provider) && not (has v parent)) (
          required (index_of (child_of path "versions") j) (
            concat (
              "machine image version " ∷ name ∷ "@" ∷ v
              ∷ " is not defined in either the parent CloudProfile or the NamespacedCloudProfile providerConfig"
              ∷ []))))
    ++ declared_errors path name provider parent (j + 1) vs

unfoldable pub spec_image_errors :
    FieldPath → Versions → Versions → ℕ → List CoreMachineImage → ErrorList
unfolding declared_errors
spec_image_errors path provider parent i [] = []
spec_image_errors path provider parent i (image ∷ images) =
    declared_errors (index_of path i) image.name (lookup image.name provider)
      (lookup image.name parent) 0 image.versions
    ++ spec_image_errors path provider parent (i + 1) images

-- versions that the parent has already
unfoldable pub overridden_errors :
    FieldPath → String → Option (List String) → ℕ → List MachineImageVersion → ErrorList
overridden_errors path name parent j [] = []
overridden_errors path name parent j (v ∷ vs) =
    fails_if (has v.version parent) (
      forbidden_field (index_of (child_of path "versions") j) (
        concat (
          "machine image version " ∷ name ∷ "@" ∷ v.version
          ∷ " is already defined in the parent CloudProfile and cannot be overridden" ∷ [])))
    ++ overridden_errors path name parent (j + 1) vs

abbrev pub is_valid : Architectures → Option String → Bool
is_valid valid none = false
is_valid valid (some a) = member a valid

abbrev pub architecture_text : Option String → String
architecture_text none = "null"
architecture_text (some a) = a

-- the versions of an image of the configuration whose name the specification has
unfoldable pub config_version_errors :
    Architectures → FieldPath → String → List String → ℕ → List MachineImageVersion → ErrorList
config_version_errors valid path name declared j [] = []
config_version_errors valid path name declared j (v ∷ vs) =
    let at = index_of (child_of path "versions") j in
    fails_if (not (member v.version declared)) (
      invalid at (concat (name ∷ "@" ∷ v.version ∷ []))
        "machine image version is defined in providerConfig but is not declared in the corresponding entry in .spec.machineImages")
    ++ (fails_if (not (is_valid valid v.architecture))
          (not_supported (child_of at "architecture") (architecture_text v.architecture) valid)
        ++ config_version_errors valid path name declared (j + 1) vs)

abbrev pub if_declared :
    Architectures → FieldPath → MachineImages → Option (List String) → ErrorList
if_declared valid path image none =
    required path (
      concat (
        "machine image " ∷ image.name
        ∷ " is defined in providerConfig but is not declared in .spec.machineImages" ∷ []))
    ∷ []
if_declared valid path image (some declared) =
    config_version_errors valid path image.name declared 0 image.versions

unfoldable pub config_image_errors :
    Architectures → FieldPath → Versions → Versions → ℕ → List MachineImages → ErrorList
unfolding overridden_errors config_version_errors
config_image_errors valid path parent declared i [] = []
config_image_errors valid path parent declared i (image ∷ images) =
    overridden_errors (index_of path i) image.name (lookup image.name parent) 0 image.versions
    ++ (if_declared valid (index_of path i) image (lookup image.name declared)
        ++ config_image_errors valid path parent declared (i + 1) images)

-- validateMachineImages, with a configuration that is not nil: its one caller has decoded it
unfoldable pub validate_profile_images :
    Architectures
    → CloudProfileConfig
    → List CoreMachineImage
    → ParentProfile
    → FieldPath
    → ErrorList
unfolding spec_image_errors config_image_errors
validate_profile_images valid config spec parent path =
    let parent_versions = core_versions [] parent.machine_images in
    spec_image_errors path (config_versions [] config.machine_images) parent_versions 0 spec
    ++ config_image_errors valid path parent_versions (core_versions [] spec) 0
        config.machine_images

abbrev pub config_path : FieldPath
config_path = child_of spec_path "providerConfig"

abbrev pub errors_of : Checked → Verdict ErrorList
errors_of (errors es) = granted es
errors_of nil_dereference = refused nil_pointer

module _ (env : ProfileAdmission) where
  abbrev pub config_errors : NamespacedProfile → ParentProfile → Option String → Verdict ErrorList
  config_errors profile parent none = granted []
  config_errors profile parent (some raw) = and_if (or_failed (env.decode raw)) λ config.
      errors_of (
        and_also
          (validate_org_config config.org_config (child_of config_path "orgConfig")
            (get_allowed_zones [] parent.regions))
          (errors (
            validate_profile_images env.valid_architectures config profile.machine_images parent
              config_path)))

  unfoldable pub validate_profile_create : NamespacedProfile → Verdict (Unit {0})
  unfolding get_parent_profiles validate_profile_images
  validate_profile_create profile =
      and_if (get_parent_profiles env profile)
        λ parent. and_if (config_errors profile parent profile.provider_config) aggregate

  abbrev pub or_invalid : Verdict (Unit {0}) → Verdict (Unit {0})
  or_invalid (granted u) = granted u
  or_invalid (refused (failed e)) = refused (failed (wrap "invalid new namespacedCloudProfile:" e))
  or_invalid (refused r) = refused r

  abbrev pub against_old_profile :
      NamespacedProfile → Option (Option NamespacedProfile) → Verdict (Unit {0})
  against_old_profile new none = granted tt
  against_old_profile new (some none) = wrong_type
  against_old_profile new (some (some old)) = validate_profile_update env old new

  -- Validate: an object that is no such profile is `none`, and so is an old object that is not there
  unfoldable pub validate_namespaced_cloud_profile :
      Option NamespacedProfile → Option (Option NamespacedProfile) → Verdict (Unit {0})
  unfolding validate_profile_create validate_namespaced_cloud_profile_deletion
      validate_profile_update
  validate_namespaced_cloud_profile none old = wrong_type
  validate_namespaced_cloud_profile (some new) old =
      if new.deleting
      then validate_namespaced_cloud_profile_deletion env new
      else and_if (or_invalid (validate_profile_create new)) (λ u. against_old_profile new old)
