-- ===== src/Admission/NamespacedCloudProfile.antt =====
-- pkg/admission/validator/namespacedcloudprofile.go. A set of texts is a list.
pub mod Images
pub mod InUse
use gardener_extension_provi.Common.{
  ℕ, ◌+◌, String, concat, quoted, Bool, true, false, not, ◌&&◌, ◌||◌, ◌==◌, Option, none, some,
  List, [], ◌∷◌, ◌++◌, is_empty, lookup, insert, if◌then◌else◌,
}
use gardener_extension_provi.Failure.{Error, errorf, wrap, Result, ok, err}
use gardener_extension_provi.Apis.{MachineImageVersion, MachineImages, CloudProfileConfig}
use gardener_extension_provi.Validation.{
  FieldPath, child_of, index_of, required, invalid, not_supported, forbidden_field, ErrorList,
  fails_if,
}
use gardener_extension_provi.Validation.CloudProfile.{
  Architectures, CoreMachineImage, member, validate_org_config,
}
use gardener_extension_provi.Admission.{
  Refusal, failed, field, nil_pointer, Verdict, granted, refused, aggregate, and_if, or_failed,
  wrong_type, Region, get_allowed_zones,
}

-- core.NamespacedCloudProfile
pub record NamespacedProfile : Type 0 where
  pub namespace : String
  pub name : String
  -- DeletionTimestamp is set
  pub deleting : Bool
  pub parent_kind : String
  pub parent_name : String
  pub provider_config : Option String
  -- Spec.Kubernetes, with the versions in it
  pub kubernetes : Option (List String)
  pub machine_images : List CoreMachineImage

-- the parent CloudProfile
pub record ParentProfile : Type 0 where
  pub regions : List Region
  pub machine_images : List CoreMachineImage

-- A shoot that uses the profile: of each worker the machine image, by its name and its version, both of which can be nil.
pub record UsingShoot : Type 0 where
  pub name : String
  pub kubernetes_version : String
  pub images : List (Option (String × Option String))

-- What the API server answers while one profile is admitted: to a List of the shoots of a namespace that use a profile,
-- and to a Get of a CloudProfile.
pub record ProfileAdmission : Type 0 where
  pub valid_architectures : Architectures
  pub decode : String → Result CloudProfileConfig
  pub list_using : String → String → Result (List UsingShoot)
  pub get_parent : String → Result ParentProfile

abbrev pub spec_path : FieldPath
spec_path = child_of [] "spec"

-- sets.Set.Difference
abbrev pub difference : List String → List String → List String
difference [] b = []
difference (x ∷ a) b = if member x b then difference a b else x ∷ difference a b

unfoldable pub build_kubernetes_version_set : NamespacedProfile → List String
build_kubernetes_version_set profile = elim profile.kubernetes [ none ↦ [] | some l ↦ l ]

unfoldable pub machine_image_version_key : String → String → String
machine_image_version_key name version = concat (name ∷ "/" ∷ version ∷ [])

abbrev pub keys_of : String → List String → List String
keys_of name [] = []
keys_of name (v ∷ vs) = machine_image_version_key name v ∷ keys_of name vs

abbrev pub image_keys : List CoreMachineImage → List String
image_keys [] = []
image_keys (i ∷ is) = keys_of i.name i.versions ++ image_keys is

unfoldable pub build_machine_image_key_set : NamespacedProfile → List String
unfolding machine_image_version_key
build_machine_image_key_set profile = image_keys profile.machine_images

unfoldable pub get_deleted_versions :
    NamespacedProfile → NamespacedProfile → List String × List String
unfolding build_kubernetes_version_set build_machine_image_key_set
get_deleted_versions old new = (
  difference (build_kubernetes_version_set old) (build_kubernetes_version_set new),
  difference (build_machine_image_key_set old) (build_machine_image_key_set new),
)

-- a step of the validation: its errors, or a nil pointer
abbrev pub Step : Type 0
Step = Verdict ErrorList

abbrev pub and_errors : ErrorList → Step → Step
and_errors es later = and_if later (λ fs. granted (es ++ fs))

abbrev pub version_in_use : List String → UsingShoot → ErrorList
version_in_use deleted shoot = fails_if (member shoot.kubernetes_version deleted) (
    forbidden_field (child_of (child_of spec_path "kubernetes") "versions") (
      concat (
        "kubernetes version "
        ∷ quoted shoot.kubernetes_version
        ∷ " is being removed but is still in use by Shoot "
        ∷ quoted shoot.name
        ∷ [])))

abbrev pub image_in_use : List String → String → String → String → ErrorList
image_in_use deleted shoot name version =
    fails_if (member (machine_image_version_key name version) deleted) (
      forbidden_field (child_of spec_path "machineImages") (
        concat (
          "machine image "
          ∷ quoted name
          ∷ " version "
          ∷ quoted version
          ∷ " is being removed but is still in use by Shoot "
          ∷ quoted shoot
          ∷ [])))

-- the loop over the workers of a shoot
unfoldable pub images_in_use : List String → String → List (Option (String × Option String)) → Step
unfolding machine_image_version_key
images_in_use deleted shoot [] = granted []
images_in_use deleted shoot (none ∷ images) = images_in_use deleted shoot images
images_in_use deleted shoot (some (name, none) ∷ images) = refused nil_pointer
images_in_use deleted shoot (some (name, some version) ∷ images) =
    and_errors (image_in_use deleted shoot name version) (images_in_use deleted shoot images)

-- the loop over the shoots
unfoldable pub shoots_in_use : List String × List String → List UsingShoot → Step
unfolding images_in_use
shoots_in_use (versions, images) [] = granted []
shoots_in_use (versions, images) (shoot ∷ shoots) = and_errors (version_in_use versions shoot) (
    and_if (images_in_use images shoot.name shoot.images)
      λ es. and_errors es (shoots_in_use (versions, images) shoots))

module _ (env : ProfileAdmission) where
  unfoldable pub validate_profile_update :
      NamespacedProfile → NamespacedProfile → Verdict (Unit {0})
  validate_profile_update old new =
      let deleted = get_deleted_versions old new in
      if is_empty deleted.0 && is_empty deleted.1
      then granted tt
      else and_if (or_failed (env.list_using new.namespace new.name))
          λ shoots. and_if (shoots_in_use deleted shoots) aggregate

  abbrev pub none_uses : NamespacedProfile → List UsingShoot → Verdict (Unit {0})
  none_uses profile [] = granted tt
  none_uses profile (shoot ∷ shoots) = refused (
      failed (
        errorf (
          concat (
            "cannot delete namespaced cloud profile "
            ∷ quoted profile.name
            ∷ " because it is still referenced by shoot "
            ∷ quoted shoot.name
            ∷ []))))

  unfoldable pub validate_namespaced_cloud_profile_deletion : NamespacedProfile → Verdict (Unit {0})
  validate_namespaced_cloud_profile_deletion profile =
      and_if (or_failed (env.list_using profile.namespace profile.name)) (none_uses profile)

  unfoldable pub get_parent_profiles : NamespacedProfile → Verdict ParentProfile
  get_parent_profiles profile =
      if profile.parent_kind == "CloudProfile"
      then or_failed (env.get_parent profile.parent_name)
      else refused (
          field (
            invalid (child_of (child_of spec_path "parent") "kind") profile.parent_kind
              "parent reference must be of kind CloudProfile"))
