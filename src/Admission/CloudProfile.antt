-- ===== src/Admission/CloudProfile.antt =====
-- pkg/admission/validator/cloudprofile.go.
use gardener_extension_provi.Common.{String, Option, none, some, List, []}
use gardener_extension_provi.Failure.{Result}
use gardener_extension_provi.Apis.{CloudProfileConfig}
use gardener_extension_provi.Validation.{FieldPath, child_of, required}
use gardener_extension_provi.Validation.CloudProfile.{
  Architectures, CoreMachineImage, Checked, errors, nil_dereference, validate_cloud_profile_config,
}
use gardener_extension_provi.Admission.{
  field, nil_pointer, Verdict, refused, aggregate, and_if, or_failed, wrong_type, Region,
  get_allowed_zones,
}

-- core.CloudProfile
pub record CoreCloudProfile : Type 0 where
  pub provider_config : Option String
  pub regions : List Region
  pub machine_images : List CoreMachineImage

abbrev pub provider_config_path : FieldPath
provider_config_path = child_of (child_of [] "spec") "providerConfig"

abbrev pub verdict_of : Checked → Verdict (Unit {0})
verdict_of (errors es) = aggregate es
verdict_of nil_dereference = refused nil_pointer

module _ (valid : Architectures) (decode : String → Result CloudProfileConfig) where
  -- Validate: an object that is no cloud profile is `none`
  unfoldable pub validate_cloud_profile : Option CoreCloudProfile → Verdict (Unit {0})
  unfolding validate_cloud_profile_config get_allowed_zones
  validate_cloud_profile none = wrong_type
  validate_cloud_profile (some profile) = elim profile.provider_config [
    | none ↦
        refused (
          field
            (required provider_config_path "providerConfig must be set for GDCH cloud profiles"))
    | some raw ↦ and_if (or_failed (decode raw)) λ config. verdict_of (
        validate_cloud_profile_config valid config profile.machine_images provider_config_path
          (get_allowed_zones [] profile.regions))
  ]
