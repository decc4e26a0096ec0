-- ===== src/Validation/CloudProfile/Panic.antt =====
-- Where ValidateCloudProfileConfig dereferences a nil pointer.
use gardener_extension_provi.Common.{
  ℕ, ◌+◌, String, ◌≡◌, refl, Bool, ◌==◌, Option, none, some, List, [], ◌∷◌, Any, first, Bool-cases,
  inl, inr, is_empty, if◌then◌else◌,
}
use gardener_extension_provi.Apis.{
  MachineImageVersion, MachineImages, ZoneEndpoints, OrgConfig, CloudProfileConfig,
}
use gardener_extension_provi.Validation.{FieldPath, child_of, index_of, FieldError}
use gardener_extension_provi.Validation.CloudProfile.{
  CoreMachineImage, Checked, errors, nil_dereference, and_also, Architectures, version_errors,
  find_version, validate_versions, find_image, validate_machine_images, validate_zone_endpoints,
  validate_zones_endpoints, validate_org_config, validate_cloud_profile_config,
}

and_also-right : (c : Checked) → and_also c nil_dereference ≡ nil_dereference
and_also-right nil_dereference = refl
and_also-right (errors a) = refl

-- the entry that was found leaves its architecture out
abbrev pub LacksArchitecture : Option MachineImageVersion → Type 0
LacksArchitecture none = ⊥
LacksArchitecture (some v) = v.architecture ≡ none

module _ (valid : Architectures) where
  version_errors_panics :
      (path : FieldPath) (v : MachineImageVersion)
      → v.architecture ≡ none
      → version_errors valid path v ≡ nil_dereference
  unfolding version_errors
  version_errors_panics path v e = rw e

  find_version_panics :
      (path : FieldPath) (j : ℕ) (version : String) (vs : List MachineImageVersion)
      → LacksArchitecture (first (λ v. version == v.version) vs)
      → find_version valid path j version vs ≡ nil_dereference
  unfolding find_version
  find_version_panics path j version [] h = absurd h
  find_version_panics path j version (v ∷ vs) h = elim (Bool-cases (version == v.version)) [
    | inl same ↦ rw same (version_errors_panics (index_of path j) v (rw same at h))
    | inr other ↦ rw other (find_version_panics path (j + 1) version vs (rw other at h))
  ]

  validate_versions_panics :
      (configs : List MachineImageVersion) (versions : List String) (path : FieldPath)
      → Any (λ version. LacksArchitecture (first (λ v. version == v.version) configs)) versions
      → validate_versions valid configs versions path ≡ nil_dereference
  unfolding validate_versions
  validate_versions_panics configs [] path h = absurd h
  validate_versions_panics configs (v ∷ vs) path (inl h) =
      rw (find_version_panics path 0 v configs h)
  validate_versions_panics configs (v ∷ vs) path (inr h) =
      rw (validate_versions_panics configs vs path h)
        (and_also-right (find_version valid path 0 v configs))

  -- one of the image's versions is found with no architecture
  abbrev pub MapsToNil : CoreMachineImage → Option MachineImages → Type 0
  MapsToNil image none = ⊥
  MapsToNil image (some c) =
      Any (λ version. LacksArchitecture (first (λ v. version == v.version) c.versions))
        image.versions

  find_image_panics :
      (path : FieldPath) (i : ℕ) (image : CoreMachineImage) (cs : List MachineImages)
      → MapsToNil image (first (λ c. image.name == c.name) cs)
      → find_image valid path i image cs ≡ nil_dereference
  unfolding find_image
  find_image_panics path i image [] h = absurd h
  find_image_panics path i image (c ∷ cs) h = elim (Bool-cases (image.name == c.name)) [
    | inl same ↦ rw same (validate_versions_panics c.versions image.versions _ (rw same at h))
    | inr other ↦ rw other (find_image_panics path (i + 1) image cs (rw other at h))
  ]

  machine_images_panics :
      (configs : List MachineImages) (images : List CoreMachineImage) (path : FieldPath)
      → Any (λ image. MapsToNil image (first (λ c. image.name == c.name) configs)) images
      → validate_machine_images valid configs images path ≡ nil_dereference
  unfolding validate_machine_images
  machine_images_panics configs [] path h = absurd h
  machine_images_panics configs (image ∷ images) path (inl h) =
      rw (find_image_panics path 0 image configs h)
  machine_images_panics configs (image ∷ images) path (inr h) =
      rw (machine_images_panics configs images path h)
        (and_also-right (find_image valid path 0 image configs))

  -- ValidateCloudProfileConfig dereferences a nil pointer as soon as, for some version of some image of the profile, the
  -- entry that maps it leaves out its architecture, which the API declares optional.
  pub missing_architecture_panics :
      (c : CloudProfileConfig) (images : List CoreMachineImage) (path : FieldPath)
      (regions : List (String × Bool))
      → Any (λ image. MapsToNil image (first (λ m. image.name == m.name) c.machine_images)) images
      → validate_cloud_profile_config valid c images path regions ≡ nil_dereference
  unfolding validate_cloud_profile_config
  missing_architecture_panics c images path regions h =
      rw (machine_images_panics c.machine_images images (child_of path "machineImages") h)

zones_endpoints_panic :
    (i : ℕ) (zs : List (Option ZoneEndpoints)) (regions : List (String × Bool)) (path : FieldPath)
    → Any (λ z. z ≡ none) zs
    → validate_zones_endpoints i zs regions path ≡ nil_dereference
unfolding validate_zones_endpoints validate_zone_endpoints
zones_endpoints_panic i [] regions path h = absurd h
zones_endpoints_panic i (z ∷ zs) regions path (inl h) = rw h refl
zones_endpoints_panic i (z ∷ zs) regions path (inr h) =
    rw (zones_endpoints_panic (i + 1) zs regions path h)
      (and_also-right (validate_zone_endpoints z regions (index_of path i)))

zones_panic :
    (e : FieldError) (zs : List (Option ZoneEndpoints)) (regions : List (String × Bool))
    (path : FieldPath)
    → Any (λ z. z ≡ none) zs
    → (if is_empty zs then errors (e ∷ []) else validate_zones_endpoints 0 zs regions path)
      ≡ nil_dereference
zones_panic e [] regions path h = absurd h
zones_panic e (z ∷ zs) regions path h = zones_endpoints_panic 0 (z ∷ zs) regions path h

org_panics :
    (o : OrgConfig) (path : FieldPath) (regions : List (String × Bool))
    → Any (λ z. z ≡ none) o.zones
    → validate_org_config (some o) path regions ≡ nil_dereference
unfolding validate_org_config
org_panics o path regions h = rw (zones_panic _ o.zones regions (child_of path "zones") h) refl

-- ValidateCloudProfileConfig dereferences a nil pointer as well as soon as one of the organisation's zones is nil,
-- whatever it finds in the images.
pub nil_zone_panics :
    (valid : Architectures) (c : CloudProfileConfig) (images : List CoreMachineImage)
    (path : FieldPath) (regions : List (String × Bool)) (o : OrgConfig)
    → c.org_config ≡ some o
    → Any (λ z. z ≡ none) o.zones
    → validate_cloud_profile_config valid c images path regions ≡ nil_dereference
unfolding validate_cloud_profile_config
nil_zone_panics valid c images path regions o e h =
    rw (e, org_panics o (child_of path "orgConfig") regions h)
      (and_also-right
        (validate_machine_images valid c.machine_images images (child_of path "machineImages")))
