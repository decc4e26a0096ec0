-- ===== src/Validation/CloudProfile/Accepted.antt =====
-- What ValidateCloudProfileConfig accepts.
use gardener_extension_provi.Common.{
  ℕ, ◌+◌, String, ◌≡◌, ◌≢◌, refl, ◌↔◌, ◌⊎◌, Bool, true, not, ◌==◌, eq_iff, Option, none, some, List,
  [], ◌∷◌, is_empty, first, All, allowed, arith, if◌then◌else◌, Bool-cases, inl, inr,
}
use gardener_extension_provi.Apis.{
  MachineImageVersion, MachineImages, ZoneEndpoints, OrgConfig, CloudProfileConfig,
}
use gardener_extension_provi.Validation.{
  FieldPath, FieldError, child_of, index_of, required, not_supported, ErrorList, fails_if,
}
use gardener_extension_provi.Validation.Accepted.{
  append_nil_iff, fails_if_iff, is_empty_iff, iff_trans, iff_pair,
}
use gardener_extension_provi.Validation.CloudProfile.{
  CoreMachineImage, Checked, errors, nil_dereference, and_also, Architectures, member,
  version_errors, find_version, validate_versions, find_image, validate_machine_images,
  endpoints_errors, validate_zone_endpoints, validate_registry_config, validate_zones_endpoints,
  validate_org_config, validate_cloud_profile_config,
}

and_also_iff : (c d : Checked) → (and_also c d ≡ errors []) ↔ ((c ≡ errors []) × (d ≡ errors []))
and_also_iff nil_dereference d = ground arith
and_also_iff (errors a) nil_dereference = ground arith
and_also_iff (errors a) (errors b) = ground (arith, append_nil_iff a b)

module _ (valid : Architectures) where
  abbrev pub HasArchitecture : Option String → Type 0
  HasArchitecture none = ⊥
  HasArchitecture (some a) = member a valid ≡ true

  -- there is an entry, with an image and with an architecture that there is
  abbrev pub IsUsable : Option MachineImageVersion → Type 0
  IsUsable none = ⊥
  IsUsable (some v) = (v.image ≢ "") × HasArchitecture v.architecture

  version_errors_iff :
      (path : FieldPath) (v : MachineImageVersion) (o : Option String)
      → v.architecture ≡ o
      → (version_errors valid path v ≡ errors []) ↔ ((v.image ≢ "") × HasArchitecture o)
  unfolding version_errors
  version_errors_iff path v none e = rw (e, version_errors) (ground arith)
  version_errors_iff path v (some a) e =
      let no_image =
        fails_if (v.image == "") (required (child_of path "image") "must provide an image") in
      let unknown = not_supported (child_of path "architecture") a valid in
      rw (e, version_errors)
        (ground (
          arith,
          append_nil_iff no_image (fails_if (not (member a valid)) unknown),
          fails_if_iff (not (member a valid)) unknown,
          fails_if_iff (v.image == "") (required (child_of path "image") "must provide an image"),
          eq_iff v.image "",
        ))

  find_version_iff :
      (path : FieldPath) (j : ℕ) (version : String) (vs : List MachineImageVersion)
      → (find_version valid path j version vs ≡ errors [])
        ↔ IsUsable (first (λ v. version == v.version) vs)
  unfolding find_version
  find_version_iff path j version [] = ground arith
  find_version_iff path j version (v ∷ vs) = elim (Bool-cases (version == v.version)) [
    | inl same ↦ rw same (version_errors_iff (index_of path j) v v.architecture refl)
    | inr other ↦ rw other (find_version_iff path (j + 1) version vs)
  ]

  validate_versions_iff :
      (configs : List MachineImageVersion) (versions : List String) (path : FieldPath)
      → (validate_versions valid configs versions path ≡ errors [])
        ↔ All (λ version. IsUsable (first (λ v. version == v.version) configs)) versions
  unfolding validate_versions
  validate_versions_iff configs [] path = ground arith
  validate_versions_iff configs (v ∷ vs) path =
      iff_pair
        (and_also_iff (find_version valid path 0 v configs)
          (validate_versions valid configs vs path))
        (find_version_iff path 0 v configs) (validate_versions_iff configs vs path)

  -- the image has no versions, or an entry that maps each of them
  abbrev pub IsMapped : CoreMachineImage → Option MachineImages → Type 0
  IsMapped image none = image.versions ≡ []
  IsMapped image (some c) =
      All (λ version. IsUsable (first (λ v. version == v.version) c.versions)) image.versions

  find_image_iff :
      (path : FieldPath) (i : ℕ) (image : CoreMachineImage) (cs : List MachineImages)
      → (find_image valid path i image cs ≡ errors [])
        ↔ IsMapped image (first (λ c. image.name == c.name) cs)
  unfolding find_image
  find_image_iff path i image [] = ground (arith, is_empty_iff image.versions)
  find_image_iff path i image (c ∷ cs) = elim (Bool-cases (image.name == c.name)) [
    | inl same ↦
        rw same
          (validate_versions_iff c.versions image.versions (child_of (index_of path i) "versions"))
    | inr other ↦ rw other (find_image_iff path (i + 1) image cs)
  ]

  machine_images_iff :
      (configs : List MachineImages) (images : List CoreMachineImage) (path : FieldPath)
      → (validate_machine_images valid configs images path ≡ errors [])
        ↔ All (λ image. IsMapped image (first (λ c. image.name == c.name) configs)) images
  unfolding validate_machine_images
  machine_images_iff configs [] path = ground arith
  machine_images_iff configs (image ∷ images) path =
      iff_pair
        (and_also_iff (find_image valid path 0 image configs)
          (validate_machine_images valid configs images path))
        (find_image_iff path 0 image configs) (machine_images_iff configs images path)

-- a zone is not nil, has a name that is a region of the cloud profile, and both endpoints
abbrev pub IsEndpoint : List (String × Bool) → Option ZoneEndpoints → Type 0
IsEndpoint regions none = ⊥
IsEndpoint regions (some z) =
    (z.name ≢ "")
    × (allowed z.name regions ≡ true)
    × (z.management_api ≢ "")
    × (z.infrastructure_api ≢ "")

-- an organisation has zones, all sound, and the CA data of its registry where it names one
abbrev pub IsOrg : List (String × Bool) → Option OrgConfig → Type 0
IsOrg regions none = ⊥
IsOrg regions (some o) =
    ((o.zones ≢ []) × All (IsEndpoint regions) o.zones) × ((o.registry_url ≡ "") ⊎ (o.ca_data ≢ ""))

errors_iff : (es : ErrorList) → (errors es ≡ errors []) ↔ (es ≡ [])
errors_iff es = ground arith

zone_endpoints_iff :
    (z : Option ZoneEndpoints) (regions : List (String × Bool)) (path : FieldPath)
    → (validate_zone_endpoints z regions path ≡ errors []) ↔ IsEndpoint regions z
unfolding validate_zone_endpoints endpoints_errors
zone_endpoints_iff none regions path = ground arith
zone_endpoints_iff (some z) regions path =
    ground (arith, eq_iff z.name "", eq_iff z.management_api "", eq_iff z.infrastructure_api "")

zones_endpoints_iff :
    (i : ℕ) (zs : List (Option ZoneEndpoints)) (regions : List (String × Bool)) (path : FieldPath)
    → (validate_zones_endpoints i zs regions path ≡ errors []) ↔ All (IsEndpoint regions) zs
unfolding validate_zones_endpoints
zones_endpoints_iff i [] regions path = ground arith
zones_endpoints_iff i (z ∷ zs) regions path =
    iff_pair
      (and_also_iff (validate_zone_endpoints z regions (index_of path i))
        (validate_zones_endpoints (i + 1) zs regions path))
      (zone_endpoints_iff z regions (index_of path i)) (zones_endpoints_iff (i + 1) zs regions path)

registry_iff :
    (o : OrgConfig) (path : FieldPath)
    → (validate_registry_config o path ≡ []) ↔ ((o.registry_url ≡ "") ⊎ (o.ca_data ≢ ""))
unfolding validate_registry_config
registry_iff o path = ground (arith, eq_iff o.registry_url "", eq_iff o.ca_data "")

zones_iff :
    (e : FieldError) (zs : List (Option ZoneEndpoints)) (regions : List (String × Bool))
    (path : FieldPath)
    → ((if is_empty zs then errors (e ∷ []) else validate_zones_endpoints 0 zs regions path)
        ≡ errors [])
      ↔ ((zs ≢ []) × All (IsEndpoint regions) zs)
zones_iff e [] regions path = ground arith
zones_iff e (z ∷ zs) regions path =
    iff_trans (zones_endpoints_iff 0 (z ∷ zs) regions path) (λ h. ((λ q. cc), h), λ h. h.1)

IsOrg-iff :
    (o : Option OrgConfig) (path : FieldPath) (regions : List (String × Bool))
    → (validate_org_config o path regions ≡ errors []) ↔ IsOrg regions o
unfolding validate_org_config
IsOrg-iff none path regions = ground arith
IsOrg-iff (some o) path regions =
    iff_pair
      (and_also_iff
        (if is_empty o.zones
          then errors (required (child_of path "zones") "At least one zone must be specified" ∷ [])
          else validate_zones_endpoints 0 o.zones regions (child_of path "zones"))
        (errors (validate_registry_config o path)))
      (zones_iff _ o.zones regions (child_of path "zones"))
      (iff_trans (errors_iff (validate_registry_config o path)) (registry_iff o path))

-- ValidateCloudProfileConfig ends, and without an error, exactly where every image of the cloud profile that has
-- versions has an entry (the first one of its name) that maps each of them (by the first one of the version) with an
-- image and a valid architecture, and there is an organisation with at least one zone, none of them nil, all of them regions of the
-- profile with both endpoints, and with CA data if it names a registry.
pub validate_cloud_profile_config_iff :
    (valid : Architectures) (c : CloudProfileConfig) (images : List CoreMachineImage)
    (path : FieldPath) (regions : List (String × Bool))
    → (validate_cloud_profile_config valid c images path regions ≡ errors []) ↔ (
        All
          (λ image. IsMapped valid image (first (λ m. image.name == m.name) c.machine_images))
          images
        × IsOrg regions c.org_config)
unfolding validate_cloud_profile_config
validate_cloud_profile_config_iff valid c images path regions =
    let orgs = validate_org_config c.org_config (child_of path "orgConfig") regions in
    iff_pair
      (and_also_iff
        (validate_machine_images valid c.machine_images images (child_of path "machineImages"))
        orgs)
      (machine_images_iff valid c.machine_images images (child_of path "machineImages"))
      (IsOrg-iff c.org_config (child_of path "orgConfig") regions)
