-- ===== src/Admission/Merge.antt =====
-- pkg/admission/mutator/namespacedcloudprofile.go: the machine images of a namespaced cloud profile are merged into those
-- of the cloud profile that its status shows.
pub mod Named
use Prim.Native.String.{compare}
use Prim.Native.Nat.{Ordering}
use gardener_extension_provi.Common.{
  String, concat, Bool, true, false, Option, none, some, List, [], ◌∷◌, ◌++◌, lookup, insert,
  if◌then◌else◌,
}
use gardener_extension_provi.Failure.{Error, wrap, Result, ok, err}
use gardener_extension_provi.Apis.{MachineImages, CloudProfileConfig}
use gardener_extension_provi.Admission.{failed, Verdict, granted, refused, and_if, wrong_type}

abbrev pub ImageMap : Type 0
ImageMap = List (String × MachineImages)

-- utils.CreateMapFromSlice by the name: of two images with one name the last stays
unfoldable pub by_name : ImageMap → List MachineImages → ImageMap
by_name m [] = m
by_name m (image ∷ images) = by_name (insert image.name image m) images

abbrev pub merged_image : String → MachineImages → Option MachineImages → MachineImages
merged_image name spec none = spec
merged_image name spec (some status) = record {
  name = name;
  project = "";
  versions = status.versions ++ spec.versions;
}

-- the loop over the images of the specification
unfoldable pub merge_images : ImageMap → ImageMap → ImageMap
merge_images status [] = status
merge_images status ((name, spec) ∷ specs) =
    merge_images (insert name (merged_image name spec (lookup name status)) status) specs

abbrev pub map_values : ImageMap → List MachineImages
map_values [] = []
map_values ((name, image) ∷ m) = image ∷ map_values m

abbrev pub put_before :
    Ordering
    → MachineImages
    → MachineImages
    → List MachineImages
    → List MachineImages
    → List MachineImages
put_before Ordering.lt x y later rest = y ∷ later
put_before _ x y later rest = x ∷ y ∷ rest

-- slices.SortFunc by cmp.Compare of the names, which are all different
abbrev pub insert_by_name : MachineImages → List MachineImages → List MachineImages
insert_by_name x [] = x ∷ []
insert_by_name x (y ∷ rest) = put_before (compare y.name x.name) x y (insert_by_name x rest) rest

abbrev pub sort_by_name : List MachineImages → List MachineImages
sort_by_name [] = []
sort_by_name (x ∷ rest) = insert_by_name x (sort_by_name rest)

unfoldable pub merge_machine_images : List MachineImages → List MachineImages → List MachineImages
unfolding by_name merge_images
merge_machine_images spec status =
    sort_by_name (map_values (merge_images (by_name [] status) (by_name [] spec)))

-- gardencorev1beta1.NamespacedCloudProfile, with the provider configurations of Spec and of Status.CloudProfileSpec
pub record MutatedProfile : Type 0 where
  pub name : String
  pub deleting : Bool
  pub spec_config : Option String
  pub status_config : Option String

module _ (decode : String → Result CloudProfileConfig)
    (marshal : CloudProfileConfig → Result String) where
  abbrev decoded_for : String → MutatedProfile → String → Verdict CloudProfileConfig
  decoded_for part profile raw = elim (decode raw) [
    | ok config ↦ granted config
    | err e ↦ refused (
        failed (
          wrap
            (concat (
              "could not decode providerConfig of namespacedCloudProfile " ∷ part ∷ " for '"
              ∷ profile.name ∷ "':" ∷ []))
            e))
  ]

  abbrev marshalled : Result String → Verdict String
  marshalled (ok raw) = granted raw
  marshalled (err e) = refused (failed e)

  abbrev mutate_configs : MutatedProfile → Option String → Option String → Verdict MutatedProfile
  mutate_configs profile (some spec_raw) (some status_raw) =
      and_if (decoded_for "spec" profile spec_raw) λ spec.
        and_if (decoded_for "status" profile status_raw) λ status.
          and_if
            (marshalled (
              marshal (record status {
                machine_images = merge_machine_images spec.machine_images status.machine_images;
              })))
            λ raw. granted (record profile { status_config = some raw })
  mutate_configs profile _ _ = granted profile

  -- Mutate: an object that is no such profile is `none`
  unfoldable pub mutate : Option MutatedProfile → Verdict MutatedProfile
  unfolding merge_machine_images
  mutate none = wrong_type
  mutate (some profile) =
      if profile.deleting
      then granted profile
      else mutate_configs profile profile.spec_config profile.status_config
