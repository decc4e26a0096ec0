-- ===== src/Worker/Images.antt =====
-- pkg/controller/worker/machine_images.go: the machine image of a pool, from the cloud profile or, when that lists it no
-- more, from the images that the worker's status keeps.
pub mod Generated
pub mod Stable
use gardener_extension_provi.Common.{
  String, concat, quoted, Bool, ◌&&◌, ◌==◌, Option, none, some, List, [], ◌∷◌, ◌++◌, opt_eq,
  if◌then◌else◌,
}
use gardener_extension_provi.Failure.{Error, errorf, wrap, Result, ok, err}
use gardener_extension_provi.Apis.{MachineImageVersion, MachineImages, CloudProfileConfig}
use gardener_extension_provi.Worker.Objects.{
  MachineImage, WorkerStatus, WorkerPool, ProviderStatus, WorkerResource, Surroundings,
}

-- v1beta1constants.ArchitectureAMD64
abbrev pub amd64 : String
amd64 = "amd64"

-- ptr.Deref(p, amd64)
abbrev pub architecture_of : Option String → String
architecture_of none = amd64
architecture_of (some a) = a

-- The function of this name over a list. The callers give the address of a text as the architecture, never nil.
unfoldable pub find_machine_image :
    List MachineImage → String → String → String → Result MachineImage
find_machine_image [] name version architecture = err (
    errorf (
      concat (
        "no machine image found with name "
        ∷ quoted name
        ∷ ", architecture "
        ∷ quoted architecture
        ∷ " and version "
        ∷ quoted version
        ∷ [])))
find_machine_image (m ∷ ms) name version architecture =
    if m.name == name && m.version == version && architecture == architecture_of m.architecture
    then ok (record m { architecture = some (architecture_of m.architecture) })
    else find_machine_image ms name version architecture

-- the inner loop: the image of the version
unfoldable pub find_version_image : List MachineImageVersion → String → String → Option String
find_version_image [] version architecture = none
find_version_image (v ∷ vs) version architecture =
    if version == v.version && opt_eq (some architecture) v.architecture
    then some v.image
    else find_version_image vs version architecture

abbrev pub project_or_system : String → String
project_or_system project = if project == "" then "vm-system" else project

abbrev or_later : String → Option String → Result (String × String) → Result (String × String)
or_later project none later = later
or_later project (some image) later = ok (image, project_or_system project)

unfoldable pub find_image_from :
    List MachineImages → String → String → String → Result (String × String)
unfolding find_version_image
find_image_from [] name version architecture = err (
    errorf (
      concat (
        "could not find an image for name "
        ∷ quoted name
        ∷ " and architecture "
        ∷ quoted architecture
        ∷ " in version "
        ∷ quoted version
        ∷ [])))
find_image_from (m ∷ ms) name version architecture =
    let later = find_image_from ms name version architecture in
    if m.name == name
    then or_later m.project (find_version_image m.versions version architecture) later
    else later

unfoldable pub find_image_from_cloud_profile :
    CloudProfileConfig → String → String → String → Result (String × String)
unfolding find_image_from
find_image_from_cloud_profile profile = find_image_from profile.machine_images

abbrev pub append_unless :
    List MachineImage → MachineImage → Result MachineImage → List MachineImage
append_unless images image (err e) = images ++ image ∷ []
append_unless images image (ok found) = images

-- It looks for the image's own name, version and architecture, which is never nil here.
unfoldable pub append_machine_image : List MachineImage → MachineImage → List MachineImage
unfolding find_machine_image
append_machine_image images image =
    append_unless images image
      (find_machine_image images image.name image.version (architecture_of image.architecture))

module _ {W : Type 0} (env : Surroundings W) where
  unfoldable pub image_from_status :
      WorkerResource → String → String → String → Result (String × String)
  unfolding find_machine_image
  image_from_status worker name version architecture = elim worker.provider_status [
    | none ↦ err (env.image_not_found name version architecture)
    | some status ↦ elim (env.decode_worker_status status.raw) [
      | err e ↦ err (
          wrap
            (concat (
              "could not decode worker status of worker '" ∷ worker.namespace ∷ "/" ∷ worker.name
              ∷ "':" ∷ []))
            e)
      | ok decoded ↦ elim (find_machine_image decoded.machine_images name version architecture) [
        | err e ↦ err (env.image_not_found name version architecture)
        | ok m ↦ ok (m.image, m.project)
      ]
    ]
  ]

  -- the method findMachineImage
  unfoldable pub find_worker_image :
      CloudProfileConfig → WorkerResource → String → String → String → Result (String × String)
  unfolding find_image_from_cloud_profile image_from_status
  find_worker_image profile worker name version architecture =
      elim (find_image_from_cloud_profile profile name version architecture) [
        | ok found ↦ ok found
        | err e ↦ image_from_status worker name version architecture
      ]

  -- the error that the two callers make of findMachineImage's
  abbrev pub no_image_of : WorkerPool → Error → Error
  no_image_of pool e =
      wrap
        (concat (
          "could not find machine image with name "
          ∷ quoted pool.image_name
          ∷ ", version "
          ∷ quoted pool.image_version
          ∷ ", and arch "
          ∷ quoted (architecture_of pool.architecture)
          ∷ ":"
          ∷ []))
        e

  -- the loop of generateMachineImages
  unfoldable pub generate_machine_images :
      CloudProfileConfig
      → WorkerResource
      → List MachineImage
      → List WorkerPool
      → Result (List MachineImage)
  unfolding find_worker_image append_machine_image
  generate_machine_images profile worker images [] = ok images
  generate_machine_images profile worker images (pool ∷ pools) =
      let arch = architecture_of pool.architecture in
      elim (find_worker_image profile worker pool.image_name pool.image_version arch) [
        | err e ↦ err (no_image_of pool e)
        | ok (image, project) ↦
            generate_machine_images profile worker
              (append_machine_image images record {
                name = pool.image_name;
                project = project;
                version = pool.image_version;
                image = image;
                architecture = some arch;
              })
              pools
      ]
