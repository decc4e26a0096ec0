-- ===== src/Worker/Images/Stable.antt =====
-- The machine images that a worker's status keeps: they serve when the cloud profile lists them no more.
use gardener_extension_provi.Common.{
  String, ◌≡◌, refl, sym, ◌∙◌, ◌⊎◌, inl, inr, some, List, [], ◌∷◌, All,
}
use gardener_extension_provi.Failure.{Error, ok, err}
use gardener_extension_provi.Apis.{CloudProfileConfig}
use gardener_extension_provi.Worker.Objects.{
  MachineImage, WorkerPool, ProviderStatus, WorkerResource, Surroundings,
}
use gardener_extension_provi.Worker.Images.{
  architecture_of, find_machine_image, append_machine_image, find_image_from_cloud_profile,
  image_from_status, find_worker_image, generate_machine_images,
}
use gardener_extension_provi.Worker.Images.Generated.{
  Finder, Consistent, HasPool, find-Consistent, image_for, find_for, generate_ok,
  generate-Generated,
}

module _ {W : Type 0} (env : Surroundings W) where
  -- two searches find the same for a pool
  abbrev pub SameFor : Finder → Finder → WorkerPool → Type 0
  SameFor find again pool =
      (found : String × String) × (find_for find pool ≡ ok found) × (find_for again pool ≡ ok found)

  generate_same :
      (profile profile' : CloudProfileConfig) (worker worker' : WorkerResource)
      (ms : List MachineImage) (pools : List WorkerPool)
      → All
          (SameFor (find_worker_image env profile worker) (find_worker_image env profile' worker'))
          pools
      → generate_machine_images env profile' worker' ms pools
        ≡ generate_machine_images env profile worker ms pools
  unfolding generate_machine_images
  generate_same profile profile' worker worker' ms [] h = refl
  generate_same profile profile' worker worker' ms (pool ∷ pools) (((image, project), f, g), h) =
      generate_ok env profile' worker' ms pool pools image project g
      ∙ generate_same profile profile' worker worker'
          (append_machine_image ms (image_for pool image project)) pools h
      ∙ sym (generate_ok env profile worker ms pool pools image project f)

  -- what a profile lists for a pool is what was found before, or nothing
  abbrev pub NoOther : Finder → CloudProfileConfig → WorkerPool → Type 0
  NoOther find profile pool =
      (find_for (find_image_from_cloud_profile profile) pool ≡ find_for find pool)
      ⊎ ((e : Error) × (find_for (find_image_from_cloud_profile profile) pool ≡ err e))

  profile_first :
      (profile : CloudProfileConfig) (worker : WorkerResource) (pool : WorkerPool)
      (found : String × String)
      → find_for (find_image_from_cloud_profile profile) pool ≡ ok found
      → find_for (find_worker_image env profile worker) pool ≡ ok found
  unfolding find_worker_image
  profile_first profile worker pool found h = rw (find_worker_image, h) refl

  status_second :
      (profile : CloudProfileConfig) (worker : WorkerResource) (pool : WorkerPool)
      (status : ProviderStatus) (images : List MachineImage) (e : Error) (m : MachineImage)
      → find_for (find_image_from_cloud_profile profile) pool ≡ err e
      → worker.provider_status ≡ some status
      → env.decode_worker_status status.raw ≡ ok (record { machine_images = images })
      → find_machine_image images pool.image_name pool.image_version
          (architecture_of pool.architecture)
        ≡ ok m
      → find_for (find_worker_image env profile worker) pool ≡ ok (m.image, m.project)
  unfolding find_worker_image image_from_status
  status_second profile worker pool status images e m h s d f =
      rw (find_worker_image, h, image_from_status, s, d, f) refl

  pools_found_again :
      (profile profile' : CloudProfileConfig) (worker worker' : WorkerResource)
      (status : ProviderStatus) (images : List MachineImage)
      → Consistent (find_worker_image env profile worker) images
      → worker'.provider_status ≡ some status
      → env.decode_worker_status status.raw ≡ ok (record { machine_images = images })
      → (pools : List WorkerPool) → All (HasPool images) pools
      → All (NoOther (find_worker_image env profile worker) profile') pools
      → All
          (SameFor (find_worker_image env profile worker) (find_worker_image env profile' worker'))
          pools
  pools_found_again profile profile' worker worker' status images c s d [] h k = tt
  pools_found_again profile profile' worker worker' status images c s d (pool ∷ pools) ((m, f), h)
        (o, k) =
      let before =
        find-Consistent (find_worker_image env profile worker) images pool.image_name
          pool.image_version _ m c f in
      let later = pools_found_again profile profile' worker worker' status images c s d pools h k in
      elim o [
        | inl same ↦ (
          (_, before, profile_first profile' worker' pool (m.image, m.project) (same ∙ before)),
          later,
        )
        | inr (e, gone) ↦
            ((_, before, status_second profile' worker' pool status images e m gone s d f), later)
      ]

  -- The images that a worker uses last: once the images of its pools are generated and stored in its status, generating
  -- them again gives the same list, whatever versions the cloud profile has dropped since, as long as it lists no other
  -- image for one of the pools.
  pub images_outlast_the_profile :
      (profile profile' : CloudProfileConfig) (worker worker' : WorkerResource)
      (pools : List WorkerPool) (images : List MachineImage) (status : ProviderStatus)
      → generate_machine_images env profile worker [] pools ≡ ok images
      → worker'.provider_status ≡ some status
      → env.decode_worker_status status.raw ≡ ok (record { machine_images = images })
      → All (NoOther (find_worker_image env profile worker) profile') pools
      → generate_machine_images env profile' worker' [] pools ≡ ok images
  images_outlast_the_profile profile profile' worker worker' pools images status h s d k =
      let (c, has, grown) = generate-Generated env profile worker [] pools images tt h in
      generate_same profile profile' worker worker' [] pools
        (pools_found_again profile profile' worker worker' status images c s d pools has k)
      ∙ h
