-- ===== src/Admission/NamespacedCloudProfile/InUse.antt =====
-- What the admission of a change to a namespaced cloud profile keeps for the shoots that use it.
use gardener_extension_provi.Common.{
  both_true, String, ◌≡◌, refl, sym, ap, ◌∙◌, Bool, true, false, ◌&&◌, eq_iff, Option, none, some,
  List, [], ◌∷◌, is_empty, append_eq_nil, All, arith, if◌then◌else◌,
}
use gardener_extension_provi.Failure.{Result, ok, err}
use gardener_extension_provi.Validation.{FieldError, fails_if, ErrorList}
use gardener_extension_provi.Validation.CloudProfile.{member}
use gardener_extension_provi.Admission.{
  Verdict, granted, granted_inj, aggregate_granted, and_if_inv, or_failed,
}
use gardener_extension_provi.Admission.NamespacedCloudProfile.{
  NamespacedProfile, UsingShoot, ProfileAdmission, difference, build_kubernetes_version_set,
  machine_image_version_key, build_machine_image_key_set, get_deleted_versions, and_errors,
  images_in_use, shoots_in_use, validate_profile_update,
}

-- what was in the one set and has not been taken out is in the other
difference-member :
    (x : String) (a b : List String)
    → member x (difference a b) ≡ false
    → member x a ≡ true
    → member x b ≡ true
difference-member x [] b h k = absurd (cc (k))
difference-member x (y ∷ a) b h k =
    let later = difference-member x a b in ground (arith, eq_iff y x, later)

-- what a shoot uses stays: where the old profile has it, the new one has it
abbrev pub Stays : List String → List String → String → Type 0
Stays old new x = member x old ≡ true → member x new ≡ true

no_error_raised : (b : Bool) (e : FieldError) → fails_if b e ≡ [] → b ≡ false
no_error_raised true e h = absurd (cc (h))
no_error_raised false e h = refl

and_errors_inv :
    (es : ErrorList) (later : Verdict ErrorList)
    → and_errors es later ≡ granted []
    → (es ≡ []) × (later ≡ granted [])
and_errors_inv es later h =
    let (fs, e, k) = and_if_inv later _ [] h in
    let (p, q) = append_eq_nil es fs (granted_inj k) in (p, e ∙ ap granted q)

-- the image of a worker, where it names one with a version
abbrev pub ImageStays : List String → List String → Option (String × Option String) → Type 0
ImageStays old new none = Unit
ImageStays old new (some (name, none)) = Unit
ImageStays old new (some (name, some version)) =
    Stays old new (machine_image_version_key name version)

abbrev pub ShootKeeps : NamespacedProfile → NamespacedProfile → UsingShoot → Type 0
ShootKeeps old new shoot =
    Stays (build_kubernetes_version_set old) (build_kubernetes_version_set new)
      shoot.kubernetes_version
    × All (ImageStays (build_machine_image_key_set old) (build_machine_image_key_set new))
        shoot.images

images_stay :
    (old new : List String) (name : String) (images : List (Option (String × Option String)))
    → images_in_use (difference old new) name images ≡ granted []
    → All (ImageStays old new) images
unfolding images_in_use
images_stay old new name [] h = tt
images_stay old new name (none ∷ images) h = (tt, images_stay old new name images h)
images_stay old new name (some (i, none) ∷ images) h = absurd (cc (h))
images_stay old new name (some (i, some v) ∷ images) h =
    let (p, q) = and_errors_inv _ _ h in
    (
      difference-member (machine_image_version_key i v) old new (no_error_raised _ _ p),
      images_stay old new name images q,
    )

shoots_keep :
    (old new : NamespacedProfile) (shoots : List UsingShoot)
    → shoots_in_use (get_deleted_versions old new) shoots ≡ granted []
    → All (ShootKeeps old new) shoots
unfolding shoots_in_use get_deleted_versions
shoots_keep old new [] h = tt
shoots_keep old new (shoot ∷ shoots) h =
    let (p, q) = and_errors_inv _ _ h in
    let (es, r, s) = and_if_inv _ _ [] q in
    let (t, u) = and_errors_inv es _ s in
    (
      (
        difference-member shoot.kubernetes_version _ _ (no_error_raised _ _ p),
        images_stay _ _ shoot.name shoot.images (r ∙ ap granted t),
      ),
      shoots_keep old new shoots u,
    )

-- nothing was taken out
nothing_taken_out :
    (old new : List String) (x : String) → is_empty (difference old new) ≡ true → Stays old new x
nothing_taken_out old new x h = difference-member x old new (none_in _ h)
  where
    none_in : (l : List String) → is_empty l ≡ true → member x l ≡ false
    none_in [] e = refl
    none_in (y ∷ l) e = absurd (cc (e))

nothing_deleted :
    (old new : NamespacedProfile) (shoots : List UsingShoot)
    → is_empty (get_deleted_versions old new).0 ≡ true
    → is_empty (get_deleted_versions old new).1 ≡ true
    → All (ShootKeeps old new) shoots
unfolding get_deleted_versions
nothing_deleted old new [] p q = tt
nothing_deleted old new (shoot ∷ shoots) p q = (
  (
    nothing_taken_out (build_kubernetes_version_set old) (build_kubernetes_version_set new)
        shoot.kubernetes_version p,
    all_stay shoot.images,
  ),
  nothing_deleted old new shoots p q,
)
  where
    all_stay :
        (images : List (Option (String × Option String)))
        → All
            (ImageStays (build_machine_image_key_set old) (build_machine_image_key_set new))
            images
    all_stay [] = tt
    all_stay (none ∷ images) = (tt, all_stay images)
    all_stay (some (i, none) ∷ images) = (tt, all_stay images)
    all_stay (some (i, some v) ∷ images) = (
      nothing_taken_out (build_machine_image_key_set old) (build_machine_image_key_set new)
          (machine_image_version_key i v) q,
      all_stay images,
    )

module _ (env : ProfileAdmission) where
  by_deletions :
      (old new : NamespacedProfile) (shoots : List UsingShoot) (b : Bool) (v : Verdict (Unit {0}))
      → is_empty (get_deleted_versions old new).0 && is_empty (get_deleted_versions old new).1 ≡ b
      → (v ≡ granted tt → All (ShootKeeps old new) shoots)
      → (if b then granted tt else v) ≡ granted tt
      → All (ShootKeeps old new) shoots
  by_deletions old new shoots true v e f h =
      let (p, q) = both_true _ _ e in nothing_deleted old new shoots p q
  by_deletions old new shoots false v e f h = f h

  listed :
      (r : Result (List UsingShoot)) (l shoots : List UsingShoot)
      → or_failed r ≡ granted l
      → r ≡ ok shoots
      → l ≡ shoots
  listed (ok m) l shoots h k = cc
  listed (err e) l shoots h k = absurd (cc (h))

  -- A change of a namespaced cloud profile that is admitted takes nothing from the shoots that use the profile: their
  -- Kubernetes versions, and the machine image versions of their workers, are in the new profile if they were in the old.
  pub admitted_profile_keeps_what_is_used :
      (old new : NamespacedProfile) (shoots : List UsingShoot)
      → env.list_using new.namespace new.name ≡ ok shoots
      → validate_profile_update env old new ≡ granted tt
      → All (ShootKeeps old new) shoots
  unfolding validate_profile_update
  admitted_profile_keeps_what_is_used old new shoots l h =
      by_deletions old new shoots _ _ refl
        (λ k.
          let (found, p, q) = and_if_inv _ _ tt k in
          let (es, r, s) = and_if_inv _ _ tt q in
          shoots_keep old new shoots (
            ap (shoots_in_use (get_deleted_versions old new)) (sym (listed _ found shoots p l))
            ∙ r
            ∙ ap granted (aggregate_granted es tt s)))
        h
