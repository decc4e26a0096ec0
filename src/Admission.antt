-- ===== src/Admission.antt =====
-- pkg/admission: what the validators of shoots, seeds and cloud profiles answer, and how the mutator of namespaced cloud
-- profiles changes them.
pub mod Ranges
pub mod Shoot
pub mod BackupBucket
pub mod CloudProfile
pub mod NamespacedCloudProfile
pub mod Merge
use gardener_extension_provi.Common.{
  ℕ, String, ◌≡◌, refl, Bool, true, false, Option, List, [], ◌∷◌, insert,
}
use gardener_extension_provi.Failure.{Error, errorf, Result, ok, err}
use gardener_extension_provi.Apis.{InfrastructureConfig, CloudProfileConfig}
use gardener_extension_provi.Validation.{FieldError, ErrorList}
use gardener_extension_provi.Validation.Workers.{NodeTemplate}

-- why an object is turned down
pub data Refusal : Type 0 where
  -- an error of a call, or of fmt.Errorf
  failed : Error → Refusal
  -- one error of the field package
  field : FieldError → Refusal
  -- ErrorList.ToAggregate()
  aggregate_of : FieldError → ErrorList → Refusal
  -- a nil pointer that the code dereferences
  nil_pointer : Refusal

pub data Verdict (A : Type 0) : Type 0 where
  granted : A → Verdict A
  refused : Refusal → Verdict A

pub granted_inj : {A : Type 0} {x y : A} → Path (Verdict A) (granted x) (granted y) → x ≡ y
granted_inj e = cc

abbrev pub aggregate : ErrorList → Verdict (Unit {0})
aggregate [] = granted tt
aggregate (e ∷ es) = refused (aggregate_of e es)

pub aggregate_granted : (es : ErrorList) (u : Unit {0}) → aggregate es ≡ granted u → es ≡ []
aggregate_granted [] u h = refl
aggregate_granted (e ∷ es) u h = absurd (cc (h))

-- `if err != nil { return err }`
unfoldable pub and_if : {A B : Type 0} → Verdict A → (A → Verdict B) → Verdict B
and_if (granted a) f = f a
and_if (refused r) f = refused r

pub and_if_inv :
    {A B : Type 0} (v : Verdict A) (f : A → Verdict B) (b : B)
    → and_if v f ≡ granted b
    → (a : A) × (v ≡ granted a) × (f a ≡ granted b)
unfolding and_if
and_if_inv (granted a) f b h = (a, refl, h)
and_if_inv (refused r) f b h = absurd (cc (h))

abbrev pub or_failed : {A : Type 0} → Result A → Verdict A
or_failed (ok a) = granted a
or_failed (err e) = refused (failed e)

abbrev pub wrong_type : {A : Type 0} → Verdict A
wrong_type = refused (failed (errorf "wrong object type"))

pub record Region : Type 0 where
  pub name : String
  pub zones : List String

abbrev allow_zones : List (String × Bool) → List String → List (String × Bool)
allow_zones allowed [] = allowed
allow_zones allowed (z ∷ zs) = allow_zones (insert z true allowed) zs

-- getAllowedZonesFromCloudProfile, and getAllowedRegions, from a map that is filled so far
unfoldable pub get_allowed_zones : List (String × Bool) → List Region → List (String × Bool)
get_allowed_zones allowed [] = allowed
get_allowed_zones allowed (r ∷ rs) = get_allowed_zones (allow_zones allowed r.zones) rs

-- A runtime.Decoder, for each kind of configuration: the functions of decode.go.
pub record Decoders : Type 0 where
  pub infrastructure : String → Result InfrastructureConfig
  pub cloud_profile : String → Result CloudProfileConfig
  pub worker : String → Result (Option NodeTemplate)
