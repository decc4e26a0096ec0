-- ===== src/Validation/Workers/Accepted.antt =====
-- What ValidateWorkers accepts.
use gardener_extension_provi.Common.{
  ℕ, ◌+◌, String, ◌≡◌, ◌≢◌, refl, ◌↔◌, ◌⊎◌, Bool, true, false, not, ◌||◌, ◌==◌, eq_iff, Option,
  none, some, List, [], ◌∷◌, ◌++◌, any, All, allowed, insert, arith, if◌then◌else◌,
}
use gardener_extension_provi.Apis.{Zone}
use gardener_extension_provi.Validation.{
  FieldPath, child_of, index_of, required, invalid, duplicate, ErrorList, fails_if,
}
use gardener_extension_provi.Validation.Accepted.{append_nil_iff, fails_if_iff, iff_trans, iff_pair}
use gardener_extension_provi.Validation.Workers.{
  Volume, Worker, get_infra_zones, no_type, volume_errors, zones_errors, validate_zones,
  validate_worker, worker_errors, name_errors, validate_workers,
}

-- no two workers have the same name, and each has one
abbrev pub Distinct : List Worker → Type 0
Distinct [] = Unit
Distinct (w ∷ ws) = (w.name ≢ "") × All (λ v. v.name ≢ w.name) ws × Distinct ws

-- the worker's name is none of these
abbrev IsNew : List String → Worker → Type 0
IsNew seen w = any (λ n. n == w.name) seen ≡ false

All-IsNew-cons :
    (m : String) (seen : List String) (ws : List Worker)
    → All (IsNew (m ∷ seen)) ws ↔ (All (λ v. v.name ≢ m) ws × All (IsNew seen) ws)
All-IsNew-cons m seen [] = ground arith
All-IsNew-cons m seen (w ∷ ws) = ground (arith, eq_iff m w.name, All-IsNew-cons m seen ws)

All-IsNew-nil : (ws : List Worker) → All (IsNew []) ws
All-IsNew-nil [] = tt
All-IsNew-nil (w ∷ ws) = (refl, All-IsNew-nil ws)

unfoldable name_step : FieldPath → ℕ → List String → Worker → ErrorList
name_step path i seen w =
    if w.name == ""
    then required (child_of (index_of path i) "name") "must specify a name for the worker pool" ∷ []
    else fails_if (any (λ n. n == w.name) seen)
        (duplicate (child_of (index_of path i) "name") w.name)

name_step_iff :
    (path : FieldPath) (i : ℕ) (seen : List String) (w : Worker)
    → (name_step path i seen w ≡ []) ↔ ((w.name ≢ "") × IsNew seen w)
unfolding name_step
name_step_iff path i seen w = ground (
  arith,
  eq_iff w.name "",
  fails_if_iff (any (λ n. n == w.name) seen) (duplicate (child_of (index_of path i) "name") w.name),
)

name_errors_iff :
    (path : FieldPath) (i : ℕ) (seen : List String) (ws : List Worker)
    → (name_errors path i seen ws ≡ []) ↔ (All (IsNew seen) ws × Distinct ws)
unfolding name_errors name_step
name_errors_iff path i seen [] = ground arith
name_errors_iff path i seen (w ∷ ws) = ground (
  arith,
  append_nil_iff (name_step path i seen w) (name_errors path (i + 1) (w.name ∷ seen) ws),
  name_step_iff path i seen w,
  All-IsNew-cons w.name seen ws,
  name_errors_iff path (i + 1) (w.name ∷ seen) ws,
)

-- Volume and zones of a worker
abbrev pub HasVolume : Option Volume → Type 0
HasVolume none = ⊥
HasVolume (some v) = (v.type ≢ none) × (v.size ≢ "")

no_type_iff : (o : Option String) → (no_type o ≡ false) ↔ (o ≢ none)
no_type_iff none = ground arith
no_type_iff (some t) = ground arith

volume_errors_iff :
    (path : FieldPath) (o : Option Volume) → (volume_errors path o ≡ []) ↔ HasVolume o
volume_errors_iff path none = ground arith
volume_errors_iff path (some v) = ground (
  arith,
  append_nil_iff
      (fails_if (no_type v.type) (required (child_of path "type") "must specify volume type")) _,
  eq_iff v.size "",
  no_type_iff v.type,
  fails_if_iff (no_type v.type) (required (child_of path "type") "must specify volume type"),
)

-- one of the zones has this name
abbrev pub Named : String → List Zone → Type 0
Named z [] = ⊥
Named z (y ∷ ys) = (y.name ≡ z) ⊎ Named z ys

allowed-insert :
    (k j : String) (m : List (String × Bool))
    → allowed k (insert j true m) ≡ (if j == k then true else allowed k m)
allowed-insert k j [] = refl
allowed-insert k j ((i, b) ∷ m) =
    ground (arith, eq_iff j k, eq_iff i j, eq_iff i k, allowed-insert k j m)

infra_zones_iff :
    (z : String) (zs : List Zone) → (allowed z (get_infra_zones zs) ≡ true) ↔ Named z zs
unfolding get_infra_zones
infra_zones_iff z [] = ground arith
infra_zones_iff z (y ∷ ys) =
    ground
      (arith, eq_iff y.name z, allowed-insert z y.name (get_infra_zones ys), infra_zones_iff z ys)

module _ (profile_zones : List (String × Bool)) (zones : List Zone) where
  -- a zone of the cloud profile and of the infrastructure
  abbrev pub IsKnown : String → Type 0
  IsKnown z = (allowed z profile_zones ≡ true) × Named z zones

  zones_errors_iff :
      (path : FieldPath) (i : ℕ) (zs : List String)
      → (zones_errors profile_zones (get_infra_zones zones) path i zs ≡ []) ↔ All IsKnown zs
  unfolding zones_errors
  zones_errors_iff path i [] = ground arith
  zones_errors_iff path i (z ∷ zs) =
      let unknown = not (allowed z profile_zones) || not (allowed z (get_infra_zones zones)) in
      let error =
        invalid (index_of path i) z
          "zone must be defined in the cloudprofile and Infrastructure Config" in
      ground (
        arith,
        append_nil_iff (fails_if unknown error)
            (zones_errors profile_zones (get_infra_zones zones) path (i + 1) zs),
        fails_if_iff unknown error,
        infra_zones_iff z zones,
        zones_errors_iff path (i + 1) zs,
      )

  -- at least one zone, all of them known, and a volume with a type and a size
  abbrev pub IsComplete : Worker → Type 0
  IsComplete w = (w.zones ≢ []) × All IsKnown w.zones × HasVolume w.volume

  validate_zones_iff :
      (path : FieldPath) (w : Worker) (zs : List String)
      → w.zones ≡ zs
      → (validate_zones profile_zones (get_infra_zones zones) w path ≡ [])
        ↔ ((zs ≢ []) × All IsKnown zs)
  unfolding validate_zones
  validate_zones_iff path w [] e = rw e (ground arith)
  validate_zones_iff path w (z ∷ zs) e =
      rw e (iff_trans (zones_errors_iff path 0 (z ∷ zs)) (λ h. ((λ q. cc), h), λ h. h.1))

  worker_errors_iff :
      (path : FieldPath) (i : ℕ) (ws : List Worker)
      → (worker_errors profile_zones (get_infra_zones zones) path i ws ≡ []) ↔ All IsComplete ws
  unfolding worker_errors validate_worker
  worker_errors_iff path i [] = ground arith
  worker_errors_iff path i (w ∷ ws) =
      let p = index_of path i in
      let here = validate_zones profile_zones (get_infra_zones zones) w (child_of p "zones") in
      let volume = volume_errors (child_of p "volume") w.volume in
      ground (
        arith,
        append_nil_iff (here ++ volume)
            (worker_errors profile_zones (get_infra_zones zones) path (i + 1) ws),
        append_nil_iff here volume,
        validate_zones_iff (child_of p "zones") w w.zones refl,
        volume_errors_iff (child_of p "volume") w.volume,
        worker_errors_iff path (i + 1) ws,
      )

  -- ValidateWorkers reports no error exactly where the workers have names that are not empty and all differ, and each
  -- has at least one zone, only zones of both the cloud profile and the infrastructure, and a volume with a type and a
  -- size.
  pub validate_workers_iff :
      (ws : List Worker) (path : FieldPath)
      → (validate_workers ws profile_zones zones path ≡ []) ↔ (Distinct ws × All IsComplete ws)
  unfolding validate_workers
  validate_workers_iff ws path =
      iff_pair
        (append_nil_iff (name_errors path 0 [] ws)
          (worker_errors profile_zones (get_infra_zones zones) path 0 ws))
        (iff_trans (name_errors_iff path 0 [] ws) (λ h. h.1, λ h. (All-IsNew-nil ws, h)))
        (worker_errors_iff path 0 ws)
