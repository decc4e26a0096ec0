-- ===== src/BackupBucket/Creation/Admitted.antt =====
-- pkg/controller/backupbucket/actuator.go: what the controller makes of a configuration that admission
-- (pkg/admission/validator/backup_bucket.go) accepts.
use mathlib.Core.Path.{subst}
use gardener_extension_provi.Common.{
  ℤ, pos, negsuc, zero, suc, ◌<◌, String, ◌≡◌, refl, ap, ◌∙◌, Bool, true, false, ◌==◌, ◌||◌,
  Bool-cases, ◌⊎◌, inl, inr, Option, none, some, eq_iff, arith, if◌then◌else◌,
}
use gardener_extension_provi.Failure.{Result, ok}
use gardener_extension_provi.Admission.{Refusal, granted, refused, and_if_inv}
use gardener_extension_provi.Admission.BackupBucket.{
  BackupBucketConfig, validate_checksum_value, checked_value, in_limits, validate_checksum_settings,
}
use gardener_extension_provi.BackupBucket.Creation.{policy_within, get_locking_policy}
use gardener_extension_provi.BackupBucket.Generated.{
  checksum_of, checksums, checksums_by, validate_checksum,
}

abbrev pub IsChecksum : String → Type 0
IsChecksum val = (val ≡ "WHEN_SUPPORTED") ⊎ (val ≡ "WHEN_REQUIRED")

-- the setting that is used: the one that is given, or the default
abbrev or_default : String → String
or_default val = if val == "" then "WHEN_REQUIRED" else val

passes : (x : Refusal) (b : Bool) → (if b then granted tt else refused x) ≡ granted tt → b ≡ true
passes x true h = refl
passes x false h = absurd (cc (h))

valid_value :
    (val : String)
    → validate_checksum_value val ≡ granted tt
    → (validate_checksum val ≡ ok tt) × IsChecksum val
unfolding validate_checksum_value validate_checksum
valid_value val h = elim (Bool-cases (val == "WHEN_SUPPORTED")) [
  | inl s ↦ rw s (refl, inl ((eq_iff val "WHEN_SUPPORTED").0 s))
  | inr s ↦ elim (Bool-cases (val == "WHEN_REQUIRED")) [
    | inl r ↦ rw s (rw r (refl, inr ((eq_iff val "WHEN_REQUIRED").0 r)))
    | inr r ↦ absurd (
        neither (passes _ (val == "WHEN_SUPPORTED" || val == "WHEN_REQUIRED") h)
          (ap (λ b. b || val == "WHEN_REQUIRED") s ∙ r))
  ]
]
  where
    neither : {b : Bool} → b ≡ true → b ≡ false → ⊥
    neither e f = cc (e, f)

checksum_of_lem :
    (name val : String)
    → checked_value val ≡ granted tt
    → (checksum_of name val ≡ ok (or_default val)) × IsChecksum (or_default val)
checksum_of_lem name val h = elim (Bool-cases (val == "")) [
  | inl empty ↦ rw empty (refl, inr refl)
  | inr filled ↦
      let (v, is) = valid_value val (
        subst (λ b. (if b then granted tt else validate_checksum_value val) ≡ granted tt) filled
          h) in
      rw filled (rw v (refl, is))
]

-- the setting that is used: the one that is given, if the storage knows it, or WHEN_REQUIRED where none is given
abbrev pub Uses : String → String → Type 0
Uses given used = ((given ≡ "") × (used ≡ "WHEN_REQUIRED")) ⊎ (IsChecksum given × (used ≡ given))

or_default-Uses : (val : String) → IsChecksum (or_default val) → Uses val (or_default val)
or_default-Uses val is = elim (Bool-cases (val == "")) [
  | inl empty ↦ rw empty (inl ((eq_iff val "").0 empty, refl))
  | inr filled ↦ rw filled (inr (given filled, refl))
]
  where
    given : val == "" ≡ false → IsChecksum val
    given filled = subst (λ b. IsChecksum (if b then "WHEN_REQUIRED" else val)) filled is

-- the policy for a period: the period itself, and none for no day
abbrev pub Locks : Option ℤ → Option ℤ → Type 0
Locks none policy = policy ≡ some (pos 1)
Locks (some (pos zero)) policy = policy ≡ none
Locks (some (pos (suc n))) policy = (n < 36500) × (policy ≡ some (pos (suc n)))
Locks (some (negsuc n)) policy = ⊥

days-Locks :
    (d : Option ℤ)
    → in_limits d ≡ true
    → (policy : Option ℤ) × (policy_within d ≡ ok policy) × Locks d policy
days-Locks none h = (_, refl, refl)
days-Locks (some (pos zero)) h = (none, refl, refl)
days-Locks (some (pos (suc n))) h = (some (pos (suc n)), ground (arith), (ground (arith), refl))
days-Locks (some (negsuc n)) h = absurd (cc (h))

-- A configuration of a backup that admission accepts, as the one of its seed, is one that the controller can work with. It
-- finds a locking policy: one day where no period is given, none for a period of 0 days, and else the period, which is at
-- most 36500 days. And it finds two checksum settings: the ones given, which are WHEN_SUPPORTED or WHEN_REQUIRED, and
-- WHEN_REQUIRED where none is given.
pub admitted_backup_config_is_usable :
    (decode : String → Result BackupBucketConfig) (raw : String) (config : BackupBucketConfig)
    → decode raw ≡ ok config
    → validate_checksum_settings config ≡ granted tt
    → ((policy : Option ℤ) × (get_locking_policy (some config) ≡ ok policy)
        × Locks config.default_object_retention_days policy)
      × ((request response : String) × (checksums decode (some raw) ≡ ok (request, response))
          × Uses config.request_checksum_calculation request
          × Uses config.response_checksum_validation response)
unfolding validate_checksum_settings get_locking_policy checksums
admitted_backup_config_is_usable decode raw config d h =
    let (u, a, h1) = and_if_inv (checked_value config.request_checksum_calculation) _ tt h in
    let (v, b, h2) = and_if_inv (checked_value config.response_checksum_validation) _ tt h1 in
    let (c1, k1) =
      checksum_of_lem "RequestChecksumCalculation" config.request_checksum_calculation a in
    let (c2, k2) =
      checksum_of_lem "ResponseChecksumValidation" config.response_checksum_validation b in
    (
      days-Locks config.default_object_retention_days
          (passes _ (in_limits config.default_object_retention_days) h2),
      (_, _, ap checksums_by d ∙ rw c1 (rw c2 refl), or_default-Uses _ k1, or_default-Uses _ k2),
    )
