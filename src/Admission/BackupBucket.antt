-- ===== src/Admission/BackupBucket.antt =====
-- pkg/admission/validator/backup_bucket.go: the backup configuration of a seed.
pub mod Immutable
use gardener_extension_provi.Common.{
  ℤ, pos, negsuc, int_eq, ℕ, String, concat, quoted, Bool, true, false, not, ◌&&◌, ◌||◌, ◌==◌,
  nat_eq, ltb, Option, none, some, List, [], ◌∷◌, lookup, if◌then◌else◌,
}
use gardener_extension_provi.Failure.{Error, errorf, wrap, Result}
use gardener_extension_provi.Admission.{
  Refusal, failed, Verdict, granted, refused, and_if, or_failed, wrong_type,
}

pub record BackupBucketConfig : Type 0 where
  pub dual_zone_bucket_location : String
  pub request_checksum_calculation : String
  pub response_checksum_validation : String
  pub default_object_retention_days : Option ℤ

-- core.Seed, with its Backup and the ProviderConfig in it
pub record Seed : Type 0 where
  pub annotations : List (String × String)
  pub backup : Option (Option String)

abbrev pub override_annotation : String
override_annotation = "backupbucket.webook.gdc.goog/override"

abbrev pub default_object_retention_days_of_none : ℤ
default_object_retention_days_of_none = pos 1

abbrev pub max_object_retention_days : ℕ
max_object_retention_days = 36500

abbrev pub days_or_default : Option ℤ → ℤ
days_or_default none = default_object_retention_days_of_none
days_or_default (some days) = days

unfoldable pub get_effective_retention_days : Option BackupBucketConfig → ℤ
get_effective_retention_days none = default_object_retention_days_of_none
get_effective_retention_days (some config) = days_or_default config.default_object_retention_days

unfoldable pub validate_checksum_value : String → Verdict (Unit {0})
validate_checksum_value val =
    if val == "WHEN_SUPPORTED" || val == "WHEN_REQUIRED"
    then granted tt
    else refused (
        failed (
          errorf (
            concat
              ("value " ∷ quoted val ∷ " must be one of: WHEN_SUPPORTED, WHEN_REQUIRED" ∷ []))))

abbrev pub checked_value : String → Verdict (Unit {0})
checked_value val = if val == "" then granted tt else validate_checksum_value val

abbrev pub in_limits : Option ℤ → Bool
in_limits none = true
in_limits (some (pos n)) = not (ltb max_object_retention_days n)
in_limits (some (negsuc n)) = false

abbrev pub invalid_days : Refusal
invalid_days =
    failed (errorf "invalid DefaultObjectRetentionDays: value must be between 0 and 36500")

unfoldable pub validate_checksum_settings : BackupBucketConfig → Verdict (Unit {0})
validate_checksum_settings config = and_if (checked_value config.request_checksum_calculation) λ u.
    and_if (checked_value config.response_checksum_validation) λ v.
      if in_limits config.default_object_retention_days then granted tt else refused invalid_days

abbrev pub days_eq : Option ℤ → Option ℤ → Bool
days_eq none none = true
days_eq (some a) (some b) = int_eq a b
days_eq _ _ = false

-- reflect.DeepEqual of two pointers to configurations
unfoldable pub backup_config_eq : Option BackupBucketConfig → Option BackupBucketConfig → Bool
backup_config_eq none none = true
backup_config_eq (some a) (some b) =
    a.dual_zone_bucket_location == b.dual_zone_bucket_location
    && a.request_checksum_calculation == b.request_checksum_calculation
    && a.response_checksum_validation == b.response_checksum_validation
    && days_eq a.default_object_retention_days b.default_object_retention_days
backup_config_eq _ _ = false

abbrev pub is_true : Option String → Bool
is_true none = false
is_true (some s) = s == "true"

abbrev pub overridden : Seed → Bool
overridden seed = is_true (lookup override_annotation seed.annotations)

abbrev pub unless_overridden : Seed → String → Verdict (Unit {0})
unless_overridden seed text = if overridden seed then granted tt else refused (failed (errorf text))

abbrev pub one_is_nil : Option String → Option String → Bool
one_is_nil none (some b) = true
one_is_nil (some a) none = true
one_is_nil _ _ = false

module _ (decode : String → Result BackupBucketConfig) where
  abbrev pub decoded_config : Option String → Verdict (Option BackupBucketConfig)
  decoded_config none = granted none
  decoded_config (some raw) = and_if (or_failed (decode raw)) (λ c. granted (some c))

  -- a configuration of the new seed is also checked
  abbrev pub checked_config : Option String → Verdict (Option BackupBucketConfig)
  checked_config none = granted none
  checked_config (some raw) =
      and_if (or_failed (decode raw))
        λ c. and_if (validate_checksum_settings c) (λ u. granted (some c))

  abbrev pub compare_configs :
      Seed
      → Option String
      → Option String
      → Option BackupBucketConfig
      → Option BackupBucketConfig
      → Verdict (Unit {0})
  compare_configs seed new old c d =
      if not (int_eq (get_effective_retention_days c) (get_effective_retention_days d))
      then unless_overridden seed
          "defaultObjectRetentionDays is immutable and cannot be changed without override"
      else if one_is_nil new old
      then unless_overridden seed
          "cannot change backup bucket flow from dual-zone to zonal or vice-versa without override"
      else if not (backup_config_eq c d)
      then unless_overridden seed "seed backup providerConfig is immutable"
      else granted tt

  abbrev pub compare_backups :
      Seed
      → Option (Option String)
      → Option (Option String)
      → Option BackupBucketConfig
      → Verdict (Unit {0})
  compare_backups seed (some none) (some none) c = granted tt
  compare_backups seed (some new) (some old) c =
      and_if (decoded_config old) (compare_configs seed new old c)
  compare_backups seed _ _ c = granted tt

  abbrev pub backup_config : Option (Option String) → Option String
  backup_config none = none
  backup_config (some config) = config

  abbrev pub against_old :
      Seed → Option BackupBucketConfig → Option (Option Seed) → Verdict (Unit {0})
  against_old new c none = granted tt
  against_old new c (some none) = wrong_type
  against_old new c (some (some old)) = compare_backups new new.backup old.backup c

  -- Validate: an object that is no seed is `none`, and so is an old object that is not there
  unfoldable pub validate_seed : Option Seed → Option (Option Seed) → Verdict (Unit {0})
  unfolding validate_checksum_settings
  validate_seed none old = wrong_type
  validate_seed (some new) old =
      and_if (checked_config (backup_config new.backup)) (λ c. against_old new c old)
