-- ===== src/BackupBucket/Creation.antt =====
-- pkg/controller/backupbucket/actuator.go: the creation of buckets.
pub mod Admitted
use gardener_extension_provi.Common.{
  ℤ, pos, negsuc, int_eq, ℕ, String, concat, Bool, true, false, not, ltb, nat_eq, Option, none,
  some, List, [], ◌∷◌, if◌then◌else◌,
}
use gardener_extension_provi.Failure.{Error, errorf, wrap, is_already_exists, Result, ok, err}
use gardener_extension_provi.Action.{Exec, done, call, and_then, ◌>>=◌}
use gardener_extension_provi.Secret.{ServiceAccount}
use gardener_extension_provi.Kube.{ObjectClient, do_create}
use gardener_extension_provi.Admission.BackupBucket.{
  BackupBucketConfig, max_object_retention_days, default_object_retention_days_of_none,
}
use gardener_extension_provi.Storage.{Bucket, OrgClient}

abbrev out_of_limits : Error
out_of_limits = errorf "defaultObjectRetentionDays must be between 0 and 36500"

-- no days are no policy
abbrev pub policy_of : ℤ → Option ℤ
policy_of days = if int_eq days (pos 0) then none else some days

abbrev pub policy_within : Option ℤ → Result (Option ℤ)
policy_within none = ok (policy_of default_object_retention_days_of_none)
policy_within (some (negsuc n)) = err out_of_limits
policy_within (some (pos n)) =
    if ltb max_object_retention_days n then err out_of_limits else ok (policy_of (pos n))

unfoldable pub get_locking_policy : Option BackupBucketConfig → Result (Option ℤ)
get_locking_policy none = ok (policy_of default_object_retention_days_of_none)
get_locking_policy (some config) = policy_within config.default_object_retention_days

abbrev pub bucket_named : String → ServiceAccount → Bucket
bucket_named name account = record {
  name = name;
  namespace = account.project;
  description = "storage for etcd backups";
  location = "";
  locking_policy = none;
  ready = none;
  endpoint = "";
  region = "";
  fully_qualified_name = "";
}

module _ (decode : String → Result BackupBucketConfig) where
  abbrev pub decoded_config : String → Option String → Result (Option BackupBucketConfig)
  decoded_config name none = ok none
  decoded_config name (some raw) = elim (decode raw) [
    | ok config ↦ ok (some config)
    | err e ↦ err (
        wrap (concat ("failed to decode BackupBucketConfig for backup bucket " ∷ name ∷ ":" ∷ []))
          e)
  ]

-- the switch over the two kinds of bucket; true for the dual-zone one
unfoldable pub configured : Bool → Option BackupBucketConfig → Option ℤ → Bucket → Result Bucket
configured false config policy b = ok (record b { locking_policy = policy })
configured true none policy b =
    err (errorf (concat ("backupBucketConfig is required for dual-zone bucket " ∷ b.name ∷ [])))
configured true (some config) policy b =
    ok (record b { location = config.dual_zone_bucket_location; locking_policy = policy })

-- a bucket that is there already is left alone
abbrev pub or_exists : Bucket → Result (Unit {0}) → Result (Unit {0})
or_exists b (ok u) = ok tt
or_exists b (err e) =
    if is_already_exists e
    then ok tt
    else err (
        wrap
          (concat
            ("failed to create bucketName " ∷ b.name ∷ " in namespace " ∷ b.namespace ∷ ":" ∷ []))
          e)

module _ {W : Type 0} (decode : String → Result BackupBucketConfig) where
  unfoldable pub create_bucket_if_not_exists :
      Bool → Option String → ObjectClient W Bucket → Bucket → Exec W (Unit {0})
  create_bucket_if_not_exists dual provider_config client bucket = do
    config ← done (decoded_config decode bucket.name provider_config)
    policy ← done (get_locking_policy config)
    b ← done (configured dual config policy bucket)
    and_then (do_create client b) (λ r. done (or_exists b r))

  unfoldable pub create_zonal_bucket_if_not_exists :
      String → Option String → OrgClient W → ServiceAccount → Exec W (Unit {0})
  create_zonal_bucket_if_not_exists name provider_config c account =
      create_bucket_if_not_exists false provider_config c.zonal_buckets (bucket_named name account)

  unfoldable pub create_dual_zone_bucket_if_not_exists :
      String → Option String → OrgClient W → ServiceAccount → Exec W (Unit {0})
  create_dual_zone_bucket_if_not_exists name provider_config c account =
      create_bucket_if_not_exists true provider_config c.global_buckets (bucket_named name account)
