-- ===== src/Samples/Backup.antt =====
-- Runs of the theorems on backup buckets and entries.
use gardener_extension_provi.Admission.BackupBucket.{validate_checksum_value}
use gardener_extension_provi.Admission.{and_if}
use gardener_extension_provi.Common.{
  ℤ, pos, String, ◌≡◌, refl, Option, none, some, List, [], ◌∷◌, lookup,
}
use gardener_extension_provi.Failure.{Error, Result, ok, err}
use gardener_extension_provi.Action.{call}
use gardener_extension_provi.Action.Ensures.{Ensures, Anything}
use gardener_extension_provi.Action.Loops.{Succeeds}
use gardener_extension_provi.Kube.{ObjectClient}
use gardener_extension_provi.Secret.{ServiceAccount, OrgClusterConfig, Secret}
use gardener_extension_provi.Admission.BackupBucket.{BackupBucketConfig, validate_checksum_settings}
use gardener_extension_provi.Storage.{Bucket, KeySecret, OrgClient}
use gardener_extension_provi.Storage.Keys.{KeyNames, get_access_key_and_key_id}
use gardener_extension_provi.Storage.Keys.Owned.{IsOwned, access_keys-IsOwned}
use gardener_extension_provi.BackupBucket.{
  BackupBucket, GeneratedSecret, S3Client, BucketHost, BackupBucketClientConfig,
}
use gardener_extension_provi.BackupBucket.Creation.{get_locking_policy}
use gardener_extension_provi.BackupBucket.Creation.Admitted.{
  Locks, Uses, admitted_backup_config_is_usable,
}
use gardener_extension_provi.BackupBucket.Generated.{checksums}
use gardener_extension_provi.Samples.World.{key, missing, found, found_tt, remove}

-- the generated secrets by namespace/name
abbrev Secrets : Type 0
Secrets = List (String × GeneratedSecret)

abbrev generated : GeneratedSecret
generated = record {
  name = "generated-gdch-backup-secret-backups";
  namespace = "garden";
  data_of = ("region", "r") ∷ [];
}

abbrev with_secret : Secrets
with_secret = ("garden/generated-gdch-backup-secret-backups", generated) ∷ []

abbrev names : KeyNames
names = record {
  secret_name_prefix = "object-storage-key-";
  subject_type = "object.gdc.goog/subject-type";
  subject = "object.gdc.goog/subject";
}

abbrev account : ServiceAccount
account = record {
  name = "sa";
  project = "project";
  token_uri = "uri";
  private_key_id = "id";
  private_key = "key";
}

abbrev key_secret : KeySecret
key_secret = record {
  name = "object-storage-key-1";
  labels = [];
  annotations = ("object.gdc.goog/subject", "sa") ∷ [];
  data_of = ("access-key-id", "AK") ∷ ("secret-access-key", "SK") ∷ [];
}

-- a bucket that a finalizer keeps
abbrev kept_bucket : Bucket
kept_bucket = record {
  name = "backups";
  namespace = "project";
  description = "";
  location = "";
  locking_policy = none;
  ready = none;
  endpoint = "https://s3";
  region = "r";
  fully_qualified_name = "fq-backups";
}

abbrev kept : ObjectClient Secrets Bucket
kept = record {
  get = λ ns n w. ok kept_bucket;
  create = λ a w. (ok tt, w);
  patch = λ base a w. (ok a, w);
  delete = λ ns n w. (ok tt, w);
  create_or_update = λ a f. call (λ w. (ok (f a), w));
}

abbrev org : OrgClient Secrets
org = record {
  zonal_buckets = kept;
  global_buckets = kept;
  list_secrets = λ ns label w. ok (key_secret ∷ []);
  get_secret = λ ns n w. err missing;
  review = λ n ns w. (ok [], w);
}

abbrev IsKeySecret : KeySecret → Type 0
IsKeySecret s = s ≡ key_secret

keys_of_the_account :
    Ensures Anything
      (Succeeds (IsOwned Anything names account org IsKeySecret IsKeySecret))
      (get_access_key_and_key_id names account org)
keys_of_the_account =
    access_keys-IsOwned names account org IsKeySecret IsKeySecret
      record { listed = λ w p. (refl, tt); got = λ name w p. tt; reviews = λ name w p. tt }

abbrev config : BackupBucketConfig
config = record {
  dual_zone_bucket_location = "";
  request_checksum_calculation = "WHEN_SUPPORTED";
  response_checksum_validation = "";
  default_object_retention_days = some (pos 7);
}

abbrev decode : String → Result BackupBucketConfig
decode raw = ok config

week_of_retention :
    ((policy : Option ℤ) × (get_locking_policy (some config) ≡ ok policy)
      × Locks config.default_object_retention_days policy)
    × ((request response : String) × (checksums decode (some "config") ≡ ok (request, response))
        × Uses config.request_checksum_calculation request
        × Uses config.response_checksum_validation response)
unfolding validate_checksum_settings and_if validate_checksum_value
week_of_retention = admitted_backup_config_is_usable decode "config" config refl refl

abbrev s3 : S3Client Secrets
s3 = record { delete_object_versions_with_prefix = λ bucket prefix w. (ok tt, w) }

abbrev gdch_config : OrgClusterConfig
gdch_config = record { org_cluster_url = "https://management-kube"; ca_data = "ca" }

abbrev secret : Secret
secret = record {
  namespace = "garden";
  name = "backup";
  data_of = ("serviceaccount.json", "account") ∷ ("gdch-config", "config") ∷ [];
}

abbrev same_error : Option Error → Option Error
same_error e = e

abbrev host : BucketHost Secrets
host = record {
  fetch_secret = λ ref w. ok secret;
  parse_account = λ text. ok account;
  parse_config = λ text. ok gdch_config;
  get_org_client = λ c a. ok org;
  new_s3_client = λ c. ok s3;
  decode = decode;
  decode_base64 = λ text. ok text;
  marshal_config = λ c. ok "config";
  marshal_account = λ a. ok "account";
  marshal_values = λ values. ok "values";
  determine = same_error;
  key_names = names;
  secrets = record {
    get = λ ns n w. found (lookup (key ns n) w);
    create = λ a w. (ok tt, w);
    patch = λ base a w. (ok a, w);
    delete = λ ns n w. (found_tt (lookup (key ns n) w), remove (key ns n) w);
    create_or_update = λ a f. call (λ w. (ok (f a), w));
  };
  patch = λ old new w. (ok new, w);
  patch_status = λ old new w. (ok new, w);
}

abbrev client : BackupBucketClientConfig Secrets
client = record { org_client = org; service_account = account; gdch_config = gdch_config }

abbrev backup : BackupBucket
backup = record {
  name = "backups";
  annotations = [];
  secret_ref = record { namespace = "garden"; name = "backup" };
  provider_config = some "config";
  generated_secret_ref = none;
}

-- the generated secret is there
abbrev HasSecret : Secrets → Type 0
HasSecret w = w ≡ with_secret
