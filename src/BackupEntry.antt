-- ===== src/BackupEntry.antt =====
-- pkg/controller/backupentry/actuator.go.
pub mod Prefixes
pub mod Confined
use Prim.Native.String.{len, slice}
use text.Mathlib.Text.{starts_with}
use gardener_extension_provi.Common.{
  ℕ, String, concat, quoted, Bool, true, false, Option, none, some, List, [], ◌∷◌, if◌then◌else◌,
}
use gardener_extension_provi.Failure.{Error, errorf, wrap, is_not_found, Result, ok, err}
use gardener_extension_provi.Action.{Exec, done, call, and_then, ◌>>=◌, or_wrap, pure, fail}
use gardener_extension_provi.Secret.{
  OrgClusterConfig, SecretReference, get_service_account_from_secret_reference,
  get_gdch_config_from_secret_reference,
}
use gardener_extension_provi.Storage.{
  Bucket, OrgClient, get_and_validate_zonal_bucket, get_and_validate_dual_zone_bucket,
  is_dual_zone_bucket_flow,
}
use gardener_extension_provi.Storage.Keys.{get_access_key_and_key_id}
use gardener_extension_provi.BackupBucket.{
  S3Config, S3Client, BucketHost, BackupBucketClientConfig, determined_by, get_org_client,
}

-- extensionsv1alpha1.BackupEntry, as far as the controller reads it
pub record BackupEntry : Type 0 where
  pub name : String
  pub bucket_name : String
  pub secret_ref : SecretReference
  pub provider_config : Option String

pub record BucketMetadata : Type 0 where
  pub endpoint : String
  pub region : String
  pub fully_qualified_name : String

pub record StorageClient (W : Type 0) : Type 0 where
  pub s3_client : S3Client W
  pub bucket : BucketMetadata

-- strings.TrimPrefix
abbrev pub trim_prefix : String → String → String
trim_prefix s t = if starts_with s t then slice s (len t) (len s) else s

-- what the objects of the entry begin with
unfoldable pub entry_prefix : String → String
entry_prefix name = concat (trim_prefix name "source-" ∷ "/" ∷ [])

unfoldable pub get_etcd_secret_data :
    {W : Type 0} → BackupEntry → List (String × String) → Exec W (List (String × String))
get_etcd_secret_data entry backup_secret_data = pure backup_secret_data

-- `append_certs` says whether AppendCertsFromPEM finds a certificate
module _ {W : Type 0} (host : BucketHost W) (append_certs : String → Bool) where
  abbrev pub failing : String → String → Error → Error
  failing what name =
      wrap (concat ("failed to get " ∷ what ∷ " for backup entry " ∷ name ∷ ":" ∷ []))

  unfoldable pub get_client_and_config : BackupEntry → Exec W (BackupBucketClientConfig W)
  get_client_and_config entry = do
    account ← or_wrap (failing "service account" entry.name) (
        get_service_account_from_secret_reference host.fetch_secret host.parse_account
          entry.secret_ref)
    config ←
        or_wrap (failing "GDCH config" entry.name) (
          get_gdch_config_from_secret_reference host.fetch_secret host.parse_config
            entry.secret_ref)
    client ← or_wrap (failing "org client" entry.name) (get_org_client host config account)
    pure (record { org_client = client; service_account = account; gdch_config = config })

  abbrev metadata_of : Bucket → BucketMetadata
  metadata_of b = record {
    endpoint = b.endpoint;
    region = b.region;
    fully_qualified_name = b.fully_qualified_name;
  }

  abbrev pub no_bucket : String → String → String → Error → Error
  no_bucket kind name namespace = wrap (
      concat (
        "failed to get object storage for " ∷ kind ∷ " bucket " ∷ name ∷ " with namespace "
        ∷ namespace ∷ ":" ∷ []))

  unfoldable pub get_bucket_metadata :
      String → String → Option String → OrgClient W → OrgClusterConfig → Exec W BucketMetadata
  get_bucket_metadata name namespace provider_config c config = do
    dual ←
        or_wrap
          (wrap (
            concat (
              "failed to determine backup entry type " ∷ name ∷ " with naemspace " ∷ namespace ∷ ":"
              ∷ [])))
          (done (is_dual_zone_bucket_flow host.decode name config provider_config))
    bucket ←
        if dual
        then or_wrap (no_bucket "dual zone" name namespace)
            (get_and_validate_dual_zone_bucket c namespace name)
        else or_wrap (no_bucket "zonal" name namespace)
            (get_and_validate_zonal_bucket c namespace name)
    pure (metadata_of bucket)

  abbrev pub with_certs : String → Result String
  with_certs ca =
      if append_certs ca
      then ok ca
      else err (errorf "failed to parse CA PEM data from GDC config: check format")

  unfoldable pub create_s3_client :
      String → Option String → BackupBucketClientConfig W → Exec W (StorageClient W)
  create_s3_client name provider_config client = do
    bucket ←
        or_wrap (wrap (concat ("failed to get object storage bucket " ∷ quoted name ∷ ":" ∷ []))) (
          get_bucket_metadata name client.service_account.project provider_config client.org_client
            client.gdch_config)
    keys ←
        or_wrap (wrap "failed to get bucket access keys:")
          (get_access_key_and_key_id host.key_names client.service_account client.org_client)
    ca ←
        or_wrap
          (wrap (
            concat (
              "failed to decode CA data from GDC config while creating S3 client for bucket "
              ∷ quoted name
              ∷ ":"
              ∷ [])))
          (done (host.decode_base64 client.gdch_config.ca_data))
    certs ← done (with_certs ca)
    s3 ←
        or_wrap
          (wrap (concat ("failed to initialize S3 client for bucket " ∷ quoted name ∷ ":" ∷ [])))
          (done (
            host.new_s3_client record {
              access_key_id = keys.access_key_id;
              secret_access_key = keys.access_key;
              endpoint_url = bucket.endpoint;
              region = bucket.region;
              s3_certificate = certs;
            }))
    pure (record { s3_client = s3; bucket = bucket })

  -- a bucket that is not there has no objects
  abbrev pub with_client : String → String → Result (StorageClient W) → Exec W (Unit {0})
  with_client name prefix (err e) =
      if is_not_found e then pure tt else fail (wrap "failed to create s3Client," e)
  with_client name prefix (ok s) =
      or_wrap
        (wrap (
          concat (
            "failed to delete object versions with prefix "
            ∷ quoted prefix
            ∷ " from bucket "
            ∷ name
            ∷ ":"
            ∷ [])))
        (call (s.s3_client.delete_object_versions_with_prefix s.bucket.fully_qualified_name prefix))

  unfoldable pub delete_objects_with_prefix :
      String → Option String → String → BackupBucketClientConfig W → Exec W (Unit {0})
  delete_objects_with_prefix name provider_config prefix client =
      and_then (create_s3_client name provider_config client) (with_client name prefix)

  unfoldable pub delete_backup_entry : BackupEntry → Exec W (Unit {0})
  delete_backup_entry entry =
      and_then
        (or_wrap
            (wrap (
              concat (
                "failed to get client and config while reconciling backup bucket " ∷ entry.name
                ∷ ":" ∷ [])))
            (get_client_and_config entry)
          >>= λ client.
              delete_objects_with_prefix entry.bucket_name entry.provider_config
                (entry_prefix entry.name) client)
        (λ r. done (determined_by host.determine r))
