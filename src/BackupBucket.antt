-- ===== src/BackupBucket.antt =====
-- pkg/controller/backupbucket/actuator.go: what the backup bucket controller works on, and its clients.
pub mod Creation
pub mod Generated
pub mod Actuator
use gardener_extension_provi.Common.{ℕ, String, concat, Bool, Option, none, some, List, [], ◌∷◌}
use gardener_extension_provi.Failure.{Error, wrap, Result, ok, err}
use gardener_extension_provi.Action.{Exec, done, ◌>>=◌, or_wrap, pure}
use gardener_extension_provi.Secret.{
  ServiceAccount, OrgClusterConfig, Secret, SecretReference,
  get_service_account_from_secret_reference, get_gdch_config_from_secret_reference,
}
use gardener_extension_provi.Kube.{ObjectClient}
use gardener_extension_provi.Admission.BackupBucket.{BackupBucketConfig}
use gardener_extension_provi.Storage.{OrgClient}
use gardener_extension_provi.Storage.Keys.{KeyNames}

-- The BackupBucket resource, as far as the controller reads and writes it.
pub record BackupBucket : Type 0 where
  pub name : String
  pub annotations : List (String × String)
  pub secret_ref : SecretReference
  -- Spec.ProviderConfig.Raw
  pub provider_config : Option String
  -- Status.GeneratedSecretRef
  pub generated_secret_ref : Option SecretReference

pub record GeneratedSecret : Type 0 where
  pub name : String
  pub namespace : String
  pub data_of : List (String × String)

-- gdc/pkg/s3.Config, without the HTTP client
pub record S3Config : Type 0 where
  pub access_key_id : String
  pub secret_access_key : String
  pub endpoint_url : String
  pub region : String
  pub s3_certificate : String

-- DeleteObjectVersionsWithPrefix of gdc/pkg/s3, by bucket and prefix
pub record S3Client (W : Type 0) : Type 0 where
  pub delete_object_versions_with_prefix : String → String → W → Result (Unit {0}) × W

-- the values of a map[string]interface{} that is marshalled
pub data JsonValue : Type 0 where
  text : String → JsonValue
  flag : Bool → JsonValue
  bytes : String → JsonValue

-- Calls that leave the package: the seed's API server, decoders, encoding/json and base64, the client factory, and
-- errors.DetermineError.
pub record BucketHost (W : Type 0) : Type 0 where
  pub fetch_secret : SecretReference → W → Result Secret
  pub parse_account : String → Result ServiceAccount
  pub parse_config : String → Result OrgClusterConfig
  pub get_org_client : OrgClusterConfig → ServiceAccount → Result (OrgClient W)
  pub new_s3_client : S3Config → Result (S3Client W)
  pub decode : String → Result BackupBucketConfig
  pub decode_base64 : String → Result String
  pub marshal_config : OrgClusterConfig → Result String
  pub marshal_account : ServiceAccount → Result String
  pub marshal_values : List (String × JsonValue) → Result String
  pub determine : Option Error → Option Error
  pub key_names : KeyNames
  pub secrets : ObjectClient W GeneratedSecret
  -- client.Patch and client.Status().Patch with the old object and the new; the server's object comes back
  pub patch : BackupBucket → BackupBucket → W → Result BackupBucket × W
  pub patch_status : BackupBucket → BackupBucket → W → Result BackupBucket × W

pub record BackupBucketClientConfig (W : Type 0) : Type 0 where
  pub org_client : OrgClient W
  pub service_account : ServiceAccount
  pub gdch_config : OrgClusterConfig

unfoldable pub get_generated_secret_name : String → String
get_generated_secret_name bucket = concat ("generated-gdch-backup-secret-" ∷ bucket ∷ [])

abbrev pub generated_secret_namespace : String
generated_secret_namespace = "garden"

abbrev result_of : Option Error → Result (Unit {0})
result_of none = ok tt
result_of (some e) = err e

-- errors.DetermineError of what a function returned
abbrev pub determined_by : (Option Error → Option Error) → Result (Unit {0}) → Result (Unit {0})
determined_by determine (ok u) = result_of (determine none)
determined_by determine (err e) = result_of (determine (some e))

module _ {W : Type 0} (host : BucketHost W) where
  abbrev pub failing : String → String → Error → Error
  failing what name =
      wrap (concat ("failed to get " ∷ what ∷ " for backup bucket " ∷ name ∷ ":" ∷ []))

  -- GetOrgClient of the default factory
  unfoldable pub get_org_client : OrgClusterConfig → ServiceAccount → Exec W (OrgClient W)
  get_org_client config account =
      or_wrap (wrap "failed to create org client:") (done (host.get_org_client config account))

  unfoldable pub get_client_and_config : BackupBucket → Exec W (BackupBucketClientConfig W)
  get_client_and_config bucket = do
    account ← or_wrap (failing "service account" bucket.name) (
        get_service_account_from_secret_reference host.fetch_secret host.parse_account
          bucket.secret_ref)
    config ← or_wrap (failing "GDCH config" bucket.name) (
        get_gdch_config_from_secret_reference host.fetch_secret host.parse_config bucket.secret_ref)
    client ← or_wrap (failing "org client" bucket.name) (get_org_client config account)
    pure (record { org_client = client; service_account = account; gdch_config = config })
