-- ===== src/BackupBucket/Actuator/Waits.antt =====
-- pkg/controller/backupbucket/actuator.go: Delete, while the bucket is there.
use gardener_extension_provi.Common.{String, ◌≡◌, false, Bool}
use gardener_extension_provi.Failure.{Error, is_not_found, ok}
use gardener_extension_provi.Action.Ensures.{Ensures, Anything}
use gardener_extension_provi.Infrastructure.Deletion.Gone.Steps.{KeepsErrors}
use gardener_extension_provi.Action.Ends.{Ends}
use gardener_extension_provi.Secret.{ServiceAccount, OrgClusterConfig}
use gardener_extension_provi.Storage.{Bucket, OrgClient}
use gardener_extension_provi.Storage.Keys.{shared_namespace}
use gardener_extension_provi.BackupBucket.{
  BackupBucket, BucketHost, S3Config, S3Client, BackupBucketClientConfig, get_org_client,
}
use gardener_extension_provi.BackupBucket.Actuator.{bucket_client}

-- no error of the API server that says that something is not there
abbrev pub IsElse : Error → Type 0
IsElse e = is_not_found e ≡ false

module _ {W : Type 0} (P : W → Type 0) (host : BucketHost W) (backup : BackupBucket) where
  -- The condition `P` holds on, whatever is deleted of buckets and their objects, and as long as it does the bucket is
  -- found in the project of the account, by every client that is made.
  pub record StillThere : Type 0 where
    pub found :
        (config : OrgClusterConfig) (account : ServiceAccount) (c : OrgClient W) (dual : Bool)
        (w : W)
        → host.get_org_client config account ≡ ok c
        → P w
        → (b : Bucket) × ((bucket_client host dual c).get account.project backup.name w ≡ ok b)
    pub deleting :
        (config : OrgClusterConfig) (account : ServiceAccount) (c : OrgClient W) (dual : Bool)
        (namespace name : String) (w : W)
        → host.get_org_client config account ≡ ok c
        → P w
        → P ((bucket_client host dual c).delete namespace name w).1
    pub reviewing :
        (config : OrgClusterConfig) (account : ServiceAccount) (c : OrgClient W) (name : String)
        (w : W)
        → host.get_org_client config account ≡ ok c
        → P w
        → P (c.review name shared_namespace w).1
    pub emptying :
        (config : S3Config) (s3 : S3Client W) (bucket prefix : String) (w : W)
        → host.new_s3_client config ≡ ok s3
        → P w
        → P (s3.delete_object_versions_with_prefix bucket prefix w).1

  -- the credentials of the bucket are not missing: reading them ends in no error that says NotFound
  pub record HasCredentials : Type 0 where
    pub secret : (w : W) → P w → Ends IsElse Anything (host.fetch_secret backup.secret_ref w)
    pub account : (text : String) → Ends IsElse Anything (host.parse_account text)
    pub config : (text : String) → Ends IsElse Anything (host.parse_config text)
    pub client :
        (config : OrgClusterConfig) (account : ServiceAccount)
        → Ends IsElse Anything (host.get_org_client config account)

module _ {W : Type 0} {P : W → Type 0} (host : BucketHost W) (backup : BackupBucket)
    (there : StillThere P host backup) (has : HasCredentials P host backup)
    (keeps : KeepsErrors host.determine) where
  -- the client is one that was made with the configuration and the account
  abbrev Made : BackupBucketClientConfig W → Type 0
  Made client = host.get_org_client client.gdch_config client.service_account ≡ ok client.org_client
