-- ===== src/BackupBucket/Actuator.antt =====
-- pkg/controller/backupbucket/actuator.go: Reconcile and Delete.
pub mod Kept
pub mod Waits
use gardener_extension_provi.Common.{
  String, concat, quoted, Bool, true, false, ◌||◌, ◌==◌, Option, none, some, List, [], ◌∷◌,
  if◌then◌else◌,
}
use gardener_extension_provi.Failure.{Error, errorf, wrap, is_not_found, Result, ok, err}
use gardener_extension_provi.Action.{
  Exec, done, call, and_then, ◌>>=◌, ◌>>◌, or_wrap, on_error, pure, fail,
}
use gardener_extension_provi.Kube.{ObjectClient, do_get, do_delete}
use gardener_extension_provi.Storage.{
  Bucket, OrgClient, get_and_validate_zonal_bucket, get_and_validate_dual_zone_bucket,
  is_dual_zone_bucket_flow,
}
use gardener_extension_provi.Storage.Keys.{get_access_key_and_key_id}
use gardener_extension_provi.BackupBucket.{
  BackupBucket, BucketHost, BackupBucketClientConfig, get_generated_secret_name,
  generated_secret_namespace, determined_by, get_client_and_config,
}
use gardener_extension_provi.BackupBucket.Creation.{
  create_zonal_bucket_if_not_exists, create_dual_zone_bucket_if_not_exists,
}
use gardener_extension_provi.BackupBucket.Generated.{
  update_backup_bucket_annotations, update_backup_bucket_status,
}

abbrev pub about : String → String → String → Error → Error
about before name after = wrap (concat (before ∷ name ∷ after ∷ []))

module _ {W : Type 0} (host : BucketHost W) where
  -- what both kinds of bucket come to
  abbrev pub record_bucket :
      BackupBucket → BackupBucketClientConfig W → Exec W Bucket → Exec W (Unit {0})
  record_bucket backup client get = do
    bucket ←
        or_wrap (about "RetryableError: failed to get bucket with bucket name " backup.name ":") get
    annotated ←
        or_wrap (wrap "RetryableError: failed to update BackupBucket annotations:")
          (update_backup_bucket_annotations host backup bucket.fully_qualified_name)
    update_backup_bucket_status host annotated bucket.endpoint bucket.region client
    pure tt

  unfoldable pub reconcile_zonal_bucket :
      BackupBucket → BackupBucketClientConfig W → Exec W (Unit {0})
  reconcile_zonal_bucket backup client = do
    create_zonal_bucket_if_not_exists host.decode backup.name backup.provider_config
        client.org_client client.service_account
    record_bucket backup client
        (get_and_validate_zonal_bucket client.org_client client.service_account.project backup.name)

  unfoldable pub reconcile_dual_zone_bucket :
      BackupBucket → BackupBucketClientConfig W → Exec W (Unit {0})
  reconcile_dual_zone_bucket backup client = do
    create_dual_zone_bucket_if_not_exists host.decode backup.name backup.provider_config
        client.org_client client.service_account
    record_bucket backup client (
        get_and_validate_dual_zone_bucket client.org_client client.service_account.project
          backup.name)

  -- errors.DetermineError of what a thread returns
  abbrev pub determining : Exec W (Unit {0}) → Exec W (Unit {0})
  determining m = and_then m (λ r. done (determined_by host.determine r))

  unfoldable pub reconcile_backup_bucket : BackupBucket → Exec W (Unit {0})
  reconcile_backup_bucket backup = determining do
    client ←
        or_wrap
          (about "failed to get client and config while reconciling backup bucket " backup.name ":")
          (get_client_and_config host backup)
    dual ← or_wrap (about "failed to determine backup bucket type " backup.name ":") (
        done (
          is_dual_zone_bucket_flow host.decode backup.name client.gdch_config
            backup.provider_config))
    if dual then reconcile_dual_zone_bucket backup client else reconcile_zonal_bucket backup client

  abbrev pub bucket_client : Bool → OrgClient W → ObjectClient W Bucket
  bucket_client dual c = if dual then c.global_buckets else c.zonal_buckets

  -- what the objects of a bucket are deleted with
  unfoldable pub delete_object_versions : Bucket → BackupBucketClientConfig W → Exec W (Unit {0})
  delete_object_versions bucket client = do
    keys ←
        or_wrap (wrap "failed to get bucket access keys:")
          (get_access_key_and_key_id host.key_names client.service_account client.org_client)
    ca_data ←
        or_wrap (wrap "failed to decode CA data:")
          (done (host.decode_base64 client.gdch_config.ca_data))
    s3 ← or_wrap (wrap "failed to create S3 client:") (
        done (
          host.new_s3_client record {
            access_key_id = keys.access_key_id;
            secret_access_key = keys.access_key;
            endpoint_url = bucket.endpoint;
            region = bucket.region;
            s3_certificate = ca_data;
          }))
    or_wrap (wrap "failed to delete object versions:")
        (call (s3.delete_object_versions_with_prefix bucket.fully_qualified_name ""))

  abbrev pub objects_of : BackupBucketClientConfig W → Result Bucket → Exec W (Unit {0})
  objects_of client (err e) =
      if is_not_found e then pure tt else fail (wrap "failed to get bucket metadata:" e)
  objects_of client (ok bucket) =
      if bucket.endpoint == "" || bucket.region == "" || bucket.fully_qualified_name == ""
      then pure tt
      else delete_object_versions bucket client

  unfoldable pub delete_bucket_objects :
      ObjectClient W Bucket → String → BackupBucketClientConfig W → Exec W (Unit {0})
  delete_bucket_objects buckets name client =
      and_then (do_get buckets client.service_account.project name) (objects_of client)

  abbrev pub gone_or : (Error → Error) → Result (Unit {0}) → Result (Unit {0})
  gone_or wrapped (ok u) = ok tt
  gone_or wrapped (err e) = if is_not_found e then ok tt else err (wrapped e)

  -- the Get that must find nothing
  abbrev pub verified : BackupBucket → Result Bucket → Result (Unit {0})
  verified backup (ok b) = determined_by host.determine (
      err (
        errorf (
          concat
            ("RetryableError: bucket " ∷ quoted backup.name ∷ " is still being deleted" ∷ []))))
  verified backup (err e) =
      if is_not_found e
      then ok tt
      else determined_by host.determine
          (err (about "failed to verify deletion of bucket " (quoted backup.name) ":" e))

  unfoldable pub delete_generated_secret : BackupBucket → Exec W (Unit {0})
  delete_generated_secret backup =
      and_then
        (do_delete host.secrets generated_secret_namespace (get_generated_secret_name backup.name))
        (λ r. done (
          gone_or
            (about "failed to delete generated secret "
              (quoted (get_generated_secret_name backup.name)) ":")
            r))

  abbrev pub if_failed :
      (Result (Unit {0}) → Result (Unit {0})) → Result (Unit {0}) → Result (Unit {0})
  if_failed determine (ok u) = ok u
  if_failed determine (err e) = determine (err e)

  unfoldable pub delete_bucket :
      BackupBucket → BackupBucketClientConfig W → Bool → Exec W (Unit {0})
  delete_bucket backup client dual = do
    let buckets = bucket_client dual client.org_client
    let project = client.service_account.project
    and_then (delete_bucket_objects buckets backup.name client) (λ r. done (
        if_failed (determined_by host.determine) (
          on_error (about "failed to delete objects from backup bucket " (quoted backup.name) ":")
            r)))
    and_then (do_delete buckets project backup.name)
        (λ r. done (gone_or (about "failed to delete bucket " (quoted backup.name) ":") r))
    and_then (do_get buckets project backup.name) (λ r. done (verified backup r))
    delete_generated_secret backup

  abbrev pub with_flow : BackupBucket → BackupBucketClientConfig W → Result Bool → Exec W (Unit {0})
  with_flow backup client (ok dual) = delete_bucket backup client dual
  with_flow backup client (err e) = done (
      determined_by host.determine
        (err (about "failed to determine backup bucket type " backup.name ":" e)))

  -- configs that are not found count as deleted
  abbrev pub with_config : BackupBucket → Result (BackupBucketClientConfig W) → Exec W (Unit {0})
  with_config backup (err e) =
      if is_not_found e
      then pure tt
      else fail
          (about "failed to get client and config while deleting backup bucket " backup.name ":" e)
  with_config backup (ok client) =
      with_flow backup client
        (is_dual_zone_bucket_flow host.decode backup.name client.gdch_config backup.provider_config)

  unfoldable pub delete_backup_bucket : BackupBucket → Exec W (Unit {0})
  delete_backup_bucket backup = and_then (get_client_and_config host backup) (with_config backup)
