-- ===== src/BackupBucket/Generated.antt =====
-- pkg/controller/backupbucket/actuator.go: the annotations, the generated secret and the status of a backup bucket.
use gardener_extension_provi.Common.{
  String, concat, quoted, true, false, ◌||◌, ◌==◌, Option, none, some, List, [], ◌∷◌, insert,
  if◌then◌else◌,
}
use gardener_extension_provi.Failure.{errorf, wrap, Result, ok, err}
use gardener_extension_provi.Action.{Exec, done, call, ◌>>=◌, ◌>>◌, or_wrap}
use gardener_extension_provi.Admission.BackupBucket.{BackupBucketConfig}
use gardener_extension_provi.Storage.{AccessKeys}
use gardener_extension_provi.Storage.Keys.{get_access_key_and_key_id}
use gardener_extension_provi.BackupBucket.{
  BackupBucket, JsonValue, text, flag, bytes, BucketHost, BackupBucketClientConfig,
  get_generated_secret_name, generated_secret_namespace,
}

unfoldable pub validate_checksum : String → Result (Unit {0})
validate_checksum val =
    if val == "WHEN_SUPPORTED" || val == "WHEN_REQUIRED"
    then ok tt
    else err (
        errorf
          (concat ("value " ∷ quoted val ∷ " must be one of: WHEN_SUPPORTED, WHEN_REQUIRED" ∷ [])))

abbrev valid_or : String → String → Result (Unit {0}) → Result String
valid_or name val (ok u) = ok val
valid_or name val (err e) = err (wrap (concat ("invalid " ∷ name ∷ ":" ∷ [])) e)

-- the setting, or the default
abbrev pub checksum_of : String → String → Result String
checksum_of name val =
    if val == "" then ok "WHEN_REQUIRED" else valid_or name val (validate_checksum val)

-- the request's and the response's
abbrev of_config : Result String → Result String → Result (String × String)
of_config (err e) response = err e
of_config (ok request) (err e) = err e
of_config (ok request) (ok response) = ok (request, response)

abbrev pub checksums_by : Result BackupBucketConfig → Result (String × String)
checksums_by (err e) = err (wrap "failed to decode BackupBucketConfig:" e)
checksums_by (ok config) =
    of_config (checksum_of "RequestChecksumCalculation" config.request_checksum_calculation)
      (checksum_of "ResponseChecksumValidation" config.response_checksum_validation)

module _ (decode : String → Result BackupBucketConfig) where
  unfoldable pub checksums : Option String → Result (String × String)
  unfolding validate_checksum
  checksums none = ok ("WHEN_REQUIRED", "WHEN_REQUIRED")
  checksums (some raw) = checksums_by (decode raw)

module _ (keys : AccessKeys) (endpoint region : String) (sums : String × String)
    (ca_cert config account : String) where
  unfoldable pub secret_values : List (String × JsonValue)
  secret_values =
      ("accessKeyID", text keys.access_key_id)
      ∷ ("secretAccessKey", text keys.access_key)
      ∷ ("endpoint", text endpoint)
      ∷ ("region", text region)
      ∷ ("s3ForcePathStyle", flag true)
      ∷ ("insecureSkipVerify", flag false)
      ∷ ("requestChecksumCalculation", text sums.0)
      ∷ ("responseChecksumValidation", text sums.1)
      ∷ ("trustedCaCert", text ca_cert)
      ∷ ("gdch-config", bytes config)
      ∷ ("serviceaccount.json", bytes account)
      ∷ []

  unfoldable pub secret_data : String → List (String × String)
  secret_data json =
      ("backup_secret.json", json)
      ∷ ("accessKeyID", keys.access_key_id)
      ∷ ("secretAccessKey", keys.access_key)
      ∷ ("endpoint", endpoint)
      ∷ ("region", region)
      ∷ ("requestChecksumCalculation", sums.0)
      ∷ ("responseChecksumValidation", sums.1)
      ∷ ("trustedCaCert", ca_cert)
      ∷ ("insecureSkipVerify", "false")
      ∷ ("s3ForcePathStyle", "true")
      ∷ ("gdch-config", config)
      ∷ ("serviceaccount.json", account)
      ∷ []

module _ {W : Type 0} (host : BucketHost W) where
  unfoldable pub update_backup_bucket_annotations : BackupBucket → String → Exec W BackupBucket
  update_backup_bucket_annotations bucket fq_bucket_name =
      or_wrap (wrap "failed to patch BackupBucket annotations:") (
        call (
          host.patch bucket record bucket {
            annotations =
                insert "object.gdc.goog/fully-qualified-bucket-name" fq_bucket_name
                  bucket.annotations;
          }))

  unfoldable pub update_backup_bucket_status :
      BackupBucket → String → String → BackupBucketClientConfig W → Exec W BackupBucket
  update_backup_bucket_status bucket endpoint region client = do
    keys ←
        or_wrap (wrap "failed to get bucket access keys:")
          (get_access_key_and_key_id host.key_names client.service_account client.org_client)
    config ←
        or_wrap (wrap "failed to enode a gdch-config json:")
          (done (host.marshal_config client.gdch_config))
    account ←
        or_wrap (wrap "failed to enode a service account json:")
          (done (host.marshal_account client.service_account))
    ca_cert ←
        or_wrap (wrap "failed to decode CA data from gdch config:")
          (done (host.decode_base64 client.gdch_config.ca_data))
    sums ← done (checksums host.decode bucket.provider_config)
    json ← or_wrap (wrap "failed to enode a backup json:") (
        done (host.marshal_values (secret_values keys endpoint region sums ca_cert config account)))
    or_wrap (wrap "failed to create a backup secret:") (
        host.secrets.create_or_update
          record {
            name = get_generated_secret_name bucket.name;
            namespace = generated_secret_namespace;
            data_of = [];
          }
          (λ s. record s {
            data_of = secret_data keys endpoint region sums ca_cert config account json;
          }))
    or_wrap (wrap "failed to patch BackupBucket Status:") (
        call (
          host.patch_status bucket record bucket {
            generated_secret_ref = some record {
              namespace = generated_secret_namespace;
              name = get_generated_secret_name bucket.name;
            };
          }))
