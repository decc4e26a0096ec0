-- ===== src/BackupEntry/Confined.antt =====
-- pkg/controller/backupentry/actuator.go: what the deletion of an entry leaves alone.
use text.Mathlib.Text.{starts_with}
use gardener_extension_provi.BackupEntry.Prefixes.{HasNoSlash, other_prefix, entry_prefix_of_source}
use gardener_extension_provi.Common.{
  concat, [], ◌∷◌, ◌≢◌, ap, ◌∙◌, false, String, ◌≡◌, Bool, true, false, Bool-cases, inl, inr,
  Option, if◌then◌else◌,
}
use gardener_extension_provi.Failure.{wrap, is_not_found, Result, ok, err}
use gardener_extension_provi.Action.{Exec, done, call, or_wrap, fail}
use gardener_extension_provi.Action.Ensures.{
  Ensures, Anything, Keeps, Ensures-and_then, Ensures-weaken, Ensures-bind, Keeps-and_then,
  Keeps-bind, Keeps-done, Keeps-or_wrap, Keeps-call, Keeps-pure,
}
use gardener_extension_provi.Action.Loops.{
  Succeeds, Succeeds-pure, Succeeds-done, Succeeds-bind, Succeeds-or_wrap,
}
use gardener_extension_provi.Kube.{do_get}
use gardener_extension_provi.Secret.{
  ServiceAccount, OrgClusterConfig, SecretReference, get_service_account_from_secret,
  get_gdch_config_from_secret, get_service_account_from_secret_reference,
  get_gdch_config_from_secret_reference,
}
use gardener_extension_provi.Storage.{
  OrgClient, get_and_validate_zonal_bucket, get_and_validate_dual_zone_bucket,
}
use gardener_extension_provi.Storage.Keys.{shared_namespace}
use gardener_extension_provi.Storage.Keys.Owned.{access_keys-Keeps}
use gardener_extension_provi.BackupBucket.{
  S3Config, S3Client, BucketHost, BackupBucketClientConfig, get_org_client,
}
use gardener_extension_provi.BackupEntry.{
  BackupEntry, StorageClient, entry_prefix, get_client_and_config, get_bucket_metadata,
  create_s3_client, with_client, delete_objects_with_prefix, delete_backup_entry,
}

module _ {W : Type 0} (P : W → Type 0) (host : BucketHost W) (prefix : String) where
  -- `P` holds on, whatever is deleted under the prefix and reviewed
  pub record Spares : Type 0 where
    pub reviewing :
        (config : OrgClusterConfig) (account : ServiceAccount) (c : OrgClient W) (name : String)
        (w : W)
        → host.get_org_client config account ≡ ok c
        → P w
        → P (c.review name shared_namespace w).1
    pub emptying :
        (config : S3Config) (s3 : S3Client W) (bucket : String) (w : W)
        → host.new_s3_client config ≡ ok s3
        → P w
        → P (s3.delete_object_versions_with_prefix bucket prefix w).1

  -- the clients are those that the host makes
  abbrev MadeOrg : BackupBucketClientConfig W → Type 0
  MadeOrg client =
      (config : OrgClusterConfig) × (account : ServiceAccount) × (host.get_org_client config account
        ≡ ok client.org_client)

  abbrev MadeS3 : StorageClient W → Type 0
  MadeS3 s = (config : S3Config) × (host.new_s3_client config ≡ ok s.s3_client)

module _ {W : Type 0} {P : W → Type 0} {A : Type 0} where
  Keeps-Succeeds : {m : Exec W A} → Keeps P m → Ensures P (Succeeds {A = A} Anything) m
  Keeps-Succeeds k = Ensures-weaken (λ r u. any_result r) k
    where
      any_result : (r : Result A) → Succeeds {A = A} Anything r
      any_result (ok a) = tt
      any_result (err e) = tt

module _ {W : Type 0} {P : W → Type 0} (host : BucketHost W) (append_certs : String → Bool)
    (prefix : String) (spares : Spares P host prefix) where
  account-Keeps :
      (ref : SecretReference)
      → Keeps P (get_service_account_from_secret_reference host.fetch_secret host.parse_account ref)
  unfolding get_service_account_from_secret_reference
  account-Keeps ref =
      Keeps-bind (call (λ w. (host.fetch_secret ref w, w)))
        (λ s. done (get_service_account_from_secret host.parse_account s)) (Keeps-call _ (λ w p. p))
        (λ s. Keeps-done _)

  gdch_config-Keeps :
      (ref : SecretReference)
      → Keeps P (get_gdch_config_from_secret_reference host.fetch_secret host.parse_config ref)
  unfolding get_gdch_config_from_secret_reference
  gdch_config-Keeps ref =
      Keeps-bind
        (or_wrap (wrap "failed to fetch secret:") (call (λ w. (host.fetch_secret ref w, w))))
        (λ s. done (get_gdch_config_from_secret host.parse_config s))
        (Keeps-or_wrap _ _ (Keeps-call _ (λ w p. p))) (λ s. Keeps-done _)

  config-Made :
      (entry : BackupEntry)
      → Ensures P (Succeeds (MadeOrg P host prefix)) (get_client_and_config host append_certs entry)
  unfolding get_client_and_config get_org_client
  config-Made entry =
      Succeeds-bind {Q = Anything} _ _
        (Keeps-Succeeds (Keeps-or_wrap _ _ (account-Keeps entry.secret_ref)))
        λ account u.
          Succeeds-bind {Q = Anything} _ _
            (Keeps-Succeeds (Keeps-or_wrap _ _ (gdch_config-Keeps entry.secret_ref)))
            λ config u.
              Succeeds-bind {Q = λ c. host.get_org_client config account ≡ ok c} _ _
                (Succeeds-or_wrap _ _ (Succeeds-or_wrap _ _ (Succeeds-done _ (λ c e. e))))
                λ c e. Succeeds-pure _ (config, account, e)

  either-Keeps :
      {A : Type 0} (b : Bool) (m n : Exec W A)
      → Keeps P m
      → Keeps P n
      → Keeps P (if b then m else n)
  either-Keeps true m n k l = k
  either-Keeps false m n k l = l

  metadata-Keeps :
      (name namespace : String) (provider_config : Option String) (c : OrgClient W)
      (config : OrgClusterConfig)
      → Keeps P (get_bucket_metadata host append_certs name namespace provider_config c config)
  unfolding get_bucket_metadata get_and_validate_zonal_bucket get_and_validate_dual_zone_bucket
      do_get
  metadata-Keeps name namespace provider_config c config =
      Keeps-bind _ _ (Keeps-or_wrap _ _ (Keeps-done _)) λ dual.
        Keeps-bind _ _
          (either-Keeps dual _ _
            (Keeps-or_wrap _ _
              (Keeps-bind _ _ (Keeps-or_wrap _ _ (Keeps-call _ (λ w p. p))) (λ b. Keeps-done _)))
            (Keeps-or_wrap _ _
              (Keeps-bind _ _ (Keeps-or_wrap _ _ (Keeps-call _ (λ w p. p))) (λ b. Keeps-done _))))
          λ b. Keeps-pure _

  s3-Made :
      (name : String) (provider_config : Option String) (client : BackupBucketClientConfig W)
      → MadeOrg P host prefix client
      → Ensures P
          (Succeeds (MadeS3 P host prefix))
          (create_s3_client host append_certs name provider_config client)
  unfolding create_s3_client
  s3-Made name provider_config client (config, account, e) =
      Succeeds-bind {Q = Anything} _ _
        (Keeps-Succeeds (Keeps-or_wrap _ _ (metadata-Keeps _ _ _ _ _)))
        λ bucket u.
          Succeeds-bind {Q = Anything} _ _
            (Keeps-Succeeds (
              Keeps-or_wrap _ _ (
                access_keys-Keeps _ _ _
                  (λ n w p. spares.reviewing config account client.org_client n w e p))))
            λ keys u.
              Succeeds-bind {Q = Anything} _ _ (Keeps-Succeeds (Keeps-or_wrap _ _ (Keeps-done _)))
                λ ca u. Succeeds-bind {Q = Anything} _ _ (Keeps-Succeeds (Keeps-done _)) λ certs u.
                  Succeeds-bind {Q = λ s3. (c : S3Config) × (host.new_s3_client c ≡ ok s3)} _ _
                    (Succeeds-or_wrap _ _ (Succeeds-done _ (λ s3 q. (_, q))))
                    λ s3 q. Succeeds-pure _ q

  emptied-Keeps :
      (name : String) (r : Result (StorageClient W))
      → Succeeds (MadeS3 P host prefix) r
      → Keeps P (with_client host append_certs name prefix r)
  unfolding fail
  emptied-Keeps name (err e) q = elim (Bool-cases (is_not_found e)) [
    | inl t ↦ rw t (Keeps-pure tt)
    | inr t ↦ rw t (Keeps-done _)
  ]
  emptied-Keeps name (ok s) (c, q) =
      Keeps-or_wrap _ _ (Keeps-call _ (λ w p. spares.emptying c s.s3_client _ w q p))

module _ {W : Type 0} {P : W → Type 0} (host : BucketHost W) (append_certs : String → Bool)
    (entry : BackupEntry) where
  -- whatever the deletion of objects under the entry's prefix leaves, and the review of the account's permissions, is left
  entry_deletion-Keeps :
      Spares P host (entry_prefix entry.name)
      → Keeps P (delete_backup_entry host append_certs entry)
  unfolding delete_backup_entry delete_objects_with_prefix
  entry_deletion-Keeps spares =
      let prefix = entry_prefix entry.name in
      Keeps-and_then _ _
        (Ensures-bind {Q = Succeeds (MadeOrg P host prefix)} _ _
          (Succeeds-or_wrap _ _ (config-Made host append_certs prefix spares entry))
          (λ client made.
            Ensures-and_then {Q = Succeeds (MadeS3 P host prefix)} _ _
              (s3-Made host append_certs prefix spares _ _ client made)
              (λ r q. emptied-Keeps host append_certs prefix spares _ r q))
          (λ e u. tt))
        (λ r. Keeps-done _)

-- What is documented of the calls that are made: a deletion by prefix leaves each object whose key does not begin with the
-- prefix, and a review deletes no object.
module _ {W : Type 0} (host : BucketHost W) (Holds : String → String → W → Type 0) where
  pub record LeavesOthers : Type 0 where
    pub reviewing :
        (config : OrgClusterConfig) (account : ServiceAccount) (c : OrgClient W) (name : String)
        (w : W) (bucket key : String)
        → host.get_org_client config account ≡ ok c
        → Holds bucket key w
        → Holds bucket key (c.review name shared_namespace w).1
    pub emptying :
        (config : S3Config) (s3 : S3Client W) (emptied prefix : String) (w : W)
        (bucket key : String)
        → host.new_s3_client config ≡ ok s3
        → starts_with key prefix ≡ false
        → Holds bucket key w
        → Holds bucket key (s3.delete_object_versions_with_prefix emptied prefix w).1

  -- The deletion of the backup entry of one source leaves every object of every other source, in whatever bucket: with a
  -- name and another, neither of which has a slash, an object whose key is the other name, a slash and a rest is there
  -- after each call that the deletion of the entry named "source-" and the name makes, if it was there before.
  pub entry_deletion_leaves_others :
      (append_certs : String → Bool) (entry : BackupEntry) (name other file bucket : String)
      → LeavesOthers
      → entry.name ≡ concat ("source-" ∷ name ∷ [])
      → HasNoSlash name
      → HasNoSlash other
      → name ≢ other
      → Keeps
          (Holds bucket (concat (other ∷ "/" ∷ file ∷ [])))
          (delete_backup_entry host append_certs entry)
  entry_deletion_leaves_others append_certs entry name other file bucket laws named h k differ =
      entry_deletion-Keeps host append_certs entry record {
        reviewing = λ config account c n w e p. laws.reviewing config account c n w bucket _ e p;
        emptying = λ config s3 b w e p.
            laws.emptying config s3 b _ w bucket _ e
              (ap (starts_with _) (ap entry_prefix named ∙ entry_prefix_of_source name)
                ∙ other_prefix name other file h k differ)
              p;
      }
