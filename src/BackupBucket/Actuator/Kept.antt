-- ===== src/BackupBucket/Actuator/Kept.antt =====
-- pkg/controller/backupbucket/actuator.go: what the deletion of a bucket leaves alone while the bucket is there.
use gardener_extension_provi.Common.{String, ◌≡◌, Bool, Bool-cases, inl, inr, ◌==◌, ◌||◌, Option}
use gardener_extension_provi.Failure.{Error, is_not_found, Result, ok, err}
use gardener_extension_provi.Action.{fail}
use gardener_extension_provi.Action.Ensures.{
  Ensures, returns, Anything, Keeps, Ensures-and_then, Ensures-bind, Ensures-call, Keeps-and_then,
  Keeps-bind, Keeps-done, Keeps-or_wrap, Keeps-call, Keeps-pure,
}
use gardener_extension_provi.Kube.{do_get, do_delete}
use gardener_extension_provi.Infrastructure.Deletion.Gone.Steps.{KeepsErrors}
use gardener_extension_provi.Storage.{Bucket}
use gardener_extension_provi.Action.Loops.{Succeeds, Succeeds-or_wrap, Succeeds-done}
use gardener_extension_provi.Storage.Keys.{shared_namespace}
use gardener_extension_provi.Storage.Keys.Owned.{access_keys-Keeps}
use gardener_extension_provi.BackupBucket.{
  BackupBucket, BucketHost, S3Config, S3Client, BackupBucketClientConfig, determined_by,
}
use gardener_extension_provi.BackupBucket.Actuator.{
  bucket_client, delete_object_versions, delete_bucket_objects, objects_of, verified, delete_bucket,
}

module _ {W : Type 0} (P : W → Type 0) (host : BucketHost W) (client : BackupBucketClientConfig W)
    (dual : Bool) (backup : BackupBucket) where
  -- The condition `P` holds on, whatever is deleted of the bucket and its objects, and as long as it does the bucket is
  -- found.
  pub record Lasts : Type 0 where
    pub found :
        (w : W)
        → P w
        → (b : Bucket) × ((bucket_client host dual client.org_client).get
              client.service_account.project backup.name w
            ≡ ok b)
    pub deleting :
        (namespace name : String) (w : W)
        → P w
        → P ((bucket_client host dual client.org_client).delete namespace name w).1
    pub reviewing :
        (name : String) (w : W) → P w → P (client.org_client.review name shared_namespace w).1
    pub emptying :
        (config : S3Config) (s3 : S3Client W) (bucket prefix : String) (w : W)
        → host.new_s3_client config ≡ ok s3
        → P w
        → P (s3.delete_object_versions_with_prefix bucket prefix w).1

-- no success
abbrev pub Fails : {A : Type 0} → Result A → Type 0
Fails (ok a) = ⊥
Fails (err e) = Unit

pub determined-Fails :
    (determine : Option Error → Option Error) (e : Error)
    → KeepsErrors determine
    → Fails (determined_by determine (err e))
determined-Fails determine e keeps = let (e', q) = keeps e in rw q tt

module _ {W : Type 0} {P : W → Type 0} (host : BucketHost W) (client : BackupBucketClientConfig W)
    (dual : Bool) (backup : BackupBucket) (there : Lasts P host client dual backup) where
  versions-Keeps : (b : Bucket) → Keeps P (delete_object_versions host b client)
  unfolding delete_object_versions
  versions-Keeps b =
      Keeps-bind _ _
        (Keeps-or_wrap _ _ (
          access_keys-Keeps host.key_names client.service_account client.org_client
            there.reviewing))
        λ keys. Keeps-bind _ _ (Keeps-or_wrap _ _ (Keeps-done _)) λ ca.
          Ensures-bind {Q = Succeeds (λ s3. (c : S3Config) × (host.new_s3_client c ≡ ok s3))} _ _
            (Succeeds-or_wrap _ _ (Succeeds-done _ (λ s3 e. (_, e))))
            (λ s3 q.
              let (c, e) = q in
              Keeps-or_wrap _ _ (Keeps-call _ (λ w p. there.emptying c s3 _ _ w e p)))
            (λ e q. tt)

  objects-Keeps : (r : Result Bucket) → Keeps P (objects_of host client r)
  unfolding fail
  objects-Keeps (err e) = elim (Bool-cases (is_not_found e)) [
    | inl t ↦ rw t (Keeps-pure tt)
    | inr t ↦ rw t (Keeps-done _)
  ]
  objects-Keeps (ok b) =
      elim (Bool-cases (b.endpoint == "" || b.region == "" || b.fully_qualified_name == "")) [
        | inl t ↦ rw t (Keeps-pure tt)
        | inr t ↦ rw t (versions-Keeps b)
      ]

  verified-Fails :
      (r : Result Bucket) (b : Bucket)
      → KeepsErrors host.determine
      → r ≡ ok b
      → Fails (verified host backup r)
  verified-Fails (ok a) b keeps e = determined-Fails host.determine _ keeps
  verified-Fails (err x) b keeps e = absurd (cc (e))

  pub delete_bucket-Fails :
      KeepsErrors host.determine → Ensures P Fails (delete_bucket host backup client dual)
  unfolding delete_bucket delete_bucket_objects do_get do_delete
  delete_bucket-Fails keeps =
      Ensures-bind {Q = Anything} _ _
        (Keeps-and_then _ _ (Keeps-and_then _ _ (Keeps-call _ (λ w p. p)) objects-Keeps)
          (λ r. Keeps-done _))
        (λ a u.
          Ensures-bind {Q = Anything} _ _
            (Keeps-and_then _ _ (Keeps-call _ (λ w p. there.deleting _ _ w p)) (λ r. Keeps-done _))
            (λ a u.
              Ensures-bind {Q = Fails} _ _
                (Ensures-and_then {Q = λ r. (b : Bucket) × (r ≡ ok b)} _ _
                  (Ensures-call _ (λ w p. (p, there.found w p)))
                  (λ r (b, e). returns (verified-Fails r b keeps e)))
                (λ a none_ok. absurd none_ok) (λ e u. tt))
            (λ e u. tt))
        (λ e u. tt)
