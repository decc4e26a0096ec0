-- ===== src/Samples/Entries.antt =====
-- Runs of the theorems on backup entries, on an object storage in memory.
use Prim.Native.Char.{code}
use mathlib.Core.Path.{subst}
use text.Mathlib.Text.{starts_with}
use gardener_extension_provi.Common.{
  ℕ, String, concat, ◌≡◌, ◌≢◌, refl, ap, ◌∙◌, inl, inr, Bool, true, false, ◌==◌, ◌&&◌, none, some,
  List, [], ◌∷◌, Any, not, nat_eq, both_true, arith, if◌then◌else◌,
}
use gardener_extension_provi.Failure.{ok, err}
use gardener_extension_provi.Action.{call}
use gardener_extension_provi.Action.Ensures.{Keeps}
use gardener_extension_provi.Kube.{ObjectClient}
use gardener_extension_provi.Storage.Keys.{shared_namespace}
use gardener_extension_provi.Storage.{Bucket, OrgClient}
use gardener_extension_provi.BackupBucket.{S3Client, BucketHost}
use gardener_extension_provi.BackupEntry.{BackupEntry, delete_backup_entry}
use gardener_extension_provi.BackupEntry.Prefixes.{HasNoSlash}
use gardener_extension_provi.BackupEntry.Confined.{LeavesOthers, entry_deletion_leaves_others}
use gardener_extension_provi.Samples.World.{missing}

-- the objects, each by its bucket and its key
abbrev Objects : Type 0
Objects = List (String × String)

abbrev Holds : String → String → Objects → Type 0
Holds bucket key = Any (λ o. (o.0 ≡ bucket) × (o.1 ≡ key))

abbrev empty_prefix : String → String → Objects → Objects
empty_prefix bucket prefix [] = []
empty_prefix bucket prefix ((b, k) ∷ w) =
    if b == bucket && starts_with k prefix
    then empty_prefix bucket prefix w
    else (b, k) ∷ empty_prefix bucket prefix w

left_by_prefix :
    (emptied prefix : String) (w : Objects) (bucket key : String)
    → starts_with key prefix ≡ false
    → Holds bucket key w
    → Holds bucket key (empty_prefix emptied prefix w)
left_by_prefix emptied prefix [] bucket key out h = absurd h
left_by_prefix emptied prefix ((b, k) ∷ w) bucket key out (inl (e, f)) =
    by_test (b == emptied) (starts_with k prefix) (ap (λ x. starts_with x prefix) f ∙ out)
  where
    by_test :
        (c d : Bool)
        → d ≡ false
        → Holds bucket key (
            if c && d
            then empty_prefix emptied prefix w
            else (b, k) ∷ empty_prefix emptied prefix w)
    by_test c true q = absurd (cc (q))
    by_test true false q = inl (e, f)
    by_test false false q = inl (e, f)
left_by_prefix emptied prefix ((b, k) ∷ w) bucket key out (inr later) =
    by_test (b == emptied && starts_with k prefix)
      (left_by_prefix emptied prefix w bucket key out later)
  where
    by_test :
        (c : Bool)
        → Holds bucket key (empty_prefix emptied prefix w)
        → Holds bucket key
            (if c then empty_prefix emptied prefix w else (b, k) ∷ empty_prefix emptied prefix w)
    by_test true h = h
    by_test false h = inr h

abbrev s3 : S3Client Objects
s3 = record {
  delete_object_versions_with_prefix = λ bucket prefix w. (ok tt, empty_prefix bucket prefix w);
}

abbrev buckets : ObjectClient Objects Bucket
buckets = record {
  get = λ ns n w. ok record {
    name = n;
    namespace = ns;
    description = "";
    location = "";
    locking_policy = none;
    ready = some record { status = "True"; message = "" };
    endpoint = "https://s3";
    region = "r";
    fully_qualified_name = n;
  };
  create = λ a w. (ok tt, w);
  patch = λ base a w. (ok a, w);
  delete = λ ns n w. (ok tt, w);
  create_or_update = λ a f. call (λ w. (ok (f a), w));
}

abbrev org : OrgClient Objects
org = record {
  zonal_buckets = buckets;
  global_buckets = buckets;
  list_secrets = λ ns label w. ok (
      record {
        name = "key-1";
        labels = [];
        annotations = ("subject", "sa") ∷ [];
        data_of = ("access-key-id", "AK") ∷ ("secret-access-key", "SK") ∷ [];
      }
      ∷ []);
  get_secret = λ ns n w. err missing;
  review = λ n ns w. (ok [], w);
}

abbrev host : BucketHost Objects
host = record {
  fetch_secret = λ ref w. ok record {
    namespace = "garden";
    name = "backup";
    data_of = ("serviceaccount.json", "account") ∷ ("gdch-config", "config") ∷ [];
  };
  parse_account = λ text. ok record {
    name = "sa";
    project = "project";
    token_uri = "uri";
    private_key_id = "id";
    private_key = "key";
  };
  parse_config = λ text. ok record { org_cluster_url = "https://management-kube"; ca_data = "ca" };
  get_org_client = λ c a. ok org;
  new_s3_client = λ c. ok s3;
  decode = λ raw. err missing;
  decode_base64 = λ text. ok text;
  marshal_config = λ c. ok "config";
  marshal_account = λ a. ok "account";
  marshal_values = λ values. ok "values";
  determine = λ e. e;
  key_names = record { secret_name_prefix = "key-"; subject_type = "type"; subject = "subject" };
  secrets = record {
    get = λ ns n w. err missing;
    create = λ a w. (ok tt, w);
    patch = λ base a w. (ok a, w);
    delete = λ ns n w. (ok tt, w);
    create_or_update = λ a f. call (λ w. (ok (f a), w));
  };
  patch = λ old new w. (ok new, w);
  patch_status = λ old new w. (ok new, w);
}

ok_inj : {A : Type 0} (a b : A) → ok a ≡ ok b → a ≡ b
ok_inj a b e = cc (e)

storage_leaves : LeavesOthers host Holds
storage_leaves = record {
  reviewing = λ config account c n w bucket key e p.
      subst (λ t. Holds bucket key (t.review n shared_namespace w).1) (ok_inj org c e) p;
  emptying = λ config s emptied prefix w bucket key e out p.
      subst (λ t. Holds bucket key (t.delete_object_versions_with_prefix emptied prefix w).1)
        (ok_inj s3 s e) (left_by_prefix emptied prefix w bucket key out p);
}

abbrev entry : BackupEntry
entry = record {
  name = "source-shoot--a";
  bucket_name = "backups";
  secret_ref = record { namespace = "garden"; name = "backup" };
  provider_config = none;
}

abbrev slash_free : String → Bool
slash_free String.[] = true
slash_free (String.◌∷◌ c s) = not (nat_eq (code c) 47) && slash_free s

slash_free_lem : (s : String) → slash_free s ≡ true → HasNoSlash s
slash_free_lem String.[] h = tt
slash_free_lem (String.◌∷◌ c s) h =
    let (a, b) = both_true (not (nat_eq (code c) 47)) (slash_free s) h in
    ((λ e. differs e a), slash_free_lem s b)
  where
    differs : {n : ℕ} → n ≡ 47 → not (nat_eq n 47) ≡ true → ⊥
    differs e a = ground arith

two_names : ◌≢◌ {A = String} "shoot--a" "shoot--ab"
two_names e = no_path (ap (λ v. v == "shoot--ab") e)
  where
    no_path : false ≡ true → ⊥
    no_path q = cc (q)

-- the objects of a shoot whose name begins with the other's
entry_beside_another :
    Keeps
      (Holds "backups" (concat ("shoot--ab" ∷ "/" ∷ "v2/full" ∷ [])))
      (delete_backup_entry host (λ certs. true) entry)
entry_beside_another =
    entry_deletion_leaves_others host Holds (λ certs. true) entry "shoot--a" "shoot--ab" "v2/full"
      "backups" storage_leaves refl (slash_free_lem "shoot--a" refl)
      (slash_free_lem "shoot--ab" refl) two_names
