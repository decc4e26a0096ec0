-- ===== src/Storage.antt =====
-- pkg/gdc/storage/storage.go: the buckets of the object storage, and the access keys for them.
pub mod Keys
use text.Mathlib.Text.{find?}
use gardener_extension_provi.Common.{
  ℕ, String, concat, quoted, Bool, true, false, not, ◌==◌, Option, none, some, List, [], ◌∷◌,
  if◌then◌else◌, ℤ,
}
use gardener_extension_provi.Failure.{Error, errorf, wrap, Result, ok, err}
use gardener_extension_provi.Action.{Exec, done, call, and_then, ◌>>=◌, or_wrap}
use gardener_extension_provi.Secret.{OrgClusterConfig}
use gardener_extension_provi.Kube.{Condition, ObjectClient, do_get}
use gardener_extension_provi.Admission.BackupBucket.{BackupBucketConfig}

-- A Bucket of object.global or of object. Of its bucket policy the locking policy's days are kept, `none` where it is
-- nil; `location` is of the global one. `ready` is what meta.FindStatusCondition finds for BucketReady; `endpoint` is the
-- Endpoint of one, the GlobalEndpoint of the other.
pub record Bucket : Type 0 where
  pub name : String
  pub namespace : String
  pub description : String
  pub location : String
  pub locking_policy : Option ℤ
  pub ready : Option Condition
  pub endpoint : String
  pub region : String
  pub fully_qualified_name : String

-- corev1.Secret, as far as the search for keys reads it
pub record KeySecret : Type 0 where
  pub name : String
  pub labels : List (String × String)
  pub annotations : List (String × String)
  pub data_of : List (String × String)

-- authorizationv1.ResourceRule
pub record ResourceRule : Type 0 where
  pub api_groups : List String
  pub resources : List String
  pub verbs : List String
  pub resource_names : List String

-- The API server of an organisation. `list_secrets` is by namespace and one label; `review` creates the
-- SelfSubjectRulesReview of a name for a namespace, and returns the resource rules of its status.
pub record OrgClient (W : Type 0) : Type 0 where
  pub zonal_buckets : ObjectClient W Bucket
  pub global_buckets : ObjectClient W Bucket
  pub list_secrets : String → String × String → W → Result (List KeySecret)
  pub get_secret : String → String → W → Result KeySecret
  pub review : String → String → W → Result (List ResourceRule) × W

pub record AccessKeys : Type 0 where
  pub access_key_id : String
  pub access_key : String

abbrev pub contains : String → String → Bool
contains s t = elim (find? s t) [ none ↦ false | some at ↦ true ]

-- meta.IsStatusConditionTrue
abbrev pub is_true : Option Condition → Bool
is_true none = false
is_true (some c) = c.status == "True"

-- validateBucketStatus, which also hands on the bucket that it accepts
unfoldable pub validate_bucket_status : Bucket → Result Bucket
validate_bucket_status b =
    if not (is_true b.ready)
    then err (errorf "bucket object is not ready")
    else if b.endpoint == ""
    then err (errorf "bucket Endpoint is empty")
    else if b.fully_qualified_name == ""
    then err (errorf "bucket fully qualified name is empty")
    else if b.region == ""
    then err (errorf "bucket region is empty")
    else ok b

module _ {W : Type 0} (c : OrgClient W) where
  unfoldable pub get_and_validate_zonal_bucket : String → String → Exec W Bucket
  get_and_validate_zonal_bucket namespace name =
      or_wrap
        (wrap (concat ("failed to get zonal bucket object " ∷ namespace ∷ "/" ∷ name ∷ ":" ∷ [])))
        (do_get c.zonal_buckets namespace name)
      >>= λ b. done (validate_bucket_status b)

  unfoldable pub get_and_validate_dual_zone_bucket : String → String → Exec W Bucket
  get_and_validate_dual_zone_bucket namespace name =
      or_wrap
        (wrap
          (concat ("failed to get dual zone bucket object " ∷ namespace ∷ "/" ∷ name ∷ ":" ∷ [])))
        (do_get c.global_buckets namespace name)
      >>= λ b. done (validate_bucket_status b)

abbrev pub wrong_url : String → String → String → String → Error
wrong_url kind bucket url part = errorf (
    concat (
      "invalid gdch-config for " ∷ kind ∷ " bucket " ∷ bucket ∷ ": orgClusterURL=" ∷ url
      ∷ " must use '" ∷ part ∷ "'" ∷ []))

-- the flow that was determined, if the URL is one for it
unfoldable pub validate_org_cluster_url : OrgClusterConfig → String → Bool → Result Bool
validate_org_cluster_url config bucket true =
    if contains config.org_cluster_url "global-api"
    then ok true
    else err (wrong_url "dual-zone" bucket config.org_cluster_url "global-api")
validate_org_cluster_url config bucket false =
    if contains config.org_cluster_url "management-kube"
    then ok false
    else err (wrong_url "zonal" bucket config.org_cluster_url "management-kube")

module _ (decode : String → Result BackupBucketConfig) where
  abbrev pub has_location : BackupBucketConfig → Bool
  has_location config = not (config.dual_zone_bucket_location == "")

  unfoldable pub is_dual_zone_bucket_flow : String → OrgClusterConfig → Option String → Result Bool
  is_dual_zone_bucket_flow bucket config none = validate_org_cluster_url config bucket false
  is_dual_zone_bucket_flow bucket config (some raw) = elim (decode raw) [
    | err e ↦ err (
        wrap (concat ("failed to decode BackupBucketConfig for backup bucket " ∷ bucket ∷ ":" ∷ []))
          e)
    | ok decoded ↦ validate_org_cluster_url config bucket (has_location decoded)
  ]
