-- ===== src/Storage/Keys.antt =====
-- pkg/gdc/storage/storage.go: the search for the access keys of a service account.
pub mod Owned
use text.Mathlib.Text.{starts_with}
use gardener_extension_provi.Common.{
  ℕ, String, concat, quoted, Bool, true, false, not, ◌&&◌, ◌||◌, ◌==◌, any, Option, none, some,
  List, [], ◌∷◌, ◌++◌, lookup, opt_eq, is_empty, if◌then◌else◌,
}
use gardener_extension_provi.Failure.{Error, errorf, wrap, is_already_exists, Result, ok, err}
use gardener_extension_provi.Action.{Exec, done, call, and_then, ◌>>=◌, or_wrap, pure, fail}
use gardener_extension_provi.Secret.{ServiceAccount}
use gardener_extension_provi.Storage.{OrgClient, KeySecret, ResourceRule, AccessKeys}

-- constants of the API of Google Distributed Cloud
pub record KeyNames : Type 0 where
  -- AccessKeySecretNamePrefix
  pub secret_name_prefix : String
  -- SubjectTypeLabel
  pub subject_type : String
  -- SubjectAnnotation
  pub subject : String

abbrev pub shared_namespace : String
shared_namespace = "object-storage-access-keys"

abbrev pub no_data : KeySecret → String → Error
no_data secret field = errorf (
    concat (
      "failed to get data from (secret/key)=("
      ∷ quoted secret.name
      ∷ "/"
      ∷ quoted field
      ∷ ")"
      ∷ []))

abbrev with_key : KeySecret → String → Option String → Result AccessKeys
with_key secret id none = err (no_data secret "secret-access-key")
with_key secret id (some key) = ok (record { access_key_id = id; access_key = key })

abbrev with_id : KeySecret → Option String → Result AccessKeys
with_id secret none = err (no_data secret "access-key-id")
with_id secret (some id) = with_key secret id (lookup "secret-access-key" secret.data_of)

unfoldable pub keys_of : KeySecret → Result AccessKeys
keys_of secret = with_id secret (lookup "access-key-id" secret.data_of)

abbrev pub has : List String → String → Bool
has names name = any (λ n. n == name) names

unfoldable pub permits : ResourceRule → Bool
permits rule =
    (has rule.api_groups "" || has rule.api_groups "*")
    && (has rule.resources "secrets" || has rule.resources "*")
    && (has rule.verbs "get" || has rule.verbs "*")

-- the loop over the resource rules
unfoldable pub accessible_names : List ResourceRule → List String
unfolding permits
accessible_names [] = []
accessible_names (rule ∷ rules) =
    if permits rule then rule.resource_names ++ accessible_names rules else accessible_names rules

-- what the review's status holds where it is there already: nothing
abbrev reviewed : Result (List ResourceRule) → Result (List String)
reviewed (ok rules) = ok (accessible_names rules)
reviewed (err e) =
    if is_already_exists e
    then ok []
    else err (wrap "failed to perform self subject rules review:" e)

module _ (names : KeyNames) (account : ServiceAccount) where
  abbrev pub is_in_project : KeySecret → Bool
  is_in_project secret =
      starts_with secret.name names.secret_name_prefix
      && opt_eq (lookup names.subject secret.annotations) (some account.name)

  abbrev pub some_keys : Result AccessKeys → Result (Option AccessKeys)
  some_keys (ok keys) = ok (some keys)
  some_keys (err e) = err e

  -- the loop over the secrets of the project; `none` for nil
  unfoldable pub first_in_project : List KeySecret → Result (Option AccessKeys)
  unfolding keys_of
  first_in_project [] = ok none
  first_in_project (s ∷ secrets) =
      if is_in_project s then some_keys (keys_of s) else first_in_project secrets

  abbrev pub canonical_name : String
  canonical_name = concat ("system:serviceaccount:" ∷ account.project ∷ ":" ∷ account.name ∷ [])

  abbrev pub is_shared : KeySecret → Bool
  is_shared secret =
      opt_eq (lookup names.subject_type secret.labels) (some "User")
      && opt_eq (lookup names.subject secret.annotations) (some canonical_name)

  module _ {W : Type 0} (c : OrgClient W) where
    unfoldable pub get_access_keys_from_project_namespace : Exec W (Option AccessKeys)
    get_access_keys_from_project_namespace =
        or_wrap
          (wrap
            (concat ("failed to list secrets in namespace " ∷ quoted account.project ∷ ":" ∷ [])))
          (call (λ w. (c.list_secrets account.project (names.subject_type, "ServiceAccount") w, w)))
        >>= λ secrets. done (first_in_project secrets)

    unfoldable pub get_accessible_secret_names_from_access_keys_namespace : Exec W (List String)
    get_accessible_secret_names_from_access_keys_namespace =
        and_then
          (call (c.review (concat (account.project ∷ "-" ∷ account.name ∷ [])) shared_namespace))
          (λ r. done (reviewed r))

    abbrev no_matching : Error
    no_matching = errorf (
        concat (
          "failed to find matching secret to read bucket access keys for service account "
          ∷ quoted canonical_name
          ∷ " in namespace "
          ∷ quoted shared_namespace
          ∷ []))

    abbrev pub chosen : Exec W AccessKeys → KeySecret → Exec W AccessKeys
    chosen rest secret = if is_shared secret then done (keys_of secret) else rest

    -- the loop over the names; a secret that cannot be read ends it
    unfoldable pub first_shared : List String → Exec W AccessKeys
    first_shared [] = fail no_matching
    first_shared (name ∷ later) =
        let rest = first_shared later in
        if starts_with name names.secret_name_prefix
        then or_wrap
            (wrap
              (concat ("failed to get secret object " ∷ shared_namespace ∷ "/" ∷ name ∷ ":" ∷ [])))
            (call (λ w. (c.get_secret shared_namespace name w, w)))
          >>= chosen rest
        else rest

    abbrev pub search_names : List String → Exec W AccessKeys
    search_names accessible =
        if is_empty accessible
        then fail (
            errorf (
              concat (
                "service account "
                ∷ quoted account.name
                ∷ " has no 'get' permissions on any secrets in namespace "
                ∷ quoted shared_namespace
                ∷ [])))
        else first_shared accessible

    unfoldable pub get_access_keys_from_shared_namespace : Exec W AccessKeys
    get_access_keys_from_shared_namespace =
        or_wrap (wrap "failed to perform self subject rules review:")
          get_accessible_secret_names_from_access_keys_namespace
        >>= search_names

    abbrev pub or_shared : Option AccessKeys → Exec W AccessKeys
    or_shared (some keys) = pure keys
    or_shared none = get_access_keys_from_shared_namespace

    unfoldable pub get_access_key_and_key_id : Exec W AccessKeys
    get_access_key_and_key_id =
        or_wrap (wrap "failed to get access keys from project namespace:")
          get_access_keys_from_project_namespace
        >>= or_shared
