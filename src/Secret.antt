-- ===== src/Secret.antt =====
-- pkg/gdc/serviceaccount.go, gdc/pkg/auth/config.go, gdc/pkg/client/config.go: what the controllers read from a secret.
-- `fetch` is GetSecretByReference of Gardener, `parse` the reading of JSON by encoding/json.
pub mod Errors
use gardener_extension_provi.Common.{
  quoted, String, concat, none, Option, some, List, [], ◌∷◌, ◌==◌, lookup, if◌then◌else◌,
}
use gardener_extension_provi.Failure.{Error, errorf, wrap, Result, ok, err}
use gardener_extension_provi.Action.{done, Exec, call, ◌>>=◌, or_wrap}

pub record ServiceAccount : Type 0 where
  pub name : String
  pub project : String
  pub token_uri : String
  pub private_key_id : String
  pub private_key : String

pub record OrgClusterConfig : Type 0 where
  pub org_cluster_url : String
  pub ca_data : String

pub record Secret : Type 0 where
  pub namespace : String
  pub name : String
  pub data_of : List (String × String)

pub record SecretReference : Type 0 where
  pub namespace : String
  pub name : String

abbrev pub service_account_json_field : String
service_account_json_field = "serviceaccount.json"

abbrev pub gdch_config_json_field : String
gdch_config_json_field = "gdch-config"

abbrev err_missing_gdch_config : Error
err_missing_gdch_config = errorf "secret doesn't have a gdch-config"

abbrev with_project : Result ServiceAccount → Result ServiceAccount
with_project (err e) = err e
with_project (ok a) =
    if a.project == "" then err (errorf "no project specified for service account") else ok a

abbrev secret_text : Secret → String
secret_text s = concat (s.namespace ∷ "/" ∷ s.name ∷ [])

module _ (parse : String → Result ServiceAccount) where
  unfoldable pub get_service_account_from_json : String → Result ServiceAccount
  get_service_account_from_json text = with_project (parse text)

  abbrev account_in : Secret → Option String → Result ServiceAccount
  account_in secret none = err (
      errorf (
        concat (
          "secret "
          ∷ secret_text secret
          ∷ " doesn't have a service account json (expected field: "
          ∷ quoted service_account_json_field
          ∷ ")"
          ∷ [])))
  account_in secret (some text) = get_service_account_from_json text

  unfoldable pub get_service_account_from_secret : Secret → Result ServiceAccount
  unfolding get_service_account_from_json
  get_service_account_from_secret secret =
      account_in secret (lookup service_account_json_field secret.data_of)

module _ (parse : String → Result OrgClusterConfig) where
  abbrev config_in : Secret → Option String → Result OrgClusterConfig
  config_in secret none = err (
      wrap
        (concat
          ("secret " ∷ secret_text secret ∷ " missing field " ∷ quoted gdch_config_json_field ∷ []))
        err_missing_gdch_config)
  config_in secret (some text) = parse text

  unfoldable pub get_gdch_config_from_secret : Secret → Result OrgClusterConfig
  get_gdch_config_from_secret secret =
      config_in secret (lookup gdch_config_json_field secret.data_of)

module _ {W : Type 0} (fetch : SecretReference → W → Result Secret) where
  unfoldable pub get_service_account_from_secret_reference :
      (String → Result ServiceAccount) → SecretReference → Exec W ServiceAccount
  unfolding ◌>>=◌ call get_service_account_from_secret
  get_service_account_from_secret_reference parse ref = do
    secret ← call (λ w. (fetch ref w, w))
    done (get_service_account_from_secret parse secret)

  unfoldable pub get_gdch_config_from_secret_reference :
      (String → Result OrgClusterConfig) → SecretReference → Exec W OrgClusterConfig
  unfolding ◌>>=◌ call or_wrap get_gdch_config_from_secret
  get_gdch_config_from_secret_reference parse ref = do
    secret ← or_wrap (wrap "failed to fetch secret:") (call (λ w. (fetch ref w, w)))
    done (get_gdch_config_from_secret parse secret)
