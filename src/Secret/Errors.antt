-- ===== src/Secret/Errors.antt =====
-- pkg/gdc/serviceaccount.go: the errors of the look-ups, by those of the secret's look-up and of the reading of JSON.
use gardener_extension_provi.Common.{String, ◌==◌, Bool-cases, inl, inr, Option, none, some, lookup}
use gardener_extension_provi.Failure.{Error, errorf, wrap, Result, ok, err}
use gardener_extension_provi.Action.{done, call, or_wrap}
use gardener_extension_provi.Action.Ensures.{Ensures, Anything, Ensures-call}
use gardener_extension_provi.Action.Ends.{Ends, IsWrapped, Ends-bind, Ends-or_wrap, Ends-done}
use gardener_extension_provi.Secret.{
  ServiceAccount, OrgClusterConfig, Secret, SecretReference, with_project, account_in, config_in,
  service_account_json_field, gdch_config_json_field, get_service_account_from_json,
  get_service_account_from_secret, get_gdch_config_from_secret,
  get_service_account_from_secret_reference, get_gdch_config_from_secret_reference,
}

module _ {E : Error → Type 0} (plain : (text : String) → E (errorf text))
    (wraps : IsWrapped E) where
  with_project-Ends :
      (r : Result ServiceAccount) → Ends E Anything r → Ends E Anything (with_project r)
  with_project-Ends (err e) h = h
  with_project-Ends (ok a) h = elim (Bool-cases (a.project == "")) [
    | inl t ↦ rw t (plain _)
    | inr t ↦ rw t tt
  ]

  account_in-Ends :
      (parse : String → Result ServiceAccount) (secret : Secret) (field : Option String)
      → ((text : String) → Ends E Anything (parse text))
      → Ends E Anything (account_in parse secret field)
  unfolding get_service_account_from_json
  account_in-Ends parse secret none h = plain _
  account_in-Ends parse secret (some text) h = with_project-Ends (parse text) (h text)

  account-Ends :
      (parse : String → Result ServiceAccount) (secret : Secret)
      → ((text : String) → Ends E Anything (parse text))
      → Ends E Anything (get_service_account_from_secret parse secret)
  unfolding get_service_account_from_secret
  account-Ends parse secret h =
      account_in-Ends parse secret (lookup service_account_json_field secret.data_of) h

  config_in-Ends :
      (parse : String → Result OrgClusterConfig) (secret : Secret) (field : Option String)
      → ((text : String) → Ends E Anything (parse text))
      → Ends E Anything (config_in parse secret field)
  config_in-Ends parse secret none h = wraps _ _ (plain _)
  config_in-Ends parse secret (some text) h = h text

  config-Ends :
      (parse : String → Result OrgClusterConfig) (secret : Secret)
      → ((text : String) → Ends E Anything (parse text))
      → Ends E Anything (get_gdch_config_from_secret parse secret)
  unfolding get_gdch_config_from_secret
  config-Ends parse secret h =
      config_in-Ends parse secret (lookup gdch_config_json_field secret.data_of) h

  module _ {W : Type 0} {P : W → Type 0} (fetch : SecretReference → W → Result Secret)
      (ref : SecretReference) (fetched : (w : W) → P w → Ends E Anything (fetch ref w)) where
    pub account_reference-Ends :
        (parse : String → Result ServiceAccount)
        → ((text : String) → Ends E Anything (parse text))
        → Ensures P (Ends E Anything) (get_service_account_from_secret_reference fetch parse ref)
    unfolding get_service_account_from_secret_reference
    account_reference-Ends parse h =
        Ends-bind {Q = Anything} (call (λ w. (fetch ref w, w)))
          (λ s. done (get_service_account_from_secret parse s))
          (Ensures-call _ (λ w p. (p, fetched w p))) (λ s u. Ends-done _ (account-Ends parse s h))

    pub config_reference-Ends :
        (parse : String → Result OrgClusterConfig)
        → ((text : String) → Ends E Anything (parse text))
        → Ensures P (Ends E Anything) (get_gdch_config_from_secret_reference fetch parse ref)
    unfolding get_gdch_config_from_secret_reference
    config_reference-Ends parse h =
        Ends-bind {Q = Anything}
          (or_wrap (wrap "failed to fetch secret:") (call (λ w. (fetch ref w, w))))
          (λ s. done (get_gdch_config_from_secret parse s))
          (Ends-or_wrap _ _ (wraps _) (Ensures-call _ (λ w p. (p, fetched w p))))
          (λ s u. Ends-done _ (config-Ends parse s h))
