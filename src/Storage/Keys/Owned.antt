-- ===== src/Storage/Keys/Owned.antt =====
-- pkg/gdc/storage/storage.go: whose access keys are found.
use gardener_extension_provi.Common.{
  String, ◌≡◌, refl, true, Bool-cases, Option, none, some, List, [], ◌∷◌, ◌⊎◌, inl, inr, All,
}
use text.Mathlib.Text.{starts_with}
use gardener_extension_provi.Failure.{Result, ok, err}
use gardener_extension_provi.Action.{Exec, fail}
use gardener_extension_provi.Action.Ensures.{
  Ensures, returns, Anything, Keeps, Ensures-and_then, Ensures-call, Ensures-weaken,
}
use gardener_extension_provi.Action.Loops.{
  Succeeds, Succeeds-pure, Succeeds-done, Succeeds-bind, Succeeds-or_wrap, Succeeds-read,
}
use gardener_extension_provi.Secret.{ServiceAccount}
use gardener_extension_provi.Storage.{OrgClient, KeySecret, AccessKeys}
use gardener_extension_provi.Storage.Keys.{
  KeyNames, shared_namespace, keys_of, is_in_project, is_shared, first_in_project, first_shared,
  chosen, some_keys, search_names, or_shared, get_access_keys_from_project_namespace,
  get_accessible_secret_names_from_access_keys_namespace, get_access_keys_from_shared_namespace,
  get_access_key_and_key_id,
}

module _ {W : Type 0} (P : W → Type 0) (names : KeyNames) (account : ServiceAccount)
    (c : OrgClient W) (InProject InShared : KeySecret → Type 0) where
  -- what the API server answers, while the condition holds: secrets of the two namespaces
  pub record Serves : Type 0 where
    pub listed :
        (w : W)
        → P w
        → Succeeds
            (All InProject)
            (c.list_secrets account.project (names.subject_type, "ServiceAccount") w)
    pub got :
        (name : String) (w : W) → P w → Succeeds InShared (c.get_secret shared_namespace name w)
    pub reviews : (name : String) (w : W) → P w → P (c.review name shared_namespace w).1

  -- the keys are those of a secret that names the account as its subject
  abbrev pub IsOwned : AccessKeys → Type 0
  IsOwned keys =
      (secret : KeySecret) × (keys_of secret ≡ ok keys)
      × ((InProject secret × (is_in_project names account secret ≡ true))
          ⊎ (InShared secret × (is_shared names account secret ≡ true)))

  abbrev OwnedOrNone : Option AccessKeys → Type 0
  OwnedOrNone none = Unit
  OwnedOrNone (some keys) = IsOwned keys

module _ {W : Type 0} {P : W → Type 0} (names : KeyNames) (account : ServiceAccount)
    (c : OrgClient W) (InProject InShared : KeySecret → Type 0)
    (serves : Serves P names account c InProject InShared) where
  some_keys-Owned :
      (secret : KeySecret) (r : Result AccessKeys)
      → InProject secret
      → is_in_project names account secret ≡ true
      → keys_of secret ≡ r
      → Succeeds (OwnedOrNone P names account c InProject InShared) (some_keys names account r)
  some_keys-Owned secret (ok keys) i t e = (secret, e, inl (i, t))
  some_keys-Owned secret (err e) i t q = tt

  in_project-Owned :
      (secrets : List KeySecret)
      → All InProject secrets
      → Succeeds
          (OwnedOrNone P names account c InProject InShared)
          (first_in_project names account secrets)
  unfolding first_in_project
  in_project-Owned [] h = tt
  in_project-Owned (s ∷ secrets) (i, h) = elim (Bool-cases (is_in_project names account s)) [
    | inl t ↦ rw t (some_keys-Owned s (keys_of s) i t refl)
    | inr t ↦ rw t (in_project-Owned secrets h)
  ]

  chosen-Owned :
      (rest : Exec W AccessKeys) (secret : KeySecret)
      → InShared secret
      → Ensures P (Succeeds (IsOwned P names account c InProject InShared)) rest
      → Ensures P
          (Succeeds (IsOwned P names account c InProject InShared))
          (chosen names account c rest secret)
  chosen-Owned rest secret i h = elim (Bool-cases (is_shared names account secret)) [
    | inl t ↦ rw t (Succeeds-done (keys_of secret) (λ keys e. (secret, e, inr (i, t))))
    | inr t ↦ rw t h
  ]

  shared-Owned :
      (accessible : List String)
      → Ensures P
          (Succeeds (IsOwned P names account c InProject InShared))
          (first_shared names account c accessible)
  unfolding first_shared fail
  shared-Owned [] = returns tt
  shared-Owned (name ∷ later) =
      let rest = shared-Owned later in
      elim (Bool-cases (starts_with name names.secret_name_prefix)) [
        | inl t ↦ rw t (
            Succeeds-bind _ _
              (Succeeds-or_wrap _ _ (Succeeds-read {Q = InShared} _ (λ w p. serves.got name w p)))
              (λ secret i. chosen-Owned (first_shared names account c later) secret i rest))
        | inr t ↦ rw t rest
      ]

  search-Owned :
      (accessible : List String)
      → Ensures P
          (Succeeds (IsOwned P names account c InProject InShared))
          (search_names names account c accessible)
  unfolding fail
  search-Owned [] = returns tt
  search-Owned (name ∷ later) = shared-Owned (name ∷ later)

  fallback-Owned :
      Ensures P
        (Succeeds (IsOwned P names account c InProject InShared))
        (get_access_keys_from_shared_namespace names account c)
  unfolding get_access_keys_from_shared_namespace
      get_accessible_secret_names_from_access_keys_namespace
  fallback-Owned =
      Succeeds-bind {Q = Anything} _ _
        (Succeeds-or_wrap _ _ (
          Ensures-and_then {Q = Anything} _ _ (Ensures-call _ (λ w p. (serves.reviews _ w p, tt)))
            (λ r u. Succeeds-done _ (λ a e. tt))))
        (λ accessible u. search-Owned accessible)

  or_shared-Owned :
      (found : Option AccessKeys)
      → OwnedOrNone P names account c InProject InShared found
      → Ensures P
          (Succeeds (IsOwned P names account c InProject InShared))
          (or_shared names account c found)
  or_shared-Owned none u = fallback-Owned
  or_shared-Owned (some keys) owned = Succeeds-pure keys owned

  -- Where access keys are found, they are those of a secret whose subject is the service account: one of the secrets of
  -- its project that name it, or one of the shared namespace that names it as a user, by its project and its name. So it
  -- is whatever other threads do, as long as the API server answers with secrets of the two namespaces.
  pub access_keys-IsOwned :
      Ensures P
        (Succeeds (IsOwned P names account c InProject InShared))
        (get_access_key_and_key_id names account c)
  unfolding get_access_key_and_key_id get_access_keys_from_project_namespace
  access_keys-IsOwned =
      Succeeds-bind {Q = OwnedOrNone P names account c InProject InShared} _ _
        (Succeeds-or_wrap _ _ (
          Succeeds-bind {Q = All InProject} _ _
            (Succeeds-or_wrap _ _ (Succeeds-read {Q = All InProject} _ serves.listed))
            (λ secrets h. returns (in_project-Owned secrets h))))
        or_shared-Owned

abbrev AnySecret : KeySecret → Type 0
AnySecret s = Unit

module _ {W : Type 0} {P : W → Type 0} (names : KeyNames) (account : ServiceAccount)
    (c : OrgClient W) where
  -- the search only reads, but for the review
  pub access_keys-Keeps :
      ((name : String) (w : W) → P w → P (c.review name shared_namespace w).1)
      → Keeps P (get_access_key_and_key_id names account c)
  access_keys-Keeps reviews =
      Ensures-weaken (λ r q. tt)
        (access_keys-IsOwned names account c AnySecret AnySecret record {
          listed = λ w p.
              read_all (c.list_secrets account.project (names.subject_type, "ServiceAccount") w);
          got = λ name w p. read_one (c.get_secret shared_namespace name w);
          reviews = reviews;
        })
    where
      each_one : (secrets : List KeySecret) → All AnySecret secrets
      each_one [] = tt
      each_one (s ∷ secrets) = (tt, each_one secrets)

      read_all : (r : Result (List KeySecret)) → Succeeds (All AnySecret) r
      read_all (ok secrets) = each_one secrets
      read_all (err e) = tt

      read_one : (r : Result KeySecret) → Succeeds AnySecret r
      read_one (ok s) = tt
      read_one (err e) = tt
