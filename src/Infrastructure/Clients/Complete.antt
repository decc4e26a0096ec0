-- ===== src/Infrastructure/Clients/Complete.antt =====
-- The clients that createKubeClients returns: one for each zone of the configuration.
use gardener_extension_provi.Common.{
  String, ◌≡◌, ◌≢◌, refl, sym, ◌∙◌, ap, false, ◌==◌, eq_iff, eq_refl, Option, none, some, List, [],
  ◌∷◌, lookup, insert, lookup-insert, All, first, arith, Bool-cases, inl, inr,
}
use gardener_extension_provi.Failure.{Result, ok, err}
use gardener_extension_provi.Apis.{
  Zone, InfrastructureConfig, ZoneEndpoints, OrgConfig, CloudProfileConfig, stops_at,
}
use gardener_extension_provi.Infrastructure.{KubeClient, Zonal}
use gardener_extension_provi.Infrastructure.Clients.{
  find_management_url, ◌>>=◌, wrapped, org_config, zone_clients, clients_of_zones, clients_of_org,
  create_kube_clients,
}
use gardener_extension_provi.Secret.{ServiceAccount, OrgClusterConfig}

-- a chain of results that succeeds has succeeded at each link
bind_ok :
    {A B : Type 0} (r : Result A) (f : A → Result B) (b : B)
    → r >>= f ≡ ok b
    → (a : A) × (r ≡ ok a) × (f a ≡ ok b)
bind_ok (ok a) f b h = (a, refl, h)
bind_ok (err e) f b h = absurd (cc (h))

wrapped_ok : {A : Type 0} (text : String) (r : Result A) (a : A) → wrapped text r ≡ ok a → r ≡ ok a
wrapped_ok text (ok b) a h = h
wrapped_ok text (err e) a h = absurd (cc (h))

ok_inj : {A : Type 0} (a b : A) → ok a ≡ ok b → a ≡ b
ok_inj a b h = cc

find_management_url_ok :
    (name : String) (zs : List (Option ZoneEndpoints)) (url : String)
    → find_management_url name zs ≡ ok url
    → (z : ZoneEndpoints) × (first (stops_at name) zs ≡ some (some z)) × (z.management_api ≡ url)
unfolding find_management_url
find_management_url_ok name [] url h = absurd (cc (h))
find_management_url_ok name (none ∷ zs) url h = absurd (cc (h))
find_management_url_ok name (some z ∷ zs) url h = elim (Bool-cases (z.name == name)) [
  | inl here ↦ rw here (z, refl, ok_inj _ _ (rw here at h))
  | inr later ↦ rw later (find_management_url_ok name zs url (rw later at h))
]

module _ {W : Type 0} (load : OrgClusterConfig → ServiceAccount → Result (KubeClient W))
    (account : ServiceAccount) (org : OrgConfig) where
  -- the client that is loaded for the first endpoints of this zone in the cloud profile, with no nil entry before them
  abbrev pub Loads : String → KubeClient W → Type 0
  Loads name c =
      (z : ZoneEndpoints) × (first (stops_at name) org.zones ≡ some (some z))
      × (load (record { org_cluster_url = z.management_api; ca_data = org.ca_data }) account ≡ ok c)

  -- the zone has its client
  abbrev pub HasClient : Zonal W → Zone → Type 0
  HasClient clients zone =
      (c : KubeClient W) × Loads zone.name c × (lookup zone.name clients ≡ some c)

  Loads-once : (name : String) (c d : KubeClient W) → Loads name c → Loads name d → c ≡ d
  Loads-once name c d (y, f, p) (z, g, q) =
      let e : y ≡ z = cc in
      ok_inj c d (
        sym p
        ∙ ap
            (λ y.
              load (record { org_cluster_url = y.management_api; ca_data = org.ca_data }) account)
            e
        ∙ q)

  zone_clients_ok :
      (zs : List Zone) (acc clients : Zonal W)
      → zone_clients load account org zs acc ≡ ok clients
      → All (HasClient clients) zs
        × ((name : String) (c : KubeClient W)
            → Loads name c
            → lookup name acc ≡ some c
            → lookup name clients ≡ some c)
  unfolding zone_clients
  zone_clients_ok [] acc clients h = (tt, λ name c l e. rw (← ok_inj acc clients h) e)
  zone_clients_ok (z ∷ zs) acc clients h =
      let (url, u, h₁) = bind_ok (find_management_url z.name org.zones) _ clients h in
      let (c, l, h₂) =
        bind_ok (wrapped _ (load (record { org_cluster_url = url; ca_data = org.ca_data }) account))
          _ clients h₁ in
      let (ends, f, m) = find_management_url_ok z.name org.zones url u in
      let loads : Loads z.name c = (ends, f, rw m (wrapped_ok _ _ c l)) in
      let (rest, keep) = zone_clients_ok zs (insert z.name c acc) clients h₂ in
      (
        ((c, loads, keep z.name c loads (rw lookup-insert (rw eq_refl refl))), rest),
        λ name d l e. keep name d l (still z.name acc c name d loads l e),
      )
    where
      -- a client that is overwritten is overwritten by itself
      still :
          (zone : String) (acc : Zonal W) (c : KubeClient W) (name : String) (d : KubeClient W)
          → Loads zone c
          → Loads name d
          → lookup name acc ≡ some d
          → lookup name (insert zone c acc) ≡ some d
      still zone acc c name d k l e = rw lookup-insert (elim (Bool-cases (zone == name)) [
        | inl same ↦ rw same (ap some (Loads-once name c d (rw (← (eq_iff zone name).0 same) k) l))
        | inr other ↦ rw other e
      ])

  not_empty :
      (zs : List Zone) (clients : Zonal W)
      → clients_of_zones load account org zs ≡ ok clients
      → zs ≢ []
  not_empty [] clients h e = cc (h)
  not_empty (z ∷ zs) clients h e = cc

  All-HasClient :
      (zs : List Zone) (clients : Zonal W)
      → clients_of_zones load account org zs ≡ ok clients
      → All (HasClient clients) zs
  All-HasClient [] clients h = tt
  All-HasClient (z ∷ zs) clients h = (zone_clients_ok (z ∷ zs) [] clients h).0

module _ {W : Type 0} (load : OrgClusterConfig → ServiceAccount → Result (KubeClient W))
    (account : ServiceAccount) (profile : CloudProfileConfig) (config : InfrastructureConfig) where
  not_given : (s : String) → (s == "") ≡ false → s ≢ ""
  not_given s h e = ground (arith, eq_iff s "")

  org_config_ok : (o : Option OrgConfig) (org : OrgConfig) → org_config o ≡ ok org → o ≡ some org
  org_config_ok none org h = absurd (cc (h))
  org_config_ok (some o) org h = cc

  -- If createKubeClients succeeds, the profile has an organisation, the configuration has zones, the global client is the
  -- one loaded for the organisation's global endpoint, which is not empty, and each zone has in the map the client
  -- loaded for its own endpoint: the first of its name in the profile, with no nil entry before it.
  pub create_kube_clients_complete :
      (global : KubeClient W) (clients : Zonal W)
      → create_kube_clients load account profile config ≡ ok (global, clients)
      → (org : OrgConfig) × (profile.org_config ≡ some org)
        × (org.global_management_api ≢ "")
        × (load
              (record { org_cluster_url = org.global_management_api; ca_data = org.ca_data })
              account
            ≡ ok global)
        × (config.networks.zones ≢ [])
        × All (HasClient load account org clients) config.networks.zones
  unfolding create_kube_clients
  create_kube_clients_complete global clients h =
      let (org, o, h₁) = bind_ok (org_config profile.org_config) _ (global, clients) h in
      let (has_url, loaded, has_zones, served) = of_org org h₁ in
      (org, org_config_ok profile.org_config org o, has_url, loaded, has_zones, served)
    where
      of_org :
          (org : OrgConfig)
          → clients_of_org load account org config ≡ ok (global, clients)
          → (org.global_management_api ≢ "")
            × (load
                  (record { org_cluster_url = org.global_management_api; ca_data = org.ca_data })
                  account
                ≡ ok global)
            × (config.networks.zones ≢ [])
            × All (HasClient load account org clients) config.networks.zones
      of_org org h = elim (Bool-cases (org.global_management_api == "")) [
        | inl missing ↦ absurd (cc (missing, h))
        | inr given ↦
            let (g, l, h₁) =
              bind_ok
                (wrapped "could not create kubeclient: " (
                  load
                    (record { org_cluster_url = org.global_management_api; ca_data = org.ca_data })
                    account))
                _ (global, clients) (rw given at h) in
            let (cs, made, h₂) =
              bind_ok (clients_of_zones load account org config.networks.zones) _ (global, clients)
                h₁ in
            let same = ok_inj (g, cs) (global, clients) h₂ in
            let same_clients : cs ≡ clients = ap (λ t. t.1) same in
            let h₃ = rw same_clients at made in
            (
              (λ empty. absurd (not_given org.global_management_api given empty)),
              wrapped_ok _ _ global (l ∙ ap (λ t. ok t.0) same),
              not_empty load account org config.networks.zones clients h₃,
              All-HasClient load account org config.networks.zones clients h₃,
            )
      ]
