-- ===== src/Worker/Agreement/Placed.antt =====
-- Where the machines of a class run, and what they reach from there.
use gardener_extension_provi.Common.{
  ℕ, String, ◌≡◌, ◌≢◌, ◌==◌, refl, sym, ap, ◌∙◌, eq_iff, Option, none, some, List, [], ◌∷◌, flatten,
  first, Any, Bool-cases, inl, inr,
}
use gardener_extension_provi.Failure.{Result, ok}
use gardener_extension_provi.Apis.{
  Zones, InfrastructureStatus, ZoneEndpoints, OrgConfig, CloudProfileConfig, stops_at,
}
use gardener_extension_provi.Action.Ensures.{Ensures}
use gardener_extension_provi.Action.Loops.{Succeeds, Each, Each-map, Succeeds-weaken}
use gardener_extension_provi.Worker.Objects.{
  WorkerPool, WorkerResource, Cluster, MachineClass, Surroundings,
}
use gardener_extension_provi.Worker.Classes.{
  find_subnet_in, find_subnet, management_api_in, find_zone_management_url, org_config_of,
  infrastructure_status_of, generate_machine_classes,
}
use gardener_extension_provi.Worker.Agreement.{
  Answers, IsClassFor, WorkerClasses, generate_machine_classes-Succeeds,
}

ok_inj : {A : Type 0} (a b : A) → ok a ≡ ok b → a ≡ b
ok_inj a b h = cc

-- the status lists this subnet, which has a name, for the zone
abbrev pub HasSubnet : String → String → List Zones → Type 0
HasSubnet zone subnet zs = Any (λ z. (z.name ≡ zone) × (z.subnet ≡ subnet) × (z.subnet ≢ "")) zs

-- the first endpoints that are listed for the zone, with no nil entry before them, have this management API
abbrev pub IsManagedAt : String → String → List (Option ZoneEndpoints) → Type 0
IsManagedAt zone url zs =
    (z : ZoneEndpoints) × (first (stops_at zone) zs ≡ some (some z)) × (z.management_api ≡ url)

-- the class is one for machines of the pool in the zone
pub record IsPlaced (org : OrgConfig) (status : InfrastructureStatus) (pool : WorkerPool)
    (zone : String) (c : MachineClass) : Type 0 where
  pub in_subnet : HasSubnet zone c.subnet_name status.networks.zones
  pub managed_at : IsManagedAt zone c.org_cluster_url org.zones
  pub ca_data : c.ca_data ≡ org.ca_data
  pub registry_url : c.registry_url ≡ org.registry_url
  pub machine_type : c.machine_type ≡ pool.machine_type
  pub egress : c.enable_egress ≡ status.enable_egress

find_subnet-HasSubnet :
    (zone subnet : String) (zs : List Zones)
    → find_subnet_in zone zs ≡ ok subnet
    → HasSubnet zone subnet zs
unfolding find_subnet_in
find_subnet-HasSubnet zone subnet [] h = absurd (cc (h))
find_subnet-HasSubnet zone subnet (z ∷ zs) h = elim (Bool-cases (z.name == zone)) [
  | inr other ↦ inr (find_subnet-HasSubnet zone subnet zs (rw other at h))
  | inl named ↦ elim (Bool-cases (z.subnet == "")) [
    | inl blank ↦ inr (find_subnet-HasSubnet zone subnet zs (rw (named, blank) at h))
    | inr full ↦ inl (
      (eq_iff z.name zone).0 named,
      ok_inj _ _ (rw (named, full) at h),
      λ e. absurd (cc (full, (eq_iff z.subnet "").1 e)),
    )
  ]
]

management_api-IsManagedAt :
    (zone url : String) (zs : List (Option ZoneEndpoints))
    → management_api_in zone zs ≡ ok url
    → IsManagedAt zone url zs
unfolding management_api_in
management_api-IsManagedAt zone url [] h = absurd (cc (h))
management_api-IsManagedAt zone url (none ∷ zs) h = absurd (cc (h))
management_api-IsManagedAt zone url (some z ∷ zs) h = elim (Bool-cases (z.name == zone)) [
  | inl here ↦ rw here (z, refl, ok_inj _ _ (rw here at h))
  | inr later ↦ rw later (management_api-IsManagedAt zone url zs (rw later at h))
]

module _ {W : Type 0} (env : Surroundings W) (cluster : Cluster) (worker : WorkerResource)
    (answers : String → Result (Unit {0})) (profile : CloudProfileConfig) where
  -- The organisation and the status are those of profile and worker. There is a group of classes for each pool, and in it
  -- a class for each zone, in order.
  abbrev pub ArePlaced : List MachineClass → Type 0
  ArePlaced classes =
      (raw : String) × (status : InfrastructureStatus) × (groups : List (List MachineClass))
      × (worker.infrastructure_provider_status ≡ some raw)
      × (env.decode_infrastructure_status raw ≡ ok status)
      × (classes ≡ flatten groups)
      × Each
          (λ i pool.
            Each
              (λ j zone c.
                (org : OrgConfig) × (profile.org_config ≡ some org)
                × IsPlaced org status pool zone c)
              0 pool.zones)
          0 worker.pools groups

  org_of :
      (o : Option OrgConfig) (org : OrgConfig)
      → org_config_of (record profile { org_config = o }) ≡ ok org
      → o ≡ some org
  org_of none org h = absurd (cc (h))
  org_of (some o) org h = cc

  url_in :
      (zone : String) (org : OrgConfig)
      → profile.org_config ≡ some org
      → find_zone_management_url zone profile ≡ management_api_in zone org.zones
  unfolding find_zone_management_url
  url_in zone org e = ap (λ o. find_zone_management_url zone (record profile { org_config = o })) e

  IsClassFor-IsPlaced :
      (status : InfrastructureStatus) (pool : WorkerPool) (image : String × String) (i : ℕ)
      (zone : String) (c : MachineClass)
      → IsClassFor env cluster worker answers profile status pool image i zone c
      → (org : OrgConfig) × (profile.org_config ≡ some org) × IsPlaced org status pool zone c
  unfolding find_subnet find_zone_management_url
  IsClassFor-IsPlaced status pool image i zone c r =
      let (org, o, ca, registry) = r.trusts in
      let found = org_of profile.org_config org o in
      (
        org,
        found,
        record {
          in_subnet = find_subnet-HasSubnet zone c.subnet_name status.networks.zones r.in_subnet;
          managed_at =
              management_api-IsManagedAt zone c.org_cluster_url org.zones
                (sym (url_in zone org found) ∙ r.managed_at);
          ca_data = ca;
          registry_url = registry;
          machine_type = r.runs_on;
          egress = r.reaches_out;
        },
      )

  status_of :
      (o : Option String) (status : InfrastructureStatus)
      → infrastructure_status_of env cluster (record worker { infrastructure_provider_status = o })
        ≡ ok status
      → (raw : String) × (o ≡ some raw) × (env.decode_infrastructure_status raw ≡ ok status)
  unfolding infrastructure_status_of
  status_of none status h = absurd (cc (h))
  status_of (some raw) status h = (raw, refl, h)

  WorkerClasses-ArePlaced :
      (classes : List MachineClass)
      → WorkerClasses env cluster worker answers profile classes
      → ArePlaced classes
  WorkerClasses-ArePlaced classes (status, groups, s, e, each) =
      let (raw, has, decoded) = status_of worker.infrastructure_provider_status status s in
      (
        raw,
        status,
        groups,
        has,
        decoded,
        e,
        Each-map
            (λ i pool cs (image, found, q).
              Each-map (IsClassFor-IsPlaced status pool image) 0 pool.zones cs q)
            0 worker.pools groups each,
      )

  -- Where machine classes are generated, there is one for each zone of each pool, in order. Its subnet is one that the
  -- infrastructure status lists for that zone, under a name that is not empty; its API is that of the first endpoints
  -- that the cloud profile lists for that zone, with no nil entry before them; and it has the CA data and the registry
  -- of the profile's organisation, the machine type of the pool and the status's choice on egress. So it is whatever
  -- other threads do meanwhile that leaves what the API server answers to a request for a machine deployment of the
  -- worker's namespace.
  pub generate_machine_classes-ArePlaced :
      Ensures
        (Answers env cluster worker answers)
        (Succeeds ArePlaced)
        (generate_machine_classes env cluster worker profile)
  generate_machine_classes-ArePlaced =
      Succeeds-weaken WorkerClasses-ArePlaced
        (generate_machine_classes-Succeeds env cluster worker answers profile)
