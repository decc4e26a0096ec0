-- ===== src/Bastion/Reconcile/Settled.antt =====
-- pkg/controller/bastion/actuator_reconcile.go: what the status of a bastion says once Reconcile has succeeded.
use gardener_extension_provi.Common.{
  String, ◌≡◌, ◌≢◌, refl, sym, ap, ◌∙◌, ◌==◌, Bool-cases, eq_iff, inl, inr, Option, none, some,
  arith,
}
use gardener_extension_provi.Failure.{Error, Result, ok, err}
use gardener_extension_provi.Action.Ensures.{
  Ensures, returns, Anything, Ensures-and_then, Ensures-call,
}
use gardener_extension_provi.Action.Loops.{
  Succeeds, Succeeds-pure, Succeeds-done, Succeeds-bind, Succeeds-or_wrap, Succeeds-weaken,
}
use gardener_extension_provi.Action.Ends.{Succeeds-Anything, Ensures-Anything}
use gardener_extension_provi.Apis.{CloudProfileConfig}
use gardener_extension_provi.Bastion.{
  Bastion, ProviderStatusRaw, BastionProfile, BastionCluster, ExternalAccess, BastionClient,
  BastionHost, get_provider_status, status_of,
}
use gardener_extension_provi.Bastion.Choices.{get_bastion_zone}
use gardener_extension_provi.Bastion.Reconcile.{
  store_zone, patch, reconcile_bastion_objects, reconcile_bastion,
}
use gardener_extension_provi.Bastion.Objects.{
  awaited, has_address, wait_for_virtual_machine_external_access_ready,
  create_or_update_virtual_machine_external_access,
}

abbrev HasAddress : ExternalAccess → Type 0
HasAddress access = access.ingress_ip ≢ ""

awaited-HasAddress :
    (text : String) (waiting : Error) (r : Result ExternalAccess)
    → Succeeds HasAddress (awaited has_address text waiting r)
awaited-HasAddress text waiting (err e) = tt
awaited-HasAddress text waiting (ok access) = elim (Bool-cases (access.ingress_ip == "")) [
  | inl empty ↦ rw empty tt
  | inr filled ↦ rw filled (λ e. ground (arith, eq_iff access.ingress_ip ""))
]

module _ {W : Type 0} (c : BastionClient W) (project : String) where
  access-HasAddress :
      (bastion : Bastion)
      → Ensures Anything
          (Succeeds HasAddress)
          (create_or_update_virtual_machine_external_access c project bastion)
  unfolding create_or_update_virtual_machine_external_access
      wait_for_virtual_machine_external_access_ready
  access-HasAddress bastion = Succeeds-bind _ _ (Succeeds-Anything _) λ made u.
      Ensures-and_then _ _ (Ensures-Anything _) (λ r u. returns (awaited-HasAddress _ _ r))

  objects-HasAddress :
      (profile : CloudProfileConfig) (held : BastionProfile) (bastion : Bastion)
      → Ensures Anything
          (Succeeds HasAddress)
          (reconcile_bastion_objects profile held c project bastion)
  unfolding reconcile_bastion_objects
  objects-HasAddress profile held bastion = Succeeds-bind _ _ (Succeeds-Anything _) λ s u.
      Succeeds-bind _ _ (Succeeds-Anything _) λ machine u.
        Succeeds-bind _ _ (Succeeds-Anything _) λ image u.
          Succeeds-bind _ _ (Succeeds-Anything _) λ vm u.
            Succeeds-bind _ _ (Succeeds-or_wrap _ _ (access-HasAddress bastion)) λ access has.
              Succeeds-bind _ _ (Succeeds-Anything _) λ policy u. Succeeds-pure access has

module _ {W : Type 0} (host : BastionHost W) where
  -- What the calls that leave the package promise: a patch that succeeds has written the status, and reading JSON gives
  -- back what was written.
  pub record HostLaws : Type 0 where
    pub patched :
        (old new b : Bastion) (w : W)
        → (host.patch_status old new w).0 ≡ ok b
        → (b.provider_status ≡ new.provider_status) × (b.ingress_ip ≡ new.ingress_ip)
    pub reads_back :
        (s : ProviderStatusRaw) (raw : String)
        → host.marshal_status s ≡ ok raw
        → host.unmarshal_status raw ≡ ok s

  abbrev zone_by : BastionCluster → Result (Option ProviderStatusRaw) → Result String
  zone_by cluster (err e) = err e
  zone_by cluster (ok status) = get_bastion_zone host cluster status

  -- the zone in which Reconcile and Delete look for the bastion
  abbrev pub zone_of : BastionCluster → Bastion → Result String
  zone_of cluster bastion = zone_by cluster (get_provider_status host bastion)

  -- the status has the address of the external access, and the zone, whatever becomes of the cluster
  abbrev pub IsSettled : BastionCluster → Bastion → Bastion → Type 0
  IsSettled cluster bastion b =
      ((ip : String) × (b.ingress_ip ≡ some ip) × (ip ≢ ""))
      × ((later : BastionCluster) → zone_of later b ≡ zone_of cluster bastion)

  zone_kept :
      (cluster : BastionCluster) (bastion b : Bastion) (status : Option ProviderStatusRaw)
      (zone : String)
      → get_provider_status host bastion ≡ ok status
      → get_bastion_zone host cluster status ≡ ok zone
      → get_provider_status host b ≡ ok (some (record { zone = zone }))
      → (later : BastionCluster) → zone_of later b ≡ zone_of cluster bastion
  unfolding get_bastion_zone
  zone_kept cluster bastion b status zone got z has later =
      ap (zone_by later) has ∙ sym (ap (zone_by cluster) got ∙ z)

  module _ (laws : HostLaws) where
    patch-Succeeds :
        (old new : Bastion)
        → Ensures Anything
            (Succeeds
              (λ b. (b.provider_status ≡ new.provider_status) × (b.ingress_ip ≡ new.ingress_ip)))
            (patch host old new)
    patch-Succeeds old new =
        Ensures-call (host.patch_status old new)
          (λ w p. (tt, said w (host.patch_status old new w).0 refl))
      where
        said :
            (w : W) (r : Result Bastion)
            → (host.patch_status old new w).0 ≡ r
            → Succeeds
                (λ b. (b.provider_status ≡ new.provider_status) × (b.ingress_ip ≡ new.ingress_ip))
                r
        said w (ok b) e = laws.patched old new b w e
        said w (err e) q = tt

    store_zone-Succeeds :
        (cluster : BastionCluster) (bastion : Bastion) (status : Option ProviderStatusRaw)
        (zone : String)
        → get_provider_status host bastion ≡ ok status
        → get_bastion_zone host cluster status ≡ ok zone
        → Ensures Anything
            (Succeeds (λ b. get_provider_status host b ≡ ok (some (record { zone = zone }))))
            (store_zone host bastion status zone)
    unfolding store_zone get_bastion_zone get_provider_status
    store_zone-Succeeds cluster bastion (some s) zone got z =
        Succeeds-pure bastion (got ∙ ap (λ n. ok (some (record { zone = n }))) (cc (z)))
    store_zone-Succeeds cluster bastion none zone got z =
        Succeeds-bind _ _
          (Succeeds-or_wrap _ _
            (Succeeds-done (host.marshal_status (record { zone = zone })) (λ raw e. e)))
          λ raw e. Succeeds-or_wrap _ _ (
            Succeeds-weaken
              (λ b (p, i). rw p (rw (laws.reads_back (record { zone = zone }) raw e) refl))
              (patch-Succeeds bastion (record bastion { provider_status = some raw })))

    -- A reconciliation that succeeds has put an address into the status of the bastion, and a zone: the one that it worked
    -- in. Whatever becomes of the cluster, that zone is found from then on, as by the deletion.
    pub reconcile_bastion-IsSettled :
        (bastion : Bastion) (cluster : BastionCluster)
        → Ensures Anything
            (Succeeds (IsSettled cluster bastion))
            (reconcile_bastion host bastion cluster)
    unfolding reconcile_bastion get_provider_status
    reconcile_bastion-IsSettled bastion cluster =
        Succeeds-bind _ _ (Succeeds-Anything _) λ profile u.
          Succeeds-bind _ _ (Succeeds-done (get_provider_status host bastion) (λ s e. e))
            λ status got.
              Succeeds-bind _ _
                (Succeeds-or_wrap _ _
                  (Succeeds-done (get_bastion_zone host cluster status) (λ z e. e)))
                λ zone z.
                  Succeeds-bind _ _ (store_zone-Succeeds cluster bastion status zone got z)
                    λ stored has_zone. Succeeds-bind _ _ (Succeeds-Anything _) λ config u.
                      Succeeds-bind _ _ (Succeeds-Anything _) λ client u.
                        Succeeds-bind _ _
                          (objects-HasAddress client.0 client.1 profile.0 profile.1 stored)
                          λ access has. Succeeds-or_wrap _ _ (
                            Succeeds-weaken
                              (λ b (p, i). (
                                (access.ingress_ip, i, has),
                                zone_kept cluster bastion b status zone got z
                                    (ap (status_of host) p ∙ has_zone),
                              ))
                              (patch-Succeeds stored
                                (record stored { ingress_ip = some access.ingress_ip })))
