-- ===== src/Infrastructure/Deletion/Gone.antt =====
-- What a successful deleteAllSubnets has done: each subnet of the shoot is on its way out, or was not there.
pub mod Steps
use gardener_extension_provi.Infrastructure.Deletion.Gone.Steps.{
  KeepsErrors, Stays, Stays-or_determined, or_determined_ok, deleted_ok, run-delete_subnet,
  zonal_client-found, zonal_client-missing,
}
use gardener_extension_provi.Common.{
  String, ◌≡◌, refl, ap, ◌∙◌, sym, true, Bool-cases, Option-cases, inl, inr, Option, none, some,
  List, [], ◌∷◌, lookup, arith, ◌⊎◌,
}
use gardener_extension_provi.Failure.{Error, panic, Result, ok, err, is_not_found}
use gardener_extension_provi.Action.{Exec, run, done, and_then, pure, ◌>>=◌, go_on}
use gardener_extension_provi.Action.Laws.{
  run-and_then, run-bind, run-bind_ok, run-bind_err, run-done,
}
use gardener_extension_provi.Apis.{Zone}
use gardener_extension_provi.Kube.{Subnet, ObjectClient, do_delete, run-delete}
use gardener_extension_provi.Infrastructure.{
  KubeClient, Zonal, zonal_client, zone_subnet_name, zone_network_subnet_name,
}
use gardener_extension_provi.Infrastructure.Deletion.{
  determined, deleted, delete_subnet, delete_zonal_subnet, or_determined, delete_with_client,
  delete_zone_subnets, delete_all_subnets,
}

-- Where a subnet can be: at the global API, or at the API of a zone.
pub data Place : Type 0 where
  at_global : Place
  at_zone : String → Place

module _ {W : Type 0} (global : KubeClient W) (clients : Zonal W) where
  -- the client of a place
  abbrev pub ClientAt : Place → ObjectClient W Subnet → Type 0
  ClientAt at_global c = c ≡ global.global_subnets
  ClientAt (at_zone zone) c = (k : KubeClient W) × (lookup zone clients ≡ some k) × (c ≡ k.subnets)

  -- `Gone p ns n w`: in `w` the subnet is absent at `p`, or its deletion has been accepted. A Delete that succeeds, or
  -- finds nothing, makes it so, and no Delete undoes it.
  pub record DeletionLaws (Gone : Place → String → String → W → Type 0) : Type 0 where
    pub accepted :
        (p : Place) (c : ObjectClient W Subnet) (ns n : String) (w : W)
        → ClientAt p c
        → (c.delete ns n w).0 ≡ ok tt
        → Gone p ns n (c.delete ns n w).1
    pub absent :
        (p : Place) (c : ObjectClient W Subnet) (ns n : String) (w : W) (e : Error)
        → ClientAt p c
        → (c.delete ns n w).0 ≡ err e
        → is_not_found e ≡ true
        → Gone p ns n (c.delete ns n w).1
    pub stays :
        (p q : Place) (c : ObjectClient W Subnet) (ns n ms m : String) (w : W)
        → ClientAt q c
        → Gone p ns n w
        → Gone p ns n (c.delete ms m w).1

module _ {W : Type 0} (Gone : Place → String → String → W → Type 0) (project infra : String) where
  -- the subnets of the zones at the zones' APIs and at the global one, and the root subnet
  abbrev pub AllGone : List Zone → W → Type 0
  AllGone [] w = Gone at_global project infra w
  AllGone (z ∷ zs) w =
      Gone (at_zone z.name) project (zone_network_subnet_name infra z.name) w
      × Gone (at_zone z.name) project (zone_subnet_name infra z.name) w
      × Gone at_global project (zone_subnet_name infra z.name) w
      × AllGone zs w

module _ {W : Type 0} (global : KubeClient W) (clients : Zonal W)
    (Gone : Place → String → String → W → Type 0) (laws : DeletionLaws global clients Gone) where
  module _ (p : Place) (c : ObjectClient W Subnet) (at : ClientAt global clients p c)
      (ns n text : String) where
    abbrev Removal : Exec W (Unit {0})
    Removal = and_then (do_delete c ns n) (λ r. done (deleted text r))

    removed-Gone : (w : W) → (run Removal w).0 ≡ ok tt → Gone p ns n (run Removal w).1
    removed-Gone w h =
        rw (run-delete_subnet c ns n w text)
          (elim (deleted_ok text (c.delete ns n w).0
            (sym (ap (λ t. t.0) (run-delete_subnet c ns n w text)) ∙ h)) [
              | inl yes_ok ↦ laws.accepted p c ns n w at yes_ok
              | inr (e, r, missing) ↦ laws.absent p c ns n w e at r missing
            ])

    removal-Stays : (q : Place) (ms m : String) → Stays (Gone q ms m) Removal
    removal-Stays q ms m w g =
        rw (run-delete_subnet c ns n w text) (laws.stays q p c ms m ns n w at g)

  module _ (determine : Option Error → Option Error) (project infra : String) where
    with_client-Stays :
        (zone : String) (rest : Exec W (Unit {0})) (k : KubeClient W) (q : Place) (ms m : String)
        → lookup zone clients ≡ some k
        → Stays (Gone q ms m) rest
        → Stays
            (Gone q ms m)
            (delete_with_client determine global clients project infra zone rest k)
    unfolding delete_with_client delete_zonal_subnet delete_subnet
    with_client-Stays zone rest k q ms m found keep =
        let G = Gone q ms m in
        let here : ClientAt global clients (at_zone zone) k.subnets = (k, found, refl) in
        Stays-or_determined G determine _ _
          (removal-Stays (at_zone zone) k.subnets here project _ _ q ms m)
          (Stays-or_determined G determine _ _
            (removal-Stays (at_zone zone) k.subnets here project _ _ q ms m)
            (Stays-or_determined G determine _ _
              (removal-Stays at_global global.global_subnets refl project _ _ q ms m) keep))

    zone-Stays :
        (zone : String) (rest : Exec W (Unit {0})) (q : Place) (ms m : String)
        → Stays (Gone q ms m) rest
        → Stays (Gone q ms m) (delete_zone_subnets determine global clients project infra zone rest)
    unfolding delete_zone_subnets
    zone-Stays zone rest q ms m keep w g =
        let next = delete_with_client determine global clients project infra zone rest in
        elim (Option-cases (lookup zone clients)) [
          | inl missing ↦
              rw
                (run-bind_err (zonal_client zone clients) next w _ w
                  (zonal_client-missing zone clients w missing))
                g
          | inr (k, found) ↦
              rw
                (run-bind_ok (zonal_client zone clients) next w k w
                  (zonal_client-found zone clients w k found))
                (with_client-Stays zone rest k q ms m found keep w g)
        ]

    all-Stays :
        (zs : List Zone) (q : Place) (ms m : String)
        → Stays (Gone q ms m) (delete_all_subnets determine global clients project infra zs)
    unfolding delete_all_subnets delete_subnet
    all-Stays [] q ms m =
        Stays-or_determined (Gone q ms m) determine _ _
          (removal-Stays at_global global.global_subnets refl project _ _ q ms m)
          (λ w g. unfold run pure in g)
    all-Stays (z ∷ zs) q ms m = zone-Stays z.name _ q ms m (all-Stays zs q ms m)

    module _ (keeps : KeepsErrors determine) where
      removal_then :
          (p : Place) (c : ObjectClient W Subnet) (at : ClientAt global clients p c)
          (n text : String) (rest : Exec W (Unit {0})) (w : W)
          → Stays (Gone p project n) rest
          → (run (or_determined determine (Removal p c at project n text) rest) w).0 ≡ ok tt
          → (v : W) × (run (or_determined determine (Removal p c at project n text) rest) w
              ≡ run rest v)
            × Gone p project n
                (run (or_determined determine (Removal p c at project n text) rest) w).1
      removal_then p c at n text rest w keep h =
          let m = Removal p c at project n text in
          let (first, e) = or_determined_ok determine keeps m rest w h in
          ((run m w).1, e, rw e (keep (run m w).1 (removed-Gone p c at project n text w first)))

      zone_ok :
          (zone : String) (rest : Exec W (Unit {0})) (k : KubeClient W) (w : W)
          → lookup zone clients ≡ some k
          → ((q : Place) (ms m : String) → Stays (Gone q ms m) rest)
          → (run (delete_with_client determine global clients project infra zone rest k) w).0
            ≡ ok tt
          → (v : W) × (run (delete_with_client determine global clients project infra zone rest k) w
              ≡ run rest v)
            × Gone
                (at_zone zone)
                project
                (zone_network_subnet_name infra zone)
                (run (delete_with_client determine global clients project infra zone rest k) w).1
            × Gone
                (at_zone zone)
                project
                (zone_subnet_name infra zone)
                (run (delete_with_client determine global clients project infra zone rest k) w).1
            × Gone at_global project
                (zone_subnet_name infra zone)
                (run (delete_with_client determine global clients project infra zone rest k) w).1
      unfolding delete_with_client delete_zonal_subnet delete_subnet
      zone_ok zone rest k w found keep h =
          let here : ClientAt global clients (at_zone zone) k.subnets = (k, found, refl) in
          let third =
            or_determined determine
              (delete_subnet global.global_subnets project (zone_subnet_name infra zone)) rest in
          let second =
            or_determined determine
              (delete_zonal_subnet k.subnets project (zone_subnet_name infra zone)) third in
          let third-Stays : (q : Place) (ms m : String) → Stays (Gone q ms m) third = λ q ms m.
            Stays-or_determined (Gone q ms m) determine _ rest
              (removal-Stays at_global global.global_subnets refl project _ _ q ms m)
              (keep q ms m) in
          let second-Stays : (q : Place) (ms m : String) → Stays (Gone q ms m) second = λ q ms m.
            Stays-or_determined (Gone q ms m) determine _ third
              (removal-Stays (at_zone zone) k.subnets here project _ _ q ms m)
              (third-Stays q ms m) in
          let (v₁, e₁, g₁) =
            removal_then (at_zone zone) k.subnets here (zone_network_subnet_name infra zone) _
              second w (second-Stays _ _ _) h in
          let (v₂, e₂, g₂) =
            removal_then (at_zone zone) k.subnets here (zone_subnet_name infra zone) _ third v₁
              (third-Stays _ _ _) (sym (ap (λ t. t.0) e₁) ∙ h) in
          let (v₃, e₃, g₃) =
            removal_then at_global global.global_subnets refl (zone_subnet_name infra zone) _ rest
              v₂ (keep _ _ _) (sym (ap (λ t. t.0) (e₁ ∙ e₂)) ∙ h) in
          (v₃, e₁ ∙ e₂ ∙ e₃, g₁, rw e₁ g₂, rw (e₁ ∙ e₂) g₃)

      -- A deletion of all subnets that succeeds has disposed of every one of them: of each zone's network subnet and
      -- propagated subnet at the zone's API, of each zone's subnet at the global API, and of the root subnet.
      pub delete_all_subnets-Gone :
          (zs : List Zone) (w : W)
          → (run (delete_all_subnets determine global clients project infra zs) w).0 ≡ ok tt
          → AllGone Gone project infra zs
              (run (delete_all_subnets determine global clients project infra zs) w).1
      unfolding delete_all_subnets delete_subnet
      delete_all_subnets-Gone [] w h =
          let (v, e, g) =
            removal_then at_global global.global_subnets refl infra _ (pure tt) w
              (λ v g. unfold run pure in g) h in
          g
      delete_all_subnets-Gone (z ∷ zs) w h = elim (Option-cases (lookup z.name clients)) [
        | inl missing ↦ absurd (contradiction missing)
        | inr (k, found) ↦
            let through =
              run-bind_ok (zonal_client z.name clients) next w k w
                (zonal_client-found z.name clients w k found) in
            let (v, e, g₁, g₂, g₃) =
              zone_ok z.name rest k w found (all-Stays zs) (sym (ap (λ t. t.0) through) ∙ h) in
            rw (through) (
              g₁,
              g₂,
              g₃,
              rw e (delete_all_subnets-Gone zs v (sym (ap (λ t. t.0) (through ∙ e)) ∙ h)),
            )
      ]
        where
          rest : Exec W (Unit {0})
          rest = delete_all_subnets determine global clients project infra zs

          next : KubeClient W → Exec W (Unit {0})
          next = delete_with_client determine global clients project infra z.name rest

          contradiction : lookup z.name clients ≡ none → ⊥
          contradiction missing =
              let stop =
                run-bind_err (zonal_client z.name clients) next w _ w
                  (zonal_client-missing z.name clients w missing) in
              cc (ap (λ t. t.0) stop, h)
