-- ===== src/Infrastructure/Actuator/Results.antt =====
-- What the tasks of Reconcile return where they succeed: a subnet for each zone, and an address range for each zone.
use mathlib.Core.List.{map}
use mathlib.Core.Path.{subst}
use gardener_extension_provi.Common.{
  String, ◌≡◌, ◌≢◌, refl, sym, ap, Option, none, some, List, [], ◌∷◌, lookup, insert, lookup-insert,
  All, eq_refl, arith, length, suc,
}
use gardener_extension_provi.Failure.{Error, Result, ok, err}
use gardener_extension_provi.Action.{Action, Exec, done, step, pure, ◌>>=◌}
use gardener_extension_provi.Action.Ensures.{
  Ensures, returns, calls, Anything, Ensures-bind, Ensures-weaken,
}
use gardener_extension_provi.Apis.{Zone, Zones, InfrastructureConfig}
use gardener_extension_provi.Secret.{ServiceAccount}
use gardener_extension_provi.Infrastructure.{Infrastructure, KubeClient, Zonal}
use gardener_extension_provi.Infrastructure.Zonal.{
  create_zone_subnets, create_all_zone_subnets, create_shoot_vm_subnets,
}
use gardener_extension_provi.Infrastructure.Egress.{
  create_zone_egress, create_egress_zones, create_egress_on_shoot_vms,
}
use gardener_extension_provi.Infrastructure.Actuator.{cons_found, cidr_slice}

-- any world
abbrev pub Anywhere : {W : Type 0} → W → Type 0
Anywhere w = Unit

-- what holds of the value where there is one
abbrev pub ThenOk : {A : Type 0} → (A → Type 0) → Result A → Type 0
ThenOk S (ok a) = S a
ThenOk S (err e) = Unit

module _ {W : Type 0} where
  Ensures-Anything : {A : Type 0} (m : Action W A) → Ensures Anywhere Anything m
  Ensures-Anything (done a) = returns tt
  Ensures-Anything (step act next) = calls (λ w p. tt) (λ w p. Ensures-Anything (next w))

  -- by what follows a part
  then-Ensures :
      {A B : Type 0} {S : B → Type 0} (m : Exec W A) (f : A → Exec W B)
      → ((a : A) → Ensures Anywhere (ThenOk S) (f a))
      → Ensures Anywhere (ThenOk S) (m >>= f)
  then-Ensures m f h = Ensures-bind {Q = Anything} m f (Ensures-Anything m) (λ a u. h a) (λ e u. tt)

  pub after-Ensures :
      {A B : Type 0} {R : A → Type 0} {S : B → Type 0} (m : Exec W A) (f : A → Exec W B)
      → Ensures Anywhere (ThenOk R) m
      → ((a : A) → R a → Ensures Anywhere (ThenOk S) (f a))
      → Ensures Anywhere (ThenOk S) (m >>= f)
  after-Ensures {R = R} m f k h = Ensures-bind {Q = ThenOk R} m f k h (λ e u. tt)

  pub pure-Ensures :
      {A : Type 0} {S : A → Type 0} (a : A) → S a → Ensures {W = W} Anywhere (ThenOk S) (pure a)
  unfolding pure
  pure-Ensures a s = returns s

abbrev pub zone_names : List Zone → List String
zone_names = map (λ z. z.name)

abbrev pub made_names : List Zones → List String
made_names = map (λ z. z.name)

abbrev pub IsBound : List (String × String) → String → Type 0
IsBound m name = lookup name m ≢ none

module _ {W : Type 0} (determine : Option Error → Option Error) (global : KubeClient W)
    (clients : Zonal W) (infra : Infrastructure) (config : InfrastructureConfig)
    (account : ServiceAccount) where
  zone_named :
      (z : Zone)
      → Ensures Anywhere
          (ThenOk (λ made. made.name ≡ z.name))
          (create_zone_subnets determine global clients infra config account z)
  unfolding create_zone_subnets
  zone_named z = search (then-Ensures, named_pure) depth 8
    where
      named_pure :
          (made : Zones)
          → made.name ≡ z.name
          → Ensures {W = W} Anywhere (ThenOk (λ made. made.name ≡ z.name)) (pure made)
      named_pure made e = pure-Ensures made e

  all_named :
      (zs : List Zone)
      → Ensures Anywhere
          (ThenOk (λ made. made_names made ≡ zone_names zs))
          (create_all_zone_subnets determine global clients infra config account zs)
  unfolding create_all_zone_subnets
  all_named [] = pure-Ensures [] refl
  all_named (z ∷ zs) = after-Ensures {R = λ made. made.name ≡ z.name} _ _ (zone_named z) λ made e.
      after-Ensures {R = λ rest. made_names rest ≡ zone_names zs} _ _ (all_named zs)
        λ rest es. pure-Ensures _ (ap₂ e es)
    where
      ap₂ :
          {a b : String} {rest others : List String} → a ≡ b → rest ≡ others → a ∷ rest ≡ b ∷ others
      ap₂ e es = cc

  pub subnets_made :
      (seed : String)
      → Ensures Anywhere
          (ThenOk (λ made. made_names made ≡ zone_names config.networks.zones))
          (create_shoot_vm_subnets determine global clients infra config account seed)
  unfolding create_shoot_vm_subnets
  subnets_made seed = then-Ensures _ _ (λ root. all_named config.networks.zones)

module _ {W : Type 0} (clients : Zonal W) (infra : Infrastructure) (account : ServiceAccount) where
  IsBound-insert :
      (k name cidr : String) (m : List (String × String))
      → IsBound m k
      → IsBound (insert name cidr m) k
  IsBound-insert k name cidr m h e = ground (arith, lookup-insert name k cidr m)

  IsBound-here :
      (name cidr : String) (m : List (String × String)) → IsBound (insert name cidr m) name
  IsBound-here name cidr m e = ground (arith, lookup-insert name name cidr m, eq_refl name)

  -- each zone is bound, and so is what was
  abbrev pub Covers : List Zone → List (String × String) → List (String × String) → Type 0
  Covers zs m made =
      All (λ z. IsBound made z.name) zs × ((k : String) → IsBound m k → IsBound made k)

  zones_covered :
      (zs : List Zone) (m : List (String × String))
      → Ensures Anywhere (ThenOk (Covers zs m)) (create_egress_zones clients infra account zs m)
  unfolding create_egress_zones
  zones_covered [] m = pure-Ensures m (tt, λ k h. h)
  zones_covered (z ∷ zs) m =
      then-Ensures (create_zone_egress clients infra account z.name) _ λ cidr.
        Ensures-weaken {Q = ThenOk (Covers zs (insert z.name cidr m))} (grown cidr)
          (zones_covered zs (insert z.name cidr m))
    where
      grown :
          (cidr : String) (r : Result (List (String × String)))
          → ThenOk (Covers zs (insert z.name cidr m)) r
          → ThenOk (Covers (z ∷ zs) m) r
      grown cidr (ok made) (bound, kept) = (
        (kept z.name (IsBound-here z.name cidr m), bound),
        λ k h. kept k (IsBound-insert k z.name cidr m h),
      )
      grown cidr (err e) h = tt

  pub egress_made :
      (config : InfrastructureConfig)
      → Ensures Anywhere
          (ThenOk (λ made. All (λ z. IsBound made z.name) config.networks.zones))
          (create_egress_on_shoot_vms clients infra account config)
  unfolding create_egress_on_shoot_vms
  egress_made config = Ensures-weaken only (zones_covered config.networks.zones [])
    where
      only :
          (r : Result (List (String × String)))
          → ThenOk (Covers config.networks.zones []) r
          → ThenOk (λ made. All (λ z. IsBound made z.name) config.networks.zones) r
      only (ok made) h = h.0
      only (err e) h = tt

-- an address range for each zone of the status
pub length-cidr_slice :
    (made : List Zones) (zs : List Zone) (m : List (String × String))
    → made_names made ≡ zone_names zs
    → All (λ z. IsBound m z.name) zs
    → length (cidr_slice made m) ≡ length zs
unfolding cidr_slice
length-cidr_slice [] [] m e h = refl
length-cidr_slice [] (z ∷ zs) m e h = absurd (cc (e))
length-cidr_slice (y ∷ ys) [] m e h = absurd (cc (e))
length-cidr_slice (y ∷ ys) (z ∷ zs) m e (x, h) =
    let (name, rest) = parts y.name z.name (made_names ys) (zone_names zs) e in
    counted (lookup y.name m) (subst (λ n. lookup n m ≢ none) (sym name) x) (cidr_slice ys m)
      (length-cidr_slice ys zs m rest h)
  where
    parts :
        (a b : String) (rest others : List String)
        → a ∷ rest ≡ b ∷ others
        → (a ≡ b) × (rest ≡ others)
    parts a b rest others e = (cc, cc)

    counted :
        (o : Option String)
        → o ≢ none
        → (rest : List String) → length rest ≡ length zs
        → length (cons_found o rest) ≡ suc (length zs)
    counted none h rest e = absurd (h refl)
    counted (some cidr) h rest e = ap suc e
