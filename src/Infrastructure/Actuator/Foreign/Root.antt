-- ===== src/Infrastructure/Actuator/Foreign/Root.antt =====
-- reconcileRootSubnet and createShootVMSubnets with a root subnet of another shoot, while other tasks run.
use gardener_extension_provi.Common.{String, ◌≡◌, ap, Option}
use gardener_extension_provi.Failure.{Error, Result, ok, err}
use gardener_extension_provi.Action.{Exec, done, fail, ◌>>=◌, attempt, or_wrap, on_error}
use gardener_extension_provi.Action.Ensures.{
  Ensures, returns, Anything, Ensures-bind, Ensures-call, Ensures-and_then,
}
use gardener_extension_provi.Apis.{InfrastructureConfig}
use gardener_extension_provi.Secret.{ServiceAccount}
use gardener_extension_provi.Kube.{Subnet, do_get}
use gardener_extension_provi.Infrastructure.{
  Infrastructure, KubeClient, Zonal, get_ownership_labels,
}
use gardener_extension_provi.Infrastructure.Root.{
  desired_root_subnet, check_owner, update_root, settle_root, ensure_root, ensure_root_at,
  first_zone, reconcile_root_subnet,
}
use gardener_extension_provi.Infrastructure.Root.Ownership.{IsForeign, check_owner_foreign}
use gardener_extension_provi.Infrastructure.Zonal.{create_shoot_vm_subnets}

abbrev pub IsErr : {A : Type 0} → Result A → Type 0
IsErr (ok a) = ⊥
IsErr (err e) = Unit

on_error-IsErr : {A : Type 0} (f : Error → Error) (r : Result A) → IsErr r → IsErr (on_error f r)
on_error-IsErr f (ok a) h = h
on_error-IsErr f (err e) h = tt

-- what follows a failing part is not reached
pub stops_at :
    {W A B : Type 0} {P : W → Type 0} (m : Exec W A) (f : A → Exec W B)
    → Ensures P IsErr m
    → Ensures P IsErr (m >>= f)
stops_at m f h = Ensures-bind {Q = IsErr} m f h (λ a none_here. absurd none_here) (λ e u. tt)

module _ {W : Type 0} (global : KubeClient W) (infra : Infrastructure) (account : ServiceAccount)
    (cur : Subnet) where
  -- the root subnet at the global API
  abbrev pub HasRoot : W → Type 0
  HasRoot w = global.global_subnets.get account.project infra.name w ≡ ok cur

module _ {W : Type 0} (determine : Option Error → Option Error) (global : KubeClient W)
    (clients : Zonal W) (infra : Infrastructure) (config : InfrastructureConfig)
    (account : ServiceAccount) (cur : Subnet) (foreign : IsForeign infra cur) where
  abbrev RootKept : W → Type 0
  RootKept = HasRoot global infra account cur

  root_get :
      Ensures RootKept
        (λ r. r ≡ ok (ok cur))
        (attempt (do_get global.global_subnets account.project infra.name))
  unfolding attempt do_get
  root_get =
      Ensures-and_then _ _ (Ensures-call {Q = λ r. r ≡ ok cur} _ (λ w p. (p, p)))
        (λ r e. returns (ap ok e))

  root_owner_fails :
      (label : String × String)
      → Ensures RootKept IsErr (check_owner global.global_subnets infra label cur)
  root_owner_fails label =
      rw (check_owner_foreign infra cur global.global_subnets label foreign)
        (unfold fail in returns tt)

  root_settle_fails :
      (desired : Subnet) (label : String × String) (r : Result Subnet)
      → ok r ≡ ok (ok cur)
      → Ensures RootKept IsErr
          (settle_root determine global clients infra config account desired label r)
  unfolding settle_root update_root
  root_settle_fails desired label r e =
      let q : r ≡ ok cur = cc in rw q (stops_at _ _ (root_owner_fails label))

  ensure_root_fails :
      (desired : Subnet) (label : String × String) (r : Result Subnet)
      → ok r ≡ ok (ok cur)
      → Ensures RootKept IsErr
          (ensure_root determine global clients infra config account desired label r)
  unfolding ensure_root
  ensure_root_fails desired label r e =
      stops_at (settle_root determine global clients infra config account desired label r) _
        (root_settle_fails desired label r e)

  root_at_fails :
      (seed zone : String)
      → Ensures RootKept IsErr
          (ensure_root_at determine global clients infra config account seed zone)
  unfolding ensure_root_at
  root_at_fails seed zone =
      let label = get_ownership_labels account.project infra.name seed zone in
      let desired = desired_root_subnet infra config.networks account label in
      Ensures-bind {Q = λ r. r ≡ ok (ok cur)}
        (attempt (do_get global.global_subnets account.project infra.name))
        (ensure_root determine global clients infra config account desired label) root_get
        (ensure_root_fails desired label) (λ e u. tt)

  root_fails :
      (seed : String)
      → Ensures RootKept IsErr
          (reconcile_root_subnet determine global clients infra config account seed)
  unfolding reconcile_root_subnet
  root_fails seed =
      Ensures-bind {Q = Anything} (done (first_zone config.networks.zones))
        (ensure_root_at determine global clients infra config account seed) (returns tt)
        (λ zone u. root_at_fails seed zone) (λ e u. tt)

  pub subnets_fail :
      (seed : String)
      → Ensures RootKept IsErr
          (create_shoot_vm_subnets determine global clients infra config account seed)
  unfolding create_shoot_vm_subnets or_wrap
  subnets_fail seed = stops_at _ _ (
      Ensures-and_then {Q = IsErr}
        (reconcile_root_subnet determine global clients infra config account seed) _
        (root_fails seed) λ r failed. returns (on_error-IsErr _ r failed))
