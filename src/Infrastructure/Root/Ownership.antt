-- ===== src/Infrastructure/Root/Ownership.antt =====
-- Whose the root subnet is: the label "infra-uid" and the shoot's own status decide.
use gardener_extension_provi.Common.{
  String, ◌≡◌, ◌≢◌, refl, ap, ◌∙◌, false, ◌==◌, eq_iff, Option, none, some, List, ◌∷◌, ◌⊎◌, inl,
  inr, lookup, arith,
}
use gardener_extension_provi.Failure.{Error, ok, err, requeue_delay}
use gardener_extension_provi.Action.{run, fail}
use gardener_extension_provi.Action.Laws.{run-bind_ok, run-bind_err, run-done}
use gardener_extension_provi.Apis.{Zone, InfrastructureConfig}
use gardener_extension_provi.Secret.{ServiceAccount}
use gardener_extension_provi.Kube.{Subnet, ObjectClient, run-attempt_get}
use gardener_extension_provi.Infrastructure.{
  Infrastructure, KubeClient, Zonal, get_ownership_labels, get_existing_owner_label,
}
use gardener_extension_provi.Infrastructure.Ready.{wait_for_global_subnet_ready}
use gardener_extension_provi.Infrastructure.Root.{
  occupied, legacy_name, desired_root_subnet, check_owner, update_root, settle_root, ensure_root,
  ensure_root_at, first_zone, reconcile_root_subnet,
}

-- A root subnet of another shoot: it carries another UID, or none while this shoot has no status yet.
abbrev pub IsForeign : Infrastructure → Subnet → Type 0
IsForeign infra cur =
    ((uid : String) × (lookup "infra-uid" cur.labels ≡ some uid) × (uid ≢ infra.uid))
    ⊎ ((lookup "infra-uid" cur.labels ≡ none) × (infra.provider_status ≡ none))

-- an error that the controller does not put off
abbrev pub IsTerminal : Error → Type 0
IsTerminal e = requeue_delay e ≡ none

test_false : (a b : String) → a ≢ b → (a == b) ≡ false
test_false a b h = ground (arith, eq_iff a b)

-- the error that a foreign subnet gives
abbrev pub foreign_error : (infra : Infrastructure) (cur : Subnet) → IsForeign infra cur → Error
foreign_error infra cur (inl h) = occupied (get_existing_owner_label cur.labels)
foreign_error infra cur (inr h) = legacy_name cur.name

foreign_error-IsTerminal :
    (infra : Infrastructure) (cur : Subnet) (f : IsForeign infra cur)
    → IsTerminal (foreign_error infra cur f)
unfolding requeue_delay
foreign_error-IsTerminal infra cur (inl h) = refl
foreign_error-IsTerminal infra cur (inr h) = refl

-- the check is decided without a call
pub check_owner_foreign :
    {W : Type 0} (infra : Infrastructure) (cur : Subnet) (c : ObjectClient W Subnet)
    (label : String × String) (f : IsForeign infra cur)
    → check_owner c infra label cur ≡ fail (foreign_error infra cur f)
unfolding check_owner
check_owner_foreign infra cur c label (inl (uid, found, other)) =
    rw (found, check_owner) (rw (test_false uid infra.uid other))
check_owner_foreign infra cur c label (inr (missing, fresh)) = rw (missing, check_owner) (rw fresh)

module _ {W : Type 0} (determine : Option Error → Option Error) (global : KubeClient W)
    (clients : Zonal W) (infra : Infrastructure) (config : InfrastructureConfig)
    (account : ServiceAccount) (cur : Subnet) (seed : String) (w : W) where
  -- A root subnet that belongs to another shoot ends the reconciliation of the root subnet with an error that is not
  -- retried on a timer, and nothing at all is written.
  pub foreign_root_untouched :
      (z : Zone) (zs : List Zone)
      → config.networks.zones ≡ z ∷ zs
      → global.global_subnets.get account.project infra.name w ≡ ok cur
      → IsForeign infra cur
      → (e : Error) × (run
            (reconcile_root_subnet determine global clients infra config account seed)
            w
          ≡ (err e, w))
        × IsTerminal e
  unfolding reconcile_root_subnet ensure_root_at ensure_root settle_root update_root
  foreign_root_untouched z zs zones found f =
      let own = get_ownership_labels account.project infra.name seed z.name in
      let desired = desired_root_subnet infra config.networks account own in
      (
        foreign_error infra cur f,
        run-bind_ok _ (ensure_root_at determine global clients infra config account seed) w z.name w
              (run-done (first_zone config.networks.zones) w ∙ ap (λ l. (first_zone l, w)) zones)
            ∙ run-bind_ok _ (ensure_root determine global clients infra config account desired own)
                w (ok cur) w
                (run-attempt_get global.global_subnets account.project infra.name w
                  ∙ ap (λ r. (ok r, w)) found)
            ∙ run-bind_err _
                (λ u. wait_for_global_subnet_ready infra.name account.project global.global_subnets)
                w (foreign_error infra cur f) w
                (run-bind_err _ _ w (foreign_error infra cur f) w (
                  ap (λ m. run m w) (check_owner_foreign infra cur global.global_subnets own f)
                  ∙ (unfold run fail in refl))),
        foreign_error-IsTerminal infra cur f,
      )
