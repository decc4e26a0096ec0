-- ===== src/Infrastructure/Deletion.antt =====
-- actuator.go: deleteSubnet, deleteZonalSubnet, deleteAllSubnets.
pub mod Gone
use gardener_extension_provi.Common.{
  quoted, String, concat, Option, none, some, List, [], ◌∷◌, if◌then◌else◌,
}
use gardener_extension_provi.Failure.{Error, flat, Result, ok, err, is_not_found}
use gardener_extension_provi.Action.{Action, done, Exec, and_then, pure, ◌>>=◌, ◌>>◌}
use gardener_extension_provi.Apis.{Zone}
use gardener_extension_provi.Kube.{Subnet, ObjectClient, do_delete}
use gardener_extension_provi.Infrastructure.{
  KubeClient, Zonal, zonal_client, zone_subnet_name, zone_network_subnet_name,
}

-- `return errors.DetermineError(err)` under `if err != nil`: what DetermineError gives may be nil
abbrev pub determined : (Option Error → Option Error) → Result (Unit {0}) → Result (Unit {0})
determined determine (ok u) = ok u
determined determine (err e) = elim (determine (some e)) [ none ↦ ok tt | some e' ↦ err e' ]

-- the answer to a Delete: an object that is not there counts as deleted
abbrev pub deleted : String → Result (Unit {0}) → Result (Unit {0})
deleted text (ok u) = ok u
deleted text (err e) = if is_not_found e then ok tt else err (flat text e)

module _ {W : Type 0} where
  unfoldable pub delete_subnet : ObjectClient W Subnet → String → String → Exec W (Unit {0})
  unfolding and_then do_delete
  delete_subnet c namespace name =
      and_then (do_delete c namespace name) (λ r.
        done (deleted (concat ("failed to delete global subnet " ∷ quoted name ∷ ": " ∷ [])) r))

  unfoldable pub delete_zonal_subnet : ObjectClient W Subnet → String → String → Exec W (Unit {0})
  unfolding and_then do_delete
  delete_zonal_subnet c namespace name =
      and_then (do_delete c namespace name) (λ r.
        done (deleted (concat ("failed to delete zonal subnet " ∷ quoted name ∷ ": " ∷ [])) r))

-- `determine` is errors.DetermineError
module _ {W : Type 0} (determine : Option Error → Option Error) where
  -- `if err := m; err != nil { return errors.DetermineError(err) }`
  unfoldable pub or_determined : Exec W (Unit {0}) → Exec W (Unit {0}) → Exec W (Unit {0})
  unfolding and_then
  or_determined m rest =
      and_then m (λ r. elim r [ ok u ↦ rest | err e ↦ done (determined determine (err e)) ])

  module _ (global : KubeClient W) (clients : Zonal W) (project infra : String) where
    -- the calls for one zone, and what follows them
    unfoldable pub delete_with_client :
        String → Exec W (Unit {0}) → KubeClient W → Exec W (Unit {0})
    unfolding or_determined delete_zonal_subnet delete_subnet
    delete_with_client zone rest c =
        or_determined (delete_zonal_subnet c.subnets project (zone_network_subnet_name infra zone))
          (or_determined (delete_zonal_subnet c.subnets project (zone_subnet_name infra zone)) (
            or_determined
              (delete_subnet global.global_subnets project (zone_subnet_name infra zone)) rest))

    unfoldable pub delete_zone_subnets : String → Exec W (Unit {0}) → Exec W (Unit {0})
    unfolding ◌>>=◌ zonal_client delete_with_client
    delete_zone_subnets zone rest = zonal_client zone clients >>= delete_with_client zone rest

    unfoldable pub delete_all_subnets : List Zone → Exec W (Unit {0})
    unfolding delete_zone_subnets or_determined delete_subnet pure
    delete_all_subnets [] =
        or_determined (delete_subnet global.global_subnets project infra) (pure tt)
    delete_all_subnets (zone ∷ zones) = delete_zone_subnets zone.name (delete_all_subnets zones)
