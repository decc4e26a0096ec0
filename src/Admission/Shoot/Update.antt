-- ===== src/Admission/Shoot/Update.antt =====
-- What the admission of a shoot, new or changed, lets through.
use mathlib.Core.Path.{subst}
use gardener_extension_provi.Common.{
  both_true, String, ◌≡◌, refl, ap, ◌∙◌, Bool, true, false, ◌==◌, opt_eq, Option, none, some, List,
  [], ◌∷◌, if◌then◌else◌, text_of,
}
use gardener_extension_provi.Failure.{ok}
use gardener_extension_provi.Apis.{SubnetReference, InfrastructureConfig}
use gardener_extension_provi.Validation.{FieldPath, ErrorList}
use gardener_extension_provi.Validation.InfrastructureUpdate.{
  validate_networks_update, validate_parent_reference_update, validate_legacy_fields, is_migration,
  validate_infrastructure_config_update,
}
use gardener_extension_provi.Immutability.{target_of, accepted_update_keeps_parent}
use gardener_extension_provi.Admission.{Verdict, granted, aggregate_granted, and_if_inv}
use gardener_extension_provi.Admission.Shoot.{
  Shoot, ShootAdmission, ValidationContext, validate_context, validate_create,
  new_validation_context, reference_eq, config_eq, zones_eq, opt_bool_eq, unless_errors,
  validate_update, validate_against, validate_shoot, infrastructure_config_path,
}
use gardener_extension_provi.Admission.Shoot.Disjoint.{OwnRange, context_apart, context_of_shoot}

-- an equal reference is no change
same_reference_passes :
    (o n : Option SubnetReference) (path : FieldPath)
    → reference_eq o n ≡ true
    → validate_parent_reference_update o n false path ≡ []
unfolding validate_parent_reference_update
same_reference_passes none none path h = refl
same_reference_passes (some a) (some b) path h =
    let (q, t) = both_true _ (a.type == b.type) h in
    let (p, s) = both_true _ (opt_eq a.namespace b.namespace) q in
    rw (p, same_text a.namespace b.namespace s, t) refl
  where
    same_text : (a b : Option String) → opt_eq a b ≡ true → (text_of a == text_of b) ≡ true
    same_text none none h = refl
    same_text (some a) (some b) h = h
    same_text none (some b) h = absurd (cc (h))
    same_text (some a) none h = absurd (cc (h))
same_reference_passes none (some b) path h = absurd (cc (h))
same_reference_passes (some a) none path h = absurd (cc (h))

-- what is not looked at because nothing changed would pass
same_config_passes :
    (old new : InfrastructureConfig) (path : FieldPath)
    → config_eq old new ≡ true
    → validate_infrastructure_config_update (some old) (some new) path ≡ []
unfolding validate_infrastructure_config_update validate_networks_update validate_legacy_fields
    is_migration config_eq
same_config_passes old new path h =
    let (h6, g) = both_true _ (opt_bool_eq old.enable_egress new.enable_egress) h in
    let (h5, f) = both_true _ (zones_eq old.networks.zones new.networks.zones) h6 in
    let (h4, e) =
      both_true _ (reference_eq old.networks.parent_reference new.networks.parent_reference) h5 in
    let (h3, d) =
      both_true _ (old.networks.parent_subnet_project == new.networks.parent_subnet_project) h4 in
    let (h2, c) = both_true _ (old.networks.parent_subnet == new.networks.parent_subnet) h3 in
    let (a, b) = both_true _ (old.networks.node_cidr == new.networks.node_cidr) h2 in
    rw (b, c, d, same_reference_passes _ _ _ e) refl

module _ (env : ShootAdmission) where
  unless_errors_inv :
      (later : Verdict (Unit {0})) (es : ErrorList) (u : Unit {0})
      → unless_errors env later es ≡ granted u
      → (es ≡ []) × (later ≡ granted u)
  unless_errors_inv later [] u h = (refl, h)
  unless_errors_inv later (e ∷ es) u h = absurd (cc (h))

  update_inv :
      (b : Bool) (es : ErrorList) → (b ≡ true → es ≡ []) → (if b then [] else es) ≡ [] → es ≡ []
  update_inv true es f h = f refl
  update_inv false es f h = h

  -- An update of a shoot that is admitted leaves the range of the nodes and the parent subnet as they were, by the
  -- configurations that the old and the new shoot hold; also where the two are equal and the rules for updates are not
  -- looked at.
  pub admitted_update_keeps_parent :
      (old current : Shoot)
      → validate_update env old current ≡ granted tt
      → (before after : InfrastructureConfig) × (was is : String) × (old.infrastructure_config
          ≡ some was)
        × (env.lenient.infrastructure was ≡ ok before)
        × (current.infrastructure_config ≡ some is)
        × (env.strict.infrastructure is ≡ ok after)
        × (after.networks.node_cidr ≡ before.networks.node_cidr)
        × (target_of after.networks after.networks.parent_reference
            ≡ target_of before.networks before.networks.parent_reference)
  unfolding validate_update
  admitted_update_keeps_parent old current h =
      let (before, b, h1) = and_if_inv _ _ tt h in
      let (after, a, h2) = and_if_inv _ _ tt h1 in
      let (es, e, h3) = and_if_inv _ _ tt h2 in
      let (none_found, later) = unless_errors_inv _ es tt h3 in
      let (bs, (was, p, q)) = context_of_shoot env env.lenient old before b in
      let (as', (is, r, s)) = context_of_shoot env env.strict current after a in
      let passes =
        update_inv _ _
          (same_config_passes before.infrastructure_config after.infrastructure_config
            infrastructure_config_path)
          (aggregate_granted _ tt later) in
      let (cidr, target) = accepted_update_keeps_parent _ _ infrastructure_config_path passes in
      (before.infrastructure_config, after.infrastructure_config, was, is, p, q, r, s, cidr, target)

  -- a context in which nothing is found wrong
  abbrev FoundRight : Shoot → Type 0
  FoundRight shoot =
      (c : ValidationContext) × (new_validation_context env env.strict shoot ≡ granted c)
      × (validate_context env c ≡ granted [])

  against_context :
      (shoot : Shoot) (old : Option (Option Shoot))
      → validate_against env shoot old ≡ granted tt
      → FoundRight shoot
  unfolding validate_create validate_update
  against_context shoot none h =
      let (c, e, k) = and_if_inv _ _ tt h in
      let (es, f, g) = and_if_inv _ _ tt k in (c, e, f ∙ ap granted (aggregate_granted es tt g))
  against_context shoot (some none) h = absurd (cc (h))
  against_context shoot (some (some old)) h =
      let (before, b, h1) = and_if_inv _ _ tt h in
      let (c, e, k) = and_if_inv _ _ tt h1 in
      let (es, f, g) = and_if_inv _ _ tt k in (c, e, f ∙ ap granted (unless_errors_inv _ es tt g).0)

  admitted_context :
      (shoot : Shoot) (old : Option (Option Shoot))
      → env.is_workerless shoot ≡ false
      → validate_shoot env (some shoot) old ≡ granted tt
      → FoundRight shoot
  unfolding validate_shoot
  admitted_context shoot old w h =
      against_context shoot old (unless_workerless (env.is_workerless shoot) _ w h)
    where
      unless_workerless :
          (b : Bool) (v : Verdict (Unit {0}))
          → b ≡ false
          → (if b then granted tt else v) ≡ granted tt
          → v ≡ granted tt
      unless_workerless true v e k = absurd (cc (e))
      unless_workerless false v e k = k

  -- A shoot that is admitted, new or changed, has a range for its nodes with no address of the range of any other shoot
  -- with the same cloud profile and another name, where that one's can be read; if the shoot has workers and a networking
  -- section, and the shoots can be listed.
  pub admitted_shoot_shares_no_address :
      (shoot : Shoot) (old : Option (Option Shoot)) (nodes : Option String) (others : List Shoot)
      → env.is_workerless shoot ≡ false
      → shoot.networking ≡ some nodes
      → env.list_shoots ≡ ok others
      → validate_shoot env (some shoot) old ≡ granted tt
      → (config : InfrastructureConfig) × (raw : String) × (shoot.infrastructure_config ≡ some raw)
        × (env.strict.infrastructure raw ≡ ok config)
        × OwnRange env shoot config others
  admitted_shoot_shares_no_address shoot old nodes others w n l h =
      let (c, e, v) = admitted_context shoot old w h in
      let (same, (raw, r, s)) = context_of_shoot env env.strict shoot c e in
      (
        c.infrastructure_config,
        raw,
        r,
        s,
        subst (λ s. OwnRange env s c.infrastructure_config others) same
            (context_apart env c nodes others l (ap (λ s. s.networking) same ∙ n) v),
      )
