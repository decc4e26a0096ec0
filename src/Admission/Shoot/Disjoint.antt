-- ===== src/Admission/Shoot/Disjoint.antt =====
-- What an admitted shoot has of its configuration, and that its nodes' range is its own.
use gardener_extension_provi.Common.{
  ℕ, String, ◌≡◌, refl, sym, ap, ◌∙◌, Bool, true, false, ◌==◌, eq_refl, Option, none, some, List,
  [], ◌∷◌, append_eq_nil, All, if◌then◌else◌,
}
use mathlib.Core.Bool.{false≢true}
use gardener_extension_provi.Failure.{Result, ok, err}
use gardener_extension_provi.Apis.{InfrastructureConfig}
use gardener_extension_provi.Validation.{FieldError}
use gardener_extension_provi.Admission.{
  Verdict, granted, refused, and_if, and_if_inv, granted_inj, Decoders,
}
use gardener_extension_provi.Admission.Ranges.{IpNet, cidr_overlap, In, cidr_overlap_iff}
use gardener_extension_provi.Admission.Shoot.{
  Shoot, ShootAdmission, ValidationContext, Step, and_errors, overlap_with, same_profile, or_go_on,
  overlaps, validate_node_cidr_not_overlap, networking_errors, config_errors, validate_context,
  new_validation_context, with_range, with_shoots, failed_with, infrastructure_text,
}

-- a step of no errors is made of steps of no errors
and_errors_inv : (a b : Step) → and_errors a b ≡ granted [] → (a ≡ granted []) × (b ≡ granted [])
unfolding and_if
and_errors_inv (granted es) (granted fs) h =
    let (p, q) = append_eq_nil es fs (granted_inj h) in (ap granted p, ap granted q)
and_errors_inv (granted es) (refused r) h = absurd (cc (h))
and_errors_inv (refused r) b h = absurd (cc (h))

module _ (env : ShootAdmission) where
  -- the ranges of two shoots have no address in common
  abbrev pub Apart : IpNet → IpNet → Type 0
  Apart net other = (ip : ℕ) → In other.bits ip other → In other.bits ip net → ⊥

  -- the range of another shoot of the same profile and another name, where it can be read, has no address of this one's
  abbrev pub ApartFrom : Shoot → IpNet → Shoot → Type 0
  ApartFrom shoot net other =
      (profile raw : String) (config : InfrastructureConfig) (range : IpNet)
      → (shoot.name == other.name) ≡ false
      → shoot.profile_name ≡ some profile
      → other.profile_name ≡ some profile
      → other.infrastructure_config ≡ some raw
      → env.strict.infrastructure raw ≡ ok config
      → env.parse_cidr config.networks.node_cidr ≡ ok range
      → Apart net range

  go_on_inv :
      (o : Option FieldError) (later : Step)
      → or_go_on env o later ≡ granted []
      → (o ≡ none) × (later ≡ granted [])
  go_on_inv none later h = (refl, h)
  go_on_inv (some e) later h = absurd (cc (h))

  no_overlap_inv : (b : Bool) (e : FieldError) → (if b then some e else none) ≡ none → b ≡ false
  no_overlap_inv true e h = absurd (cc (h))
  no_overlap_inv false e h = refl

  step_inv :
      (b : Bool) (v : Verdict Bool) (o : Option FieldError) (later : Step)
      → (if b then later else and_if v (λ same. if same then or_go_on env o later else later))
        ≡ granted []
      → (later ≡ granted []) × (b ≡ false → v ≡ granted true → o ≡ none)
  unfolding and_if
  step_inv true v o later h = (h, λ e k. absurd (false≢true (sym e)))
  step_inv false (granted true) o later h = let (p, q) = go_on_inv o later h in (q, λ e k. p)
  step_inv false (granted false) o later h = (h, λ e k. absurd (cc (k)))
  step_inv false (refused r) o later h = absurd (cc (h))

  one_profile :
      (p q : Option String) (name : String)
      → p ≡ some name
      → q ≡ some name
      → same_profile env p q ≡ granted true
  one_profile p q name h k = rw (h, k, eq_refl name) refl

  overlap_none :
      (net range : IpNet) (other : Shoot) (raw : String) (config : InfrastructureConfig)
      → other.infrastructure_config ≡ some raw
      → env.strict.infrastructure raw ≡ ok config
      → env.parse_cidr config.networks.node_cidr ≡ ok range
      → overlap_with env (some net) other ≡ none
      → cidr_overlap (some range) (some net) ≡ false
  overlap_none net range other raw config i d p h = no_overlap_inv _ _ (rw (i, d, p) at h)

  apart : (net range : IpNet) → cidr_overlap (some range) (some net) ≡ false → Apart net range
  apart net range h ip k l = false≢true (sym h ∙ (cidr_overlap_iff range net).1 (ip, k, l))

  overlaps_apart :
      (shoot : Shoot) (net : IpNet) (others : List Shoot)
      → overlaps env shoot (some net) others ≡ granted []
      → All (ApartFrom shoot net) others
  unfolding overlaps
  overlaps_apart shoot net [] h = tt
  overlaps_apart shoot net (other ∷ others) h =
      let (later, found) =
        step_inv (shoot.name == other.name) (same_profile env shoot.profile_name other.profile_name)
          (overlap_with env (some net) other) (overlaps env shoot (some net) others) h in
      (
        λ profile raw config range differ p q i d r. apart net range (
            overlap_none net range other raw config i d r
              (found differ (one_profile _ _ profile p q))),
        overlaps_apart shoot net others later,
      )

  with_range_inv :
      (shoot : Shoot) (others : List Shoot) (r : Result IpNet)
      → with_range env shoot others r ≡ granted []
      → (net : IpNet) × (r ≡ ok net) × All (ApartFrom shoot net) others
  with_range_inv shoot others (ok net) h = (net, refl, overlaps_apart shoot net others h)
  with_range_inv shoot others (err e) h = absurd (cc (h))

  -- the range of a configuration is apart from those of the other shoots
  abbrev pub OwnRange : Shoot → InfrastructureConfig → List Shoot → Type 0
  OwnRange shoot config others =
      (net : IpNet) × (env.parse_cidr config.networks.node_cidr ≡ ok net)
      × All (ApartFrom shoot net) others

  networking_apart :
      (c : ValidationContext) (nodes : Option String) (others : List Shoot)
      → env.list_shoots ≡ ok others
      → networking_errors env c (some nodes) ≡ granted []
      → OwnRange c.shoot c.infrastructure_config others
  unfolding validate_node_cidr_not_overlap
  networking_apart c nodes others l h =
      let (p, q) = and_errors_inv (granted (config_errors env c nodes)) _ h in
      with_range_inv c.shoot others _
        (sym (ap (with_shoots env c.infrastructure_config c.shoot) l) ∙ q)

  pub context_apart :
      (c : ValidationContext) (nodes : Option String) (others : List Shoot)
      → env.list_shoots ≡ ok others
      → c.shoot.networking ≡ some nodes
      → validate_context env c ≡ granted []
      → OwnRange c.shoot c.infrastructure_config others
  unfolding validate_context
  context_apart c nodes others l n h =
      let (p, q) = and_errors_inv _ _ h in
      networking_apart c nodes others l (sym (ap (networking_errors env c) n) ∙ p)

  failed_with_inv :
      {A : Type 0} (text : String) (r : Result A) (a : A)
      → failed_with env text r ≡ granted a
      → r ≡ ok a
  failed_with_inv text (ok b) a h = cc
  failed_with_inv text (err e) a h = absurd (cc (h))

  infrastructure_text_inv :
      (o : Option String) (raw : String) → infrastructure_text env o ≡ granted raw → o ≡ some raw
  infrastructure_text_inv none raw h = absurd (cc (h))
  infrastructure_text_inv (some r) raw h = cc

  -- the context is that of the shoot, with the configuration that it gives
  pub context_of_shoot :
      (d : Decoders) (shoot : Shoot) (c : ValidationContext)
      → new_validation_context env d shoot ≡ granted c
      → (c.shoot ≡ shoot)
        × ((raw : String) × (shoot.infrastructure_config ≡ some raw)
            × (d.infrastructure raw ≡ ok c.infrastructure_config))
  unfolding new_validation_context
  context_of_shoot d shoot c h =
      let (raw, r, h1) = and_if_inv _ _ c h in
      let (config, k, h2) = and_if_inv _ _ c h1 in
      let (converted, v, h3) = and_if_inv _ _ c h2 in
      let (answer, a, h4) = and_if_inv _ _ c h3 in
      let (profile, p, h5) = and_if_inv _ _ c h4 in
      let (text, t, h6) = and_if_inv _ _ c h5 in
      let (profile_config, q, h7) = and_if_inv _ _ c h6 in
      (
        ap (λ x. x.shoot) (sym (granted_inj h7)),
        (
          raw,
          infrastructure_text_inv _ raw r,
          failed_with_inv _ _ config k ∙ ap (λ x. ok x.infrastructure_config) (granted_inj h7),
        ),
      )
