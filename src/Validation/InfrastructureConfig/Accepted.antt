-- ===== src/Validation/InfrastructureConfig/Accepted.antt =====
-- What ValidateInfrastructureConfig accepts.
use gardener_extension_provi.Validation.InfrastructureConfig.Zones.{
  Disjoint, ZonesFit, zone_errors_iff, All-IsFree-nil,
}
use gardener_extension_provi.Common.{
  String, ◌≡◌, ◌≢◌, refl, ◌↔◌, ◌⊎◌, Bool, false, ◌&&◌, ◌==◌, eq_iff, Option, none, some, List, [],
  ◌∷◌, ◌++◌, is_empty, arith, if◌then◌else◌,
}
use gardener_extension_provi.Apis.{SubnetReference, Zone, NetworkConfig}
use gardener_extension_provi.Validation.{
  FieldPath, FieldError, child_of, required, invalid, fails_if, CidrChecks,
}
use gardener_extension_provi.Validation.Accepted.{
  append_nil_iff, fails_if_iff, is_empty_iff, iff_trans, iff_pair,
}
use gardener_extension_provi.Validation.InfrastructureConfig.{
  zone_errors, names_nothing, cluster_subset, sorted_names, validate,
  validate_infrastructure_config,
}

-- the configuration names a parent, in its old field or by a reference
abbrev pub HasParent : String → Option SubnetReference → Type 0
HasParent parent none = parent ≢ ""
HasParent parent (some r) = (parent ≢ "") ⊎ (r.name ≢ "")

no_parent_iff :
    (parent : String) (o : Option SubnetReference)
    → ((parent == "" && names_nothing o) ≡ false) ↔ HasParent parent o
no_parent_iff parent none = ground (arith, eq_iff parent "")
no_parent_iff parent (some r) = ground (arith, eq_iff parent "", eq_iff r.name "")

module _ (checks : CidrChecks) where
  module _ (n : NetworkConfig) (zones : List (String × Bool)) (nodes : Option String)
      (path : FieldPath) where
    -- the node range is a canonical CIDR, inside the shoot's node range where it has one
    abbrev pub IsNodeRange : FieldPath → Type 0
    IsNodeRange p =
        (n.node_cidr ≢ "")
        × (checks.parse n.node_cidr p ≡ [])
        × (checks.is_canonical p n.node_cidr ≡ [])
        × ((range : String) → nodes ≡ some range → checks.subset range n.node_cidr p ≡ [])

    cluster_subset_iff :
        (o : Option String) (p : FieldPath)
        → (cluster_subset checks o n.node_cidr p ≡ [])
          ↔ ((range : String) → o ≡ some range → checks.subset range n.node_cidr p ≡ [])
    cluster_subset_iff none p = (λ h range e. cc, λ h. refl)
    cluster_subset_iff (some r) p = (λ h range e. given range e h, λ h. h r refl)
      where
        given :
            (range : String)
            → some r ≡ some range
            → checks.subset r n.node_cidr p ≡ []
            → checks.subset range n.node_cidr p ≡ []
        given range e h = let q : r ≡ range = cc in rw (← q) h

    zones_part_iff :
        (p : FieldPath) (e : FieldError) (valid : List String) (zs : List Zone)
        → ((if is_empty zs then e ∷ [] else zone_errors checks zones valid p n.node_cidr 0 zs [])
            ≡ [])
          ↔ ((zs ≢ []) × ZonesFit checks zones p n.node_cidr 0 zs × Disjoint checks zs)
    zones_part_iff p e valid [] = (λ h. absurd (cc (h)), λ (h, fit, apart). absurd (h refl))
    zones_part_iff p e valid (z ∷ zs) = (
      λ h.
          let (fit, free, apart) =
            (zone_errors_iff checks zones p n.node_cidr valid 0 (z ∷ zs) []).0 h in
          ((λ e. cc), fit, apart),
      λ (h, fit, apart).
          (zone_errors_iff checks zones p n.node_cidr valid 0 (z ∷ zs) []).1
            (fit, All-IsFree-nil checks (z ∷ zs), apart),
    )

    validate_iff :
        (p : FieldPath)
        → (validate checks n zones p ≡ []) ↔ (
            HasParent n.parent_subnet n.parent_reference
            × ((n.zones ≢ [])
                × ZonesFit checks zones p n.node_cidr 0 n.zones
                × Disjoint checks n.zones))
    unfolding validate
    validate_iff p =
        let no_parent = n.parent_subnet == "" && names_nothing n.parent_reference in
        let parent_error =
          invalid (child_of p "parentReference") ""
            "either parentSubnet or parentReference must be specified" in
        let no_zones = required (child_of p "zones") "must specify the zones" in
        let valid = sorted_names zones in
        iff_pair
          (append_nil_iff (fails_if no_parent parent_error) (
            if is_empty n.zones
            then no_zones ∷ []
            else zone_errors checks zones valid p n.node_cidr 0 n.zones []))
          (iff_trans (fails_if_iff no_parent parent_error)
            (no_parent_iff n.parent_subnet n.parent_reference))
          (zones_part_iff p no_zones valid n.zones)

    -- ValidateInfrastructureConfig reports no error exactly where the node range is a canonical CIDR inside the shoot's
    -- node range, a parent subnet is named, and there are zones: each with a name that the cloud profile allows and a
    -- canonical range inside the node range, and no two with ranges that overlap.
    pub validate_infrastructure_config_iff :
        (validate_infrastructure_config checks n zones nodes path ≡ []) ↔ (
          IsNodeRange (child_of (child_of path "networks") "nodecidr")
          × HasParent n.parent_subnet n.parent_reference
          × (n.zones ≢ [])
          × ZonesFit checks zones (child_of path "networks") n.node_cidr 0 n.zones
          × Disjoint checks n.zones)
    unfolding validate_infrastructure_config
    validate_infrastructure_config_iff =
        let networks = child_of path "networks" in
        let p = child_of networks "nodecidr" in
        ground (
          arith,
          eq_iff n.node_cidr "",
          is_empty_iff (checks.parse n.node_cidr p),
          append_nil_iff (checks.is_canonical p n.node_cidr)
              (cluster_subset checks nodes n.node_cidr p ++ validate checks n zones networks),
          append_nil_iff (cluster_subset checks nodes n.node_cidr p)
              (validate checks n zones networks),
          cluster_subset_iff nodes p,
          validate_iff networks,
        )
