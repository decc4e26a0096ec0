-- ===== src/Validation/InfrastructureConfig/Zones.antt =====
-- What the loop over the zones accepts.
use gardener_extension_provi.Common.{
  ℕ, ◌+◌, String, ◌≡◌, ◌≢◌, refl, ◌↔◌, Bool, true, false, eq_iff, List, [], ◌∷◌, ◌++◌, All, allowed,
  arith,
}
use gardener_extension_provi.Apis.{Zone}
use gardener_extension_provi.Validation.{FieldPath, invalid, ErrorList, fails_if, CidrChecks}
use gardener_extension_provi.Validation.Accepted.{append_nil_iff, fails_if_iff, is_empty_iff}
use gardener_extension_provi.Validation.InfrastructureConfig.{
  zone_path, zone_name_errors, is_overlapping, zone_range_errors, keep_range, zone_cidr_step,
  zone_errors,
}

-- the zone's name is one of those that the cloud profile allows
abbrev pub IsSupported : List (String × Bool) → Zone → Type 0
IsSupported zones z = (z.name ≢ "") × (allowed z.name zones ≡ true)

module _ (checks : CidrChecks) where
  -- the range overlaps none of the others
  abbrev pub IsFree : String → List String → Type 0
  IsFree cidr others = All (λ d. checks.not_overlap cidr d ≡ []) others

  -- no zone's range overlaps that of an earlier zone
  abbrev pub Disjoint : List Zone → Type 0
  Disjoint [] = Unit
  Disjoint (z ∷ zs) = All (λ y. checks.not_overlap y.cidr z.cidr ≡ []) zs × Disjoint zs

  is_overlapping_iff :
      (cidr : String) (ds : List String)
      → ((is_overlapping checks cidr ds ≡ false) ↔ IsFree cidr ds)
  unfolding is_overlapping
  is_overlapping_iff cidr [] = (λ h. tt, λ h. refl)
  is_overlapping_iff cidr (d ∷ ds) =
      ground (arith, is_empty_iff (checks.not_overlap cidr d), is_overlapping_iff cidr ds)

  module _ (path : FieldPath) (node_cidr : String) (i : ℕ) where
    -- the range is a canonical CIDR inside the node range
    abbrev pub IsZoneRange : Zone → Type 0
    IsZoneRange z =
        (z.cidr ≢ "")
        × (checks.parse z.cidr (zone_path path i "CIDR") ≡ [])
        × (checks.is_canonical (zone_path path i "CIDR") z.cidr ≡ [])
        × (checks.subset node_cidr z.cidr (zone_path path i "CIDR") ≡ [])

    range_errors_iff :
        (z : Zone) (seen : List String)
        → (zone_range_errors checks path node_cidr i z seen ≡ []) ↔ (
            (checks.is_canonical (zone_path path i "CIDR") z.cidr ≡ [])
            × IsFree z.cidr seen
            × (checks.subset node_cidr z.cidr (zone_path path i "CIDR") ≡ []))
    unfolding zone_range_errors
    range_errors_iff z seen =
        let p = zone_path path i "CIDR" in
        let overlap =
          fails_if (is_overlapping checks z.cidr seen)
            (invalid p z.cidr "zone CIDR must not overlap with other zone CIDRs") in
        ground (
          arith,
          append_nil_iff (checks.is_canonical p z.cidr)
              (overlap ++ checks.subset node_cidr z.cidr p),
          append_nil_iff overlap (checks.subset node_cidr z.cidr p),
          fails_if_iff (is_overlapping checks z.cidr seen)
              (invalid p z.cidr "zone CIDR must not overlap with other zone CIDRs"),
          is_overlapping_iff z.cidr seen,
        )

    step_iff :
        (z : Zone) (seen : List String)
        → ((zone_cidr_step checks path node_cidr i z seen).0 ≡ [])
          ↔ (IsZoneRange z × IsFree z.cidr seen)
    unfolding zone_cidr_step
    step_iff z seen = ground (
      arith,
      eq_iff z.cidr "",
      is_empty_iff (checks.parse z.cidr (zone_path path i "CIDR")),
      range_errors_iff z seen,
    )

    -- a range that passes is remembered
    step_keeps :
        (z : Zone) (seen : List String)
        → (zone_cidr_step checks path node_cidr i z seen).0 ≡ []
        → (zone_cidr_step checks path node_cidr i z seen).1 ≡ seen ++ z.cidr ∷ []
    unfolding zone_cidr_step keep_range
    step_keeps z seen h = ground (
      arith,
      eq_iff z.cidr "",
      is_empty_iff (checks.parse z.cidr (zone_path path i "CIDR")),
      range_errors_iff z seen,
      is_overlapping_iff z.cidr seen,
    )

  IsFree-snoc :
      (c d : String) (seen : List String)
      → IsFree c (seen ++ d ∷ []) ↔ (IsFree c seen × (checks.not_overlap c d ≡ []))
  IsFree-snoc c d [] = ground arith
  IsFree-snoc c d (e ∷ seen) = ground (arith, IsFree-snoc c d seen)

  All-IsFree-snoc :
      (d : String) (seen : List String) (zs : List Zone)
      → All (λ y. IsFree y.cidr (seen ++ d ∷ [])) zs
        ↔ (All (λ y. IsFree y.cidr seen) zs × All (λ y. checks.not_overlap y.cidr d ≡ []) zs)
  All-IsFree-snoc d seen [] = ground arith
  All-IsFree-snoc d seen (z ∷ zs) =
      ground (arith, IsFree-snoc z.cidr d seen, All-IsFree-snoc d seen zs)

  remembered_iff :
      (d : String) (seen kept : List String) (zs : List Zone)
      → kept ≡ seen ++ d ∷ []
      → All (λ y. IsFree y.cidr kept) zs
        ↔ (All (λ y. IsFree y.cidr seen) zs × All (λ y. checks.not_overlap y.cidr d ≡ []) zs)
  remembered_iff d seen kept zs e = rw e (All-IsFree-snoc d seen zs)

  pub All-IsFree-nil : (zs : List Zone) → All (λ y. IsFree y.cidr []) zs
  All-IsFree-nil [] = tt
  All-IsFree-nil (z ∷ zs) = (tt, All-IsFree-nil zs)

  module _ (zones : List (String × Bool)) (path : FieldPath) (node_cidr : String) where
    name_errors_iff :
        (valid : List String) (i : ℕ) (z : Zone)
        → (zone_name_errors zones valid path i z ≡ []) ↔ IsSupported zones z
    unfolding zone_name_errors
    name_errors_iff valid i z = ground (arith, eq_iff z.name "")

    abbrev pub ZonesFit : ℕ → List Zone → Type 0
    ZonesFit i [] = Unit
    ZonesFit i (z ∷ zs) = IsSupported zones z × IsZoneRange path node_cidr i z × ZonesFit (i + 1) zs

    pub zone_errors_iff :
        (valid : List String) (i : ℕ) (zs : List Zone) (seen : List String)
        → (zone_errors checks zones valid path node_cidr i zs seen ≡ [])
          ↔ (ZonesFit i zs × All (λ y. IsFree y.cidr seen) zs × Disjoint zs)
    unfolding zone_errors
    zone_errors_iff valid i [] seen = (λ h. (tt, tt, tt), λ h. refl)
    zone_errors_iff valid i (z ∷ zs) seen = (
      λ h.
          let (named, bc) = (append_nil_iff names (step.0 ++ rest)).0 h in
          let (b, c) = (append_nil_iff step.0 rest).0 bc in
          let (fit, free, apart) = (zone_errors_iff valid (i + 1) zs step.1).0 c in
          let (range, own) = (step_iff path node_cidr i z seen).0 b in
          let (before, now) =
            (remembered_iff z.cidr seen step.1 zs (step_keeps path node_cidr i z seen b)).0 free in
          (((name_errors_iff valid i z).0 named, range, fit), (own, before), (now, apart)),
      λ ((named, range, fit), (own, before), (now, apart)).
          let b = (step_iff path node_cidr i z seen).1 (range, own) in
          let free =
            (remembered_iff z.cidr seen step.1 zs (step_keeps path node_cidr i z seen b)).1
              (before, now) in
          (append_nil_iff names (step.0 ++ rest)).1 (
            (name_errors_iff valid i z).1 named,
            (append_nil_iff step.0 rest).1
                (b, (zone_errors_iff valid (i + 1) zs step.1).1 (fit, free, apart)),
          ),
    )
      where
        names : ErrorList
        names = zone_name_errors zones valid path i z

        step : ErrorList × List String
        step = zone_cidr_step checks path node_cidr i z seen

        rest : ErrorList
        rest = zone_errors checks zones valid path node_cidr (i + 1) zs step.1
