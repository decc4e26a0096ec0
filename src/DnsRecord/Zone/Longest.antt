-- ===== src/DnsRecord/Zone/Longest.antt =====
-- findZoneWithLongestSuffix finds a zone of the longest domain that the name lies in.
use Prim.Native.String.{len}
use mathlib.Core.Path.{subst}
use gardener_extension_provi.Common.{
  ℕ, ◌≤◌, ◌<◌, String, ◌≡◌, refl, sym, ap, ◌∙◌, Bool, true, false, ◌&&◌, ltb, List, [], ◌∷◌, All,
  Any, ◌⊎◌, inl, inr, arith, Bool-cases, if◌then◌else◌,
}
use gardener_extension_provi.DnsRecord.Zone.{
  matches_domain, longest_suffix, find_zone_with_longest_suffix,
}

module _ (name : String) where
  -- the name lies in none of the domains that are not empty
  abbrev pub NoneMatches : List (String × String) → Type 0
  NoneMatches = All (λ z. matches_domain name z.1 ≡ true → len z.1 ≡ 0)

  -- no domain that the name lies in is longer
  abbrev pub IsLongest : ℕ → List (String × String) → Type 0
  IsLongest n = All (λ z. matches_domain name z.1 ≡ true → len z.1 ≤ n)

  -- an entry of the list that the name lies in
  abbrev pub IsMatch : String × String → List (String × String) → Type 0
  IsMatch r zones = (matches_domain name r.1 ≡ true) × Any (λ z. r ≡ z) zones

  -- what `r` is after the loop that began with `best`
  abbrev Holds : String × String → String × String → List (String × String) → Type 0
  Holds r best zones =
      (len best.1 ≤ len r.1)
      × IsLongest (len r.1) zones
      × ((r ≡ best) ⊎ (IsMatch r zones × (len best.1 < len r.1)))

  takes :
      (r z best : String × String) (zones : List (String × String))
      → matches_domain name z.1 ≡ true
      → len best.1 < len z.1
      → Holds r z zones
      → Holds r best (z ∷ zones)
  takes r z best zones m lt (le, longest, which) = (
    omega arith,
    ((λ e. le), longest),
    inr (elim which [
      | inl same ↦ ((ap (λ r. matches_domain name r.1) same ∙ m, inl same), omega arith)
      | inr ((found, somewhere), further) ↦ ((found, inr somewhere), omega arith)
    ]),
  )

  passes :
      (r z best : String × String) (zones : List (String × String))
      → (matches_domain name z.1 && ltb (len best.1) (len z.1)) ≡ false
      → Holds r best zones
      → Holds r best (z ∷ zones)
  passes r z best zones t (le, longest, which) = (
    le,
    ((λ m. short m), longest),
    elim which [
      | inl same ↦ inl same
      | inr ((found, somewhere), further) ↦ inr ((found, inr somewhere), further)
    ],
  )
    where
      short : matches_domain name z.1 ≡ true → len z.1 ≤ len r.1
      short m = ground arith

  longest_suffix_step :
      (z best : String × String) (zones : List (String × String)) (b : Bool)
      → (matches_domain name z.1 && ltb (len best.1) (len z.1)) ≡ b
      → longest_suffix name (z ∷ zones) best ≡ longest_suffix name zones (if b then z else best)
  unfolding longest_suffix
  longest_suffix_step z best zones b e =
      ap (λ b. longest_suffix name zones (if b then z else best)) e

  longest_suffix_end : (best : String × String) → longest_suffix name [] best ≡ best
  unfolding longest_suffix
  longest_suffix_end best = refl

  longest_suffix-Holds :
      (zones : List (String × String)) (best : String × String)
      → Holds (longest_suffix name zones best) best zones
  longest_suffix-Holds [] best =
      subst (λ r. Holds r best []) (sym (longest_suffix_end best)) (omega arith, tt, inl refl)
  longest_suffix-Holds (z ∷ zones) best =
      elim (Bool-cases (matches_domain name z.1 && ltb (len best.1) (len z.1))) [
        | inl longer ↦
            subst (λ r. Holds r best (z ∷ zones))
              (sym (longest_suffix_step z best zones true longer))
              (takes (longest_suffix name zones z) z best zones (both longer).0 (both longer).1
                (longest_suffix-Holds zones z))
        | inr kept ↦
            subst (λ r. Holds r best (z ∷ zones))
              (sym (longest_suffix_step z best zones false kept))
              (passes (longest_suffix name zones best) z best zones kept
                (longest_suffix-Holds zones best))
      ]
    where
      both :
          (matches_domain name z.1 && ltb (len best.1) (len z.1)) ≡ true
          → (matches_domain name z.1 ≡ true) × (len best.1 < len z.1)
      both e = ground arith

  nothing_longer :
      (zones : List (String × String)) (n : ℕ) → n ≡ 0 → IsLongest n zones → NoneMatches zones
  nothing_longer [] n e h = tt
  nothing_longer (z ∷ zones) n e (x, h) =
      ((λ m. let le = x m in omega arith), nothing_longer zones n e h)

  -- findZoneWithLongestSuffix returns, whatever the order of the map, the name of a zone whose domain the record's name
  -- lies in and is at least as long as every other such domain; or "", and then the name lies in no domain but "".
  pub find_zone_with_longest_suffix-IsLongest :
      (zones : List (String × String))
      → ((r : String × String) × (find_zone_with_longest_suffix zones name ≡ r.0)
          × IsMatch r zones
          × IsLongest (len r.1) zones)
        ⊎ ((find_zone_with_longest_suffix zones name ≡ "") × NoneMatches zones)
  unfolding find_zone_with_longest_suffix
  find_zone_with_longest_suffix-IsLongest zones =
      let r = longest_suffix name zones ("", "") in
      let (le, longest, which) = longest_suffix-Holds zones ("", "") in
      elim which [
        | inl nothing ↦ inr (
          ap (λ t. t.0) nothing,
          nothing_longer zones (len r.1) (ap (λ t. len t.1) nothing) longest,
        )
        | inr (found, further) ↦ inl (r, refl, found, longest)
      ]
