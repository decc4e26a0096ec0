-- ===== src/DnsRecord/Zone.antt =====
-- pkg/controller/dnsrecord/actuator.go: the choice of the managed zone of a record.
pub mod Longest
use Prim.Native.String.{len, slice}
use text.Mathlib.Text.{starts_with}
use gardener_extension_provi.Common.{
  ℕ, ◌+◌, ◌-◌, String, concat, Bool, true, false, ◌&&◌, ◌||◌, ◌==◌, ltb, leb, Option, none, some,
  List, [], ◌∷◌, insert, quoted, if◌then◌else◌,
}
use gardener_extension_provi.Failure.{Error, errorf, flat, requeue_after, Result, ok, err}

-- strings.HasSuffix
abbrev pub has_suffix : String → String → Bool
has_suffix s t = leb (len t) (len s) && slice s (len s - len t) (len s) == t

-- globalnetworkingv1.ManagedDNSZone
pub record ManagedDnsZone : Type 0 where
  pub name : String
  pub dns_name : String

abbrev unescaped : String → String
unescaped s = if starts_with s "\\052." then concat ("*" ∷ slice s 4 (len s) ∷ []) else s

abbrev without_dot : String → String
without_dot s = if has_suffix s "." then slice s 0 (len s - 1) else s

unfoldable pub normalize_zone_name : String → String
normalize_zone_name zone_name = without_dot (unescaped zone_name)

-- the loop of getManagedDNSZones
unfoldable pub zones_by_name : List ManagedDnsZone → List (String × String) → List (String × String)
unfolding normalize_zone_name
zones_by_name [] zones = zones
zones_by_name (z ∷ zs) zones =
    zones_by_name zs (insert (normalize_zone_name z.name) z.dns_name zones)

unfoldable pub matches_domain : String → String → Bool
matches_domain name domain = (name == domain) || has_suffix name (concat ("." ∷ domain ∷ []))

-- the loop of findZoneWithLongestSuffix, with the zone and the domain that it holds
unfoldable pub longest_suffix : String → List (String × String) → String × String → String × String
unfolding matches_domain
longest_suffix name [] best = best
longest_suffix name ((id, domain) ∷ zones) (zone, longest) = longest_suffix name zones (
    if matches_domain name domain && ltb (len longest) (len domain)
    then (id, domain)
    else (zone, longest))

unfoldable pub find_zone_with_longest_suffix : List (String × String) → String → String
unfolding longest_suffix
find_zone_with_longest_suffix zones name = (longest_suffix name zones ("", "")).0
