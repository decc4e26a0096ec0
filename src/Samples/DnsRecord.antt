-- ===== src/Samples/DnsRecord.antt =====
-- Runs of the theorems on DNS records.
use Prim.Native.String
use Prim.Native.String.{[], ◌∷◌, len}
use gardener_extension_provi.Common.{
  String, ◌≡◌, refl, ◌⊎◌, none, some, List, lookup, insert, lookup-insert, eq_refl,
}
use gardener_extension_provi.Failure.{ok}
use gardener_extension_provi.Action.{run, call}
use gardener_extension_provi.Kube.{ObjectClient}
use gardener_extension_provi.DnsRecord.Name.{get_dns_record_set_name, trim_wildcard}
use gardener_extension_provi.DnsRecord.Name.Kept.{AllKept, get_dns_record_set_name-AllKept}
use gardener_extension_provi.DnsRecord.Zone.{find_zone_with_longest_suffix}
use gardener_extension_provi.DnsRecord.Zone.Longest.{
  IsMatch, IsLongest, NoneMatches, find_zone_with_longest_suffix-IsLongest,
}
use gardener_extension_provi.DnsRecord.Actuator.{
  DnsRecord, RecordSet, DnsClient, record_set_spec, create_or_update_rrs,
}
use gardener_extension_provi.DnsRecord.Written.{Stores, HasSpec, wildcard_replaces_the_plain_record}
use gardener_extension_provi.Samples.World.{key, present, found, found_tt, remove}

name_of_a_record :
    AllKept (get_dns_record_set_name "TXT" "_acme-challenge.mydns.org")
    × (AllKept "TXT"
        → AllKept "_acme-challenge.mydns.org"
        → get_dns_record_set_name "TXT" "_acme-challenge.mydns.org"
          ≡ String.◌++◌ "TXT" ("-" ∷ "_acme-challenge.mydns.org"))
name_of_a_record = get_dns_record_set_name-AllKept "TXT" "_acme-challenge.mydns.org"

abbrev zones : List (String × String)
zones = List.◌∷◌ ("zone-1", "example.com") (List.◌∷◌ ("zone-2", "sub.example.com") List.[])

zone_of_two :
    ((r : String × String) × (find_zone_with_longest_suffix zones "a.sub.example.com" ≡ r.0)
      × IsMatch "a.sub.example.com" r zones
      × IsLongest "a.sub.example.com" (len r.1) zones)
    ⊎ ((find_zone_with_longest_suffix zones "a.sub.example.com" ≡ "")
        × NoneMatches "a.sub.example.com" zones)
zone_of_two = find_zone_with_longest_suffix-IsLongest "a.sub.example.com" zones

-- the record sets by namespace/name
abbrev Sets : Type 0
Sets = List (String × RecordSet)

abbrev set_key : RecordSet → String
set_key set = key set.namespace set.object_name

abbrev store : ObjectClient Sets RecordSet
store = record {
  get = λ ns n w. found (lookup (key ns n) w);
  create = λ a w. (ok tt, insert (set_key a) a w);
  patch = λ base a w. (ok a, insert (set_key a) a w);
  delete = λ ns n w. (found_tt (lookup (key ns n) w), remove (key ns n) w);
  create_or_update = λ a f. call (λ w. (
    ok (f (present a (lookup (set_key a) w))),
    insert (set_key a) (f (present a (lookup (set_key a) w))) w,
  ));
}

abbrev client : DnsClient Sets
client = record { list_zones = λ ns w. ok List.[]; record_sets = store }

memory_stores : Stores client
unfolding run call
memory_stores set change w made h =
    (present set (lookup (set_key set) w), rw lookup-insert (rw eq_refl refl))

abbrev plain : DnsRecord
plain = record {
  secret_ref = record { namespace = "garden"; name = "dns" };
  record_type = "A";
  name = "api.example.com";
  values = List.◌∷◌ "10.0.0.1" List.[];
  spec_zone = some "zone-1";
  status_zone = none;
}

abbrev wildcard : DnsRecord
wildcard = record plain { name = "*.api.example.com"; values = List.◌∷◌ "10.0.0.2" List.[] }

abbrev after_wildcard : Sets
after_wildcard = (run (create_or_update_rrs client wildcard "zone-1" "project") List.[]).1

wildcard_over_plain :
    HasSpec client "project"
      (get_dns_record_set_name "A" "api.example.com")
      (record_set_spec client wildcard "zone-1")
      after_wildcard
unfolding run call create_or_update_rrs trim_wildcard
wildcard_over_plain =
    wildcard_replaces_the_plain_record client memory_stores "zone-1" "project" plain wildcard
      List.[] after_wildcard refl refl refl refl
