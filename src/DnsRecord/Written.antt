-- ===== src/DnsRecord/Written.antt =====
-- What createOrUpdateRRS leaves at the API server.
use Prim.Native.String.{◌∷◌}
use mathlib.Core.Path.{subst}
use gardener_extension_provi.Common.{String, some, ◌≡◌, refl, sym, ap, ◌∙◌}
use gardener_extension_provi.Failure.{Error, Result, ok, err}
use gardener_extension_provi.Action.{Exec, run, pure, go_on, on_error, or_wrap, ◌>>◌}
use gardener_extension_provi.Action.Laws.{run-bind, run-or_wrap}
use gardener_extension_provi.DnsRecord.Name.{get_dns_record_set_name, trim_wildcard}
use gardener_extension_provi.DnsRecord.Name.Kept.{wildcard_shares_the_name}
use gardener_extension_provi.DnsRecord.Actuator.{
  DnsRecord, RecordSet, RecordSetSpec, DnsClient, record_set_spec, create_or_update_rrs,
}

-- what follows the write goes through only if the write did
write_ok :
    {W A : Type 0} (f : Error → Error) (r : Result A) (v u : W)
    → run (go_on (λ a. pure tt) (on_error f r)) v ≡ (ok tt, u)
    → (a : A) × (r ≡ ok a) × (v ≡ u)
unfolding run pure
write_ok f (ok a) v u h = (a, refl, ap (λ t. t.1) h)
write_ok f (err e) v u h = absurd (cc (h))

wrapped_then_ok :
    {W A : Type 0} (f : Error → Error) (m : Exec W A) (w u : W)
    → run (or_wrap f m >> pure tt) w ≡ (ok tt, u)
    → (a : A) × ((run m w).0 ≡ ok a) × ((run m w).1 ≡ u)
wrapped_then_ok f m w u h = write_ok f (run m w).0 (run m w).1 u (
    sym (
      run-bind (or_wrap f m) (λ a. pure tt) w
      ∙ ap (λ t. run (go_on (λ a. pure tt) t.0) t.1) (run-or_wrap f m w))
    ∙ h)

module _ {W : Type 0} (c : DnsClient W) where
  -- CreateOrUpdate, where it succeeds, has stored the object that the mutation made of some state of it.
  abbrev pub Stores : Type 0
  Stores =
      (set : RecordSet) (change : RecordSet → RecordSet) (w : W) (made : RecordSet)
      → (run (c.record_sets.create_or_update set change) w).0 ≡ ok made
      → (base : RecordSet) × (c.record_sets.get set.namespace set.object_name
            (run (c.record_sets.create_or_update set change) w).1
          ≡ ok (change base))

  -- the object of this name has the spec
  abbrev pub HasSpec : String → String → RecordSetSpec → W → Type 0
  HasSpec project name spec w =
      (set : RecordSet) × (c.record_sets.get project name w ≡ ok set) × (set.spec ≡ some spec)

  module _ (stores : Stores) (zone project : String) where
    written :
        (dns : DnsRecord) (w v : W)
        → run (create_or_update_rrs c dns zone project) w ≡ (ok tt, v)
        → HasSpec project
            (get_dns_record_set_name dns.record_type dns.name)
            (record_set_spec c dns zone)
            v
    unfolding create_or_update_rrs
    written dns w v h =
        let (made, r, e) = wrapped_then_ok _ _ w v h in
        let (base, got) = stores _ _ w made r in
        (
          record base { spec = some (record_set_spec c dns zone) },
          subst
              (λ u.
                c.record_sets.get project (get_dns_record_set_name dns.record_type dns.name) u
                ≡ ok (record base { spec = some (record_set_spec c dns zone) }))
              e got,
          refl,
        )

    -- Writing the record of a wildcard replaces what is written for the same name without the wildcard: the object of
    -- that record then has the wildcard's spec. Assumed is what CreateOrUpdate does where it succeeds.
    pub wildcard_replaces_the_plain_record :
        (dns wildcard : DnsRecord) (w v : W)
        → wildcard.record_type ≡ dns.record_type
        → wildcard.name ≡ "*" ∷ "." ∷ dns.name
        → trim_wildcard dns.name ≡ dns.name
        → run (create_or_update_rrs c wildcard zone project) w ≡ (ok tt, v)
        → HasSpec project
            (get_dns_record_set_name dns.record_type dns.name)
            (record_set_spec c wildcard zone)
            v
    wildcard_replaces_the_plain_record dns wildcard w v t n plain h =
        subst (λ name. HasSpec project name (record_set_spec c wildcard zone) v)
          (ap (λ t. get_dns_record_set_name t wildcard.name) t
            ∙ ap (get_dns_record_set_name dns.record_type) n
            ∙ wildcard_shares_the_name dns.record_type dns.name plain)
          (written wildcard w v h)
