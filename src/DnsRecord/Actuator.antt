-- ===== src/DnsRecord/Actuator.antt =====
-- pkg/controller/dnsrecord/actuator.go: Reconcile, Delete and the other entry points of the DNS record controller.
use gardener_extension_provi.Common.{
  ℕ, String, concat, ◌==◌, Option, none, some, List, [], ◌∷◌, quoted, if◌then◌else◌,
}
use gardener_extension_provi.Failure.{
  Error, errorf, flat, wrap, requeue_after, Result, ok, err, is_not_found,
}
use gardener_extension_provi.Action.{done, Exec, and_then, call, pure, ◌>>=◌, ◌>>◌, or_wrap}
use gardener_extension_provi.Kube.{ObjectClient, do_delete}
use gardener_extension_provi.Secret.{
  ServiceAccount, OrgClusterConfig, Secret, SecretReference,
  get_service_account_from_secret_reference, get_gdch_config_from_secret_reference,
}
use gardener_extension_provi.DnsRecord.Name.{get_dns_record_set_name}
use gardener_extension_provi.DnsRecord.Zone.{
  ManagedDnsZone, zones_by_name, find_zone_with_longest_suffix,
}

-- in seconds
abbrev pub requeue_after_on_provider_error : ℕ
requeue_after_on_provider_error = 30

abbrev pub dns_default_ttl : ℕ
dns_default_ttl = 300

-- The DNSRecord resource, as far as the controller reads it; the zones are pointers.
pub record DnsRecord : Type 0 where
  pub secret_ref : SecretReference
  pub record_type : String
  pub name : String
  pub values : List String
  pub spec_zone : Option String
  pub status_zone : Option String

pub record RecordSetSpec : Type 0 where
  pub name : String
  pub ttl_seconds : ℕ
  pub type : String
  pub rr_data : List String
  pub dns_zone : String

-- globalnetworkingv1.ResourceRecordSet; a new one has no spec yet
pub record RecordSet : Type 0 where
  pub object_name : String
  pub namespace : String
  pub spec : Option RecordSetSpec

-- the client of the organisation's global API, as this controller uses it
pub record DnsClient (W : Type 0) : Type 0 where
  -- List in a namespace
  pub list_zones : String → W → Result (List ManagedDnsZone)
  pub record_sets : ObjectClient W RecordSet

-- what is put off for half a minute after an error of the provider
abbrev pub put_off : String → Error → Error
put_off text e = requeue_after (flat text e) requeue_after_on_provider_error

abbrev pub given : Option String → Option String
given none = none
given (some zone) = if zone == "" then none else some zone

module _ {W : Type 0} (c : DnsClient W) where
  unfoldable pub get_managed_dns_zones : String → Exec W (List (String × String))
  unfolding ◌>>=◌ or_wrap call pure zones_by_name
  get_managed_dns_zones project = do
    zones ←
        or_wrap
          (flat (concat ("failed to list ManagedDNSZone in project " ∷ quoted project ∷ ": " ∷ [])))
          (call (λ w. (c.list_zones project w, w)))
    pure (zones_by_name zones [])

  -- the answer to the search; the text leaves out the list of the zones
  abbrev pub found_zone : String → String → Result String
  found_zone name zone =
      if zone == ""
      then err (errorf (concat ("could not find DNS managed zone for name " ∷ name ∷ [])))
      else ok zone

  abbrev pub search_zone : DnsRecord → String → Exec W String
  search_zone dns project = do
    zones ← or_wrap (put_off "could not get DNS managed zones: ") (get_managed_dns_zones project)
    done (found_zone dns.name (find_zone_with_longest_suffix zones dns.name))

  -- the zone of the spec, or of the status, or the one that is found
  unfoldable pub get_zone : DnsRecord → String → Exec W String
  unfolding ◌>>=◌ or_wrap pure get_managed_dns_zones find_zone_with_longest_suffix
  get_zone dns project = elim (given dns.spec_zone) [
    | some zone ↦ pure zone
    | none ↦ elim (given dns.status_zone) [ some zone ↦ pure zone | none ↦ search_zone dns project ]
  ]

  abbrev pub record_set_spec : DnsRecord → String → RecordSetSpec
  record_set_spec dns zone = record {
    name = dns.name;
    ttl_seconds = dns_default_ttl;
    type = dns.record_type;
    rr_data = dns.values;
    dns_zone = zone;
  }

  -- the text leaves out the record's values
  unfoldable pub create_or_update_rrs : DnsRecord → String → String → Exec W (Unit {0})
  unfolding ◌>>=◌ or_wrap pure get_dns_record_set_name
  create_or_update_rrs dns zone project = do
    or_wrap
        (put_off (
          concat (
            "could not create or update DNS recordset in managed zone " ∷ zone ∷ " with name "
            ∷ dns.name ∷ ", type " ∷ dns.record_type ∷ ": " ∷ [])))
        (c.record_sets.create_or_update
          (record {
            object_name = get_dns_record_set_name dns.record_type dns.name;
            namespace = project;
            spec = none;
          })
          (λ set. record set { spec = some (record_set_spec dns zone) }))
    pure tt

  -- the answer to the Delete
  abbrev pub rrs_deleted : String → Result (Unit {0}) → Result (Unit {0})
  rrs_deleted text (ok u) = ok u
  rrs_deleted text (err e) = if is_not_found e then ok tt else err (put_off text e)

  unfoldable pub delete_rrs : String → String → Exec W (Unit {0})
  unfolding and_then do_delete
  delete_rrs name project = and_then (do_delete c.record_sets project name) (λ r. done (
      rrs_deleted
        (concat (
          "could not delete DNS recordset with name " ∷ name ∷ ": in project " ∷ project ∷ ": "
          ∷ []))
        r))

-- What the controller is given: the secrets, the reading of JSON, and gdcclient.Get.
pub record DnsHost (W : Type 0) : Type 0 where
  pub fetch_secret : SecretReference → W → Result Secret
  pub parse_service_account : String → Result ServiceAccount
  pub parse_org_config : String → Result OrgClusterConfig
  pub load : OrgClusterConfig → ServiceAccount → Result (DnsClient W)

module _ {W : Type 0} (host : DnsHost W) where
  unfoldable pub get_dns_client_and_project :
      OrgClusterConfig → SecretReference → Exec W (DnsClient W × String)
  unfolding ◌>>=◌ or_wrap pure get_service_account_from_secret_reference
  get_dns_client_and_project org ref = do
    account ←
        get_service_account_from_secret_reference host.fetch_secret host.parse_service_account ref
    c ← or_wrap (wrap "failed to create kubeClient: ") (done (host.load org account))
    pure (c, account.project)

  -- what Reconcile and Delete begin with
  unfoldable pub connect : DnsRecord → Exec W (DnsClient W × String)
  unfolding ◌>>=◌ or_wrap get_gdch_config_from_secret_reference get_dns_client_and_project
  connect dns = do
    org ←
        get_gdch_config_from_secret_reference host.fetch_secret host.parse_org_config dns.secret_ref
    or_wrap (wrap "failed to get gdcclient and project: ")
        (get_dns_client_and_project org dns.secret_ref)

  unfoldable pub reconcile_in : DnsRecord → DnsClient W × String → Exec W (Unit {0})
  unfolding ◌>>=◌ or_wrap get_zone create_or_update_rrs
  reconcile_in dns (c, project) = do
    zone ←
        or_wrap (wrap (concat ("failed to get dns zone list for project " ∷ project ∷ ": " ∷ [])))
          (get_zone c dns project)
    create_or_update_rrs c dns zone project

  unfoldable pub reconcile_record : DnsRecord → Exec W (Unit {0})
  unfolding ◌>>=◌ connect reconcile_in
  reconcile_record dns = connect dns >>= reconcile_in dns

  abbrev pub delete_in : DnsRecord → DnsClient W × String → Exec W (Unit {0})
  delete_in dns (c, project) =
      delete_rrs c (get_dns_record_set_name dns.record_type dns.name) project

  unfoldable pub delete_record : DnsRecord → Exec W (Unit {0})
  unfolding ◌>>=◌ connect delete_rrs get_dns_record_set_name
  delete_record dns = connect dns >>= delete_in dns

  unfoldable pub force_delete_record : DnsRecord → Exec W (Unit {0})
  unfolding delete_record
  force_delete_record dns = delete_record dns

  unfoldable pub restore_record : DnsRecord → Exec W (Unit {0})
  unfolding pure
  restore_record dns = pure tt

  unfoldable pub migrate_record : DnsRecord → Exec W (Unit {0})
  unfolding reconcile_record
  migrate_record dns = reconcile_record dns
