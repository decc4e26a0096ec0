-- ===== src/Samples/Infrastructure.antt =====
-- Runs of the infrastructure controller's theorems on an API server in memory.
use gardener_extension_provi.Infrastructure.Host.{Host}
use gardener_extension_provi.Common.{
  length, List, String, ◌≡◌, ◌≢◌, refl, Option, none, some, true, [], ◌∷◌, inl, eq_iff, arith,
}
use gardener_extension_provi.Failure.{Result, Error, ok, err, is_not_found}
use gardener_extension_provi.Action.{run}
use gardener_extension_provi.Apis.{Zones, Zone, NetworkConfig, InfrastructureConfig}
use gardener_extension_provi.Kube.{Subnet}
use gardener_extension_provi.Secret.{ServiceAccount}
use gardener_extension_provi.Infrastructure.{Infrastructure}
use gardener_extension_provi.Infrastructure.Ready.{wait_for_global_subnet_ready}
use gardener_extension_provi.Infrastructure.Deletion.{delete_all_subnets}
use gardener_extension_provi.Infrastructure.Deletion.Gone.{AllGone, delete_all_subnets-Gone}
use gardener_extension_provi.Infrastructure.Deletion.Gone.Steps.{KeepsErrors}
use gardener_extension_provi.Infrastructure.Root.{desired_root_subnet, reconcile_root_subnet}
use gardener_extension_provi.Infrastructure.Root.Ownership.{
  IsForeign, IsTerminal, foreign_root_untouched,
}
use gardener_extension_provi.Infrastructure.Actuator.{run_and_record}
use gardener_extension_provi.Infrastructure.Zonal.{global_subnet, network_subnet}
use gardener_extension_provi.Infrastructure.Egress.{egress_subnet, nat_gateway}
use gardener_extension_provi.Infrastructure.Actuator.Results.{made_names, zone_names}
use gardener_extension_provi.Infrastructure.Actuator.Recorded.{
  recorded, reconcile_records_each_zone,
}
use gardener_extension_provi.Infrastructure.Actuator.Foreign.{
  foreign_root_fails_under_every_schedule,
}
use gardener_extension_provi.Infrastructure.Actuator.Foreign.Root.{HasRoot}
use gardener_extension_provi.Validation.{FieldPath}
use gardener_extension_provi.Validation.InfrastructureUpdate.{validate_infrastructure_config_update}
use gardener_extension_provi.Immutability.{
  target_of, accepted_update_keeps_parent, accepted_update_keeps_root,
}
use gardener_extension_provi.Samples.World.{
  World, client, clients, missing, Absent, memory_deletes, memory_apart,
}

abbrev zone_a : Zone
zone_a = record { name = "zone-a"; cidr = "10.0.0.0/24" }

-- the parent by its old fields
abbrev old_networks : NetworkConfig
old_networks = record {
  parent_address_pool_claim = "";
  node_cidr = "10.0.0.0/16";
  parent_subnet = "parent";
  parent_subnet_project = "platform";
  parent_reference = none;
  zones = zone_a ∷ [];
}

-- the same parent by a reference
abbrev new_networks : NetworkConfig
new_networks = record old_networks {
  parent_subnet = "";
  parent_subnet_project = "";
  parent_reference = some (record { name = "parent"; namespace = some "platform"; type = "" });
}

abbrev old_config : InfrastructureConfig
old_config = record { networks = old_networks; enable_egress = some true }

abbrev new_config : InfrastructureConfig
new_config = record { networks = new_networks; enable_egress = some true }

abbrev account : ServiceAccount
account = record {
  name = "robot";
  project = "project";
  token_uri = "";
  private_key_id = "";
  private_key = "";
}

abbrev infra : Infrastructure
infra = record {
  name = "shoot";
  namespace = "shoot--project--shoot";
  uid = "uid-1";
  provider_config = none;
  provider_status = none;
  egress_cidrs = [];
  state = none;
}

abbrev label : String × String
label = ("shootcontrolplane-project-shoot", "zone-a-seed")

abbrev own_root : Subnet
own_root = record (desired_root_subnet infra old_networks account label) {
  ready = some (record { status = "True"; message = "" });
}

abbrev foreign_root : Subnet
foreign_root = record own_root { labels = ("infra-uid", "uid-2") ∷ [] }

abbrev world_with : Subnet → World
world_with s = record {
  global_subnets = ("project/shoot", s) ∷ [];
  zonal_subnets = [];
  zonal_gateways = [];
}

abbrev determine : Option Error → Option Error
determine o = o

abbrev root_path : FieldPath
root_path = []

migrated_parent_is_kept :
    (new_networks.node_cidr ≡ old_networks.node_cidr)
    × (target_of new_networks new_networks.parent_reference
        ≡ target_of old_networks old_networks.parent_reference)
unfolding validate_infrastructure_config_update
migrated_parent_is_kept = accepted_update_keeps_parent old_config new_config root_path refl

migrated_root_is_kept :
    (run
        (reconcile_root_subnet determine client clients infra new_config account "seed")
        (world_with own_root)
      ≡ run
          (wait_for_global_subnet_ready infra.name account.project client.global_subnets)
          (world_with own_root))
    × ((run
          (reconcile_root_subnet determine client clients infra new_config account "seed")
          (world_with own_root)).1
        ≡ world_with own_root)
unfolding validate_infrastructure_config_update desired_root_subnet
migrated_root_is_kept =
    accepted_update_keeps_root determine client clients infra account old_config new_config
      root_path label own_root zone_a [] "seed" (world_with own_root) refl refl refl refl refl

other_uid : ◌≢◌ {A = String} "uid-2" "uid-1"
other_uid e = ground (arith, eq_iff "uid-2" "uid-1")

abbrev foreign : IsForeign infra foreign_root
foreign = inl ("uid-2", refl, other_uid)

foreign_root_in_memory :
    (e : Error) × (run
        (reconcile_root_subnet determine client clients infra new_config account "seed")
        (world_with foreign_root)
      ≡ (err e, world_with foreign_root))
    × IsTerminal e
foreign_root_in_memory =
    foreign_root_untouched determine client clients infra new_config account foreign_root "seed"
      (world_with foreign_root) zone_a [] refl refl foreign

keeps_errors : KeepsErrors determine
keeps_errors e = (e, refl)

deleted_in_memory :
    AllGone Absent "project" "shoot"
      (zone_a ∷ [])
      (run
        (delete_all_subnets determine client clients "project" "shoot" (zone_a ∷ []))
        (world_with own_root)).1
unfolding run delete_all_subnets is_not_found
deleted_in_memory =
    delete_all_subnets-Gone client clients Absent memory_deletes determine "project" "shoot"
      keeps_errors (zone_a ∷ []) (world_with own_root) refl

abbrev host : Host World
host = record {
  decode_cloud_profile = λ s. err missing;
  decode_infrastructure_config = λ s. ok new_config;
  parse_service_account = λ s. ok account;
  marshal = λ s. "state";
  fetch_secret = λ ref w. ok (record { namespace = ref.namespace; name = ref.name; data_of = [] });
  patch_status = λ base new w. (ok tt, w);
  load = λ org a. ok client;
  determine = determine;
}

determine_keeps : (e : Error) → determine (some e) ≢ none
determine_keeps e h = cc

foreign_root_in_memory_scheduled :
    (e : Error) × (v : World) × (run
        (run_and_record host (1 ∷ 0 ∷ 1 ∷ []) infra new_config account "seed" (client, clients))
        (world_with foreign_root)
      ≡ (err e, v))
    × HasRoot client infra account foreign_root v
foreign_root_in_memory_scheduled =
    foreign_root_fails_under_every_schedule host client clients infra new_config account
      foreign_root foreign (memory_apart "project" "shoot" foreign_root) determine_keeps
      (1 ∷ 0 ∷ 1 ∷ []) "seed" (world_with foreign_root) refl

abbrev with_ready : Subnet → Subnet
with_ready s = record s {
  ready = some (record { status = "True"; message = "" });
  allocation_cidr = some "192.0.2.1/32";
}

-- everything that Reconcile waits for is there
abbrev settled : World
settled = record {
  global_subnets =
      ("project/shoot", own_root)
      ∷ (
        "project/shoot-zone-a",
        with_ready (global_subnet "project" "shoot" "zone-a" "10.0.0.0/24"),
      )
      ∷ [];
  zonal_subnets =
      ("project/shoot-zone-a", with_ready (global_subnet "project" "shoot" "zone-a" "10.0.0.0/24"))
      ∷ (
        "project/z-shoot-zone-a",
        with_ready (network_subnet "project" "z-shoot-zone-a" "shoot-zone-a" "10.0.0.0/24"),
      )
      ∷ (
        "project/shoot--project--shoot-zone-a",
        with_ready (egress_subnet "project" "shoot--project--shoot-zone-a" "zone-a"),
      )
      ∷ [];
  zonal_gateways =
      (
        "project/shoot--project--shoot-zone-a",
        record (nat_gateway "project" "shoot--project--shoot-zone-a" "shoot--project--shoot") {
          ready = some (record { status = "True"; message = "" });
        },
      )
      ∷ [];
}

abbrev reconciled : Result (Unit {0}) × World
reconciled =
    run (run_and_record host (1 ∷ 0 ∷ 1 ∷ []) infra new_config account "seed" (client, clients))
      settled

reconcile_records_zone_a :
    (made : List Zones) × (cidrs : List String) × (u : World) × (made_names made
      ≡ zone_names (zone_a ∷ []))
    × (length cidrs ≡ 1)
    × (host.patch_status infra
          (recorded host client clients infra new_config account "seed" made cidrs)
          u
        ≡ (ok tt, reconciled.1))
unfolding run run_and_record
reconcile_records_zone_a =
    reconcile_records_each_zone host client clients infra new_config account "seed" determine_keeps
      refl (1 ∷ 0 ∷ 1 ∷ []) settled refl
