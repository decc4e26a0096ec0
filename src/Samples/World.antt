-- ===== src/Samples/World.antt =====
-- An API server in memory: one global and one zonal store of subnets and a store of gateways, keyed by namespace/name.
use gardener_extension_provi.Common.{
  String, concat, ◌≡◌, refl, ◌==◌, eq_iff, Option, none, some, List, [], ◌∷◌, lookup, insert,
  if◌then◌else◌, arith,
}
use gardener_extension_provi.Failure.{not_found, Error, api, Result, ok, err}
use gardener_extension_provi.Action.{call}
use gardener_extension_provi.Action.Ensures.{Keeps-call}
use gardener_extension_provi.Kube.{Subnet, Gateway, ObjectClient}
use gardener_extension_provi.Infrastructure.{KubeClient, Zonal}
use gardener_extension_provi.Infrastructure.Deletion.Gone.{
  Place, at_global, at_zone, ClientAt, DeletionLaws,
}
use gardener_extension_provi.Infrastructure.Actuator.Foreign.Zones.{LeavesGlobal}

pub record World : Type 0 where
  pub global_subnets : List (String × Subnet)
  pub zonal_subnets : List (String × Subnet)
  pub zonal_gateways : List (String × Gateway)

abbrev pub key : String → String → String
key namespace name = concat (namespace ∷ "/" ∷ name ∷ [])

abbrev pub remove : {A : Type 0} → String → List (String × A) → List (String × A)
remove k [] = []
remove k ((j, a) ∷ m) = if j == k then remove k m else (j, a) ∷ remove k m

lookup-remove : {A : Type 0} (k : String) (m : List (String × A)) → lookup k (remove k m) ≡ none
lookup-remove k [] = refl
lookup-remove k ((j, a) ∷ m) = ground (arith, eq_iff j k, lookup-remove k m)

remove-absent :
    {A : Type 0} (k j : String) (m : List (String × A))
    → lookup k m ≡ none
    → lookup k (remove j m) ≡ none
remove-absent k j [] h = refl
remove-absent k j ((i, a) ∷ m) h = ground (arith, eq_iff i k, eq_iff i j, remove-absent k j m)

abbrev pub missing : Error
missing = api (record { reason = not_found; message = "not found" })

abbrev pub found : {A : Type 0} → Option A → Result A
found none = err missing
found (some a) = ok a

abbrev pub found_tt : {A : Type 0} → Option A → Result (Unit {0})
found_tt none = err missing
found_tt (some a) = ok tt

abbrev pub present : {A : Type 0} → A → Option A → A
present a none = a
present a (some old) = old

-- a store that is part of the world
abbrev pub memory :
    {A : Type 0}
    → (A → String)
    → (World → List (String × A))
    → (List (String × A) → World → World)
    → ObjectClient World A
memory key_of read write = record {
  get = λ ns n w. found (lookup (key ns n) (read w));
  create = λ a w. (ok tt, write (insert (key_of a) a (read w)) w);
  patch = λ base a w. (ok a, write (insert (key_of a) a (read w)) w);
  delete = λ ns n w. (found_tt (lookup (key ns n) (read w)), write (remove (key ns n) (read w)) w);
  create_or_update = λ a f. call (λ w. (
    ok (f (present a (lookup (key_of a) (read w)))),
    write (insert (key_of a) (f (present a (lookup (key_of a) (read w)))) (read w)) w,
  ));
}

abbrev pub subnet_key : Subnet → String
subnet_key s = key s.namespace s.name

abbrev pub gateway_key : Gateway → String
gateway_key g = key g.namespace g.name

abbrev pub global_store : ObjectClient World Subnet
global_store = memory subnet_key (λ w. w.global_subnets) (λ m w. record w { global_subnets = m })

abbrev pub zonal_store : ObjectClient World Subnet
zonal_store = memory subnet_key (λ w. w.zonal_subnets) (λ m w. record w { zonal_subnets = m })

abbrev pub gateway_store : ObjectClient World Gateway
gateway_store = memory gateway_key (λ w. w.zonal_gateways) (λ m w. record w { zonal_gateways = m })

abbrev pub client : KubeClient World
client = record { global_subnets = global_store; subnets = zonal_store; gateways = gateway_store }

abbrev pub clients : Zonal World
clients = ("zone-a", client) ∷ []

-- the subnet is absent
abbrev pub Absent : Place → String → String → World → Type 0
Absent at_global ns n w = lookup (key ns n) w.global_subnets ≡ none
Absent (at_zone zone) ns n w = lookup (key ns n) w.zonal_subnets ≡ none

found_client : (zone : String) (k : KubeClient World) → lookup zone clients ≡ some k → k ≡ client
found_client zone k h = ground (arith, eq_iff "zone-a" zone)

delete-Absent :
    (p : Place) (c : ObjectClient World Subnet) (ns n : String) (w : World)
    → ClientAt client clients p c
    → Absent p ns n (c.delete ns n w).1
delete-Absent at_global c ns n w at = rw at (lookup-remove (key ns n) w.global_subnets)
delete-Absent (at_zone zone) c ns n w (k, here, at) =
    rw at (rw (found_client zone k here) (lookup-remove (key ns n) w.zonal_subnets))

delete_elsewhere :
    (p q : Place) (c : ObjectClient World Subnet) (ns n ms m : String) (w : World)
    → ClientAt client clients q c
    → Absent p ns n w
    → Absent p ns n (c.delete ms m w).1
delete_elsewhere at_global at_global c ns n ms m w at h =
    rw at (remove-absent _ _ w.global_subnets h)
delete_elsewhere at_global (at_zone zone) c ns n ms m w (k, here, at) h =
    rw at (rw (found_client zone k here) h)
delete_elsewhere (at_zone z) at_global c ns n ms m w at h = rw at h
delete_elsewhere (at_zone z) (at_zone zone) c ns n ms m w (k, here, at) h =
    rw at (rw (found_client zone k here) (remove-absent _ _ w.zonal_subnets h))

pub memory_deletes : DeletionLaws client clients Absent
memory_deletes = record {
  accepted = λ p c ns n w at h. delete-Absent p c ns n w at;
  absent = λ p c ns n w e at h gone. delete-Absent p c ns n w at;
  stays = delete_elsewhere;
}

-- the root subnet, as the global API gives it
abbrev pub RootIs : String → String → Subnet → World → Type 0
RootIs ns n cur w = client.global_subnets.get ns n w ≡ ok cur

pub memory_apart :
    (ns n : String) (cur : Subnet) (zone : String) (k : KubeClient World)
    → lookup zone clients ≡ some k
    → LeavesGlobal (RootIs ns n cur) k
memory_apart ns n cur zone k h = rw (found_client zone k h) record {
  update_subnet = λ s f. Keeps-call _ (λ w p. p);
  update_gateway = λ g f. Keeps-call _ (λ w p. p);
  delete_gateway = λ ms m w p. p;
  delete_subnet = λ ms m w p. p;
}
