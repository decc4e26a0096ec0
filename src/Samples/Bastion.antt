-- ===== src/Samples/Bastion.antt =====
-- Runs of the theorems on bastions.
use gardener_extension_provi.Bastion.Choices.{get_gdch_machine_image}
use gardener_extension_provi.Common.{
  pos, ◌≡◌, refl, ap, sym, Option, none, some, List, [], ◌∷◌, true,
}
use gardener_extension_provi.Failure.{ok}
use gardener_extension_provi.Action.{call}
use gardener_extension_provi.Action.Ensures.{Ensures, Anything, Ensures-call}
use gardener_extension_provi.Action.Loops.{Succeeds}
use gardener_extension_provi.Action.Ends.{Ends, Never}
use gardener_extension_provi.Kube.{ObjectClient}
use gardener_extension_provi.Apis.{CloudProfileConfig}
use gardener_extension_provi.Secret.{ServiceAccount, Secret}
use gardener_extension_provi.Bastion.{
  Bastion, MachineType, BastionProfile, BastionCluster, BastionClient, BastionHost,
  VirtualMachineDisk, VirtualMachine, ExternalAccess,
}
use gardener_extension_provi.Bastion.Reconcile.{reconcile_bastion, reconcile_bastion_objects}
use gardener_extension_provi.Samples.Validation.{one_zone}
use gardener_extension_provi.Bastion.Choices.{find_most_suitable_machine_type}
use gardener_extension_provi.Bastion.Choices.Smallest.{
  IsSmallest, find_most_suitable_machine_type-IsSmallest,
}
use gardener_extension_provi.Bastion.Reconcile.Settled.{
  HostLaws, IsSettled, reconcile_bastion-IsSettled,
}
use gardener_extension_provi.Bastion.Reconcile.Retried.{IsRetried, bastion_objects_come_back}
use gardener_extension_provi.Bastion.Reconcile.Endings.{WritesAll, Chooses}

abbrev types : List MachineType
types =
    record { name = "gpu"; cpu = pos 2; architecture = none }
    ∷ record { name = "large"; cpu = pos 8; architecture = some "amd64" }
    ∷ record { name = "small"; cpu = pos 4; architecture = some "amd64" }
    ∷ []

machine_of_three : IsSmallest types (find_most_suitable_machine_type types)
machine_of_three = find_most_suitable_machine_type-IsSmallest types

-- an API server that takes every object, and shows one of each kind
abbrev server : {W Obj : Type 0} → Obj → ObjectClient W Obj
server shown = record {
  get = λ ns n w. ok shown;
  create = λ a w. (ok tt, w);
  patch = λ base a w. (ok a, w);
  delete = λ ns n w. (ok tt, w);
  create_or_update = λ a f. call (λ w. (ok (f a), w));
}

abbrev shown_disk : VirtualMachineDisk
shown_disk = record {
  name = "b-bastion-vm-disk";
  namespace = "project";
  image = "ubuntu-24";
  image_namespace = "vm-system";
  size = "16Gi";
  phase = "Succeeded";
}

abbrev shown_machine : VirtualMachine
shown_machine = record {
  name = "b-bastion-vm";
  namespace = "project";
  type = "small";
  disk = "b-bastion-vm-disk";
  script_secret = "b-bastion-setup-script";
  state = "Running";
}

abbrev shown_access : ExternalAccess
shown_access = record {
  name = "b-bastion-vm";
  namespace = "project";
  enabled = true;
  port = 22;
  ingress_ip = "10.1.0.7";
}

-- the world is the bastion that was patched last
abbrev W : Type 0
W = Option Bastion

abbrev client_showing : VirtualMachine → ExternalAccess → BastionClient W
client_showing machine access = record {
  secrets = server (record { name = ""; namespace = ""; script = "" });
  disks = server shown_disk;
  machines = server machine;
  accesses = server access;
  policies = server (record { name = ""; namespace = ""; from = [] });
}

abbrev client : BastionClient W
client = client_showing shown_machine shown_access

abbrev profile : CloudProfileConfig
profile = record {
  machine_images =
      record {
        name = "ubuntu";
        project = "";
        versions = record { version = "24"; image = "ubuntu-24"; architecture = some "amd64" } ∷ [];
      }
      ∷ [];
  org_config = some (record {
    org_name = "org";
    global_management_api = "https://global";
    registry_url = "";
    ca_data = "ca";
    zones =
        some (record {
          name = "zone-a";
          management_api = "https://a";
          infrastructure_api = "https://a-infra";
        })
        ∷ [];
  });
}

abbrev held : BastionProfile
held = record {
  provider_config = some "profile";
  machine_types = types;
  machine_images =
      record {
        name = "ubuntu";
        versions =
            record {
              version = "24";
              classification = some "supported";
              architectures = "amd64" ∷ [];
            }
            ∷ [];
      }
      ∷ [];
}

abbrev cluster : BastionCluster
cluster = record {
  name = "shoot--x";
  cloud_profile = some held;
  infrastructure_config = some "config";
}

abbrev bastion : Bastion
bastion = record {
  name = "b";
  namespace = "shoot--x";
  ingress = "0.0.0.0/0" ∷ [];
  user_data = "#!/bin/sh";
  provider_status = none;
  ingress_ip = none;
}

abbrev account : ServiceAccount
account = record {
  name = "sa";
  project = "project";
  token_uri = "uri";
  private_key_id = "id";
  private_key = "key";
}

abbrev secret : Secret
secret = record {
  namespace = "shoot--x";
  name = "cloudprovider";
  data_of = ("serviceaccount.json", "account") ∷ [];
}

-- the text of a status is its zone
abbrev host : BastionHost W
host = record {
  decode_cloud_profile = λ raw. ok profile;
  unmarshal_config = λ raw. ok one_zone;
  unmarshal_status = λ raw. ok (record { zone = raw });
  marshal_status = λ s. ok s.zone;
  parse_account = λ text. ok account;
  fetch_secret = λ ref w. ok secret;
  get_client = λ config a. ok client;
  patch_status = λ old new w. (ok new, some new);
}

writes_all :
    (c : VirtualMachine) (a : ExternalAccess)
    → WritesAll {W = W} Anything Never (client_showing c a)
writes_all c a = record {
  secrets = λ obj f. Ensures-call _ (λ w p. (tt, tt));
  disks = λ obj f. Ensures-call _ (λ w p. (tt, tt));
  machines = λ obj f. Ensures-call _ (λ w p. (tt, tt));
  accesses = λ obj f. Ensures-call _ (λ w p. (tt, tt));
  policies = λ obj f. Ensures-call _ (λ w p. (tt, tt));
}

chooses : Chooses profile held
unfolding find_most_suitable_machine_type get_gdch_machine_image
chooses = (
  ("small", "amd64"),
  (
    record {
      name = "ubuntu";
      project = "vm-system";
      versions = record { version = "24"; image = "ubuntu-24"; architecture = some "amd64" } ∷ [];
    },
    record { version = "24"; image = "ubuntu-24"; architecture = some "amd64" },
  ),
  refl,
  refl,
)

ok_inj : {A : Type 0} (a b : A) → ok a ≡ ok b → a ≡ b
ok_inj a b e = cc (e)

laws : HostLaws host
laws = record {
  patched = λ old new b w e.
      (let q = ok_inj new b e in
        (ap (λ x. x.provider_status) (sym q), ap (λ x. x.ingress_ip) (sym q)));
  reads_back = λ s raw e. ap (λ z. ok (record { zone = z })) (sym (ok_inj s.zone raw e));
}

bastion_with_an_address :
    Ensures Anything
      (Succeeds (IsSettled host cluster bastion))
      (reconcile_bastion host bastion cluster)
bastion_with_an_address = reconcile_bastion-IsSettled host laws bastion cluster

-- the machine is still being made
bastion_awaited : Ensures Anything (Ends IsRetried Anything) (
    reconcile_bastion_objects profile held
      (client_showing (record shown_machine { state = "Pending" }) shown_access)
      "project"
      bastion)
bastion_awaited =
    bastion_objects_come_back
      (client_showing (record shown_machine { state = "Pending" }) shown_access) "project" profile
      held bastion (writes_all _ _) chooses
