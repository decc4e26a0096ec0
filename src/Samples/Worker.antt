-- ===== src/Samples/Worker.antt =====
-- Runs of the theorems on workers.
use mathlib.Core.List.{map}
use gardener_extension_provi.Common.{
  ℕ, ◌+◌, String, concat, ◌≡◌, refl, none, some, true, List, [], ◌∷◌, ◌++◌, inr, ◌==◌,
  if◌then◌else◌,
}
use gardener_extension_provi.Failure.{not_found, api, errorf, Result, ok, err}
use gardener_extension_provi.Apis.{InfrastructureStatus, CloudProfileConfig}
use gardener_extension_provi.Action.{run}
use gardener_extension_provi.Action.Ensures.{Ensures}
use gardener_extension_provi.Action.Loops.{Succeeds}
use gardener_extension_provi.Secret.{SecretReference}
use gardener_extension_provi.Infrastructure.Egress.{nat_gateway}
use gardener_extension_provi.Worker.Objects.{
  MachineImage, int, WorkerPool, ProviderStatus, WorkerResource, Cluster, MachineClass,
  MachineDeployment, Surroundings,
}
use gardener_extension_provi.Worker.Labels.{get_gdch_pool_labels, sanitize_label_or_value}
use gardener_extension_provi.Worker.Labels.Sanitized.{
  IsLabel, Selects, sanitize_label_or_value-IsLabel, nat_gateway-Selects,
}
use gardener_extension_provi.Worker.Images.{
  generate_machine_images, find_worker_image, find_image_from_cloud_profile, find_image_from,
  find_version_image, append_machine_image, find_machine_image,
}
use gardener_extension_provi.Worker.Images.Stable.{images_outlast_the_profile}
use gardener_extension_provi.Worker.Names.{worker_pool_hash}
use gardener_extension_provi.Worker.Names.Hash.{
  with_capacity, worker_pool_hash_ignores_virtual_capacity,
}
use gardener_extension_provi.Worker.Classes.{generate_machine_classes}
use gardener_extension_provi.Worker.Deployments.{generate_machine_deployments}
use gardener_extension_provi.Worker.Agreement.{Answers}
use gardener_extension_provi.Worker.Agreement.Placed.{ArePlaced, generate_machine_classes-ArePlaced}
use gardener_extension_provi.Worker.Agreement.Named.{deployments_name_classes}

-- a world that counts the writes to it
abbrev Seed : Type 0
Seed = ℕ

abbrev sample_secret : SecretReference
sample_secret = record { namespace = "shoot--garden--a"; name = "cloudprovider" }

abbrev sample_pool : WorkerPool
sample_pool = record {
  name = "pool";
  machine_type = "n3-standard-2";
  image_name = "gardenlinux";
  image_version = "1";
  architecture = none;
  zones = "zone-a" ∷ "zone-b" ∷ [];
  minimum = 1;
  maximum = 2;
  max_surge = int 1;
  max_unavailable = int 0;
  labels = ("Provider.Extensions", "x") ∷ [];
  annotations = [];
  taints = [];
  volume = some (record { type = some "pd-standard"; size = "50Gi" });
  data_volumes = [];
  provider_config = none;
  node_template = none;
}

abbrev kept_image : MachineImage
kept_image = record {
  name = "gardenlinux";
  project = "vm-system";
  version = "1";
  image = "image-1";
  architecture = some "amd64";
}

abbrev kept_status : ProviderStatus
kept_status = record { raw = "status"; object = none }

abbrev sample_worker : WorkerResource
sample_worker = record {
  name = "worker";
  namespace = "shoot--garden--a";
  region = "region";
  secret_ref = sample_secret;
  infrastructure_provider_status = some "infrastructure";
  pools = sample_pool ∷ [];
  provider_status = none;
}

abbrev sample_cluster : Cluster
sample_cluster = record { name = "shoot--garden--a"; cloud_profile = none }

abbrev sample_profile : CloudProfileConfig
sample_profile = record {
  machine_images =
      record {
        name = "gardenlinux";
        project = "";
        versions = record { version = "1"; image = "image-1"; architecture = some "amd64" } ∷ [];
      }
      ∷ [];
  org_config = some record {
    org_name = "org";
    global_management_api = "https://global";
    registry_url = "";
    ca_data = "";
    zones =
        some (record { name = "zone-a"; management_api = "https://a"; infrastructure_api = "" })
        ∷ some (record { name = "zone-b"; management_api = "https://b"; infrastructure_api = "" })
        ∷ [];
  };
}

-- the profile once it has dropped its images
abbrev bare_profile : CloudProfileConfig
bare_profile = record sample_profile { machine_images = [] }

abbrev sample_infrastructure : InfrastructureStatus
sample_infrastructure = record {
  enable_egress = some true;
  networks = record {
    node_address_pool_claim = "";
    node_cidr = "10.0.0.0/16";
    node_subnet = "root";
    zones =
        record { name = "zone-a"; subnet = "subnet-a" }
        ∷ record { name = "zone-b"; subnet = "subnet-b" }
        ∷ [];
  };
}

abbrev absent : Result (Unit {0})
absent = err (api (record { reason = not_found; message = "" }))

abbrev sample_answers : String → Result (Unit {0})
sample_answers name = if name == "shoot--garden--a-pool-2" then ok tt else absent

abbrev sample_env : Surroundings Seed
sample_env = record {
  decode_infrastructure_status = λ raw. ok sample_infrastructure;
  decode_worker_config = λ raw. ok record { node_template = none };
  marshal_worker_config = λ config. ok "{}";
  decode_worker_status = λ raw. ok record { machine_images = kept_image ∷ [] };
  decode_cloud_profile = λ raw. ok sample_profile;
  parse_service_account = λ raw. ok record {
    name = "account";
    project = "project";
    token_uri = "";
    private_key_id = "";
    private_key = "";
  };
  disk_size = λ size. ok 50;
  image_not_found = λ n v a. errorf "image not found";
  pool_hash = λ pool cluster additional in_place. ok (concat ("hash" ∷ additional));
  distribute_over_zones = λ i n zones. n;
  distribute_int_or_percent = λ i n zones maximum. n;
  merge_string_maps = λ a b. a ++ b;
  read_machine_configuration = λ pool. "";
  fetch_secret = λ ref w. ok record {
    namespace = ref.namespace;
    name = ref.name;
    data_of = ("serviceaccount.json", "{}") ∷ [];
  };
  fetch_user_data = λ ns pool w. ok "#cloud-config";
  get_deployment = λ ns name w. sample_answers name;
  apply_machine_classes = λ ns classes w. (ok tt, w + 1);
  convert_status = λ status. ok status;
  patch_status = λ old new w. (ok new, w + 1);
}

sanitized_text :
    IsLabel (sanitize_label_or_value "Provider.Extensions")
    × (IsLabel "Provider.Extensions"
        → sanitize_label_or_value "Provider.Extensions" ≡ "Provider.Extensions")
sanitized_text = sanitize_label_or_value-IsLabel "Provider.Extensions"

gateway_of_sample :
    Selects
      (nat_gateway "project" "gateway" "shoot--garden--a").match_labels
      (get_gdch_pool_labels sample_worker sample_pool "shoot--garden--a")
gateway_of_sample =
    nat_gateway-Selects sample_worker sample_pool "shoot--garden--a" "project" "gateway"

image_after_the_drop :
    generate_machine_images sample_env bare_profile
      (record sample_worker { provider_status = some kept_status })
      []
      (sample_pool ∷ [])
    ≡ ok (kept_image ∷ [])
unfolding generate_machine_images find_worker_image find_image_from_cloud_profile find_image_from
    find_version_image append_machine_image find_machine_image
image_after_the_drop =
    images_outlast_the_profile sample_env sample_profile bare_profile sample_worker
      (record sample_worker { provider_status = some kept_status }) (sample_pool ∷ [])
      (kept_image ∷ []) kept_status refl refl refl (inr (_, refl), tt)

hash_of_sample :
    worker_pool_hash sample_env sample_cluster
      (with_capacity sample_pool (record { capacity = none; virtual_capacity = none }) none "a")
      ("zone-a" ∷ [])
      []
    ≡ worker_pool_hash sample_env sample_cluster
        (with_capacity sample_pool
          (record { capacity = none; virtual_capacity = none })
          (some [])
          "b")
        ("zone-a" ∷ [])
        []
hash_of_sample =
    worker_pool_hash_ignores_virtual_capacity sample_env sample_cluster sample_pool
      (record { capacity = none; virtual_capacity = none }) none (some []) "a" "b"
      (record { node_template = none }) (record { node_template = none }) ("zone-a" ∷ []) [] refl
      refl refl

classes_of_sample :
    Ensures
      (Answers sample_env sample_cluster sample_worker sample_answers)
      (Succeeds (ArePlaced sample_env sample_cluster sample_worker sample_answers sample_profile))
      (generate_machine_classes sample_env sample_cluster sample_worker sample_profile)
classes_of_sample =
    generate_machine_classes-ArePlaced sample_env sample_cluster sample_worker sample_answers
      sample_profile

abbrev results : {A : Type 0} → Result (List A) → List A
results (ok l) = l
results (err e) = []

abbrev the_classes : List MachineClass
the_classes =
    results
      (run (generate_machine_classes sample_env sample_cluster sample_worker sample_profile) 0).0

abbrev the_deployments : List MachineDeployment
the_deployments =
    results (run (generate_machine_deployments sample_env sample_cluster sample_worker) 1).0

names_of_sample : map (λ c. c.name) the_classes ≡ map (λ d. d.class_name) the_deployments
unfolding run generate_machine_classes worker_pool_hash generate_machine_deployments
names_of_sample =
    deployments_name_classes sample_env sample_cluster sample_worker sample_answers sample_profile 0
      1 (λ n. refl) (λ n. refl) the_classes the_deployments refl refl
