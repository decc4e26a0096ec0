-- ===== src/Admission/Shoot.antt =====
-- pkg/admission/validator/shoot.go.
pub mod Update
pub mod Disjoint
use gardener_extension_provi.Common.{
  ℕ, ℤ, ◌+◌, String, concat, quoted, Bool, true, false, ◌&&◌, ◌==◌, opt_eq, Option, none, some,
  List, [], ◌∷◌, ◌++◌, if◌then◌else◌,
}
use gardener_extension_provi.Failure.{Error, errorf, flat, Result, ok, err}
use gardener_extension_provi.Apis.{
  SubnetReference, Zone, NetworkConfig, InfrastructureConfig, CloudProfileConfig,
}
use gardener_extension_provi.Validation.{
  FieldPath, child, child_of, index_of, required, invalid, internal_error, FieldError, ErrorList,
  CidrChecks,
}
use gardener_extension_provi.Validation.InfrastructureUpdate.{validate_infrastructure_config_update}
use gardener_extension_provi.Validation.InfrastructureConfig.{
  validate_infrastructure_config, validate_networking,
}
use gardener_extension_provi.Validation.Workers.{
  Worker, Quantity, NodeTemplate, validate_workers, validate_worker_config,
}
use gardener_extension_provi.Admission.{
  Refusal, failed, field, nil_pointer, Verdict, granted, refused, aggregate, and_if, or_failed,
  wrong_type, Region, get_allowed_zones, Decoders,
}
use gardener_extension_provi.Admission.Ranges.{IpNet, cidr_overlap}

-- core.Worker with its provider configuration
pub record ShootWorker : Type 0 where
  pub worker : Worker
  pub provider_config : Option String

-- `networking` is Spec.Networking with its Nodes, `profile_name` the name in Spec.CloudProfile, which may be nil.
pub record Shoot : Type 0 where
  pub namespace : String
  pub name : String
  pub profile_name : Option String
  pub networking : Option (Option String)
  pub infrastructure_config : Option String
  pub workers : List ShootWorker

pub record Profile : Type 0 where
  pub name : String
  pub provider_config : Option String
  pub regions : List Region

-- The libraries that the validator calls, and what the API server answers while one shoot is admitted: to
-- gardener.GetCloudProfile and to a List of all shoots.
pub record ShootAdmission : Type 0 where
  pub checks : CidrChecks
  pub strict : Decoders
  pub lenient : Decoders
  pub is_workerless : Shoot → Bool
  -- Convert_core_Shoot_To_v1beta1_Shoot
  pub convert : Shoot → Result Shoot
  pub get_cloud_profile : Shoot → Result (Option Profile)
  pub list_shoots : Result (List Shoot)
  -- net.ParseCIDR
  pub parse_cidr : String → Result IpNet
  -- resource.Quantity's MilliValue
  pub milli_value : Quantity → ℤ

pub record ValidationContext : Type 0 where
  pub shoot : Shoot
  pub infrastructure_config : InfrastructureConfig
  pub cloud_profile_config : CloudProfileConfig
  pub cloud_profile : Profile

abbrev pub provider_path : FieldPath
provider_path = child "spec" ∷ child "provider" ∷ []

abbrev pub infrastructure_config_path : FieldPath
infrastructure_config_path = child_of provider_path "infrastructureConfig"

abbrev pub workers_path : FieldPath
workers_path = child_of provider_path "workers"

abbrev pub network_path : FieldPath
network_path = child "spec" ∷ child "networking" ∷ []

abbrev pub node_cidr_path : FieldPath
node_cidr_path = child_of infrastructure_config_path "nodecidr"

abbrev pub plain_workers : List ShootWorker → List Worker
plain_workers [] = []
plain_workers (w ∷ ws) = w.worker ∷ plain_workers ws

-- a step of the validation: its errors, or a nil pointer
abbrev pub Step : Type 0
Step = Verdict ErrorList

abbrev pub and_errors : Step → Step → Step
and_errors a b = and_if a (λ es. and_if b (λ fs. granted (es ++ fs)))

abbrev pub range_of : Result IpNet → Option IpNet
range_of (ok net) = some net
range_of (err e) = none

abbrev pub text_of_range : Option IpNet → String
text_of_range none = "<nil>"
text_of_range (some net) = net.text

abbrev pub decoded : {A : Type 0} → Result A → Option A
decoded (ok a) = some a
decoded (err e) = none

module _ (env : ShootAdmission) where
  -- the context of a shoot, with the one or the other decoder
  abbrev pub found_profile : Option Profile → Verdict Profile
  found_profile none = refused (failed (errorf "cloudprofile could not be found"))
  found_profile (some p) = granted p

  abbrev pub config_text : Profile → Verdict String
  config_text p = elim p.provider_config [
    | none ↦ refused (
        failed
          (errorf (concat ("providerConfig is not given for cloud profile " ∷ quoted p.name ∷ []))))
    | some raw ↦ granted raw
  ]

  abbrev pub failed_with : {A : Type 0} → String → Result A → Verdict A
  failed_with text (ok a) = granted a
  failed_with text (err e) = refused (failed (flat text e))

  abbrev pub infrastructure_text : Option String → Verdict String
  infrastructure_text none = refused (
      field
        (required infrastructure_config_path "infrastructureConfig must be set for GDCH shoots"))
  infrastructure_text (some raw) = granted raw

  unfoldable pub new_validation_context : Decoders → Shoot → Verdict ValidationContext
  new_validation_context decoders shoot =
      and_if (infrastructure_text shoot.infrastructure_config) λ raw.
        and_if (failed_with "error decoding infrastructureConfig:" (decoders.infrastructure raw))
          λ config. and_if (or_failed (env.convert shoot)) λ converted.
            and_if (or_failed (env.get_cloud_profile converted)) λ answer.
              and_if (found_profile answer) λ profile. and_if (config_text profile) λ text.
                and_if
                  (failed_with
                    (concat (
                      "an error occurred while reading the cloud profile "
                      ∷ quoted profile.name
                      ∷ ":"
                      ∷ []))
                    (decoders.cloud_profile text))
                  λ profile_config. granted record {
                    shoot = shoot;
                    infrastructure_config = config;
                    cloud_profile_config = profile_config;
                    cloud_profile = profile;
                  }

  -- the range of the other shoot's nodes, where its configuration can be read
  abbrev pub other_range : Option InfrastructureConfig → Option IpNet
  other_range none = none
  other_range (some config) = range_of (env.parse_cidr config.networks.node_cidr)

  abbrev pub overlap_error : Option IpNet → Option IpNet → String → FieldError
  overlap_error current other name = invalid node_cidr_path (text_of_range current) (
      concat (
        "NodeCIDR \""
        ∷ text_of_range current
        ∷ "\" overlaps with the nodeCIDR \""
        ∷ text_of_range other
        ∷ "\" of shoot with name \""
        ∷ quoted name
        ∷ "\""
        ∷ []))

  -- what one other shoot of the same profile answers
  abbrev pub overlap_with : Option IpNet → Shoot → Option FieldError
  overlap_with current other = elim other.infrastructure_config [
    | none ↦ none
    | some raw ↦
        let range = other_range (decoded (env.strict.infrastructure raw)) in
        if cidr_overlap range current then some (overlap_error current range other.name) else none
  ]

  -- `*shoot.Spec.CloudProfile` and the other shoot's
  abbrev pub same_profile : Option String → Option String → Verdict Bool
  same_profile (some p) (some q) = granted (p == q)
  same_profile _ _ = refused nil_pointer

  abbrev pub or_go_on : Option FieldError → Step → Step
  or_go_on none later = later
  or_go_on (some e) later = granted (e ∷ [])

  -- the loop of validateNodeCIDRNotOverlap: the first overlap ends it
  unfoldable pub overlaps : Shoot → Option IpNet → List Shoot → Step
  unfolding cidr_overlap
  overlaps shoot current [] = granted []
  overlaps shoot current (other ∷ others) =
      let later = overlaps shoot current others in
      if shoot.name == other.name
      then later
      else and_if (same_profile shoot.profile_name other.profile_name)
          (λ same. if same then or_go_on (overlap_with current other) later else later)

  abbrev pub with_range : Shoot → List Shoot → Result IpNet → Step
  with_range shoot shoots (err e) =
      granted (invalid node_cidr_path "<nil>" "error parsing infraConfig NodeCIDR" ∷ [])
  with_range shoot shoots (ok net) = overlaps shoot (some net) shoots

  abbrev pub with_shoots : InfrastructureConfig → Shoot → Result (List Shoot) → Step
  with_shoots config shoot (err e) =
      granted (internal_error node_cidr_path "error listing shoot CRs" ∷ [])
  with_shoots config shoot (ok shoots) =
      with_range shoot shoots (env.parse_cidr config.networks.node_cidr)

  unfoldable pub validate_node_cidr_not_overlap : InfrastructureConfig → Shoot → Step
  validate_node_cidr_not_overlap config shoot = with_shoots config shoot env.list_shoots

  abbrev pub worker_config_errors : FieldPath → Result (Option NodeTemplate) → ErrorList
  worker_config_errors path (err e) = invalid path "" "unable to decode worker providerConfig" ∷ []
  worker_config_errors path (ok config) = validate_worker_config env.milli_value (some config) path

  unfoldable pub provider_config_errors : ℕ → List ShootWorker → ErrorList
  provider_config_errors i [] = []
  provider_config_errors i (w ∷ ws) =
      elim w.provider_config [
        | none ↦ []
        | some raw ↦
            worker_config_errors (child_of (index_of workers_path i) "providerConfig")
              (env.strict.worker raw)
      ]
      ++ provider_config_errors (i + 1) ws

  abbrev pub profile_zones : ValidationContext → List (String × Bool)
  profile_zones context = get_allowed_zones [] context.cloud_profile.regions

  abbrev pub config_errors : ValidationContext → Option String → ErrorList
  config_errors context nodes =
      validate_networking env.checks nodes network_path
      ++ validate_infrastructure_config env.checks context.infrastructure_config.networks
          (profile_zones context) nodes infrastructure_config_path

  abbrev pub networking_errors : ValidationContext → Option (Option String) → Step
  networking_errors context none = granted []
  networking_errors context (some nodes) =
      and_errors (granted (config_errors context nodes))
        (validate_node_cidr_not_overlap context.infrastructure_config context.shoot)

  unfoldable pub validate_context : ValidationContext → Step
  validate_context context = and_errors (networking_errors context context.shoot.networking) (
      granted (
        validate_workers (plain_workers context.shoot.workers) (profile_zones context)
          context.infrastructure_config.networks.zones workers_path
        ++ provider_config_errors 0 context.shoot.workers))

  unfoldable pub validate_create : Shoot → Verdict (Unit {0})
  validate_create shoot =
      and_if (new_validation_context env.strict shoot)
        λ context. and_if (validate_context context) aggregate

abbrev pub bool_eq : Bool → Bool → Bool
bool_eq true b = b
bool_eq false true = false
bool_eq false false = true

abbrev pub opt_bool_eq : Option Bool → Option Bool → Bool
opt_bool_eq none none = true
opt_bool_eq (some a) (some b) = bool_eq a b
opt_bool_eq _ _ = false

abbrev pub reference_eq : Option SubnetReference → Option SubnetReference → Bool
reference_eq none none = true
reference_eq (some a) (some b) =
    a.name == b.name && opt_eq a.namespace b.namespace && a.type == b.type
reference_eq _ _ = false

abbrev pub zones_eq : List Zone → List Zone → Bool
zones_eq [] [] = true
zones_eq (a ∷ l) (b ∷ m) = a.name == b.name && a.cidr == b.cidr && zones_eq l m
zones_eq _ _ = false

-- reflect.DeepEqual of two infrastructure configurations
unfoldable pub config_eq : InfrastructureConfig → InfrastructureConfig → Bool
config_eq a b =
    a.networks.parent_address_pool_claim == b.networks.parent_address_pool_claim
    && a.networks.node_cidr == b.networks.node_cidr
    && a.networks.parent_subnet == b.networks.parent_subnet
    && a.networks.parent_subnet_project == b.networks.parent_subnet_project
    && reference_eq a.networks.parent_reference b.networks.parent_reference
    && zones_eq a.networks.zones b.networks.zones
    && opt_bool_eq a.enable_egress b.enable_egress

module _ (env : ShootAdmission) where
  abbrev pub update_errors : InfrastructureConfig → InfrastructureConfig → ErrorList
  update_errors old new =
      if config_eq old new
      then []
      else validate_infrastructure_config_update (some old) (some new) infrastructure_config_path

  -- `if len(errList) > 0 { return … }`, then what follows
  abbrev pub unless_errors : Verdict (Unit {0}) → ErrorList → Verdict (Unit {0})
  unless_errors later [] = later
  unless_errors later (e ∷ es) = aggregate (e ∷ es)

  unfoldable pub validate_update : Shoot → Shoot → Verdict (Unit {0})
  validate_update old current = and_if (new_validation_context env env.lenient old) λ before.
      and_if (new_validation_context env env.strict current) λ after.
        and_if (validate_context env after) (
          unless_errors
            (aggregate (update_errors before.infrastructure_config after.infrastructure_config)))

  abbrev pub validate_against : Shoot → Option (Option Shoot) → Verdict (Unit {0})
  validate_against shoot none = validate_create env shoot
  validate_against shoot (some none) = wrong_type
  validate_against shoot (some (some old)) = validate_update old shoot

  -- Validate: an object that is no shoot is `none`, and so is an old object that is not there
  unfoldable pub validate_shoot : Option Shoot → Option (Option Shoot) → Verdict (Unit {0})
  validate_shoot none old = wrong_type
  validate_shoot (some shoot) old =
      if env.is_workerless shoot then granted tt else validate_against shoot old
