-- ===== src/Infrastructure/Root.antt =====
-- actuator.go: reconcileRootSubnet and createRootSubnet.
pub mod Ownership
pub mod Kept
use gardener_extension_provi.Common.{
  quoted, String, concat, Option, none, some, List, [], ◌∷◌, Bool, true, false, not, ◌||◌, ◌==◌,
  opt_eq, opt_eq_refl, eq_refl, ◌≡◌, lookup, insert, text_of, if◌then◌else◌,
}
use gardener_extension_provi.Failure.{Error, errorf, wrap, panic, Result, ok, err, is_not_found}
use gardener_extension_provi.Action.{done, Exec, pure, fail, ◌>>=◌, ◌>>◌, attempt, or_wrap}
use gardener_extension_provi.Apis.{
  SubnetReference, single_subnet, Zone, NetworkConfig, InfrastructureConfig,
}
use gardener_extension_provi.Kube.{
  SubnetRequest, SubnetSpec, Subnet, ObjectClient, do_get, do_create, do_patch,
}
use gardener_extension_provi.Secret.{ServiceAccount}
use gardener_extension_provi.Infrastructure.{
  Infrastructure, KubeClient, Zonal, get_ownership_labels, get_existing_owner_label,
}
use gardener_extension_provi.Infrastructure.Ready.{wait_for_global_subnet_ready}
use gardener_extension_provi.Infrastructure.Deletion.{delete_all_subnets}

-- name, type and project that the configuration gives for the parent
abbrev pub configured_parent : NetworkConfig → Option SubnetReference → String × String × String
configured_parent n none = (n.parent_subnet, single_subnet, n.parent_subnet_project)
configured_parent n (some ref) = (ref.name, ref.type, text_of ref.namespace)

abbrev pub or_project : String → String → String
or_project project namespace = if namespace == "" then project else namespace

-- the parent reference of the root subnet
unfoldable pub parent_reference : NetworkConfig → String → SubnetReference
parent_reference n project =
    let (name, type, namespace) = configured_parent n n.parent_reference in
    record { name = name; namespace = some (or_project project namespace); type = type }

-- `Zones[0].Name`; the index panics on no zones
abbrev pub first_zone : List Zone → Result String
first_zone [] = err (panic "index out of range")
first_zone (z ∷ zones) = ok z.name

unfoldable pub desired_root_subnet :
    Infrastructure → NetworkConfig → ServiceAccount → String × String → Subnet
unfolding parent_reference
desired_root_subnet infra n account (key, value) = record {
  name = infra.name;
  namespace = account.project;
  labels = insert "infra-uid" infra.uid ((key, value) ∷ []);
  spec = record {
    type = "Branch";
    zone = none;
    propagation_strategy = "";
    ipv4_request = some (record { cidr = some n.node_cidr; prefix_length = none });
    parent_reference = some (parent_reference n account.project);
    enable_gateway = none;
  };
  ready = none;
  allocation_cidr = none;
}

-- `*ptr` of the requested range and of the parent; nil pointers panic
abbrev pub request_cidr : Option SubnetRequest → Result (Option String)
request_cidr none = err (panic "nil IPv4Request")
request_cidr (some r) = ok r.cidr

abbrev pub parent_of : Option SubnetReference → Result SubnetReference
parent_of none = err (panic "nil ParentReference")
parent_of (some r) = ok r

abbrev pub lift_result : {W A : Type 0} → Result A → Exec W A
lift_result r = done r

-- cidrChanged || parentNameChanged || parentNamespaceChanged, of the desired and the current subnet
abbrev pub parent_changed : SubnetReference → SubnetReference → Bool
parent_changed d c = not (d.name == c.name) || not (opt_eq d.namespace c.namespace)

pub parent_changed_same :
    (d c : SubnetReference)
    → d.name ≡ c.name
    → d.namespace ≡ c.namespace
    → parent_changed d c ≡ false
parent_changed_same d c p q = rw (p, q, eq_refl, opt_eq_refl)

abbrev pub legacy_name : String → Error
legacy_name name = errorf (
    concat (
      "terminal error: root subnet "
      ∷ quoted name
      ∷ " already exists and belongs to an older legacy shoot. Please use a different shoot name to fix"
      ∷ []))

abbrev pub occupied : String → Error
occupied owner = errorf (
    concat (
      "terminal error: global root subnet is occupied by another shoot, the existing fetched label's shoot: "
      ∷ owner ∷ []))

module _ {W : Type 0} where
  unfoldable pub root_changed : SubnetSpec → SubnetSpec → Exec W Bool
  unfolding ◌>>=◌ pure
  root_changed desired cur = do
    desired_cidr ← lift_result (request_cidr desired.ipv4_request)
    cur_cidr ← lift_result (request_cidr cur.ipv4_request)
    desired_parent ← lift_result (parent_of desired.parent_reference)
    cur_parent ← lift_result (parent_of cur.parent_reference)
    pure (not (opt_eq desired_cidr cur_cidr) || parent_changed desired_parent cur_parent)

  unfoldable pub create_root_subnet : ObjectClient W Subnet → Subnet → Exec W (Unit {0})
  unfolding or_wrap do_create
  create_root_subnet c s =
      or_wrap (wrap "failed to create Subnet: ")
        (do_create c (record s { labels = insert "ipam.gdc.goog/vpc" "default-vpc" s.labels }))

  -- an unlabelled legacy subnet
  abbrev pub adopt :
      ObjectClient W Subnet → Infrastructure → String × String → Subnet → Exec W Subnet
  adopt c infra (key, value) cur =
      or_wrap (wrap "failed to adopt legacy subnet with ownership labels: ") (
        do_patch c cur
          (record cur { labels = insert key value (insert "infra-uid" infra.uid cur.labels) }))

  abbrev pub check_legacy :
      ObjectClient W Subnet → Infrastructure → String × String → Subnet → Exec W Subnet
  check_legacy c infra label cur = elim infra.provider_status [
    | none ↦ fail (legacy_name cur.name)
    | some status ↦ adopt c infra label cur
  ]

  abbrev pub check_uid : Infrastructure → String → Subnet → Exec W Subnet
  check_uid infra uid cur =
      if uid == infra.uid then pure cur else fail (occupied (get_existing_owner_label cur.labels))

  -- whether the subnet that was found is this shoot's; the subnet as it is afterwards
  unfoldable pub check_owner :
      ObjectClient W Subnet → Infrastructure → String × String → Subnet → Exec W Subnet
  unfolding pure fail or_wrap do_patch get_existing_owner_label
  check_owner c infra label cur = elim (lookup "infra-uid" cur.labels) [
    | some uid ↦ check_uid infra uid cur
    | none ↦ check_legacy c infra label cur
  ]

module _ {W : Type 0} (determine : Option Error → Option Error) (global : KubeClient W)
    (clients : Zonal W) (infra : Infrastructure) (config : InfrastructureConfig)
    (account : ServiceAccount) where
  unfoldable pub recreate : Subnet → Bool → Exec W (Unit {0})
  unfolding ◌>>=◌ pure delete_all_subnets create_root_subnet
  recreate desired false = pure tt
  recreate desired true = do
    delete_all_subnets determine global clients account.project infra.name config.networks.zones
    create_root_subnet global.global_subnets desired

  unfoldable pub update_root : Subnet → String × String → Subnet → Exec W (Unit {0})
  unfolding ◌>>=◌ check_owner root_changed recreate
  update_root desired label found = do
    cur ← check_owner global.global_subnets infra label found
    changed ← root_changed desired.spec cur.spec
    recreate desired changed

  -- the answer to the Get
  unfoldable pub settle_root : Subnet → String × String → Result Subnet → Exec W (Unit {0})
  unfolding or_wrap fail update_root create_root_subnet
  settle_root desired label (ok found) = update_root desired label found
  settle_root desired label (err e) =
      if is_not_found e
      then or_wrap (wrap "unable to create new subnet: ")
          (create_root_subnet global.global_subnets desired)
      else fail (wrap "unable to get Subnet: " e)

  -- what follows the Get
  unfoldable pub ensure_root : Subnet → String × String → Result Subnet → Exec W Subnet
  unfolding ◌>>=◌ settle_root wait_for_global_subnet_ready
  ensure_root desired label found = do
    settle_root desired label found
    wait_for_global_subnet_ready infra.name account.project global.global_subnets

  -- what follows the choice of the zone
  unfoldable pub ensure_root_at : String → String → Exec W Subnet
  unfolding ◌>>=◌ attempt do_get desired_root_subnet ensure_root
  ensure_root_at seed zone =
      let label = get_ownership_labels account.project infra.name seed zone in
      attempt (do_get global.global_subnets account.project infra.name)
      >>= ensure_root (desired_root_subnet infra config.networks account label) label

  unfoldable pub reconcile_root_subnet : String → Exec W Subnet
  unfolding ◌>>=◌ ensure_root_at
  reconcile_root_subnet seed =
      lift_result (first_zone config.networks.zones) >>= ensure_root_at seed
