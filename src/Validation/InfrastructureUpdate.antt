-- ===== src/Validation/InfrastructureUpdate.antt =====
-- pkg/apis/gdc/validation/infrastructure.go: ValidateInfrastructureConfigUpdate and its helpers.
use gardener_extension_provi.Common.{
  String, Bool, true, false, not, ◌&&◌, ◌==◌, Option, none, some, [], ◌∷◌, ◌++◌, text_of,
  if◌then◌else◌,
}
use gardener_extension_provi.Apis.{
  ReferenceType, single_subnet, SubnetReference, NetworkConfig, InfrastructureConfig,
}
use gardener_extension_provi.Validation.{
  FieldPath, child_of, invalid, internal_error, ErrorList, fails_if,
}

abbrev pub is_set : Option SubnetReference → Bool
is_set none = false
is_set (some r) = true

abbrev reference_path : FieldPath → String → FieldPath
reference_path path name = child_of (child_of path "parentReference") name

-- an empty type means SingleSubnet
abbrev pub or_single : ReferenceType → ReferenceType
or_single type = if type == "" then single_subnet else type

unfoldable pub validate_parent_subnet_migration :
    NetworkConfig → SubnetReference → FieldPath → ErrorList
validate_parent_subnet_migration old ref path =
    fails_if (not (ref.name == old.parent_subnet)) (
      invalid (reference_path path "name") ref.name
        "parentReference name must match the old parentSubnet during migration")
    ++ (fails_if (not (text_of ref.namespace == old.parent_subnet_project)) (
          invalid (reference_path path "namespace") (text_of ref.namespace)
            "parentReference namespace must match the old parentSubnetProject during migration")
        ++ fails_if (not (or_single ref.type == single_subnet)) (
            invalid (reference_path path "type") (or_single ref.type)
              "parentReference type must be SingleSubnet during migration from parentSubnet"))

unfoldable pub validate_parent_reference_update :
    Option SubnetReference → Option SubnetReference → Bool → FieldPath → ErrorList
validate_parent_reference_update (some old) (some new) migration path =
    fails_if (not (old.name == new.name))
      (invalid (reference_path path "name") new.name "parentReference name is immutable")
    ++ (fails_if (not (text_of old.namespace == text_of new.namespace)) (
          invalid (reference_path path "namespace") (text_of new.namespace)
            "parentReference namespace is immutable")
        ++ fails_if (not (old.type == new.type))
            (invalid (reference_path path "type") new.type "parentReference type is immutable"))
validate_parent_reference_update (some old) none migration path =
    invalid (child_of path "parentReference") "" "cannot remove parentReference" ∷ []
validate_parent_reference_update none (some new) migration path =
    fails_if (not migration)
      (invalid (child_of path "parentReference") "" "cannot add parentReference without migration")
validate_parent_reference_update none none migration path = []

-- parentSubnet was set or changed away, is now empty, and a parentReference is given
unfoldable pub is_migration : NetworkConfig → NetworkConfig → Bool
is_migration old new =
    not (old.parent_subnet == new.parent_subnet)
    && (new.parent_subnet == "" && is_set new.parent_reference)

abbrev removal_text : String → String
removal_text new =
    if new == ""
    then "cannot remove parentSubnet without providing parentReference"
    else "parentSubnet is immutable"

unfoldable pub validate_legacy_fields : NetworkConfig → NetworkConfig → FieldPath → ErrorList
validate_legacy_fields old new path =
    fails_if (not (old.parent_subnet == new.parent_subnet))
      (invalid (child_of path "parentSubnet") new.parent_subnet (removal_text new.parent_subnet))
    ++ fails_if (not (old.parent_subnet_project == new.parent_subnet_project)) (
        invalid (child_of path "parentSubnetProject") new.parent_subnet_project
          "parentSubnetProject is immutable")

-- the branch for a migration; its reference is not nil there
abbrev migration_errors : NetworkConfig → Option SubnetReference → FieldPath → ErrorList
migration_errors old none path = []
migration_errors old (some ref) path = validate_parent_subnet_migration old ref path

unfoldable pub validate_networks_update : NetworkConfig → NetworkConfig → FieldPath → ErrorList
unfolding validate_parent_subnet_migration validate_parent_reference_update is_migration
    validate_legacy_fields
validate_networks_update old new path =
    let migration = is_migration old new in
    fails_if (not (old.node_cidr == new.node_cidr))
      (invalid (child_of path "nodeCIDR") new.node_cidr "nodeCIDR is immutable")
    ++ ((if migration
          then migration_errors old new.parent_reference path
          else validate_legacy_fields old new path)
        ++ validate_parent_reference_update old.parent_reference new.parent_reference migration
            path)

-- a nil configuration is an internal error
unfoldable pub validate_infrastructure_config_update :
    Option InfrastructureConfig → Option InfrastructureConfig → FieldPath → ErrorList
unfolding validate_networks_update
validate_infrastructure_config_update none new path =
    internal_error path "old infrastructure config is nil" ∷ []
validate_infrastructure_config_update (some old) none path =
    internal_error path "new infrastructure config is nil" ∷ []
validate_infrastructure_config_update (some old) (some new) path =
    validate_networks_update old.networks new.networks (child_of path "networks")
