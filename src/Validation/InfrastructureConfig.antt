-- ===== src/Validation/InfrastructureConfig.antt =====
-- pkg/apis/gdc/validation/infrastructure.go: ValidateInfrastructureConfig and validate; shoot.go.
pub mod Zones
pub mod Accepted
use Prim.Native.String.{compare}
use text.Mathlib.Text.{is_le}
use gardener_extension_provi.Common.{
  ℕ, ◌+◌, String, Bool, true, not, ◌&&◌, ◌==◌, Option, none, some, List, [], ◌∷◌, ◌++◌, is_empty,
  any, allowed, if◌then◌else◌,
}
use gardener_extension_provi.Apis.{SubnetReference, Zone, NetworkConfig}
use gardener_extension_provi.Validation.{
  FieldPath, child_of, index_of, required, invalid, not_supported, ErrorList, fails_if, CidrChecks,
}

abbrev pub names_nothing : Option SubnetReference → Bool
names_nothing none = true
names_nothing (some r) = r.name == ""

abbrev pub zone_path : FieldPath → ℕ → String → FieldPath
zone_path path i name = child_of (index_of (child_of path "zones") i) name

unfoldable pub insert_sorted : String → List String → List String
insert_sorted s [] = s ∷ []
insert_sorted s (t ∷ ts) = if is_le (compare s t) then s ∷ t ∷ ts else t ∷ insert_sorted s ts

-- the keys of the map, by sort.Strings
unfoldable pub sorted_names : List (String × Bool) → List String
unfolding insert_sorted
sorted_names [] = []
sorted_names ((k, b) ∷ m) = insert_sorted k (sorted_names m)

-- the check of one zone's name; `valid` is the list of the supported names that the error shows
unfoldable pub zone_name_errors :
    List (String × Bool) → List String → FieldPath → ℕ → Zone → ErrorList
zone_name_errors zones valid path i z =
    if z.name == ""
    then required (zone_path path i "name") "must specify the zone name" ∷ []
    else fails_if (not (allowed z.name zones))
        (not_supported (zone_path path i "name") z.name valid)

module _ (checks : CidrChecks) where
  -- whether a range overlaps one of the validated ranges
  unfoldable pub is_overlapping : String → List String → Bool
  is_overlapping cidr validated = any (λ d. not (is_empty (checks.not_overlap cidr d))) validated

  -- the part of the loop's body behind the parse: its errors, and the validated ranges afterwards
  unfoldable pub zone_range_errors : FieldPath → String → ℕ → Zone → List String → ErrorList
  unfolding is_overlapping
  zone_range_errors path node_cidr i z validated =
      checks.is_canonical (zone_path path i "CIDR") z.cidr
      ++ (fails_if (is_overlapping z.cidr validated) (
            invalid (zone_path path i "CIDR") z.cidr
              "zone CIDR must not overlap with other zone CIDRs")
          ++ checks.subset node_cidr z.cidr (zone_path path i "CIDR"))

  unfoldable pub keep_range : String → List String → List String
  unfolding is_overlapping
  keep_range cidr validated =
      if is_overlapping cidr validated then validated else validated ++ cidr ∷ []

  -- the ranges and the errors that one round leaves
  unfoldable pub zone_cidr_step :
      FieldPath → String → ℕ → Zone → List String → ErrorList × List String
  unfolding zone_range_errors keep_range
  zone_cidr_step path node_cidr i z validated =
      if z.cidr == ""
      then (required (zone_path path i "CIDR") "must specify the zone CIDR" ∷ [], validated)
      else if is_empty (checks.parse z.cidr (zone_path path i "CIDR"))
      then (zone_range_errors path node_cidr i z validated, keep_range z.cidr validated)
      else (checks.parse z.cidr (zone_path path i "CIDR"), validated)

  unfoldable pub zone_errors :
      List (String × Bool)
      → List String
      → FieldPath
      → String
      → ℕ
      → List Zone
      → List String
      → ErrorList
  unfolding zone_name_errors zone_cidr_step
  zone_errors zones valid path node_cidr i [] validated = []
  zone_errors zones valid path node_cidr i (z ∷ zs) validated =
      let (errors, validated') = zone_cidr_step path node_cidr i z validated in
      zone_name_errors zones valid path i z
      ++ (errors ++ zone_errors zones valid path node_cidr (i + 1) zs validated')

  unfoldable pub validate : NetworkConfig → List (String × Bool) → FieldPath → ErrorList
  unfolding zone_errors sorted_names
  validate n zones path =
      fails_if (n.parent_subnet == "" && names_nothing n.parent_reference) (
        invalid (child_of path "parentReference") ""
          "either parentSubnet or parentReference must be specified")
      ++ (if is_empty n.zones
          then required (child_of path "zones") "must specify the zones" ∷ []
          else zone_errors zones (sorted_names zones) path n.node_cidr 0 n.zones [])

  -- `clusterNetworkingNodes.ValidateSubset(infraNetworkNodeCIDR)`, where the shoot has a node range
  abbrev pub cluster_subset : Option String → String → FieldPath → ErrorList
  cluster_subset none node_cidr path = []
  cluster_subset (some nodes) node_cidr path = checks.subset nodes node_cidr path

  unfoldable pub validate_infrastructure_config :
      NetworkConfig → List (String × Bool) → Option String → FieldPath → ErrorList
  unfolding validate
  validate_infrastructure_config n zones nodes path =
      let networks = child_of path "networks" in
      let node_path = child_of networks "nodecidr" in
      if n.node_cidr == ""
      then required node_path "must specify the network range for the worker nodecidr" ∷ []
      else if is_empty (checks.parse n.node_cidr node_path)
      then checks.is_canonical node_path n.node_cidr
        ++ (cluster_subset nodes n.node_cidr node_path ++ validate n zones networks)
      else checks.parse n.node_cidr node_path

  -- shoot.go
  unfoldable pub validate_networking : Option String → FieldPath → ErrorList
  validate_networking none path =
      required (child_of path "nodes") "a nodes CIDR must be provided for GDCH shoots" ∷ []
  validate_networking (some nodes) path = checks.parse nodes (child_of path "nodes")
