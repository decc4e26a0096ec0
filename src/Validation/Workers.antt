-- ===== src/Validation/Workers.antt =====
-- pkg/apis/gdc/validation/worker.go.
pub mod Accepted
pub mod Resources
use gardener_extension_provi.Common.{
  ℕ, ℤ, has_remainder, ◌+◌, String, Bool, true, false, not, ◌||◌, ◌==◌, Option, none, some, List,
  [], ◌∷◌, ◌++◌, is_empty, any, allowed, insert, if◌then◌else◌,
}
use gardener_extension_provi.Apis.{Zone}
use gardener_extension_provi.Validation.{
  FieldPath, child_of, index_of, key_of, required, invalid, duplicate, ErrorList, fails_if,
}

-- core.Volume and core.Worker, as far as they are checked
pub record Volume : Type 0 where
  pub type : Option String
  pub size : String

pub record Worker : Type 0 where
  pub name : String
  pub zones : List String
  pub volume : Option Volume

-- A resource.Quantity: its amount, by its sign and its size in billionths, the finest that a quantity can hold; and its
-- text. What MilliValue makes of it is a parameter.
pub record Quantity : Type 0 where
  pub negative : Bool
  pub nanos : ℕ
  pub text : String

abbrev pub ResourceList : Type 0
ResourceList = List (String × Quantity)

pub record NodeTemplate : Type 0 where
  pub capacity : ResourceList
  pub virtual_capacity : ResourceList

unfoldable pub get_infra_zones : List Zone → List (String × Bool)
get_infra_zones [] = []
get_infra_zones (z ∷ zs) = insert z.name true (get_infra_zones zs)

abbrev pub no_type : Option String → Bool
no_type none = true
no_type (some t) = false

abbrev pub volume_errors : FieldPath → Option Volume → ErrorList
volume_errors path none = required path "must specify volume configuration" ∷ []
volume_errors path (some v) =
    fails_if (no_type v.type) (required (child_of path "type") "must specify volume type")
    ++ fails_if (v.size == "") (required (child_of path "size") "must specify volume size")

module _ (profile_zones infra_zones : List (String × Bool)) where
  unfoldable pub zones_errors : FieldPath → ℕ → List String → ErrorList
  zones_errors path i [] = []
  zones_errors path i (z ∷ zs) =
      fails_if (not (allowed z profile_zones) || not (allowed z infra_zones)) (
        invalid (index_of path i) z
          "zone must be defined in the cloudprofile and Infrastructure Config")
      ++ zones_errors path (i + 1) zs

  unfoldable pub validate_zones : Worker → FieldPath → ErrorList
  unfolding zones_errors
  validate_zones w path =
      if is_empty w.zones
      then required path "must specify at least one zone" ∷ []
      else zones_errors path 0 w.zones

  unfoldable pub validate_worker : Worker → FieldPath → ErrorList
  unfolding validate_zones
  validate_worker w path =
      validate_zones w (child_of path "zones") ++ volume_errors (child_of path "volume") w.volume

  unfoldable pub worker_errors : FieldPath → ℕ → List Worker → ErrorList
  unfolding validate_worker
  worker_errors path i [] = []
  worker_errors path i (w ∷ ws) =
      validate_worker w (index_of path i) ++ worker_errors path (i + 1) ws

-- `seen` holds the names of the workers before the i-th one
unfoldable pub name_errors : FieldPath → ℕ → List String → List Worker → ErrorList
name_errors path i seen [] = []
name_errors path i seen (w ∷ ws) =
    (if w.name == ""
      then required (child_of (index_of path i) "name") "must specify a name for the worker pool"
        ∷ []
      else fails_if (any (λ n. n == w.name) seen)
          (duplicate (child_of (index_of path i) "name") w.name))
    ++ name_errors path (i + 1) (w.name ∷ seen) ws

unfoldable pub validate_workers :
    List Worker → List (String × Bool) → List Zone → FieldPath → ErrorList
unfolding name_errors worker_errors get_infra_zones
validate_workers ws profile_zones zones path =
    name_errors path 0 [] ws ++ worker_errors profile_zones (get_infra_zones zones) path 0 ws

unfoldable pub validate_non_negative : Quantity → FieldPath → ErrorList
validate_non_negative q path =
    fails_if q.negative (invalid path q.text "must be greater than or equal to 0")

unfoldable pub validate_resource_list : ResourceList → FieldPath → ErrorList
unfolding validate_non_negative
validate_resource_list [] path = []
validate_resource_list ((k, q) ∷ rs) path =
    validate_non_negative q (key_of path k) ++ validate_resource_list rs path

-- `milli_value` is resource.Quantity's MilliValue, an int64
module _ (milli_value : Quantity → ℤ) where
  unfoldable pub validate_whole_number : Quantity → FieldPath → ErrorList
  validate_whole_number q path =
      fails_if (has_remainder (milli_value q) 1000) (invalid path q.text "must be a whole number")

  unfoldable pub validate_virtual_resource_list : ResourceList → FieldPath → ErrorList
  unfolding validate_non_negative validate_whole_number
  validate_virtual_resource_list [] path = []
  validate_virtual_resource_list ((k, q) ∷ rs) path =
      (if is_empty (validate_non_negative q (key_of path k))
        then validate_whole_number q (key_of path k)
        else validate_non_negative q (key_of path k))
      ++ validate_virtual_resource_list rs path

  -- `none` is a nil WorkerConfig, or one with no node template
  unfoldable pub validate_worker_config : Option (Option NodeTemplate) → FieldPath → ErrorList
  unfolding validate_resource_list validate_virtual_resource_list
  validate_worker_config (some (some t)) path =
      validate_resource_list t.capacity (child_of (child_of path "nodeTemplate") "capacity")
      ++ validate_virtual_resource_list t.virtual_capacity
          (child_of (child_of path "nodeTemplate") "virtualCapacity")
  validate_worker_config _ path = []
