-- ===== src/Worker/Labels.antt =====
-- pkg/controller/worker/machine.go: the labels of the machines of a pool. `to_lower` stands with the names of record sets.
pub mod Sanitized
use Prim.Native.Char.{Char, code}
use Prim.Native.String
use Prim.Native.String.{[], ◌∷◌, len, slice}
use mathlib.Core.List
use mathlib.Core.List.{List}
use gardener_extension_provi.Common.{
  ℕ, String, concat, Bool, ◌&&◌, ◌||◌, ◌==◌, ltb, leb, nat_eq, insert, if◌then◌else◌,
}
use gardener_extension_provi.Infrastructure.Egress.{workload_label_selector_key}
use gardener_extension_provi.DnsRecord.Name.{to_lower}
use gardener_extension_provi.Worker.Objects.{WorkerResource, WorkerPool}

-- a to z, 0 to 9, underscore and hyphen
unfoldable pub is_label_char : Char → Bool
is_label_char c =
    (leb 97 (code c) && leb (code c) 122)
    || (leb 48 (code c) && leb (code c) 57)
    || nat_eq (code c) 95
    || nat_eq (code c) 45

-- labelRegex.ReplaceAllString(s, "_"): the expression matches one character at a time
unfoldable pub replace_each : String → String
unfolding is_label_char
replace_each [] = []
replace_each (c ∷ s) = (if is_label_char c then c else "_") ∷ replace_each s

abbrev pub max_label_characters_size : ℕ
max_label_characters_size = 63

abbrev pub cut_label : String → String
cut_label v =
    if ltb max_label_characters_size (len v) then slice v 0 max_label_characters_size else v

unfoldable pub sanitize_label_or_value : String → String
unfolding replace_each to_lower
sanitize_label_or_value label = cut_label (replace_each (to_lower label))

-- the loop over pool.Labels; Go visits the map in an order of its own, the model in that of the list
unfoldable pub add_pool_labels :
    List (String × String) → List (String × String) → List (String × String)
unfolding sanitize_label_or_value
add_pool_labels labels List.[] = labels
add_pool_labels labels (List.◌∷◌ (k, v) rest) =
    let label = sanitize_label_or_value k in
    add_pool_labels
      (if label == "" then labels else insert label (sanitize_label_or_value v) labels) rest

-- the labels of a machine that depend on neither pool nor cluster
abbrev pub fixed_labels : WorkerResource → List (String × String)
fixed_labels worker = insert "kubernetes-io-role-node" "true" (
    insert (concat (List.◌∷◌ "kubernetes-io-cluster-" (List.◌∷◌ worker.namespace List.[]))) "true"
      (insert "name" (sanitize_label_or_value worker.name) List.[]))

unfoldable pub get_gdch_pool_labels : WorkerResource → WorkerPool → String → List (String × String)
unfolding add_pool_labels sanitize_label_or_value
get_gdch_pool_labels worker pool cluster_name =
    add_pool_labels (insert workload_label_selector_key cluster_name (fixed_labels worker))
      pool.labels
