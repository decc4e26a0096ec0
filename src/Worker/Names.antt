-- ===== src/Worker/Names.antt =====
-- pkg/controller/worker/actuator.go: the name of a machine deployment, and the hash of a pool.
pub mod Hash
use Prim.Native.String
use Prim.Native.String.{len, slice}
use text.Mathlib.Text.{starts_with}
use gardener_extension_provi.Common.{
  ℕ, zero, suc, ◌+◌, ◌/◌, ◌%◌, String, concat, quoted, Option, none, some, List, [], ◌∷◌, ltb,
  if◌then◌else◌,
}
use gardener_extension_provi.Failure.{Error, wrap, is_not_found, Result, ok, err}
use gardener_extension_provi.Action.{Exec, done, call, attempt, ◌>>=◌}
use gardener_extension_provi.Worker.Objects.{
  PoolTemplate, WorkerConfig, WorkerPool, WorkerResource, Cluster, Surroundings,
}

abbrev digit : ℕ → String
digit d = slice "0123456789" d (d + 1)

-- the last digits of a number, as many as there is fuel for, and one more
unfoldable pub decimal_digits : ℕ → ℕ → String
decimal_digits zero n = digit (n % 10)
decimal_digits (suc fuel) n =
    let front = decimal_digits fuel (n / 10) in
    if ltb n 10 then digit n else String.◌++◌ front (digit (n % 10))

-- %d: a number has no more digits than it counts
unfoldable pub decimal : ℕ → String
unfolding decimal_digits
decimal n = decimal_digits n n

-- strings.TrimPrefix
abbrev pub trim_prefix : String → String → String
trim_prefix s prefix = if starts_with s prefix then slice s (len prefix) (len s) else s

-- "%s-%s-%d" of a zone of a pool
abbrev pub numbered_name : String → WorkerPool → ℕ → String
numbered_name namespace pool zone_index =
    concat (namespace ∷ "-" ∷ pool.name ∷ "-" ∷ decimal (zone_index + 1) ∷ [])

abbrev pub old_deployment_name : WorkerResource → WorkerPool → ℕ → String
old_deployment_name worker = numbered_name worker.namespace

abbrev pub new_deployment_name : WorkerResource → WorkerPool → ℕ → String
new_deployment_name worker = numbered_name (trim_prefix worker.namespace "shoot--")

-- what the answer to the Get of the old name decides
unfoldable pub name_for : String → String → Result (Unit {0}) → Result String
unfolding is_not_found
name_for old new (ok found) = ok old
name_for old new (err e) =
    if is_not_found e
    then ok new
    else err (
        wrap (concat ("failed to check for existing machine deployment " ∷ quoted old ∷ ":" ∷ []))
          e)

abbrev pub without_virtual : PoolTemplate → PoolTemplate
without_virtual template = record template { virtual_capacity = none }

abbrev pub map_template : (PoolTemplate → PoolTemplate) → Option PoolTemplate → Option PoolTemplate
map_template f none = none
map_template f (some t) = some (f t)

abbrev pub with_stripped : WorkerPool → Result (Option (Option String)) → Result WorkerPool
with_stripped pool (err e) = err e
with_stripped pool (ok config) = ok (record pool {
  node_template = map_template without_virtual pool.node_template;
  provider_config = config;
})

module _ {W : Type 0} (env : Surroundings W) where
  unfoldable pub determine_deployment_name : WorkerResource → WorkerPool → ℕ → Exec W String
  unfolding call attempt ◌>>=◌ name_for decimal
  determine_deployment_name worker pool zone_index = do
    let old = old_deployment_name worker pool zone_index
    existing ← attempt (call (λ w. (env.get_deployment worker.namespace old w, w)))
    done (name_for old (new_deployment_name worker pool zone_index) existing)

  -- a provider configuration that cannot be decoded is left as it is
  unfoldable pub strip_provider_config : Option (Option String) → Result (Option (Option String))
  strip_provider_config none = ok none
  strip_provider_config (some none) = ok (some none)
  strip_provider_config (some (some raw)) = elim (env.decode_worker_config raw) [
    | err e ↦ ok (some (some raw))
    | ok config ↦
        elim (env.marshal_worker_config
          record { node_template = map_template without_virtual config.node_template }) [
            | err e ↦ err (wrap "failed to marshal workerConfig:" e)
            | ok stripped ↦ ok (some (some stripped))
          ]
  ]

  unfoldable pub strip_virtual_capacity : WorkerPool → Result WorkerPool
  unfolding strip_provider_config
  strip_virtual_capacity pool = with_stripped pool (strip_provider_config pool.provider_config)

  abbrev pub hash_of : Cluster → List String → List String → Result WorkerPool → Result String
  hash_of cluster additional_data in_place (err e) = err e
  hash_of cluster additional_data in_place (ok pool) =
      env.pool_hash pool cluster additional_data in_place

  unfoldable pub worker_pool_hash : Cluster → WorkerPool → List String → List String → Result String
  unfolding strip_virtual_capacity
  worker_pool_hash cluster pool additional_data in_place =
      hash_of cluster additional_data in_place (strip_virtual_capacity pool)
