-- ===== src/Worker/Names/Hash.antt =====
-- Which changes of a pool change its hash, and with it the names of its machine classes.
use gardener_extension_provi.Common.{String, ◌≡◌, refl, ap, Option, none, some, List}
use gardener_extension_provi.Failure.{ok}
use gardener_extension_provi.Validation.Workers.{ResourceList}
use gardener_extension_provi.Worker.Objects.{
  PoolTemplate, WorkerConfig, WorkerPool, Cluster, Surroundings,
}
use gardener_extension_provi.Worker.Names.{
  without_virtual, map_template, strip_provider_config, strip_virtual_capacity, worker_pool_hash,
  with_stripped, hash_of,
}

-- a pool with a template and a provider configuration put in
abbrev pub with_capacity : WorkerPool → PoolTemplate → Option ResourceList → String → WorkerPool
with_capacity pool template virtual raw = record pool {
  node_template = some (record template { virtual_capacity = virtual });
  provider_config = some (some raw);
}

module _ {W : Type 0} (env : Surroundings W) where
  strip_same :
      (raw raw' : String) (config config' : WorkerConfig)
      → env.decode_worker_config raw ≡ ok config
      → env.decode_worker_config raw' ≡ ok config'
      → map_template without_virtual config.node_template
        ≡ map_template without_virtual config'.node_template
      → strip_provider_config env (some (some raw)) ≡ strip_provider_config env (some (some raw'))
  unfolding strip_provider_config
  strip_same raw raw' config config' d d' e = rw (strip_provider_config, d, d', e) refl

  -- The hash of a pool does not see virtual capacity: two pools that differ only in the virtual capacity of the template,
  -- and in that of the template which their provider configurations decode to, have the same hash, or fail alike.
  pub worker_pool_hash_ignores_virtual_capacity :
      (cluster : Cluster) (pool : WorkerPool) (template : PoolTemplate)
      (virtual virtual' : Option ResourceList) (raw raw' : String) (config config' : WorkerConfig)
      (additional in_place : List String)
      → env.decode_worker_config raw ≡ ok config
      → env.decode_worker_config raw' ≡ ok config'
      → map_template without_virtual config.node_template
        ≡ map_template without_virtual config'.node_template
      → worker_pool_hash env cluster (with_capacity pool template virtual raw) additional in_place
        ≡ worker_pool_hash env cluster
            (with_capacity pool template virtual' raw')
            additional
            in_place
  unfolding worker_pool_hash strip_virtual_capacity
  worker_pool_hash_ignores_virtual_capacity cluster pool template virtual virtual' raw raw' config
        config' additional in_place d d' e =
      ap
        (λ r.
          hash_of env cluster additional in_place
            (with_stripped (with_capacity pool template none raw) r))
        (strip_same raw raw' config config' d d' e)
