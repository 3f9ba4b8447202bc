-- ===== src/Engine/Cache.antt =====
-- engine/cache.go: the latest value of every tag, sharded by driver. The hash of `hash/fnv` is a
-- parameter. The 64 shards are a function of the shard's number; a Go map is an association list.
-- A driver's cache keeps the snapshot that `GetByDriver` handed out last and whether it is out of
-- date. Each method runs as one step.
pub mod Refinement
pub mod Snapshot
mod Tests
use core_c.Common.{
  ℕ, zero, suc, ◌%◌, String, Bool, true, false, not, ◌&&◌, Option, none, some, List, [], ◌∷◌,
  if◌then◌else◌, ◌==◌, string_key, nat_key,
}
use core_c.Common.Maps.{lookup, insert, delete}
use core_c.Core.{DataPoint}

abbrev pub num_cache_shards : ℕ
num_cache_shards = 64

pub record DriverCache (V : Type 0) : Type 0 where
  pub values : List (String × DataPoint V)
  pub snapshot : Option (List (String × DataPoint V))
  pub dirty : Bool

-- `shard_of` is the hash of a driver's name, before the remainder.
pub record LatestCache (V : Type 0) : Type 0 where
  pub hash : String → ℕ
  pub shards : ℕ → List (String × DriverCache V)

module _ {V : Type 0} where
  unfoldable pub new_latest_cache : (String → ℕ) → LatestCache V
  new_latest_cache hash = record { hash = hash; shards = λ i. [] }

  pub cache_shard_idx : LatestCache V → String → ℕ
  cache_shard_idx c driver = c.hash driver % num_cache_shards

  -- `shard.drivers` of the driver's shard, and an assignment to it.
  shard : LatestCache V → String → List (String × DriverCache V)
  unfolding cache_shard_idx
  shard c driver = c.shards (cache_shard_idx c driver)

  set_shard : LatestCache V → String → List (String × DriverCache V) → LatestCache V
  unfolding cache_shard_idx
  set_shard c driver drivers = record c {
    shards = λ i. if cache_shard_idx c driver == i then drivers else c.shards i;
  }

  pub find : LatestCache V → String → Option (DriverCache V)
  unfolding shard lookup
  find c driver = lookup driver (shard c driver)

  pub put : LatestCache V → String → DriverCache V → LatestCache V
  unfolding set_shard shard insert
  put c driver dc = set_shard c driver (insert driver dc (shard c driver))

  -- What `Update` makes of the driver's cache, which it creates if it is missing.
  store_point : Option (DriverCache V) → DataPoint V → DriverCache V
  unfolding insert
  store_point none point = record {
    values = insert point.tag point [];
    snapshot = none;
    dirty = true;
  }
  store_point (some dc) point = record dc {
    values = insert point.tag point dc.values;
    dirty = true;
  }

  unfoldable pub update : LatestCache V → DataPoint V → LatestCache V
  unfolding put find store_point
  update c point = put c point.driver (store_point (find c point.driver) point)

  unfoldable pub get : LatestCache V → String → String → Option (DataPoint V)
  unfolding find lookup
  get c driver tag = elim (find c driver) [ none ↦ none | some dc ↦ lookup tag dc.values ]

  -- The slow path of `GetByDriver`.
  rebuild : DriverCache V → DriverCache V
  rebuild dc = record dc { snapshot = some dc.values; dirty = false }

  read_snapshot : DriverCache V → List (String × DataPoint V) × DriverCache V
  unfolding rebuild
  read_snapshot dc =
      if not dc.dirty
      then elim dc.snapshot [ some p ↦ (p, dc) | none ↦ (dc.values, rebuild dc) ]
      else (dc.values, rebuild dc)

  pub get_by_driver : LatestCache V → String → Option (List (String × DataPoint V)) × LatestCache V
  unfolding find put read_snapshot
  get_by_driver c driver = elim (find c driver) [
    | none ↦ (none, c)
    | some dc ↦ (some (read_snapshot dc).0, put c driver (read_snapshot dc).1)
  ]

  -- `GetAll` copies every tag of every driver into one map, the shards in order.
  copy_values :
      List (String × DataPoint V) → List (String × DataPoint V) → List (String × DataPoint V)
  unfolding insert
  copy_values [] all = all
  copy_values ((k, p) ∷ values) all = copy_values values (insert k p all)

  copy_drivers :
      List (String × DriverCache V) → List (String × DataPoint V) → List (String × DataPoint V)
  unfolding copy_values
  copy_drivers [] all = all
  copy_drivers ((name, dc) ∷ drivers) all = copy_drivers drivers (copy_values dc.values all)

  copy_shards : LatestCache V → ℕ → List (String × DataPoint V)
  unfolding copy_drivers
  copy_shards c zero = []
  copy_shards c (suc n) = copy_drivers (c.shards n) (copy_shards c n)

  unfoldable pub get_all : LatestCache V → List (String × DataPoint V)
  unfolding copy_shards
  get_all c = copy_shards c num_cache_shards

  pub delete_driver : LatestCache V → String → LatestCache V
  unfolding set_shard shard delete
  delete_driver c driver = set_shard c driver (delete driver (shard c driver))

  pub delete_tag : LatestCache V → String → String → LatestCache V
  unfolding find put delete
  delete_tag c driver tag = elim (find c driver) [
    | none ↦ c
    | some dc ↦ put c driver (record dc { values = delete tag dc.values; dirty = true })
  ]

  pub clear : LatestCache V → LatestCache V
  clear c = record c { shards = λ i. [] }
