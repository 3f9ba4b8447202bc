-- ===== src/Engine/Cache/Refinement.antt =====
-- engine/cache.go: the cache against the history of what was stored and evicted.
use core_c.Common.{
  ℕ, ◌≡◌, refl, sym, ap, ◌∙◌, inl, inr, String, true, ◌&&◌, Option, none, some, List, [], ◌∷◌,
  if◌then◌else◌, ◌==◌, string_key, nat_key, arith, Bool-cases, Option-cases,
}
use core_c.Common.Maps.{lookup, insert, delete, lookup-insert, lookup-delete}
use core_c.Core.{DataPoint}
use core_c.Engine.Cache.{
  LatestCache, DriverCache, new_latest_cache, find, put, set_shard, shard, cache_shard_idx, update,
  get, get_by_driver, delete_driver, delete_tag, clear, store_point, read_snapshot, rebuild,
}

-- The calls of the cache.
pub data Event (V : Type 0) : Type 0 where
  updated : DataPoint V → Event V
  tag_deleted : String → String → Event V
  driver_deleted : String → Event V
  read : String → Event V
  cleared : Event V

module _ {V : Type 0} where
  abbrev pub step : LatestCache V → Event V → LatestCache V
  step c (updated p) = update c p
  step c (tag_deleted driver tag) = delete_tag c driver tag
  step c (driver_deleted driver) = delete_driver c driver
  step c (read driver) = (get_by_driver c driver).1
  step c cleared = clear c

  -- The cache after a history, which has its newest call first.
  abbrev pub run : (String → ℕ) → List (Event V) → LatestCache V
  run hash [] = new_latest_cache hash
  run hash (e ∷ es) = step (run hash es) e

  -- The point of the last update of the tag, unless the tag, its driver or everything was evicted
  -- since.
  abbrev pub latest : List (Event V) → String → String → Option (DataPoint V)
  latest [] driver tag = none
  latest (updated p ∷ es) driver tag =
      let rest = latest es driver tag in if p.driver == driver && p.tag == tag then some p else rest
  latest (tag_deleted d t ∷ es) driver tag =
      let rest = latest es driver tag in if d == driver && t == tag then none else rest
  latest (driver_deleted d ∷ es) driver tag =
      let rest = latest es driver tag in if d == driver then none else rest
  latest (read d ∷ es) driver tag = latest es driver tag
  latest (cleared ∷ es) driver tag = none

  find-set_shard :
      (c : LatestCache V) (d driver : String) (drivers : List (String × DriverCache V))
      → find (set_shard c d drivers) driver ≡ (
          if cache_shard_idx c d == cache_shard_idx c driver
          then lookup driver drivers
          else find c driver)
  unfolding find set_shard shard cache_shard_idx
  find-set_shard c d driver drivers = ground arith

  find_there :
      (c : LatestCache V) (d driver : String)
      → (cache_shard_idx c d == cache_shard_idx c driver) ≡ true
      → lookup driver (shard c d) ≡ find c driver
  unfolding find shard
  find_there c d driver e =
      ap (λ i. lookup driver (c.shards i))
        ((nat_key.same_iff (cache_shard_idx c d) (cache_shard_idx c driver)).0 e)

  same_shard :
      (c : LatestCache V) (d driver : String)
      → (d == driver) ≡ true
      → (cache_shard_idx c d == cache_shard_idx c driver) ≡ true
  same_shard c d driver e =
      (nat_key.same_iff (cache_shard_idx c d) (cache_shard_idx c driver)).1
        (ap (cache_shard_idx c) ((string_key.same_iff d driver).0 e))

  pub find-put :
      (c : LatestCache V) (d driver : String) (dc : DriverCache V)
      → find (put c d dc) driver ≡ (if d == driver then some dc else find c driver)
  unfolding put
  find-put c d driver dc =
      find-set_shard c d driver (insert d dc (shard c d))
      ∙ rw (lookup-insert d driver dc (shard c d))
          (ground (arith, find_there c d driver, same_shard c d driver))

  pub find-delete_driver :
      (c : LatestCache V) (d driver : String)
      → find (delete_driver c d) driver ≡ (if d == driver then none else find c driver)
  unfolding delete_driver
  find-delete_driver c d driver =
      find-set_shard c d driver (delete d (shard c d))
      ∙ rw (lookup-delete d driver (shard c d))
          (ground (arith, find_there c d driver, same_shard c d driver))

  pub find-clear : (c : LatestCache V) (driver : String) → find (clear c) driver ≡ none
  unfolding find shard clear lookup
  find-clear c driver = refl

  pub find-new :
      (hash : String → ℕ) (driver : String) → find (new_latest_cache {V = V} hash) driver ≡ none
  unfolding find shard lookup new_latest_cache
  find-new hash driver = refl

  -- What `Get` reads in a driver's cache.
  abbrev pub value_in : Option (DriverCache V) → String → Option (DataPoint V)
  value_in none tag = none
  value_in (some dc) tag = lookup tag dc.values

  pub get_lem :
      (c : LatestCache V) (driver tag : String) → get c driver tag ≡ value_in (find c driver) tag
  unfolding get
  get_lem c driver tag = ground arith

  same_value :
      (c : LatestCache V) (d driver tag : String)
      → (d == driver) ≡ true
      → value_in (find c d) tag ≡ value_in (find c driver) tag
  same_value c d driver tag e =
      ap (λ d'. value_in (find c d') tag) ((string_key.same_iff d driver).0 e)

  value_in-store_point :
      (o : Option (DriverCache V)) (p : DataPoint V) (tag : String)
      → value_in (some (store_point o p)) tag ≡ (if p.tag == tag then some p else value_in o tag)
  unfolding store_point lookup
  value_in-store_point none p tag = ground (arith, lookup-insert p.tag tag p [])
  value_in-store_point (some dc) p tag = lookup-insert p.tag tag p dc.values

  pub get-update :
      (c : LatestCache V) (p : DataPoint V) (driver tag : String)
      → get (update c p) driver tag
        ≡ (if p.driver == driver && p.tag == tag then some p else get c driver tag)
  unfolding update
  get-update c p driver tag =
      get_lem (update c p) driver tag
      ∙ rw (find-put c p.driver driver (store_point (find c p.driver) p), get_lem c driver tag)
          (elim (Bool-cases (p.driver == driver)) [
            | inl here ↦ rw here (
                ground (
                  arith,
                  value_in-store_point (find c p.driver) p tag,
                  same_value c p.driver driver tag here,
                ))
            | inr elsewhere ↦ rw elsewhere refl
          ])

  value_in-find-none :
      (c : LatestCache V) (d t driver tag : String)
      → find c d ≡ none
      → value_in (find c driver) tag
        ≡ (if d == driver && t == tag then none else value_in (find c driver) tag)
  value_in-find-none c d t driver tag missing = ground (arith, same_value c d driver tag)

  value_in-put :
      (c : LatestCache V) (d driver tag : String) (dc : DriverCache V)
      → value_in (find (put c d dc) driver) tag
        ≡ (if d == driver then lookup tag dc.values else value_in (find c driver) tag)
  value_in-put c d driver tag dc = rw (find-put c d driver dc) (elim (Bool-cases (d == driver)) [
    | inl here ↦ rw here refl
    | inr elsewhere ↦ rw elsewhere refl
  ])

  value_in-found :
      (c : LatestCache V) (d driver tag : String) (dc : DriverCache V)
      → find c d ≡ some dc
      → (d == driver) ≡ true
      → value_in (find c driver) tag ≡ lookup tag dc.values
  value_in-found c d driver tag dc there same =
      sym (same_value c d driver tag same)
      ∙ ap (λ (o : Option (DriverCache V)). value_in o tag) there

  get-delete_tag :
      (c : LatestCache V) (d t driver tag : String)
      → get (delete_tag c d t) driver tag
        ≡ (if d == driver && t == tag then none else get c driver tag)
  unfolding delete_tag find
  get-delete_tag c d t driver tag =
      get_lem (delete_tag c d t) driver tag
      ∙ rw (get_lem c driver tag) (elim (Option-cases (find c d)) [
        | inl missing ↦ rw (missing, delete_tag) (value_in-find-none c d t driver tag missing)
        | inr (dc, there) ↦
            rw (there, delete_tag)
              (ground (
                arith,
                value_in-put c d driver tag
                    (record dc { values = delete t dc.values; dirty = true }),
                value_in-found c d driver tag dc there,
                lookup-delete t tag dc.values,
              ))
      ])

  read_snapshot-values : (dc : DriverCache V) → (read_snapshot dc).1.values ≡ dc.values
  unfolding read_snapshot rebuild
  read_snapshot-values dc = ground arith

  get-read :
      (c : LatestCache V) (d driver tag : String)
      → get (get_by_driver c d).1 driver tag ≡ get c driver tag
  unfolding get_by_driver find
  get-read c d driver tag =
      get_lem (get_by_driver c d).1 driver tag
      ∙ rw (get_lem c driver tag) (elim (Option-cases (find c d)) [
        | inl missing ↦ rw (missing, get_by_driver) refl
        | inr (dc, there) ↦
            rw (there, get_by_driver)
              (ground (
                arith,
                value_in-put c d driver tag (read_snapshot dc).1,
                value_in-found c d driver tag dc there,
                read_snapshot-values dc,
              ))
      ])

  get-delete_driver :
      (c : LatestCache V) (d driver tag : String)
      → get (delete_driver c d) driver tag ≡ (if d == driver then none else get c driver tag)
  get-delete_driver c d driver tag =
      get_lem (delete_driver c d) driver tag
      ∙ rw (find-delete_driver c d driver, get_lem c driver tag)
          (elim (Bool-cases (d == driver)) [
            | inl here ↦ rw here refl
            | inr elsewhere ↦ rw elsewhere refl
          ])

  -- After any history of updates, evictions of tags and of drivers, clears and reads, and whatever
  -- the hash, `Get` returns the point of the tag's last update, unless the tag, its driver or
  -- everything was evicted since.
  pub get-run-latest :
      (hash : String → ℕ) (es : List (Event V)) (driver tag : String)
      → get (run hash es) driver tag ≡ latest es driver tag
  get-run-latest hash [] driver tag =
      get_lem (new_latest_cache hash) driver tag ∙ rw (find-new hash driver) refl
  get-run-latest hash (updated p ∷ es) driver tag =
      get-update (run hash es) p driver tag ∙ rw (get-run-latest hash es driver tag) refl
  get-run-latest hash (tag_deleted d t ∷ es) driver tag =
      get-delete_tag (run hash es) d t driver tag ∙ rw (get-run-latest hash es driver tag) refl
  get-run-latest hash (driver_deleted d ∷ es) driver tag =
      get-delete_driver (run hash es) d driver tag ∙ rw (get-run-latest hash es driver tag) refl
  get-run-latest hash (read d ∷ es) driver tag =
      get-read (run hash es) d driver tag ∙ get-run-latest hash es driver tag
  get-run-latest hash (cleared ∷ es) driver tag =
      get_lem (clear (run hash es)) driver tag ∙ rw (find-clear (run hash es) driver) refl
