-- ===== src/Engine/Derived/Environment.antt =====
-- engine/derived.go: `buildEnv`, the environment of an expression. `time.Now` is the argument `now`.
use core_c.Common.{
  ℕ, ◌-◌, String, Bool, false, ◌&&◌, ◌||◌, Option, none, some, List, [], ◌∷◌, ◌++◌, ltb,
  if◌then◌else◌, ◌==◌, string_key,
}
use core_c.Common.Ints.{pos}
use core_c.Common.Maps.{lookup, insert}
use core_c.Common.Texts.{◌<>◌}
use core_c.Values.{
  GoValue, float64_value, float32_value, int_value, int8_value, int16_value, int32_value,
  int64_value, uint_value, uint8_value, uint16_value, uint32_value, uint64_value, bool_value,
  string_value, bytes_value, nil_value, Floats, zero_float,
}
use core_c.Core.{DataPoint}
use core_c.Engine.Cache.{LatestCache, get}
use core_c.Engine.Derived.{QualifiedRef}

pub data EnvValue (F : Type 0) : Type 0 where
  number : F → EnvValue F
  driver_env : List (String × F) → EnvValue F

-- What `buildEnv` returns.
pub record Environment (F : Type 0) : Type 0 where
  pub env : List (String × EnvValue F)
  pub missing : List String
  pub stale : Bool

module _ {F : Type 0} where
  -- The map of a driver, new if there is none, and one assignment to it.
  unfoldable pub tags_of : List (String × EnvValue F) → String → List (String × F)
  unfolding lookup
  tags_of env driver = elim (lookup driver env) [
    | none ↦ []
    | some value ↦ elim value [ number x ↦ [] | driver_env m ↦ m ]
  ]

  unfoldable pub assign :
      String → String → F → List (String × EnvValue F) → List (String × EnvValue F)
  unfolding tags_of insert
  assign driver tag x env = insert driver (driver_env (insert tag x (tags_of env driver))) env

module _ {F G : Type 0} (floats : Floats F G) where
  unfoldable pub to_float64 : GoValue F G → Option F
  to_float64 (float64_value x) = some x
  to_float64 (float32_value x) = some (floats.of_float32 x)
  to_float64 (int_value n) = some (floats.of_int n)
  to_float64 (int16_value n) = some (floats.of_int n)
  to_float64 (int32_value n) = some (floats.of_int n)
  to_float64 (int64_value n) = some (floats.of_int n)
  to_float64 (uint_value n) = some (floats.of_int (pos n))
  to_float64 (uint16_value n) = some (floats.of_int (pos n))
  to_float64 (uint32_value n) = some (floats.of_int (pos n))
  to_float64 (uint64_value n) = some (floats.of_int (pos n))
  to_float64 (bool_value b) = some (floats.of_int (if b then pos 1 else pos 0))
  to_float64 (int8_value n) = none
  to_float64 (uint8_value n) = none
  to_float64 (string_value s) = none
  to_float64 (bytes_value s) = none
  to_float64 nil_value = none

  unfoldable pub inject_missing : String → String → String → Environment F → Environment F
  unfolding assign insert
  inject_missing name driver tag e = record e {
    missing = e.missing ++ name ∷ [];
    env =
        if driver == ""
        then insert name (number (zero_float floats)) e.env
        else assign driver tag (zero_float floats) e.env;
  }

  -- A cached point with its number.
  unfoldable pub numeric : Option (DataPoint (GoValue F G)) → Option (DataPoint (GoValue F G) × F)
  unfolding to_float64
  numeric none = none
  numeric (some p) = elim (to_float64 p.value) [ none ↦ none | some x ↦ some (p, x) ]

  module _ (now stale_guard : ℕ) where
    unfoldable pub is_outdated : DataPoint (GoValue F G) → Bool
    is_outdated p = ltb 0 stale_guard && ltb stale_guard (now - p.timestamp)

    -- One round of each loop of `buildEnv`.
    unfoldable pub bind_var :
        List (String × DataPoint (GoValue F G)) → String → Environment F → Environment F
    unfolding inject_missing numeric is_outdated lookup insert
    bind_var snapshot v e = elim (numeric (lookup v snapshot)) [
      | none ↦ inject_missing v "" "" e
      | some (p, x) ↦ record e { env = insert v (number x) e.env; stale = e.stale || is_outdated p }
    ]

    unfoldable pub bind_ref :
        LatestCache (GoValue F G) → QualifiedRef → Environment F → Environment F
    unfolding inject_missing numeric is_outdated assign
    bind_ref cache q e = elim (numeric (get cache q.driver q.tag)) [
      | none ↦ inject_missing (q.driver <> "." <> q.tag) q.driver q.tag e
      | some (p, x) ↦ record e {
        env = assign q.driver q.tag x e.env;
        stale = e.stale || is_outdated p;
      }
    ]

    unfoldable pub bind_vars :
        List (String × DataPoint (GoValue F G)) → List String → Environment F → Environment F
    unfolding bind_var
    bind_vars snapshot [] e = e
    bind_vars snapshot (v ∷ vs) e = bind_vars snapshot vs (bind_var snapshot v e)

    unfoldable pub bind_refs :
        LatestCache (GoValue F G) → List QualifiedRef → Environment F → Environment F
    unfolding bind_ref
    bind_refs cache [] e = e
    bind_refs cache (q ∷ qs) e = bind_refs cache qs (bind_ref cache q e)

    unfoldable pub build_env :
        List String
        → List QualifiedRef
        → List (String × DataPoint (GoValue F G))
        → LatestCache (GoValue F G)
        → Environment F
    unfolding bind_vars bind_refs
    build_env vars qualified snapshot cache =
        bind_refs cache qualified
          (bind_vars snapshot vars (record { env = []; missing = []; stale = false }))
