-- ===== src/Engine/Derived/Evaluate.antt =====
-- engine/derived.go: `evaluate`, the point that an evaluation pushes. `run` is `expr.Run`, with `none`
-- for its error. The two calls of `time.Now` are two arguments.
use core_c.Common.{
  ℕ, String, Bool, true, false, not, ◌&&◌, ◌||◌, Option, none, some, List, [], ◌∷◌, if◌then◌else◌,
  ◌==◌, string_key,
}
use core_c.Core.{DataPoint, Quality, good, bad}
use core_c.Engine.Cache.{LatestCache, get_all}
use core_c.Engine.DataBus.{DataBus, push}
use core_c.Engine.Derived.{
  CompiledDerivedTag, OnMissingPolicy, skip, bad_quality, zero_value, derived_driver_name,
}
use core_c.Values.{GoValue, float64_value, Floats, zero_float}
use core_c.Engine.Derived.Environment.{EnvValue, Environment, to_float64, build_env}

abbrev pub is_skip : OnMissingPolicy → Bool
is_skip skip = true
is_skip bad_quality = false
is_skip zero_value = false

abbrev pub is_bad_quality : OnMissingPolicy → Bool
is_bad_quality skip = false
is_bad_quality bad_quality = true
is_bad_quality zero_value = false

abbrev pub nothing_missing : List String → Bool
nothing_missing [] = true
nothing_missing (n ∷ ns) = false

unfoldable pub quality_of : {F : Type 0} → OnMissingPolicy → Environment F → Option F → Quality
quality_of policy e result = elim result [
  | none ↦ bad
  | some x ↦
      if not (nothing_missing e.missing) && is_bad_quality policy
      then bad
      else if e.stale
      then bad
      else good
]

module _ {F G : Type 0} (floats : Floats F G) where
  -- `val` and `badValue`: `none` is a value that is no finite number.
  unfoldable pub finite : GoValue F G → Option F
  unfolding to_float64
  finite result = elim (to_float64 floats result) [
    | none ↦ none
    | some x ↦ if floats.is_nan x || floats.is_inf x then none else some x
  ]

  unfoldable pub value_or_zero : Option F → F
  value_or_zero none = zero_float floats
  value_or_zero (some x) = x

module _ {F G P : Type 0} (floats : Floats F G) where
  unfoldable pub point_of :
      CompiledDerivedTag P → Environment F → Option F → ℕ → DataPoint (GoValue F G)
  unfolding quality_of value_or_zero
  point_of tag e result now = record {
    driver = derived_driver_name;
    device = "";
    group = tag.config.group;
    tag = tag.config.name;
    value = float64_value (value_or_zero floats result);
    type = tag.config.type;
    quality = quality_of tag.on_missing e result;
    timestamp = now;
    metadata = if tag.config.unit == "" then [] else ("unit", tag.config.unit) ∷ [];
    is_stale = e.stale;
  }

  module _ (run : P → List (String × EnvValue F) → Option (GoValue F G)) where
    -- The point that `evaluate` pushes, if it does not return before.
    unfoldable pub derived_point :
        CompiledDerivedTag P → Environment F → ℕ → Option (DataPoint (GoValue F G))
    unfolding finite point_of
    derived_point tag e now =
        if not (nothing_missing e.missing) && is_skip tag.on_missing
        then none
        else elim (run tag.program e.env) [
          | none ↦ none
          | some result ↦ elim (finite floats result) [
            | none ↦ if is_skip tag.on_missing then none else some (point_of tag e none now)
            | some x ↦ some (point_of tag e (some x) now)
          ]
        ]

    unfoldable pub evaluate_tag :
        LatestCache (GoValue F G)
        → ℕ
        → ℕ
        → CompiledDerivedTag P
        → DataBus (GoValue F G)
        → DataBus (GoValue F G)
    unfolding derived_point build_env get_all
    evaluate_tag cache now later tag bus =
        elim (derived_point tag
          (build_env floats now tag.stale_guard tag.vars tag.qualified (get_all cache) cache)
          later) [ none ↦ bus | some p ↦ push bus p ]
