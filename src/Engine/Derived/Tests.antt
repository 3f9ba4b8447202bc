-- ===== src/Engine/Derived/Tests.antt =====
-- engine/derived.go: runs on concrete tags.
use core_c.Common.{
  ℕ, string_key, nat_key, ◌-◌, ◌/◌, ◌+◌, ◌*◌, ◌≡◌, ◌≢◌, refl, String, true, false, Option, none,
  some, List, [], ◌∷◌, All, arith, if◌then◌else◌, ◌==◌, ltb,
}
use core_c.Common.Ints.{rounds}
use core_c.Common.Maps.{lookup}
use core_c.Core.{DataPoint, type_float32, good}
use core_c.Engine.Cache.{LatestCache, new_latest_cache, update, get, get_all}
use core_c.Engine.DataBus.{new_data_bus, push}
use core_c.Engine.Derived.{DerivedTagConfig, QualifiedRef, CompiledDerivedTag, skip}
use core_c.Engine.Derived.Cycles.{cycle, detect_derived_cycles}
use core_c.Engine.Derived.Acyclic.{IsJustified, detect_derived_cycles-IsJustified}
use core_c.Engine.Derived.Compile
use core_c.Values.{GoValue, float64_value, Floats}
use core_c.Engine.Derived.Environment.{EnvValue, number, build_env}
use core_c.Engine.Derived.Evaluate.{derived_point, evaluate_tag}
use core_c.Engine.Derived.Resolution.{member, number_of, build_env_resolves}
use core_c.Engine.Derived.Honest.{environment_of, IsBacked, evaluate_good}
use text.Mathlib.TextEquality.{eq_iff}
use mathlib.Core.List.{Memᴰ}
use core_c.Engine.Derived.Swap.{Applied, apply_derived_tags-Applied}

abbrev config_of : String → DerivedTagConfig
config_of name = record {
  name = name;
  expr = "x";
  type = type_float32;
  group = "";
  interval = "5s";
  unit = "";
  on_missing = "";
  stale_guard = "";
}

abbrev tag_of : String → List String → List QualifiedRef → CompiledDerivedTag ℕ
tag_of name vars refs = record {
  config = config_of name;
  program = 0;
  vars = vars;
  qualified = refs;
  interval = Compile.second;
  stale_guard = 0;
  on_missing = skip;
}

-- c reads a, a reads derived.b, and b reads a; "plc1.b" is no derived tag.
abbrev looping : List (CompiledDerivedTag ℕ)
looping =
    tag_of "c" ("speed" ∷ "a" ∷ []) []
    ∷ tag_of "a" []
        (record { driver = "plc1"; tag = "b" } ∷ record { driver = "derived"; tag = "b" } ∷ [])
    ∷ tag_of "b" ("a" ∷ []) []
    ∷ []

-- The path goes through c, the cycle starts at a.
looping_detected : detect_derived_cycles looping ≡ cycle ("a" ∷ "b" ∷ "a" ∷ [])
unfolding detect_derived_cycles
looping_detected = refl

detect_derived_cycles-IsJustified_example : IsJustified looping (detect_derived_cycles looping)
detect_derived_cycles-IsJustified_example = detect_derived_cycles-IsJustified looping

-- Durations are "5s" only, and an expression is its own name.
abbrev tools : Compile.Toolkit ℕ
tools = record {
  names = λ expr. expr ∷ "abs" ∷ expr ∷ [];
  qualified_names = λ expr. [];
  parse_duration = λ s. if s == "5s" then some (5 * Compile.second) else none;
  compile = λ s. if s == "x" then some 1 else none;
}

abbrev running : Compile.LifecycleSupport ℕ
running = record { started = true; derived_evaluator = none }

apply_derived_tags-Applied_example :
    Applied tools running
      (config_of "a" ∷ config_of "b" ∷ [])
      (Compile.apply_derived_tags tools running (config_of "a" ∷ config_of "b" ∷ []))
apply_derived_tags-Applied_example =
    apply_derived_tags-Applied tools running (config_of "a" ∷ config_of "b" ∷ [])

twice_refused :
    Compile.apply_derived_tags tools running (config_of "a" ∷ config_of "a" ∷ [])
    ≡ (some (Compile.duplicate_name "a"), running)
unfolding Compile.apply_derived_tags
twice_refused = refl

builtins_left_out : Compile.extract_vars tools "x" ≡ "x" ∷ []
unfolding Compile.extract_vars
builtins_left_out = refl

-- Numbers without fractions stand for both kinds of floats.
abbrev whole : Floats ℕ ℕ
whole = record {
  of_float32 = λ x. x;
  to_float32 = λ x. x;
  of_int = rounds;
  is_nan = λ x. false;
  is_inf = λ x. ltb 1000 x;
  is_zero = λ x. x == 0;
  add = λ x y. x + y;
  subtract = λ x y. x - y;
  times = λ x y. x * y;
  divide = λ x y. x / y;
}

abbrev point : String → ℕ → ℕ → DataPoint (GoValue ℕ ℕ)
point driver v at = record {
  driver = driver;
  device = "";
  group = "";
  tag = "t";
  value = float64_value v;
  type = type_float32;
  quality = good;
  timestamp = at;
  metadata = [];
  is_stale = false;
}

-- Two drivers with a tag of the same name.
abbrev cache : LatestCache (GoValue ℕ ℕ)
cache = update (update (new_latest_cache (λ driver. 3)) (point "plc" 4 90)) (point "rtu" 9 95)

abbrev refs : List QualifiedRef
refs = record { driver = "plc"; tag = "t" } ∷ record { driver = "rtu"; tag = "t" } ∷ []

-- The program p gives p more than `plc.t`.
abbrev run_program : ℕ → List (String × EnvValue ℕ) → Option (GoValue ℕ ℕ)
run_program p env = elim (member env (record { driver = "plc"; tag = "t" })) [
  | none ↦ none
  | some x ↦ some (float64_value (x + p))
]

abbrev sum_tag : CompiledDerivedTag ℕ
sum_tag = record (tag_of "sum" [] refs) { program = 2; stale_guard = 20 }

abbrev sum_point : DataPoint (GoValue ℕ ℕ)
sum_point = record (point "derived" 6 101) { tag = "sum" }

sum_computed :
    derived_point whole run_program sum_tag (environment_of whole run_program cache 100 sum_tag) 101
    ≡ some sum_point
unfolding derived_point build_env get update new_latest_cache member
sum_computed = refl

build_env_resolves_example :
    ((r : QualifiedRef)
      → Memᴰ r refs
      → member (build_env whole 100 20 ("t" ∷ []) refs (get_all cache) cache).env r
        ≡ some (number_of whole (get cache r.driver r.tag)))
    × ((v : String)
        → Memᴰ v ("t" ∷ [])
        → All (λ (q : QualifiedRef). (q.driver ≢ "") × (q.driver ≢ v)) refs
        → lookup v (build_env whole 100 20 ("t" ∷ []) refs (get_all cache) cache).env
          ≡ some (number (number_of whole (lookup v (get_all cache)))))
build_env_resolves_example =
    build_env_resolves whole 100 20 ("t" ∷ []) refs (get_all cache) cache
      (ground (arith, eq_iff "plc" ""), (ground (arith, eq_iff "rtu" ""), tt))

evaluate_good_example :
    IsBacked whole run_program cache 100 sum_tag sum_point
    × (evaluate_tag whole run_program cache 100 101 sum_tag (new_data_bus 8)
        ≡ push (new_data_bus 8) sum_point)
evaluate_good_example =
    evaluate_good whole run_program cache 100 sum_tag 101 (new_data_bus 8) sum_point sum_computed
      refl
