-- ===== src/Engine/Derived/Compile.antt =====
-- engine/derived.go and the swap of evaluators in engine/lifecycle_support.go: from configurations to
-- compiled tags. The regular expressions, `time.ParseDuration` and `expr.Compile` are the fields of
-- `Toolkit`; a negative duration stands as 0. The evaluator is the list of its tags.
use core_c.Common.{
  is_named, ℕ, ◌^◌, String, Bool, false, not, ◌&&◌, ◌||◌, Option, none, some, List, [], ◌∷◌, ltb,
  if◌then◌else◌, ◌==◌, string_key, ◌⊎◌, inl, inr,
}
use core_c.Common.Texts.{is_blank}
use core_c.Engine.Derived.{
  DerivedTagConfig, QualifiedRef, CompiledDerivedTag, OnMissingPolicy, skip, bad_quality,
  zero_value,
}
use core_c.Engine.Derived.Cycles.{no_cycle, cycle, out_of_fuel, detect_derived_cycles}

-- `names` is `identRe` on the text without its qualified references, `qualified_names` is
-- `qualifiedRefRe`.
pub record Toolkit (P : Type 0) : Type 0 where
  pub names : String → List String
  pub qualified_names : String → List QualifiedRef
  pub parse_duration : String → Option ℕ
  pub compile : String → Option P

pub data CompileError : Type 0 where
  parse_interval short_interval parse_stale_guard invalid_on_missing compile_expr : CompileError

pub data ConfigError : Type 0 where
  empty_name : ConfigError
  duplicate_name empty_expr empty_interval : String → ConfigError
  broken_tag : String → CompileError → ConfigError
  cyclic_tags : List String → ConfigError
  undecided not_started : ConfigError

abbrev pub second : ℕ
second = 10 ^ 9

abbrev pub expr_builtins : List String
expr_builtins =
    "true" ∷ "false" ∷ "nil" ∷ "in" ∷ "not" ∷ "and" ∷ "or" ∷ "if" ∷ "else" ∷ "len" ∷ "abs" ∷ "ceil"
    ∷ "floor" ∷ "round" ∷ "int" ∷ "float" ∷ "string" ∷ "toString" ∷ "format" ∷ "trim" ∷ "trimPrefix"
    ∷ "trimSuffix" ∷ "upper" ∷ "lower" ∷ "split" ∷ "join" ∷ "repeat" ∷ "replace" ∷ "contains"
    ∷ "startsWith" ∷ "endsWith" ∷ "matches" ∷ "find" ∷ "type" ∷ "kind" ∷ "isNil" ∷ []

-- The loop of `extractVars`, with the names that it has seen.
unfoldable pub new_vars : List String → List String → List String
unfolding is_named
new_vars seen [] = []
new_vars seen (m ∷ ms) =
    let kept = m ∷ new_vars (m ∷ seen) ms in
    if is_named m expr_builtins || is_named m seen then new_vars seen ms else kept

abbrev pub same_ref : QualifiedRef → QualifiedRef → Bool
same_ref a b = a.driver == b.driver && a.tag == b.tag

unfoldable pub holds_ref : QualifiedRef → List QualifiedRef → Bool
holds_ref r [] = false
holds_ref r (q ∷ qs) = same_ref q r || holds_ref r qs

unfoldable pub new_refs : List QualifiedRef → List QualifiedRef → List QualifiedRef
unfolding holds_ref
new_refs seen [] = []
new_refs seen (r ∷ rs) =
    let kept = r ∷ new_refs (r ∷ seen) rs in if holds_ref r seen then new_refs seen rs else kept

unfoldable pub parse_on_missing : String → Option OnMissingPolicy
parse_on_missing s =
    if s == "" || s == "skip"
    then some skip
    else if s == "bad-quality"
    then some bad_quality
    else if s == "zero"
    then some zero_value
    else none

-- The first error of `validateDerivedTags`, with the names that it has seen.
unfoldable pub validate_from : List String → List DerivedTagConfig → Option ConfigError
unfolding is_named is_blank
validate_from names [] = none
validate_from names (c ∷ cs) =
    let rest = validate_from (c.name ∷ names) cs in
    if is_blank c.name
    then some empty_name
    else if is_named c.name names
    then some (duplicate_name c.name)
    else if is_blank c.expr
    then some (empty_expr c.name)
    else if is_blank c.interval
    then some (empty_interval c.name)
    else rest

unfoldable pub validate_derived_tags : List DerivedTagConfig → Option ConfigError
unfolding validate_from
validate_derived_tags = validate_from []

module _ {P : Type 0} (tools : Toolkit P) where
  unfoldable pub extract_vars : String → List String
  unfolding new_vars
  extract_vars expr = new_vars [] (tools.names expr)

  unfoldable pub extract_qualified_refs : String → List QualifiedRef
  unfolding new_refs
  extract_qualified_refs expr = new_refs [] (tools.qualified_names expr)

  unfoldable pub parse_stale_guard_of : DerivedTagConfig → Option ℕ
  parse_stale_guard_of c =
      if c.stale_guard == "" then some 0 else tools.parse_duration c.stale_guard

  -- The value that `compileDerivedTag` returns.
  abbrev pub compiled_as : DerivedTagConfig → ℕ → ℕ → OnMissingPolicy → P → CompiledDerivedTag P
  compiled_as c interval guard policy program = record {
    config = c;
    program = program;
    vars = extract_vars c.expr;
    qualified = extract_qualified_refs c.expr;
    interval = interval;
    stale_guard = guard;
    on_missing = policy;
  }

  -- What is left of `compileDerivedTag` once the interval is known.
  unfoldable pub compile_rest : DerivedTagConfig → ℕ → CompileError ⊎ CompiledDerivedTag P
  unfolding parse_stale_guard_of parse_on_missing
  compile_rest c interval = elim (parse_stale_guard_of c) [
    | none ↦ inl parse_stale_guard
    | some guard ↦ elim (parse_on_missing c.on_missing) [
      | none ↦ inl invalid_on_missing
      | some policy ↦ elim (tools.compile c.expr) [
        | none ↦ inl compile_expr
        | some program ↦ inr (compiled_as c interval guard policy program)
      ]
    ]
  ]

  unfoldable pub compile_derived_tag : DerivedTagConfig → CompileError ⊎ CompiledDerivedTag P
  unfolding compile_rest
  compile_derived_tag c = elim (tools.parse_duration c.interval) [
    | none ↦ inl parse_interval
    | some interval ↦ if ltb interval second then inl short_interval else compile_rest c interval
  ]

  -- The loop of `newDerivedTagEvaluator`.
  unfoldable pub compile_all : List DerivedTagConfig → ConfigError ⊎ List (CompiledDerivedTag P)
  unfolding compile_derived_tag
  compile_all [] = inr []
  compile_all (c ∷ cs) = elim (compile_derived_tag c) [
    | inl e ↦ inl (broken_tag c.name e)
    | inr t ↦ elim (compile_all cs) [ inl e ↦ inl e | inr ts ↦ inr (t ∷ ts) ]
  ]

  unfoldable pub new_derived_tag_evaluator :
      List DerivedTagConfig → ConfigError ⊎ List (CompiledDerivedTag P)
  unfolding compile_all detect_derived_cycles
  new_derived_tag_evaluator configs = elim (compile_all configs) [
    | inl e ↦ inl e
    | inr tags ↦ elim (detect_derived_cycles tags) [
      | no_cycle ↦ inr tags
      | cycle ns ↦ inl (cyclic_tags ns)
      | out_of_fuel ↦ inl undecided
    ]
  ]

-- `started` says that the engine has a context.
pub record LifecycleSupport (P : Type 0) : Type 0 where
  pub started : Bool
  pub derived_evaluator : Option (List (CompiledDerivedTag P))

module _ {P : Type 0} (tools : Toolkit P) where
  unfoldable pub swap_derived_evaluator :
      LifecycleSupport P → List (CompiledDerivedTag P) → LifecycleSupport P
  swap_derived_evaluator l ev = record l { derived_evaluator = some ev }

  unfoldable pub apply_derived_tags :
      LifecycleSupport P → List DerivedTagConfig → Option ConfigError × LifecycleSupport P
  unfolding validate_derived_tags new_derived_tag_evaluator swap_derived_evaluator
  apply_derived_tags l configs =
      if not l.started then (some not_started, l) else elim (validate_derived_tags configs) [
        | some e ↦ (some e, l)
        | none ↦ elim (new_derived_tag_evaluator tools configs) [
          | inl e ↦ (some e, l)
          | inr ev ↦ (none, swap_derived_evaluator l ev)
        ]
      ]
