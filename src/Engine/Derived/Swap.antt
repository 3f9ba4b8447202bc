-- ===== src/Engine/Derived/Swap.antt =====
-- engine/derived.go and engine/lifecycle_support.go: which configurations become the evaluator.
use mathlib.Core.Path.{subst}
use core_c.Common.{
  IsDistinct, is_named, ℕ, ◌≤◌, ◌≡◌, refl, ◌≢◌, ◌⊎◌, inl, inr, String, true, false, Option, none,
  some, List, [], ◌∷◌, map, string_key, Bool-cases, Option-cases, arith,
}
use core_c.Engine.Derived.{DerivedTagConfig, CompiledDerivedTag}
use core_c.Engine.Derived.Cycles.{no_cycle, detect_derived_cycles}
use core_c.Engine.Derived.Search.{Verdict-cases}
use core_c.Engine.Derived.Acyclic.{IsJustified, detect_derived_cycles-IsJustified}
use core_c.Engine.Derived.Fuel.{detect_derived_cycles_ends}
use core_c.Engine.Derived.Compile

Sum-cases : {A B : Type 0} (s : A ⊎ B) → ((a : A) × (s ≡ inl a)) ⊎ ((b : B) × (s ≡ inr b))
Sum-cases (inl a) = inl (a, refl)
Sum-cases (inr b) = inr (b, refl)

abbrev pub names_of : List DerivedTagConfig → List String
names_of cs = map (λ (c : DerivedTagConfig). c.name) cs

validate_from-fresh :
    (names : List String) (cs : List DerivedTagConfig) (n : String)
    → Compile.validate_from names cs ≡ none
    → is_named n names ≡ true
    → is_named n (names_of cs) ≡ false
unfolding Compile.validate_from is_named
validate_from-fresh names [] n h k = refl
validate_from-fresh names (c ∷ cs) n h k =
    ground (arith, validate_from-fresh (c.name ∷ names) cs n, string_key.same_iff c.name n)

validate_from-IsDistinct :
    (names : List String) (cs : List DerivedTagConfig)
    → Compile.validate_from names cs ≡ none
    → IsDistinct (names_of cs)
unfolding Compile.validate_from is_named
validate_from-IsDistinct names [] h = tt
validate_from-IsDistinct names (c ∷ cs) h =
    let rest : Compile.validate_from (c.name ∷ names) cs ≡ none = ground arith in
    (
      validate_from-fresh (c.name ∷ names) cs c.name rest
          (ground (arith, string_key.same_iff c.name c.name)),
      validate_from-IsDistinct (c.name ∷ names) cs rest,
    )

module _ {P : Type 0} (tools : Compile.Toolkit P) where
  -- The tag is what its configuration says, evaluated at most once a second.
  pub record IsCompiled (c : DerivedTagConfig) (t : CompiledDerivedTag P) : Type 0 where
    pub config : t.config ≡ c
    pub program : tools.compile c.expr ≡ some t.program
    pub vars : t.vars ≡ Compile.extract_vars tools c.expr
    pub qualified : t.qualified ≡ Compile.extract_qualified_refs tools c.expr
    pub interval : tools.parse_duration c.interval ≡ some t.interval
    pub slow : Compile.second ≤ t.interval
    pub stale_guard : Compile.parse_stale_guard_of tools c ≡ some t.stale_guard
    pub on_missing : Compile.parse_on_missing c.on_missing ≡ some t.on_missing

  -- One tag for each configuration, in order.
  abbrev pub AreCompiled : List DerivedTagConfig → List (CompiledDerivedTag P) → Type 0
  AreCompiled [] [] = Unit
  AreCompiled [] (t ∷ ts) = ⊥
  AreCompiled (c ∷ cs) [] = ⊥
  AreCompiled (c ∷ cs) (t ∷ ts) = IsCompiled c t × AreCompiled cs ts

  compile_rest-IsCompiled :
      (c : DerivedTagConfig) (interval : ℕ) (t : CompiledDerivedTag P)
      → tools.parse_duration c.interval ≡ some interval
      → Compile.second ≤ interval
      → Compile.compile_rest tools c interval ≡ inr t
      → IsCompiled c t
  unfolding Compile.compile_rest
  compile_rest-IsCompiled c interval t d slow h =
      elim (Option-cases (Compile.parse_stale_guard_of tools c)) [
        | inl e ↦ ground arith
        | inr (guard, f0) ↦ elim (Option-cases (Compile.parse_on_missing c.on_missing)) [
          | inl f ↦ ground arith
          | inr (policy, f) ↦ elim (Option-cases (tools.compile c.expr)) [
            | inl g ↦ ground arith
            | inr (program, g) ↦
                let e : Compile.compiled_as tools c interval guard policy program ≡ t =
                  ground arith in
                subst (IsCompiled c) e (record {
                  config = refl;
                  program = g;
                  vars = refl;
                  qualified = refl;
                  interval = d;
                  slow = slow;
                  stale_guard = f0;
                  on_missing = f;
                })
          ]
        ]
      ]

  compile_derived_tag-IsCompiled :
      (c : DerivedTagConfig) (t : CompiledDerivedTag P)
      → Compile.compile_derived_tag tools c ≡ inr t
      → IsCompiled c t
  unfolding Compile.compile_derived_tag
  compile_derived_tag-IsCompiled c t h = elim (Option-cases (tools.parse_duration c.interval)) [
    | inl e ↦ ground arith
    | inr (interval, e) ↦ compile_rest-IsCompiled c interval t e (ground arith) (ground arith)
  ]

  compile_all-AreCompiled :
      (cs : List DerivedTagConfig) (ts : List (CompiledDerivedTag P))
      → Compile.compile_all tools cs ≡ inr ts
      → AreCompiled cs ts
  unfolding Compile.compile_all
  compile_all-AreCompiled [] [] h = tt
  compile_all-AreCompiled [] (t ∷ ts) h = ground arith
  compile_all-AreCompiled (c ∷ cs) ts h = elim (Sum-cases (Compile.compile_derived_tag tools c)) [
    | inl (e, f) ↦ ground arith
    | inr (t, f) ↦ elim (Sum-cases (Compile.compile_all tools cs)) [
      | inl (e, g) ↦ ground arith
      | inr (rest, g) ↦
          let e : t ∷ rest ≡ ts = ground arith in
          subst (AreCompiled (c ∷ cs)) e
            (compile_derived_tag-IsCompiled c t f, compile_all-AreCompiled cs rest g)
    ]
  ]

  -- What `applyDerivedTags` does: nothing, or the evaluator of exactly these configurations.
  pub data Applied (l : Compile.LifecycleSupport P) (configs : List DerivedTagConfig)
      : Option Compile.ConfigError × Compile.LifecycleSupport P → Type 0 where
    refused : {e : Compile.ConfigError} → e ≢ Compile.undecided → Applied l configs (some e, l)
    installed :
        {tags : List (CompiledDerivedTag P)}
        → l.started ≡ true
        → IsDistinct (names_of configs)
        → AreCompiled configs tags
        → IsJustified tags no_cycle
        → Applied l configs (none, record l { derived_evaluator = some tags })

  compile_all-decided :
      (cs : List DerivedTagConfig) → Compile.compile_all tools cs ≢ inl Compile.undecided
  unfolding Compile.compile_all
  compile_all-decided [] h = ground arith
  compile_all-decided (c ∷ cs) h = elim (Sum-cases (Compile.compile_derived_tag tools c)) [
    | inl (e, f) ↦ ground arith
    | inr (t, f) ↦ elim (Sum-cases (Compile.compile_all tools cs)) [
      | inl (e, g) ↦ compile_all-decided cs (ground arith)
      | inr (rest, g) ↦ ground arith
    ]
  ]

  validate_from-decided :
      (names : List String) (cs : List DerivedTagConfig)
      → Compile.validate_from names cs ≢ some Compile.undecided
  unfolding Compile.validate_from
  validate_from-decided names [] h = ground arith
  validate_from-decided names (c ∷ cs) h = ground (arith, validate_from-decided (c.name ∷ names) cs)

  new_derived_tag_evaluator-decided :
      (cs : List DerivedTagConfig)
      → Compile.new_derived_tag_evaluator tools cs ≢ inl Compile.undecided
  unfolding Compile.new_derived_tag_evaluator
  new_derived_tag_evaluator-decided cs h = elim (Sum-cases (Compile.compile_all tools cs)) [
    | inl (e, f) ↦ compile_all-decided cs (ground arith)
    | inr (tags, f) ↦ elim (Verdict-cases (detect_derived_cycles tags)) [
      | inl g ↦ ground arith
      | inr (inl (ns, g)) ↦ ground arith
      | inr (inr g) ↦ detect_derived_cycles_ends tags g
    ]
  ]

  new_derived_tag_evaluator-AreCompiled :
      (cs : List DerivedTagConfig) (tags : List (CompiledDerivedTag P))
      → Compile.new_derived_tag_evaluator tools cs ≡ inr tags
      → AreCompiled cs tags × IsJustified tags no_cycle
  unfolding Compile.new_derived_tag_evaluator
  new_derived_tag_evaluator-AreCompiled cs tags h =
      elim (Sum-cases (Compile.compile_all tools cs)) [
        | inl (e, f) ↦ ground arith
        | inr (ts, f) ↦ elim (Verdict-cases (detect_derived_cycles ts)) [
          | inl g ↦
              let e : ts ≡ tags = ground arith in
              subst
                (λ (us : List (CompiledDerivedTag P)). AreCompiled cs us × IsJustified us no_cycle)
                e (compile_all-AreCompiled cs ts f, rw g at (detect_derived_cycles-IsJustified ts))
          | inr (inl (ns, g)) ↦ ground arith
          | inr (inr g) ↦ ground arith
        ]
      ]

  -- Applying derived tags either returns an error and leaves the evaluator that is there, or
  -- installs one compiled tag for each configuration, in order, each with its expression, its
  -- references, its policies and an interval of at least a second, and then the engine was
  -- started, no name stands twice and the references have no cycle.
  pub apply_derived_tags-Applied :
      (l : Compile.LifecycleSupport P) (configs : List DerivedTagConfig)
      → Applied l configs (Compile.apply_derived_tags tools l configs)
  unfolding Compile.apply_derived_tags Compile.validate_derived_tags Compile.swap_derived_evaluator
  apply_derived_tags-Applied l configs = elim (Bool-cases l.started) [
    | inr off ↦
        subst (Applied l configs) (simp off) (refused {e = Compile.not_started} (ground arith))
    | inl on ↦ elim (Option-cases (Compile.validate_derived_tags configs)) [
      | inr (e, f) ↦ subst (Applied l configs) (simp (on, f)) (
          refused {e = e}
            (λ (u : e ≡ Compile.undecided). validate_from-decided [] configs (ground arith)))
      | inl f ↦ elim (Sum-cases (Compile.new_derived_tag_evaluator tools configs)) [
        | inl (e, g) ↦ subst (Applied l configs) (simp (on, f, g)) (
            refused {e = e} (λ (u : e ≡ Compile.undecided).
              new_derived_tag_evaluator-decided configs
                (subst (λ x. Compile.new_derived_tag_evaluator tools configs ≡ inl x) u g)))
        | inr (tags, g) ↦
            let (compiled, acyclic) = new_derived_tag_evaluator-AreCompiled configs tags g in
            subst (Applied l configs) (simp (on, f, g))
              (installed on (validate_from-IsDistinct [] configs f) compiled acyclic)
      ]
    ]
  ]
