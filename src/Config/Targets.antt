-- ===== src/Config/Targets.antt =====
-- config/validate.go: the targets of checked rules, when engine/processing.go publishes to them.
use mathlib.Core.List.Memᴰ
use mathlib.Core.List.{Memᴰ}
use core_c.Common.{
  ◌≡◌, refl, sym, ap, ◌∙◌, String, Bool, true, ◌||◌, none, List, [], ◌∷◌, map, inl, inr, All, ◌==◌,
  string_key, is_named, Bool-cases, Option-cases, arith,
}
use core_c.Rule.{RuleWrapper, result_of, resolved_targets, simple_targets, is_empty}
use core_c.Engine.Processing.Targets.{TransportRegistry, snapshot_targets}
use core_c.Config.{
  TransportEntry, RuleConfig, ValidationError, validate_transports, validate_rules, run_checks,
  transport_checks, target_checks, rule_checks,
}
use core_c.Config.Checks.{first_error-none, run_checks-none}

abbrev pub transport_names : List TransportEntry → List String
transport_names ts = map (λ (t : TransportEntry). t.config.name) ts

-- The names that the loop over the transports ends with are those of the transports.
validate_transports-named :
    (registered : List String) (ts : List TransportEntry) (names found : List String) (n : String)
    → validate_transports registered names ts ≡ inr found
    → is_named n found ≡ (is_named n names || is_named n (transport_names ts))
unfolding validate_transports is_named
validate_transports-named registered [] names found n h = ground arith
validate_transports-named registered (t ∷ ts) names found n h =
    elim (Option-cases (run_checks (transport_checks registered names t))) [
      | inl e ↦ ground (
        arith,
        validate_transports-named registered ts (t.config.name ∷ names) found n
            (rw (e, validate_transports) at h),
      )
      | inr (err, e) ↦ absurd (inl-not_inr (rw (e, validate_transports) at h))
    ]
  where
    inl-not_inr : {A B : Type 0} {a : A} {b : B} → inl a ≡ inr b → ⊥
    inl-not_inr k = ground arith

target_checks-named :
    (transports : List String) (rule : String) (ts : List String)
    → All (λ (c : Bool × ValidationError). c.0 ≡ true) (target_checks transports rule ts)
    → All (λ (t : String). is_named t transports ≡ true) ts
target_checks-named transports rule [] h = tt
target_checks-named transports rule (t ∷ ts) h = (h.0, target_checks-named transports rule ts h.1)

-- The targets of a checked rule are all in the set.
validate_rules-named :
    (lower : String → String) (transports names : List String) (rs : List RuleConfig)
    (r : RuleConfig)
    → validate_rules lower transports names rs ≡ none
    → Memᴰ r rs
    → ((r.target == "" || is_named r.target transports) ≡ true)
      × All (λ (t : String). is_named t transports ≡ true) r.targets
unfolding validate_rules
validate_rules-named lower transports names [] r h m = absurd (Memᴰ.not-nil m)
validate_rules-named lower transports names (s ∷ rs) r h m =
    let (own, rest) = first_error-none _ _ h in
    elim (Memᴰ.cases_cons m) [
      | inl here ↦
          let held = run_checks-none (rule_checks lower transports names s) own in
          rw here
            (held.1.1.1.1.1.1.0, target_checks-named transports s.name s.targets held.1.1.1.1.1.1.1)
      | inr there ↦ validate_rules-named lower transports (s.name ∷ names) rs r rest there
    ]

-- The targets of a rule, of which the single `target` stands in for an empty list.
simple_targets-named :
    (names : List String) (target : String) (targets : List String)
    → (target == "" || is_named target names) ≡ true
    → All (λ (t : String). is_named t names ≡ true) targets
    → All (λ (t : String). is_named t names ≡ true) (simple_targets target targets)
unfolding simple_targets is_empty
simple_targets-named names target [] one all = elim (Bool-cases (target == "")) [
  | inl e ↦ rw e tt
  | inr e ↦ rw e (ground arith, tt)
]
simple_targets-named names target (t ∷ ts) one all = all

snapshot_targets-named :
    (m : TransportRegistry) (names targets : List String)
    → ((n : String) → is_named n names ≡ is_named n m.transports)
    → All (λ (t : String). is_named t names ≡ true) targets
    → snapshot_targets m targets ≡ (targets, 0)
unfolding snapshot_targets
snapshot_targets-named m names [] same h = refl
snapshot_targets-named m names (t ∷ ts) same h =
    rw (sym (same t) ∙ h.0, snapshot_targets-named m names ts same h.1) refl

-- For transports and rules that pass their checks, when exactly the configured transports are
-- registered and a rule of the engine has the target and the targets that `newSimpleRule` gives
-- it, `publishToTargets` finds every one of the targets of its results, the single target
-- included, and counts none as unknown.
pub validate_rules-snapshot_targets :
    {V : Type 0} (lower : String → String) (registered : List String) (ts : List TransportEntry)
    (rs : List RuleConfig) (names : List String) (r : RuleConfig) (w : RuleWrapper V)
    (m : TransportRegistry)
    → validate_transports registered [] ts ≡ inr names
    → validate_rules lower names [] rs ≡ none
    → Memᴰ r rs
    → w.rule.target ≡ r.target
    → w.rule.targets ≡ simple_targets r.target r.targets
    → m.transports ≡ transport_names ts
    → snapshot_targets m (result_of w).targets ≡ ((result_of w).targets, 0)
unfolding result_of resolved_targets simple_targets is_named
validate_rules-snapshot_targets lower registered ts rs names r w m vt vr mem et ets em =
    let (target, targets) = validate_rules-named lower names [] rs r vr mem in
    snapshot_targets-named m names (result_of w).targets
      (λ n. validate_transports-named registered ts [] names n vt ∙ ap (is_named n) (sym em))
      (rw (et, ets)
        (simple_targets-named names r.target (simple_targets r.target r.targets) target
          (simple_targets-named names r.target r.targets target targets)))
