-- ===== src/Rule/Tests.antt =====
-- rule/, on concrete inputs.
use mathlib.Core.Bool.{true≢false}
use core_c.Common.{
  ℕ, ◌≡◌, ◌⊎◌, refl, inl, inr, Bool, true, false, none, some, List, [], ◌∷◌, String, map, All, ◌==◌,
  string_key, nat_key, if◌then◌else◌,
}
use mathlib.Core.List.{Perm}
use core_c.Core.{DataPoint, type_bool, good}
use core_c.Rule.{
  action_forward, Rule, RuleWrapper, RuleEngine, MatchResult, match_point, set_rules, install,
  result_of, set_rule_disabled, is_empty_index,
}
use core_c.Rule.Scan.{IsFiltered, relevant}
use core_c.Rule.Equivalence.{IsBuilt, linear_match, match_point-linear}
use core_c.Common.Sort.{of_key}
use core_c.Rule.Build.{
  set_rule_disabled-IsBuilt, install-IsBuilt, set_rules_complete, set_rules-of_key,
}
use core_c.Rule.Results.{selected, match_point-selected, match_point-relevant}

abbrev point : String → DataPoint ℕ
point driver = record {
  driver = driver;
  device = "";
  group = "";
  tag = "t";
  value = 1;
  type = type_bool;
  quality = good;
  timestamp = 7;
  metadata = [];
  is_stale = false;
}

abbrev rule : String → ℕ → Bool → String → (DataPoint ℕ → Bool) → Rule ℕ
rule name priority goes_on filter test = record {
  name = name;
  priority = priority;
  action = action_forward;
  continue = goes_on;
  target = "mqtt";
  targets = [];
  transform = none;
  driver_filter = filter;
  matches = test;
}

-- ALL last, one rule for `plc` that continues, one for `rtu`.
abbrev rules : List (Rule ℕ)
rules =
    rule "all" 9 false "" (λ p. true)
    ∷ rule "plc" 1 true "plc" (λ p. p.driver == "plc")
    ∷ rule "rtu" 2 false "rtu" (λ p. p.driver == "rtu")
    ∷ []

built : IsBuilt (install rules)
built = install-IsBuilt rules

filtered : All (IsFiltered (point "plc")) (install rules).rules
unfolding install
filtered = (λ e. absurd (true≢false e), (λ e. refl, (λ e. absurd (true≢false e), tt)))

-- The point of `plc` meets its own rule and then ALL.
plc_results :
    map (λ (r : MatchResult ℕ). r.rule.seq) (match_point 50 (install rules) (point "plc")).0
    ≡ 0 ∷ 2 ∷ []
unfolding match_point install
plc_results = refl

match_point-linear_example :
    match_point 50 (install rules) (point "plc") ≡ linear_match 50 (install rules) (point "plc")
match_point-linear_example = match_point-linear 50 (install rules) (point "plc") built filtered

match_point-selected_example :
    (match_point 50 (install rules) (point "plc")).0
    ≡ map result_of (selected (point "plc") (install rules).stats (install rules).rules)
match_point-selected_example = match_point-selected 50 (install rules) (point "plc") built filtered

indexed : is_empty_index (install rules).driver_index ≡ false
unfolding install is_empty_index
indexed = refl

match_point-relevant_example :
    (match_point 50 (install rules) (point "rtu")).0
    ≡ map result_of
        (selected (point "rtu") (install rules).stats (relevant "rtu" (install rules).rules))
match_point-relevant_example = match_point-relevant 50 (install rules) (point "rtu") built indexed

abbrev silenced : RuleEngine ℕ
silenced = (set_rule_disabled (install rules) 0 true).1

silenced-IsBuilt : IsBuilt silenced
silenced-IsBuilt = set_rule_disabled-IsBuilt (install rules) 0 true (install-IsBuilt rules)

silenced-IsFiltered : All (IsFiltered (point "plc")) silenced.rules
unfolding set_rule_disabled install
silenced-IsFiltered = (λ e. absurd (true≢false e), (λ e. refl, (λ e. absurd (true≢false e), tt)))

silenced_first : (silenced.stats 0).disabled ≡ true
unfolding set_rule_disabled install
silenced_first = refl

abbrev accept : Rule ℕ → String ⊎ Rule ℕ
accept r = if r.name == "" then inl "unknown action" else inr r

set_rules_complete_example :
    ((err : String) × (set_rules accept (install []) rules ≡ (some err, install [])))
    ⊎ ((rs : List (Rule ℕ)) × (map accept rules ≡ map inr rs)
        × ((set_rules accept (install []) rules).0 ≡ none)
        × Perm
            (map (λ (w : RuleWrapper ℕ). w.rule) (set_rules accept (install []) rules).1.rules)
            rs
        × IsBuilt (set_rules accept (install []) rules).1)
set_rules_complete_example = set_rules_complete accept (install []) rules

-- "late" and "early" have one priority, and "all" stands between them.
abbrev tied : List (Rule ℕ)
tied =
    rule "late" 1 true "" (λ p. true)
    ∷ rule "all" 9 false "" (λ p. true)
    ∷ rule "early" 1 true "plc" (λ p. true)
    ∷ []

set_rules-of_key_example :
    of_key
      (λ (r : Rule ℕ). r.priority)
      1
      (map (λ (w : RuleWrapper ℕ). w.rule) (set_rules accept (install []) tied).1.rules)
    ≡ of_key (λ (r : Rule ℕ). r.priority) 1 tied
set_rules-of_key_example = set_rules-of_key accept (install []) tied tied 1 refl
