-- ===== src/Rule/Build.antt =====
-- rule/rule_build.go: the engine that `SetRules` builds, and the order of its rules.
use mathlib.Core.List.{Perm}
use core_c.Common.{
  ℕ, suc, ◌≤◌, ◌<◌, ◌≡◌, ◌⊎◌, refl, ap, inl, inr, Bool, none, some, List, [], ◌∷◌, map, arith, All,
}
use core_c.Common.Sort.{
  sort_by, sort_by-IsSortedBy, sort_by-perm, IsSortedFrom, of_key, sort_by-of_key,
}
use core_c.Rule.{
  Rule, RuleWrapper, RuleEngine, set_rules, new_rules, install, number_from, set_rule_disabled,
}
use core_c.Rule.Scan.{Precedes, IsOrdered}
use core_c.Rule.Equivalence.{IsBuilt}

module _ {V : Type 0} where
  number_from-after :
      (w : RuleWrapper V) (i n : ℕ) (rs : List (Rule V))
      → w.seq < i
      → w.rule.priority ≤ n
      → IsSortedFrom (λ (r : Rule V). r.priority) n rs
      → All (Precedes w) (number_from i rs)
  unfolding number_from
  number_from-after w i n [] h k s = tt
  number_from-after w i n (r ∷ rs) h k s =
      ((omega arith, h), number_from-after w (suc i) r.priority rs (omega arith) (omega arith) s.1)

  number_from-IsOrdered :
      (i n : ℕ) (rs : List (Rule V))
      → IsSortedFrom (λ (r : Rule V). r.priority) n rs
      → IsOrdered (number_from i rs)
  unfolding number_from
  number_from-IsOrdered i n [] s = tt
  number_from-IsOrdered i n (r ∷ rs) s = (
    number_from-after (record { rule = r; seq = i }) (suc i) r.priority rs (omega arith)
        (omega arith) s.1,
    number_from-IsOrdered (suc i) r.priority rs s.1,
  )

  pub install-IsBuilt : (rs : List (Rule V)) → IsBuilt (install rs)
  unfolding install
  install-IsBuilt rs = record {
    indexed = refl;
    universals = refl;
    ordered =
        number_from-IsOrdered 0 0 (sort_by (λ (r : Rule V). r.priority) rs)
          (sort_by-IsSortedBy (λ (r : Rule V). r.priority) rs);
  }

  pub set_rule_disabled-IsBuilt :
      (e : RuleEngine V) (i : ℕ) (v : Bool) → IsBuilt e → IsBuilt (set_rule_disabled e i v).1
  unfolding set_rule_disabled
  set_rule_disabled-IsBuilt e i v b = ground arith

  map-rule_number :
      (i : ℕ) (rs : List (Rule V)) → map (λ (w : RuleWrapper V). w.rule) (number_from i rs) ≡ rs
  unfolding number_from
  map-rule_number i [] = refl
  map-rule_number i (r ∷ rs) = ap (◌∷◌ r) (map-rule_number (suc i) rs)

  new_rules_cases {κ} :
      {C : Type κ} {E : Type 0} (new_rule : C → E ⊎ Rule V) (cs : List C)
      → ((err : E) × (new_rules new_rule cs ≡ inl err))
        ⊎ ((rs : List (Rule V)) × (new_rules new_rule cs ≡ inr rs) × (map new_rule cs ≡ map inr rs))
  unfolding new_rules
  new_rules_cases new_rule [] = inr ([], refl, refl)
  new_rules_cases {E} new_rule (c ∷ cs) = both (new_rule c) refl (new_rules_cases new_rule cs)
    where
      both :
          (r : E ⊎ Rule V)
          → new_rule c ≡ r
          → ((err : E) × (new_rules new_rule cs ≡ inl err))
            ⊎ ((rs : List (Rule V)) × (new_rules new_rule cs ≡ inr rs)
                × (map new_rule cs ≡ map inr rs))
          → ((err : E) × (new_rules new_rule (c ∷ cs) ≡ inl err))
            ⊎ ((rs : List (Rule V)) × (new_rules new_rule (c ∷ cs) ≡ inr rs)
                × (map new_rule (c ∷ cs) ≡ map inr rs))
      both (inl err) e _ = inl (err, rw (e, new_rules))
      both (inr r) e (inl (err, f)) = inl (err, rw (e, f, new_rules))
      both (inr r) e (inr (rs, f, m)) = inr (r ∷ rs, rw (e, f, new_rules), rw (e, m))

  -- `SetRules` either returns an error and leaves the engine as it was, or every configuration
  -- became a rule, it returns no error, and the engine's rules are a permutation of those rules,
  -- in priority order, with the index and the universal rules built from them.
  pub set_rules_complete {κ} :
      {C : Type κ} {E : Type 0} (new_rule : C → E ⊎ Rule V) (e : RuleEngine V) (cs : List C)
      → ((err : E) × (set_rules new_rule e cs ≡ (some err, e)))
        ⊎ ((rs : List (Rule V)) × (map new_rule cs ≡ map inr rs)
            × ((set_rules new_rule e cs).0 ≡ none)
            × Perm (map (λ (w : RuleWrapper V). w.rule) (set_rules new_rule e cs).1.rules) rs
            × IsBuilt (set_rules new_rule e cs).1)
  unfolding set_rules install
  set_rules_complete new_rule e cs = elim (new_rules_cases new_rule cs) [
    | inl (err, f) ↦ inl (err, rw (f, set_rules))
    | inr (rs, f, m) ↦ inr (
      rs,
      m,
      rw (f, set_rules),
      rw (f, set_rules, map-rule_number 0 (sort_by (λ (r : Rule V). r.priority) rs))
          (sort_by-perm (λ (r : Rule V). r.priority) rs),
      rw (f, set_rules) (install-IsBuilt rs),
    )
  ]

  new_rules-map {κ} :
      {C : Type κ} {E : Type 0} (new_rule : C → E ⊎ Rule V) (cs : List C) (rs : List (Rule V))
      → map new_rule cs ≡ map inr rs
      → new_rules new_rule cs ≡ inr rs
  unfolding new_rules
  new_rules-map new_rule [] [] h = refl
  new_rules-map new_rule [] (r ∷ rs) h = ground arith
  new_rules-map new_rule (c ∷ cs) [] h = ground arith
  new_rules-map new_rule (c ∷ cs) (r ∷ rs) h =
      let first : new_rule c ≡ inr r = ground arith in
      let rest : map new_rule cs ≡ map inr rs = ground arith in
      rw (first, new_rules-map new_rule cs rs rest, new_rules) refl

  -- When every configuration becomes a rule, `SetRules` leaves the rules of each priority in the
  -- order of the configuration: those of that priority in the engine's list are, in order, those
  -- of the configured list.
  pub set_rules-of_key {κ} :
      {C : Type κ} {E : Type 0} (new_rule : C → E ⊎ Rule V) (e : RuleEngine V) (cs : List C)
      (rs : List (Rule V)) (n : ℕ)
      → map new_rule cs ≡ map inr rs
      → of_key
          (λ (r : Rule V). r.priority)
          n
          (map (λ (w : RuleWrapper V). w.rule) (set_rules new_rule e cs).1.rules)
        ≡ of_key (λ (r : Rule V). r.priority) n rs
  unfolding set_rules install
  set_rules-of_key new_rule e cs rs n all =
      rw
        (
          new_rules-map new_rule cs rs all,
          set_rules,
          map-rule_number 0 (sort_by (λ (r : Rule V). r.priority) rs),
        )
        (sort_by-of_key (λ (r : Rule V). r.priority) n rs)
