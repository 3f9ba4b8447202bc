-- ===== src/Rule.antt =====
-- rule/: the rule engine. A rule wrapper is known by its place in the build order (`seq`), and the
-- statistics that every `Match` changes through the wrapper are a function of that place. The
-- compiled match expression, a program of a third-party library, is the field `matches`. A priority
-- stands as its distance from the least `int`. One call reads the clock once.
pub mod Scan
pub mod Split
pub mod Merge
pub mod Index
pub mod Equivalence
pub mod Build
pub mod Results
mod Tests
use core_c.Common.{
  ℕ, suc, ◌+◌, ◌≡◌, String, Bool, true, false, not, ◌&&◌, ◌||◌, Option, none, some, List, [], ◌∷◌,
  ◌⊎◌, inl, inr, ◌++◌, ltb, leb, if◌then◌else◌, ◌==◌, string_key, nat_key, length, get_elem?,
}
use core_c.Common.Maps.{lookup, insert}
use core_c.Common.Sort.{sort_by}
use core_c.Core.{DataPoint}

pub data Action : Type 0 where
  action_forward action_drop action_alert action_transform action_mirror : Action

-- What `newRule` makes of a configuration: the answers of the methods of `core.Rule`, and the
-- driver to which a simple rule is scoped ("" for none).
pub record Rule (V : Type 0) : Type 0 where
  pub name : String
  pub priority : ℕ
  pub action : Action
  pub continue : Bool
  pub target : String
  pub targets : List String
  pub transform : Option (String × String)
  pub driver_filter : String
  pub matches : DataPoint V → Bool

pub record RuleWrapper (V : Type 0) : Type 0 where
  pub rule : Rule V
  pub seq : ℕ

-- The atomics of a wrapper.
pub record Stat : Type 0 where
  pub disabled : Bool
  pub hit_count : ℕ
  pub hit_at : ℕ
  pub miss_count : ℕ
  pub miss_at : ℕ

abbrev pub Stats : Type 0
Stats = ℕ → Stat

pub record MatchResult (V : Type 0) : Type 0 where
  pub rule : RuleWrapper V
  pub targets : List String
  pub transform : Option (String × String)

pub record RuleEngine (V : Type 0) : Type 0 where
  pub rules : List (RuleWrapper V)
  pub driver_index : List (String × List (RuleWrapper V))
  pub universal_rules : List (RuleWrapper V)
  pub stats : Stats

-- What a clock reading does to the counters of one wrapper.
record_hit : ℕ → Stat → Stat
record_hit now s = record s { hit_count = s.hit_count + 1; hit_at = now }

-- `RecordMiss`
pub record_miss : ℕ → Stat → Stat
record_miss now s =
    if s.disabled then s else record s { miss_count = s.miss_count + 1; miss_at = now }

pub update_stat : ℕ → (Stat → Stat) → Stats → Stats
update_stat k f st i = if i == k then f (st i) else st i

unfoldable pub is_empty : List String → Bool
is_empty [] = true
is_empty (s ∷ ss) = false

abbrev new_stats : Stats
new_stats _ = record { disabled = false; hit_count = 0; hit_at = 0; miss_count = 0; miss_at = 0 }

-- The targets that `newSimpleRule` gives a rule.
unfoldable pub simple_targets : String → List String → List String
unfolding is_empty
simple_targets target targets =
    if is_empty targets && not (target == "") then target ∷ [] else targets

module _ {V : Type 0} where
  -- `ruleWrapper.Match`
  pub wrapper_match : ℕ → DataPoint V → RuleWrapper V → Stats → Bool × Stats
  unfolding update_stat record_hit record_miss
  wrapper_match now p w st =
      if (st w.seq).disabled
      then (false, st)
      else (if w.rule.matches p
          then (true, update_stat w.seq (record_hit now) st)
          else (false, update_stat w.seq (record_miss now) st))

  unfoldable pub resolved_targets : Rule V → List String
  unfolding is_empty
  resolved_targets r =
      if is_empty r.targets && not (r.target == "") then r.target ∷ [] else r.targets

  -- The `MatchResult` of a rule that matched.
  unfoldable pub result_of : RuleWrapper V → MatchResult V
  unfolding resolved_targets
  result_of w = record { rule = w; targets = resolved_targets w.rule; transform = w.rule.transform }

  -- One rule in a scan: stop after a terminal match, otherwise go on with `rest`.
  pub evaluate :
      ℕ
      → DataPoint V
      → RuleWrapper V
      → (Stats → List (MatchResult V) × Stats)
      → Stats
      → List (MatchResult V) × Stats
  unfolding wrapper_match result_of
  evaluate now p w rest st =
      let (hit, st') = wrapper_match now p w st in
      let (results, st'') = rest st' in
      if hit
      then (if w.rule.continue then (result_of w ∷ results, st'') else (result_of w ∷ [], st'))
      else (results, st'')

  pub match_in_rules : ℕ → DataPoint V → List (RuleWrapper V) → Stats → List (MatchResult V) × Stats
  unfolding evaluate
  match_in_rules now p [] st = ([], st)
  match_in_rules now p (w ∷ ws) st = evaluate now p w (match_in_rules now p ws) st

  -- Does the first list's head come first in the merge?
  is_first : RuleWrapper V → RuleWrapper V → Bool
  is_first a b =
      ltb a.rule.priority b.rule.priority || (a.rule.priority == b.rule.priority && leb a.seq b.seq)

  -- The two-pointer merge, and its two loops over what is left of one list.
  pub match_merged :
      ℕ
      → DataPoint V
      → List (RuleWrapper V)
      → List (RuleWrapper V)
      → Stats
      → List (MatchResult V) × Stats
  unfolding is_first match_in_rules
  match_merged now p [] bs st = match_in_rules now p bs st
  match_merged now p (a ∷ as') [] st = match_in_rules now p (a ∷ as') st
  match_merged now p (a ∷ as') (b ∷ bs) st =
      if is_first a b
      then evaluate now p a (match_merged now p as' (b ∷ bs)) st
      else evaluate now p b (match_merged now p (a ∷ as') bs) st

  last_result : List (MatchResult V) → Option (MatchResult V)
  last_result [] = none
  last_result (r ∷ []) = some r
  last_result (r ∷ s ∷ rs) = last_result (s ∷ rs)

  -- The terminal match that ended the scan, if one did.
  pub terminal_of : List (MatchResult V) → Option (RuleWrapper V)
  unfolding last_result
  terminal_of rs = elim (last_result rs) [
    | none ↦ none
    | some r ↦ if r.rule.rule.continue then none else some r.rule
  ]

  -- Would a linear scan have reached this rule before the terminal match?
  pub is_reached : Option (RuleWrapper V) → RuleWrapper V → Bool
  is_reached none r = true
  is_reached (some t) r =
      not (ltb t.rule.priority r.rule.priority)
      && not (r.rule.priority == t.rule.priority && leb t.seq r.seq)

  pub record_misses : ℕ → Option (RuleWrapper V) → List (RuleWrapper V) → Stats → Stats
  unfolding is_reached update_stat record_miss
  record_misses now t [] st = st
  record_misses now t (r ∷ rs) st =
      record_misses now t rs (if is_reached t r then update_stat r.seq (record_miss now) st else st)

  -- The loop over the groups of the other drivers.
  pub record_other_misses :
      ℕ → Option (RuleWrapper V) → String → List (String × List (RuleWrapper V)) → Stats → Stats
  unfolding record_misses
  record_other_misses now t driver [] st = st
  record_other_misses now t driver ((d, rs) ∷ index) st =
      record_other_misses now t driver index (if d == driver then st else record_misses now t rs st)

  abbrev group_of : String → List (String × List (RuleWrapper V)) → List (RuleWrapper V)
  group_of driver index = elim (lookup driver index) [ none ↦ [] | some rs ↦ rs ]

  pub is_empty_index : List (String × List (RuleWrapper V)) → Bool
  is_empty_index [] = true
  is_empty_index (g ∷ gs) = false

  pub match_point : ℕ → RuleEngine V → DataPoint V → List (MatchResult V) × RuleEngine V
  unfolding match_merged terminal_of record_other_misses is_empty_index lookup
  match_point now e p =
      if is_empty_index e.driver_index
      then (let (results, st) = match_in_rules now p e.rules e.stats in
          (results, record e { stats = st }))
      else (let (results, st) =
            match_merged now p e.universal_rules (group_of p.driver e.driver_index) e.stats in
          (
            results,
            record e {
              stats = record_other_misses now (terminal_of results) p.driver e.driver_index st;
            },
          ))

  -- `w.seq = i` for the sorted list.
  number_from : ℕ → List (Rule V) → List (RuleWrapper V)
  number_from i [] = []
  number_from i (r ∷ rs) = record { rule = r; seq = i } ∷ number_from (suc i) rs

  -- `driverIndex[df] = append(driverIndex[df], w)`
  add_to_index :
      RuleWrapper V → List (String × List (RuleWrapper V)) → List (String × List (RuleWrapper V))
  unfolding lookup insert
  add_to_index w index =
      insert w.rule.driver_filter (group_of w.rule.driver_filter index ++ w ∷ []) index

  pub build_index :
      List (RuleWrapper V)
      → List (String × List (RuleWrapper V))
      → List (String × List (RuleWrapper V))
  unfolding add_to_index
  build_index [] index = index
  build_index (w ∷ ws) index =
      build_index ws (if w.rule.driver_filter == "" then index else add_to_index w index)

  pub universal : List (RuleWrapper V) → List (RuleWrapper V)
  universal [] = []
  universal (w ∷ ws) = if w.rule.driver_filter == "" then w ∷ universal ws else universal ws

  -- The part of `SetRules` after every configuration has become a rule.
  pub install : List (Rule V) → RuleEngine V
  unfolding number_from build_index universal sort_by
  install rs =
      let wrapped = number_from 0 (sort_by (λ (r : Rule V). r.priority) rs) in
      record {
        rules = wrapped;
        driver_index = build_index wrapped [];
        universal_rules = universal wrapped;
        stats = new_stats;
      }

  -- The loop over the configurations: the first one that `newRule` refuses ends it.
  new_rules {κ} : {C : Type κ} {E : Type 0} → (C → E ⊎ Rule V) → List C → E ⊎ List (Rule V)
  new_rules new_rule [] = inr []
  new_rules new_rule (c ∷ cs) = elim (new_rule c) [
    | inl e ↦ inl e
    | inr r ↦ elim (new_rules new_rule cs) [ inl e ↦ inl e | inr rs ↦ inr (r ∷ rs) ]
  ]

  -- `newRule`, which compiles the match expression, is a parameter. On an error the engine stays.
  pub set_rules {κ} :
      {C : Type κ} {E : Type 0} → (C → E ⊎ Rule V) → RuleEngine V → List C → Option E × RuleEngine V
  unfolding new_rules install
  set_rules new_rule e cs = elim (new_rules new_rule cs) [
    | inl err ↦ (some err, e)
    | inr rs ↦ (none, install rs)
  ]

  -- `SetRuleDisabled`: `true` is an index out of range. A negative index is not modelled.
  pub set_rule_disabled : RuleEngine V → ℕ → Bool → Bool × RuleEngine V
  unfolding update_stat
  set_rule_disabled e i v = elim (get_elem? e.rules i) [
    | none ↦ (true, e)
    | some w ↦
        (false, record e { stats = update_stat w.seq (λ s. record s { disabled = v }) e.stats })
  ]

  find_named : String → List (RuleWrapper V) → Option (RuleWrapper V)
  find_named name [] = none
  find_named name (w ∷ ws) = if w.rule.name == name then some w else find_named name ws

  pub set_rule_disabled_by_name : RuleEngine V → String → Bool → Bool × RuleEngine V
  unfolding find_named update_stat
  set_rule_disabled_by_name e name v = elim (find_named name e.rules) [
    | none ↦ (true, e)
    | some w ↦
        (false, record e { stats = update_stat w.seq (λ s. record s { disabled = v }) e.stats })
  ]
