-- ===== src/Rule/Results.antt =====
-- rule/rule_match.go: which rules a match returns.
use core_c.Common.{
  ℕ, ◌≡◌, ◌≢◌, refl, ap, ◌∙◌, inl, inr, true, false, not, ◌&&◌, List, [], ◌∷◌, map, arith, All,
  All-map, Bool-cases, if◌then◌else◌, ◌==◌, string_key, nat_key, nat_beq_iff,
}
use core_c.Core.{DataPoint}
use core_c.Rule.{
  RuleWrapper, RuleEngine, Stats, MatchResult, match_in_rules, match_point, wrapper_match,
  result_of, evaluate, is_empty_index,
}
use core_c.Rule.Scan.{IsFiltered, relevant}
use core_c.Rule.Equivalence.{IsBuilt, match_point-linear, merged_relevant}

abbrev SameDisabled : Stats → Stats → Type 0
SameDisabled st st' = (k : ℕ) → (st' k).disabled ≡ (st k).disabled

module _ {V : Type 0} where
  -- The enabled rules that match the point, in order, up to the first that does not continue.
  abbrev pub selected : DataPoint V → Stats → List (RuleWrapper V) → List (RuleWrapper V)
  selected p st [] = []
  selected p st (w ∷ ws) =
      let rest = selected p st ws in
      if not (st w.seq).disabled && w.rule.matches p
      then (if w.rule.continue then w ∷ rest else w ∷ [])
      else rest

  wrapper_match-disabled :
      (now : ℕ) (p : DataPoint V) (w : RuleWrapper V) (st : Stats)
      → SameDisabled st (wrapper_match now p w st).1
        × ((wrapper_match now p w st).0 ≡ not (st w.seq).disabled && w.rule.matches p)
  unfolding wrapper_match
  wrapper_match-disabled now p w st = (λ k. ground arith, ground arith)

  selected_same :
      (p : DataPoint V) (st st' : Stats) (ws : List (RuleWrapper V))
      → SameDisabled st st'
      → selected p st' ws ≡ selected p st ws
  selected_same p st st' [] h = refl
  selected_same p st st' (w ∷ ws) h = ground (arith, h w.seq, selected_same p st st' ws h)

  scan_selected :
      (now : ℕ) (p : DataPoint V) (ws : List (RuleWrapper V)) (st : Stats)
      → (match_in_rules now p ws st).0 ≡ map result_of (selected p st ws)
  unfolding match_in_rules evaluate wrapper_match
  scan_selected now p [] st = refl
  scan_selected now p (w ∷ ws) st =
      let (same, hit) = wrapper_match-disabled now p w st in
      let ih = scan_selected now p ws (wrapper_match now p w st).1 in
      ground (arith, ih, selected_same p st (wrapper_match now p w st).1 ws same)

  -- On a built engine, for a point that no rule scoped to another driver matches, `Match` returns
  -- the results of exactly the enabled rules that match the point, in priority order, up to and
  -- including the first one that does not continue.
  pub match_point-selected :
      (now : ℕ) (e : RuleEngine V) (p : DataPoint V)
      → IsBuilt e
      → All (IsFiltered p) e.rules
      → (match_point now e p).0 ≡ map result_of (selected p e.stats e.rules)
  match_point-selected now e p b f =
      ap (λ (r : List (MatchResult V) × RuleEngine V). r.0) (match_point-linear now e p b f)
      ∙ scan_selected now p e.rules e.stats

  -- On a built engine with a non-empty driver index, whatever the match expressions answer,
  -- `Match` returns the results of the enabled matching rules among those scoped to no driver or
  -- to the point's driver, up to the first that does not continue; a rule scoped to another driver
  -- is never returned.
  pub match_point-relevant :
      (now : ℕ) (e : RuleEngine V) (p : DataPoint V)
      → IsBuilt e
      → is_empty_index e.driver_index ≡ false
      → (match_point now e p).0 ≡ map result_of (selected p e.stats (relevant p.driver e.rules))
  unfolding match_point
  match_point-relevant now e p b indexed = rw indexed (
      ap (λ (r : List (MatchResult V) × Stats). r.0) (merged_relevant now e p b)
      ∙ scan_selected now p (relevant p.driver e.rules) e.stats)

  evaluate_silent :
      (now : ℕ) (p : DataPoint V) (k : ℕ) (w : RuleWrapper V) (st : Stats)
      → (st k).disabled ≡ true
      → (wrapper_match now p w st).1 k ≡ st k
  unfolding wrapper_match
  evaluate_silent now p k w st h = ground (arith, nat_beq_iff k w.seq)

  scan_silent :
      (now : ℕ) (p : DataPoint V) (k : ℕ) (ws : List (RuleWrapper V)) (st : Stats)
      → (st k).disabled ≡ true
      → (match_in_rules now p ws st).1 k ≡ st k
  unfolding match_in_rules evaluate
  scan_silent now p k [] st h = refl
  scan_silent now p k (w ∷ ws) st h =
      ground
        (arith, evaluate_silent now p k w st h, scan_silent now p k ws (wrapper_match now p w st).1)

  selected_enabled :
      (p : DataPoint V) (k : ℕ) (st : Stats) (ws : List (RuleWrapper V))
      → (st k).disabled ≡ true
      → All (λ (w : RuleWrapper V). w.seq ≢ k) (selected p st ws)
  selected_enabled p k st [] h = tt
  selected_enabled p k st (w ∷ ws) h = elim (Bool-cases (w.seq == k)) [
    | inl same ↦ ground (arith, (nat_beq_iff w.seq k).0 same, selected_enabled p k st ws h)
    | inr other ↦ ground (arith, selected_enabled p k st ws h)
  ]

  -- On a built engine, for a point that no rule scoped to another driver matches, a disabled rule
  -- is in none of the results of `Match` and its statistics stay as they were.
  match_point_disabled :
      (now : ℕ) (e : RuleEngine V) (p : DataPoint V) (k : ℕ)
      → IsBuilt e
      → All (IsFiltered p) e.rules
      → (e.stats k).disabled ≡ true
      → All (λ (r : MatchResult V). r.rule.seq ≢ k) (match_point now e p).0
        × ((match_point now e p).1.stats k ≡ e.stats k)
  unfolding result_of
  match_point_disabled now e p k b f h = rw (match_point-linear now e p b f) (
    rw (scan_selected now p e.rules e.stats) (
        All-map (λ (r : MatchResult V). r.rule.seq ≢ k) result_of (selected p e.stats e.rules)
          (selected_enabled p k e.stats e.rules h)),
    scan_silent now p k e.rules e.stats h,
  )
