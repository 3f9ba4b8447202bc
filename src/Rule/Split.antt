-- ===== src/Rule/Split.antt =====
-- rule/engine.go, `Match`: the rules that can match, and the misses of the others.
use core_c.Common.{
  ℕ, ◌≡◌, refl, sym, ap, ◌∙◌, inl, inr, Bool, true, false, Option, List, [], ◌∷◌, All, Bool-cases,
  string_key,
}
use core_c.Core.{DataPoint}
use core_c.Rule.{
  RuleWrapper, Stats, MatchResult, wrapper_match, match_in_rules, terminal_of, is_reached,
  record_misses,
}
use core_c.Rule.Scan.{
  is_relevant, relevant, foreign, Precedes, IsOrdered, IsFiltered, miss, miss-wrapper_match,
  scan-miss, relevant-Precedes, terminal_of_cons, terminal_of_single, evaluate_terminal,
  evaluate_continue, evaluate_miss, scan_reaches, misses_after,
}

module _ {V : Type 0} (now : ℕ) (p : DataPoint V) where
  -- The misses of the other drivers' rules, recorded after a scan with these results.
  abbrev pub with_misses :
      List (RuleWrapper V) → List (MatchResult V) × Stats → List (MatchResult V) × Stats
  with_misses fs (rs, st) = (rs, record_misses now (terminal_of rs) fs st)

  split_relevant :
      (w : RuleWrapper V) (ws : List (RuleWrapper V)) (st : Stats)
      → All (Precedes w) ws
      → ((s : Stats)
          → match_in_rules now p ws s
            ≡ with_misses (foreign p.driver ws) (match_in_rules now p (relevant p.driver ws) s))
      → match_in_rules now p (w ∷ ws) st
        ≡ with_misses (foreign p.driver ws) (match_in_rules now p (w ∷ relevant p.driver ws) st)
  unfolding match_in_rules
  split_relevant w ws st after ih = elim (Bool-cases (wrapper_match now p w st).0) [
    | inr no_hit ↦
        rw
          (
            evaluate_miss now p w (match_in_rules now p ws) st no_hit,
            evaluate_miss now p w (match_in_rules now p (relevant p.driver ws)) st no_hit,
          )
          (ih (wrapper_match now p w st).1)
    | inl hit ↦ elim (Bool-cases w.rule.continue) [
      | inl goes_on ↦ rw (
        evaluate_continue now p w (match_in_rules now p ws) st hit goes_on,
        evaluate_continue now p w (match_in_rules now p (relevant p.driver ws)) st hit goes_on,
        ih (wrapper_match now p w st).1,
        terminal_of_cons w
            (match_in_rules now p (relevant p.driver ws) (wrapper_match now p w st).1).0 goes_on,
      )
      | inr stops ↦ rw (
        evaluate_terminal now p w (match_in_rules now p ws) st hit stops,
        evaluate_terminal now p w (match_in_rules now p (relevant p.driver ws)) st hit stops,
        terminal_of_single w stops,
        misses_after now p.driver w ws (wrapper_match now p w st).1 after,
      )
    ]
  ]

  misses_reached :
      (t : Option (RuleWrapper V)) (r : RuleWrapper V) (rs : List (RuleWrapper V)) (st : Stats)
      → is_reached t r ≡ true
      → record_misses now t (r ∷ rs) st ≡ record_misses now t rs (miss now r st)
  unfolding record_misses
  misses_reached t r rs st h = rw h

  split_foreign :
      (w : RuleWrapper V) (ws : List (RuleWrapper V)) (st : Stats)
      → All (Precedes w) ws
      → w.rule.matches p ≡ false
      → ((s : Stats)
          → match_in_rules now p ws s
            ≡ with_misses (foreign p.driver ws) (match_in_rules now p (relevant p.driver ws) s))
      → match_in_rules now p (w ∷ ws) st
        ≡ with_misses (w ∷ foreign p.driver ws) (match_in_rules now p (relevant p.driver ws) st)
  unfolding match_in_rules record_misses
  split_foreign w ws st after no_match ih =
      let e = miss-wrapper_match now p w st no_match in
      evaluate_miss now p w (match_in_rules now p ws) st (ap (λ (r : Bool × Stats). r.0) e)
      ∙ ap (λ (r : Bool × Stats). match_in_rules now p ws r.1) e
      ∙ ih (miss now w st)
      ∙ ap (with_misses (foreign p.driver ws))
          (scan-miss now p w (relevant p.driver ws) st (relevant-Precedes p.driver w ws after))
      ∙ ap (λ (s : Stats). (found.0, s))
          (sym (misses_reached (terminal_of found.0) w rest found.1 reached))
    where
      found : List (MatchResult V) × Stats
      found = match_in_rules now p (relevant p.driver ws) st

      rest : List (RuleWrapper V)
      rest = foreign p.driver ws

      reached : is_reached (terminal_of found.0) w ≡ true
      reached =
          scan_reaches now p w (relevant p.driver ws) st (relevant-Precedes p.driver w ws after)

  pub scan_split :
      (ws : List (RuleWrapper V)) (st : Stats)
      → IsOrdered ws
      → All (IsFiltered p) ws
      → match_in_rules now p ws st
        ≡ with_misses (foreign p.driver ws) (match_in_rules now p (relevant p.driver ws) st)
  unfolding match_in_rules record_misses
  scan_split [] st o f = refl
  scan_split (w ∷ ws) st o f = elim (Bool-cases (is_relevant p.driver w)) [
    | inl here ↦ rw here (split_relevant w ws st o.0 (λ s. scan_split ws s o.1 f.1))
    | inr there ↦ rw there (split_foreign w ws st o.0 (f.0 there) (λ s. scan_split ws s o.1 f.1))
  ]
