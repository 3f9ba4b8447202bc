-- ===== src/Rule/Scan.antt =====
-- rule/rule_match.go and rule/engine.go: one scan over a priority-sorted list, split into the rules
-- that a point's driver can match and the others.
use mathlib.Core.Path.{fun_ext}
use core_c.Common.{
  ℕ, ◌≤◌, ◌<◌, ◌≡◌, ◌≢◌, refl, ap, inl, inr, Bool, true, false, ◌||◌, some, List, [], ◌∷◌, String,
  arith, nat_beq_iff, if◌then◌else◌, ◌==◌, All, Bool-cases, string_key, nat_key,
}
use core_c.Core.{DataPoint}
use core_c.Rule.{
  RuleWrapper, Stat, Stats, MatchResult, record_hit, record_miss, update_stat, wrapper_match,
  result_of, evaluate, match_in_rules, terminal_of, is_reached, record_misses,
}

update_comm :
    (a b : ℕ) (f g : Stat → Stat) (st : Stats)
    → a ≢ b
    → update_stat a f (update_stat b g st) ≡ update_stat b g (update_stat a f st)
unfolding update_stat
update_comm a b f g st h = fun_ext (λ i. ground arith)

update_stat_same : (a b : ℕ) (f : Stat → Stat) (st : Stats) → a ≢ b → update_stat a f st b ≡ st b
unfolding update_stat
update_stat_same a b f st h = ground arith

module _ {V : Type 0} where
  -- A rule scoped to no driver or to this one.
  abbrev pub is_relevant : String → RuleWrapper V → Bool
  is_relevant driver w = w.rule.driver_filter == "" || w.rule.driver_filter == driver

  abbrev pub relevant : String → List (RuleWrapper V) → List (RuleWrapper V)
  relevant driver [] = []
  relevant driver (w ∷ ws) =
      if is_relevant driver w then w ∷ relevant driver ws else relevant driver ws

  abbrev pub foreign : String → List (RuleWrapper V) → List (RuleWrapper V)
  foreign driver [] = []
  foreign driver (w ∷ ws) =
      if is_relevant driver w then foreign driver ws else w ∷ foreign driver ws

  -- The order of a built rule list: by priority, and then by place.
  abbrev pub Precedes : RuleWrapper V → RuleWrapper V → Type 0
  Precedes a b = (a.rule.priority ≤ b.rule.priority) × (a.seq < b.seq)

  abbrev pub IsOrdered : List (RuleWrapper V) → Type 0
  IsOrdered [] = Unit {0}
  IsOrdered (w ∷ ws) = All (Precedes w) ws × IsOrdered ws

  -- A rule scoped to another driver does not match the point.
  abbrev pub IsFiltered : DataPoint V → RuleWrapper V → Type 0
  IsFiltered p w = is_relevant p.driver w ≡ false → w.rule.matches p ≡ false

  abbrev pub miss : ℕ → RuleWrapper V → Stats → Stats
  miss now w = update_stat w.seq (record_miss now)

  -- A rule that cannot match only records its miss.
  pub miss-wrapper_match :
      (now : ℕ) (p : DataPoint V) (w : RuleWrapper V) (st : Stats)
      → w.rule.matches p ≡ false
      → wrapper_match now p w st ≡ (false, miss now w st)
  unfolding wrapper_match update_stat record_miss
  miss-wrapper_match now p w st h = elim (Bool-cases (st w.seq).disabled) [
    | inr on ↦ rw (on, h)
    | inl off ↦
        rw off (ap (λ (s : Stats). (false, s)) (fun_ext (λ i. ground (arith, nat_beq_iff i w.seq))))
  ]

  -- The miss of one rule commutes with the evaluation of another.
  wrapper_match-miss :
      (now : ℕ) (p : DataPoint V) (w r : RuleWrapper V) (st : Stats)
      → w.seq ≢ r.seq
      → wrapper_match now p w (miss now r st)
        ≡ ((wrapper_match now p w st).0, miss now r (wrapper_match now p w st).1)
  unfolding wrapper_match
  wrapper_match-miss now p w r st h = ground (
    arith,
    update_stat_same r.seq w.seq (record_miss now) st,
    update_comm w.seq r.seq (record_hit now) (record_miss now) st h,
    update_comm w.seq r.seq (record_miss now) (record_miss now) st h,
  )

  evaluate-miss :
      (now : ℕ) (p : DataPoint V) (w r : RuleWrapper V)
      (rest : Stats → List (MatchResult V) × Stats) (st : Stats)
      → w.seq ≢ r.seq
      → ((s : Stats) → rest (miss now r s) ≡ ((rest s).0, miss now r (rest s).1))
      → evaluate now p w rest (miss now r st)
        ≡ ((evaluate now p w rest st).0, miss now r (evaluate now p w rest st).1)
  unfolding evaluate
  evaluate-miss now p w r rest st h ih =
      ground (arith, wrapper_match-miss now p w r st h, ih (wrapper_match now p w st).1)

  -- So does it with a whole scan over other rules.
  pub scan-miss :
      (now : ℕ) (p : DataPoint V) (r : RuleWrapper V) (ws : List (RuleWrapper V)) (st : Stats)
      → All (Precedes r) ws
      → match_in_rules now p ws (miss now r st)
        ≡ ((match_in_rules now p ws st).0, miss now r (match_in_rules now p ws st).1)
  unfolding match_in_rules
  scan-miss now p r [] st h = refl
  scan-miss now p r (w ∷ ws) st h =
      evaluate-miss now p w r (match_in_rules now p ws) st (λ e. omega (arith, h.0.1))
        (λ s. scan-miss now p r ws s h.1)

  pub relevant-Precedes :
      (driver : String) (r : RuleWrapper V) (ws : List (RuleWrapper V))
      → All (Precedes r) ws
      → All (Precedes r) (relevant driver ws)
  relevant-Precedes driver r [] h = tt
  relevant-Precedes driver r (w ∷ ws) h = ground (arith, relevant-Precedes driver r ws h.1)

  -- A result whose rule continues does not change which match ended the scan.
  pub terminal_of_cons :
      (w : RuleWrapper V) (rs : List (MatchResult V))
      → w.rule.continue ≡ true
      → terminal_of (result_of w ∷ rs) ≡ terminal_of rs
  unfolding terminal_of result_of
  terminal_of_cons w [] h = ground arith
  terminal_of_cons w (r ∷ rs) h = refl

  pub terminal_of_single :
      (w : RuleWrapper V) → w.rule.continue ≡ false → terminal_of (result_of w ∷ []) ≡ some w
  unfolding terminal_of result_of
  terminal_of_single w h = ground arith

  -- The three ways that the evaluation of one rule goes.
  pub evaluate_terminal :
      (now : ℕ) (p : DataPoint V) (w : RuleWrapper V) (rest : Stats → List (MatchResult V) × Stats)
      (st : Stats)
      → (wrapper_match now p w st).0 ≡ true
      → w.rule.continue ≡ false
      → evaluate now p w rest st ≡ (result_of w ∷ [], (wrapper_match now p w st).1)
  unfolding evaluate
  evaluate_terminal now p w rest st h c = rw (h, c)

  pub evaluate_continue :
      (now : ℕ) (p : DataPoint V) (w : RuleWrapper V) (rest : Stats → List (MatchResult V) × Stats)
      (st : Stats)
      → (wrapper_match now p w st).0 ≡ true
      → w.rule.continue ≡ true
      → evaluate now p w rest st ≡ (
        result_of w ∷ (rest (wrapper_match now p w st).1).0,
        (rest (wrapper_match now p w st).1).1,
      )
  unfolding evaluate
  evaluate_continue now p w rest st h c = rw (h, c)

  pub evaluate_miss :
      (now : ℕ) (p : DataPoint V) (w : RuleWrapper V) (rest : Stats → List (MatchResult V) × Stats)
      (st : Stats)
      → (wrapper_match now p w st).0 ≡ false
      → evaluate now p w rest st ≡ rest (wrapper_match now p w st).1
  unfolding evaluate
  evaluate_miss now p w rest st h = rw h

  reached_before : (r w : RuleWrapper V) → Precedes r w → is_reached (some w) r ≡ true
  unfolding is_reached
  reached_before r w h = ground arith

  -- A rule is reached before the terminal match of a scan over later rules.
  pub scan_reaches :
      (now : ℕ) (p : DataPoint V) (r : RuleWrapper V) (ws : List (RuleWrapper V)) (st : Stats)
      → All (Precedes r) ws
      → is_reached (terminal_of (match_in_rules now p ws st).0) r ≡ true
  unfolding match_in_rules
  scan_reaches now p r [] st h = unfold is_reached terminal_of in refl
  scan_reaches now p r (w ∷ ws) st h = elim (Bool-cases (wrapper_match now p w st).0) [
    | inr no_hit ↦
        rw (evaluate_miss now p w (match_in_rules now p ws) st no_hit)
          (scan_reaches now p r ws (wrapper_match now p w st).1 h.1)
    | inl hit ↦ elim (Bool-cases w.rule.continue) [
      | inl goes_on ↦
          rw
            (
              evaluate_continue now p w (match_in_rules now p ws) st hit goes_on,
              terminal_of_cons w (match_in_rules now p ws (wrapper_match now p w st).1).0 goes_on,
            )
            (scan_reaches now p r ws (wrapper_match now p w st).1 h.1)
      | inr stops ↦
          rw
            (
              evaluate_terminal now p w (match_in_rules now p ws) st hit stops,
              terminal_of_single w stops,
            )
            (reached_before r w h.0)
    ]
  ]

  -- No rule after the terminal match is reached.
  pub misses_after :
      (now : ℕ) (driver : String) (t : RuleWrapper V) (ws : List (RuleWrapper V)) (st : Stats)
      → All (Precedes t) ws
      → record_misses now (some t) (foreign driver ws) st ≡ st
  unfolding record_misses is_reached
  misses_after now driver t [] st h = refl
  misses_after now driver t (w ∷ ws) st h = ground (arith, misses_after now driver t ws st h.1)
