-- ===== src/Rule/Merge.antt =====
-- rule/rule_match.go, `matchMerged`: the two-pointer merge compared with one list.
use mathlib.Core.Path.{fun_ext}
use core_c.Common.{
  ℕ, ◌≡◌, refl, ap, ◌∙◌, inl, inr, true, false, not, ◌&&◌, List, [], ◌∷◌, String, arith,
  if◌then◌else◌, All, Bool-cases, ◌==◌, string_key,
}
use core_c.Core.{DataPoint}
use core_c.Rule.{RuleWrapper, evaluate, match_in_rules, match_merged, is_first, universal}
use core_c.Rule.Scan.{relevant, Precedes, IsOrdered}

module _ {V : Type 0} where
  -- The rules of one driver's group.
  abbrev pub scoped : String → List (RuleWrapper V) → List (RuleWrapper V)
  scoped driver [] = []
  scoped driver (w ∷ ws) =
      if not (w.rule.driver_filter == "") && w.rule.driver_filter == driver
      then w ∷ scoped driver ws
      else scoped driver ws

  universal-Precedes :
      (w : RuleWrapper V) (ws : List (RuleWrapper V))
      → All (Precedes w) ws
      → All (Precedes w) (universal ws)
  unfolding universal
  universal-Precedes w [] h = tt
  universal-Precedes w (v ∷ ws) h = ground (arith, universal-Precedes w ws h.1)

  scoped-Precedes :
      (driver : String) (w : RuleWrapper V) (ws : List (RuleWrapper V))
      → All (Precedes w) ws
      → All (Precedes w) (scoped driver ws)
  scoped-Precedes driver w [] h = tt
  scoped-Precedes driver w (v ∷ ws) h = ground (arith, scoped-Precedes driver w ws h.1)

module _ {V : Type 0} (now : ℕ) (p : DataPoint V) where
  merge_nil : (as' : List (RuleWrapper V)) → match_merged now p as' [] ≡ match_in_rules now p as'
  unfolding match_merged
  merge_nil [] = refl
  merge_nil (a ∷ as') = refl

  is_first-eq_true : (w b : RuleWrapper V) → Precedes w b → is_first w b ≡ true
  unfolding is_first
  is_first-eq_true w b h = ground arith

  is_first-eq_false : (a w : RuleWrapper V) → Precedes w a → is_first a w ≡ false
  unfolding is_first
  is_first-eq_false a w h = ground arith

  merge_first :
      (w : RuleWrapper V) (as' bs : List (RuleWrapper V))
      → All (Precedes w) bs
      → match_merged now p (w ∷ as') bs ≡ evaluate now p w (match_merged now p as' bs)
  unfolding match_merged match_in_rules
  merge_first w as' [] h = rw (merge_nil as')
  merge_first w as' (b ∷ bs) h = fun_ext (λ st. rw (is_first-eq_true w b h.0))

  merge_second :
      (w : RuleWrapper V) (as' bs : List (RuleWrapper V))
      → All (Precedes w) as'
      → match_merged now p as' (w ∷ bs) ≡ evaluate now p w (match_merged now p as' bs)
  unfolding match_merged match_in_rules
  merge_second w [] bs h = refl
  merge_second w (a ∷ as') bs h = fun_ext (λ st. rw (is_first-eq_false a w h.0))

  pub merge_lem :
      (ws : List (RuleWrapper V))
      → IsOrdered ws
      → match_merged now p (universal ws) (scoped p.driver ws)
        ≡ match_in_rules now p (relevant p.driver ws)
  unfolding universal
  merge_lem [] o = merge_nil []
  merge_lem (w ∷ ws) o = elim (Bool-cases (w.rule.driver_filter == "")) [
    | inl all_drivers ↦ rw all_drivers (
        merge_first w (universal ws) (scoped p.driver ws) (scoped-Precedes p.driver w ws o.0)
        ∙ ap (evaluate now p w) (merge_lem ws o.1)
        ∙ head)
    | inr one_driver ↦ elim (Bool-cases (w.rule.driver_filter == p.driver)) [
      | inl here ↦
          rw (one_driver, here)
            (merge_second w (universal ws) (scoped p.driver ws) (universal-Precedes w ws o.0)
              ∙ ap (evaluate now p w) (merge_lem ws o.1)
              ∙ head)
      | inr there ↦ rw (one_driver, there) (merge_lem ws o.1)
    ]
  ]
    where
      head :
          evaluate now p w (match_in_rules now p (relevant p.driver ws))
          ≡ match_in_rules now p (w ∷ relevant p.driver ws)
      head = unfold match_in_rules in refl
