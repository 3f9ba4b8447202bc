-- ===== src/Engine/Processing/Actions.antt =====
-- engine/processing.go: what the loop over the results of `Match` publishes and alerts.
use core_c.Common.{
  ℕ, suc, ◌≡◌, refl, String, Bool, true, false, not, ◌&&◌, some, List, [], ◌∷◌, ◌++◌, map, length,
  take, get_elem?, if◌then◌else◌, arith,
}
use core_c.Values.{GoValue, Floats}
use core_c.Core.{DataPoint}
use core_c.Rule.{
  Action, action_forward, action_drop, action_alert, action_transform, action_mirror, MatchResult,
}
use core_c.Engine.Processing.Targets.{TransportRegistry, Delivery, publish_to_targets}
use core_c.Engine.Processing.Pipeline.{
  Arith, ProcessingCore, point_with_rule, fire_alert, apply_transform, publish_result, run_actions,
}

abbrev pub is_drop : Action → Bool
is_drop action_forward = false
is_drop action_drop = true
is_drop action_alert = false
is_drop action_transform = false
is_drop action_mirror = false

abbrev pub is_alert : Action → Bool
is_alert action_forward = false
is_alert action_drop = false
is_alert action_alert = true
is_alert action_transform = false
is_alert action_mirror = false

abbrev pub is_transform : Action → Bool
is_transform action_forward = false
is_transform action_drop = false
is_transform action_alert = false
is_transform action_transform = true
is_transform action_mirror = false

module _ {V : Type 0} where
  -- The results in front of the first one that drops.
  abbrev pub before_drop : List (MatchResult V) → List (MatchResult V)
  before_drop [] = []
  before_drop (r ∷ rs) = if is_drop r.rule.rule.action then [] else r ∷ before_drop rs

  abbrev pub alert_names : List (MatchResult V) → List String
  alert_names [] = []
  alert_names (r ∷ rs) =
      if is_alert r.rule.rule.action then r.rule.rule.name ∷ alert_names rs else alert_names rs

  -- A publication is a point with its targets.
  unfoldable pub publish_each :
      (ℕ → Bool) → TransportRegistry → List (DataPoint V × List String) → Delivery V → Delivery V
  publish_each answers m [] d = d
  publish_each answers m ((p, targets) ∷ pubs) d =
      publish_each answers m pubs (publish_to_targets answers m p targets d)

module _ {F G A : Type 0} (floats : Floats F G) (arith_lib : Arith F G A) where
  abbrev pub transform_by :
      MatchResult (GoValue F G) → DataPoint (GoValue F G) → DataPoint (GoValue F G)
  transform_by r p =
      if is_transform r.rule.rule.action then apply_transform floats arith_lib p r.transform else p

  -- The point after the transforms of a list of results.
  abbrev pub transformed :
      List (MatchResult (GoValue F G)) → DataPoint (GoValue F G) → DataPoint (GoValue F G)
  transformed [] p = p
  transformed (r ∷ rs) p = transformed rs (transform_by r p)

  module _ (answers : ℕ → Bool) (m : TransportRegistry) (now : ℕ) (alerted : Bool) where
    -- The k-th publication is the point after the transforms of the first k + 1 results, under the
    -- name of the k-th rule, to that rule's targets; nothing follows a drop. Each rule that alerts
    -- calls the handlers once, unless the policy has alerted.
    pub record IsRun (rs : List (MatchResult (GoValue F G))) (p : DataPoint (GoValue F G))
        (c c' : ProcessingCore (GoValue F G)) : Type 0 where
      pub pubs : List (DataPoint (GoValue F G) × List String)
      pub calls : List (String × DataPoint (GoValue F G))
      pub count : length pubs ≡ length (before_drop rs)
      pub each :
          (k : ℕ) (r : MatchResult (GoValue F G))
          → get_elem? (before_drop rs) k ≡ some r
          → get_elem? pubs k
            ≡ some (point_with_rule (transformed (take (suc k) rs) p) r.rule.rule.name, r.targets)
      pub delivered : c'.delivery ≡ publish_each answers m pubs c.delivery
      pub notified : c'.notified ≡ c.notified ++ calls
      pub called :
          map (λ (call : String × DataPoint (GoValue F G)). call.0) calls
          ≡ (if alerted then [] else alert_names (before_drop rs))
      pub cache : c'.cache ≡ c.cache
      pub data_bus : c'.data_bus ≡ c.data_bus
      pub rule_engine : c'.rule_engine ≡ c.rule_engine
      pub bad_quality_dropped : c'.bad_quality_dropped ≡ c.bad_quality_dropped

    abbrev pub alert_by :
        MatchResult (GoValue F G)
        → DataPoint (GoValue F G)
        → ProcessingCore (GoValue F G)
        → ProcessingCore (GoValue F G)
    alert_by r p c =
        if is_alert r.rule.rule.action && not alerted
        then fire_alert now p r.rule.rule.name c
        else c

    pub run_actions-cons :
        (r : MatchResult (GoValue F G)) (rs : List (MatchResult (GoValue F G)))
        (p : DataPoint (GoValue F G)) (c : ProcessingCore (GoValue F G))
        → run_actions floats arith_lib answers m now alerted (r ∷ rs) p c ≡ (
            if is_drop r.rule.rule.action
            then c
            else run_actions floats arith_lib answers m now alerted rs (transform_by r p) (
                publish_result floats arith_lib answers m now r
                  (transform_by r p)
                  (alert_by r p c)))
    unfolding run_actions
    run_actions-cons r rs p c = cases r.rule.rule.action refl
      where
        cases :
            (a : Action)
            → r.rule.rule.action ≡ a
            → run_actions floats arith_lib answers m now alerted (r ∷ rs) p c ≡ (
                if is_drop r.rule.rule.action
                then c
                else run_actions floats arith_lib answers m now alerted rs (transform_by r p) (
                    publish_result floats arith_lib answers m now r
                      (transform_by r p)
                      (alert_by r p c)))
        cases action_forward e = ground arith
        cases action_drop e = ground arith
        cases action_alert e = ground arith
        cases action_transform e = ground arith
        cases action_mirror e = ground arith
