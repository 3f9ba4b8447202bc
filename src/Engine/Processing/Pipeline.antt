-- ===== src/Engine/Processing/Pipeline.antt =====
-- engine/processing.go: `processPoint`, with `EvalArith` of rule/arith.go for transforms. Every callback
-- of `OnAlert` gets the calls that `notified` lists. A call reads the clock once. The compiled programs
-- of the package expr are the parameter `A`, with its functions in `Arith`.
use core_c.Common.{
  ℕ, ◌+◌, String, Bool, true, false, ◌||◌, Option, none, some, List, [], ◌∷◌, ◌++◌, if◌then◌else◌,
  ◌==◌, string_key,
}
use core_c.Common.Maps.{insert}
use core_c.Common.Texts.{is_blank}
use core_c.Values.{GoValue, float64_value, nil_value, Floats, to_float64_ok}
use core_c.Core.{DataPoint, Quality, good, bad, uncertain}
use core_c.Rule.{
  action_forward, action_drop, action_alert, action_transform, action_mirror, MatchResult,
  RuleEngine, match_point,
}
use core_c.Engine.Alerts.{AlertManager, record_alert}
use core_c.Engine.Cache.{LatestCache, update}
use core_c.Engine.DataBus.{DataBus, broadcast}
use core_c.Engine.Processing.Targets.{TransportRegistry, Delivery, publish_to_targets}

pub data BadQualityPolicy : Type 0 where
  bad_quality_publish bad_quality_drop bad_quality_mark_and_publish : BadQualityPolicy
  bad_quality_alert : BadQualityPolicy

unfoldable pub named_policy : String → Option BadQualityPolicy
named_policy s =
    if s == "" || s == "publish"
    then some bad_quality_publish
    else if s == "drop"
    then some bad_quality_drop
    else if s == "mark-and-publish"
    then some bad_quality_mark_and_publish
    else if s == "alert"
    then some bad_quality_alert
    else none

-- `lower` is `strings.ToLower`.
unfoldable pub parse_bad_quality_policy : (String → String) → String → Option BadQualityPolicy
unfolding named_policy
parse_bad_quality_policy lower s = named_policy (lower s)

-- The name of the rule that a policy alert is raised for.
abbrev pub bad_quality_alert_rule : String
bad_quality_alert_rule = "bad-quality-policy"

pub record Arith (F G A : Type 0) : Type 0 where
  pub compile_arith : String → Option A
  pub run_arith : A → F → Option (GoValue F G)

-- The data plane of `processingCore`, with the rule engine, the transports' state and the counter of
-- the engine that it reaches through `eng`.
pub record ProcessingCore (V : Type 0) : Type 0 where
  pub cache : LatestCache V
  pub data_bus : DataBus V
  pub rule_engine : RuleEngine V
  pub alerts : Option (AlertManager V)
  pub notified : List (String × DataPoint V)
  pub delivery : Delivery V
  pub bad_quality_dropped : ℕ

abbrev pub is_bad : Quality → Bool
is_bad good = false
is_bad bad = true
is_bad uncertain = false

module _ {V : Type 0} where
  unfoldable pub point_with_rule : DataPoint V → String → DataPoint V
  unfolding insert
  point_with_rule p name = record p { metadata = insert "rule" name p.metadata }

  unfoldable pub fire_alert : ℕ → DataPoint V → String → ProcessingCore V → ProcessingCore V
  fire_alert now p rule c = record c {
    alerts = elim c.alerts [ none ↦ none | some am ↦ some (record_alert rule p now am) ];
    notified = c.notified ++ (rule, p) ∷ [];
  }

module _ {F G A : Type 0} (floats : Floats F G) (arith_lib : Arith F G A) where
  -- `none` is the error.
  unfoldable pub eval_arith : String → F → Option F
  unfolding is_blank
  eval_arith expr x = if is_blank expr then none else elim (arith_lib.compile_arith expr) [
    | none ↦ none
    | some program ↦ elim (arith_lib.run_arith program x) [
      | none ↦ none
      | some result ↦ elim result [
        | float64_value y ↦ if floats.is_nan y || floats.is_inf y then none else some y
        | other ↦ none
      ]
    ]
  ]

  unfoldable pub apply_transform :
      DataPoint (GoValue F G) → Option (String × String) → DataPoint (GoValue F G)
  unfolding eval_arith to_float64_ok
  apply_transform p none = p
  apply_transform p (some (expression, tag_rename)) =
      if expression == "" then p else elim (to_float64_ok floats p.value) [
        | none ↦ p
        | some raw ↦ elim (eval_arith expression raw) [
          | none ↦ p
          | some result ↦ record p {
            value = float64_value result;
            tag = if tag_rename == "" then p.tag else tag_rename;
          }
        ]
      ]

  module _ (answers : ℕ → Bool) (m : TransportRegistry) (now : ℕ) where
    -- One publish to the targets of a result.
    unfoldable pub publish_result :
        MatchResult (GoValue F G)
        → DataPoint (GoValue F G)
        → ProcessingCore (GoValue F G)
        → ProcessingCore (GoValue F G)
    unfolding publish_to_targets point_with_rule
    publish_result r p c = record c {
      delivery =
          publish_to_targets answers m (point_with_rule p r.rule.rule.name) r.targets c.delivery;
    }

    -- The loop over the results; the flag is `policyAlerted`.
    unfoldable pub run_actions :
        Bool
        → List (MatchResult (GoValue F G))
        → DataPoint (GoValue F G)
        → ProcessingCore (GoValue F G)
        → ProcessingCore (GoValue F G)
    unfolding publish_result fire_alert apply_transform
    run_actions alerted [] p c = c
    run_actions alerted (r ∷ rs) p c = elim r.rule.rule.action [
      | action_drop ↦ c
      | action_alert ↦
          run_actions alerted rs p
            (publish_result r p (if alerted then c else fire_alert now p r.rule.rule.name c))
      | action_transform ↦
          let p' = apply_transform p r.transform in
          run_actions alerted rs p' (publish_result r p' c)
      | action_forward ↦ run_actions alerted rs p (publish_result r p c)
      | action_mirror ↦ run_actions alerted rs p (publish_result r p c)
    ]

    -- `processPoint` after the switch on the policy.
    unfoldable pub run_pipeline :
        Bool → DataPoint (GoValue F G) → ProcessingCore (GoValue F G) → ProcessingCore (GoValue F G)
    unfolding run_actions
    run_pipeline alerted p c =
        let (results, rules) = match_point now c.rule_engine p in
        run_actions alerted results p (record c {
          cache = update c.cache p;
          data_bus = broadcast c.data_bus p;
          rule_engine = rules;
        })

    unfoldable pub process_point :
        BadQualityPolicy
        → DataPoint (GoValue F G)
        → ProcessingCore (GoValue F G)
        → ProcessingCore (GoValue F G)
    unfolding run_pipeline fire_alert
    process_point policy p c =
        if is_bad p.quality
        then elim policy [
          | bad_quality_drop ↦ record c { bad_quality_dropped = c.bad_quality_dropped + 1 }
          | bad_quality_mark_and_publish ↦ run_pipeline false (record p { value = nil_value }) c
          | bad_quality_alert ↦ run_pipeline true p (fire_alert now p bad_quality_alert_rule c)
          | bad_quality_publish ↦ run_pipeline false p c
        ]
        else run_pipeline false p c
