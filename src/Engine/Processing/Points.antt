-- ===== src/Engine/Processing/Points.antt =====
-- engine/processing.go: a whole `processPoint`, under each policy for bad points.
use core_c.Common.{
  ℕ, suc, ◌+◌, ◌≡◌, refl, ap, ◌∙◌, String, Bool, true, false, ◌&&◌, some, List, [], ◌∷◌, ◌++◌, map,
  length, take, get_elem?, if◌then◌else◌, string_key, Bool-cases, append_assoc, inl, inr, ◌≢◌, ◌⊎◌,
}
use core_c.Values.{GoValue, nil_value, Floats}
use core_c.Core.{DataPoint}
use core_c.Rule.{MatchResult, match_point}
use core_c.Engine.Cache.{get, update}
use core_c.Engine.Cache.Refinement.{get-update}
use core_c.Engine.DataBus.{broadcast}
use core_c.Common.Maps.{same_refl}
use core_c.Engine.Processing.Targets.{TransportRegistry}
use core_c.Engine.Processing.Pipeline.{
  Arith, ProcessingCore, BadQualityPolicy, bad_quality_publish, bad_quality_drop,
  bad_quality_mark_and_publish, bad_quality_alert, bad_quality_alert_rule, is_bad, point_with_rule,
  fire_alert, run_pipeline, process_point,
}
use core_c.Engine.Processing.Actions.{before_drop, alert_names, publish_each, transformed}
use core_c.Engine.Processing.Loop.{run_actions-IsRun}

abbrev pub clears_value : BadQualityPolicy → Bool
clears_value bad_quality_publish = false
clears_value bad_quality_drop = false
clears_value bad_quality_mark_and_publish = true
clears_value bad_quality_alert = false

abbrev pub raises_alert : BadQualityPolicy → Bool
raises_alert bad_quality_publish = false
raises_alert bad_quality_drop = false
raises_alert bad_quality_mark_and_publish = false
raises_alert bad_quality_alert = true

module _ {F G A : Type 0} (floats : Floats F G) (arith_lib : Arith F G A) (answers : ℕ → Bool)
    (m : TransportRegistry) (now : ℕ) where
  -- The point `q` went through the pipeline, `alerted` says whether the policy raised its alert.
  pub record IsHandled (q : DataPoint (GoValue F G)) (alerted : Bool)
      (c c' : ProcessingCore (GoValue F G)) : Type 0 where
    pub pubs : List (DataPoint (GoValue F G) × List String)
    pub calls : List (String × DataPoint (GoValue F G))
    pub latest : get c'.cache q.driver q.tag ≡ some q
    pub data_bus : c'.data_bus ≡ broadcast c.data_bus q
    pub rule_engine : c'.rule_engine ≡ (match_point now c.rule_engine q).1
    pub count : length pubs ≡ length (before_drop (match_point now c.rule_engine q).0)
    pub each :
        (k : ℕ) (r : MatchResult (GoValue F G))
        → get_elem? (before_drop (match_point now c.rule_engine q).0) k ≡ some r
        → get_elem? pubs k
          ≡ some (
            point_with_rule
                (transformed floats arith_lib (take (suc k) (match_point now c.rule_engine q).0) q)
                r.rule.rule.name,
            r.targets,
          )
    pub delivered : c'.delivery ≡ publish_each answers m pubs c.delivery
    pub notified : c'.notified ≡ c.notified ++ calls
    pub called : map (λ (call : String × DataPoint (GoValue F G)). call.0) calls ≡ (
        if alerted
        then bad_quality_alert_rule ∷ []
        else alert_names (before_drop (match_point now c.rule_engine q).0))
    pub bad_quality_dropped : c'.bad_quality_dropped ≡ c.bad_quality_dropped

  -- A bad point under the policy that drops is only counted. Any other is handled: without its value
  -- under the policy that marks, after one alert under the policy that alerts.
  pub data Processed (policy : BadQualityPolicy) (p : DataPoint (GoValue F G))
      (c : ProcessingCore (GoValue F G)) : ProcessingCore (GoValue F G) → Type 0 where
    discarded :
        is_bad p.quality ≡ true
        → policy ≡ bad_quality_drop
        → Processed policy p c (record c { bad_quality_dropped = c.bad_quality_dropped + 1 })
    handled :
        {c' : ProcessingCore (GoValue F G)}
        → (is_bad p.quality ≡ false) ⊎ (policy ≢ bad_quality_drop)
        → IsHandled
            (if is_bad p.quality && clears_value policy then record p { value = nil_value } else p)
            (is_bad p.quality && raises_alert policy)
            c
            c'
        → Processed policy p c c'

  stored :
      (q : DataPoint (GoValue F G)) (c : ProcessingCore (GoValue F G))
      → get (update c.cache q) q.driver q.tag ≡ some q
  stored q c =
      get-update c.cache q q.driver q.tag
      ∙ rw (same_refl {K = String} q.driver, same_refl {K = String} q.tag) refl

  run_pipeline-IsHandled :
      (q : DataPoint (GoValue F G)) (c : ProcessingCore (GoValue F G))
      → IsHandled q false c (run_pipeline floats arith_lib answers m now false q c)
  unfolding run_pipeline
  run_pipeline-IsHandled q c =
      let rs = (match_point now c.rule_engine q).0 in
      let entered = record c {
        cache = update c.cache q;
        data_bus = broadcast c.data_bus q;
        rule_engine = (match_point now c.rule_engine q).1;
      } in
      let run = run_actions-IsRun floats arith_lib answers m now false rs q entered in
      record {
        pubs = run.pubs;
        calls = run.calls;
        latest = ap (λ cache. get cache q.driver q.tag) run.cache ∙ stored q c;
        data_bus = run.data_bus;
        rule_engine = run.rule_engine;
        count = run.count;
        each = run.each;
        delivered = run.delivered;
        notified = run.notified;
        called = run.called;
        bad_quality_dropped = run.bad_quality_dropped;
      }

  run_pipeline-IsHandled_alerted :
      (q : DataPoint (GoValue F G)) (c : ProcessingCore (GoValue F G))
      → IsHandled q true c (
          run_pipeline floats arith_lib answers m now true q
            (fire_alert now q bad_quality_alert_rule c))
  unfolding run_pipeline fire_alert
  run_pipeline-IsHandled_alerted q c =
      let rs = (match_point now c.rule_engine q).0 in
      let fired = fire_alert now q bad_quality_alert_rule c in
      let entered = record fired {
        cache = update c.cache q;
        data_bus = broadcast c.data_bus q;
        rule_engine = (match_point now c.rule_engine q).1;
      } in
      let run = run_actions-IsRun floats arith_lib answers m now true rs q entered in
      record {
        pubs = run.pubs;
        calls = (bad_quality_alert_rule, q) ∷ run.calls;
        latest = ap (λ cache. get cache q.driver q.tag) run.cache ∙ stored q c;
        data_bus = run.data_bus;
        rule_engine = run.rule_engine;
        count = run.count;
        each = run.each;
        delivered = run.delivered;
        notified =
            run.notified ∙ append_assoc c.notified ((bad_quality_alert_rule, q) ∷ []) run.calls;
        called = ap (λ names. bad_quality_alert_rule ∷ names) run.called;
        bad_quality_dropped = run.bad_quality_dropped;
      }

  -- Whatever the rules, the transports' answers, the transforms and the policy for bad points,
  -- `processPoint` either counts a bad point as dropped and changes nothing else, which it does
  -- exactly under the policy that drops, or it makes the point the latest one of its tag,
  -- broadcasts it, and publishes for each result of `Match` in front of the first rule that drops,
  -- in order, the point after the transforms so far, with that rule's name in its metadata, to
  -- that rule's targets; under the policy that marks, the value is cleared first; each rule that
  -- alerts calls the handlers once, except that under the policy that alerts there is one call for
  -- the policy and none for the rules.
  pub process_point-Processed :
      (policy : BadQualityPolicy) (p : DataPoint (GoValue F G)) (c : ProcessingCore (GoValue F G))
      → Processed policy p c (process_point floats arith_lib answers m now policy p c)
  unfolding process_point
  process_point-Processed policy p c = elim (Bool-cases (is_bad p.quality)) [
    | inr e ↦ rw (process_point, e) (handled (inl e) (rw e (run_pipeline-IsHandled p c)))
    | inl e ↦ bad_point policy e
  ]
    where
      bad_point :
          (policy : BadQualityPolicy)
          → is_bad p.quality ≡ true
          → Processed policy p c (process_point floats arith_lib answers m now policy p c)
      bad_point bad_quality_publish e =
          rw (process_point, e) (handled (inr (λ h. cc)) (rw e (run_pipeline-IsHandled p c)))
      bad_point bad_quality_drop e = rw (process_point, e) (discarded e refl)
      bad_point bad_quality_mark_and_publish e =
          rw (process_point, e)
            (handled (inr (λ h. cc))
              (rw e (run_pipeline-IsHandled (record p { value = nil_value }) c)))
      bad_point bad_quality_alert e =
          rw (process_point, e)
            (handled (inr (λ h. cc)) (rw e (run_pipeline-IsHandled_alerted p c)))
