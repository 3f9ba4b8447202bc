-- ===== src/Engine/Processing/Loop.antt =====
-- engine/processing.go: the loop over the results of `Match`, one result after the other.
use core_c.Common.{
  ℕ, zero, suc, ◌≡◌, refl, ap, sym, ◌∙◌, String, Bool, false, not, ◌&&◌, some, List, [], ◌∷◌, ◌++◌,
  map, take, get_elem?, if◌then◌else◌, Bool-cases, append_assoc, append-nil, arith, inl, inr,
}
use core_c.Values.{GoValue, Floats}
use core_c.Core.{DataPoint}
use core_c.Rule.{MatchResult}
use core_c.Engine.Processing.Targets.{TransportRegistry, publish_to_targets}
use core_c.Engine.Processing.Pipeline.{
  Arith, ProcessingCore, point_with_rule, fire_alert, publish_result, run_actions,
}
use core_c.Engine.Processing.Actions.{
  is_drop, is_alert, before_drop, alert_names, publish_each, transform_by, transformed, IsRun,
  alert_by, run_actions-cons,
}

module _ {F G A : Type 0} (floats : Floats F G) (arith_lib : Arith F G A) where
  module _ (answers : ℕ → Bool) (m : TransportRegistry) (now : ℕ) (alerted : Bool) where
    -- The handlers' calls for one result.
    abbrev calls_of :
        MatchResult (GoValue F G)
        → DataPoint (GoValue F G)
        → List (String × DataPoint (GoValue F G))
    calls_of r p =
        if is_alert r.rule.rule.action && not alerted then (r.rule.rule.name, p) ∷ [] else []

    record KeepsBut (r : MatchResult (GoValue F G)) (p : DataPoint (GoValue F G))
        (c c' : ProcessingCore (GoValue F G)) : Type 0 where
      delivered :
          c'.delivery
          ≡ publish_to_targets answers m
              (point_with_rule (transform_by floats arith_lib r p) r.rule.rule.name)
              r.targets
              c.delivery
      notified : c'.notified ≡ c.notified ++ calls_of r p
      cache : c'.cache ≡ c.cache
      data_bus : c'.data_bus ≡ c.data_bus
      rule_engine : c'.rule_engine ≡ c.rule_engine
      bad_quality_dropped : c'.bad_quality_dropped ≡ c.bad_quality_dropped

    one_result :
        (r : MatchResult (GoValue F G)) (p : DataPoint (GoValue F G))
        (c : ProcessingCore (GoValue F G))
        → KeepsBut r p c (
            publish_result floats arith_lib answers m now r
              (transform_by floats arith_lib r p)
              (alert_by floats arith_lib answers m now alerted r p c))
    unfolding publish_result fire_alert
    one_result r p c = elim (Bool-cases (is_alert r.rule.rule.action && not alerted)) [
      | inl e ↦ record {
        delivered = ground arith;
        notified = ground arith;
        cache = ground arith;
        data_bus = ground arith;
        rule_engine = ground arith;
        bad_quality_dropped = ground arith;
      }
      | inr e ↦ record {
        delivered = ground arith;
        notified = ground (arith, append-nil c.notified);
        cache = ground arith;
        data_bus = ground arith;
        rule_engine = ground arith;
        bad_quality_dropped = ground arith;
      }
    ]

    called_lem :
        (r : MatchResult (GoValue F G)) (rs : List (MatchResult (GoValue F G)))
        (p : DataPoint (GoValue F G)) (calls : List (String × DataPoint (GoValue F G)))
        → is_drop r.rule.rule.action ≡ false
        → map (λ (call : String × DataPoint (GoValue F G)). call.0) calls
          ≡ (if alerted then [] else alert_names (before_drop rs))
        → map (λ (call : String × DataPoint (GoValue F G)). call.0) (calls_of r p ++ calls)
          ≡ (if alerted then [] else alert_names (before_drop (r ∷ rs)))
    called_lem r rs p calls kept h = elim (Bool-cases alerted) [
      | inl a ↦ ground arith
      | inr a ↦ elim (Bool-cases (is_alert r.rule.rule.action)) [
        | inl e ↦ ground arith
        | inr e ↦ ground arith
      ]
    ]

    IsRun-cons :
        (r : MatchResult (GoValue F G)) (rs : List (MatchResult (GoValue F G)))
        (p : DataPoint (GoValue F G)) (c c' c'' : ProcessingCore (GoValue F G))
        → is_drop r.rule.rule.action ≡ false
        → KeepsBut r p c c'
        → IsRun floats arith_lib answers m now alerted rs (transform_by floats arith_lib r p) c' c''
        → IsRun floats arith_lib answers m now alerted (r ∷ rs) p c c''
    unfolding publish_each
    IsRun-cons r rs p c c' c'' kept one ih = record {
      pubs =
          (point_with_rule (transform_by floats arith_lib r p) r.rule.rule.name, r.targets)
          ∷ ih.pubs;
      calls = calls_of r p ++ ih.calls;
      count = rw kept (ap suc ih.count);
      each = each_lem;
      delivered = ih.delivered ∙ ap (publish_each answers m ih.pubs) one.delivered;
      notified =
          ih.notified
          ∙ ap (λ l. l ++ ih.calls) one.notified
          ∙ append_assoc c.notified (calls_of r p) ih.calls;
      called = called_lem r rs p ih.calls kept ih.called;
      cache = ih.cache ∙ one.cache;
      data_bus = ih.data_bus ∙ one.data_bus;
      rule_engine = ih.rule_engine ∙ one.rule_engine;
      bad_quality_dropped = ih.bad_quality_dropped ∙ one.bad_quality_dropped;
    }
      where
        each_lem :
            (k : ℕ) (s : MatchResult (GoValue F G))
            → get_elem? (before_drop (r ∷ rs)) k ≡ some s
            → get_elem?
                ((point_with_rule (transform_by floats arith_lib r p) r.rule.rule.name, r.targets)
                  ∷ ih.pubs)
                k
              ≡ some (
                point_with_rule
                    (transformed floats arith_lib (take (suc k) (r ∷ rs)) p)
                    s.rule.rule.name,
                s.targets,
              )
        each_lem zero s h =
            let same : r ≡ s = ground arith in
            ap
              (λ (q : MatchResult (GoValue F G)).
                some
                  (point_with_rule (transform_by floats arith_lib r p) q.rule.rule.name, q.targets))
              same
        each_lem (suc k) s h = ih.each k s (rw kept at h)

    pub run_actions-IsRun :
        (rs : List (MatchResult (GoValue F G))) (p : DataPoint (GoValue F G))
        (c : ProcessingCore (GoValue F G))
        → IsRun floats arith_lib answers m now alerted rs p c
            (run_actions floats arith_lib answers m now alerted rs p c)
    unfolding run_actions publish_each
    run_actions-IsRun [] p c = record {
      pubs = [];
      calls = [];
      count = refl;
      each = λ k r h. ground arith;
      delivered = refl;
      notified = sym (append-nil c.notified);
      called = ground arith;
      cache = refl;
      data_bus = refl;
      rule_engine = refl;
      bad_quality_dropped = refl;
    }
    run_actions-IsRun (r ∷ rs) p c = elim (Bool-cases (is_drop r.rule.rule.action)) [
      | inl e ↦
          rw (run_actions-cons floats arith_lib answers m now alerted r rs p c, e)
            (record {
              pubs = [];
              calls = [];
              count = rw e refl;
              each = λ k s h. absurd (ground arith);
              delivered = refl;
              notified = sym (append-nil c.notified);
              called = ground arith;
              cache = refl;
              data_bus = refl;
              rule_engine = refl;
              bad_quality_dropped = refl;
            })
      | inr e ↦
          let p' = transform_by floats arith_lib r p in
          let c' =
            publish_result floats arith_lib answers m now r p'
              (alert_by floats arith_lib answers m now alerted r p c) in
          rw (run_actions-cons floats arith_lib answers m now alerted r rs p c, e)
            (IsRun-cons r rs p c c' (run_actions floats arith_lib answers m now alerted rs p' c') e
              (one_result r p c) (run_actions-IsRun rs p' c'))
    ]
