-- ===== src/Engine/Processing/Attempts.antt =====
-- engine/processing.go: which attempts `publishToTargets` makes and what they count for.
use core_c.Common.{
  is_named, ℕ, suc, ◌+◌, ◌≡◌, refl, String, Bool, true, false, none, some, List, [], ◌∷◌, ◌++◌,
  ◌==◌, string_key, nat_key, Bool-cases, Option-cases, arith, inl, inr,
}
use core_c.Common.Maps.{lookup, insert, lookup-insert}
use core_c.Core.{DataPoint}
use core_c.Engine.Batcher.{BatcherBufferState, publish_point}
use core_c.Engine.Processing.Targets.{
  PublishAttempt, TransportRegistry, Delivery, fallback_of, snapshot_targets, log_attempt,
  attempt_publish, try_fallback, publish_entry, publish_entries, publish_to_targets,
}
use core_c.Engine.Processing.Chains.{
  failures, published_directly, after_attempts, Chain, Chain-nil, Chain-append,
}

-- The attempts for a list of targets: one for each known target, and one more on its fallback where the
-- first failed and a registered fallback is configured. The number counts the unknown targets.
pub data Attempted {V : Type 0} (m : TransportRegistry) (point : DataPoint V)
    : List String → List (PublishAttempt V) → ℕ → Type 0 where
  done : Attempted m point [] [] 0
  unknown :
      {t : String} {ts : List String} {as' : List (PublishAttempt V)} {n : ℕ}
      → is_named t m.transports ≡ false
      → Attempted m point ts as' n
      → Attempted m point (t ∷ ts) as' (suc n)
  delivered :
      {t : String} {ts : List String} {as' : List (PublishAttempt V)} {n : ℕ} {batched : Bool}
      → is_named t m.transports ≡ true
      → Attempted m point ts as' n
      → Attempted m point
          (t ∷ ts)
          (record { target = t; point = point; batched = batched; succeeded = true } ∷ as')
          n
  lost :
      {t : String} {ts : List String} {as' : List (PublishAttempt V)} {n : ℕ} {batched : Bool}
      → is_named t m.transports ≡ true
      → fallback_of m t ≡ none
      → Attempted m point ts as' n
      → Attempted m point
          (t ∷ ts)
          (record { target = t; point = point; batched = batched; succeeded = false } ∷ as')
          n
  failed_over :
      {t fallback : String} {ts : List String} {as' : List (PublishAttempt V)} {n : ℕ}
      {batched batched' ok : Bool}
      → is_named t m.transports ≡ true
      → fallback_of m t ≡ some fallback
      → Attempted m point ts as' n
      → Attempted m point
          (t ∷ ts)
          (record { target = t; point = point; batched = batched; succeeded = false }
            ∷ record { target = fallback; point = point; batched = batched'; succeeded = ok }
            ∷ as')
          n

module _ {V : Type 0} where
  -- One call.
  abbrev call : String → DataPoint V → Bool → Bool → PublishAttempt V
  call name point through ok = record {
    target = name;
    point = point;
    batched = through;
    succeeded = ok;
  }

  module _ (answers : ℕ → Bool) where
    attempt_publish-Chain :
        (name : String) (point : DataPoint V) (d : Delivery V)
        → (through : Bool) × Chain
            (call name point through (attempt_publish answers name point d).0 ∷ [])
            d
            (attempt_publish answers name point d).1
    unfolding attempt_publish log_attempt after_attempts failures published_directly
    attempt_publish-Chain name point d = elim (Option-cases (lookup name d.batchers)) [
      | inl none_there ↦
          rw (none_there, attempt_publish)
            (
              false,
              record {
                logged = refl;
                errors = ground arith;
                publishes = ground arith;
                batched = λ other. elim (Option-cases (lookup other d.batchers)) [
                  | inl e ↦ rw e refl
                  | inr (b, e) ↦ ground (arith, string_key.same_iff name other)
                ];
              },
            )
      | inr (b, there) ↦
          rw (there, attempt_publish)
            (
              true,
              record {
                logged = refl;
                errors = ground arith;
                publishes = ground arith;
                batched = λ other. batched_lem name other point b d there;
              },
            )
    ]
      where
        batched_lem :
            (name other : String) (point : DataPoint V) (b : BatcherBufferState V) (d : Delivery V)
            → lookup name d.batchers ≡ some b
            → lookup other (insert name (publish_point point b).1 d.batchers)
              ≡ after_attempts other
                  (lookup other d.batchers)
                  (call name point true (publish_point point b).0.ok ∷ [])
        batched_lem name other point b d there = elim (Bool-cases (name == other)) [
          | inl e ↦ ground (
            arith,
            string_key.same_iff name other,
            lookup-insert name other (publish_point point b).1 d.batchers,
          )
          | inr e ↦ elim (Option-cases (lookup other d.batchers)) [
            | inl k ↦ ground (arith, lookup-insert name other (publish_point point b).1 d.batchers)
            | inr (c, k) ↦
                ground (arith, lookup-insert name other (publish_point point b).1 d.batchers)
          ]
        ]

    -- The calls for one known target.
    data Entry (m : TransportRegistry) (point : DataPoint V) (t : String) (d d' : Delivery V)
        : Type 0 where
      entry :
          (calls : List (PublishAttempt V))
          → ((ts : List String) (as' : List (PublishAttempt V)) (n : ℕ)
              → is_named t m.transports ≡ true
              → Attempted m point ts as' n
              → Attempted m point (t ∷ ts) (calls ++ as') n)
          → Chain calls d d'
          → Entry m point t d d'

    publish_entry-Entry :
        (m : TransportRegistry) (point : DataPoint V) (t : String) (d : Delivery V)
        → Entry m point t d (publish_entry answers m point t d)
    unfolding publish_entry try_fallback
    publish_entry-Entry m point t d =
        let (through, first) = attempt_publish-Chain t point d in
        elim (Bool-cases (attempt_publish answers t point d).0) [
          | inl ok ↦
              rw (ok, publish_entry)
                (entry (call t point through true ∷ []) (λ ts as' n. delivered) (rw ok at first))
          | inr failed ↦ elim (Option-cases (fallback_of m t)) [
            | inl bare ↦
                rw (failed, publish_entry, try_fallback, bare)
                  (entry (call t point through false ∷ []) (λ ts as' n k. lost k bare)
                    (rw failed at first))
            | inr (fallback, yes') ↦
                let d' = (attempt_publish answers t point d).1 in
                let (through', second) = attempt_publish-Chain fallback point d' in
                rw (failed, publish_entry, try_fallback, yes')
                  (entry
                    (call t point through false
                      ∷ call fallback point through' (attempt_publish answers fallback point d').0
                      ∷ [])
                    (λ ts as' n k. failed_over k yes')
                    (Chain-append (call t point through false ∷ [])
                      (call fallback point through' (attempt_publish answers fallback point d').0
                        ∷ [])
                      d d' (attempt_publish answers fallback point d').1 (rw failed at first)
                      second))
          ]
        ]

    -- The calls of a publish to targets, and how many targets are not found.
    pub record IsAccounted (m : TransportRegistry) (point : DataPoint V) (targets : List String)
        (d d' : Delivery V) : Type 0 where
      pub calls : List (PublishAttempt V)
      pub unknown_targets : ℕ
      pub attempted : Attempted m point targets calls unknown_targets
      pub logged : d'.attempts ≡ d.attempts ++ calls
      pub errors : d'.total_errors ≡ d.total_errors + unknown_targets + failures calls
      pub publishes : d'.total_publish ≡ d.total_publish + published_directly calls
      pub batched :
          (name : String)
          → lookup name d'.batchers ≡ after_attempts name (lookup name d.batchers) calls

    entries-Chain :
        (m : TransportRegistry) (point : DataPoint V) (targets : List String) (d : Delivery V)
        → (calls : List (PublishAttempt V)) × Attempted m point targets calls
            (snapshot_targets m targets).1
          × Chain calls d (publish_entries answers m point (snapshot_targets m targets).0 d)
    unfolding snapshot_targets publish_entries
    entries-Chain m point [] d = ([], done, Chain-nil d)
    entries-Chain m point (t ∷ ts) d = elim (Bool-cases (is_named t m.transports)) [
      | inr e ↦
          let (calls, all, chain) = entries-Chain m point ts d in rw e (calls, unknown e all, chain)
      | inl e ↦ elim (publish_entry-Entry m point t d) [
        | entry calls first chain ↦
            let (rest, all, chain') =
              entries-Chain m point ts (publish_entry answers m point t d) in
            rw e (
              calls ++ rest,
              first ts rest _ e all,
              Chain-append calls rest d (publish_entry answers m point t d) _ chain chain',
            )
      ]
    ]

    -- Whatever the transports and batchers answer, `publishToTargets` makes for each target that
    -- is registered, in order, one attempt, and after a failed one a single attempt on the
    -- fallback if a registered one is configured, and none for an unknown target; `totalErrors`
    -- grows by the unknown targets and the failed attempts, `totalPublish` by the direct attempts
    -- that succeeded, and each batcher is left as the attempts through it leave it.
    pub publish_to_targets-IsAccounted :
        (m : TransportRegistry) (point : DataPoint V) (targets : List String) (d : Delivery V)
        → IsAccounted m point targets d (publish_to_targets answers m point targets d)
    unfolding publish_to_targets
    publish_to_targets-IsAccounted m point targets d =
        let unknown_targets = (snapshot_targets m targets).1 in
        let (calls, all, chain) =
          entries-Chain m point targets
            (record d { total_errors = d.total_errors + unknown_targets }) in
        record {
          calls = calls;
          unknown_targets = unknown_targets;
          attempted = all;
          logged = chain.logged;
          errors = chain.errors;
          publishes = chain.publishes;
          batched = chain.batched;
        }
