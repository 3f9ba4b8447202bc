-- ===== src/Engine/Processing/Targets.antt =====
-- engine/processing.go and engine/transport_manager.go: `publishToTargets` and `tryFallback`. A call is
-- one step: neither the transports nor their configuration change while it publishes. `attempts`
-- lists the calls on batchers and transports, and `answers` is what a direct `Publish` returns, by the
-- number of the calls before it.
use core_c.Common.{
  is_named, ℕ, suc, ◌+◌, String, Bool, true, false, Option, none, some, List, [], ◌∷◌, ◌++◌, length,
  if◌then◌else◌, ◌==◌, string_key,
}
use core_c.Common.Maps.{lookup, insert}
use core_c.Core.{DataPoint}
use core_c.Engine.Batcher.{BatcherBufferState, publish_point}

pub record PublishAttempt (V : Type 0) : Type 0 where
  pub target : String
  pub point : DataPoint V
  pub batched : Bool
  pub succeeded : Bool

-- The registries of the transport manager: what `transportCfg` holds is the fallback's name.
pub record TransportRegistry : Type 0 where
  pub transports : List String
  pub transport_cfg : List (String × String)

-- The batchers, the calls so far, and the counters `totalErrors` and `totalPublish`.
pub record Delivery (V : Type 0) : Type 0 where
  pub batchers : List (String × BatcherBufferState V)
  pub attempts : List (PublishAttempt V)
  pub total_errors : ℕ
  pub total_publish : ℕ

-- The entry that a target's failover finds in `fallbackSnapshot`.
unfoldable pub fallback_of : TransportRegistry → String → Option String
unfolding is_named lookup
fallback_of m name = elim (lookup name m.transport_cfg) [
  | none ↦ none
  | some fallback ↦
      if fallback == ""
      then none
      else if is_named fallback m.transports
      then some fallback
      else none
]

-- The targets that are in the snapshot, and how many are not found.
unfoldable pub snapshot_targets : TransportRegistry → List String → List String × ℕ
unfolding is_named
snapshot_targets m [] = ([], 0)
snapshot_targets m (t ∷ ts) =
    let (known, unknown) = snapshot_targets m ts in
    if is_named t m.transports then (t ∷ known, unknown) else (known, suc unknown)

module _ {V : Type 0} (answers : ℕ → Bool) where
  unfoldable pub log_attempt : String → DataPoint V → Bool → Bool → Delivery V → Delivery V
  log_attempt name point batched ok d = record d {
    attempts =
        d.attempts
        ++ record { target = name; point = point; batched = batched; succeeded = ok } ∷ [];
  }

  -- A publish to one transport, through its batcher if it has one, with the counters.
  unfoldable pub attempt_publish : String → DataPoint V → Delivery V → Bool × Delivery V
  unfolding log_attempt lookup insert
  attempt_publish name point d = elim (lookup name d.batchers) [
    | some b ↦
        let (reply, b') = publish_point point b in
        let d' = log_attempt name point true reply.ok d in
        (
          reply.ok,
          record d' {
            batchers = insert name b' d.batchers;
            total_errors = if reply.ok then d.total_errors else d.total_errors + 1;
          },
        )
    | none ↦
        let ok = answers (length d.attempts) in
        let d' = log_attempt name point false ok d in
        (
          ok,
          record d' {
            total_errors = if ok then d.total_errors else d.total_errors + 1;
            total_publish = if ok then d.total_publish + 1 else d.total_publish;
          },
        )
  ]

  unfoldable pub try_fallback : TransportRegistry → DataPoint V → String → Delivery V → Delivery V
  unfolding fallback_of attempt_publish
  try_fallback m point primary d = elim (fallback_of m primary) [
    | none ↦ d
    | some fallback ↦ (attempt_publish fallback point d).1
  ]

  -- One round of the last loop of `publishToTargets`.
  unfoldable pub publish_entry : TransportRegistry → DataPoint V → String → Delivery V → Delivery V
  unfolding attempt_publish try_fallback
  publish_entry m point name d =
      let (ok, d') = attempt_publish name point d in if ok then d' else try_fallback m point name d'

  unfoldable pub publish_entries :
      TransportRegistry → DataPoint V → List String → Delivery V → Delivery V
  unfolding publish_entry
  publish_entries m point [] d = d
  publish_entries m point (t ∷ ts) d = publish_entries m point ts (publish_entry m point t d)

  unfoldable pub publish_to_targets :
      TransportRegistry → DataPoint V → List String → Delivery V → Delivery V
  unfolding snapshot_targets publish_entries
  publish_to_targets m point targets d =
      let (known, unknown) = snapshot_targets m targets in
      publish_entries m point known (record d { total_errors = d.total_errors + unknown })
