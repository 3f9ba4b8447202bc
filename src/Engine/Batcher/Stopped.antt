-- ===== src/Engine/Batcher/Stopped.antt =====
-- engine/batcher.go: `stop`, and calls after it.
use mathlib.Core.List.{flatten}
use core_c.Common.{
  ℕ, Bool, ◌≡◌, refl, ap, ◌∙◌, inl, inr, true, List, [], ◌∷◌, ◌++◌, length, length-append,
  if◌then◌else◌, ◌==◌, nat_key, string_key, Bool-cases, arith,
}
use core_c.Core.{DataPoint}
use core_c.Engine.OfflineBuffer.{Faults}
use core_c.Engine.Batcher.{BatcherBufferState, TransportBatcher, Answers, publish_point}
use core_c.Engine.Batcher.Sending.{stop, drain_flush_batches, flush_final, drain_tick}
use core_c.Engine.Batcher.Enqueue.{Publishes, rejects, gathers, fills, publish_point-Publishes}
use core_c.Engine.Batcher.Delivery.{
  handled_points, waiting, drain_flush_batches-IsSent, flush_tick-IsSent, flush-IsSent,
  receive_batch-IsSent,
}
use core_c.Engine.Batcher.Calls.{
  BatcherCall, publishes, receives, flushes, ticks, replays_from_disk, stops, after_call,
  after_calls, trace_of, trace_of_run, replayed_of, replayed_of_run, after_calls-IsMoved,
  drain_tick_buf,
}
use core_c.Engine.Batcher.Sending.{flush_buffer}
use core_c.Engine.Batcher.Delivery.{publish_with_retry_buf}

module _ {V : Type 0} where
  no_points : (ps : List (DataPoint V)) → length ps ≡ 0 → ps ≡ []
  no_points [] h = refl
  no_points (p ∷ ps) h = absurd (omega arith)

  flush_final_empty :
      (a : Answers V) (b : TransportBatcher V)
      → b.buf.flush_batches.items ≡ []
      → (waiting (flush_final a b).1.buf ≡ []) × ((flush_final a b).1.buf.stopped ≡ b.buf.stopped)
  unfolding flush_final flush_buffer flatten
  flush_final_empty a b empty = elim (Bool-cases (length b.buf.buffer == 0)) [
    | inl nothing ↦ rw (nothing, empty) (no_points b.buf.buffer (ground arith), refl)
    | inr something ↦
        rw
          (
            something,
            publish_with_retry_buf a b.buf.buffer (record b { buf = record b.buf { buffer = [] } }),
            empty,
          )
          (refl, refl)
  ]

  stop_empties :
      (w : ℕ → Answers V) (a : Answers V) (b : TransportBatcher V)
      → (waiting (stop w a b).1.buf ≡ []) × ((stop w a b).1.buf.stopped ≡ true)
  unfolding stop
  stop_empties w a b =
      let b₀ = record b { buf = record b.buf { stopped = true } } in
      let (sent, empty) = drain_flush_batches-IsSent w b₀ in
      let (nothing, same) = flush_final_empty a (drain_flush_batches w b₀).1 empty in
      (nothing, same ∙ sent.2)

  -- A stopped batcher stays so, and lets nothing in.
  after_call_stopped :
      (c : BatcherCall V) (b : TransportBatcher V)
      → b.buf.stopped ≡ true
      → ((after_call c b).buf.stopped ≡ true) × ((trace_of c b).accepted ≡ [])
  unfolding after_call trace_of
  after_call_stopped (publishes p) b h = by_case (publish_point-Publishes p b.buf)
    where
      by_case :
          Publishes p b.buf
          → ((publish_point p b.buf).1.stopped ≡ true)
            × ((if b.buf.stopped then [] else p ∷ []) ≡ [])
      by_case (rejects closed e) = rw (e, h) (refl, refl)
      by_case (gathers running short e) = cc
      by_case (fills running full e) = cc
  after_call_stopped (receives a) b h = ((receive_batch-IsSent a b).2 ∙ h, refl)
  after_call_stopped (flushes a) b h = ((flush-IsSent a b).2 ∙ h, refl)
  after_call_stopped (ticks w a) b h = ((flush_tick-IsSent w a b).2 ∙ h, refl)
  after_call_stopped (replays_from_disk f accepts) b h =
      (ap (λ (s : BatcherBufferState V). s.stopped) (drain_tick_buf f accepts b) ∙ h, refl)
  after_call_stopped (stops w a) b h = ((stop_empties w a b).1, refl)

  drain_tick_stopped :
      (f : Faults V) (accepts : ℕ → Bool) (b : TransportBatcher V)
      → b.buf.stopped ≡ true
      → (drain_tick f accepts b).0 ≡ []
  unfolding drain_tick
  drain_tick_stopped f accepts b h = simp h refl

  replayed_of_stopped :
      (c : BatcherCall V) (b : TransportBatcher V) → b.buf.stopped ≡ true → replayed_of c b ≡ []
  unfolding replayed_of
  replayed_of_stopped (publishes p) b h = refl
  replayed_of_stopped (receives a) b h = refl
  replayed_of_stopped (flushes a) b h = refl
  replayed_of_stopped (ticks w a) b h = refl
  replayed_of_stopped (replays_from_disk f accepts) b h = drain_tick_stopped f accepts b h
  replayed_of_stopped (stops w a) b h = refl

  replayed_of_run_stopped :
      (cs : List (BatcherCall V)) (b : TransportBatcher V)
      → b.buf.stopped ≡ true
      → replayed_of_run cs b ≡ []
  replayed_of_run_stopped [] b h = refl
  replayed_of_run_stopped (c ∷ cs) b h =
      let closed = (after_call_stopped c b h).0 in
      rw (replayed_of_stopped c b h, replayed_of_run_stopped cs (after_call c b) closed) refl

  after_calls_stopped :
      (cs : List (BatcherCall V)) (b : TransportBatcher V)
      → b.buf.stopped ≡ true
      → ((after_calls cs b).buf.stopped ≡ true) × ((trace_of_run cs b).accepted ≡ [])
  after_calls_stopped [] b h = (h, refl)
  after_calls_stopped (c ∷ cs) b h =
      let (closed, nothing) = after_call_stopped c b h in
      let (closed', nothing') = after_calls_stopped cs (after_call c b) closed in
      (closed', rw (nothing, nothing') refl)

  -- After `stop`, whatever the transport answers, nothing waits in memory any more, and any
  -- further calls let in nothing, hand nothing to the transport, neither from memory nor from
  -- disk, drop no points and leave nothing waiting.
  pub stop-after_calls_empty :
      (w : ℕ → Answers V) (a : Answers V) (b : TransportBatcher V) (cs : List (BatcherCall V))
      → ((trace_of_run cs (stop w a b).1).accepted ≡ [])
        × (handled_points (trace_of_run cs (stop w a b).1).handled ≡ [])
        × (replayed_of_run cs (stop w a b).1 ≡ [])
        × (flatten (trace_of_run cs (stop w a b).1).dropped ≡ [])
        × (waiting (after_calls cs (stop w a b).1).buf ≡ [])
  stop-after_calls_empty w a b cs =
      let b' = (stop w a b).1 in
      let (empty, closed) = stop_empties w a b in
      let (closed', nothing) = after_calls_stopped cs b' closed in
      let (kept, out, count) = (after_calls-IsMoved cs b').0 in
      let handled = handled_points (trace_of_run cs b').handled in
      let left = waiting (after_calls cs b').buf in
      let none_there : length (waiting b'.buf ++ (trace_of_run cs b').accepted) ≡ 0 =
        rw (empty, nothing) refl in
      (
        nothing,
        no_points handled (omega (arith, out, none_there, length-append handled left)),
        replayed_of_run_stopped cs b' closed,
        no_points (flatten (trace_of_run cs b').dropped) (omega (arith, out, none_there)),
        no_points left (omega (arith, out, none_there, length-append handled left)),
      )
