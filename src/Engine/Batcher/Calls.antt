-- ===== src/Engine/Batcher/Calls.antt =====
-- engine/batcher.go: runs of calls, and the traces that they leave.
use mathlib.Core.Path.{subst}
use mathlib.Core.List.Sublist
use mathlib.Core.List.{Sublist, flatten}
use core_c.Common.{
  ℕ, ◌≡◌, refl, sym, ap, ◌∙◌, inl, inr, Bool-cases, Bool, true, Option, none, some, List, [], ◌∷◌,
  ◌++◌, length, length-append, nat_key, string_key, append_assoc, arith,
}
use core_c.Core.{DataPoint}
use core_c.Engine.OfflineBuffer.{OfflineBuffer, Faults}
use core_c.Engine.Batcher.{BatcherBufferState, TransportBatcher, Answers, Handled, publish_point}
use core_c.Engine.Batcher.Sending.{
  receive_batch, flush, flush_tick, stop, drain_once, drain_from, drain_tick, drain_flush_batches,
  flush_final,
}
use core_c.Engine.Batcher.Enqueue.{publish_point-Publishes}
use core_c.Engine.Batcher.Conserved.{IsSent-IsMoved, IsMoved-on, Publishes-IsMoved, published_trace}
use core_c.Engine.Batcher.Sending.{points_in}
use core_c.Engine.Batcher.Counted.{
  IsCounted, IsCounted-trans, receive_batch-IsCounted, flush-IsCounted, flush_tick-IsCounted,
  drain_tick-IsCounted, stop-IsCounted,
}
use core_c.Engine.Batcher.Delivery.{
  Trace, handled_points, waiting, IsMoved, IsSent-trans, handled_points-append, flatten-append,
  drain_flush_batches-IsSent, flush_final-IsSent, flush_tick-IsSent, flush-IsSent,
  receive_batch-IsSent,
}

-- The calls on a batcher: a point, a batch that the flush loop receives, a flush, a tick of the flush
-- loop, a replay from disk, and the stop.
pub data BatcherCall (V : Type 0) : Type 0 where
  publishes : DataPoint V → BatcherCall V
  receives : Answers V → BatcherCall V
  flushes : Answers V → BatcherCall V
  ticks : (ℕ → Answers V) → Answers V → BatcherCall V
  replays_from_disk : Faults V → (ℕ → Bool) → BatcherCall V
  stops : (ℕ → Answers V) → Answers V → BatcherCall V

module _ {V : Type 0} where
  abbrev sent_trace : List (Handled V) → Trace V
  sent_trace hs = record { accepted = []; dropped = []; handled = hs }

  unfoldable pub trace_of : BatcherCall V → TransportBatcher V → Trace V
  trace_of (publishes p) b = published_trace p b.buf
  trace_of (receives a) b = sent_trace (receive_batch a b).0
  trace_of (flushes a) b = sent_trace (flush a b).0
  trace_of (ticks w a) b = sent_trace (flush_tick w a b).0
  trace_of (replays_from_disk f accepts) b = sent_trace []
  trace_of (stops w a) b = sent_trace (stop w a b).0

  unfoldable pub after_call : BatcherCall V → TransportBatcher V → TransportBatcher V
  after_call (publishes p) b = record b { buf = (publish_point p b.buf).1 }
  after_call (receives a) b = (receive_batch a b).1
  after_call (flushes a) b = (flush a b).1
  after_call (ticks w a) b = (flush_tick w a b).1
  after_call (replays_from_disk f accepts) b = (drain_tick f accepts b).1
  after_call (stops w a) b = (stop w a b).1

  -- The batches that a call replays from disk.
  unfoldable pub replayed_of : BatcherCall V → TransportBatcher V → List (ℕ × List (DataPoint V))
  replayed_of (replays_from_disk f accepts) b = (drain_tick f accepts b).0
  replayed_of (publishes p) b = []
  replayed_of (receives a) b = []
  replayed_of (flushes a) b = []
  replayed_of (ticks w a) b = []
  replayed_of (stops w a) b = []

  abbrev join_traces : Trace V → Trace V → Trace V
  join_traces t t' = record {
    accepted = t.accepted ++ t'.accepted;
    dropped = t.dropped ++ t'.dropped;
    handled = t.handled ++ t'.handled;
  }

  abbrev pub trace_of_run : List (BatcherCall V) → TransportBatcher V → Trace V
  trace_of_run [] b = record { accepted = []; dropped = []; handled = [] }
  trace_of_run (c ∷ cs) b = join_traces (trace_of c b) (trace_of_run cs (after_call c b))

  abbrev pub after_calls : List (BatcherCall V) → TransportBatcher V → TransportBatcher V
  after_calls [] b = b
  after_calls (c ∷ cs) b = after_calls cs (after_call c b)

  abbrev pub replayed_of_run :
      List (BatcherCall V) → TransportBatcher V → List (ℕ × List (DataPoint V))
  replayed_of_run [] b = []
  replayed_of_run (c ∷ cs) b = replayed_of c b ++ replayed_of_run cs (after_call c b)

  stop-IsMoved :
      (w : ℕ → Answers V) (a : Answers V) (b : TransportBatcher V)
      → IsMoved b.buf (sent_trace (stop w a b).0) (stop w a b).1.buf
  unfolding stop
  stop-IsMoved w a b =
      let b₀ = record b { buf = record b.buf { stopped = true } } in
      let first = drain_flush_batches-IsSent w b₀ in
      let b₁ = (drain_flush_batches w b₀).1 in
      let (kept, count, closed) =
        IsSent-trans b₀.buf b₁.buf (flush_final a b₁).1.buf (drain_flush_batches w b₀).0
          (flush_final a b₁).0 first.0 (flush_final-IsSent a b₁ first.1) in
      IsMoved-on b.buf (flush_final a b₁).1.buf
        ((drain_flush_batches w b₀).0 ++ (flush_final a b₁).0) kept count

  drain_once_buf :
      (f : Faults V) (accepts : ℕ → Bool) (b : TransportBatcher V)
      → (drain_once f accepts b).1.buf ≡ b.buf
  unfolding drain_once drain_from
  drain_once_buf f accepts b = of_buffer b.offline_buffer
    where
      of_buffer : (o : Option (OfflineBuffer V)) → (drain_from f accepts o b).1.buf ≡ b.buf
      of_buffer none = refl
      of_buffer (some ob) = refl

  pub drain_tick_buf :
      (f : Faults V) (accepts : ℕ → Bool) (b : TransportBatcher V)
      → (drain_tick f accepts b).1.buf ≡ b.buf
  unfolding drain_tick
  drain_tick_buf f accepts b = elim (Bool-cases b.buf.stopped) [
    | inl closed ↦ simp closed refl
    | inr running ↦ simp running (drain_once_buf f accepts b)
  ]

  after_call-IsMoved :
      (c : BatcherCall V) (b : TransportBatcher V)
      → IsMoved b.buf (trace_of c b) (after_call c b).buf
  unfolding trace_of after_call flatten
  after_call-IsMoved (publishes p) b = Publishes-IsMoved p b.buf (publish_point-Publishes p b.buf)
  after_call-IsMoved (receives a) b =
      IsSent-IsMoved b.buf (receive_batch a b).1.buf (receive_batch a b).0
        (receive_batch-IsSent a b)
  after_call-IsMoved (flushes a) b =
      IsSent-IsMoved b.buf (flush a b).1.buf (flush a b).0 (flush-IsSent a b)
  after_call-IsMoved (ticks w a) b =
      IsSent-IsMoved b.buf (flush_tick w a b).1.buf (flush_tick w a b).0 (flush_tick-IsSent w a b)
  after_call-IsMoved (replays_from_disk f accepts) b =
      IsMoved-on b.buf (drain_tick f accepts b).1.buf []
        (sym (ap waiting (drain_tick_buf f accepts b)))
        (ap (λ (s : BatcherBufferState V). s.flush_batches_dropped) (drain_tick_buf f accepts b))
  after_call-IsMoved (stops w a) b = stop-IsMoved w a b

  IsMoved-trans :
      (s s' s'' : BatcherBufferState V) (t t' : Trace V)
      → IsMoved s t s'
      → IsMoved s' t' s''
      → IsMoved s (join_traces t t') s''
  IsMoved-trans s s' s'' t t' (kept, out, count) (kept', out', count') = (
    subst (λ (ps : List (DataPoint V)). Sublist ps (waiting s ++ (t.accepted ++ t'.accepted)))
        (sym (append_assoc (handled_points t.handled) (handled_points t'.handled) (waiting s''))
          ∙ ap (λ (ps : List (DataPoint V)). ps ++ waiting s'')
              (handled_points-append t.handled t'.handled))
        (Sublist.trans (Sublist.append (Sublist.refl (handled_points t.handled)) kept') (
          subst (λ (ps : List (DataPoint V)). Sublist ps (waiting s ++ (t.accepted ++ t'.accepted)))
            (append_assoc (handled_points t.handled) (waiting s') t'.accepted)
            (subst
              (λ (ps : List (DataPoint V)).
                Sublist ((handled_points t.handled ++ waiting s') ++ t'.accepted) ps)
              (append_assoc (waiting s) t.accepted t'.accepted)
              (Sublist.append kept (Sublist.refl t'.accepted))))),
    omega (
      arith,
      out,
      out',
      length-append (waiting s) t.accepted,
      length-append (waiting s') t'.accepted,
      length-append (handled_points t.handled) (waiting s'),
      length-append (handled_points t'.handled) (waiting s''),
      length-append (handled_points (t.handled ++ t'.handled)) (waiting s''),
      ap length (handled_points-append t.handled t'.handled),
      length-append (handled_points t.handled) (handled_points t'.handled),
      ap length (flatten-append t.dropped t'.dropped),
      length-append (flatten t.dropped) (flatten t'.dropped),
      length-append (waiting s) (t.accepted ++ t'.accepted),
      length-append t.accepted t'.accepted,
    ),
    omega (arith, count, count', length-append t.dropped t'.dropped),
  )

  after_all-IsMoved :
      (cs : List (BatcherCall V)) (b : TransportBatcher V)
      → IsMoved b.buf (trace_of_run cs b) (after_calls cs b).buf
  unfolding flatten
  after_all-IsMoved [] b = IsMoved-on b.buf b.buf [] refl refl
  after_all-IsMoved (c ∷ cs) b =
      IsMoved-trans b.buf (after_call c b).buf (after_calls cs (after_call c b)).buf (trace_of c b)
        (trace_of_run cs (after_call c b)) (after_call-IsMoved c b)
        (after_all-IsMoved cs (after_call c b))

  after_call-IsCounted :
      (c : BatcherCall V) (b : TransportBatcher V)
      → IsCounted b (trace_of c b).handled (replayed_of c b) (after_call c b)
  unfolding trace_of after_call replayed_of points_in
  after_call-IsCounted (publishes p) b = omega arith
  after_call-IsCounted (receives a) b = receive_batch-IsCounted a b
  after_call-IsCounted (flushes a) b = flush-IsCounted a b
  after_call-IsCounted (ticks w a) b = flush_tick-IsCounted w a b
  after_call-IsCounted (replays_from_disk f accepts) b = drain_tick-IsCounted f accepts b
  after_call-IsCounted (stops w a) b = stop-IsCounted w a b

  after_all-IsCounted :
      (cs : List (BatcherCall V)) (b : TransportBatcher V)
      → IsCounted b (trace_of_run cs b).handled (replayed_of_run cs b) (after_calls cs b)
  unfolding points_in
  after_all-IsCounted [] b = omega arith
  after_all-IsCounted (c ∷ cs) b =
      IsCounted-trans b (after_call c b) (after_calls cs (after_call c b)) (trace_of c b).handled
        (trace_of_run cs (after_call c b)).handled (replayed_of c b)
        (replayed_of_run cs (after_call c b)) (after_call-IsCounted c b)
        (after_all-IsCounted cs (after_call c b))

  -- Through any run of publishes, batches received by the flush loop, flushes, ticks, replays from
  -- disk and stops, with any answers of the transport and the file system, the points taken out of
  -- memory to be published, followed by those that still wait there, are a sublist, in the same
  -- order, of the points that waited at first followed by those that were let in; what is missing
  -- are as many points as the batches reported as dropped hold, and the drop counter grew by the
  -- number of those batches; and the count of published points grew by the points of the batches
  -- taken out of memory that the transport accepted and those of the batches replayed from disk.
  pub after_calls-IsMoved :
      (cs : List (BatcherCall V)) (b : TransportBatcher V)
      → IsMoved b.buf (trace_of_run cs b) (after_calls cs b).buf
        × IsCounted b (trace_of_run cs b).handled (replayed_of_run cs b) (after_calls cs b)
  after_calls-IsMoved cs b = (after_all-IsMoved cs b, after_all-IsCounted cs b)
