-- ===== src/Engine/Batcher/Limits.antt =====
-- engine/batcher.go: how much can wait in a batcher.
use mathlib.Core.Path.{subst}
use core_c.Common.{
  ℕ, zero, suc, ◌≤◌, ◌<◌, ◌≡◌, refl, sym, ap, ◌∙◌, inl, inr, String, true, not, Option, some, List,
  [], ◌∷◌, ◌++◌, length, length-append, ltb, ◌==◌, ◌||◌, nat_key, string_key, Bool-cases, arith,
}
use core_c.Common.Channels.{try_receive, receive_from, make_channel}
use core_c.Common.Ints.{ℤ, pos, negsuc, is_positive, rounds}
use core_c.Core.{DataPoint}
use core_c.Engine.OfflineBuffer.{OfflineBuffer}
use core_c.Engine.Batcher.{
  BatcherBufferState, TransportBatcher, Answers, PublishReply, publish_point, enqueue,
}
use core_c.Engine.Batcher.Sending.{
  receive_batch, flush, flush_tick, stop, drain_flush_batches, flush_final,
}
use core_c.Engine.Batcher.Enqueue.{
  Publishes, rejects, gathers, fills, publish_point-Publishes, Enqueued, joins, displaces, fails,
  fails_both, enqueue-Enqueued, enqueue-IsSameElse,
}
use core_c.Engine.Batcher.Calls.{
  BatcherCall, publishes, receives, flushes, ticks, replays_from_disk, stops, after_call,
  after_calls, drain_tick_buf,
}
use core_c.Engine.Batcher.{TransportConfig, new_transport_batcher, start}
use core_c.Engine.Batcher.Sending.{flush_buffer, take_batch}
use core_c.Engine.Batcher.Delivery.{drain_queued_buf, publish_with_retry_buf}

rounds_positive : (n : ℤ) → is_positive n ≡ true → 0 < rounds n
rounds_positive (pos zero) h = cc
rounds_positive (pos (suc n)) h = omega arith
rounds_positive (negsuc n) h = cc

module _ {V : Type 0} where
  -- The queue is within its size, which is positive, and the partial batch is not full.
  abbrev pub IsLimited : BatcherBufferState V → Type 0
  IsLimited s =
      (length s.flush_batches.items ≤ s.flush_batches.size)
      × (1 ≤ s.flush_batches.size)
      × (length s.buffer < s.batch_size)

  Enqueued-IsLimited :
      (batch : List (DataPoint V)) (s s' : BatcherBufferState V) (r : PublishReply V)
      → length s.flush_batches.items ≤ s.flush_batches.size
      → 1 ≤ s.flush_batches.size
      → Enqueued batch s r s'
      → (length s'.flush_batches.items ≤ s.flush_batches.size) × (r.ok ≡ true)
  Enqueued-IsLimited batch s s' r h k (joins ok none_out items room count) =
      (omega (arith, ap length items, length-append s.flush_batches.items (batch ∷ [])), ok)
  Enqueued-IsLimited batch s s' r h k (displaces oldest rest ok items out items' room count) =
      (omega (arith, ap length items', length-append rest (batch ∷ [])), ok)
  Enqueued-IsLimited batch s s' r h k (fails size items out items' count) = absurd (omega arith)
  Enqueued-IsLimited batch s s' r h k (fails_both oldest rest room items out items' count) =
      absurd (omega (arith, ap length items))

  publish_point-IsLimited :
      (p : DataPoint V) (s : BatcherBufferState V)
      → IsLimited s
      → Publishes p s
      → IsLimited (publish_point p s).1 × ((publish_point p s).0.ok ≡ not s.stopped)
  publish_point-IsLimited p s (h, k, l) (rejects closed e) = rw (e, closed) ((h, k, l), refl)
  publish_point-IsLimited p s (h, k, l) (gathers running short e) =
      rw (e, running) ((h, k, omega (arith, length-append s.buffer (p ∷ []))), refl)
  publish_point-IsLimited p s (h, k, l) (fills running full e) =
      let batch = s.buffer ++ p ∷ [] in
      let s₀ = record s { buffer = [] } in
      let (within, ok) =
        Enqueued-IsLimited batch s₀ (enqueue batch s₀).1 (enqueue batch s₀).0 h k
          (enqueue-Enqueued batch s₀) in
      let same = enqueue-IsSameElse batch s₀ in
      rw e (
        (omega (arith, same.4), omega (arith, same.4), omega (arith, ap length same.0, same.2)),
        ok ∙ rw running refl,
      )

  flush_buffer-IsLimited :
      (a : Answers V) (b : TransportBatcher V)
      → IsLimited b.buf
      → IsLimited (flush_buffer a b).1.buf
  unfolding flush_buffer
  flush_buffer-IsLimited a b (h, k, l) =
      rw (publish_with_retry_buf a b.buf.buffer (record b { buf = record b.buf { buffer = [] } }))
        (h, k, omega arith)

  flush-IsLimited :
      (a : Answers V) (b : TransportBatcher V) → IsLimited b.buf → IsLimited (flush a b).1.buf
  unfolding flush
  flush-IsLimited a b h =
      elim (Bool-cases (length b.buf.buffer == 0 || ltb 0 (length b.buf.flush_batches.items))) [
        | inl waits ↦ rw waits h
        | inr goes ↦ rw goes (flush_buffer-IsLimited a b h)
      ]

  flush_final-IsLimited :
      (a : Answers V) (b : TransportBatcher V) → IsLimited b.buf → IsLimited (flush_final a b).1.buf
  unfolding flush_final
  flush_final-IsLimited a b h = elim (Bool-cases (length b.buf.buffer == 0)) [
    | inl nothing ↦ rw nothing h
    | inr something ↦ rw something (flush_buffer-IsLimited a b h)
  ]

  drain_flush_batches-IsLimited :
      (w : ℕ → Answers V) (b : TransportBatcher V)
      → IsLimited b.buf
      → IsLimited (drain_flush_batches w b).1.buf
  unfolding drain_flush_batches
  drain_flush_batches-IsLimited w b (h, k, l) =
      rw (drain_queued_buf w 0 b.buf.flush_batches.items b refl).1 (omega arith, k, l)

  receive_batch-IsLimited :
      (a : Answers V) (b : TransportBatcher V)
      → IsLimited b.buf
      → IsLimited (receive_batch a b).1.buf
  unfolding receive_batch try_receive take_batch receive_from
  receive_batch-IsLimited a b (h, k, l) = by_items b.buf.flush_batches.items h
    where
      by_items :
          (items : List (List (DataPoint V)))
          → length items ≤ b.buf.flush_batches.size
          → IsLimited (take_batch a (receive_from items b.buf.flush_batches.size) b).1.buf
      by_items [] n = (h, k, l)
      by_items (batch ∷ rest) n =
          rw
            (publish_with_retry_buf a batch (record b {
              buf = record b.buf {
                flush_batches = record { items = rest; size = b.buf.flush_batches.size };
              };
            }))
            (omega arith, k, l)

  after_call-IsLimited :
      (c : BatcherCall V) (b : TransportBatcher V)
      → IsLimited b.buf
      → IsLimited (after_call c b).buf
  unfolding after_call flush_tick stop
  after_call-IsLimited (publishes p) b h =
      (publish_point-IsLimited p b.buf h (publish_point-Publishes p b.buf)).0
  after_call-IsLimited (receives a) b h = receive_batch-IsLimited a b h
  after_call-IsLimited (flushes a) b h = flush-IsLimited a b h
  after_call-IsLimited (ticks w a) b h =
      flush-IsLimited a (drain_flush_batches w b).1 (drain_flush_batches-IsLimited w b h)
  after_call-IsLimited (replays_from_disk f accepts) b h =
      subst IsLimited (sym (drain_tick_buf f accepts b)) h
  after_call-IsLimited (stops w a) b h =
      let b₀ = record b { buf = record b.buf { stopped = true } } in
      flush_final-IsLimited a (drain_flush_batches w b₀).1 (drain_flush_batches-IsLimited w b₀ h)

  after_all-IsLimited :
      (cs : List (BatcherCall V)) (b : TransportBatcher V)
      → IsLimited b.buf
      → IsLimited (after_calls cs b).buf
  after_all-IsLimited [] b h = h
  after_all-IsLimited (c ∷ cs) b h =
      after_all-IsLimited cs (after_call c b) (after_call-IsLimited c b h)

  start-IsLimited :
      (parse : String → Option ℕ) (cfg : TransportConfig) (offline : Option (OfflineBuffer V))
      (budget : ℕ) {b : TransportBatcher V}
      → new_transport_batcher parse cfg offline budget ≡ some b
      → IsLimited (start b).buf
  unfolding new_transport_batcher start make_channel
  start-IsLimited parse cfg offline budget {b} made = ground (arith, rounds_positive cfg.batch_size)

  -- From the batcher that a configuration makes, once it is started, through any run of calls, the
  -- flush queue is within its size and the partial batch below the batch size, and `publish`
  -- returns an error exactly when the batcher is stopped.
  pub after_calls-IsLimited :
      (parse : String → Option ℕ) (cfg : TransportConfig) (offline : Option (OfflineBuffer V))
      (budget : ℕ) (cs : List (BatcherCall V)) (p : DataPoint V) {b : TransportBatcher V}
      → new_transport_batcher parse cfg offline budget ≡ some b
      → IsLimited (after_calls cs (start b)).buf
        × ((publish_point p (after_calls cs (start b)).buf).0.ok
            ≡ not (after_calls cs (start b)).buf.stopped)
  after_calls-IsLimited parse cfg offline budget cs p {b} made =
      let h = after_all-IsLimited cs (start b) (start-IsLimited parse cfg offline budget made) in
      (
        h,
        (publish_point-IsLimited p (after_calls cs (start b)).buf h
            (publish_point-Publishes p (after_calls cs (start b)).buf)).1,
      )
