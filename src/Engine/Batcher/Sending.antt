-- ===== src/Engine/Batcher/Sending.antt =====
-- engine/batcher_retry.go, and the flush loop, `stop` and `drainOnce` of engine/batcher.go: how batches
-- reach the transport.
use core_c.Common.{
  ℕ, zero, suc, ◌+◌, Bool, true, false, not, Option, none, some, List, [], ◌∷◌, ◌++◌, length, ltb,
  if◌then◌else◌, ◌==◌, ◌&&◌, ◌||◌, nat_key, string_key,
}
use core_c.Common.Ints.{rounds, successor}
use core_c.Common.Channels.{Channel, try_receive}
use core_c.Core.{DataPoint}
use core_c.Engine.OfflineBuffer.{OfflineBuffer, Faults, push_batch, drain}
use core_c.Engine.Batcher.{TransportBatcher, Answers, Handled}

-- The attempts that are left from the attempt of this number on; `true` if one was accepted.
unfoldable pub attempt_loop : {V : Type 0} → Answers V → ℕ → ℕ → Bool
attempt_loop a zero attempt = false
attempt_loop a (suc left) attempt =
    let rest = attempt_loop a left (attempt + 1) in
    if a.accepted_at attempt
    then true
    else if not (left == 0) && a.cancelled attempt
    then false
    else rest

module _ {V : Type 0} where
  unfoldable pub keep_pushed : Bool × OfflineBuffer V → TransportBatcher V → TransportBatcher V
  keep_pushed (ok, ob) b = record b {
    offline_buffer = some ob;
    retry = record b.retry {
      offline_buffer_pushes =
          if ok then b.retry.offline_buffer_pushes + 1 else b.retry.offline_buffer_pushes;
    };
  }

  -- What follows the label `exhausted`.
  unfoldable pub exhausted :
      Answers V
      → List (DataPoint V)
      → Option (OfflineBuffer V)
      → TransportBatcher V
      → TransportBatcher V
  unfolding keep_pushed
  exhausted a batch none b = b
  exhausted a batch (some ob) b = keep_pushed (push_batch a.faults a.now batch b.transport ob) b

  unfoldable pub publish_with_retry_and_buffer :
      Answers V → List (DataPoint V) → TransportBatcher V → Bool × TransportBatcher V
  unfolding exhausted
  publish_with_retry_and_buffer a batch b =
      if attempt_loop a (rounds (successor b.retry.retry_count)) 0
      then (true, record b { published = b.published + length batch })
      else (false, exhausted a batch b.offline_buffer b)

  -- The case of the flush loop that receives a batch.
  unfoldable pub take_batch :
      Answers V
      → Option (List (DataPoint V) × Channel (List (DataPoint V)))
      → TransportBatcher V
      → List (Handled V) × TransportBatcher V
  unfolding publish_with_retry_and_buffer
  take_batch a none b = ([], b)
  take_batch a (some (batch, rest)) b =
      let (ok, b') =
        publish_with_retry_and_buffer a batch
          (record b { buf = record b.buf { flush_batches = rest } }) in
      ((batch, ok) ∷ [], b')

  unfoldable pub receive_batch :
      Answers V → TransportBatcher V → List (Handled V) × TransportBatcher V
  unfolding take_batch try_receive
  receive_batch a b = take_batch a (try_receive b.buf.flush_batches) b

  -- `drainFlushBatches`, as long as these batches are queued; `w n` is about the batch of place `n`.
  unfoldable pub drain_queued :
      (ℕ → Answers V)
      → ℕ
      → List (List (DataPoint V))
      → TransportBatcher V
      → List (Handled V) × TransportBatcher V
  unfolding publish_with_retry_and_buffer
  drain_queued w n [] b = ([], b)
  drain_queued w n (batch ∷ rest) b =
      let (ok, b') = publish_with_retry_and_buffer (w n) batch (record b {
        buf = record b.buf { flush_batches = record b.buf.flush_batches { items = rest } };
      }) in
      let (more, b'') = drain_queued w (n + 1) rest b' in ((batch, ok) ∷ more, b'')

  unfoldable pub drain_flush_batches :
      (ℕ → Answers V) → TransportBatcher V → List (Handled V) × TransportBatcher V
  unfolding drain_queued
  drain_flush_batches w b = drain_queued w 0 b.buf.flush_batches.items b

  -- The buffer is swapped out and published.
  unfoldable pub flush_buffer :
      Answers V → TransportBatcher V → List (Handled V) × TransportBatcher V
  unfolding publish_with_retry_and_buffer
  flush_buffer a b =
      let (ok, b') =
        publish_with_retry_and_buffer a b.buf.buffer
          (record b { buf = record b.buf { buffer = [] } }) in
      ((b.buf.buffer, ok) ∷ [], b')

  unfoldable pub flush : Answers V → TransportBatcher V → List (Handled V) × TransportBatcher V
  unfolding flush_buffer
  flush a b =
      if (length b.buf.buffer == 0) || ltb 0 (length b.buf.flush_batches.items)
      then ([], b)
      else flush_buffer a b

  unfoldable pub flush_final :
      Answers V → TransportBatcher V → List (Handled V) × TransportBatcher V
  unfolding flush_buffer
  flush_final a b = if length b.buf.buffer == 0 then ([], b) else flush_buffer a b

  -- The tick of the flush loop.
  unfoldable pub flush_tick :
      (ℕ → Answers V) → Answers V → TransportBatcher V → List (Handled V) × TransportBatcher V
  unfolding drain_flush_batches flush
  flush_tick w a b =
      let (first, b') = drain_flush_batches w b in
      let (last, b'') = flush a b' in (first ++ last, b'')

  -- `stop`: the flag, what the flush loop still drains on its way out, and the final flush.
  unfoldable pub stop :
      (ℕ → Answers V) → Answers V → TransportBatcher V → List (Handled V) × TransportBatcher V
  unfolding drain_flush_batches flush_final
  stop w a b =
      let (first, b') =
        drain_flush_batches w (record b { buf = record b.buf { stopped = true } }) in
      let (last, b'') = flush_final a b' in (first ++ last, b'')

  unfoldable pub points_in : List (ℕ × List (DataPoint V)) → ℕ
  points_in [] = 0
  points_in ((seq, points) ∷ rest) = length points + points_in rest

  -- `drainOnce`: `accepts` is what the transport answers to the batch of a number.
  unfoldable pub drain_from :
      Faults V
      → (ℕ → Bool)
      → Option (OfflineBuffer V)
      → TransportBatcher V
      → List (ℕ × List (DataPoint V)) × TransportBatcher V
  unfolding points_in
  drain_from f accepts none b = ([], b)
  drain_from f accepts (some ob) b =
      let (d, ob') = drain f accepts b.transport ob in
      (
        d.published,
        record b { offline_buffer = some ob'; published = b.published + points_in d.published },
      )

  unfoldable pub drain_once :
      Faults V
      → (ℕ → Bool)
      → TransportBatcher V
      → List (ℕ × List (DataPoint V)) × TransportBatcher V
  unfolding drain_from
  drain_once f accepts b = drain_from f accepts b.offline_buffer b

  -- A tick of `drainLoop`, which `stop` ends before it returns.
  unfoldable pub drain_tick :
      Faults V
      → (ℕ → Bool)
      → TransportBatcher V
      → List (ℕ × List (DataPoint V)) × TransportBatcher V
  unfolding drain_once
  drain_tick f accepts b = if b.buf.stopped then ([], b) else drain_once f accepts b
