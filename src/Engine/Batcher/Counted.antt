-- ===== src/Engine/Batcher/Counted.antt =====
-- engine/batcher.go: the points that `onPublish` counts.
use core_c.Common.{
  ℕ, ◌+◌, ◌≡◌, refl, inl, inr, Bool, true, Option, none, some, List, [], ◌∷◌, ◌++◌, length, ltb,
  if◌then◌else◌, ◌==◌, ◌||◌, nat_key, string_key, Bool-cases, arith,
}
use core_c.Common.Channels.{try_receive, receive_from}
use core_c.Common.Ints.{rounds, successor}
use core_c.Core.{DataPoint}
use core_c.Engine.OfflineBuffer.{OfflineBuffer, Faults, push_batch}
use core_c.Engine.Batcher.{TransportBatcher, Answers, Handled}
use core_c.Engine.Batcher.Sending.{
  publish_with_retry_and_buffer, attempt_loop, exhausted, keep_pushed, receive_batch, take_batch,
  drain_queued, drain_flush_batches, flush_buffer, flush, flush_final, flush_tick, stop, points_in,
  drain_from, drain_once, drain_tick,
}

module _ {V : Type 0} where
  -- The points of the batches that the transport accepted.
  abbrev pub delivered : List (Handled V) → ℕ
  delivered [] = 0
  delivered ((batch, ok) ∷ hs) = (if ok then length batch else 0) + delivered hs

  -- The points published grew by those delivered from memory and those replayed from disk.
  abbrev pub IsCounted :
      TransportBatcher V
      → List (Handled V)
      → List (ℕ × List (DataPoint V))
      → TransportBatcher V
      → Type 0
  IsCounted b hs replayed b' = b'.published ≡ b.published + delivered hs + points_in replayed

  delivered-append : (xs ys : List (Handled V)) → delivered (xs ++ ys) ≡ delivered xs + delivered ys
  delivered-append [] ys = omega arith
  delivered-append ((batch, ok) ∷ xs) ys = omega (arith, delivered-append xs ys)

  points_in-append :
      (xs ys : List (ℕ × List (DataPoint V))) → points_in (xs ++ ys) ≡ points_in xs + points_in ys
  unfolding points_in
  points_in-append [] ys = omega arith
  points_in-append ((seq, points) ∷ xs) ys = omega (arith, points_in-append xs ys)

  pub IsCounted-trans :
      (b b' b'' : TransportBatcher V) (hs hs' : List (Handled V))
      (rs rs' : List (ℕ × List (DataPoint V)))
      → IsCounted b hs rs b'
      → IsCounted b' hs' rs' b''
      → IsCounted b (hs ++ hs') (rs ++ rs') b''
  IsCounted-trans b b' b'' hs hs' rs rs' first last =
      omega (arith, first, last, delivered-append hs hs', points_in-append rs rs')

  keep_published :
      (r : Bool × OfflineBuffer V) (b : TransportBatcher V)
      → (keep_pushed r b).published ≡ b.published
  unfolding keep_pushed
  keep_published (ok, ob) b = refl

  exhausted_published :
      (a : Answers V) (batch : List (DataPoint V)) (o : Option (OfflineBuffer V))
      (b : TransportBatcher V)
      → (exhausted a batch o b).published ≡ b.published
  unfolding exhausted
  exhausted_published a batch none b = refl
  exhausted_published a batch (some ob) b =
      keep_published (push_batch a.faults a.now batch b.transport ob) b

  publish_with_retry-IsCounted :
      (a : Answers V) (batch : List (DataPoint V)) (b : TransportBatcher V)
      → IsCounted b
          ((batch, (publish_with_retry_and_buffer a batch b).0) ∷ [])
          []
          (publish_with_retry_and_buffer a batch b).1
  unfolding publish_with_retry_and_buffer points_in
  publish_with_retry-IsCounted a batch b =
      elim (Bool-cases (attempt_loop a (rounds (successor b.retry.retry_count)) 0)) [
        | inl done ↦ rw done (omega arith)
        | inr out ↦ rw out (omega (arith, exhausted_published a batch b.offline_buffer b))
      ]

  pub receive_batch-IsCounted :
      (a : Answers V) (b : TransportBatcher V)
      → IsCounted b (receive_batch a b).0 [] (receive_batch a b).1
  unfolding receive_batch try_receive take_batch receive_from points_in
  receive_batch-IsCounted a b = by_items b.buf.flush_batches.items
    where
      by_items :
          (items : List (List (DataPoint V)))
          → IsCounted b
              (take_batch a (receive_from items b.buf.flush_batches.size) b).0
              []
              (take_batch a (receive_from items b.buf.flush_batches.size) b).1
      by_items [] = omega arith
      by_items (batch ∷ rest) = publish_with_retry-IsCounted a batch (record b {
        buf = record b.buf {
          flush_batches = record { items = rest; size = b.buf.flush_batches.size };
        };
      })

  drain_queued-IsCounted :
      (w : ℕ → Answers V) (n : ℕ) (batches : List (List (DataPoint V))) (b : TransportBatcher V)
      → IsCounted b (drain_queued w n batches b).0 [] (drain_queued w n batches b).1
  unfolding drain_queued points_in
  drain_queued-IsCounted w n [] b = omega arith
  drain_queued-IsCounted w n (batch ∷ rest) b =
      let b₁ = record b {
        buf = record b.buf { flush_batches = record b.buf.flush_batches { items = rest } };
      } in
      let b₂ = (publish_with_retry_and_buffer (w n) batch b₁).1 in
      omega (
        arith,
        publish_with_retry-IsCounted (w n) batch b₁,
        drain_queued-IsCounted w (n + 1) rest b₂,
      )

  drain_flush_batches-IsCounted :
      (w : ℕ → Answers V) (b : TransportBatcher V)
      → IsCounted b (drain_flush_batches w b).0 [] (drain_flush_batches w b).1
  unfolding drain_flush_batches
  drain_flush_batches-IsCounted w b = drain_queued-IsCounted w 0 b.buf.flush_batches.items b

  flush_buffer-IsCounted :
      (a : Answers V) (b : TransportBatcher V)
      → IsCounted b (flush_buffer a b).0 [] (flush_buffer a b).1
  unfolding flush_buffer
  flush_buffer-IsCounted a b =
      publish_with_retry-IsCounted a b.buf.buffer (record b { buf = record b.buf { buffer = [] } })

  pub flush-IsCounted :
      (a : Answers V) (b : TransportBatcher V) → IsCounted b (flush a b).0 [] (flush a b).1
  unfolding flush points_in
  flush-IsCounted a b =
      elim (Bool-cases (length b.buf.buffer == 0 || ltb 0 (length b.buf.flush_batches.items))) [
        | inl waits ↦ rw waits (omega arith)
        | inr goes ↦ rw goes (flush_buffer-IsCounted a b)
      ]

  flush_final-IsCounted :
      (a : Answers V) (b : TransportBatcher V)
      → IsCounted b (flush_final a b).0 [] (flush_final a b).1
  unfolding flush_final points_in
  flush_final-IsCounted a b = elim (Bool-cases (length b.buf.buffer == 0)) [
    | inl nothing ↦ rw nothing (omega arith)
    | inr something ↦ rw something (flush_buffer-IsCounted a b)
  ]

  pub flush_tick-IsCounted :
      (w : ℕ → Answers V) (a : Answers V) (b : TransportBatcher V)
      → IsCounted b (flush_tick w a b).0 [] (flush_tick w a b).1
  unfolding flush_tick
  flush_tick-IsCounted w a b =
      let b' = (drain_flush_batches w b).1 in
      IsCounted-trans b b' (flush a b').1 (drain_flush_batches w b).0 (flush a b').0 [] []
        (drain_flush_batches-IsCounted w b) (flush-IsCounted a b')

  pub stop-IsCounted :
      (w : ℕ → Answers V) (a : Answers V) (b : TransportBatcher V)
      → IsCounted b (stop w a b).0 [] (stop w a b).1
  unfolding stop
  stop-IsCounted w a b =
      let b₀ = record b { buf = record b.buf { stopped = true } } in
      let b' = (drain_flush_batches w b₀).1 in
      IsCounted-trans b₀ b' (flush_final a b').1 (drain_flush_batches w b₀).0 (flush_final a b').0
        [] [] (drain_flush_batches-IsCounted w b₀) (flush_final-IsCounted a b')

  drain_from-IsCounted :
      (f : Faults V) (accepts : ℕ → Bool) (o : Option (OfflineBuffer V)) (b : TransportBatcher V)
      → IsCounted b [] (drain_from f accepts o b).0 (drain_from f accepts o b).1
  unfolding drain_from points_in
  drain_from-IsCounted f accepts none b = omega arith
  drain_from-IsCounted f accepts (some ob) b = omega arith

  pub drain_tick-IsCounted :
      (f : Faults V) (accepts : ℕ → Bool) (b : TransportBatcher V)
      → IsCounted b [] (drain_tick f accepts b).0 (drain_tick f accepts b).1
  unfolding drain_tick drain_once points_in
  drain_tick-IsCounted f accepts b = elim (Bool-cases b.buf.stopped) [
    | inl closed ↦ simp closed (omega arith)
    | inr running ↦ simp running (drain_from-IsCounted f accepts b.offline_buffer b)
  ]
