-- ===== src/Engine/Batcher/Delivery.antt =====
-- engine/batcher.go: the way of the points from `publish` to the transport.
use mathlib.Core.List.{Sublist, flatten}
use core_c.Common.{
  ℕ, ◌+◌, ◌≡◌, refl, sym, ap, ◌∙◌, inl, inr, Bool, false, Option, none, some, List, [], ◌∷◌, ◌++◌,
  map, length, ltb, ◌==◌, ◌||◌, nat_key, string_key, Bool-cases, append-nil, append_assoc, arith,
}
use core_c.Common.Channels.{try_receive, receive_from}
use core_c.Core.{DataPoint}
use core_c.Engine.OfflineBuffer.{OfflineBuffer, push_batch}
use core_c.Engine.Batcher.{BatcherBufferState, TransportBatcher, Answers, Handled}
use core_c.Engine.Batcher.Sending.{
  publish_with_retry_and_buffer, exhausted, keep_pushed, receive_batch, take_batch, drain_queued,
  drain_flush_batches, flush_buffer, flush, flush_final, flush_tick,
}

pub flatten-append :
    {A : Type 0} (xs ys : List (List A)) → flatten (xs ++ ys) ≡ flatten xs ++ flatten ys
unfolding flatten
flatten-append [] ys = refl
flatten-append (x ∷ xs) ys =
    ap (λ zs. x ++ zs) (flatten-append xs ys) ∙ sym (append_assoc x (flatten xs) (flatten ys))

-- What a call lets into memory, what it reports as dropped and what it takes out to publish; what it
-- replays from disk was taken out before.
pub record Trace (V : Type 0) : Type 0 where
  pub accepted : List (DataPoint V)
  pub dropped : List (List (DataPoint V))
  pub handled : List (Handled V)

module _ {V : Type 0} where
  abbrev pub handled_points : List (Handled V) → List (DataPoint V)
  handled_points hs = flatten (map (λ (h : Handled V). h.0) hs)

  -- The points that wait, oldest first.
  abbrev pub waiting : BatcherBufferState V → List (DataPoint V)
  waiting s = flatten s.flush_batches.items ++ s.buffer

  -- What went out and what waits are, in order, what waited and came in, less what was dropped.
  abbrev pub IsMoved : BatcherBufferState V → Trace V → BatcherBufferState V → Type 0
  IsMoved s t s' =
      Sublist (handled_points t.handled ++ waiting s') (waiting s ++ t.accepted)
      × (length (waiting s ++ t.accepted)
          ≡ length (handled_points t.handled ++ waiting s') + length (flatten t.dropped))
      × (s'.flush_batches_dropped ≡ s.flush_batches_dropped + length t.dropped)

  -- Nothing came in and nothing was dropped.
  abbrev pub IsSent : BatcherBufferState V → List (Handled V) → BatcherBufferState V → Type 0
  IsSent s hs s' =
      (waiting s ≡ handled_points hs ++ waiting s')
      × (s'.flush_batches_dropped ≡ s.flush_batches_dropped)
      × (s'.stopped ≡ s.stopped)

  keep_buf : (r : Bool × OfflineBuffer V) (b : TransportBatcher V) → (keep_pushed r b).buf ≡ b.buf
  unfolding keep_pushed
  keep_buf (ok, ob) b = refl

  exhausted_buf :
      (a : Answers V) (batch : List (DataPoint V)) (o : Option (OfflineBuffer V))
      (b : TransportBatcher V)
      → (exhausted a batch o b).buf ≡ b.buf
  unfolding exhausted
  exhausted_buf a batch none b = refl
  exhausted_buf a batch (some ob) b = keep_buf (push_batch a.faults a.now batch b.transport ob) b

  pub publish_with_retry_buf :
      (a : Answers V) (batch : List (DataPoint V)) (b : TransportBatcher V)
      → (publish_with_retry_and_buffer a batch b).1.buf ≡ b.buf
  unfolding publish_with_retry_and_buffer
  publish_with_retry_buf a batch b = ground (arith, exhausted_buf a batch b.offline_buffer b)

  pub handled_points-append :
      (xs ys : List (Handled V))
      → handled_points xs ++ handled_points ys ≡ handled_points (xs ++ ys)
  unfolding flatten
  handled_points-append [] ys = refl
  handled_points-append (x ∷ xs) ys =
      append_assoc x.0 (handled_points xs) (handled_points ys)
      ∙ ap (λ (ps : List (DataPoint V)). x.0 ++ ps) (handled_points-append xs ys)

  pub IsSent-trans :
      (s s' s'' : BatcherBufferState V) (hs hs' : List (Handled V))
      → IsSent s hs s'
      → IsSent s' hs' s''
      → IsSent s (hs ++ hs') s''
  unfolding flatten
  IsSent-trans s s' s'' hs hs' (w, d, e) (w', d', e') = (
    w
        ∙ ap (λ (ps : List (DataPoint V)). handled_points hs ++ ps) w'
        ∙ sym (append_assoc (handled_points hs) (handled_points hs') (waiting s''))
        ∙ ap (λ (ps : List (DataPoint V)). ps ++ waiting s'') (handled_points-append hs hs'),
    d' ∙ d,
    e' ∙ e,
  )

  pub drain_queued_buf :
      (w : ℕ → Answers V) (n : ℕ) (batches : List (List (DataPoint V))) (b : TransportBatcher V)
      → b.buf.flush_batches.items ≡ batches
      → (handled_points (drain_queued w n batches b).0 ≡ flatten batches)
        × ((drain_queued w n batches b).1.buf
            ≡ record b.buf { flush_batches = record b.buf.flush_batches { items = [] } })
  unfolding drain_queued flatten
  drain_queued_buf w n [] b e =
      (refl, λ i. record b.buf { flush_batches = record b.buf.flush_batches { items = e i } })
  drain_queued_buf w n (batch ∷ rest) b e =
      let b₁ = record b {
        buf = record b.buf { flush_batches = record b.buf.flush_batches { items = rest } };
      } in
      let kept = publish_with_retry_buf (w n) batch b₁ in
      let b₂ = (publish_with_retry_and_buffer (w n) batch b₁).1 in
      let (out, same) =
        drain_queued_buf w (n + 1) rest b₂
          (ap (λ (s : BatcherBufferState V). s.flush_batches.items) kept) in
      (
        ap (λ (ps : List (DataPoint V)). batch ++ ps) out,
        same
            ∙ ap
                (λ (s : BatcherBufferState V). record s {
                  flush_batches = record s.flush_batches { items = [] };
                })
                kept,
      )

  pub drain_flush_batches-IsSent :
      (w : ℕ → Answers V) (b : TransportBatcher V)
      → IsSent b.buf (drain_flush_batches w b).0 (drain_flush_batches w b).1.buf
        × ((drain_flush_batches w b).1.buf.flush_batches.items ≡ [])
  unfolding drain_flush_batches flatten
  drain_flush_batches-IsSent w b =
      let (out, same) = drain_queued_buf w 0 b.buf.flush_batches.items b refl in
      (
        (
          sym (
              ap
                (λ (s : BatcherBufferState V).
                  handled_points (drain_queued w 0 b.buf.flush_batches.items b).0 ++ waiting s)
                same
              ∙ ap (λ (ps : List (DataPoint V)). ps ++ b.buf.buffer) out),
          ap (λ (s : BatcherBufferState V). s.flush_batches_dropped) same,
          ap (λ (s : BatcherBufferState V). s.stopped) same,
        ),
        ap (λ (s : BatcherBufferState V). s.flush_batches.items) same,
      )

  flush_buffer-IsSent :
      (a : Answers V) (b : TransportBatcher V)
      → b.buf.flush_batches.items ≡ []
      → IsSent b.buf (flush_buffer a b).0 (flush_buffer a b).1.buf
  unfolding flush_buffer flatten
  flush_buffer-IsSent a b empty =
      let b₁ = record b { buf = record b.buf { buffer = [] } } in
      let kept = publish_with_retry_buf a b.buf.buffer b₁ in
      (
        rw (kept, empty, append-nil (b.buf.buffer ++ []), append-nil b.buf.buffer) refl,
        ap (λ (s : BatcherBufferState V). s.flush_batches_dropped) kept,
        ap (λ (s : BatcherBufferState V). s.stopped) kept,
      )

  pub flush-IsSent :
      (a : Answers V) (b : TransportBatcher V) → IsSent b.buf (flush a b).0 (flush a b).1.buf
  unfolding flush flatten
  flush-IsSent a b =
      elim (Bool-cases (length b.buf.buffer == 0 || ltb 0 (length b.buf.flush_batches.items))) [
        | inl waits ↦ rw waits (refl, refl, refl)
        | inr goes ↦ rw goes (flush_buffer-IsSent a b (empty b.buf.flush_batches.items goes))
      ]
    where
      empty :
          (items : List (List (DataPoint V)))
          → (length b.buf.buffer == 0 || ltb 0 (length items)) ≡ false
          → items ≡ []
      empty [] h = refl
      empty (x ∷ xs) h = ground arith

  pub flush_final-IsSent :
      (a : Answers V) (b : TransportBatcher V)
      → b.buf.flush_batches.items ≡ []
      → IsSent b.buf (flush_final a b).0 (flush_final a b).1.buf
  unfolding flush_final flatten
  flush_final-IsSent a b empty = elim (Bool-cases (length b.buf.buffer == 0)) [
    | inl none_there ↦ rw none_there (refl, refl, refl)
    | inr some_there ↦ rw some_there (flush_buffer-IsSent a b empty)
  ]

  pub flush_tick-IsSent :
      (w : ℕ → Answers V) (a : Answers V) (b : TransportBatcher V)
      → IsSent b.buf (flush_tick w a b).0 (flush_tick w a b).1.buf
  unfolding flush_tick
  flush_tick-IsSent w a b =
      IsSent-trans b.buf (drain_flush_batches w b).1.buf (flush a (drain_flush_batches w b).1).1.buf
        (drain_flush_batches w b).0 (flush a (drain_flush_batches w b).1).0
        (drain_flush_batches-IsSent w b).0 (flush-IsSent a (drain_flush_batches w b).1)

  pub receive_batch-IsSent :
      (a : Answers V) (b : TransportBatcher V)
      → IsSent b.buf (receive_batch a b).0 (receive_batch a b).1.buf
  unfolding receive_batch try_receive flatten
  receive_batch-IsSent a b = by_items b.buf.flush_batches.items refl
    where
      by_items :
          (items : List (List (DataPoint V)))
          → b.buf.flush_batches.items ≡ items
          → IsSent b.buf
              (take_batch a (receive_from items b.buf.flush_batches.size) b).0
              (take_batch a (receive_from items b.buf.flush_batches.size) b).1.buf
      by_items [] e = (refl, refl, refl)
      by_items (batch ∷ rest) e =
          let kept = publish_with_retry_buf a batch (record b {
            buf = record b.buf {
              flush_batches = record { items = rest; size = b.buf.flush_batches.size };
            };
          }) in
          (
            ap (λ (l : List (List (DataPoint V))). flatten l ++ b.buf.buffer) e
                ∙ append_assoc batch (flatten rest) b.buf.buffer
                ∙ rw (kept, append-nil batch) refl,
            ap (λ (s : BatcherBufferState V). s.flush_batches_dropped) kept,
            ap (λ (s : BatcherBufferState V). s.stopped) kept,
          )
