-- ===== src/Engine/Batcher/Enqueue.antt =====
-- engine/batcher.go: what `publish` does with a full batch.
use core_c.Common.{
  ◌+◌, ◌≤◌, ◌<◌, ◌≡◌, refl, ap, inl, inr, true, false, List, [], ◌∷◌, ◌++◌, length, length-append,
  ltb, nat_key, Bool-cases, arith,
}
use core_c.Common.Channels.{try_send, try_receive, receive_from}
use core_c.Core.{DataPoint}
use core_c.Engine.Batcher.{
  BatcherBufferState, PublishReply, publish_point, enqueue, evict_and_retry,
}

module _ {V : Type 0} where
  -- How a batch joins the queue: at once, in the place of the oldest one, or not at all.
  pub data Enqueued (batch : List (DataPoint V)) (s : BatcherBufferState V) (r : PublishReply V)
      (s' : BatcherBufferState V) : Type 0 where
    joins :
        r.ok ≡ true
        → r.dropped ≡ []
        → s'.flush_batches.items ≡ s.flush_batches.items ++ batch ∷ []
        → length s.flush_batches.items < s.flush_batches.size
        → s'.flush_batches_dropped ≡ s.flush_batches_dropped
        → Enqueued batch s r s'
    displaces :
        (oldest : List (DataPoint V)) (rest : List (List (DataPoint V)))
        → r.ok ≡ true
        → s.flush_batches.items ≡ oldest ∷ rest
        → r.dropped ≡ oldest ∷ []
        → s'.flush_batches.items ≡ rest ++ batch ∷ []
        → length rest < s.flush_batches.size
        → s'.flush_batches_dropped ≡ s.flush_batches_dropped + 1
        → Enqueued batch s r s'
    fails :
        s.flush_batches.size ≡ 0
        → s.flush_batches.items ≡ []
        → r.dropped ≡ batch ∷ []
        → s'.flush_batches.items ≡ []
        → s'.flush_batches_dropped ≡ s.flush_batches_dropped + 1
        → Enqueued batch s r s'
    fails_both :
        (oldest : List (DataPoint V)) (rest : List (List (DataPoint V)))
        → s.flush_batches.size ≤ length rest
        → s.flush_batches.items ≡ oldest ∷ rest
        → r.dropped ≡ oldest ∷ batch ∷ []
        → s'.flush_batches.items ≡ rest
        → s'.flush_batches_dropped ≡ s.flush_batches_dropped + 2
        → Enqueued batch s r s'

  evict_and_retry-Enqueued :
      (batch : List (DataPoint V)) (s : BatcherBufferState V) (items : List (List (DataPoint V)))
      → s.flush_batches.items ≡ items
      → s.flush_batches.size ≤ length items
      → (let a = evict_and_retry batch (receive_from items s.flush_batches.size) s in
          Enqueued batch s a.0 a.1)
  unfolding evict_and_retry try_send receive_from
  evict_and_retry-Enqueued batch s [] e full =
      let packed : ltb (length s.flush_batches.items) s.flush_batches.size ≡ false =
        ground (arith, ap length e) in
      rw (evict_and_retry, packed) (fails (omega arith) e refl e refl)
  evict_and_retry-Enqueued batch s (oldest ∷ rest) e full =
      elim (Bool-cases (ltb (length rest) s.flush_batches.size)) [
        | inl room ↦
            rw (evict_and_retry, room) (displaces oldest rest refl e refl refl (ground arith) refl)
        | inr packed ↦
            rw (evict_and_retry, packed)
              (fails_both oldest rest (ground arith) e refl refl (omega arith))
      ]

  pub enqueue-Enqueued :
      (batch : List (DataPoint V)) (s : BatcherBufferState V)
      → Enqueued batch s (enqueue batch s).0 (enqueue batch s).1
  unfolding enqueue try_send try_receive
  enqueue-Enqueued batch s =
      elim (Bool-cases (ltb (length s.flush_batches.items) s.flush_batches.size)) [
        | inl room ↦ rw (enqueue, room) (joins refl refl refl (ground arith) refl)
        | inr packed ↦
            rw (enqueue, packed)
              (evict_and_retry-Enqueued batch s s.flush_batches.items refl (ground arith))
      ]

  -- The rest of the state stays.
  abbrev pub IsSameElse : BatcherBufferState V → BatcherBufferState V → Type 0
  IsSameElse s s' =
      (s'.buffer ≡ s.buffer)
      × (s'.stopped ≡ s.stopped)
      × (s'.batch_size ≡ s.batch_size)
      × (s'.publish_rejected ≡ s.publish_rejected)
      × (s'.flush_batches.size ≡ s.flush_batches.size)

  evict_and_retry-IsSameElse :
      (batch : List (DataPoint V)) (s : BatcherBufferState V) (items : List (List (DataPoint V)))
      → IsSameElse s (evict_and_retry batch (receive_from items s.flush_batches.size) s).1
  unfolding evict_and_retry try_send receive_from
  evict_and_retry-IsSameElse batch s [] =
      elim (Bool-cases (ltb (length s.flush_batches.items) s.flush_batches.size)) [
        | inl room ↦ rw (evict_and_retry, room) (refl, refl, refl, refl, refl)
        | inr packed ↦ rw (evict_and_retry, packed) (refl, refl, refl, refl, refl)
      ]
  evict_and_retry-IsSameElse batch s (oldest ∷ rest) =
      elim (Bool-cases (ltb (length rest) s.flush_batches.size)) [
        | inl room ↦ rw (evict_and_retry, room) (refl, refl, refl, refl, refl)
        | inr packed ↦ rw (evict_and_retry, packed) (refl, refl, refl, refl, refl)
      ]

  pub enqueue-IsSameElse :
      (batch : List (DataPoint V)) (s : BatcherBufferState V) → IsSameElse s (enqueue batch s).1
  unfolding enqueue try_send try_receive
  enqueue-IsSameElse batch s =
      elim (Bool-cases (ltb (length s.flush_batches.items) s.flush_batches.size)) [
        | inl room ↦ rw (enqueue, room) (refl, refl, refl, refl, refl)
        | inr packed ↦
            rw (enqueue, packed) (evict_and_retry-IsSameElse batch s s.flush_batches.items)
      ]

  -- What a call of `publish` does.
  pub data Publishes (p : DataPoint V) (s : BatcherBufferState V) : Type 0 where
    rejects :
        s.stopped ≡ true
        → publish_point p s ≡ (
          record { ok = false; dropped = [] },
          record s { publish_rejected = s.publish_rejected + 1 },
        )
        → Publishes p s
    gathers :
        s.stopped ≡ false
        → length s.buffer + 1 < s.batch_size
        → publish_point p s
          ≡ (record { ok = true; dropped = [] }, record s { buffer = s.buffer ++ p ∷ [] })
        → Publishes p s
    fills :
        s.stopped ≡ false
        → s.batch_size ≤ length s.buffer + 1
        → publish_point p s ≡ enqueue (s.buffer ++ p ∷ []) (record s { buffer = [] })
        → Publishes p s

  pub publish_point-Publishes : (p : DataPoint V) (s : BatcherBufferState V) → Publishes p s
  unfolding publish_point
  publish_point-Publishes p s = elim (Bool-cases s.stopped) [
    | inl closed ↦ rejects closed (if_stopped closed)
    | inr running ↦ elim (Bool-cases (ltb (length (s.buffer ++ p ∷ [])) s.batch_size)) [
      | inl short ↦
          gathers running (ground (arith, length-append s.buffer (p ∷ []))) (if_short running short)
      | inr full ↦
          fills running (ground (arith, length-append s.buffer (p ∷ []))) (if_full running full)
    ]
  ]
    where
      if_stopped :
          s.stopped ≡ true
          → publish_point p s ≡ (
            record { ok = false; dropped = [] },
            record s { publish_rejected = s.publish_rejected + 1 },
          )
      if_stopped h = ground arith

      if_short :
          s.stopped ≡ false
          → ltb (length (s.buffer ++ p ∷ [])) s.batch_size ≡ true
          → publish_point p s
            ≡ (record { ok = true; dropped = [] }, record s { buffer = s.buffer ++ p ∷ [] })
      if_short h k = ground arith

      if_full :
          s.stopped ≡ false
          → ltb (length (s.buffer ++ p ∷ [])) s.batch_size ≡ false
          → publish_point p s ≡ enqueue (s.buffer ++ p ∷ []) (record s { buffer = [] })
      if_full h k = ground arith
