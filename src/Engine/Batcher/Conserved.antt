-- ===== src/Engine/Batcher/Conserved.antt =====
-- engine/batcher.go: what one call of `publish` moves.
use mathlib.Core.Path.{subst}
use mathlib.Core.List.Sublist
use mathlib.Core.List.{Sublist, flatten, sublist-append_left, sublist-append_right}
use core_c.Common.{
  ◌+◌, ◌≡◌, refl, sym, ap, ◌∙◌, List, [], ◌∷◌, ◌++◌, length, length-append, if◌then◌else◌, nat_key,
  string_key, append-nil, append_assoc, arith,
}
use core_c.Core.{DataPoint}
use core_c.Engine.Batcher.{BatcherBufferState, Handled, PublishReply, publish_point, enqueue}
use core_c.Engine.Batcher.Enqueue.{
  Publishes, rejects, gathers, fills, Enqueued, joins, displaces, fails, fails_both,
  enqueue-Enqueued, enqueue-IsSameElse,
}
use core_c.Engine.Batcher.Delivery.{Trace, handled_points, waiting, IsMoved, IsSent, flatten-append}

module _ {V : Type 0} where
  pub IsMoved-on :
      (s s' : BatcherBufferState V) (hs : List (Handled V))
      → waiting s ≡ handled_points hs ++ waiting s'
      → s'.flush_batches_dropped ≡ s.flush_batches_dropped
      → IsMoved s (record { accepted = []; dropped = []; handled = hs }) s'
  unfolding flatten
  IsMoved-on s s' hs w d =
      let whole : waiting s ++ [] ≡ handled_points hs ++ waiting s' = append-nil (waiting s) ∙ w in
      (
        subst (λ (ps : List (DataPoint V)). Sublist (handled_points hs ++ waiting s') ps)
            (sym whole) (Sublist.refl (handled_points hs ++ waiting s')),
        omega (arith, ap length whole),
        omega (arith, d),
      )

  pub IsSent-IsMoved :
      (s s' : BatcherBufferState V) (hs : List (Handled V))
      → IsSent s hs s'
      → IsMoved s (record { accepted = []; dropped = []; handled = hs }) s'
  unfolding flatten
  IsSent-IsMoved s s' hs (w, d, e) = IsMoved-on s s' hs w d

  abbrev pub published_trace : DataPoint V → BatcherBufferState V → Trace V
  published_trace p s = record {
    accepted = if s.stopped then [] else p ∷ [];
    dropped = (publish_point p s).0.dropped;
    handled = [];
  }

  split-IsMoved :
      (s s' : BatcherBufferState V) (dropped : List (List (DataPoint V))) (p : DataPoint V)
      (front back : List (DataPoint V))
      → waiting s ++ p ∷ [] ≡ (front ++ waiting s') ++ back
      → flatten dropped ≡ front ++ back
      → s'.flush_batches_dropped ≡ s.flush_batches_dropped + length dropped
      → IsMoved s (record { accepted = p ∷ []; dropped = dropped; handled = [] }) s'
  unfolding flatten
  split-IsMoved s s' dropped p front back whole out count = (
    subst (λ (ps : List (DataPoint V)). Sublist (waiting s') ps) (sym whole)
        (Sublist.trans (sublist-append_right front (waiting s'))
          (sublist-append_left (front ++ waiting s') back)),
    omega (
      arith,
      ap length whole,
      ap length out,
      length-append (front ++ waiting s') back,
      length-append front (waiting s'),
      length-append front back,
    ),
    count,
  )

  -- The flattened queue, with the full batch as its newest.
  flatten_joined :
      (items : List (List (DataPoint V))) (buffer : List (DataPoint V)) (p : DataPoint V)
      → flatten (items ++ (buffer ++ p ∷ []) ∷ []) ++ [] ≡ (flatten items ++ buffer) ++ p ∷ []
  unfolding flatten
  flatten_joined items buffer p =
      append-nil (flatten (items ++ (buffer ++ p ∷ []) ∷ []))
      ∙ flatten-append items ((buffer ++ p ∷ []) ∷ [])
      ∙ ap (λ (ps : List (DataPoint V)). flatten items ++ ps) (append-nil (buffer ++ p ∷ []))
      ∙ sym (append_assoc (flatten items) buffer (p ∷ []))

  -- A full batch goes to the queue, which may drop its oldest one.
  Enqueued-IsMoved :
      (s s' : BatcherBufferState V) (r : PublishReply V) (p : DataPoint V)
      → Enqueued (s.buffer ++ p ∷ []) (record s { buffer = [] }) r s'
      → s'.buffer ≡ []
      → IsMoved s (record { accepted = p ∷ []; dropped = r.dropped; handled = [] }) s'
  unfolding flatten
  Enqueued-IsMoved s s' r p (joins ok none_out items room count) empty =
      split-IsMoved s s' r.dropped p [] []
        (rw
          (
            items,
            empty,
            append-nil (flatten (s.flush_batches.items ++ (s.buffer ++ p ∷ []) ∷ []) ++ []),
          )
          (sym (flatten_joined s.flush_batches.items s.buffer p)))
        (rw none_out refl) (rw none_out (omega (arith, count)))
  Enqueued-IsMoved s s' r p (displaces oldest rest ok items out items' room count) empty =
      split-IsMoved s s' r.dropped p oldest []
        (rw
          (
            items,
            items',
            empty,
            append-nil (oldest ++ (flatten (rest ++ (s.buffer ++ p ∷ []) ∷ []) ++ [])),
          )
          (ap (λ (ps : List (DataPoint V)). ps ++ p ∷ [])
              (append_assoc oldest (flatten rest) s.buffer)
            ∙ append_assoc oldest (flatten rest ++ s.buffer) (p ∷ [])
            ∙ ap (λ (ps : List (DataPoint V)). oldest ++ ps)
                (sym (flatten_joined rest s.buffer p))))
        (rw out refl) (rw out count)
  Enqueued-IsMoved s s' r p (fails size items out items' count) empty =
      split-IsMoved s s' r.dropped p [] (s.buffer ++ p ∷ []) (rw (items, items', empty) refl)
        (rw out (append-nil (s.buffer ++ p ∷ []))) (rw out count)
  Enqueued-IsMoved s s' r p (fails_both oldest rest room items out items' count) empty =
      split-IsMoved s s' r.dropped p oldest (s.buffer ++ p ∷ [])
        (rw (items, items', empty, append-nil (flatten rest))
          (append_assoc (oldest ++ flatten rest) s.buffer (p ∷ [])))
        (rw out (ap (λ (ps : List (DataPoint V)). oldest ++ ps) (append-nil (s.buffer ++ p ∷ []))))
        (rw out count)

  -- With the call's answer written out.
  IsMoved-to :
      (p : DataPoint V) (s : BatcherBufferState V) (accepted : List (DataPoint V))
      {answer : PublishReply V × BatcherBufferState V}
      → (if s.stopped then [] else p ∷ []) ≡ accepted
      → publish_point p s ≡ answer
      → IsMoved s
          (record { accepted = accepted; dropped = answer.0.dropped; handled = [] })
          answer.1
      → IsMoved s (published_trace p s) (publish_point p s).1
  IsMoved-to p s accepted {answer} same e m =
      subst
        (λ (a : PublishReply V × BatcherBufferState V).
          IsMoved s
            (record {
              accepted = if s.stopped then [] else p ∷ [];
              dropped = a.0.dropped;
              handled = [];
            })
            a.1)
        (sym e)
        (subst
          (λ (ps : List (DataPoint V)).
            IsMoved s (record { accepted = ps; dropped = answer.0.dropped; handled = [] }) answer.1)
          (sym same) m)

  pub Publishes-IsMoved :
      (p : DataPoint V) (s : BatcherBufferState V)
      → Publishes p s
      → IsMoved s (published_trace p s) (publish_point p s).1
  unfolding flatten
  Publishes-IsMoved p s (rejects closed e) =
      (IsMoved-to p s [] (rw closed refl) e (
        subst (λ (ps : List (DataPoint V)). Sublist (waiting s) ps) (sym (append-nil (waiting s)))
            (Sublist.refl (waiting s)),
        omega (arith, ap length (append-nil (waiting s))),
        omega arith,
      ))
  Publishes-IsMoved p s (gathers running short e) =
      (IsMoved-to p s (p ∷ []) (rw running refl) e (
        split-IsMoved s (record s { buffer = s.buffer ++ p ∷ [] }) [] p [] []
          (append_assoc (flatten s.flush_batches.items) s.buffer (p ∷ [])
            ∙ sym (append-nil (flatten s.flush_batches.items ++ (s.buffer ++ p ∷ []))))
          refl (omega arith)))
  Publishes-IsMoved p s (fills running full e) =
      let batch = s.buffer ++ p ∷ [] in
      let s₀ = record s { buffer = [] } in
      (IsMoved-to p s (p ∷ []) (rw running refl) e (
        Enqueued-IsMoved s (enqueue batch s₀).1 (enqueue batch s₀).0 p (enqueue-Enqueued batch s₀)
          (enqueue-IsSameElse batch s₀).0))
