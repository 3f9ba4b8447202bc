-- ===== src/Engine/DataBus/Fanout.antt =====
-- engine/databus.go, `Broadcast`: what each subscriber receives.
use core_c.Common.{
  ℕ, zero, suc, ◌+◌, ◌-◌, ◌≤◌, ◌<◌, ◌≡◌, refl, sym, ap, ◌∙◌, inl, inr, List, [], ◌∷◌, ◌++◌, map,
  arith, ltb, if◌then◌else◌, length, length-append, take, Bool-cases, append_assoc, append-nil,
}
use core_c.Common.Channels.{try_send}
use core_c.Core.{DataPoint}
use core_c.Engine.DataBus.{DataBus, Subscriber, accepts, deliver, deliver_all, broadcast}

module _ {V : Type 0} where
  abbrev pub broadcast_all : DataBus V → List (DataPoint V) → DataBus V
  broadcast_all b [] = b
  broadcast_all b (p ∷ ps) = broadcast_all (broadcast b p) ps

  -- The points that a subscriber's filter lets through.
  abbrev pub wanted : Subscriber V → List (DataPoint V) → List (DataPoint V)
  wanted s [] = []
  wanted s (p ∷ ps) = if accepts s p then p ∷ wanted s ps else wanted s ps

  abbrev pub room : Subscriber V → ℕ
  room s = s.ch.size - length s.ch.items

  -- The subscriber gets the first of its points, as many as it has room for.
  abbrev pub filled : List (DataPoint V) → Subscriber V → Subscriber V
  filled ps s = record s {
    ch = record { items = s.ch.items ++ take (room s) (wanted s ps); size = s.ch.size };
  }

  -- How many of its points do not fit.
  abbrev pub missed : List (DataPoint V) → List (Subscriber V) → ℕ
  missed ps [] = 0
  missed ps (s ∷ ss) = length (wanted s ps) - room s + missed ps ss

  wanted-deliver :
      (p : DataPoint V) (s : Subscriber V) (ps : List (DataPoint V))
      → wanted (deliver p s).0 ps ≡ wanted s ps
  unfolding deliver accepts try_send
  wanted-deliver p s [] = refl
  wanted-deliver p s (q ∷ ps) = ground (arith, wanted-deliver p s ps)

  -- One more item in a channel with room, and then the rest.
  take_room :
      (xs : List (DataPoint V)) (n : ℕ) (p : DataPoint V) (ys : List (DataPoint V))
      → length xs < n
      → (xs ++ p ∷ []) ++ take (n - length (xs ++ p ∷ [])) ys ≡ xs ++ take (n - length xs) (p ∷ ys)
  take_room xs n p ys h =
      append_assoc xs (p ∷ []) (take (n - length (xs ++ p ∷ [])) ys)
      ∙ ap (λ k. xs ++ take k (p ∷ ys)) amount
    where
      amount : suc (n - length (xs ++ p ∷ [])) ≡ n - length xs
      amount = omega (arith, length-append xs (p ∷ []))

  take_full : (n k : ℕ) (ys : List (DataPoint V)) → k ≤ n → take (k - n) ys ≡ []
  take_full n k ys h = ap (λ j. take j ys) none_left
    where
      none_left : k - n ≡ 0
      none_left = omega arith

  filled-deliver :
      (p : DataPoint V) (s : Subscriber V) (ps : List (DataPoint V))
      → filled ps (deliver p s).0 ≡ filled (p ∷ ps) s
  unfolding deliver try_send
  filled-deliver p s ps = elim (Bool-cases (accepts s p)) [
    | inr out ↦ rw (out, deliver)
    | inl fits ↦ elim (Bool-cases (ltb (length s.ch.items) s.ch.size)) [
      | inl free ↦
          ground (
            arith,
            fits,
            free,
            wanted-deliver p s ps,
            take_room s.ch.items s.ch.size p (wanted s ps),
          )
      | inr full ↦ ground (
        arith,
        fits,
        full,
        take_full (length s.ch.items) s.ch.size (wanted s ps),
        take_full (length s.ch.items) s.ch.size (p ∷ wanted s ps),
      )
    ]
  ]

  missed-deliver :
      (p : DataPoint V) (ps : List (DataPoint V)) (ss : List (Subscriber V))
      → (deliver_all p ss).1 + missed ps (deliver_all p ss).0 ≡ missed (p ∷ ps) ss
  unfolding deliver_all deliver try_send
  missed-deliver p ps [] = omega arith
  missed-deliver p ps (s ∷ ss) =
      ground
        (arith, missed-deliver p ps ss, wanted-deliver p s ps, length-append s.ch.items (p ∷ []))

  deliver_all_lem :
      (p : DataPoint V) (ps : List (DataPoint V)) (ss : List (Subscriber V))
      → map (filled ps) (deliver_all p ss).0 ≡ map (filled (p ∷ ps)) ss
  unfolding deliver_all
  deliver_all_lem p ps [] = refl
  deliver_all_lem p ps (s ∷ ss) =
      ap (◌∷◌ (filled ps (deliver p s).0)) (deliver_all_lem p ps ss)
      ∙ ap (λ (s' : Subscriber V). s' ∷ map (filled (p ∷ ps)) ss) (filled-deliver p s ps)

  length-deliver_all :
      (p : DataPoint V) (ss : List (Subscriber V)) → length (deliver_all p ss).0 ≡ length ss
  unfolding deliver_all
  length-deliver_all p [] = refl
  length-deliver_all p (s ∷ ss) = ap suc (length-deliver_all p ss)

  map-filled_nil : (ss : List (Subscriber V)) → map (filled []) ss ≡ ss
  map-filled_nil [] = refl
  map-filled_nil (s ∷ ss) =
      ap (◌∷◌ (filled [] s)) (map-filled_nil ss)
      ∙ ap
          (λ (xs : List (DataPoint V)).
            record s { ch = record { items = xs; size = s.ch.size } } ∷ ss)
          (ap (λ (ys : List (DataPoint V)). s.ch.items ++ ys) (take_nil (room s))
            ∙ append-nil s.ch.items)
    where
      take_nil : (n : ℕ) → take {A = DataPoint V} n [] ≡ []
      take_nil zero = refl
      take_nil (suc n) = refl

  missed_nil : (ss : List (Subscriber V)) → missed [] ss ≡ 0
  missed_nil [] = refl
  missed_nil (s ∷ ss) = omega (arith, missed_nil ss)

  broadcast_fields :
      (b : DataBus V) (p : DataPoint V)
      → b.sub_count ≡ length b.subscribers
      → ((broadcast b p).subscribers ≡ (deliver_all p b.subscribers).0)
        × ((broadcast b p).dropped ≡ b.dropped + (deliver_all p b.subscribers).1)
        × ((broadcast b p).sub_count ≡ b.sub_count)
  unfolding broadcast deliver_all
  broadcast_fields b p e = go b.subscribers refl
    where
      go :
          (ss : List (Subscriber V))
          → b.subscribers ≡ ss
          → ((broadcast b p).subscribers ≡ (deliver_all p b.subscribers).0)
            × ((broadcast b p).dropped ≡ b.dropped + (deliver_all p b.subscribers).1)
            × ((broadcast b p).sub_count ≡ b.sub_count)
      go [] none_there = ground arith
      go (s ∷ ss) there = ground arith

  -- On a bus whose subscriber count is exact, a run of broadcasts gives each subscriber, in order,
  -- the points that its filter lets through, as many of the first ones as its channel had room
  -- for, and the drop counter grows by the number of those that did not fit.
  pub broadcast-run_fills :
      (b : DataBus V) (ps : List (DataPoint V))
      → b.sub_count ≡ length b.subscribers
      → ((broadcast_all b ps).subscribers ≡ map (filled ps) b.subscribers)
        × ((broadcast_all b ps).dropped ≡ b.dropped + missed ps b.subscribers)
  broadcast-run_fills b [] e =
      ground (arith, map-filled_nil b.subscribers, missed_nil b.subscribers)
  broadcast-run_fills b (p ∷ ps) e =
      let (subs, lost, count) = broadcast_fields b p e in
      let (ih, ih_lost) =
        broadcast-run_fills (broadcast b p) ps
          (count ∙ e ∙ sym (ap length subs ∙ length-deliver_all p b.subscribers)) in
      (
        ih ∙ ap (map (filled ps)) subs ∙ deliver_all_lem p ps b.subscribers,
        omega (arith, ih_lost, lost, ap (missed ps) subs, missed-deliver p ps b.subscribers),
      )
