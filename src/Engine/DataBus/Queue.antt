-- ===== src/Engine/DataBus/Queue.antt =====
-- engine/databus.go, `Push` and `PushHighPriority`: what the bounded channel keeps.
use core_c.Common.{
  ℕ, ◌+◌, ◌-◌, ◌≤◌, ◌<◌, ◌≡◌, refl, ap, ◌∙◌, ◌⊎◌, inl, inr, false, List, [], ◌∷◌, ◌++◌, arith, ltb,
  length, length-append, drop_congr, Bool-cases,
}
use core_c.Common.Windows.{last_n, push_bounded, push_all, push_all_lem, trim, length-push_bounded}
use core_c.Common.Channels.{Channel, IsWithin, try_send, try_receive}
use core_c.Core.{DataPoint}
use core_c.Engine.DataBus.{DataBus, push_to, push, push_racing, send_or_drop, evict_oldest}

module _ {V : Type 0} where
  -- A point that finds room costs nothing; otherwise the oldest one goes.
  push_list_lem :
      (xs : List (DataPoint V)) (n : ℕ) (p : DataPoint V)
      → 0 < n
      → length xs ≤ n
      → (push_to (λ c. c) (record { items = xs; size = n }) p).0
        ≡ record { items = push_bounded n xs p; size = n }
  unfolding push_to push_bounded trim
  push_list_lem [] n p h w = ground (arith)
  push_list_lem (x ∷ xs) n p h w = ground (
    arith,
    length-append xs (p ∷ []),
    drop_congr (length (x ∷ (xs ++ p ∷ [])) - n) 1 (x ∷ (xs ++ p ∷ [])),
  )

  push_list_lost :
      (xs : List (DataPoint V)) (n : ℕ) (p : DataPoint V)
      → 0 < n
      → length xs ≤ n
      → (push_to (λ c. c) (record { items = xs; size = n }) p).1 + length (push_bounded n xs p)
        ≡ length xs + 1
  unfolding push_to push_bounded trim
  push_list_lost [] n p h w = ground (arith)
  push_list_lost (x ∷ xs) n p h w = ground (arith, length-append xs (p ∷ []))

  abbrev pub push_all_bus : DataBus V → List (DataPoint V) → DataBus V
  push_all_bus b [] = b
  push_all_bus b (p ∷ ps) = push_all_bus (push b p) ps

  push_fields :
      (b : DataBus V) (p : DataPoint V)
      → b.closed ≡ false
      → 0 < b.ch.size
      → IsWithin b.ch
      → ((push b p).ch ≡ record { items = push_bounded b.ch.size b.ch.items p; size = b.ch.size })
        × ((push b p).push_dropped + length (push_bounded b.ch.size b.ch.items p)
            ≡ b.push_dropped + length b.ch.items + 1)
        × ((push b p).closed ≡ false)
  unfolding push
  push_fields b p open_bus pos w =
      ground (arith, push_list_lem b.ch.items b.ch.size p, push_list_lost b.ch.items b.ch.size p)

  push_all_items :
      (b : DataBus V) (ps : List (DataPoint V))
      → b.closed ≡ false
      → 0 < b.ch.size
      → IsWithin b.ch
      → (push_all_bus b ps).ch.items ≡ push_all b.ch.size b.ch.items ps
  unfolding push_all
  push_all_items b [] open_bus pos w = refl
  push_all_items b (p ∷ ps) open_bus pos w =
      let (e, _, o) = push_fields b p open_bus pos w in
      push_all_items (push b p) ps o (rw e pos) (rw e (length-push_bounded b.ch.size b.ch.items p))
      ∙ ap (λ (c : Channel (DataPoint V)). push_all c.size c.items ps) e

  push_all_lost :
      (b : DataBus V) (ps : List (DataPoint V))
      → b.closed ≡ false
      → 0 < b.ch.size
      → IsWithin b.ch
      → (push_all_bus b ps).push_dropped + length (push_all_bus b ps).ch.items
        ≡ b.push_dropped + length b.ch.items + length ps
  push_all_lost b [] open_bus pos w = omega arith
  push_all_lost b (p ∷ ps) open_bus pos w =
      let (e, k, o) = push_fields b p open_bus pos w in
      omega (
        arith,
        k,
        ap (λ (c : Channel (DataPoint V)). length c.items) e,
        push_all_lost (push b p) ps o (rw e pos)
            (rw e (length-push_bounded b.ch.size b.ch.items p)),
      )

  -- Pushed to an open bus whose main channel has a positive size and is within it, with nobody
  -- reading, a run of points leaves exactly the newest points that the channel can hold, in order,
  -- and the drop counter grows by the number of points that are not there any more.
  pub push-run_newest :
      (b : DataBus V) (ps : List (DataPoint V))
      → b.closed ≡ false
      → 0 < b.ch.size
      → IsWithin b.ch
      → ((push_all_bus b ps).ch.items ≡ last_n b.ch.size (b.ch.items ++ ps))
        × ((push_all_bus b ps).push_dropped + length (push_all_bus b ps).ch.items
            ≡ b.push_dropped + length b.ch.items + length ps)
  push-run_newest b ps open_bus pos w = (
    push_all_items b ps open_bus pos w ∙ push_all_lem b.ch.size b.ch.items ps w,
    push_all_lost b ps open_bus pos w,
  )

  -- The point stands last, or `lost` grew.
  abbrev pub IsNewestOrLost : ℕ → DataPoint V → Channel (DataPoint V) × ℕ → Type 0
  IsNewestOrLost lost p (c, n) =
      IsWithin c × (((xs : List (DataPoint V)) × (c.items ≡ xs ++ p ∷ [])) ⊎ (lost < n))

  send_or_drop_newest :
      (c : Channel (DataPoint V)) (p : DataPoint V) (lost k : ℕ)
      → lost ≤ k
      → IsWithin c
      → IsNewestOrLost lost p (send_or_drop c p k)
  unfolding send_or_drop try_send
  send_or_drop_newest c p lost k h w = elim (Bool-cases (ltb (length c.items) c.size)) [
    | inl room ↦
        rw (room, send_or_drop)
          (ground (arith, length-append c.items (p ∷ [])), inl (c.items, refl))
    | inr full ↦ rw (full, send_or_drop) (w, inr (omega arith))
  ]

  evict_oldest-IsWithin :
      (xs : List (DataPoint V)) (n : ℕ)
      → length xs ≤ n
      → IsWithin (evict_oldest (record { items = xs; size = n })).0
  unfolding evict_oldest try_receive
  evict_oldest-IsWithin [] n w = w
  evict_oldest-IsWithin (x ∷ xs) n w = omega arith

  pub push_to_newest :
      (others : Channel (DataPoint V) → Channel (DataPoint V))
      → ((c : Channel (DataPoint V)) → IsWithin c → IsWithin (others c))
      → (c : Channel (DataPoint V)) (p : DataPoint V) → IsWithin c
      → IsNewestOrLost 0 p (push_to others c p)
  unfolding push_to try_send
  push_to_newest others keep c p w = elim (Bool-cases (ltb (length c.items) c.size)) [
    | inl room ↦
        rw (room, push_to) (ground (arith, length-append c.items (p ∷ [])), inl (c.items, refl))
    | inr full ↦
        rw (full, push_to)
          (send_or_drop_newest (others (evict_oldest c).0) p 0 (evict_oldest c).1 (omega arith)
            (keep (evict_oldest c).0 (evict_oldest-IsWithin c.items c.size w)))
  ]

  -- Whatever other goroutines do to the main channel between the eviction and the second attempt
  -- of `Push`, as long as they keep the channel within its size, an open bus has it within its
  -- size afterwards, and either the new point is the newest one in the channel or the drop counter
  -- grew.
  push_racing_newest :
      (others : Channel (DataPoint V) → Channel (DataPoint V))
      → ((c : Channel (DataPoint V)) → IsWithin c → IsWithin (others c))
      → (b : DataBus V) (p : DataPoint V) → b.closed ≡ false
      → IsWithin b.ch
      → IsWithin (push_racing others b p).ch
        × (((xs : List (DataPoint V)) × ((push_racing others b p).ch.items ≡ xs ++ p ∷ []))
            ⊎ (b.push_dropped < (push_racing others b p).push_dropped))
  unfolding push_racing
  push_racing_newest others keep b p open_bus w =
      let facts = push_to_newest others keep b.ch p w in
      rw (open_bus, push_racing) (facts.0, ground (arith, facts.1))
