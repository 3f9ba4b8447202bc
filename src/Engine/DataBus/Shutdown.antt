-- ===== src/Engine/DataBus/Shutdown.antt =====
-- engine/databus.go: the bookkeeping that every method keeps, subscription, and the closed bus.
use core_c.Common.{
  ℕ, ◌+◌, ◌-◌, ◌≤◌, ◌<◌, ◌≡◌, refl, ap, true, false, List, [], ◌∷◌, ◌++◌, String, arith, length,
  length-append, All, All-append,
}
use core_c.Common.Channels.{IsWithin, try_send, make_channel}
use core_c.Core.{DataPoint}
use core_c.Engine.DataBus.{
  DataBus, Subscriber, push, push_racing, push_high_priority, push_high_priority_racing, broadcast,
  deliver, deliver_all, subscribe_with_buffer, unsubscribe, remove_first, close,
}
use core_c.Engine.DataBus.Queue.{push_to_newest}

pub data Call (V : Type 0) : Type 0 where
  pushes : DataPoint V → Call V
  pushes_high_priority : DataPoint V → Call V
  broadcasts : DataPoint V → Call V
  subscribes : String → ℕ → Call V
  unsubscribes : ℕ → Call V
  closes : Call V

module _ {V : Type 0} where
  abbrev pub step : DataBus V → Call V → DataBus V
  step b (pushes p) = push b p
  step b (pushes_high_priority p) = push_high_priority b p
  step b (broadcasts p) = broadcast b p
  step b (subscribes f n) = (subscribe_with_buffer b f n).0
  step b (unsubscribes i) = unsubscribe b i
  step b closes = close b

  abbrev pub run : DataBus V → List (Call V) → DataBus V
  run b [] = b
  run b (c ∷ cs) = run (step b c) cs

  abbrev IsRegistered : ℕ → Subscriber V → Type 0
  IsRegistered n s = (s.id < n) × IsWithin s.ch

  -- The atomic count is the number of subscribers, every channel is within its size, and the
  -- numbers given to subscribers are below the next one.
  pub record IsConsistent (b : DataBus V) : Type 0 where
    pub counted : b.sub_count ≡ length b.subscribers
    pub main_within : IsWithin b.ch
    pub high_within : IsWithin b.high_pri_ch
    pub registered : All (IsRegistered b.next_id) b.subscribers

  deliver_all-IsRegistered :
      (n : ℕ) (p : DataPoint V) (ss : List (Subscriber V))
      → All (IsRegistered n) ss
      → All (IsRegistered n) (deliver_all p ss).0 × (length (deliver_all p ss).0 ≡ length ss)
  unfolding deliver_all deliver try_send
  deliver_all-IsRegistered n p [] h = (tt, refl)
  deliver_all-IsRegistered n p (s ∷ ss) h =
      ground (arith, deliver_all-IsRegistered n p ss h.1, length-append s.ch.items (p ∷ []))

  remove_first-IsRegistered :
      (n i : ℕ) (ss : List (Subscriber V))
      → All (IsRegistered n) ss
      → All (IsRegistered n) (remove_first i ss).0
        × (length (remove_first i ss).0 ≡ length ss - (remove_first i ss).1)
        × ((remove_first i ss).1 ≤ length ss)
  unfolding remove_first
  remove_first-IsRegistered n i [] h = (tt, refl, omega arith)
  remove_first-IsRegistered n i (s ∷ ss) h = ground (arith, remove_first-IsRegistered n i ss h.1)

  IsRegistered-later :
      (n : ℕ) (ss : List (Subscriber V)) → All (IsRegistered n) ss → All (IsRegistered (n + 1)) ss
  IsRegistered-later n [] h = tt
  IsRegistered-later n (s ∷ ss) h = ((omega arith, h.0.1), IsRegistered-later n ss h.1)

  -- Every call of the bus (pushes on both tiers, broadcast, subscribe, unsubscribe, close) keeps
  -- the subscriber count equal to the number of subscribers, every channel within its size, and
  -- the subscribers' numbers below the next one.
  pub step-IsConsistent : (b : DataBus V) (c : Call V) → IsConsistent b → IsConsistent (step b c)
  unfolding push push_racing push_high_priority push_high_priority_racing broadcast
      subscribe_with_buffer unsubscribe close
  step-IsConsistent b (pushes p) v =
      ground (arith, push_to_newest (λ c. c) (λ c h. h) b.ch p v.main_within)
  step-IsConsistent b (pushes_high_priority p) v =
      ground (arith, push_to_newest (λ c. c) (λ c h. h) b.high_pri_ch p v.high_within)
  step-IsConsistent b (broadcasts p) v =
      ground (arith, deliver_all-IsRegistered b.next_id p b.subscribers v.registered)
  step-IsConsistent b (subscribes f n) v = record {
    counted = omega (arith, v.counted, length-append {0} b.subscribers);
    main_within = v.main_within;
    high_within = v.high_within;
    registered =
        All-append (IsRegistered (b.next_id + 1)) b.subscribers _
          (IsRegistered-later b.next_id b.subscribers v.registered)
          (unfold make_channel in ((omega arith, omega arith), tt));
  }
  step-IsConsistent b (unsubscribes i) v =
      ground (arith, remove_first-IsRegistered b.next_id i b.subscribers v.registered)
  step-IsConsistent b closes v = ground arith

  pub run-IsConsistent :
      (b : DataBus V) (cs : List (Call V)) → IsConsistent b → IsConsistent (run b cs)
  run-IsConsistent b [] v = v
  run-IsConsistent b (c ∷ cs) v = run-IsConsistent (step b c) cs (step-IsConsistent b c v)

  remove_first_last :
      (i : ℕ) (ss : List (Subscriber V)) (s : Subscriber V)
      → All (IsRegistered i) ss
      → s.id ≡ i
      → (remove_first i (ss ++ s ∷ [])) ≡ (ss, 1)
  unfolding remove_first
  remove_first_last i [] s h e = ground arith
  remove_first_last i (t ∷ ss) s h e = ground (arith, remove_first_last i ss s h.1 e)

  -- On a consistent bus, subscribing and then unsubscribing by the returned number leaves the
  -- subscribers and their count as they were.
  unsubscribe-subscribe :
      (b : DataBus V) (filter : String) (size : ℕ)
      → IsConsistent b
      → let (b', i) = subscribe_with_buffer b filter size in
        ((unsubscribe b' i).subscribers ≡ b.subscribers)
        × ((unsubscribe b' i).sub_count ≡ b.sub_count)
  unfolding subscribe_with_buffer unsubscribe
  unsubscribe-subscribe b filter size v =
      let e = remove_first_last b.next_id b.subscribers _ v.registered refl in
      (
        ap (λ (r : List (Subscriber V) × ℕ). r.0) e,
        omega (arith, ap (λ (r : List (Subscriber V) × ℕ). r.1) e),
      )

  -- What a producer or a second `Close` may still call.
  abbrev pub IsLate : Call V → Type 0
  IsLate (subscribes f n) = ⊥
  IsLate (unsubscribes i) = ⊥
  IsLate (pushes p) = Unit
  IsLate (pushes_high_priority p) = Unit
  IsLate (broadcasts p) = Unit
  IsLate closes = Unit

  late_step :
      (b : DataBus V) (c : Call V) → b.closed ≡ true → b.sub_count ≡ 0 → IsLate c → step b c ≡ b
  unfolding push push_racing push_high_priority push_high_priority_racing broadcast close
  late_step b (pushes p) e z h = ground arith
  late_step b (pushes_high_priority p) e z h = ground arith
  late_step b (broadcasts p) e z h = ground arith
  late_step b closes e z h = ground arith
  late_step b (subscribes f n) e z h = absurd h
  late_step b (unsubscribes i) e z h = absurd h

  late_run :
      (b : DataBus V) (cs : List (Call V))
      → b.closed ≡ true
      → b.sub_count ≡ 0
      → All IsLate cs
      → run b cs ≡ b
  late_run b [] e z h = refl
  late_run b (c ∷ cs) e z h = rw (late_step b c e z h.0) (late_run b cs e z h.1)

  -- Once an open bus is closed, any run of pushes on either tier, broadcasts and further closes
  -- changes nothing, and nobody is subscribed.
  run-close_inert :
      (b : DataBus V) (cs : List (Call V))
      → b.closed ≡ false
      → All IsLate cs
      → (run (close b) cs ≡ close b) × ((close b).subscribers ≡ [])
  unfolding close
  run-close_inert b cs e h = rw e (late_run _ cs refl refl h, refl)
