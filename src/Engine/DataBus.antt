-- ===== src/Engine/DataBus.antt =====
-- engine/databus.go. A bus is a record; a method returns the new bus. The mutex makes each method
-- atomic but for `push`, which lets go of it before it sends: `others` is what other goroutines do
-- to the channel between its eviction and its second attempt. A send on a closed channel panics and
-- is recovered, so a closed bus takes no point.
pub mod Queue
pub mod Fanout
pub mod Shutdown
mod Tests
use core_c.Common.{
  ℕ, suc, ◌+◌, ◌-◌, ◌/◌, ◌≡◌, String, Bool, true, false, ◌||◌, Option, none, some, List, [], ◌∷◌,
  ◌++◌, leb, ltb, if◌then◌else◌, ◌==◌, string_key, nat_key,
}
use core_c.Common.Channels.{Channel, make_channel, try_send, try_receive}
use core_c.Core.{DataPoint}

-- The channel of a subscriber is known by a number.
pub record Subscriber (V : Type 0) : Type 0 where
  pub id : ℕ
  pub filter : String
  pub ch : Channel (DataPoint V)

pub record DataBus (V : Type 0) : Type 0 where
  pub ch : Channel (DataPoint V)
  pub high_pri_ch : Channel (DataPoint V)
  pub subscribers : List (Subscriber V)
  pub next_id : ℕ
  pub closed : Bool
  pub sub_count : ℕ
  pub dropped : ℕ
  pub push_dropped : ℕ
  pub high_pri_push_dropped : ℕ

-- `bufferSize <= 0` takes the default; a negative size stands as 0.
main_size : ℕ → ℕ
main_size n = if n == 0 then 4096 else n

at_most_1024 : ℕ → ℕ
at_most_1024 n = if ltb 1024 n then 1024 else n

at_least_64 : ℕ → ℕ
at_least_64 n = if ltb n 64 then 64 else n

high_pri_size : ℕ → ℕ
unfolding main_size at_most_1024 at_least_64
high_pri_size n = at_least_64 (at_most_1024 (main_size n / 4))

module _ {V : Type 0} where
  pub new_data_bus : ℕ → DataBus V
  unfolding main_size high_pri_size make_channel
  new_data_bus n = record {
    ch = make_channel (main_size n);
    high_pri_ch = make_channel (high_pri_size n);
    subscribers = [];
    next_id = 0;
    closed = false;
    sub_count = 0;
    dropped = 0;
    push_dropped = 0;
    high_pri_push_dropped = 0;
  }

  -- The last `select` of `Push`: the channel and how many points were lost.
  send_or_drop : Channel (DataPoint V) → DataPoint V → ℕ → Channel (DataPoint V) × ℕ
  send_or_drop c p lost = elim (try_send c p) [ some c' ↦ (c', lost) | none ↦ (c, lost + 1) ]

  evict_oldest : Channel (DataPoint V) → Channel (DataPoint V) × ℕ
  evict_oldest c = elim (try_receive c) [ some (_, c') ↦ (c', 1) | none ↦ (c, 0) ]

  -- The nested `select`s that `Push` and `PushHighPriority` share.
  pub push_to :
      (Channel (DataPoint V) → Channel (DataPoint V))
      → Channel (DataPoint V)
      → DataPoint V
      → Channel (DataPoint V) × ℕ
  unfolding send_or_drop evict_oldest try_send try_receive
  push_to others c p = elim (try_send c p) [
    | some c' ↦ (c', 0)
    | none ↦ let (c', lost) = evict_oldest c in send_or_drop (others c') p lost
  ]

  pub push_racing :
      (Channel (DataPoint V) → Channel (DataPoint V)) → DataBus V → DataPoint V → DataBus V
  unfolding push_to
  push_racing others b p =
      let (c, lost) = push_to others b.ch p in
      if b.closed then b else record b { ch = c; push_dropped = b.push_dropped + lost }

  pub push_high_priority_racing :
      (Channel (DataPoint V) → Channel (DataPoint V)) → DataBus V → DataPoint V → DataBus V
  unfolding push_to
  push_high_priority_racing others b p =
      let (c, lost) = push_to others b.high_pri_ch p in
      if b.closed
      then b
      else record b { high_pri_ch = c; high_pri_push_dropped = b.high_pri_push_dropped + lost }

  -- No other goroutine interferes.
  pub push : DataBus V → DataPoint V → DataBus V
  unfolding push_racing
  push = push_racing (λ c. c)

  pub push_high_priority : DataBus V → DataPoint V → DataBus V
  unfolding push_high_priority_racing
  push_high_priority = push_high_priority_racing (λ c. c)

  -- A worker takes the next point off the main channel, if there is one.
  pub receive : DataBus V → Option (DataPoint V × DataBus V)
  unfolding try_receive
  receive b = elim (try_receive b.ch) [ none ↦ none | some (p, c) ↦ some (p, record b { ch = c }) ]

  -- `SubscribeWithBuffer`; the number stands for the returned channel and its `unsub`.
  pub subscribe_with_buffer : DataBus V → String → ℕ → DataBus V × ℕ
  unfolding make_channel
  subscribe_with_buffer b filter size = (
    record b {
      subscribers = b.subscribers ++ sub ∷ [];
      next_id = b.next_id + 1;
      sub_count = b.sub_count + 1;
    },
    b.next_id,
  )
    where
      sub : Subscriber V
      sub = record {
        id = b.next_id;
        filter = filter;
        ch = make_channel (if size == 0 then 256 else size);
      }

  pub subscribe : DataBus V → String → DataBus V × ℕ
  unfolding subscribe_with_buffer
  subscribe b filter = subscribe_with_buffer b filter 256

  -- The loop of `unsub`, up to its `break`; the number counts the removal.
  remove_first : ℕ → List (Subscriber V) → List (Subscriber V) × ℕ
  remove_first i [] = ([], 0)
  remove_first i (s ∷ ss) =
      let (rest, n) = remove_first i ss in if s.id == i then (ss, 1) else (s ∷ rest, n)

  pub unsubscribe : DataBus V → ℕ → DataBus V
  unfolding remove_first
  unsubscribe b i =
      let (ss, n) = remove_first i b.subscribers in
      record b { subscribers = ss; sub_count = b.sub_count - n }

  pub accepts : Subscriber V → DataPoint V → Bool
  accepts s p = s.filter == "" || p.driver == s.filter

  -- One round of the loop of `Broadcast`.
  deliver : DataPoint V → Subscriber V → Subscriber V × ℕ
  unfolding accepts try_send
  deliver p s =
      if accepts s p
      then elim (try_send s.ch p) [ some c ↦ (record s { ch = c }, 0) | none ↦ (s, 1) ]
      else (s, 0)

  deliver_all : DataPoint V → List (Subscriber V) → List (Subscriber V) × ℕ
  unfolding deliver
  deliver_all p [] = ([], 0)
  deliver_all p (s ∷ ss) =
      let (s', n) = deliver p s in let (ss', m) = deliver_all p ss in (s' ∷ ss', n + m)

  pub broadcast : DataBus V → DataPoint V → DataBus V
  unfolding deliver_all
  broadcast b p =
      let (ss, n) = deliver_all p b.subscribers in
      if b.sub_count == 0 then b else record b { subscribers = ss; dropped = b.dropped + n }

  pub close : DataBus V → DataBus V
  close b = if b.closed then b else record b { subscribers = []; sub_count = 0; closed = true }
