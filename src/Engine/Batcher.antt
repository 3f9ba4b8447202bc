-- ===== src/Engine/Batcher.antt =====
-- engine/batcher.go and engine/batcher_retry.go: points gathered into batches, full batches in a bounded
-- queue for the flush loop, and a publish with retries that falls back on the offline buffer. `publish`
-- and `flush` are one step each, which their mutex makes exact but for the flush loop, which receives
-- without it. The latency and age histograms are left out.
pub mod Sending
pub mod Delivery
pub mod Enqueue
pub mod Conserved
pub mod Counted
pub mod Calls
pub mod Interval
pub mod Limits
pub mod Stopped
pub mod Outage
mod Tests
use core_c.Common.{
  ℕ, zero, suc, ◌+◌, String, Bool, true, false, not, Option, none, some, List, [], ◌∷◌, ◌++◌, map,
  length, ltb, leb, if◌then◌else◌, ◌==◌, ◌&&◌, ◌||◌, nat_key, string_key,
}
use core_c.Common.Ints.{ℤ, pos, negsuc, is_positive, rounds, successor}
use core_c.Common.Channels.{Channel, make_channel, try_send, try_receive, receive_from}
use core_c.Core.{DataPoint}
use core_c.Engine.OfflineBuffer.{OfflineBuffer, Faults, Drained, push_batch, drain, pending}

abbrev default_flush_batch_queue_size : ℕ
default_flush_batch_queue_size = 64

abbrev default_batch_size : ℕ
default_batch_size = 100

abbrev default_flush_interval : ℕ
default_flush_interval = 5_000_000_000

abbrev default_shutdown_timeout : ℕ
default_shutdown_timeout = 30_000_000_000

pub record TransportConfig : Type 0 where
  pub name : String
  pub batch_size : ℤ
  pub flush_interval : String
  pub retry_count : ℤ

pub record BatcherRetryPolicy : Type 0 where
  pub retry_count : ℤ
  pub shutdown_budget : ℕ
  pub offline_buffer_pushes : ℕ

pub record BatcherBufferState (V : Type 0) : Type 0 where
  pub batch_size : ℕ
  pub flush_interval : ℕ
  pub flush_batches : Channel (List (DataPoint V))
  pub flush_batches_dropped : ℕ
  pub stopped : Bool
  pub publish_rejected : ℕ
  pub buffer : List (DataPoint V)

-- `published` is what the calls of `onPublish` add up to.
pub record TransportBatcher (V : Type 0) : Type 0 where
  pub transport : String
  pub offline_buffer : Option (OfflineBuffer V)
  pub retry : BatcherRetryPolicy
  pub buf : BatcherBufferState V
  pub published : ℕ

-- What the outside decides in the publish of one batch: the transport's answer to each attempt, whether
-- the wait after an attempt is cut short, the clock, the file system and the JSON encoding.
pub record Answers (V : Type 0) : Type 0 where
  pub accepted_at : ℕ → Bool
  pub cancelled : ℕ → Bool
  pub now : ℕ
  pub faults : Faults V

-- A batch with the answer of its publish.
abbrev pub Handled : Type 0 → Type 0
Handled V = List (DataPoint V) × Bool

-- How a call of `publish` ended: `ok` for no error, and the batches that it reported as dropped.
pub record PublishReply (V : Type 0) : Type 0 where
  pub ok : Bool
  pub dropped : List (List (DataPoint V))

positive_or : Option ℕ → ℕ → ℕ
positive_or none d = d
positive_or (some zero) d = d
positive_or (some (suc n)) d = suc n

configured_flush : Option ℕ → Bool → ℕ
unfolding positive_or
configured_flush parsed offline = positive_or parsed (if offline then default_flush_interval else 0)

module _ {V : Type 0} where
  has_offline : Option (OfflineBuffer V) → Bool
  has_offline none = false
  has_offline (some ob) = true

  -- `time.ParseDuration` is `parse`; a negative duration counts as none. The flush queue is nil
  -- until `start`, so nothing can be sent or received: a channel of no place.
  pub new_transport_batcher :
      (String → Option ℕ)
      → TransportConfig
      → Option (OfflineBuffer V)
      → ℕ
      → Option (TransportBatcher V)
  unfolding has_offline configured_flush
  new_transport_batcher parse cfg offline budget =
      if not (is_positive cfg.batch_size)
        && (cfg.flush_interval == "")
        && not (is_positive cfg.retry_count)
        && not (has_offline offline)
      then none
      else some (record {
        transport = cfg.name;
        offline_buffer = offline;
        retry = record {
          retry_count = cfg.retry_count;
          shutdown_budget = if ltb 0 budget then budget else default_shutdown_timeout;
          offline_buffer_pushes = 0;
        };
        buf = record {
          batch_size =
              if is_positive cfg.batch_size then rounds cfg.batch_size else default_batch_size;
          flush_interval =
              configured_flush (if cfg.flush_interval == "" then none else parse cfg.flush_interval)
                (has_offline offline);
          flush_batches = make_channel 0;
          flush_batches_dropped = 0;
          stopped = false;
          publish_rejected = 0;
          buffer = [];
        };
        published = 0;
      })

  -- `start`, but for its goroutines, which are the calls that follow.
  pub start : TransportBatcher V → TransportBatcher V
  unfolding make_channel
  start b = record b {
    buf = record b.buf { flush_batches = make_channel default_flush_batch_queue_size };
  }

  -- The second and third `select` of `publish`, when the queue was full.
  evict_and_retry :
      List (DataPoint V)
      → Option (List (DataPoint V) × Channel (List (DataPoint V)))
      → BatcherBufferState V
      → PublishReply V × BatcherBufferState V
  evict_and_retry batch none s = elim (try_send s.flush_batches batch) [
    | none ↦ (
      record { ok = false; dropped = batch ∷ [] },
      record s { flush_batches_dropped = s.flush_batches_dropped + 1 },
    )
    | some c ↦ (record { ok = true; dropped = [] }, record s { flush_batches = c })
  ]
  evict_and_retry batch (some (evicted, rest)) s = elim (try_send rest batch) [
    | none ↦ (
      record { ok = false; dropped = evicted ∷ batch ∷ [] },
      record s { flush_batches = rest; flush_batches_dropped = s.flush_batches_dropped + 1 + 1 },
    )
    | some c ↦ (
      record { ok = true; dropped = evicted ∷ [] },
      record s { flush_batches = c; flush_batches_dropped = s.flush_batches_dropped + 1 },
    )
  ]

  pub enqueue : List (DataPoint V) → BatcherBufferState V → PublishReply V × BatcherBufferState V
  unfolding evict_and_retry try_send try_receive
  enqueue batch s = elim (try_send s.flush_batches batch) [
    | some c ↦ (record { ok = true; dropped = [] }, record s { flush_batches = c })
    | none ↦ evict_and_retry batch (try_receive s.flush_batches) s
  ]

  pub publish_point : DataPoint V → BatcherBufferState V → PublishReply V × BatcherBufferState V
  unfolding enqueue
  publish_point point s =
      if s.stopped
      then (
        record { ok = false; dropped = [] },
        record s { publish_rejected = s.publish_rejected + 1 },
      )
      else (let batch = s.buffer ++ point ∷ [] in
          if ltb (length batch) s.batch_size
          then (record { ok = true; dropped = [] }, record s { buffer = batch })
          else enqueue batch (record s { buffer = [] }))
