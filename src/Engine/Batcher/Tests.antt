-- ===== src/Engine/Batcher/Tests.antt =====
-- engine/batcher.go and engine/batcher_retry.go, on concrete inputs.
use core_c.Common.{
  ℕ, ◌≡◌, refl, arith, String, true, false, not, Option, some, List, [], ◌∷◌, ltb, nat_key,
}
use mathlib.Core.List.{flatten}
use core_c.Common.Ints.{pos}
use core_c.Common.Channels.{make_channel}
use core_c.Core.{DataPoint, type_bool, good}
use core_c.Engine.OfflineBuffer.{OfflineEntry, OfflineBuffer, Faults}
use core_c.Engine.Batcher.{
  TransportConfig, TransportBatcher, Answers, new_transport_batcher, publish_point, start,
}
use core_c.Engine.Batcher.Sending.{publish_with_retry_and_buffer, attempt_loop, stop, drain_once}
use core_c.Engine.Batcher.Counted.{IsCounted}
use core_c.Engine.Batcher.Delivery.{IsMoved, waiting, handled_points}
use core_c.Engine.Batcher.Calls.{
  BatcherCall, publishes, receives, ticks, replays_from_disk, stops, trace_of_run, after_calls,
  replayed_of_run, after_calls-IsMoved,
}
use core_c.Engine.Batcher.Limits.{IsLimited, after_calls-IsLimited}
use core_c.Engine.Batcher.Stopped.{stop-after_calls_empty}
use core_c.Common.{◌↔◌, ◌+◌, ◌<◌}
use core_c.Common.Ints.{rounds, successor}
use core_c.Engine.Batcher.Outage.{
  IsFirstAccepted, publish-IsFirstAccepted, IsDelivered, drain_once-publish_delivers,
}

abbrev point : ℕ → DataPoint ℕ
point v = record {
  driver = "plc";
  device = "";
  group = "";
  tag = "t";
  value = v;
  type = type_bool;
  quality = good;
  timestamp = v;
  metadata = [];
  is_stale = false;
}

abbrev works : Faults ℕ
works = record {
  marshal = λ e. some (some e);
  lists = true;
  writes = true;
  reads = λ k. true;
  removes = λ k. true;
}

-- The transport is down.
abbrev down : Answers ℕ
down = record { accepted_at = λ k. false; cancelled = λ k. false; now = 50; faults = works }

-- The transport is up again at the third attempt.
abbrev late : Answers ℕ
late = record { accepted_at = λ k. ltb 1 k; cancelled = λ k. false; now = 60; faults = works }

abbrev disk : OfflineBuffer ℕ
disk = record { max_entries = 5; files = []; next_seq = 1; drain_count = 0; evict_count = 0 }

abbrev config : TransportConfig
config = record { name = "mqtt"; batch_size = pos 2; flush_interval = "1s"; retry_count = pos 3 }

abbrev parse : String → Option ℕ
parse s = some 1_000_000_000

abbrev batcher : TransportBatcher ℕ
batcher = record {
  transport = "mqtt";
  offline_buffer = some disk;
  retry = record {
    retry_count = pos 3;
    shutdown_budget = 30_000_000_000;
    offline_buffer_pushes = 0;
  };
  buf = record {
    batch_size = 2;
    flush_interval = 1_000_000_000;
    flush_batches = record { items = []; size = 0 };
    flush_batches_dropped = 0;
    stopped = false;
    publish_rejected = 0;
    buffer = [];
  };
  published = 0;
}

abbrev running : TransportBatcher ℕ
running = record batcher {
  buf = record batcher.buf { flush_batches = record { items = []; size = 64 } };
}

abbrev calls : List (BatcherCall ℕ)
calls =
    publishes (point 1)
    ∷ publishes (point 2)
    ∷ publishes (point 3)
    ∷ receives down
    ∷ replays_from_disk works (λ k. true)
    ∷ ticks (λ k. late) late
    ∷ publishes (point 4)
    ∷ stops (λ k. down) down
    ∷ publishes (point 5)
    ∷ []

new_batcher : new_transport_batcher parse config (some disk) 0 ≡ some batcher
unfolding new_transport_batcher make_channel
new_batcher = refl

refused : (publish_with_retry_and_buffer down (point 1 ∷ []) batcher).0 ≡ false
unfolding publish_with_retry_and_buffer attempt_loop
refused = refl

after_calls-IsMoved_example :
    IsMoved running.buf (trace_of_run calls running) (after_calls calls running).buf
    × IsCounted running
        (trace_of_run calls running).handled
        (replayed_of_run calls running)
        (after_calls calls running)
after_calls-IsMoved_example = after_calls-IsMoved calls running

after_calls-IsLimited_example :
    IsLimited (after_calls calls (start batcher)).buf
    × ((publish_point (point 6) (after_calls calls (start batcher)).buf).0.ok
        ≡ not (after_calls calls (start batcher)).buf.stopped)
after_calls-IsLimited_example =
    after_calls-IsLimited parse config (some disk) 0 calls (point 6) new_batcher

stop-after_calls_empty_example :
    ((trace_of_run calls (stop (λ k. down) late running).1).accepted ≡ [])
    × (handled_points (trace_of_run calls (stop (λ k. down) late running).1).handled ≡ [])
    × (replayed_of_run calls (stop (λ k. down) late running).1 ≡ [])
    × (flatten (trace_of_run calls (stop (λ k. down) late running).1).dropped ≡ [])
    × (waiting (after_calls calls (stop (λ k. down) late running).1).buf ≡ [])
stop-after_calls_empty_example = stop-after_calls_empty (λ k. down) late running calls

-- The entry of the first point on disk.
abbrev entry : OfflineEntry ℕ
entry = record { seq = 1; time = 50; points = point 1 ∷ []; source = "mqtt" }

drain_once-publish_delivers_example :
    IsDelivered batcher disk entry
      (drain_once works (λ k. true) (publish_with_retry_and_buffer down (point 1 ∷ []) batcher).1)
drain_once-publish_delivers_example =
    drain_once-publish_delivers down (point 1) [] batcher disk entry works (λ k. true) refl
      (refl, refl, λ k. refl, λ k. refl) refl refl (omega arith) (omega arith) refused
      (refl, refl, λ k. refl, λ k. refl) (λ k. refl)

publish-IsFirstAccepted_example :
    ((publish_with_retry_and_buffer late (point 1 ∷ []) running).0 ≡ true)
    ↔ ((k : ℕ) × (k < 0 + rounds (successor (pos 3))) × IsFirstAccepted late 0 k)
publish-IsFirstAccepted_example = publish-IsFirstAccepted late (point 1 ∷ []) running

-- A nil queue takes nothing: the second point fills a batch that is lost.
unstarted :
    (publish_point (point 2) (publish_point (point 1) batcher.buf).1).0
    ≡ record { ok = false; dropped = (point 1 ∷ point 2 ∷ []) ∷ [] }
unfolding publish_point
unstarted = refl
