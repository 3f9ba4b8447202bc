-- ===== src/Engine/OfflineBuffer/Tests.antt =====
-- engine/offlinebuffer.go, on concrete inputs.
use core_c.Common.{
  ℕ, ◌+◌, ◌≡◌, ◌≤◌, refl, arith, String, true, false, some, none, List, [], ◌∷◌, ◌++◌, length, ◌==◌,
  nat_key,
}
use core_c.Common.Maps.{lookup}
use core_c.Common.Windows.{last_n}
use core_c.Core.{DataPoint, type_bool, good}
use core_c.Engine.OfflineBuffer.{
  OfflineEntry, OfflineBuffer, Directory, Faults, completed, drain, push_batch, new_offline_buffer,
  max_seq, scan_max_seq,
}
use core_c.Engine.OfflineBuffer.Order.{IsOrdered}
use core_c.Engine.OfflineBuffer.Eviction.{IsWorking}
use core_c.Engine.OfflineBuffer.Bounded.{push_run, numbered, push_batch-run_newest}
use core_c.Engine.OfflineBuffer.Drain.{IsKept, drain-IsKept, remaining}
use core_c.Engine.OfflineBuffer.Replay.{own_files}
use core_c.Engine.OfflineBuffer.Finish.{drain_finishes}
use core_c.Engine.OfflineBuffer.Runs.{
  Operation, pushes, drains, run_operations, run_operations-IsOrdered,
}

abbrev point : ℕ → DataPoint ℕ
point v = record {
  driver = "plc";
  device = "";
  group = "";
  tag = "t";
  value = v;
  type = type_bool;
  quality = good;
  timestamp = v;
  metadata = [];
  is_stale = false;
}

abbrev entry : ℕ → String → OfflineEntry ℕ
entry n source = record { seq = n; time = n; points = point n ∷ []; source = source }

abbrev works : Faults ℕ
works = record {
  marshal = λ e. some (some e);
  lists = true;
  writes = true;
  reads = λ k. true;
  removes = λ k. true;
}

-- The file of number 4 cannot be removed.
abbrev stuck : Faults ℕ
stuck = record {
  marshal = λ e. some (some e);
  lists = true;
  writes = true;
  reads = λ k. true;
  removes = λ k. k == 5;
}

-- A batch of the broker, one of another transport and a file that is no entry.
abbrev on_disk : Directory ℕ
on_disk = (4, some (entry 4 "mqtt")) ∷ (5, none) ∷ (7, some (entry 7 "http")) ∷ []

abbrev buffer : OfflineBuffer ℕ
buffer = record { max_entries = 3; files = on_disk; next_seq = 8; drain_count = 0; evict_count = 0 }

buffer-IsOrdered : IsOrdered buffer
buffer-IsOrdered = omega arith

works-IsWorking : IsWorking works
works-IsWorking = (refl, refl, λ k. refl, λ k. refl)

abbrev batches : List (ℕ × (List (DataPoint ℕ) × String))
batches = (30, (point 8 ∷ [], "mqtt")) ∷ (31, ([], "mqtt")) ∷ (32, (point 9 ∷ [], "http")) ∷ []

push_batch-run_newest_example :
    ((push_run works batches buffer).files ≡ last_n 3 (on_disk ++ numbered works 8 batches))
    × ((push_run works batches buffer).evict_count + length (push_run works batches buffer).files
        ≡ 0 + 3 + 2)
push_batch-run_newest_example =
    push_batch-run_newest works batches buffer works-IsWorking ((_, refl), ((_, refl), tt))
      (omega arith) buffer-IsOrdered (omega arith)

drain-IsKept_example :
    IsKept "mqtt" on_disk (drain stuck (λ k. true) "mqtt" buffer).0 4
    × ((drain stuck (λ k. true) "mqtt" buffer).1.files
        ≡ (drain stuck (λ k. true) "mqtt" buffer).0.files)
    × ((drain stuck (λ k. true) "mqtt" buffer).1.drain_count
        ≡ 0 + length (drain stuck (λ k. true) "mqtt" buffer).0.published)
drain-IsKept_example = drain-IsKept stuck (λ k. true) "mqtt" buffer 4

drain_finishes_example :
    ((drain works (λ k. true) "mqtt" buffer).0.end ≡ completed)
    × ((drain works (λ k. true) "mqtt" buffer).0.published ≡ own_files "mqtt" on_disk)
    × ((k : ℕ)
        → lookup k (drain works (λ k. true) "mqtt" buffer).1.files
          ≡ remaining "mqtt" (lookup k on_disk))
drain_finishes_example =
    drain_finishes works (λ k. true) "mqtt" buffer works-IsWorking (λ k. refl) buffer-IsOrdered

abbrev calls : List (Operation ℕ)
calls =
    pushes works 30 (point 8 ∷ []) "mqtt"
    ∷ drains stuck (λ k. true) "mqtt"
    ∷ pushes stuck 31 (point 9 ∷ []) "http"
    ∷ []

new_buffer : new_offline_buffer works "/data" 3 on_disk ≡ some buffer
unfolding new_offline_buffer scan_max_seq max_seq
new_buffer = refl

run_operations-IsOrdered_example : IsOrdered (run_operations calls buffer) × (1 ≤ 3)
run_operations-IsOrdered_example =
    run_operations-IsOrdered works "/data" 3 8 on_disk calls refl (omega arith) new_buffer

-- Nothing can be encoded.
abbrev picky : Faults ℕ
picky = record works { marshal = λ e. none }

-- A batch that `Marshal` refuses costs a full buffer its oldest one.
refused_batch : push_batch picky 30 (point 8 ∷ []) "mqtt" buffer ≡ (
  false,
  record buffer {
    files = (5, none) ∷ (7, some (entry 7 "http")) ∷ [];
    next_seq = 9;
    evict_count = 1;
  },
)
unfolding push_batch
refused_batch = refl
