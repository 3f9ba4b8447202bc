-- ===== src/Engine/DataBus/Tests.antt =====
-- engine/databus.go, on concrete inputs.
use core_c.Common.{ℕ, ◌+◌, ◌≡◌, refl, false, List, [], ◌∷◌, String, arith, length}
use core_c.Core.{DataPoint, type_bool, good}
use core_c.Engine.DataBus.{DataBus, subscribe_with_buffer, high_pri_size, accepts}
use core_c.Engine.DataBus.Queue.{push_all_bus, push-run_newest}
use core_c.Engine.DataBus.Fanout.{broadcast_all, broadcast-run_fills}
use core_c.Engine.DataBus.Shutdown.{IsConsistent, pushes, step, step-IsConsistent}

abbrev point : ℕ → String → DataPoint ℕ
point v driver = record {
  driver = driver;
  device = "";
  group = "";
  tag = "t";
  value = v;
  type = type_bool;
  quality = good;
  timestamp = v;
  metadata = [];
  is_stale = false;
}

-- Two places on the main channel, one subscriber for `plc` with one place.
abbrev small : DataBus ℕ
small = record {
  ch = record { items = point 1 "plc" ∷ []; size = 2 };
  high_pri_ch = record { items = []; size = 1 };
  subscribers = record { id = 0; filter = "plc"; ch = record { items = []; size = 1 } } ∷ [];
  next_id = 1;
  closed = false;
  sub_count = 1;
  dropped = 0;
  push_dropped = 0;
  high_pri_push_dropped = 0;
}

abbrev points : List (DataPoint ℕ)
points = point 2 "plc" ∷ point 3 "rtu" ∷ point 4 "plc" ∷ []

small-IsConsistent : IsConsistent small
small-IsConsistent = omega arith

push-run_newest_example :
    ((push_all_bus small points).ch.items ≡ point 3 "rtu" ∷ point 4 "plc" ∷ [])
    × ((push_all_bus small points).push_dropped + length (push_all_bus small points).ch.items ≡ 4)
push-run_newest_example = push-run_newest small points refl (omega arith) (omega arith)

broadcast-run_fills_example :
    ((broadcast_all small points).subscribers
      ≡ record { id = 0; filter = "plc"; ch = record { items = point 2 "plc" ∷ []; size = 1 } }
        ∷ [])
    × ((broadcast_all small points).dropped ≡ 1)
unfolding accepts
broadcast-run_fills_example = broadcast-run_fills small points refl

step-IsConsistent_example : IsConsistent (step small (pushes (point 2 "plc")))
step-IsConsistent_example = step-IsConsistent small (pushes (point 2 "plc")) small-IsConsistent

abbrev subscribed : DataBus ℕ × ℕ
subscribed = subscribe_with_buffer small "rtu" 8

-- The tiers' sizes for a bus of 1000 places, and for the default.
sizes : (high_pri_size 1000 ≡ 250) × (high_pri_size 0 ≡ 1024) × (high_pri_size 8 ≡ 64)
unfolding high_pri_size
sizes = (refl, refl, refl)
