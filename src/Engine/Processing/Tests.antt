-- ===== src/Engine/Processing/Tests.antt =====
-- engine/processing.go: runs on a concrete registry, point and rules.
use core_c.Common.{
  ℕ, ◌+◌, ◌-◌, ◌*◌, ◌/◌, ◌≡◌, refl, String, Bool, true, false, none, some, List, [], ◌∷◌, ltb, ◌==◌,
  nat_key, string_key,
}
use core_c.Common.Ints.{rounds}
use core_c.Values.{GoValue, float64_value, Floats}
use core_c.Core.{DataPoint, type_float64, bad}
use core_c.Rule.{Rule, action_alert, action_drop, install}
use core_c.Engine.Cache.{new_latest_cache}
use core_c.Engine.DataBus.{new_data_bus}
use core_c.Engine.Processing.Targets.{TransportRegistry, Delivery, publish_to_targets}
use core_c.Engine.Processing.Attempts.{IsAccounted, publish_to_targets-IsAccounted}
use core_c.Engine.Processing.Pipeline.{Arith, ProcessingCore, bad_quality_alert, process_point}
use core_c.Engine.Processing.Points.{Processed, process_point-Processed}

abbrev whole : Floats ℕ ℕ
whole = record {
  of_float32 = λ x. x;
  to_float32 = λ x. x;
  of_int = rounds;
  is_nan = λ x. false;
  is_inf = λ x. ltb 1000 x;
  is_zero = λ x. x == 0;
  add = λ x y. x + y;
  subtract = λ x y. x - y;
  times = λ x y. x * y;
  divide = λ x y. x / y;
}

abbrev doubling : Arith ℕ ℕ ℕ
doubling = record { compile_arith = λ s. some 2; run_arith = λ p x. some (float64_value (p * x)) }

-- `mqtt` falls back on `http`.
abbrev registry : TransportRegistry
registry = record { transports = "mqtt" ∷ "http" ∷ []; transport_cfg = ("mqtt", "http") ∷ [] }

abbrev nothing_sent : Delivery (GoValue ℕ ℕ)
nothing_sent = record { batchers = []; attempts = []; total_errors = 0; total_publish = 0 }

abbrev point : DataPoint (GoValue ℕ ℕ)
point = record {
  driver = "plc";
  device = "";
  group = "";
  tag = "t";
  value = float64_value 4;
  type = type_float64;
  quality = bad;
  timestamp = 7;
  metadata = [];
  is_stale = false;
}

-- Only the second call succeeds.
abbrev second_only : ℕ → Bool
second_only n = n == 1

abbrev targets : List String
targets = "gone" ∷ "mqtt" ∷ []

failed_over_once :
    (publish_to_targets second_only registry point targets nothing_sent).total_errors ≡ 2
unfolding publish_to_targets
failed_over_once = refl

published_once :
    (publish_to_targets second_only registry point targets nothing_sent).total_publish ≡ 1
unfolding publish_to_targets
published_once = refl

publish_to_targets-IsAccounted_example :
    IsAccounted second_only registry point targets nothing_sent
      (publish_to_targets second_only registry point targets nothing_sent)
publish_to_targets-IsAccounted_example =
    publish_to_targets-IsAccounted second_only registry point targets nothing_sent

abbrev rules : List (Rule (GoValue ℕ ℕ))
rules =
    record {
      name = "watch";
      priority = 1;
      action = action_alert;
      continue = true;
      target = "mqtt";
      targets = [];
      transform = none;
      driver_filter = "";
      matches = λ p. true;
    }
    ∷ record {
      name = "end";
      priority = 2;
      action = action_drop;
      continue = false;
      target = "";
      targets = [];
      transform = none;
      driver_filter = "";
      matches = λ p. true;
    }
    ∷ []

abbrev idle : ProcessingCore (GoValue ℕ ℕ)
idle = record {
  cache = new_latest_cache (λ driver. 3);
  data_bus = new_data_bus 8;
  rule_engine = install rules;
  alerts = none;
  notified = [];
  delivery = nothing_sent;
  bad_quality_dropped = 0;
}

process_point-Processed_example :
    Processed whole doubling second_only registry 9 bad_quality_alert point idle
      (process_point whole doubling second_only registry 9 bad_quality_alert point idle)
process_point-Processed_example =
    process_point-Processed whole doubling second_only registry 9 bad_quality_alert point idle
