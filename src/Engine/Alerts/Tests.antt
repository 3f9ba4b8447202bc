-- ===== src/Engine/Alerts/Tests.antt =====
-- engine/alerts.go, on concrete inputs.
use core_c.Common.{string_key, ℕ, ◌≡◌, arith, false, none, List, [], ◌∷◌, map, if◌then◌else◌}
use core_c.Common.Maps.{lookup}
use core_c.Common.Windows.{push_all}
use core_c.Core.{DataPoint, type_bool, good}
use core_c.Engine.Alerts.{
  Alert, AlertManager, sweep, alert_history_cap, alert_cleared, event, expired, alerts_of,
}
use core_c.Engine.Alerts.Registry.{IsRegistry}
use core_c.Engine.Alerts.Calls.{Call, fires, acks, sweeps, run_calls, run_calls-IsRegistry}
use core_c.Engine.Alerts.Sweep.{is_silent, sweep-silent}

abbrev point : ℕ → DataPoint ℕ
point v = record {
  driver = "plc";
  device = "";
  group = "";
  tag = "t";
  value = v;
  type = type_bool;
  quality = good;
  timestamp = v;
  metadata = [];
  is_stale = false;
}

-- A window of 10, room for two events on the channel.
abbrev quiet : AlertManager ℕ
quiet = record {
  active = [];
  fired_by_rule = [];
  history = [];
  active_window = 10;
  event_ch = record { items = []; size = 2 };
  is_closed = false;
}

abbrev calls : List (Call ℕ)
calls = fires "high" (point 1) 5 ∷ acks "high|plc|t" 6 ∷ fires "high" (point 2) 9 ∷ sweeps 15 ∷ []

quiet-IsRegistry : IsRegistry quiet
quiet-IsRegistry = (tt, tt, omega arith, omega arith)

run_calls-IsRegistry_example : IsRegistry (run_calls quiet calls)
run_calls-IsRegistry_example = run_calls-IsRegistry calls quiet quiet-IsRegistry

sweep-silent_example :
    (lookup "high|plc|t" (sweep 25 (run_calls quiet calls)).active ≡ (
      if is_silent 25
        (run_calls quiet calls).active_window
        (lookup "high|plc|t" (run_calls quiet calls).active)
      then none
      else lookup "high|plc|t" (run_calls quiet calls).active))
    × ((sweep 25 (run_calls quiet calls)).history
        ≡ push_all alert_history_cap (run_calls quiet calls).history (
            map
              (λ (a : Alert ℕ). event alert_cleared a 25)
              (expired 25
                (run_calls quiet calls).active_window
                (alerts_of (run_calls quiet calls).active))))
sweep-silent_example =
    sweep-silent 25 (run_calls quiet calls) "high|plc|t"
      (run_calls-IsRegistry calls quiet quiet-IsRegistry)
