-- ===== src/Config/Tests.antt =====
-- config/validate.go: checks of a concrete configuration.
use mathlib.Core.List.{Memᴰ}
use core_c.Common.{
  ℕ, ◌≡◌, ◌↔◌, refl, String, Bool, true, false, Option, none, some, List, [], ◌∷◌, inr, All,
  is_named, IsDistinct, if◌then◌else◌, ◌==◌, string_key,
}
use core_c.Common.Ints.{pos}
use core_c.Rule.{simple_targets, RuleWrapper, action_alert, result_of}
use core_c.Engine.Batcher.{TransportConfig, TransportBatcher, new_transport_batcher}
use core_c.Engine.Processing.Targets.{TransportRegistry, snapshot_targets}
use core_c.Config.{
  TransportEntry, RuleConfig, batching_warnings, validate_transports, validate_rules,
  dangling_trigger, is_known_type,
}
use core_c.Config.Tags.{TagEntry, DriverEntry, validate_drivers, is_positive_duration}
use core_c.Config.Batching.{batching_warnings-new_transport_batcher}
use core_c.Config.Targets.{validate_rules-snapshot_targets}
use core_c.Config.Drivers.{IsValid, driver_names, validate_drivers-IsValid}

-- Only "5s" parses.
abbrev parse : String → Option ℕ
parse s = if s == "5s" then some 5_000_000_000 else none

abbrev mqtt : TransportConfig
mqtt = record { name = "mqtt"; batch_size = pos 50; flush_interval = ""; retry_count = pos 0 }

abbrev transports : List TransportEntry
transports = record { config = mqtt; type = "mqtt"; setting_keys = "broker" ∷ [] } ∷ []

batching_warnings-new_transport_batcher_example :
    Memᴰ mqtt (batching_warnings parse false (mqtt ∷ [])) ↔ (
      (b : TransportBatcher ℕ) × (new_transport_batcher parse mqtt none 0 ≡ some b)
      × (b.buf.flush_interval ≡ 0))
batching_warnings-new_transport_batcher_example =
    batching_warnings-new_transport_batcher parse 0 none (mqtt ∷ []) mqtt (Memᴰ.head refl)

abbrev rule : RuleConfig
rule = record {
  name = "all";
  expression = "ALL";
  action = "alert";
  continue = false;
  target = "mqtt";
  targets = [];
}

abbrev wrapper : RuleWrapper ℕ
wrapper = record {
  rule = record {
    name = "all";
    priority = 0;
    action = action_alert;
    continue = false;
    target = "mqtt";
    targets = "mqtt" ∷ [];
    transform = none;
    driver_filter = "";
    matches = λ p. true;
  };
  seq = 0;
}

abbrev registry : TransportRegistry
registry = record { transports = "mqtt" ∷ []; transport_cfg = [] }

abbrev keep : String → String
keep s = s

named : validate_transports ("mqtt" ∷ []) [] transports ≡ inr ("mqtt" ∷ [])
unfolding validate_transports
named = refl

checked : validate_rules keep ("mqtt" ∷ []) [] (rule ∷ []) ≡ none
unfolding validate_rules
checked = refl

validate_rules-snapshot_targets_example :
    snapshot_targets registry (result_of wrapper).targets ≡ ((result_of wrapper).targets, 0)
unfolding simple_targets
validate_rules-snapshot_targets_example =
    validate_rules-snapshot_targets keep ("mqtt" ∷ []) transports (rule ∷ []) ("mqtt" ∷ []) rule
      wrapper registry named checked (Memᴰ.head refl) refl refl refl

abbrev tag : String → String → String → TagEntry
tag name trigger_group triggers = record {
  name = name;
  address = "0";
  type = "bool";
  interval = "5s";
  read_timeout = "";
  trigger_group = trigger_group;
  triggers = triggers;
  protect = "";
  enforce_interval = "";
  has_dead_band = false;
}

-- `detail` is read when `door` fires.
abbrev drivers : List DriverEntry
drivers =
    record { name = "plc"; type = "s7"; tags = tag "detail" "" "door" ∷ tag "door" "g1" "" ∷ [] }
    ∷ []

abbrev separated : String → Bool
separated s = false

valid : validate_drivers parse separated [] [] drivers ≡ none
unfolding validate_drivers is_named is_known_type is_positive_duration
valid = refl

validate_drivers-IsValid_example :
    IsDistinct (driver_names drivers) × All (IsValid parse separated) drivers
validate_drivers-IsValid_example = validate_drivers-IsValid parse separated [] [] drivers valid

gate_missing :
    validate_drivers parse separated [] []
      (record { name = "plc"; type = "s7"; tags = tag "detail" "" "door" ∷ [] } ∷ [])
    ≡ some (dangling_trigger "detail" "door")
unfolding validate_drivers is_named is_known_type is_positive_duration
gate_missing = refl
