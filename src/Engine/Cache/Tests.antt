-- ===== src/Engine/Cache/Tests.antt =====
-- engine/cache.go, on concrete inputs.
use core_c.Common.{ℕ, ◌≡◌, String, some, none, List, [], ◌∷◌, false}
use core_c.Core.{DataPoint, type_bool, good}
use core_c.Engine.Cache.{get, get_by_driver}
use core_c.Engine.Cache.Refinement.{
  Event, updated, tag_deleted, driver_deleted, read, run, get-run-latest,
}
use core_c.Engine.Cache.Snapshot.{tag_in, get_by_driver-latest}

abbrev point : String → String → ℕ → DataPoint ℕ
point driver tag v = record {
  driver = driver;
  device = "";
  group = "";
  tag = tag;
  value = v;
  type = type_bool;
  quality = good;
  timestamp = v;
  metadata = [];
  is_stale = false;
}

-- Every driver in one shard; the newest call first.
abbrev hash : String → ℕ
hash driver = 3

abbrev history : List (Event ℕ)
history =
    updated (point "plc" "t" 4)
    ∷ read "plc"
    ∷ driver_deleted "rtu"
    ∷ tag_deleted "plc" "u"
    ∷ read "plc"
    ∷ updated (point "plc" "u" 3)
    ∷ updated (point "rtu" "t" 2)
    ∷ updated (point "plc" "t" 1)
    ∷ []

get-run-latest_example : get (run hash history) "plc" "t" ≡ some (point "plc" "t" 4)
get-run-latest_example = get-run-latest hash history "plc" "t"

get_by_driver-latest_example : tag_in (get_by_driver (run hash history) "plc").0 "u" ≡ none
get_by_driver-latest_example = get_by_driver-latest hash history "plc" "u"
