-- ===== src/Engine/Commands/Tests.antt =====
-- engine/write_manager.go and engine/batcher_retry.go, on concrete inputs.
use core_c.Common.{ℕ, ◌+◌, ◌*◌, ◌^◌, ◌≡◌, refl, false, none, List, [], ◌∷◌, String, arith, min}
use core_c.Common.Maps.{lookup}
use core_c.Common.Texts.{contains}
use core_c.Core.{WriteCommand, type_bool}
use core_c.Engine.Writes.{WriteManager, Southbound, failed, TagConfig, write_tag}
use core_c.Engine.Commands.{
  Round, dead_lettered, execute_write_with_retry, backoff_wait, default_retry_base_delay,
  default_command_retry_max_delay,
}
use core_c.Engine.Commands.Attempts.{IsCaused}
use core_c.Engine.Commands.Retry.{
  IsAccounted, HasLetter, execute_write-IsAccounted, execute_write_read_only,
}
use core_c.Engine.Commands.Backoff.{backoff_wait_by_attempt}

abbrev command : String → ℕ → WriteCommand ℕ
command tag v = record {
  driver = "plc";
  device = "";
  tag = tag;
  value = v;
  type = type_bool;
  source = "command";
  remote = "";
  raw = false;
}

abbrev limit : List TagConfig
limit = record { name = "limit"; protect = "read-only" } ∷ []

-- A device that never answers: it counts the writes.
abbrev silent : Southbound ℕ ℕ
silent = record {
  drivers = ("plc", limit) ∷ [];
  format = record { quote = λ s. s; duration = λ n. "0s"; millis = λ n. "0s" };
  write = λ d cmd. (d + 1, failed "timeout");
}

abbrev manager : WriteManager ℕ
manager = record {
  write_retry_count = 2;
  pacer = record { last = []; interval = 0 };
  audits = [];
  audit_store = none;
  queue = [];
  max_len = 2;
  pushed = 0;
  store = none;
}

abbrev world : ℕ → Round
world n = record { now = n; done = n; cancelled = false }

execute_write-IsAccounted_example :
    IsAccounted 3
      (command "speed" 5)
      manager
      (execute_write_with_retry silent [] world (command "speed" 5) (0, manager)).0
      (execute_write_with_retry silent [] world (command "speed" 5) (0, manager)).1.1
    × IsCaused silent [] world
        (command "speed" 5)
        (0, manager)
        3
        (execute_write_with_retry silent [] world (command "speed" 5) (0, manager)).0
        (execute_write_with_retry silent [] world (command "speed" 5) (0, manager)).1.0
execute_write-IsAccounted_example =
    execute_write-IsAccounted silent [] world (command "speed" 5) 0 manager

execute_write_read_only_example :
    (why : String) × ((execute_write_with_retry silent [] world (command "limit" 5) (0, manager)).0
      ≡ dead_lettered 1 why)
    × ((execute_write_with_retry silent [] world (command "limit" 5) (0, manager)).1.0 ≡ 0)
    × HasLetter
        (command "limit" 5)
        1
        why
        manager
        (execute_write_with_retry silent [] world (command "limit" 5) (0, manager)).1.1
unfolding lookup
execute_write_read_only_example =
    execute_write_read_only silent [] world (command "limit" 5) 0 manager limit refl refl

backoff_wait_by_attempt_example :
    (backoff_wait default_retry_base_delay default_command_retry_max_delay 3
      ≡ min (default_retry_base_delay * 2 ^ 3) default_command_retry_max_delay)
    × (backoff_wait default_retry_base_delay default_command_retry_max_delay (4 + 56) ≡ 0)
backoff_wait_by_attempt_example =
    backoff_wait_by_attempt default_command_retry_max_delay 3 4 (omega arith)

-- The silent device is asked three times.
attempts_made : (execute_write_with_retry silent [] world (command "speed" 5) (0, manager)).1.0 ≡ 3
unfolding execute_write_with_retry write_tag contains
attempts_made = refl
