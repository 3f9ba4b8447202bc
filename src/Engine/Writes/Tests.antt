-- ===== src/Engine/Writes/Tests.antt =====
-- engine/write_manager.go, on concrete inputs.
use core_c.Common.{ℕ, ◌≡◌, refl, true, false, none, List, [], ◌∷◌, ◌++◌, String, arith}
use core_c.Common.Windows.{last_n}
use core_c.Common.Texts.{◌<>◌}
use core_c.Core.{WriteCommand, type_bool}
use core_c.Engine.Writes.{WriteManager, Southbound, Reply, results, write_tag, write_audit_capacity}
use core_c.Engine.Writes.Audit.{Attempt, write_run, attempt_entries, audits-write_run}
use core_c.Engine.Writes.Pacing.{IsSpaced, accepted_run, write_run-IsSpaced}

abbrev command : String → ℕ → WriteCommand ℕ
command tag v = record {
  driver = "plc";
  device = "";
  tag = tag;
  value = v;
  type = type_bool;
  source = "api";
  remote = "";
  raw = false;
}

abbrev accepting : ℕ → WriteCommand ℕ → ℕ × Reply
accepting d cmd = (cmd.value, results (record { success = true; error = "" } ∷ []))

-- One driver with a read-only tag "limit"; the device is the last value written.
abbrev plant : Southbound ℕ ℕ
plant = record {
  drivers = ("plc", record { name = "limit"; protect = "read-only" } ∷ []) ∷ [];
  format = record { quote = λ s. "'" <> (s <> "'"); duration = λ n. "10ns"; millis = λ n. "0s" };
  write = accepting;
}

-- Pacing by 10, two retries, room for two dead letters.
abbrev manager : WriteManager ℕ
manager = record {
  write_retry_count = 2;
  pacer = record { last = []; interval = 10 };
  audits = [];
  audit_store = none;
  queue = [];
  max_len = 2;
  pushed = 0;
  store = none;
}

abbrev attempts : List (Attempt ℕ)
attempts =
    record { now = 1; done = 2; cmd = command "speed" 5 }
    ∷ record { now = 3; done = 4; cmd = command "speed" 6 }
    ∷ record { now = 12; done = 13; cmd = command "speed" 7 }
    ∷ []

audits-write_run_example :
    (write_run plant attempts (0, manager)).1.audits
    ≡ last_n write_audit_capacity ([] ++ attempt_entries plant attempts (0, manager))
audits-write_run_example = audits-write_run plant attempts 0 manager (omega arith)

write_run-IsSpaced_example : IsSpaced 10 (accepted_run plant attempts (0, manager) [])
write_run-IsSpaced_example =
    write_run-IsSpaced plant attempts 0 manager (omega arith) refl
      (omega arith, omega arith, (omega arith, omega arith, (omega arith, omega arith, tt)))

-- The second of the three writes is paced.
written_values : (write_run plant attempts (0, manager)).0 ≡ 7
unfolding write_tag
written_values = refl
