-- ===== src/Engine/Commands.antt =====
-- The command listener's work in engine/write_manager.go: writes with retries, forwarding to
-- downstream nodes, and the dead-letter queue.
pub mod Attempts
pub mod Retry
pub mod Backoff
pub mod Queue
mod Tests
use core_c.Common.{
  ℕ, zero, suc, ◌+◌, ◌*◌, ◌^◌, ◌%◌, String, Bool, true, false, not, ◌&&◌, ◌||◌, Option, none, some,
  List, [], ◌∷◌, ltb, if◌then◌else◌, ◌==◌, string_key, nat_key,
}
use core_c.Common.Maps.{lookup}
use core_c.Common.Windows.{push_bounded}
use core_c.Common.Texts.{◌<>◌, contains}
use core_c.Core.{WriteCommand, DeadLetterEntry}
use core_c.Engine.Writes.{WriteManager, Southbound, write_tag, is_success, error_of, append_store}

-- The patterns of `permanentWriteErrPatterns`, and the loop of `isPermanentWriteError`.
abbrev permanent_write_err_patterns : List String
permanent_write_err_patterns =
    "tag not found" ∷ "read-only area" ∷ "protect: read-only" ∷ "is not supported on"
    ∷ "expected bool value" ∷ "unsupported write type" ∷ "failed to create variant" ∷ "s7 encode"
    ∷ []

matches_some : List String → String → Bool
matches_some [] err = false
matches_some (p ∷ ps) err = contains err p || matches_some ps err

pub is_permanent_write_error : String → Bool
unfolding matches_some
is_permanent_write_error err = matches_some permanent_write_err_patterns err

-- `base * time.Duration(1<<attempt)` on int64: the bit pattern, below 2 ^ 64.
delay_bits : ℕ → ℕ → ℕ
delay_bits base attempt = base * 2 ^ attempt % 2 ^ 64

-- The capped delay, as `time.After` takes it: a negative one fires at once.
pub backoff_wait : ℕ → ℕ → ℕ → ℕ
unfolding delay_bits
backoff_wait base cap attempt =
    let bits = delay_bits base attempt in
    if ltb bits (2 ^ 63) then (if ltb cap bits then cap else bits) else 0

abbrev default_retry_base_delay : ℕ
default_retry_base_delay = 100_000_000

abbrev default_command_retry_max_delay : ℕ
default_command_retry_max_delay = 2_000_000_000

module _ {V : Type 0} where
  pub add_dead_letter : DeadLetterEntry V → WriteManager V → WriteManager V
  unfolding push_bounded append_store
  add_dead_letter entry w = record w {
    queue = push_bounded w.max_len w.queue entry;
    pushed = w.pushed + 1;
    store = append_store w.store entry;
  }

  pub dead_letter : WriteCommand V → String → ℕ → ℕ → DeadLetterEntry V
  dead_letter cmd err now attempts = record {
    command = cmd;
    error = err;
    failed_at = now;
    attempts = attempts;
    transport = "";
  }

  -- `deadLetterStrandedCommands`: the held command, if there is one, and what the channel holds.
  stamp : WriteCommand V → WriteCommand V
  stamp cmd = record cmd { source = "command" }

  strand : ℕ → WriteCommand V → WriteManager V → WriteManager V
  unfolding add_dead_letter dead_letter stamp
  strand now cmd w =
      add_dead_letter (dead_letter (stamp cmd) "transport removed before dispatch" now 0) w

  strand_all : ℕ → List (WriteCommand V) → WriteManager V → WriteManager V
  unfolding strand
  strand_all now [] w = w
  strand_all now (c ∷ cs) w = strand_all now cs (strand now c w)

  pub dead_letter_stranded_commands :
      ℕ → Option (WriteCommand V) → List (WriteCommand V) → WriteManager V → WriteManager V
  unfolding strand_all
  dead_letter_stranded_commands now none buffered w = strand_all now buffered w
  dead_letter_stranded_commands now (some held) buffered w =
      strand_all now buffered (strand now held w)

-- A transport as the forwarding loop sees it: its name, and what `ForwardCommand` answers (`true`
-- for no error), if it can forward.
pub record Forwarder (V : Type 0) : Type 0 where
  pub name : String
  pub forward : Option (WriteCommand V → Bool)

-- How the execution of a command ended.
pub data Fate : Type 0 where
  written : Fate
  forwarded : Fate
  abandoned : Fate
  dead_lettered : ℕ → String → Fate

-- One round of the retry loop, as the environment decides it: the two clock readings and whether
-- the engine's context is done while the round waits for the next one.
pub record Round : Type 0 where
  pub now : ℕ
  pub done : ℕ
  pub cancelled : Bool

module _ {V : Type 0} where
  -- The transports come sorted by name.
  pub forward_command : List (Forwarder V) → WriteCommand V → Bool
  forward_command [] cmd = false
  forward_command (t ∷ ts) cmd = elim t.forward [
    | none ↦ forward_command ts cmd
    | some send ↦ send cmd || forward_command ts cmd
  ]

module _ {V D : Type 0} where
  abbrev pub bury :
      WriteCommand V → String → ℕ → ℕ → D × WriteManager V → Fate × (D × WriteManager V)
  bury cmd err now attempts (d, w) =
      (dead_lettered attempts err, (d, add_dead_letter (dead_letter cmd err now attempts) w))

  -- The loop of `executeWriteWithRetry` with the attempts left and the number of the next one.
  pub retry_loop :
      Southbound V D
      → (ℕ → Round)
      → WriteCommand V
      → ℕ
      → ℕ
      → String
      → D × WriteManager V
      → Fate × (D × WriteManager V)
  unfolding is_permanent_write_error add_dead_letter dead_letter
  retry_loop s world cmd zero attempt last st = bury cmd last (world attempt).now attempt st
  retry_loop s world cmd (suc left) attempt last st =
      let (out, st') = write_tag s (world attempt).now (world attempt).done cmd st in
      let rest = retry_loop s world cmd left (suc attempt) (error_of out) st' in
      if is_success out
      then (written, st')
      else (if is_permanent_write_error (error_of out)
          then bury cmd (error_of out) (world attempt).done (suc attempt) st'
          else (if not (left == 0) && (world attempt).cancelled then (abandoned, st') else rest))

  pub execute_write_with_retry :
      Southbound V D
      → List (Forwarder V)
      → (ℕ → Round)
      → WriteCommand V
      → D × WriteManager V
      → Fate × (D × WriteManager V)
  unfolding retry_loop forward_command lookup
  execute_write_with_retry s transports world cmd (d, w) = elim (lookup cmd.driver s.drivers) [
    | some ts ↦ retry_loop s world cmd (suc w.write_retry_count) 0 "" (d, w)
    | none ↦
        if forward_command transports cmd
        then (forwarded, (d, w))
        else bury cmd ("driver not found: " <> (cmd.driver <> " (no forwarder configured)"))
            (world 0).now 1 (d, w)
  ]
