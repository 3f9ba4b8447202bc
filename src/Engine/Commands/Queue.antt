-- ===== src/Engine/Commands/Queue.antt =====
-- engine/write_manager.go: the dead-letter queue when a transport is removed.
use core_c.Common.{
  ℕ, ◌+◌, ◌≤◌, ◌≡◌, refl, ◌∙◌, Option, none, some, List, [], ◌∷◌, ◌++◌, arith, length, map,
}
use core_c.Common.Windows.{push_all, push_all_lem, last_n}
use core_c.Core.{WriteCommand, DeadLetterEntry}
use core_c.Engine.Writes.{WriteManager}
use core_c.Engine.Commands.{
  add_dead_letter, dead_letter, stamp, strand, strand_all, dead_letter_stranded_commands,
}

module _ {V : Type 0} where
  -- The commands that the removed transport leaves: the held one first.
  abbrev pub stranded : Option (WriteCommand V) → List (WriteCommand V) → List (WriteCommand V)
  stranded none buffered = buffered
  stranded (some held) buffered = held ∷ buffered

  -- The dead letter of a stranded command: its source is set to "command".
  abbrev pub stranded_letter : ℕ → WriteCommand V → DeadLetterEntry V
  stranded_letter now cmd = record {
    command = record cmd { source = "command" };
    error = "transport removed before dispatch";
    failed_at = now;
    attempts = 0;
    transport = "";
  }

  queue-strand_all :
      (now : ℕ) (cs : List (WriteCommand V)) (w : WriteManager V)
      → ((strand_all now cs w).queue ≡ push_all w.max_len w.queue (map (stranded_letter now) cs))
        × ((strand_all now cs w).pushed ≡ w.pushed + length cs)
        × ((strand_all now cs w).max_len ≡ w.max_len)
  unfolding strand_all push_all add_dead_letter dead_letter stamp strand
  queue-strand_all now [] w = (refl, omega arith, refl)
  queue-strand_all now (c ∷ cs) w =
      let rest = queue-strand_all now cs (strand now c w) in (rest.0, omega (arith, rest.1), rest.2)

  all_stranded :
      (now : ℕ) (held : Option (WriteCommand V)) (buffered : List (WriteCommand V))
      (w : WriteManager V)
      → dead_letter_stranded_commands now held buffered w
        ≡ strand_all now (stranded held buffered) w
  unfolding dead_letter_stranded_commands
  all_stranded now none buffered w = refl
  all_stranded now (some held) buffered w = refl

  -- From a queue within its bound, the commands that a stopping listener still holds or has
  -- buffered all become dead letters stamped `command`, in order, of which the queue keeps the
  -- newest, and the counter grows by their number.
  dead_letter_stranded_commands_all :
      (now : ℕ) (held : Option (WriteCommand V)) (buffered : List (WriteCommand V))
      (w : WriteManager V)
      → length w.queue ≤ w.max_len
      → ((dead_letter_stranded_commands now held buffered w).queue
          ≡ last_n w.max_len (w.queue ++ map (stranded_letter now) (stranded held buffered)))
        × ((dead_letter_stranded_commands now held buffered w).pushed
            ≡ w.pushed + length (stranded held buffered))
  dead_letter_stranded_commands_all now held buffered w h =
      let l = queue-strand_all now (stranded held buffered) w in
      rw (all_stranded now held buffered w) (
        l.0 ∙ push_all_lem w.max_len w.queue (map (stranded_letter now) (stranded held buffered)) h,
        l.1,
      )
