-- ===== src/Cooldown.antt =====
-- transport/notify/cooldown.go: repeated notifications of a rule are suppressed for a while. Times are
-- nanoseconds of the clock, and `now.Sub(last)` stops at 0, which is below every positive window as a
-- negative duration is.
pub mod History
mod Tests
use core_c.Common.{
  ℕ, ◌-◌, String, Bool, true, false, none, some, List, [], ltb, if◌then◌else◌, ◌==◌, nat_key,
  string_key,
}
use core_c.Common.Maps.{lookup, insert}

pub record CooldownTracker : Type 0 where
  pub window : ℕ
  pub last_sent : List (String × ℕ)

pub new_cooldown_tracker : ℕ → CooldownTracker
new_cooldown_tracker window = record { window = window; last_sent = [] }

mark_sent : String → ℕ → CooldownTracker → CooldownTracker
unfolding insert
mark_sent key now c = record c { last_sent = insert key now c.last_sent }

pub allow : String → ℕ → CooldownTracker → Bool × CooldownTracker
unfolding lookup mark_sent
allow key now c = if c.window == 0 then (true, c) else elim (lookup key c.last_sent) [
  | none ↦ (true, mark_sent key now c)
  | some last ↦ if ltb (now - last) c.window then (false, c) else (true, mark_sent key now c)
]
