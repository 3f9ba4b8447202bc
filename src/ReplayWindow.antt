-- ===== src/ReplayWindow.antt =====
-- transport/mqtt/replay_window.go: the message hashes seen, with their times. The map is an
-- association list in the order of `range`; each call reads the clock once.
pub mod Bound
mod Tests
use core_c.Common.{
  ℕ, ◌-◌, String, Bool, true, false, ◌||◌, Option, none, some, List, [], ◌∷◌, ltb, leb,
  if◌then◌else◌, ◌==◌, string_key, length,
}
use core_c.Common.Maps.{lookup, insert, delete}

pub record ReplayWindow : Type 0 where
  pub seen : List (String × ℕ)
  pub ttl : ℕ
  pub max_size : ℕ

pub new_replay_window : ℕ → ℕ → ReplayWindow
new_replay_window ttl max_size = record { seen = []; ttl = ttl; max_size = max_size }

-- What stays in `evictExpired`.
pub fresh : ℕ → ℕ → List (String × ℕ) → List (String × ℕ)
fresh now ttl [] = []
fresh now ttl ((k, t) ∷ m) =
    let rest = fresh now ttl m in if ltb ttl (now - t) then rest else (k, t) ∷ rest

pub evict_expired : ℕ → ReplayWindow → ReplayWindow
unfolding fresh
evict_expired now w = record w { seen = fresh now w.ttl w.seen }

-- The loop for the oldest entry, with the key and the time found so far.
pub oldest_key : String → ℕ → List (String × ℕ) → String
oldest_key key time [] = key
oldest_key key time ((k, t) ∷ m) =
    let (next_key, next_time) = if (key == "") || ltb t time then (k, t) else (key, time) in
    oldest_key next_key next_time m

pub make_room : ReplayWindow → List (String × ℕ)
unfolding oldest_key delete
make_room w =
    if leb w.max_size (length w.seen) then delete (oldest_key "" 0 w.seen) w.seen else w.seen

pub check_and_add : String → ℕ → ReplayWindow → Bool × ReplayWindow
unfolding make_room lookup insert
check_and_add hash now w = elim (lookup hash w.seen) [
  | some t ↦ (false, w)
  | none ↦ (true, record w { seen = insert hash now (make_room w) })
]
