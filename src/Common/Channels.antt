-- ===== src/Common/Channels.antt =====
-- Buffered Go channels under non-blocking operations: a `select` with a `default` case.
use core_c.Common.Lists.{length}
use core_c.Common.Tests.{ltb, if◌then◌else◌}
use Prim.Native.Nat.{ℕ, ◌≤◌}
use mathlib.Core.List.{List, [], ◌∷◌, ◌++◌}
use mathlib.Core.Option.{Option, none, some}

-- The oldest item stands first.
pub record Channel {ℓ} (A : Type ℓ) : Type ℓ where
  pub items : List A
  pub size : ℕ

module _ {ℓ} {A : Type ℓ} where
  unfoldable pub make_channel : ℕ → Channel A
  make_channel n = record { items = []; size = n }

  -- `select { case ch <- a: … default: … }`; `none` is the default case.
  unfoldable pub try_send : Channel A → A → Option (Channel A)
  try_send c a =
      if ltb (length c.items) c.size then some (record c { items = c.items ++ a ∷ [] }) else none

  -- `select { case a := <-ch: … default: … }`
  unfoldable pub receive_from : List A → ℕ → Option (A × Channel A)
  receive_from [] n = none
  receive_from (a ∷ rest) n = some (a, record { items = rest; size = n })

  unfoldable pub try_receive : Channel A → Option (A × Channel A)
  unfolding receive_from
  try_receive c = receive_from c.items c.size

  abbrev pub IsWithin : Channel A → Type 0
  IsWithin c = length c.items ≤ c.size
