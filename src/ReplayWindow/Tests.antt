-- ===== src/ReplayWindow/Tests.antt =====
-- transport/mqtt/replay_window.go, on concrete inputs.
use core_c.Common.{ℕ, ◌-◌, ltb, none, ◌≡◌, refl, arith, false, [], ◌∷◌, string_key}
use core_c.Common.Maps.{lookup}
use core_c.ReplayWindow.{ReplayWindow, check_and_add, evict_expired}
use core_c.ReplayWindow.Bound.{IsWindow, check_and_add-IsWindow}

-- A full window: "b" is the older of the two.
abbrev window : ReplayWindow
window = record { seen = ("a", 5) ∷ ("b", 3) ∷ []; ttl = 10; max_size = 2 }

window-IsWindow : IsWindow window
unfolding lookup
window-IsWindow = ((refl, (refl, tt)), refl, omega arith)

check_and_add-IsWindow_example :
    IsWindow (check_and_add "c" 7 window).1
    × ((later : ℕ) → (check_and_add "c" later (check_and_add "c" 7 window).1).0 ≡ false)
    × (lookup "c" window.seen ≡ none
        → (evicted later : ℕ)
        → (check_and_add "c" later (evict_expired evicted (check_and_add "c" 7 window).1)).0
          ≡ ltb 10 (evicted - 7))
check_and_add-IsWindow_example =
    check_and_add-IsWindow "c" 7 window refl (omega arith) window-IsWindow

-- "b" makes room for "c".
seen_after : (check_and_add "c" 7 window).1.seen ≡ ("a", 5) ∷ ("c", 7) ∷ []
unfolding check_and_add
seen_after = refl
