-- ===== src/Cooldown/Tests.antt =====
-- transport/notify/cooldown.go, on concrete inputs.
use core_c.Common.{ℕ, ◌≡◌, refl, arith, String, true, false, List, [], ◌∷◌}
use core_c.Cooldown.{new_cooldown_tracker, allow}
use core_c.Cooldown.History.{answers, answers_by_history, answers-new_cooldown_tracker}

-- Two rules; the second call of the first rule comes too early, the third one does not.
abbrev calls : List (String × ℕ)
calls = ("high", 3) ∷ ("low", 5) ∷ ("high", 12) ∷ ("high", 13) ∷ ("low", 14) ∷ []

answers-new_cooldown_tracker_example :
    answers (new_cooldown_tracker 10) calls ≡ answers_by_history 10 [] calls
answers-new_cooldown_tracker_example =
    answers-new_cooldown_tracker 10 calls (omega arith) (omega arith)

calls_answered : answers (new_cooldown_tracker 10) calls ≡ true ∷ true ∷ false ∷ true ∷ false ∷ []
unfolding new_cooldown_tracker allow
calls_answered = refl
