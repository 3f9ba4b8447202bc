-- ===== src/Cooldown/History.antt =====
-- transport/notify/cooldown.go: the tracker compared with the whole history.
use core_c.Common.{
  ℕ, ◌+◌, ◌≤◌, ◌<◌, ◌≡◌, refl, sym, ap, ◌∙◌, inl, inr, String, Bool, true, false, not, ◌&&◌, ◌||◌,
  Option, none, some, List, [], ◌∷◌, arith, leb, if◌then◌else◌, ◌==◌, nat_key, string_key,
  Bool-cases, Option-cases,
}
use core_c.Common.Maps.{lookup, lookup-insert}
use core_c.Cooldown.{CooldownTracker, new_cooldown_tracker, mark_sent, allow}

-- The answers to these calls, each of a key at a time.
abbrev pub answers : CooldownTracker → List (String × ℕ) → List Bool
answers c [] = []
answers c ((key, now) ∷ calls) = (allow key now c).0 ∷ answers (allow key now c).1 calls

-- Everything that was sent for this key lies a window back.
abbrev pub all_old : ℕ → String → ℕ → List (String × ℕ) → Bool
all_old window key now [] = true
all_old window key now ((k, t) ∷ sent) =
    (not (k == key) || leb (t + window) now) && all_old window key now sent

-- The answers by the history of what was sent, newest first.
abbrev pub answers_by_history : ℕ → List (String × ℕ) → List (String × ℕ) → List Bool
answers_by_history window sent [] = []
answers_by_history window sent ((key, now) ∷ calls) =
    all_old window key now sent
    ∷ answers_by_history window (if all_old window key now sent then (key, now) ∷ sent else sent)
        calls

-- The clock does not go back.
abbrev pub IsClocked : ℕ → List (String × ℕ) → Type 0
IsClocked t [] = Unit {0}
IsClocked t ((key, now) ∷ calls) = (t ≤ now) × IsClocked now calls

-- The times of the history, newest first, none after `t`.
abbrev IsDescending : ℕ → List (String × ℕ) → Type 0
IsDescending t [] = Unit {0}
IsDescending t ((k, u) ∷ sent) = (u ≤ t) × IsDescending u sent

IsDescending-later :
    (t u : ℕ) (sent : List (String × ℕ)) → t ≤ u → IsDescending t sent → IsDescending u sent
IsDescending-later t u [] h d = tt
IsDescending-later t u ((k, v) ∷ sent) h (l, d) = (omega arith, d)

old_after :
    (window : ℕ) (key : String) (now t : ℕ) (sent : List (String × ℕ))
    → IsDescending t sent
    → t + window ≤ now
    → all_old window key now sent ≡ true
old_after window key now t [] d h = refl
old_after window key now t ((k, u) ∷ sent) (l, d) h =
    ground (arith, old_after window key now u sent d)

-- Of the history, the last time of the key decides.
abbrev old_enough : ℕ → ℕ → Option ℕ → Bool
old_enough window now none = true
old_enough window now (some last) = leb (last + window) now

all_old_lem :
    (window : ℕ) (key : String) (now t : ℕ) (sent : List (String × ℕ))
    → IsDescending t sent
    → all_old window key now sent ≡ old_enough window now (lookup key sent)
unfolding lookup
all_old_lem window key now t [] d = refl
all_old_lem window key now t ((k, u) ∷ sent) (l, d) = elim (Bool-cases (k == key)) [
  | inr there ↦ rw there (all_old_lem window key now u sent d)
  | inl here ↦ elim (Bool-cases (leb (u + window) now)) [
    | inl old ↦ rw (here, old) (old_after window key now u sent d (ground arith))
    | inr young ↦ rw (here, young) refl
  ]
]

-- What a call does, by the last time of its key.
allow_lem :
    (key : String) (now : ℕ) (c : CooldownTracker)
    → 0 < c.window
    → allow key now c ≡ (
        if old_enough c.window now (lookup key c.last_sent)
        then (true, mark_sent key now c)
        else (false, c))
unfolding allow
allow_lem key now c h = elim (Option-cases (lookup key c.last_sent)) [
  | inl fresh ↦ rw fresh (ground arith)
  | inr (last, found) ↦ rw found (ground arith)
]

answers_lem :
    (t : ℕ) (c : CooldownTracker) (sent calls : List (String × ℕ))
    → 0 < c.window
    → IsDescending t sent
    → ((k : String) → lookup k c.last_sent ≡ lookup k sent)
    → IsClocked t calls
    → answers c calls ≡ answers_by_history c.window sent calls
unfolding mark_sent lookup
answers_lem t c sent [] h d same clock = refl
answers_lem t c sent ((key, now) ∷ calls) h d same (l, clock) =
    let by_last = old_enough c.window now (lookup key c.last_sent) in
    let agrees : all_old c.window key now sent ≡ by_last =
      all_old_lem c.window key now t sent d ∙ ap (old_enough c.window now) (sym (same key)) in
    let one = allow_lem key now c h in
    elim (Bool-cases by_last) [
      | inl old ↦
          rw (one, agrees, old)
            (ap (λ (bs : List Bool). true ∷ bs)
              (answers_lem now (mark_sent key now c) ((key, now) ∷ sent) calls h
                (omega arith, IsDescending-later t now sent l d)
                (λ k.
                  lookup-insert key k now c.last_sent
                  ∙ ap (λ o. if key == k then some now else o) (same k))
                clock))
      | inr young ↦
          rw (one, agrees, young)
            (ap (λ (bs : List Bool). false ∷ bs)
              (answers_lem now c sent calls h (IsDescending-later t now sent l d) same clock))
    ]

-- With a positive window and a clock that does not go back, a new tracker answers any run of calls
-- as if it looked at the whole history: a rule may send exactly when everything that was sent for
-- it lies at least the window back.
pub answers-new_cooldown_tracker :
    (window : ℕ) (calls : List (String × ℕ))
    → 0 < window
    → IsClocked 0 calls
    → answers (new_cooldown_tracker window) calls ≡ answers_by_history window [] calls
unfolding new_cooldown_tracker
answers-new_cooldown_tracker window calls h clock =
    answers_lem 0 (new_cooldown_tracker window) [] calls h tt (λ k. refl) clock
