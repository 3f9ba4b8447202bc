-- ===== src/Config/Checks.antt =====
-- config/validate.go: what it means that a chain of checks has no error.
use core_c.Common.{
  ◌≡◌, refl, Bool, true, Option, none, some, List, [], ◌∷◌, All, Bool-cases, arith, inl, inr,
}
use core_c.Config.{ValidationError, first_error, run_checks}

pub first_error-none :
    (a b : Option ValidationError) → first_error a b ≡ none → (a ≡ none) × (b ≡ none)
unfolding first_error
first_error-none none b h = (refl, h)
first_error-none (some e) b h = ground arith

-- Without an error, every condition in the row holds.
pub run_checks-none :
    (cs : List (Bool × ValidationError))
    → run_checks cs ≡ none
    → All (λ (c : Bool × ValidationError). c.0 ≡ true) cs
unfolding run_checks
run_checks-none [] h = tt
run_checks-none ((ok, e) ∷ cs) h = elim (Bool-cases ok) [
  | inl k ↦ (k, run_checks-none cs (ground arith))
  | inr k ↦ absurd (ground arith)
]
