-- ===== src/Engine/Writes/Letters.antt =====
-- engine/write_manager.go: `WriteTag` and the dead letters.
use core_c.Common.{◌≡◌, ℕ, refl, inl, inr, Bool-cases, Option-cases}
use core_c.Core.{WriteCommand}
use core_c.Engine.Writes.{WriteManager, Southbound, write_tag, refusal, outcome_of, is_success}

module _ {V : Type 0} where
  -- The dead-letter side of two managers is the same.
  abbrev pub HasSameLetters : WriteManager V → WriteManager V → Type 0
  HasSameLetters w w' =
      (w'.queue ≡ w.queue)
      × (w'.pushed ≡ w.pushed)
      × (w'.max_len ≡ w.max_len)
      × (w'.store ≡ w.store)

module _ {V D : Type 0} (s : Southbound V D) where
  pub write_tag_letters :
      (now done : ℕ) (cmd : WriteCommand V) (d : D) (w : WriteManager V)
      → HasSameLetters w (write_tag s now done cmd (d, w)).1.1
  unfolding write_tag
  write_tag_letters now done cmd d w = elim (Option-cases (refusal s.format s.drivers now w cmd)) [
    | inr (why, stop) ↦ rw (stop, write_tag) (refl, refl, refl, refl)
    | inl go ↦ elim (Bool-cases (is_success (outcome_of (s.write d cmd).1))) [
      | inl fine ↦ rw (go, write_tag, fine) (refl, refl, refl, refl)
      | inr bad ↦ rw (go, write_tag, bad) (refl, refl, refl, refl)
    ]
  ]
