-- ===== src/Engine/Commands/Attempts.antt =====
-- engine/write_manager.go: the attempts at a command, one on what the other left.
use core_c.Common.{
  ℕ, zero, suc, ◌+◌, ◌≤◌, ◌<◌, ◌⊎◌, none, ◌≡◌, refl, ap, ◌∙◌, inl, inr, true, false, some, List,
  String, arith, Bool-cases, ◌==◌, nat_key, string_key, not, ◌&&◌,
}
use core_c.Common.Maps.{lookup}
use core_c.Common.Texts.{◌<>◌}
use core_c.Core.{WriteCommand}
use core_c.Engine.Writes.{
  WriteManager, Southbound, write_tag, is_success, error_of, TagConfig, Outcome,
}
use core_c.Engine.Commands.{
  Forwarder, Fate, Round, written, forwarded, abandoned, dead_lettered, retry_loop, forward_command,
  is_permanent_write_error,
}

module _ {V D : Type 0} (s : Southbound V D) where
  -- The devices and the manager before the attempt of this number, and its outcome.
  abbrev pub before : (ℕ → Round) → WriteCommand V → D × WriteManager V → ℕ → D × WriteManager V
  before world cmd st zero = st
  before world cmd st (suc k) =
      (write_tag s (world k).now (world k).done cmd (before world cmd st k)).1

  abbrev pub outcome_at : (ℕ → Round) → WriteCommand V → D × WriteManager V → ℕ → Outcome
  outcome_at world cmd st k =
      (write_tag s (world k).now (world k).done cmd (before world cmd st k)).0

  -- The first attempts failed, none of them for good.
  abbrev pub HasFailed : (ℕ → Round) → WriteCommand V → D × WriteManager V → ℕ → Type 0
  HasFailed world cmd st n =
      (j : ℕ)
      → j < n
      → (is_success (outcome_at world cmd st j) ≡ false)
        × (is_permanent_write_error (error_of (outcome_at world cmd st j)) ≡ false)

  -- The attempts that led to the way the execution of a command ended, and to the devices then.
  abbrev pub IsAttempted : (ℕ → Round) → WriteCommand V → D × WriteManager V → ℕ → Fate → D → Type 0
  IsAttempted world cmd st most written d' =
      (n : ℕ) × (n < most)
      × HasFailed world cmd st n
      × (is_success (outcome_at world cmd st n) ≡ true)
      × (d' ≡ (before world cmd st (suc n)).0)
  IsAttempted world cmd st most forwarded d' = ⊥
  IsAttempted world cmd st most abandoned d' =
      (n : ℕ) × (suc n < most)
      × HasFailed world cmd st (suc n)
      × ((world n).cancelled ≡ true)
      × (d' ≡ (before world cmd st (suc n)).0)
  IsAttempted world cmd st most (dead_lettered n err) d' =
      (k : ℕ) × (n ≡ suc k)
      × HasFailed world cmd st k
      × (is_success (outcome_at world cmd st k) ≡ false)
      × (err ≡ error_of (outcome_at world cmd st k))
      × (d' ≡ (before world cmd st n).0)
      × ((n ≡ most) ⊎ (is_permanent_write_error err ≡ true))

  -- What the command meets without a driver: no attempt is made.
  abbrev pub IsForwarded : List (Forwarder V) → WriteCommand V → D → Fate → D → Type 0
  IsForwarded transports cmd d written d' = ⊥
  IsForwarded transports cmd d forwarded d' = (forward_command transports cmd ≡ true) × (d' ≡ d)
  IsForwarded transports cmd d abandoned d' = ⊥
  IsForwarded transports cmd d (dead_lettered n err) d' =
      (forward_command transports cmd ≡ false)
      × (n ≡ 1)
      × (err ≡ "driver not found: " <> (cmd.driver <> " (no forwarder configured)"))
      × (d' ≡ d)

  abbrev pub IsCaused :
      List (Forwarder V) → (ℕ → Round) → WriteCommand V → D × WriteManager V → ℕ → Fate → D → Type 0
  IsCaused transports world cmd st most fate d' =
      ((ts : List TagConfig) × (lookup cmd.driver s.drivers ≡ some ts)
        × IsAttempted world cmd st most fate d')
      ⊎ ((lookup cmd.driver s.drivers ≡ none) × IsForwarded transports cmd st.0 fate d')

  HasFailed-one :
      (world : ℕ → Round) (cmd : WriteCommand V) (st : D × WriteManager V) (n : ℕ)
      → HasFailed world cmd st n
      → is_success (outcome_at world cmd st n) ≡ false
      → is_permanent_write_error (error_of (outcome_at world cmd st n)) ≡ false
      → HasFailed world cmd st (suc n)
  HasFailed-one world cmd st n all bad transient j h = elim (Bool-cases (j == n)) [
    | inl here ↦
        let same = (nat_key.same_iff j n).0 here in
        (
          ap (λ k. is_success (outcome_at world cmd st k)) same ∙ bad,
          ap (λ k. is_permanent_write_error (error_of (outcome_at world cmd st k))) same
              ∙ transient,
        )
    | inr there ↦ all j (ground arith)
  ]

  pub retry_loop-IsAttempted :
      (world : ℕ → Round) (cmd : WriteCommand V) (st : D × WriteManager V) (most left attempt : ℕ)
      (last : String)
      → left + attempt ≡ most
      → 1 ≤ left + attempt
      → HasFailed world cmd st attempt
      → ((k : ℕ) → suc k ≡ attempt → last ≡ error_of (outcome_at world cmd st k))
      → IsAttempted world cmd st most
          (retry_loop s world cmd left attempt last (before world cmd st attempt)).0
          (retry_loop s world cmd left attempt last (before world cmd st attempt)).1.0
  unfolding retry_loop
  retry_loop-IsAttempted world cmd st most zero zero last h l failed is_last = absurd (omega arith)
  retry_loop-IsAttempted world cmd st most zero (suc k) last h l failed is_last = (
    k,
    refl,
    λ j below. failed j (omega arith),
    (failed k (omega arith)).0,
    is_last k refl,
    refl,
    inl (omega arith),
  )
  retry_loop-IsAttempted world cmd st most (suc left) attempt last h l failed is_last =
      elim (Bool-cases (is_success out)) [
        | inl fine ↦ rw fine (attempt, omega arith, failed, fine, refl)
        | inr bad ↦ elim (Bool-cases (is_permanent_write_error (error_of out))) [
          | inl final ↦ rw (bad, final) (attempt, refl, failed, bad, refl, refl, inr final)
          | inr transient ↦ elim (Bool-cases (not (left == 0) && (world attempt).cancelled)) [
            | inl stop ↦
                rw (bad, transient, stop)
                  (
                    attempt,
                    ground arith,
                    HasFailed-one world cmd st attempt failed bad transient,
                    ground arith,
                    refl,
                  )
            | inr go ↦
                rw (bad, transient, go)
                  (retry_loop-IsAttempted world cmd st most left (suc attempt) (error_of out)
                    (omega arith) (omega arith)
                    (HasFailed-one world cmd st attempt failed bad transient)
                    (λ k e. ap (λ n. error_of (outcome_at world cmd st n)) (omega arith)))
          ]
        ]
      ]
    where
      out : Outcome
      out = outcome_at world cmd st attempt
