-- ===== src/Engine/Commands/Backoff.antt =====
-- engine/write_manager.go and engine/batcher_retry.go: the exponential delay between attempts, in
-- int64 nanoseconds.
use core_c.Common.{
  ℕ, zero, suc, ◌+◌, ◌*◌, ◌^◌, ◌%◌, ◌<◌, ◌≡◌, refl, ap, ◌∙◌, Bool, true, arith, ltb, nat_beq, min,
  false, if◌then◌else◌,
}
use native.Mathlib.Nat.{pow-suc}
use core_c.Engine.Commands.{backoff_wait, delay_bits, default_retry_base_delay}

-- The product of this attempt did not wrap around and is not negative.
is_exact : ℕ → Bool
unfolding delay_bits
is_exact attempt =
    if nat_beq (delay_bits 100_000_000 attempt) (100_000_000 * 2 ^ attempt)
    then ltb (100_000_000 * 2 ^ attempt) (2 ^ 63)
    else false

is_exact_before : ℕ → Bool
unfolding is_exact
is_exact_before zero = true
is_exact_before (suc attempt) = if is_exact_before attempt then is_exact attempt else false

is_exact_from_before :
    (bound attempt : ℕ) → attempt < bound → is_exact_before bound ≡ true → is_exact attempt ≡ true
unfolding is_exact_before
is_exact_from_before zero attempt below checked = absurd (omega arith)
is_exact_from_before (suc bound) attempt below checked =
    ground (arith, is_exact_from_before bound attempt)

is_exact_before-37 : is_exact_before 37 ≡ true
unfolding is_exact_before
is_exact_before-37 = refl

-- For attempts before the 37th, the wait before a retry is the base delay times two to the number
-- of the attempt, at most the cap: the int64 product does not overflow.
backoff_wait_exact :
    (cap attempt : ℕ)
    → attempt < 37
    → backoff_wait default_retry_base_delay cap attempt
      ≡ min (default_retry_base_delay * 2 ^ attempt) cap
unfolding backoff_wait is_exact
backoff_wait_exact cap attempt h =
    ground (arith, is_exact_from_before 37 attempt h is_exact_before-37)

bits_doubled : (x : ℕ) → 100_000_000 * x % 2 ^ 64 ≡ 0 → 100_000_000 * (x * 2) % 2 ^ 64 ≡ 0
bits_doubled x h = omega arith

bits_wrapped : (k : ℕ) → 100_000_000 * 2 ^ (k + 56) % 2 ^ 64 ≡ 0
bits_wrapped zero = refl
bits_wrapped (suc k) =
    ap (λ n. 100_000_000 * 2 ^ n % 2 ^ 64) shifted
    ∙ ap (λ n. 100_000_000 * n % 2 ^ 64) (pow-suc 2 (k + 56))
    ∙ bits_doubled (2 ^ (k + 56)) (bits_wrapped k)
  where
    shifted : suc k + 56 ≡ suc (k + 56)
    shifted = omega arith

-- From the attempt of number 56 on, the wait is 0 whatever the cap, because the int64 product of
-- the base delay and the power of two wraps around to 0.
backoff_wait_collapses : (cap k : ℕ) → backoff_wait default_retry_base_delay cap (k + 56) ≡ 0
unfolding backoff_wait delay_bits
backoff_wait_collapses cap k = rw (bits_wrapped k) (ground arith)

-- Whatever the cap, the wait before a retry is, for attempts before the 37th, the base delay times
-- two to the number of the attempt, at most the cap, and from the attempt of number 56 on it is 0,
-- because the int64 product of the base delay and the power of two wraps around to 0.
pub backoff_wait_by_attempt :
    (cap attempt k : ℕ)
    → attempt < 37
    → (backoff_wait default_retry_base_delay cap attempt
        ≡ min (default_retry_base_delay * 2 ^ attempt) cap)
      × (backoff_wait default_retry_base_delay cap (k + 56) ≡ 0)
backoff_wait_by_attempt cap attempt k h =
    (backoff_wait_exact cap attempt h, backoff_wait_collapses cap k)
