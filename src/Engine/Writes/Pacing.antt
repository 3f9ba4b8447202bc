-- ===== src/Engine/Writes/Pacing.antt =====
-- engine/write_pacing.go: the spacing of accepted writes.
use mathlib.Core.Path.{subst}
use core_c.Common.{
  ℕ, ◌+◌, ◌≤◌, ◌<◌, ◌≡◌, ◌⊎◌, refl, sym, ap, ◌∙◌, inl, inr, true, false, none, some, List, [], ◌∷◌,
  String, arith, All, if◌then◌else◌, Bool-cases, Option-cases, ◌==◌, string_key, nat_key,
}
use core_c.Common.Maps.{lookup, lookup-insert, lookup-insert_self}
use core_c.Engine.Writes.{
  WriteManager, WritePacer, Southbound, Outcome, write_tag, refusal, check, record_write,
  outcome_of, is_success,
}
use core_c.Engine.Writes.Audit.{Attempt, write_at}

-- An accepted write: its driver and its two clock readings.
pub record Accepted : Type 0 where
  pub driver : String
  pub now : ℕ
  pub done : ℕ

-- Each accepted write began at least the interval after every earlier one to its driver had ended
-- (newest first).
abbrev pub IsSpaced : ℕ → List Accepted → Type 0
IsSpaced interval [] = Unit {0}
IsSpaced interval (a ∷ as') =
    All (λ (b : Accepted). b.driver ≡ a.driver → b.done + interval ≤ a.now) as'
    × IsSpaced interval as'

-- The pacer remembers, of each driver in the log, a time no earlier than its accepted writes.
abbrev Remembers : WritePacer → List Accepted → Type 0
Remembers p log =
    All (λ (b : Accepted). (t : ℕ) × (lookup b.driver p.last ≡ some t) × (b.done ≤ t)) log

module _ {V D : Type 0} (s : Southbound V D) where
  abbrev accept : Attempt V → Outcome → List Accepted → List Accepted
  accept a out log =
      if is_success out
      then record { driver = a.cmd.driver; now = a.now; done = a.done } ∷ log
      else log

  -- The accepted writes of a run, newest first.
  abbrev pub accepted_run : List (Attempt V) → D × WriteManager V → List Accepted → List Accepted
  accepted_run [] st log = log
  accepted_run (a ∷ as') st log =
      accepted_run as' (write_at s a st).1 (accept a (write_at s a st).0 log)

  -- The clock does not go back.
  abbrev pub IsClocked : ℕ → List (Attempt V) → Type 0
  IsClocked t [] = Unit {0}
  IsClocked t (a ∷ as') = (t ≤ a.now) × (a.now ≤ a.done) × IsClocked a.done as'

check_passed :
    (p : WritePacer) (driver : String) (now t : ℕ)
    → 0 < p.interval
    → check p driver now ≡ true
    → lookup driver p.last ≡ some t
    → t ≤ now
    → t + p.interval ≤ now
unfolding check
check_passed p driver now t pos ok e h = ground arith

spaced_after :
    (p : WritePacer) (driver : String) (now : ℕ) (log : List Accepted)
    → 0 < p.interval
    → check p driver now ≡ true
    → Remembers p log
    → ((t : ℕ) → lookup driver p.last ≡ some t → t ≤ now)
    → All (λ (b : Accepted). b.driver ≡ driver → b.done + p.interval ≤ now) log
spaced_after p driver now [] pos ok r past = tt
spaced_after p driver now (b ∷ log) pos ok r past = (
  λ e.
      let found = ap (λ d. lookup d p.last) (sym e) ∙ r.0.1 in
      omega (arith, check_passed p driver now r.0.0 pos ok found (past r.0.0 found), r.0.2),
  spaced_after p driver now log pos ok r.1 past,
)

record_write-interval :
    (p : WritePacer) (driver : String) (done : ℕ)
    → (record_write p driver done).interval ≡ p.interval
unfolding record_write
record_write-interval p driver done = ground arith

record_write-lookup :
    (p : WritePacer) (driver : String) (done : ℕ)
    → 0 < p.interval
    → lookup driver (record_write p driver done).last ≡ some done
unfolding record_write
record_write-lookup p driver done pos = ground (arith, lookup-insert_self driver done p.last)

-- No remembered time lies after `t`.
abbrev IsPast : ℕ → WritePacer → Type 0
IsPast t p = (driver : String) (u : ℕ) → lookup driver p.last ≡ some u → u ≤ t

Remembers-record :
    (p : WritePacer) (driver : String) (done : ℕ) (log : List Accepted)
    → 0 < p.interval
    → IsPast done p
    → Remembers p log
    → Remembers (record_write p driver done) log
unfolding record_write
Remembers-record p driver done [] pos past r = tt
Remembers-record p driver done (b ∷ log) pos past r =
    (remembered, Remembers-record p driver done log pos past r.1)
  where
    remembered :
        (t : ℕ) × (lookup b.driver (record_write p driver done).last ≡ some t) × (b.done ≤ t)
    remembered = elim (Bool-cases (driver == b.driver)) [
      | inl same ↦ (
        done,
        ground (arith, same, lookup-insert driver b.driver done p.last),
        omega (arith, r.0.2, past b.driver r.0.0 r.0.1),
      )
      | inr other ↦
          (r.0.0, ground (arith, other, r.0.1, lookup-insert driver b.driver done p.last), r.0.2)
    ]

IsPast-record :
    (p : WritePacer) (driver : String) (t done : ℕ)
    → t ≤ done
    → IsPast t p
    → IsPast done (record_write p driver done)
unfolding record_write
IsPast-record p driver t done h past other u e =
    ground (arith, lookup-insert driver other done p.last, past other u)

refusal_checks :
    {V D : Type 0} (s : Southbound V D) (a : Attempt V) (w : WriteManager V)
    → refusal s.format s.drivers a.now w a.cmd ≡ none
    → check w.pacer a.cmd.driver a.now ≡ true
unfolding refusal
refusal_checks s a w go = ground arith

module _ {V D : Type 0} (s : Southbound V D) where
  -- A call leaves the pacer alone unless it passed the check and was accepted.
  write_at_cases :
      (a : Attempt V) (d : D) (w : WriteManager V)
      → ((is_success (write_at s a (d, w)).0 ≡ false) × ((write_at s a (d, w)).1.1.pacer ≡ w.pacer))
        ⊎ ((is_success (write_at s a (d, w)).0 ≡ true)
            × (check w.pacer a.cmd.driver a.now ≡ true)
            × ((write_at s a (d, w)).1.1.pacer ≡ record_write w.pacer a.cmd.driver a.done))
  unfolding write_tag
  write_at_cases a d w = elim (Option-cases (refusal s.format s.drivers a.now w a.cmd)) [
    | inr (why, stop) ↦ inl (rw (stop, write_tag) refl, rw (stop, write_tag) refl)
    | inl go ↦ elim (Bool-cases (is_success (outcome_of (s.write d a.cmd).1))) [
      | inr bad ↦ inl (rw (go, write_tag) bad, rw (go, write_tag, bad) refl)
      | inl fine ↦
          inr (rw (go, write_tag) fine, refusal_checks s a w go, rw (go, write_tag, fine) refl)
    ]
  ]

  IsSpaced-run :
      (i t : ℕ) (as' : List (Attempt V)) (d : D) (w : WriteManager V) (log : List Accepted)
      → 0 < i
      → w.pacer.interval ≡ i
      → IsPast t w.pacer
      → Remembers w.pacer log
      → IsSpaced i log
      → IsClocked s t as'
      → IsSpaced i (accepted_run s as' (d, w) log)
  IsSpaced-run i t [] d w log pos e past r spaced clock = spaced
  IsSpaced-run i t (a ∷ as') d w log pos e past r spaced clock = elim (write_at_cases a d w) [
    | inl (bad, same) ↦ rw bad (
        IsSpaced-run i a.done as' st.0 st.1 log pos (rw same e) (rw same past_done)
          (subst (λ (p : WritePacer). Remembers p log) (sym same) r) spaced clock.2)
    | inr (fine, ok, recorded) ↦ rw fine (
        IsSpaced-run i a.done as' st.0 st.1 (new ∷ log) pos
          (rw recorded (record_write-interval w.pacer a.cmd.driver a.done ∙ e))
          (rw recorded
            (IsPast-record w.pacer a.cmd.driver t a.done (omega (arith, clock.0, clock.1)) past))
          (subst (λ (p : WritePacer). Remembers p (new ∷ log)) (sym recorded)
            (
              (a.done, record_write-lookup w.pacer a.cmd.driver a.done pos', omega arith),
              Remembers-record w.pacer a.cmd.driver a.done log pos' past_done r,
            ))
          (
            rw (← e) (
                spaced_after w.pacer a.cmd.driver a.now log pos' ok r
                  (λ u h. omega (arith, past a.cmd.driver u h, clock.0))),
            spaced,
          )
          clock.2)
  ]
    where
      st : D × WriteManager V
      st = (write_at s a (d, w)).1

      new : Accepted
      new = record { driver = a.cmd.driver; now = a.now; done = a.done }

      pos' : 0 < w.pacer.interval
      pos' = rw e pos

      past_done : IsPast a.done w.pacer
      past_done other u h = omega (arith, past other u h, clock.0, clock.1)

  -- With pacing on and the clock not going back, from a pacer that remembers nothing, through any
  -- run of writes to any drivers one after the other, each accepted write to a driver begins at
  -- least the interval after the end of every earlier accepted write to it.
  pub write_run-IsSpaced :
      (as' : List (Attempt V)) (d : D) (w : WriteManager V)
      → 0 < w.pacer.interval
      → w.pacer.last ≡ []
      → IsClocked s 0 as'
      → IsSpaced w.pacer.interval (accepted_run s as' (d, w) [])
  unfolding lookup
  write_run-IsSpaced as' d w pos fresh clock =
      IsSpaced-run w.pacer.interval 0 as' d w [] pos refl
        (λ other u h. cc (ap (lookup other) fresh, h)) tt tt clock
