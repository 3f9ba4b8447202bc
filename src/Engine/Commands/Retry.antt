-- ===== src/Engine/Commands/Retry.antt =====
-- engine/write_manager.go: what becomes of a command that the listener takes.
use core_c.Common.{
  ℕ, zero, suc, ◌+◌, ◌≤◌, ◌≡◌, refl, ap, ◌∙◌, inl, inr, true, Option, some, List, String, arith,
  Bool-cases, Option-cases, ◌==◌, nat_key, string_key, not, ◌&&◌,
}
use core_c.Common.Maps.{lookup}
use core_c.Common.Windows.{push_bounded}
use core_c.Common.Texts.{contains}
use core_c.Core.{WriteCommand, DeadLetterEntry}
use core_c.Engine.Writes.{
  WriteManager, Southbound, write_tag, is_success, error_of, append_store, TagConfig, Outcome,
}
use core_c.Engine.Writes.Letters.{HasSameLetters, write_tag_letters}
use core_c.Engine.Writes.Protection.{is_read_only, write_tag_read_only}
use core_c.Engine.Commands.{
  Forwarder, Fate, Round, written, forwarded, abandoned, dead_lettered, dead_letter,
  add_dead_letter, retry_loop, execute_write_with_retry, forward_command, is_permanent_write_error,
  matches_some,
}
use core_c.Engine.Commands.Attempts.{IsCaused, retry_loop-IsAttempted}

module _ {V : Type 0} where
  -- The manager has one dead letter more, of this command after so many attempts.
  abbrev pub HasLetter : WriteCommand V → ℕ → String → WriteManager V → WriteManager V → Type 0
  HasLetter cmd n err w w' =
      (now : ℕ) × (w'.queue ≡ push_bounded w.max_len w.queue (dead_letter cmd err now n))
      × (w'.pushed ≡ w.pushed + 1)
      × (w'.store ≡ append_store w.store (dead_letter cmd err now n))

  abbrev pub IsAccounted : ℕ → WriteCommand V → WriteManager V → Fate → WriteManager V → Type 0
  IsAccounted most cmd w written w' = HasSameLetters w w'
  IsAccounted most cmd w forwarded w' = HasSameLetters w w'
  IsAccounted most cmd w abandoned w' = HasSameLetters w w'
  IsAccounted most cmd w (dead_lettered n err) w' = (1 ≤ n) × (n ≤ most) × HasLetter cmd n err w w'

  IsAccounted-trans :
      (most : ℕ) (cmd : WriteCommand V) (w v : WriteManager V) (f : Fate) (w' : WriteManager V)
      → HasSameLetters w v
      → IsAccounted most cmd v f w'
      → IsAccounted most cmd w f w'
  IsAccounted-trans most cmd w v written w' (a, b, c, d) (e, f, g, h) = (e ∙ a, f ∙ b, g ∙ c, h ∙ d)
  IsAccounted-trans most cmd w v forwarded w' (a, b, c, d) (e, f, g, h) =
      (e ∙ a, f ∙ b, g ∙ c, h ∙ d)
  IsAccounted-trans most cmd w v abandoned w' (a, b, c, d) (e, f, g, h) =
      (e ∙ a, f ∙ b, g ∙ c, h ∙ d)
  IsAccounted-trans most cmd w v (dead_lettered n err) w' (a, b, c, d) (l, m, (now, e, f, g)) = (
    l,
    m,
    (
      now,
      e ∙ rw (a, c) refl,
      f ∙ ap (λ k. k + 1) b,
      g
          ∙ ap
              (λ (s : Option (List (DeadLetterEntry V))).
                append_store s (dead_letter cmd err now n))
              d,
    ),
  )

  HasLetter-add :
      (cmd : WriteCommand V) (err : String) (now n : ℕ) (w : WriteManager V)
      → HasLetter cmd n err w (add_dead_letter (dead_letter cmd err now n) w)
  unfolding add_dead_letter
  HasLetter-add cmd err now n w = (now, refl, refl, refl)

module _ {V D : Type 0} (s : Southbound V D) where
  retry_loop-IsAccounted :
      (world : ℕ → Round) (cmd : WriteCommand V) (most left attempt : ℕ) (last : String) (d : D)
      (w : WriteManager V)
      → 1 ≤ left + attempt
      → left + attempt ≤ most
      → IsAccounted most cmd w
          (retry_loop s world cmd left attempt last (d, w)).0
          (retry_loop s world cmd left attempt last (d, w)).1.1
  unfolding retry_loop
  retry_loop-IsAccounted world cmd most zero attempt last d w h k =
      (omega arith, omega arith, HasLetter-add cmd last (world attempt).now attempt w)
  retry_loop-IsAccounted world cmd most (suc left) attempt last d w h k =
      elim (Bool-cases (is_success out)) [
        | inl fine ↦ rw fine same
        | inr bad ↦ elim (Bool-cases (is_permanent_write_error (error_of out))) [
          | inl final ↦
              rw (bad, final)
                (IsAccounted-trans most cmd w v (dead_lettered (suc attempt) (error_of out))
                  (add_dead_letter
                    (dead_letter cmd (error_of out) (world attempt).done (suc attempt)) v)
                  same
                  (
                    omega arith,
                    omega arith,
                    HasLetter-add cmd (error_of out) (world attempt).done (suc attempt) v,
                  ))
          | inr transient ↦ elim (Bool-cases (not (left == 0) && (world attempt).cancelled)) [
            | inl stop ↦ rw (bad, transient, stop) same
            | inr go ↦
                rw (bad, transient, go)
                  (IsAccounted-trans most cmd w v
                    (retry_loop s world cmd left (suc attempt) (error_of out) (d', v)).0
                    (retry_loop s world cmd left (suc attempt) (error_of out) (d', v)).1.1 same
                    (retry_loop-IsAccounted world cmd most left (suc attempt) (error_of out) d' v
                      (omega arith) (omega arith)))
          ]
        ]
      ]
    where
      out : Outcome
      out = (write_tag s (world attempt).now (world attempt).done cmd (d, w)).0

      d' : D
      d' = (write_tag s (world attempt).now (world attempt).done cmd (d, w)).1.0

      v : WriteManager V
      v = (write_tag s (world attempt).now (world attempt).done cmd (d, w)).1.1

      same : HasSameLetters w v
      same = write_tag_letters s (world attempt).now (world attempt).done cmd d w

  -- However the devices, the forwarders and the clock behave, the execution of a command either
  -- adds no dead letter and ends with it written, forwarded or abandoned, or adds exactly one dead
  -- letter, with this command, its error and between one and retry-count + 1 attempts, to the
  -- bounded queue, the counter and the store. With a registered driver, written means that an
  -- attempt among the first retry-count + 1, each made on what the one before left, succeeded;
  -- abandoned that the context was cancelled after an attempt that was not the last; and a dead
  -- letter carries the number and the error of the last attempt made, which is attempt retry-count
  -- + 1 or has a permanent error. All attempts before failed without a permanent error, and the
  -- devices are as the last attempt left them. Without a driver the devices stay as they were, and
  -- the command is forwarded if a transport accepts it and dead-lettered after one attempt with
  -- the driver-not-found error otherwise.
  pub execute_write-IsAccounted :
      (transports : List (Forwarder V)) (world : ℕ → Round) (cmd : WriteCommand V) (d : D)
      (w : WriteManager V)
      → IsAccounted
          (w.write_retry_count + 1)
          cmd
          w
          (execute_write_with_retry s transports world cmd (d, w)).0
          (execute_write_with_retry s transports world cmd (d, w)).1.1
        × IsCaused s transports world cmd
            (d, w)
            (w.write_retry_count + 1)
            (execute_write_with_retry s transports world cmd (d, w)).0
            (execute_write_with_retry s transports world cmd (d, w)).1.0
  unfolding execute_write_with_retry
  execute_write-IsAccounted transports world cmd d w =
      elim (Option-cases (lookup cmd.driver s.drivers)) [
        | inr (ts, found) ↦
            rw (found, execute_write_with_retry)
              (
                retry_loop-IsAccounted world cmd (w.write_retry_count + 1) (suc w.write_retry_count)
                    0 "" d w (omega arith) (omega arith),
                inl (
                  ts,
                  refl,
                  retry_loop-IsAttempted s world cmd (d, w) (w.write_retry_count + 1)
                      (suc w.write_retry_count) 0 "" (omega arith) (omega arith)
                      (λ j h. absurd (omega arith)) (λ k e. absurd (omega arith)),
                ),
              )
        | inl missing ↦ elim (Bool-cases (forward_command transports cmd)) [
          | inl sent ↦
              rw (missing, sent, execute_write_with_retry)
                ((refl, refl, refl, refl), inr (refl, (sent, refl)))
          | inr unsent ↦
              rw (missing, unsent, execute_write_with_retry)
                (
                  (omega arith, omega arith, HasLetter-add cmd _ (world 0).now 1 w),
                  inr (refl, (unsent, refl, refl, refl)),
                )
        ]
      ]

  matches_some_there :
      (err : String)
      → contains err "protect: read-only" ≡ true
      → is_permanent_write_error err ≡ true
  unfolding is_permanent_write_error matches_some
  matches_some_there err h = ground arith

  -- A command for a registered driver whose first tag of that name is configured read-only is
  -- dead-lettered after one attempt, whatever the retry count, and the devices are left as they
  -- were.
  pub execute_write_read_only :
      (transports : List (Forwarder V)) (world : ℕ → Round) (cmd : WriteCommand V) (d : D)
      (w : WriteManager V) (tags : List TagConfig)
      → lookup cmd.driver s.drivers ≡ some tags
      → is_read_only tags cmd.tag ≡ true
      → (why : String) × ((execute_write_with_retry s transports world cmd (d, w)).0
          ≡ dead_lettered 1 why)
        × ((execute_write_with_retry s transports world cmd (d, w)).1.0 ≡ d)
        × HasLetter cmd 1 why w (execute_write_with_retry s transports world cmd (d, w)).1.1
  unfolding execute_write_with_retry retry_loop is_success error_of
  execute_write_read_only transports world cmd d w tags found protected =
      let r = write_tag_read_only s (world 0).now (world 0).done cmd d w tags found protected in
      let permanent = matches_some_there r.0 r.2 in
      let v = (write_tag s (world 0).now (world 0).done cmd (d, w)).1.1 in
      let same = write_tag_letters s (world 0).now (world 0).done cmd d w in
      (
        r.0,
        rw (found, execute_write_with_retry, r.1, permanent) refl,
        rw (found, execute_write_with_retry, r.1, permanent) r.3,
        rw (found, execute_write_with_retry, r.1, permanent)
            (IsAccounted-trans (w.write_retry_count + 1) cmd w v (dead_lettered 1 r.0)
              (add_dead_letter (dead_letter cmd r.0 (world 0).done 1) v) same
              (omega arith, omega arith, HasLetter-add cmd r.0 (world 0).done 1 v)).2,
      )
