-- ===== src/Engine/Batcher/Outage.antt =====
-- engine/batcher_retry.go: the attempts of a publish, and a batch on disk while the transport is down.
use core_c.Common.{
  ℕ, zero, suc, ◌+◌, ◌≤◌, ◌<◌, ◌≡◌, refl, sym, ap, ◌∙◌, inl, inr, String, Bool, true, false, Option,
  none, some, List, [], ◌∷◌, ◌++◌, length, ◌==◌, nat_key, string_key, Bool-cases, arith, ◌-◌, drop,
  drop-append, length-append, ◌↔◌,
}
use mathlib.Core.Path.{subst}
use core_c.Common.Ints.{rounds, successor}
use core_c.Common.Windows.{last_n}
use core_c.Core.{DataPoint}
use core_c.Engine.OfflineBuffer.{OfflineEntry, OfflineBuffer, Directory, Faults, push_batch}
use core_c.Engine.OfflineBuffer.Order.{IsOrdered}
use core_c.Engine.OfflineBuffer.Eviction.{IsWorking}
use core_c.Engine.OfflineBuffer.Bounded.{IsPushed, content, encoded, push_batch_lem}
use core_c.Engine.OfflineBuffer.Drain.{IsIn, own_batch}
use core_c.Engine.OfflineBuffer.Replay.{own_files, add_batch}
use core_c.Engine.OfflineBuffer.Finish.{drain_finishes}
use core_c.Engine.Batcher.{TransportBatcher, Answers}
use core_c.Engine.Batcher.Sending.{
  attempt_loop, publish_with_retry_and_buffer, exhausted, keep_pushed, drain_once, drain_from,
}

-- The attempt of this number is the first that the transport accepts, and no wait before it was cut
-- short.
abbrev pub IsFirstAccepted : {V : Type 0} → Answers V → ℕ → ℕ → Type 0
IsFirstAccepted a start k =
    (start ≤ k)
    × (a.accepted_at k ≡ true)
    × ((j : ℕ) → start ≤ j → j < k → (a.accepted_at j ≡ false) × (a.cancelled j ≡ false))

attempt_loop_zero :
    {V : Type 0} (a : Answers V) (left attempt : ℕ) → left ≡ 0 → attempt_loop a left attempt ≡ false
unfolding attempt_loop
attempt_loop_zero a zero attempt h = refl
attempt_loop_zero a (suc left) attempt h = absurd (omega arith)

attempt_loop-true :
    {V : Type 0} (a : Answers V) (left attempt : ℕ)
    → attempt_loop a left attempt ≡ true
    → (k : ℕ) × (k < attempt + left) × IsFirstAccepted a attempt k
unfolding attempt_loop
attempt_loop-true a zero attempt h = cc
attempt_loop-true a (suc left) attempt h = elim (Bool-cases (a.accepted_at attempt)) [
  | inl up ↦ (attempt, omega arith, (omega arith, up, λ j l r. absurd (omega arith)))
  | inr down ↦
      let goes_on = goes_on_lem down in
      let (k, below, (late, up, before)) = attempt_loop-true a left (attempt + 1) goes_on.0 in
      (
        k,
        omega arith,
        (
          omega arith,
          up,
          λ j l r. elim (Bool-cases (j == attempt)) [
            | inl here ↦
                let same = (nat_key.same_iff j attempt).0 here in
                (ap a.accepted_at same ∙ down, ap a.cancelled same ∙ goes_on.1)
            | inr there ↦ before j (ground arith) r
          ],
        ),
      )
]
  where
    goes_on_lem :
        a.accepted_at attempt ≡ false
        → (attempt_loop a left (attempt + 1) ≡ true) × (a.cancelled attempt ≡ false)
    goes_on_lem down = ground (arith, attempt_loop_zero a left (attempt + 1))

attempt_loop-finds :
    {V : Type 0} (a : Answers V) (left attempt k : ℕ)
    → k < attempt + left
    → IsFirstAccepted a attempt k
    → attempt_loop a left attempt ≡ true
unfolding attempt_loop
attempt_loop-finds a zero attempt k h (l, up, before) = absurd (omega arith)
attempt_loop-finds a (suc left) attempt k h (l, up, before) = elim (Bool-cases (attempt == k)) [
  | inl here ↦
      let now : a.accepted_at attempt ≡ true =
        ap a.accepted_at ((nat_key.same_iff attempt k).0 here) ∙ up in
      rw now refl
  | inr later ↦
      let (down, waits) = before attempt (omega arith) (ground arith) in
      let rest =
        attempt_loop-finds a left (attempt + 1) k (omega arith)
          (ground arith, up, λ j late r. before j (omega arith) r) in
      rw (down, waits, rest) (ground arith)
]

module _ {V : Type 0} where
  -- The publish of a batch succeeds exactly when the transport accepts one of the retry-count + 1
  -- attempts, none if that is not positive, and no wait before that attempt was cut short.
  pub publish-IsFirstAccepted :
      (a : Answers V) (batch : List (DataPoint V)) (b : TransportBatcher V)
      → ((publish_with_retry_and_buffer a batch b).0 ≡ true)
        ↔ ((k : ℕ) × (k < 0 + rounds (successor b.retry.retry_count)) × IsFirstAccepted a 0 k)
  unfolding publish_with_retry_and_buffer
  publish-IsFirstAccepted a batch b =
      let n = rounds (successor b.retry.retry_count) in
      (
        λ ok. attempt_loop-true a n 0 (loop_of ok),
        λ (k, below, first). rw (attempt_loop-finds a n 0 k below first) refl,
      )
    where
      loop_of :
          (publish_with_retry_and_buffer a batch b).0 ≡ true
          → attempt_loop a (rounds (successor b.retry.retry_count)) 0 ≡ true
      loop_of ok = ground arith

  -- What is left of the buffer on disk by a refused batch.
  refused_pushed :
      (a : Answers V) (batch : List (DataPoint V)) (b : TransportBatcher V) (ob : OfflineBuffer V)
      → (publish_with_retry_and_buffer a batch b).0 ≡ false
      → b.offline_buffer ≡ some ob
      → (publish_with_retry_and_buffer a batch b).1
        ≡ keep_pushed (push_batch a.faults a.now batch b.transport ob) b
  unfolding publish_with_retry_and_buffer exhausted
  refused_pushed a batch b ob refused e =
      elim (Bool-cases (attempt_loop a (rounds (successor b.retry.retry_count)) 0)) [
        | inl done ↦ absurd (true_ne_false (sym (rw done refl) ∙ refused))
        | inr out ↦ rw out (ap (λ o. exhausted a batch o b) e)
      ]
    where
      true_ne_false : true ≡ false → ⊥
      true_ne_false h = cc

  add_batch-IsIn :
      (x : ℕ × List (DataPoint V)) (seq : ℕ) (o : Option (List (DataPoint V)))
      (rest : List (ℕ × List (DataPoint V)))
      → IsIn x rest
      → IsIn x (add_batch seq o rest)
  add_batch-IsIn x seq none rest h = h
  add_batch-IsIn x seq (some points) rest h = inr h

  last_own :
      (source : String) (files : Directory V) (seq : ℕ) (e : OfflineEntry V)
      → e.source ≡ source
      → IsIn (seq, e.points) (own_files source (files ++ (seq, some e) ∷ []))
  last_own source [] seq e own = rw ((string_key.same_iff e.source source).1 own) (inl refl)
  last_own source ((s, c) ∷ files) seq e own =
      add_batch-IsIn (seq, e.points) s (own_batch source (some c))
        (own_files source (files ++ (seq, some e) ∷ [])) (last_own source files seq e own)

  -- The newest entry of a bounded directory stays.
  newest_own :
      (source : String) (max : ℕ) (files : Directory V) (seq : ℕ) (e : OfflineEntry V)
      → 1 ≤ max
      → e.source ≡ source
      → IsIn (seq, e.points) (own_files source (last_n max (files ++ (seq, some e) ∷ [])))
  newest_own source max files seq e h own =
      let k = length (files ++ (seq, some e) ∷ []) - max in
      rw
        (drop-append k files ((seq, some e) ∷ [])
          (omega (arith, length-append files ((seq, some e) ∷ []))))
        (last_own source (drop k files) seq e own)

  -- What a replay from disk gives of a batch that was refused, read back as this entry.
  abbrev pub IsDelivered :
      TransportBatcher V
      → OfflineBuffer V
      → OfflineEntry V
      → List (ℕ × List (DataPoint V)) × TransportBatcher V
      → Type 0
  IsDelivered b ob e after =
      IsIn (ob.next_seq, e.points) after.0
      × (after.0
          ≡ own_files b.transport (last_n ob.max_entries (ob.files ++ (ob.next_seq, some e) ∷ [])))
      × (after.1.retry.offline_buffer_pushes ≡ b.retry.offline_buffer_pushes + 1)

  keep_pushed-IsDelivered :
      (b : TransportBatcher V) (ob : OfflineBuffer V) (e : OfflineEntry V) (f : Faults V)
      (accepts : ℕ → Bool) (r : Bool × OfflineBuffer V)
      → e.source ≡ b.transport
      → IsPushed ob (ob.next_seq, some e) r.1
      → r.0 ≡ true
      → 1 ≤ ob.max_entries
      → IsWorking f
      → ((k : ℕ) → accepts k ≡ true)
      → IsDelivered b ob e (drain_once f accepts (keep_pushed r b))
  unfolding drain_once drain_from keep_pushed
  keep_pushed-IsDelivered b ob e f accepts (ok, ob') own pushed done h w up =
      let out =
        (drain_finishes f accepts b.transport ob' w up pushed.4).1
        ∙ ap (own_files b.transport) pushed.0 in
      (
        subst (IsIn (ob.next_seq, e.points)) (sym out)
            (newest_own b.transport ob.max_entries ob.files ob.next_seq e h own),
        out,
        rw done refl,
      )

  -- When the publish of a batch that is not empty fails, on a batcher whose ordered buffer on disk
  -- has a bound of at least 1 and whose file system works, and its JSON entry is read back as an
  -- entry of this transport, then a replay with a working file system and a transport that accepts
  -- every batch publishes the points of that entry under its number; what it publishes are the
  -- batches of this transport among the newest entries that fit of the old ones and this one, in
  -- order, and the push is counted once.
  pub drain_once-publish_delivers :
      (a : Answers V) (p : DataPoint V) (points : List (DataPoint V)) (b : TransportBatcher V)
      (ob : OfflineBuffer V) (e : OfflineEntry V) (f : Faults V) (accepts : ℕ → Bool)
      → b.offline_buffer ≡ some ob
      → IsWorking a.faults
      → encoded a.faults ob.next_seq a.now (p ∷ points) b.transport ≡ some (some e)
      → e.source ≡ b.transport
      → 1 ≤ ob.max_entries
      → IsOrdered ob
      → (publish_with_retry_and_buffer a (p ∷ points) b).0 ≡ false
      → IsWorking f
      → ((k : ℕ) → accepts k ≡ true)
      → IsDelivered b ob e (drain_once f accepts (publish_with_retry_and_buffer a (p ∷ points) b).1)
  drain_once-publish_delivers a p points b ob e f accepts has_disk w read own h o refused w' up =
      let (pushed, done) =
        push_batch_lem a.faults a.now p points b.transport ob w (some e, read) h o in
      rw (refused_pushed a (p ∷ points) b ob refused has_disk) (
        keep_pushed-IsDelivered b ob e f accepts
          (push_batch a.faults a.now (p ∷ points) b.transport ob) own
          (subst
            (λ (new : ℕ × Option (OfflineEntry V)).
              IsPushed ob new (push_batch a.faults a.now (p ∷ points) b.transport ob).1)
            (λ i. (ob.next_seq, content (read i))) pushed)
          done h w' up)
