-- ===== src/Engine/Writes/Audit.antt =====
-- engine/write_manager.go and engine/write_audit_store.go: the audit trail.
use core_c.Common.{
  ℕ, ◌≤◌, ◌≡◌, refl, ap, ◌∙◌, inl, inr, none, some, List, [], ◌∷◌, ◌++◌, arith, length,
  Option-cases,
}
use core_c.Common.Windows.{push_bounded, push_all, push_all_lem, last_n}
use core_c.Core.{WriteCommand, WriteAuditEntry}
use core_c.Engine.Writes.{
  WriteManager, Southbound, Outcome, write_tag, refusal, audit_entry, is_success, error_of,
  write_audit_capacity,
}

-- A call of `WriteTag` with its two clock readings.
pub record Attempt (V : Type 0) : Type 0 where
  pub now : ℕ
  pub done : ℕ
  pub cmd : WriteCommand V

module _ {V D : Type 0} (s : Southbound V D) where
  abbrev pub write_at : Attempt V → D × WriteManager V → Outcome × (D × WriteManager V)
  write_at a st = write_tag s a.now a.done a.cmd st

  abbrev pub write_run : List (Attempt V) → D × WriteManager V → D × WriteManager V
  write_run [] st = st
  write_run (a ∷ as') st = write_run as' (write_at a st).1

  -- The record of one attempt: the command, whether it succeeded and with what error, stamped with
  -- the first clock reading if it was refused and with the second if the driver was asked.
  abbrev pub attempt_entry : Attempt V → D × WriteManager V → WriteAuditEntry V
  attempt_entry a (d, w) =
      let out = (write_at a (d, w)).0 in
      audit_entry
        (elim (refusal s.format s.drivers a.now w a.cmd) [ some why ↦ a.now | none ↦ a.done ]) a.cmd
        (is_success out) (error_of out)

  abbrev pub attempt_entries : List (Attempt V) → D × WriteManager V → List (WriteAuditEntry V)
  attempt_entries [] st = []
  attempt_entries (a ∷ as') st = attempt_entry a st ∷ attempt_entries as' (write_at a st).1

  audits-write_tag :
      (a : Attempt V) (d : D) (w : WriteManager V)
      → (write_at a (d, w)).1.1.audits
        ≡ push_bounded write_audit_capacity w.audits (attempt_entry a (d, w))
  unfolding write_tag
  audits-write_tag a d w = elim (Option-cases (refusal s.format s.drivers a.now w a.cmd)) [
    | inl go ↦ rw (go, write_tag) (ground arith)
    | inr (why, stop) ↦ rw (stop, write_tag) refl
  ]

  audits-run :
      (as' : List (Attempt V)) (d : D) (w : WriteManager V)
      → (write_run as' (d, w)).1.audits
        ≡ push_all write_audit_capacity w.audits (attempt_entries as' (d, w))
  unfolding push_all
  audits-run [] d w = refl
  audits-run (a ∷ as') d w =
      audits-run as' (write_at a (d, w)).1.0 (write_at a (d, w)).1.1
      ∙ ap
          (λ (xs : List (WriteAuditEntry V)).
            push_all write_audit_capacity xs (attempt_entries as' (write_at a (d, w)).1))
          (audits-write_tag a d w)

  -- From a trail within its capacity, any run of `WriteTag` calls leaves in it the newest 1000 of
  -- the old entries followed by one entry for each call in order, with its command, success, error
  -- and time.
  pub audits-write_run :
      (as' : List (Attempt V)) (d : D) (w : WriteManager V)
      → length w.audits ≤ write_audit_capacity
      → (write_run as' (d, w)).1.audits
        ≡ last_n write_audit_capacity (w.audits ++ attempt_entries as' (d, w))
  audits-write_run as' d w h =
      audits-run as' d w ∙ push_all_lem write_audit_capacity w.audits (attempt_entries as' (d, w)) h
