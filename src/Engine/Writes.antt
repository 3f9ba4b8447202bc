-- ===== src/Engine/Writes.antt =====
-- The command path: engine/write_manager.go, engine/write_pacing.go, engine/tag_protect.go and
-- engine/write_audit_store.go. The southbound devices are a state `D` that a driver's `Write`
-- changes. A call reads the clock once before the driver is asked and once after. `store` is what was
-- appended to the optional file on disk. Logging is left out.
pub mod Pacing
pub mod Audit
pub mod Protection
pub mod Letters
mod Tests
use core_c.Common.{
  reversed, length, ℕ, zero, suc, ◌-◌, ◌*◌, ◌^◌, ◌%◌, String, Bool, true, false, not, ◌&&◌, ◌||◌,
  Option, none, some, List, [], ◌∷◌, ◌++◌, ltb, if◌then◌else◌, ◌==◌, string_key, nat_key,
}
use core_c.Common.Maps.{lookup, insert, delete}
use core_c.Common.Windows.{push_bounded}
use core_c.Common.Texts.{◌<>◌}
use core_c.Core.{WriteCommand, WriteResult, WriteAuditEntry, DeadLetterEntry}

-- The fields of `core.TagConfig` that the write path reads.
pub record TagConfig : Type 0 where
  pub name : String
  pub protect : String

pub record WritePacer : Type 0 where
  pub last : List (String × ℕ)
  pub interval : ℕ

pub record WriteManager (V : Type 0) : Type 0 where
  pub write_retry_count : ℕ
  pub pacer : WritePacer
  pub audits : List (WriteAuditEntry V)
  pub audit_store : Option (List (WriteAuditEntry V))
  pub queue : List (DeadLetterEntry V)
  pub max_len : ℕ
  pub pushed : ℕ
  pub store : Option (List (DeadLetterEntry V))

-- What `fmt` and `time` print: a string by `%q`, a duration by `%s`, and one rounded to milliseconds.
pub record Format : Type 0 where
  pub quote : String → String
  pub duration : ℕ → String
  pub millis : ℕ → String

-- What a driver's `Write` of one command returns: an error, or results.
pub data Reply : Type 0 where
  failed : String → Reply
  results : List WriteResult → Reply

-- What `WriteTag` returns.
pub data Outcome : Type 0 where
  refused : String → Outcome
  answered : WriteResult → Outcome

-- The methods of the pacer; an interval of 0 switches pacing off.
abbrev pub new_write_pacer : WritePacer
new_write_pacer = record { last = []; interval = 0 }

abbrev pub current_interval : WritePacer → ℕ
current_interval p = p.interval

set_interval : WritePacer → ℕ → WritePacer
set_interval p interval = record {
  last = if interval == 0 then [] else p.last;
  interval = interval;
}

forget : WritePacer → String → WritePacer
unfolding delete
forget p driver = record p { last = delete driver p.last }

-- `true` if the write may go on.
pub check : WritePacer → String → ℕ → Bool
unfolding lookup
check p driver now = elim (lookup driver p.last) [
  | none ↦ true
  | some prev ↦ p.interval == 0 || not (ltb (now - prev) p.interval)
]

record_write : WritePacer → String → ℕ → WritePacer
unfolding insert
record_write p driver now =
    if p.interval == 0 then p else record p { last = insert driver now p.last }

-- The reason for a tag that is read-only, "" for none; `quote` is the format `%q`.
pub tag_write_protection_reason : (String → String) → List TagConfig → String → String
tag_write_protection_reason quote [] tag = ""
tag_write_protection_reason quote (t ∷ ts) tag =
    let rest = tag_write_protection_reason quote ts tag in
    if t.name == tag
    then (if t.protect == "read-only"
        then "tag " <> (quote tag <> (" is read-only (" <> ("protect: read-only" <> ")")))
        else "")
    else rest

is_write_only_tag : List TagConfig → String → Bool
is_write_only_tag [] tag = false
is_write_only_tag (t ∷ ts) tag =
    if t.name == tag then t.protect == "write-only" else is_write_only_tag ts tag

-- The error of `check`, which wraps `core.ErrWritePaced`.
pub paced_error : Format → WritePacer → String → ℕ → String
unfolding lookup
paced_error f p driver now = elim (lookup driver p.last) [
  | none ↦ ""
  | some prev ↦
      "write paced: driver "
      <> (f.quote driver
          <> (" accepts a write every "
              <> (f.duration p.interval
                  <> (" (retry in " <> (f.millis (p.interval - (now - prev)) <> ")")))))
]

unfoldable pub append_store : {E : Type 0} → Option (List E) → E → Option (List E)
append_store none entry = none
append_store (some l) entry = some (l ++ entry ∷ [])

abbrev pub write_audit_capacity : ℕ
write_audit_capacity = 1000

-- What `WriteTag` makes of the driver's reply.
outcome_of : Reply → Outcome
outcome_of (failed err) = refused err
outcome_of (results []) = refused "no result returned"
outcome_of (results (r ∷ rs)) = answered r

unfoldable pub is_success : Outcome → Bool
is_success (refused err) = false
is_success (answered r) = r.success

unfoldable pub error_of : Outcome → String
error_of (refused err) = err
error_of (answered r) = r.error

module _ {V : Type 0} where
  pub audit_entry : ℕ → WriteCommand V → Bool → String → WriteAuditEntry V
  audit_entry now cmd success err = record {
    timestamp = now;
    driver = cmd.driver;
    device = cmd.device;
    tag = cmd.tag;
    value = cmd.value;
    type = cmd.type;
    success = success;
    error = err;
    source = cmd.source;
    remote = cmd.remote;
    raw = cmd.raw;
  }

  record_write_audit : ℕ → WriteCommand V → Bool → String → WriteManager V → WriteManager V
  unfolding push_bounded append_store audit_entry
  record_write_audit now cmd success err w = record w {
    audits = push_bounded write_audit_capacity w.audits (audit_entry now cmd success err);
    audit_store = append_store w.audit_store (audit_entry now cmd success err);
  }

  -- The refusals of `WriteTag` before the driver is asked. A driver that is not registered has no
  -- entry; one without configuration has no tags.
  pub refusal :
      Format → List (String × List TagConfig) → ℕ → WriteManager V → WriteCommand V → Option String
  unfolding check tag_write_protection_reason lookup
  refusal f drivers now w cmd = elim (lookup cmd.driver drivers) [
    | none ↦ some ("driver not found: " <> cmd.driver)
    | some tags ↦
        let reason = tag_write_protection_reason f.quote tags cmd.tag in
        if not (reason == "")
        then some reason
        else (if check w.pacer cmd.driver now
            then none
            else some (paced_error f w.pacer cmd.driver now))
  ]

  -- The part of `WriteTag` after `d.Write`.
  settle : ℕ → Outcome → WriteCommand V → WriteManager V → WriteManager V
  unfolding record_write_audit record_write is_success error_of
  settle done out cmd w =
      let w' = record_write_audit done cmd (is_success out) (error_of out) w in
      if is_success out then record w' { pacer = record_write w.pacer cmd.driver done } else w'

  -- Newest first.
  abbrev pub write_history : WriteManager V → List (WriteAuditEntry V)
  write_history w = reversed w.audits

  -- `DeadLetterStats` and `DeadLetterEntries`.
  abbrev pub dead_letter_stats : WriteManager V → ℕ × ℕ
  dead_letter_stats w = (length w.queue, w.pushed)

  abbrev pub dead_letter_entries : WriteManager V → List (DeadLetterEntry V)
  dead_letter_entries w = w.queue

-- The southbound side: the registered drivers with their tags, and what `Write` does to a device.
pub record Southbound (V : Type 0) (D : Type 0) : Type 0 where
  pub drivers : List (String × List TagConfig)
  pub format : Format
  pub write : D → WriteCommand V → D × Reply

module _ {V D : Type 0} where
  has_driver : Southbound V D → String → Bool
  unfolding lookup
  has_driver s driver = elim (lookup driver s.drivers) [ none ↦ false | some ts ↦ true ]

  unfoldable pub write_tag :
      Southbound V D → ℕ → ℕ → WriteCommand V → D × WriteManager V → Outcome × (D × WriteManager V)
  unfolding refusal outcome_of settle
  write_tag s now done cmd (d, w) = elim (refusal s.format s.drivers now w cmd) [
    | some why ↦ (refused why, (d, record_write_audit now cmd false why w))
    | none ↦
        let (d', reply) = s.write d cmd in
        (outcome_of reply, (d', settle done (outcome_of reply) cmd w))
  ]
