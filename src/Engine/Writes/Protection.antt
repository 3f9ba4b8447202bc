-- ===== src/Engine/Writes/Protection.antt =====
-- engine/tag_protect.go: writes to tags configured read-only.
use core_c.Common.{
  ℕ, ◌≡◌, ap, inl, inr, Bool, true, false, some, List, [], ◌∷◌, String, arith, if◌then◌else◌,
  Bool-cases, ◌==◌, string_key, nat_key,
}
use core_c.Common.Maps.{lookup}
use core_c.Common.Texts.{◌<>◌, contains, contains_middle, contains-<>}
use core_c.Core.{WriteCommand}
use core_c.Engine.Writes.{
  WriteManager, Southbound, TagConfig, write_tag, refusal, tag_write_protection_reason, refused,
}

-- The first tag of that name is configured read-only.
abbrev pub is_read_only : List TagConfig → String → Bool
is_read_only [] tag = false
is_read_only (t ∷ ts) tag = if t.name == tag then t.protect == "read-only" else is_read_only ts tag

abbrev read_only_reason : (String → String) → String → String
read_only_reason quote tag =
    "tag " <> (quote tag <> (" is read-only (" <> ("protect: read-only" <> ")")))

reason_read_only :
    (quote : String → String) (ts : List TagConfig) (tag : String)
    → is_read_only ts tag ≡ true
    → tag_write_protection_reason quote ts tag ≡ read_only_reason quote tag
unfolding tag_write_protection_reason
reason_read_only quote [] tag h = ground arith
reason_read_only quote (t ∷ ts) tag h = ground (arith, reason_read_only quote ts tag)

abbrev is_nil : String → Bool
is_nil String.[] = true
is_nil (String.◌∷◌ c s) = false

read_only_reason_there :
    (quote : String → String) (tag : String) → (read_only_reason quote tag == "") ≡ false
unfolding ◌<>◌
read_only_reason_there quote tag = elim (Bool-cases (read_only_reason quote tag == "")) [
  | inr no_match ↦ no_match
  | inl e ↦ cc (ap is_nil ((string_key.same_iff (read_only_reason quote tag) "").0 e))
]

read_only_reason_permanent :
    (quote : String → String) (tag : String)
    → contains (read_only_reason quote tag) "protect: read-only" ≡ true
read_only_reason_permanent quote tag = contains-<> "tag " _ "protect: read-only" (
    contains-<> (quote tag) _ "protect: read-only"
      (contains_middle " is read-only (" "protect: read-only" ")"))

module _ {V D : Type 0} where
  -- A write to a registered driver whose first tag of that name is configured read-only is refused
  -- with an error that contains the pattern `protect: read-only`, and the devices and the pacer
  -- stay as they were.
  pub write_tag_read_only :
      (s : Southbound V D) (now done : ℕ) (cmd : WriteCommand V) (d : D) (w : WriteManager V)
      (tags : List TagConfig)
      → lookup cmd.driver s.drivers ≡ some tags
      → is_read_only tags cmd.tag ≡ true
      → (why : String) × ((write_tag s now done cmd (d, w)).0 ≡ refused why)
        × (contains why "protect: read-only" ≡ true)
        × ((write_tag s now done cmd (d, w)).1.0 ≡ d)
        × ((write_tag s now done cmd (d, w)).1.1.pacer ≡ w.pacer)
  unfolding write_tag refusal
  write_tag_read_only s now done cmd d w tags found protected =
      let why = read_only_reason s.format.quote cmd.tag in
      let reason = reason_read_only s.format.quote tags cmd.tag protected in
      let there = read_only_reason_there s.format.quote cmd.tag in
      (
        why,
        ground (arith, reason, there),
        read_only_reason_permanent s.format.quote cmd.tag,
        ground (arith, reason, there),
        ground (arith, reason, there),
      )
