-- ===== src/Config/Tags.antt =====
-- config/validate.go: the checks of drivers and their tags.
use core_c.Common.{
  ℕ, String, Bool, true, false, not, ◌||◌, Option, none, some, List, [], ◌∷◌, is_named, ltb,
  if◌then◌else◌, ◌==◌, string_key,
}
use core_c.Config.{
  ValidationError, name_empty, type_empty, name_repeated, unknown_type, no_tags, address_empty,
  invalid_type, bad_duration, both_triggers, separator_in_group, invalid_protect,
  enforce_without_dead_band, enforce_too_short, dangling_trigger, first_error, run_checks,
  is_known_type, is_not_positive,
}

-- The fields of `core.TagConfig` and `core.DriverConfig` that the checks read. `has_dead_band` says that
-- `DeadBand` is positive.
pub record TagEntry : Type 0 where
  pub name : String
  pub address : String
  pub type : String
  pub interval : String
  pub read_timeout : String
  pub trigger_group : String
  pub triggers : String
  pub protect : String
  pub enforce_interval : String
  pub has_dead_band : Bool

pub record DriverEntry : Type 0 where
  pub name : String
  pub type : String
  pub tags : List TagEntry

abbrev pub data_type_names : List String
data_type_names =
    "bool" ∷ "int8" ∷ "int16" ∷ "int32" ∷ "int64" ∷ "uint8" ∷ "uint16" ∷ "uint32" ∷ "uint64"
    ∷ "float32" ∷ "float64" ∷ "string" ∷ "bytes" ∷ []

abbrev pub protect_names : List String
protect_names = "" ∷ "read-write" ∷ "read-only" ∷ "write-only" ∷ []

-- `validatePositiveDuration`
unfoldable pub is_positive_duration : (String → Option ℕ) → String → Bool
unfolding is_not_positive
is_positive_duration parse s = s == "" || not (is_not_positive (parse s))

-- `enforce < interval`, where both parse.
abbrev pub is_shorter : Option ℕ → Option ℕ → Bool
is_shorter (some a) (some b) = ltb a b
is_shorter (some a) none = false
is_shorter none b = false

abbrev pub enforce_checks : (String → Option ℕ) → TagEntry → List (Bool × ValidationError)
enforce_checks parse t =
    if t.enforce_interval == ""
    then []
    else (t.has_dead_band, enforce_without_dead_band t.name)
      ∷ (is_positive_duration parse t.enforce_interval, bad_duration t.name)
      ∷ (
        t.interval == "" || not (is_shorter (parse t.enforce_interval) (parse t.interval)),
        enforce_too_short t.name,
      )
      ∷ []

-- `validateTag`; `separated` is `strings.ContainsAny(s, " ,;")`.
abbrev pub tag_checks :
    (String → Option ℕ) → (String → Bool) → List String → TagEntry → List (Bool × ValidationError)
tag_checks parse separated names t =
    (not (t.name == ""), name_empty)
    ∷ (not (is_named t.name names), name_repeated t.name)
    ∷ (not (t.address == ""), address_empty t.name)
    ∷ (not (t.type == ""), type_empty)
    ∷ (is_named t.type data_type_names, invalid_type t.type)
    ∷ (is_positive_duration parse t.interval, bad_duration t.name)
    ∷ (is_positive_duration parse t.read_timeout, bad_duration t.name)
    ∷ (t.trigger_group == "" || t.triggers == "", both_triggers t.name)
    ∷ (t.trigger_group == "" || not (separated t.trigger_group), separator_in_group t.name)
    ∷ (is_named t.protect protect_names, invalid_protect t.name)
    ∷ enforce_checks parse t

unfoldable pub validate_tags :
    (String → Option ℕ) → (String → Bool) → List String → List TagEntry → Option ValidationError
unfolding run_checks first_error
validate_tags parse separated names [] = none
validate_tags parse separated names (t ∷ ts) =
    first_error (run_checks (tag_checks parse separated names t))
      (validate_tags parse separated (t.name ∷ names) ts)

unfoldable pub condition_names : List TagEntry → List String
condition_names [] = []
condition_names (t ∷ ts) =
    if t.trigger_group == "" then condition_names ts else t.name ∷ condition_names ts

-- The last loop of `validateDriver`: every tag's name is in its `tagNames` by then.
abbrev pub trigger_checks : List String → List TagEntry → List (Bool × ValidationError)
trigger_checks conditions [] = []
trigger_checks conditions (t ∷ ts) =
    (t.triggers == "" || is_named t.triggers conditions, dangling_trigger t.name t.triggers)
    ∷ trigger_checks conditions ts

abbrev pub has_tags : List TagEntry → Bool
has_tags [] = false
has_tags (t ∷ ts) = true

abbrev pub driver_checks : List String → List String → DriverEntry → List (Bool × ValidationError)
driver_checks registered names d =
    (not (d.name == ""), name_empty)
    ∷ (not (is_named d.name names), name_repeated d.name)
    ∷ (not (d.type == ""), type_empty)
    ∷ (is_known_type registered d.type, unknown_type d.type)
    ∷ (has_tags d.tags, no_tags d.name)
    ∷ []

unfoldable pub validate_driver :
    (String → Option ℕ)
    → (String → Bool)
    → List String
    → List String
    → DriverEntry
    → Option ValidationError
unfolding first_error run_checks validate_tags condition_names
validate_driver parse separated registered names d =
    first_error (run_checks (driver_checks registered names d)) (
      first_error (validate_tags parse separated [] d.tags)
        (run_checks (trigger_checks (condition_names d.tags) d.tags)))

unfoldable pub validate_drivers :
    (String → Option ℕ)
    → (String → Bool)
    → List String
    → List String
    → List DriverEntry
    → Option ValidationError
unfolding validate_driver first_error
validate_drivers parse separated registered names [] = none
validate_drivers parse separated registered names (d ∷ ds) =
    first_error (validate_driver parse separated registered names d)
      (validate_drivers parse separated registered (d.name ∷ names) ds)
