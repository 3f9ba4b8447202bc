-- ===== src/Config.antt =====
-- config/validate.go: the checks of a loaded configuration. `lower` is `strings.ToLower`, and the test
-- of `strings.EqualFold` with "drop" is made on the lower case. `parse` is `time.ParseDuration`, where
-- a negative duration stands as 0. An error keeps the names that its text shows.
mod Checks
pub mod Tags
pub mod Batching
pub mod Targets
pub mod Drivers
mod Tests
use core_c.Common.{
  ℕ, String, Bool, true, false, not, ◌&&◌, ◌||◌, Option, none, some, List, [], ◌∷◌, ◌⊎◌, inl, inr,
  nat_key, is_named, ltb, if◌then◌else◌, ◌==◌, string_key, length,
}
use core_c.Common.Ints.{is_positive}
use core_c.Engine.Batcher.{TransportConfig}

-- `core.TransportConfig`: what the batcher reads, the type and the keys of the settings.
pub record TransportEntry : Type 0 where
  pub config : TransportConfig
  pub type : String
  pub setting_keys : List String

-- The fields of `core.RuleConfig` that the checks read; `expression` is `Match`.
pub record RuleConfig : Type 0 where
  pub name : String
  pub expression : String
  pub action : String
  pub continue : Bool
  pub target : String
  pub targets : List String

pub data ValidationError : Type 0 where
  name_empty type_empty action_empty match_empty : ValidationError
  name_repeated unknown_type misplaced_setting unknown_action : String → ValidationError
  drop_continues : String → ValidationError
  target_not_found : String → String → ValidationError
  no_tags address_empty invalid_type bad_duration : String → ValidationError
  both_triggers separator_in_group invalid_protect : String → ValidationError
  enforce_without_dead_band enforce_too_short : String → ValidationError
  dangling_trigger : String → String → ValidationError

-- The first error of two checks.
unfoldable pub first_error :
    Option ValidationError → Option ValidationError → Option ValidationError
first_error none rest = rest
first_error (some e) rest = some e

-- The error of the first condition in a row that does not hold.
unfoldable pub run_checks : List (Bool × ValidationError) → Option ValidationError
run_checks [] = none
run_checks ((ok, e) ∷ cs) = if ok then run_checks cs else some e

abbrev pub misplaced_keys : List String
misplaced_keys =
    "batch-size" ∷ "batch_size" ∷ "flush-interval" ∷ "flush_interval" ∷ "retry-count"
    ∷ "retry_count" ∷ "buffer-size" ∷ "buffer_size" ∷ "fallback" ∷ []

abbrev pub misplaced_checks : List String → List String → List (Bool × ValidationError)
misplaced_checks [] settings = []
misplaced_checks (k ∷ ks) settings =
    (not (is_named k settings), misplaced_setting k) ∷ misplaced_checks ks settings

abbrev pub is_empty_list : List String → Bool
is_empty_list [] = true
is_empty_list (n ∷ ns) = false

unfoldable pub is_known_type : List String → String → Bool
unfolding is_named
is_known_type registered type = is_empty_list registered || is_named type registered

abbrev pub transport_checks :
    List String → List String → TransportEntry → List (Bool × ValidationError)
transport_checks registered names t =
    (not (t.config.name == ""), name_empty)
    ∷ (not (is_named t.config.name names), name_repeated t.config.name)
    ∷ (not (t.type == ""), type_empty)
    ∷ (is_known_type registered t.type, unknown_type t.type)
    ∷ misplaced_checks misplaced_keys t.setting_keys

-- The loop of `validateTransports`, with the names so far.
unfoldable pub validate_transports :
    List String → List String → List TransportEntry → ValidationError ⊎ List String
unfolding run_checks is_known_type is_named
validate_transports registered names [] = inr names
validate_transports registered names (t ∷ ts) =
    elim (run_checks (transport_checks registered names t)) [
      | some e ↦ inl e
      | none ↦ validate_transports registered (t.config.name ∷ names) ts
    ]

-- The loop over `Targets`.
abbrev pub target_checks : List String → String → List String → List (Bool × ValidationError)
target_checks transports rule [] = []
target_checks transports rule (t ∷ ts) =
    (is_named t transports, target_not_found rule t) ∷ target_checks transports rule ts

abbrev pub valid_actions : List String
valid_actions = "forward" ∷ "drop" ∷ "alert" ∷ "transform" ∷ "mirror" ∷ []

abbrev pub rule_checks :
    (String → String) → List String → List String → RuleConfig → List (Bool × ValidationError)
rule_checks lower transports names r =
    (not (r.name == ""), name_empty)
    ∷ (not (is_named r.name names), name_repeated r.name)
    ∷ (not (r.action == ""), action_empty)
    ∷ (is_named (lower r.action) valid_actions, unknown_action r.action)
    ∷ (not (r.expression == ""), match_empty)
    ∷ (not (lower r.action == "drop" && r.continue), drop_continues r.name)
    ∷ (r.target == "" || is_named r.target transports, target_not_found r.name r.target)
    ∷ target_checks transports r.name r.targets

-- The loop of `validateRules`, with the names so far.
unfoldable pub validate_rules :
    (String → String) → List String → List String → List RuleConfig → Option ValidationError
unfolding run_checks first_error is_named
validate_rules lower transports names [] = none
validate_rules lower transports names (r ∷ rs) =
    first_error (run_checks (rule_checks lower transports names r))
      (validate_rules lower transports (r.name ∷ names) rs)

-- One round of `batchingWarnings`: is the transport warned of?
unfoldable pub is_not_positive : Option ℕ → Bool
is_not_positive none = true
is_not_positive (some d) = d == 0

unfoldable pub is_warned : (String → Option ℕ) → TransportConfig → Bool
unfolding is_not_positive
is_warned parse t =
    if not (is_positive t.batch_size) && (t.flush_interval == "") && not (is_positive t.retry_count)
    then false
    else t.flush_interval == "" || is_not_positive (parse t.flush_interval)

-- `batchingWarnings`, with the transports that its texts name.
unfoldable pub batching_warnings :
    (String → Option ℕ) → Bool → List TransportConfig → List TransportConfig
unfolding is_warned
batching_warnings parse buffered [] = []
batching_warnings parse buffered (t ∷ ts) =
    let rest = batching_warnings parse buffered ts in
    if buffered then [] else if is_warned parse t then t ∷ rest else rest
