-- ===== src/Engine/Derived.antt =====
-- engine/derived.go: the derived tags' configuration. `P` stands for a compiled expression of the
-- package expr. A duration is a number of nanoseconds. The texts of errors are left out: an error
-- keeps the names that its text shows.
pub mod Cycles
pub mod Search
pub mod Names
pub mod Walks
pub mod Fuel
pub mod Acyclic
pub mod Compile
pub mod Swap
pub mod Environment
pub mod Evaluate
pub mod Resolution
pub mod Rounds
pub mod Honest
mod Tests
use core_c.Common.{
  ℕ, ◌*◌, ◌^◌, String, Bool, true, false, ◌||◌, Option, none, some, List, [], ◌∷◌, ltb,
  if◌then◌else◌, ◌==◌, string_key,
}
use core_c.Core.{DataType}

pub record DerivedTagConfig : Type 0 where
  pub name : String
  pub expr : String
  pub type : DataType
  pub group : String
  pub interval : String
  pub unit : String
  pub on_missing : String
  pub stale_guard : String

pub record QualifiedRef : Type 0 where
  pub driver : String
  pub tag : String

pub data OnMissingPolicy : Type 0 where
  skip bad_quality zero_value : OnMissingPolicy

pub record CompiledDerivedTag (P : Type 0) : Type 0 where
  pub config : DerivedTagConfig
  pub program : P
  pub vars : List String
  pub qualified : List QualifiedRef
  pub interval : ℕ
  pub stale_guard : ℕ
  pub on_missing : OnMissingPolicy

abbrev pub derived_driver_name : String
derived_driver_name = "derived"
