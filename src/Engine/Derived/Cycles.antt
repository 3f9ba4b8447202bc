-- ===== src/Engine/Derived/Cycles.antt =====
-- engine/derived.go: `detectDerivedCycles`, a depth-first search with the set of tags being visited.
-- Go recurses freely; here each level of the recursion takes one unit of fuel, and there is one more
-- than there are tags. The set that a call fills is emptied again when it returns, so the caller
-- keeps its own.
use core_c.Common.{
  ℕ, zero, suc, String, true, false, none, some, List, [], ◌∷◌, ◌++◌, length, if◌then◌else◌, ◌==◌,
  string_key, is_named,
}
use core_c.Common.Maps.{lookup, insert}
use core_c.Engine.Derived.{QualifiedRef, CompiledDerivedTag, derived_driver_name}

-- An error keeps the names that it lists between arrows.
pub data Verdict : Type 0 where
  no_cycle : Verdict
  cycle : List String → Verdict
  out_of_fuel : Verdict

-- `path[start:]`, where `start` is the first place of the name.
unfoldable pub from_first : String → List String → List String
from_first name [] = []
from_first name (n ∷ ns) = if n == name then n ∷ ns else from_first name ns

-- The loops over the references finish at the first error.
unfoldable pub visit_each {ℓ} : {A : Type ℓ} → (A → Verdict) → List A → Verdict
visit_each f [] = no_cycle
visit_each f (t ∷ ts) = elim (f t) [
  | no_cycle ↦ visit_each f ts
  | cycle ns ↦ cycle ns
  | out_of_fuel ↦ out_of_fuel
]

-- The tags of the references to the driver "derived".
unfoldable pub derived_names : List QualifiedRef → List String
derived_names [] = []
derived_names (q ∷ qs) =
    if q.driver == derived_driver_name then q.tag ∷ derived_names qs else derived_names qs

module _ {P : Type 0} where
  -- A later tag of the same name replaces an earlier one.
  unfoldable pub index_tags :
      List (CompiledDerivedTag P)
      → List (String × CompiledDerivedTag P)
      → List (String × CompiledDerivedTag P)
  unfolding insert
  index_tags [] by_name = by_name
  index_tags (t ∷ ts) by_name = index_tags ts (insert t.config.name t by_name)

  unfoldable pub found_tags :
      List (String × CompiledDerivedTag P) → List String → List (CompiledDerivedTag P)
  unfolding lookup
  found_tags by_name [] = []
  found_tags by_name (v ∷ vs) = elim (lookup v by_name) [
    | none ↦ found_tags by_name vs
    | some t ↦ t ∷ found_tags by_name vs
  ]

  -- The tags that the two loops of `visit` go to, in order.
  unfoldable pub referenced :
      List (String × CompiledDerivedTag P) → CompiledDerivedTag P → List (CompiledDerivedTag P)
  unfolding found_tags derived_names
  referenced by_name t = found_tags by_name (derived_names t.qualified) ++ found_tags by_name t.vars

  unfoldable pub visit :
      List (String × CompiledDerivedTag P)
      → ℕ
      → CompiledDerivedTag P
      → List String
      → List String
      → Verdict
  unfolding is_named from_first visit_each referenced
  visit by_name zero t path visiting = out_of_fuel
  visit by_name (suc fuel) t path visiting = elim (is_named t.config.name visiting) [
    | true ↦ cycle (from_first t.config.name path ++ t.config.name ∷ [])
    | false ↦
        visit_each
          (λ next. visit by_name fuel next (path ++ t.config.name ∷ []) (t.config.name ∷ visiting))
          (referenced by_name t)
  ]

  unfoldable pub detect_within : ℕ → List (CompiledDerivedTag P) → Verdict
  unfolding visit visit_each index_tags
  detect_within fuel tags = visit_each (λ t. visit (index_tags tags []) fuel t [] []) tags

  unfoldable pub detect_derived_cycles : List (CompiledDerivedTag P) → Verdict
  unfolding detect_within
  detect_derived_cycles tags = detect_within (suc (length tags)) tags
