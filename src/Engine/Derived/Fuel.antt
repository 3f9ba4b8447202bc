-- ===== src/Engine/Derived/Fuel.antt =====
-- engine/derived.go: how deep `detectDerivedCycles` goes.
use mathlib.Core.List.{Memᴰ}
use core_c.Common.{
  is_named, ℕ, zero, suc, ◌+◌, ◌≤◌, ◌≡◌, ◌≢◌, inl, inr, String, List, [], ◌∷◌, ◌++◌, length,
  string_key, Bool-cases, arith,
}
use core_c.Engine.Derived.{CompiledDerivedTag}
use core_c.Engine.Derived.Cycles.{
  out_of_fuel, index_tags, referenced, visit, detect_within, detect_derived_cycles,
}
use core_c.Engine.Derived.Search.{visit_each-stops, remaining, remaining_nil, remaining_falls}
use core_c.Engine.Derived.Walks.{References-Memᴰ, referenced-References, visits}

module _ {P : Type 0} where
  module _ (tags : List (CompiledDerivedTag P)) where
    -- The set being visited grows by one of the tags at each level.
    pub visit_fuel :
        (fuel : ℕ) (t : CompiledDerivedTag P) (path visiting : List String)
        → Memᴰ t tags
        → visit (index_tags tags []) fuel t path visiting ≡ out_of_fuel
        → fuel ≤ remaining visiting tags
    unfolding visit
    visit_fuel zero t path visiting m h = omega arith
    visit_fuel (suc fuel) t path visiting m h =
        elim (Bool-cases (is_named t.config.name visiting)) [
          | inl e ↦ ground arith
          | inr e ↦
              let (u, r, g) =
                visit_each-stops (visits tags fuel t path visiting)
                  (referenced (index_tags tags []) t) out_of_fuel (rw (e, visit) at h)
                  (ground arith) in
              let deeper =
                visit_fuel fuel u (path ++ t.config.name ∷ []) (t.config.name ∷ visiting)
                  (References-Memᴰ tags t u (referenced-References tags t u r)) g in
              omega (arith, remaining_falls visiting tags t m e)
        ]

  pub detect_within_fuel :
      (tags : List (CompiledDerivedTag P)) (more : ℕ)
      → detect_within (suc (length tags + more)) tags ≢ out_of_fuel
  unfolding detect_within
  detect_within_fuel tags more h =
      let (t, m, g) =
        visit_each-stops (λ t. visit (index_tags tags []) (suc (length tags + more)) t [] []) tags
          out_of_fuel h (ground arith) in
      omega (arith, visit_fuel tags (suc (length tags + more)) t [] [] m g, remaining_nil tags)

  -- The fuel is enough.
  pub detect_derived_cycles_ends :
      (tags : List (CompiledDerivedTag P)) → detect_derived_cycles tags ≢ out_of_fuel
  unfolding detect_derived_cycles
  detect_derived_cycles_ends tags h = detect_within_fuel tags 0 (ground arith)
