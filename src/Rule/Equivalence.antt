-- ===== src/Rule/Equivalence.antt =====
-- rule/engine.go, `Match`: the driver index compared with a scan of all rules.
use core_c.Common.{ℕ, ◌≡◌, sym, ap, ◌∙◌, inl, inr, List, [], All, Bool-cases, String}
use core_c.Core.{DataPoint}
use core_c.Rule.{
  RuleWrapper, RuleEngine, Stats, MatchResult, match_in_rules, match_merged, match_point, group_of,
  build_index, universal, record_other_misses, terminal_of, is_empty_index, record_misses,
}
use core_c.Rule.Scan.{IsOrdered, IsFiltered, foreign, relevant}
use core_c.Rule.Split.{scan_split, with_misses}
use core_c.Rule.Merge.{merge_lem}
use core_c.Rule.Index.{group_of_lem, record_other_misses_lem}

-- The index and the universal rules are those of the rule list, which is in priority order.
pub record IsBuilt {V : Type 0} (e : RuleEngine V) : Type 0 where
  pub indexed : e.driver_index ≡ build_index e.rules []
  pub universals : e.universal_rules ≡ universal e.rules
  pub ordered : IsOrdered e.rules

module _ {V : Type 0} where
  -- The linear scan over all rules in priority order.
  abbrev pub linear_match : ℕ → RuleEngine V → DataPoint V → List (MatchResult V) × RuleEngine V
  linear_match now e p =
      let (results, st) = match_in_rules now p e.rules e.stats in (results, record e { stats = st })

  -- The merge over the index is the scan over the rules that the point's driver can match.
  pub merged_relevant :
      (now : ℕ) (e : RuleEngine V) (p : DataPoint V)
      → IsBuilt e
      → match_merged now p e.universal_rules (group_of p.driver e.driver_index) e.stats
        ≡ match_in_rules now p (relevant p.driver e.rules) e.stats
  merged_relevant now e p b =
      ap
        (λ (us : List (RuleWrapper V)).
          match_merged now p us (group_of p.driver e.driver_index) e.stats)
        b.universals
      ∙ ap (λ (g : List (RuleWrapper V)). match_merged now p (universal e.rules) g e.stats)
          (ap (λ (index : List (String × List (RuleWrapper V))). group_of p.driver index) b.indexed
            ∙ group_of_lem p.driver e.rules)
      ∙ ap (λ (m : Stats → List (MatchResult V) × Stats). m e.stats)
          (merge_lem now p e.rules b.ordered)

  indexed_scan :
      (now : ℕ) (e : RuleEngine V) (p : DataPoint V)
      → IsBuilt e
      → All (IsFiltered p) e.rules
      → match_in_rules now p e.rules e.stats ≡ (
          let (results, st) =
            match_merged now p e.universal_rules (group_of p.driver e.driver_index) e.stats in
          (results, record_other_misses now (terminal_of results) p.driver e.driver_index st))
  indexed_scan now e p b f =
      scan_split now p e.rules e.stats b.ordered f
      ∙ ap (with_misses now p (foreign p.driver e.rules)) (sym (merged_relevant now e p b))
      ∙ ap (λ (s : Stats). (found.0, s)) misses
    where
      found : List (MatchResult V) × Stats
      found = match_merged now p e.universal_rules (group_of p.driver e.driver_index) e.stats

      misses :
          record_misses now (terminal_of found.0) (foreign p.driver e.rules) found.1
          ≡ record_other_misses now (terminal_of found.0) p.driver e.driver_index found.1
      misses = sym (
          ap
            (λ (index : List (String × List (RuleWrapper V))).
              record_other_misses now (terminal_of found.0) p.driver index found.1)
            b.indexed
          ∙ record_other_misses_lem now (terminal_of found.0) p.driver e.rules found.1)

  -- On an engine whose driver index and universal rules are those of its ordered rule list, and
  -- for a point that no rule scoped to another driver matches, `Match` through the index returns
  -- the same results and leaves the same statistics of every rule as the linear scan over all
  -- rules in priority order.
  pub match_point-linear :
      (now : ℕ) (e : RuleEngine V) (p : DataPoint V)
      → IsBuilt e
      → All (IsFiltered p) e.rules
      → match_point now e p ≡ linear_match now e p
  unfolding match_point
  match_point-linear now e p b f = elim (Bool-cases (is_empty_index e.driver_index)) [
    | inl no_index ↦ rw no_index
    | inr index ↦ rw index (
        ap (λ (r : List (MatchResult V) × Stats). (r.0, record e { stats = r.1 }))
          (sym (indexed_scan now e p b f)))
  ]
