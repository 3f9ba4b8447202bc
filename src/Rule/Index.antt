-- ===== src/Rule/Index.antt =====
-- rule/rule_build.go and rule/engine.go: what the driver index holds, and the misses recorded group by
-- group.
use mathlib.Core.Path.{fun_ext}
use core_c.Common.{
  ℕ, zero, suc, ◌+◌, ◌≡◌, refl, sym, ap, ◌∙◌, inl, inr, true, ◌&&◌, Option, List, [], ◌∷◌, ◌++◌,
  String, arith, if◌then◌else◌, Bool-cases, ◌==◌, string_key, nat_key, append-nil, append_assoc,
}
use core_c.Common.Maps.{lookup, insert, lookup-insert}
use core_c.Rule.{
  RuleWrapper, Stat, Stats, record_miss, update_stat, is_reached, record_misses,
  record_other_misses, group_of, add_to_index, build_index,
}
use core_c.Rule.Scan.{foreign}
use core_c.Rule.Merge.{scoped}

module _ {V : Type 0} where
  group_of-add :
      (driver : String) (w : RuleWrapper V) (index : List (String × List (RuleWrapper V)))
      → group_of driver (add_to_index w index) ≡ (
          if w.rule.driver_filter == driver
          then group_of driver index ++ w ∷ []
          else group_of driver index)
  unfolding add_to_index
  group_of-add driver w index = ground (
    arith,
    string_key.same_iff w.rule.driver_filter driver,
    lookup-insert w.rule.driver_filter driver (group_of w.rule.driver_filter index ++ w ∷ []) index,
  )

  group_of-build :
      (driver : String) (ws : List (RuleWrapper V)) (index : List (String × List (RuleWrapper V)))
      → group_of driver (build_index ws index) ≡ group_of driver index ++ scoped driver ws
  unfolding build_index
  group_of-build driver [] index = sym (append-nil (group_of driver index))
  group_of-build driver (w ∷ ws) index = elim (Bool-cases (w.rule.driver_filter == "")) [
    | inl universal ↦ rw universal (group_of-build driver ws index)
    | inr one ↦ rw one (
        group_of-build driver ws (add_to_index w index)
        ∙ ap (λ (g : List (RuleWrapper V)). g ++ scoped driver ws) (group_of-add driver w index)
        ∙ step)
  ]
    where
      step :
          (if w.rule.driver_filter == driver
              then group_of driver index ++ w ∷ []
              else group_of driver index)
            ++ scoped driver ws
          ≡ group_of driver index
            ++ (if true && w.rule.driver_filter == driver
                then w ∷ scoped driver ws
                else scoped driver ws)
      step = ground (arith, append_assoc (group_of driver index) (w ∷ []) (scoped driver ws))

  -- The group that `Match` looks up.
  pub group_of_lem :
      (driver : String) (ws : List (RuleWrapper V))
      → group_of driver (build_index ws []) ≡ scoped driver ws
  unfolding lookup
  group_of_lem driver ws = group_of-build driver ws []

-- That many misses.
miss_times : ℕ → ℕ → Stat → Stat
miss_times now zero s = s
miss_times now (suc n) s = miss_times now n (record_miss now s)

miss_times-+ :
    (now m n : ℕ) (s : Stat) → miss_times now (m + n) s ≡ miss_times now n (miss_times now m s)
unfolding miss_times
miss_times-+ now zero n s = ap (λ k. miss_times now k s) zero_left
  where
    zero_left : 0 + n ≡ n
    zero_left = omega arith
miss_times-+ now (suc m) n s =
    ap (λ k. miss_times now k s) suc_left ∙ miss_times-+ now m n (record_miss now s)
  where
    suc_left : suc m + n ≡ suc (m + n)
    suc_left = omega arith

module _ {V : Type 0} (t : Option (RuleWrapper V)) (k : ℕ) where
  touch_count : RuleWrapper V → ℕ
  touch_count r = if is_reached t r && k == r.seq then 1 else 0

  -- How many misses the rule at place `k` is given.
  touch_counts : List (RuleWrapper V) → ℕ
  touch_counts [] = 0
  touch_counts (r ∷ rs) = touch_count r + touch_counts rs

  touches-append :
      (rs ss : List (RuleWrapper V)) → touch_counts (rs ++ ss) ≡ touch_counts rs + touch_counts ss
  unfolding touch_counts
  touches-append [] ss = omega arith
  touches-append (r ∷ rs) ss = omega (arith, touches-append rs ss)

  touches_other : String → List (String × List (RuleWrapper V)) → ℕ
  touches_other driver [] = 0
  touches_other driver ((d, rs) ∷ index) =
      (if d == driver then 0 else touch_counts rs) + touches_other driver index

  record_misses_at :
      (now : ℕ) (rs : List (RuleWrapper V)) (st : Stats)
      → record_misses now t rs st k ≡ miss_times now (touch_counts rs) (st k)
  unfolding record_misses touch_counts touch_count update_stat miss_times
  record_misses_at now [] st = refl
  record_misses_at now (r ∷ rs) st =
      record_misses_at now rs
        (if is_reached t r then update_stat r.seq (record_miss now) st else st)
      ∙ ground (
        arith,
        miss_times-+ now 1 (touch_counts rs) (st k),
        miss_times-+ now 0 (touch_counts rs) (st k),
      )

  record_other_misses_at :
      (now : ℕ) (driver : String) (index : List (String × List (RuleWrapper V))) (st : Stats)
      → record_other_misses now t driver index st k
        ≡ miss_times now (touches_other driver index) (st k)
  unfolding record_other_misses touches_other miss_times
  record_other_misses_at now driver [] st = refl
  record_other_misses_at now driver ((d, rs) ∷ index) st = elim (Bool-cases (d == driver)) [
    | inl own ↦
        rw own
          (record_other_misses_at now driver index st ∙ ap (λ n. miss_times now n (st k)) zero_left)
    | inr other ↦ rw other (
        record_other_misses_at now driver index (record_misses now t rs st)
        ∙ ap (miss_times now (touches_other driver index)) (record_misses_at now rs st)
        ∙ sym (miss_times-+ now (touch_counts rs) (touches_other driver index) (st k)))
  ]
    where
      zero_left : touches_other driver index ≡ 0 + touches_other driver index
      zero_left = omega arith

  touches_other-insert :
      (driver key : String) (w : RuleWrapper V) (index : List (String × List (RuleWrapper V)))
      → touches_other driver (insert key (group_of key index ++ w ∷ []) index)
        ≡ touches_other driver index + (if key == driver then 0 else touch_count w)
  unfolding touches_other touch_counts insert lookup
  touches_other-insert driver key w [] = ground arith
  touches_other-insert driver key w ((d, rs) ∷ index) = ground (
    arith,
    string_key.same_iff d key,
    string_key.same_iff d driver,
    string_key.same_iff key driver,
    touches-append rs (w ∷ []),
    touches_other-insert driver key w index,
  )

  touches_other-build :
      (driver : String) (ws : List (RuleWrapper V)) (index : List (String × List (RuleWrapper V)))
      → touches_other driver (build_index ws index)
        ≡ touches_other driver index + touch_counts (foreign driver ws)
  unfolding build_index add_to_index touch_counts
  touches_other-build driver [] index = omega arith
  touches_other-build driver (w ∷ ws) index = elim (Bool-cases (w.rule.driver_filter == "")) [
    | inl universal ↦ rw universal (touches_other-build driver ws index)
    | inr one ↦ rw one (
        touches_other-build driver ws (add_to_index w index)
        ∙ ground (arith, touches_other-insert driver w.rule.driver_filter w index))
  ]

module _ {V : Type 0} where
  -- Group by group or in the order of the rules, the other drivers' misses are the same.
  pub record_other_misses_lem :
      (now : ℕ) (t : Option (RuleWrapper V)) (driver : String) (ws : List (RuleWrapper V))
      (st : Stats)
      → record_other_misses now t driver (build_index ws []) st
        ≡ record_misses now t (foreign driver ws) st
  unfolding touches_other
  record_other_misses_lem now t driver ws st = fun_ext (λ k.
      record_other_misses_at t k now driver (build_index ws []) st
      ∙ ap (λ n. miss_times now n (st k)) (touches_other-build t k driver ws [] ∙ zero_left k)
      ∙ sym (record_misses_at t k now (foreign driver ws) st))
    where
      zero_left :
          (k : ℕ) → 0 + touch_counts t k (foreign driver ws) ≡ touch_counts t k (foreign driver ws)
      zero_left k = omega arith
