-- ===== src/S7/Plan.antt =====
-- driver/s7/s7_merge.go: the plan as a whole.
use mathlib.Core.Path.{subst}
use core_c.Common.{ℕ, ◌≤◌, ◌≡◌, inl, inr, false, List, [], ◌∷◌, arith, All, Bool-cases, nat_key}
use core_c.Common.Sort.{sort_by, IsSortedFrom, sort_by-IsSortedBy, All-sort_by}
use core_c.S7.{
  S7ReadTag, S7ReadSegment, Group, GroupKey, is_same_key, append_merged_segment, plan_group,
  plan_groups, plan_s7_read_segments, group_tags, sort_keys, new_segment, takes, extend,
}
use core_c.S7.Segments.{IsAhead, IsPlanned, append-IsPlanned}
use core_c.S7.Groups.{HasKey, IsGrouped, AreDifferent, AreDistinct, sort_keys_lem}

module _ {F : Type 0} where
  abbrev start_of : S7ReadTag F → ℕ
  start_of t = t.addr.start

  append_at :
      (ss : List (S7ReadSegment F)) (k : GroupKey) (tag : S7ReadTag F)
      → HasKey k tag
      → IsAhead k.area k.db_number tag.addr.start ss
      → All IsPlanned ss
      → All IsPlanned (append_merged_segment ss k.area k.db_number tag)
        × IsAhead k.area k.db_number tag.addr.start
            (append_merged_segment ss k.area k.db_number tag)
  append_at ss k tag has =
      subst (λ a. Kept a k.db_number) has.0
        (subst (λ d. Kept tag.addr.area d) has.1 (append-IsPlanned ss tag))
    where
      Kept : ℕ → ℕ → Type 0
      Kept a d =
          IsAhead a d tag.addr.start ss
          → All IsPlanned ss
          → All IsPlanned (append_merged_segment ss a d tag)
            × IsAhead a d tag.addr.start (append_merged_segment ss a d tag)

  IsAhead-later :
      (area db m n : ℕ) (ss : List (S7ReadSegment F))
      → m ≤ n
      → IsAhead area db m ss
      → IsAhead area db n ss
  IsAhead-later area db m n [] h all = tt
  IsAhead-later area db m n (s ∷ ss) h all =
      ((λ a d. omega (arith, all.0 a d)), IsAhead-later area db m n ss h all.1)

  plan_group-IsPlanned :
      (ss : List (S7ReadSegment F)) (k : GroupKey) (n : ℕ) (tags : List (S7ReadTag F))
      → All (HasKey k) tags
      → IsSortedFrom start_of n tags
      → IsAhead k.area k.db_number n ss
      → All IsPlanned ss
      → All IsPlanned (plan_group ss k tags)
  unfolding plan_group
  plan_group-IsPlanned ss k n [] keys sorted ahead all = all
  plan_group-IsPlanned ss k n (tag ∷ tags) keys sorted ahead all =
      let next =
        append_at ss k tag keys.0
          (IsAhead-later k.area k.db_number n tag.addr.start ss sorted.0 ahead) all in
      plan_group-IsPlanned (append_merged_segment ss k.area k.db_number tag) k tag.addr.start tags
        keys.1 sorted.1 next.1 next.0

  -- The segment is not of this group.
  abbrev IsElsewhere : GroupKey → S7ReadSegment F → Type 0
  IsElsewhere k s = is_same_key (record { area = s.area; db_number = s.db_number }) k ≡ false

  elsewhere-IsAhead :
      (k : GroupKey) (n : ℕ) (ss : List (S7ReadSegment F))
      → All (IsElsewhere k) ss
      → IsAhead k.area k.db_number n ss
  unfolding is_same_key
  elsewhere-IsAhead k n [] all = tt
  elsewhere-IsAhead k n (s ∷ ss) all =
      ((λ a d. ground (arith, all.0)), elsewhere-IsAhead k n ss all.1)

  append-IsElsewhere :
      (k j : GroupKey) (tag : S7ReadTag F) (ss : List (S7ReadSegment F))
      → is_same_key k j ≡ false
      → All (IsElsewhere j) ss
      → All (IsElsewhere j) (append_merged_segment ss k.area k.db_number tag)
  unfolding append_merged_segment new_segment extend
  append-IsElsewhere k j tag [] other all = (other, tt)
  append-IsElsewhere k j tag (s ∷ []) other all =
      elim (Bool-cases (takes s k.area k.db_number tag)) [
        | inl fits ↦ rw fits (all.0, tt)
        | inr full ↦ rw full (all.0, (other, tt))
      ]
  append-IsElsewhere k j tag (s ∷ t ∷ ss) other all =
      (all.0, append-IsElsewhere k j tag (t ∷ ss) other all.1)

  plan_group-IsElsewhere :
      (k j : GroupKey) (tags : List (S7ReadTag F)) (ss : List (S7ReadSegment F))
      → is_same_key k j ≡ false
      → All (IsElsewhere j) ss
      → All (IsElsewhere j) (plan_group ss k tags)
  unfolding plan_group
  plan_group-IsElsewhere k j [] ss other all = all
  plan_group-IsElsewhere k j (tag ∷ tags) ss other all =
      plan_group-IsElsewhere k j tags (append_merged_segment ss k.area k.db_number tag) other
        (append-IsElsewhere k j tag ss other all)

  abbrev AreNew : List (S7ReadSegment F) → List (Group F) → Type 0
  AreNew ss = All (λ (g : Group F). All (IsElsewhere g.key) ss)

  AreNew-plan_group :
      (k : GroupKey) (tags : List (S7ReadTag F)) (ss : List (S7ReadSegment F)) (gs : List (Group F))
      → All (AreDifferent k) gs
      → AreNew ss gs
      → AreNew (plan_group ss k tags) gs
  AreNew-plan_group k tags ss [] others new = tt
  AreNew-plan_group k tags ss (g ∷ gs) others new = (
    plan_group-IsElsewhere k g.key tags ss others.0.0 new.0,
    AreNew-plan_group k tags ss gs others.1 new.1,
  )

  plan_groups-IsPlanned :
      (ss : List (S7ReadSegment F)) (gs : List (Group F))
      → AreDistinct gs
      → All IsGrouped gs
      → AreNew ss gs
      → All IsPlanned ss
      → All IsPlanned (plan_groups ss gs)
  unfolding plan_groups
  plan_groups-IsPlanned ss [] d grouped new all = all
  plan_groups-IsPlanned ss (g ∷ gs) d grouped new all =
      plan_groups-IsPlanned (plan_group ss g.key (sort_by start_of g.tags)) gs d.1 grouped.1
        (AreNew-plan_group g.key (sort_by start_of g.tags) ss gs d.0 new.1)
        (plan_group-IsPlanned ss g.key 0 (sort_by start_of g.tags)
          (All-sort_by (HasKey g.key) start_of g.tags grouped.0)
          (sort_by-IsSortedBy start_of g.tags) (elsewhere-IsAhead g.key 0 ss new.0) all)

  AreNew-none : (gs : List (Group F)) → AreNew [] gs
  AreNew-none [] = tt
  AreNew-none (g ∷ gs) = (tt, AreNew-none gs)

  -- In every segment that the planner makes of any tags, each entry is of the segment's area and
  -- block and lies within its bytes, and the segment is at most 480 bytes or just as long as its
  -- first entry.
  pub plan_s7_read_segments-IsPlanned :
      (tags : List (S7ReadTag F)) → All IsPlanned (plan_s7_read_segments tags)
  unfolding plan_s7_read_segments
  plan_s7_read_segments-IsPlanned tags =
      let groups = sort_keys_lem tags in
      plan_groups-IsPlanned [] (sort_keys (group_tags tags [])) groups.0 groups.1
        (AreNew-none (sort_keys (group_tags tags []))) tt
