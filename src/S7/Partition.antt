-- ===== src/S7/Partition.antt =====
-- driver/s7/s7_merge.go: no tag is lost or read twice.
use core_c.Common.{
  ℕ, ◌+◌, ◌≡◌, refl, ap, ◌∙◌, inl, inr, Bool, List, [], ◌∷◌, ◌++◌, arith, Bool-cases, leb,
  if◌then◌else◌,
}
use core_c.Common.Sort.{insert_by, sort_by}
use core_c.S7.{
  S7ReadTag, S7ReadSegment, Group, GroupKey, is_same_key, key_of, add_to_group, group_tags,
  sort_keys, new_segment, takes, extend, append_merged_segment, plan_group, plan_groups,
  plan_s7_read_segments,
}

module _ {ℓ} {A : Type ℓ} (p : A → Bool) where
  abbrev pub count : List A → ℕ
  count [] = 0
  count (x ∷ xs) = (if p x then 1 else 0) + count xs

  count-append : (xs ys : List A) → count (xs ++ ys) ≡ count xs + count ys
  count-append [] ys = omega arith
  count-append (x ∷ xs) ys = omega (arith, count-append xs ys)

  count-insert_by :
      (key : A → ℕ) (a : A) (xs : List A) → count (insert_by key a xs) ≡ count (a ∷ xs)
  unfolding insert_by
  count-insert_by key a [] = refl
  count-insert_by key a (x ∷ xs) = elim (Bool-cases (leb (key a) (key x))) [
    | inl first ↦ rw first refl
    | inr later ↦ rw later (omega (arith, count-insert_by key a xs))
  ]

  count-sort_by : (key : A → ℕ) (xs : List A) → count (sort_by key xs) ≡ count xs
  unfolding sort_by
  count-sort_by key [] = refl
  count-sort_by key (x ∷ xs) =
      count-insert_by key x (sort_by key xs)
      ∙ ap (λ n. (if p x then 1 else 0) + n) (count-sort_by key xs)

module _ {F : Type 0} (p : S7ReadTag F → Bool) where
  -- The entries of all segments, and the tags of all groups, of which `p` holds.
  abbrev pub count_entries : List (S7ReadSegment F) → ℕ
  count_entries [] = 0
  count_entries (s ∷ ss) = count p s.entries + count_entries ss

  abbrev count_groups : List (Group F) → ℕ
  count_groups [] = 0
  count_groups (g ∷ gs) = count p g.tags + count_groups gs

  count-append_merged_segment :
      (ss : List (S7ReadSegment F)) (area db : ℕ) (tag : S7ReadTag F)
      → count_entries (append_merged_segment ss area db tag) ≡ count_entries ss + count p (tag ∷ [])
  unfolding append_merged_segment new_segment extend
  count-append_merged_segment [] area db tag = omega arith
  count-append_merged_segment (s ∷ []) area db tag = elim (Bool-cases (takes s area db tag)) [
    | inl fits ↦ rw fits (omega (arith, count-append p s.entries (tag ∷ [])))
    | inr full ↦ rw full (omega arith)
  ]
  count-append_merged_segment (s ∷ t ∷ ss) area db tag =
      omega (arith, count-append_merged_segment (t ∷ ss) area db tag)

  count-plan_group :
      (ss : List (S7ReadSegment F)) (k : GroupKey) (tags : List (S7ReadTag F))
      → count_entries (plan_group ss k tags) ≡ count_entries ss + count p tags
  unfolding plan_group
  count-plan_group ss k [] = omega arith
  count-plan_group ss k (tag ∷ tags) = omega (
    arith,
    count-plan_group (append_merged_segment ss k.area k.db_number tag) k tags,
    count-append_merged_segment ss k.area k.db_number tag,
  )

  count-plan_groups :
      (ss : List (S7ReadSegment F)) (gs : List (Group F))
      → count_entries (plan_groups ss gs) ≡ count_entries ss + count_groups gs
  unfolding plan_groups
  count-plan_groups ss [] = omega arith
  count-plan_groups ss (g ∷ gs) =
      let sorted = sort_by (λ (t : S7ReadTag F). t.addr.start) g.tags in
      omega (
        arith,
        count-plan_groups (plan_group ss g.key sorted) gs,
        count-plan_group ss g.key sorted,
        count-sort_by p (λ (t : S7ReadTag F). t.addr.start) g.tags,
      )

  count-add_to_group :
      (tag : S7ReadTag F) (gs : List (Group F))
      → count_groups (add_to_group tag gs) ≡ count_groups gs + count p (tag ∷ [])
  unfolding add_to_group
  count-add_to_group tag [] = omega arith
  count-add_to_group tag (g ∷ gs) = elim (Bool-cases (is_same_key g.key (key_of tag))) [
    | inl here ↦ rw here (omega (arith, count-append p g.tags (tag ∷ [])))
    | inr there ↦ rw there (omega (arith, count-add_to_group tag gs))
  ]

  count-group_tags :
      (tags : List (S7ReadTag F)) (gs : List (Group F))
      → count_groups (group_tags tags gs) ≡ count_groups gs + count p tags
  unfolding group_tags
  count-group_tags [] gs = omega arith
  count-group_tags (tag ∷ tags) gs =
      omega (arith, count-group_tags tags (add_to_group tag gs), count-add_to_group tag gs)

  groups-insert_by :
      (key : Group F → ℕ) (g : Group F) (gs : List (Group F))
      → count_groups (insert_by key g gs) ≡ count_groups (g ∷ gs)
  unfolding insert_by
  groups-insert_by key g [] = refl
  groups-insert_by key g (h ∷ gs) = elim (Bool-cases (leb (key g) (key h))) [
    | inl first ↦ rw first refl
    | inr later ↦ rw later (omega (arith, groups-insert_by key g gs))
  ]

  groups-sort_by :
      (key : Group F → ℕ) (gs : List (Group F)) → count_groups (sort_by key gs) ≡ count_groups gs
  unfolding sort_by
  groups-sort_by key [] = refl
  groups-sort_by key (g ∷ gs) =
      groups-insert_by key g (sort_by key gs) ∙ ap (λ n. count p g.tags + n) (groups-sort_by key gs)

  -- For every test on tags, the entries of the planner's segments that pass it are as many as the
  -- tags that pass it: no tag is lost and none is read twice.
  pub count-plan_s7_read_segments :
      (tags : List (S7ReadTag F)) → count_entries (plan_s7_read_segments tags) ≡ count p tags
  unfolding plan_s7_read_segments sort_keys
  count-plan_s7_read_segments tags = omega (
    arith,
    count-plan_groups [] (sort_keys (group_tags tags [])),
    groups-sort_by (λ (g : Group F). g.key.area)
        (sort_by (λ (g : Group F). g.key.db_number) (group_tags tags [])),
    groups-sort_by (λ (g : Group F). g.key.db_number) (group_tags tags []),
    count-group_tags tags [],
  )
