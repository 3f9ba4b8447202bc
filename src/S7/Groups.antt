-- ===== src/S7/Groups.antt =====
-- driver/s7/s7_merge.go: the groups of `planS7ReadSegments`.
use core_c.Common.{
  ℕ, ◌≡◌, refl, inl, inr, true, false, List, [], ◌∷◌, arith, All, All-append, Bool-cases, leb,
  nat_key,
}
use core_c.Common.Sort.{insert_by, sort_by, All-insert_by, All-sort_by}
use core_c.S7.{S7ReadTag, Group, GroupKey, is_same_key, key_of, add_to_group, group_tags, sort_keys}

module _ {F : Type 0} where
  abbrev pub HasKey : GroupKey → S7ReadTag F → Type 0
  HasKey k t = (t.addr.area ≡ k.area) × (t.addr.db_number ≡ k.db_number)

  abbrev pub IsGrouped : Group F → Type 0
  IsGrouped g = All (HasKey g.key) g.tags

  abbrev pub AreDifferent : GroupKey → Group F → Type 0
  AreDifferent k g = (is_same_key k g.key ≡ false) × (is_same_key g.key k ≡ false)

  abbrev pub AreDistinct : List (Group F) → Type 0
  AreDistinct [] = Unit {0}
  AreDistinct (g ∷ gs) = All (AreDifferent g.key) gs × AreDistinct gs

  insert_by-AreDistinct :
      (key : Group F → ℕ) (g : Group F) (gs : List (Group F))
      → All (AreDifferent g.key) gs
      → AreDistinct gs
      → AreDistinct (insert_by key g gs)
  unfolding insert_by
  insert_by-AreDistinct key g [] new old = (tt, tt)
  insert_by-AreDistinct key g (h ∷ gs) new old = elim (Bool-cases (leb (key g) (key h))) [
    | inl first ↦ rw first (new, old)
    | inr later ↦ rw later (
      All-insert_by (AreDifferent h.key) key g gs (new.0.1, new.0.0) old.0,
      insert_by-AreDistinct key g gs new.1 old.1,
    )
  ]

  sort_by-AreDistinct :
      (key : Group F → ℕ) (gs : List (Group F)) → AreDistinct gs → AreDistinct (sort_by key gs)
  unfolding sort_by
  sort_by-AreDistinct key [] d = d
  sort_by-AreDistinct key (g ∷ gs) d =
      insert_by-AreDistinct key g (sort_by key gs) (All-sort_by (AreDifferent g.key) key gs d.0)
        (sort_by-AreDistinct key gs d.1)

  AreDifferent-add :
      (tag : S7ReadTag F) (k : GroupKey) (gs : List (Group F))
      → is_same_key k (key_of tag) ≡ false
      → All (AreDifferent k) gs
      → All (AreDifferent k) (add_to_group tag gs)
  unfolding add_to_group is_same_key
  AreDifferent-add tag k [] other all = ((other, ground arith), tt)
  AreDifferent-add tag k (g ∷ gs) other all = elim (Bool-cases (is_same_key g.key (key_of tag))) [
    | inl here ↦ rw here all
    | inr there ↦ rw there (all.0, AreDifferent-add tag k gs other all.1)
  ]

  add_to_group-AreDistinct :
      (tag : S7ReadTag F) (gs : List (Group F)) → AreDistinct gs → AreDistinct (add_to_group tag gs)
  unfolding add_to_group
  add_to_group-AreDistinct tag [] d = (tt, tt)
  add_to_group-AreDistinct tag (g ∷ gs) d = elim (Bool-cases (is_same_key g.key (key_of tag))) [
    | inl here ↦ rw here d
    | inr there ↦
        rw there (AreDifferent-add tag g.key gs there d.0, add_to_group-AreDistinct tag gs d.1)
  ]

  same_key_HasKey :
      (k : GroupKey) (tag : S7ReadTag F) → is_same_key k (key_of tag) ≡ true → HasKey k tag
  unfolding is_same_key key_of
  same_key_HasKey k tag e = (ground arith, ground arith)

  add_to_group-IsGrouped :
      (tag : S7ReadTag F) (gs : List (Group F))
      → All IsGrouped gs
      → All IsGrouped (add_to_group tag gs)
  unfolding add_to_group key_of
  add_to_group-IsGrouped tag [] all = (((refl, refl), tt), tt)
  add_to_group-IsGrouped tag (g ∷ gs) all = elim (Bool-cases (is_same_key g.key (key_of tag))) [
    | inl here ↦ rw here (
      All-append (HasKey g.key) g.tags (tag ∷ []) all.0 (same_key_HasKey g.key tag here, tt),
      all.1,
    )
    | inr there ↦ rw there (all.0, add_to_group-IsGrouped tag gs all.1)
  ]

  group_tags_lem :
      (tags : List (S7ReadTag F)) (gs : List (Group F))
      → AreDistinct gs
      → All IsGrouped gs
      → AreDistinct (group_tags tags gs) × All IsGrouped (group_tags tags gs)
  unfolding group_tags
  group_tags_lem [] gs d all = (d, all)
  group_tags_lem (tag ∷ tags) gs d all =
      group_tags_lem tags (add_to_group tag gs) (add_to_group-AreDistinct tag gs d)
        (add_to_group-IsGrouped tag gs all)

  pub sort_keys_lem :
      (tags : List (S7ReadTag F))
      → AreDistinct (sort_keys (group_tags tags []))
        × All IsGrouped (sort_keys (group_tags tags []))
  unfolding sort_keys
  sort_keys_lem tags =
      let l = group_tags_lem tags [] tt tt in
      (
        sort_by-AreDistinct (λ (g : Group F). g.key.area) _
            (sort_by-AreDistinct (λ (g : Group F). g.key.db_number) (group_tags tags []) l.0),
        All-sort_by IsGrouped (λ (g : Group F). g.key.area) _
            (All-sort_by IsGrouped (λ (g : Group F). g.key.db_number) (group_tags tags []) l.1),
      )
