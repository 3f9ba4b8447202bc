-- ===== src/Config/Drivers.antt =====
-- config/validate.go: what the checks of the drivers and their tags leave to rely on.
use mathlib.Core.List.{Memᴰ}
use core_c.Common.{
  ℕ, ◌≡◌, ◌≢◌, refl, String, Bool, true, false, ◌||◌, Option, none, List, [], ◌∷◌, map, ◌⊎◌, inl,
  inr, All, ◌==◌, string_key, is_named, IsDistinct, Bool-cases, arith,
}
use core_c.Config.{ValidationError}
use core_c.Config.Tags.{
  TagEntry, DriverEntry, tag_checks, validate_tags, condition_names, trigger_checks,
  validate_driver, validate_drivers, driver_checks, protect_names, is_positive_duration, has_tags,
}
use core_c.Config.Checks.{first_error-none, run_checks-none}

abbrev pub tag_names : List TagEntry → List String
tag_names ts = map (λ (t : TagEntry). t.name) ts

abbrev pub driver_names : List DriverEntry → List String
driver_names ds = map (λ (d : DriverEntry). d.name) ds

-- A gated tag names a condition among the tags, which is not gated itself.
pub IsGated : List TagEntry → TagEntry → Type 0
IsGated ts t =
    (t.triggers ≡ "")
    ⊎ ((c : TagEntry) × Memᴰ c ts
        × (c.name ≡ t.triggers)
        × (c.trigger_group ≢ "")
        × (c.triggers ≡ ""))

module _ (parse : String → Option ℕ) (separated : String → Bool) where
  -- What `validateTag` makes sure of in a single tag.
  pub record IsSound (t : TagEntry) : Type 0 where
    pub protect : is_named t.protect protect_names ≡ true
    pub interval : is_positive_duration parse t.interval ≡ true
    pub one_role : (t.trigger_group ≡ "") ⊎ (t.triggers ≡ "")

  tag_checks-IsSound :
      (names : List String) (t : TagEntry)
      → All (λ (c : Bool × ValidationError). c.0 ≡ true) (tag_checks parse separated names t)
      → IsSound t × (is_named t.name names ≡ false)
  tag_checks-IsSound names t
        (_, (fresh, (_, (_, (_, (interval, (_, (role, (_, (protect, _)))))))))) =
      (record { protect = protect; interval = interval; one_role = either role }, ground arith)
    where
      either :
          (t.trigger_group == "" || t.triggers == "") ≡ true
          → (t.trigger_group ≡ "") ⊎ (t.triggers ≡ "")
      either h = elim (Bool-cases (t.trigger_group == "")) [
        | inl e ↦ inl ((string_key.same_iff t.trigger_group "").0 e)
        | inr e ↦ inr ((string_key.same_iff t.triggers "").0 (ground arith))
      ]

  validate_tags-fresh :
      (names : List String) (ts : List TagEntry) (n : String)
      → validate_tags parse separated names ts ≡ none
      → is_named n names ≡ true
      → is_named n (tag_names ts) ≡ false
  unfolding validate_tags is_named
  validate_tags-fresh names [] n h k = refl
  validate_tags-fresh names (t ∷ ts) n h k =
      let (own, rest) = first_error-none _ _ h in
      let (_, fresh) =
        tag_checks-IsSound names t (run_checks-none (tag_checks parse separated names t) own) in
      ground (arith, validate_tags-fresh (t.name ∷ names) ts n rest, string_key.same_iff t.name n)

  validate_tags-IsSound :
      (names : List String) (ts : List TagEntry)
      → validate_tags parse separated names ts ≡ none
      → IsDistinct (tag_names ts) × All IsSound ts
  unfolding validate_tags is_named
  validate_tags-IsSound names [] h = (tt, tt)
  validate_tags-IsSound names (t ∷ ts) h =
      let (own, rest) = first_error-none _ _ h in
      let (sound, fresh) =
        tag_checks-IsSound names t (run_checks-none (tag_checks parse separated names t) own) in
      let (distinct, all) = validate_tags-IsSound (t.name ∷ names) ts rest in
      (
        (
          validate_tags-fresh (t.name ∷ names) ts t.name rest
              (ground (arith, string_key.same_iff t.name t.name)),
          distinct,
        ),
        (sound, all),
      )

  condition-IsSound :
      (n : String) (ts : List TagEntry)
      → All IsSound ts
      → is_named n (condition_names ts) ≡ true
      → (c : TagEntry) × Memᴰ c ts × (c.name ≡ n) × (c.trigger_group ≢ "") × (c.triggers ≡ "")
  unfolding condition_names is_named
  condition-IsSound n [] sound h = ground arith
  condition-IsSound n (t ∷ ts) sound h = elim (Bool-cases (t.trigger_group == "")) [
    | inl e ↦
        let (c, m, a, g, u) = condition-IsSound n ts sound.1 (ground arith) in
        (c, Memᴰ.tail m, a, g, u)
    | inr e ↦ elim (Bool-cases (t.name == n)) [
      | inr k ↦
          let (c, m, a, g, u) = condition-IsSound n ts sound.1 (ground arith) in
          (c, Memᴰ.tail m, a, g, u)
      | inl k ↦
          let open_group : t.trigger_group ≢ "" =
            ground (arith, string_key.same_iff t.trigger_group "") in
          (t, Memᴰ.head refl, (string_key.same_iff t.name n).0 k, open_group, ungated open_group)
    ]
  ]
    where
      ungated : t.trigger_group ≢ "" → t.triggers ≡ ""
      ungated grouped = elim sound.0.one_role [ inl e ↦ absurd (grouped e) | inr e ↦ e ]

  trigger_checks-IsGated :
      (all ts : List TagEntry)
      → All IsSound all
      → All (λ (c : Bool × ValidationError). c.0 ≡ true) (trigger_checks (condition_names all) ts)
      → All (IsGated all) ts
  unfolding IsGated
  trigger_checks-IsGated all [] sound h = tt
  trigger_checks-IsGated all (t ∷ ts) sound h = (
    elim (Bool-cases (t.triggers == "")) [
      | inl e ↦ inl ((string_key.same_iff t.triggers "").0 e)
      | inr e ↦ inr (condition-IsSound t.triggers all sound (ground arith))
    ],
    trigger_checks-IsGated all ts sound h.1,
  )

  -- What the scheduler relies on in a driver's configuration.
  pub record IsValid (d : DriverEntry) : Type 0 where
    pub tags : d.tags ≢ []
    pub distinct : IsDistinct (tag_names d.tags)
    pub sound : All IsSound d.tags
    pub gated : All (IsGated d.tags) d.tags

  has_some : (ts : List TagEntry) → has_tags ts ≡ true → ts ≢ []
  has_some [] h e = ground arith
  has_some (t ∷ ts) h e = ground arith

  validate_driver-IsValid :
      (registered names : List String) (d : DriverEntry)
      → validate_driver parse separated registered names d ≡ none
      → IsValid d × (is_named d.name names ≡ false)
  unfolding validate_driver
  validate_driver-IsValid registered names d h =
      let (own, more) = first_error-none _ _ h in
      let (tags_ok, triggers_ok) = first_error-none _ _ more in
      let held = run_checks-none (driver_checks registered names d) own in
      let (distinct, sound) = validate_tags-IsSound [] d.tags tags_ok in
      (
        record {
          tags = has_some d.tags held.1.1.1.1.0;
          distinct = distinct;
          sound = sound;
          gated =
              trigger_checks-IsGated d.tags d.tags sound
                (run_checks-none (trigger_checks (condition_names d.tags) d.tags) triggers_ok);
        },
        ground (arith, held.1.0),
      )

  validate_drivers-fresh :
      (registered names : List String) (ds : List DriverEntry) (n : String)
      → validate_drivers parse separated registered names ds ≡ none
      → is_named n names ≡ true
      → is_named n (driver_names ds) ≡ false
  unfolding validate_drivers is_named
  validate_drivers-fresh registered names [] n h k = refl
  validate_drivers-fresh registered names (d ∷ ds) n h k =
      let (own, rest) = first_error-none _ _ h in
      let (_, fresh) = validate_driver-IsValid registered names d own in
      ground (
        arith,
        validate_drivers-fresh registered (d.name ∷ names) ds n rest,
        string_key.same_iff d.name n,
      )

  -- When the check of the drivers passes, no driver's name stands twice, and in each driver there
  -- is a tag, no tag's name stands twice, every tag has a known protection, an interval that is
  -- empty or positive and at most one of the two trigger roles, and each gated tag names a tag of
  -- the same driver that is a condition and not gated itself.
  pub validate_drivers-IsValid :
      (registered names : List String) (ds : List DriverEntry)
      → validate_drivers parse separated registered names ds ≡ none
      → IsDistinct (driver_names ds) × All IsValid ds
  unfolding validate_drivers is_named
  validate_drivers-IsValid registered names [] h = (tt, tt)
  validate_drivers-IsValid registered names (d ∷ ds) h =
      let (own, rest) = first_error-none _ _ h in
      let (valid, _) = validate_driver-IsValid registered names d own in
      let (distinct, all) = validate_drivers-IsValid registered (d.name ∷ names) ds rest in
      (
        (
          validate_drivers-fresh registered (d.name ∷ names) ds d.name rest
              (ground (arith, string_key.same_iff d.name d.name)),
          distinct,
        ),
        (valid, all),
      )
