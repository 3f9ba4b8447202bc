-- ===== src/Engine/Derived/Honest.antt =====
-- engine/derived.go: what the quality of a derived point says of the points that it is computed from.
use core_c.Common.{
  ℕ, ◌≡◌, ◌≢◌, ◌⊎◌, inl, inr, refl, ap, String, false, not, ◌&&◌, Option, none, some, List, [], ◌∷◌,
  Bool-cases, Option-cases, All, arith, string_key,
}
use core_c.Common.Maps.{lookup}
use core_c.Core.{DataPoint, good}
use core_c.Engine.Cache.{LatestCache, get, get_all}
use core_c.Engine.DataBus.{DataBus, push}
use core_c.Engine.Derived.{
  QualifiedRef, CompiledDerivedTag, OnMissingPolicy, zero_value, skip, bad_quality,
}
use core_c.Values.{GoValue, float64_value, Floats}
use core_c.Engine.Derived.Environment.{EnvValue, Environment, to_float64, build_env}
use core_c.Engine.Derived.Evaluate.{
  nothing_missing, is_skip, value_or_zero, finite, quality_of, point_of, derived_point,
  evaluate_tag,
}
use core_c.Engine.Derived.Rounds.{HasNumber, IsFresh, bind_refs-Binding, bind_vars-Binding}

List-cases : (xs : List String) → (xs ≡ []) ⊎ ((y : String) × (ys : List String) × (xs ≡ y ∷ ys))
List-cases [] = inl refl
List-cases (y ∷ ys) = inr (y, ys, refl)

quality-good :
    {F : Type 0} (policy : OnMissingPolicy) (e : Environment F) (result : Option F)
    → quality_of policy e result ≡ good
    → (e.stale ≡ false)
      × ((x : F) × (result ≡ some x))
      × ((policy ≢ bad_quality) ⊎ (e.missing ≡ []))
unfolding quality_of
quality-good policy e none h = ground arith
quality-good skip e (some x) h = (ground arith, (x, refl), inl (ground arith))
quality-good zero_value e (some x) h = (ground arith, (x, refl), inl (ground arith))
quality-good bad_quality e (some x) h = elim (List-cases e.missing) [
  | inl k ↦ (ground arith, (x, refl), inr k)
  | inr (m, ms, k) ↦ ground arith
]

strict :
    (policy : OnMissingPolicy) (missing : List String)
    → (policy ≢ bad_quality) ⊎ (missing ≡ [])
    → (policy ≢ skip) ⊎ (missing ≡ [])
    → (policy ≡ zero_value) ⊎ (missing ≡ [])
strict skip missing b (inl s) = absurd (s refl)
strict skip missing b (inr m) = inr m
strict bad_quality missing (inl b) s = absurd (b refl)
strict bad_quality missing (inr m) s = inr m
strict zero_value missing b s = inl refl

module _ {F G P : Type 0} (floats : Floats F G)
    (run : P → List (String × EnvValue F) → Option (GoValue F G)) where
  -- The environment in which `evaluate` runs the expression.
  abbrev pub environment_of : LatestCache (GoValue F G) → ℕ → CompiledDerivedTag P → Environment F
  environment_of cache now tag =
      build_env floats now tag.stale_guard tag.vars tag.qualified (get_all cache) cache

  module _ (cache : LatestCache (GoValue F G)) (now : ℕ) (tag : CompiledDerivedTag P) where
    -- Every point that the value is computed from is fresh, none is missing unless it counts as 0,
    -- and the value is the finite number that the expression gives.
    pub record IsBacked (p : DataPoint (GoValue F G)) : Type 0 where
      pub fresh_vars :
          All
            (λ (v : String). IsFresh floats now tag.stale_guard (lookup v (get_all cache)))
            tag.vars
      pub fresh_refs :
          All
            (λ (q : QualifiedRef). IsFresh floats now tag.stale_guard (get cache q.driver q.tag))
            tag.qualified
      pub complete :
          (tag.on_missing ≡ zero_value)
          ⊎ (All (λ (v : String). HasNumber floats (lookup v (get_all cache))) tag.vars
              × All
                  (λ (q : QualifiedRef). HasNumber floats (get cache q.driver q.tag))
                  tag.qualified)
      pub result : GoValue F G
      pub x : F
      pub computed : run tag.program (environment_of cache now tag).env ≡ some result
      pub converted : to_float64 floats result ≡ some x
      pub number : floats.is_nan x ≡ false
      pub bounded : floats.is_inf x ≡ false
      pub stored : p.value ≡ float64_value x

    missing-HasNumber :
        (environment_of cache now tag).missing ≡ []
        → All (λ (v : String). HasNumber floats (lookup v (get_all cache))) tag.vars
          × All (λ (q : QualifiedRef). HasNumber floats (get cache q.driver q.tag)) tag.qualified
    unfolding build_env
    missing-HasNumber h =
        let (h', refs) = (bind_refs-Binding floats now tag.stale_guard cache tag.qualified _).1 h in
        (((bind_vars-Binding floats now tag.stale_guard (get_all cache) tag.vars _).1 h').1, refs)

    stale-IsFresh :
        (environment_of cache now tag).stale ≡ false
        → All
            (λ (v : String). IsFresh floats now tag.stale_guard (lookup v (get_all cache)))
            tag.vars
          × All
              (λ (q : QualifiedRef). IsFresh floats now tag.stale_guard (get cache q.driver q.tag))
              tag.qualified
    unfolding build_env
    stale-IsFresh h =
        let (h', refs) = (bind_refs-Binding floats now tag.stale_guard cache tag.qualified _).0 h in
        (((bind_vars-Binding floats now tag.stale_guard (get_all cache) tag.vars _).0 h').1, refs)

    not_skipped :
        (e : Environment F) (later : ℕ) (p : DataPoint (GoValue F G))
        → derived_point floats run tag e later ≡ some p
        → (tag.on_missing ≢ skip) ⊎ (e.missing ≡ [])
    unfolding derived_point
    not_skipped e later p h = elim (List-cases e.missing) [
      | inl k ↦ inr k
      | inr (m, ms, k) ↦ inl (λ (s : tag.on_missing ≡ skip). ground arith)
    ]

    -- How `derived_point` came to a point.
    derived_point-runs :
        (e : Environment F) (later : ℕ) (p : DataPoint (GoValue F G))
        → derived_point floats run tag e later ≡ some p
        → (result : GoValue F G) × (run tag.program e.env ≡ some result)
          × (point_of floats tag e (finite floats result) later ≡ p)
    unfolding derived_point
    derived_point-runs e later p h =
        elim (Bool-cases (not (nothing_missing e.missing) && is_skip tag.on_missing)) [
          | inl k ↦ ground arith
          | inr k ↦ elim (Option-cases (run tag.program e.env)) [
            | inl r ↦ ground arith
            | inr (result, r) ↦ elim (Option-cases (finite floats result)) [
              | inl f ↦ elim (Bool-cases (is_skip tag.on_missing)) [
                | inl s ↦ ground arith
                | inr s ↦
                    let same : point_of floats tag e none later ≡ p = ground arith in
                    (result, r, rw f same)
              ]
              | inr (x, f) ↦
                  let same : point_of floats tag e (some x) later ≡ p = ground arith in
                  (result, r, rw f same)
            ]
          ]
        ]

    finite-eq-some :
        (result : GoValue F G) (x : F)
        → finite floats result ≡ some x
        → (to_float64 floats result ≡ some x)
          × (floats.is_nan x ≡ false)
          × (floats.is_inf x ≡ false)
    unfolding finite
    finite-eq-some result x h = elim (Option-cases (to_float64 floats result)) [
      | inl k ↦ ground arith
      | inr (y, k) ↦ ground arith
    ]

    abbrev pushed : DataBus (GoValue F G) → Option (DataPoint (GoValue F G)) → DataBus (GoValue F G)
    pushed bus o = elim o [ none ↦ bus | some q ↦ push bus q ]

    -- When an evaluation of a derived tag yields a point of good quality, it pushes exactly that
    -- point, every referenced point that has a number is within the stale guard if there is one,
    -- unless the policy is zero every reference has a number in the cache, and the value is what
    -- the expression gives, a number that is neither NaN nor infinite.
    pub evaluate_good :
        (later : ℕ) (bus : DataBus (GoValue F G)) (p : DataPoint (GoValue F G))
        → derived_point floats run tag (environment_of cache now tag) later ≡ some p
        → p.quality ≡ good
        → IsBacked p × (evaluate_tag floats run cache now later tag bus ≡ push bus p)
    unfolding evaluate_tag point_of value_or_zero
    evaluate_good later bus p h g =
        let e = environment_of cache now tag in
        let (result, r, same) = derived_point-runs e later p h in
        let (calm, (x, f), policy) =
          quality-good tag.on_missing e (finite floats result) (ground arith) in
        let (converted, number, bounded) = finite-eq-some result x f in
        let (fresh_vars, fresh_refs) = stale-IsFresh calm in
        (
          record {
            fresh_vars = fresh_vars;
            fresh_refs = fresh_refs;
            complete = elim (strict tag.on_missing e.missing policy (not_skipped e later p h)) [
              | inl z ↦ inl z
              | inr none_missing ↦ inr (missing-HasNumber none_missing)
            ];
            result = result;
            x = x;
            computed = r;
            converted = converted;
            number = number;
            bounded = bounded;
            stored = ground arith;
          },
          ap (λ (o : Option (DataPoint (GoValue F G))). pushed bus o) h,
        )
