-- ===== src/Engine/Derived/Rounds.antt =====
-- engine/derived.go: what the stale and missing flags of `buildEnv` say of the points that it finds.
use core_c.Common.{
  ℕ, ◌≤◌, ◌+◌, ◌<◌, ◌≡◌, ◌≢◌, inl, inr, String, false, ◌||◌, Option, none, some, List, [], ◌∷◌,
  ◌++◌, Option-cases, All, arith, string_key,
}
use core_c.Common.Maps.{lookup}
use core_c.Common.Texts.{◌<>◌}
use core_c.Core.{DataPoint}
use core_c.Engine.Cache.{LatestCache, get}
use core_c.Engine.Derived.{QualifiedRef}
use core_c.Values.{GoValue, Floats}
use core_c.Engine.Derived.Environment.{
  Environment, numeric, is_outdated, inject_missing, bind_var, bind_ref, bind_vars, bind_refs,
}

append-not_nil : (xs : List String) (x : String) → xs ++ x ∷ [] ≢ []
append-not_nil [] x h = ground arith
append-not_nil (y ∷ xs) x h = ground arith

module _ {F G : Type 0} (floats : Floats F G) where
  -- The reference has a number.
  pub HasNumber : Option (DataPoint (GoValue F G)) → Type 0
  HasNumber o = (p : DataPoint (GoValue F G)) × (x : F) × (numeric floats o ≡ some (p, x))

  -- A number that the reference has is at most `guard` old, where there is a guard.
  pub IsFresh : ℕ → ℕ → Option (DataPoint (GoValue F G)) → Type 0
  IsFresh now guard o =
      (p : DataPoint (GoValue F G)) (x : F)
      → numeric floats o ≡ some (p, x)
      → 0 < guard
      → now ≤ p.timestamp + guard

  module _ (now guard : ℕ) where
    is_outdated-IsFresh :
        (o : Option (DataPoint (GoValue F G))) (p : DataPoint (GoValue F G)) (x : F)
        → numeric floats o ≡ some (p, x)
        → is_outdated floats now guard p ≡ false
        → IsFresh now guard o
    unfolding is_outdated IsFresh
    is_outdated-IsFresh o p x h k q y g pos = ground arith

    -- One round of a loop of `buildEnv`, for what the reference found_tags.
    Binding : Option (DataPoint (GoValue F G)) → Environment F → Environment F → Type 0
    Binding o e e' =
        (e'.stale ≡ false → (e.stale ≡ false) × IsFresh now guard o)
        × (e'.missing ≡ [] → (e.missing ≡ []) × HasNumber o)

    Binding-missing :
        (o : Option (DataPoint (GoValue F G))) (e e' : Environment F) (name : String)
        → numeric floats o ≡ none
        → e'.stale ≡ e.stale
        → e'.missing ≡ e.missing ++ name ∷ []
        → Binding o e e'
    unfolding Binding IsFresh
    Binding-missing o e e' name h s m = (
      λ k. (calm k, λ p x g pos. ground arith),
      λ k. absurd (append-not_nil e.missing name (ground arith)),
    )
      where
        calm : e'.stale ≡ false → e.stale ≡ false
        calm k = ground arith

    Binding-numeric :
        (o : Option (DataPoint (GoValue F G))) (e e' : Environment F)
        (px : DataPoint (GoValue F G) × F)
        → numeric floats o ≡ some px
        → e'.stale ≡ e.stale || is_outdated floats now guard px.0
        → e'.missing ≡ e.missing
        → Binding o e e'
    unfolding Binding HasNumber
    Binding-numeric o e e' (p, x) h s m = (
      λ k. (ground arith, is_outdated-IsFresh o p x h (ground arith)),
      λ k. (ground arith, (p, x, h)),
    )

    bind_ref-Binding :
        (cache : LatestCache (GoValue F G)) (q : QualifiedRef) (e : Environment F)
        → Binding (get cache q.driver q.tag) e (bind_ref floats now guard cache q e)
    unfolding bind_ref inject_missing
    bind_ref-Binding cache q e = elim (Option-cases (numeric floats (get cache q.driver q.tag))) [
      | inl h ↦
          Binding-missing (get cache q.driver q.tag) e _ (q.driver <> "." <> q.tag) h (ground arith)
            (ground arith)
      | inr (px, h) ↦
          Binding-numeric (get cache q.driver q.tag) e _ px h (ground arith) (ground arith)
    ]

    bind_var-Binding :
        (snapshot : List (String × DataPoint (GoValue F G))) (v : String) (e : Environment F)
        → Binding (lookup v snapshot) e (bind_var floats now guard snapshot v e)
    unfolding bind_var inject_missing
    bind_var-Binding snapshot v e = elim (Option-cases (numeric floats (lookup v snapshot))) [
      | inl h ↦ Binding-missing (lookup v snapshot) e _ v h (ground arith) (ground arith)
      | inr (px, h) ↦ Binding-numeric (lookup v snapshot) e _ px h (ground arith) (ground arith)
    ]

    pub bind_refs-Binding :
        (cache : LatestCache (GoValue F G)) (qs : List QualifiedRef) (e : Environment F)
        → ((bind_refs floats now guard cache qs e).stale ≡ false
            → (e.stale ≡ false)
              × All (λ (q : QualifiedRef). IsFresh now guard (get cache q.driver q.tag)) qs)
          × ((bind_refs floats now guard cache qs e).missing ≡ []
              → (e.missing ≡ [])
                × All (λ (q : QualifiedRef). HasNumber (get cache q.driver q.tag)) qs)
    unfolding bind_refs Binding
    bind_refs-Binding cache [] e = (λ k. (k, tt), λ k. (k, tt))
    bind_refs-Binding cache (q ∷ qs) e =
        let (fresh, complete) = bind_refs-Binding cache qs (bind_ref floats now guard cache q e) in
        let (fresh', complete') = bind_ref-Binding cache q e in
        (
          λ k. let (k', rest) = fresh k in let (k0, first) = fresh' k' in (k0, (first, rest)),
          λ k. let (k', rest) = complete k in let (k0, first) = complete' k' in (k0, (first, rest)),
        )

    pub bind_vars-Binding :
        (snapshot : List (String × DataPoint (GoValue F G))) (vs : List String) (e : Environment F)
        → ((bind_vars floats now guard snapshot vs e).stale ≡ false
            → (e.stale ≡ false) × All (λ (v : String). IsFresh now guard (lookup v snapshot)) vs)
          × ((bind_vars floats now guard snapshot vs e).missing ≡ []
              → (e.missing ≡ []) × All (λ (v : String). HasNumber (lookup v snapshot)) vs)
    unfolding bind_vars Binding
    bind_vars-Binding snapshot [] e = (λ k. (k, tt), λ k. (k, tt))
    bind_vars-Binding snapshot (v ∷ vs) e =
        let (fresh, complete) =
          bind_vars-Binding snapshot vs (bind_var floats now guard snapshot v e) in
        let (fresh', complete') = bind_var-Binding snapshot v e in
        (
          λ k. let (k', rest) = fresh k in let (k0, first) = fresh' k' in (k0, (first, rest)),
          λ k. let (k', rest) = complete k in let (k0, first) = complete' k' in (k0, (first, rest)),
        )
