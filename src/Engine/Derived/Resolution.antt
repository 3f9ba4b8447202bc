-- ===== src/Engine/Derived/Resolution.antt =====
-- engine/derived.go: what the loops of `buildEnv` leave.
use mathlib.Core.List.Memᴰ
use mathlib.Core.List.{Memᴰ}
use core_c.Common.{
  ℕ, ◌≡◌, ◌≢◌, ◌⊎◌, inl, inr, refl, ◌∙◌, String, ◌&&◌, Option, none, some, List, [], ◌∷◌,
  if◌then◌else◌, ◌==◌, string_key, Bool-cases, Option-cases, All, arith,
}
use core_c.Common.Maps.{lookup, insert, lookup-insert}
use core_c.Core.{DataPoint}
use core_c.Engine.Cache.{LatestCache, get}
use core_c.Engine.Derived.{QualifiedRef}
use core_c.Values.{GoValue, Floats, zero_float}
use core_c.Engine.Derived.Environment.{
  EnvValue, number, driver_env, Environment, tags_of, assign, inject_missing, numeric, bind_var,
  bind_ref, bind_vars, bind_refs, build_env,
}

module _ {F : Type 0} where
  -- `driver.tag` in an expression: the member of the driver's map.
  unfoldable pub member : List (String × EnvValue F) → QualifiedRef → Option F
  member env q = lookup q.tag (tags_of env q.driver)

  member-assign :
      (driver tag : String) (x : F) (env : List (String × EnvValue F)) (q : QualifiedRef)
      → member (assign driver tag x env) q
        ≡ (if driver == q.driver && tag == q.tag then some x else member env q)
  unfolding assign tags_of member
  member-assign driver tag x env q = ground (
    arith,
    lookup-insert driver q.driver (driver_env (insert tag x (tags_of env driver))) env,
    lookup-insert tag q.tag x (tags_of env driver),
    string_key.same_iff driver q.driver,
  )

  lookup-assign :
      (driver tag v : String) (x : F) (env : List (String × EnvValue F))
      → driver ≢ v
      → lookup v (assign driver tag x env) ≡ lookup v env
  unfolding assign
  lookup-assign driver tag v x env apart = ground (
    arith,
    lookup-insert driver v (driver_env (insert tag x (tags_of env driver))) env,
    string_key.same_iff driver v,
  )

module _ {F G : Type 0} (floats : Floats F G) where
  -- The number that stands for a point in an expression: 0 where there is none.
  pub number_of : Option (DataPoint (GoValue F G)) → F
  number_of o = elim (numeric floats o) [ none ↦ zero_float floats | some (p, x) ↦ x ]

  -- What one round does to the three results, whether or not the reference has a number.
  env-bind_ref :
      (now guard : ℕ) (cache : LatestCache (GoValue F G)) (q : QualifiedRef) (e : Environment F)
      → q.driver ≢ ""
      → (bind_ref floats now guard cache q e).env
        ≡ assign q.driver q.tag (number_of (get cache q.driver q.tag)) e.env
  unfolding bind_ref number_of inject_missing
  env-bind_ref now guard cache q e named =
      elim (Option-cases (numeric floats (get cache q.driver q.tag))) [
        | inl h ↦ ground (arith, string_key.same_iff q.driver "")
        | inr (px, h) ↦ ground arith
      ]

  env-bind_var :
      (now guard : ℕ) (snapshot : List (String × DataPoint (GoValue F G))) (v : String)
      (e : Environment F)
      → (bind_var floats now guard snapshot v e).env
        ≡ insert v (number (number_of (lookup v snapshot))) e.env
  unfolding bind_var number_of inject_missing
  env-bind_var now guard snapshot v e = elim (Option-cases (numeric floats (lookup v snapshot))) [
    | inl h ↦ ground arith
    | inr (px, h) ↦ ground arith
  ]

  module _ (now guard : ℕ) (cache : LatestCache (GoValue F G)) where
    member-bind_ref :
        (q r : QualifiedRef) (e : Environment F)
        → q.driver ≢ ""
        → q.driver ≡ r.driver
        → q.tag ≡ r.tag
        → member (bind_ref floats now guard cache q e).env r
          ≡ some (number_of (get cache r.driver r.tag))
    member-bind_ref q r e named d t =
        rw (env-bind_ref now guard cache q e named, d, t)
          (ground (
            arith,
            member-assign r.driver r.tag (number_of (get cache r.driver r.tag)) e.env r,
            string_key.same_iff r.driver r.driver,
            string_key.same_iff r.tag r.tag,
          ))

    member-bind_ref_kept :
        (q r : QualifiedRef) (e : Environment F)
        → q.driver ≢ ""
        → member e.env r ≡ some (number_of (get cache r.driver r.tag))
        → member (bind_ref floats now guard cache q e).env r
          ≡ some (number_of (get cache r.driver r.tag))
    member-bind_ref_kept q r e named h =
        elim (Bool-cases (q.driver == r.driver && q.tag == r.tag)) [
          | inl k ↦
              member-bind_ref q r e named (ground (arith, string_key.same_iff q.driver r.driver))
                (ground (arith, string_key.same_iff q.tag r.tag))
          | inr k ↦ rw (env-bind_ref now guard cache q e named) (
              ground (
                arith,
                member-assign q.driver q.tag (number_of (get cache q.driver q.tag)) e.env r,
              ))
        ]

    member-bind_refs :
        (qs : List QualifiedRef) (r : QualifiedRef) (e : Environment F)
        → All (λ (q : QualifiedRef). q.driver ≢ "") qs
        → (member e.env r ≡ some (number_of (get cache r.driver r.tag))) ⊎ Memᴰ r qs
        → member (bind_refs floats now guard cache qs e).env r
          ≡ some (number_of (get cache r.driver r.tag))
    unfolding bind_refs
    member-bind_refs [] r e named (inl h) = h
    member-bind_refs [] r e named (inr m) = absurd (Memᴰ.not-nil m)
    member-bind_refs (q ∷ qs) r e named (inl h) =
        member-bind_refs qs r (bind_ref floats now guard cache q e) named.1
          (inl (member-bind_ref_kept q r e named.0 h))
    member-bind_refs (q ∷ qs) r e named (inr m) =
        member-bind_refs qs r (bind_ref floats now guard cache q e) named.1
          (elim (Memᴰ.cases_cons m) [
            | inl same ↦ inl (member-bind_ref q r e named.0 (cc) (cc))
            | inr there ↦ inr there
          ])

    -- A plain name keeps its number where no reference has it for its driver.
    lookup-bind_refs :
        (qs : List QualifiedRef) (v : String) (e : Environment F)
        → All (λ (q : QualifiedRef). (q.driver ≢ "") × (q.driver ≢ v)) qs
        → lookup v (bind_refs floats now guard cache qs e).env ≡ lookup v e.env
    unfolding bind_refs
    lookup-bind_refs [] v e apart = refl
    lookup-bind_refs (q ∷ qs) v e apart =
        rw
          (
            lookup-bind_refs qs v (bind_ref floats now guard cache q e) apart.1,
            env-bind_ref now guard cache q e apart.0.0,
          )
          (lookup-assign q.driver q.tag v (number_of (get cache q.driver q.tag)) e.env apart.0.1)

  lookup-bind_vars :
      (now guard : ℕ) (snapshot : List (String × DataPoint (GoValue F G))) (vs : List String)
      (w : String) (e : Environment F)
      → (lookup w e.env ≡ some (number (number_of (lookup w snapshot)))) ⊎ Memᴰ w vs
      → lookup w (bind_vars floats now guard snapshot vs e).env
        ≡ some (number (number_of (lookup w snapshot)))
  unfolding bind_vars
  lookup-bind_vars now guard snapshot [] w e (inl h) = h
  lookup-bind_vars now guard snapshot [] w e (inr m) = absurd (Memᴰ.not-nil m)
  lookup-bind_vars now guard snapshot (v ∷ vs) w e h =
      lookup-bind_vars now guard snapshot vs w (bind_var floats now guard snapshot v e)
        (elim (Bool-cases (v == w)) [
          | inl k ↦ inl (
              ground (
                arith,
                env-bind_var now guard snapshot v e,
                lookup-insert v w (number (number_of (lookup v snapshot))) e.env,
                string_key.same_iff v w,
              ))
          | inr k ↦ elim h [
            | inl g ↦ inl (
                ground (
                  arith,
                  env-bind_var now guard snapshot v e,
                  lookup-insert v w (number (number_of (lookup v snapshot))) e.env,
                ))
            | inr m ↦ elim (Memᴰ.cases_cons m) [
              | inl same ↦ absurd (ground (arith, string_key.same_iff v w))
              | inr there ↦ inr there
            ]
          ]
        ])

  -- With qualified references that all name a driver, whatever the cache, each of them has in the
  -- environment the number of exactly its driver's tag, or 0 where that is missing, also when two
  -- drivers share the tag's name, and each plain name that no qualified reference has for its
  -- driver has the number of the flat view, or 0.
  pub build_env_resolves :
      (now guard : ℕ) (vars : List String) (qualified : List QualifiedRef)
      (snapshot : List (String × DataPoint (GoValue F G))) (cache : LatestCache (GoValue F G))
      → All (λ (q : QualifiedRef). q.driver ≢ "") qualified
      → ((r : QualifiedRef)
          → Memᴰ r qualified
          → member (build_env floats now guard vars qualified snapshot cache).env r
            ≡ some (number_of (get cache r.driver r.tag)))
        × ((v : String)
            → Memᴰ v vars
            → All (λ (q : QualifiedRef). (q.driver ≢ "") × (q.driver ≢ v)) qualified
            → lookup v (build_env floats now guard vars qualified snapshot cache).env
              ≡ some (number (number_of (lookup v snapshot))))
  unfolding build_env
  build_env_resolves now guard vars qualified snapshot cache named = (
    λ r m. member-bind_refs now guard cache qualified r _ named (inr m),
    λ v m apart.
        lookup-bind_refs now guard cache qualified v _ apart
        ∙ lookup-bind_vars now guard snapshot vars v _ (inr m),
  )
