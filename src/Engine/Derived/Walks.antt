-- ===== src/Engine/Derived/Walks.antt =====
-- engine/derived.go: walks along the references between derived tags.
use mathlib.Core.List.Memᴰ
use mathlib.Core.List.{Memᴰ}
use core_c.Common.{
  is_named, ℕ, ◌≡◌, ◌≢◌, inl, inr, String, true, some, List, [], ◌∷◌, ◌++◌, ◌==◌, string_key,
  Bool-cases, arith,
}
use core_c.Common.Maps.{lookup}
use core_c.Engine.Derived.{QualifiedRef, CompiledDerivedTag, derived_driver_name}
use core_c.Engine.Derived.Cycles.{
  Verdict, from_first, index_tags, found_tags, referenced, visit, derived_names,
}
use core_c.Engine.Derived.Search.{index_tags-holds}
use core_c.Engine.Derived.Names.{
  derived_names_sound, derived_names_complete, found_tags_sound, found_tags_complete,
}

module _ {P : Type 0} where
  -- A tag reads another derived tag, by a qualified reference to the driver "derived" or by a plain
  -- name. Of two tags of one name, the last is meant.
  pub data References (tags : List (CompiledDerivedTag P)) (t u : CompiledDerivedTag P)
      : Type 0 where
    by_qualified :
        (q : QualifiedRef)
        → Memᴰ q t.qualified
        → q.driver ≡ derived_driver_name
        → lookup q.tag (index_tags tags []) ≡ some u
        → References tags t u
    by_name :
        (v : String) → Memᴰ v t.vars → lookup v (index_tags tags []) ≡ some u → References tags t u

  -- A walk along the references, with the names of the tags that it leaves.
  pub data Walk (tags : List (CompiledDerivedTag P))
      : CompiledDerivedTag P → List String → CompiledDerivedTag P → Type 0 where
    here : {t : CompiledDerivedTag P} → Walk tags t [] t
    along :
        {t u v : CompiledDerivedTag P} {ns : List String}
        → References tags t u
        → Walk tags u ns v
        → Walk tags t (t.config.name ∷ ns) v

  module _ (tags : List (CompiledDerivedTag P)) where
    named-Mem :
        (v : String) (u : CompiledDerivedTag P)
        → lookup v (index_tags tags []) ≡ some u
        → Memᴰ u tags
    unfolding lookup
    named-Mem v u =
        index_tags-holds (λ y. Memᴰ y tags) tags [] (λ y j. j) (λ w y j. ground arith) v u

    pub References-Memᴰ : (t u : CompiledDerivedTag P) → References tags t u → Memᴰ u tags
    References-Memᴰ t u (by_qualified q m d l) = named-Mem q.tag u l
    References-Memᴰ t u (by_name v m l) = named-Mem v u l

    -- The tags that `visit` goes to are those that a tag references.
    pub referenced-References :
        (t u : CompiledDerivedTag P)
        → Memᴰ u (referenced (index_tags tags []) t)
        → References tags t u
    unfolding referenced
    referenced-References t u r =
        elim (Memᴰ.append_cases (found_tags (index_tags tags []) (derived_names t.qualified)) r) [
          | inl m ↦
              let (v, n, l) =
                found_tags_sound (index_tags tags []) (derived_names t.qualified) u m in
              let (q, k, d, e) = derived_names_sound t.qualified v n in by_qualified q k d (rw e l)
          | inr m ↦
              let (v, n, l) = found_tags_sound (index_tags tags []) t.vars u m in by_name v n l
        ]

    pub References-referenced :
        (t u : CompiledDerivedTag P)
        → References tags t u
        → Memᴰ u (referenced (index_tags tags []) t)
    unfolding referenced
    References-referenced t u (by_qualified q m d l) = Memᴰ.append_left _ (
        found_tags_complete (index_tags tags []) (derived_names t.qualified) q.tag u
          (derived_names_complete t.qualified q m d) l)
    References-referenced t u (by_name v m l) =
        Memᴰ.append_right (found_tags (index_tags tags []) (derived_names t.qualified))
          (found_tags_complete (index_tags tags []) t.vars v u m l)

    pub Walk-append :
        (s t u : CompiledDerivedTag P) (ns : List String)
        → Walk tags s ns t
        → References tags t u
        → Walk tags s (ns ++ t.config.name ∷ []) u
    Walk-append s t u ns here r = along r here
    Walk-append s t u ns (along {u = v} {ns = rest} r0 w) r = along r0 (Walk-append v t u rest w r)

    -- The part of a walk from the first tag of a name on.
    pub Walk-from_first :
        (n : String) (s t : CompiledDerivedTag P) (ns : List String)
        → Walk tags s ns t
        → Memᴰ s tags
        → is_named n ns ≡ true
        → (s' : CompiledDerivedTag P) × Memᴰ s' tags
          × Walk tags s' (from_first n ns) t
          × (from_first n ns ≢ [])
          × (s'.config.name ≡ n)
    unfolding is_named from_first
    Walk-from_first n s t ns here m h = ground arith
    Walk-from_first n s t ns (along {u = v} {ns = rest} r w) m h =
        elim (Bool-cases (s.config.name == n)) [
          | inl e ↦
              rw e
                (s, m, along r w, ground arith, ground (arith, string_key.same_iff s.config.name n))
          | inr e ↦ rw e (Walk-from_first n v t rest w (References-Memᴰ s v r) (ground arith))
        ]

    abbrev pub visits :
        ℕ → CompiledDerivedTag P → List String → List String → CompiledDerivedTag P → Verdict
    visits fuel t path visiting u =
        visit (index_tags tags []) fuel u (path ++ t.config.name ∷ []) (t.config.name ∷ visiting)
