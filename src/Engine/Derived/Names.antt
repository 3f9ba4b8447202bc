-- ===== src/Engine/Derived/Names.antt =====
-- engine/derived.go: the names that `visit` looks up.
use mathlib.Core.List.Memᴰ
use mathlib.Core.List.{Memᴰ}
use core_c.Common.{
  ◌≡◌, refl, sym, ◌∙◌, ap, inl, inr, String, some, List, [], ◌∷◌, ◌==◌, string_key, Bool-cases,
  Option-cases,
}
use core_c.Common.Maps.{lookup}
use core_c.Engine.Derived.{QualifiedRef, CompiledDerivedTag, derived_driver_name}
use core_c.Engine.Derived.Cycles.{found_tags, derived_names}

pub derived_names_sound :
    (qs : List QualifiedRef) (v : String)
    → Memᴰ v (derived_names qs)
    → (q : QualifiedRef) × Memᴰ q qs × (q.driver ≡ derived_driver_name) × (q.tag ≡ v)
unfolding derived_names
derived_names_sound [] v m = absurd (Memᴰ.not-nil m)
derived_names_sound (q ∷ qs) v m = elim (Bool-cases (q.driver == derived_driver_name)) [
  | inl e ↦ elim (Memᴰ.cases_cons (rw (derived_names, e) at m)) [
    | inl here ↦
        (q, Memᴰ.head refl, (string_key.same_iff q.driver derived_driver_name).0 e, sym here)
    | inr there ↦ let (r, k, d, t) = derived_names_sound qs v there in (r, Memᴰ.tail k, d, t)
  ]
  | inr e ↦
      let (r, k, d, t) = derived_names_sound qs v (rw (derived_names, e) at m) in
      (r, Memᴰ.tail k, d, t)
]

pub derived_names_complete :
    (qs : List QualifiedRef) (q : QualifiedRef)
    → Memᴰ q qs
    → q.driver ≡ derived_driver_name
    → Memᴰ q.tag (derived_names qs)
unfolding derived_names
derived_names_complete [] q m d = absurd (Memᴰ.not-nil m)
derived_names_complete (r ∷ qs) q m d = elim (Memᴰ.cases_cons m) [
  | inl here ↦
      rw
        ((string_key.same_iff r.driver derived_driver_name).1
          (sym (ap (λ (x : QualifiedRef). x.driver) here) ∙ d))
        (Memᴰ.head (ap (λ (x : QualifiedRef). x.tag) here))
  | inr there ↦
      let rest = derived_names_complete qs q there d in
      elim (Bool-cases (r.driver == derived_driver_name)) [
        | inl e ↦ rw e (Memᴰ.tail rest)
        | inr e ↦ rw e rest
      ]
]

module _ {P : Type 0} where
  pub found_tags_sound :
      (m : List (String × CompiledDerivedTag P)) (vs : List String) (u : CompiledDerivedTag P)
      → Memᴰ u (found_tags m vs)
      → (v : String) × Memᴰ v vs × (lookup v m ≡ some u)
  unfolding found_tags
  found_tags_sound m [] u k = absurd (Memᴰ.not-nil k)
  found_tags_sound m (v ∷ vs) u k = elim (Option-cases (lookup v m)) [
    | inl e ↦
        let (w, n, l) = found_tags_sound m vs u (rw (found_tags, e) at k) in (w, Memᴰ.tail n, l)
    | inr (t, e) ↦ elim (Memᴰ.cases_cons (rw (found_tags, e) at k)) [
      | inl same ↦ (v, Memᴰ.head refl, e ∙ ap some (sym same))
      | inr there ↦ let (w, n, l) = found_tags_sound m vs u there in (w, Memᴰ.tail n, l)
    ]
  ]

  pub found_tags_complete :
      (m : List (String × CompiledDerivedTag P)) (vs : List String) (v : String)
      (u : CompiledDerivedTag P)
      → Memᴰ v vs
      → lookup v m ≡ some u
      → Memᴰ u (found_tags m vs)
  unfolding found_tags
  found_tags_complete m [] v u n l = absurd (Memᴰ.not-nil n)
  found_tags_complete m (w ∷ vs) v u n l = elim (Memᴰ.cases_cons n) [
    | inl same ↦ rw (found_tags, ap (λ x. lookup x m) (sym same) ∙ l) (Memᴰ.head refl)
    | inr there ↦
        let rest = found_tags_complete m vs v u there l in
        elim (Option-cases (lookup w m)) [
          | inl e ↦ rw (found_tags, e) rest
          | inr (t, e) ↦ rw (found_tags, e) (Memᴰ.tail rest)
        ]
  ]
