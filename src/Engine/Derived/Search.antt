-- ===== src/Engine/Derived/Search.antt =====
-- engine/derived.go: the loops and the set of `detectDerivedCycles`.
use mathlib.Core.List.Memᴰ
use mathlib.Core.List.{Memᴰ}
use core_c.Common.{
  is_named, ℕ, suc, ◌+◌, ◌≤◌, ◌≡◌, refl, sym, ◌≢◌, ◌⊎◌, inl, inr, String, false, some, List, [],
  ◌∷◌, length, if◌then◌else◌, ◌==◌, string_key, Bool-cases, Option-cases, arith,
}
use core_c.Common.Maps.{lookup, insert, lookup-insert}
use core_c.Engine.Derived.{CompiledDerivedTag}
use core_c.Engine.Derived.Cycles.{
  Verdict, no_cycle, cycle, out_of_fuel, visit_each, index_tags, found_tags,
}

pub Verdict-cases :
    (v : Verdict) → (v ≡ no_cycle) ⊎ (((ns : List String) × (v ≡ cycle ns)) ⊎ (v ≡ out_of_fuel))
Verdict-cases no_cycle = inl refl
Verdict-cases (cycle ns) = inr (inl (ns, refl))
Verdict-cases out_of_fuel = inr (inr refl)

module _ {A : Type 0} (f : A → Verdict) where
  pub visit_each-no_cycle :
      (ts : List A) → visit_each f ts ≡ no_cycle → (t : A) → Memᴰ t ts → f t ≡ no_cycle
  unfolding visit_each
  visit_each-no_cycle [] h t m = absurd (Memᴰ.not-nil m)
  visit_each-no_cycle (u ∷ ts) h t (Memᴰ.head e) = ground arith
  visit_each-no_cycle (u ∷ ts) h t (Memᴰ.tail m) =
      ground (arith, visit_each-no_cycle ts (ground arith) t m)

  -- Where the loop stops early, one of the visits gave the verdict.
  pub visit_each-stops :
      (ts : List A) (v : Verdict)
      → visit_each f ts ≡ v
      → v ≢ no_cycle
      → (t : A) × Memᴰ t ts × (f t ≡ v)
  unfolding visit_each
  visit_each-stops [] v h n = absurd (n (sym h))
  visit_each-stops (u ∷ ts) v h n = elim (Verdict-cases (f u)) [
    | inl e ↦ let (t, m, g) = visit_each-stops ts v (ground arith) n in (t, Memᴰ.tail m, g)
    | inr (inl (ns, e)) ↦ (u, Memᴰ.head refl, ground arith)
    | inr (inr e) ↦ (u, Memᴰ.head refl, ground arith)
  ]

module _ {P : Type 0} where
  -- How many tags are not being visited.
  abbrev pub remaining : List String → List (CompiledDerivedTag P) → ℕ
  remaining visiting [] = 0
  remaining visiting (t ∷ ts) =
      (if is_named t.config.name visiting then 0 else 1) + remaining visiting ts

  pub remaining_nil : (ts : List (CompiledDerivedTag P)) → remaining [] ts ≡ length ts
  unfolding is_named
  remaining_nil [] = refl
  remaining_nil (t ∷ ts) = omega (arith, remaining_nil ts)

  remaining_mono :
      (n : String) (visiting : List String) (ts : List (CompiledDerivedTag P))
      → remaining (n ∷ visiting) ts ≤ remaining visiting ts
  unfolding is_named
  remaining_mono n visiting [] = omega arith
  remaining_mono n visiting (t ∷ ts) = ground (arith, remaining_mono n visiting ts)

  pub remaining_falls :
      (visiting : List String) (ts : List (CompiledDerivedTag P)) (t : CompiledDerivedTag P)
      → Memᴰ t ts
      → is_named t.config.name visiting ≡ false
      → suc (remaining (t.config.name ∷ visiting) ts) ≤ remaining visiting ts
  unfolding is_named
  remaining_falls visiting [] t m h = absurd (Memᴰ.not-nil m)
  remaining_falls visiting (u ∷ ts) t (Memᴰ.head e) h = ground (
    arith,
    remaining_mono t.config.name visiting ts,
    string_key.same_iff t.config.name u.config.name,
  )
  remaining_falls visiting (u ∷ ts) t (Memᴰ.tail m) h =
      ground (arith, remaining_falls visiting ts t m h)

  module _ (Q : CompiledDerivedTag P → Type 0) where
    -- The index is_named nothing but tags of the list.
    pub index_tags-holds :
        (ts : List (CompiledDerivedTag P)) (m : List (String × CompiledDerivedTag P))
        → ((t : CompiledDerivedTag P) → Memᴰ t ts → Q t)
        → ((v : String) (t : CompiledDerivedTag P) → lookup v m ≡ some t → Q t)
        → (v : String) (t : CompiledDerivedTag P) → lookup v (index_tags ts m) ≡ some t
        → Q t
    unfolding index_tags
    index_tags-holds [] m all old v t h = old v t h
    index_tags-holds (u ∷ ts) m all old w x g =
        index_tags-holds ts (insert u.config.name u m) (λ t k. all t (Memᴰ.tail k)) kept w x g
      where
        kept :
            (v : String) (t : CompiledDerivedTag P)
            → lookup v (insert u.config.name u m) ≡ some t
            → Q t
        kept v t k = elim (Bool-cases (u.config.name == v)) [
          | inl e ↦ all t (Memᴰ.head (ground (arith, lookup-insert u.config.name v u m)))
          | inr e ↦ old v t (ground (arith, lookup-insert u.config.name v u m))
        ]

    pub found_tags-holds :
        (m : List (String × CompiledDerivedTag P))
        → ((v : String) (t : CompiledDerivedTag P) → lookup v m ≡ some t → Q t)
        → (vs : List String) (t : CompiledDerivedTag P) → Memᴰ t (found_tags m vs)
        → Q t
    unfolding found_tags
    found_tags-holds m all [] t k = absurd (Memᴰ.not-nil k)
    found_tags-holds m all (v ∷ vs) t k = elim (Option-cases (lookup v m)) [
      | inl e ↦ found_tags-holds m all vs t (rw (e, found_tags) at k)
      | inr (u, e) ↦ elim (Memᴰ.cases_cons (rw (e, found_tags) at k)) [
        | inl here ↦ all v t (ground arith)
        | inr there ↦ found_tags-holds m all vs t there
      ]
    ]
