-- ===== src/Engine/Derived/Acyclic.antt =====
-- engine/derived.go: what `detectDerivedCycles` finds, in terms of walks along the references.
use mathlib.Core.List.{Memᴰ}
use core_c.Common.{
  is_named, ℕ, zero, suc, ◌≡◌, refl, ◌≢◌, inl, inr, String, true, false, List, [], ◌∷◌, ◌++◌,
  length, ◌==◌, string_key, Bool-cases, arith,
}
use core_c.Common.Maps.{same_refl}
use core_c.Engine.Derived.{CompiledDerivedTag}
use core_c.Engine.Derived.Cycles.{
  Verdict, no_cycle, cycle, from_first, index_tags, referenced, visit, detect_within,
  detect_derived_cycles,
}
use core_c.Engine.Derived.Search.{Verdict-cases, visit_each-no_cycle, visit_each-stops}
use core_c.Engine.Derived.Walks.{
  Walk, here, along, referenced-References, References-referenced, Walk-append, Walk-from_first,
  visits,
}
use core_c.Engine.Derived.Fuel.{detect_within_fuel}

module _ {P : Type 0} where
  module _ (tags : List (CompiledDerivedTag P)) where
    -- A walk that comes back to a tag of the name it started from, and its names.
    pub record IsCycle (ns : List String) : Type 0 where
      pub start : CompiledDerivedTag P
      pub finish : CompiledDerivedTag P
      pub left : List String
      pub configured : Memᴰ start tags
      pub walk : Walk tags start left finish
      pub moves : left ≢ []
      pub returns : start.config.name ≡ finish.config.name
      pub names : ns ≡ left ++ finish.config.name ∷ []

    is_named-append :
        (n : String) (path visiting : List String) (name : String)
        → (is_named n visiting ≡ true → is_named n path ≡ true)
        → is_named n (name ∷ visiting) ≡ true
        → is_named n (path ++ name ∷ []) ≡ true
    unfolding is_named
    is_named-append n path visiting name on h = elim (Bool-cases (name == n)) [
      | inl e ↦ last path e
      | inr e ↦ earlier path (on (ground arith))
    ]
      where
        last : (ns : List String) → name == n ≡ true → is_named n (ns ++ name ∷ []) ≡ true
        last [] e = ground arith
        last (m ∷ ns) e = ground (arith, last ns e)

        earlier : (ns : List String) → is_named n ns ≡ true → is_named n (ns ++ name ∷ []) ≡ true
        earlier [] k = ground arith
        earlier (m ∷ ns) k = ground (arith, earlier ns)

    -- Every name being visited is on the path, and the path is a walk to the visited tag.
    visit-IsCycle :
        (fuel : ℕ) (s t : CompiledDerivedTag P) (path visiting ns : List String)
        → Memᴰ s tags
        → Walk tags s path t
        → ((n : String) → is_named n visiting ≡ true → is_named n path ≡ true)
        → visit (index_tags tags []) fuel t path visiting ≡ cycle ns
        → IsCycle ns
    unfolding visit is_named
    visit-IsCycle zero s t path visiting ns m w on h = ground arith
    visit-IsCycle (suc fuel) s t path visiting ns m w on h =
        elim (Bool-cases (is_named t.config.name visiting)) [
          | inl e ↦
              let (s', m', w', moves, same) =
                Walk-from_first tags t.config.name s t path w m (on t.config.name e) in
              record {
                start = s';
                finish = t;
                left = from_first t.config.name path;
                configured = m';
                walk = w';
                moves = moves;
                returns = same;
                names = ground arith;
              }
          | inr e ↦
              let (u, r, g) =
                visit_each-stops (visits tags fuel t path visiting)
                  (referenced (index_tags tags []) t) (cycle ns) (rw (e, visit) at h)
                  (ground arith) in
              visit-IsCycle fuel s u (path ++ t.config.name ∷ []) (t.config.name ∷ visiting) ns m
                (Walk-append tags s t u path w (referenced-References tags t u r))
                (λ n k. is_named-append n path visiting t.config.name (on n) k) g
        ]

    -- A visit without an error makes one of every tag that a walk leads to, with all tags on the
    -- walk being visited.
    visit-no_cycle :
        (fuel : ℕ) (t u : CompiledDerivedTag P) (path visiting ns : List String)
        → visit (index_tags tags []) fuel t path visiting ≡ no_cycle
        → Walk tags t ns u
        → (now : List String) × (is_named u.config.name now ≡ false)
          × ((n : String) → is_named n visiting ≡ true → is_named n now ≡ true)
          × ((n : String) → is_named n ns ≡ true → is_named n now ≡ true)
    unfolding visit is_named
    visit-no_cycle zero t u path visiting ns h w = ground arith
    visit-no_cycle (suc fuel) t u path visiting ns h here =
        elim (Bool-cases (is_named t.config.name visiting)) [
          | inl e ↦ ground arith
          | inr e ↦ (visiting, e, λ n k. k, λ n k. ground arith)
        ]
    visit-no_cycle (suc fuel) t u path visiting ns h (along {u = v} {ns = rest} r w) =
        elim (Bool-cases (is_named t.config.name visiting)) [
          | inl e ↦ ground arith
          | inr e ↦
              let (now, out, kept, walked) =
                visit-no_cycle fuel v u (path ++ t.config.name ∷ []) (t.config.name ∷ visiting) rest
                  (visit_each-no_cycle (visits tags fuel t path visiting)
                    (referenced (index_tags tags []) t) (rw (e, visit) at h) v
                    (References-referenced tags t v r))
                  w in
              (now, out, λ n k. kept n (ground arith), λ n k. ground (arith, kept n, walked n))
        ]

  -- What the verdict says of the tags. No verdict is `out_of_fuel`.
  pub data IsJustified (tags : List (CompiledDerivedTag P)) : Verdict → Type 0 where
    accepted :
        ((s t : CompiledDerivedTag P) (ns : List String)
          → Memᴰ s tags
          → Walk tags s ns t
          → ns ≢ []
          → s.config.name ≢ t.config.name)
        → IsJustified tags no_cycle
    rejected : {ns : List String} → IsCycle tags ns → IsJustified tags (cycle ns)

  -- Whatever the derived tags, duplicates of names included, the search either accepts them, and
  -- then no walk along the references of one or more steps leads from a tag back to its name, or
  -- it returns the names along a cycle: a walk of one or more steps from a configured tag to a tag
  -- of the same name; it never runs out of fuel.
  pub detect_derived_cycles-IsJustified :
      (tags : List (CompiledDerivedTag P)) → IsJustified tags (detect_derived_cycles tags)
  unfolding detect_derived_cycles detect_within is_named
  detect_derived_cycles-IsJustified tags = elim (Verdict-cases (detect_derived_cycles tags)) [
    | inl e ↦ rw e (
        accepted (λ s t ns m w moves same.
          no_return s t ns w moves same (visit_each-no_cycle each tags e s m)))
    | inr (inl (ns, e)) ↦
        let (t, m, g) = visit_each-stops each tags (cycle ns) e (ground arith) in
        rw e (rejected (visit-IsCycle tags (suc (length tags)) t t [] [] ns m here (λ n k. k) g))
    | inr (inr e) ↦ absurd (detect_within_fuel tags 0 (ground arith))
  ]
    where
      each : CompiledDerivedTag P → Verdict
      each t = visit (index_tags tags []) (suc (length tags)) t [] []

      no_return :
          (s t : CompiledDerivedTag P) (ns : List String)
          → Walk tags s ns t
          → ns ≢ []
          → s.config.name ≡ t.config.name
          → each s ≡ no_cycle
          → ⊥
      no_return s t ns here moves same h = moves refl
      no_return s t ns (along {u = v} {ns = rest} r w) moves same h =
          let (now, out, kept, walked) =
            visit-no_cycle tags (suc (length tags)) s t [] [] (s.config.name ∷ rest) h
              (along r w) in
          ground (arith, walked s.config.name, same_refl s.config.name)
