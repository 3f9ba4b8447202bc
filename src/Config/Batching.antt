-- ===== src/Config/Batching.antt =====
-- config/validate.go: `batchingWarnings` against the batcher that engine/batcher.go makes.
use mathlib.Core.Path.{subst}
use mathlib.Core.List.Memᴰ
use mathlib.Core.List.{Memᴰ}
use core_c.Common.{
  Bool, refl, List, [], ◌∷◌, ℕ, ◌≡◌, ◌∙◌, sym, ap, ◌≢◌, ◌↔◌, String, true, false, Option, none,
  some, ◌==◌, string_key, nat_key, Bool-cases, Option-cases, arith, inl, inr,
}
use core_c.Engine.OfflineBuffer.{OfflineBuffer}
use core_c.Engine.Batcher.{TransportConfig, TransportBatcher, new_transport_batcher}
use core_c.Engine.Batcher.Interval.{
  is_idle, parsed, or_zero, no_batcher, new_batcher_flush, buffered_flush,
}
use core_c.Config.{is_warned, is_not_positive, batching_warnings}

some-not_none : {A : Type 0} (a : A) → some a ≢ none
some-not_none a h = ground arith

some_injective : {A : Type 0} {a b : A} → some a ≡ some b → a ≡ b
some_injective h = ground arith

is_warned-busy :
    (parse : String → Option ℕ) (t : TransportConfig)
    → is_idle t ≡ false
    → (is_warned parse t ≡ true) ↔ (or_zero (parsed parse t) ≡ 0)
unfolding is_warned is_not_positive
is_warned-busy parse t h = elim (Bool-cases (t.flush_interval == "")) [
  | inl e ↦ ground arith
  | inr e ↦ elim (Option-cases (parse t.flush_interval)) [
    | inl k ↦ ground arith
    | inr (d, k) ↦ ground arith
  ]
]

module _ (parse : String → Option ℕ) where
  warned_of :
      (ts : List TransportConfig) (t : TransportConfig)
      → Memᴰ t (batching_warnings parse false ts)
      → is_warned parse t ≡ true
  unfolding batching_warnings
  warned_of [] t m = absurd (Memᴰ.not-nil m)
  warned_of (u ∷ ts) t m = elim (Bool-cases (is_warned parse u)) [
    | inl e ↦ elim (Memᴰ.cases_cons (rw (batching_warnings, e) at m)) [
      | inl here ↦ ap (is_warned parse) here ∙ e
      | inr there ↦ warned_of ts t there
    ]
    | inr e ↦ warned_of ts t (rw (batching_warnings, e) at m)
  ]

  warns_of :
      (ts : List TransportConfig) (t : TransportConfig)
      → Memᴰ t ts
      → is_warned parse t ≡ true
      → Memᴰ t (batching_warnings parse false ts)
  unfolding batching_warnings
  warns_of [] t m w = absurd (Memᴰ.not-nil m)
  warns_of (u ∷ ts) t m w = elim (Memᴰ.cases_cons m) [
    | inl here ↦ rw (ap (is_warned parse) (sym here) ∙ w) (Memᴰ.head here)
    | inr there ↦
        let rest = warns_of ts t there w in
        elim (Bool-cases (is_warned parse u)) [ inl e ↦ rw e (Memᴰ.tail rest) | inr e ↦ rw e rest ]
  ]

  silent : (ts : List TransportConfig) → batching_warnings parse true ts ≡ []
  unfolding batching_warnings
  silent [] = refl
  silent (t ∷ ts) = refl

abbrev pub is_enabled : {V : Type 0} → Option (OfflineBuffer V) → Bool
is_enabled none = false
is_enabled (some ob) = true

module _ {V : Type 0} (parse : String → Option ℕ) (budget : ℕ) where
  is_warned_iff :
      (t : TransportConfig)
      → (is_warned parse t ≡ true) ↔ (
          (b : TransportBatcher V) × (new_transport_batcher parse t none budget ≡ some b)
          × (b.buf.flush_interval ≡ 0))
  unfolding is_warned
  is_warned_iff t = elim (Bool-cases (is_idle t)) [
    | inl idle ↦ (
      ground arith,
      λ w. absurd (some-not_none w.0 (sym w.1 ∙ no_batcher {V = V} parse t budget idle)),
    )
    | inr busy ↦
        let (b, e, z) = new_batcher_flush {V = V} parse t budget busy in
        let (to, from) = is_warned-busy parse t busy in
        (
          λ w. (b, e, z ∙ to w),
          λ w. from (
              sym z
              ∙ ap (λ (c : TransportBatcher V). c.buf.flush_interval) (some_injective (sym e ∙ w.1))
              ∙ w.2),
        )
  ]

  -- A configured transport is among those that `batchingWarnings` warns of exactly when the
  -- batcher that `newTransportBatcher` makes for it exists and has no flush interval, with an
  -- offline buffer as well as without one.
  pub batching_warnings-new_transport_batcher :
      (offline : Option (OfflineBuffer V)) (ts : List TransportConfig) (t : TransportConfig)
      → Memᴰ t ts
      → Memᴰ t (batching_warnings parse (is_enabled offline) ts) ↔ (
          (b : TransportBatcher V) × (new_transport_batcher parse t offline budget ≡ some b)
          × (b.buf.flush_interval ≡ 0))
  batching_warnings-new_transport_batcher none ts t m =
      let (to, from) = is_warned_iff t in
      (λ w. to (warned_of parse ts t w), λ b. warns_of parse ts t m (from b))
  batching_warnings-new_transport_batcher (some ob) ts t m = (
    λ w. absurd (Memᴰ.not-nil (subst (Memᴰ t) (silent parse ts) w)),
    λ w. absurd (buffered_flush parse t budget ob w.0 w.1 w.2),
  )
