-- ===== src/Common/Keys.antt =====
-- The types that key Go's maps, with `==` on them.
use Prim.Native.Nat.{ℕ}
use Prim.Native.String.{String}
use mathlib.Core.Path.{◌≡◌}
use mathlib.Core.Logic.{◌↔◌}
use mathlib.Core.Bool.{Bool, true, false, ◌||◌}
use mathlib.Core.List.{List, [], ◌∷◌}
use text.Mathlib.Text
use text.Mathlib.TextEquality
use core_c.Common.Tests.{nat_beq, nat_beq_iff}

pub record MapKey {ℓ} (K : Type ℓ) : Type ℓ where
  pub same : K → K → Bool
  pub same_iff : (j k : K) → (same j k ≡ true) ↔ (j ≡ k)

instance abbrev pub string_key : MapKey String
string_key = record { same = Text.◌==◌; same_iff = TextEquality.eq_iff }

instance abbrev pub nat_key : MapKey ℕ
nat_key = record { same = nat_beq; same_iff = nat_beq_iff }

infix 50 ◌==◌
abbrev pub ◌==◌ {ℓ} : {K : Type ℓ} ⦃key : MapKey K⦄ → K → K → Bool
◌==◌ ⦃key⦄ j k = key.same j k

-- A set of names, and whether a name is in it.
unfoldable pub is_named : String → List String → Bool
is_named name [] = false
is_named name (n ∷ ns) = n == name || is_named name ns

-- No name stands twice.
abbrev pub IsDistinct : List String → Type 0
IsDistinct [] = Unit
IsDistinct (n ∷ ns) = (is_named n ns ≡ false) × IsDistinct ns
