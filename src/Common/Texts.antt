-- ===== src/Common/Texts.antt =====
-- Substrings: `strings.Contains`, and Go's `+` on strings.
use Prim.Native.Char.{code}
use Prim.Native.String.{String}
use mathlib.Core.Path.{◌≡◌, refl}
use mathlib.Core.Bool.{Bool, true, false, ◌&&◌, ◌||◌}
use native.Mathlib.Omega.{arith}
use core_c.Common.Tests.{nat_beq, leb}
use Prim.Native.Nat.{ℕ}

infixr 65 ◌<>◌
unfoldable pub ◌<>◌ : String → String → String
String.[] <> t = t
(String.◌∷◌ c s) <> t = String.◌∷◌ c (s <> t)

unfoldable pub has_prefix : String → String → Bool
has_prefix s String.[] = true
has_prefix String.[] (String.◌∷◌ d p) = false
has_prefix (String.◌∷◌ c s) (String.◌∷◌ d p) = nat_beq (code c) (code d) && has_prefix s p

unfoldable pub contains : String → String → Bool
unfolding has_prefix
contains String.[] p = has_prefix String.[] p
contains (String.◌∷◌ c s) p = has_prefix (String.◌∷◌ c s) p || contains s p

has_prefix-<> : (p t : String) → has_prefix (p <> t) p ≡ true
unfolding ◌<>◌ has_prefix
has_prefix-<> String.[] String.[] = refl
has_prefix-<> String.[] (String.◌∷◌ c t) = refl
has_prefix-<> (String.◌∷◌ c p) t = ground (arith, has_prefix-<> p t)

contains_of_has_prefix : (s p : String) → has_prefix s p ≡ true → contains s p ≡ true
unfolding contains
contains_of_has_prefix String.[] p h = h
contains_of_has_prefix (String.◌∷◌ c s) p h = ground arith

-- A text holds what it was put together from.
pub contains_middle : (s p t : String) → contains (s <> (p <> t)) p ≡ true
unfolding ◌<>◌ contains
contains_middle String.[] p t = contains_of_has_prefix (p <> t) p (has_prefix-<> p t)
contains_middle (String.◌∷◌ c s) p t = ground (arith, contains_middle s p t)

pub contains-<> : (s t p : String) → contains t p ≡ true → contains (s <> t) p ≡ true
unfolding ◌<>◌ contains
contains-<> String.[] t p h = h
contains-<> (String.◌∷◌ c s) t p h = ground (arith, contains-<> s t p h)

-- `unicode.IsSpace`.
is_space : ℕ → Bool
is_space c =
    (leb 9 c && leb c 13)
    || nat_beq c 32
    || nat_beq c 133
    || nat_beq c 160
    || nat_beq c 5760
    || (leb 8192 c && leb c 8202)
    || nat_beq c 8232
    || nat_beq c 8233
    || nat_beq c 8239
    || nat_beq c 8287
    || nat_beq c 12288

-- `strings.TrimSpace(s) == ""`.
unfoldable pub is_blank : String → Bool
unfolding is_space
is_blank String.[] = true
is_blank (String.◌∷◌ c s) = is_space (code c) && is_blank s
