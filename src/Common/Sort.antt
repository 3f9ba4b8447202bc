-- ===== src/Common/Sort.antt =====
-- `sort.SliceStable` by a numeric key: insertion sort, which keeps equal keys in order.
use Prim.Native.Nat.{ℕ, suc, ◌≤◌}
use mathlib.Core.Path.{◌≡◌, refl, ap, ◌∙◌}
use mathlib.Core.List.{List, [], ◌∷◌, Perm}
use mathlib.Core.List.Perm
use native.Mathlib.Omega.{arith}
use core_c.Common.Keys.{◌==◌, nat_key}
use core_c.Common.Tests.{leb, if◌then◌else◌, Bool-cases}
use core_c.Common.Lists.{length, All}
use mathlib.Core.Logic.{inl, inr}

module _ {ℓ} {A : Type ℓ} (key : A → ℕ) where
  unfoldable pub insert_by : A → List A → List A
  insert_by a [] = a ∷ []
  insert_by a (x ∷ xs) = if leb (key a) (key x) then a ∷ x ∷ xs else x ∷ insert_by a xs

  unfoldable pub sort_by : List A → List A
  unfolding insert_by
  sort_by [] = []
  sort_by (x ∷ xs) = insert_by x (sort_by xs)

  -- Every key is at least `n`, and the keys do not fall along the list.
  abbrev pub IsSortedFrom : ℕ → List A → Type 0
  IsSortedFrom n [] = Unit {0}
  IsSortedFrom n (x ∷ xs) = (n ≤ key x) × IsSortedFrom (key x) xs

  abbrev pub IsSortedBy : List A → Type 0
  IsSortedBy = IsSortedFrom 0

  insert_by-IsSortedFrom :
      (n : ℕ) (a : A) (xs : List A)
      → n ≤ key a
      → IsSortedFrom n xs
      → IsSortedFrom n (insert_by a xs)
  unfolding insert_by
  insert_by-IsSortedFrom n a [] h s = (h, tt)
  insert_by-IsSortedFrom n a (x ∷ xs) h s = ground (arith, insert_by-IsSortedFrom (key x) a xs)

  pub sort_by-IsSortedBy : (xs : List A) → IsSortedBy (sort_by xs)
  unfolding sort_by
  sort_by-IsSortedBy [] = tt
  sort_by-IsSortedBy (x ∷ xs) =
      insert_by-IsSortedFrom 0 x (sort_by xs) (omega arith) (sort_by-IsSortedBy xs)

  insert_by-perm : (a : A) (xs : List A) → Perm (insert_by a xs) (a ∷ xs)
  unfolding insert_by
  insert_by-perm a [] = Perm.refl _
  insert_by-perm a (x ∷ xs) = elim (Bool-cases (leb (key a) (key x))) [
    | inl h ↦ rw h (Perm.refl _)
    | inr h ↦ rw h (Perm.trans (Perm.cons x (insert_by-perm a xs)) (Perm.swap a x xs))
  ]

  pub sort_by-perm : (xs : List A) → Perm (sort_by xs) xs
  unfolding sort_by
  sort_by-perm [] = Perm.refl _
  sort_by-perm (x ∷ xs) = Perm.trans (insert_by-perm x (sort_by xs)) (Perm.cons x (sort_by-perm xs))

  -- The elements of this key, in their order.
  abbrev pub of_key : ℕ → List A → List A
  of_key n [] = []
  of_key n (x ∷ xs) = let rest = of_key n xs in if key x == n then x ∷ rest else rest

  insert_by-of_key : (n : ℕ) (a : A) (xs : List A) → of_key n (insert_by a xs) ≡ of_key n (a ∷ xs)
  unfolding insert_by
  insert_by-of_key n a [] = refl
  insert_by-of_key n a (x ∷ xs) = ground (arith, insert_by-of_key n a xs)

  pub sort_by-of_key : (n : ℕ) (xs : List A) → of_key n (sort_by xs) ≡ of_key n xs
  unfolding sort_by
  sort_by-of_key n [] = refl
  sort_by-of_key n (x ∷ xs) =
      insert_by-of_key n x (sort_by xs)
      ∙ ap (λ rest. if key x == n then x ∷ rest else rest) (sort_by-of_key n xs)

  length-insert_by : (a : A) (xs : List A) → length (insert_by a xs) ≡ suc (length xs)
  unfolding insert_by
  length-insert_by a [] = refl
  length-insert_by a (x ∷ xs) = ground (arith, length-insert_by a xs)

  pub length-sort_by : (xs : List A) → length (sort_by xs) ≡ length xs
  unfolding sort_by
  length-sort_by [] = refl
  length-sort_by (x ∷ xs) = omega (arith, length-insert_by x (sort_by xs), length-sort_by xs)

module _ {ℓ κ} {A : Type ℓ} (P : A → Type κ) (key : A → ℕ) where
  pub All-insert_by : (a : A) (xs : List A) → P a → All P xs → All P (insert_by key a xs)
  unfolding insert_by
  All-insert_by a [] p all = (p, all)
  All-insert_by a (x ∷ xs) p all = elim (Bool-cases (leb (key a) (key x))) [
    | inl first ↦ rw first (p, all)
    | inr later ↦ rw later (all.0, All-insert_by a xs p all.1)
  ]

  pub All-sort_by : (xs : List A) → All P xs → All P (sort_by key xs)
  unfolding sort_by
  All-sort_by [] all = all
  All-sort_by (x ∷ xs) all = All-insert_by x (sort_by key xs) all.0 (All-sort_by xs all.1)
