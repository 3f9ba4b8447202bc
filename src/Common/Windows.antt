-- ===== src/Common/Windows.antt =====
-- A bounded history that keeps the newest entries: `s = append(s, x)`, then
-- `if len(s) > n { s = s[len(s)-n:] }`.
use Prim.Native.Nat.{ℕ, ◌+◌, ◌-◌, ◌≤◌}
use mathlib.Core.Path.{◌≡◌, ap, sym, ◌∙◌}
use mathlib.Core.List.{List, [], ◌∷◌, ◌++◌, append_assoc, append-nil}
use mathlib.Core.Logic.{inl, inr}
use native.Mathlib.Omega.{arith}
use core_c.Common.Tests.{ltb, if◌then◌else◌, Bool-cases}
use core_c.Common.Lists.{
  length, drop, length-append, length-drop, drop-append, drop-drop, drop_congr,
}

module _ {ℓ} {A : Type ℓ} where
  -- The last `n` entries.
  abbrev pub last_n : ℕ → List A → List A
  last_n n xs = drop (length xs - n) xs

  unfoldable pub trim : ℕ → List A → List A
  trim n xs = if ltb n (length xs) then drop (length xs - n) xs else xs

  unfoldable pub push_bounded : ℕ → List A → A → List A
  unfolding trim
  push_bounded n xs x = trim n (xs ++ x ∷ [])

  unfoldable pub push_all : ℕ → List A → List A → List A
  push_all n xs [] = xs
  push_all n xs (y ∷ ys) = push_all n (push_bounded n xs y) ys

  pub trim_lem : (n : ℕ) (xs : List A) → trim n xs ≡ last_n n xs
  unfolding trim
  trim_lem n xs = elim (Bool-cases (ltb n (length xs))) [
    | inl h ↦ rw h
    | inr h ↦ rw h (drop_congr 0 (length xs - n) xs (ground arith))
  ]

  pub length-last_n : (n : ℕ) (xs : List A) → length (last_n n xs) ≤ n
  length-last_n n xs = omega (arith, length-drop (length xs - n) xs)

  pub length-push_bounded : (n : ℕ) (xs : List A) (x : A) → length (push_bounded n xs x) ≤ n
  unfolding push_bounded
  length-push_bounded n xs x = rw (trim_lem n (xs ++ x ∷ [])) (length-last_n n (xs ++ x ∷ []))

  -- Trimming first loses nothing that a later trimming would keep.
  pub last_n-append_last_n :
      (n : ℕ) (xs ys : List A) → last_n n (last_n n xs ++ ys) ≡ last_n n (xs ++ ys)
  last_n-append_last_n n xs ys =
      ap (λ (zs : List A). drop (length zs - n) zs) (sym cut)
      ∙ drop-drop _ (length xs - n) (xs ++ ys)
      ∙ ap (λ k. drop k (xs ++ ys)) amount
    where
      cut : drop (length xs - n) (xs ++ ys) ≡ last_n n xs ++ ys
      cut = drop-append (length xs - n) xs ys (omega arith)

      amount :
          (length xs - n) + (length (drop (length xs - n) (xs ++ ys)) - n) ≡ length (xs ++ ys) - n
      amount = omega (arith, length-drop (length xs - n) (xs ++ ys), length-append xs ys)

  -- Pushed one at a time, the entries that stay are the newest `n` of all.
  pub push_all_lem :
      (n : ℕ) (xs ys : List A) → length xs ≤ n → push_all n xs ys ≡ last_n n (xs ++ ys)
  unfolding push_all
  push_all_lem n xs [] h = rw (append-nil xs) (drop_congr 0 (length xs - n) xs (omega arith))
  push_all_lem n xs (y ∷ ys) h =
      push_all_lem n (push_bounded n xs y) ys (length-push_bounded n xs y) ∙ step
    where
      step : last_n n (push_bounded n xs y ++ ys) ≡ last_n n (xs ++ y ∷ ys)
      step =
          ap (λ (zs : List A). last_n n (zs ++ ys)) pushed
          ∙ last_n-append_last_n n (xs ++ y ∷ []) ys
          ∙ ap (last_n n) (append_assoc xs (y ∷ []) ys)
        where
          pushed : push_bounded n xs y ≡ last_n n (xs ++ y ∷ [])
          pushed = unfold push_bounded in trim_lem n (xs ++ y ∷ [])
