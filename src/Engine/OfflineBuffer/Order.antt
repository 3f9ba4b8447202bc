-- ===== src/Engine/OfflineBuffer/Order.antt =====
-- engine/offlinebuffer.go: the order of the files by their numbers.
use core_c.Common.{
  ℕ, suc, ◌+◌, ◌≤◌, ◌<◌, ◌≡◌, refl, ap, ◌∙◌, inl, inr, Option, none, [], ◌∷◌, ◌++◌, arith, map,
  nat_key, Bool-cases,
}
use core_c.Common.Maps.{lookup, insert, delete, HasDistinctKeys, delete_absent}
use core_c.Common.Sort.{sort_by, insert_by}
use core_c.Engine.OfflineBuffer.{OfflineEntry, OfflineBuffer, Directory, sorted_seqs}

module _ {V : Type 0} where
  -- The numbers rise, from `low` on and below `high`.
  abbrev pub IsAscending : ℕ → ℕ → Directory V → Type 0
  IsAscending low high [] = low ≤ high
  IsAscending low high ((seq, e) ∷ files) = (low ≤ seq) × IsAscending (suc seq) high files

  abbrev pub IsOrdered : OfflineBuffer V → Type 0
  IsOrdered b = IsAscending 0 b.next_seq b.files

  ascending_absent :
      (low high k : ℕ) (files : Directory V)
      → k < low
      → IsAscending low high files
      → lookup k files ≡ none
  unfolding lookup
  ascending_absent low high k [] h a = refl
  ascending_absent low high k ((seq, e) ∷ files) h (l, a) =
      ground (arith, ascending_absent (suc seq) high k files)

  pub ascending-HasDistinctKeys :
      (low high : ℕ) (files : Directory V) → IsAscending low high files → HasDistinctKeys files
  ascending-HasDistinctKeys low high [] a = tt
  ascending-HasDistinctKeys low high ((seq, e) ∷ files) (l, a) = (
    ascending_absent (suc seq) high seq files (omega arith) a,
    ascending-HasDistinctKeys (suc seq) high files a,
  )

  pub IsAscending-wider :
      (low low' high high' : ℕ) (files : Directory V)
      → low' ≤ low
      → high ≤ high'
      → IsAscending low high files
      → IsAscending low' high' files
  IsAscending-wider low low' high high' [] h k a = omega arith
  IsAscending-wider low low' high high' ((seq, e) ∷ files) h k (l, a) =
      (omega arith, IsAscending-wider (suc seq) (suc seq) high high' files (omega arith) k a)

  pub delete-IsAscending :
      (k low high : ℕ) (files : Directory V)
      → IsAscending low high files
      → IsAscending low high (delete k files)
  unfolding delete
  delete-IsAscending k low high [] a = a
  delete-IsAscending k low high ((seq, e) ∷ files) (l, a) = elim (Bool-cases (nat_key.same seq k)) [
    | inl here ↦ rw here (
        IsAscending-wider (suc seq) low high high _ (omega arith) (omega arith)
          (delete-IsAscending k (suc seq) high files a))
    | inr there ↦ rw there (l, delete-IsAscending k (suc seq) high files a)
  ]

  pub delete_first :
      (seq high : ℕ) (e : Option (OfflineEntry V)) (files : Directory V)
      → IsAscending (suc seq) high files
      → delete seq ((seq, e) ∷ files) ≡ files
  unfolding delete
  delete_first seq high e files a = ground (
    arith,
    delete_absent seq files (ascending_absent (suc seq) high seq files (omega arith) a),
    nat_key.same_iff seq seq,
  )

  -- A new file, with a number above all, goes to the end.
  pub insert_last :
      (low high : ℕ) (e : Option (OfflineEntry V)) (files : Directory V)
      → IsAscending low high files
      → (insert high e files ≡ files ++ (high, e) ∷ [])
        × IsAscending low (high + 1) (files ++ (high, e) ∷ [])
  unfolding insert
  insert_last low high e [] a = (refl, (a, omega arith))
  insert_last low high e ((seq, c) ∷ files) (l, a) =
      let rest = insert_last (suc seq) high e files a in
      (ground (arith, rest.0, below (suc seq) high files a), (l, rest.1))
    where
      below : (low' high' : ℕ) (fs : Directory V) → IsAscending low' high' fs → low' ≤ high'
      below low' high' [] h = h
      below low' high' ((s, c') ∷ fs) (h, t) = omega (arith, below (suc s) high' fs t)

  insert_by_first :
      (seq high : ℕ) (files : Directory V)
      → IsAscending (suc seq) high files
      → insert_by (λ (n : ℕ). n) seq (map (λ (f : ℕ × Option (OfflineEntry V)). f.0) files)
        ≡ seq ∷ map (λ (f : ℕ × Option (OfflineEntry V)). f.0) files
  unfolding insert_by
  insert_by_first seq high [] a = refl
  insert_by_first seq high ((s, c) ∷ files) (l, a) = ground arith

  pub sorted_seqs_ascending :
      (low high : ℕ) (files : Directory V)
      → IsAscending low high files
      → sorted_seqs files ≡ map (λ (f : ℕ × Option (OfflineEntry V)). f.0) files
  unfolding sorted_seqs sort_by
  sorted_seqs_ascending low high [] a = refl
  sorted_seqs_ascending low high ((seq, c) ∷ files) (l, a) =
      ap (insert_by (λ (n : ℕ). n) seq) (sorted_seqs_ascending (suc seq) high files a)
      ∙ insert_by_first seq high files a
