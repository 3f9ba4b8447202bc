-- ===== src/Engine/OfflineBuffer/Replay.antt =====
-- engine/offlinebuffer.go: what a drain publishes.
use core_c.Common.{
  ℕ, ◌≡◌, refl, ap, ◌∙◌, inl, inr, String, Bool, true, false, Option, none, some, List, [], ◌∷◌,
  ◌++◌, arith, map, if◌then◌else◌, ◌==◌, ◌||◌, nat_key, string_key, Bool-cases,
}
use core_c.Common.Maps.{lookup, lookup-delete, HasDistinctKeys}
use core_c.Core.{DataPoint}
use core_c.Engine.OfflineBuffer.{OfflineEntry, OfflineBuffer, Directory, Faults, drain_loop, drain}
use core_c.Engine.OfflineBuffer.Order.{IsOrdered, sorted_seqs_ascending, ascending-HasDistinctKeys}
use core_c.Engine.OfflineBuffer.Drain.{
  own_batch, Step, skips, stops, clears, replays, Step-of, loop, after_removal,
}

abbrev pub has : ℕ → List ℕ → Bool
has k [] = false
has k (s ∷ ss) = (s == k) || has k ss

abbrev pub AreDifferent : List ℕ → Type 0
AreDifferent [] = Unit {0}
AreDifferent (s ∷ ss) = (has s ss ≡ false) × AreDifferent ss

module _ {V : Type 0} where
  abbrev pub add_batch :
      ℕ
      → Option (List (DataPoint V))
      → List (ℕ × List (DataPoint V))
      → List (ℕ × List (DataPoint V))
  add_batch seq none rest = rest
  add_batch seq (some points) rest = (seq, points) ∷ rest

  -- The batches of this source among the files of these numbers.
  abbrev pub own_batches : String → List ℕ → Directory V → List (ℕ × List (DataPoint V))
  own_batches source [] files = []
  own_batches source (seq ∷ seqs) files =
      add_batch seq (own_batch source (lookup seq files)) (own_batches source seqs files)

  -- The batches of this source in the directory, in its order.
  abbrev pub own_files : String → Directory V → List (ℕ × List (DataPoint V))
  own_files source [] = []
  own_files source ((seq, c) ∷ files) =
      add_batch seq (own_batch source (some c)) (own_files source files)

  own_batches-congr :
      (source : String) (seqs : List ℕ) (fs files : Directory V)
      → ((k : ℕ) → has k seqs ≡ true → lookup k fs ≡ lookup k files)
      → own_batches source seqs fs ≡ own_batches source seqs files
  own_batches-congr source [] fs files h = refl
  own_batches-congr source (seq ∷ seqs) fs files h =
      ap
        (λ (o : Option (Option (OfflineEntry V))).
          add_batch seq (own_batch source o) (own_batches source seqs fs))
        (h seq (ground (arith, nat_key.same_iff seq seq)))
      ∙ ap (add_batch seq (own_batch source (lookup seq files)))
          (own_batches-congr source seqs fs files (λ k there. h k (ground arith)))

  pub has_absent :
      (k : ℕ) (files : Directory V)
      → has k (map (λ (e : ℕ × Option (OfflineEntry V)). e.0) files) ≡ false
      → lookup k files ≡ none
  unfolding lookup
  has_absent k [] h = refl
  has_absent k ((seq, c) ∷ files) h = ground (arith, has_absent k files)

  absent_has :
      (k : ℕ) (files : Directory V)
      → lookup k files ≡ none
      → has k (map (λ (e : ℕ × Option (OfflineEntry V)). e.0) files) ≡ false
  unfolding lookup
  absent_has k [] h = refl
  absent_has k ((seq, c) ∷ files) h = ground (arith, absent_has k files)

  pub distinct_seqs :
      (files : Directory V)
      → HasDistinctKeys files
      → AreDifferent (map (λ (e : ℕ × Option (OfflineEntry V)). e.0) files)
  distinct_seqs [] h = tt
  distinct_seqs ((seq, c) ∷ files) (new, h) = (absent_has seq files new, distinct_seqs files h)

  pub own_batches-eq-own_files :
      (source : String) (files : Directory V)
      → HasDistinctKeys files
      → own_batches source (map (λ (e : ℕ × Option (OfflineEntry V)). e.0) files) files
        ≡ own_files source files
  unfolding lookup
  own_batches-eq-own_files source [] h = refl
  own_batches-eq-own_files source ((seq, c) ∷ files) (new, h) =
      let seqs = map (λ (e : ℕ × Option (OfflineEntry V)). e.0) files in
      ap
        (λ (o : Option (Option (OfflineEntry V))).
          add_batch seq (own_batch source o) (own_batches source seqs ((seq, c) ∷ files)))
        (here seq)
      ∙ ap (add_batch seq (own_batch source (some c))) (
          own_batches-congr source seqs ((seq, c) ∷ files) files
            (λ k there. ground (arith, absent_has seq files new, nat_key.same_iff seq k))
          ∙ own_batches-eq-own_files source files h)
    where
      here : (s : ℕ) → lookup s ((s, c) ∷ files) ≡ some c
      here s = ground (arith, nat_key.same_iff s s)

module _ {V : Type 0} (f : Faults V) (accepts : ℕ → Bool) (source : String) where
  pub lookup_after :
      (seq k : ℕ) (files : Directory V)
      → lookup k (after_removal f accepts source seq files)
        ≡ (if f.removes seq then (if seq == k then none else lookup k files) else lookup k files)
  lookup_after seq k files = ground (arith, lookup-delete seq k files)

  -- The files of the numbers to come are as they were.
  pub own_batches_after :
      (seq : ℕ) (seqs : List ℕ) (files : Directory V)
      → has seq seqs ≡ false
      → own_batches source seqs (after_removal f accepts source seq files)
        ≡ own_batches source seqs files
  own_batches_after seq seqs files new =
      own_batches-congr source seqs (after_removal f accepts source seq files) files
        (λ k there. ground (arith, lookup_after seq k files, nat_key.same_iff seq k))

  -- What was published comes first among these batches.
  abbrev IsBegun : List (ℕ × List (DataPoint V)) → List (ℕ × List (DataPoint V)) → Type 0
  IsBegun published all = (rest : List (ℕ × List (DataPoint V))) × (published ++ rest ≡ all)

  IsBegun-Step :
      (seq : ℕ) (seqs : List ℕ) (files : Directory V)
      → has seq seqs ≡ false
      → ((fs : Directory V)
          → IsBegun (loop f accepts source seqs fs).published (own_batches source seqs fs))
      → Step f accepts source seq seqs files
      → IsBegun
          (loop f accepts source (seq ∷ seqs) files).published
          (own_batches source (seq ∷ seqs) files)
  IsBegun-Step seq seqs files new rest (skips foreign stays e) = rw (e, foreign) (rest files)
  IsBegun-Step seq seqs files new rest (stops end failed e) =
      rw e (own_batches source (seq ∷ seqs) files, refl)
  IsBegun-Step seq seqs files new rest (clears broken e) =
      let (more, h) = rest (after_removal f accepts source seq files) in
      rw (e, broken) (more, h ∙ own_batches_after seq seqs files new)
  IsBegun-Step seq seqs files new rest (replays entry found own e) =
      let (more, h) = rest (after_removal f accepts source seq files) in
      rw (e, found, own)
        (
          more,
          ap (λ (l : List (ℕ × List (DataPoint V))). (seq, entry.points) ∷ l)
              (h ∙ own_batches_after seq seqs files new),
        )

  loop-IsBegun :
      (seqs : List ℕ) (files : Directory V)
      → AreDifferent seqs
      → IsBegun (loop f accepts source seqs files).published (own_batches source seqs files)
  unfolding drain_loop
  loop-IsBegun [] files h = ([], refl)
  loop-IsBegun (seq ∷ seqs) files (new, h) =
      IsBegun-Step seq seqs files new (λ fs. loop-IsBegun seqs fs h)
        (Step-of f accepts source seq seqs files)

  -- Whatever calls of the file system fail and whatever the transport answers, the batches that
  -- `Drain` of an ordered buffer publishes are the first ones of its source on disk, in the order
  -- of their numbers, each once.
  drain_in_order :
      (b : OfflineBuffer V)
      → IsOrdered b
      → (rest : List (ℕ × List (DataPoint V))) × ((drain f accepts source b).0.published ++ rest
          ≡ own_files source b.files)
  unfolding drain
  drain_in_order b a = elim (Bool-cases f.lists) [
    | inr unlisted ↦ rw unlisted (own_files source b.files, refl)
    | inl listed ↦
        let distinct = ascending-HasDistinctKeys 0 b.next_seq b.files a in
        let (rest, h) = loop-IsBegun _ b.files (distinct_seqs b.files distinct) in
        rw (listed, sorted_seqs_ascending 0 b.next_seq b.files a)
          (rest, h ∙ own_batches-eq-own_files source b.files distinct)
  ]
