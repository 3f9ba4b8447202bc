-- ===== src/Engine/OfflineBuffer/Finish.antt =====
-- engine/offlinebuffer.go: a drain with nothing in its way.
use mathlib.Core.Path.{subst}
use core_c.Common.{
  ℕ, ◌≡◌, refl, sym, ap, ◌∙◌, inl, inr, String, Bool, true, false, Option, none, List, [], ◌∷◌,
  arith, map, if◌then◌else◌, ◌==◌, ◌&&◌, nat_key, string_key, Bool-cases,
}
use core_c.Common.Maps.{lookup}
use core_c.Core.{DataPoint}
use core_c.Engine.OfflineBuffer.{
  OfflineEntry, OfflineBuffer, Directory, Faults, completed, Drained, drain_loop, drain,
}
use core_c.Engine.OfflineBuffer.Order.{IsOrdered, sorted_seqs_ascending, ascending-HasDistinctKeys}
use core_c.Engine.OfflineBuffer.Eviction.{IsWorking}
use core_c.Engine.OfflineBuffer.Drain.{
  remaining, Step, skips, stops, clears, replays, Step-of, loop, after_removal,
}
use core_c.Engine.OfflineBuffer.Replay.{
  has, AreDifferent, own_batches, own_files, own_batches_after, own_batches-eq-own_files,
  distinct_seqs, has_absent, lookup_after,
}

module _ {V : Type 0} (f : Faults V) (accepts : ℕ → Bool) (source : String) where
  -- The loop came to its end, published every batch of its source, and left of each file that it
  -- looked at what should remain.
  abbrev IsThrough : List ℕ → Directory V → Drained V → Type 0
  IsThrough seqs files d =
      (d.end ≡ completed)
      × (d.published ≡ own_batches source seqs files)
      × ((k : ℕ)
          → lookup k d.files
            ≡ (if has k seqs then remaining source (lookup k files) else lookup k files))

  removed_lookup :
      (seq k : ℕ) (seqs : List ℕ) (files : Directory V)
      → has seq seqs ≡ false
      → f.removes seq ≡ true
      → remaining source (lookup seq files) ≡ none
      → (if has k seqs
          then remaining source (lookup k (after_removal f accepts source seq files))
          else lookup k (after_removal f accepts source seq files))
        ≡ (if has k (seq ∷ seqs) then remaining source (lookup k files) else lookup k files)
  removed_lookup seq k seqs files new removes gone = elim (Bool-cases (seq == k)) [
    | inl here ↦
        let same = (nat_key.same_iff seq k).0 here in
        rw
          (
            ap (λ n. has n seqs) (sym same) ∙ new,
            lookup_after f accepts source seq k files,
            removes,
            here,
            ap (λ n. remaining source (lookup n files)) (sym same) ∙ gone,
          )
          refl
    | inr there ↦ rw (lookup_after f accepts source seq k files, removes, there) refl
  ]

  skipped_lookup :
      (seq k : ℕ) (seqs : List ℕ) (files : Directory V)
      → remaining source (lookup seq files) ≡ lookup seq files
      → (if has k seqs then remaining source (lookup k files) else lookup k files)
        ≡ (if has k (seq ∷ seqs) then remaining source (lookup k files) else lookup k files)
  skipped_lookup seq k seqs files stays = elim (Bool-cases (seq == k)) [
    | inl here ↦
        let same = (nat_key.same_iff seq k).0 here in
        let stays' : remaining source (lookup k files) ≡ lookup k files =
          subst (λ n. remaining source (lookup n files) ≡ lookup n files) same stays in
        rw (here, stays') (either (has k seqs) (lookup k files))
    | inr there ↦ rw there refl
  ]
    where
      either : {A : Type 0} (b : Bool) (a : A) → (if b then a else a) ≡ a
      either true a = refl
      either false a = refl

  all_lookup :
      (k : ℕ) (files : Directory V)
      → (if has k (map (λ (e : ℕ × Option (OfflineEntry V)). e.0) files)
          then remaining source (lookup k files)
          else lookup k files)
        ≡ remaining source (lookup k files)
  all_lookup k files =
      elim (Bool-cases (has k (map (λ (e : ℕ × Option (OfflineEntry V)). e.0) files))) [
        | inl there ↦ rw there refl
        | inr absent ↦ rw (absent, has_absent k files absent) refl
      ]

  IsThrough-Step :
      (seq : ℕ) (seqs : List ℕ) (files : Directory V)
      → has seq seqs ≡ false
      → (f.reads seq && accepts seq) ≡ true
      → f.removes seq ≡ true
      → ((fs : Directory V) → IsThrough seqs fs (loop f accepts source seqs fs))
      → Step f accepts source seq seqs files
      → IsThrough (seq ∷ seqs) files (loop f accepts source (seq ∷ seqs) files)
  IsThrough-Step seq seqs files new works removes rest (skips foreign stays e) =
      let (ends, out, left) = rest files in
      rw (e, foreign) (ends, out, λ k. left k ∙ skipped_lookup seq k seqs files stays)
  IsThrough-Step seq seqs files new works removes rest (stops end failed e) = ground arith
  IsThrough-Step seq seqs files new works removes rest (clears broken e) =
      let (ends, out, left) = rest (after_removal f accepts source seq files) in
      rw (e, broken)
        (
          ends,
          out ∙ own_batches_after f accepts source seq seqs files new,
          λ k. left k ∙ removed_lookup seq k seqs files new removes (rw broken refl),
        )
  IsThrough-Step seq seqs files new works removes rest (replays entry found own e) =
      let (ends, out, left) = rest (after_removal f accepts source seq files) in
      rw (e, found, own)
        (
          ends,
          ap (λ (l : List (ℕ × List (DataPoint V))). (seq, entry.points) ∷ l)
              (out ∙ own_batches_after f accepts source seq seqs files new),
          λ k. left k ∙ removed_lookup seq k seqs files new removes (rw (found, own) refl),
        )

  loop-IsThrough :
      (seqs : List ℕ) (files : Directory V)
      → IsWorking f
      → ((k : ℕ) → accepts k ≡ true)
      → AreDifferent seqs
      → IsThrough seqs files (loop f accepts source seqs files)
  unfolding drain_loop
  loop-IsThrough [] files w up h = (refl, refl, λ k. refl)
  loop-IsThrough (seq ∷ seqs) files w up (new, h) =
      IsThrough-Step seq seqs files new (rw (w.2 seq, up seq) refl) (w.3 seq)
        (λ fs. loop-IsThrough seqs fs w up h) (Step-of f accepts source seq seqs files)

  -- With a file system on which every call works and a transport that accepts every batch, `Drain`
  -- of an ordered buffer comes to the end of its loop, publishes every batch of its source in the
  -- order of the numbers, and leaves on disk exactly the files that are entries of other sources.
  pub drain_finishes :
      (b : OfflineBuffer V)
      → IsWorking f
      → ((k : ℕ) → accepts k ≡ true)
      → IsOrdered b
      → ((drain f accepts source b).0.end ≡ completed)
        × ((drain f accepts source b).0.published ≡ own_files source b.files)
        × ((k : ℕ)
            → lookup k (drain f accepts source b).1.files ≡ remaining source (lookup k b.files))
  unfolding drain
  drain_finishes b w up a =
      let distinct = ascending-HasDistinctKeys 0 b.next_seq b.files a in
      let (ends, out, left) = loop-IsThrough _ b.files w up (distinct_seqs b.files distinct) in
      rw (w.0, sorted_seqs_ascending 0 b.next_seq b.files a)
        (
          ends,
          out ∙ own_batches-eq-own_files source b.files distinct,
          λ k. left k ∙ all_lookup k b.files,
        )
