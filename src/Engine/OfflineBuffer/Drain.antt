-- ===== src/Engine/OfflineBuffer/Drain.antt =====
-- engine/offlinebuffer.go: what a drain, which may fail anywhere, does to each file.
use mathlib.Core.Path.{subst}
use core_c.Common.{
  ℕ, ◌+◌, ◌≡◌, ◌⊎◌, refl, sym, ap, ◌∙◌, inl, inr, String, Bool, true, false, Option, none, some,
  List, [], ◌∷◌, arith, length, if◌then◌else◌, ◌==◌, ◌&&◌, nat_key, string_key, Bool-cases,
  Option-cases,
}
use core_c.Common.Maps.{lookup, delete, lookup-delete}
use core_c.Core.{DataPoint}
use core_c.Engine.OfflineBuffer.{
  OfflineEntry, OfflineBuffer, Directory, DrainEnd, Faults, Drained, paused, read_failed,
  after_replay, drain_loop, drain, sorted_seqs,
}

abbrev pub IsIn : {A : Type 0} → A → List A → Type 0
IsIn a [] = ⊥
IsIn a (x ∷ xs) = (x ≡ a) ⊎ IsIn a xs

module _ {V : Type 0} where
  -- A file may go if it is no entry, or holds a batch of this source that was published.
  abbrev pub MayGo : String → Directory V → List (ℕ × List (DataPoint V)) → ℕ → Type 0
  MayGo source files published k =
      (lookup k files ≡ some none)
      ⊎ ((e : OfflineEntry V) × (lookup k files ≡ some (some e))
          × (e.source ≡ source)
          × IsIn (k, e.points) published)

  abbrev pub IsKept : String → Directory V → Drained V → ℕ → Type 0
  IsKept source files d k =
      (lookup k d.files ≡ lookup k files)
      ⊎ ((lookup k d.files ≡ none) × MayGo source files d.published k)

  -- From a directory that has the same file of this number, and a drain with the same files that
  -- published no less.
  IsKept-same :
      (source : String) (fs files : Directory V) (d d' : Drained V) (k : ℕ)
      → d'.files ≡ d.files
      → ((p : ℕ × List (DataPoint V)) → IsIn p d.published → IsIn p d'.published)
      → lookup k fs ≡ lookup k files
      → IsKept source fs d k
      → IsKept source files d' k
  IsKept-same source fs files d d' k same more e (inl still) = inl (ap (lookup k) same ∙ still ∙ e)
  IsKept-same source fs files d d' k same more e (inr (gone, inl broken)) =
      inr (ap (lookup k) same ∙ gone, inl (sym e ∙ broken))
  IsKept-same source fs files d d' k same more e (inr (gone, inr (entry, found, own, out))) =
      inr (ap (lookup k) same ∙ gone, inr (entry, sym e ∙ found, own, more (k, entry.points) out))

  gone_either :
      (source : String) (fs : Directory V) (d : Drained V) (k : ℕ)
      → lookup k fs ≡ none
      → IsKept source fs d k
      → lookup k d.files ≡ none
  gone_either source fs d k e (inl still) = still ∙ e
  gone_either source fs d k e (inr (gone, why)) = gone

  -- The way from the loop after a file, which may be gone, to the loop with it.
  IsKept-after :
      (source : String) (files : Directory V) (d d' : Drained V) (r : Bool) (seq k : ℕ)
      → d'.files ≡ d.files
      → ((p : ℕ × List (DataPoint V)) → IsIn p d.published → IsIn p d'.published)
      → ((seq == k) ≡ true → MayGo source files d'.published k)
      → IsKept source (if r then delete seq files else files) d k
      → IsKept source files d' k
  IsKept-after source files d d' false seq k same more cause kept =
      IsKept-same source files files d d' k same more refl kept
  IsKept-after source files d d' true seq k same more cause kept = elim (Bool-cases (seq == k)) [
    | inl here ↦ inr (
      ap (lookup k) same
          ∙ gone_either source (delete seq files) d k (lookup-delete seq k files ∙ rw here refl)
              kept,
      cause here,
    )
    | inr there ↦
        IsKept-same source (delete seq files) files d d' k same more
          (lookup-delete seq k files ∙ rw there refl) kept
  ]

  -- The batch of this source in the file of this number, if it is one.
  abbrev pub own_batch : String → Option (Option (OfflineEntry V)) → Option (List (DataPoint V))
  own_batch source none = none
  own_batch source (some none) = none
  own_batch source (some (some e)) = if e.source == source then some e.points else none

  -- What a drain with nothing in its way leaves of a file.
  abbrev pub remaining :
      String → Option (Option (OfflineEntry V)) → Option (Option (OfflineEntry V))
  remaining source none = none
  remaining source (some none) = none
  remaining source (some (some e)) = if e.source == source then none else some (some e)

module _ {V : Type 0} (f : Faults V) (accepts : ℕ → Bool) (source : String) where
  abbrev pub loop : List ℕ → Directory V → Drained V
  loop = drain_loop f accepts source

  abbrev pub after_removal : ℕ → Directory V → Directory V
  after_removal seq files = if f.removes seq then delete seq files else files

  -- What the loop does with its first file.
  pub data Step (seq : ℕ) (seqs : List ℕ) (files : Directory V) : Type 0 where
    skips :
        own_batch source (lookup seq files) ≡ none
        → remaining source (lookup seq files) ≡ lookup seq files
        → loop (seq ∷ seqs) files ≡ loop seqs files
        → Step seq seqs files
    stops :
        (end : DrainEnd)
        → (f.reads seq && accepts seq) ≡ false
        → loop (seq ∷ seqs) files ≡ record { end = end; published = []; files = files }
        → Step seq seqs files
    clears :
        lookup seq files ≡ some none
        → loop (seq ∷ seqs) files ≡ loop seqs (after_removal seq files)
        → Step seq seqs files
    replays :
        (e : OfflineEntry V)
        → lookup seq files ≡ some (some e)
        → (e.source == source) ≡ true
        → loop (seq ∷ seqs) files ≡ after_replay seq e.points (loop seqs (after_removal seq files))
        → Step seq seqs files

  of_content :
      (seq : ℕ) (seqs : List ℕ) (files : Directory V) (content : Option (OfflineEntry V))
      → lookup seq files ≡ some content
      → f.reads seq ≡ true
      → Step seq seqs files
  unfolding drain_loop
  of_content seq seqs files none found readable =
      clears found (rw (found, readable, drain_loop) refl)
  of_content seq seqs files (some e) found readable = elim (Bool-cases (e.source == source)) [
    | inr foreign ↦
        skips (rw (found, foreign) refl) (rw (found, foreign) refl)
          (rw (found, readable, foreign, drain_loop) refl)
    | inl own ↦ elim (Bool-cases (accepts seq)) [
      | inr down ↦
          stops paused (rw (readable, down) refl) (rw (found, readable, own, down, drain_loop) refl)
      | inl up ↦ replays e found own (rw (found, readable, own, up, drain_loop) refl)
    ]
  ]

  pub Step-of : (seq : ℕ) (seqs : List ℕ) (files : Directory V) → Step seq seqs files
  unfolding drain_loop
  Step-of seq seqs files = elim (Option-cases (lookup seq files)) [
    | inl missing ↦ skips (rw missing refl) (rw missing refl) (rw (missing, drain_loop) refl)
    | inr (content, found) ↦ elim (Bool-cases (f.reads seq)) [
      | inr unread ↦ stops read_failed (rw unread refl) (rw (found, unread, drain_loop) refl)
      | inl readable ↦ of_content seq seqs files content found readable
    ]
  ]

  IsKept-Step :
      (seq k : ℕ) (seqs : List ℕ) (files : Directory V)
      → ((fs : Directory V) → IsKept source fs (loop seqs fs) k)
      → Step seq seqs files
      → IsKept source files (loop (seq ∷ seqs) files) k
  IsKept-Step seq k seqs files rest (skips foreign stays e) =
      subst (λ (d : Drained V). IsKept source files d k) (sym e) (rest files)
  IsKept-Step seq k seqs files rest (stops end failed e) =
      subst (λ (d : Drained V). IsKept source files d k) (sym e) (inl refl)
  IsKept-Step seq k seqs files rest (clears broken e) =
      subst (λ (d : Drained V). IsKept source files d k) (sym e)
        (IsKept-after source files (loop seqs (after_removal seq files))
          (loop seqs (after_removal seq files)) (f.removes seq) seq k refl (λ p there. there)
          (λ here. inl (ap (λ n. lookup n files) (sym ((nat_key.same_iff seq k).0 here)) ∙ broken))
          (rest (after_removal seq files)))
  IsKept-Step seq k seqs files rest (replays entry found own e) =
      subst (λ (d : Drained V). IsKept source files d k) (sym e)
        (IsKept-after source files (loop seqs (after_removal seq files))
          (after_replay seq entry.points (loop seqs (after_removal seq files))) (f.removes seq) seq
          k refl (λ p there. inr there)
          (λ here.
            let same = (nat_key.same_iff seq k).0 here in
            inr (
              entry,
              ap (λ n. lookup n files) (sym same) ∙ found,
              (string_key.same_iff entry.source source).0 own,
              inl (ap (λ n. (n, entry.points)) same),
            ))
          (rest (after_removal seq files)))

  pub drain_loop-IsKept :
      (seqs : List ℕ) (files : Directory V) (k : ℕ) → IsKept source files (loop seqs files) k
  unfolding drain_loop
  drain_loop-IsKept [] files k = inl refl
  drain_loop-IsKept (seq ∷ seqs) files k =
      IsKept-Step seq k seqs files (λ fs. drain_loop-IsKept seqs fs k) (Step-of seq seqs files)

  -- Whatever calls of the file system fail and whatever the transport answers, after `Drain` the
  -- file of any number is as it was, or it is gone and was either no entry or an entry of the
  -- draining source whose points were published under its number; and the drain count grew by the
  -- number of published batches.
  pub drain-IsKept :
      (b : OfflineBuffer V) (k : ℕ)
      → IsKept source b.files (drain f accepts source b).0 k
        × ((drain f accepts source b).1.files ≡ (drain f accepts source b).0.files)
        × ((drain f accepts source b).1.drain_count
            ≡ b.drain_count + length (drain f accepts source b).0.published)
  unfolding drain
  drain-IsKept b k = elim (Bool-cases f.lists) [
    | inl listed ↦ rw listed (drain_loop-IsKept (sorted_seqs b.files) b.files k, refl, refl)
    | inr unlisted ↦ rw unlisted (inl refl, refl, omega arith)
  ]
