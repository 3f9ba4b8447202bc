-- ===== src/Engine/OfflineBuffer/Bounded.antt =====
-- engine/offlinebuffer.go: pushes on a working file system.
use mathlib.Core.Path.{subst}
use core_c.Common.{
  ℕ, suc, ◌+◌, ◌-◌, ◌≤◌, ◌≡◌, refl, sym, ap, ◌∙◌, String, true, Option, none, some, List, [], ◌∷◌,
  ◌++◌, arith, length, drop, drop-append, drop_congr, length-append, length-drop, nat_key,
  append_assoc, append-nil,
}
use core_c.Common.Maps.{insert}
use core_c.Common.Windows.{last_n, last_n-append_last_n, length-last_n}
use core_c.Core.{DataPoint}
use core_c.Engine.OfflineBuffer.{
  OfflineEntry, OfflineBuffer, Directory, Faults, evict_if_needed, store_entry, write_entry,
  push_batch,
}
use core_c.Engine.OfflineBuffer.Order.{IsAscending, IsOrdered, insert_last}
use core_c.Engine.OfflineBuffer.Eviction.{IsWorking, without, drop-IsAscending, evict_if_needed_lem}

module _ {V : Type 0} where
  abbrev pub encoded :
      Faults V → ℕ → ℕ → List (DataPoint V) → String → Option (Option (OfflineEntry V))
  encoded f seq now points source =
      f.marshal (record { seq = seq; time = now; points = points; source = source })

  abbrev pub content : Option (Option (OfflineEntry V)) → Option (OfflineEntry V)
  content none = none
  content (some c) = c

  -- The file that a push writes, with what it is read back as.
  abbrev pub entry_of : Faults V → ℕ → ℕ → List (DataPoint V) → String → ℕ × Option (OfflineEntry V)
  entry_of f seq now points source = (seq, content (encoded f seq now points source))

  -- `json.Marshal` takes the entry.
  abbrev pub IsEncoded : Faults V → ℕ → ℕ → List (DataPoint V) → String → Type 0
  IsEncoded f seq now points source =
      (c : Option (OfflineEntry V)) × (encoded f seq now points source ≡ some c)

  -- What a working push of a batch that is not empty makes of the buffer.
  abbrev pub IsPushed : OfflineBuffer V → ℕ × Option (OfflineEntry V) → OfflineBuffer V → Type 0
  IsPushed b e b' =
      (b'.files ≡ last_n b.max_entries (b.files ++ e ∷ []))
      × (b'.evict_count + length b'.files ≡ b.evict_count + length b.files + 1)
      × (b'.next_seq ≡ b.next_seq + 1)
      × (b'.max_entries ≡ b.max_entries)
      × IsOrdered b'

  -- The entry joins the files that the eviction leaves.
  write_entry_lem :
      (f : Faults V) (new : ℕ × Option (OfflineEntry V)) (b b' : OfflineBuffer V)
      → IsWorking f
      → b' ≡ without (suc (length b.files) - b.max_entries) b.files b
      → new.0 ≡ b.next_seq
      → 1 ≤ b.max_entries
      → IsOrdered b
      → IsPushed b new (write_entry f (some new.1) b').1
        × ((write_entry f (some new.1) b').0 ≡ true)
  unfolding write_entry
  write_entry_lem f new b b' w evicted e h a =
      rw (evicted, w.1)
        (
          (
            last.0 ∙ kept,
            omega (
              arith,
              ap length last.0,
              ap length kept,
              length-append b.files (new ∷ []),
              length-drop (length (b.files ++ new ∷ []) - b.max_entries) (b.files ++ new ∷ []),
            ),
            refl,
            refl,
            subst (λ (fs : Directory V). IsAscending 0 (b.next_seq + 1) fs) (sym last.0) last.1,
          ),
          refl,
        )
    where
      over : ℕ
      over = suc (length b.files) - b.max_entries

      last :
          (insert b.next_seq new.1 (drop over b.files) ≡ drop over b.files ++ new ∷ [])
          × IsAscending 0 (b.next_seq + 1) (drop over b.files ++ new ∷ [])
      last =
          subst
            (λ n.
              (insert b.next_seq new.1 (drop over b.files) ≡ drop over b.files ++ (n, new.1) ∷ [])
              × IsAscending 0 (b.next_seq + 1) (drop over b.files ++ (n, new.1) ∷ []))
            (sym e)
            (insert_last 0 b.next_seq new.1 (drop over b.files)
              (drop-IsAscending over 0 b.next_seq b.files a))

      kept : drop over b.files ++ new ∷ [] ≡ last_n b.max_entries (b.files ++ new ∷ [])
      kept =
          sym (drop-append over b.files (new ∷ []) (omega arith))
          ∙ ap (λ n. drop n (b.files ++ new ∷ [])) (omega (arith, length-append b.files (new ∷ [])))

  pub push_batch_lem :
      (f : Faults V) (now : ℕ) (p : DataPoint V) (points : List (DataPoint V)) (source : String)
      (b : OfflineBuffer V)
      → IsWorking f
      → IsEncoded f b.next_seq now (p ∷ points) source
      → 1 ≤ b.max_entries
      → IsOrdered b
      → IsPushed b
          (entry_of f b.next_seq now (p ∷ points) source)
          (push_batch f now (p ∷ points) source b).1
        × ((push_batch f now (p ∷ points) source b).0 ≡ true)
  unfolding push_batch store_entry
  push_batch_lem f now p points source b w (c, e) h a =
      let evicted = evict_if_needed_lem f b w h a in
      let number : (evict_if_needed f b).next_seq ≡ b.next_seq =
        ap (λ (o : OfflineBuffer V). o.next_seq) evicted in
      let e' = ap (λ n. encoded f n now (p ∷ points) source) number ∙ e in
      subst
        (λ (o : Option (Option (OfflineEntry V))).
          IsPushed b (entry_of f b.next_seq now (p ∷ points) source)
            (write_entry f o (evict_if_needed f b)).1
          × ((write_entry f o (evict_if_needed f b)).0 ≡ true))
        (sym e')
        (subst
          (λ (new : ℕ × Option (OfflineEntry V)).
            IsPushed b new (write_entry f (some c) (evict_if_needed f b)).1
            × ((write_entry f (some c) (evict_if_needed f b)).0 ≡ true))
          (λ i. (b.next_seq, content (sym e i)))
          (write_entry_lem f (b.next_seq, c) b (evict_if_needed f b) w evicted refl h a))

  push_empty :
      (f : Faults V) (now : ℕ) (source : String) (b : OfflineBuffer V)
      → (push_batch f now [] source b).1 ≡ b
  unfolding push_batch
  push_empty f now source b = refl

  abbrev pub push_run :
      Faults V → List (ℕ × (List (DataPoint V) × String)) → OfflineBuffer V → OfflineBuffer V
  push_run f [] b = b
  push_run f ((now, (points, source)) ∷ bs) b = push_run f bs (push_batch f now points source b).1

  -- The files of a run of pushes, numbered from `seq` on; an empty batch is none.
  abbrev pub numbered : Faults V → ℕ → List (ℕ × (List (DataPoint V) × String)) → Directory V
  numbered f seq [] = []
  numbered f seq ((now, ([], source)) ∷ bs) = numbered f seq bs
  numbered f seq ((now, (p ∷ points, source)) ∷ bs) =
      entry_of f seq now (p ∷ points) source ∷ numbered f (seq + 1) bs

  -- `json.Marshal` takes every batch of the run.
  abbrev pub AreEncoded : Faults V → ℕ → List (ℕ × (List (DataPoint V) × String)) → Type 0
  AreEncoded f seq [] = Unit {0}
  AreEncoded f seq ((now, ([], source)) ∷ bs) = AreEncoded f seq bs
  AreEncoded f seq ((now, (p ∷ points, source)) ∷ bs) =
      IsEncoded f seq now (p ∷ points) source × AreEncoded f (seq + 1) bs

  -- With a file system on which every call works and batches that `json.Marshal` takes, from an
  -- ordered buffer that holds no more than its bound of at least 1, a run of `Push` calls leaves
  -- on disk exactly the newest files that fit of the old ones followed by one for each batch that
  -- is not empty, numbered on from the next number and with what it is read back as, and the
  -- eviction count and the number of files grow together by the number of those batches.
  pub push_batch-run_newest :
      (f : Faults V) (bs : List (ℕ × (List (DataPoint V) × String))) (b : OfflineBuffer V)
      → IsWorking f
      → AreEncoded f b.next_seq bs
      → 1 ≤ b.max_entries
      → IsOrdered b
      → length b.files ≤ b.max_entries
      → ((push_run f bs b).files ≡ last_n b.max_entries (b.files ++ numbered f b.next_seq bs))
        × ((push_run f bs b).evict_count + length (push_run f bs b).files
            ≡ b.evict_count + length b.files + length (numbered f b.next_seq bs))
  push_batch-run_newest f [] b w en h a k = (
    rw (append-nil b.files) (drop_congr 0 (length b.files - b.max_entries) b.files (omega arith)),
    omega arith,
  )
  push_batch-run_newest f ((now, ([], source)) ∷ bs) b w en h a k =
      rw (push_empty f now source b, push_run) (push_batch-run_newest f bs b w en h a k)
  push_batch-run_newest f ((now, (p ∷ points, source)) ∷ bs) b w en h a k =
      let b' = (push_batch f now (p ∷ points) source b).1 in
      let new = entry_of f b.next_seq now (p ∷ points) source in
      let one = (push_batch_lem f now p points source b w en.0 h a).0 in
      let rest =
        push_batch-run_newest f bs b' w (subst (λ n. AreEncoded f n bs) (sym one.2) en.1)
          (omega (arith, one.3)) one.4
          (omega
            (arith, ap length one.0, length-last_n b.max_entries (b.files ++ new ∷ []), one.3)) in
      (
        rest.0
            ∙ ap (λ m. last_n m (b'.files ++ numbered f b'.next_seq bs)) one.3
            ∙ ap (λ n. last_n b.max_entries (b'.files ++ numbered f n bs)) one.2
            ∙ ap (λ (fs : Directory V). last_n b.max_entries (fs ++ numbered f (b.next_seq + 1) bs))
                one.0
            ∙ last_n-append_last_n b.max_entries (b.files ++ new ∷ [])
                (numbered f (b.next_seq + 1) bs)
            ∙ ap (last_n b.max_entries)
                (append_assoc b.files (new ∷ []) (numbered f (b.next_seq + 1) bs)),
        omega (arith, rest.1, one.1, ap (λ n. length (numbered f n bs)) one.2),
      )
