-- ===== src/Engine/OfflineBuffer/Eviction.antt =====
-- engine/offlinebuffer.go: the eviction on a working file system.
use core_c.Common.{
  ℕ, zero, suc, ◌+◌, ◌-◌, ◌≤◌, ◌≡◌, refl, sym, ap, ◌∙◌, inl, inr, true, false, Option, List, [],
  ◌∷◌, arith, map, length, drop, drop_nil, length-map, leb, nat_key, Bool-cases,
}
use core_c.Common.Maps.{delete}
use core_c.Engine.OfflineBuffer.{
  OfflineEntry, OfflineBuffer, Directory, Faults, remove_oldest, evict_loop, evict_if_needed,
}
use core_c.Engine.OfflineBuffer.Order.{
  IsAscending, IsOrdered, delete_first, sorted_seqs_ascending, IsAscending-wider,
}

abbrev pub IsWorking : {V : Type 0} → Faults V → Type 0
IsWorking f =
    (f.lists ≡ true)
    × (f.writes ≡ true)
    × ((k : ℕ) → f.reads k ≡ true)
    × ((k : ℕ) → f.removes k ≡ true)

module _ {V : Type 0} where
  abbrev seqs_of : Directory V → List ℕ
  seqs_of files = map (λ (e : ℕ × Option (OfflineEntry V)). e.0) files

  -- The buffer with its `n` oldest files evicted.
  abbrev pub without : ℕ → Directory V → OfflineBuffer V → OfflineBuffer V
  without n files b = record b { files = drop n files; evict_count = b.evict_count + n }

  evict_loop_lem :
      (f : Faults V) (low high : ℕ) (files : Directory V) (b : OfflineBuffer V)
      → IsWorking f
      → 1 ≤ b.max_entries
      → IsAscending low high files
      → b.files ≡ files
      → evict_loop f (seqs_of files) b ≡ without (suc (length files) - b.max_entries) files b
  unfolding evict_loop remove_oldest
  evict_loop_lem f low high [] b w h a e =
      let files' = e ∙ sym (drop_nil (1 - b.max_entries)) in
      let count' : b.evict_count ≡ b.evict_count + (1 - b.max_entries) = omega arith in
      λ i. record b { files = files' i; evict_count = count' i }
  evict_loop_lem f low high ((seq, c) ∷ files) b w h (l, a) e =
      let rest = evict_loop_lem f (suc seq) high files b' w h a refl in
      elim (Bool-cases (leb b.max_entries (suc (length (seqs_of files))))) [
        | inl full ↦
            let k : ℕ = suc (length files) - b.max_entries in
            let counted : b.evict_count + 1 + k ≡ b.evict_count + suc k = omega arith in
            rw (full, removed)
              (rest
                ∙ (λ i. record b { files = drop k files; evict_count = counted i })
                ∙ ap
                    (λ n. record b {
                      files = drop n ((seq, c) ∷ files);
                      evict_count = b.evict_count + n;
                    })
                    (sym (one_more full)))
        | inr room ↦
            let same : b.evict_count ≡ b.evict_count + 0 = omega arith in
            rw (room, none_out room) (λ i. record b { files = e i; evict_count = same i })
      ]
    where
      same_length : length (seqs_of files) ≡ length files
      same_length = length-map (λ (x : ℕ × Option (OfflineEntry V)). x.0) files

      b' : OfflineBuffer V
      b' = record b { files = files; evict_count = b.evict_count + 1 }

      removed : remove_oldest f seq b ≡ b'
      removed = rw (w.3 seq) (
          ap (λ (fs : Directory V). record b { files = fs; evict_count = b.evict_count + 1 })
            (ap (delete seq) e ∙ delete_first seq high c files a))

      one_more :
          leb b.max_entries (suc (length (seqs_of files))) ≡ true
          → suc (suc (length files)) - b.max_entries ≡ suc (suc (length files) - b.max_entries)
      one_more full = ground (arith, same_length)

      none_out :
          leb b.max_entries (suc (length (seqs_of files))) ≡ false
          → suc (suc (length files)) - b.max_entries ≡ 0
      none_out room = ground (arith, same_length)

  pub drop-IsAscending :
      (n low high : ℕ) (files : Directory V)
      → IsAscending low high files
      → IsAscending low high (drop n files)
  drop-IsAscending zero low high files a = a
  drop-IsAscending (suc n) low high [] a = a
  drop-IsAscending (suc n) low high ((seq, c) ∷ files) (l, a) =
      IsAscending-wider (suc seq) low high high (drop n files) (omega arith) (omega arith)
        (drop-IsAscending n (suc seq) high files a)

  pub evict_if_needed_lem :
      (f : Faults V) (b : OfflineBuffer V)
      → IsWorking f
      → 1 ≤ b.max_entries
      → IsOrdered b
      → evict_if_needed f b ≡ without (suc (length b.files) - b.max_entries) b.files b
  unfolding evict_if_needed
  evict_if_needed_lem f b w h a =
      rw (w.0, sorted_seqs_ascending 0 b.next_seq b.files a)
        (evict_loop_lem f 0 b.next_seq b.files b w h a refl)
