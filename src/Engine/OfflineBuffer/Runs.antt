-- ===== src/Engine/OfflineBuffer/Runs.antt =====
-- engine/offlinebuffer.go: the order of the files through any run of calls, with any faults.
use core_c.Common.{
  Option, none, some, ℕ, suc, ◌+◌, ◌≤◌, ◌<◌, ◌≡◌, refl, sym, ◌∙◌, inl, inr, String, Bool, true,
  false, some, List, [], ◌∷◌, arith, length, if◌then◌else◌, leb, ◌==◌, Bool-cases, nat_key,
  string_key,
}
use mathlib.Core.Path.{subst}
use core_c.Common.Maps.{delete}
use core_c.Core.{DataPoint}
use core_c.Engine.OfflineBuffer.{
  OfflineEntry, OfflineBuffer, Directory, Faults, drain_loop, drain, sorted_seqs, remove_oldest,
  evict_loop, evict_if_needed, store_entry, write_entry, push_batch, new_offline_buffer,
  default_max_entries, max_seq, scan_max_seq,
}
use core_c.Engine.OfflineBuffer.Order.{
  IsAscending, IsOrdered, delete-IsAscending, insert_last, IsAscending-wider,
}
use core_c.Engine.OfflineBuffer.Drain.{
  Step, skips, stops, clears, replays, Step-of, loop, after_removal,
}

module _ {V : Type 0} where
  removal-IsAscending :
      (r : Bool) (seq high : ℕ) (files : Directory V)
      → IsAscending 0 high files
      → IsAscending 0 high (if r then delete seq files else files)
  removal-IsAscending true seq high files a = delete-IsAscending seq 0 high files a
  removal-IsAscending false seq high files a = a

  remove_oldest-IsOrdered :
      (f : Faults V) (seq : ℕ) (b : OfflineBuffer V)
      → IsOrdered b
      → ((remove_oldest f seq b).next_seq ≡ b.next_seq) × IsOrdered (remove_oldest f seq b)
  unfolding remove_oldest
  remove_oldest-IsOrdered f seq b a = elim (Bool-cases (f.removes seq)) [
    | inl gone ↦ rw gone (refl, delete-IsAscending seq 0 b.next_seq b.files a)
    | inr stays ↦ rw stays (refl, a)
  ]

  evict_loop-IsOrdered :
      (f : Faults V) (seqs : List ℕ) (b : OfflineBuffer V)
      → IsOrdered b
      → IsOrdered (evict_loop f seqs b) × ((evict_loop f seqs b).next_seq ≡ b.next_seq)
  unfolding evict_loop
  evict_loop-IsOrdered f [] b a = (a, refl)
  evict_loop-IsOrdered f (oldest ∷ seqs) b a =
      elim (Bool-cases (leb b.max_entries (suc (length seqs)))) [
        | inl full ↦
            let (next, a') = remove_oldest-IsOrdered f oldest b a in
            let (rest, same) = evict_loop-IsOrdered f seqs (remove_oldest f oldest b) a' in
            rw full (rest, same ∙ next)
        | inr room ↦ rw room (a, refl)
      ]

  evict_if_needed-IsOrdered :
      (f : Faults V) (b : OfflineBuffer V) → IsOrdered b → IsOrdered (evict_if_needed f b)
  unfolding evict_if_needed
  evict_if_needed-IsOrdered f b a = elim (Bool-cases f.lists) [
    | inl listed ↦ rw listed (evict_loop-IsOrdered f (sorted_seqs b.files) b a).0
    | inr unlisted ↦ rw unlisted a
  ]

  write_entry-IsOrdered :
      (f : Faults V) (c : Option (Option (OfflineEntry V))) (b : OfflineBuffer V)
      → IsOrdered b
      → IsOrdered (write_entry f c b).1
  unfolding write_entry
  write_entry-IsOrdered f none b a =
      IsAscending-wider 0 0 b.next_seq (b.next_seq + 1) b.files (omega arith) (omega arith) a
  write_entry-IsOrdered f (some c) b a = elim (Bool-cases f.writes) [
    | inl written ↦
        let (last, a') = insert_last 0 b.next_seq c b.files a in
        rw written (subst (λ (fs : Directory V). IsAscending 0 (b.next_seq + 1) fs) (sym last) a')
    | inr failed ↦
        rw failed
          (IsAscending-wider 0 0 b.next_seq (b.next_seq + 1) b.files (omega arith) (omega arith) a)
  ]

  pub push_batch-IsOrdered :
      (f : Faults V) (now : ℕ) (points : List (DataPoint V)) (source : String) (b : OfflineBuffer V)
      → IsOrdered b
      → IsOrdered (push_batch f now points source b).1
  unfolding push_batch store_entry
  push_batch-IsOrdered f now [] source b a = a
  push_batch-IsOrdered f now (p ∷ points) source b a =
      write_entry-IsOrdered f _ (evict_if_needed f b) (evict_if_needed-IsOrdered f b a)

  loop-Step-IsAscending :
      (f : Faults V) (accepts : ℕ → Bool) (source : String) (seq high : ℕ) (seqs : List ℕ)
      (files : Directory V)
      → IsAscending 0 high files
      → ((fs : Directory V)
          → IsAscending 0 high fs
          → IsAscending 0 high (loop f accepts source seqs fs).files)
      → Step f accepts source seq seqs files
      → IsAscending 0 high (loop f accepts source (seq ∷ seqs) files).files
  loop-Step-IsAscending f accepts source seq high seqs files a rest (skips foreign stays e) =
      rw e (rest files a)
  loop-Step-IsAscending f accepts source seq high seqs files a rest (stops end failed e) = rw e a
  loop-Step-IsAscending f accepts source seq high seqs files a rest (clears broken e) = rw e (
      rest (after_removal f accepts source seq files)
        (removal-IsAscending (f.removes seq) seq high files a))
  loop-Step-IsAscending f accepts source seq high seqs files a rest (replays entry found own e) =
      rw e (
        rest (after_removal f accepts source seq files)
          (removal-IsAscending (f.removes seq) seq high files a))

  loop-IsAscending :
      (f : Faults V) (accepts : ℕ → Bool) (source : String) (high : ℕ) (seqs : List ℕ)
      (files : Directory V)
      → IsAscending 0 high files
      → IsAscending 0 high (loop f accepts source seqs files).files
  unfolding drain_loop
  loop-IsAscending f accepts source high [] files a = a
  loop-IsAscending f accepts source high (seq ∷ seqs) files a =
      loop-Step-IsAscending f accepts source seq high seqs files a
        (λ fs a'. loop-IsAscending f accepts source high seqs fs a')
        (Step-of f accepts source seq seqs files)

  drain-IsOrdered :
      (f : Faults V) (accepts : ℕ → Bool) (source : String) (b : OfflineBuffer V)
      → IsOrdered b
      → IsOrdered (drain f accepts source b).1
  unfolding drain
  drain-IsOrdered f accepts source b a = elim (Bool-cases f.lists) [
    | inl listed ↦
        rw listed (loop-IsAscending f accepts source b.next_seq (sorted_seqs b.files) b.files a)
    | inr unlisted ↦ rw unlisted a
  ]

-- A call of the buffer, with what fails in it.
pub data Operation (V : Type 0) : Type 0 where
  pushes : Faults V → ℕ → List (DataPoint V) → String → Operation V
  drains : Faults V → (ℕ → Bool) → String → Operation V

module _ {V : Type 0} where
  pub run_operation : Operation V → OfflineBuffer V → OfflineBuffer V
  run_operation (pushes f now points source) b = (push_batch f now points source b).1
  run_operation (drains f accepts source) b = (drain f accepts source b).1

  abbrev pub run_operations : List (Operation V) → OfflineBuffer V → OfflineBuffer V
  run_operations [] b = b
  run_operations (o ∷ os) b = run_operations os (run_operation o b)

  run_operation-IsOrdered :
      (o : Operation V) (b : OfflineBuffer V) → IsOrdered b → IsOrdered (run_operation o b)
  unfolding run_operation
  run_operation-IsOrdered (pushes f now points source) b a =
      push_batch-IsOrdered f now points source b a
  run_operation-IsOrdered (drains f accepts source) b a = drain-IsOrdered f accepts source b a

  IsAscending-below :
      (low high bound : ℕ) (files : Directory V)
      → IsAscending low high files
      → low ≤ bound
      → max_seq files < bound
      → IsAscending low bound files
  unfolding max_seq
  IsAscending-below low high bound [] a h m = h
  IsAscending-below low high bound ((seq, e) ∷ files) (l, a) h m =
      (l, IsAscending-below (suc seq) high bound files a (ground arith) (ground arith))

  run_all-IsOrdered :
      (os : List (Operation V)) (b : OfflineBuffer V)
      → IsOrdered b
      → IsOrdered (run_operations os b)
  run_all-IsOrdered [] b a = a
  run_all-IsOrdered (o ∷ os) b a =
      run_all-IsOrdered os (run_operation o b) (run_operation-IsOrdered o b a)

  -- From a buffer made on a directory that could be listed, through any run of pushes and drains
  -- with any faults in them, the files stay in the order of their numbers, all below the next one,
  -- and the bound of a new buffer is at least 1.
  pub run_operations-IsOrdered :
      (f : Faults V) (dir : String) (max_entries high : ℕ) (files : Directory V)
      (os : List (Operation V)) {b : OfflineBuffer V}
      → f.lists ≡ true
      → IsAscending 0 high files
      → new_offline_buffer f dir max_entries files ≡ some b
      → IsOrdered (run_operations os b) × (1 ≤ b.max_entries)
  unfolding new_offline_buffer scan_max_seq
  run_operations-IsOrdered f dir max_entries high files os {b} listed a made =
      let (full, same) = made_lem in
      (
        run_all-IsOrdered os b (
            subst IsOrdered same
              (IsAscending-below 0 high (max_seq files + 1) files a (omega arith) (omega arith))),
        full,
      )
    where
      made_lem :
          (1 ≤ b.max_entries)
          × (record {
            max_entries = if max_entries == 0 then default_max_entries else max_entries;
            files = files;
            next_seq = max_seq files + 1;
            drain_count = 0;
            evict_count = 0;
          }
              ≡ b)
      made_lem = ground arith
