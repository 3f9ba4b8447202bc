-- ===== src/Engine/OfflineBuffer.antt =====
-- engine/offlinebuffer.go: the batches that wait on disk. The directory is the list of its numbered
-- files, `none` for one that is no JSON entry; other names are skipped by the source and left out.
-- `Faults` says which calls of the file system fail. A method runs as one step.
pub mod Order
pub mod Eviction
pub mod Bounded
pub mod Drain
pub mod Replay
pub mod Finish
pub mod Runs
mod Tests
use core_c.Common.{
  ℕ, zero, suc, ◌+◌, String, Bool, true, false, not, Option, none, some, List, [], ◌∷◌, map, length,
  ltb, leb, if◌then◌else◌, ◌==◌, nat_key, string_key,
}
use core_c.Common.Maps.{lookup, insert, delete}
use core_c.Common.Sort.{sort_by}
use core_c.Core.{DataPoint}

pub record OfflineEntry (V : Type 0) : Type 0 where
  pub seq : ℕ
  pub time : ℕ
  pub points : List (DataPoint V)
  pub source : String

abbrev pub Directory : Type 0 → Type 0
Directory V = List (ℕ × Option (OfflineEntry V))

pub record OfflineBuffer (V : Type 0) : Type 0 where
  pub max_entries : ℕ
  pub files : Directory V
  pub next_seq : ℕ
  pub drain_count : ℕ
  pub evict_count : ℕ

-- What the outside decides: whether listing the directory, writing the new file through to the
-- rename, and reading and removing the file of a number work; and `encoding/json`: `none` when
-- `Marshal` refuses the entry, otherwise what the file is read back as.
pub record Faults (V : Type 0) : Type 0 where
  pub marshal : OfflineEntry V → Option (Option (OfflineEntry V))
  pub lists : Bool
  pub writes : Bool
  pub reads : ℕ → Bool
  pub removes : ℕ → Bool

abbrev pub default_max_entries : ℕ
default_max_entries = 10_000

module _ {V : Type 0} where
  pub max_seq : Directory V → ℕ
  max_seq [] = 0
  max_seq ((seq, e) ∷ files) = let rest = max_seq files in if ltb rest seq then seq else rest

  scan_max_seq : Faults V → Directory V → ℕ
  unfolding max_seq
  scan_max_seq f files = if f.lists then max_seq files else 0

  -- `dir` is checked for being empty; creating it works.
  pub new_offline_buffer : Faults V → String → ℕ → Directory V → Option (OfflineBuffer V)
  unfolding scan_max_seq
  new_offline_buffer f dir max_entries files =
      if dir == ""
      then none
      else some (record {
        max_entries = if max_entries == 0 then default_max_entries else max_entries;
        files = files;
        next_seq = scan_max_seq f files + 1;
        drain_count = 0;
        evict_count = 0;
      })

  -- The sequence numbers, oldest first.
  pub sorted_seqs : Directory V → List ℕ
  unfolding sort_by
  sorted_seqs files = sort_by (λ seq. seq) (map (λ (e : ℕ × Option (OfflineEntry V)). e.0) files)

  pub remove_oldest : Faults V → ℕ → OfflineBuffer V → OfflineBuffer V
  unfolding delete
  remove_oldest f seq b =
      if f.removes seq
      then record b { files = delete seq b.files; evict_count = b.evict_count + 1 }
      else b

  -- The loop of `evictIfNeeded` over the sorted numbers.
  pub evict_loop : Faults V → List ℕ → OfflineBuffer V → OfflineBuffer V
  unfolding remove_oldest
  evict_loop f [] b = b
  evict_loop f (oldest ∷ seqs) b =
      let rest = evict_loop f seqs (remove_oldest f oldest b) in
      if leb b.max_entries (suc (length seqs)) then rest else b

  pub evict_if_needed : Faults V → OfflineBuffer V → OfflineBuffer V
  unfolding evict_loop sorted_seqs
  evict_if_needed f b = if f.lists then evict_loop f (sorted_seqs b.files) b else b

  -- What `Push` does with the encoded entry: the number is taken, whether or not there is one and
  -- it can be written.
  pub write_entry :
      Faults V → Option (Option (OfflineEntry V)) → OfflineBuffer V → Bool × OfflineBuffer V
  unfolding insert
  write_entry f none b = (false, record b { next_seq = b.next_seq + 1 })
  write_entry f (some content) b =
      if f.writes
      then (true, record b { next_seq = b.next_seq + 1; files = insert b.next_seq content b.files })
      else (false, record b { next_seq = b.next_seq + 1 })

  pub store_entry :
      Faults V → ℕ → List (DataPoint V) → String → OfflineBuffer V → Bool × OfflineBuffer V
  unfolding write_entry
  store_entry f now points source b =
      let entry : OfflineEntry V = record {
        seq = b.next_seq;
        time = now;
        points = points;
        source = source;
      } in
      write_entry f (f.marshal entry) b

  -- `true` for no error.
  pub push_batch :
      Faults V → ℕ → List (DataPoint V) → String → OfflineBuffer V → Bool × OfflineBuffer V
  unfolding evict_if_needed store_entry
  push_batch f now [] source b = (true, b)
  push_batch f now (p ∷ points) source b =
      store_entry f now (p ∷ points) source (evict_if_needed f b)

-- How a drain ended.
pub data DrainEnd : Type 0 where
  completed paused read_failed list_failed : DrainEnd

pub record Drained (V : Type 0) : Type 0 where
  pub end : DrainEnd
  pub published : List (ℕ × List (DataPoint V))
  pub files : Directory V

module _ {V : Type 0} where
  -- A replayed batch, put before what the rest of the loop does.
  abbrev pub after_replay : ℕ → List (DataPoint V) → Drained V → Drained V
  after_replay seq points d = record d { published = (seq, points) ∷ d.published }

  -- The loop of `Drain`; `accepts` is what the transport answers to the batch of a number.
  pub drain_loop : Faults V → (ℕ → Bool) → String → List ℕ → Directory V → Drained V
  unfolding lookup delete
  drain_loop f accepts source [] files = record { end = completed; published = []; files = files }
  drain_loop f accepts source (seq ∷ seqs) files = elim (lookup seq files) [
    | none ↦ drain_loop f accepts source seqs files
    | some content ↦ elim (f.reads seq) [
      | false ↦ record { end = read_failed; published = []; files = files }
      | true ↦ elim content [
        | none ↦
            drain_loop f accepts source seqs (if f.removes seq then delete seq files else files)
        | some entry ↦ elim (entry.source == source) [
          | false ↦ drain_loop f accepts source seqs files
          | true ↦ elim (accepts seq) [
            | false ↦ record { end = paused; published = []; files = files }
            | true ↦ after_replay seq entry.points (
                drain_loop f accepts source seqs
                  (if f.removes seq then delete seq files else files))
          ]
        ]
      ]
    ]
  ]

  pub drain : Faults V → (ℕ → Bool) → String → OfflineBuffer V → Drained V × OfflineBuffer V
  unfolding drain_loop sorted_seqs
  drain f accepts source b =
      if f.lists
      then (let d = drain_loop f accepts source (sorted_seqs b.files) b.files in
          (d, record b { files = d.files; drain_count = b.drain_count + length d.published }))
      else (record { end = list_failed; published = []; files = b.files }, b)

  pub pending : Faults V → OfflineBuffer V → ℕ
  pending f b = if f.lists then length b.files else 0
