-- ===== src/S7/Tests.antt =====
-- driver/s7/s7_merge.go, on concrete inputs.
use core_c.Common.{ℕ, ◌≡◌, refl, false, List, [], ◌∷◌, All, map, ◌==◌, nat_key}
use core_c.Core.{type_uint16}
use core_c.S7.{S7ReadTag, S7ReadSegment, plan_s7_read_segments}
use core_c.S7.Reads.{IsReadAlone, plan_s7_read_segments-IsReadAlone}
use core_c.S7.Partition.{count_entries, count-plan_s7_read_segments}

abbrev tag : ℕ → ℕ → ℕ → ℕ → S7ReadTag ℕ
tag index area db start = record {
  index = index;
  name = "";
  addr = record { area = area; db_number = db; start = start; bit = 0; size = 2; is_bit = false };
  dt = type_uint16;
  scale = 1;
  offset = 0;
}

-- Three neighbours in one block, one tag behind a gap, one in another block.
abbrev tags : List (S7ReadTag ℕ)
tags = tag 0 0 1 4 ∷ tag 1 0 2 0 ∷ tag 2 0 1 0 ∷ tag 3 0 1 100 ∷ tag 4 0 1 2 ∷ []

abbrev memory : ℕ → ℕ → List ℕ
memory area db = 10 ∷ 11 ∷ 12 ∷ 13 ∷ 14 ∷ 15 ∷ []

plan_s7_read_segments-IsReadAlone_example :
    All (λ (s : S7ReadSegment ℕ). All (IsReadAlone memory s) s.entries) (plan_s7_read_segments tags)
plan_s7_read_segments-IsReadAlone_example = plan_s7_read_segments-IsReadAlone memory tags

count-plan_s7_read_segments_example :
    count_entries (λ t. t.addr.db_number == 1) (plan_s7_read_segments tags) ≡ 4
count-plan_s7_read_segments_example = count-plan_s7_read_segments (λ t. t.addr.db_number == 1) tags

-- Three round trips in place of five.
planned :
    map
      (λ (s : S7ReadSegment ℕ). map (λ (t : S7ReadTag ℕ). t.index) s.entries)
      (plan_s7_read_segments tags)
    ≡ (2 ∷ 4 ∷ 0 ∷ []) ∷ (3 ∷ []) ∷ (1 ∷ []) ∷ []
unfolding plan_s7_read_segments
planned = refl
