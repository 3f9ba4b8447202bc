-- ===== src/S7.antt =====
-- driver/s7/s7_merge.go: the planner of merged reads. Offsets are not negative, since
-- driver/s7/s7_address.go reads them from digits; a comparison of differences is written as one of
-- sums, so that no subtraction is below 0. `F` stands for float64.
pub mod Segments
pub mod Groups
pub mod Plan
pub mod Reads
pub mod Partition
mod Tests
use core_c.Common.{
  ℕ, ◌+◌, ◌-◌, String, Bool, true, false, ◌&&◌, List, [], ◌∷◌, ◌++◌, take, drop, ltb, leb,
  if◌then◌else◌, ◌==◌, nat_key,
}
use core_c.Common.Sort.{sort_by}
use core_c.Core.{DataType}

abbrev pub s7_merge_gap_limit : ℕ
s7_merge_gap_limit = 32

abbrev pub s7_max_pdu_read_len : ℕ
s7_max_pdu_read_len = 480

-- `area` is the number of the memory area, as `s7Area` is.
pub record S7Address : Type 0 where
  pub area : ℕ
  pub db_number : ℕ
  pub start : ℕ
  pub bit : ℕ
  pub size : ℕ
  pub is_bit : Bool

pub record S7ReadTag (F : Type 0) : Type 0 where
  pub index : ℕ
  pub name : String
  pub addr : S7Address
  pub dt : DataType
  pub scale : F
  pub offset : F

pub record S7ReadSegment (F : Type 0) : Type 0 where
  pub area : ℕ
  pub db_number : ℕ
  pub start : ℕ
  pub length : ℕ
  pub entries : List (S7ReadTag F)

pub record GroupKey : Type 0 where
  pub area : ℕ
  pub db_number : ℕ

pub is_same_key : GroupKey → GroupKey → Bool
is_same_key a b = a.area == b.area && a.db_number == b.db_number

-- A group: its key and its tags.
pub record Group (F : Type 0) : Type 0 where
  pub key : GroupKey
  pub tags : List (S7ReadTag F)

module _ {F : Type 0} where
  pub key_of : S7ReadTag F → GroupKey
  key_of tag = record { area = tag.addr.area; db_number = tag.addr.db_number }

  -- One round of the loop over the tags; the groups come in the order of `keys`.
  pub add_to_group : S7ReadTag F → List (Group F) → List (Group F)
  unfolding is_same_key key_of
  add_to_group tag [] = record { key = key_of tag; tags = tag ∷ [] } ∷ []
  add_to_group tag (g ∷ gs) =
      let rest = add_to_group tag gs in
      if is_same_key g.key (key_of tag)
      then record g { tags = g.tags ++ tag ∷ [] } ∷ gs
      else g ∷ rest

  pub group_tags : List (S7ReadTag F) → List (Group F) → List (Group F)
  unfolding add_to_group
  group_tags [] groups = groups
  group_tags (tag ∷ tags) groups = group_tags tags (add_to_group tag groups)

  -- By area, then by number. The keys differ, so a stable sort by each gives the only order.
  pub sort_keys : List (Group F) → List (Group F)
  unfolding sort_by
  sort_keys gs =
      sort_by (λ (g : Group F). g.key.area) (sort_by (λ (g : Group F). g.key.db_number) gs)

  pub new_segment : ℕ → ℕ → S7ReadTag F → S7ReadSegment F
  new_segment area db_number tag = record {
    area = area;
    db_number = db_number;
    start = tag.addr.start;
    length = tag.addr.size;
    entries = tag ∷ [];
  }

  -- `gap <= s7MergeGapLimit && mergedLen <= s7MaxPDUReadLen` in the segment's group.
  pub takes : S7ReadSegment F → ℕ → ℕ → S7ReadTag F → Bool
  takes cur area db_number tag =
      (cur.area == area && cur.db_number == db_number)
      && (leb tag.addr.start (cur.start + cur.length + s7_merge_gap_limit)
          && leb (tag.addr.start + tag.addr.size) (cur.start + s7_max_pdu_read_len))

  pub extend : S7ReadSegment F → S7ReadTag F → S7ReadSegment F
  extend cur tag = record cur {
    length =
        if ltb (cur.start + cur.length) (tag.addr.start + tag.addr.size)
        then tag.addr.start + tag.addr.size - cur.start
        else cur.length;
    entries = cur.entries ++ tag ∷ [];
  }

  pub append_merged_segment : List (S7ReadSegment F) → ℕ → ℕ → S7ReadTag F → List (S7ReadSegment F)
  unfolding takes extend new_segment
  append_merged_segment [] area db_number tag = new_segment area db_number tag ∷ []
  append_merged_segment (cur ∷ []) area db_number tag =
      if takes cur area db_number tag
      then extend cur tag ∷ []
      else cur ∷ new_segment area db_number tag ∷ []
  append_merged_segment (s ∷ t ∷ ss) area db_number tag =
      s ∷ append_merged_segment (t ∷ ss) area db_number tag

  pub plan_group : List (S7ReadSegment F) → GroupKey → List (S7ReadTag F) → List (S7ReadSegment F)
  unfolding append_merged_segment
  plan_group segments k [] = segments
  plan_group segments k (tag ∷ tags) =
      plan_group (append_merged_segment segments k.area k.db_number tag) k tags

  pub plan_groups : List (S7ReadSegment F) → List (Group F) → List (S7ReadSegment F)
  unfolding plan_group sort_by
  plan_groups segments [] = segments
  plan_groups segments (g ∷ gs) =
      plan_groups (plan_group segments g.key (sort_by (λ (t : S7ReadTag F). t.addr.start) g.tags))
        gs

  pub plan_s7_read_segments : List (S7ReadTag F) → List (S7ReadSegment F)
  unfolding plan_groups group_tags sort_keys
  plan_s7_read_segments tags = plan_groups [] (sort_keys (group_tags tags []))

  -- `buf[off : off+tag.addr.size]` in `readMergedSegment`.
  pub sub_buffer : S7ReadSegment F → S7ReadTag F → List ℕ → List ℕ
  sub_buffer seg tag buf = take tag.addr.size (drop (tag.addr.start - seg.start) buf)
