-- ===== src/Modbus/Plan.antt =====
-- driver/modbus/modbus_read.go, `mergeBatches`: the batches and what they cover.
use mathlib.Core.List.{flatten}
use core_c.Common.{
  ℕ, ◌+◌, ◌-◌, ◌≤◌, ◌<◌, ◌≡◌, refl, ap, ◌∙◌, inl, inr, ◌&&◌, List, [], ◌∷◌, ◌++◌, map, arith, All,
  All-append, leb, nat_key, Bool-cases, append_assoc,
}
use core_c.Common.Sort.{sort_by, IsSortedFrom}
use core_c.Modbus.{
  AreaType, BatchTagReq, ReadBatch, group_area, new_batch, larger, wrap, merge_loop, merge_batches,
  area_batches,
}

abbrev pub addr_of : BatchTagReq → ℕ
addr_of r = r.ai.addr

-- The tag lies in the 65536 addresses, and not at their very end.
abbrev pub Fits : BatchTagReq → Type 0
Fits r = r.ai.addr + r.qty < 65_536

-- The tag lies within these addresses.
abbrev pub IsCovered : ℕ → ℕ → BatchTagReq → Type 0
IsCovered start qty r = (start ≤ r.ai.addr) × (r.ai.addr + r.qty ≤ start + qty)

-- A batch covers its tags, within the limit and the addresses.
abbrev pub IsSpanned : ℕ → ReadBatch → Type 0
IsSpanned max_batch b =
    All (IsCovered b.start b.qty) b.indices
    × (b.start + b.qty < 65_536)
    × (b.qty ≤ max_batch)
    × (1 ≤ b.qty)

IsCovered-wider :
    (start qty qty' : ℕ) (rs : List BatchTagReq)
    → qty ≤ qty'
    → All (IsCovered start qty) rs
    → All (IsCovered start qty') rs
IsCovered-wider start qty qty' [] h all = tt
IsCovered-wider start qty qty' (r ∷ rs) h ((l, u), all) =
    ((l, omega arith), IsCovered-wider start qty qty' rs h all)

-- The end of a merged batch, and its quantity, without wrap-around.
merged_quantity :
    (start qty addr q : ℕ)
    → start ≤ addr
    → start + qty < 65_536
    → addr + q < 65_536
    → (wrap (larger (start + qty) (wrap (addr + q)) + 65_536 - start)
        ≡ larger (start + qty) (addr + q) - start)
      × (larger (start + qty) (wrap (addr + q)) ≡ larger (start + qty) (addr + q))
      × (start + (larger (start + qty) (addr + q) - start) ≡ larger (start + qty) (addr + q))
      × (start + qty ≤ larger (start + qty) (addr + q))
      × (addr + q ≤ larger (start + qty) (addr + q))
      × (larger (start + qty) (addr + q) < 65_536)
merged_quantity start qty addr q h k l = ground arith

merge_loop-IsSpanned :
    (area : AreaType) (max_batch : ℕ) (cur : ReadBatch) (cur_end n : ℕ) (reqs : List BatchTagReq)
    → cur_end ≡ cur.start + cur.qty
    → IsSpanned max_batch cur
    → cur.start ≤ n
    → IsSortedFrom addr_of n reqs
    → All (λ (r : BatchTagReq). Fits r × (r.qty ≤ max_batch) × (1 ≤ r.qty)) reqs
    → All (IsSpanned max_batch) (merge_loop area max_batch cur cur_end reqs)
unfolding merge_loop new_batch
merge_loop-IsSpanned area max_batch cur cur_end n [] e s h sorted fits = (s, tt)
merge_loop-IsSpanned area max_batch cur cur_end n (r ∷ reqs) e (covered, top, small, full) h
      (later, sorted) ((fit, one, some_there), fits) =
    let t_end = wrap (r.ai.addr + r.qty) in
    let merged_end = larger cur_end t_end in
    let merged_qty = wrap (merged_end + 65_536 - cur.start) in
    let m = merged_quantity cur.start cur.qty r.ai.addr r.qty (omega arith) top fit in
    let at_end : merged_end ≡ larger (cur.start + cur.qty) (r.ai.addr + r.qty) =
      ap (λ n. larger n t_end) e ∙ m.1 in
    let quantity : merged_qty ≡ larger (cur.start + cur.qty) (r.ai.addr + r.qty) - cur.start =
      ap (λ n. wrap (larger n t_end + 65_536 - cur.start)) e ∙ m.0 in
    elim (Bool-cases (leb r.ai.addr cur_end && leb merged_qty max_batch)) [
      | inl merges ↦
          rw (merge_loop, merges)
            (merge_loop-IsSpanned area max_batch
              (record cur { indices = cur.indices ++ r ∷ []; qty = merged_qty }) merged_end
              r.ai.addr reqs (omega (arith, at_end, quantity, m))
              (
                All-append (IsCovered cur.start merged_qty) cur.indices (r ∷ [])
                    (IsCovered-wider cur.start cur.qty merged_qty cur.indices
                      (omega (arith, quantity, m)) covered)
                    ((omega arith, omega (arith, quantity, m)), tt),
                omega (arith, quantity, m),
                ground arith,
                omega (arith, quantity, m),
              )
              (omega arith) sorted fits)
      | inr parts ↦
          rw (merge_loop, parts)
            (
              (covered, top, small, full),
              merge_loop-IsSpanned area max_batch (new_batch area r) t_end r.ai.addr reqs
                  (ground arith) (((omega arith, omega arith), tt), fit, one, some_there)
                  (omega arith) sorted fits,
            )
    ]

-- The batches hold the requests in their order, each once.
merge_loop-indices :
    (area : AreaType) (max_batch : ℕ) (cur : ReadBatch) (cur_end : ℕ) (reqs : List BatchTagReq)
    → flatten (map (λ (b : ReadBatch). b.indices) (merge_loop area max_batch cur cur_end reqs))
      ≡ cur.indices ++ reqs
unfolding merge_loop new_batch flatten
merge_loop-indices area max_batch cur cur_end [] = refl
merge_loop-indices area max_batch cur cur_end (r ∷ reqs) =
    let t_end = wrap (r.ai.addr + r.qty) in
    let merged_end = larger cur_end t_end in
    let merged_qty = wrap (merged_end + 65_536 - cur.start) in
    elim (Bool-cases (leb r.ai.addr cur_end && leb merged_qty max_batch)) [
      | inl merges ↦
          rw (merge_loop, merges)
            (merge_loop-indices area max_batch
                (record cur { indices = cur.indices ++ r ∷ []; qty = merged_qty }) merged_end reqs
              ∙ append_assoc cur.indices (r ∷ []) reqs)
      | inr parts ↦
          rw (merge_loop, parts)
            (ap (λ (rs : List BatchTagReq). cur.indices ++ rs)
              (merge_loop-indices area max_batch (new_batch area r) t_end reqs))
    ]

-- Put one after the other, the requests in the batches of an area are the batchable requests of
-- that area sorted by address, each once and in that order, whatever the addresses and the limit.
pub area_batches-indices :
    (area : AreaType) (reqs : List BatchTagReq) (max_batch : ℕ)
    → flatten (map (λ (b : ReadBatch). b.indices) (area_batches area reqs max_batch))
      ≡ sort_by addr_of (group_area area reqs)
unfolding area_batches merge_batches flatten
area_batches-indices area reqs max_batch = of_sorted (sort_by addr_of (group_area area reqs))
  where
    of_sorted :
        (rs : List BatchTagReq)
        → flatten (map (λ (b : ReadBatch). b.indices) (merge_batches area rs max_batch)) ≡ rs
    of_sorted [] = refl
    of_sorted (r ∷ rs) =
        merge_loop-indices area max_batch (new_batch area r) (wrap (r.ai.addr + r.qty)) rs

pub merge_batches-IsSpanned :
    (area : AreaType) (reqs : List BatchTagReq) (max_batch : ℕ)
    → IsSortedFrom addr_of 0 reqs
    → All (λ (r : BatchTagReq). Fits r × (r.qty ≤ max_batch) × (1 ≤ r.qty)) reqs
    → All (IsSpanned max_batch) (merge_batches area reqs max_batch)
unfolding merge_batches new_batch
merge_batches-IsSpanned area [] max_batch sorted fits = tt
merge_batches-IsSpanned area (r ∷ reqs) max_batch (low, sorted) ((fit, one, some_there), fits) =
    merge_loop-IsSpanned area max_batch (new_batch area r) (wrap (r.ai.addr + r.qty)) r.ai.addr reqs
      (ground arith) (((omega arith, omega arith), tt), fit, one, some_there) (omega arith) sorted
      fits

-- Every batch is of the area, and has what its requests had.
merge_loop-All :
    (P : BatchTagReq → Type 0) (area : AreaType) (max_batch : ℕ) (cur : ReadBatch) (cur_end : ℕ)
    (reqs : List BatchTagReq)
    → cur.area ≡ area
    → All P cur.indices
    → All P reqs
    → All
        (λ (b : ReadBatch). (b.area ≡ area) × All P b.indices)
        (merge_loop area max_batch cur cur_end reqs)
unfolding merge_loop new_batch
merge_loop-All P area max_batch cur cur_end [] e all none_left = ((e, all), tt)
merge_loop-All P area max_batch cur cur_end (r ∷ reqs) e all (p, rest) =
    let t_end = wrap (r.ai.addr + r.qty) in
    let merged_end = larger cur_end t_end in
    let merged_qty = wrap (merged_end + 65_536 - cur.start) in
    elim (Bool-cases (leb r.ai.addr cur_end && leb merged_qty max_batch)) [
      | inl merges ↦
          rw (merge_loop, merges)
            (merge_loop-All P area max_batch
              (record cur { indices = cur.indices ++ r ∷ []; qty = merged_qty }) merged_end reqs e
              (All-append P cur.indices (r ∷ []) all (p, tt)) rest)
      | inr parts ↦
          rw (merge_loop, parts)
            (
              (e, all),
              merge_loop-All P area max_batch (new_batch area r) t_end reqs refl (p, tt) rest,
            )
    ]

pub merge_batches-All :
    (P : BatchTagReq → Type 0) (area : AreaType) (reqs : List BatchTagReq) (max_batch : ℕ)
    → All P reqs
    → All (λ (b : ReadBatch). (b.area ≡ area) × All P b.indices) (merge_batches area reqs max_batch)
unfolding merge_batches new_batch
merge_batches-All P area [] max_batch all = tt
merge_batches-All P area (r ∷ reqs) max_batch (p, rest) =
    merge_loop-All P area max_batch (new_batch area r) (wrap (r.ai.addr + r.qty)) reqs refl (p, tt)
      rest
