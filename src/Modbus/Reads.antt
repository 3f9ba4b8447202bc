-- ===== src/Modbus/Reads.antt =====
-- driver/modbus/modbus_read.go: a merged read compared with the reads of its tags one by one.
use core_c.Common.{
  ℕ, ◌+◌, ◌≤◌, ◌<◌, ◌≡◌, refl, sym, ap, ◌∙◌, inl, inr, Bool, true, false, Option, List, arith,
  nat_key, All, Bool-cases,
}
use core_c.Common.Sort.{sort_by, sort_by-IsSortedBy, All-sort_by}
use core_c.Core.{type_bool}
use core_c.Modbus.{
  AreaType, area_coil, area_discrete_input, area_input_register, area_holding_register, RegType,
  holding_register, input_register, Value, bool_value, Reading, done, Client, ModbusTag,
  BatchTagReq, ReadBatch, reg_type, is_bit_area, is_bool, register_quantity, batch_quantity,
  requests, group_area, merge_batches, area_batches,
}
use core_c.Modbus.Access.{
  offset_in, extract_register_value, on_answer, read_tag, read_typed, read_bool_tag, bit_at,
  each_value, read_batch,
}
use core_c.Modbus.Plan.{addr_of, IsCovered, IsSpanned, merge_batches-IsSpanned, merge_batches-All}
use core_c.Modbus.Decode.{
  IsDevice, span, value_at, extract_register_value-span, bit_at-span, read_typed-value,
}
use core_c.Modbus.Requests.{
  IsRequest, IsPlannable, FitsTag, group_area-IsPlannable, is_bool_lem, offset_lem,
  each_value-congr, All-both,
}

module _ (c : Client) (words : RegType → ℕ → ℕ) (coils inputs : ℕ → Bool)
    (device : IsDevice c words coils inputs) where
  abbrev pub read_alone : BatchTagReq → Reading Value
  read_alone r = read_tag c r.ai r.dt

  -- A batchable request for registers has the quantity of its type.
  register_request :
      (r : BatchTagReq) (area : AreaType)
      → is_bit_area area ≡ false
      → IsRequest area r
      → (is_bit_area r.ai.area ≡ false)
        × ((register_quantity r.dt).1 ≡ true)
        × (r.qty ≡ (register_quantity r.dt).0)
  unfolding batch_quantity
  register_request r area bits (in_area, is_batchable, quantity, batches) =
      let is_register : is_bit_area r.ai.area ≡ false = ap is_bit_area in_area ∙ bits in
      let same : batch_quantity r.ai r.dt ≡ register_quantity r.dt = rw is_register refl in
      (
        is_register,
        sym (ap (λ (q : ℕ × Bool). q.1) same) ∙ sym batches ∙ is_batchable,
        quantity ∙ ap (λ (q : ℕ × Bool). q.0) same,
      )

  pub register_alone :
      (r : BatchTagReq) (area : AreaType)
      → is_bit_area area ≡ false
      → IsRequest area r
      → r.ai.addr + r.qty < 65_536
      → read_alone r ≡ value_at (words (reg_type r.ai.area)) r.ai.addr r.dt
  unfolding read_tag
  register_alone r area bits req top =
      let (is_register, ok, size) = register_request r area bits req in
      rw is_register (
        read_typed-value c words coils inputs device r.ai r.dt is_register ok (omega (arith, size)))

  register_same :
      (b : ReadBatch) (r : BatchTagReq) (area : AreaType)
      → is_bit_area area ≡ false
      → IsRequest area r
      → IsCovered b.start b.qty r
      → b.start + b.qty < 65_536
      → extract_register_value (span (words (reg_type area)) b.start b.qty) (offset_in b r) r.dt
        ≡ read_alone r
  register_same b r area bits req (l, u) top =
      let (is_register, ok, size) = register_request r area bits req in
      let (at, place) = offset_lem b r l (omega arith) in
      extract_register_value-span (words (reg_type area)) b.start b.qty (offset_in b r) r.dt ok
        (omega (arith, size, at))
      ∙ ap (λ a. value_at (words (reg_type area)) a r.dt) place
      ∙ ap (λ a. value_at (words (reg_type a)) r.ai.addr r.dt) (sym req.0)
      ∙ sym (register_alone r area bits req (omega arith))

  pub batchable_bool :
      (r : BatchTagReq) (area : AreaType)
      → is_bit_area area ≡ true
      → IsRequest area r
      → (r.dt ≡ type_bool) × (r.qty ≡ 1)
  unfolding batch_quantity
  batchable_bool r area bits (in_area, is_batchable, quantity, batches) =
      let is_bits : is_bit_area r.ai.area ≡ true = ap is_bit_area in_area ∙ bits in
      let q = batch_quantity r.ai r.dt in
      elim (Bool-cases (is_bool r.dt)) [
        | inl yes_bool ↦
            let one : q ≡ (1, true) = rw (is_bits, yes_bool) refl in
            (is_bool_lem r.dt yes_bool, quantity ∙ ap (λ (p : ℕ × Bool). p.0) one)
        | inr no_bool ↦
            let zero_q : q ≡ (0, false) = rw (is_bits, no_bool) refl in
            absurd (cc (sym is_batchable ∙ batches ∙ ap (λ (p : ℕ × Bool). p.1) zero_q))
      ]

  coil_same :
      (b : ReadBatch) (r : BatchTagReq)
      → IsRequest area_coil r
      → IsCovered b.start b.qty r
      → b.start + b.qty < 65_536
      → bit_at (span coils b.start b.qty) (offset_in b r) ≡ read_alone r
  unfolding read_tag read_typed read_bool_tag on_answer
  coil_same b r req (l, u) top =
      let (at, place) = offset_lem b r l (omega arith) in
      let (boolean, one) = batchable_bool r area_coil refl req in
      bit_at-span coils b.start b.qty (offset_in b r) (omega (arith, one, at))
      ∙ ap (λ a. done (bool_value (coils a))) place
      ∙ sym (rw (boolean, req.0, device.coil_answers r.ai.addr) refl)

  input_same :
      (b : ReadBatch) (r : BatchTagReq)
      → IsRequest area_discrete_input r
      → IsCovered b.start b.qty r
      → b.start + b.qty < 65_536
      → bit_at (span inputs b.start b.qty) (offset_in b r) ≡ read_alone r
  unfolding read_tag read_typed read_bool_tag on_answer
  input_same b r req (l, u) top =
      let (at, place) = offset_lem b r l (omega arith) in
      let (boolean, one) = batchable_bool r area_discrete_input refl req in
      bit_at-span inputs b.start b.qty (offset_in b r) (omega (arith, one, at))
      ∙ ap (λ a. done (bool_value (inputs a))) place
      ∙ sym (rw (boolean, req.0, device.input_answers r.ai.addr) refl)

  read_batch-each :
      (max_batch : ℕ) (b : ReadBatch) (area : AreaType)
      → max_batch ≤ 125
      → IsSpanned max_batch b
      → (b.area ≡ area) × All (IsRequest area) b.indices
      → read_batch c b ≡ each_value read_alone b.indices
  unfolding read_batch on_answer reg_type
  read_batch-each max_batch b area_coil small (covered, top, size, full) (e, reqs) =
      rw (read_batch, e, device.coils_answer b.start b.qty full (omega arith) (omega arith))
        (each_value-congr (λ r. bit_at (span coils b.start b.qty) (offset_in b r)) read_alone
          b.indices
          (All-both (IsRequest area_coil) (IsCovered b.start b.qty) _
            (λ r q k. coil_same b r q k top) b.indices reqs covered))
  read_batch-each max_batch b area_discrete_input small (covered, top, size, full) (e, reqs) =
      rw (read_batch, e, device.inputs_answer b.start b.qty full (omega arith) (omega arith))
        (each_value-congr (λ r. bit_at (span inputs b.start b.qty) (offset_in b r)) read_alone
          b.indices
          (All-both (IsRequest area_discrete_input) (IsCovered b.start b.qty) _
            (λ r q k. input_same b r q k top) b.indices reqs covered))
  read_batch-each max_batch b area_input_register small (covered, top, size, full) (e, reqs) =
      rw
        (
          read_batch,
          e,
          device.registers_answer input_register b.start b.qty full (omega arith) (omega arith),
        )
        (each_value-congr
          (λ r.
            extract_register_value (span (words input_register) b.start b.qty) (offset_in b r) r.dt)
          read_alone b.indices
          (All-both (IsRequest area_input_register) (IsCovered b.start b.qty) _
            (λ r q k. register_same b r area_input_register refl q k top) b.indices reqs covered))
  read_batch-each max_batch b area_holding_register small (covered, top, size, full) (e, reqs) =
      rw
        (
          read_batch,
          e,
          device.registers_answer holding_register b.start b.qty full (omega arith) (omega arith),
        )
        (each_value-congr
          (λ r.
            extract_register_value (span (words holding_register) b.start b.qty) (offset_in b r)
              r.dt)
          read_alone b.indices
          (All-both (IsRequest area_holding_register) (IsCovered b.start b.qty) _
            (λ r q k. register_same b r area_holding_register refl q k top) b.indices reqs covered))

  -- On a device that answers every read of up to 125 places within the 65536 addresses from its
  -- memory, with a batch limit from 4 to 125, and for tags that end below address 65535 (their
  -- address plus their quantity is below 65536), every merged read that the planner makes for an
  -- area gives, tag by tag and in order, exactly what reading each tag of the batch by itself
  -- gives.
  pub read_batch-each_value :
      (area : AreaType) (tags : List (Option ModbusTag)) (max_batch : ℕ)
      → 4 ≤ max_batch
      → max_batch ≤ 125
      → All FitsTag tags
      → All
          (λ (b : ReadBatch). read_batch c b ≡ each_value (λ r. read_tag c r.ai r.dt) b.indices)
          (area_batches area (requests 0 tags) max_batch)
  unfolding area_batches
  read_batch-each_value area tags max_batch h k fits =
      let group = group_area area (requests 0 tags) in
      let sorted = sort_by addr_of group in
      let all =
        All-sort_by (IsPlannable area max_batch) addr_of group
          (group_area-IsPlannable area max_batch 0 tags h fits) in
      All-both (IsSpanned max_batch)
        (λ (b : ReadBatch). (b.area ≡ area) × All (IsRequest area) b.indices) _
        (λ b spanned reqs. read_batch-each max_batch b area k spanned reqs)
        (merge_batches area sorted max_batch)
        (merge_batches-IsSpanned area sorted max_batch (sort_by-IsSortedBy addr_of group) (
          All-both (IsPlannable area max_batch) (IsPlannable area max_batch) _ (λ r p q. p.1) sorted
            all all))
        (merge_batches-All (IsRequest area) area sorted max_batch (
          All-both (IsPlannable area max_batch) (IsPlannable area max_batch) _ (λ r p q. p.0) sorted
            all all))
