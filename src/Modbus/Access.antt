-- ===== src/Modbus/Access.antt =====
-- driver/modbus/modbus_read.go: decoding, the reads of a tag and of a batch, and `Read`.
use core_c.Common.{
  ℕ, zero, suc, ◌+◌, ◌-◌, ◌*◌, Bool, not, ◌&&◌, Option, none, some, List, [], ◌∷◌, ◌++◌, get_elem?,
  if◌then◌else◌, ◌==◌, nat_key,
}
use core_c.Common.Maps.{lookup}
use core_c.Core.{
  DataType, type_bool, type_int16, type_int32, type_int64, type_uint16, type_uint32, type_uint64,
  type_float32, type_float64,
}
use core_c.Modbus.{
  AreaType, AddrInfo, Value, Reading, Client, wrap, reg_type, is_bit_area, is_bool,
  register_quantity, BatchTagReq, ReadBatch, ModbusTag, requests, area_batches, done, fails, panics,
  bool_value, word_value, area_coil, area_discrete_input, area_input_register,
  area_holding_register, holding_register, input_register,
}

-- The next registers put together, the first one highest.
unfoldable pub combined : ℕ → List ℕ → ℕ → ℕ → Reading ℕ
combined zero regs offset acc = done acc
combined (suc n) regs offset acc = elim (get_elem? regs offset) [
  | none ↦ panics
  | some v ↦ combined n regs (offset + 1) (acc * 65_536 + v)
]

unfoldable pub as_value : DataType → Reading ℕ → Reading Value
as_value type_bool (done v) = done (bool_value (not (v == 0)))
as_value dt (done v) = done (word_value dt v)
as_value dt fails = fails
as_value dt panics = panics

unfoldable pub extract_register_value : List ℕ → ℕ → DataType → Reading Value
unfolding as_value combined
extract_register_value regs offset dt =
    let (n, ok) = register_quantity dt in
    if ok then as_value dt (combined n regs offset 0) else fails

unfoldable pub on_answer : {A B : Type 0} → Option A → (A → Reading B) → Reading B
on_answer none f = fails
on_answer (some a) f = f a

unfoldable pub then_read : {A B : Type 0} → Reading A → (A → Reading B) → Reading B
then_read (done a) f = f a
then_read fails f = fails
then_read panics f = panics

-- Where a tag stands in the answer to its batch.
abbrev pub offset_in : ReadBatch → BatchTagReq → ℕ
offset_in batch r = wrap (r.ai.addr + 65_536 - batch.start)

unfoldable pub bit_at : List Bool → ℕ → Reading Value
bit_at bits offset = elim (get_elem? bits offset) [ none ↦ panics | some b ↦ done (bool_value b) ]

-- The value of each request by this reading, until one has none.
unfoldable pub each_value :
    (BatchTagReq → Reading Value) → List BatchTagReq → Reading (List (ℕ × Value))
unfolding then_read
each_value read [] = done []
each_value read (r ∷ reqs) =
    let rest = each_value read reqs in
    then_read (read r) (λ v. then_read rest (λ vs. done ((r.index, v) ∷ vs)))

module _ (c : Client) where
  unfoldable pub read_bool_tag : AddrInfo → Reading Value
  unfolding on_answer
  read_bool_tag ai = elim ai.area [
    | area_coil ↦ on_answer (c.read_coil ai.addr) (λ b. done (bool_value b))
    | area_discrete_input ↦ on_answer (c.read_discrete_input ai.addr) (λ b. done (bool_value b))
    | area_input_register ↦
        on_answer (c.read_register input_register ai.addr) (λ v. done (bool_value (not (v == 0))))
    | area_holding_register ↦
        on_answer (c.read_register holding_register ai.addr) (λ v. done (bool_value (not (v == 0))))
  ]

  unfoldable pub read_single_register : AddrInfo → DataType → Reading Value
  unfolding on_answer reg_type
  read_single_register ai dt =
      on_answer (c.read_register (reg_type ai.area) ai.addr) (λ v. done (word_value dt v))

  -- `readDoubleRegister`, `readQuadRegister` and `readFloat64Tag`, by the number of registers.
  unfoldable pub read_several_registers : ℕ → AddrInfo → DataType → Reading Value
  unfolding on_answer reg_type combined as_value
  read_several_registers n ai dt =
      on_answer (c.read_registers (reg_type ai.area) ai.addr n)
        (λ regs. as_value dt (combined n regs 0 0))

  unfoldable pub read_float32_tag : AddrInfo → Reading Value
  unfolding on_answer reg_type
  read_float32_tag ai =
      on_answer (c.read_float32 (reg_type ai.area) ai.addr) (λ v. done (word_value type_float32 v))

  unfoldable pub read_typed : AddrInfo → DataType → Reading Value
  unfolding read_bool_tag read_single_register read_several_registers read_float32_tag
  read_typed ai type_bool = read_bool_tag ai
  read_typed ai type_uint16 = read_single_register ai type_uint16
  read_typed ai type_int16 = read_single_register ai type_int16
  read_typed ai type_uint32 = read_several_registers 2 ai type_uint32
  read_typed ai type_int32 = read_several_registers 2 ai type_int32
  read_typed ai type_float32 = read_float32_tag ai
  read_typed ai type_float64 = read_several_registers 4 ai type_float64
  read_typed ai type_uint64 = read_several_registers 4 ai type_uint64
  read_typed ai type_int64 = read_several_registers 4 ai type_int64
  read_typed ai dt = fails

  -- `readTag`, with a client that is there.
  unfoldable pub read_tag : AddrInfo → DataType → Reading Value
  unfolding read_typed
  read_tag ai dt = if is_bit_area ai.area && not (is_bool dt) then fails else read_typed ai dt

  -- `readBatch`, with a client that is there.
  unfoldable pub read_batch : ReadBatch → Reading (List (ℕ × Value))
  unfolding on_answer reg_type extract_register_value bit_at each_value
  read_batch batch = elim batch.area [
    | area_coil ↦
        on_answer (c.read_coils batch.start batch.qty)
          (λ bits. each_value (λ r. bit_at bits (offset_in batch r)) batch.indices)
    | area_discrete_input ↦
        on_answer (c.read_discrete_inputs batch.start batch.qty)
          (λ bits. each_value (λ r. bit_at bits (offset_in batch r)) batch.indices)
    | area_input_register ↦
        on_answer (c.read_registers input_register batch.start batch.qty) (λ regs.
          each_value (λ r. extract_register_value regs (offset_in batch r) r.dt) batch.indices)
    | area_holding_register ↦
        on_answer (c.read_registers holding_register batch.start batch.qty) (λ regs.
          each_value (λ r. extract_register_value regs (offset_in batch r) r.dt) batch.indices)
  ]

-- A result of `Read`: a tag that is not configured, a value of good quality, or an error.
pub data TagResult : Type 0 where
  not_found bad_quality : TagResult
  good_quality : Value → TagResult

-- A failed read becomes a result of bad quality.
pub result_of_reading : ModbusTag → Reading Value → Reading TagResult
result_of_reading t (done v) = done (good_quality (t.transform v))
result_of_reading t fails = done bad_quality
result_of_reading t panics = panics

module _ (c : Client) where
  -- The values of the batches that could be read.
  unfoldable pub read_batches : List ReadBatch → Reading (List (ℕ × Value))
  unfolding read_batch then_read
  read_batches [] = done []
  read_batches (b ∷ batches) =
      let rest = read_batches batches in
      elim (read_batch c b) [
        | done vs ↦ then_read rest (λ more. done (vs ++ more))
        | fails ↦ rest
        | panics ↦ panics
      ]

  -- `performBatchReads`; the areas come in the order of `range` over a map, which Go leaves open.
  unfoldable pub perform_batch_reads :
      List AreaType → ℕ → List BatchTagReq → Reading (List (ℕ × Value))
  unfolding read_batches area_batches
  perform_batch_reads [] max_batch reqs = done []
  perform_batch_reads (area ∷ areas) max_batch reqs =
      let rest = perform_batch_reads areas max_batch reqs in
      then_read (read_batches (area_batches area reqs max_batch))
        (λ vs. then_read rest (λ more. done (vs ++ more)))

  -- The value from a batch, or else the tag's own read.
  unfoldable pub value_or_read : ModbusTag → Option Value → Reading Value
  unfolding read_tag
  value_or_read t none = read_tag c t.ai t.dt
  value_or_read t (some v) = done v

  -- The results in input order, from this index on.
  unfoldable pub assemble :
      List (ℕ × Value) → ℕ → List (Option ModbusTag) → Reading (List TagResult)
  unfolding value_or_read result_of_reading then_read lookup
  assemble values n [] = done []
  assemble values n (none ∷ tags) =
      let rest = assemble values (n + 1) tags in then_read rest (λ rs. done (not_found ∷ rs))
  assemble values n (some t ∷ tags) =
      let rest = assemble values (n + 1) tags in
      then_read (result_of_reading t (value_or_read t (lookup n values)))
        (λ r. then_read rest (λ rs. done (r ∷ rs)))

  -- `Read` of a connected driver.
  unfoldable pub read_tags : List AreaType → ℕ → List (Option ModbusTag) → Reading (List TagResult)
  unfolding perform_batch_reads assemble requests
  read_tags areas max_batch tags =
      then_read (perform_batch_reads areas max_batch (requests 0 tags))
        (λ values. assemble values 0 tags)
