-- ===== src/Modbus.antt =====
-- driver/modbus/modbus_read.go: the merged reads. Addresses and quantities are uint16, with the
-- wrap-around written out. The client is a third-party library that answers from outside; a value is
-- the bits that its type reads, and an index out of range is a panic.
pub mod Access
pub mod Plan
pub mod Decode
pub mod Requests
pub mod Reads
pub mod Whole
mod Tests
use core_c.Common.{
  ℕ, zero, suc, ◌+◌, ◌-◌, ◌*◌, ◌%◌, String, Bool, true, false, not, ◌&&◌, Option, none, some, List,
  [], ◌∷◌, ◌++◌, get_elem?, ltb, leb, if◌then◌else◌, ◌==◌, nat_key,
}
use core_c.Common.Maps.{lookup}
use core_c.Common.Sort.{sort_by}
use core_c.Core.{
  DataType, type_bool, type_int8, type_int16, type_int32, type_int64, type_uint8, type_uint16,
  type_uint32, type_uint64, type_float32, type_float64, type_string, type_bytes,
}

pub data AreaType : Type 0 where
  area_coil area_discrete_input area_input_register area_holding_register : AreaType

pub data RegType : Type 0 where
  holding_register input_register : RegType

pub record AddrInfo : Type 0 where
  pub area : AreaType
  pub addr : ℕ

pub data Value : Type 0 where
  bool_value : Bool → Value
  word_value : DataType → ℕ → Value

-- `panics` for an index out of range.
pub data Reading (A : Type 0) : Type 0 where
  done : A → Reading A
  fails panics : Reading A

-- The calls of the client; `none` for an error. A float32 is its bits.
pub record Client : Type 0 where
  pub read_coils : ℕ → ℕ → Option (List Bool)
  pub read_discrete_inputs : ℕ → ℕ → Option (List Bool)
  pub read_registers : RegType → ℕ → ℕ → Option (List ℕ)
  pub read_coil : ℕ → Option Bool
  pub read_discrete_input : ℕ → Option Bool
  pub read_register : RegType → ℕ → Option ℕ
  pub read_float32 : RegType → ℕ → Option ℕ

abbrev pub modbus_max_batch_size : ℕ
modbus_max_batch_size = 125

-- `uint16(n)`
abbrev pub wrap : ℕ → ℕ
wrap n = n % 65_536

abbrev area_number : AreaType → ℕ
area_number area_coil = 0
area_number area_discrete_input = 1
area_number area_input_register = 2
area_number area_holding_register = 3

pub reg_type : AreaType → RegType
reg_type area_coil = holding_register
reg_type area_discrete_input = holding_register
reg_type area_input_register = input_register
reg_type area_holding_register = holding_register

abbrev pub is_bit_area : AreaType → Bool
is_bit_area area_coil = true
is_bit_area area_discrete_input = true
is_bit_area area_input_register = false
is_bit_area area_holding_register = false

abbrev pub is_bool : DataType → Bool
is_bool type_bool = true
is_bool dt = false

-- The registers of a type, and whether it can be read in a batch.
abbrev pub register_quantity : DataType → ℕ × Bool
register_quantity type_bool = (1, true)
register_quantity type_uint16 = (1, true)
register_quantity type_int16 = (1, true)
register_quantity type_uint32 = (2, true)
register_quantity type_int32 = (2, true)
register_quantity type_float32 = (2, true)
register_quantity type_float64 = (4, true)
register_quantity type_uint64 = (4, true)
register_quantity type_int64 = (4, true)
register_quantity dt = (0, false)

pub batch_quantity : AddrInfo → DataType → ℕ × Bool
batch_quantity ai dt =
    if is_bit_area ai.area
    then (if is_bool dt then (1, true) else (0, false))
    else register_quantity dt

-- `index` is the place in the caller's slice of requests.
pub record BatchTagReq : Type 0 where
  pub index : ℕ
  pub ai : AddrInfo
  pub dt : DataType
  pub qty : ℕ
  pub batchable : Bool

pub record ReadBatch : Type 0 where
  pub area : AreaType
  pub start : ℕ
  pub qty : ℕ
  pub indices : List BatchTagReq

-- A configured tag with its address, and what `util.ApplyTransform` does with its scale and offset.
pub record ModbusTag : Type 0 where
  pub ai : AddrInfo
  pub dt : DataType
  pub transform : Value → Value

-- The requests of `Read`, from this index on; `none` for a tag that is not configured.
pub requests : ℕ → List (Option ModbusTag) → List BatchTagReq
unfolding batch_quantity
requests n [] = []
requests n (none ∷ tags) = requests (n + 1) tags
requests n (some t ∷ tags) =
    record {
      index = n;
      ai = t.ai;
      dt = t.dt;
      qty = (batch_quantity t.ai t.dt).0;
      batchable = (batch_quantity t.ai t.dt).1;
    }
    ∷ requests (n + 1) tags

-- The group of an area in `performBatchReads`.
pub group_area : AreaType → List BatchTagReq → List BatchTagReq
group_area area [] = []
group_area area (r ∷ reqs) =
    let rest = group_area area reqs in
    if r.batchable && area_number r.ai.area == area_number area then r ∷ rest else rest

pub new_batch : AreaType → BatchTagReq → ReadBatch
new_batch area r = record { area = area; start = r.ai.addr; qty = r.qty; indices = r ∷ [] }

abbrev pub larger : ℕ → ℕ → ℕ
larger a b = if ltb a b then b else a

-- The loop of `mergeBatches`, with `cur` and `curEnd`.
pub merge_loop : AreaType → ℕ → ReadBatch → ℕ → List BatchTagReq → List ReadBatch
unfolding new_batch
merge_loop area max_batch cur cur_end [] = cur ∷ []
merge_loop area max_batch cur cur_end (r ∷ reqs) =
    let t_end = wrap (r.ai.addr + r.qty) in
    let merged_end = larger cur_end t_end in
    let merged_qty = wrap (merged_end + 65_536 - cur.start) in
    elim (leb r.ai.addr cur_end && leb merged_qty max_batch) [
      | true ↦
          merge_loop area max_batch
            (record cur { indices = cur.indices ++ r ∷ []; qty = merged_qty }) merged_end reqs
      | false ↦ cur ∷ merge_loop area max_batch (new_batch area r) t_end reqs
    ]

pub merge_batches : AreaType → List BatchTagReq → ℕ → List ReadBatch
unfolding merge_loop
merge_batches area [] max_batch = []
merge_batches area (r ∷ reqs) max_batch =
    merge_loop area max_batch (new_batch area r) (wrap (r.ai.addr + r.qty)) reqs

-- The batches of an area, as `performBatchReads` makes them.
pub area_batches : AreaType → List BatchTagReq → ℕ → List ReadBatch
unfolding merge_batches group_area sort_by
area_batches area reqs max_batch =
    merge_batches area (sort_by (λ (r : BatchTagReq). r.ai.addr) (group_area area reqs)) max_batch
