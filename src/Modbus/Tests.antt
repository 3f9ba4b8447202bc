-- ===== src/Modbus/Tests.antt =====
-- driver/modbus/modbus_read.go, on concrete inputs.
use core_c.Common.{
  ℕ, ◌+◌, ◌*◌, ◌≡◌, refl, arith, Bool, Option, some, none, List, [], ◌∷◌, All, ◌==◌, nat_key,
}
use core_c.Core.{DataType, type_bool, type_uint16, type_uint32, type_float64, type_string}
use core_c.Modbus.{
  area_coil, area_holding_register, RegType, AddrInfo, Client, panics, ModbusTag, batch_quantity,
}
use core_c.Modbus.Access.{read_tags}
use core_c.Modbus.Decode.{IsDevice, span}
use core_c.Modbus.Requests.{FitsTag}
use core_c.Modbus.Whole.{read_each, read_tags-each}

abbrev words : RegType → ℕ → ℕ
words t a = a * 3

abbrev coils : ℕ → Bool
coils a = a == 7

abbrev client : Client
client = record {
  read_coils = λ a n. some (span coils a n);
  read_discrete_inputs = λ a n. some (span coils a n);
  read_registers = λ t a n. some (span (words t) a n);
  read_coil = λ a. some (coils a);
  read_discrete_input = λ a. some (coils a);
  read_register = λ t a. some (words t a);
  read_float32 = λ t a. some (words t a * 65_536 + words t (a + 1));
}

client-IsDevice : IsDevice client words coils coils
client-IsDevice = record {
  registers_answer = λ t a n h k l. refl;
  register_answers = λ t a. refl;
  float32_answers = λ t a h. refl;
  coils_answer = λ a n h k l. refl;
  inputs_answer = λ a n h k l. refl;
  coil_answers = λ a. refl;
  input_answers = λ a. refl;
}

abbrev holding : ℕ → AddrInfo
holding a = record { area = area_holding_register; addr = a }

abbrev tag : AddrInfo → DataType → Option ModbusTag
tag ai dt = some (record { ai = ai; dt = dt; transform = λ v. v })

-- Two neighbours, one that overlaps the second, one that is not configured, a coil, one far away and
-- a text.
abbrev tags : List (Option ModbusTag)
tags =
    tag (holding 12) type_float64
    ∷ tag (holding 10) type_uint32
    ∷ tag (holding 15) type_uint16
    ∷ none
    ∷ tag (record { area = area_coil; addr = 11 }) type_bool
    ∷ tag (holding 400) type_bool
    ∷ tag (holding 16) type_string
    ∷ []

tags_fit : All FitsTag tags
unfolding batch_quantity
tags_fit = omega arith

read_tags-each_example :
    read_tags client (area_coil ∷ area_holding_register ∷ []) 125 tags ≡ read_each client tags
read_tags-each_example =
    read_tags-each client words coils coils client-IsDevice (area_coil ∷ area_holding_register ∷ [])
      tags 125 (omega arith) (omega arith) tags_fit

-- The last two registers after the one before them: the end of the merged batch wraps around, and the
-- batch stays one register long.
abbrev last_tags : List (Option ModbusTag)
last_tags = tag (holding 65_533) type_uint16 ∷ tag (holding 65_534) type_uint32 ∷ []

last_tags_panic : read_tags client (area_holding_register ∷ []) 125 last_tags ≡ panics
unfolding read_tags
last_tags_panic = refl
