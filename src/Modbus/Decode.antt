-- ===== src/Modbus/Decode.antt =====
-- driver/modbus/modbus_read.go: what a tag is decoded from, on a device that answers every read.
use core_c.Common.{
  ℕ, zero, suc, ◌+◌, ◌*◌, ◌≤◌, ◌<◌, ◌≡◌, refl, ap, ◌∙◌, Bool, true, false, not, some, List, [], ◌∷◌,
  arith, get_elem?, ◌==◌, nat_key,
}
use core_c.Core.{
  DataType, type_bool, type_int8, type_int16, type_int32, type_int64, type_uint8, type_uint16,
  type_uint32, type_uint64, type_float32, type_float64, type_string, type_bytes,
}
use core_c.Modbus.{
  AreaType, area_coil, area_discrete_input, area_input_register, area_holding_register, RegType,
  holding_register, input_register, AddrInfo, Value, bool_value, word_value, Reading, done, Client,
  reg_type, is_bit_area, register_quantity,
}
use core_c.Modbus.Access.{
  combined, as_value, extract_register_value, on_answer, read_typed, read_bool_tag,
  read_single_register, read_several_registers, read_float32_tag, bit_at,
}

-- The contents of these many places from `start` on.
abbrev pub span {ℓ} : {A : Type ℓ} → (ℕ → A) → ℕ → ℕ → List A
span w start zero = []
span w start (suc n) = w start ∷ span w (start + 1) n

get_elem?-span {ℓ} :
    {A : Type ℓ} (w : ℕ → A) (start n i : ℕ)
    → i < n
    → get_elem? (span w start n) i ≡ some (w (start + i))
get_elem?-span w start zero i h = absurd (omega arith)
get_elem?-span w start (suc n) zero h = ap (λ k. some (w k)) (omega arith)
get_elem?-span w start (suc n) (suc i) h =
    get_elem?-span w (start + 1) n i (omega arith) ∙ ap (λ k. some (w k)) (omega arith)

-- The number in these many registers, the first one highest.
abbrev pub number_at : (ℕ → ℕ) → ℕ → ℕ → ℕ → ℕ
number_at w addr zero acc = acc
number_at w addr (suc n) acc = number_at w (addr + 1) n (acc * 65_536 + w addr)

combined-span :
    (w : ℕ → ℕ) (start qty n offset acc : ℕ)
    → offset + n ≤ qty
    → combined n (span w start qty) offset acc ≡ done (number_at w (start + offset) n acc)
unfolding combined
combined-span w start qty zero offset acc h = refl
combined-span w start qty (suc n) offset acc h =
    rw (combined, get_elem?-span w start qty offset (omega arith))
      (combined-span w start qty n (offset + 1) (acc * 65_536 + w (start + offset)) (omega arith)
        ∙ ap (λ k. done (number_at w k n (acc * 65_536 + w (start + offset)))) (omega arith))

-- A device that answers every read within the addresses and the limit of 125 from its memory.
pub record IsDevice (c : Client) (words : RegType → ℕ → ℕ) (coils inputs : ℕ → Bool) : Type 0 where
  pub registers_answer :
      (t : RegType) (a n : ℕ)
      → 1 ≤ n
      → n ≤ 125
      → a + n ≤ 65_536
      → c.read_registers t a n ≡ some (span (words t) a n)
  pub register_answers : (t : RegType) (a : ℕ) → c.read_register t a ≡ some (words t a)
  pub float32_answers :
      (t : RegType) (a : ℕ)
      → a + 2 ≤ 65_536
      → c.read_float32 t a ≡ some (words t a * 65_536 + words t (a + 1))
  pub coils_answer :
      (a n : ℕ) → 1 ≤ n → n ≤ 125 → a + n ≤ 65_536 → c.read_coils a n ≡ some (span coils a n)
  pub inputs_answer :
      (a n : ℕ)
      → 1 ≤ n
      → n ≤ 125
      → a + n ≤ 65_536
      → c.read_discrete_inputs a n ≡ some (span inputs a n)
  pub coil_answers : (a : ℕ) → c.read_coil a ≡ some (coils a)
  pub input_answers : (a : ℕ) → c.read_discrete_input a ≡ some (inputs a)

-- The value of a tag in the registers.
abbrev pub value_at : (ℕ → ℕ) → ℕ → DataType → Reading Value
value_at w addr dt = as_value dt (done (number_at w addr (register_quantity dt).0 0))

pub extract_register_value-span :
    (w : ℕ → ℕ) (start qty offset : ℕ) (dt : DataType)
    → (register_quantity dt).1 ≡ true
    → offset + (register_quantity dt).0 ≤ qty
    → extract_register_value (span w start qty) offset dt ≡ value_at w (start + offset) dt
unfolding extract_register_value
extract_register_value-span w start qty offset dt ok h =
    rw ok (ap (as_value dt) (combined-span w start qty (register_quantity dt).0 offset 0 h))

pub bit_at-span :
    (w : ℕ → Bool) (start qty offset : ℕ)
    → offset < qty
    → bit_at (span w start qty) offset ≡ done (bool_value (w (start + offset)))
unfolding bit_at
bit_at-span w start qty offset h = rw (bit_at, get_elem?-span w start qty offset h) refl

module _ (c : Client) (words : RegType → ℕ → ℕ) (coils inputs : ℕ → Bool)
    (device : IsDevice c words coils inputs) where
  read_several-value :
      (n : ℕ) (ai : AddrInfo) (dt : DataType)
      → 1 ≤ n
      → n ≤ 4
      → ai.addr + n ≤ 65_536
      → read_several_registers c n ai dt
        ≡ as_value dt (done (number_at (words (reg_type ai.area)) ai.addr n 0))
  unfolding read_several_registers on_answer
  read_several-value n ai dt h k l =
      rw (device.registers_answer (reg_type ai.area) ai.addr n h (omega arith) l) (
        ap (as_value dt) (
          combined-span (words (reg_type ai.area)) ai.addr n n 0 0 (omega arith)
          ∙ ap (λ a. done (number_at (words (reg_type ai.area)) a n 0)) (omega arith)))

  read_bool-value :
      (ai : AddrInfo) (area : AreaType)
      → ai.area ≡ area
      → is_bit_area area ≡ false
      → read_bool_tag c ai ≡ value_at (words (reg_type ai.area)) ai.addr type_bool
  unfolding read_bool_tag on_answer as_value reg_type
  read_bool-value ai area_coil e b = cc b
  read_bool-value ai area_discrete_input e b = cc b
  read_bool-value ai area_input_register e b =
      rw (read_bool_tag, e, device.register_answers input_register ai.addr)
        (ap (λ (v : ℕ). done (bool_value (not (v == 0)))) (omega arith))
  read_bool-value ai area_holding_register e b =
      rw (read_bool_tag, e, device.register_answers holding_register ai.addr)
        (ap (λ (v : ℕ). done (bool_value (not (v == 0)))) (omega arith))

  pub read_typed-value :
      (ai : AddrInfo) (dt : DataType)
      → is_bit_area ai.area ≡ false
      → (register_quantity dt).1 ≡ true
      → ai.addr + (register_quantity dt).0 ≤ 65_536
      → read_typed c ai dt ≡ value_at (words (reg_type ai.area)) ai.addr dt
  unfolding read_typed read_single_register read_float32_tag on_answer as_value
  read_typed-value ai type_bool b ok l = read_bool-value ai ai.area refl b
  read_typed-value ai type_uint16 b ok l =
      rw (device.register_answers (reg_type ai.area) ai.addr)
        (ap (λ v. done (word_value type_uint16 v)) (omega arith))
  read_typed-value ai type_int16 b ok l =
      rw (device.register_answers (reg_type ai.area) ai.addr)
        (ap (λ v. done (word_value type_int16 v)) (omega arith))
  read_typed-value ai type_uint32 b ok l =
      read_several-value 2 ai type_uint32 (omega arith) (omega arith) l
  read_typed-value ai type_int32 b ok l =
      read_several-value 2 ai type_int32 (omega arith) (omega arith) l
  read_typed-value ai type_float32 b ok l =
      rw (device.float32_answers (reg_type ai.area) ai.addr l)
        (ap (λ v. done (word_value type_float32 v)) (omega arith))
  read_typed-value ai type_float64 b ok l =
      read_several-value 4 ai type_float64 (omega arith) (omega arith) l
  read_typed-value ai type_uint64 b ok l =
      read_several-value 4 ai type_uint64 (omega arith) (omega arith) l
  read_typed-value ai type_int64 b ok l =
      read_several-value 4 ai type_int64 (omega arith) (omega arith) l
  read_typed-value ai type_int8 b ok l = absurd (cc ok)
  read_typed-value ai type_uint8 b ok l = absurd (cc ok)
  read_typed-value ai type_string b ok l = absurd (cc ok)
  read_typed-value ai type_bytes b ok l = absurd (cc ok)
