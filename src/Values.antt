-- ===== src/Values.antt =====
-- The dynamic values that a point's `any` holds, and common/util/util.go's conversions of them. `F` and
-- `G` stand for float64 and float32, whose operations are the fields of `Floats`.
use core_c.Common.{ℕ, String, Bool, Option, none, some}
use core_c.Common.Ints.{ℤ, pos}

pub data GoValue (F G : Type 0) : Type 0 where
  float64_value : F → GoValue F G
  float32_value : G → GoValue F G
  int_value int8_value int16_value int32_value int64_value : ℤ → GoValue F G
  uint_value uint8_value uint16_value uint32_value uint64_value : ℕ → GoValue F G
  bool_value : Bool → GoValue F G
  string_value : String → GoValue F G
  bytes_value : String → GoValue F G
  nil_value : GoValue F G

pub record Floats (F G : Type 0) : Type 0 where
  pub of_float32 : G → F
  pub to_float32 : F → G
  pub of_int : ℤ → F
  pub is_nan : F → Bool
  pub is_inf : F → Bool
  pub is_zero : F → Bool
  pub add : F → F → F
  pub subtract : F → F → F
  pub times : F → F → F
  pub divide : F → F → F

module _ {F G : Type 0} (floats : Floats F G) where
  abbrev pub zero_float : F
  zero_float = floats.of_int (pos 0)

  abbrev pub one_float : F
  one_float = floats.of_int (pos 1)

  -- `ToFloat64OK`
  unfoldable pub to_float64_ok : GoValue F G → Option F
  to_float64_ok (float64_value x) = some x
  to_float64_ok (float32_value x) = some (floats.of_float32 x)
  to_float64_ok (int_value n) = some (floats.of_int n)
  to_float64_ok (int8_value n) = some (floats.of_int n)
  to_float64_ok (int16_value n) = some (floats.of_int n)
  to_float64_ok (int32_value n) = some (floats.of_int n)
  to_float64_ok (int64_value n) = some (floats.of_int n)
  to_float64_ok (uint_value n) = some (floats.of_int (pos n))
  to_float64_ok (uint8_value n) = some (floats.of_int (pos n))
  to_float64_ok (uint16_value n) = some (floats.of_int (pos n))
  to_float64_ok (uint32_value n) = some (floats.of_int (pos n))
  to_float64_ok (uint64_value n) = some (floats.of_int (pos n))
  to_float64_ok (bool_value b) = none
  to_float64_ok (string_value s) = none
  to_float64_ok (bytes_value s) = none
  to_float64_ok nil_value = none
