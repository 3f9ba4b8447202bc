-- ===== src/Core.antt =====
-- core/types.go and core/json_decode.go: the records that the layers exchange. `V` stands for Go's
-- `any`: these components copy the payload and never look into it. A time or a duration is a number
-- of nanoseconds. Metadata is an association list.
use core_c.Common.{ℕ, String, Bool, List}

pub data DataType : Type 0 where
  type_bool type_int8 type_int16 type_int32 type_int64 : DataType
  type_uint8 type_uint16 type_uint32 type_uint64 : DataType
  type_float32 type_float64 type_string type_bytes : DataType

pub data Quality : Type 0 where
  good bad uncertain : Quality

pub record DataPoint (V : Type 0) : Type 0 where
  pub driver : String
  pub device : String
  pub group : String
  pub tag : String
  pub value : V
  pub type : DataType
  pub quality : Quality
  pub timestamp : ℕ
  pub metadata : List (String × String)
  pub is_stale : Bool

pub record WriteCommand (V : Type 0) : Type 0 where
  pub driver : String
  pub device : String
  pub tag : String
  pub value : V
  pub type : DataType
  pub source : String
  pub remote : String
  pub raw : Bool

pub record WriteResult : Type 0 where
  pub success : Bool
  pub error : String

pub record WriteAuditEntry (V : Type 0) : Type 0 where
  pub timestamp : ℕ
  pub driver : String
  pub device : String
  pub tag : String
  pub value : V
  pub type : DataType
  pub success : Bool
  pub error : String
  pub source : String
  pub remote : String
  pub raw : Bool

pub record DeadLetterEntry (V : Type 0) : Type 0 where
  pub command : WriteCommand V
  pub error : String
  pub failed_at : ℕ
  pub attempts : ℕ
  pub transport : String
