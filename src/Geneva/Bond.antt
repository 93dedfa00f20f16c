-- ===== src/Geneva/Bond.antt =====
-- bond_encoder.rs: the Bond data types, the value writers, the dynamic schema and its encoder.
-- A buffer (`&mut Vec<u8>`) is the bytes written so far, which a writer takes and returns; a write
-- to a `Vec<u8>` never fails, so the `io::Result` of the schema writers is always `Ok`.
pub mod Size
pub mod Reader
pub mod RoundTrip
use opentelemetry_rust_contr.Common.{
  ℕ, zero, suc, ◌+◌, ◌-◌, ◌*◌, ◌%◌, ◌^◌, List, [], ◌∷◌, ◌++◌, Bool, true, false, not, ◌≡◌, refl,
  ◌↔◌, Option, none, some, length, replicate, ◌==◌, if◌then◌else◌, arith, map,
}
use opentelemetry_rust_contr.Common.Bytes.{Bytes, to_le_bytes}
use opentelemetry_rust_contr.Common.Text.{Str, codes, encode_utf16, str_eq}

pub data BondDataType : Type 0 where
  bt_stop bt_stop_base bt_bool bt_uint8 bt_uint16 bt_uint32 bt_uint64 : BondDataType
  bt_float bt_double bt_string bt_struct bt_list bt_set bt_map : BondDataType
  bt_int8 bt_int16 bt_int32 bt_int64 bt_wstring bt_unavailable : BondDataType

-- `type_id as u8`.
unfoldable pub discriminant : BondDataType → ℕ
discriminant bt_stop = 0
discriminant bt_stop_base = 1
discriminant bt_bool = 2
discriminant bt_uint8 = 3
discriminant bt_uint16 = 4
discriminant bt_uint32 = 5
discriminant bt_uint64 = 6
discriminant bt_float = 7
discriminant bt_double = 8
discriminant bt_string = 9
discriminant bt_struct = 10
discriminant bt_list = 11
discriminant bt_set = 12
discriminant bt_map = 13
discriminant bt_int8 = 14
discriminant bt_int16 = 15
discriminant bt_int32 = 16
discriminant bt_int64 = 17
discriminant bt_wstring = 18
discriminant bt_unavailable = 127

-- `buffer.extend_from_slice(bytes)` and `writer.write_all(bytes)`.
abbrev pub write_all : Bytes → Bytes → Bytes
write_all buffer bytes = buffer ++ bytes

-- The value is the bit pattern of an i32, i64, u32 or f64, and the first argument its width in bytes.
unfoldable pub write_numeric : ℕ → Bytes → ℕ → Bytes
write_numeric width buffer value = write_all buffer (to_le_bytes width value)

unfoldable pub write_string : Bytes → Str → Bytes
write_string buffer s = write_all (write_numeric 4 buffer (length s % 2 ^ 32)) s

unfoldable pub write_bool : Bytes → Bool → Bytes
write_bool buffer value = write_all buffer ((if value then 1 else 0) ∷ [])

-- The bytes of 16-bit units, each little-endian.
unfoldable pub units_to_le_bytes : List ℕ → Bytes
units_to_le_bytes [] = []
units_to_le_bytes (u ∷ us) = to_le_bytes 2 u ++ units_to_le_bytes us

-- The prefix is the length of the text in UTF-8, as the source has it.
unfoldable pub write_wstring : Bytes → Str → Bytes
write_wstring buffer s =
    write_all (write_numeric 4 buffer (length s % 2 ^ 32)) (units_to_le_bytes (encode_utf16 s))

pub record FieldDef : Type 0 where
  pub name : Str
  pub field_id : ℕ
  pub type_id : BondDataType

pub record DynamicSchema : Type 0 where
  pub struct_name : Str
  pub qualified_name : Str
  pub fields : List FieldDef

unfoldable pub new_schema : Str → Str → List FieldDef → DynamicSchema
new_schema name namespace fields = record {
  struct_name = name;
  qualified_name = namespace ++ b'.' ∷ name;
  fields = fields;
}

unfoldable pub calculate_fixed_overhead : ℕ
calculate_fixed_overhead =
    4 + 4 + 4 + 1 + 8 + 8 + 8 + 4 + 4 + 1 + 4 + 3 + 4 + 8 + 1 + 2 + 1 + 1 + 1 + 9

unfoldable pub calculate_per_field_fixed_overhead : ℕ
calculate_per_field_fixed_overhead =
    4 + 4 + 1 + 8 + 8 + 8 + 4 + 4 + 1 + 3 + 2 + 1 + 2 + 1 + 1 + 1 + 1

-- The loop over the fields; `is_last` is that none follows.
unfoldable pub add_field_sizes : ℕ → List FieldDef → ℕ
add_field_sizes size [] = size
add_field_sizes size (field ∷ []) =
    size + calculate_per_field_fixed_overhead + (4 + length field.name)
add_field_sizes size (field ∷ next ∷ fields) =
    add_field_sizes (size + calculate_per_field_fixed_overhead + (4 + length field.name) + 8)
      (next ∷ fields)

unfoldable pub calculate_exact_encoded_size : DynamicSchema → ℕ
calculate_exact_encoded_size s =
    add_field_sizes
      (calculate_fixed_overhead + (4 + length s.struct_name) + (4 + length s.qualified_name))
      s.fields

unfoldable pub write_bond_string : Bytes → Str → Bytes
write_bond_string writer s = write_all (write_all writer (to_le_bytes 4 (length s % 2 ^ 32))) s

-- The zero bytes of the block of default values: u64, i64, f64, u32, u32 and one byte.
unfoldable pub write_defaults : Bytes → Bytes
write_defaults writer =
    let writer = write_all writer (to_le_bytes 8 0) in
    let writer = write_all writer (to_le_bytes 8 0) in
    let writer = write_all writer (to_le_bytes 8 0) in
    let writer = write_all writer (to_le_bytes 4 0) in
    let writer = write_all writer (to_le_bytes 4 0) in write_all writer (0 ∷ [])

unfoldable pub write_field_def : Bytes → FieldDef → Bool → Bytes
write_field_def writer field is_last =
    let writer = write_bond_string writer field.name in
    let writer = write_bond_string writer [] in
    let writer = write_all writer (to_le_bytes 4 0) in
    let writer = write_all writer (0 ∷ []) in
    let writer = write_defaults writer in
    let writer = write_all writer (replicate 3 0) in
    let writer = write_all writer (to_le_bytes 2 field.field_id) in
    let writer = write_all writer (discriminant field.type_id ∷ []) in
    let writer = write_all writer (to_le_bytes 2 0) in
    let writer = write_all writer (0 ∷ []) in
    let writer = write_all writer (0 ∷ []) in
    let writer = write_all writer (0 ∷ []) in
    let writer = write_all writer (0 ∷ []) in
    if not is_last then write_all writer (replicate 8 0) else writer

unfoldable pub write_field_defs : Bytes → List FieldDef → Bytes
write_field_defs writer [] = writer
write_field_defs writer (field ∷ []) = write_field_def writer field true
write_field_defs writer (field ∷ next ∷ fields) =
    write_field_defs (write_field_def writer field false) (next ∷ fields)

unfoldable pub encode : DynamicSchema → Bytes
encode s =
    let bytes = write_all [] (0x53 ∷ 0x50 ∷ []) in
    let bytes = write_all bytes (0x01 ∷ 0x00 ∷ []) in
    let bytes = write_all bytes (to_le_bytes 4 1) in
    let bytes = write_bond_string bytes s.struct_name in
    let bytes = write_bond_string bytes s.qualified_name in
    let bytes = write_all bytes (to_le_bytes 4 0) in
    let bytes = write_all bytes (0 ∷ []) in
    let bytes = write_defaults bytes in
    let bytes = write_all bytes (to_le_bytes 4 0) in
    let bytes = write_all bytes (replicate 3 0) in
    let bytes = write_all bytes (to_le_bytes 4 (length s.fields % 2 ^ 32)) in
    let bytes = write_field_defs bytes s.fields in
    let bytes = write_all bytes (replicate 8 0) in
    let bytes = write_all bytes (discriminant bt_struct ∷ []) in
    let bytes = write_all bytes (to_le_bytes 2 0) in
    let bytes = write_all bytes (0 ∷ []) in
    let bytes = write_all bytes (0 ∷ []) in
    let bytes = write_all bytes (0 ∷ []) in write_all bytes (replicate 9 0)

-- A `BondEncodedSchema` is the encoded bytes, and `as_bytes` reads them.
pub record BondEncodedSchema : Type 0 where
  pub as_bytes : Bytes

unfoldable pub from_fields : Str → Str → List FieldDef → BondEncodedSchema
from_fields name namespace fields = record { as_bytes = encode (new_schema name namespace fields) }

-- `HashMap::from_iter(values).get(name)`: the last pair of a key wins.
unfoldable pub value_map_get : List (Str × Bytes) → Str → Option Bytes
value_map_get [] key = none
value_map_get ((k, v) ∷ values) key = elim (value_map_get values key) [
  | some later ↦ some later
  | none ↦ if str_eq k key then some v else none
]

-- The default value of a type, where the payload gives none.
unfoldable pub default_value : BondDataType → Bytes
default_value bt_bool = 0 ∷ []
default_value bt_float = to_le_bytes 4 0
default_value bt_double = to_le_bytes 8 0
default_value bt_string = to_le_bytes 4 0
default_value bt_wstring = to_le_bytes 4 0
default_value bt_int32 = to_le_bytes 4 0
default_value bt_int64 = to_le_bytes 8 0
default_value _ = []

unfoldable pub write_field_values : Bytes → List FieldDef → List (Str × Bytes) → Bytes
write_field_values writer [] values = writer
write_field_values writer (field ∷ fields) values =
    write_field_values
      (elim (value_map_get values field.name) [
        | some value_bytes ↦ write_all writer value_bytes
        | none ↦ write_all writer (default_value field.type_id)
      ])
      fields values

unfoldable pub encode_dynamic_payload : Bytes → List FieldDef → List (Str × Bytes) → Bytes
encode_dynamic_payload writer fields values =
    let writer = write_all writer (0x53 ∷ 0x50 ∷ []) in
    let writer = write_all writer (0x01 ∷ 0x00 ∷ []) in write_field_values writer fields values
