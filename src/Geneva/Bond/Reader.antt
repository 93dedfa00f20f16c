-- ===== src/Geneva/Bond/Reader.antt =====
-- A reader of the Bond schema format, written from the format and not from `encode`: what
-- bond_encoder.rs promises to whoever decodes its output.
use opentelemetry_rust_contr.Common.{
  ℕ, zero, suc, ◌^◌, ◌<◌, List, [], ◌∷◌, Bool, true, false, ◌≡◌, refl, Option, none, some, length,
  All, guard, ◌==◌, ◌>>=◌, ◌>>◌,
}
use opentelemetry_rust_contr.Common.Bytes.{Bytes, read_le, read_prefixed, skip_fill}
use opentelemetry_rust_contr.Geneva.Bond.{
  BondDataType, bt_stop, bt_stop_base, bt_bool, bt_uint8, bt_uint16, bt_uint32, bt_uint64, bt_float,
  bt_double, bt_string, bt_struct, bt_list, bt_set, bt_map, bt_int8, bt_int16, bt_int32, bt_int64,
  bt_wstring, bt_unavailable, discriminant, FieldDef, DynamicSchema,
}

-- The Bond types in the order of their numbers.
abbrev numbered_types : List BondDataType
numbered_types =
    bt_stop ∷ bt_stop_base ∷ bt_bool ∷ bt_uint8 ∷ bt_uint16 ∷ bt_uint32 ∷ bt_uint64 ∷ bt_float
    ∷ bt_double ∷ bt_string ∷ bt_struct ∷ bt_list ∷ bt_set ∷ bt_map ∷ bt_int8 ∷ bt_int16 ∷ bt_int32
    ∷ bt_int64 ∷ bt_wstring ∷ bt_unavailable ∷ []

find_type : List BondDataType → ℕ → Option BondDataType
find_type [] n = none
find_type (t ∷ ts) n = elim (discriminant t == n) [ true ↦ some t | false ↦ find_type ts n ]

pub type_of_number : ℕ → Option BondDataType
type_of_number = find_type numbered_types

pub type_of_number-discriminant : (t : BondDataType) → type_of_number (discriminant t) ≡ some t
unfolding type_of_number find_type discriminant
type_of_number-discriminant bt_stop = refl
type_of_number-discriminant bt_stop_base = refl
type_of_number-discriminant bt_bool = refl
type_of_number-discriminant bt_uint8 = refl
type_of_number-discriminant bt_uint16 = refl
type_of_number-discriminant bt_uint32 = refl
type_of_number-discriminant bt_uint64 = refl
type_of_number-discriminant bt_float = refl
type_of_number-discriminant bt_double = refl
type_of_number-discriminant bt_string = refl
type_of_number-discriminant bt_struct = refl
type_of_number-discriminant bt_list = refl
type_of_number-discriminant bt_set = refl
type_of_number-discriminant bt_map = refl
type_of_number-discriminant bt_int8 = refl
type_of_number-discriminant bt_int16 = refl
type_of_number-discriminant bt_int32 = refl
type_of_number-discriminant bt_int64 = refl
type_of_number-discriminant bt_wstring = refl
type_of_number-discriminant bt_unavailable = refl

-- A field: its name, an empty qualified name, attributes, modifier and defaults that are zero, its
-- id, its type, six zero bytes, and eight more unless it is the last.
unfoldable pub read_field_def : Bool → Bytes → Option (FieldDef × Bytes)
read_field_def is_last s = do
  (name, s) ← read_prefixed 4 s
  s ← skip_fill 45 0 s
  (field_id, s) ← read_le 2 s
  (number, s) ← read_le 1 s
  type_id ← type_of_number number
  s ← skip_fill (elim is_last [ true ↦ 6 | false ↦ 14 ]) 0 s
  some (record { name = name; field_id = field_id; type_id = type_id }, s)

unfoldable pub read_field_defs : ℕ → Bytes → Option (List FieldDef × Bytes)
read_field_defs zero s = some ([], s)
read_field_defs (suc zero) s = do (field, s) ← read_field_def true s; some (field ∷ [], s)
read_field_defs (suc (suc n)) s = do
  (field, s) ← read_field_def false s
  (fields, s) ← read_field_defs (suc n) s
  some (field ∷ fields, s)

-- A whole schema of one struct: "SP", version 1, one struct, its names, attributes, modifier, defaults
-- and base, the fields behind their number, and the root type.
unfoldable pub read_schema : Bytes → Option DynamicSchema
read_schema s = do
  (magic, s) ← read_le 4 s
  guard (magic == 0x1_5053)
  (structs, s) ← read_le 4 s
  guard (structs == 1)
  (struct_name, s) ← read_prefixed 4 s
  (qualified_name, s) ← read_prefixed 4 s
  s ← skip_fill 45 0 s
  (count, s) ← read_le 4 s
  (fields, s) ← read_field_defs count s
  s ← skip_fill 8 0 s
  (root, s) ← read_le 1 s
  guard (root == discriminant bt_struct)
  s ← skip_fill 14 0 s
  guard (length s == 0)
  some (record { struct_name = struct_name; qualified_name = qualified_name; fields = fields })

-- What fits the widths of the format.
pub record FieldFits (f : FieldDef) : Type 0 where
  pub name_fits : length f.name < 2 ^ 32
  pub id_fits : f.field_id < 2 ^ 16

pub record SchemaFits (s : DynamicSchema) : Type 0 where
  pub struct_fits : length s.struct_name < 2 ^ 32
  pub qualified_fits : length s.qualified_name < 2 ^ 32
  pub count_fits : length s.fields < 2 ^ 32
  pub fields_fit : All FieldFits s.fields
