-- ===== src/Geneva/Span.antt =====
-- otlp_encoder.rs, spans: the fields of a span and its row. Numbers are bit patterns; a span has what
-- the encoder reads of the message `Span` of opentelemetry_proto.
pub mod Spec
pub mod Fields
pub mod Write
pub mod Row
pub mod Batch
pub mod Expected
pub mod Loop
pub mod Collisions
use opentelemetry_rust_contr.Common.{
  ℕ, zero, suc, ◌+◌, List, [], ◌∷◌, ◌++◌, Bool, true, false, not, ◌||◌, Option, none, some, ◌==◌,
  ◌>>=◌, if◌then◌else◌,
}
use opentelemetry_rust_contr.Common.Bytes.{Bytes}
use opentelemetry_rust_contr.Common.Text.{Str, codes, str_eq, from_utf8}
use opentelemetry_rust_contr.Geneva.Bond.{
  BondDataType, bt_string, bt_uint32, bt_int32, bt_int64, bt_double, bt_bool, FieldDef,
  write_numeric, write_string, write_bool,
}
use opentelemetry_rust_contr.Geneva.Encoder.{
  StatusCode, Libraries, MetadataFields, number_fields, format_timestamp, encode_id_to_hex, hex_of,
  field_env_name, field_env_ver, field_timestamp, field_env_time, field_trace_id, field_span_id,
  field_trace_flags, field_name, field_tenant, field_role, field_role_instance, field_kind,
  field_start_time, field_success, field_trace_state, field_parent_id, field_links,
  field_status_message,
}
use opentelemetry_rust_contr.Geneva.Log.{push_if, is_empty}

-- The kinds of value that the encoder names, and all others.
pub data Value : Type 0 where
  string_value : Str → Value
  int_value : ℕ → Value
  double_value : ℕ → Value
  bool_value : Bool → Value
  other_value : Value

pub record AnyValue : Type 0 where
  pub value : Option Value

pub record KeyValue : Type 0 where
  pub key : Str
  pub value : Option AnyValue

pub record Link : Type 0 where
  pub trace_id : Bytes
  pub span_id : Bytes

pub record Status : Type 0 where
  pub message : Str
  pub code : ℕ

pub record Span : Type 0 where
  pub trace_id : Bytes
  pub span_id : Bytes
  pub trace_state : Str
  pub parent_span_id : Bytes
  pub flags : ℕ
  pub name : Str
  pub kind : ℕ
  pub start_time_unix_nano : ℕ
  pub end_time_unix_nano : ℕ
  pub attributes : List KeyValue
  pub links : List Link
  pub status : Option Status

unfoldable pub no_links : List Link → Bool
no_links [] = true
no_links (link ∷ links) = false

unfoldable pub has_status_message : Span → Bool
has_status_message span = elim span.status [
  | none ↦ false
  | some status ↦ not (is_empty status.message)
]

-- The type of a value; `none` where the loop goes on to the next attribute.
unfoldable pub value_type : Value → Option BondDataType
value_type (string_value s) = some bt_string
value_type (int_value i) = some bt_int64
value_type (double_value d) = some bt_double
value_type (bool_value b) = some bt_bool
value_type other_value = none

unfoldable pub span_attribute_field : KeyValue → Option (Str × BondDataType)
span_attribute_field attr = do
  v ← attr.value
  val ← v.value
  type_id ← value_type val
  some (attr.key, type_id)

unfoldable pub span_attribute_fields : List KeyValue → List (Str × BondDataType)
span_attribute_fields [] = []
span_attribute_fields (attr ∷ attrs) =
    let rest = span_attribute_fields attrs in
    elim (span_attribute_field attr) [ none ↦ rest | some field ↦ field ∷ rest ]

-- Parts A and B of `determine_span_fields`.
unfoldable pub span_base_fields : Span → List (Str × BondDataType)
span_base_fields s =
    (field_env_name, bt_string)
    ∷ (field_env_ver, bt_string)
    ∷ (field_timestamp, bt_string)
    ∷ (field_env_time, bt_string)
    ∷ (field_tenant, bt_string)
    ∷ (field_role, bt_string)
    ∷ (field_role_instance, bt_string)
    ∷ (field_kind, bt_int32)
    ∷ (field_start_time, bt_string)
    ∷ (field_success, bt_bool)
    ∷ (push_if (not (is_empty s.trace_id)) field_trace_id bt_string
        ++ (push_if (not (is_empty s.span_id)) field_span_id bt_string
            ++ (push_if (not (s.flags == 0)) field_trace_flags bt_uint32
                ++ (push_if (not (is_empty s.name)) field_name bt_string
                    ++ (push_if (not (is_empty s.trace_state)) field_trace_state bt_string
                        ++ (push_if (not (is_empty s.parent_span_id)) field_parent_id bt_string
                            ++ (push_if (not (no_links s.links)) field_links bt_string
                                ++ push_if (has_status_message s) field_status_message
                                    bt_string)))))))

unfoldable pub determine_span_fields : Span → List FieldDef
determine_span_fields s = number_fields 0 (span_base_fields s ++ span_attribute_fields s.attributes)

unfoldable pub serialize_link : Link → Str
serialize_link link =
    codes "{\"toSpanId\":\""
    ++ hex_of link.span_id
    ++ codes "\",\"toTraceId\":\""
    ++ hex_of link.trace_id
    ++ codes "\"}"

-- The loop over the links, with a comma before each but the first.
unfoldable pub serialize_rest : List Link → Str
serialize_rest [] = []
serialize_rest (link ∷ links) = b',' ∷ serialize_link link ++ serialize_rest links

unfoldable pub serialize_links : List Link → Str
serialize_links [] = codes "[]"
serialize_links (link ∷ links) = b'[' ∷ serialize_link link ++ serialize_rest links ++ codes "]"

-- `attributes.iter().find(|a| a.key == name)`.
unfoldable pub find_attribute : Str → List KeyValue → Option KeyValue
find_attribute name [] = none
find_attribute name (attr ∷ attrs) =
    if str_eq attr.key name then some attr else find_attribute name attrs

unfoldable pub write_typed : Bytes → Value → BondDataType → Bytes
write_typed buffer (string_value s) bt_string = write_string buffer s
write_typed buffer (int_value i) bt_int64 = write_numeric 8 buffer i
write_typed buffer (double_value d) bt_double = write_numeric 8 buffer d
write_typed buffer (bool_value b) bt_bool = write_bool buffer b
write_typed buffer _ _ = buffer

unfoldable pub write_attribute_value : Bytes → KeyValue → BondDataType → Bytes
write_attribute_value buffer attr expected_type = elim attr.value [
  | none ↦ buffer
  | some v ↦ elim v.value [ none ↦ buffer | some val ↦ write_typed buffer val expected_type ]
]

-- A row is `none` where the code panics.
module _ (libs : Libraries) (span : Span) (metadata_fields : MetadataFields) where
  unfoldable pub span_success : Bool
  span_success = elim span.status [
    | none ↦ true
    | some status ↦ elim (libs.status_code status.code) [
      | none ↦ true
      | some StatusCode.unset ↦ true
      | some StatusCode.ok ↦ true
      | some StatusCode.error ↦ false
    ]
  ]

  -- The id in hex, behind the check that it is UTF-8.
  unfoldable pub write_hex_id : ℕ → Bytes → Bytes → Option Bytes
  write_hex_id n id buffer = do
    hex_str ← from_utf8 (encode_id_to_hex libs n id)
    some (write_string buffer hex_str)

  unfoldable pub write_status_message : Bytes → Bytes
  write_status_message buffer = elim span.status [
    | none ↦ buffer
    | some status ↦ write_string buffer status.message
  ]

  unfoldable pub write_dynamic : Bytes → FieldDef → Bytes
  write_dynamic buffer field = elim (find_attribute field.name span.attributes) [
    | none ↦ buffer
    | some attr ↦ write_attribute_value buffer attr field.type_id
  ]

  -- One turn of the loop over the fields.
  unfoldable pub write_span_field : Str → Bytes → FieldDef → Option Bytes
  write_span_field formatted_timestamp buffer field =
      let is = str_eq field.name in
      if is field_env_name
      then some (write_string buffer metadata_fields.env_name)
      else if is field_env_ver
      then some (write_string buffer metadata_fields.env_ver)
      else if is field_tenant
      then some (write_string buffer metadata_fields.tenant)
      else if is field_role
      then some (write_string buffer metadata_fields.role)
      else if is field_role_instance
      then some (write_string buffer metadata_fields.role_instance)
      else if is field_timestamp || is field_env_time
      then some (write_string buffer formatted_timestamp)
      else if is field_kind
      then some (write_numeric 4 buffer span.kind)
      else if is field_start_time
      then some (write_string buffer formatted_timestamp)
      else if is field_success
      then some (write_bool buffer span_success)
      else if is field_trace_id
      then write_hex_id 32 span.trace_id buffer
      else if is field_span_id
      then write_hex_id 16 span.span_id buffer
      else if is field_trace_flags
      then some (write_numeric 4 buffer span.flags)
      else if is field_name
      then some (write_string buffer span.name)
      else if is field_trace_state
      then some (write_string buffer span.trace_state)
      else if is field_parent_id
      then write_hex_id 16 span.parent_span_id buffer
      else if is field_links
      then some (write_string buffer (serialize_links span.links))
      else if is field_status_message
      then some (write_status_message buffer)
      else some (write_dynamic buffer field)

  unfoldable pub write_span_fields : Str → Bytes → List FieldDef → Option Bytes
  write_span_fields formatted_timestamp buffer [] = some buffer
  write_span_fields formatted_timestamp buffer (field ∷ fields) = do
    buffer ← write_span_field formatted_timestamp buffer field
    write_span_fields formatted_timestamp buffer fields

unfoldable pub write_span_row_data :
    Libraries → Span → List FieldDef → MetadataFields → Option Bytes
write_span_row_data libs span fields metadata_fields =
    write_span_fields libs span metadata_fields (format_timestamp libs span.start_time_unix_nano) []
      fields
