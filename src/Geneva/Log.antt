-- ===== src/Geneva/Log.antt =====
-- otlp_encoder.rs, log records: the fields of a record and its row.
-- A record is what the accessors of the trait `LogRecordView` return; numbers are bit patterns.
pub mod Spec
pub mod Fields
pub mod Base
pub mod Row
use opentelemetry_rust_contr.Common.{
  ℕ, zero, suc, ◌+◌, ◌-◌, ◌*◌, ◌%◌, ◌^◌, List, [], ◌∷◌, ◌++◌, Bool, true, false, not, ◌&&◌, ◌||◌,
  Option, none, some, length, take, get_elem?, ◌==◌, ltb, ◌>>=◌, ◌>>◌, guard, if◌then◌else◌,
}
use mathlib.Core.Option
use opentelemetry_rust_contr.Common.Bytes.{Bytes}
use opentelemetry_rust_contr.Common.Text.{Str, codes, str_eq, from_utf8}
use opentelemetry_rust_contr.Geneva.Bond.{
  BondDataType, bt_string, bt_uint32, bt_int32, bt_int64, bt_double, bt_bool, FieldDef,
  write_numeric, write_string, write_bool,
}
use opentelemetry_rust_contr.Geneva.Encoder.{
  Libraries, MetadataFields, non_blank_utf8, number_fields, format_timestamp, encode_id_to_hex,
  field_env_name, field_env_ver, field_timestamp, field_env_time, field_trace_id, field_span_id,
  field_trace_flags, field_name, field_severity_number, field_severity_text, field_body,
  field_tenant, field_role, field_role_instance,
}

-- The kinds of value that the encoder names, and all others.
pub data ValueType : Type 0 where
  string int64 double boolean unsupported : ValueType

pub record AnyValueView : Type 0 where
  pub value_type : ValueType
  pub as_string : Option Bytes
  pub as_int64 : Option ℕ
  pub as_double : Option ℕ
  pub as_bool : Option Bool

pub record AttributeView : Type 0 where
  pub key : Bytes
  pub value : Option AnyValueView

pub record LogRecordView : Type 0 where
  pub time_unix_nano : Option ℕ
  pub observed_time_unix_nano : Option ℕ
  pub severity_number : Option ℕ
  pub severity_text : Option Bytes
  pub body : Option AnyValueView
  pub attributes : List AttributeView
  pub flags : Option ℕ
  pub trace_id : Option Bytes
  pub span_id : Option Bytes
  pub event_name : Option Bytes

unfoldable pub normalized_event_name : LogRecordView → Option Str
normalized_event_name record_view = record_view.event_name >>= non_blank_utf8

-- The event's time unless it is 0, or else the time of observation, or else 0.
unfoldable pub record_timestamp : LogRecordView → ℕ
record_timestamp r =
    let observed = Option.get_or r.observed_time_unix_nano 0 in
    elim r.time_unix_nano [ none ↦ observed | some t ↦ if t == 0 then observed else t ]

abbrev pub is_some {ℓ} : {A : Type ℓ} → Option A → Bool
is_some none = false
is_some (some a) = true

-- `fields.push` under a condition.
abbrev pub push_if : Bool → Str → BondDataType → List (Str × BondDataType)
push_if true name type_id = (name, type_id) ∷ []
push_if false name type_id = []

unfoldable pub is_empty : Str → Bool
is_empty [] = true
is_empty (b ∷ s) = false

unfoldable pub has_severity_text : LogRecordView → Bool
has_severity_text r = elim (r.severity_text >>= from_utf8) [
  | none ↦ false
  | some s ↦ not (is_empty s)
]

unfoldable pub is_string : AnyValueView → Bool
is_string v = elim v.value_type [ ValueType.string ↦ true | _ ↦ false ]

unfoldable pub has_body : LogRecordView → Bool
has_body r = elim r.body [
  | none ↦ false
  | some b ↦ is_string b && is_some (b.as_string >>= from_utf8)
]

-- The type of an attribute's value; `none` where the loop goes on to the next attribute.
unfoldable pub value_type_id : AnyValueView → Option BondDataType
value_type_id val = elim val.value_type [
  | ValueType.string ↦ if is_some (val.as_string >>= from_utf8) then some bt_string else none
  | ValueType.int64 ↦ if is_some val.as_int64 then some bt_int64 else none
  | ValueType.double ↦ if is_some val.as_double then some bt_double else none
  | ValueType.boolean ↦ if is_some val.as_bool then some bt_bool else none
  | ValueType.unsupported ↦ none
]

unfoldable pub attribute_field : AttributeView → Option (Str × BondDataType)
attribute_field attr = do
  key ← from_utf8 attr.key
  val ← attr.value
  type_id ← value_type_id val
  some (key, type_id)

unfoldable pub attribute_fields : List AttributeView → List (Str × BondDataType)
attribute_fields [] = []
attribute_fields (attr ∷ attrs) =
    let rest = attribute_fields attrs in
    elim (attribute_field attr) [ none ↦ rest | some field ↦ field ∷ rest ]

-- Parts A and B of `determine_fields`.
unfoldable pub base_fields : LogRecordView → List (Str × BondDataType)
base_fields r =
    (field_env_name, bt_string)
    ∷ (field_env_ver, bt_string)
    ∷ (field_timestamp, bt_string)
    ∷ (field_env_time, bt_string)
    ∷ (field_tenant, bt_string)
    ∷ (field_role, bt_string)
    ∷ (field_role_instance, bt_string)
    ∷ (push_if (is_some r.trace_id) field_trace_id bt_string
        ++ (push_if (is_some r.span_id) field_span_id bt_string
            ++ (push_if (is_some r.flags) field_trace_flags bt_uint32
                ++ (push_if (is_some (normalized_event_name r)) field_name bt_string
                    ++ ((field_severity_number, bt_int32)
                        ∷ (push_if (has_severity_text r) field_severity_text bt_string
                            ++ push_if (has_body r) field_body bt_string))))))

-- The fields, and the index of the first one that is an attribute's.
unfoldable pub determine_fields : LogRecordView → List FieldDef × ℕ
determine_fields r =
    let base = base_fields r in
    (number_fields 0 (base ++ attribute_fields r.attributes), length base)

-- A row and its writer's results are `none` where the code panics.
module _ (libs : Libraries) (record_view : LogRecordView) (metadata_fields : MetadataFields) where
  -- The id in hex, behind the check that it is UTF-8; nothing without an id.
  unfoldable pub write_id : ℕ → Option Bytes → Bytes → Option Bytes
  write_id n none buffer = some buffer
  write_id n (some id) buffer = do
    s ← from_utf8 (encode_id_to_hex libs n id)
    some (write_string buffer s)

  unfoldable pub write_severity_text : Bytes → Bytes
  write_severity_text buffer = elim (record_view.severity_text >>= from_utf8) [
    | none ↦ buffer
    | some s ↦ write_string buffer s
  ]

  unfoldable pub body_text : Option Str
  body_text = do
    body ← record_view.body
    guard (is_string body)
    bytes ← body.as_string
    from_utf8 bytes

  unfoldable pub write_body : Bytes → Bytes
  write_body buffer = elim body_text [ none ↦ buffer | some s ↦ write_string buffer s ]

  -- One turn of the loop over the fields before the attributes.
  unfoldable pub write_base_field : Str → Bytes → FieldDef → Option Bytes
  write_base_field formatted_timestamp buffer field =
      let is = str_eq field.name in
      if is field_env_name
      then some (write_string buffer metadata_fields.env_name)
      else if is field_env_ver
      then some (write_string buffer metadata_fields.env_ver)
      else if is field_tenant
      then some (write_string buffer metadata_fields.tenant)
      else if is field_role
      then some (write_string buffer metadata_fields.role)
      else if is field_role_instance
      then some (write_string buffer metadata_fields.role_instance)
      else if is field_timestamp || is field_env_time
      then some (write_string buffer formatted_timestamp)
      else if is field_trace_id
      then write_id 32 record_view.trace_id buffer
      else if is field_span_id
      then write_id 16 record_view.span_id buffer
      else if is field_trace_flags
      then some (write_numeric 4 buffer (Option.get_or record_view.flags 0))
      else if is field_name
      then some (write_string buffer (Option.get_or (normalized_event_name record_view) []))
      else if is field_severity_number
      then some (write_numeric 4 buffer (Option.get_or record_view.severity_number 0))
      else if is field_severity_text
      then some (write_severity_text buffer)
      else if is field_body
      then some (write_body buffer)
      else some buffer

  unfoldable pub write_base_fields : Str → Bytes → List FieldDef → Option Bytes
  write_base_fields formatted_timestamp buffer [] = some buffer
  write_base_fields formatted_timestamp buffer (field ∷ fields) = do
    buffer ← write_base_field formatted_timestamp buffer field
    write_base_fields formatted_timestamp buffer fields

-- The assertion that the next field has this key.
unfoldable pub assert_key : List FieldDef → ℕ → Str → Option (Unit {0})
assert_key fields i key = elim (get_elem? fields i) [
  | none ↦ none
  | some field ↦ guard (str_eq field.name key)
]

-- The buffer with the value of an attribute; `none` where nothing is written.
unfoldable pub write_attribute : AnyValueView → Bytes → Option Bytes
write_attribute val buffer = elim val.value_type [
  | ValueType.string ↦ do s ← val.as_string >>= from_utf8; some (write_string buffer s)
  | ValueType.int64 ↦ do i ← val.as_int64; some (write_numeric 8 buffer i)
  | ValueType.double ↦ do d ← val.as_double; some (write_numeric 8 buffer d)
  | ValueType.boolean ↦ do b ← val.as_bool; some (write_bool buffer b)
  | ValueType.unsupported ↦ none
]

-- The key of an attribute that is written, and the buffer; `none` where the loop goes on.
unfoldable pub written_attribute : AttributeView → Bytes → Option (Str × Bytes)
written_attribute attr buffer = do
  key ← from_utf8 attr.key
  val ← attr.value
  buffer ← write_attribute val buffer
  some (key, buffer)

-- The loop over the attributes, with the count of those written.
unfoldable pub write_attributes :
    List FieldDef → ℕ → List AttributeView → Bytes → ℕ → Option (Bytes × ℕ)
write_attributes fields start [] buffer written = some (buffer, written)
write_attributes fields start (attr ∷ attrs) buffer written = elim (written_attribute attr buffer) [
  | none ↦ write_attributes fields start attrs buffer written
  | some (key, buffer') ↦ do
    assert_key fields (start + written) key
    write_attributes fields start attrs buffer' (written + 1)
]

unfoldable pub write_row_data :
    Libraries → LogRecordView → List FieldDef → ℕ → MetadataFields → Option Bytes
write_row_data libs r fields dynamic_fields_start metadata_fields = do
  let formatted_timestamp = format_timestamp libs (record_timestamp r)
  guard (not (ltb (length fields) dynamic_fields_start))
  buffer ←
      write_base_fields libs r metadata_fields formatted_timestamp []
        (take dynamic_fields_start fields)
  let expected_dynamic_fields = length fields - dynamic_fields_start
  if ltb 0 expected_dynamic_fields
      then (do
        (buffer, written) ← write_attributes fields dynamic_fields_start r.attributes buffer 0
        guard (written == expected_dynamic_fields)
        some buffer)
      else some buffer
