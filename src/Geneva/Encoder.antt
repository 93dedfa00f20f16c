-- ===== src/Geneva/Encoder.antt =====
-- otlp_encoder.rs, what logs and spans share: the metadata fields, the numbering of schema fields,
-- the schema of a batch and how it is found again, timestamps and ids in text.
pub mod Schemas
pub mod Numbering
use opentelemetry_rust_contr.Common.{
  ℕ, zero, suc, ◌+◌, ◌*◌, ◌/◌, ◌%◌, ◌^◌, List, [], ◌∷◌, ◌++◌, Bool, true, false, ◌&&◌, Option, none,
  some, length, replicate, ◌-◌, leb, ◌==◌, ◌>>=◌, if◌then◌else◌,
}
use mathlib.Core.List.{reverse}
use opentelemetry_rust_contr.Common.Bytes.{Bytes}
use opentelemetry_rust_contr.Common.Text.{Str, codes, str_eq, chars, from_utf8, is_blank}
use opentelemetry_rust_contr.Geneva.Bond.{
  BondDataType, discriminant, FieldDef, BondEncodedSchema, from_fields,
}
use opentelemetry_rust_contr.Geneva.Blob.{BatchMetadata, CentralSchemaEntry}
use opentelemetry_rust_contr.Geneva.Lz4.{Lz4}

-- The codes of a span's status in opentelemetry_proto.
pub data StatusCode : Type 0 where
  unset ok error : StatusCode

-- What the encoder takes from other crates: lz4_flex; the MD5 digest of the crate md5; the crate
-- hex, where `encode_to_slice id n` is what is written to a slice of `n` bytes, `none` for an error,
-- which leaves the slice alone; of chrono `Utc.timestamp_opt(secs, nsec).single()` printed by
-- `to_rfc3339`; and `StatusCode::try_from` of opentelemetry_proto, on the bits of an `i32`.
pub record Libraries : Type 0 where
  pub lz4 : Lz4
  pub md5_digest : Bytes → Bytes
  pub encode_to_slice : Bytes → ℕ → Option Bytes
  pub timestamp_rfc3339 : ℕ → ℕ → Option Str
  pub status_code : ℕ → Option StatusCode

abbrev pub field_env_name : Str
field_env_name = codes "env_name"

abbrev pub field_env_ver : Str
field_env_ver = codes "env_ver"

abbrev pub field_timestamp : Str
field_timestamp = codes "timestamp"

abbrev pub field_env_time : Str
field_env_time = codes "env_time"

abbrev pub field_trace_id : Str
field_trace_id = codes "env_dt_traceId"

abbrev pub field_span_id : Str
field_span_id = codes "env_dt_spanId"

abbrev pub field_trace_flags : Str
field_trace_flags = codes "env_dt_traceFlags"

abbrev pub field_name : Str
field_name = codes "name"

abbrev pub field_severity_number : Str
field_severity_number = codes "SeverityNumber"

abbrev pub field_severity_text : Str
field_severity_text = codes "SeverityText"

abbrev pub field_body : Str
field_body = codes "body"

abbrev pub field_tenant : Str
field_tenant = codes "Tenant"

abbrev pub field_role : Str
field_role = codes "Role"

abbrev pub field_role_instance : Str
field_role_instance = codes "RoleInstance"

abbrev pub field_kind : Str
field_kind = codes "kind"

abbrev pub field_start_time : Str
field_start_time = codes "startTime"

abbrev pub field_success : Str
field_success = codes "success"

abbrev pub field_trace_state : Str
field_trace_state = codes "traceState"

abbrev pub field_parent_id : Str
field_parent_id = codes "parentId"

abbrev pub field_links : Str
field_links = codes "links"

abbrev pub field_status_message : Str
field_status_message = codes "statusMessage"

unfoldable pub non_blank_utf8 : Bytes → Option Str
non_blank_utf8 bytes = do
  s ← from_utf8 bytes
  text ← chars s
  if is_blank text then none else some s

pub record MetadataFields : Type 0 where
  pub env_name : Str
  pub env_ver : Str
  pub tenant : Str
  pub role : Str
  pub role_instance : Str
  pub namespace : Str
  pub event_version : Str
  pub metadata_string : Str

unfoldable pub new_metadata_fields : Str → Str → Str → Str → Str → Str → Str → MetadataFields
new_metadata_fields env_name env_ver tenant role role_instance namespace event_version = record {
  env_name = env_name;
  env_ver = env_ver;
  tenant = tenant;
  role = role;
  role_instance = role_instance;
  namespace = namespace;
  event_version = event_version;
  metadata_string =
      codes "namespace="
      ++ namespace
      ++ codes "/eventVersion="
      ++ event_version
      ++ codes "/tenant="
      ++ tenant
      ++ codes "/role="
      ++ role
      ++ codes "/roleinstance="
      ++ role_instance;
}

-- The fields in their order, with ids that count from 1 and are cut to 16 bits.
unfoldable pub number_fields : ℕ → List (Str × BondDataType) → List FieldDef
number_fields i [] = []
number_fields i ((name, type_id) ∷ fields) =
    record { name = name; field_id = (i + 1) % 2 ^ 16; type_id = type_id }
    ∷ number_fields (i + 1) fields

unfoldable pub format_timestamp : Libraries → ℕ → Str
format_timestamp libs nanos =
    let secs = nanos / 1_000_000_000 in
    let nsec = nanos % 1_000_000_000 in
    elim (libs.timestamp_rfc3339 secs nsec) [
      | some text ↦ text
      | none ↦ codes "1970-01-01T00:00:00+00:00"
    ]

-- A slice of `n` zeros, written by `hex::encode_to_slice` unless that fails.
unfoldable pub encode_id_to_hex : Libraries → ℕ → Bytes → Bytes
encode_id_to_hex libs n id = elim (libs.encode_to_slice id n) [
  | some hex_bytes ↦ hex_bytes
  | none ↦ replicate n 0
]

unfoldable pub same_field : FieldDef → FieldDef → Bool
same_field a b = discriminant a.type_id == discriminant b.type_id && str_eq a.name b.name

unfoldable pub zip_fields : List FieldDef → List FieldDef → List (FieldDef × FieldDef)
zip_fields [] bs = []
zip_fields (a ∷ as_rest) [] = []
zip_fields (a ∷ as_rest) (b ∷ bs) = (a, b) ∷ zip_fields as_rest bs

unfoldable pub all_same : List (FieldDef × FieldDef) → Bool
all_same [] = true
all_same ((a, b) ∷ pairs) = same_field a b && all_same pairs

-- The test by which a schema is found again: as many fields, of the same types and names.
unfoldable pub matches_schema : List FieldDef → CentralSchemaEntry → Bool
matches_schema field_info s =
    length s.fields == length field_info && all_same (reverse (zip_fields s.fields field_info))

-- `iter().position(…)`, counting from `i`.
unfoldable pub position : List FieldDef → ℕ → List CentralSchemaEntry → Option ℕ
position field_info i [] = none
position field_info i (s ∷ schemas) =
    if matches_schema field_info s then some i else position field_info (i + 1) schemas

-- `create_schema` and `create_span_schema`, by the name of the struct.
unfoldable pub create_schema : Libraries → Str → ℕ → List FieldDef → CentralSchemaEntry
create_schema libs struct_name schema_id field_info =
    let schema = from_fields struct_name (codes "telemetry") field_info in
    record {
      id = schema_id;
      md5 = libs.md5_digest schema.as_bytes;
      schema = schema;
      fields = field_info;
    }

-- The id of the schema with these fields, and the schemas with it, new or old.
unfoldable pub find_or_create_schema :
    Libraries → Str → List FieldDef → List CentralSchemaEntry → ℕ × List CentralSchemaEntry
find_or_create_schema libs struct_name field_info schemas = elim (position field_info 0 schemas) [
  | some idx ↦ ((idx + 1) % 2 ^ 64, schemas)
  | none ↦
      let new_id = (length schemas + 1) % 2 ^ 64 in
      (new_id, schemas ++ create_schema libs struct_name new_id field_info ∷ [])
]

-- A byte as two lowercase hex digits, `{byte:02x}`.
unfoldable pub hex_digit : ℕ → ℕ
hex_digit d = if leb d 9 then b'0' + d else b'a' + (d - 10)

unfoldable pub hex_of : Bytes → Str
hex_of [] = []
hex_of (b ∷ s) = hex_digit (b / 16) ∷ hex_digit (b % 16) ∷ hex_of s

-- The MD5 of each schema in hex, with semicolons between.
unfoldable pub format_schema_ids : List CentralSchemaEntry → Str
format_schema_ids [] = []
format_schema_ids (s ∷ []) = hex_of s.md5
format_schema_ids (s ∷ t ∷ schemas) = hex_of s.md5 ++ b';' ∷ format_schema_ids (t ∷ schemas)
