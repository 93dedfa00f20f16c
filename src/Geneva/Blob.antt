-- ===== src/Geneva/Blob.antt =====
-- central_blob.rs: the entries of a central blob and its byte layout.
pub mod Size
pub mod Reader
pub mod RoundTrip
use opentelemetry_rust_contr.Common.{ℕ, ◌+◌, ◌%◌, ◌^◌, List, [], ◌∷◌, length}
use opentelemetry_rust_contr.Common.Bytes.{Bytes, to_le_bytes}
use opentelemetry_rust_contr.Common.Text.{Str, encode_utf16}
use opentelemetry_rust_contr.Geneva.Bond.{BondEncodedSchema, FieldDef, units_to_le_bytes, write_all}

pub record BatchMetadata : Type 0 where
  pub start_time : ℕ
  pub end_time : ℕ
  pub schema_ids : Str

unfoldable pub utf8_to_utf16le_bytes : Str → Bytes
utf8_to_utf16le_bytes s = units_to_le_bytes (encode_utf16 s)

pub record CentralSchemaEntry : Type 0 where
  pub id : ℕ
  pub md5 : Bytes
  pub schema : BondEncodedSchema
  pub fields : List FieldDef

pub record CentralEventEntry : Type 0 where
  pub schema_id : ℕ
  pub level : ℕ
  pub event_name : Str
  pub row : Bytes

abbrev pub terminator : ℕ
terminator = 0xdead_c0de_dead_c0de

pub record CentralBlob : Type 0 where
  pub version : ℕ
  pub format : ℕ
  pub metadata : Str
  pub schemas : List CentralSchemaEntry
  pub events : List CentralEventEntry

-- The two sums of the estimate.
unfoldable pub schemas_size : List CentralSchemaEntry → ℕ
schemas_size [] = 0
schemas_size (s ∷ schemas) = 2 + 8 + 16 + 4 + length s.schema.as_bytes + 8 + schemas_size schemas

unfoldable pub events_size : List CentralEventEntry → ℕ
events_size [] = 0
events_size (e ∷ events) =
    let row_len = 4 + length e.row in
    2
    + 8
    + 1
    + 2
    + 4
    + length (utf8_to_utf16le_bytes e.event_name)
    + row_len
    + 8
    + events_size events

unfoldable pub estimated_size : CentralBlob → ℕ
estimated_size blob =
    8
    + 4
    + length (utf8_to_utf16le_bytes blob.metadata)
    + schemas_size blob.schemas
    + events_size blob.events

-- The body of the loop over the schemas, of entity type 0, and the loop.
unfoldable pub write_schema : Bytes → CentralSchemaEntry → Bytes
write_schema buf s =
    let buf = write_all buf (to_le_bytes 2 0) in
    let buf = write_all buf (to_le_bytes 8 s.id) in
    let buf = write_all buf s.md5 in
    let schema_bytes = s.schema.as_bytes in
    let buf = write_all buf (to_le_bytes 4 (length schema_bytes % 2 ^ 32)) in
    let buf = write_all buf schema_bytes in write_all buf (to_le_bytes 8 terminator)

unfoldable pub write_schemas : Bytes → List CentralSchemaEntry → Bytes
write_schemas buf [] = buf
write_schemas buf (s ∷ schemas) = write_schemas (write_schema buf s) schemas

-- The body of the loop over the events, of entity type 2, and the loop.
unfoldable pub write_event : Bytes → CentralEventEntry → Bytes
write_event buf e =
    let evname_utf16 = utf8_to_utf16le_bytes e.event_name in
    let buf = write_all buf (to_le_bytes 2 2) in
    let buf = write_all buf (to_le_bytes 8 e.schema_id) in
    let buf = write_all buf (e.level ∷ []) in
    let buf = write_all buf (to_le_bytes 2 (length evname_utf16 % 2 ^ 16)) in
    let buf = write_all buf evname_utf16 in
    let total_len = 4 + length e.row in
    let buf = write_all buf (to_le_bytes 4 (total_len % 2 ^ 32)) in
    let buf = write_all buf (0x53 ∷ 0x50 ∷ 0x01 ∷ 0x00 ∷ []) in
    let buf = write_all buf e.row in write_all buf (to_le_bytes 8 terminator)

unfoldable pub write_events : Bytes → List CentralEventEntry → Bytes
write_events buf [] = buf
write_events buf (e ∷ events) = write_events (write_event buf e) events

unfoldable pub to_bytes : CentralBlob → Bytes
to_bytes blob =
    let meta_utf16 = utf8_to_utf16le_bytes blob.metadata in
    let buf = write_all [] (to_le_bytes 4 blob.version) in
    let buf = write_all buf (to_le_bytes 4 blob.format) in
    let buf = write_all buf (to_le_bytes 4 (length meta_utf16 % 2 ^ 32)) in
    let buf = write_all buf meta_utf16 in
    let buf = write_schemas buf blob.schemas in write_events buf blob.events
