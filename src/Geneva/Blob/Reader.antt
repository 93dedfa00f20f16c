-- ===== src/Geneva/Blob/Reader.antt =====
-- A reader of the central blob layout, written from the layout's description in central_blob.rs and
-- not from `to_bytes`.
use opentelemetry_rust_contr.Common.{
  ℕ, zero, suc, ◌+◌, ◌-◌, ◌^◌, ◌<◌, List, [], ◌∷◌, ◌++◌, ◌≡◌, true, false, Option, none, some,
  length, All, guard, ◌==◌, ◌>>=◌, ◌>>◌, map,
}
use opentelemetry_rust_contr.Common.Bytes.{Bytes, read_le, read_bytes, read_prefixed}
use opentelemetry_rust_contr.Geneva.Blob.{
  CentralSchemaEntry, CentralEventEntry, CentralBlob, utf8_to_utf16le_bytes, terminator,
}

-- An entity as a reader of the blob sees it; texts are UTF-16LE.
pub data Entity : Type 0 where
  schema_entity : (id : ℕ) (md5 schema : Bytes) → Entity
  event_entity : (schema_id level : ℕ) (name row : Bytes) → Entity

pub record BlobView : Type 0 where
  pub version : ℕ
  pub format : ℕ
  pub metadata : Bytes
  pub entities : List Entity

unfoldable pub read_schema_entity : Bytes → Option (Entity × Bytes)
read_schema_entity s = do
  (id, s) ← read_le 8 s
  (md5, s) ← read_bytes 16 s
  (schema, s) ← read_prefixed 4 s
  (end, s) ← read_le 8 s
  guard (end == terminator)
  some (schema_entity id md5 schema, s)

-- The row's length counts its Simple Protocol header.
unfoldable pub read_event_entity : Bytes → Option (Entity × Bytes)
read_event_entity s = do
  (schema_id, s) ← read_le 8 s
  (level, s) ← read_le 1 s
  (name, s) ← read_prefixed 2 s
  (total, s) ← read_le 4 s
  (header, s) ← read_le 4 s
  guard (header == 0x1_5053)
  (row, s) ← read_bytes (total - 4) s
  (end, s) ← read_le 8 s
  guard (end == terminator)
  some (event_entity schema_id level name row, s)

unfoldable pub read_entity : Bytes → Option (Entity × Bytes)
read_entity s = do
  (kind, s) ← read_le 2 s
  elim (kind == 0) [
    | true ↦ read_schema_entity s
    | false ↦ elim (kind == 2) [ true ↦ read_event_entity s | false ↦ none ]
  ]

-- Entities up to the end of the input, `n` at most.
unfoldable pub read_entities : ℕ → Bytes → Option (List Entity)
read_entities n [] = some []
read_entities zero (b ∷ s) = none
read_entities (suc n) (b ∷ s) = do
  (entity, rest) ← read_entity (b ∷ s)
  entities ← read_entities n rest
  some (entity ∷ entities)

unfoldable pub read_blob : Bytes → Option BlobView
read_blob s = do
  (version, s) ← read_le 4 s
  (format, s) ← read_le 4 s
  (metadata, s) ← read_prefixed 4 s
  entities ← read_entities (length s) s
  some (record { version = version; format = format; metadata = metadata; entities = entities })

-- What a reader is to see of the blob.
abbrev pub schema_view : CentralSchemaEntry → Entity
schema_view s = schema_entity s.id s.md5 s.schema.as_bytes

abbrev pub event_view : CentralEventEntry → Entity
event_view e = event_entity e.schema_id e.level (utf8_to_utf16le_bytes e.event_name) e.row

abbrev pub blob_view : CentralBlob → BlobView
blob_view blob = record {
  version = blob.version;
  format = blob.format;
  metadata = utf8_to_utf16le_bytes blob.metadata;
  entities = map schema_view blob.schemas ++ map event_view blob.events;
}

-- What fits the widths of the layout.
pub record SchemaEntryFits (s : CentralSchemaEntry) : Type 0 where
  pub id_fits : s.id < 2 ^ 64
  pub digest : length s.md5 ≡ 16
  pub schema_fits : length s.schema.as_bytes < 2 ^ 32

pub record EventEntryFits (e : CentralEventEntry) : Type 0 where
  pub id_fits : e.schema_id < 2 ^ 64
  pub level_fits : e.level < 256
  pub name_fits : length (utf8_to_utf16le_bytes e.event_name) < 2 ^ 16
  pub row_fits : 4 + length e.row < 2 ^ 32

pub record BlobFits (blob : CentralBlob) : Type 0 where
  pub version_fits : blob.version < 2 ^ 32
  pub format_fits : blob.format < 2 ^ 32
  pub metadata_fits : length (utf8_to_utf16le_bytes blob.metadata) < 2 ^ 32
  pub schemas_fit : All SchemaEntryFits blob.schemas
  pub events_fit : All EventEntryFits blob.events
