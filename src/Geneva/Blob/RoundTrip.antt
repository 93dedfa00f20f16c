-- ===== src/Geneva/Blob/RoundTrip.antt =====
-- The blob reader on what `to_bytes` writes.
use opentelemetry_rust_contr.Common.{
  ℕ, zero, suc, ◌+◌, ◌-◌, ◌*◌, ◌%◌, ◌^◌, ◌<◌, ◌≤◌, List, [], ◌∷◌, ◌++◌, ◌≡◌, refl, sym, ◌∙◌, some,
  length, length-append, All, All-append, ◌>>=◌, map, append-nil, append_assoc, arith,
}
use opentelemetry_rust_contr.Common.Bytes.{
  Bytes, to_le_bytes, length-to_le_bytes, read_le, read_bytes_front, read_prefixed_lem,
  read_le-to_le_bytes,
}
use opentelemetry_rust_contr.Geneva.Blob.{
  CentralSchemaEntry, CentralEventEntry, CentralBlob, utf8_to_utf16le_bytes, terminator,
  write_schema, write_event, write_schemas, write_events, to_bytes,
}
use opentelemetry_rust_contr.Geneva.Blob.Reader.{
  Entity, schema_entity, event_entity, read_schema_entity, read_event_entity, read_entity,
  read_entities, read_blob, schema_view, event_view, blob_view, SchemaEntryFits, EventEntryFits,
  BlobFits,
}
use native.Mathlib.Nat.{mod-eq_of_lt}

-- The image of an entity in front of what follows.
entity_image : Entity → Bytes → Bytes
entity_image (schema_entity id md5 schema) rest =
    to_le_bytes 2 0
    ++ (to_le_bytes 8 id
        ++ (md5
            ++ (to_le_bytes 4 (length schema % 2 ^ 32)
                ++ (schema ++ (to_le_bytes 8 terminator ++ rest)))))
entity_image (event_entity schema_id level name row) rest =
    to_le_bytes 2 2
    ++ (to_le_bytes 8 schema_id
        ++ (level
            ∷ (to_le_bytes 2 (length name % 2 ^ 16)
                ++ (name
                    ++ (to_le_bytes 4 ((4 + length row) % 2 ^ 32)
                        ++ (0x53
                            ∷ 0x50
                            ∷ 0x01
                            ∷ 0x00
                            ∷ (row ++ (to_le_bytes 8 terminator ++ rest))))))))

entities_image : List Entity → Bytes
entities_image [] = []
entities_image (e ∷ es) = entity_image e (entities_image es)

entity_image-append : (e : Entity) (s t : Bytes) → entity_image e s ++ t ≡ entity_image e (s ++ t)
unfolding entity_image
entity_image-append (schema_entity id md5 schema) s t = simp append_assoc
entity_image-append (event_entity schema_id level name row) s t = simp append_assoc

entities_image-append :
    (es fs : List Entity) → entities_image (es ++ fs) ≡ entities_image es ++ entities_image fs
unfolding entities_image
entities_image-append [] fs = refl
entities_image-append (e ∷ es) fs = simp (entities_image-append es fs, entity_image-append)

write_schema-image :
    (buf : Bytes) (s : CentralSchemaEntry) (rest : Bytes)
    → write_schema buf s ++ rest ≡ buf ++ entity_image (schema_view s) rest
unfolding write_schema entity_image
write_schema-image buf s rest = simp append_assoc

write_event-image :
    (buf : Bytes) (e : CentralEventEntry) (rest : Bytes)
    → write_event buf e ++ rest ≡ buf ++ entity_image (event_view e) rest
unfolding write_event entity_image
write_event-image buf e rest = simp append_assoc

write_schemas-image :
    (buf : Bytes) (ss : List CentralSchemaEntry)
    → write_schemas buf ss ≡ buf ++ entities_image (map schema_view ss)
unfolding write_schemas entities_image
write_schemas-image buf [] = sym (append-nil buf)
write_schemas-image buf (s ∷ ss) =
    write_schemas-image (write_schema buf s) ss ∙ write_schema-image buf s _

write_events-image :
    (buf : Bytes) (es : List CentralEventEntry)
    → write_events buf es ≡ buf ++ entities_image (map event_view es)
unfolding write_events entities_image
write_events-image buf [] = sym (append-nil buf)
write_events-image buf (e ∷ es) =
    write_events-image (write_event buf e) es ∙ write_event-image buf e _

-- What fits, of an entity.
Fits : Entity → Type 0
Fits (schema_entity id md5 schema) = (id < 2 ^ 64) × (length md5 ≡ 16) × (length schema < 2 ^ 32)
Fits (event_entity schema_id level name row) =
    (schema_id < 2 ^ 64) × (level < 256) × (length name < 2 ^ 16) × (4 + length row < 2 ^ 32)

read_one : (b : ℕ) (rest : Bytes) → read_le 1 (b ∷ rest) ≡ some (b, rest)
unfolding read_le
read_one b rest = let e : b + 256 * 0 ≡ b = omega arith in rw e

read_magic : (rest : Bytes) → read_le 4 (0x53 ∷ 0x50 ∷ 0x01 ∷ 0x00 ∷ rest) ≡ some (0x1_5053, rest)
unfolding read_le
read_magic rest = refl

read_entity-image :
    (e : Entity) (rest : Bytes) → Fits e → read_entity (entity_image e rest) ≡ some (e, rest)
unfolding read_entity entity_image read_schema_entity read_event_entity Fits
read_entity-image (schema_entity id md5 schema) rest h = rw (
  read_le-to_le_bytes 2 0 _ (omega arith),
  read_le-to_le_bytes 8 id _ (omega arith),
  read_bytes_front 16 md5 _ h.1,
  mod-eq_of_lt h.2,
  read_prefixed_lem 4 (length schema) schema _ refl (omega arith),
  read_le-to_le_bytes 8 terminator _ (omega arith),
)
read_entity-image (event_entity schema_id level name row) rest h = rw (
  read_le-to_le_bytes 2 2 _ (omega arith),
  read_le-to_le_bytes 8 schema_id _ (omega arith),
  read_one,
  mod-eq_of_lt h.2,
  read_prefixed_lem 2 (length name) name _ refl (omega arith),
  mod-eq_of_lt h.3,
  read_le-to_le_bytes 4 (4 + length row) _ (omega arith),
  read_magic,
  read_bytes_front (4 + length row - 4) row _ (omega arith),
  read_le-to_le_bytes 8 terminator _ (omega arith),
)

entity_image_cons :
    (e : Entity) (rest : Bytes) → (b : ℕ) × (s : Bytes) × (entity_image e rest ≡ b ∷ s)
unfolding entity_image to_le_bytes
entity_image_cons (schema_entity id md5 schema) rest = (_, _, refl)
entity_image_cons (event_entity schema_id level name row) rest = (_, _, refl)

length-entities_image : (es : List Entity) → length es ≤ length (entities_image es)
unfolding entities_image entity_image
length-entities_image [] = omega arith
length-entities_image (schema_entity id md5 schema ∷ es) =
    simp (length-append, length-to_le_bytes) (omega (arith, length-entities_image es))
length-entities_image (event_entity schema_id level name row ∷ es) =
    simp (length-append, length-to_le_bytes) (omega (arith, length-entities_image es))

read_entities_step :
    (n : ℕ) (s : Bytes) (e : Entity) (rest : Bytes) {b : ℕ} {t : Bytes}
    → s ≡ b ∷ t
    → read_entity s ≡ some (e, rest)
    → read_entities (suc n) s ≡ (read_entities n rest >>= λ es. some (e ∷ es))
read_entities_step n [] e rest p q = cc
read_entities_step n (c ∷ s) e rest p q = unfold read_entities in rw q

read_entities-nil : (n : ℕ) → read_entities n [] ≡ some []
unfolding read_entities
read_entities-nil zero = refl
read_entities-nil (suc n) = refl

read_entities-image :
    (n : ℕ) (es : List Entity)
    → length es ≤ n
    → All Fits es
    → read_entities n (entities_image es) ≡ some es
unfolding entities_image
read_entities-image n [] h fits = read_entities-nil n
read_entities-image zero (e ∷ es) h fits = absurd (omega arith)
read_entities-image (suc n) (e ∷ es) h fits =
    let (b, s, shape) = entity_image_cons e (entities_image es) in
    read_entities_step n _ e (entities_image es) shape
      (read_entity-image e (entities_image es) fits.0)
    ∙ rw (read_entities-image n es (omega arith) fits.1)

schema_view-Fits :
    (ss : List CentralSchemaEntry) → All SchemaEntryFits ss → All Fits (map schema_view ss)
unfolding Fits
schema_view-Fits [] h = tt
schema_view-Fits (s ∷ ss) h = ((h.0.id_fits, h.0.digest, h.0.schema_fits), schema_view-Fits ss h.1)

event_view-Fits :
    (es : List CentralEventEntry) → All EventEntryFits es → All Fits (map event_view es)
unfolding Fits
event_view-Fits [] h = tt
event_view-Fits (e ∷ es) h =
    ((h.0.id_fits, h.0.level_fits, h.0.name_fits, h.0.row_fits), event_view-Fits es h.1)

-- `to_bytes` as the fields of the layout, one behind the other.
to_bytes-image :
    (blob : CentralBlob)
    → to_bytes blob
      ≡ to_le_bytes 4 blob.version
        ++ (to_le_bytes 4 blob.format
            ++ (to_le_bytes 4 (length (utf8_to_utf16le_bytes blob.metadata) % 2 ^ 32)
                ++ (utf8_to_utf16le_bytes blob.metadata
                    ++ entities_image (blob_view blob).entities)))
unfolding to_bytes
to_bytes-image blob =
    rw
      (
        write_events-image _ blob.events,
        write_schemas-image _ blob.schemas,
        entities_image-append (map schema_view blob.schemas) (map event_view blob.events),
      )
      (simp append_assoc)

-- A reader of the layout gets back the version, the format, the UTF-16 metadata and every schema
-- and event in order, with nothing left over, from the bytes of every blob whose parts fit the
-- widths of the layout: 16 bits for a name's length, 32 for the other lengths, 64 for the ids.
pub read_blob-to_bytes :
    (blob : CentralBlob) → BlobFits blob → read_blob (to_bytes blob) ≡ some (blob_view blob)
read_blob-to_bytes blob h =
    let meta = utf8_to_utf16le_bytes blob.metadata in
    let es = (blob_view blob).entities in
    rw (to_bytes-image blob) (
      unfold read_blob in
      rw (
        read_le-to_le_bytes 4 blob.version _ (omega arith),
        read_le-to_le_bytes 4 blob.format _ (omega arith),
        mod-eq_of_lt h.metadata_fits,
        read_prefixed_lem 4 (length meta) meta _ refl (omega arith),
        read_entities-image (length (entities_image es)) es (length-entities_image es) (
            All-append Fits (map schema_view blob.schemas) (map event_view blob.events)
              (schema_view-Fits blob.schemas h.schemas_fit)
              (event_view-Fits blob.events h.events_fit)),
      ))
