-- ===== src/Geneva/Blob/Size.antt =====
-- The size that `to_bytes` estimates, against what it writes.
use opentelemetry_rust_contr.Common.{◌+◌, List, [], ◌∷◌, ◌≡◌, length, length-append, All, arith}
use opentelemetry_rust_contr.Common.Bytes.{Bytes, length-to_le_bytes}
use opentelemetry_rust_contr.Geneva.Blob.{
  CentralSchemaEntry, CentralEventEntry, CentralBlob, schemas_size, events_size, estimated_size,
  write_schema, write_event, write_schemas, write_events, to_bytes,
}

ruleset lengths = (length-append, length-to_le_bytes)

-- An MD5 digest is `[u8; 16]`.
abbrev pub HasDigest : CentralSchemaEntry → Type 0
HasDigest s = length s.md5 ≡ 16

length-write_schema :
    (buf : Bytes) (s : CentralSchemaEntry)
    → HasDigest s
    → length (write_schema buf s) ≡ length buf + schemas_size (s ∷ [])
unfolding write_schema schemas_size
length-write_schema buf s h = simp lengths (omega arith)

length-write_event :
    (buf : Bytes) (e : CentralEventEntry)
    → length (write_event buf e) ≡ length buf + events_size (e ∷ [])
unfolding write_event events_size
length-write_event buf e = simp lengths (omega arith)

length-write_schemas :
    (buf : Bytes) (ss : List CentralSchemaEntry)
    → All HasDigest ss
    → length (write_schemas buf ss) ≡ length buf + schemas_size ss
unfolding write_schemas schemas_size
length-write_schemas buf [] h = omega arith
length-write_schemas buf (s ∷ ss) h =
    omega (arith, length-write_schema buf s h.0, length-write_schemas (write_schema buf s) ss h.1)

length-write_events :
    (buf : Bytes) (es : List CentralEventEntry)
    → length (write_events buf es) ≡ length buf + events_size es
unfolding write_events events_size
length-write_events buf [] = omega arith
length-write_events buf (e ∷ es) =
    omega (arith, length-write_event buf e, length-write_events (write_event buf e) es)

-- The buffer capacity that `to_bytes` computes beforehand is exactly the number of bytes that it
-- writes, for every blob whose digests have their 16 bytes.
pub length-to_bytes :
    (blob : CentralBlob) → All HasDigest blob.schemas → length (to_bytes blob) ≡ estimated_size blob
unfolding to_bytes estimated_size
length-to_bytes blob h =
    rw (length-write_events _ blob.events, length-write_schemas _ blob.schemas h)
      (simp lengths (omega arith))
