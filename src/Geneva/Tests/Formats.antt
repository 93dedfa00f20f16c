-- ===== src/Geneva/Tests/Formats.antt =====
-- The byte formats at concrete inputs.
use opentelemetry_rust_contr.Common.{List, [], ◌∷◌, ◌≡◌, ◌≢◌, refl, some, arith}
use opentelemetry_rust_contr.Common.Bytes.{Bytes, to_le_bytes}
use opentelemetry_rust_contr.Common.Text.{
  codes, encode_utf16, utf16_of, utf16_units, chars, decode, decode_byte, lead,
}
use opentelemetry_rust_contr.Geneva.Bond.{
  FieldDef, DynamicSchema, bt_string, bt_int32, encode, units_to_le_bytes,
}
use opentelemetry_rust_contr.Geneva.Bond.Reader.{read_schema, SchemaFits}
use opentelemetry_rust_contr.Geneva.Bond.RoundTrip.{read_schema-encode}
use opentelemetry_rust_contr.Geneva.Blob.{CentralBlob, to_bytes, utf8_to_utf16le_bytes}
use opentelemetry_rust_contr.Geneva.Blob.Reader.{read_blob, blob_view, BlobFits}
use opentelemetry_rust_contr.Geneva.Blob.RoundTrip.{read_blob-to_bytes}
use opentelemetry_rust_contr.Geneva.Lz4.{
  ok, stuck, compress_chunk, compress_loop, resize, overwrite, lz4_chunked_compression_custom,
}
use opentelemetry_rust_contr.Geneva.Lz4.RoundTrip.{
  decompress_chunked, compression-ne-stuck, decompress_chunked-compression,
}
use opentelemetry_rust_contr.Geneva.Tests.{stored, stored_back, stored-Lz4Laws}

abbrev two_fields : List FieldDef
two_fields =
    record { name = codes "a"; field_id = 1; type_id = bt_string }
    ∷ record { name = codes "n"; field_id = 2; type_id = bt_int32 }
    ∷ []

abbrev small_schema : DynamicSchema
small_schema = record {
  struct_name = codes "Log";
  qualified_name = codes "telemetry.Log";
  fields = two_fields;
}

small_schema-SchemaFits : SchemaFits small_schema
small_schema-SchemaFits = omega arith

read_schema-encode_example : read_schema (encode small_schema) ≡ some small_schema
read_schema-encode_example = read_schema-encode small_schema small_schema-SchemaFits

abbrev small_blob : CentralBlob
small_blob = record {
  version = 1;
  format = 2;
  metadata = codes "ns";
  schemas =
      record {
        id = 1;
        md5 = 1 ∷ 2 ∷ 3 ∷ 4 ∷ 5 ∷ 6 ∷ 7 ∷ 8 ∷ 9 ∷ 10 ∷ 11 ∷ 12 ∷ 13 ∷ 14 ∷ 15 ∷ 16 ∷ [];
        schema = record { as_bytes = 7 ∷ 8 ∷ [] };
        fields = two_fields;
      }
      ∷ [];
  events = record { schema_id = 1; level = 9; event_name = codes "Log"; row = 5 ∷ 6 ∷ [] } ∷ [];
}

small_blob-BlobFits : BlobFits small_blob
unfolding utf8_to_utf16le_bytes units_to_le_bytes encode_utf16 utf16_of utf16_units chars decode
    decode_byte lead to_le_bytes
small_blob-BlobFits = record {
  version_fits = omega arith;
  format_fits = omega arith;
  metadata_fits = omega arith;
  schemas_fit = omega arith;
  events_fit = omega arith;
}

read_blob-to_bytes_example : read_blob (to_bytes small_blob) ≡ some (blob_view small_blob)
read_blob-to_bytes_example = read_blob-to_bytes small_blob small_blob-BlobFits

compression-ne-stuck_example : lz4_chunked_compression_custom stored 2 (1 ∷ 2 ∷ 3 ∷ []) ≢ stuck
compression-ne-stuck_example = compression-ne-stuck stored 2 (1 ∷ 2 ∷ 3 ∷ []) (omega arith)

decompress_chunked-compression_example :
    (output : Bytes) × (lz4_chunked_compression_custom stored 2 (1 ∷ 2 ∷ 3 ∷ []) ≡ ok output)
    × (decompress_chunked stored_back 3 output ≡ some (1 ∷ 2 ∷ 3 ∷ []))
decompress_chunked-compression_example =
    decompress_chunked-compression stored 2 stored_back (stored-Lz4Laws 2 (omega arith))
      (1 ∷ 2 ∷ 3 ∷ []) (omega arith)

-- Three bytes in chunks of two: two frames.
two_frames :
    lz4_chunked_compression_custom stored 2 (1 ∷ 2 ∷ 3 ∷ [])
    ≡ ok (2 ∷ 0 ∷ 0 ∷ 0 ∷ 1 ∷ 2 ∷ 1 ∷ 0 ∷ 0 ∷ 0 ∷ 3 ∷ [])
unfolding lz4_chunked_compression_custom compress_loop compress_chunk resize overwrite to_le_bytes
two_frames = refl
