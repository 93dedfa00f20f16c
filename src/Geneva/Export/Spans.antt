-- ===== src/Geneva/Export/Spans.antt =====
-- The export of spans (trace/exporter.rs, and encode_and_compress_spans of client.rs).
use opentelemetry_rust_contr.Common.{
  ℕ, ◌*◌, List, [], ◌∷◌, ◌++◌, length, ◌≡◌, ◌↔◌, refl, ◌∙◌, All, Option, arith,
}
use opentelemetry_rust_contr.Common.Bytes.{Bytes}
use opentelemetry_rust_contr.Geneva.Lz4.RoundTrip.{Lz4Laws}
use opentelemetry_rust_contr.Geneva.Encoder.{Libraries, MetadataFields}
use opentelemetry_rust_contr.Geneva.Encoder.Numbering.{HexIsAscii}
use opentelemetry_rust_contr.Geneva.Batch.{EncodedBatch, Outcome, ok}
use opentelemetry_rust_contr.Geneva.Batch.Finish.{total_rows}
use opentelemetry_rust_contr.Geneva.Span.{Span}
use opentelemetry_rust_contr.Geneva.Span.Batch.{encode_spans, finish_spans, encode_span_batch}
use opentelemetry_rust_contr.Geneva.Span.Loop.{SpansOk, encode_span_batch-decompress}
use opentelemetry_rust_contr.Geneva.Upload.{UploadLibraries}
use opentelemetry_rust_contr.Geneva.Upload.Client.{GenevaClient}
use opentelemetry_rust_contr.Geneva.Export.{SdkResult, exported, Attempt, Export}
use opentelemetry_rust_contr.Geneva.Export.Uploading.{batches_of}
use opentelemetry_rust_contr.Geneva.Export.Delivered.{IsTaken, Export-delivered}
use opentelemetry_rust_contr.Geneva.Export.Logs.{total_rows-Perm}

-- The spans of the scopes of the resources, by the two calls of `flat_map`.
unfoldable pub scope_spans : List (List Span) → List Span
scope_spans [] = []
scope_spans (spans ∷ scopes) = spans ++ scope_spans scopes

unfoldable pub resource_spans : List (List (List Span)) → List Span
resource_spans [] = []
resource_spans (scopes ∷ resources) = scope_spans scopes ++ resource_spans resources

unfoldable pub encode_and_compress_spans :
    Libraries → MetadataFields → List (List (List Span)) → Outcome (List EncodedBatch)
encode_and_compress_spans libs metadata_fields spans =
    encode_span_batch libs metadata_fields (resource_spans spans)

module _ (libs : Libraries) (ascii : HexIsAscii libs) (decompress : Bytes → Option Bytes)
    (laws : Lz4Laws libs.lz4 decompress (64 * 1024)) (upload_libs : UploadLibraries)
    (client : GenevaClient) where
  encoded_rows :
      (spans : List Span)
      → SpansOk spans
      → (batches : List EncodedBatch) × (encode_span_batch libs client.metadata_fields spans
          ≡ ok batches)
        × (total_rows batches ≡ length spans)
  unfolding encode_span_batch encode_spans finish_spans total_rows
  encoded_rows [] keys = ([], refl, refl)
  encoded_rows (span ∷ spans) keys =
      let (batch, blob, run, blob_ok, rows, back) =
        encode_span_batch-decompress libs ascii client.metadata_fields decompress laws span spans
          keys in
      (batch ∷ [], run, omega (arith, rows.counted))

  -- When an export of spans ends, the rows of the batches that were uploaded, each once, add up to
  -- the number of spans, and the export returns Ok exactly where the gateway took every batch. The
  -- conditions are those of the encoding: lz4_flex keeps its documented word, hex writes ASCII,
  -- and no attribute's key is a fixed field's or another attribute's of its span.
  pub export_spans-rows :
      (m : ℕ) (otlp : List (List (List Span))) (result : SdkResult) (ended : List Attempt)
      → SpansOk (resource_spans otlp)
      → Export upload_libs client.uploader_config m
          (encode_and_compress_spans libs client.metadata_fields otlp)
          result
          ended
      → (total_rows (batches_of ended) ≡ length (resource_spans otlp))
        × ((result ≡ exported) ↔ All (IsTaken upload_libs client.uploader_config) ended)
  unfolding encode_and_compress_spans
  export_spans-rows m otlp result ended keys run =
      let (batches, encoded, rows) = encoded_rows (resource_spans otlp) keys in
      let (once, iff) =
        Export-delivered upload_libs client.uploader_config m _ result ended batches run encoded in
      (total_rows-Perm once ∙ rows, iff)
