-- ===== src/Geneva/Export/Logs.antt =====
-- The export of logs, from the log records to the gateway.
use opentelemetry_rust_contr.Common.{
  ℕ, ◌*◌, List, ◌≡◌, ◌↔◌, refl, sym, length, ap, ◌∙◌, Option, All, arith,
}
use mathlib.Core.List.{Perm, Permᴰ}
use mathlib.Core.Logic.{∥∥₁_elim}
use opentelemetry_rust_contr.Common.Bytes.{Bytes}
use opentelemetry_rust_contr.Common.Text.{Str}
use opentelemetry_rust_contr.Geneva.Lz4.RoundTrip.{Lz4Laws}
use opentelemetry_rust_contr.Geneva.Encoder.{Libraries}
use opentelemetry_rust_contr.Geneva.Encoder.Numbering.{HexIsAscii}
use opentelemetry_rust_contr.Geneva.Batch.{BatchData, LogBatchAccumulator, EncodedBatch}
use opentelemetry_rust_contr.Geneva.Batch.Finish.{
  total_rows, view_records-flatten, encode_logs_from_view-EachOk,
}
use opentelemetry_rust_contr.Geneva.Upload.{UploadLibraries}
use opentelemetry_rust_contr.Geneva.Upload.Client.{GenevaClient}
use opentelemetry_rust_contr.Geneva.Export.{SdkResult, exported, Attempt, Export}
use opentelemetry_rust_contr.Geneva.Export.Uploading.{batches_of}
use opentelemetry_rust_contr.Geneva.Export.Delivered.{IsTaken, Export-delivered}
use opentelemetry_rust_contr.Geneva.Export.Records.{
  LogRecord, logs_view, encode_and_compress_logs, count_records, length-view_records,
}

abbrev row_count_of : EncodedBatch → ℕ
row_count_of b = b.row_count

total_rows-Permᴰ : {xs ys : List EncodedBatch} → Permᴰ xs ys → total_rows xs ≡ total_rows ys
unfolding total_rows
total_rows-Permᴰ Permᴰ.nil = refl
total_rows-Permᴰ (Permᴰ.cons e p) = omega (arith, ap row_count_of e, total_rows-Permᴰ p)
total_rows-Permᴰ (Permᴰ.swap e f) = omega (arith, ap row_count_of e, ap row_count_of f)
total_rows-Permᴰ (Permᴰ.trans p q) = total_rows-Permᴰ p ∙ total_rows-Permᴰ q

pub total_rows-Perm : {xs ys : List EncodedBatch} → Perm xs ys → total_rows xs ≡ total_rows ys
total_rows-Perm {xs} {ys} p = ∥∥₁_elim p (hlevel) total_rows-Permᴰ

module _ (libs : Libraries) (decompress : Bytes → Option Bytes)
    (laws : Lz4Laws libs.lz4 decompress (64 * 1024)) (ascii : HexIsAscii libs)
    (iteration : LogBatchAccumulator → List (Str × BatchData))
    (permutes : (acc : LogBatchAccumulator) → Permᴰ (iteration acc) acc)
    (upload_libs : UploadLibraries) (client : GenevaClient) where
  -- However an export of log records goes on, when it ends, the rows of the batches that were
  -- uploaded, each once, add up to the number of log records, and the export returns Ok exactly
  -- where the gateway took every batch. The conditions are those of the encoding: lz4_flex keeps
  -- its documented word, hex writes ASCII, and the map gives up each entry once.
  pub export_logs-rows :
      (m : ℕ) (otlp : List (List (List LogRecord))) (result : SdkResult) (ended : List Attempt)
      → Export upload_libs client.uploader_config m
          (encode_and_compress_logs libs iteration client.metadata_fields otlp)
          result
          ended
      → (total_rows (batches_of ended) ≡ count_records otlp)
        × ((result ≡ exported) ↔ All (IsTaken upload_libs client.uploader_config) ended)
  unfolding encode_and_compress_logs
  export_logs-rows m otlp result ended run =
      let (acc, batches, encoded, pushed, acc_ok, each, rows) =
        encode_logs_from_view-EachOk libs client.metadata_fields decompress laws ascii iteration
          permutes (logs_view otlp) in
      let (once, iff) =
        Export-delivered upload_libs client.uploader_config m _ result ended batches run encoded in
      (
        total_rows-Perm once
            ∙ (rows
                ∙ (ap length (sym (view_records-flatten (logs_view otlp)))
                    ∙ length-view_records otlp)),
        iff,
      )
