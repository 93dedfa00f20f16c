-- ===== src/Geneva/Tests/Exports.antt =====
-- An export of log records with concrete libraries.
use opentelemetry_rust_contr.Common.{
  ℕ, ◌+◌, ◌*◌, List, [], ◌∷◌, ◌++◌, replicate, All, ◌≡◌, ◌↔◌, none, some, arith,
}
use mathlib.Core.List.Permᴰ as Reordering
use opentelemetry_rust_contr.Common.Text.{codes}
use opentelemetry_rust_contr.Geneva.Batch.{EncodedBatch}
use opentelemetry_rust_contr.Geneva.Batch.Finish.{total_rows, encode_logs_from_view-EachOk}
use opentelemetry_rust_contr.Geneva.Upload.Client.{GenevaClient}
use opentelemetry_rust_contr.Geneva.Export.{
  Attempt, Stream, stream_of, begin, finish, Steps, here, next, Export, uploaded, SdkResult,
  exported, result_of_errors, upload_errors,
}
use opentelemetry_rust_contr.Geneva.Export.Uploading.{batches_of}
use opentelemetry_rust_contr.Geneva.Export.Delivered.{IsTaken}
use opentelemetry_rust_contr.Geneva.Export.Records.{
  LogRecord, string_value, logs_view, encode_and_compress_logs,
}
use opentelemetry_rust_contr.Geneva.Export.Logs.{export_logs-rows}
use opentelemetry_rust_contr.Geneva.Span.{Span}
use opentelemetry_rust_contr.Geneva.Span.Loop.{encode_span_batch-decompress}
use opentelemetry_rust_contr.Geneva.Export.Spans.{
  scope_spans, resource_spans, encode_and_compress_spans, export_spans-rows,
}
use opentelemetry_rust_contr.Geneva.Tests.Spans.{request, request-KeysOk}
use opentelemetry_rust_contr.Geneva.Tests.{
  libraries, libraries-HexIsAscii, metadata, stored_back, stored-Lz4Laws,
}
use opentelemetry_rust_contr.Geneva.Tests.Upload.{upload_libs, config, attempt_with, taking}

abbrev login : LogRecord
login = record {
  time_unix_nano = 1_700_000_000_000_000_000;
  observed_time_unix_nano = 0;
  severity_number = 9;
  severity_text = codes "INFO";
  body = some (record { value = some (string_value (codes "hello")) });
  attributes = record { key = codes "user"; value = none } ∷ [];
  flags = 1;
  trace_id = replicate 16 0;
  span_id = 1 ∷ 2 ∷ [];
  event_name = codes "Login";
}

abbrev otlp : List (List (List LogRecord))
otlp = ((login ∷ []) ∷ (login ∷ record login { event_name = [] } ∷ []) ∷ []) ∷ []

-- The batches that are pending are uploaded one after the other.
one_by_one :
    (s : Stream) (n : ℕ) (batches : List EncodedBatch) (ended : List Attempt)
    → Steps 4 n s (record { pending = batches; in_flight = []; ended = ended })
    → (total : ℕ) × (all : List Attempt) × Steps 4 total s
        (record { pending = []; in_flight = []; ended = all })
one_by_one s n [] ended steps = (n, ended, steps)
one_by_one s n (batch ∷ batches) ended steps =
    one_by_one s (n + 1 + 1) batches (ended ++ attempt_with taking batch ∷ []) (
      next (next steps (begin batch batches [] ended (omega arith)))
        (finish (attempt_with taking batch) batches [] [] ended))

abbrev client : GenevaClient
client = record { uploader_config = config; metadata_fields = metadata }

-- A run with the batches of the encoder.
finished :
    (result : SdkResult) × (ended : List Attempt) × Export upload_libs config 4
      (encode_and_compress_logs libraries (λ batches. batches) metadata otlp)
      result
      ended
unfolding encode_and_compress_logs
finished =
    let (acc, batches, encoded, pushed, acc_ok, each, rows) =
      encode_logs_from_view-EachOk libraries metadata stored_back
        (stored-Lz4Laws (64 * 1024) (omega arith)) libraries-HexIsAscii (λ batches. batches)
        (λ batches. Reordering.refl batches) (logs_view otlp) in
    let (total, ended, steps) = one_by_one (stream_of batches) 0 batches [] here in
    (
      result_of_errors upload_libs config (upload_errors upload_libs config ended),
      ended,
      uploaded batches total ended encoded steps,
    )

export_logs-rows_example :
    (total_rows (batches_of finished.1) ≡ 3)
    × ((finished.0 ≡ exported) ↔ All (IsTaken upload_libs config) finished.1)
export_logs-rows_example =
    export_logs-rows libraries stored_back (stored-Lz4Laws (64 * 1024) (omega arith))
      libraries-HexIsAscii (λ batches. batches) (λ batches. Reordering.refl batches) upload_libs
      client 4 otlp finished.0 finished.1 finished.2

abbrev spans : List (List (List Span))
spans = ((request ∷ []) ∷ []) ∷ ([] ∷ (request ∷ []) ∷ []) ∷ []

spans_finished :
    (result : SdkResult) × (ended : List Attempt) × Export upload_libs config 4
      (encode_and_compress_spans libraries metadata spans)
      result
      ended
unfolding encode_and_compress_spans resource_spans scope_spans
spans_finished =
    let (batch, blob, encoded, blob_ok, rows, back) =
      encode_span_batch-decompress libraries libraries-HexIsAscii metadata stored_back
        (stored-Lz4Laws (64 * 1024) (omega arith)) request (request ∷ [])
        (request-KeysOk, (request-KeysOk, tt)) in
    let (total, ended, steps) = one_by_one (stream_of (batch ∷ [])) 0 (batch ∷ []) [] here in
    (
      result_of_errors upload_libs config (upload_errors upload_libs config ended),
      ended,
      uploaded (batch ∷ []) total ended encoded steps,
    )

export_spans-rows_example :
    (total_rows (batches_of spans_finished.1) ≡ 2)
    × ((spans_finished.0 ≡ exported) ↔ All (IsTaken upload_libs config) spans_finished.1)
unfolding resource_spans scope_spans
export_spans-rows_example =
    export_spans-rows libraries libraries-HexIsAscii stored_back
      (stored-Lz4Laws (64 * 1024) (omega arith)) upload_libs client 4 spans spans_finished.0
      spans_finished.1 (request-KeysOk, (request-KeysOk, tt)) spans_finished.2
