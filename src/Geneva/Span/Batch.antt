-- ===== src/Geneva/Span/Batch.antt =====
-- otlp_encoder.rs: `encode_span_batch`, from the spans to at most one encoded batch.
use opentelemetry_rust_contr.Common.{
  ℕ, min, max, List, [], ◌∷◌, ◌++◌, Option, none, some, length, ◌==◌, ◌>>=◌, if◌then◌else◌,
}
use opentelemetry_rust_contr.Common.Bytes.{Bytes}
use opentelemetry_rust_contr.Common.Text.{codes}
use opentelemetry_rust_contr.Geneva.Blob.{
  CentralSchemaEntry, CentralEventEntry, CentralBlob, to_bytes,
}
use opentelemetry_rust_contr.Geneva.Lz4.{Compression, lz4_chunked_compression}
use opentelemetry_rust_contr.Geneva.Encoder.{
  Libraries, MetadataFields, find_or_create_schema, format_schema_ids,
}
use opentelemetry_rust_contr.Geneva.Batch.{u64_max, EncodedBatch, Outcome}
use opentelemetry_rust_contr.Geneva.Span.{Span, determine_span_fields, write_span_row_data}

-- The variables of the loop.
pub record SpanLoop : Type 0 where
  pub schemas : List CentralSchemaEntry
  pub events : List CentralEventEntry
  pub start_time : ℕ
  pub end_time : ℕ

abbrev pub loop_start : SpanLoop
loop_start = record { schemas = []; events = []; start_time = u64_max; end_time = 0 }

module _ (libs : Libraries) (metadata_fields : MetadataFields) where
  -- One turn of the loop; `none` where the code panics.
  unfoldable pub encode_span : SpanLoop → Span → Option SpanLoop
  encode_span state span = do
    let field_info = determine_span_fields span
    let found = find_or_create_schema libs (codes "OtlpSpanRecord") field_info state.schemas
    row_buffer ← write_span_row_data libs span field_info metadata_fields
    let event : CentralEventEntry = record {
      schema_id = found.0;
      level = 5;
      event_name = codes "Span";
      row = row_buffer;
    }
    some (record {
      schemas = found.1;
      events = state.events ++ event ∷ [];
      start_time =
          if span.start_time_unix_nano == 0
          then state.start_time
          else min state.start_time span.start_time_unix_nano;
      end_time =
          if span.end_time_unix_nano == 0
          then state.end_time
          else max state.end_time span.end_time_unix_nano;
    })

  unfoldable pub encode_spans : SpanLoop → List Span → Option SpanLoop
  encode_spans state [] = some state
  encode_spans state (span ∷ spans) = do state ← encode_span state span; encode_spans state spans

  unfoldable pub span_blob : SpanLoop → CentralBlob
  span_blob state = record {
    version = 1;
    format = 2;
    metadata = metadata_fields.metadata_string;
    schemas = state.schemas;
    events = state.events;
  }

  unfoldable pub span_batch : SpanLoop → Bytes → EncodedBatch
  span_batch state compressed = record {
    event_name = codes "Span";
    data_bytes = compressed;
    metadata = record {
      start_time = if state.start_time == u64_max then 0 else state.start_time;
      end_time = state.end_time;
      schema_ids = format_schema_ids state.schemas;
    };
    row_count = length state.events;
  }

  -- What follows the loop.
  unfoldable pub finish_spans : SpanLoop → Outcome (List EncodedBatch)
  finish_spans state =
      if length state.events == 0
      then Outcome.ok []
      else elim (lz4_chunked_compression libs.lz4 (to_bytes (span_blob state))) [
        | Compression.ok compressed ↦ Outcome.ok (span_batch state compressed ∷ [])
        | Compression.err ↦ Outcome.err
        | Compression.stuck ↦ Outcome.stuck
      ]

  unfoldable pub encode_span_batch : List Span → Outcome (List EncodedBatch)
  encode_span_batch spans = elim (encode_spans loop_start spans) [
    | none ↦ Outcome.panic
    | some state ↦ finish_spans state
  ]
