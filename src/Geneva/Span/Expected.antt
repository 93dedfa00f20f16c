-- ===== src/Geneva/Span/Expected.antt =====
-- What the encoded batch of some spans is to be, described from the spans.
use opentelemetry_rust_contr.Common.{
  ℕ, suc, ◌≤◌, List, [], ◌∷◌, ◌≡◌, refl, ap, map, length, All, ◌==◌, if◌then◌else◌, min, max, arith,
}
use opentelemetry_rust_contr.Common.Bytes.{Bytes}
use opentelemetry_rust_contr.Common.Text.{codes}
use opentelemetry_rust_contr.Geneva.Blob.{CentralEventEntry, CentralBlob}
use opentelemetry_rust_contr.Geneva.Value.{write_values}
use opentelemetry_rust_contr.Geneva.Encoder.{Libraries, MetadataFields}
use opentelemetry_rust_contr.Geneva.Encoder.Schemas.{SchemasOk}
use opentelemetry_rust_contr.Geneva.Batch.{u64_max, EncodedBatch}
use opentelemetry_rust_contr.Geneva.Batch.Invariant.{EventOk}
use opentelemetry_rust_contr.Geneva.Span.{Span}
use opentelemetry_rust_contr.Geneva.Span.Spec.{span_values}

abbrev pub rows_of : List CentralEventEntry → List Bytes
rows_of events = map (λ event. event.row) events

-- The first start and the last end of spans, where 0 is no time.
unfoldable pub first_start : List Span → ℕ
first_start [] = u64_max
first_start (s ∷ spans) =
    let rest = first_start spans in
    if s.start_time_unix_nano == 0 then rest else min s.start_time_unix_nano rest

unfoldable pub last_end : List Span → ℕ
last_end [] = 0
last_end (s ∷ spans) = max s.end_time_unix_nano (last_end spans)

pub first_start-bound : (spans : List Span) → first_start spans ≤ u64_max
unfolding first_start
first_start-bound [] = omega arith
first_start-bound (s ∷ spans) = ground (arith, first_start-bound spans)

-- The batch of spans: its name, count and times, with 0 for no start.
pub record SpanBatchOk (spans : List Span) (batch : EncodedBatch) : Type 0 where
  pub named : batch.event_name ≡ codes "Span"
  pub counted : batch.row_count ≡ length spans
  pub started :
      batch.metadata.start_time ≡ (if first_start spans == u64_max then 0 else first_start spans)
  pub ended : batch.metadata.end_time ≡ last_end spans

-- The rows of the named values of spans.
unfoldable pub span_rows : Libraries → MetadataFields → List Span → List Bytes
span_rows libs m [] = []
span_rows libs m (s ∷ spans) = write_values [] (span_values libs m s) ∷ span_rows libs m spans

-- A blob of version 1 and format 2 with a row for each span, in order, and the schemas of the rows.
pub record SpanBlobOk (libs : Libraries) (m : MetadataFields) (spans : List Span)
    (blob : CentralBlob) : Type 0 where
  pub version : blob.version ≡ 1
  pub format : blob.format ≡ 2
  pub described : blob.metadata ≡ m.metadata_string
  pub schemas_ok : SchemasOk blob.schemas
  pub events_ok : All (EventOk (codes "Span") blob.schemas) blob.events
  pub rows : rows_of blob.events ≡ span_rows libs m spans

pub length-span_rows :
    (libs : Libraries) (m : MetadataFields) (spans : List Span)
    → length (span_rows libs m spans) ≡ length spans
unfolding span_rows
length-span_rows libs m [] = refl
length-span_rows libs m (s ∷ spans) = ap suc (length-span_rows libs m spans)
