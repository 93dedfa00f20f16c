-- ===== src/Geneva/Tests/Spans.antt =====
-- Spans at concrete inputs, and views of log records encoded as a whole.
use opentelemetry_rust_contr.Common.{◌*◌, [], ◌∷◌, List, ◌≡◌, refl, none, some, false, All, arith}
use mathlib.Core.List.{flatten}
use mathlib.Core.List.Permᴰ as Reordering
use opentelemetry_rust_contr.Common.Bytes.{Bytes}
use opentelemetry_rust_contr.Common.Text.{codes, str_eq}
use opentelemetry_rust_contr.Geneva.Value.{Fits, read_row}
use opentelemetry_rust_contr.Geneva.Encoder.{format_timestamp, encode_id_to_hex, hex_of}
use opentelemetry_rust_contr.Geneva.Span.{
  Value, Span, determine_span_fields, write_span_row_data, serialize_link, serialize_links,
  serialize_rest, span_success,
}
use opentelemetry_rust_contr.Geneva.Span.Spec.{
  KeysOk, is_reserved, span_values, span_base_values, span_attributes, span_attribute, typed_value,
  flags_value, links_value, status_text, non_empty, id_value,
}
use opentelemetry_rust_contr.Geneva.Span.Row.{read_row-write_span_row_data}
use opentelemetry_rust_contr.Geneva.Span.Collisions.{kind_attribute, read_row-kind_attribute}
use opentelemetry_rust_contr.Geneva.Log.{LogRecordView}
use opentelemetry_rust_contr.Geneva.Batch.{
  push_all, LogBatchAccumulator, EncodedBatch, Outcome, encode_logs_from_view,
}
use opentelemetry_rust_contr.Geneva.Batch.Invariant.{AccumulatorOk}
use opentelemetry_rust_contr.Geneva.Batch.Finish.{EachOk, total_rows, encode_logs_from_view-EachOk}
use opentelemetry_rust_contr.Geneva.Tests.{
  libraries, libraries-HexIsAscii, stored_back, stored-Lz4Laws, hex_pairs, metadata,
}
use opentelemetry_rust_contr.Geneva.Tests.Logs.{sample}

abbrev span_id_bytes : Bytes
span_id_bytes = 1 ∷ 2 ∷ 3 ∷ 4 ∷ 5 ∷ 6 ∷ 7 ∷ 8 ∷ []

-- A span with an id, a link, a failed status, and two attributes.
abbrev pub request : Span
request = record {
  trace_id = [];
  span_id = span_id_bytes;
  trace_state = [];
  parent_span_id = [];
  flags = 1;
  name = codes "GET /";
  kind = 2;
  start_time_unix_nano = 1_700_000_000_000_000_000;
  end_time_unix_nano = 1_700_000_000_500_000_000;
  attributes =
      record {
        key = codes "http.status_code";
        value = some (record { value = some (Value.int_value 500) });
      }
      ∷ record {
        key = codes "retry";
        value = some (record { value = some (Value.bool_value false) });
      }
      ∷ [];
  links = record { trace_id = span_id_bytes; span_id = span_id_bytes } ∷ [];
  status = some (record { message = codes "down"; code = 2 });
}

pub request-KeysOk : KeysOk request.attributes
unfolding is_reserved str_eq
request-KeysOk = (refl, (refl, tt), (refl, tt, tt))

request-Fits : All (λ v. Fits v.1) (span_values libraries metadata request)
unfolding span_values span_base_values span_attributes span_attribute typed_value flags_value
    links_value status_text non_empty id_value format_timestamp encode_id_to_hex hex_pairs hex_of
    serialize_links serialize_link serialize_rest span_success
request-Fits = omega arith

read_row-write_span_row_data_example :
    (row : Bytes) × (write_span_row_data libraries request (determine_span_fields request) metadata
      ≡ some row)
    × (read_row (determine_span_fields request) row ≡ some (span_values libraries metadata request))
read_row-write_span_row_data_example =
    read_row-write_span_row_data libraries libraries-HexIsAscii metadata request request-KeysOk
      request-Fits

-- The span with an attribute under the key of a fixed field.
abbrev colliding : Span
colliding = record request { attributes = kind_attribute 7 ∷ [] }

colliding-Fits : All (λ v. Fits v.1) (span_base_values libraries metadata colliding)
unfolding span_base_values flags_value links_value status_text non_empty id_value format_timestamp
    encode_id_to_hex hex_pairs hex_of serialize_links serialize_link serialize_rest span_success
colliding-Fits = omega arith

read_row-kind_attribute_example :
    (row : Bytes) × (write_span_row_data libraries colliding
        (determine_span_fields colliding)
        metadata
      ≡ some row)
    × (read_row (determine_span_fields colliding) row ≡ none)
read_row-kind_attribute_example =
    read_row-kind_attribute libraries libraries-HexIsAscii metadata colliding 7 refl colliding-Fits

abbrev one_view : List (List (List LogRecordView))
one_view = ((sample ∷ []) ∷ (sample ∷ []) ∷ []) ∷ []

encode_logs_from_view-EachOk_example :
    (acc : LogBatchAccumulator) × (es : List EncodedBatch) × (encode_logs_from_view libraries
        (λ batches. batches)
        metadata
        one_view
      ≡ Outcome.ok es)
    × (push_all libraries metadata [] (sample ∷ sample ∷ []) ≡ some acc)
    × AccumulatorOk acc
    × EachOk libraries metadata stored_back acc es
    × (total_rows es ≡ 2)
unfolding flatten
encode_logs_from_view-EachOk_example =
    encode_logs_from_view-EachOk libraries metadata stored_back
      (stored-Lz4Laws (64 * 1024) (omega arith)) libraries-HexIsAscii (λ batches. batches)
      (λ batches. Reordering.refl batches) one_view
