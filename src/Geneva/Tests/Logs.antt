-- ===== src/Geneva/Tests/Logs.antt =====
-- Log records at concrete inputs.
use opentelemetry_rust_contr.Common.{[], ◌∷◌, ◌≡◌, ◌<◌, ◌^◌, none, some, All, arith}
use opentelemetry_rust_contr.Common.Bytes.{Bytes}
use opentelemetry_rust_contr.Common.Text.{
  Str, codes, chars, decode, decode_byte, lead, from_utf8, is_blank, is_whitespace,
}
use opentelemetry_rust_contr.Geneva.Value.{Fits, read_row}
use opentelemetry_rust_contr.Geneva.Encoder.{non_blank_utf8, format_timestamp, encode_id_to_hex}
use opentelemetry_rust_contr.Geneva.Log.{
  ValueType, AnyValueView, LogRecordView, normalized_event_name, record_timestamp, determine_fields,
  write_row_data,
}
use opentelemetry_rust_contr.Geneva.Log.Spec.{
  non_empty_text, severity_value, attribute_value, body_value, named_attribute, named_attributes,
  base_values, record_values,
}
use opentelemetry_rust_contr.Geneva.Log.Row.{read_row-write_row_data}
use opentelemetry_rust_contr.Geneva.Batch.{LogBatchAccumulator, push_all}
use opentelemetry_rust_contr.Geneva.Batch.Invariant.{AccumulatorOk, total_events}
use opentelemetry_rust_contr.Geneva.Batch.Push.{push_all-AccumulatorOk}
use opentelemetry_rust_contr.Geneva.Batch.Lookup.{lookup}
use opentelemetry_rust_contr.Geneva.Batch.Grouping.{group, BatchFor, push_all-Grouped}
use opentelemetry_rust_contr.Geneva.Tests.{libraries, libraries-HexIsAscii, hex_pairs, metadata}

abbrev nothing : AnyValueView
nothing = record {
  value_type = ValueType.unsupported;
  as_string = none;
  as_int64 = none;
  as_double = none;
  as_bool = none;
}

-- A record with an id, a severity, and two attributes, of which one is not supported. The first has
-- the name of a fixed field.
abbrev pub sample : LogRecordView
sample = record {
  time_unix_nano = some 1_700_000_000_000_000_000;
  observed_time_unix_nano = none;
  severity_number = some 9;
  severity_text = some (codes "INFO");
  body = none;
  attributes =
      record {
        key = codes "name";
        value = some (record nothing { value_type = ValueType.int64; as_int64 = some 42 });
      }
      ∷ record { key = codes "x"; value = some nothing }
      ∷ [];
  flags = some 1;
  trace_id = none;
  span_id = some (1 ∷ 2 ∷ 3 ∷ 4 ∷ 5 ∷ 6 ∷ 7 ∷ 8 ∷ []);
  event_name = some (codes "Login");
}

sample-Fits : All (λ v. Fits v.1) (record_values libraries metadata sample)
unfolding record_values base_values named_attributes named_attribute attribute_value body_value
    severity_value non_empty_text normalized_event_name non_blank_utf8 from_utf8 chars decode
    decode_byte lead is_blank is_whitespace format_timestamp encode_id_to_hex hex_pairs
sample-Fits = omega arith

read_row-write_row_data_example :
    (row : Bytes) × (write_row_data libraries sample
        (determine_fields sample).0
        (determine_fields sample).1
        metadata
      ≡ some row)
    × (read_row (determine_fields sample).0 row ≡ some (record_values libraries metadata sample))
read_row-write_row_data_example =
    read_row-write_row_data libraries libraries-HexIsAscii metadata sample sample-Fits

push_all-AccumulatorOk_example :
    (after : LogBatchAccumulator) × (push_all libraries metadata [] (sample ∷ sample ∷ [])
      ≡ some after)
    × AccumulatorOk after
    × (total_events after ≡ 2)
push_all-AccumulatorOk_example =
    push_all-AccumulatorOk libraries libraries-HexIsAscii metadata (sample ∷ sample ∷ [])

sample_times : All (λ (r : LogRecordView). record_timestamp r < 2 ^ 64) (sample ∷ sample ∷ [])
unfolding record_timestamp
sample_times = omega arith

push_all-Grouped_example :
    (after : LogBatchAccumulator) × (push_all libraries metadata [] (sample ∷ sample ∷ [])
      ≡ some after)
    × ((k : Str)
        → BatchFor libraries libraries-HexIsAscii metadata
            (group k (sample ∷ sample ∷ []))
            (lookup k after))
push_all-Grouped_example =
    push_all-Grouped libraries libraries-HexIsAscii metadata (sample ∷ sample ∷ []) sample_times
