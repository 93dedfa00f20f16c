-- ===== src/Datadog/V03.antt =====
-- The payload of version 0.3, in which every span is a map of texts
-- (opentelemetry-datadog/src/exporter/model/v03.rs). Writing to a `Vec` does not fail.
pub mod RoundTrip
use opentelemetry_rust_contr.Common.{
  ℕ, ◌+◌, ◌%◌, ◌^◌, List, [], ◌∷◌, ◌++◌, Bool, true, false, Option, none, some, length, ◌>>=◌,
}
use opentelemetry_rust_contr.Common.Text.{Str, codes, str_eq}
use opentelemetry_rust_contr.Propagator.Api.{Api, is_sampled}
use opentelemetry_rust_contr.Datadog.Tokens.{
  Token, write_array_len, write_map_len, write_u64, write_i32, write_i64, write_f64, write_str,
}
use opentelemetry_rust_contr.Datadog.Value.{Value}
use opentelemetry_rust_contr.Datadog.Model.{
  KeyValue, SpanData, ModelConfig, FieldMappingFn, sampling_priority_key, f64_of, start_of,
  duration_of, error_number,
}

-- `as_str` of the values of opentelemetry and the epoch as a `SystemTime` are parameters.
module _ (as_str : Value → Str) where
  -- The loop for the type of a span, and the length of the map.
  unfoldable pub write_type : List KeyValue → List Token
  write_type [] = write_map_len 11 ∷ []
  write_type (kv ∷ attributes) = elim (str_eq kv.key (codes "span.type")) [
    | true ↦ write_map_len 12 ∷ write_str (codes "type") ∷ write_str (as_str kv.value) ∷ []
    | false ↦ write_type attributes
  ]

  -- The loops over the resource and over the attributes.
  unfoldable pub write_pairs : List KeyValue → List Token
  write_pairs [] = []
  write_pairs (kv ∷ entries) = write_str kv.key ∷ write_str (as_str kv.value) ∷ write_pairs entries

  unfoldable pub write_resource_pairs : Option (List KeyValue) → List Token
  write_resource_pairs none = []
  write_resource_pairs (some resource) = write_pairs resource

unfoldable pub resource_size : Option (List KeyValue) → ℕ
resource_size none = 0
resource_size (some resource) = length resource

module _ {TraceId SpanId TraceState SpanContext : Type 0}
    (api : Api TraceId SpanId TraceState SpanContext) (as_str : Value → Str) (unix_epoch : ℕ)
    (model_config : ModelConfig)
    (get_service_name get_name get_resource : FieldMappingFn SpanContext SpanId)
    (resource : Option (List KeyValue)) where
  unfoldable pub write_metrics : SpanData SpanContext SpanId → List Token
  write_metrics span =
      write_str (codes "metrics")
      ∷ write_map_len 1
      ∷ write_str sampling_priority_key
      ∷ write_f64 (f64_of (is_sampled (api.trace_flags span.span_context)))
      ∷ []

  -- What is written for a span after its type.
  unfoldable pub write_entries : SpanData SpanContext SpanId → ℕ → List Token
  write_entries span start =
      write_str (codes "service")
      ∷ write_str (get_service_name span model_config)
      ∷ write_str (codes "name")
      ∷ write_str (get_name span model_config)
      ∷ write_str (codes "resource")
      ∷ write_str (get_resource span model_config)
      ∷ write_str (codes "trace_id")
      ∷ write_u64 (api.trace_id_to_u128 (api.trace_id span.span_context) % 2 ^ 64)
      ∷ write_str (codes "span_id")
      ∷ write_u64 (api.span_id_to_u64 (api.span_id span.span_context))
      ∷ write_str (codes "parent_id")
      ∷ write_u64 (api.span_id_to_u64 span.parent_span_id)
      ∷ write_str (codes "start")
      ∷ write_i64 start
      ∷ write_str (codes "duration")
      ∷ write_i64 (duration_of span)
      ∷ write_str (codes "error")
      ∷ write_i32 (error_number span.status)
      ∷ write_str (codes "meta")
      ∷ write_map_len ((length span.attributes + resource_size resource) % 2 ^ 32)
      ∷ ((write_resource_pairs as_str resource ++ write_pairs as_str span.attributes)
          ++ write_metrics span)

  unfoldable pub encode_span : SpanData SpanContext SpanId → Option (List Token)
  encode_span span = do
    start ← start_of unix_epoch span
    some (write_type as_str span.attributes ++ write_entries span start)

  unfoldable pub encode_spans : List (SpanData SpanContext SpanId) → Option (List Token)
  encode_spans [] = some []
  encode_spans (span ∷ trace) = do
    first ← encode_span span
    rest ← encode_spans trace
    some (first ++ rest)

  unfoldable pub encode_all : List (List (SpanData SpanContext SpanId)) → Option (List Token)
  encode_all [] = some []
  encode_all (trace ∷ traces) = do
    first ← encode_spans trace
    rest ← encode_all traces
    some (write_array_len (length trace % 2 ^ 32) ∷ (first ++ rest))

  unfoldable pub encode : List (List (SpanData SpanContext SpanId)) → Option (List Token)
  encode traces = do
    encoded ← encode_all traces
    some (write_array_len (length traces % 2 ^ 32) ∷ encoded)
