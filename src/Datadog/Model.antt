-- ===== src/Datadog/Model.antt =====
-- Spans of the SDK, and what both versions of the payload take from them
-- (opentelemetry-datadog/src/exporter/model).
use opentelemetry_rust_contr.Common.{
  ℕ, ◌-◌, ◌%◌, ◌^◌, List, Bool, Option, none, some, ltb, if◌then◌else◌,
}
use opentelemetry_rust_contr.Common.Text.{Str, codes}
use opentelemetry_rust_contr.Datadog.Value.{Value}

pub record KeyValue : Type 0 where
  pub key : Str
  pub value : Value

pub data Status : Type 0 where
  unset ok : Status
  error : Str → Status

-- A `SystemTime` is its nanoseconds since the earliest time that there is, so that the epoch is a
-- parameter.
pub record SpanData (SpanContext SpanId : Type 0) : Type 0 where
  pub span_context : SpanContext
  pub parent_span_id : SpanId
  pub span_name : Str
  pub scope_name : Str
  pub start_time : ℕ
  pub end_time : ℕ
  pub attributes : List KeyValue
  pub status : Status

pub record ModelConfig : Type 0 where
  pub service_name : Str

abbrev pub sampling_priority_key : Str
sampling_priority_key = codes "_sampling_priority_v1"

abbrev pub dd_measured_key : Str
dd_measured_key = codes "_dd.measured"

-- The bits of the floats 1.0 and 0.0.
abbrev pub f64_of : Bool → ℕ
f64_of b = if b then 0x3ff0000000000000 else 0

-- `duration_since`: `none` for a time before the other.
unfoldable pub duration_since : ℕ → ℕ → Option ℕ
duration_since self earlier = if ltb self earlier then none else some (self - earlier)

unfoldable pub error_number : Status → ℕ
error_number unset = 0
error_number ok = 0
error_number (error description) = 1

abbrev pub FieldMappingFn : Type 0 → Type 0 → Type 0
FieldMappingFn SpanContext SpanId = SpanData SpanContext SpanId → ModelConfig → Str

pub record Mapping (SpanContext SpanId : Type 0) : Type 0 where
  pub resource : Option (FieldMappingFn SpanContext SpanId)
  pub name : Option (FieldMappingFn SpanContext SpanId)
  pub service_name : Option (FieldMappingFn SpanContext SpanId)

module _ {SpanContext SpanId : Type 0} where
  -- The time since the epoch as an `i64`; `none` where the code panics, for a start before the epoch.
  unfoldable pub start_of : ℕ → SpanData SpanContext SpanId → Option ℕ
  start_of unix_epoch span = elim (duration_since span.start_time unix_epoch) [
    | none ↦ none
    | some nanos ↦ some (nanos % 2 ^ 64)
  ]

  unfoldable pub duration_of : SpanData SpanContext SpanId → ℕ
  duration_of span = elim (duration_since span.end_time span.start_time) [
    | none ↦ 0
    | some nanos ↦ nanos % 2 ^ 64
  ]

  unfoldable pub default_service_name_mapping : FieldMappingFn SpanContext SpanId
  default_service_name_mapping span config = config.service_name

  unfoldable pub default_name_mapping : FieldMappingFn SpanContext SpanId
  default_name_mapping span config = span.scope_name

  unfoldable pub default_resource_mapping : FieldMappingFn SpanContext SpanId
  default_resource_mapping span config = span.span_name

  unfoldable pub mapped :
      Option (FieldMappingFn SpanContext SpanId)
      → FieldMappingFn SpanContext SpanId
      → FieldMappingFn SpanContext SpanId
  mapped none otherwise span config = otherwise span config
  mapped (some f) otherwise span config = f span config
