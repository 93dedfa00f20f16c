-- ===== src/Datadog/Payload.antt =====
-- The versions of the payload behind one interface (`ApiVersion` of
-- opentelemetry-datadog/src/exporter/model/mod.rs), and the request that carries a batch (exporter/mod.rs).
pub mod Request
use opentelemetry_rust_contr.Common.{ℕ, List, Option, none, some, length, ◌>>=◌}
use opentelemetry_rust_contr.Common.Text.{Str, codes}
use opentelemetry_rust_contr.Propagator.Api.{Api, TraceStates}
use opentelemetry_rust_contr.Datadog.Tokens.{Token}
use opentelemetry_rust_contr.Datadog.Value.{Value}
use opentelemetry_rust_contr.Datadog.Tags.{UnifiedTags}
use opentelemetry_rust_contr.Datadog.Model.{
  KeyValue, SpanData, ModelConfig, Mapping, default_service_name_mapping, default_name_mapping,
  default_resource_mapping, mapped,
}
use opentelemetry_rust_contr.Datadog.V03
use opentelemetry_rust_contr.Datadog.V05
use opentelemetry_rust_contr.Datadog.V05.{Build}
use opentelemetry_rust_contr.Datadog.Group.{group_into_traces}

pub data ApiVersion : Type 0 where
  version03 version05 : ApiVersion

unfoldable pub path : ApiVersion → Str
path version03 = codes "/v0.3/traces"
path version05 = codes "/v0.5/traces"

unfoldable pub content_type : ApiVersion → Str
content_type version03 = codes "application/msgpack"
content_type version05 = codes "application/msgpack"

-- The parts of the request that depend on the batch; method, URL and the headers about the client are
-- the same for all.
pub record TraceRequest : Type 0 where
  pub content : Str
  pub trace_count : ℕ
  pub body : List Token

module _ {TraceId SpanId TraceState SpanContext : Type 0}
    (api : Api TraceId SpanId TraceState SpanContext) (states : TraceStates TraceState)
    (build : Build) (as_str : Value → Str) where
  unfoldable pub encode_version :
      ApiVersion
      → ModelConfig
      → List (List (SpanData SpanContext SpanId))
      → Mapping SpanContext SpanId
      → UnifiedTags
      → Option (List KeyValue)
      → Option (List Token)
  encode_version version03 model_config traces mapping unified_tags resource =
      V03.encode api as_str build.unix_epoch model_config
        (mapped mapping.service_name default_service_name_mapping)
        (mapped mapping.name default_name_mapping)
        (mapped mapping.resource default_resource_mapping) resource traces
  encode_version version05 model_config traces mapping unified_tags resource =
      V05.encode api states build model_config
        (mapped mapping.service_name default_service_name_mapping)
        (mapped mapping.name default_name_mapping)
        (mapped mapping.resource default_resource_mapping) unified_tags resource traces

  -- `sort` is `sort_unstable_by_key`, by the bytes of the trace id.
  unfoldable pub build_request :
      ApiVersion
      → ModelConfig
      → Mapping SpanContext SpanId
      → UnifiedTags
      → Option (List KeyValue)
      → (List (SpanData SpanContext SpanId) → List (SpanData SpanContext SpanId))
      → List (SpanData SpanContext SpanId)
      → Option TraceRequest
  build_request api_version model_config mapping unified_tags resource sort batch = do
    let traces =
        group_into_traces
          (λ (span : SpanData SpanContext SpanId).
            api.trace_id_to_u128 (api.trace_id span.span_context))
          sort batch
    let trace_count = length traces
    data' ← encode_version api_version model_config traces mapping unified_tags resource
    some (record { content = content_type api_version; trace_count = trace_count; body = data' })
