-- ===== src/Datadog/Payload/Request.antt =====
-- The request that carries a batch, against what its body is read as.
use opentelemetry_rust_contr.Common.{
  ℕ, ◌^◌, ◌<◌, List, map, ◌≡◌, Option, none, some, length, All, ◌>>=◌,
}
use opentelemetry_rust_contr.Common.Text.{Str}
use opentelemetry_rust_contr.Propagator.Api.{Api, TraceStates}
use opentelemetry_rust_contr.Datadog.Tokens.{Token}
use opentelemetry_rust_contr.Datadog.Value.{Value}
use opentelemetry_rust_contr.Datadog.Value.Written.{TextFits}
use opentelemetry_rust_contr.Datadog.Interner.Resolve.{IndexLaw}
use opentelemetry_rust_contr.Datadog.Tags.{UnifiedTags}
use opentelemetry_rust_contr.Datadog.Model.{
  KeyValue, SpanData, ModelConfig, Mapping, FieldMappingFn, default_service_name_mapping,
  default_name_mapping, default_resource_mapping, mapped,
}
use opentelemetry_rust_contr.Datadog.Spans.{DdSpan}
use opentelemetry_rust_contr.Datadog.Group.{group_into_traces}
use opentelemetry_rust_contr.Datadog.V03.RoundTrip as OldRoundTrip
use opentelemetry_rust_contr.Datadog.V05.{Build}
use opentelemetry_rust_contr.Datadog.V05.Reader as NewReader
use opentelemetry_rust_contr.Datadog.V05.RoundTrip as NewRoundTrip
use opentelemetry_rust_contr.Datadog.Payload.{
  version03, version05, encode_version, TraceRequest, build_request,
}

-- What the receiver of a request has: the number of traces of the header, and the traces of the body.
unfoldable pub received :
    (List Token → Option (List (List DdSpan)))
    → Option TraceRequest
    → Option (ℕ × List (List DdSpan))
received reader none = none
received reader (some request) = do traces ← reader request.body; some (request.trace_count, traces)

received_lem :
    (reader : List Token → Option (List (List DdSpan))) (data' : Option (List Token))
    (content : Str) (count : ℕ) (traces : List (List DdSpan))
    → (data' >>= reader) ≡ some traces
    → received reader
        (data' >>= λ body. some (record { content = content; trace_count = count; body = body }))
      ≡ some (count, traces)
unfolding received
received_lem reader none content count traces e = cc
received_lem reader (some body) content count traces e = rw e

module _ {TraceId SpanId TraceState SpanContext : Type 0}
    (api : Api TraceId SpanId TraceState SpanContext) (states : TraceStates TraceState)
    (build : Build) (as_str : Value → List ℕ) (model_config : ModelConfig)
    (mapping : Mapping SpanContext SpanId) (unified_tags : UnifiedTags)
    (resource : Option (List KeyValue))
    (sort : List (SpanData SpanContext SpanId) → List (SpanData SpanContext SpanId)) where
  abbrev service_of : FieldMappingFn SpanContext SpanId
  service_of = mapped mapping.service_name default_service_name_mapping

  abbrev name_of : FieldMappingFn SpanContext SpanId
  name_of = mapped mapping.name default_name_mapping

  abbrev resource_of : FieldMappingFn SpanContext SpanId
  resource_of = mapped mapping.resource default_resource_mapping

  -- The traces of a batch.
  abbrev pub traces_of :
      List (SpanData SpanContext SpanId) → List (List (SpanData SpanContext SpanId))
  traces_of batch =
      group_into_traces
        (λ (span : SpanData SpanContext SpanId).
          api.trace_id_to_u128 (api.trace_id span.span_context))
        sort batch

  -- The conditions of the two versions on the traces.
  pub record OldFits (batch : List (SpanData SpanContext SpanId)) : Type 0 where
    pub old_few : length (traces_of batch) < 2 ^ 32
    pub old_ok :
        All
          (OldRoundTrip.TraceOk api as_str build.unix_epoch model_config service_of name_of
            resource_of resource)
          (traces_of batch)

  pub record NewFits (law : IndexLaw build.get_index_of)
      (batch : List (SpanData SpanContext SpanId)) : Type 0 where
    pub few : length (traces_of batch) < 2 ^ 32
    pub ok :
        All
          (NewRoundTrip.TraceOk api states build law model_config service_of name_of resource_of
            unified_tags resource)
          (traces_of batch)
    pub names :
        length (
          NewRoundTrip.final_interner api states build law model_config service_of name_of
            resource_of unified_tags resource
            (traces_of batch))
        < 2 ^ 32
    pub texts : All (TextFits build.printers) (
        NewRoundTrip.final_interner api states build law model_config service_of name_of resource_of
          unified_tags resource
          (traces_of batch))

  -- The request of version 0.3 is built; its header has the number of the traces of the batch, and
  -- its body is read as these traces, in order. The conditions are that no span starts before the
  -- epoch, and that the numbers of traces, spans and entries fit 32 bits.
  pub build_request-v03 :
      (batch : List (SpanData SpanContext SpanId))
      → OldFits batch
      → received OldRoundTrip.read_payload (
          build_request api states build as_str version03 model_config mapping unified_tags resource
            sort batch)
        ≡ some (
          length (traces_of batch),
          map
              (map (
                OldRoundTrip.dd_span api as_str build.unix_epoch model_config service_of name_of
                  resource_of resource))
              (traces_of batch),
        )
  unfolding build_request encode_version
  build_request-v03 batch h =
      received_lem OldRoundTrip.read_payload _ _ (length (traces_of batch)) _ (
        OldRoundTrip.v03-read-encode api as_str build.unix_epoch model_config service_of name_of
          resource_of resource (traces_of batch) h.old_few h.old_ok)

  -- The request of version 0.5 is built; its header has the number of the traces of the batch, and
  -- its body is read as these traces, in order. The conditions are that indexmap finds an element
  -- where it is, that no span starts before the epoch, and that the numbers of traces, spans,
  -- entries and texts and the lengths of the texts fit 32 bits.
  pub build_request-v05 :
      (law : IndexLaw build.get_index_of) (batch : List (SpanData SpanContext SpanId))
      → NewFits law batch
      → received NewReader.read_payload (
          build_request api states build as_str version05 model_config mapping unified_tags resource
            sort batch)
        ≡ some (
          length (traces_of batch),
          map
              (map (
                NewReader.dd_span api states build model_config service_of name_of resource_of
                  unified_tags resource))
              (traces_of batch),
        )
  unfolding build_request encode_version
  build_request-v05 law batch h =
      received_lem NewReader.read_payload _ _ (length (traces_of batch)) _ (
        NewRoundTrip.v05-read-encode api states build law model_config service_of name_of
          resource_of unified_tags resource (traces_of batch) h.few h.ok h.names h.texts)
