-- ===== src/Datadog/V05/Reader.antt =====
-- A reader of the payload of version 0.5, and the spans that are to be read.
use opentelemetry_rust_contr.Common.{
  ℕ, ◌%◌, ◌^◌, ◌==◌, List, [], ◌∷◌, ◌++◌, Option, none, some, length, ◌>>=◌, ◌>>◌, guard,
}
use mathlib.Core.Option
use opentelemetry_rust_contr.Common.Text.{Str, codes}
use opentelemetry_rust_contr.Propagator.Api.{Api, TraceStates}
use opentelemetry_rust_contr.Datadog.Tokens.{
  Token, Reader, both, array, map_of, read_array_len, read_str, read_u64, read_i64, read_i32,
  read_f64,
}
use opentelemetry_rust_contr.Datadog.Value.Written.{value_text}
use opentelemetry_rust_contr.Datadog.Tags.{UnifiedTagField, UnifiedTags, get_tag_name}
use opentelemetry_rust_contr.Datadog.Model.{
  KeyValue, SpanData, ModelConfig, FieldMappingFn, sampling_priority_key, dd_measured_key,
  duration_of, error_number,
}
use opentelemetry_rust_contr.Datadog.Spans.{
  DdSpan, type_value, entries_of, entry_pairs, start_nanos,
}
use opentelemetry_rust_contr.Datadog.V05.{Build, get_sampling_priority, get_measuring}
use opentelemetry_rust_contr.Datadog.V05.Sends.{read_text}

unfoldable pub array_of_len : ℕ → Reader (Unit {0})
array_of_len n tokens = do (m, tokens) ← read_array_len tokens; guard (m == n); some (tt, tokens)

unfoldable pub read_meta : List Str → Reader (List (Str × Str))
read_meta dictionary = map_of (both (read_text dictionary) (read_text dictionary))

unfoldable pub read_metrics : List Str → Reader (List (Str × ℕ))
read_metrics dictionary = map_of (both (read_text dictionary) read_f64)

-- The fields of a span but its type.
abbrev pub Fields : Type 0
Fields =
    Unit {0}
    × (Str
        × (Str × (Str × (ℕ × (ℕ × (ℕ × (ℕ × (ℕ × (ℕ × (List (Str × Str) × List (Str × ℕ)))))))))))

unfoldable pub read_fields : List Str → Reader Fields
read_fields dictionary = both (array_of_len 12) (
    both (read_text dictionary) (
      both (read_text dictionary) (
        both (read_text dictionary) (
          both read_u64 (
            both read_u64 (
              both read_u64 (
                both read_i64 (
                  both read_i64
                    (both read_i32 (both (read_meta dictionary) (read_metrics dictionary)))))))))))

-- In this version a span without a type has the empty one.
unfoldable pub span_of : Fields → Str → DdSpan
span_of
      (
        _,
        (
          service,
          (
            name,
            (
              resource,
              (trace_id, (span_id, (parent_id, (start, (duration, (error, (meta, metrics))))))),
            ),
          ),
        ),
      )
      span_type =
    record {
      service = service;
      name = name;
      resource = resource;
      trace_id = trace_id;
      span_id = span_id;
      parent_id = parent_id;
      start = start;
      duration = duration;
      error = error;
      meta = meta;
      metrics = metrics;
      span_type = some span_type;
    }

unfoldable pub read_span : List Str → Reader DdSpan
read_span dictionary tokens = do
  ((fields, span_type), tokens) ← both (read_fields dictionary) (read_text dictionary) tokens
  some (span_of fields span_type, tokens)

-- The whole payload: the dictionary, the traces, and nothing more.
unfoldable pub read_payload : List Token → Option (List (List DdSpan))
read_payload tokens = do
  (_, tokens) ← array_of_len 2 tokens
  (dictionary, tokens) ← array read_str tokens
  (traces, tokens) ← array (array (read_span dictionary)) tokens
  guard (length tokens == 0)
  some traces

unfoldable pub tag_pairs : UnifiedTagField → List (Str × Str)
tag_pairs field = elim field.value [
  | none ↦ []
  | some value ↦ (get_tag_name field.kind, value) ∷ []
]

module _ (build : Build) where
  unfoldable pub git_pairs : List (Str × Str)
  git_pairs = elim build.repository_url [
    | none ↦ []
    | some url ↦ elim build.commit_sha [
      | none ↦ []
      | some sha ↦ (codes "git.repository_url", url) ∷ (codes "git.commit.sha", sha) ∷ []
    ]
  ]

  -- The meta data of a span: the resource, the unified tags, the attributes, and what is known of git.
  unfoldable pub meta_of : UnifiedTags → Option (List KeyValue) → List KeyValue → List (Str × Str)
  meta_of tags resource attributes =
      entry_pairs (value_text build.printers) (entries_of resource)
      ++ ((tag_pairs tags.service ++ (tag_pairs tags.env ++ tag_pairs tags.version))
          ++ (entry_pairs (value_text build.printers) attributes ++ git_pairs))

module _ {TraceId SpanId TraceState SpanContext : Type 0}
    (api : Api TraceId SpanId TraceState SpanContext) (states : TraceStates TraceState)
    (build : Build) where
  unfoldable pub metrics_of : SpanData SpanContext SpanId → List (Str × ℕ)
  metrics_of span =
      (sampling_priority_key, get_sampling_priority api states build span)
      ∷ (dd_measured_key, get_measuring api states build span)
      ∷ []

  module _ (model_config : ModelConfig)
      (get_service_name get_name get_resource : FieldMappingFn SpanContext SpanId)
      (unified_tags : UnifiedTags) (resource : Option (List KeyValue)) where
    unfoldable pub fields_of : SpanData SpanContext SpanId → ℕ → Fields
    fields_of span start = (
      tt,
      (
        get_service_name span model_config,
        (
          get_name span model_config,
          (
            get_resource span model_config,
            (
              api.trace_id_to_u128 (api.trace_id span.span_context) % 2 ^ 64,
              (
                api.span_id_to_u64 (api.span_id span.span_context),
                (
                  api.span_id_to_u64 span.parent_span_id,
                  (
                    start,
                    (
                      duration_of span,
                      (
                        error_number span.status,
                        (meta_of build unified_tags resource span.attributes, metrics_of span),
                      ),
                    ),
                  ),
                ),
              ),
            ),
          ),
        ),
      ),
    )

    -- The span that is to be read, with texts in place of values.
    unfoldable pub dd_span : SpanData SpanContext SpanId → DdSpan
    dd_span span =
        span_of (fields_of span (start_nanos build.unix_epoch span))
          (Option.get_or (Option.map (value_text build.printers) (type_value span.attributes)) [])
