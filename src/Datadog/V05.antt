-- ===== src/Datadog/V05.antt =====
-- The payload of version 0.5, in which texts are numbers of a dictionary
-- (opentelemetry-datadog/src/exporter/model/v05.rs). Writing to a `Vec` does not fail.
pub mod Sends
pub mod Reader
pub mod Fields
pub mod RoundTrip
use opentelemetry_rust_contr.Common.{
  ℕ, ◌+◌, ◌%◌, ◌^◌, List, [], ◌∷◌, ◌++◌, Bool, true, false, Option, none, some, length, ◌>>=◌,
  if◌then◌else◌,
}
use opentelemetry_rust_contr.Common.Text.{Str, codes, str_eq}
use opentelemetry_rust_contr.Propagator.Api.{Api, TraceStates}
use opentelemetry_rust_contr.Propagator.Datadog as Propagator
use opentelemetry_rust_contr.Datadog.Tokens.{
  Token, write_array_len, write_map_len, write_u32, write_u64, write_i32, write_i64, write_f64,
}
use opentelemetry_rust_contr.Datadog.Value.{
  InternValue, regular_string, opentelemetry_value, Printers,
}
use opentelemetry_rust_contr.Datadog.Interner.{
  StringInterner, intern_full, intern, intern_value, write_dictionary,
}
use opentelemetry_rust_contr.Datadog.Tags.{
  UnifiedTagField, UnifiedTags, get_tag_name, compute_attribute_size,
}
use opentelemetry_rust_contr.Datadog.Model.{
  KeyValue, SpanData, ModelConfig, FieldMappingFn, sampling_priority_key, dd_measured_key, f64_of,
  start_of, duration_of, error_number,
}

-- What is written to `encoded`, and the interner after it.
abbrev pub Writer : Type 0
Writer = StringInterner → List Token × StringInterner

unfoldable pub write : Token → Writer
write token interner = (token ∷ [], interner)

unfoldable pub nothing : Writer
nothing interner = ([], interner)

-- One write after the other.
infixr 20 ◌▸◌
unfoldable pub ◌▸◌ : Writer → Writer → Writer
(p ▸ q) interner =
    let (first, interner) = p interner in
    let (second, interner) = q interner in (first ++ second, interner)

-- The options of the build: the feature agent-sampling and the variables DD_GIT_REPOSITORY_URL and
-- DD_GIT_COMMIT_SHA; and what the libraries do: the lookup of an `IndexSet`, the printers of
-- numbers, and the epoch as a `SystemTime`.
pub record Build : Type 0 where
  pub agent_sampling : Bool
  pub repository_url : Option Str
  pub commit_sha : Option Str
  pub get_index_of : StringInterner → InternValue → Option ℕ
  pub printers : Printers
  pub unix_epoch : ℕ

abbrev pub span_num_elements : ℕ
span_num_elements = 12

abbrev pub metrics_len : ℕ
metrics_len = 2

unfoldable pub resource_len : Option (List KeyValue) → ℕ
resource_len none = 0
resource_len (some resource) = length resource

module _ (build : Build) where
  unfoldable pub git_meta_tags_count : ℕ
  git_meta_tags_count = elim build.repository_url [
    | none ↦ 0
    | some url ↦ elim build.commit_sha [ none ↦ 0 | some sha ↦ 2 ]
  ]

  -- The number that the interner gives is written.
  unfoldable pub write_interned : InternValue → Writer
  write_interned x interner =
      let (idx, interner) = intern_full build.get_index_of x interner in
      (write_u32 idx ∷ [], interner)

  unfoldable pub write_unified_tag : UnifiedTagField → Writer
  write_unified_tag tag = elim tag.value [
    | none ↦ nothing
    | some tag_value ↦
        write_interned (regular_string (get_tag_name tag.kind))
        ▸ write_interned (regular_string tag_value)
  ]

  unfoldable pub write_unified_tags : UnifiedTags → Writer
  write_unified_tags tags =
      write_unified_tag tags.service ▸ write_unified_tag tags.env ▸ write_unified_tag tags.version

  -- The loops over the resource and over the attributes.
  unfoldable pub write_entries : List KeyValue → Writer
  write_entries [] = nothing
  write_entries (kv ∷ entries) =
      (write_interned (regular_string kv.key) ▸ write_interned (opentelemetry_value kv.value))
      ▸ write_entries entries

  unfoldable pub write_resource : Option (List KeyValue) → Writer
  write_resource none = nothing
  write_resource (some resource) = write_entries resource

  unfoldable pub write_git : Writer
  write_git = elim build.repository_url [
    | none ↦ nothing
    | some repository_url ↦ elim build.commit_sha [
      | none ↦ nothing
      | some commit_sha ↦
          (write_interned (regular_string (codes "git.repository_url"))
            ▸ write_interned (regular_string repository_url))
          ▸ (write_interned (regular_string (codes "git.commit.sha"))
              ▸ write_interned (regular_string commit_sha))
    ]
  ]

  -- The number of entries of the map, in `u32`s.
  unfoldable pub meta_len : UnifiedTags → Option (List KeyValue) → List KeyValue → ℕ
  meta_len tags resource attributes =
      ((length attributes + resource_len resource) % 2 ^ 32
        + compute_attribute_size tags
        + git_meta_tags_count)
      % 2 ^ 32

  unfoldable pub write_meta : UnifiedTags → Option (List KeyValue) → List KeyValue → Writer
  write_meta tags resource attributes =
      write (write_map_len (meta_len tags resource attributes))
      ▸ (write_resource resource ▸ write_unified_tags tags ▸ write_entries attributes ▸ write_git)

  unfoldable pub find_span_type : List KeyValue → ℕ → StringInterner → ℕ × StringInterner
  find_span_type [] span_type interner = (span_type, interner)
  find_span_type (kv ∷ attributes) span_type interner = elim (str_eq kv.key (codes "span.type")) [
    | true ↦ intern_value build.get_index_of kv.value interner
    | false ↦ find_span_type attributes span_type interner
  ]

module _ {TraceId SpanId TraceState SpanContext : Type 0}
    (api : Api TraceId SpanId TraceState SpanContext) (states : TraceStates TraceState)
    (build : Build) where
  unfoldable pub get_sampling_priority : SpanData SpanContext SpanId → ℕ
  get_sampling_priority span =
      if build.agent_sampling
      then f64_of (
          Propagator.priority_sampling_enabled api states build.agent_sampling
            (api.trace_state span.span_context))
      else f64_of true

  unfoldable pub get_measuring : SpanData SpanContext SpanId → ℕ
  get_measuring span = f64_of (
      Propagator.measuring_enabled api states build.agent_sampling
        (api.trace_state span.span_context))

  unfoldable pub write_metrics : SpanData SpanContext SpanId → Writer
  write_metrics span =
      write (write_map_len metrics_len)
      ▸ (write_interned build (regular_string sampling_priority_key)
          ▸ write (write_f64 (get_sampling_priority span)))
      ▸ (write_interned build (regular_string dd_measured_key)
          ▸ write (write_f64 (get_measuring span)))

  module _ (model_config : ModelConfig)
      (get_service_name get_name get_resource : FieldMappingFn SpanContext SpanId)
      (unified_tags : UnifiedTags) (resource : Option (List KeyValue)) where
    -- What is written for a span, after its start is found, up to its type.
    unfoldable pub write_fields : SpanData SpanContext SpanId → ℕ → Writer
    write_fields span start =
        write (write_array_len span_num_elements)
        ▸ write_interned build (regular_string (get_service_name span model_config))
        ▸ write_interned build (regular_string (get_name span model_config))
        ▸ write_interned build (regular_string (get_resource span model_config))
        ▸ write (write_u64 (api.trace_id_to_u128 (api.trace_id span.span_context) % 2 ^ 64))
        ▸ write (write_u64 (api.span_id_to_u64 (api.span_id span.span_context)))
        ▸ write (write_u64 (api.span_id_to_u64 span.parent_span_id))
        ▸ write (write_i64 start)
        ▸ write (write_i64 (duration_of span))
        ▸ write (write_i32 (error_number span.status))
        ▸ write_meta build unified_tags resource span.attributes
        ▸ write_metrics span

    unfoldable pub encode_span :
        SpanData SpanContext SpanId → StringInterner → Option (List Token × StringInterner)
    encode_span span interner = do
      start ← start_of build.unix_epoch span
      let (empty, interner) = intern build.get_index_of [] interner
      let (span_type, interner) = find_span_type build span.attributes empty interner
      some ((write_fields span start ▸ write (write_u32 span_type)) interner)

    unfoldable pub encode_spans :
        List (SpanData SpanContext SpanId) → StringInterner → Option (List Token × StringInterner)
    encode_spans [] interner = some ([], interner)
    encode_spans (span ∷ trace) interner = do
      (first, interner) ← encode_span span interner
      (rest, interner) ← encode_spans trace interner
      some (first ++ rest, interner)

    unfoldable pub encode_all :
        List (List (SpanData SpanContext SpanId))
        → StringInterner
        → Option (List Token × StringInterner)
    encode_all [] interner = some ([], interner)
    encode_all (trace ∷ traces) interner = do
      (first, interner) ← encode_spans trace interner
      (rest, interner) ← encode_all traces interner
      some (write_array_len (length trace % 2 ^ 32) ∷ (first ++ rest), interner)

    unfoldable pub encode_traces :
        List (List (SpanData SpanContext SpanId))
        → StringInterner
        → Option (List Token × StringInterner)
    encode_traces traces interner = do
      (encoded, interner) ← encode_all traces interner
      some (write_array_len (length traces % 2 ^ 32) ∷ encoded, interner)

    unfoldable pub encode : List (List (SpanData SpanContext SpanId)) → Option (List Token)
    encode traces = do
      (encoded_traces, interner) ← encode_traces traces []
      some (write_array_len 2 ∷ (write_dictionary build.printers interner ++ encoded_traces))
