-- ===== src/Datadog/V05/Fields.antt =====
-- The fields of a span in version 0.5, as they are written and read.
use opentelemetry_rust_contr.Common.{
  ℕ, suc, ◌+◌, ◌%◌, ◌^◌, ◌<◌, List, [], ◌∷◌, ◌++◌, refl, Option, none, some, inl, inr, length,
  ==-refl, Option-cases, arith,
}
use opentelemetry_rust_contr.Common.Text.{Str, codes}
use opentelemetry_rust_contr.Propagator.Api.{Api, TraceStates}
use opentelemetry_rust_contr.Datadog.Tokens.{
  write_array_len, write_u64, write_i32, write_i64, write_f64, Reader, Reads, both, many,
  read_array_len, read_u64, read_i64, read_i32, read_f64,
}
use opentelemetry_rust_contr.Datadog.Value.{InternValue, regular_string, opentelemetry_value}
use opentelemetry_rust_contr.Datadog.Value.Written.{text, value_text}
use opentelemetry_rust_contr.Datadog.Interner.Resolve.{IndexLaw}
use opentelemetry_rust_contr.Datadog.Tags.{
  UnifiedTagField, UnifiedTags, get_tag_name, tag_len, compute_attribute_size,
}
use opentelemetry_rust_contr.Datadog.Model.{
  KeyValue, SpanData, ModelConfig, FieldMappingFn, sampling_priority_key, dd_measured_key,
  duration_of, error_number,
}
use opentelemetry_rust_contr.Datadog.Spans.{entries_of, entry_pairs}
use opentelemetry_rust_contr.Datadog.V05.{
  write, ◌▸◌, Build, git_meta_tags_count, write_interned, write_unified_tag, write_unified_tags,
  write_entries, write_resource, write_git, resource_len, meta_len, write_meta,
  get_sampling_priority, get_measuring, write_metrics, write_fields,
}
use opentelemetry_rust_contr.Datadog.V05.Sends.{
  read_text, Sends, write-Sends, then-Sends, none-Sends, many-Sends, one-Sent, map-Sends,
  write_interned-Sends,
}
use opentelemetry_rust_contr.Datadog.V05.Reader.{
  array_of_len, read_meta, read_metrics, read_fields, tag_pairs, git_pairs, meta_of, metrics_of,
  fields_of,
}

-- The number of entries of the meta data fits 32 bits.
abbrev pub MetaFits : Build → UnifiedTags → Option (List KeyValue) → List KeyValue → Type 0
MetaFits build tags resource attributes =
    length attributes
      + resource_len resource
      + compute_attribute_size tags
      + git_meta_tags_count build
    < 2 ^ 32

-- An entry of a map of texts.
abbrev pair : List Str → Reader (Str × Str)
pair dictionary = both (read_text dictionary) (read_text dictionary)

module _ (build : Build) (law : IndexLaw build.get_index_of) where
  pair-Sends :
      (key : Str) (x : InternValue)
      → Sends build.printers
          (write_interned build (regular_string key) ▸ write_interned build x)
          (λ dictionary. many (pair dictionary) 1)
          ((key, text build.printers x) ∷ [])
  unfolding text
  pair-Sends key x before =
      one-Sent build.printers _ pair (key, text build.printers x)
        (then-Sends build.printers read_text read_text
          (write_interned-Sends build.printers build (regular_string key) law)
          (write_interned-Sends build.printers build x law) before)

  write_entries-Sends :
      (entries : List KeyValue)
      → Sends build.printers
          (write_entries build entries)
          (λ dictionary. many (pair dictionary) (length entries))
          (entry_pairs (value_text build.printers) entries)
  unfolding write_entries entry_pairs text
  write_entries-Sends [] = none-Sends build.printers pair
  write_entries-Sends (kv ∷ entries) =
      many-Sends build.printers pair (suc (length entries)) 1 (length entries) (omega arith)
        (pair-Sends kv.key (opentelemetry_value kv.value)) (write_entries-Sends entries)

  write_resource-Sends :
      (resource : Option (List KeyValue))
      → Sends build.printers
          (write_resource build resource)
          (λ dictionary. many (pair dictionary) (resource_len resource))
          (entry_pairs (value_text build.printers) (entries_of resource))
  unfolding write_resource resource_len entries_of entry_pairs
  write_resource-Sends none = none-Sends build.printers pair
  write_resource-Sends (some resource) = write_entries-Sends resource

  write_unified_tag-Sends :
      (tag : UnifiedTagField)
      → Sends build.printers
          (write_unified_tag build tag)
          (λ dictionary. many (pair dictionary) (tag_len tag))
          (tag_pairs tag)
  unfolding write_unified_tag tag_len tag_pairs text
  write_unified_tag-Sends tag = elim (Option-cases tag.value) [
    | inl e ↦ rw e (none-Sends build.printers pair)
    | inr (value, e) ↦ rw e (pair-Sends (get_tag_name tag.kind) (regular_string value))
  ]

  write_unified_tags-Sends :
      (tags : UnifiedTags)
      → Sends build.printers
          (write_unified_tags build tags)
          (λ dictionary. many (pair dictionary) (compute_attribute_size tags))
          (tag_pairs tags.service ++ (tag_pairs tags.env ++ tag_pairs tags.version))
  unfolding write_unified_tags compute_attribute_size
  write_unified_tags-Sends tags =
      let s = tag_len tags.service in
      let e = tag_len tags.env in
      let v = tag_len tags.version in
      many-Sends build.printers pair (s + e + v) s (e + v) (omega arith)
        (write_unified_tag-Sends tags.service)
        (many-Sends build.printers pair (e + v) e v refl (write_unified_tag-Sends tags.env)
          (write_unified_tag-Sends tags.version))

  write_git-Sends :
      Sends build.printers
        (write_git build)
        (λ dictionary. many (pair dictionary) (git_meta_tags_count build))
        (git_pairs build)
  unfolding write_git git_meta_tags_count git_pairs ◌▸◌ text write_interned
  write_git-Sends = elim (Option-cases build.repository_url) [
    | inl e ↦ rw e (none-Sends build.printers pair)
    | inr (url, e) ↦ elim (Option-cases build.commit_sha) [
      | inl e' ↦ rw (e, e') (none-Sends build.printers pair)
      | inr (sha, e') ↦
          rw (e, e')
            (many-Sends build.printers pair 2 1 1 refl
              (pair-Sends (codes "git.repository_url") (regular_string url))
              (pair-Sends (codes "git.commit.sha") (regular_string sha)))
    ]
  ]

  write_meta-Sends :
      (tags : UnifiedTags) (resource : Option (List KeyValue)) (attributes : List KeyValue)
      → MetaFits build tags resource attributes
      → Sends build.printers
          (write_meta build tags resource attributes)
          read_meta
          (meta_of build tags resource attributes)
  unfolding write_meta read_meta meta_of meta_len
  write_meta-Sends tags resource attributes fits =
      let r = resource_len resource in
      let t = compute_attribute_size tags in
      let a = length attributes in
      let g = git_meta_tags_count build in
      map-Sends build.printers pair (r + (t + (a + g))) (((a + r) % 2 ^ 32 + t + g) % 2 ^ 32)
        (omega arith)
        (many-Sends build.printers pair (r + (t + (a + g))) r (t + (a + g)) refl
          (write_resource-Sends resource)
          (many-Sends build.printers pair (t + (a + g)) t (a + g) refl
            (write_unified_tags-Sends tags)
            (many-Sends build.printers pair (a + g) a g refl (write_entries-Sends attributes)
              write_git-Sends)))

pub array_of_len-Reads : (n : ℕ) → Reads (array_of_len n) (write_array_len n ∷ []) tt
unfolding array_of_len read_array_len
array_of_len-Reads n rest = rw (==-refl n)

module _ {TraceId SpanId TraceState SpanContext : Type 0}
    (api : Api TraceId SpanId TraceState SpanContext) (states : TraceStates TraceState)
    (build : Build) (law : IndexLaw build.get_index_of) where
  metric-Sends :
      (key : Str) (value : ℕ)
      → Sends build.printers
          (write_interned build (regular_string key) ▸ write (write_f64 value))
          (λ dictionary. many (both (read_text dictionary) read_f64) 1)
          ((key, value) ∷ [])
  unfolding text read_f64
  metric-Sends key value before =
      one-Sent build.printers _ (λ dictionary. both (read_text dictionary) read_f64) (key, value)
        (then-Sends build.printers read_text (λ dictionary. read_f64)
          (write_interned-Sends build.printers build (regular_string key) law)
          (write-Sends build.printers (write_f64 value) read_f64 value (λ rest. refl)) before)

  write_metrics-Sends :
      (span : SpanData SpanContext SpanId)
      → Sends build.printers
          (write_metrics api states build span)
          read_metrics
          (metrics_of api states build span)
  unfolding write_metrics read_metrics metrics_of
  write_metrics-Sends span =
      let r = λ (dictionary : List Str). both (read_text dictionary) read_f64 in
      map-Sends build.printers r 2 2 refl (
        many-Sends build.printers r 2 1 1 refl
          (metric-Sends sampling_priority_key (get_sampling_priority api states build span))
          (metric-Sends dd_measured_key (get_measuring api states build span)))

  module _ (model_config : ModelConfig)
      (get_service_name get_name get_resource : FieldMappingFn SpanContext SpanId)
      (unified_tags : UnifiedTags) (resource : Option (List KeyValue)) where
    -- The fields of a span, its start found, are read with any dictionary that has grown since.
    pub write_fields-Sends :
        (span : SpanData SpanContext SpanId) (start : ℕ)
        → MetaFits build unified_tags resource span.attributes
        → Sends build.printers
            (write_fields api states build model_config get_service_name get_name get_resource
              unified_tags resource span start)
            read_fields
            (fields_of api states build model_config get_service_name get_name get_resource
              unified_tags resource span start)
    unfolding write_fields read_fields fields_of text read_u64 read_i64 read_i32
    write_fields-Sends span start fits =
        let ref = λ (s : Str). write_interned-Sends build.printers build (regular_string s) law in
        let u64 = λ (n : ℕ). write-Sends build.printers (write_u64 n) read_u64 n (λ rest. refl) in
        let i64 = λ (n : ℕ). write-Sends build.printers (write_i64 n) read_i64 n (λ rest. refl) in
        let i32 = λ (n : ℕ). write-Sends build.printers (write_i32 n) read_i32 n (λ rest. refl) in
        let meta = write_meta-Sends build law unified_tags resource span.attributes fits in
        let twelve =
          write-Sends build.printers (write_array_len 12) (array_of_len 12) tt
            (array_of_len-Reads 12) in
        then-Sends build.printers _ _ twelve (
          then-Sends build.printers _ _ (ref (get_service_name span model_config)) (
            then-Sends build.printers _ _ (ref (get_name span model_config)) (
              then-Sends build.printers _ _ (ref (get_resource span model_config)) (
                then-Sends build.printers _ _
                  (u64 (api.trace_id_to_u128 (api.trace_id span.span_context) % 2 ^ 64))
                  (then-Sends build.printers _ _
                    (u64 (api.span_id_to_u64 (api.span_id span.span_context)))
                    (then-Sends build.printers _ _ (u64 (api.span_id_to_u64 span.parent_span_id)) (
                      then-Sends build.printers _ _ (i64 start) (
                        then-Sends build.printers _ _ (i64 (duration_of span)) (
                          then-Sends build.printers _ _ (i32 (error_number span.status))
                            (then-Sends build.printers _ _ meta (write_metrics-Sends span)))))))))))
