-- ===== src/Datadog/V03/RoundTrip.antt =====
-- The payload of version 0.3 that is written, against what is read back.
use opentelemetry_rust_contr.Common.{
  ℕ, ◌+◌, ◌%◌, ◌^◌, ◌<◌, List, [], ◌∷◌, ◌++◌, append_assoc, append-nil, map, ◌≡◌, refl, Option,
  none, some, inl, inr, length, All, ◌==◌, ◌>>=◌, ◌>>◌, guard, if◌then◌else◌, Bool-cases, arith,
}
use mathlib.Core.Option
use opentelemetry_rust_contr.Common.Text.{Str, codes, str_eq}
use opentelemetry_rust_contr.Propagator.Api.{Api, is_sampled}
use opentelemetry_rust_contr.Datadog.Tokens.{
  Token, write_array_len, Reader, Reads, both, many, many_next, many_append, read_map_len, read_u64,
  read_i64, read_i32, read_f64, read_str, name, array, array-Reads, map_of, map_of-Reads,
}
use opentelemetry_rust_contr.Datadog.Value.{Value}
use opentelemetry_rust_contr.Datadog.Model.{
  KeyValue, SpanData, ModelConfig, FieldMappingFn, sampling_priority_key, f64_of, duration_of,
  error_number,
}
use opentelemetry_rust_contr.Datadog.Spans.{
  DdSpan, type_value, entries_of, entry_pairs, Started, start_nanos, start_of-Started,
}
use opentelemetry_rust_contr.Datadog.V03.{
  write_type, write_pairs, write_resource_pairs, resource_size, write_metrics, write_entries,
  encode_span, encode_spans, encode_all, encode,
}

-- The length of the map, and the type if the map has 12 entries.
unfoldable pub read_type : Reader (Option Str)
read_type tokens = do
  (n, tokens) ← read_map_len tokens
  if n == 12
      then (do
        (_, tokens) ← name (codes "type") tokens
        (span_type, tokens) ← read_str tokens
        some (some span_type, tokens))
      else (do guard (n == 11); some (none, tokens))

-- A value under its name.
unfoldable pub entry : {A : Type 0} → Str → Reader A → Reader A
entry key r tokens = do (_, tokens) ← name key tokens; r tokens

unfoldable pub read_span : Reader DdSpan
read_span tokens = do
  (span_type, tokens) ← read_type tokens
  (service, tokens) ← entry (codes "service") read_str tokens
  (span_name, tokens) ← entry (codes "name") read_str tokens
  (resource, tokens) ← entry (codes "resource") read_str tokens
  (trace_id, tokens) ← entry (codes "trace_id") read_u64 tokens
  (span_id, tokens) ← entry (codes "span_id") read_u64 tokens
  (parent_id, tokens) ← entry (codes "parent_id") read_u64 tokens
  (start, tokens) ← entry (codes "start") read_i64 tokens
  (duration, tokens) ← entry (codes "duration") read_i64 tokens
  (error, tokens) ← entry (codes "error") read_i32 tokens
  (meta, tokens) ← entry (codes "meta") (map_of (both read_str read_str)) tokens
  (metrics, tokens) ← entry (codes "metrics") (map_of (both read_str read_f64)) tokens
  some (
    record {
      service = service;
      name = span_name;
      resource = resource;
      trace_id = trace_id;
      span_id = span_id;
      parent_id = parent_id;
      start = start;
      duration = duration;
      error = error;
      meta = meta;
      metrics = metrics;
      span_type = span_type;
    },
    tokens,
  )

unfoldable pub read_payload : List Token → Option (List (List DdSpan))
read_payload tokens = do
  (traces, tokens) ← array (array read_span) tokens
  guard (length tokens == 0)
  some traces

module _ (as_str : Value → Str) where
  write_type-Reads :
      (attributes : List KeyValue)
      → Reads read_type (write_type as_str attributes) (Option.map as_str (type_value attributes))
  unfolding read_type write_type type_value read_map_len name read_str str_eq
  write_type-Reads [] rest = refl
  write_type-Reads (kv ∷ attributes) rest = elim (Bool-cases (str_eq kv.key (codes "span.type"))) [
    | inl here ↦ rw (here, write_type, type_value)
    | inr later ↦ rw (later, write_type, type_value) (write_type-Reads attributes rest)
  ]

  write_pairs-Reads :
      (entries : List KeyValue)
      → Reads
          (many (both read_str read_str) (length entries))
          (write_pairs as_str entries)
          (entry_pairs as_str entries)
  unfolding many both read_str write_pairs entry_pairs
  write_pairs-Reads [] rest = refl
  write_pairs-Reads (kv ∷ entries) rest = rw (write_pairs-Reads entries rest)

  write_resource_pairs-Reads :
      (resource : Option (List KeyValue))
      → Reads
          (many (both read_str read_str) (resource_size resource))
          (write_resource_pairs as_str resource)
          (entry_pairs as_str (entries_of resource))
  unfolding write_resource_pairs resource_size entries_of entry_pairs many
  write_resource_pairs-Reads none rest = refl
  write_resource_pairs-Reads (some resource) rest = write_pairs-Reads resource rest

module _ {TraceId SpanId TraceState SpanContext : Type 0}
    (api : Api TraceId SpanId TraceState SpanContext) (as_str : Value → Str) (unix_epoch : ℕ)
    (model_config : ModelConfig)
    (get_service_name get_name get_resource : FieldMappingFn SpanContext SpanId)
    (resource : Option (List KeyValue)) where
  -- The span that is to be read.
  unfoldable pub dd_span : SpanData SpanContext SpanId → DdSpan
  dd_span span = record {
    service = get_service_name span model_config;
    name = get_name span model_config;
    resource = get_resource span model_config;
    trace_id = api.trace_id_to_u128 (api.trace_id span.span_context) % 2 ^ 64;
    span_id = api.span_id_to_u64 (api.span_id span.span_context);
    parent_id = api.span_id_to_u64 span.parent_span_id;
    start = start_nanos unix_epoch span;
    duration = duration_of span;
    error = error_number span.status;
    meta = entry_pairs as_str (entries_of resource) ++ entry_pairs as_str span.attributes;
    metrics = (sampling_priority_key, f64_of (is_sampled (api.trace_flags span.span_context))) ∷ [];
    span_type = Option.map as_str (type_value span.attributes);
  }

  abbrev pub PairsFit : SpanData SpanContext SpanId → Type 0
  PairsFit span = length span.attributes + resource_size resource < 2 ^ 32

  write_metrics-Reads :
      (span : SpanData SpanContext SpanId)
      → Reads
          (entry (codes "metrics") (map_of (both read_str read_f64)))
          (write_metrics api as_str unix_epoch model_config get_service_name get_name get_resource
            resource span)
          ((sampling_priority_key, f64_of (is_sampled (api.trace_flags span.span_context))) ∷ [])
  unfolding write_metrics entry name read_str str_eq map_of read_map_len many both read_f64
  write_metrics-Reads span rest = refl

  write_span-Reads :
      (span : SpanData SpanContext SpanId)
      → PairsFit span
      → Reads read_span
          (write_type as_str span.attributes
            ++ write_entries api as_str unix_epoch model_config get_service_name get_name
                get_resource resource span
                (start_nanos unix_epoch span))
          (dd_span span)
  unfolding read_span write_entries dd_span entry name read_str read_u64 read_i64 read_i32 str_eq
  write_span-Reads span fits rest =
      let entries =
        write_entries api as_str unix_epoch model_config get_service_name get_name get_resource
          resource span (start_nanos unix_epoch span) in
      let a = length span.attributes in
      let r = resource_size resource in
      let pairs = write_resource_pairs as_str resource ++ write_pairs as_str span.attributes in
      let metrics =
        write_metrics api as_str unix_epoch model_config get_service_name get_name get_resource
          resource span in
      let meta =
        map_of-Reads (both read_str read_str) (r + a) ((a + r) % 2 ^ 32) pairs _ (omega arith)
          (many_append (both read_str read_str) r a (write_resource_pairs as_str resource)
            (write_pairs as_str span.attributes) _ _ (write_resource_pairs-Reads as_str resource)
            (write_pairs-Reads as_str span.attributes))
          (metrics ++ rest) in
      rw (append_assoc (write_type as_str span.attributes) entries rest) (
        rw (write_type-Reads as_str span.attributes (entries ++ rest))
          (rw (append_assoc pairs metrics rest) (rw meta (rw (write_metrics-Reads span rest)))))

  abbrev pub SpanOk : SpanData SpanContext SpanId → Type 0
  SpanOk span = Started unix_epoch span × PairsFit span

  encode_spans-Reads :
      (trace : List (SpanData SpanContext SpanId))
      → All SpanOk trace
      → (tokens : List Token) × (encode_spans api as_str unix_epoch model_config get_service_name
            get_name get_resource resource trace
          ≡ some tokens)
        × Reads (many read_span (length trace)) tokens (map dd_span trace)
  unfolding encode_spans encode_span many
  encode_spans-Reads [] h = ([], refl, λ rest. refl)
  encode_spans-Reads (span ∷ trace) h =
      let (rest, e, reads) = encode_spans-Reads trace h.1 in
      let first =
        write_type as_str span.attributes
        ++ write_entries api as_str unix_epoch model_config get_service_name get_name get_resource
            resource span (start_nanos unix_epoch span) in
      (
        first ++ rest,
        rw (start_of-Started unix_epoch span h.0.0) (rw e),
        many_next read_span (length trace) first rest (dd_span span) (map dd_span trace)
            (write_span-Reads span h.0.1) reads,
      )

  abbrev pub TraceOk : List (SpanData SpanContext SpanId) → Type 0
  TraceOk trace = (length trace < 2 ^ 32) × All SpanOk trace

  encode_all-Reads :
      (traces : List (List (SpanData SpanContext SpanId)))
      → All TraceOk traces
      → (tokens : List Token) × (encode_all api as_str unix_epoch model_config get_service_name
            get_name get_resource resource traces
          ≡ some tokens)
        × Reads (many (array read_span) (length traces)) tokens (map (map dd_span) traces)
  unfolding encode_all many
  encode_all-Reads [] h = ([], refl, λ rest. refl)
  encode_all-Reads (trace ∷ traces) h =
      let (first, e, reads) = encode_spans-Reads trace h.0.1 in
      let (rest, e', reads') = encode_all-Reads traces h.1 in
      let header = write_array_len (length trace % 2 ^ 32) in
      (
        header ∷ (first ++ rest),
        rw e (rw e'),
        many_next (array read_span) (length traces) (header ∷ first) rest (map dd_span trace)
            (map (map dd_span) traces)
            (array-Reads read_span (length trace) first (map dd_span trace) h.0.0 reads) reads',
      )

  -- The payload of version 0.3 is written, and a reader gets every trace and span back, in order, with
  -- its service, name, resource, ids, times, error, meta data, metrics, and its type if it has one. The
  -- conditions are that no span starts before the epoch, and that the numbers of traces, spans and
  -- entries fit 32 bits.
  pub v03-read-encode :
      (traces : List (List (SpanData SpanContext SpanId)))
      → length traces < 2 ^ 32
      → All TraceOk traces
      → (encode api as_str unix_epoch model_config get_service_name get_name get_resource resource
            traces
          >>= read_payload)
        ≡ some (map (map dd_span) traces)
  unfolding encode read_payload
  v03-read-encode traces small ok =
      let (tokens, e, reads) = encode_all-Reads traces ok in
      let header = write_array_len (length traces % 2 ^ 32) in
      let body : array (array read_span) (header ∷ tokens) ≡ some (map (map dd_span) traces, []) =
        rw (append-nil tokens) at (
          array-Reads (array read_span) (length traces) tokens (map (map dd_span) traces) small
            reads []) in
      rw e (rw body)
