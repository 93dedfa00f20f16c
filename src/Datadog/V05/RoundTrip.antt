-- ===== src/Datadog/V05/RoundTrip.antt =====
-- The payload of version 0.5 that is written, against what is read back.
use opentelemetry_rust_contr.Common.{
  ℕ, suc, ◌%◌, ◌^◌, ◌<◌, List, [], ◌∷◌, ◌++◌, append_assoc, append-nil, map, ◌≡◌, refl, ap, ◌∙◌,
  Option, none, some, inl, inr, length, All, ◌>>=◌, Bool-cases, arith,
}
use mathlib.Core.Option
use opentelemetry_rust_contr.Common.Text.{Str, codes, str_eq}
use opentelemetry_rust_contr.Propagator.Api.{Api, TraceStates}
use opentelemetry_rust_contr.Datadog.Tokens.{
  Token, write_array_len, write_u32, Reads, both-Reads, many, many_next, array, array-Reads, concat,
  many-Reads, read_str,
}
use opentelemetry_rust_contr.Datadog.Value.{
  InternValue, regular_string, opentelemetry_value, write_as_str,
}
use opentelemetry_rust_contr.Datadog.Value.Written.{text, value_text, TextFits, write_as_str-text}
use opentelemetry_rust_contr.Datadog.Interner.{
  StringInterner, intern, intern_value, write_dictionary,
}
use opentelemetry_rust_contr.Datadog.Interner.Resolve.{IndexLaw, Interned, intern_full-Interned}
use opentelemetry_rust_contr.Datadog.Tags.{UnifiedTags}
use opentelemetry_rust_contr.Datadog.Model.{KeyValue, SpanData, ModelConfig, FieldMappingFn}
use opentelemetry_rust_contr.Datadog.Spans.{
  DdSpan, type_value, Started, start_nanos, start_of-Started,
}
use opentelemetry_rust_contr.Datadog.V05.{
  write, ◌▸◌, Build, find_span_type, write_fields, encode_span, encode_spans, encode_all,
  encode_traces, encode,
}
use opentelemetry_rust_contr.Datadog.V05.Sends.{
  read_text, dictionary_of, Sent, compose-Sent, number-Sent,
}
use opentelemetry_rust_contr.Datadog.V05.Reader.{
  Fields, read_fields, span_of, read_span, read_payload, fields_of, dd_span,
}
use opentelemetry_rust_contr.Datadog.V05.Fields.{MetaFits, write_fields-Sends, array_of_len-Reads}

-- The number that was found for the type of a span stands for its text.
record TypeFound (build : Build) (span_type : Str) (before : StringInterner)
    (result : ℕ × StringInterner) : Type 0 where
  value : InternValue
  earlier : StringInterner
  interned : Interned value earlier result
  more : StringInterner
  grew : result.1 ≡ before ++ more
  is_text : text build.printers value ≡ span_type

abbrev type_text : Build → List KeyValue → Str
type_text build attributes =
    Option.get_or (Option.map (value_text build.printers) (type_value attributes)) []

module _ (build : Build) (law : IndexLaw build.get_index_of) where
  find_span_type-TypeFound :
      (attributes : List KeyValue) (before : StringInterner) (empty : ℕ × StringInterner)
      → Interned (regular_string []) before empty
      → TypeFound build
          (type_text build attributes)
          before
          (find_span_type build attributes empty.0 empty.1)
  unfolding find_span_type type_value text intern_value
  find_span_type-TypeFound [] before empty i = record {
    value = regular_string [];
    earlier = before;
    interned = i;
    more = i.more;
    grew = i.grew;
    is_text = refl;
  }
  find_span_type-TypeFound (kv ∷ attributes) before empty i =
      elim (Bool-cases (str_eq kv.key (codes "span.type"))) [
        | inl here ↦
            let j =
              intern_full-Interned build.get_index_of (opentelemetry_value kv.value) empty.1 law in
            rw (here, find_span_type, type_value)
              (record {
                value = opentelemetry_value kv.value;
                earlier = empty.1;
                interned = j;
                more = i.more ++ j.more;
                grew = j.grew ∙ (ap (λ d. d ++ j.more) i.grew ∙ append_assoc before i.more j.more);
                is_text = refl;
              })
        | inr later ↦
            rw (later, find_span_type, type_value)
              (find_span_type-TypeFound attributes before empty i)
      ]

-- The fields and the type of a span.
read_span-Reads :
    (dictionary : List Str) (t u : List Token) (fields : Fields) (span_type kind : Str)
    → kind ≡ span_type
    → Reads (read_fields dictionary) t fields
    → Reads (read_text dictionary) u kind
    → Reads (read_span dictionary) (t ++ u) (span_of fields span_type)
unfolding read_span
read_span-Reads dictionary t u fields span_type kind e ht hu rest =
    rw (both-Reads (read_fields dictionary) (read_text dictionary) t u fields kind ht hu rest)
      (rw e)

-- The interner of a result; there is none where the code panics.
unfoldable pub interner_of : Option (List Token × StringInterner) → StringInterner
interner_of none = []
interner_of (some (encoded, interner)) = interner

module _ {TraceId SpanId TraceState SpanContext : Type 0}
    (api : Api TraceId SpanId TraceState SpanContext) (states : TraceStates TraceState)
    (build : Build) (law : IndexLaw build.get_index_of) (model_config : ModelConfig)
    (get_service_name get_name get_resource : FieldMappingFn SpanContext SpanId)
    (unified_tags : UnifiedTags) (resource : Option (List KeyValue)) where
  -- The span has a start that is not before the epoch, and its meta data fit.
  abbrev pub SpanOk : SpanData SpanContext SpanId → Type 0
  SpanOk span = Started build.unix_epoch span × MetaFits build unified_tags resource span.attributes

  abbrev expected : SpanData SpanContext SpanId → DdSpan
  expected =
      dd_span api states build model_config get_service_name get_name get_resource unified_tags
        resource

  encode_span-Sent :
      (span : SpanData SpanContext SpanId) (before : StringInterner)
      → SpanOk span
      → (result : List Token × StringInterner) × (encode_span api states build model_config
            get_service_name get_name get_resource unified_tags resource span before
          ≡ some result)
        × Sent build.printers before result read_span (expected span)
  unfolding dd_span
  encode_span-Sent span before h =
      let start = start_nanos build.unix_epoch span in
      let empty = intern build.get_index_of [] before in
      let first : Interned (regular_string []) before empty =
        unfold intern in intern_full-Interned build.get_index_of (regular_string []) before law in
      let found = find_span_type-TypeFound build law span.attributes before empty first in
      let kind = find_span_type build span.attributes empty.0 empty.1 in
      let fields =
        write_fields-Sends api states build law model_config get_service_name get_name get_resource
          unified_tags resource span start h.1 kind.1 in
      let written =
        write_fields api states build model_config get_service_name get_name get_resource
          unified_tags resource span start kind.1 in
      let last =
        number-Sent build.printers written.1 found.earlier found.value kind found.interned
          fields.more fields.grew in
      let whole =
        compose-Sent build.printers written (write_u32 kind.0 ∷ [], written.1) read_span
          (expected span)
          (λ dictionary t u.
            read_span-Reads dictionary t u
              (fields_of api states build model_config get_service_name get_name get_resource
                unified_tags resource span start)
              (type_text build span.attributes) (text build.printers found.value) found.is_text)
          fields last in
      (
        (written.0 ++ write_u32 kind.0 ∷ [], written.1),
        unfold encode_span ◌▸◌ write in rw (start_of-Started build.unix_epoch span h.0),
        record {
          more = found.more ++ whole.more;
          grew =
              whole.grew
              ∙ (ap (λ d. d ++ whole.more) found.grew ∙ append_assoc before found.more whole.more);
          reads = whole.reads;
        },
      )

  -- All spans of a trace, one after the other.
  encode_spans-Sent :
      (trace : List (SpanData SpanContext SpanId)) (before : StringInterner)
      → All SpanOk trace
      → (result : List Token × StringInterner) × (encode_spans api states build model_config
            get_service_name get_name get_resource unified_tags resource trace before
          ≡ some result)
        × Sent build.printers before result
            (λ dictionary. many (read_span dictionary) (length trace))
            (map expected trace)
  unfolding encode_spans many
  encode_spans-Sent [] before h = (
    ([], before),
    refl,
    record { more = []; grew = rw (append-nil before); reads = λ later small rest. refl },
  )
  encode_spans-Sent (span ∷ trace) before h =
      let (first, e, sent) = encode_span-Sent span before h.0 in
      let (rest, e', sent') = encode_spans-Sent trace first.1 h.1 in
      (
        (first.0 ++ rest.0, rest.1),
        rw e (rw e'),
        compose-Sent build.printers first rest
            (λ dictionary. many (read_span dictionary) (suc (length trace)))
            (expected span ∷ map expected trace)
            (λ dictionary t u.
              many_next (read_span dictionary) (length trace) t u (expected span)
                (map expected trace))
            sent sent',
      )

  abbrev pub TraceOk : List (SpanData SpanContext SpanId) → Type 0
  TraceOk trace = (length trace < 2 ^ 32) × All SpanOk trace

  encode_all-Sent :
      (traces : List (List (SpanData SpanContext SpanId))) (before : StringInterner)
      → All TraceOk traces
      → (result : List Token × StringInterner) × (encode_all api states build model_config
            get_service_name get_name get_resource unified_tags resource traces before
          ≡ some result)
        × Sent build.printers before result
            (λ dictionary. many (array (read_span dictionary)) (length traces))
            (map (map expected) traces)
  unfolding encode_all many
  encode_all-Sent [] before h = (
    ([], before),
    refl,
    record { more = []; grew = rw (append-nil before); reads = λ later small rest. refl },
  )
  encode_all-Sent (trace ∷ traces) before h =
      let (first, e, sent) = encode_spans-Sent trace before h.0.1 in
      let (rest, e', sent') = encode_all-Sent traces first.1 h.1 in
      let header = write_array_len (length trace % 2 ^ 32) in
      let framed : Sent build.printers before (header ∷ first.0, first.1)
          (λ dictionary. array (read_span dictionary)) (map expected trace) =
        record {
          more = sent.more;
          grew = sent.grew;
          reads = λ later small.
              array-Reads (read_span (dictionary_of build.printers (first.1 ++ later)))
                (length trace) first.0 (map expected trace) h.0.0 (sent.reads later small);
        } in
      (
        (header ∷ (first.0 ++ rest.0), rest.1),
        rw e (rw e'),
        compose-Sent build.printers (header ∷ first.0, first.1) rest
            (λ dictionary. many (array (read_span dictionary)) (suc (length traces)))
            (map expected trace ∷ map (map expected) traces)
            (λ dictionary t u.
              many_next (array (read_span dictionary)) (length traces) t u (map expected trace)
                (map (map expected) traces))
            framed sent',
      )

  -- The interner after all traces.
  unfoldable pub final_interner : List (List (SpanData SpanContext SpanId)) → StringInterner
  final_interner traces = interner_of (
      encode_traces api states build model_config get_service_name get_name get_resource
        unified_tags resource traces [])

  -- The payload of version 0.5 is written, and a reader that has only the payload gets every trace
  -- and span back, in order, with its service, name, resource, ids, times, error, meta data, metrics
  -- and type, texts in place of the numbers of the dictionary. The conditions are that indexmap
  -- finds an element where it is, that no span starts before the epoch, and that the numbers of
  -- traces, spans, entries and texts and the lengths of the texts fit 32 bits.
  pub v05-read-encode :
      (traces : List (List (SpanData SpanContext SpanId)))
      → length traces < 2 ^ 32
      → All TraceOk traces
      → length (final_interner traces) < 2 ^ 32
      → All (TextFits build.printers) (final_interner traces)
      → (encode api states build model_config get_service_name get_name get_resource unified_tags
            resource traces
          >>= read_payload)
        ≡ some (map (map expected) traces)
  unfolding final_interner interner_of encode read_payload write_dictionary
  v05-read-encode traces small ok fits texts =
      let (result, e, sent) = encode_all-Sent traces [] ok in
      let done : encode_traces api states build model_config get_service_name get_name get_resource
            unified_tags resource traces []
          ≡ some (write_array_len (length traces % 2 ^ 32) ∷ result.0, result.1) =
        unfold encode_traces in rw e in
      let last : final_interner traces ≡ result.1 = ap interner_of done in
      let size : length result.1 < 2 ^ 32 = rw last at fits in
      let all_fit : All (TextFits build.printers) result.1 = rw last at texts in
      let dictionary = dictionary_of build.printers result.1 in
      let spans : Reads (many (array (read_span dictionary)) (length traces)) result.0
          (map (map expected) traces) =
        rw (append-nil result.1) at (sent.reads [] (omega arith)) in
      let header = write_array_len (length traces % 2 ^ 32) in
      let body : array (array (read_span dictionary)) (header ∷ result.0)
          ≡ some (map (map expected) traces, []) =
        rw (append-nil result.0) at (
          array-Reads (array (read_span dictionary)) (length traces) result.0
            (map (map expected) traces) small spans []) in
      let strings =
        many-Reads read_str (TextFits build.printers) (write_as_str build.printers)
          (text build.printers) (write_as_str-text build.printers) result.1 all_fit in
      let names =
        array-Reads read_str (length result.1) (concat (write_as_str build.printers) result.1)
          dictionary size strings (header ∷ result.0) in
      rw done (rw (array_of_len-Reads 2) (rw names (rw body)))
