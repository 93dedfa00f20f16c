-- ===== src/Datadog/Tests.antt =====
-- Batches of spans at concrete values.
pub mod IndexSet
use opentelemetry_rust_contr.Common.{
  ℕ, ◌^◌, ◌<◌, ◌==◌, ==_iff, List, [], ◌∷◌, map, ◌≡◌, true, Option, none, some, length, arith,
}
use mathlib.Core.List.Perm
use opentelemetry_rust_contr.Common.Text.{Str, codes, str_eq}
use opentelemetry_rust_contr.Common.Chars.{join}
use opentelemetry_rust_contr.Common.Numerals.{to_string, print_digits}
use opentelemetry_rust_contr.Propagator.Tests.Ids.{HexId, make}
use opentelemetry_rust_contr.Propagator.Tests.Headers.{Remote, hex_api, entry_states, sent}
use opentelemetry_rust_contr.Datadog.Tokens.{Reads, read_str}
use opentelemetry_rust_contr.Datadog.Value.{
  Value, string, i64, bool, array, strings, regular_string, opentelemetry_value, write_as_str,
}
use opentelemetry_rust_contr.Datadog.Value.Written.{
  text, value_text, array_text, bracketed, quoted, write_as_str-text,
}
use opentelemetry_rust_contr.Datadog.Interner.{intern, intern_value, intern_full}
use opentelemetry_rust_contr.Datadog.Tests.IndexSet.{
  get_index_of, get_index_of_lem, intern_eq, value_eq, array_eq, list_eq, bool_eq,
}
use opentelemetry_rust_contr.Datadog.Interner.Resolve.{IndexLaw, Interned, intern_full-Interned}
use opentelemetry_rust_contr.Datadog.Tags.{
  UnifiedTags, service_tag, env_tag, version_tag, get_tag_name, compute_attribute_size, tag_len,
}
use opentelemetry_rust_contr.Datadog.Model.{
  default_service_name_mapping, default_name_mapping, default_resource_mapping, mapped, start_of,
  duration_since, KeyValue, SpanData, error, ModelConfig, Mapping,
}
use opentelemetry_rust_contr.Datadog.Group.{group_into_traces, group_sorted, turns, turn, slice}
use opentelemetry_rust_contr.Datadog.Group.Sorted.{TracesOf, group_into_traces-TracesOf}
use opentelemetry_rust_contr.Datadog.V03.RoundTrip as Old
use opentelemetry_rust_contr.Datadog.V03.{resource_size}
use opentelemetry_rust_contr.Datadog.V05.RoundTrip as NewRoundTrip
use opentelemetry_rust_contr.Datadog.V05.{
  Build, encode_traces, encode_all, encode_spans, encode_span, find_span_type, write_fields,
  write_meta, meta_len, write_git, write_resource, write_entries, write_unified_tags,
  write_unified_tag, write_interned, write_metrics, get_sampling_priority, get_measuring, ◌▸◌,
  write, nothing, resource_len, git_meta_tags_count,
}
use opentelemetry_rust_contr.Datadog.V05.Reader as NewReader
use opentelemetry_rust_contr.Datadog.Payload.{version03, version05, build_request}
use opentelemetry_rust_contr.Datadog.Payload.Request.{
  received, OldFits, NewFits, build_request-v03, build_request-v05,
}

abbrev build : Build
build = record {
  agent_sampling = true;
  repository_url = some (codes "https://example.com/shop");
  commit_sha = some (codes "0f1e2d");
  get_index_of = get_index_of ◌==◌;
  printers = record { itoa = to_string; ryu = to_string };
  unix_epoch = 1000;
}

build-IndexLaw : IndexLaw build.get_index_of
build-IndexLaw = get_index_of_lem ◌==◌ (λ x y. (==_iff x y).0)

abbrev span_a : SpanData Remote (HexId 16)
span_a = record {
  span_context = sent;
  parent_span_id = make 16 7;
  span_name = codes "GET /cart";
  scope_name = codes "shop";
  start_time = 5000;
  end_time = 9000;
  attributes =
      record { key = codes "span.type"; value = string (codes "web") }
      ∷ record { key = codes "items"; value = i64 3 }
      ∷ [];
  status = error (codes "timeout");
}

abbrev span_b : SpanData Remote (HexId 16)
span_b = record span_a { span_context = record sent { trace = make 32 5 }; attributes = [] }

abbrev batch : List (SpanData Remote (HexId 16))
batch = span_a ∷ span_b ∷ span_a ∷ []

-- It sorts the batch.
abbrev swap_first : List (SpanData Remote (HexId 16)) → List (SpanData Remote (HexId 16))
swap_first (a ∷ b ∷ c ∷ spans) = b ∷ a ∷ c ∷ spans
swap_first spans = spans

abbrev number_of : SpanData Remote (HexId 16) → ℕ
number_of span = hex_api.trace_id_to_u128 (hex_api.trace_id span.span_context)

group_into_traces-TracesOf_example :
    TracesOf number_of batch (group_into_traces number_of swap_first batch)
unfolding make
group_into_traces-TracesOf_example =
    group_into_traces-TracesOf number_of swap_first batch (Perm.swap span_a span_b (span_a ∷ []))
      ((omega arith, (omega arith, tt)), ((omega arith, tt), (tt, tt)))

small :
    length
      (text build.printers (opentelemetry_value (array (strings (codes "a" ∷ codes "b" ∷ [])))))
    < 2 ^ 32
unfolding text value_text array_text bracketed quoted join
small = omega arith

write_as_str-text_example :
    Reads read_str
      (write_as_str build.printers
        (opentelemetry_value (array (strings (codes "a" ∷ codes "b" ∷ [])))))
      (text build.printers (opentelemetry_value (array (strings (codes "a" ∷ codes "b" ∷ [])))))
write_as_str-text_example =
    write_as_str-text build.printers
      (opentelemetry_value (array (strings (codes "a" ∷ codes "b" ∷ [])))) small

intern_full-Interned_example :
    Interned (opentelemetry_value (i64 3)) (regular_string [] ∷ opentelemetry_value (i64 3) ∷ []) (
      intern_full build.get_index_of
        (opentelemetry_value (i64 3))
        (regular_string [] ∷ opentelemetry_value (i64 3) ∷ []))
intern_full-Interned_example =
    intern_full-Interned build.get_index_of (opentelemetry_value (i64 3))
      (regular_string [] ∷ opentelemetry_value (i64 3) ∷ []) build-IndexLaw

abbrev resource : Option (List KeyValue)
resource = some (record { key = codes "host"; value = bool true } ∷ [])

abbrev tags : UnifiedTags
tags = record {
  service = record { value = some (codes "cart"); kind = service_tag };
  env = record { value = none; kind = env_tag };
  version = record { value = some (codes "1.2"); kind = version_tag };
}

abbrev config : ModelConfig
config = record { service_name = codes "cart" }

abbrev mapping : Mapping Remote (HexId 16)
mapping = record { resource = none; name = none; service_name = none }

abbrev as_str : Value → Str
as_str v = codes "value"

batch-OldFits :
    OldFits hex_api entry_states build as_str config mapping tags resource swap_first batch
unfolding group_into_traces group_sorted turns turn slice resource_size make
batch-OldFits = record { old_few = omega arith; old_ok = ground arith }

batch-NewFits :
    NewFits hex_api entry_states build as_str config mapping tags resource swap_first build-IndexLaw
      batch
unfolding group_into_traces group_sorted turns turn slice make encode_traces encode_all encode_spans
    encode_span find_span_type write_fields write_meta meta_len write_git write_resource
    write_entries write_unified_tags write_unified_tag write_interned write_metrics
    get_sampling_priority get_measuring ◌▸◌ write nothing resource_len git_meta_tags_count
    NewRoundTrip.final_interner NewRoundTrip.interner_of intern intern_value intern_full
    get_index_of intern_eq value_eq array_eq list_eq bool_eq get_tag_name compute_attribute_size
    tag_len start_of duration_since mapped default_service_name_mapping default_name_mapping
    default_resource_mapping text value_text str_eq to_string print_digits
batch-NewFits = record {
  few = omega arith;
  ok = ground arith;
  names = omega arith;
  texts = ground arith;
}

build_request-v03_example :
    received Old.read_payload (
      build_request hex_api entry_states build as_str version03 config mapping tags resource
        swap_first batch)
    ≡ some (
      2,
      map
          (map (
            Old.dd_span hex_api as_str 1000 config
              (mapped none default_service_name_mapping)
              (mapped none default_name_mapping)
              (mapped none default_resource_mapping)
              resource))
          ((span_b ∷ []) ∷ (span_a ∷ span_a ∷ []) ∷ []),
    )
unfolding group_into_traces group_sorted turns turn slice make
build_request-v03_example =
    build_request-v03 hex_api entry_states build as_str config mapping tags resource swap_first
      batch batch-OldFits

build_request-v05_example :
    received NewReader.read_payload (
      build_request hex_api entry_states build as_str version05 config mapping tags resource
        swap_first batch)
    ≡ some (
      2,
      map
          (map (
            NewReader.dd_span hex_api entry_states build config
              (mapped none default_service_name_mapping)
              (mapped none default_name_mapping)
              (mapped none default_resource_mapping)
              tags
              resource))
          ((span_b ∷ []) ∷ (span_a ∷ span_a ∷ []) ∷ []),
    )
unfolding group_into_traces group_sorted turns turn slice make
build_request-v05_example =
    build_request-v05 hex_api entry_states build as_str config mapping tags resource swap_first
      build-IndexLaw batch batch-NewFits
