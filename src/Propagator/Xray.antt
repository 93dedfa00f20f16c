-- ===== src/Propagator/Xray.antt =====
-- The header x-amzn-trace-id of AWS X-Ray (opentelemetry-aws/src/trace/xray_propagator.rs) and the
-- generator of ids that fit it (opentelemetry-aws/src/trace/id_generator.rs).
pub mod RoundTrip
pub mod Header
use opentelemetry_rust_contr.Common.{
  ℕ, ◌^◌, ◌%◌, ◌+◌, List, [], ◌∷◌, ◌++◌, map, Bool, true, false, not, Option, none, some, length,
  take, drop, ◌==◌, ◌>>=◌, ◌>>◌, guard, if◌then◌else◌,
}
use mathlib.Core.Option
use opentelemetry_rust_contr.Common.Text.{codes, str_eq}
use opentelemetry_rust_contr.Common.Chars.{
  Chars, trim, split_once, split_terminator, join, to_lowercase_ascii, to_uppercase_ascii,
}
use opentelemetry_rust_contr.Propagator.Api.{Api, TraceStates, Headers, is_sampled, is_deferred}

abbrev pub aws_xray_trace_header : Chars
aws_xray_trace_header = codes "x-amzn-trace-id"

abbrev pub aws_xray_version_key : Chars
aws_xray_version_key = codes "1"

abbrev pub header_parent_key : Chars
header_parent_key = codes "Parent"

abbrev pub header_root_key : Chars
header_root_key = codes "Root"

abbrev pub header_sampled_key : Chars
header_sampled_key = codes "Sampled"

abbrev pub sampled_text : Chars
sampled_text = codes "1"

abbrev pub not_sampled_text : Chars
not_sampled_text = codes "0"

abbrev pub requested_sample_decision : Chars
requested_sample_decision = codes "?"

abbrev pub trace_flag_deferred : ℕ
trace_flag_deferred = 2

-- `trim_start_matches` of a character.
unfoldable pub trim_start_matches : ℕ → Chars → Chars
trim_start_matches c [] = []
trim_start_matches c (d ∷ s) = if d == c then trim_start_matches c s else d ∷ s

unfoldable pub from_key_value_pair : Chars → Option (Chars × Chars)
from_key_value_pair pair = do
  (key, value) ← split_once (codes "=") pair
  some (key, trim_start_matches b'=' value)

unfoldable pub title_case : Chars → Chars
title_case [] = []
title_case (first ∷ characters) = to_uppercase_ascii first ∷ characters

unfoldable pub filter_map_pairs : List Chars → List (Chars × Chars)
filter_map_pairs [] = []
filter_map_pairs (part ∷ parts) =
    let rest = filter_map_pairs parts in
    elim (from_key_value_pair part) [ none ↦ rest | some pair ↦ pair ∷ rest ]

unfoldable pub decision_of : Chars → ℕ
decision_of value =
    if str_eq value not_sampled_text
    then 0
    else if str_eq value sampled_text
    then 1
    else if str_eq value requested_sample_decision
    then trace_flag_deferred
    else trace_flag_deferred

unfoldable pub decision_text : ℕ → Chars
decision_text flags =
    if is_deferred flags
    then requested_sample_decision
    else if is_sampled flags
    then sampled_text
    else not_sampled_text

-- The variables of the loop over the parts.
pub record Parsed (TraceId SpanId : Type 0) : Type 0 where
  pub trace_id : TraceId
  pub parent_segment_id : SpanId
  pub sampling_decision : ℕ
  pub kv_vec : List (Chars × Chars)

module _ {TraceId SpanId TraceState SpanContext : Type 0}
    (api : Api TraceId SpanId TraceState SpanContext) (states : TraceStates TraceState) where
  -- `TryFrom<XrayTraceId>` of `TraceId`, from the parts between the dashes.
  unfoldable pub trace_id_of_parts : List Chars → Option TraceId
  trace_id_of_parts (p0 ∷ p1 ∷ p2 ∷ []) = do
    trace_id ← api.trace_id_from_hex (p1 ++ p2)
    if api.is_invalid_trace_id trace_id then none else some trace_id
  trace_id_of_parts _ = none

  unfoldable pub try_from_xray : Chars → Option TraceId
  try_from_xray id = trace_id_of_parts (split_terminator b'-' id)

  -- `From<TraceId>` of `XrayTraceId`.
  unfoldable pub xray_from : TraceId → Chars
  xray_from trace_id =
      let trace_id_as_hex = api.trace_id_to_hex trace_id in
      aws_xray_version_key
      ++ (codes "-" ++ (take 8 trace_id_as_hex ++ (codes "-" ++ drop 8 trace_id_as_hex)))

  -- One turn of the loop over the parts.
  unfoldable pub parse_part : Parsed TraceId SpanId → Chars → Chars → Option (Parsed TraceId SpanId)
  parse_part st key value =
      if str_eq key header_root_key
      then (do parsed ← try_from_xray value; some (record st { trace_id = parsed }))
      else if str_eq key header_parent_key
      then some (record st {
        parent_segment_id = Option.get_or (api.span_id_from_hex value) api.invalid_span_id;
      })
      else if str_eq key header_sampled_key
      then some (record st { sampling_decision = decision_of value })
      else some (record st { kv_vec = st.kv_vec ++ (map to_lowercase_ascii key, value) ∷ [] })

  unfoldable pub parse_parts :
      Parsed TraceId SpanId → List (Chars × Chars) → Option (Parsed TraceId SpanId)
  parse_parts st [] = some st
  parse_parts st ((key, value) ∷ parts) = do st ← parse_part st key value; parse_parts st parts

  unfoldable pub context_of : Parsed TraceId SpanId → Option SpanContext
  context_of st = do
    trace_state ← states.from_key_value st.kv_vec
    if api.is_invalid_trace_id st.trace_id
        then none
        else some (api.new st.trace_id st.parent_segment_id st.sampling_decision true trace_state)

  unfoldable pub span_context_from_str : Chars → Option SpanContext
  span_context_from_str value = do
    let parts = filter_map_pairs (split_terminator b';' value)
    let start : Parsed TraceId SpanId = record {
      trace_id = api.invalid_trace_id;
      parent_segment_id = api.invalid_span_id;
      sampling_decision = trace_flag_deferred;
      kv_vec = [];
    }
    st ← parse_parts start parts
    context_of st

  unfoldable pub state_header : TraceState → Chars
  state_header state = join (codes ";") (
      map title_case
        (split_terminator b';' (states.header_delimited state (codes "=") (codes ";"))))

  unfoldable pub span_context_to_string : SpanContext → Option Chars
  span_context_to_string span_context =
      if api.is_valid span_context
      then (let trace_state_header = state_header (api.trace_state span_context) in
          let trace_state_prefix = if length trace_state_header == 0 then [] else codes ";" in
          some (
            header_root_key
            ++ (codes "="
                ++ (xray_from (api.trace_id span_context)
                    ++ (codes ";"
                        ++ (header_parent_key
                            ++ (codes "="
                                ++ (api.span_id_to_hex (api.span_id span_context)
                                    ++ (codes ";"
                                        ++ (header_sampled_key
                                            ++ (codes "="
                                                ++ (decision_text (api.trace_flags span_context)
                                                    ++ (trace_state_prefix
                                                        ++ trace_state_header)))))))))))))
      else none

  unfoldable pub extract_span_context : (Chars → Option Chars) → Option SpanContext
  extract_span_context extractor = do
    value ← extractor aws_xray_trace_header
    span_context_from_str (trim value)

  -- The headers that are set.
  unfoldable pub inject_context : SpanContext → Headers
  inject_context span_context = elim (span_context_to_string span_context) [
    | none ↦ []
    | some header_value ↦ (aws_xray_trace_header, header_value) ∷ []
  ]

  -- The generator of ids: `now` is `as_secs` of the time, printed by `{:08x}`, and `generated` the id of
  -- the SDK's own generator, printed by `{:024x}`, of which 24 characters are kept.
  unfoldable pub new_trace_id : TraceId → (ℕ → Chars) → ℕ → TraceId
  new_trace_id generated print_hex_8 now =
      Option.get_or
        (api.trace_id_from_hex (print_hex_8 now ++ take 24 (api.trace_id_to_hex generated)))
        api.invalid_trace_id
