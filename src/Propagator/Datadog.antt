-- ===== src/Propagator/Datadog.antt =====
-- The headers of Datadog and its entries in the trace state (opentelemetry-datadog/src/lib.rs, module
-- `propagator`). `agent_sampling` says whether the crate is built with the feature agent-sampling.
pub mod RoundTrip
use opentelemetry_rust_contr.Common.{
  ℕ, ◌^◌, ◌%◌, ◌+◌, List, [], ◌∷◌, ◌++◌, Bool, true, false, not, Option, none, some, ◌==◌, ◌>>=◌,
  if◌then◌else◌,
}
use mathlib.Core.Option
use opentelemetry_rust_contr.Common.Text.{codes, str_eq}
use opentelemetry_rust_contr.Common.Chars.{Chars}
use opentelemetry_rust_contr.Common.Numerals.{
  from_str_radix, parse_digits, parse_nonempty, to_string,
}
use opentelemetry_rust_contr.Propagator.Api.{Api, TraceStates, Headers, is_sampled, is_deferred}

abbrev pub datadog_trace_id_header : Chars
datadog_trace_id_header = codes "x-datadog-trace-id"

abbrev pub datadog_parent_id_header : Chars
datadog_parent_id_header = codes "x-datadog-parent-id"

abbrev pub datadog_sampling_priority_header : Chars
datadog_sampling_priority_header = codes "x-datadog-sampling-priority"

abbrev pub trace_flag_deferred : ℕ
trace_flag_deferred = 2

abbrev pub trace_state_priority_sampling : Chars
trace_state_priority_sampling = codes "psr"

abbrev pub trace_state_measure : Chars
trace_state_measure = codes "m"

abbrev pub trace_state_true_value : Chars
trace_state_true_value = codes "1"

abbrev pub trace_state_false_value : Chars
trace_state_false_value = codes "0"

unfoldable pub boolean_to_trace_state_flag : Bool → Chars
boolean_to_trace_state_flag value =
    if value then trace_state_true_value else trace_state_false_value

unfoldable pub trace_flag_to_boolean : Chars → Bool
trace_flag_to_boolean value = str_eq value trace_state_true_value

pub record DatadogTraceStateBuilder : Type 0 where
  pub priority_sampling : Bool
  pub measuring : Bool

abbrev pub default_builder : DatadogTraceStateBuilder
default_builder = record { priority_sampling = false; measuring = false }

unfoldable pub builder_with_priority_sampling :
    DatadogTraceStateBuilder → Bool → DatadogTraceStateBuilder
builder_with_priority_sampling self enabled = record self { priority_sampling = enabled }

unfoldable pub builder_with_measuring : DatadogTraceStateBuilder → Bool → DatadogTraceStateBuilder
builder_with_measuring self enabled = record self { measuring = enabled }

pub data SamplingPriority : Type 0 where
  user_reject auto_reject auto_keep user_keep : SamplingPriority

-- An `i32` as its sign and its size: `true` for a text with a minus.
unfoldable pub parse_i32 : Chars → Option (Bool × ℕ)
parse_i32 [] = none
parse_i32 (c ∷ s) =
    if c == b'-'
    then (do n ← parse_nonempty 10 (2 ^ 31 + 1) s; some (true, n))
    else (do n ← from_str_radix 10 (2 ^ 31) (c ∷ s); some (false, n))

unfoldable pub priority_of : Bool → ℕ → Option SamplingPriority
priority_of negative n =
    if n == 0
    then some SamplingPriority.auto_reject
    else if n == 1
    then some (if negative then SamplingPriority.user_reject else SamplingPriority.auto_keep)
    else if n == 2
    then (if negative then none else some SamplingPriority.user_keep)
    else none

unfoldable pub extract_sampling_priority : Chars → Option SamplingPriority
extract_sampling_priority sampling_priority = do
  i ← parse_i32 sampling_priority
  priority_of i.0 i.1

-- `(sampling_priority as i32).to_string()`.
unfoldable pub priority_string : SamplingPriority → Chars
priority_string user_reject = codes "-1"
priority_string auto_reject = codes "0"
priority_string auto_keep = codes "1"
priority_string user_keep = codes "2"

unfoldable pub sampled_flags : Option SamplingPriority → ℕ
sampled_flags none = trace_flag_deferred
sampled_flags (some user_reject) = 0
sampled_flags (some auto_reject) = 0
sampled_flags (some auto_keep) = 1
sampled_flags (some user_keep) = 1

module _ {TraceId SpanId TraceState SpanContext : Type 0}
    (api : Api TraceId SpanId TraceState SpanContext) (states : TraceStates TraceState)
    (agent_sampling : Bool) where
  unfoldable pub build : DatadogTraceStateBuilder → TraceState
  build self =
      let values =
        if agent_sampling
        then (trace_state_measure, boolean_to_trace_state_flag self.measuring)
          ∷ (trace_state_priority_sampling, boolean_to_trace_state_flag self.priority_sampling)
          ∷ []
        else (trace_state_measure, boolean_to_trace_state_flag self.measuring) ∷ [] in
      Option.get_or (states.from_key_value values) api.default_trace_state

  unfoldable pub with_measuring : TraceState → Bool → TraceState
  with_measuring self enabled =
      Option.get_or (states.insert self trace_state_measure (boolean_to_trace_state_flag enabled))
        self

  unfoldable pub measuring_enabled : TraceState → Bool
  measuring_enabled self = elim (states.get self trace_state_measure) [
    | none ↦ false
    | some value ↦ trace_flag_to_boolean value
  ]

  unfoldable pub with_priority_sampling : TraceState → Bool → TraceState
  with_priority_sampling self enabled =
      Option.get_or
        (states.insert self trace_state_priority_sampling (boolean_to_trace_state_flag enabled))
        self

  unfoldable pub priority_sampling_enabled : TraceState → Bool
  priority_sampling_enabled self = elim (states.get self trace_state_priority_sampling) [
    | none ↦ false
    | some value ↦ trace_flag_to_boolean value
  ]

  unfoldable pub create_trace_state_and_flags : ℕ → TraceState × ℕ
  create_trace_state_and_flags trace_flags =
      if agent_sampling
      then (if is_deferred trace_flags
          then (api.default_trace_state, trace_flags)
          else (build (builder_with_priority_sampling default_builder (is_sampled trace_flags)), 1))
      else (api.default_trace_state, trace_flags)

  unfoldable pub extract_trace_id : Chars → Option TraceId
  extract_trace_id trace_id =
      Option.map api.trace_id_from_u128 (from_str_radix 10 (2 ^ 64) trace_id)

  unfoldable pub extract_span_id : Chars → Option SpanId
  extract_span_id span_id = Option.map api.span_id_from_u64 (from_str_radix 10 (2 ^ 64) span_id)

  unfoldable pub extract_span_context : (Chars → Option Chars) → Option SpanContext
  extract_span_context extractor = do
    trace_id ← extract_trace_id (Option.get_or (extractor datadog_trace_id_header) [])
    let span_id =
        Option.get_or (extract_span_id (Option.get_or (extractor datadog_parent_id_header) []))
          api.invalid_span_id
    let sampling_priority =
        extract_sampling_priority (Option.get_or (extractor datadog_sampling_priority_header) [])
    let created = create_trace_state_and_flags (sampled_flags sampling_priority)
    some (api.new trace_id span_id created.1 true created.0)

  unfoldable pub get_sampling_priority : SpanContext → SamplingPriority
  get_sampling_priority span_context =
      let keep =
        if agent_sampling
        then priority_sampling_enabled (api.trace_state span_context)
        else is_sampled (api.trace_flags span_context) in
      if keep then SamplingPriority.auto_keep else SamplingPriority.auto_reject

  -- The headers that are set.
  unfoldable pub inject_context : SpanContext → Headers
  inject_context span_context =
      if api.is_valid span_context
      then (
        datadog_trace_id_header,
        to_string (api.trace_id_to_u128 (api.trace_id span_context) % 2 ^ 64),
      )
        ∷ (datadog_parent_id_header, to_string (api.span_id_to_u64 (api.span_id span_context)))
        ∷ (if is_deferred (api.trace_flags span_context)
            then []
            else (
              datadog_sampling_priority_header,
              priority_string (get_sampling_priority span_context),
            )
              ∷ [])
      else []
