-- ===== src/Propagator/Datadog/RoundTrip.antt =====
-- A span context that is injected, against what is extracted.
use opentelemetry_rust_contr.Common.{
  ℕ, ◌^◌, ◌%◌, [], ◌∷◌, ◌≡◌, refl, ◌∙◌, Bool, true, false, Option, none, some, inl, inr,
  if◌then◌else◌, Bool-cases, arith,
}
use mathlib.Core.Option
use opentelemetry_rust_contr.Common.Text.{str_eq}
use opentelemetry_rust_contr.Common.Numerals.{
  from_str_radix, parse_nonempty, parse_digits, to_digit, to_string, from_str_radix-to_string,
}
use opentelemetry_rust_contr.Propagator.Api.{
  Api, ApiLaws, TraceStates, get, is_sampled, is_deferred,
}
use opentelemetry_rust_contr.Propagator.Datadog.{
  datadog_trace_id_header, datadog_parent_id_header, datadog_sampling_priority_header,
  boolean_to_trace_state_flag, SamplingPriority, user_reject, auto_reject, auto_keep, user_keep,
  parse_i32, priority_of, extract_sampling_priority, priority_string, sampled_flags, build,
  builder_with_priority_sampling, create_trace_state_and_flags, extract_trace_id, extract_span_id,
  extract_span_context, priority_sampling_enabled, trace_state_measure,
  trace_state_priority_sampling, trace_flag_to_boolean, get_sampling_priority, inject_context,
}

-- Every priority is read back from its number.
extract-priority_string :
    (p : SamplingPriority) → extract_sampling_priority (priority_string p) ≡ some p
unfolding extract_sampling_priority priority_string parse_i32 priority_of from_str_radix
    parse_nonempty parse_digits to_digit
extract-priority_string user_reject = refl
extract-priority_string auto_reject = refl
extract-priority_string auto_keep = refl
extract-priority_string user_keep = refl

no_priority : extract_sampling_priority [] ≡ none
unfolding extract_sampling_priority parse_i32
no_priority = refl

module _ {TraceId SpanId TraceState SpanContext : Type 0}
    (api : Api TraceId SpanId TraceState SpanContext) (laws : ApiLaws api)
    (states : TraceStates TraceState) (agent_sampling : Bool) where
  -- The priority header of the injected headers, where there is one.
  pub priority_sent : SpanContext → Option SamplingPriority
  priority_sent c =
      if is_deferred (api.trace_flags c)
      then none
      else some (get_sampling_priority api states agent_sampling c)

  -- Where opentelemetry keeps its documented word, a valid context that is injected is extracted,
  -- remote, with the low 64 bits of its trace id, with its span id, and with the flags and the trace
  -- state of the sampling priority that it has: none if sampling is deferred.
  pub datadog-extract-inject :
      (c : SpanContext)
      → api.is_valid c ≡ true
      → extract_span_context api states agent_sampling
          (get (inject_context api states agent_sampling c))
        ≡ some (
            api.new
              (api.trace_id_from_u128 (api.trace_id_to_u128 (api.trace_id c) % 2 ^ 64))
              (api.span_id c)
              (create_trace_state_and_flags api states agent_sampling
                (sampled_flags (priority_sent c))).1
              true
              (create_trace_state_and_flags api states agent_sampling
                (sampled_flags (priority_sent c))).0)
  datadog-extract-inject c valid =
      let headers = inject_context api states agent_sampling c in
      let t = api.trace_id_to_u128 (api.trace_id c) % 2 ^ 64 in
      let s = api.span_id_to_u64 (api.span_id c) in
      let t_header : get headers datadog_trace_id_header ≡ some (to_string t) =
        unfold inject_context get str_eq in rw valid in
      let s_header : get headers datadog_parent_id_header ≡ some (to_string s) =
        unfold inject_context get str_eq in rw valid in
      let t_read : extract_trace_id api states agent_sampling (to_string t)
          ≡ some (api.trace_id_from_u128 t) =
        unfold extract_trace_id in
        rw (from_str_radix-to_string (2 ^ 64) t (omega arith) (omega arith)) in
      let s_read : extract_span_id api states agent_sampling (to_string s) ≡ some (api.span_id c) =
        unfold extract_span_id in
        rw
          (from_str_radix-to_string (2 ^ 64) s (laws.span_id_small (api.span_id c))
            (laws.span_id_small (api.span_id c)))
          (rw (laws.span_id_number (api.span_id c))) in
      let p_read : extract_sampling_priority
            (Option.get_or (get headers datadog_sampling_priority_header) [])
          ≡ priority_sent c =
        elim (Bool-cases (is_deferred (api.trace_flags c))) [
          | inl yes_deferred ↦
              unfold priority_sent inject_context get str_eq in rw (valid, yes_deferred) no_priority
          | inr sent ↦
              unfold priority_sent inject_context get str_eq in
              rw (valid, sent)
                (extract-priority_string (get_sampling_priority api states agent_sampling c))
        ] in
      unfold extract_span_context in rw (t_header, s_header, p_read) (rw (t_read, s_read))

-- What the documentation of opentelemetry says of a trace state with these two entries: it is built,
-- and each entry is found.
pub record TraceStateLaws {TraceState : Type 0} (states : TraceStates TraceState) : Type 0 where
  pub built : Bool → Bool → TraceState
  pub from_key_value_lem :
      (measure priority : Bool)
      → states.from_key_value (
          (trace_state_measure, boolean_to_trace_state_flag measure)
          ∷ (trace_state_priority_sampling, boolean_to_trace_state_flag priority)
          ∷ [])
        ≡ some (built measure priority)
  pub get_priority :
      (measure priority : Bool)
      → states.get (built measure priority) trace_state_priority_sampling
        ≡ some (boolean_to_trace_state_flag priority)

module _ {TraceId SpanId TraceState SpanContext : Type 0}
    (api : Api TraceId SpanId TraceState SpanContext) (laws : ApiLaws api)
    (states : TraceStates TraceState) where
  sampled_flags-sampled :
      (flags : ℕ)
      → sampled_flags (some (if is_sampled flags then auto_keep else auto_reject)) ≡ flags % 2
  unfolding sampled_flags is_sampled
  sampled_flags-sampled flags = ground arith

  -- Without the feature agent-sampling and where opentelemetry keeps its documented word: a valid
  -- context that is injected is extracted, remote and with the default trace state, with the low
  -- 64 bits of its trace id, with its span id, and with the flag of sampling, or that of deferred
  -- sampling alone if it is set.
  pub datadog-extract-inject_plain :
      (c : SpanContext)
      → api.is_valid c ≡ true
      → extract_span_context api states false (get (inject_context api states false c))
        ≡ some (
            api.new
              (api.trace_id_from_u128 (api.trace_id_to_u128 (api.trace_id c) % 2 ^ 64))
              (api.span_id c)
              (if is_deferred (api.trace_flags c) then 2 else api.trace_flags c % 2)
              true
              api.default_trace_state)
  datadog-extract-inject_plain c valid =
      let flags : sampled_flags (priority_sent api laws states false c)
          ≡ (if is_deferred (api.trace_flags c) then 2 else api.trace_flags c % 2) =
        elim (Bool-cases (is_deferred (api.trace_flags c))) [
          | inl deferred ↦ unfold priority_sent sampled_flags in rw deferred
          | inr sent ↦
              unfold priority_sent get_sampling_priority in
              rw sent (sampled_flags-sampled (api.trace_flags c))
        ] in
      datadog-extract-inject api laws states false c valid
      ∙ unfold create_trace_state_and_flags in rw flags

  flag-boolean : (b : Bool) → trace_flag_to_boolean (boolean_to_trace_state_flag b) ≡ b
  unfolding trace_flag_to_boolean boolean_to_trace_state_flag str_eq
  flag-boolean true = refl
  flag-boolean false = refl

  -- With the feature agent-sampling, where opentelemetry keeps its documented word on contexts and
  -- trace states and sampling is not deferred: a valid context that is injected is extracted as a
  -- context of the low 64 bits of its trace id and of its span id, with the flag of sampling set,
  -- and with a trace state in which sampling by priority is enabled exactly where it was.
  pub datadog-extract-inject_sampling :
      (state_laws : TraceStateLaws states) (c : SpanContext)
      → api.is_valid c ≡ true
      → is_deferred (api.trace_flags c) ≡ false
      → (state : TraceState) × (extract_span_context api states true
            (get (inject_context api states true c))
          ≡ some (
              api.new
                (api.trace_id_from_u128 (api.trace_id_to_u128 (api.trace_id c) % 2 ^ 64))
                (api.span_id c)
                1
                true
                state))
        × (priority_sampling_enabled api states true state
            ≡ priority_sampling_enabled api states true (api.trace_state c))
  datadog-extract-inject_sampling state_laws c valid sent =
      let enabled = priority_sampling_enabled api states true (api.trace_state c) in
      let created : create_trace_state_and_flags api states true
            (sampled_flags (priority_sent api laws states true c))
          ≡ (state_laws.built false enabled, 1) =
        unfold priority_sent get_sampling_priority in rw sent (created_lem state_laws enabled) in
      (
        state_laws.built false enabled,
        datadog-extract-inject api laws states true c valid ∙ rw created,
        unfold priority_sampling_enabled in
            rw (state_laws.get_priority false enabled, priority_sampling_enabled)
              (flag-boolean enabled),
      )
    where
      created_lem :
          (state_laws : TraceStateLaws states) (b : Bool)
          → create_trace_state_and_flags api states true
              (sampled_flags (some (if b then auto_keep else auto_reject)))
            ≡ (state_laws.built false b, 1)
      created_lem state_laws true =
          unfold create_trace_state_and_flags sampled_flags is_deferred is_sampled build
            builder_with_priority_sampling in
          rw (state_laws.from_key_value_lem false true)
      created_lem state_laws false =
          unfold create_trace_state_and_flags sampled_flags is_deferred is_sampled build
            builder_with_priority_sampling in
          rw (state_laws.from_key_value_lem false false)
