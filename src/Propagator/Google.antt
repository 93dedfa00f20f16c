-- ===== src/Propagator/Google.antt =====
-- The header X-Cloud-Trace-Context
-- (opentelemetry-stackdriver/src/google_trace_context_propagator.rs). Errors carry nothing, so a
-- result is an `Option`.
pub mod RoundTrip
use opentelemetry_rust_contr.Common.{
  ℕ, ◌^◌, [], ◌∷◌, ◌++◌, Bool, true, Option, none, some, ◌==◌, ◌>>=◌, ◌>>◌, guard, if◌then◌else◌,
}
use mathlib.Core.Option
use opentelemetry_rust_contr.Common.Text.{codes}
use opentelemetry_rust_contr.Common.Chars.{Chars, utf8_length, trim, split_once}
use opentelemetry_rust_contr.Common.Numerals.{from_str_radix, to_string}
use opentelemetry_rust_contr.Propagator.Api.{Api, Headers}

abbrev pub cloud_trace_context_header : Chars
cloud_trace_context_header = codes "X-Cloud-Trace-Context"

-- The span id and the flags, which are 1 if they are missing.
unfoldable pub split_flags : Chars → Chars × Chars
split_flags rest = elim (split_once (codes ";o=") rest) [
  | some parts ↦ parts
  | none ↦ (rest, codes "1")
]

module _ {TraceId SpanId TraceState SpanContext : Type 0}
    (api : Api TraceId SpanId TraceState SpanContext) where
  unfoldable pub extract_span_context : (Chars → Option Chars) → Option SpanContext
  extract_span_context extractor = do
    header_value ← extractor cloud_trace_context_header
    (trace_id, rest) ← split_once (codes "/") (trim header_value)
    guard (utf8_length trace_id == 32)
    let flagged = split_flags rest
    trace_id ← api.trace_id_from_hex trace_id
    span_id ← from_str_radix 10 (2 ^ 64) flagged.0
    trace_flags ← from_str_radix 10 (2 ^ 8) flagged.1
    let span_context =
        api.new trace_id (api.span_id_from_u64 span_id) trace_flags true api.default_trace_state
    guard (api.is_valid span_context)
    some span_context

  -- The headers that are set.
  unfoldable pub inject_context : SpanContext → Headers
  inject_context span_context =
      if api.is_valid span_context
      then (
        cloud_trace_context_header,
        api.trace_id_to_hex (api.trace_id span_context)
            ++ (codes "/"
                ++ (to_string (api.span_id_to_u64 (api.span_id span_context))
                    ++ (codes ";o=" ++ to_string (api.trace_flags span_context)))),
      )
        ∷ []
      else []
