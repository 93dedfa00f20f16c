-- ===== src/Propagator/Response.antt =====
-- The header traceresponse (opentelemetry-contrib/src/trace/propagator/trace_context_response.rs).
-- Errors carry nothing, so a result is an `Option`.
pub mod RoundTrip
use opentelemetry_rust_contr.Common.{
  ℕ, ◌^◌, ◌%◌, List, [], ◌∷◌, ◌++◌, Bool, true, false, not, ◌&&◌, ◌||◌, Option, none, some, length,
  ltb, ◌==◌, ◌>>=◌, ◌>>◌, guard, if◌then◌else◌,
}
use mathlib.Core.Option
use opentelemetry_rust_contr.Common.Text.{codes}
use opentelemetry_rust_contr.Common.Chars.{Chars, trim, split_terminator, any, is_ascii_uppercase}
use opentelemetry_rust_contr.Common.Numerals.{from_str_radix, hex_byte}
use opentelemetry_rust_contr.Propagator.Api.{Api, Headers}

abbrev pub supported_version : ℕ
supported_version = 0

abbrev pub max_version : ℕ
max_version = 254

abbrev pub traceresponse_header : Chars
traceresponse_header = codes "traceresponse"

module _ {TraceId SpanId TraceState SpanContext : Type 0}
    (api : Api TraceId SpanId TraceState SpanContext) where
  -- What follows the split into parts, from the first check of their number on.
  unfoldable pub extract_parts : List Chars → Option SpanContext
  extract_parts (p0 ∷ p1 ∷ p2 ∷ p3 ∷ more) = do
    version ← from_str_radix 16 (2 ^ 8) p0
    guard (
        not
          (ltb max_version version || version == 0 && not (length (p0 ∷ p1 ∷ p2 ∷ p3 ∷ more) == 4)))
    guard (not (any is_ascii_uppercase p1))
    trace_id ← api.trace_id_from_hex p1
    guard (not (any is_ascii_uppercase p2))
    span_id ← api.span_id_from_hex p2
    opts ← from_str_radix 16 (2 ^ 8) p3
    guard (not (version == 0 && ltb 2 opts))
    let trace_flags = opts % 2
    let span_context = api.new trace_id span_id trace_flags true api.default_trace_state
    guard (api.is_valid span_context)
    some span_context
  extract_parts _ = none

  unfoldable pub extract_span_context : (Chars → Option Chars) → Option SpanContext
  extract_span_context extractor =
      extract_parts
        (split_terminator b'-' (trim (Option.get_or (extractor traceresponse_header) [])))

  -- The headers that are set.
  unfoldable pub inject_context : SpanContext → Headers
  inject_context span_context =
      if api.is_valid span_context
      then (
        traceresponse_header,
        hex_byte supported_version
            ++ (codes "-"
                ++ (api.trace_id_to_hex (api.trace_id span_context)
                    ++ (codes "-"
                        ++ (api.span_id_to_hex (api.span_id span_context)
                            ++ (codes "-" ++ hex_byte (api.trace_flags span_context % 2)))))),
      )
        ∷ []
      else []
