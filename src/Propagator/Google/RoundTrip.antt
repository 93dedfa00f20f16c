-- ===== src/Propagator/Google/RoundTrip.antt =====
-- A span context that is injected, against what is extracted.
use opentelemetry_rust_contr.Common.{
  ◌^◌, [], ◌++◌, ◌≡◌, refl, ◌∙◌, true, some, All, All-append, arith,
}
use opentelemetry_rust_contr.Common.Text.{codes, str_eq_refl}
use opentelemetry_rust_contr.Common.Chars.{
  utf8_length, utf8_length-IsPlain, trim-IsPlain, IsPlain, split_once-append,
}
use opentelemetry_rust_contr.Common.Numerals.{
  to_string, from_str_radix-to_string, to_string-IsDecimal, IsDecimal-IsHex, IsHex-IsPlain,
  IsHex-Without,
}
use opentelemetry_rust_contr.Propagator.Api.{Api, ApiLaws, get}
use opentelemetry_rust_contr.Propagator.Google.{
  cloud_trace_context_header, split_flags, extract_span_context, inject_context,
}

module _ {TraceId SpanId TraceState SpanContext : Type 0}
    (api : Api TraceId SpanId TraceState SpanContext) (laws : ApiLaws api) where
  -- A valid context that is injected is extracted with its ids and flags, remote and with the
  -- default trace state, where opentelemetry keeps its documented word.
  pub google-extract-inject :
      (c : SpanContext)
      → api.is_valid c ≡ true
      → extract_span_context api (get (inject_context api c))
        ≡ some (
            api.new
              (api.trace_id c)
              (api.span_id c)
              (api.trace_flags c)
              true
              api.default_trace_state)
  google-extract-inject c valid =
      let t = api.trace_id_to_hex (api.trace_id c) in
      let s = to_string (api.span_id_to_u64 (api.span_id c)) in
      let f = to_string (api.trace_flags c) in
      let t_hex = laws.trace_id_hex (api.trace_id c) in
      let s_hex = IsDecimal-IsHex s (to_string-IsDecimal (api.span_id_to_u64 (api.span_id c))) in
      let f_hex = IsDecimal-IsHex f (to_string-IsDecimal (api.trace_flags c)) in
      let plain : All IsPlain (t ++ (codes "/" ++ (s ++ (codes ";o=" ++ f)))) =
        All-append IsPlain t _ (IsHex-IsPlain t t_hex) (
          omega arith,
          All-append IsPlain s _ (IsHex-IsPlain s s_hex)
              (omega arith, (omega arith, (omega arith, IsHex-IsPlain f f_hex))),
        ) in
      let slash =
        split_once-append b'/' [] t (s ++ (codes ";o=" ++ f)) (IsHex-Without b'/' t refl t_hex) in
      let flags : split_flags (s ++ (codes ";o=" ++ f)) ≡ (s, f) =
        let found = split_once-append b';' (codes "o=") s f (IsHex-Without b';' s refl s_hex) in
        unfold split_flags in rw (found, split_flags) in
      let size : utf8_length t ≡ 32 =
        utf8_length-IsPlain t (IsHex-IsPlain t t_hex) ∙ laws.trace_id_length (api.trace_id c) in
      let span =
        from_str_radix-to_string (2 ^ 64) (api.span_id_to_u64 (api.span_id c))
          (laws.span_id_small (api.span_id c)) (laws.span_id_small (api.span_id c)) in
      let opts =
        from_str_radix-to_string (2 ^ 8) (api.trace_flags c) (laws.flags_small c)
          (omega (arith, laws.flags_small c)) in
      let valid_too = laws.valid_ids c (api.trace_flags c) true api.default_trace_state ∙ valid in
      let header : get (inject_context api c) cloud_trace_context_header
          ≡ some (t ++ (codes "/" ++ (s ++ (codes ";o=" ++ f)))) =
        unfold get inject_context in rw (valid, str_eq_refl cloud_trace_context_header) in
      unfold extract_span_context in
      rw (header, trim-IsPlain _ plain)
        (rw slash (
          rw (flags, size, laws.trace_id_read (api.trace_id c))
            (rw (span, opts, laws.span_id_number (api.span_id c)) (rw valid_too))))
