-- ===== src/Propagator/Response/RoundTrip.antt =====
-- A span context that is injected, against what is extracted.
use opentelemetry_rust_contr.Common.{
  ℕ, ◌%◌, ◌<◌, [], ◌∷◌, ◌++◌, ◌≡◌, refl, ◌∙◌, true, false, some, length, All, All-append, ltb,
  arith,
}
use opentelemetry_rust_contr.Common.Text.{codes, str_eq_refl}
use opentelemetry_rust_contr.Common.Chars.{
  Chars, trim-IsPlain, IsPlain, split_terminator, split_terminator-append, split_terminator_last,
  any, any-false, is_ascii_uppercase, All-map,
}
use opentelemetry_rust_contr.Common.Numerals.{
  hex_byte, from_str_radix-hex_byte, hex_byte-IsHex, IsHex, IsHex-IsPlain, IsHex-Without,
}
use opentelemetry_rust_contr.Propagator.Api.{Api, ApiLaws, get}
use opentelemetry_rust_contr.Propagator.Response.{
  traceresponse_header, extract_parts, extract_span_context, inject_context,
}

any-IsHex : (s : Chars) → All IsHex s → any is_ascii_uppercase s ≡ false
any-IsHex s h = any-false is_ascii_uppercase s (All-map lower s h)
  where
    lower : (c : ℕ) → IsHex c → is_ascii_uppercase c ≡ false
    lower c h = unfold is_ascii_uppercase in ground arith

-- Four parts with dashes between are split into them.
split_four :
    (p0 p1 p2 p3 : Chars)
    → All IsHex p0
    → All IsHex p1
    → All IsHex p2
    → All IsHex p3
    → 0 < length p3
    → split_terminator b'-' (p0 ++ b'-' ∷ (p1 ++ b'-' ∷ (p2 ++ b'-' ∷ p3))) ≡ p0 ∷ p1 ∷ p2 ∷ p3 ∷ []
split_four p0 p1 p2 p3 h0 h1 h2 h3 pos =
    let dash = λ (p : Chars) (h : All IsHex p). IsHex-Without b'-' p refl h in
    split_terminator-append b'-' p0 (p1 ++ b'-' ∷ (p2 ++ b'-' ∷ p3)) (dash p0 h0)
    ∙ rw (split_terminator-append b'-' p1 (p2 ++ b'-' ∷ p3) (dash p1 h1)) (
        rw (split_terminator-append b'-' p2 p3 (dash p2 h2))
          (rw (split_terminator_last b'-' p3 pos (dash p3 h3))))

module _ {TraceId SpanId TraceState SpanContext : Type 0}
    (api : Api TraceId SpanId TraceState SpanContext) (laws : ApiLaws api) where
  -- Where opentelemetry keeps its documented word, a valid context that is injected is extracted
  -- with its ids, remote, with the default trace state, and with no flag but that of sampling.
  pub response-extract-inject :
      (c : SpanContext)
      → api.is_valid c ≡ true
      → extract_span_context api (get (inject_context api c))
        ≡ some (
            api.new
              (api.trace_id c)
              (api.span_id c)
              (api.trace_flags c % 2)
              true
              api.default_trace_state)
  response-extract-inject c valid =
      let v = hex_byte 0 in
      let t = api.trace_id_to_hex (api.trace_id c) in
      let s = api.span_id_to_hex (api.span_id c) in
      let f = hex_byte (api.trace_flags c % 2) in
      let t_hex = laws.trace_id_hex (api.trace_id c) in
      let s_hex = laws.span_id_hex (api.span_id c) in
      let f_hex = hex_byte-IsHex (api.trace_flags c % 2) in
      let plain : All IsPlain (v ++ (codes "-" ++ (t ++ (codes "-" ++ (s ++ (codes "-" ++ f)))))) =
        All-append IsPlain v _ (IsHex-IsPlain v (hex_byte-IsHex 0)) (
          omega arith,
          All-append IsPlain t _ (IsHex-IsPlain t t_hex) (
            omega arith,
            All-append IsPlain s _ (IsHex-IsPlain s s_hex) (omega arith, IsHex-IsPlain f f_hex),
          ),
        ) in
      let parts =
        split_four v t s f (hex_byte-IsHex 0) t_hex s_hex f_hex (unfold hex_byte in omega arith) in
      let header : get (inject_context api c) traceresponse_header
          ≡ some (v ++ (codes "-" ++ (t ++ (codes "-" ++ (s ++ (codes "-" ++ f)))))) =
        unfold get inject_context in rw (valid, str_eq_refl traceresponse_header) in
      let version = from_str_radix-hex_byte 0 (omega arith) in
      let opts = from_str_radix-hex_byte (api.trace_flags c % 2) (omega arith) in
      let valid_too =
        laws.valid_ids c (api.trace_flags c % 2) true api.default_trace_state ∙ valid in
      let small : ltb 2 (api.trace_flags c % 2) ≡ false = ground arith in
      let bit : api.trace_flags c % 2 % 2 ≡ api.trace_flags c % 2 = omega arith in
      unfold extract_span_context in
      rw header (
        rw (trim-IsPlain _ plain) (
          rw parts (
            unfold extract_parts in
            rw (version, any-IsHex t t_hex, any-IsHex s s_hex, opts)
              (rw (laws.trace_id_read (api.trace_id c), laws.span_id_read (api.span_id c), small)
                (rw bit (rw valid_too))))))
