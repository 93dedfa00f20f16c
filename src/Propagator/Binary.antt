-- ===== src/Propagator/Binary.antt =====
-- The binary format of a span context and its base64 form
-- (opentelemetry-contrib/src/trace/propagator/binary).
pub mod RoundTrip
use opentelemetry_rust_contr.Common.{
  ℕ, zero, suc, ◌+◌, [], ◌∷◌, ◌++◌, Bool, true, false, ◌&&◌, Option, none, some, length, take, drop,
  get_elem?, replicate, leb, ◌==◌, if◌then◌else◌,
}
use mathlib.Core.Option
use opentelemetry_rust_contr.Common.Bytes.{Bytes}

-- What the propagator takes from the crate opentelemetry: span contexts, with ids as `to_bytes` gives
-- and `from_bytes` takes them, the flags as a byte, and no trace state in `new`.
pub record SpanContexts (SpanContext : Type 0) : Type 0 where
  pub trace_id : SpanContext → Bytes
  pub span_id : SpanContext → Bytes
  pub trace_flags : SpanContext → ℕ
  pub is_valid : SpanContext → Bool
  pub new : Bytes → Bytes → ℕ → Bool → SpanContext
  pub empty_context : SpanContext

-- `res[k..k + s.len()].copy_from_slice(s)`.
unfoldable pub copy_at : ℕ → Bytes → Bytes → Bytes
copy_at k s res = take k res ++ (s ++ drop (k + length s) res)

unfoldable pub starts : ℕ → Bytes → Bool
starts field_number [] = false
starts field_number (b ∷ s) = b == field_number

-- A field of `n` bytes behind its number, with what follows it, if it is there.
unfoldable pub read_field : ℕ → ℕ → Bytes → Option (Bytes × Bytes)
read_field field_number n b =
    if leb (n + 1) (length b) && starts field_number b
    then some (take n (drop 1 b), drop (n + 1) b)
    else none

-- The span id, zeros without the field, and what follows.
unfoldable pub read_span_id : Bytes → Bytes × Bytes
read_span_id b = elim (read_field 1 8 b) [ none ↦ (replicate 8 0, b) | some field ↦ field ]

unfoldable pub read_trace_flags : Bytes → ℕ
read_trace_flags b = elim (read_field 2 1 b) [
  | none ↦ 0
  | some field ↦ Option.get_or (get_elem? field.0 0) 0
]

module _ {SpanContext : Type 0} (api : SpanContexts SpanContext) where
  unfoldable pub serialize_into_bytes : SpanContext → Bytes
  serialize_into_bytes context =
      let res = replicate 29 0 in
      if api.is_valid context
      then copy_at 28 (api.trace_flags context ∷ []) (
          copy_at 27 (2 ∷ []) (
            copy_at 19 (api.span_id context)
              (copy_at 18 (1 ∷ []) (copy_at 2 (api.trace_id context) res))))
      else res

  -- The context of the parts, unless it is not valid.
  unfoldable pub checked : SpanContext → SpanContext
  checked span_context = if api.is_valid span_context then span_context else api.empty_context

  unfoldable pub deserialize_from_bytes : Bytes → SpanContext
  deserialize_from_bytes [] = api.empty_context
  deserialize_from_bytes (version ∷ b) = elim (read_field 0 16 b) [
    | none ↦ api.empty_context
    | some (trace_id, b) ↦
        let (span_id, b) = read_span_id b in
        checked (api.new trace_id span_id (read_trace_flags b) true)
  ]

  module _ (encode : Bytes → Bytes) (decode : Bytes → Option Bytes) where
    unfoldable pub serialize_into_base64 : SpanContext → Bytes
    serialize_into_base64 context = encode (serialize_into_bytes context)

    unfoldable pub deserialize_from_base64 : Bytes → SpanContext
    deserialize_from_base64 base64 = elim (decode base64) [
      | none ↦ api.empty_context
      | some bytes ↦ deserialize_from_bytes bytes
    ]
