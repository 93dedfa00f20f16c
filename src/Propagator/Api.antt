-- ===== src/Propagator/Api.antt =====
-- What the text propagators take from the crate opentelemetry: ids, span contexts, carriers and
-- contexts. A text is its characters. Trace flags are a byte.
use opentelemetry_rust_contr.Common.{
  ℕ, ◌%◌, ◌/◌, ◌<◌, ◌^◌, List, [], ◌∷◌, Bool, true, false, ◌≡◌, Option, none, some, length, All,
  ◌==◌, if◌then◌else◌,
}
use opentelemetry_rust_contr.Common.Chars.{Chars}
use opentelemetry_rust_contr.Common.Numerals.{IsHex}
use opentelemetry_rust_contr.Common.Text.{str_eq}

-- `from_hex` and the printed form of ids, their numbers (`from_be_bytes` of the bytes, `From<u128>`
-- and `From<u64>`), and span contexts.
pub record Api (TraceId SpanId TraceState SpanContext : Type 0) : Type 0 where
  pub trace_id_from_hex : Chars → Option TraceId
  pub trace_id_to_hex : TraceId → Chars
  pub trace_id_from_u128 : ℕ → TraceId
  pub trace_id_to_u128 : TraceId → ℕ
  pub span_id_from_hex : Chars → Option SpanId
  pub span_id_to_hex : SpanId → Chars
  pub span_id_from_u64 : ℕ → SpanId
  pub span_id_to_u64 : SpanId → ℕ
  pub invalid_span_id : SpanId
  pub invalid_trace_id : TraceId
  pub is_invalid_trace_id : TraceId → Bool
  pub default_trace_state : TraceState
  pub new : TraceId → SpanId → ℕ → Bool → TraceState → SpanContext
  pub trace_id : SpanContext → TraceId
  pub span_id : SpanContext → SpanId
  pub trace_flags : SpanContext → ℕ
  pub trace_state : SpanContext → TraceState
  pub is_valid : SpanContext → Bool

-- Trace states: `none` is an error; `header_delimited` prints the entries with a delimiter between key
-- and value and one between entries.
pub record TraceStates (TraceState : Type 0) : Type 0 where
  pub insert : TraceState → Chars → Chars → Option TraceState
  pub get : TraceState → Chars → Option Chars
  pub from_key_value : List (Chars × Chars) → Option TraceState
  pub header_delimited : TraceState → Chars → Chars → Chars

-- What the documentation of opentelemetry says of them: an id is printed as 32 or 16 lowercase
-- hexadecimal digits and is read back from them, it is a number of 128 or 64 bits, `new` keeps the
-- ids, and validity is a matter of the ids.
pub record ApiLaws {TraceId SpanId TraceState SpanContext : Type 0}
    (api : Api TraceId SpanId TraceState SpanContext) : Type 0 where
  pub trace_id_read : (t : TraceId) → api.trace_id_from_hex (api.trace_id_to_hex t) ≡ some t
  pub trace_id_hex : (t : TraceId) → All IsHex (api.trace_id_to_hex t)
  pub trace_id_length : (t : TraceId) → length (api.trace_id_to_hex t) ≡ 32
  pub trace_id_number : (t : TraceId) → api.trace_id_from_u128 (api.trace_id_to_u128 t) ≡ t
  pub trace_id_small : (t : TraceId) → api.trace_id_to_u128 t < 2 ^ 128
  pub span_id_read : (s : SpanId) → api.span_id_from_hex (api.span_id_to_hex s) ≡ some s
  pub span_id_hex : (s : SpanId) → All IsHex (api.span_id_to_hex s)
  pub span_id_length : (s : SpanId) → length (api.span_id_to_hex s) ≡ 16
  pub span_id_number : (s : SpanId) → api.span_id_from_u64 (api.span_id_to_u64 s) ≡ s
  pub span_id_small : (s : SpanId) → api.span_id_to_u64 s < 2 ^ 64
  pub flags_small : (c : SpanContext) → api.trace_flags c < 256
  pub valid_ids :
      (c : SpanContext) (f : ℕ) (remote : Bool) (state : TraceState)
      → api.is_valid (api.new (api.trace_id c) (api.span_id c) f remote state) ≡ api.is_valid c
  pub valid_trace_id :
      (c : SpanContext) → api.is_valid c ≡ true → api.is_invalid_trace_id (api.trace_id c) ≡ false

-- A carrier of headers, as far as they are read back: the value last set under a name.
abbrev pub Headers : Type 0
Headers = List (Chars × Chars)

unfoldable pub get : Headers → Chars → Option Chars
get [] name = none
get ((n, value) ∷ headers) name = if str_eq n name then some value else get headers name

-- `&` and `==` on the bits of trace flags.
unfoldable pub is_sampled : ℕ → Bool
is_sampled flags = flags % 2 == 1

unfoldable pub is_deferred : ℕ → Bool
is_deferred flags = flags / 2 % 2 == 1

-- `extract_with_context`, which all propagators write in the same way, with `with_remote_span_context`
-- of a context.
unfoldable pub extract_with_context :
    {Context SpanContext : Type 0}
    → (Context → SpanContext → Context)
    → Context
    → Option SpanContext
    → Context
extract_with_context with_remote cx extracted = elim extracted [
  | none ↦ cx
  | some sc ↦ with_remote cx sc
]
