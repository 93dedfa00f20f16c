-- ===== src/Datadog/Spans.antt =====
-- Spans as the agent of Datadog is to see them.
use opentelemetry_rust_contr.Common.{
  ℕ, ◌-◌, ◌≡◌, arith, ◌%◌, ◌^◌, ◌≤◌, List, [], ◌∷◌, map, true, false, Option, none, some,
}
use opentelemetry_rust_contr.Common.Text.{Str, codes, str_eq}
use opentelemetry_rust_contr.Datadog.Model.{KeyValue, SpanData, duration_since, start_of}
use opentelemetry_rust_contr.Datadog.Value.{Value}

pub record DdSpan : Type 0 where
  pub service : Str
  pub name : Str
  pub resource : Str
  pub trace_id : ℕ
  pub span_id : ℕ
  pub parent_id : ℕ
  pub start : ℕ
  pub duration : ℕ
  pub error : ℕ
  pub meta : List (Str × Str)
  pub metrics : List (Str × ℕ)
  pub span_type : Option Str

-- The value of the first attribute with the key span.type.
unfoldable pub type_value : List KeyValue → Option Value
type_value [] = none
type_value (kv ∷ attributes) = elim (str_eq kv.key (codes "span.type")) [
  | true ↦ some kv.value
  | false ↦ type_value attributes
]

unfoldable pub entries_of : Option (List KeyValue) → List KeyValue
entries_of none = []
entries_of (some resource) = resource

-- The entries of a map of attributes, in order, as texts.
unfoldable pub entry_pairs : (Value → Str) → List KeyValue → List (Str × Str)
entry_pairs value_text entries = map (λ (kv : KeyValue). (kv.key, value_text kv.value)) entries

module _ {SpanContext SpanId : Type 0} (unix_epoch : ℕ) where
  abbrev pub Started : SpanData SpanContext SpanId → Type 0
  Started span = unix_epoch ≤ span.start_time

  abbrev pub start_nanos : SpanData SpanContext SpanId → ℕ
  start_nanos span = (span.start_time - unix_epoch) % 2 ^ 64

pub start_of-Started :
    {SpanContext SpanId : Type 0} (unix_epoch : ℕ) (span : SpanData SpanContext SpanId)
    → Started unix_epoch span
    → start_of unix_epoch span ≡ some (start_nanos unix_epoch span)
unfolding start_of duration_since
start_of-Started unix_epoch span h = ground arith
