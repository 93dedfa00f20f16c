-- ===== src/Geneva/Span/Fields.antt =====
-- `determine_span_fields`, against the names and types of the span's values.
use opentelemetry_rust_contr.Common.{
  ℕ, List, [], ◌∷◌, ◌++◌, false, not, ◌==◌, ◌≡◌, refl, ◌∙◌, Option, none, some, inl, inr, map,
  Option-cases, arith,
}
use mathlib.Core.List.{map-append}
use mathlib.Core.Option
use opentelemetry_rust_contr.Common.Bytes.{Bytes}
use opentelemetry_rust_contr.Common.Text.{Str}
use opentelemetry_rust_contr.Geneva.Bond.{bt_string, bt_uint32}
use opentelemetry_rust_contr.Geneva.Value.{text, type_of, named_type, field_type}
use opentelemetry_rust_contr.Geneva.Encoder.{
  Libraries, MetadataFields, number_fields, encode_id_to_hex, field_trace_id, field_span_id,
  field_trace_flags, field_name, field_trace_state, field_parent_id, field_links,
  field_status_message,
}
use opentelemetry_rust_contr.Geneva.Encoder.Numbering.{field_type-number_fields}
use opentelemetry_rust_contr.Geneva.Log.{push_if, is_empty}
use opentelemetry_rust_contr.Geneva.Log.Spec.{optional}
use opentelemetry_rust_contr.Geneva.Span.{
  Value, KeyValue, Link, Status, Span, no_links, has_status_message, value_type,
  span_attribute_field, span_attribute_fields, span_base_fields, determine_span_fields,
}
use opentelemetry_rust_contr.Geneva.Span.Spec.{
  non_empty, flags_value, links_value, status_text, typed_value, span_attribute, span_attributes,
  id_value, span_base_values, span_values,
}

-- The fields are the names and types of the values.
text-type :
    (name : Str) (s : Bytes) (f : Bytes → Str)
    → push_if (not (is_empty s)) name bt_string
      ≡ map named_type (optional name (Option.map (λ t. text (f t)) (non_empty s)))
unfolding is_empty non_empty
text-type name [] f = refl
text-type name (b ∷ s) f = refl

flags-type :
    (name : Str) (n : ℕ)
    → push_if (not (n == 0)) name bt_uint32 ≡ map named_type (optional name (flags_value n))
unfolding flags_value
flags-type name n = ground arith

links-type :
    (name : Str) (links : List Link)
    → push_if (not (no_links links)) name bt_string
      ≡ map named_type (optional name (links_value links))
unfolding no_links links_value
links-type name [] = refl
links-type name (link ∷ links) = refl

message-type :
    (name : Str) (o : Option Status)
    → push_if (elim o [ none ↦ false | some status ↦ not (is_empty status.message) ]) name bt_string
      ≡ map named_type (optional name (status_text o))
unfolding status_text
message-type name none = refl
message-type name (some status) = text-type name status.message (λ t. t)

attribute-type : (v : Value) → value_type v ≡ Option.map type_of (typed_value v)
unfolding value_type typed_value
attribute-type v = ground arith

span_attribute_field-type :
    (attr : KeyValue) → span_attribute_field attr ≡ Option.map named_type (span_attribute attr)
unfolding span_attribute_field span_attribute
span_attribute_field-type attr = elim (Option-cases attr.value) [
  | inl e ↦ ground arith
  | inr (v, e) ↦ elim (Option-cases v.value) [
    | inl f ↦ ground arith
    | inr (val, f) ↦ ground (arith, attribute-type val)
  ]
]

span_attribute_fields-types :
    (attrs : List KeyValue) → span_attribute_fields attrs ≡ map named_type (span_attributes attrs)
unfolding span_attribute_fields span_attributes
span_attribute_fields-types [] = refl
span_attribute_fields-types (attr ∷ attrs) =
    ground (arith, span_attribute_field-type attr, span_attribute_fields-types attrs)

module _ (libs : Libraries) (m : MetadataFields) (s : Span) where
  pub span_base_fields-types : span_base_fields s ≡ map named_type (span_base_values libs m s)
  unfolding span_base_fields span_base_values id_value has_status_message
  span_base_fields-types = simp (
    text-type field_trace_id s.trace_id (encode_id_to_hex libs 32),
    text-type field_span_id s.span_id (encode_id_to_hex libs 16),
    flags-type field_trace_flags s.flags,
    text-type field_name s.name (λ t. t),
    text-type field_trace_state s.trace_state (λ t. t),
    text-type field_parent_id s.parent_span_id (encode_id_to_hex libs 16),
    links-type field_links s.links,
    message-type field_status_message s.status,
    map-append,
  )

  -- The schema fields of a span are the names and types of its values, in order.
  pub determine_span_fields-types :
      map field_type (determine_span_fields s) ≡ map named_type (span_values libs m s)
  unfolding determine_span_fields span_values
  determine_span_fields-types =
      field_type-number_fields 0 (span_base_fields s ++ span_attribute_fields s.attributes)
      ∙ cc (
        span_base_fields-types,
        span_attribute_fields-types s.attributes,
        map-append named_type (span_base_values libs m s) (span_attributes s.attributes),
      )

  -- The fields themselves: the names and types of the values, numbered.
  pub determine_span_fields-values :
      determine_span_fields s ≡ number_fields 0 (map named_type (span_values libs m s))
  unfolding determine_span_fields span_values
  determine_span_fields-values = rw (
    span_base_fields-types,
    span_attribute_fields-types s.attributes,
    map-append named_type (span_base_values libs m s) (span_attributes s.attributes),
  )
