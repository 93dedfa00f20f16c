-- ===== src/Geneva/Log/Fields.antt =====
-- `determine_fields`, against the names and types of the record's values.
use opentelemetry_rust_contr.Common.{
  List, [], ◌∷◌, ◌++◌, ◌≡◌, refl, ◌∙◌, Option, none, some, inl, inr, map, ◌>>=◌, Option-cases,
  arith,
}
use mathlib.Core.List.{map-append}
use mathlib.Core.Option
use opentelemetry_rust_contr.Common.Text.{Str, from_utf8}
use opentelemetry_rust_contr.Geneva.Bond.{BondDataType, bt_string, bt_uint32}
use opentelemetry_rust_contr.Geneva.Value.{BondValue, text, uint32, type_of, named_type, field_type}
use opentelemetry_rust_contr.Geneva.Encoder.{
  Libraries, MetadataFields, encode_id_to_hex, field_trace_id, field_span_id, field_trace_flags,
  field_name,
}
use opentelemetry_rust_contr.Geneva.Encoder.Numbering.{field_type-number_fields}
use opentelemetry_rust_contr.Geneva.Log.{
  AnyValueView, AttributeView, LogRecordView, is_some, push_if, is_empty, is_string,
  has_severity_text, has_body, value_type_id, attribute_field, attribute_fields, base_fields,
  determine_fields, normalized_event_name,
}
use opentelemetry_rust_contr.Geneva.Log.Spec.{
  optional, non_empty_text, severity_value, attribute_value, body_value, named_attribute,
  named_attributes, base_values, record_values,
}

-- A field that is pushed if there is a value, against the value itself.
push_if-map {ℓ} :
    {A : Type ℓ} (name : Str) (t : BondDataType) (f : A → BondValue) (o : Option A)
    → ((a : A) → type_of (f a) ≡ t)
    → push_if (is_some o) name t ≡ map named_type (optional name (Option.map f o))
push_if-map name t f none e = refl
push_if-map name t f (some a) e = rw (e a)

severity-type :
    (r : LogRecordView) (name : Str)
    → push_if (has_severity_text r) name bt_string
      ≡ map named_type (optional name (severity_value r.severity_text))
severity-type r name = by_text (r.severity_text >>= from_utf8) refl
  where
    by_text :
        (o : Option Str)
        → (r.severity_text >>= from_utf8) ≡ o
        → push_if (has_severity_text r) name bt_string
          ≡ map named_type (optional name (severity_value r.severity_text))
    by_text none e = unfold has_severity_text severity_value in rw (e, has_severity_text)
    by_text (some []) e =
        unfold has_severity_text severity_value is_empty non_empty_text in rw (e, has_severity_text)
    by_text (some (b ∷ s)) e =
        unfold has_severity_text severity_value is_empty non_empty_text in rw (e, has_severity_text)

body-type :
    (r : LogRecordView) (name : Str)
    → push_if (has_body r) name bt_string ≡ map named_type (optional name (body_value r.body))
unfolding has_body body_value is_string
body-type r name = ground arith

attribute-type : (v : AnyValueView) → value_type_id v ≡ Option.map type_of (attribute_value v)
unfolding value_type_id attribute_value
attribute-type v = ground arith

attribute_field-type :
    (attr : AttributeView) → attribute_field attr ≡ Option.map named_type (named_attribute attr)
unfolding attribute_field named_attribute
attribute_field-type attr = elim (Option-cases attr.value) [
  | inl e ↦ ground arith
  | inr (v, e) ↦ ground (arith, attribute-type v)
]

pub attribute_fields-types :
    (attrs : List AttributeView) → attribute_fields attrs ≡ map named_type (named_attributes attrs)
unfolding attribute_fields named_attributes
attribute_fields-types [] = refl
attribute_fields-types (attr ∷ attrs) =
    ground (arith, attribute_field-type attr, attribute_fields-types attrs)

module _ (libs : Libraries) (m : MetadataFields) (r : LogRecordView) where
  pub base_fields-types : base_fields r ≡ map named_type (base_values libs m r)
  unfolding base_fields base_values
  base_fields-types = simp (
    push_if-map field_trace_id bt_string (λ id. text (encode_id_to_hex libs 32 id)) r.trace_id
        (λ id. refl),
    push_if-map field_span_id bt_string (λ id. text (encode_id_to_hex libs 16 id)) r.span_id
        (λ id. refl),
    push_if-map field_trace_flags bt_uint32 uint32 r.flags (λ n. refl),
    push_if-map field_name bt_string text (normalized_event_name r) (λ s. refl),
    severity-type r,
    body-type r,
    map-append,
  )

  -- The schema fields of a record are the names and types of its values, in order.
  pub determine_fields-types :
      map field_type (determine_fields r).0 ≡ map named_type (record_values libs m r)
  unfolding determine_fields record_values
  determine_fields-types =
      field_type-number_fields 0 (base_fields r ++ attribute_fields r.attributes)
      ∙ cc (
        base_fields-types,
        attribute_fields-types r.attributes,
        map-append named_type (base_values libs m r) (named_attributes r.attributes),
      )
