-- ===== src/Geneva/Log/Spec.antt =====
-- What the row of a log record is to hold, as named values: the specification that the fields and the
-- row are both compared with. It is read off the field list of the Bond schema, not off the writers.
use opentelemetry_rust_contr.Common.{List, [], ◌∷◌, ◌++◌, Option, none, some, ◌>>=◌}
use mathlib.Core.Option
use opentelemetry_rust_contr.Common.Bytes.{Bytes}
use opentelemetry_rust_contr.Common.Text.{Str, from_utf8}
use opentelemetry_rust_contr.Geneva.Value.{
  BondValue, text, int32, uint32, int64, double, boolean, Named,
}
use opentelemetry_rust_contr.Geneva.Encoder.{
  Libraries, MetadataFields, format_timestamp, encode_id_to_hex, field_env_name, field_env_ver,
  field_timestamp, field_env_time, field_trace_id, field_span_id, field_trace_flags, field_name,
  field_severity_number, field_severity_text, field_body, field_tenant, field_role,
  field_role_instance,
}
use opentelemetry_rust_contr.Geneva.Log.{
  ValueType, AnyValueView, AttributeView, LogRecordView, normalized_event_name, record_timestamp,
}

-- A value under a name, if there is one.
abbrev pub optional : Str → Option BondValue → List Named
optional name none = []
optional name (some value) = (name, value) ∷ []

unfoldable pub non_empty_text : Str → Option BondValue
non_empty_text [] = none
non_empty_text (b ∷ s) = some (text (b ∷ s))

-- A text that is there, UTF-8 and not empty.
unfoldable pub severity_value : Option Bytes → Option BondValue
severity_value t = (t >>= from_utf8) >>= non_empty_text

unfoldable pub attribute_value : AnyValueView → Option BondValue
attribute_value v = elim v.value_type [
  | ValueType.string ↦ Option.map text (v.as_string >>= from_utf8)
  | ValueType.int64 ↦ Option.map int64 v.as_int64
  | ValueType.double ↦ Option.map double v.as_double
  | ValueType.boolean ↦ Option.map boolean v.as_bool
  | ValueType.unsupported ↦ none
]

unfoldable pub body_value : Option AnyValueView → Option BondValue
body_value none = none
body_value (some v) = elim v.value_type [
  | ValueType.string ↦ Option.map text (v.as_string >>= from_utf8)
  | _ ↦ none
]

unfoldable pub named_attribute : AttributeView → Option Named
named_attribute attr = do
  key ← from_utf8 attr.key
  v ← attr.value
  value ← attribute_value v
  some (key, value)

unfoldable pub named_attributes : List AttributeView → List Named
named_attributes [] = []
named_attributes (attr ∷ attrs) =
    let rest = named_attributes attrs in
    elim (named_attribute attr) [ none ↦ rest | some named ↦ named ∷ rest ]

module _ (libs : Libraries) (m : MetadataFields) where
  -- Parts A and B.
  unfoldable pub base_values : LogRecordView → List Named
  base_values r =
      let time = text (format_timestamp libs (record_timestamp r)) in
      (field_env_name, text m.env_name)
      ∷ (field_env_ver, text m.env_ver)
      ∷ (field_timestamp, time)
      ∷ (field_env_time, time)
      ∷ (field_tenant, text m.tenant)
      ∷ (field_role, text m.role)
      ∷ (field_role_instance, text m.role_instance)
      ∷ (optional field_trace_id (Option.map (λ id. text (encode_id_to_hex libs 32 id)) r.trace_id)
          ++ (optional field_span_id
                (Option.map (λ id. text (encode_id_to_hex libs 16 id)) r.span_id)
              ++ (optional field_trace_flags (Option.map uint32 r.flags)
                  ++ (optional field_name (Option.map text (normalized_event_name r))
                      ++ ((field_severity_number, int32 (Option.get_or r.severity_number 0))
                          ∷ (optional field_severity_text (severity_value r.severity_text)
                              ++ optional field_body (body_value r.body)))))))

  -- The whole row.
  unfoldable pub record_values : LogRecordView → List Named
  record_values r = base_values r ++ named_attributes r.attributes
