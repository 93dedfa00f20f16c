-- ===== src/Geneva/Span/Spec.antt =====
-- What the row of a span is to hold, as named values, and which attributes a row can keep apart: the
-- specification that the fields and the row of a span are both compared with.
use opentelemetry_rust_contr.Common.{
  ℕ, List, [], ◌∷◌, ◌++◌, Bool, false, ◌||◌, ◌≡◌, Option, none, some, All, ◌==◌, ◌>>=◌,
  if◌then◌else◌,
}
use mathlib.Core.Option
use opentelemetry_rust_contr.Common.Bytes.{Bytes}
use opentelemetry_rust_contr.Common.Text.{Str, str_eq}
use opentelemetry_rust_contr.Geneva.Value.{
  BondValue, text, int32, uint32, int64, double, boolean, Named,
}
use opentelemetry_rust_contr.Geneva.Encoder.{
  Libraries, MetadataFields, format_timestamp, encode_id_to_hex, field_env_name, field_env_ver,
  field_timestamp, field_env_time, field_trace_id, field_span_id, field_trace_flags, field_name,
  field_tenant, field_role, field_role_instance, field_kind, field_start_time, field_success,
  field_trace_state, field_parent_id, field_links, field_status_message,
}
use opentelemetry_rust_contr.Geneva.Log.Spec.{optional}
use opentelemetry_rust_contr.Geneva.Span.{
  Value, string_value, int_value, double_value, bool_value, other_value, KeyValue, Link, Status,
  Span, span_success, serialize_links,
}

-- A byte string unless it is empty.
unfoldable pub non_empty : Bytes → Option Bytes
non_empty [] = none
non_empty (b ∷ s) = some (b ∷ s)

unfoldable pub flags_value : ℕ → Option BondValue
flags_value flags = if flags == 0 then none else some (uint32 flags)

unfoldable pub links_value : List Link → Option BondValue
links_value [] = none
links_value (link ∷ links) = some (text (serialize_links (link ∷ links)))

unfoldable pub status_text : Option Status → Option BondValue
status_text none = none
status_text (some status) = Option.map text (non_empty status.message)

unfoldable pub typed_value : Value → Option BondValue
typed_value (string_value s) = some (text s)
typed_value (int_value i) = some (int64 i)
typed_value (double_value d) = some (double d)
typed_value (bool_value b) = some (boolean b)
typed_value other_value = none

unfoldable pub span_attribute : KeyValue → Option Named
span_attribute attr = do
  v ← attr.value
  val ← v.value
  value ← typed_value val
  some (attr.key, value)

unfoldable pub span_attributes : List KeyValue → List Named
span_attributes [] = []
span_attributes (attr ∷ attrs) =
    let rest = span_attributes attrs in
    elim (span_attribute attr) [ none ↦ rest | some named ↦ named ∷ rest ]

module _ (libs : Libraries) (m : MetadataFields) where
  unfoldable pub id_value : ℕ → Bytes → Option BondValue
  id_value n id = Option.map (λ i. text (encode_id_to_hex libs n i)) (non_empty id)

  -- Parts A and B.
  unfoldable pub span_base_values : Span → List Named
  span_base_values s =
      let time = text (format_timestamp libs s.start_time_unix_nano) in
      (field_env_name, text m.env_name)
      ∷ (field_env_ver, text m.env_ver)
      ∷ (field_timestamp, time)
      ∷ (field_env_time, time)
      ∷ (field_tenant, text m.tenant)
      ∷ (field_role, text m.role)
      ∷ (field_role_instance, text m.role_instance)
      ∷ (field_kind, int32 s.kind)
      ∷ (field_start_time, time)
      ∷ (field_success, boolean (span_success libs s m))
      ∷ (optional field_trace_id (id_value 32 s.trace_id)
          ++ (optional field_span_id (id_value 16 s.span_id)
              ++ (optional field_trace_flags (flags_value s.flags)
                  ++ (optional field_name (Option.map text (non_empty s.name))
                      ++ (optional field_trace_state (Option.map text (non_empty s.trace_state))
                          ++ (optional field_parent_id (id_value 16 s.parent_span_id)
                              ++ (optional field_links (links_value s.links)
                                  ++ optional field_status_message (status_text s.status))))))))

  -- The whole row.
  unfoldable pub span_values : Span → List Named
  span_values s = span_base_values s ++ span_attributes s.attributes

-- The names that the writer of the row takes for fixed fields.
unfoldable pub is_reserved : Str → Bool
is_reserved name =
    let is = str_eq name in
    is field_env_name
    || is field_env_ver
    || is field_tenant
    || is field_role
    || is field_role_instance
    || is field_timestamp
    || is field_env_time
    || is field_kind
    || is field_start_time
    || is field_success
    || is field_trace_id
    || is field_span_id
    || is field_trace_flags
    || is field_name
    || is field_trace_state
    || is field_parent_id
    || is field_links
    || is field_status_message

-- No attribute has a reserved key, and no two have the same key.
abbrev pub KeysOk : List KeyValue → Type 0
KeysOk [] = Unit {0}
KeysOk (attr ∷ attrs) =
    (is_reserved attr.key ≡ false)
    × All (λ (other : KeyValue). str_eq attr.key other.key ≡ false) attrs
    × KeysOk attrs
