-- ===== src/Geneva/Span/Write.antt =====
-- What one turn of the loop of `write_span_row_data` writes at the field of each value of a span.
use opentelemetry_rust_contr.Common.{
  ℕ, List, [], ◌∷◌, false, ◌≡◌, refl, ap, ◌∙◌, Option, none, some, inl, inr, All, All-append,
  Option-cases, arith,
}
use mathlib.Core.Option
use opentelemetry_rust_contr.Common.Bytes.{Bytes}
use opentelemetry_rust_contr.Common.Text.{Str, str_eq}
use opentelemetry_rust_contr.Geneva.Bond.{FieldDef}
use opentelemetry_rust_contr.Geneva.Value.{
  BondValue, text, int32, boolean, type_of, Named, write_value,
}
use opentelemetry_rust_contr.Geneva.Encoder.{
  Libraries, MetadataFields, format_timestamp, field_env_name, field_env_ver, field_timestamp,
  field_env_time, field_trace_id, field_span_id, field_trace_flags, field_name, field_tenant,
  field_role, field_role_instance, field_kind, field_start_time, field_success, field_trace_state,
  field_parent_id, field_links, field_status_message,
}
use opentelemetry_rust_contr.Geneva.Encoder.Numbering.{HexIsAscii, encode_id_to_hex-utf8}
use opentelemetry_rust_contr.Geneva.Log.Spec.{optional}
use opentelemetry_rust_contr.Geneva.Span.{
  Value, string_value, int_value, double_value, bool_value, other_value, KeyValue, Link, Span,
  serialize_links, find_attribute, write_typed, write_attribute_value, span_success, write_hex_id,
  write_status_message, write_dynamic, write_span_field,
}
use opentelemetry_rust_contr.Geneva.Span.Spec.{
  non_empty, flags_value, links_value, status_text, typed_value, span_attribute, id_value,
  span_base_values, is_reserved,
}

-- An attribute with a value is written as that value at a field of the value's type.
write_typed-value :
    (val : Value) (value : BondValue) (buffer : Bytes)
    → typed_value val ≡ some value
    → write_typed buffer val (type_of value) ≡ write_value buffer value
unfolding typed_value write_value write_typed
write_typed-value (string_value t) value buffer e = ground arith
write_typed-value (int_value i) value buffer e = ground arith
write_typed-value (double_value d) value buffer e = ground arith
write_typed-value (bool_value b) value buffer e = ground arith
write_typed-value other_value value buffer e = cc

write_attribute_value-value :
    (attr : KeyValue) (value : BondValue) (buffer : Bytes)
    → span_attribute attr ≡ some (attr.key, value)
    → write_attribute_value buffer attr (type_of value) ≡ write_value buffer value
unfolding write_attribute_value span_attribute
write_attribute_value-value attr value buffer e = elim (Option-cases attr.value) [
  | inl none_there ↦ ground arith
  | inr (v, f) ↦ elim (Option-cases v.value) [
    | inl none_there ↦ ground arith
    | inr (val, g) ↦ ground (arith, write_typed-value val value buffer)
  ]
]

module _ (libs : Libraries) (ascii : HexIsAscii libs) (m : MetadataFields) (s : Span) where
  abbrev pub time : Str
  time = format_timestamp libs s.start_time_unix_nano

  -- The loop over the fields writes this value at a field of this name and the value's type.
  abbrev pub Writes : Named → Type 0
  Writes (name, value) =
      (id : ℕ) (buffer : Bytes)
      → write_span_field libs s m time buffer
          (record { name = name; field_id = id; type_id = type_of value })
        ≡ some (write_value buffer value)

  optional-Writes :
      (name : Str) (o : Option BondValue)
      → ((v : BondValue) → o ≡ some v → Writes (name, v))
      → All Writes (optional name o)
  optional-Writes name none h = tt
  optional-Writes name (some v) h = (h v refl, tt)

  env_name-Writes : Writes (field_env_name, text m.env_name)
  unfolding write_span_field write_value str_eq
  env_name-Writes id buffer = refl

  env_ver-Writes : Writes (field_env_ver, text m.env_ver)
  unfolding write_span_field write_value str_eq
  env_ver-Writes id buffer = refl

  timestamp-Writes : Writes (field_timestamp, text time)
  unfolding write_span_field write_value str_eq
  timestamp-Writes id buffer = refl

  env_time-Writes : Writes (field_env_time, text time)
  unfolding write_span_field write_value str_eq
  env_time-Writes id buffer = refl

  tenant-Writes : Writes (field_tenant, text m.tenant)
  unfolding write_span_field write_value str_eq
  tenant-Writes id buffer = refl

  role-Writes : Writes (field_role, text m.role)
  unfolding write_span_field write_value str_eq
  role-Writes id buffer = refl

  role_instance-Writes : Writes (field_role_instance, text m.role_instance)
  unfolding write_span_field write_value str_eq
  role_instance-Writes id buffer = refl

  kind-Writes : Writes (field_kind, int32 s.kind)
  unfolding write_span_field write_value str_eq
  kind-Writes id buffer = refl

  start_time-Writes : Writes (field_start_time, text time)
  unfolding write_span_field write_value str_eq
  start_time-Writes id buffer = refl

  success-Writes : Writes (field_success, boolean (span_success libs s m))
  unfolding write_span_field write_value str_eq
  success-Writes id buffer = refl

  write_hex_id-value :
      (n : ℕ) (id buffer : Bytes) (v : BondValue)
      → id_value libs m n id ≡ some v
      → write_hex_id libs s m n id buffer ≡ some (write_value buffer v)
  unfolding write_hex_id write_value id_value non_empty
  write_hex_id-value n [] buffer v h = cc
  write_hex_id-value n (b ∷ id) buffer v h =
      ground (arith, encode_id_to_hex-utf8 libs n (b ∷ id) ascii)

  trace_id-Writes :
      (v : BondValue) → id_value libs m 32 s.trace_id ≡ some v → Writes (field_trace_id, v)
  unfolding write_span_field str_eq
  trace_id-Writes v h id buffer = write_hex_id-value 32 s.trace_id buffer v h

  span_id-Writes :
      (v : BondValue) → id_value libs m 16 s.span_id ≡ some v → Writes (field_span_id, v)
  unfolding write_span_field str_eq
  span_id-Writes v h id buffer = write_hex_id-value 16 s.span_id buffer v h

  parent_id-Writes :
      (v : BondValue) → id_value libs m 16 s.parent_span_id ≡ some v → Writes (field_parent_id, v)
  unfolding write_span_field str_eq
  parent_id-Writes v h id buffer = write_hex_id-value 16 s.parent_span_id buffer v h

  flags-Writes : (v : BondValue) → flags_value s.flags ≡ some v → Writes (field_trace_flags, v)
  unfolding write_span_field write_value str_eq flags_value
  flags-Writes v h id buffer = ground arith

  non_empty-same : (t : Bytes) (v : BondValue) → Option.map text (non_empty t) ≡ some v → v ≡ text t
  unfolding non_empty
  non_empty-same [] v h = cc
  non_empty-same (b ∷ t) v h = cc

  name-Writes :
      (v : BondValue) → Option.map text (non_empty s.name) ≡ some v → Writes (field_name, v)
  unfolding write_span_field write_value str_eq
  name-Writes v h id buffer = rw (non_empty-same s.name v h)

  trace_state-Writes :
      (v : BondValue)
      → Option.map text (non_empty s.trace_state) ≡ some v
      → Writes (field_trace_state, v)
  unfolding write_span_field write_value str_eq
  trace_state-Writes v h id buffer = rw (non_empty-same s.trace_state v h)

  links-same :
      (links : List Link) (v : BondValue)
      → links_value links ≡ some v
      → v ≡ text (serialize_links links)
  unfolding links_value
  links-same [] v h = cc
  links-same (link ∷ links) v h = cc

  links-Writes : (v : BondValue) → links_value s.links ≡ some v → Writes (field_links, v)
  unfolding write_span_field write_value str_eq
  links-Writes v h id buffer = rw (links-same s.links v h)

  write_status_message-value :
      (buffer : Bytes) (v : BondValue)
      → status_text s.status ≡ some v
      → write_status_message libs s m buffer ≡ write_value buffer v
  unfolding write_status_message status_text write_value
  write_status_message-value buffer v h = elim (Option-cases s.status) [
    | inl e ↦ ground arith
    | inr (status, e) ↦ ground (arith, non_empty-same status.message v)
  ]

  message-Writes :
      (v : BondValue) → status_text s.status ≡ some v → Writes (field_status_message, v)
  unfolding write_span_field str_eq
  message-Writes v h id buffer = rw (write_status_message-value buffer v h)

  write_span_field-dynamic :
      (field : FieldDef) (buffer : Bytes)
      → is_reserved field.name ≡ false
      → write_span_field libs s m time buffer field ≡ some (write_dynamic libs s m buffer field)
  unfolding write_span_field is_reserved
  write_span_field-dynamic field buffer free = ground arith

  -- The values that every span has.
  abbrev always_values : List Named
  always_values =
      (field_env_name, text m.env_name)
      ∷ (field_env_ver, text m.env_ver)
      ∷ (field_timestamp, text time)
      ∷ (field_env_time, text time)
      ∷ (field_tenant, text m.tenant)
      ∷ (field_role, text m.role)
      ∷ (field_role_instance, text m.role_instance)
      ∷ (field_kind, int32 s.kind)
      ∷ (field_start_time, text time)
      ∷ (field_success, boolean (span_success libs s m))
      ∷ []

  always-Writes : All Writes always_values
  always-Writes = (
    env_name-Writes,
    (
      env_ver-Writes,
      (
        timestamp-Writes,
        (
          env_time-Writes,
          (
            tenant-Writes,
            (
              role-Writes,
              (role_instance-Writes, (kind-Writes, (start_time-Writes, (success-Writes, tt)))),
            ),
          ),
        ),
      ),
    ),
  )

  pub span_base_values-Writes : All Writes (span_base_values libs m s)
  unfolding span_base_values
  span_base_values-Writes = All-append Writes (always_values) _ always-Writes (
      All-append Writes _ _ (optional-Writes field_trace_id _ trace_id-Writes) (
        All-append Writes _ _ (optional-Writes field_span_id _ span_id-Writes) (
          All-append Writes _ _ (optional-Writes field_trace_flags _ flags-Writes) (
            All-append Writes _ _ (optional-Writes field_name _ name-Writes) (
              All-append Writes _ _ (optional-Writes field_trace_state _ trace_state-Writes) (
                All-append Writes _ _ (optional-Writes field_parent_id _ parent_id-Writes) (
                  All-append Writes _ _ (optional-Writes field_links _ links-Writes)
                    (optional-Writes field_status_message _ message-Writes))))))))

  -- An attribute that the search finds by its key, and whose key is no fixed field's, is written at
  -- its field.
  pub find_attribute-Writes :
      (attr : KeyValue) (value : BondValue)
      → span_attribute attr ≡ some (attr.key, value)
      → is_reserved attr.key ≡ false
      → find_attribute attr.key s.attributes ≡ some attr
      → Writes (attr.key, value)
  find_attribute-Writes attr value e free found id buffer =
      let field : FieldDef = record { name = attr.key; field_id = id; type_id = type_of value } in
      let dynamic : write_span_field libs s m time buffer field
          ≡ some (write_dynamic libs s m buffer field) =
        write_span_field-dynamic field buffer free in
      dynamic
      ∙ unfold write_dynamic in
        rw (found, write_dynamic) (ap some (write_attribute_value-value attr value buffer e))
