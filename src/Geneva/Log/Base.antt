-- ===== src/Geneva/Log/Base.antt =====
-- The loop of `write_row_data` over the fields before the attributes, against the record's values.
use opentelemetry_rust_contr.Common.{
  ℕ, ◌+◌, ◌%◌, ◌^◌, List, [], ◌∷◌, ◌≡◌, refl, Option, none, some, inl, inr, All, All-append, map,
  ◌>>=◌, Option-cases, arith,
}
use mathlib.Core.Option
use opentelemetry_rust_contr.Common.Bytes.{Bytes}
use opentelemetry_rust_contr.Common.Text.{Str, str_eq, from_utf8}
use opentelemetry_rust_contr.Geneva.Bond.{BondDataType}
use opentelemetry_rust_contr.Geneva.Value.{
  BondValue, text, int32, uint32, type_of, Named, named_type, write_value, write_values,
}
use opentelemetry_rust_contr.Geneva.Encoder.{
  Libraries, MetadataFields, number_fields, format_timestamp, encode_id_to_hex, field_env_name,
  field_env_ver, field_timestamp, field_env_time, field_trace_id, field_span_id, field_trace_flags,
  field_name, field_severity_number, field_severity_text, field_body, field_tenant, field_role,
  field_role_instance,
}
use opentelemetry_rust_contr.Geneva.Encoder.Numbering.{HexIsAscii, encode_id_to_hex-utf8}
use opentelemetry_rust_contr.Geneva.Log.{
  LogRecordView, normalized_event_name, record_timestamp, write_id, write_severity_text, body_text,
  write_body, write_base_field, write_base_fields, is_string,
}
use opentelemetry_rust_contr.Geneva.Log.Spec.{
  optional, non_empty_text, severity_value, body_value, base_values,
}

module _ (libs : Libraries) (ascii : HexIsAscii libs) (m : MetadataFields) (r : LogRecordView) where
  abbrev pub time : Str
  time = format_timestamp libs (record_timestamp r)

  -- The loop over the fields writes this value at a field of this name.
  abbrev pub Writes : Named → Type 0
  Writes (name, value) =
      (id : ℕ) (t : BondDataType) (buffer : Bytes)
      → write_base_field libs r m time buffer (record { name = name; field_id = id; type_id = t })
        ≡ some (write_value buffer value)

  optional-Writes :
      (name : Str) (o : Option BondValue)
      → ((v : BondValue) → o ≡ some v → Writes (name, v))
      → All Writes (optional name o)
  optional-Writes name none h = tt
  optional-Writes name (some v) h = (h v refl, tt)

  env_name-Writes : Writes (field_env_name, text m.env_name)
  unfolding write_base_field write_value str_eq
  env_name-Writes id t buffer = refl

  env_ver-Writes : Writes (field_env_ver, text m.env_ver)
  unfolding write_base_field write_value str_eq
  env_ver-Writes id t buffer = refl

  timestamp-Writes : Writes (field_timestamp, text time)
  unfolding write_base_field write_value str_eq
  timestamp-Writes id t buffer = refl

  env_time-Writes : Writes (field_env_time, text time)
  unfolding write_base_field write_value str_eq
  env_time-Writes id t buffer = refl

  tenant-Writes : Writes (field_tenant, text m.tenant)
  unfolding write_base_field write_value str_eq
  tenant-Writes id t buffer = refl

  role-Writes : Writes (field_role, text m.role)
  unfolding write_base_field write_value str_eq
  role-Writes id t buffer = refl

  role_instance-Writes : Writes (field_role_instance, text m.role_instance)
  unfolding write_base_field write_value str_eq
  role_instance-Writes id t buffer = refl

  severity_number-Writes : Writes (field_severity_number, int32 (Option.get_or r.severity_number 0))
  unfolding write_base_field write_value str_eq
  severity_number-Writes id t buffer = refl

  trace_id-Writes :
      (v : BondValue)
      → Option.map (λ i. text (encode_id_to_hex libs 32 i)) r.trace_id ≡ some v
      → Writes (field_trace_id, v)
  unfolding write_base_field write_value str_eq write_id
  trace_id-Writes v h id t buffer = elim (Option-cases r.trace_id) [
    | inl e ↦ ground arith
    | inr (i, e) ↦ ground (arith, encode_id_to_hex-utf8 libs 32 i ascii)
  ]

  span_id-Writes :
      (v : BondValue)
      → Option.map (λ i. text (encode_id_to_hex libs 16 i)) r.span_id ≡ some v
      → Writes (field_span_id, v)
  unfolding write_base_field write_value str_eq write_id
  span_id-Writes v h id t buffer = elim (Option-cases r.span_id) [
    | inl e ↦ ground arith
    | inr (i, e) ↦ ground (arith, encode_id_to_hex-utf8 libs 16 i ascii)
  ]

  flags-Writes :
      (v : BondValue) → Option.map uint32 r.flags ≡ some v → Writes (field_trace_flags, v)
  unfolding write_base_field write_value str_eq
  flags-Writes v h id t buffer = ground arith

  name-Writes :
      (v : BondValue) → Option.map text (normalized_event_name r) ≡ some v → Writes (field_name, v)
  unfolding write_base_field write_value str_eq
  name-Writes v h id t buffer = ground arith

  severity_text-Writes :
      (v : BondValue) → severity_value r.severity_text ≡ some v → Writes (field_severity_text, v)
  unfolding write_base_field write_value str_eq write_severity_text severity_value
  severity_text-Writes v h id t buffer = by_text (r.severity_text >>= from_utf8) refl
    where
      by_text :
          (o : Option Str)
          → (r.severity_text >>= from_utf8) ≡ o
          → some (write_severity_text libs r m buffer) ≡ some (write_value buffer v)
      by_text none e = ground arith
      by_text (some []) e = unfold non_empty_text in ground arith
      by_text (some (b ∷ s)) e = unfold non_empty_text in ground arith

  body-Writes : (v : BondValue) → body_value r.body ≡ some v → Writes (field_body, v)
  unfolding write_base_field write_value str_eq write_body body_text is_string body_value
  body-Writes v h id t buffer = ground arith

  pub base_values-Writes : All Writes (base_values libs m r)
  unfolding base_values
  base_values-Writes = (
    env_name-Writes,
    (
      env_ver-Writes,
      (
        timestamp-Writes,
        (
          env_time-Writes,
          (
            tenant-Writes,
            (
              role-Writes,
              (
                role_instance-Writes,
                All-append Writes _ _ (optional-Writes field_trace_id _ trace_id-Writes) (
                    All-append Writes _ _ (optional-Writes field_span_id _ span_id-Writes) (
                      All-append Writes _ _ (optional-Writes field_trace_flags _ flags-Writes) (
                        All-append Writes _ _ (optional-Writes field_name _ name-Writes) (
                          severity_number-Writes,
                          All-append Writes _ _
                              (optional-Writes field_severity_text _ severity_text-Writes)
                              (optional-Writes field_body _ body-Writes),
                        )))),
              ),
            ),
          ),
        ),
      ),
    ),
  )

  pub write_base_fields-values :
      (k : ℕ) (buffer : Bytes) (vs : List Named)
      → All Writes vs
      → write_base_fields libs r m time buffer (number_fields k (map named_type vs))
        ≡ some (write_values buffer vs)
  unfolding write_base_fields number_fields write_values
  write_base_fields-values k buffer [] h = refl
  write_base_fields-values k buffer ((name, value) ∷ vs) h =
      rw (h.0 ((k + 1) % 2 ^ 16) (type_of value) buffer)
        (write_base_fields-values (k + 1) (write_value buffer value) vs h.1)
