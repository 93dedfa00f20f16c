-- ===== src/Geneva/Span/Collisions.antt =====
-- The loop of `write_span_row_data` where an attribute has the key of a fixed field.
use opentelemetry_rust_contr.Common.{
  ℕ, ◌+◌, ◌%◌, ◌^◌, List, [], ◌∷◌, ◌++◌, ◌≡◌, refl, ap, ◌∙◌, none, some, length, map, All,
}
use opentelemetry_rust_contr.Common.Bytes.{Bytes, to_le_bytes, read_le}
use opentelemetry_rust_contr.Common.Text.{str_eq}
use opentelemetry_rust_contr.Geneva.Bond.{FieldDef, bt_int64, write_numeric}
use opentelemetry_rust_contr.Geneva.Value.{
  int32, Named, named_type, Fits, write_value, write_values, write_values-append, read_row,
  read_value, read_row_mistyped,
}
use opentelemetry_rust_contr.Geneva.Encoder.{Libraries, MetadataFields, number_fields, field_kind}
use opentelemetry_rust_contr.Geneva.Encoder.Numbering.{
  HexIsAscii, number_fields-append, field_type-number_fields,
}
use opentelemetry_rust_contr.Geneva.Span.{
  Value, KeyValue, Span, span_attribute_field, span_attribute_fields, value_type, write_span_field,
  write_span_fields, determine_span_fields, write_span_row_data,
}
use opentelemetry_rust_contr.Geneva.Span.Spec.{span_base_values}
use opentelemetry_rust_contr.Geneva.Span.Fields.{span_base_fields-types}
use opentelemetry_rust_contr.Geneva.Span.Write.{time, Writes, span_base_values-Writes}

-- An integer attribute under the key `kind`.
abbrev pub kind_attribute : ℕ → KeyValue
kind_attribute n = record {
  key = field_kind;
  value = some (record { value = some (Value.int_value n) });
}

-- Four bytes are no 64-bit integer.
read_value_kind : (n : ℕ) → read_value bt_int64 (write_value [] (int32 n)) ≡ none
unfolding read_value write_value write_numeric to_le_bytes read_le
read_value_kind n = refl

module _ (libs : Libraries) (ascii : HexIsAscii libs) (m : MetadataFields) (s : Span) where
  write_span_fields-front :
      (k : ℕ) (buffer : Bytes) (vs : List Named) (fs : List FieldDef)
      → All (Writes libs ascii m s) vs
      → write_span_fields libs s m
          (time libs ascii m s)
          buffer
          (number_fields k (map named_type vs) ++ fs)
        ≡ write_span_fields libs s m (time libs ascii m s) (write_values buffer vs) fs
  unfolding write_span_fields number_fields write_values
  write_span_fields-front k buffer [] fs h = refl
  write_span_fields-front k buffer ((name, value) ∷ vs) fs h =
      rw (h.0 ((k + 1) % 2 ^ 16) buffer)
        (write_span_fields-front (k + 1) (write_value buffer value) vs fs h.1)

  -- Where hex writes ASCII and the fixed fields' texts and numbers fit their widths, the row of
  -- every span whose only attribute is an integer under the key `kind` is written without a panic,
  -- and it cannot be read by the fields determined for the span: the last field is a 64-bit
  -- integer, and the row ends in the span's 32-bit kind.
  pub read_row-kind_attribute :
      (n : ℕ)
      → s.attributes ≡ kind_attribute n ∷ []
      → All (λ v. Fits v.1) (span_base_values libs m s)
      → (row : Bytes) × (write_span_row_data libs s (determine_span_fields s) m ≡ some row)
        × (read_row (determine_span_fields s) row ≡ none)
  read_row-kind_attribute n only fits =
      let base = span_base_values libs m s in
      let front = number_fields 0 (map named_type base) in
      let last : FieldDef = record {
        name = field_kind;
        field_id = (0 + length (map named_type base) + 1) % 2 ^ 16;
        type_id = bt_int64;
      } in
      let dynamic : span_attribute_fields s.attributes ≡ (field_kind, bt_int64) ∷ [] =
        ap span_attribute_fields only
        ∙ unfold span_attribute_fields span_attribute_field value_type in refl in
      let fields : determine_span_fields s ≡ front ++ last ∷ [] =
        unfold determine_span_fields in
        rw (span_base_fields-types libs m s, dynamic)
          (number_fields-append 0 (map named_type base) ((field_kind, bt_int64) ∷ [])
            ∙ unfold number_fields in refl) in
      let row = write_values [] (base ++ (field_kind, int32 s.kind) ∷ []) in
      (
        row,
        rw fields (
            unfold write_span_row_data in
            write_span_fields-front 0 [] base (last ∷ []) (span_base_values-Writes libs ascii m s)
            ∙ rw (write_values-append [] base ((field_kind, int32 s.kind) ∷ [])) (
                unfold write_span_fields write_span_field str_eq write_values write_value in refl)),
        rw fields (
            read_row_mistyped front base last field_kind (int32 s.kind)
              (field_type-number_fields 0 (map named_type base)) fits (read_value_kind s.kind)),
      )
