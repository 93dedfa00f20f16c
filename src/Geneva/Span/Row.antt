-- ===== src/Geneva/Span/Row.antt =====
-- `write_span_row_data` on the fields that `determine_span_fields` gives, against the span's values.
use opentelemetry_rust_contr.Common.{
  ℕ, ◌+◌, ◌%◌, ◌^◌, List, [], ◌∷◌, false, ◌≡◌, refl, ◌∙◌, some, inl, inr, All, All-append, map,
  Option-cases, arith,
}
use opentelemetry_rust_contr.Common.Bytes.{Bytes}
use opentelemetry_rust_contr.Common.Text.{str_eq, str_eq_refl}
use opentelemetry_rust_contr.Geneva.Value.{
  Named, named_type, Fits, write_value, write_values, read_row, read_row-write_values,
}
use opentelemetry_rust_contr.Geneva.Encoder.{Libraries, MetadataFields, number_fields}
use opentelemetry_rust_contr.Geneva.Encoder.Numbering.{HexIsAscii}
use opentelemetry_rust_contr.Geneva.Span.{
  KeyValue, Span, determine_span_fields, find_attribute, write_span_fields, write_span_row_data,
}
use opentelemetry_rust_contr.Geneva.Span.Fields.{
  determine_span_fields-types, determine_span_fields-values,
}
use opentelemetry_rust_contr.Geneva.Span.Write.{
  time, Writes, span_base_values-Writes, find_attribute-Writes,
}
use opentelemetry_rust_contr.Geneva.Span.Spec.{
  span_attribute, span_attributes, span_base_values, span_values, KeysOk,
}

find_attribute_later :
    (attr : KeyValue) (attrs others : List KeyValue)
    → All (λ (other : KeyValue). str_eq attr.key other.key ≡ false) others
    → All (λ (other : KeyValue). find_attribute other.key attrs ≡ some other) others
    → All (λ (other : KeyValue). find_attribute other.key (attr ∷ attrs) ≡ some other) others
unfolding find_attribute
find_attribute_later attr attrs [] apart found = tt
find_attribute_later attr attrs (other ∷ others) apart found =
    (rw (apart.0, found.0), find_attribute_later attr attrs others apart.1 found.1)

-- Where the keys are apart, the search by an attribute's key finds the attribute.
find_attribute-KeysOk :
    (attrs : List KeyValue)
    → KeysOk attrs
    → All (λ (attr : KeyValue). find_attribute attr.key attrs ≡ some attr) attrs
find_attribute-KeysOk [] h = tt
find_attribute-KeysOk (attr ∷ attrs) h = (
  unfold find_attribute in rw (str_eq_refl attr.key),
  find_attribute_later attr attrs attrs h.1 (find_attribute-KeysOk attrs h.2),
)

span_attribute-key :
    (attr : KeyValue) (named : Named) → span_attribute attr ≡ some named → named.0 ≡ attr.key
unfolding span_attribute
span_attribute-key attr named e = ground arith

module _ (libs : Libraries) (ascii : HexIsAscii libs) (m : MetadataFields) (s : Span) where
  span_attributes-Writes :
      (attrs : List KeyValue)
      → KeysOk attrs
      → All (λ (attr : KeyValue). find_attribute attr.key s.attributes ≡ some attr) attrs
      → All (Writes libs ascii m s) (span_attributes attrs)
  unfolding span_attributes
  span_attributes-Writes [] h found = tt
  span_attributes-Writes (attr ∷ attrs) h found =
      let rest = span_attributes-Writes attrs h.2 found.1 in
      elim (Option-cases (span_attribute attr)) [
        | inl e ↦ rw (e, span_attributes) rest
        | inr ((key, value), e) ↦
            let same : key ≡ attr.key = span_attribute-key attr (key, value) e in
            let there : span_attribute attr ≡ some (attr.key, value) = e ∙ rw same in
            rw (there, span_attributes)
              (find_attribute-Writes libs ascii m s attr value there h.0 found.0, rest)
      ]

  write_span_fields-values :
      (k : ℕ) (buffer : Bytes) (vs : List Named)
      → All (Writes libs ascii m s) vs
      → write_span_fields libs s m
          (time libs ascii m s)
          buffer
          (number_fields k (map named_type vs))
        ≡ some (write_values buffer vs)
  unfolding write_span_fields number_fields write_values
  write_span_fields-values k buffer [] h = refl
  write_span_fields-values k buffer ((name, value) ∷ vs) h =
      rw (h.0 ((k + 1) % 2 ^ 16) buffer)
        (write_span_fields-values (k + 1) (write_value buffer value) vs h.1)

  -- Where no attribute's key is a fixed field's or another attribute's, the row of a span is written
  -- without a panic and is the span's values, in order, each as its type's writer writes it.
  pub write_span_row_data-values :
      KeysOk s.attributes
      → write_span_row_data libs s (determine_span_fields s) m
        ≡ some (write_values [] (span_values libs m s))
  write_span_row_data-values h =
      let values = span_values libs m s in
      let writes : All (Writes libs ascii m s) values =
        unfold span_values in
        All-append (Writes libs ascii m s) (span_base_values libs m s)
          (span_attributes s.attributes) (span_base_values-Writes libs ascii m s)
          (span_attributes-Writes s.attributes h (find_attribute-KeysOk s.attributes h)) in
      unfold write_span_row_data in
      rw (determine_span_fields-values libs m s) (write_span_fields-values 0 [] values writes)

  -- Where hex writes ASCII, no attribute's key is a fixed field's or another attribute's, and the
  -- texts and numbers fit their widths, a span's row is written without a panic and reads back, by
  -- the schema fields determined for the span, as exactly the span's named values with nothing
  -- left over.
  pub read_row-write_span_row_data :
      KeysOk s.attributes
      → All (λ v. Fits v.1) (span_values libs m s)
      → (row : Bytes) × (write_span_row_data libs s (determine_span_fields s) m ≡ some row)
        × (read_row (determine_span_fields s) row ≡ some (span_values libs m s))
  read_row-write_span_row_data h fits = (
    write_values [] (span_values libs m s),
    write_span_row_data-values h,
    read_row-write_values (determine_span_fields s) (span_values libs m s)
        (determine_span_fields-types libs m s) fits,
  )
