-- ===== src/Geneva/Log/Row.antt =====
-- `write_row_data` on the fields that `determine_fields` gives, against the record's values.
use opentelemetry_rust_contr.Common.{
  ℕ, zero, suc, ◌+◌, ◌-◌, ◌%◌, ◌^◌, List, [], ◌∷◌, ◌++◌, true, false, ◌≡◌, refl, ◌∙◌, none, some,
  inl, inr, length, length-append, length-map, get_elem?, All, map, ltb, ==-refl, Option-cases,
  append_assoc, arith,
}
use mathlib.Core.Option
use opentelemetry_rust_contr.Common.Bytes.{Bytes}
use opentelemetry_rust_contr.Common.Text.{Str, str_eq_refl}
use opentelemetry_rust_contr.Geneva.Bond.{FieldDef}
use opentelemetry_rust_contr.Geneva.Value.{
  BondValue, type_of, Named, named_type, Fits, write_value, write_values, read_row,
  read_row-write_values, write_values-append,
}
use opentelemetry_rust_contr.Geneva.Encoder.{
  Libraries, MetadataFields, number_fields, format_timestamp,
}
use opentelemetry_rust_contr.Geneva.Encoder.Numbering.{
  HexIsAscii, length-number_fields, number_fields-append, take_front,
}
use opentelemetry_rust_contr.Geneva.Log.{
  AnyValueView, AttributeView, LogRecordView, determine_fields, record_timestamp, write_base_fields,
  assert_key, write_attribute, written_attribute, write_attributes, write_row_data,
}
use opentelemetry_rust_contr.Geneva.Log.Spec.{
  attribute_value, named_attribute, named_attributes, base_values, record_values,
}
use opentelemetry_rust_contr.Geneva.Log.Fields.{
  base_fields-types, attribute_fields-types, determine_fields-types,
}
use opentelemetry_rust_contr.Geneva.Log.Base.{base_values-Writes, write_base_fields-values}

-- An attribute is written exactly where it has a value, and as that value.
write_attribute-value :
    (v : AnyValueView) (buffer : Bytes)
    → write_attribute v buffer ≡ Option.map (λ value. write_value buffer value) (attribute_value v)
unfolding write_attribute attribute_value write_value
write_attribute-value v buffer = ground arith

after : Bytes → Named → Str × Bytes
after buffer (name, value) = (name, write_value buffer value)

written_attribute-named :
    (attr : AttributeView) (buffer : Bytes)
    → written_attribute attr buffer ≡ Option.map (after buffer) (named_attribute attr)
unfolding written_attribute named_attribute after
written_attribute-named attr buffer = elim (Option-cases attr.value) [
  | inl e ↦ ground arith
  | inr (v, e) ↦ ground (arith, write_attribute-value v buffer)
]

get_elem?_next :
    (fs : List FieldDef) (f : FieldDef) (gs : List FieldDef) (n : ℕ)
    → length fs ≡ n
    → get_elem? (fs ++ f ∷ gs) n ≡ some f
get_elem?_next [] f gs zero e = refl
get_elem?_next [] f gs (suc n) e = absurd (omega arith)
get_elem?_next (g ∷ fs) f gs zero e = absurd (omega arith)
get_elem?_next (g ∷ fs) f gs (suc n) e = get_elem?_next fs f gs n (omega arith)

named_attributes_skip :
    (attr : AttributeView) (attrs : List AttributeView)
    → named_attribute attr ≡ none
    → named_attributes (attr ∷ attrs) ≡ named_attributes attrs
named_attributes_skip attr attrs e = unfold named_attributes in rw (e, named_attributes)

named_attributes_next :
    (attr : AttributeView) (attrs : List AttributeView) (named : Named)
    → named_attribute attr ≡ some named
    → named_attributes (attr ∷ attrs) ≡ named ∷ named_attributes attrs
named_attributes_next attr attrs named e = unfold named_attributes in rw (e, named_attributes)

write_attributes_skip :
    (fields : List FieldDef) (start written : ℕ) (attr : AttributeView) (attrs : List AttributeView)
    (buffer : Bytes)
    → named_attribute attr ≡ none
    → write_attributes fields start (attr ∷ attrs) buffer written
      ≡ write_attributes fields start attrs buffer written
write_attributes_skip fields start written attr attrs buffer e =
    let none_written : written_attribute attr buffer ≡ none =
      written_attribute-named attr buffer ∙ rw e in
    unfold write_attributes in rw (none_written, write_attributes)

write_attributes_next :
    (fields : List FieldDef) (start written : ℕ) (attr : AttributeView) (attrs : List AttributeView)
    (buffer : Bytes) (key : Str) (value : BondValue) (field : FieldDef)
    → named_attribute attr ≡ some (key, value)
    → get_elem? fields (start + written) ≡ some field
    → field.name ≡ key
    → write_attributes fields start (attr ∷ attrs) buffer written
      ≡ write_attributes fields start attrs (write_value buffer value) (written + 1)
write_attributes_next fields start written attr attrs buffer key value field e at same =
    let one_written : written_attribute attr buffer ≡ some (key, write_value buffer value) =
      written_attribute-named attr buffer ∙ rw e (unfold after in refl) in
    let asserted : assert_key fields (start + written) key ≡ some tt =
      unfold assert_key in rw (at, assert_key) (rw (same, str_eq_refl key)) in
    unfold write_attributes in rw (one_written, write_attributes) (rw asserted)

-- The loop over the attributes, where the fields from `start + written` on are theirs: every
-- assertion holds, every value is written, and the count is that of the values.
write_attributes-values :
    (fields front : List FieldDef) (start written k : ℕ) (attrs : List AttributeView)
    (buffer : Bytes)
    → fields ≡ front ++ number_fields k (map named_type (named_attributes attrs))
    → length front ≡ start + written
    → write_attributes fields start attrs buffer written
      ≡ some
          (write_values buffer (named_attributes attrs), written + length (named_attributes attrs))
write_attributes-values fields front start written k [] buffer e n =
    unfold write_attributes named_attributes write_values in
    let z : written ≡ written + 0 = omega arith in rw (← z)
write_attributes-values fields front start written k (attr ∷ attrs) buffer e n =
    elim (Option-cases (named_attribute attr)) [
      | inl skip ↦ rw (named_attributes_skip attr attrs skip) (
          write_attributes_skip fields start written attr attrs buffer skip
          ∙ write_attributes-values fields front start written k attrs buffer
              (e ∙ rw (named_attributes_skip attr attrs skip)) n)
      | inr ((key, value), next) ↦
          let names : named_attributes (attr ∷ attrs) ≡ (key, value) ∷ named_attributes attrs =
            named_attributes_next attr attrs (key, value) next in
          let field : FieldDef = record {
            name = key;
            field_id = (k + 1) % 2 ^ 16;
            type_id = type_of value;
          } in
          let rest = number_fields (k + 1) (map named_type (named_attributes attrs)) in
          let shape : fields ≡ front ++ field ∷ rest =
            e ∙ rw names (unfold number_fields in refl) in
          let count : written + 1 + length (named_attributes attrs)
              ≡ written + suc (length (named_attributes attrs)) =
            omega arith in
          rw names (
            write_attributes_next fields start written attr attrs buffer key value field next
              (rw shape (get_elem?_next front field rest (start + written) n)) refl
            ∙ write_attributes-values fields (front ++ field ∷ []) start (written + 1) (k + 1) attrs
                (write_value buffer value) (shape ∙ rw append_assoc)
                (length-append front (field ∷ []) ∙ omega (arith, n))
            ∙ rw count (unfold write_values in refl))
    ]

module _ (libs : Libraries) (ascii : HexIsAscii libs) (m : MetadataFields) (r : LogRecordView) where
  -- The whole function, from what its two loops write.
  row_of_parts :
      (front back : List FieldDef) (start : ℕ) (ds : List Named) (buffer : Bytes)
      → length front ≡ start
      → length back ≡ length ds
      → write_base_fields libs r m (format_timestamp libs (record_timestamp r)) [] front
        ≡ some buffer
      → write_attributes (front ++ back) start r.attributes buffer 0
        ≡ some (write_values buffer ds, 0 + length ds)
      → write_row_data libs r (front ++ back) start m ≡ some (write_values buffer ds)
  row_of_parts front back start [] buffer n k base attrs =
      let in_range : ltb (length (front ++ back)) start ≡ false =
        rw (length-append front back) (ground arith) in
      let expected : length (front ++ back) - start ≡ 0 =
        rw (length-append front back) (omega arith) in
      unfold write_row_data write_values in
      rw (in_range, take_front start front back n) (rw base (rw expected))
  row_of_parts front back start (d ∷ ds) buffer n k base attrs =
      let in_range : ltb (length (front ++ back)) start ≡ false =
        rw (length-append front back) (ground arith) in
      let expected : length (front ++ back) - start ≡ length (d ∷ ds) =
        rw (length-append front back) (omega arith) in
      let some_left : ltb 0 (length (d ∷ ds)) ≡ true = ground arith in
      let same : 0 + length (d ∷ ds) ≡ length (d ∷ ds) = omega arith in
      unfold write_row_data in
      rw (in_range, take_front start front back n)
        (rw base (rw (expected, attrs) (rw same (rw (==-refl (length (d ∷ ds)), some_left)))))

  -- For every record, `write_row_data` on the fields of `determine_fields` passes all its assertions,
  -- and the row is the record's values, in order, each as its type's writer writes it.
  pub write_row_data-values :
      write_row_data libs r (determine_fields r).0 (determine_fields r).1 m
      ≡ some (write_values [] (record_values libs m r))
  write_row_data-values =
      let bs = base_values libs m r in
      let ds = named_attributes r.attributes in
      let front = number_fields 0 (map named_type bs) in
      let start = length (map named_type bs) in
      let back = number_fields (0 + start) (map named_type ds) in
      let buffer = write_values [] bs in
      let zero_right : start ≡ start + 0 = omega arith in
      let front_length : length front ≡ start = length-number_fields 0 (map named_type bs) in
      let back_length : length back ≡ length ds =
        length-number_fields (0 + start) (map named_type ds) ∙ length-map ds named_type in
      let split : number_fields 0 (map named_type bs ++ map named_type ds) ≡ front ++ back =
        number_fields-append 0 (map named_type bs) (map named_type ds) in
      unfold determine_fields record_values in
      rw
        (
          base_fields-types libs m r,
          attribute_fields-types r.attributes,
          write_values-append [] bs ds,
        )
        (rw split (
          row_of_parts front back start ds buffer front_length back_length
            (write_base_fields-values libs ascii m r 0 [] bs (base_values-Writes libs ascii m r))
            (write_attributes-values (front ++ back) front start 0 (0 + start) r.attributes buffer
              refl (front_length ∙ zero_right))))

  -- Where hex writes ASCII and the texts and numbers fit their widths, a record's row is written
  -- without a panic and reads back, by the schema fields determined for that record, as exactly
  -- the record's named values with nothing left over.
  pub read_row-write_row_data :
      All (λ v. Fits v.1) (record_values libs m r)
      → (row : Bytes) × (write_row_data libs r (determine_fields r).0 (determine_fields r).1 m
          ≡ some row)
        × (read_row (determine_fields r).0 row ≡ some (record_values libs m r))
  read_row-write_row_data fits = (
    write_values [] (record_values libs m r),
    write_row_data-values,
    read_row-write_values (determine_fields r).0 (record_values libs m r)
        (determine_fields-types libs m r) fits,
  )
