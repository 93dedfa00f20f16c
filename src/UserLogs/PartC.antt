-- ===== src/UserLogs/PartC.antt =====
-- Part C holds the attributes of the record that are no event id and those of the resource; it is left out
-- where there are none.
use opentelemetry_rust_contr.Common.{
  ℕ, suc, ◌<◌, List, [], ◌∷◌, ◌++◌, map, length, length-append, append-nil, append_assoc, true,
  false, ◌≡◌, ◌⊎◌, inl, inr, refl, ◌∙◌, Option, none, some, Option-cases, Bool-cases, if◌then◌else◌,
  arith,
}
use opentelemetry_rust_contr.Common.Text.{Str, codes}
use opentelemetry_rust_contr.UserLogs.{
  AnyValue, Field, Call, EventBuilder, SdkLogRecord, UserEventsExporter, value_field,
  add_struct_with_bookmark,
}
use opentelemetry_rust_contr.UserLogs.Export.{
  Outside, PartC, open_part_c, add_attribute, event_id_of, attribute_turn, attribute_loop,
  resource_loop, add_resource, close_part_c, build_part_c,
}
use opentelemetry_rust_contr.UserLogs.Told.{
  told_field, value_field-told, told_event_id, event_id_of-told,
}
use opentelemetry_rust_contr.UserLogs.Reader.{struct_calls}
use opentelemetry_rust_contr.UserLogs.Parts.{Filled, Filled-nothing, Filled-one, calls-struct}

module _ (outside : Outside) (exporter : UserEventsExporter) where
  abbrev C : Type 0
  C = PartC outside exporter

  unfoldable pub own_fields : List (Str × AnyValue) → List Field
  own_fields [] = []
  own_fields (attribute ∷ attributes) =
      let rest = own_fields attributes in
      elim (told_event_id outside exporter attribute) [
        | some value ↦ rest
        | none ↦ told_field attribute.0 attribute.1 ∷ rest
      ]

  abbrev pub resource_fields : List (Str × AnyValue) → List Field
  resource_fields attributes = map (λ attribute. told_field attribute.0 attribute.1) attributes

  unfoldable pub part_c_fields : SdkLogRecord → List Field
  part_c_fields r = own_fields r.attributes ++ resource_fields exporter.attributes_from_resource

  -- The last event id.
  unfoldable pub last_event_id : Option ℕ → List (Str × AnyValue) → Option ℕ
  last_event_id before [] = before
  last_event_id before (attribute ∷ attributes) =
      last_event_id
        (elim (told_event_id outside exporter attribute) [
          | some value ↦ some value
          | none ↦ before
        ])
        attributes

  abbrev pub event_id_in : C → Option ℕ
  event_id_in st = if st.is_event_id then some st.event_id else none

  -- What the builder holds: no struct, or an open one.
  abbrev IsOpen : EventBuilder → List Field → C → Type 0
  IsOpen eb fields st =
      (st.is_part_c_present ≡ true)
      × (st.cs_c_bookmark ≡ eb.structs)
      × Filled (add_struct_with_bookmark (codes "PartC") 1 eb).1 fields st.filled

  abbrev IsUnopened : EventBuilder → List Field → C → Type 0
  IsUnopened eb fields st =
      (st.is_part_c_present ≡ false) × (fields ≡ []) × (st.filled ≡ record { eb = eb; count = 0 })

  abbrev Holds : EventBuilder → List Field → C → Type 0
  Holds eb fields st = IsUnopened eb fields st ⊎ ((0 < length fields) × IsOpen eb fields st)

  open_part_c-IsOpen :
      (eb : EventBuilder) (fields : List Field) (st : C)
      → Holds eb fields st
      → IsOpen eb fields (open_part_c outside exporter st)
  unfolding open_part_c
  open_part_c-IsOpen eb fields st (inl (closed, nothing, same)) =
      rw (closed, same, nothing) (refl, unfold add_struct_with_bookmark in refl, Filled-nothing _)
  open_part_c-IsOpen eb fields st (inr (some_fields, (is_open, bookmark, filled))) =
      rw (is_open) (refl, bookmark, filled)

  add_attribute-IsOpen :
      (eb : EventBuilder) (fields : List Field) (attribute : Str × AnyValue) (st : C)
      → IsOpen eb fields st
      → IsOpen eb
          (fields ++ told_field attribute.0 attribute.1 ∷ [])
          (add_attribute outside exporter attribute st)
  unfolding add_attribute
  add_attribute-IsOpen eb fields (key, value) st (is_open, bookmark, filled) = (
    is_open,
    bookmark,
    rw (← value_field-told key value)
        (Filled-one _ fields (value_field key value) st.filled filled),
  )

  attribute_turn-some :
      (attribute : Str × AnyValue) (st : C) (value : ℕ)
      → event_id_of outside exporter attribute ≡ some value
      → attribute_turn outside exporter attribute st
        ≡ record st { is_event_id = true; event_id = value }
  unfolding attribute_turn
  attribute_turn-some attribute st value e = rw (e, attribute_turn) refl

  attribute_turn-none :
      (attribute : Str × AnyValue) (st : C)
      → event_id_of outside exporter attribute ≡ none
      → attribute_turn outside exporter attribute st
        ≡ add_attribute outside exporter attribute (open_part_c outside exporter st)
  unfolding attribute_turn
  attribute_turn-none attribute st e = rw (e, attribute_turn) refl

  added-event_id :
      (attribute : Str × AnyValue) (st : C)
      → event_id_in (add_attribute outside exporter attribute (open_part_c outside exporter st))
        ≡ event_id_in st
  unfolding add_attribute open_part_c
  added-event_id attribute st = elim (Bool-cases st.is_part_c_present) [
    | inl e ↦ simp (e) refl
    | inr e ↦ simp (e) refl
  ]

  attribute_loop-Holds :
      (eb : EventBuilder) (attributes : List (Str × AnyValue)) (fields : List Field) (st : C)
      → Holds eb fields st
      → Holds eb (fields ++ own_fields attributes) (attribute_loop outside exporter attributes st)
  unfolding attribute_loop own_fields
  attribute_loop-Holds eb [] fields st h = rw (append-nil fields) h
  attribute_loop-Holds eb (attribute ∷ attributes) fields st h =
      elim (Option-cases (event_id_of outside exporter attribute)) [
        | inr (value, e) ↦
            rw
              (
                attribute_turn-some attribute st value e,
                event_id_of-told outside exporter attribute,
                e,
                attribute_loop,
                own_fields,
              )
              (attribute_loop-Holds eb attributes fields
                (record st { is_event_id = true; event_id = value }) h)
        | inl e ↦
            let longer : 0 < length (fields ++ told_field attribute.0 attribute.1 ∷ []) =
              omega (arith, length-append fields (told_field attribute.0 attribute.1 ∷ [])) in
            let added =
              add_attribute-IsOpen eb fields attribute _ (open_part_c-IsOpen eb fields st h) in
            rw
              (
                attribute_turn-none attribute st e,
                event_id_of-told outside exporter attribute,
                e,
                attribute_loop,
                own_fields,
                ← append_assoc fields (told_field attribute.0 attribute.1 ∷ [])
                    (own_fields attributes),
              )
              (attribute_loop-Holds eb attributes _ _ (inr (longer, added)))
      ]

  resource_loop-IsOpen :
      (eb : EventBuilder) (attributes : List (Str × AnyValue)) (fields : List Field) (st : C)
      → IsOpen eb fields st
      → IsOpen eb
          (fields ++ resource_fields attributes)
          (resource_loop outside exporter attributes st)
  unfolding resource_loop
  resource_loop-IsOpen eb [] fields st h = rw (append-nil fields) h
  resource_loop-IsOpen eb (attribute ∷ attributes) fields st h =
      rw
        (← append_assoc fields (told_field attribute.0 attribute.1 ∷ [])
          (resource_fields attributes))
        (resource_loop-IsOpen eb attributes _ _ (add_attribute-IsOpen eb fields attribute st h))

  attribute_loop-event_id :
      (attributes : List (Str × AnyValue)) (st : C)
      → event_id_in (attribute_loop outside exporter attributes st)
        ≡ last_event_id (event_id_in st) attributes
  unfolding attribute_loop last_event_id
  attribute_loop-event_id [] st = refl
  attribute_loop-event_id (attribute ∷ attributes) st =
      elim (Option-cases (event_id_of outside exporter attribute)) [
        | inr (value, e) ↦
            rw
              (
                attribute_turn-some attribute st value e,
                event_id_of-told outside exporter attribute,
                e,
                attribute_loop,
              )
              (attribute_loop-event_id attributes _)
        | inl e ↦
            rw
              (
                attribute_turn-none attribute st e,
                event_id_of-told outside exporter attribute,
                e,
                attribute_loop,
              )
              (attribute_loop-event_id attributes _ ∙ rw (added-event_id attribute st) refl)
      ]

  -- The calls for part C, where it is there.
  unfoldable pub part_c_calls : ℕ → List Field → List Call
  part_c_calls bookmark [] = []
  part_c_calls bookmark (field ∷ fields) = struct_calls bookmark (codes "PartC") 1 (field ∷ fields)

  unfoldable pub structs_after : ℕ → List Field → ℕ
  structs_after structs [] = structs
  structs_after structs (field ∷ fields) = suc structs

  close_part_c-Wrote :
      (eb : EventBuilder) (fields : List Field) (all : C)
      → Holds eb fields all
      → ((close_part_c outside exporter all).filled.eb.calls
          ≡ eb.calls ++ part_c_calls eb.structs fields)
        × ((close_part_c outside exporter all).filled.eb.structs ≡ structs_after eb.structs fields)
        × ((close_part_c outside exporter all).filled.eb.event_name ≡ eb.event_name)
        × (event_id_in (close_part_c outside exporter all) ≡ event_id_in all)
  unfolding close_part_c part_c_calls structs_after
  close_part_c-Wrote eb fields all (inl (closed, nothing, same)) =
      rw (closed, same, nothing) (rw (append-nil), refl, refl, refl)
  close_part_c-Wrote eb [] all (inr (some_fields, (is_open, bookmark, filled))) =
      absurd (omega arith)
  close_part_c-Wrote eb (field ∷ fields) all (inr (some_fields, (is_open, bookmark, filled))) =
      let (calls, structs, name) =
        calls-struct (codes "PartC") 1 eb (field ∷ fields) all.filled filled in
      rw (is_open, bookmark) (calls, structs, name, refl)

  add_resource-Holds :
      (eb : EventBuilder) (resource : List (Str × AnyValue)) (fields : List Field) (own : C)
      → Holds eb fields own
      → Holds eb (fields ++ resource_fields resource) (add_resource outside exporter resource own)
  unfolding add_resource
  add_resource-Holds eb [] fields own h = rw (append-nil fields) h
  add_resource-Holds eb (attribute ∷ attributes) fields own h = inr (
    omega (arith, length-append fields (resource_fields (attribute ∷ attributes))),
    resource_loop-IsOpen eb (attribute ∷ attributes) fields _ (open_part_c-IsOpen eb fields own h),
  )

  resource_loop-event_id :
      (attributes : List (Str × AnyValue)) (st : C)
      → event_id_in (resource_loop outside exporter attributes st) ≡ event_id_in st
  unfolding resource_loop add_attribute
  resource_loop-event_id [] st = refl
  resource_loop-event_id (attribute ∷ attributes) st = resource_loop-event_id attributes _

  add_resource-event_id :
      (resource : List (Str × AnyValue)) (st : C)
      → event_id_in (add_resource outside exporter resource st) ≡ event_id_in st
  unfolding add_resource add_attribute
  add_resource-event_id [] st = refl
  add_resource-event_id (attribute ∷ attributes) st =
      resource_loop-event_id (attribute ∷ attributes) (open_part_c outside exporter st)
      ∙ added-event_id attribute st

  pub build_part_c-Wrote :
      (r : SdkLogRecord) (eb : EventBuilder)
      → let part_c = build_part_c outside exporter r eb in
        (part_c.filled.eb.calls ≡ eb.calls ++ part_c_calls eb.structs (part_c_fields r))
        × (part_c.filled.eb.structs ≡ structs_after eb.structs (part_c_fields r))
        × (part_c.filled.eb.event_name ≡ eb.event_name)
        × (event_id_in part_c ≡ last_event_id none r.attributes)
  unfolding build_part_c part_c_fields
  build_part_c-Wrote r eb =
      let start : C = record {
        is_event_id = false;
        event_id = 0;
        is_part_c_present = false;
        cs_c_bookmark = 0;
        filled = record { eb = eb; count = 0 };
      } in
      let own = attribute_loop-Holds eb r.attributes [] start (inl (refl, refl, refl)) in
      let all =
        add_resource-Holds eb exporter.attributes_from_resource (own_fields r.attributes) _ own in
      let (calls, structs, name, same) = close_part_c-Wrote eb (part_c_fields r) _ all in
      (
        calls,
        structs,
        name,
        same
            ∙ (add_resource-event_id exporter.attributes_from_resource _
                ∙ attribute_loop-event_id r.attributes start),
      )
