-- ===== src/UserLogs/Written.antt =====
-- The event that is written for a log record, against the parts that it is to have.
use opentelemetry_rust_contr.Common.{
  ℕ, suc, List, [], ◌∷◌, ◌++◌, get_elem?, length, length-append, ◌<◌, ◌^◌, arith, append-nil,
  append_assoc, true, ◌≡◌, refl, ◌∙◌, Option, none, some,
}
use mathlib.Core.Option
use opentelemetry_rust_contr.Common.Text.{Str, codes}
use opentelemetry_rust_contr.UserLogs.{
  Field, unsigned_int, number, Call, add, EventBuilder, Severity, SdkLogRecord, UserEventsExporter,
  str_field, int_field, value_field, put, put_in, count_more, add_struct_with_bookmark,
}
use opentelemetry_rust_contr.UserLogs.Export.{
  Outside, Level, critical_error, error_level, warning, informational, verbose, event_sets,
  build_part_a, build_part_b, part_b_name, build_part_c, build_event, export_log_data,
}
use opentelemetry_rust_contr.UserLogs.Told.{
  told_field, value_field-told, told_level, get_severity_level-told, told_name, part_b_name-told,
}
use opentelemetry_rust_contr.UserLogs.Reader.{
  Part, single, struct, read_calls, struct_calls, read_calls-struct_calls,
}
use opentelemetry_rust_contr.UserLogs.PartC.{
  part_c_fields, last_event_id, part_c_calls, structs_after, event_id_in, build_part_c-Wrote,
}
use opentelemetry_rust_contr.UserLogs.Parts.{
  Filled-nothing, Filled-one, Filled-counted, Filled-pair, Filled-when_some, fields_if,
  length-fields_if, calls-struct,
}

-- The fields of the parts.
module _ (outside : Outside) (exporter : UserEventsExporter) where
  unfoldable pub part_a_fields : SdkLogRecord → List Field
  part_a_fields r =
      let event_time =
        Option.get_or (elim r.timestamp [ none ↦ r.observed_timestamp | some t ↦ some t ])
          outside.now in
      str_field (codes "time") (outside.to_rfc3339 event_time) ∷ []
      ++ fields_if r.trace_context (λ ids.
        str_field (codes "ext_dt_traceId") ids.0 ∷ str_field (codes "ext_dt_spanId") ids.1 ∷ [])
      ++ fields_if exporter.cloud_role (λ s. str_field (codes "ext_cloud_role") s ∷ [])
      ++ fields_if exporter.cloud_role_instance
          (λ s. str_field (codes "ext_cloud_roleInstance") s ∷ [])

  unfoldable pub part_b_fields : Severity → SdkLogRecord → Option ℕ → List Field
  part_b_fields severity r event_id =
      str_field (codes "_typeName") (codes "Log") ∷ []
      ++ fields_if r.body (λ value. told_field (codes "body") value ∷ [])
      ++ int_field (codes "severityNumber") (outside.severity_as_i16 severity) ∷ []
      ++ fields_if r.severity_text (λ s. str_field (codes "severityText") s ∷ [])
      ++ fields_if event_id (λ n. int_field (codes "eventId") n ∷ [])
      ++ fields_if (told_name outside exporter r.event_name)
          (λ name. str_field (codes "name") name ∷ [])

  -- What each part leaves behind a builder.
  abbrev Wrote : Str → ℕ → List Field → EventBuilder → EventBuilder → Type 0
  Wrote name initial fields eb after =
      (after.calls ≡ eb.calls ++ struct_calls eb.structs name initial fields)
      × (after.structs ≡ suc eb.structs)
      × (after.event_name ≡ eb.event_name)

  build_part_a-Wrote :
      (r : SdkLogRecord) (eb : EventBuilder)
      → Wrote (codes "PartA") 2 (part_a_fields r) eb (build_part_a outside exporter r eb)
  unfolding build_part_a part_a_fields add_struct_with_bookmark
  build_part_a-Wrote r eb =
      let start = (add_struct_with_bookmark (codes "PartA") 2 eb).1 in
      let timed = Filled-counted start [] _ _ (Filled-nothing start) in
      let traced =
        Filled-when_some start _ _ r.trace_context _ _ timed
          (λ ids. Filled-pair start _ _ _ _ timed) in
      let role =
        Filled-when_some start _ _ exporter.cloud_role _ _ traced
          (λ s. Filled-counted start _ _ _ traced) in
      let filled =
        Filled-when_some start _ _ exporter.cloud_role_instance _ _ role
          (λ s. Filled-counted start _ _ _ role) in
      calls-struct (codes "PartA") 2 eb _ _ filled

  build_part_b-Wrote :
      (severity : Severity) (r : SdkLogRecord) (event_id : Option ℕ) (eb : EventBuilder)
      → Wrote
          (codes "PartB")
          1
          (part_b_fields severity r event_id)
          eb
          (build_part_b outside exporter severity r event_id eb)
  unfolding build_part_b part_b_fields add_struct_with_bookmark
  build_part_b-Wrote severity r event_id eb =
      let start = (add_struct_with_bookmark (codes "PartB") 1 eb).1 in
      let typed = Filled-one start [] _ _ (Filled-nothing start) in
      let with_body =
        Filled-when_some start _ _ r.body (λ v. told_field (codes "body") v ∷ [])
          (λ v st. count_more 1 (put_in (value_field (codes "body") v) st)) typed
          (λ v. rw (← value_field-told (codes "body") v) (Filled-one start _ _ _ typed)) in
      let numbered = Filled-one start _ _ _ with_body in
      let severe =
        Filled-when_some start _ _ r.severity_text _ _ numbered
          (λ s. Filled-one start _ _ _ numbered) in
      let identified =
        Filled-when_some start _ _ event_id _ _ severe (λ n. Filled-one start _ _ _ severe) in
      let filled =
        Filled-when_some start _ _ (part_b_name outside exporter r) _ _ identified
          (λ n. Filled-one start _ _ _ identified) in
      rw (← part_b_name-told outside exporter r) (calls-struct (codes "PartB") 1 eb _ _ filled)

  unfoldable pub part_c_parts : List Field → List Part
  part_c_parts [] = []
  part_c_parts (field ∷ fields) = struct (codes "PartC") (field ∷ fields) ∷ []

  abbrev pub version_field : Field
  version_field = record { name = codes "__csver__"; value = number 1024; format = unsigned_int }

  -- What an event is to have.
  unfoldable pub event_parts : Severity → SdkLogRecord → List Part
  event_parts severity r =
      single version_field
      ∷ struct (codes "PartA") (part_a_fields r)
      ∷ (part_c_parts (part_c_fields outside exporter r)
          ++ struct (codes "PartB")
              (part_b_fields severity r (last_event_id outside exporter none r.attributes))
            ∷ [])

  abbrev event_calls : Severity → SdkLogRecord → List Call
  event_calls severity r =
      let fields = part_c_fields outside exporter r in
      add version_field
      ∷ (struct_calls 0 (codes "PartA") 2 (part_a_fields r)
          ++ (part_c_calls outside exporter 1 fields
              ++ struct_calls (structs_after outside exporter 1 fields) (codes "PartB") 1
                  (part_b_fields severity r (last_event_id outside exporter none r.attributes))))

  build_event-calls :
      (severity : Severity) (r : SdkLogRecord)
      → ((build_event outside exporter severity r).calls ≡ event_calls severity r)
        × ((build_event outside exporter severity r).event_name ≡ outside.event_name_callback r)
  unfolding build_event put
  build_event-calls severity r =
      let eb0 =
        put version_field
          (record { event_name = outside.event_name_callback r; calls = []; structs = 0 }) in
      let eb1 = build_part_a outside exporter r eb0 in
      let c = build_part_c outside exporter r eb1 in
      let (calls_a, structs_a, name_a) = build_part_a-Wrote r eb0 in
      let (calls_c, structs_c, name_c, event_id) = build_part_c-Wrote outside exporter r eb1 in
      let (calls_b, structs_b, name_b) =
        build_part_b-Wrote severity r (event_id_in outside exporter c) c.filled.eb in
      (
        calls_b
            ∙ rw (event_id, calls_c, structs_c, calls_a, structs_a)
                (append_assoc
                  (add version_field ∷ struct_calls 0 (codes "PartA") 2 (part_a_fields r))
                  (part_c_calls outside exporter 1 (part_c_fields outside exporter r)) _),
        name_b ∙ (name_c ∙ name_a),
      )

  part_a_fields-few : (r : SdkLogRecord) → length (part_a_fields r) < 2 ^ 7
  unfolding part_a_fields
  part_a_fields-few r =
      let ids =
        length-fields_if r.trace_context
          (λ ids.
            str_field (codes "ext_dt_traceId") ids.0 ∷ str_field (codes "ext_dt_spanId") ids.1 ∷ [])
          2 (λ ids. omega arith) in
      let role =
        length-fields_if exporter.cloud_role (λ s. str_field (codes "ext_cloud_role") s ∷ []) 1
          (λ s. omega arith) in
      let role_instance =
        length-fields_if exporter.cloud_role_instance
          (λ s. str_field (codes "ext_cloud_roleInstance") s ∷ []) 1 (λ s. omega arith) in
      simp (length-append) (omega (arith, ids, role, role_instance))

  part_b_fields-few :
      (severity : Severity) (r : SdkLogRecord) (event_id : Option ℕ)
      → length (part_b_fields severity r event_id) < 2 ^ 7
  unfolding part_b_fields
  part_b_fields-few severity r event_id =
      let body =
        length-fields_if r.body (λ value. told_field (codes "body") value ∷ []) 1
          (λ v. omega arith) in
      let severe =
        length-fields_if r.severity_text (λ s. str_field (codes "severityText") s ∷ []) 1
          (λ s. omega arith) in
      let identified =
        length-fields_if event_id (λ n. int_field (codes "eventId") n ∷ []) 1 (λ n. omega arith) in
      let named =
        length-fields_if (told_name outside exporter r.event_name)
          (λ name. str_field (codes "name") name ∷ []) 1 (λ name. omega arith) in
      simp (length-append) (omega (arith, body, severe, identified, named))

  read_calls-last :
      (n : ℕ) (name : Str) (fields : List Field)
      → length fields < 2 ^ 7
      → read_calls n none (struct_calls n name 1 fields) ≡ some (struct name fields ∷ [])
  unfolding read_calls
  read_calls-last n name fields small =
      rw (append-nil (struct_calls n name 1 fields)) at
        (read_calls-struct_calls n name 1 fields [] small)

  read_calls-tail :
      (c_fields b_fields : List Field)
      → length c_fields < 2 ^ 7
      → length b_fields < 2 ^ 7
      → read_calls 1 none (
          part_c_calls outside exporter 1 c_fields
          ++ struct_calls (structs_after outside exporter 1 c_fields) (codes "PartB") 1 b_fields)
        ≡ some (part_c_parts c_fields ++ struct (codes "PartB") b_fields ∷ [])
  unfolding part_c_calls part_c_parts structs_after
  read_calls-tail [] b_fields small_c small_b = read_calls-last 1 (codes "PartB") b_fields small_b
  read_calls-tail (field ∷ fields) b_fields small_c small_b =
      read_calls-struct_calls 1 (codes "PartC") 1 (field ∷ fields)
        (struct_calls 2 (codes "PartB") 1 b_fields) small_c
      ∙ rw (read_calls-last 2 (codes "PartB") b_fields small_b) refl

  read_calls-add :
      (n : ℕ) (field : Field) (calls : List Call) (parts : List Part)
      → read_calls n none calls ≡ some parts
      → read_calls n none (add field ∷ calls) ≡ some (single field ∷ parts)
  unfolding read_calls
  read_calls-add n field calls parts h = rw (h) refl

  read_calls-event :
      (severity : Severity) (r : SdkLogRecord)
      → length (part_c_fields outside exporter r) < 2 ^ 7
      → read_calls 0 none (event_calls severity r) ≡ some (event_parts severity r)
  unfolding event_parts
  read_calls-event severity r small =
      let b_fields = part_b_fields severity r (last_event_id outside exporter none r.attributes) in
      let c_fields = part_c_fields outside exporter r in
      read_calls-add 0 version_field _ _ (
        read_calls-struct_calls 0 (codes "PartA") 2 (part_a_fields r)
          (part_c_calls outside exporter 1 c_fields
            ++ struct_calls (structs_after outside exporter 1 c_fields) (codes "PartB") 1 b_fields)
          (part_a_fields-few r)
        ∙ rw (read_calls-tail c_fields b_fields small (part_b_fields-few severity r _)) refl)

  -- The integers of the levels, as eventheader documents them.
  pub record LevelLaw : Type 0 where
    pub critical_error_is : outside.as_int critical_error ≡ 1
    pub error_is : outside.as_int error_level ≡ 2
    pub warning_is : outside.as_int warning ≡ 3
    pub informational_is : outside.as_int informational ≡ 4
    pub verbose_is : outside.as_int verbose ≡ 5

  event_sets-level :
      LevelLaw → (level : Level) → get_elem? event_sets (outside.as_int level) ≡ some (some level)
  unfolding event_sets
  event_sets-level law critical_error = rw (law.critical_error_is) refl
  event_sets-level law error_level = rw (law.error_is) refl
  event_sets-level law warning = rw (law.warning_is) refl
  event_sets-level law informational = rw (law.informational_is) refl
  event_sets-level law verbose = rw (law.verbose_is) refl

  -- Where the levels have the integers that eventheader documents and a part C has at most 127
  -- fields, a record with a severity whose level has a listener is written, as one event with the
  -- record's name, to the event set of that level. The level is that of the severity's number:
  -- verbose up to 8, informational up to 12, warning up to 16, error up to 20, and then critical.
  -- Every struct has the count of its fields, and a reader of the event gets the version, part A,
  -- part C with the attributes that are no event id, if there are any, and part B, each field with
  -- the value and the format of its kind of value.
  pub export_log_data-event_parts :
      LevelLaw
      → (r : SdkLogRecord) (severity : Severity) → r.severity_number ≡ some severity
      → outside.enabled (told_level severity) ≡ true
      → length (part_c_fields outside exporter r) < 2 ^ 7
      → (eb : EventBuilder) × (export_log_data outside exporter r
          ≡ (true, some (told_level severity, eb)))
        × (eb.event_name ≡ outside.event_name_callback r)
        × (read_calls 0 none eb.calls ≡ some (event_parts severity r))
  unfolding export_log_data event_sets build_event
  export_log_data-event_parts law r severity known enabled small =
      let (calls, name) = build_event-calls severity r in
      (
        build_event outside exporter severity r,
        rw
            (
              known,
              get_severity_level-told severity,
              event_sets-level law (told_level severity),
              enabled,
            )
            refl,
        name,
        rw (calls) (read_calls-event severity r small),
      )
