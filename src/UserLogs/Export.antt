-- ===== src/UserLogs/Export.antt =====
-- exporter.rs: the parts A, C and B of an event, the choice of the event set, and the export.
use opentelemetry_rust_contr.Common.{
  ℕ, not, List, [], ◌∷◌, ◌++◌, get_elem?, Bool, true, false, Option, none, some, if◌then◌else◌,
}
use mathlib.Core.Option
use opentelemetry_rust_contr.Common.Text.{Str, codes, str_eq}
use opentelemetry_rust_contr.Common.Chars.{any}
use opentelemetry_rust_contr.UserLogs.{
  Severity, trace, trace2, trace3, trace4, debug, debug2, debug3, debug4, info, info2, info3, info4,
  warn, warn2, warn3, warn4, error, error2, error3, error4, fatal, fatal2, fatal3, fatal4, AnyValue,
  boolean, int, double, string, unsigned_int, number, EventBuilder, str_field, int_field, put,
  add_struct_with_bookmark, set_count, value_field, SdkLogRecord, UserEventsExporter, Counting,
  count_more, put_in, when_some,
}

-- The kinds of value of a resource's attribute.
pub data Value : Type 0 where
  bool_value : Bool → Value
  i64_value f64_value : ℕ → Value
  string_value : Str → Value
  other_value : Value

unfoldable pub val_to_any_value : Value → AnyValue
val_to_any_value (bool_value b) = boolean b
val_to_any_value (i64_value i) = int i
val_to_any_value (f64_value f) = double f
val_to_any_value (string_value s) = string s
val_to_any_value other_value = string []

-- `to_string` of a value is a parameter.
unfoldable pub set_resource :
    (Value → Str) → List (Str × Value) → UserEventsExporter → UserEventsExporter
set_resource to_string [] exporter = exporter
set_resource to_string ((key, value) ∷ resource) exporter =
    let exporter : UserEventsExporter =
      if str_eq key (codes "service.name")
      then record exporter { cloud_role = some (to_string value) }
      else if str_eq key (codes "service.instance.id")
      then record exporter { cloud_role_instance = some (to_string value) }
      else if any (str_eq key) exporter.resource_attribute_keys
      then record exporter {
        attributes_from_resource =
            exporter.attributes_from_resource ++ (key, val_to_any_value value) ∷ [];
      }
      else exporter in
    set_resource to_string resource exporter

pub data Level : Type 0 where
  critical_error error_level warning informational verbose : Level

unfoldable pub get_severity_level : Severity → Level
get_severity_level debug = verbose
get_severity_level debug2 = verbose
get_severity_level debug3 = verbose
get_severity_level debug4 = verbose
get_severity_level trace = verbose
get_severity_level trace2 = verbose
get_severity_level trace3 = verbose
get_severity_level trace4 = verbose
get_severity_level info = informational
get_severity_level info2 = informational
get_severity_level info3 = informational
get_severity_level info4 = informational
get_severity_level error = error_level
get_severity_level error2 = error_level
get_severity_level error3 = error_level
get_severity_level error4 = error_level
get_severity_level fatal = critical_error
get_severity_level fatal2 = critical_error
get_severity_level fatal3 = critical_error
get_severity_level fatal4 = critical_error
get_severity_level warn = warning
get_severity_level warn2 = warning
get_severity_level warn3 = warning
get_severity_level warn4 = warning

-- What the crates and the system give: the clock and the format of a time, the level's integer, what
-- comes of `trim`, and whether an event set has a listener.
pub record Outside : Type 0 where
  pub now : ℕ
  pub to_rfc3339 : ℕ → Str
  pub severity_as_i16 : Severity → ℕ
  pub as_int : Level → ℕ
  pub trim : Str → Str
  pub event_name_callback : SdkLogRecord → Str
  pub enabled : Level → Bool

-- The event sets by place; the first one is a dummy.
unfoldable pub event_sets : List (Option Level)
event_sets =
    none
    ∷ some critical_error
    ∷ some error_level
    ∷ some warning
    ∷ some informational
    ∷ some verbose
    ∷ []

module _ (outside : Outside) (exporter : UserEventsExporter) where
  unfoldable pub build_part_a : SdkLogRecord → EventBuilder → EventBuilder
  build_part_a log_record eb =
      let (bookmark, eb) = add_struct_with_bookmark (codes "PartA") 2 eb in
      let event_time =
        Option.get_or
          (elim log_record.timestamp [ none ↦ log_record.observed_timestamp | some t ↦ some t ])
          outside.now in
      let timed =
        put_in (str_field (codes "time") (outside.to_rfc3339 event_time))
          (count_more 1 (record { eb = eb; count = 0 })) in
      let traced =
        when_some log_record.trace_context
          (λ ids st.
            put_in (str_field (codes "ext_dt_spanId") ids.1)
              (put_in (str_field (codes "ext_dt_traceId") ids.0) (count_more 2 st)))
          timed in
      let role =
        when_some exporter.cloud_role
          (λ s st. put_in (str_field (codes "ext_cloud_role") s) (count_more 1 st)) traced in
      let filled =
        when_some exporter.cloud_role_instance
          (λ s st. put_in (str_field (codes "ext_cloud_roleInstance") s) (count_more 1 st)) role in
      set_count bookmark filled.count filled.eb

  -- The variables of the loops of part C.
  pub record PartC : Type 0 where
    pub is_event_id : Bool
    pub event_id : ℕ
    pub is_part_c_present : Bool
    pub cs_c_bookmark : ℕ
    pub filled : Counting

  unfoldable pub open_part_c : PartC → PartC
  open_part_c st =
      let (bookmark, eb) = add_struct_with_bookmark (codes "PartC") 1 st.filled.eb in
      if not st.is_part_c_present
      then record st {
        is_part_c_present = true;
        cs_c_bookmark = bookmark;
        filled = record { eb = eb; count = st.filled.count };
      }
      else st

  unfoldable pub add_attribute : Str × AnyValue → PartC → PartC
  add_attribute (key, value) st = record st {
    filled = count_more 1 (put_in (value_field key value) st.filled);
  }

  -- The number, where the attribute is an event id.
  unfoldable pub event_id_of : Str × AnyValue → Option ℕ
  event_id_of (key, int value) = if str_eq key (codes "event_id") then some value else none
  event_id_of (key, value) = none

  unfoldable pub attribute_turn : Str × AnyValue → PartC → PartC
  attribute_turn attribute st = elim (event_id_of attribute) [
    | some value ↦ record st { is_event_id = true; event_id = value }
    | none ↦ add_attribute attribute (open_part_c st)
  ]

  unfoldable pub attribute_loop : List (Str × AnyValue) → PartC → PartC
  attribute_loop [] st = st
  attribute_loop (attribute ∷ attributes) st =
      attribute_loop attributes (attribute_turn attribute st)

  unfoldable pub resource_loop : List (Str × AnyValue) → PartC → PartC
  resource_loop [] st = st
  resource_loop (attribute ∷ attributes) st = resource_loop attributes (add_attribute attribute st)

  unfoldable pub add_resource : List (Str × AnyValue) → PartC → PartC
  add_resource [] st = st
  add_resource (attribute ∷ attributes) st = resource_loop (attribute ∷ attributes) (open_part_c st)

  unfoldable pub close_part_c : PartC → PartC
  close_part_c st =
      if st.is_part_c_present
      then record st {
        filled = record {
          eb = set_count st.cs_c_bookmark st.filled.count st.filled.eb;
          count = st.filled.count;
        };
      }
      else st

  unfoldable pub build_part_c : SdkLogRecord → EventBuilder → PartC
  build_part_c log_record eb =
      let start : PartC = record {
        is_event_id = false;
        event_id = 0;
        is_part_c_present = false;
        cs_c_bookmark = 0;
        filled = record { eb = eb; count = 0 };
      } in
      close_part_c (
        add_resource exporter.attributes_from_resource (attribute_loop log_record.attributes start))

  -- The event's name, unless it is blank.
  unfoldable pub part_b_name : SdkLogRecord → Option Str
  part_b_name log_record = elim log_record.event_name [
    | none ↦ none
    | some s ↦ elim (outside.trim s) [ [] ↦ none | c ∷ rest ↦ some s ]
  ]

  unfoldable pub build_part_b : Severity → SdkLogRecord → Option ℕ → EventBuilder → EventBuilder
  build_part_b otel_severity log_record event_id eb =
      let (bookmark, eb) = add_struct_with_bookmark (codes "PartB") 1 eb in
      let typed =
        count_more 1
          (put_in (str_field (codes "_typeName") (codes "Log")) (record { eb = eb; count = 0 })) in
      let with_body =
        when_some log_record.body
          (λ value st. count_more 1 (put_in (value_field (codes "body") value) st)) typed in
      let numbered = count_more 1 (
        put_in (int_field (codes "severityNumber") (outside.severity_as_i16 otel_severity))
          with_body) in
      let severe =
        when_some log_record.severity_text
          (λ s st. count_more 1 (put_in (str_field (codes "severityText") s) st)) numbered in
      let identified =
        when_some event_id (λ n st. count_more 1 (put_in (int_field (codes "eventId") n) st))
          severe in
      let filled =
        when_some (part_b_name log_record)
          (λ name st. count_more 1 (put_in (str_field (codes "name") name) st)) identified in
      set_count bookmark filled.count filled.eb

  unfoldable pub build_event : Severity → SdkLogRecord → EventBuilder
  build_event otel_severity log_record =
      let eb =
        put (record { name = codes "__csver__"; value = number 1024; format = unsigned_int })
          (record {
            event_name = outside.event_name_callback log_record;
            calls = [];
            structs = 0;
          }) in
      let part_c = build_part_c log_record (build_part_a log_record eb) in
      build_part_b otel_severity log_record
        (if part_c.is_event_id then some part_c.event_id else none) part_c.filled.eb

  -- The result, and the event that is written to an event set. The code of the write is looked at, but
  -- what it is turned into is dropped.
  unfoldable pub export_log_data : SdkLogRecord → Bool × Option (Level × EventBuilder)
  export_log_data log_record = elim log_record.severity_number [
    | none ↦ (false, none)
    | some otel_severity ↦
        elim (get_elem? event_sets (outside.as_int (get_severity_level otel_severity))) [
          | none ↦ (false, none)
          | some event_set ↦ elim event_set [
            | none ↦ (true, none)
            | some level ↦
                if outside.enabled level
                then (true, some (level, build_event otel_severity log_record))
                else (true, none)
          ]
        ]
  ]

  -- `export` of a batch, which has one record.
  unfoldable pub export : List (SdkLogRecord) → Bool × Option (Level × EventBuilder)
  export [] = (false, none)
  export (log_record ∷ records) = export_log_data log_record

  unfoldable pub event_enabled : Severity → Bool
  event_enabled severity =
      elim (get_elem? event_sets (outside.as_int (get_severity_level severity))) [
        | none ↦ false
        | some event_set ↦ elim event_set [ none ↦ false | some level ↦ outside.enabled level ]
      ]
