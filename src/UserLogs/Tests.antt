-- ===== src/UserLogs/Tests.antt =====
-- Events of log records with concrete surroundings.
use opentelemetry_rust_contr.Common.{arith, [], ◌∷◌, true, ◌≡◌, refl, none, some}
use opentelemetry_rust_contr.Common.Text.{codes, str_eq}
use opentelemetry_rust_contr.Common.Chars.{any}
use opentelemetry_rust_contr.UserLogs.{
  int, string, boolean, EventBuilder, warn2, SdkLogRecord, UserEventsExporter,
}
use opentelemetry_rust_contr.UserLogs.Export.{
  Outside, critical_error, error_level, warning, informational, verbose, string_value, i64_value,
  set_resource, val_to_any_value, export_log_data,
}
use opentelemetry_rust_contr.UserLogs.Told.{told_level, number_of, told_event_id, told_int}
use opentelemetry_rust_contr.UserLogs.PartC.{part_c_fields, own_fields}
use opentelemetry_rust_contr.UserLogs.Reader.{read_calls}
use opentelemetry_rust_contr.UserLogs.Written.{LevelLaw, event_parts, export_log_data-event_parts}

abbrev outside : Outside
outside = record {
  now = 77;
  to_rfc3339 = λ t. t ∷ [];
  severity_as_i16 = λ s. 14;
  as_int = λ level. elim level [
    | critical_error ↦ 1
    | error_level ↦ 2
    | warning ↦ 3
    | informational ↦ 4
    | verbose ↦ 5
  ];
  trim = λ s. s;
  event_name_callback = λ r. codes "Log";
  enabled = λ level. true;
}

abbrev empty_exporter : UserEventsExporter
empty_exporter = record {
  cloud_role = none;
  cloud_role_instance = none;
  attributes_from_resource = [];
  resource_attribute_keys = codes "region" ∷ [];
}

abbrev exporter : UserEventsExporter
exporter = record empty_exporter {
  cloud_role = some (codes "api");
  attributes_from_resource = (codes "region", string (codes "eu")) ∷ [];
}

-- The resource's attributes go to part A, to part C or nowhere.
exporter_set :
    set_resource
      (λ value. codes "api")
      ((codes "service.name", string_value (codes "api"))
        ∷ (codes "zone", i64_value 4)
        ∷ (codes "region", string_value (codes "eu"))
        ∷ [])
      empty_exporter
    ≡ exporter
unfolding set_resource str_eq val_to_any_value any
exporter_set = refl

-- A record with an event id between two attributes.
abbrev warned : SdkLogRecord
warned = record {
  timestamp = none;
  observed_timestamp = some 5;
  trace_context = some (codes "0af7", codes "b7ad");
  severity_number = some warn2;
  severity_text = none;
  body = some (string (codes "disk full"));
  attributes =
      (codes "disk", int 3) ∷ (codes "event_id", int 20) ∷ (codes "mounted", boolean true) ∷ [];
  event_name = some (codes "Disk");
}

outside-LevelLaw : LevelLaw outside exporter
outside-LevelLaw = record {
  critical_error_is = refl;
  error_is = refl;
  warning_is = refl;
  informational_is = refl;
  verbose_is = refl;
}

export_log_data-event_parts_example :
    (eb : EventBuilder) × (export_log_data outside exporter warned ≡ (true, some (warning, eb)))
    × (eb.event_name ≡ codes "Log")
    × (read_calls 0 none eb.calls ≡ some (event_parts outside exporter warn2 warned))
unfolding told_level number_of part_c_fields own_fields told_event_id told_int str_eq
export_log_data-event_parts_example =
    export_log_data-event_parts outside exporter outside-LevelLaw warned warn2 refl refl
      (omega arith)
