-- ===== src/UserEvents/Tests.antt =====
-- The exporter of metrics with a concrete encoding and kernel.
use opentelemetry_rust_contr.Common.{
  ℕ, ltb, length, [], ◌∷◌, ◌++◌, map, All, true, ◌≡◌, ◌↔◌, Option, none, some, if◌then◌else◌,
}
use opentelemetry_rust_contr.Common.Bytes.{Bytes}
use opentelemetry_rust_contr.Common.Text.{codes}
use opentelemetry_rust_contr.UserEvents.{
  Sdk, NumberPoint, Metric, ResourceMetrics, Request, after_epoch, before_epoch, gauge, sum_of, u64,
  i64,
}
use opentelemetry_rust_contr.UserEvents.Tracepoint.{
  Outside, Log, event_of, encode_and_emit_metric, write_event_data,
}
use opentelemetry_rust_contr.UserEvents.Points.{metric_template}
use opentelemetry_rust_contr.UserEvents.Spec.{
  points_of, numeric_points, point_requests, emit_requests,
}
use opentelemetry_rust_contr.UserEvents.Export.{
  ExportResult, exported, internal_failure, scope_template, export_resource_metrics, export_all,
}
use opentelemetry_rust_contr.UserEvents.Refinement.{export_resource_metrics-point_requests}
use opentelemetry_rust_contr.UserEvents.Delivery.{
  Readable, accepted, export_all-delivers, export_resource_metrics-Readable,
}

abbrev sdk : Sdk
sdk = record {
  KeyValue = ℕ;
  ProtoKeyValue = ℕ;
  Resource = ℕ;
  ProtoResource = ℕ;
  Scope = ℕ;
  ProtoScope = ℕ;
  key_value_into = λ n. n;
  resource_into = λ n. n;
  resource_schema_url = λ n. none;
  scope_into = λ n. n;
  scope_schema_url = λ n. none;
  default_flags = 0;
  u64_as_f64 = λ n. n;
  i64_as_f64 = λ n. n;
}

abbrev point : ℕ → NumberPoint sdk
point n = record { attributes = n ∷ []; value = n }

abbrev requests_metric : Metric sdk
requests_metric = record {
  name = codes "requests";
  description = [];
  unit = codes "1";
  aggregated = u64 (
      sum_of (record {
        start_time = before_epoch 5;
        time = after_epoch 1700000000000000000;
        temporality = 1;
        is_monotonic = true;
        data_points = point 3 ∷ point 4 ∷ [];
      }));
}

abbrev level_metric : Metric sdk
level_metric = record {
  name = codes "level";
  description = [];
  unit = codes "m";
  aggregated =
      i64 (gauge (record { start_time = none; time = after_epoch 7; data_points = point 9 ∷ [] }));
}

abbrev resource : ResourceMetrics sdk
resource = record {
  resource = 1;
  scope_metrics =
      (record { scope = 2; metrics = requests_metric ∷ [] })
      ∷ (record { scope = 3; metrics = [] })
      ∷ (record { scope = 4; metrics = level_metric ∷ [] })
      ∷ [];
}

-- The name of the first metric stands for the encoding.
abbrev encoded : Request sdk → Option Bytes
encoded (r ∷ _) = elim r.scope_metrics [
  | [] ↦ none
  | s ∷ _ ↦ elim s.metrics [ [] ↦ none | m ∷ _ ↦ some m.name ]
]
encoded [] = none

-- A kernel that takes everything, and one that refuses the second event.
abbrev willing : Outside sdk
willing = record { prost_encode = encoded; answer = λ log event. 0 }

abbrev refusing : Outside sdk
refusing = record {
  prost_encode = encoded;
  answer = λ log event. if ltb 0 (length log) then 13 else 0;
}

abbrev taken : Log
taken =
    (event_of (codes "requests"), 0)
    ∷ (event_of (codes "requests"), 0)
    ∷ (event_of (codes "level"), 0)
    ∷ []

export_resource_metrics-point_requests_example :
    export_resource_metrics refusing resource []
    ≡ some (
      if ltb 0 (emit_requests refusing (point_requests resource) []).0
          then internal_failure
          else exported,
      (emit_requests refusing (point_requests resource) []).1,
    )
export_resource_metrics-point_requests_example =
    export_resource_metrics-point_requests refusing resource []

all_exported : export_all willing true resource [] ≡ some (exported, taken)
unfolding export_all emit_requests encode_and_emit_metric write_event_data points_of numeric_points
    metric_template scope_template
all_exported = export_resource_metrics-point_requests willing resource []

export_all-delivers_example :
    (new : Log) × (taken ≡ [] ++ new)
    × (map (λ entry. some entry.0.buffer) new ≡ map encoded (point_requests resource))
    × All (λ entry. entry.1 ≡ 0) new
export_all-delivers_example = export_all-delivers willing resource [] taken all_exported

export_resource_metrics-Readable_example :
    (result : ExportResult) × (new : Log) × (export_resource_metrics refusing resource taken
      ≡ some (result, taken ++ new))
    × All Readable new
    × ((result ≡ exported) ↔ (accepted new ≡ length (point_requests resource)))
export_resource_metrics-Readable_example = export_resource_metrics-Readable refusing resource taken
