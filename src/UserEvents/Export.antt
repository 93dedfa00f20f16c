-- ===== src/UserEvents/Export.antt =====
-- exporter/mod.rs, loops 1 and 2: the scopes of a resource and the metrics of a scope.
use opentelemetry_rust_contr.Common.{
  ℕ, ltb, not, List, [], ◌∷◌, Bool, true, false, Option, some, if◌then◌else◌, ◌>>=◌,
}
use mathlib.Core.Option
use opentelemetry_rust_contr.UserEvents.{
  Sdk, f64_numeric, u64_numeric, i64_numeric, f64, u64, i64, AggregatedMetrics, Metric,
  ScopeMetrics, ResourceMetrics, ProtoScopeMetrics, ProtoResourceMetrics, Request,
}
use opentelemetry_rust_contr.UserEvents.Tracepoint.{Outside, Log}
use opentelemetry_rust_contr.UserEvents.Points.{Exporting, at_first, process_numeric_metrics}

module _ {sdk : Sdk} where
  unfoldable pub resource_template : ResourceMetrics sdk → ProtoResourceMetrics sdk
  resource_template resource_metric = record {
    resource = some (sdk.resource_into resource_metric.resource);
    scope_metrics = [];
    schema_url = Option.get_or (sdk.resource_schema_url resource_metric.resource) [];
  }

  unfoldable pub scope_template : ScopeMetrics sdk → ProtoScopeMetrics sdk
  scope_template scope_metric = record {
    scope = some (sdk.scope_into scope_metric.scope);
    metrics = [];
    schema_url = Option.get_or (sdk.scope_schema_url scope_metric.scope) [];
  }

  unfoldable pub set_scopes : List (ProtoScopeMetrics sdk) → Request sdk → Option (Request sdk)
  set_scopes scopes = at_first (λ resource. some (record resource { scope_metrics = scopes }))

-- The two ends of an export.
pub data ExportResult : Type 0 where
  exported : ExportResult
  internal_failure : ExportResult

module _ {sdk : Sdk} (outside : Outside sdk) where
  -- `match metric.data()`.
  unfoldable pub process_metric :
      Metric sdk → AggregatedMetrics sdk → Exporting sdk → Option (ℕ × Exporting sdk)
  process_metric metric (f64 metric_data) =
      process_numeric_metrics outside (f64_numeric sdk) metric metric_data
  process_metric metric (u64 metric_data) =
      process_numeric_metrics outside (u64_numeric sdk) metric metric_data
  process_metric metric (i64 metric_data) =
      process_numeric_metrics outside (i64_numeric sdk) metric metric_data

  -- The loops return `has_failures` and the state.
  unfoldable pub export_metrics :
      List (Metric sdk) → Bool → Exporting sdk → Option (Bool × Exporting sdk)
  export_metrics [] has_failures st = some (has_failures, st)
  export_metrics (metric ∷ metrics) has_failures st = do
    processed ← process_metric metric metric.aggregated st
    let (failed_count, st) = processed
    export_metrics metrics (if ltb 0 failed_count then true else has_failures) st

  unfoldable pub export_scopes :
      List (ScopeMetrics sdk) → Bool → Exporting sdk → Option (Bool × Exporting sdk)
  export_scopes [] has_failures st = some (has_failures, st)
  export_scopes (scope_metric ∷ scope_metrics) has_failures st = do
    request ← set_scopes (scope_template scope_metric ∷ []) st.request
    processed ← export_metrics scope_metric.metrics has_failures (record st { request = request })
    let (has_failures, st) = processed
    export_scopes scope_metrics has_failures st

  -- The result and the log; `none` is a panic.
  unfoldable pub export_resource_metrics : ResourceMetrics sdk → Log → Option (ExportResult × Log)
  export_resource_metrics resource_metric log = do
    let start : Exporting sdk = record {
      request = resource_template resource_metric ∷ [];
      byte_array = [];
      log = log;
    }
    finished ← export_scopes resource_metric.scope_metrics false start
    let (has_failures, st) = finished
    some (if has_failures then internal_failure else exported, st.log)

  -- `export`, for a tracepoint that is enabled or not.
  unfoldable pub export_all : Bool → ResourceMetrics sdk → Log → Option (ExportResult × Log)
  export_all enabled resource_metrics log =
      if not enabled then some (exported, log) else export_resource_metrics resource_metrics log
