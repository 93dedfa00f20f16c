-- ===== src/UserEvents/Spec.antt =====
-- What an export has to emit: a request of its own for every data point, in order.
use opentelemetry_rust_contr.Common.{ℕ, suc, List, [], ◌∷◌, ◌++◌, map, Option, some, if◌then◌else◌}
use opentelemetry_rust_contr.UserEvents.{
  Sdk, Numeric, f64_numeric, u64_numeric, i64_numeric, f64, u64, i64, AggregatedMetrics, gauge,
  sum_of, histogram, exponential_histogram, MetricData, Metric, ScopeMetrics, ResourceMetrics,
  ProtoData, ProtoMetric, Request,
}
use opentelemetry_rust_contr.UserEvents.Tracepoint.{Outside, Log, encode_and_emit_metric}
use opentelemetry_rust_contr.UserEvents.Points.{
  metric_template, gauge_point, sum_point, histogram_point, exponential_point,
}
use opentelemetry_rust_contr.UserEvents.Export.{resource_template, scope_template}

module _ {sdk : Sdk} where
  -- The points of a metric.
  unfoldable pub numeric_points : Numeric → MetricData sdk → List (ProtoData sdk)
  numeric_points numeric (gauge g) = map (gauge_point numeric g) g.data_points
  numeric_points numeric (sum_of s) = map (sum_point numeric s) s.data_points
  numeric_points numeric (histogram hist) = map (histogram_point numeric hist) hist.data_points
  numeric_points numeric (exponential_histogram hist) =
      map (exponential_point numeric hist) hist.data_points

  unfoldable pub points_of : AggregatedMetrics sdk → List (ProtoData sdk)
  points_of (f64 metric_data) = numeric_points (f64_numeric sdk) metric_data
  points_of (u64 metric_data) = numeric_points (u64_numeric sdk) metric_data
  points_of (i64 metric_data) = numeric_points (i64_numeric sdk) metric_data

  -- A request of one resource with one scope with those metrics.
  abbrev pub request_with :
      ResourceMetrics sdk → ScopeMetrics sdk → List (ProtoMetric sdk) → Request sdk
  request_with resource_metric scope_metric metrics =
      (record (resource_template resource_metric) {
        scope_metrics = (record (scope_template scope_metric) { metrics = metrics }) ∷ [];
      })
      ∷ []

  abbrev pub metric_with : Metric sdk → Option (ProtoData sdk) → List (ProtoMetric sdk)
  metric_with metric data' = (record (metric_template metric) { data_value = data' }) ∷ []

  -- The request for one point.
  abbrev pub point_request :
      ResourceMetrics sdk → ScopeMetrics sdk → Metric sdk → ProtoData sdk → Request sdk
  point_request resource_metric scope_metric metric data' =
      request_with resource_metric scope_metric (metric_with metric (some data'))

  abbrev pub metric_requests :
      ResourceMetrics sdk → ScopeMetrics sdk → List (Metric sdk) → List (Request sdk)
  metric_requests resource_metric scope_metric [] = []
  metric_requests resource_metric scope_metric (metric ∷ metrics) =
      map (point_request resource_metric scope_metric metric) (points_of metric.aggregated)
      ++ metric_requests resource_metric scope_metric metrics

  abbrev pub scope_requests : ResourceMetrics sdk → List (ScopeMetrics sdk) → List (Request sdk)
  scope_requests resource_metric [] = []
  scope_requests resource_metric (scope_metric ∷ scope_metrics) =
      metric_requests resource_metric scope_metric scope_metric.metrics
      ++ scope_requests resource_metric scope_metrics

  abbrev pub point_requests : ResourceMetrics sdk → List (Request sdk)
  point_requests resource_metric = scope_requests resource_metric resource_metric.scope_metrics

module _ {sdk : Sdk} (outside : Outside sdk) where
  -- One request after the other, each from an empty byte array: the number of failures, and the log.
  unfoldable pub emit_requests : List (Request sdk) → Log → ℕ × Log
  emit_requests [] log = (0, log)
  emit_requests (request ∷ requests) log =
      let (done, (byte_array, log)) = encode_and_emit_metric outside request [] log in
      let (failures, log) = emit_requests requests log in
      ((if done then failures else suc failures), log)
