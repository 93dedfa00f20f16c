-- ===== src/UserEvents/Refinement.antt =====
-- The three loops of the exporter emit the requests of the points, in order.
use opentelemetry_rust_contr.Common.{
  ℕ, suc, ◌+◌, ltb, List, [], ◌∷◌, ◌++◌, map, Bool, true, false, ◌||◌, ◌≡◌, refl, Option, none,
  some, if◌then◌else◌, arith, inl, inr, Bool-cases,
}
use native.Mathlib.Nat.{suc-add, zero-add, add-suc, add-zero}
use opentelemetry_rust_contr.Common.Bytes.{Bytes}
use opentelemetry_rust_contr.UserEvents.{
  Sdk, f64, u64, i64, AggregatedMetrics, gauge, sum_of, histogram, exponential_histogram, Metric,
  ScopeMetrics, ResourceMetrics, ProtoData, ProtoMetric, ProtoScopeMetrics, Request,
}
use opentelemetry_rust_contr.UserEvents.Tracepoint.{Outside, Log, encode_and_emit_metric}
use opentelemetry_rust_contr.UserEvents.Points.{
  Exporting, at_first, on_scope, set_data, set_metrics, with_data, metric_template, emit_point,
  emit_points, process_points, process_gauge, process_sum, process_histogram,
  process_exponential_histogram, process_numeric_metrics,
}
use opentelemetry_rust_contr.UserEvents.Export.{
  resource_template, scope_template, set_scopes, process_metric, export_metrics, export_scopes,
  export_resource_metrics, exported, internal_failure,
}
use opentelemetry_rust_contr.UserEvents.Spec.{
  numeric_points, points_of, request_with, metric_with, point_request, metric_requests,
  scope_requests, point_requests, emit_requests,
}

either_failed :
    (b a : ℕ) (has_failures : Bool)
    → (ltb 0 b || (if ltb 0 a then true else has_failures)) ≡ (ltb 0 (a + b) || has_failures)
either_failed b a has_failures = ground arith

either_failed_scope :
    (b a : ℕ) (has_failures : Bool)
    → (ltb 0 b || (ltb 0 a || has_failures)) ≡ (ltb 0 (a + b) || has_failures)
either_failed_scope b a has_failures = ground arith

or_false : (b : Bool) → (b || false) ≡ b
or_false true = refl
or_false false = refl

module _ {sdk : Sdk} (outside : Outside sdk) where
  pub emit_requests-append :
      (xs ys : List (Request sdk)) (log : Log)
      → emit_requests outside (xs ++ ys) log ≡ (
        (emit_requests outside xs log).0
            + (emit_requests outside ys (emit_requests outside xs log).1).0,
        (emit_requests outside ys (emit_requests outside xs log).1).1,
      )
  unfolding emit_requests
  emit_requests-append [] ys log = rw (zero-add)
  emit_requests-append (request ∷ xs) ys log =
      let ih = emit_requests-append xs ys (encode_and_emit_metric outside request [] log).1.1 in
      elim (Bool-cases (encode_and_emit_metric outside request [] log).0) [
        | inl e ↦ rw (e, ih)
        | inr e ↦ rw (e, ih, suc-add)
      ]

  process_metric-points :
      (metric : Metric sdk) (aggregated : AggregatedMetrics sdk) (st : Exporting sdk)
      → process_metric outside metric aggregated st
        ≡ process_points outside metric (points_of aggregated) st
  unfolding process_metric process_numeric_metrics process_gauge process_sum process_histogram
      process_exponential_histogram points_of numeric_points
  process_metric-points metric (f64 (gauge g)) st = refl
  process_metric-points metric (f64 (sum_of s)) st = refl
  process_metric-points metric (f64 (histogram h)) st = refl
  process_metric-points metric (f64 (exponential_histogram h)) st = refl
  process_metric-points metric (u64 (gauge g)) st = refl
  process_metric-points metric (u64 (sum_of s)) st = refl
  process_metric-points metric (u64 (histogram h)) st = refl
  process_metric-points metric (u64 (exponential_histogram h)) st = refl
  process_metric-points metric (i64 (gauge g)) st = refl
  process_metric-points metric (i64 (sum_of s)) st = refl
  process_metric-points metric (i64 (histogram h)) st = refl
  process_metric-points metric (i64 (exponential_histogram h)) st = refl

  module _ (resource_metric : ResourceMetrics sdk) (scope_metric : ScopeMetrics sdk) where
    abbrev pub holding : List (ProtoMetric sdk) → Bytes → Log → Exporting sdk
    holding metrics byte_array log = record {
      request = request_with resource_metric scope_metric metrics;
      byte_array = byte_array;
      log = log;
    }

    -- A loop over points emits their requests and leaves the request of the last one.
    emit_points-requests :
        (metric : Metric sdk) (points : List (ProtoData sdk)) (failed_count : ℕ)
        (data' : Option (ProtoData sdk)) (byte_array : Bytes) (log : Log)
        → let emitted =
            emit_requests outside
              (map (point_request resource_metric scope_metric metric) points)
              log in
          (last_data : Option (ProtoData sdk)) × (last_bytes : Bytes) × (emit_points outside points
              failed_count
              (holding (metric_with metric data') byte_array log)
            ≡ some (
              failed_count + emitted.0,
              holding (metric_with metric last_data) last_bytes emitted.1,
            ))
    unfolding emit_requests emit_points emit_point set_data on_scope at_first with_data
    emit_points-requests metric [] failed_count data' byte_array log =
        (data', byte_array, rw (add-zero))
    emit_points-requests metric (p ∷ points) failed_count data' byte_array log =
        let request = point_request resource_metric scope_metric metric p in
        let emitted = encode_and_emit_metric outside request [] log in
        elim (Bool-cases emitted.0) [
          | inl e ↦
              let (last_data, last_bytes, ih) =
                emit_points-requests metric points failed_count (some p) emitted.1.0 emitted.1.1 in
              (last_data, last_bytes, rw (e) ih)
          | inr e ↦
              let (last_data, last_bytes, ih) =
                emit_points-requests metric points (suc failed_count) (some p) emitted.1.0
                  emitted.1.1 in
              (last_data, last_bytes, rw (e, add-suc, ← suc-add) ih)
        ]

    -- The body of the loop over metrics.
    process_metric-requests :
        (metric : Metric sdk) (before : List (ProtoMetric sdk)) (byte_array : Bytes) (log : Log)
        → let emitted =
            emit_requests outside
              (map
                (point_request resource_metric scope_metric metric)
                (points_of metric.aggregated))
              log in
          (after : List (ProtoMetric sdk)) × (last_bytes : Bytes) × (process_metric outside metric
              metric.aggregated
              (holding before byte_array log)
            ≡ some (emitted.0, holding after last_bytes emitted.1))
    unfolding process_points set_metrics on_scope at_first metric_template
    process_metric-requests metric before byte_array log =
        let (last_data, last_bytes, h) =
          emit_points-requests metric (points_of metric.aggregated) 0 none byte_array log in
        (
          metric_with metric last_data,
          last_bytes,
          rw (process_metric-points metric metric.aggregated (holding before byte_array log))
              (rw (zero-add) at (h)),
        )

    export_metrics-requests :
        (metrics : List (Metric sdk)) (before : List (ProtoMetric sdk)) (has_failures : Bool)
        (byte_array : Bytes) (log : Log)
        → let emitted =
            emit_requests outside (metric_requests resource_metric scope_metric metrics) log in
          (after : List (ProtoMetric sdk)) × (last_bytes : Bytes) × (export_metrics outside metrics
              has_failures
              (holding before byte_array log)
            ≡ some (ltb 0 emitted.0 || has_failures, holding after last_bytes emitted.1))
    unfolding export_metrics emit_requests
    export_metrics-requests [] before has_failures byte_array log = (before, byte_array, refl)
    export_metrics-requests (metric ∷ metrics) before has_failures byte_array log =
        let (middle, bytes, h) = process_metric-requests metric before byte_array log in
        let first =
          emit_requests outside
            (map (point_request resource_metric scope_metric metric) (points_of metric.aggregated))
            log in
        let (after, last_bytes, ih) =
          export_metrics-requests metrics middle (if ltb 0 first.0 then true else has_failures)
            bytes first.1 in
        (
          after,
          last_bytes,
          rw (h, emit_requests-append) (rw (← either_failed _ first.0 has_failures) ih),
        )

  export_scopes-requests :
      (resource_metric : ResourceMetrics sdk) (scope_metrics : List (ScopeMetrics sdk))
      (before : List (ProtoScopeMetrics sdk)) (has_failures : Bool) (byte_array : Bytes) (log : Log)
      → let emitted = emit_requests outside (scope_requests resource_metric scope_metrics) log in
        let start : Exporting sdk = record {
          request = (record (resource_template resource_metric) { scope_metrics = before }) ∷ [];
          byte_array = byte_array;
          log = log;
        } in
        (last : Exporting sdk) × (export_scopes outside scope_metrics has_failures start
          ≡ some (ltb 0 emitted.0 || has_failures, last))
        × (last.log ≡ emitted.1)
  unfolding export_scopes set_scopes at_first scope_template emit_requests
  export_scopes-requests resource_metric [] before has_failures byte_array log = (_, refl, refl)
  export_scopes-requests resource_metric (scope_metric ∷ scope_metrics) before has_failures
        byte_array log =
      let (metrics, bytes, h) =
        export_metrics-requests resource_metric scope_metric scope_metric.metrics [] has_failures
          byte_array log in
      let first =
        emit_requests outside (metric_requests resource_metric scope_metric scope_metric.metrics)
          log in
      let (last, ih, same) =
        export_scopes-requests resource_metric scope_metrics
          ((record (scope_template scope_metric) { metrics = metrics }) ∷ [])
          (ltb 0 first.0 || has_failures) bytes first.1 in
      (
        last,
        rw (h, emit_requests-append) (rw (← either_failed_scope _ first.0 has_failures) ih),
        rw (emit_requests-append) same,
      )

  -- An export never panics: it emits a request for every data point, in order, and fails where one
  -- of them fails.
  pub export_resource_metrics-point_requests :
      (resource_metric : ResourceMetrics sdk) (log : Log)
      → let emitted = emit_requests outside (point_requests resource_metric) log in
        export_resource_metrics outside resource_metric log
        ≡ some (if ltb 0 emitted.0 then internal_failure else exported, emitted.1)
  unfolding export_resource_metrics resource_template
  export_resource_metrics-point_requests resource_metric log =
      let (last, h, same) =
        export_scopes-requests resource_metric resource_metric.scope_metrics [] false [] log in
      rw (h, same, or_false) refl
