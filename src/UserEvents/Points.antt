-- ===== src/UserEvents/Points.antt =====
-- exporter/mod.rs, loop 3: the data points of a metric, each put into the shared request and emitted.
-- The four functions process_gauge, process_sum, process_histogram and process_exponential_histogram have the
-- same loop, `emit_points`, over the data that each of them builds for a point. Where an index is out of
-- range the code panics, and the result is `none`.
use opentelemetry_rust_contr.Common.{
  ℕ, suc, ◌%◌, ◌^◌, List, [], ◌∷◌, map, Bool, Option, none, some, if◌then◌else◌, ◌>>=◌,
}
use mathlib.Core.Option
use opentelemetry_rust_contr.Common.Bytes.{Bytes}
use opentelemetry_rust_contr.UserEvents.{
  Sdk, Numeric, NumberPoint, HistogramPoint, ExponentialPoint, GaugeData, SumData, HistogramData,
  MetricData, gauge, sum_of, histogram, exponential_histogram, Metric, NumberDataPoint,
  HistogramDataPoint, ExponentialHistogramDataPoint, ProtoData, gauge_data, sum_data,
  histogram_data, exponential_data, ProtoMetric, ProtoScopeMetrics, Request, to_nanos,
}
use opentelemetry_rust_contr.UserEvents.Tracepoint.{Outside, Log, encode_and_emit_metric}

-- A change of the element at index 0.
unfoldable pub at_first : {A : Type 0} → (A → Option A) → List A → Option (List A)
at_first change [] = none
at_first change (x ∷ xs) = do x ← change x; some (x ∷ xs)

unfoldable pub metric_template : {sdk : Sdk} → Metric sdk → ProtoMetric sdk
metric_template metric = record {
  name = metric.name;
  description = metric.description;
  unit = metric.unit;
  data_value = none;
}

-- `resource_metrics[0].scope_metrics[0]`, then its metrics, and the data of the first of them.
unfoldable pub on_scope :
    {sdk : Sdk}
    → (ProtoScopeMetrics sdk → Option (ProtoScopeMetrics sdk))
    → Request sdk
    → Option (Request sdk)
on_scope change = at_first (λ resource. do
  scopes ← at_first change resource.scope_metrics
  some (record resource { scope_metrics = scopes }))

unfoldable pub set_metrics :
    {sdk : Sdk} → List (ProtoMetric sdk) → Request sdk → Option (Request sdk)
set_metrics metrics = on_scope (λ s. some (record s { metrics = metrics }))

unfoldable pub with_data : {sdk : Sdk} → ProtoData sdk → ProtoMetric sdk → Option (ProtoMetric sdk)
with_data data' metric = some (record metric { data_value = some data' })

unfoldable pub set_data : {sdk : Sdk} → ProtoData sdk → Request sdk → Option (Request sdk)
set_data data' =
    on_scope (λ s. do
      metrics ← at_first (with_data data') s.metrics
      some (record s { metrics = metrics }))

-- The data of one point, by the type of the metric.
module _ {sdk : Sdk} (numeric : Numeric) where
  unfoldable pub number_point : ℕ → ℕ → NumberPoint sdk → NumberDataPoint sdk
  number_point start_time time dp = record {
    attributes = map sdk.key_value_into dp.attributes;
    start_time_unix_nano = start_time;
    time_unix_nano = time;
    flags = sdk.default_flags;
    value = some (numeric.into_number_data_point_value dp.value);
  }

  unfoldable pub gauge_point : GaugeData sdk → NumberPoint sdk → ProtoData sdk
  gauge_point g dp =
      let start_time = Option.get_or (Option.map to_nanos g.start_time) 0 in
      gauge_data (number_point start_time (to_nanos g.time) dp ∷ [])

  unfoldable pub sum_point : SumData sdk → NumberPoint sdk → ProtoData sdk
  sum_point s dp =
      sum_data s.temporality s.is_monotonic
        (number_point (to_nanos s.start_time) (to_nanos s.time) dp ∷ [])

  unfoldable pub histogram_point :
      HistogramData sdk (HistogramPoint sdk) → HistogramPoint sdk → ProtoData sdk
  histogram_point hist dp =
      let point : HistogramDataPoint sdk = record {
        attributes = map sdk.key_value_into dp.attributes;
        start_time_unix_nano = to_nanos hist.start_time;
        time_unix_nano = to_nanos hist.time;
        count = dp.count;
        sum = some (numeric.into_f64 dp.sum);
        bucket_counts = dp.bucket_counts;
        explicit_bounds = dp.bounds;
        flags = sdk.default_flags;
        min_value = Option.map numeric.into_f64 dp.min_value;
        max_value = Option.map numeric.into_f64 dp.max_value;
      } in
      histogram_data hist.temporality (point ∷ [])

  unfoldable pub exponential_point :
      HistogramData sdk (ExponentialPoint sdk) → ExponentialPoint sdk → ProtoData sdk
  exponential_point hist dp =
      let point : ExponentialHistogramDataPoint sdk = record {
        attributes = map sdk.key_value_into dp.attributes;
        start_time_unix_nano = to_nanos hist.start_time;
        time_unix_nano = to_nanos hist.time;
        count = dp.count % 2 ^ 64;
        sum = some (numeric.into_f64 dp.sum);
        scale = dp.scale;
        zero_count = dp.zero_count;
        positive = some dp.positive_bucket;
        negative = some dp.negative_bucket;
        flags = sdk.default_flags;
        min_value = Option.map numeric.into_f64 dp.min_value;
        max_value = Option.map numeric.into_f64 dp.max_value;
        zero_threshold = dp.zero_threshold;
      } in
      exponential_data hist.temporality (point ∷ [])

-- What the loops share and change.
pub record Exporting (sdk : Sdk) : Type 0 where
  pub request : Request sdk
  pub byte_array : Bytes
  pub log : Log

module _ {sdk : Sdk} (outside : Outside sdk) where
  -- One turn: put the data of a point in, clear the byte array, encode and emit.
  unfoldable pub emit_point : ProtoData sdk → Exporting sdk → Option (Bool × Exporting sdk)
  emit_point data' st = do
    request ← set_data data' st.request
    let emitted = encode_and_emit_metric outside request [] st.log
    let (done, (byte_array, log)) = emitted
    some (done, record { request = request; byte_array = byte_array; log = log })

  -- The number of failures, and the state.
  unfoldable pub emit_points : List (ProtoData sdk) → ℕ → Exporting sdk → Option (ℕ × Exporting sdk)
  emit_points [] failed_count st = some (failed_count, st)
  emit_points (data' ∷ points) failed_count st = do
    turn ← emit_point data' st
    emit_points points (if turn.0 then failed_count else suc failed_count) turn.1

  -- The template of the metric, then its points.
  unfoldable pub process_points :
      Metric sdk → List (ProtoData sdk) → Exporting sdk → Option (ℕ × Exporting sdk)
  process_points metric points st = do
    request ← set_metrics (metric_template metric ∷ []) st.request
    emit_points points 0 (record st { request = request })

  unfoldable pub process_gauge :
      Numeric → Metric sdk → GaugeData sdk → Exporting sdk → Option (ℕ × Exporting sdk)
  process_gauge numeric metric g = process_points metric (map (gauge_point numeric g) g.data_points)

  unfoldable pub process_sum :
      Numeric → Metric sdk → SumData sdk → Exporting sdk → Option (ℕ × Exporting sdk)
  process_sum numeric metric s = process_points metric (map (sum_point numeric s) s.data_points)

  unfoldable pub process_histogram :
      Numeric
      → Metric sdk
      → HistogramData sdk (HistogramPoint sdk)
      → Exporting sdk
      → Option (ℕ × Exporting sdk)
  process_histogram numeric metric hist =
      process_points metric (map (histogram_point numeric hist) hist.data_points)

  unfoldable pub process_exponential_histogram :
      Numeric
      → Metric sdk
      → HistogramData sdk (ExponentialPoint sdk)
      → Exporting sdk
      → Option (ℕ × Exporting sdk)
  process_exponential_histogram numeric metric hist =
      process_points metric (map (exponential_point numeric hist) hist.data_points)

  unfoldable pub process_numeric_metrics :
      Numeric → Metric sdk → MetricData sdk → Exporting sdk → Option (ℕ × Exporting sdk)
  process_numeric_metrics numeric metric (gauge g) = process_gauge numeric metric g
  process_numeric_metrics numeric metric (sum_of s) = process_sum numeric metric s
  process_numeric_metrics numeric metric (histogram hist) = process_histogram numeric metric hist
  process_numeric_metrics numeric metric (exponential_histogram hist) =
      process_exponential_histogram numeric metric hist
