-- ===== src/UserEvents.antt =====
-- opentelemetry-user-events-metrics/src/exporter/mod.rs: the data that the exporter of metrics takes
-- and the protobuf request that it builds.
-- A 64-bit integer or float is its bit pattern, and so is a 32-bit integer. The protobuf messages, which come from the
-- crate opentelemetry_proto, have the fields that the exporter sets.
pub mod Tracepoint
pub mod Points
pub mod Export
pub mod Spec
pub mod Refinement
pub mod Delivery
mod Tests
use opentelemetry_rust_contr.Common.{ℕ, ◌%◌, ◌^◌, List, Bool, Option}
use opentelemetry_rust_contr.Common.Text.{Str}

-- The types and conversions of the crates opentelemetry, opentelemetry_sdk and opentelemetry_proto, and
-- the conversions `as f64`, which are the language's.
pub record Sdk : Type 1 where
  pub KeyValue : Type 0
  pub ProtoKeyValue : Type 0
  pub Resource : Type 0
  pub ProtoResource : Type 0
  pub Scope : Type 0
  pub ProtoScope : Type 0
  pub key_value_into : KeyValue → ProtoKeyValue
  pub resource_into : Resource → ProtoResource
  pub resource_schema_url : Resource → Option Str
  pub scope_into : Scope → ProtoScope
  pub scope_schema_url : Scope → Option Str
  pub default_flags : ℕ
  pub u64_as_f64 : ℕ → ℕ
  pub i64_as_f64 : ℕ → ℕ

-- A time, in nanoseconds after the epoch or before it.
pub data SystemTime : Type 0 where
  after_epoch before_epoch : ℕ → SystemTime

unfoldable pub to_nanos : SystemTime → ℕ
to_nanos (after_epoch n) = n % 2 ^ 64
to_nanos (before_epoch n) = 0

pub data NumberValue : Type 0 where
  as_int as_double : ℕ → NumberValue

-- The trait, for numbers of one of the three types.
pub record Numeric : Type 0 where
  pub into_f64 : ℕ → ℕ
  pub into_number_data_point_value : ℕ → NumberValue

module _ (sdk : Sdk) where
  abbrev pub u64_numeric : Numeric
  u64_numeric = record { into_f64 = sdk.u64_as_f64; into_number_data_point_value = as_int }

  abbrev pub i64_numeric : Numeric
  i64_numeric = record { into_f64 = sdk.i64_as_f64; into_number_data_point_value = as_int }

  abbrev pub f64_numeric : Numeric
  f64_numeric = record { into_f64 = λ n. n; into_number_data_point_value = as_double }

  -- What the exporter reads of the metrics.
  pub record NumberPoint : Type 0 where
    pub attributes : List sdk.KeyValue
    pub value : ℕ

  pub record HistogramPoint : Type 0 where
    pub attributes : List sdk.KeyValue
    pub count : ℕ
    pub sum : ℕ
    pub bucket_counts : List ℕ
    pub bounds : List ℕ
    pub min_value : Option ℕ
    pub max_value : Option ℕ

  pub record Bucket : Type 0 where
    pub offset : ℕ
    pub counts : List ℕ

  pub record ExponentialPoint : Type 0 where
    pub attributes : List sdk.KeyValue
    pub count : ℕ
    pub sum : ℕ
    pub scale : ℕ
    pub zero_count : ℕ
    pub positive_bucket : Bucket
    pub negative_bucket : Bucket
    pub min_value : Option ℕ
    pub max_value : Option ℕ
    pub zero_threshold : ℕ

  pub record GaugeData : Type 0 where
    pub start_time : Option SystemTime
    pub time : SystemTime
    pub data_points : List NumberPoint

  -- The temporality of a sum or a histogram is its number in the enumeration.
  pub record SumData : Type 0 where
    pub start_time : SystemTime
    pub time : SystemTime
    pub temporality : ℕ
    pub is_monotonic : Bool
    pub data_points : List NumberPoint

  pub record HistogramData (Point : Type 0) : Type 0 where
    pub start_time : SystemTime
    pub time : SystemTime
    pub temporality : ℕ
    pub data_points : List Point

  pub data MetricData : Type 0 where
    gauge : GaugeData → MetricData
    sum_of : SumData → MetricData
    histogram : HistogramData HistogramPoint → MetricData
    exponential_histogram : HistogramData ExponentialPoint → MetricData

  pub data AggregatedMetrics : Type 0 where
    f64 u64 i64 : MetricData → AggregatedMetrics

  pub record Metric : Type 0 where
    pub name : Str
    pub description : Str
    pub unit : Str
    pub aggregated : AggregatedMetrics

  pub record ScopeMetrics : Type 0 where
    pub scope : sdk.Scope
    pub metrics : List Metric

  pub record ResourceMetrics : Type 0 where
    pub resource : sdk.Resource
    pub scope_metrics : List ScopeMetrics

  -- The messages of the request.
  pub record NumberDataPoint : Type 0 where
    pub attributes : List sdk.ProtoKeyValue
    pub start_time_unix_nano : ℕ
    pub time_unix_nano : ℕ
    pub flags : ℕ
    pub value : Option NumberValue

  pub record HistogramDataPoint : Type 0 where
    pub attributes : List sdk.ProtoKeyValue
    pub start_time_unix_nano : ℕ
    pub time_unix_nano : ℕ
    pub count : ℕ
    pub sum : Option ℕ
    pub bucket_counts : List ℕ
    pub explicit_bounds : List ℕ
    pub flags : ℕ
    pub min_value : Option ℕ
    pub max_value : Option ℕ

  pub record ExponentialHistogramDataPoint : Type 0 where
    pub attributes : List sdk.ProtoKeyValue
    pub start_time_unix_nano : ℕ
    pub time_unix_nano : ℕ
    pub count : ℕ
    pub sum : Option ℕ
    pub scale : ℕ
    pub zero_count : ℕ
    pub positive : Option Bucket
    pub negative : Option Bucket
    pub flags : ℕ
    pub min_value : Option ℕ
    pub max_value : Option ℕ
    pub zero_threshold : ℕ

  pub data ProtoData : Type 0 where
    gauge_data : List NumberDataPoint → ProtoData
    sum_data : ℕ → Bool → List NumberDataPoint → ProtoData
    histogram_data : ℕ → List HistogramDataPoint → ProtoData
    exponential_data : ℕ → List ExponentialHistogramDataPoint → ProtoData

  pub record ProtoMetric : Type 0 where
    pub name : Str
    pub description : Str
    pub unit : Str
    pub data_value : Option ProtoData

  pub record ProtoScopeMetrics : Type 0 where
    pub scope : Option sdk.ProtoScope
    pub metrics : List ProtoMetric
    pub schema_url : Str

  pub record ProtoResourceMetrics : Type 0 where
    pub resource : Option sdk.ProtoResource
    pub scope_metrics : List ProtoScopeMetrics
    pub schema_url : Str

  -- The `resource_metrics` of an ExportMetricsServiceRequest.
  abbrev pub Request : Type 0
  Request = List ProtoResourceMetrics
