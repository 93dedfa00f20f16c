-- ===== src/Stackdriver.antt =====
-- opentelemetry-stackdriver/src/lib.rs: the data of spans and what is sent to Google Cloud. Of the protobuf
-- messages there are the fields that the exporter sets; a truncatable string is its text. A number is its bit
-- pattern. A `HashMap` is the list of its entries.
pub mod Attributes
pub mod Monitored
pub mod Export
pub mod Lookup
pub mod Heard
mod Tests
use opentelemetry_rust_contr.Common.{ℕ, List, [], ◌∷◌, Bool, Option, none, some, if◌then◌else◌}
use opentelemetry_rust_contr.Common.Text.{Str, str_eq}

-- The types and conversions of the standard library and of the crates opentelemetry, hex and prost.
pub record Sdk : Type 1 where
  pub Array : Type 0
  pub Time : Type 0
  pub Timestamp : Type 0
  pub f64_to_string : ℕ → Str
  pub array_to_string : Array → Str
  pub hex_encode : Str → Str
  pub into_timestamp : Time → Timestamp

pub data Status : Type 0 where
  ok unset : Status
  error : Str → Status

pub data SpanKind : Type 0 where
  client server producer consumer internal : SpanKind

pub data AttributeValue : Type 0 where
  bool_value : Bool → AttributeValue
  int_value : ℕ → AttributeValue
  string_value : Str → AttributeValue

pub record SpanAttributes : Type 0 where
  pub attribute_map : List (Str × AttributeValue)
  pub dropped_attributes_count : ℕ

pub record ProtoResource : Type 0 where
  pub resource_type : Str
  pub labels : List (Str × Str)

-- Links of a span, before and after: hexadecimal or as bytes.
pub record Link : Type 0 where
  pub trace_id : Str
  pub span_id : Str

pub record Links : Type 0 where
  pub dropped_links_count : ℕ
  pub link : List Link

module _ {V : Type 0} where
  unfoldable pub insert : Str → V → List (Str × V) → List (Str × V)
  insert key v [] = (key, v) ∷ []
  insert key v ((k, w) ∷ entries) =
      if str_eq k key then (k, v) ∷ entries else (k, w) ∷ insert key v entries

  unfoldable pub get : Str → List (Str × V) → Option V
  get key [] = none
  get key ((k, w) ∷ entries) = if str_eq k key then some w else get key entries

pub record InternalLogContext : Type 0 where
  pub log_id : Str
  pub resource : ProtoResource

module _ (sdk : Sdk) where
  pub data Value : Type 0 where
    truth : Bool → Value
    f64 i64 : ℕ → Value
    text : Str → Value
    array : sdk.Array → Value
    other : Value

  pub record Event : Type 0 where
    pub name : Str
    pub timestamp : sdk.Time
    pub attributes : List (Str × Value)

  pub record SpanData : Type 0 where
    pub trace_id : Str
    pub span_id : Str
    pub parent_span_id : Str
    pub span_kind : SpanKind
    pub name : Str
    pub start_time : sdk.Time
    pub end_time : sdk.Time
    pub attributes : List (Str × Value)
    pub events : List Event
    pub links : List Link
    pub links_dropped_count : ℕ
    pub status : Status

  pub record TimeEvent : Type 0 where
    pub time : sdk.Timestamp
    pub description : Str

  pub record Span : Type 0 where
    pub name : Str
    pub display_name : Str
    pub span_id : Str
    pub parent_span_id : Str
    pub start_time : sdk.Timestamp
    pub end_time : sdk.Timestamp
    pub attributes : SpanAttributes
    pub time_events : List TimeEvent
    pub links : Option Links
    pub status : Option (ℕ × Str)
    pub span_kind : ℕ

  pub record LogEntry : Type 0 where
    pub log_name : Str
    pub resource : ProtoResource
    pub severity : ℕ
    pub timestamp : sdk.Timestamp
    pub labels : List (Str × Str)
    pub trace : Str
    pub span_id : Str
    pub source_function : Option Str
    pub text_payload : Str

  -- The requests, as they reach the network.
  pub data Sent : Type 0 where
    batch_write_spans : Str → List Span → Sent
    write_log_entries : Str → List LogEntry → Sent
