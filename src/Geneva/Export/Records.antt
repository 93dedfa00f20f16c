-- ===== src/Geneva/Export/Records.antt =====
-- logs/exporter.rs: the view of the protobuf log records that the encoder reads, and the export of logs.
-- A number is its bit pattern. Of a value that is an array or a list of pairs, which the view does not
-- show, only the kind is here.
use opentelemetry_rust_contr.Common.{
  ℕ, ◌+◌, ◌==◌, List, [], ◌∷◌, map, length, length-append, length-map, replicate, Bool, not, ◌≡◌,
  refl, Option, none, some, ◌>>=◌, if◌then◌else◌, arith,
}
use mathlib.Core.Option
use opentelemetry_rust_contr.Common.Bytes.{Bytes}
use opentelemetry_rust_contr.Common.Text.{Str, str_eq}
use opentelemetry_rust_contr.Geneva.Encoder.{Libraries, MetadataFields}
use opentelemetry_rust_contr.Geneva.Log.{
  ValueType, AnyValueView, AttributeView, LogRecordView, is_empty,
}
use opentelemetry_rust_contr.Geneva.Batch.{
  BatchData, LogBatchAccumulator, EncodedBatch, Outcome, encode_logs_from_view, scope_records,
  view_records,
}

pub data ProtoVal : Type 0 where
  string_value : Str → ProtoVal
  bool_value : Bool → ProtoVal
  int_value double_value : ℕ → ProtoVal
  array_value kvlist_value : ProtoVal
  bytes_value : Bytes → ProtoVal

pub record ProtoAnyValue : Type 0 where
  pub value : Option ProtoVal

pub record ProtoKeyValue : Type 0 where
  pub key : Str
  pub value : Option ProtoAnyValue

pub record LogRecord : Type 0 where
  pub time_unix_nano : ℕ
  pub observed_time_unix_nano : ℕ
  pub severity_number : ℕ
  pub severity_text : Str
  pub body : Option ProtoAnyValue
  pub attributes : List ProtoKeyValue
  pub flags : ℕ
  pub trace_id : Bytes
  pub span_id : Bytes
  pub event_name : Str

-- The kinds that the encoder does not name are one.
unfoldable pub value_kind : Option ProtoVal → ValueType
value_kind none = ValueType.unsupported
value_kind (some (string_value s)) = ValueType.string
value_kind (some (bool_value b)) = ValueType.boolean
value_kind (some (int_value i)) = ValueType.int64
value_kind (some (double_value d)) = ValueType.double
value_kind (some array_value) = ValueType.unsupported
value_kind (some kvlist_value) = ValueType.unsupported
value_kind (some (bytes_value b)) = ValueType.unsupported

unfoldable pub as_string : ProtoVal → Option Bytes
as_string (string_value s) = some s
as_string _ = none

unfoldable pub as_bool : ProtoVal → Option Bool
as_bool (bool_value b) = some b
as_bool _ = none

unfoldable pub as_int64 : ProtoVal → Option ℕ
as_int64 (int_value i) = some i
as_int64 _ = none

unfoldable pub as_double : ProtoVal → Option ℕ
as_double (double_value d) = some d
as_double _ = none

unfoldable pub value_view : ProtoAnyValue → AnyValueView
value_view v = record {
  value_type = value_kind v.value;
  as_string = v.value >>= as_string;
  as_int64 = v.value >>= as_int64;
  as_double = v.value >>= as_double;
  as_bool = v.value >>= as_bool;
}

unfoldable pub attribute_view : ProtoKeyValue → AttributeView
attribute_view attribute = record {
  key = attribute.key;
  value = Option.map value_view attribute.value;
}

unfoldable pub non_zero : ℕ → Option ℕ
non_zero n = if not (n == 0) then some n else none

unfoldable pub non_empty : Str → Option Bytes
non_empty s = if is_empty s then none else some s

-- An id of that many bytes, not all 0.
unfoldable pub id_view : ℕ → Bytes → Option Bytes
id_view size id =
    if length id == size then (if str_eq id (replicate size 0) then none else some id) else none

unfoldable pub record_view : LogRecord → LogRecordView
record_view r = record {
  time_unix_nano = non_zero r.time_unix_nano;
  observed_time_unix_nano = non_zero r.observed_time_unix_nano;
  severity_number = non_zero r.severity_number;
  severity_text = non_empty r.severity_text;
  body = Option.map value_view r.body;
  attributes = map attribute_view r.attributes;
  flags = non_zero r.flags;
  trace_id = id_view 16 r.trace_id;
  span_id = id_view 8 r.span_id;
  event_name = non_empty r.event_name;
}

-- The records of the scopes of the resources.
unfoldable pub logs_view : List (List (List LogRecord)) → List (List (List LogRecordView))
logs_view otlp = map (map (map record_view)) otlp

-- `encode_and_compress_logs` of the client, on the view; the text of its error is left out.
unfoldable pub encode_and_compress_logs :
    Libraries
    → (LogBatchAccumulator → List (Str × BatchData))
    → MetadataFields
    → List (List (List LogRecord))
    → Outcome (List EncodedBatch)
encode_and_compress_logs libs iteration metadata_fields otlp =
    encode_logs_from_view libs iteration metadata_fields (logs_view otlp)

-- The log records, by their scopes and resources.
abbrev pub count_scopes : List (List LogRecord) → ℕ
count_scopes [] = 0
count_scopes (records ∷ scopes) = length records + count_scopes scopes

abbrev pub count_records : List (List (List LogRecord)) → ℕ
count_records [] = 0
count_records (scopes ∷ resources) = count_scopes scopes + count_records resources

length-scope_records :
    (scopes : List (List LogRecord))
    → length (scope_records (map (map record_view) scopes)) ≡ count_scopes scopes
unfolding scope_records
length-scope_records [] = refl
length-scope_records (records ∷ scopes) = omega (
  arith,
  length-append (map record_view records) (scope_records (map (map record_view) scopes)),
  length-map records record_view,
  length-scope_records scopes,
)

pub length-view_records :
    (otlp : List (List (List LogRecord)))
    → length (view_records (logs_view otlp)) ≡ count_records otlp
unfolding view_records logs_view
length-view_records [] = refl
length-view_records (scopes ∷ resources) = omega (
  arith,
  length-append (scope_records (map (map record_view) scopes)) (view_records (logs_view resources)),
  length-scope_records scopes,
  length-view_records resources,
)
