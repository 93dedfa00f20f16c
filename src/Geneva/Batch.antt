-- ===== src/Geneva/Batch.antt =====
-- otlp_encoder.rs: the accumulator of log batches, from the records to the encoded batches.
-- A `HashMap` is the list of its entries, in the order in which entries were added; the order in
-- which the map gives them up is a parameter of `encode_logs_from_view`. The field `data` of an
-- `EncodedBatch` is `data_bytes`, as `data` is reserved.
pub mod Invariant
pub mod Push
pub mod Finish
pub mod Lookup
pub mod Grouping
use opentelemetry_rust_contr.Common.{
  ℕ, zero, suc, ◌+◌, ◌-◌, ◌%◌, ◌^◌, min, max, List, [], ◌∷◌, ◌++◌, Bool, true, false, ◌||◌, Option,
  none, some, length, ◌==◌, ◌>>=◌, if◌then◌else◌,
}
use mathlib.Core.Option
use opentelemetry_rust_contr.Common.Bytes.{Bytes}
use opentelemetry_rust_contr.Common.Text.{Str, codes, str_eq}
use opentelemetry_rust_contr.Geneva.Bond.{FieldDef}
use opentelemetry_rust_contr.Geneva.Blob.{
  BatchMetadata, CentralSchemaEntry, CentralEventEntry, CentralBlob, to_bytes,
}
use opentelemetry_rust_contr.Geneva.Lz4
use opentelemetry_rust_contr.Geneva.Lz4.{Compression, lz4_chunked_compression}
use opentelemetry_rust_contr.Geneva.Encoder.{
  Libraries, MetadataFields, find_or_create_schema, format_schema_ids,
}
use opentelemetry_rust_contr.Geneva.Log.{
  LogRecordView, normalized_event_name, record_timestamp, determine_fields, write_row_data,
}

pub record BatchData : Type 0 where
  pub routing_name : Str
  pub schemas : List CentralSchemaEntry
  pub events : List CentralEventEntry
  pub metadata : BatchMetadata

abbrev pub LogBatchAccumulator : Type 0
LogBatchAccumulator = List (Str × BatchData)

abbrev pub u64_max : ℕ
u64_max = 2 ^ 64 - 1

unfoldable pub contains_key : Str → LogBatchAccumulator → Bool
contains_key key [] = false
contains_key key ((k, batch) ∷ batches) = str_eq k key || contains_key key batches

-- `get_mut(key).unwrap()` and a change of the batch; `none` is a panic.
unfoldable pub with_batch :
    Str → (BatchData → Option BatchData) → LogBatchAccumulator → Option LogBatchAccumulator
with_batch key change [] = none
with_batch key change ((k, batch) ∷ batches) = elim (str_eq k key) [
  | true ↦ do batch ← change batch; some ((k, batch) ∷ batches)
  | false ↦ do batches ← with_batch key change batches; some ((k, batch) ∷ batches)
]

unfoldable pub new_batch : Str → ℕ → BatchData
new_batch key timestamp = record {
  routing_name = key;
  schemas = [];
  events = [];
  metadata = record {
    start_time = if timestamp == 0 then u64_max else timestamp;
    end_time = timestamp;
    schema_ids = [];
  };
}

unfoldable pub note_time : ℕ → BatchMetadata → BatchMetadata
note_time timestamp metadata = if timestamp == 0 then metadata else record metadata {
  start_time = min metadata.start_time timestamp;
  end_time = max metadata.end_time timestamp;
}

-- The event name by which a record is routed.
unfoldable pub routing_event_name : LogRecordView → Str
routing_event_name r = Option.get_or (normalized_event_name r) (codes "Log")

-- What `push` does to the record's batch.
unfoldable pub push_event :
    Libraries → MetadataFields → LogRecordView → BatchData → Option BatchData
push_event libs metadata_fields r entry = do
  let fields = determine_fields r
  let metadata = note_time (record_timestamp r) entry.metadata
  let found = find_or_create_schema libs (codes "OtlpLogRecord") fields.0 entry.schemas
  row_buffer ← write_row_data libs r fields.0 fields.1 metadata_fields
  let level = Option.get_or r.severity_number 0 % 2 ^ 8
  let event : CentralEventEntry = record {
    schema_id = found.0;
    level = level;
    event_name = entry.routing_name;
    row = row_buffer;
  }
  some
      (record entry { schemas = found.1; events = entry.events ++ event ∷ []; metadata = metadata })

unfoldable pub push :
    Libraries → MetadataFields → LogBatchAccumulator → LogRecordView → Option LogBatchAccumulator
push libs metadata_fields batches r =
    let key = routing_event_name r in
    let batches =
      if contains_key key batches
      then batches
      else batches ++ (key, new_batch key (record_timestamp r)) ∷ [] in
    with_batch key (push_event libs metadata_fields r) batches

pub record EncodedBatch : Type 0 where
  pub event_name : Str
  pub data_bytes : Bytes
  pub metadata : BatchMetadata
  pub row_count : ℕ

-- A `Result` whose error is a failed compression, and the two ends that are no `Result`: a panic, and
-- a loop that ran out of rounds.
pub data Outcome {ℓ} (A : Type ℓ) : Type ℓ where
  ok : A → Outcome A
  err : Outcome A
  panic : Outcome A
  stuck : Outcome A

unfoldable pub batch_blob : MetadataFields → BatchData → CentralBlob
batch_blob metadata_fields batch = record {
  version = 1;
  format = 2;
  metadata = metadata_fields.metadata_string;
  schemas = batch.schemas;
  events = batch.events;
}

-- One turn of the loop of `finalize`.
unfoldable pub encode_batch : Libraries → MetadataFields → Str → BatchData → Outcome EncodedBatch
encode_batch libs metadata_fields name batch =
    elim (lz4_chunked_compression libs.lz4 (to_bytes (batch_blob metadata_fields batch))) [
      | Compression.ok compressed ↦ ok (record {
        event_name = name;
        data_bytes = compressed;
        metadata = record {
          start_time =
              (if batch.metadata.start_time == u64_max then 0 else batch.metadata.start_time);
          end_time = batch.metadata.end_time;
          schema_ids = format_schema_ids batch.schemas;
        };
        row_count = length batch.events;
      })
      | Compression.err ↦ err
      | Compression.stuck ↦ stuck
    ]

unfoldable pub finalize :
    Libraries → MetadataFields → List (Str × BatchData) → Outcome (List EncodedBatch)
finalize libs metadata_fields [] = ok []
finalize libs metadata_fields ((name, batch) ∷ batches) =
    elim (encode_batch libs metadata_fields name batch) [
      | ok encoded ↦ elim (finalize libs metadata_fields batches) [
        | ok blobs ↦ ok (encoded ∷ blobs)
        | err ↦ err
        | panic ↦ panic
        | stuck ↦ stuck
      ]
      | err ↦ err
      | panic ↦ panic
      | stuck ↦ stuck
    ]

unfoldable pub push_all :
    Libraries
    → MetadataFields
    → LogBatchAccumulator
    → List LogRecordView
    → Option LogBatchAccumulator
push_all libs metadata_fields batches [] = some batches
push_all libs metadata_fields batches (r ∷ records) = do
  batches ← push libs metadata_fields batches r
  push_all libs metadata_fields batches records

-- The scopes of a resource, and the resources, each in its order.
unfoldable pub scope_records : List (List LogRecordView) → List LogRecordView
scope_records [] = []
scope_records (records ∷ scopes) = records ++ scope_records scopes

unfoldable pub view_records : List (List (List LogRecordView)) → List LogRecordView
view_records [] = []
view_records (scopes ∷ resources) = scope_records scopes ++ view_records resources

unfoldable pub encode_logs_from_view :
    Libraries
    → (LogBatchAccumulator → List (Str × BatchData))
    → MetadataFields
    → List (List (List LogRecordView))
    → Outcome (List EncodedBatch)
encode_logs_from_view libs iteration metadata_fields view =
    elim (push_all libs metadata_fields [] (view_records view)) [
      | none ↦ panic
      | some batches ↦ finalize libs metadata_fields (iteration batches)
    ]
