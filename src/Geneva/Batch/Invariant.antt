-- ===== src/Geneva/Batch/Invariant.antt =====
-- The invariant of the accumulator: its keys are distinct, and in each batch every event names a
-- schema of the batch whose fields are those of its row.
use opentelemetry_rust_contr.Common.{
  ℕ, ◌+◌, ◌%◌, ◌^◌, List, [], ◌∷◌, ◌++◌, true, false, ◌≡◌, refl, ◌∙◌, inl, inr, Option, some,
  length, length-append, get_elem?, All, All-append, map, Bool-cases, arith,
}
use mathlib.Core.Path.{subst}
use mathlib.Core.Option
use opentelemetry_rust_contr.Common.Text.{Str, codes, str_eq, str_eq_iff}
use opentelemetry_rust_contr.Geneva.Blob.{CentralSchemaEntry, CentralEventEntry}
use opentelemetry_rust_contr.Geneva.Value.{Named, named_type, field_type, write_values}
use opentelemetry_rust_contr.Geneva.Encoder.{Libraries, MetadataFields, find_or_create_schema}
use opentelemetry_rust_contr.Geneva.Encoder.Numbering.{HexIsAscii}
use opentelemetry_rust_contr.Geneva.Encoder.Schemas.{
  SchemasOk, Extends, find_or_create_schema-Found,
}
use opentelemetry_rust_contr.Geneva.Log.{LogRecordView, determine_fields, record_timestamp}
use opentelemetry_rust_contr.Geneva.Log.Spec.{record_values}
use opentelemetry_rust_contr.Geneva.Log.Fields.{determine_fields-types}
use opentelemetry_rust_contr.Geneva.Log.Row.{write_row_data-values}
use opentelemetry_rust_contr.Geneva.Batch.{
  BatchData, LogBatchAccumulator, contains_key, with_batch, new_batch, note_time, push_event,
}

-- The event's schema is in the batch, and the event's row is a row of values of that schema's names
-- and types.
pub record EventOk (key : Str) (schemas : List CentralSchemaEntry) (e : CentralEventEntry)
    : Type 0 where
  pub index : ℕ
  pub schema : CentralSchemaEntry
  pub values : List Named
  pub listed : get_elem? schemas index ≡ some schema
  pub named : schema.id ≡ e.schema_id
  pub typed : map field_type schema.fields ≡ map named_type values
  pub row_of : e.row ≡ write_values [] values
  pub routed : e.event_name ≡ key

pub record BatchOk (key : Str) (b : BatchData) : Type 0 where
  pub routing : b.routing_name ≡ key
  pub schemas_ok : SchemasOk b.schemas
  pub events_ok : All (EventOk key b.schemas) b.events

-- The batches are well formed, and no key stands twice.
abbrev pub AccumulatorOk : LogBatchAccumulator → Type 0
AccumulatorOk [] = Unit {0}
AccumulatorOk ((key, b) ∷ rest) =
    BatchOk key b × (contains_key key rest ≡ false) × AccumulatorOk rest

pub EventOk-extend :
    (key : Str) (ss ts : List CentralSchemaEntry) (es : List CentralEventEntry)
    → Extends ss ts
    → All (EventOk key ss) es
    → All (EventOk key ts) es
EventOk-extend key ss ts [] ext h = tt
EventOk-extend key ss ts (e ∷ es) ext h = (
  record {
    index = h.0.index;
    schema = h.0.schema;
    values = h.0.values;
    listed = ext h.0.index h.0.schema h.0.listed;
    named = h.0.named;
    typed = h.0.typed;
    row_of = h.0.row_of;
    routed = h.0.routed;
  },
  EventOk-extend key ss ts es ext h.1,
)

pub new_batch-BatchOk : (key : Str) (t : ℕ) → BatchOk key (new_batch key t)
unfolding new_batch
new_batch-BatchOk key t = record {
  routing = refl;
  schemas_ok = record { numbered = tt; distinct = tt };
  events_ok = tt;
}

module _ (libs : Libraries) (ascii : HexIsAscii libs) (m : MetadataFields) where
  -- The batch that a push leaves, with the row in closed form.
  unfoldable pub pushed_event : LogRecordView → BatchData → CentralEventEntry
  pushed_event r b = record {
    schema_id =
        (find_or_create_schema libs (codes "OtlpLogRecord") (determine_fields r).0 b.schemas).0;
    level = Option.get_or r.severity_number 0 % 2 ^ 8;
    event_name = b.routing_name;
    row = write_values [] (record_values libs m r);
  }

  unfoldable pub pushed_batch : LogRecordView → BatchData → BatchData
  pushed_batch r b = record {
    routing_name = b.routing_name;
    schemas =
        (find_or_create_schema libs (codes "OtlpLogRecord") (determine_fields r).0 b.schemas).1;
    events = b.events ++ pushed_event r b ∷ [];
    metadata = note_time (record_timestamp r) b.metadata;
  }

  pub push_event-pushed_batch :
      (r : LogRecordView) (b : BatchData) → push_event libs m r b ≡ some (pushed_batch r b)
  push_event-pushed_batch r b =
      unfold push_event pushed_batch pushed_event in rw (write_row_data-values libs ascii m r)

  pub pushed_batch-BatchOk :
      (key : Str) (r : LogRecordView) (b : BatchData)
      → BatchOk key b
      → BatchOk key (pushed_batch r b)
  unfolding pushed_batch pushed_event
  pushed_batch-BatchOk key r b h =
      let fields = (determine_fields r).0 in
      let after = (find_or_create_schema libs (codes "OtlpLogRecord") fields b.schemas).1 in
      let found =
        find_or_create_schema-Found libs (codes "OtlpLogRecord") fields b.schemas h.schemas_ok in
      let (i, s, at_i, id, same) = found.resolves in
      record {
        routing = h.routing;
        schemas_ok = found.well_formed;
        events_ok =
            All-append (EventOk key after) b.events (pushed_event r b ∷ [])
              (EventOk-extend key b.schemas after b.events found.extends h.events_ok)
              (
                record {
                  index = i;
                  schema = s;
                  values = record_values libs m r;
                  listed = at_i;
                  named = id;
                  typed = same ∙ determine_fields-types libs m r;
                  row_of = refl;
                  routed = h.routing;
                },
                tt,
              );
      }

  pub length-pushed_batch :
      (r : LogRecordView) (b : BatchData) → length (pushed_batch r b).events ≡ length b.events + 1
  unfolding pushed_batch
  length-pushed_batch r b = length-append b.events (pushed_event r b ∷ [])

-- The records in all batches.
unfoldable pub total_events : LogBatchAccumulator → ℕ
total_events [] = 0
total_events ((k, b) ∷ rest) = length b.events + total_events rest

-- The batches after a change of one of them.
pub record Changed (acc after : LogBatchAccumulator) : Type 0 where
  pub ok_after : AccumulatorOk after
  pub one_more : total_events after ≡ total_events acc + 1
  pub same_keys : (k : Str) → contains_key k after ≡ contains_key k acc

module _ (key : Str) (change : BatchData → Option BatchData) (next : BatchData → BatchData)
    (runs : (b : BatchData) → change b ≡ some (next b))
    (keeps : (b : BatchData) → BatchOk key b → BatchOk key (next b))
    (adds : (b : BatchData) → length (next b).events ≡ length b.events + 1) where
  pub with_batch-Changed :
      (acc : LogBatchAccumulator)
      → AccumulatorOk acc
      → contains_key key acc ≡ true
      → (after : LogBatchAccumulator) × (with_batch key change acc ≡ some after) × Changed acc after
  unfolding with_batch contains_key total_events
  with_batch-Changed [] h e = cc
  with_batch-Changed ((k, b) ∷ rest) h e = elim (Bool-cases (str_eq k key)) [
    | inl here ↦
        let same : k ≡ key = (str_eq_iff k key).0 here in
        let batch_ok : BatchOk k (next b) = rw same (keeps b (subst (λ j. BatchOk j b) same h.0)) in
        (
          (k, next b) ∷ rest,
          rw (here, with_batch) (rw (runs b)),
          record {
            ok_after = (batch_ok, h.1, h.2);
            one_more = omega (arith, adds b);
            same_keys = λ j. refl;
          },
        )
    | inr other ↦
        let in_rest : contains_key key rest ≡ true = ground arith in
        let (after, run, changed) = with_batch-Changed rest h.2 in_rest in
        (
          (k, b) ∷ after,
          rw (other, with_batch) (rw run),
          record {
            ok_after = (h.0, changed.same_keys k ∙ h.1, changed.ok_after);
            one_more = omega (arith, changed.one_more);
            same_keys = λ j. rw (changed.same_keys j);
          },
        )
  ]
