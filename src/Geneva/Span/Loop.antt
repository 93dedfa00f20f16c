-- ===== src/Geneva/Span/Loop.antt =====
-- The loop of `encode_span_batch` and the batch that comes of it.
use opentelemetry_rust_contr.Common.{
  ℕ, suc, ◌*◌, ◌≤◌, List, [], ◌∷◌, ◌++◌, ◌≡◌, refl, sym, ap, ◌∙◌, append-nil, append_assoc,
  length-map, some, false, length, All, All-append, Option, ◌==◌, if◌then◌else◌, min, max, arith,
}
use mathlib.Core.List.{map-append}
use opentelemetry_rust_contr.Common.Bytes.{Bytes}
use opentelemetry_rust_contr.Common.Text.{codes}
use opentelemetry_rust_contr.Geneva.Blob.{CentralEventEntry, CentralBlob, to_bytes}
use opentelemetry_rust_contr.Geneva.Lz4.{Compression, lz4_chunked_compression}
use opentelemetry_rust_contr.Geneva.Lz4.RoundTrip.{
  Lz4Laws, decompress_chunked, decompress_chunked-compression,
}
use opentelemetry_rust_contr.Geneva.Value.{write_values}
use opentelemetry_rust_contr.Geneva.Encoder.{Libraries, MetadataFields, find_or_create_schema}
use opentelemetry_rust_contr.Geneva.Encoder.Numbering.{HexIsAscii}
use opentelemetry_rust_contr.Geneva.Encoder.Schemas.{SchemasOk, find_or_create_schema-Found}
use opentelemetry_rust_contr.Geneva.Batch.{u64_max, EncodedBatch, Outcome}
use opentelemetry_rust_contr.Geneva.Batch.Invariant.{EventOk, EventOk-extend}
use opentelemetry_rust_contr.Geneva.Span.{Span, determine_span_fields}
use opentelemetry_rust_contr.Geneva.Span.Batch.{
  SpanLoop, loop_start, encode_span, encode_spans, span_blob, span_batch, finish_spans,
  encode_span_batch,
}
use opentelemetry_rust_contr.Geneva.Span.Spec.{span_values, KeysOk}
use opentelemetry_rust_contr.Geneva.Span.Expected.{
  rows_of, first_start, last_end, first_start-bound, SpanBatchOk, span_rows, SpanBlobOk,
  length-span_rows,
}
use opentelemetry_rust_contr.Geneva.Span.Fields.{determine_span_fields-types}
use opentelemetry_rust_contr.Geneva.Span.Row.{write_span_row_data-values}

-- What holds between two turns of the loop: the schemas are numbered and distinct, and every event
-- names a schema whose fields are those of its row.
pub record LoopOk (state : SpanLoop) : Type 0 where
  pub schemas_ok : SchemasOk state.schemas
  pub events_ok : All (EventOk (codes "Span") state.schemas) state.events

-- The keys of each span's attributes are apart from one another and from the fixed fields.
abbrev pub SpansOk : List Span → Type 0
SpansOk spans = All (λ (s : Span). KeysOk s.attributes) spans

module _ (libs : Libraries) (ascii : HexIsAscii libs) (m : MetadataFields) where
  -- The event of a span, and the variables after its turn, with the row in closed form.
  event_of : SpanLoop → Span → CentralEventEntry
  event_of state s = record {
    schema_id =
        (find_or_create_schema libs (codes "OtlpSpanRecord") (determine_span_fields s)
          state.schemas).0;
    level = 5;
    event_name = codes "Span";
    row = write_values [] (span_values libs m s);
  }

  after_span : SpanLoop → Span → SpanLoop
  after_span state s = record {
    schemas =
        (find_or_create_schema libs (codes "OtlpSpanRecord") (determine_span_fields s)
          state.schemas).1;
    events = state.events ++ event_of state s ∷ [];
    start_time =
        if s.start_time_unix_nano == 0
        then state.start_time
        else min state.start_time s.start_time_unix_nano;
    end_time =
        if s.end_time_unix_nano == 0
        then state.end_time
        else max state.end_time s.end_time_unix_nano;
  }

  encode_span-LoopOk :
      (state : SpanLoop) (s : Span)
      → KeysOk s.attributes
      → LoopOk state
      → (after : SpanLoop) × (encode_span libs m state s ≡ some after)
        × LoopOk after
        × (rows_of after.events
            ≡ rows_of state.events ++ write_values [] (span_values libs m s) ∷ [])
        × (after.start_time ≡ (
            if s.start_time_unix_nano == 0
            then state.start_time
            else min state.start_time s.start_time_unix_nano))
        × (after.end_time ≡ (
            if s.end_time_unix_nano == 0
            then state.end_time
            else max state.end_time s.end_time_unix_nano))
  unfolding after_span event_of
  encode_span-LoopOk state s keys h =
      let fields = determine_span_fields s in
      let name = codes "OtlpSpanRecord" in
      let after = find_or_create_schema libs name fields state.schemas in
      let found = find_or_create_schema-Found libs name fields state.schemas h.schemas_ok in
      let (i, schema, at_i, id, same) = found.resolves in
      let ok_event : EventOk (codes "Span") after.1 (event_of state s) = record {
        index = i;
        schema = schema;
        values = span_values libs m s;
        listed = at_i;
        named = id;
        typed = same ∙ determine_span_fields-types libs m s;
        row_of = refl;
        routed = refl;
      } in
      (
        after_span state s,
        unfold encode_span in rw (write_span_row_data-values libs ascii m s keys),
        record {
          schemas_ok = found.well_formed;
          events_ok =
              All-append (EventOk (codes "Span") after.1) state.events (event_of state s ∷ [])
                (EventOk-extend (codes "Span") state.schemas after.1 state.events found.extends
                  h.events_ok)
                (ok_event, tt);
        },
        map-append (λ event. event.row) state.events (event_of state s ∷ []),
        refl,
        refl,
      )

  encode_spans-LoopOk :
      (state : SpanLoop) (spans : List Span)
      → SpansOk spans
      → LoopOk state
      → state.start_time ≤ u64_max
      → (after : SpanLoop) × (encode_spans libs m state spans ≡ some after)
        × LoopOk after
        × (rows_of after.events ≡ rows_of state.events ++ span_rows libs m spans)
        × (after.start_time ≡ min state.start_time (first_start spans))
        × (after.end_time ≡ max state.end_time (last_end spans))
  unfolding encode_spans span_rows first_start last_end
  encode_spans-LoopOk state [] keys h bound =
      (state, refl, h, sym (append-nil _), omega arith, omega arith)
  encode_spans-LoopOk state (s ∷ spans) keys h bound =
      let (mid, first, mid_ok, one, start, end) = encode_span-LoopOk state s keys.0 h in
      let mid_bound : mid.start_time ≤ u64_max = ground arith in
      let (after, run, ok, more, starts, ends) =
        encode_spans-LoopOk mid spans keys.1 mid_ok mid_bound in
      (
        after,
        rw first run,
        ok,
        more ∙ rw (one) (append_assoc (rows_of state.events) _ _),
        ground arith,
        ground arith,
      )

  module _ (decompress : Bytes → Option Bytes)
      (laws : Lz4Laws libs.lz4 decompress (64 * 1024)) where
    finish_spans-decompress :
        (state : SpanLoop) (n : ℕ)
        → length state.events ≡ suc n
        → (batch : EncodedBatch) × (finish_spans libs m state ≡ Outcome.ok (batch ∷ []))
          × (batch.event_name ≡ codes "Span")
          × (batch.row_count ≡ suc n)
          × (batch.metadata.start_time
              ≡ (if state.start_time == u64_max then 0 else state.start_time))
          × (batch.metadata.end_time ≡ state.end_time)
          × (decompress_chunked decompress
                (length (to_bytes (span_blob libs m state)))
                batch.data_bytes
              ≡ some (to_bytes (span_blob libs m state)))
    finish_spans-decompress state n count =
        let image = to_bytes (span_blob libs m state) in
        let (compressed, run, back) =
          decompress_chunked-compression libs.lz4 (64 * 1024) decompress laws image (omega arith) in
        let ran : lz4_chunked_compression libs.lz4 image ≡ Compression.ok compressed =
          unfold lz4_chunked_compression in run in
        let some_there : (length state.events == 0) ≡ false = ground arith in
        (
          span_batch libs m state compressed,
          unfold finish_spans in rw some_there (rw (ran, finish_spans)),
          unfold span_batch in refl,
          unfold span_batch in count,
          unfold span_batch in refl,
          unfold span_batch in refl,
          unfold span_batch in back,
        )

    pub encode_span_batch-decompress :
        (span : Span) (spans : List Span)
        → SpansOk (span ∷ spans)
        → (batch : EncodedBatch) × (blob : CentralBlob) × (encode_span_batch libs m (span ∷ spans)
            ≡ Outcome.ok (batch ∷ []))
          × SpanBlobOk libs m (span ∷ spans) blob
          × SpanBatchOk (span ∷ spans) batch
          × (decompress_chunked decompress (length (to_bytes blob)) batch.data_bytes
              ≡ some (to_bytes blob))
    encode_span_batch-decompress span spans keys =
        let start_ok : LoopOk loop_start = record {
          schemas_ok = record { numbered = tt; distinct = tt };
          events_ok = tt;
        } in
        let (state, run, ok, rows, starts, ends) =
          encode_spans-LoopOk loop_start (span ∷ spans) keys start_ok (omega arith) in
        let bound = first_start-bound (span ∷ spans) in
        let first : state.start_time ≡ first_start (span ∷ spans) = omega arith in
        let last : state.end_time ≡ last_end (span ∷ spans) = omega arith in
        let count : length state.events ≡ suc (length spans) =
          sym (length-map state.events (λ event. event.row))
          ∙ (ap length rows ∙ length-span_rows libs m (span ∷ spans)) in
        let (batch, done, named, counted, started, ended, back) =
          finish_spans-decompress state (length spans) count in
        (
          batch,
          span_blob libs m state,
          unfold encode_span_batch in rw (run, encode_span_batch) done,
          unfold span_blob in
              record {
                version = refl;
                format = refl;
                described = refl;
                schemas_ok = ok.schemas_ok;
                events_ok = ok.events_ok;
                rows = rows;
              },
          record {
            named = named;
            counted = counted;
            started = started ∙ rw (first) refl;
            ended = ended ∙ last;
          },
          back,
        )
