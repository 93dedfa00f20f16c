-- ===== src/Geneva/Batch/Finish.antt =====
-- `finalize` and `encode_logs_from_view`: what the encoded batches hold.
use opentelemetry_rust_contr.Common.{
  ℕ, ◌+◌, ◌*◌, List, [], ◌∷◌, ◌≡◌, refl, false, sym, ap, ◌∙◌, ◌++◌, append_assoc, Option, some,
  length, ◌==◌, if◌then◌else◌, arith,
}
use mathlib.Core.List.{Permᴰ, flatten}
use opentelemetry_rust_contr.Common.Bytes.{Bytes}
use opentelemetry_rust_contr.Common.Text.{Str}
use opentelemetry_rust_contr.Geneva.Blob.{CentralBlob, to_bytes}
use opentelemetry_rust_contr.Geneva.Lz4.{Compression, lz4_chunked_compression}
use opentelemetry_rust_contr.Geneva.Lz4.RoundTrip.{
  Lz4Laws, decompress_chunked, decompress_chunked-compression,
}
use opentelemetry_rust_contr.Geneva.Encoder.{Libraries, MetadataFields, format_schema_ids}
use opentelemetry_rust_contr.Geneva.Encoder.Numbering.{HexIsAscii}
use opentelemetry_rust_contr.Geneva.Log.{LogRecordView}
use opentelemetry_rust_contr.Geneva.Batch.{
  u64_max, BatchData, LogBatchAccumulator, EncodedBatch, ok, batch_blob, encode_batch, finalize,
  push_all, scope_records, view_records, encode_logs_from_view,
}
use opentelemetry_rust_contr.Geneva.Batch.Invariant.{AccumulatorOk, total_events}
use opentelemetry_rust_contr.Geneva.Batch.Push.{push_all-AccumulatorOk}

abbrev entry_size : Str × BatchData → ℕ
entry_size (name, b) = length b.events

total_events-Permᴰ : {xs ys : LogBatchAccumulator} → Permᴰ xs ys → total_events xs ≡ total_events ys
unfolding total_events
total_events-Permᴰ Permᴰ.nil = refl
total_events-Permᴰ (Permᴰ.cons e p) = omega (arith, ap entry_size e, total_events-Permᴰ p)
total_events-Permᴰ (Permᴰ.swap e f) = omega (arith, ap entry_size e, ap entry_size f)
total_events-Permᴰ (Permᴰ.trans p q) = total_events-Permᴰ p ∙ total_events-Permᴰ q

unfoldable pub total_rows : List EncodedBatch → ℕ
total_rows [] = 0
total_rows (b ∷ bs) = b.row_count + total_rows bs

scope_records-flatten : (scopes : List (List LogRecordView)) → scope_records scopes ≡ flatten scopes
unfolding scope_records flatten
scope_records-flatten [] = refl
scope_records-flatten (records ∷ scopes) = rw (scope_records-flatten scopes)

flatten-append : (xs ys : List (List LogRecordView)) → flatten (xs ++ ys) ≡ flatten xs ++ flatten ys
unfolding flatten
flatten-append [] ys = refl
flatten-append (x ∷ xs) ys =
    rw (flatten-append xs ys) (sym (append_assoc x (flatten xs) (flatten ys)))

-- The records of a view, in order.
pub view_records-flatten :
    (view : List (List (List LogRecordView))) → view_records view ≡ flatten (flatten view)
unfolding view_records flatten
view_records-flatten [] = refl
view_records-flatten (scopes ∷ resources) =
    rw (scope_records-flatten scopes, view_records-flatten resources)
      (sym (flatten-append scopes (flatten resources)))

module _ (libs : Libraries) (m : MetadataFields) (decompress : Bytes → Option Bytes) where
  -- An encoded batch has its batch's name, count and times, with 0 for no start, and its data decompresses to the bytes of a
  -- blob of version 1 and format 2 with the metadata of the configuration and the schemas and events
  -- of the batch.
  pub record EncodedOk (name : Str) (b : BatchData) (e : EncodedBatch) : Type 0 where
    pub named : e.event_name ≡ name
    pub rows : e.row_count ≡ length b.events
    pub started :
        (b.metadata.start_time == u64_max) ≡ false → e.metadata.start_time ≡ b.metadata.start_time
    pub not_started : b.metadata.start_time ≡ u64_max → e.metadata.start_time ≡ 0
    pub ended : e.metadata.end_time ≡ b.metadata.end_time
    pub blob : CentralBlob
    pub version : blob.version ≡ 1
    pub format : blob.format ≡ 2
    pub described : blob.metadata ≡ m.metadata_string
    pub schemas : blob.schemas ≡ b.schemas
    pub events : blob.events ≡ b.events
    pub unpacked :
        decompress_chunked decompress (length (to_bytes blob)) e.data_bytes ≡ some (to_bytes blob)

  abbrev pub EachOk : List (Str × BatchData) → List EncodedBatch → Type 0
  EachOk [] [] = Unit {0}
  EachOk [] (e ∷ es) = ⊥
  EachOk ((name, b) ∷ bs) [] = ⊥
  EachOk ((name, b) ∷ bs) (e ∷ es) = EncodedOk name b e × EachOk bs es

  encoded_of : Str → BatchData → Bytes → EncodedBatch
  encoded_of name b compressed = record {
    event_name = name;
    data_bytes = compressed;
    metadata = record {
      start_time = if b.metadata.start_time == u64_max then 0 else b.metadata.start_time;
      end_time = b.metadata.end_time;
      schema_ids = format_schema_ids b.schemas;
    };
    row_count = length b.events;
  }

  total_rows-EachOk :
      (bs : List (Str × BatchData)) (es : List EncodedBatch)
      → EachOk bs es
      → total_rows es ≡ total_events bs
  unfolding total_rows total_events
  total_rows-EachOk [] [] h = refl
  total_rows-EachOk [] (e ∷ es) h = absurd h
  total_rows-EachOk ((name, b) ∷ bs) [] h = absurd h
  total_rows-EachOk ((name, b) ∷ bs) (e ∷ es) h =
      omega (arith, h.0.rows, total_rows-EachOk bs es h.1)

  module _ (laws : Lz4Laws libs.lz4 decompress (64 * 1024)) where
    encode_batch-EncodedOk :
        (name : Str) (b : BatchData)
        → (e : EncodedBatch) × (encode_batch libs m name b ≡ ok e) × EncodedOk name b e
    encode_batch-EncodedOk name b =
        let image = to_bytes (batch_blob m b) in
        let (compressed, run, back) =
          decompress_chunked-compression libs.lz4 (64 * 1024) decompress laws image (omega arith) in
        let ran : lz4_chunked_compression libs.lz4 image ≡ Compression.ok compressed =
          unfold lz4_chunked_compression in run in
        (
          encoded_of name b compressed,
          unfold encode_batch encoded_of in rw (ran, encode_batch),
          unfold encoded_of batch_blob in
              record {
                named = refl;
                rows = refl;
                started = λ h. rw (h) refl;
                not_started = λ h. rw (h) refl;
                ended = refl;
                blob = batch_blob m b;
                version = refl;
                format = refl;
                described = refl;
                schemas = refl;
                events = refl;
                unpacked = back;
              },
        )

    finalize-EachOk :
        (bs : List (Str × BatchData))
        → (es : List EncodedBatch) × (finalize libs m bs ≡ ok es) × EachOk bs es
    unfolding finalize
    finalize-EachOk [] = ([], refl, tt)
    finalize-EachOk ((name, b) ∷ bs) =
        let (e, one, one_ok) = encode_batch-EncodedOk name b in
        let (es, run, rest_ok) = finalize-EachOk bs in
        (e ∷ es, rw (one, finalize) (rw (run, finalize)), (one_ok, rest_ok))

    -- Where lz4_flex keeps its documented word, hex writes ASCII and the map gives up each of its
    -- entries once, in any order, encoding a view neither panics nor fails. The encoded batches
    -- are those of the well formed accumulator that the pushes of all the view's records leave:
    -- each has its batch's name and times and decompresses to the bytes of a blob with the schemas
    -- and all the events of its batch, as many as its row count, and the row counts add up to the
    -- number of log records in the view.
    pub encode_logs_from_view-EachOk :
        HexIsAscii libs
        → (iteration : LogBatchAccumulator → List (Str × BatchData))
        → ((acc : LogBatchAccumulator) → Permᴰ (iteration acc) acc)
        → (view : List (List (List LogRecordView)))
        → (acc : LogBatchAccumulator) × (es : List EncodedBatch) × (encode_logs_from_view libs
              iteration m view
            ≡ ok es)
          × (push_all libs m [] (flatten (flatten view)) ≡ some acc)
          × AccumulatorOk acc
          × EachOk (iteration acc) es
          × (total_rows es ≡ length (flatten (flatten view)))
    encode_logs_from_view-EachOk ascii iteration permutes view =
        let (acc, pushed, acc_ok, count) =
          push_all-AccumulatorOk libs ascii m (flatten (flatten view)) in
        let pushed_view : push_all libs m [] (view_records view) ≡ some acc =
          rw (view_records-flatten view) pushed in
        let (es, run, each) = finalize-EachOk (iteration acc) in
        (
          acc,
          es,
          unfold encode_logs_from_view in rw (pushed_view, encode_logs_from_view) run,
          pushed,
          acc_ok,
          each,
          total_rows-EachOk (iteration acc) es each ∙ total_events-Permᴰ (permutes acc) ∙ count,
        )
