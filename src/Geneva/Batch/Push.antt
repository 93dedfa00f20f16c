-- ===== src/Geneva/Batch/Push.antt =====
-- `push` and the loop over the records, against the invariant of the accumulator.
use opentelemetry_rust_contr.Common.{
  ℕ, ◌+◌, List, [], ◌∷◌, ◌++◌, true, false, ◌||◌, ◌≡◌, refl, ◌∙◌, inl, inr, some, length,
  if◌then◌else◌, Bool-cases, arith,
}
use opentelemetry_rust_contr.Common.Text.{Str, str_eq, str_eq_iff, str_eq_refl}
use opentelemetry_rust_contr.Geneva.Encoder.{Libraries, MetadataFields}
use opentelemetry_rust_contr.Geneva.Encoder.Numbering.{HexIsAscii}
use opentelemetry_rust_contr.Geneva.Log.{LogRecordView, record_timestamp}
use opentelemetry_rust_contr.Geneva.Batch.{
  BatchData, LogBatchAccumulator, contains_key, new_batch, routing_event_name, push_event, push,
  push_all,
}
use opentelemetry_rust_contr.Geneva.Batch.Invariant.{
  AccumulatorOk, total_events, new_batch-BatchOk, pushed_batch, push_event-pushed_batch,
  pushed_batch-BatchOk, length-pushed_batch, with_batch-Changed,
}

contains_key-append :
    (j key : Str) (b : BatchData) (acc : LogBatchAccumulator)
    → contains_key j (acc ++ (key, b) ∷ []) ≡ (contains_key j acc || str_eq key j)
unfolding contains_key
contains_key-append j key b [] = ground arith
contains_key-append j key b ((k, c) ∷ acc) = ground (arith, contains_key-append j key b acc)

-- A new, empty batch under a key that is not there.
AccumulatorOk-append :
    (key : Str) (t : ℕ) (acc : LogBatchAccumulator)
    → contains_key key acc ≡ false
    → AccumulatorOk acc
    → AccumulatorOk (acc ++ (key, new_batch key t) ∷ [])
unfolding contains_key
AccumulatorOk-append key t [] e h = (new_batch-BatchOk key t, refl, tt)
AccumulatorOk-append key t ((k, b) ∷ acc) e h =
    let apart : str_eq k key ≡ false = ground arith in
    let rest : contains_key key acc ≡ false = ground arith in
    let apart_too : str_eq key k ≡ false = ground (arith, str_eq_iff k key, str_eq_iff key k) in
    (
      h.0,
      contains_key-append k key (new_batch key t) acc ∙ rw (h.1, apart_too),
      AccumulatorOk-append key t acc rest h.2,
    )

total_events-append :
    (key : Str) (t : ℕ) (acc : LogBatchAccumulator)
    → total_events (acc ++ (key, new_batch key t) ∷ []) ≡ total_events acc
unfolding total_events new_batch
total_events-append key t [] = omega arith
total_events-append key t ((k, b) ∷ acc) = omega (arith, total_events-append key t acc)

module _ (libs : Libraries) (ascii : HexIsAscii libs) (m : MetadataFields) where
  -- The accumulator in which the record's batch is looked up.
  ready : LogBatchAccumulator → LogRecordView → LogBatchAccumulator
  ready acc r =
      if contains_key (routing_event_name r) acc
      then acc
      else acc ++ (routing_event_name r, new_batch (routing_event_name r) (record_timestamp r)) ∷ []

  ready_lem :
      (acc : LogBatchAccumulator) (r : LogRecordView)
      → AccumulatorOk acc
      → AccumulatorOk (ready acc r)
        × (contains_key (routing_event_name r) (ready acc r) ≡ true)
        × (total_events (ready acc r) ≡ total_events acc)
  ready_lem acc r h =
      let key = routing_event_name r in
      let t = record_timestamp r in
      elim (Bool-cases (contains_key key acc)) [
        | inl there ↦ unfold ready in rw there (h, there, refl)
        | inr absent ↦
            unfold ready in
            rw absent (
              AccumulatorOk-append key t acc absent h,
              contains_key-append key key (new_batch key t) acc ∙ rw (absent, str_eq_refl key),
              total_events-append key t acc,
            )
      ]

  -- A push succeeds on every well formed accumulator, keeps it well formed, and adds one event.
  pub push-AccumulatorOk :
      (acc : LogBatchAccumulator) (r : LogRecordView)
      → AccumulatorOk acc
      → (after : LogBatchAccumulator) × (push libs m acc r ≡ some after)
        × AccumulatorOk after
        × (total_events after ≡ total_events acc + 1)
  push-AccumulatorOk acc r h =
      let key = routing_event_name r in
      let (ok, there, same) = ready_lem acc r h in
      let (after, run, changed) =
        with_batch-Changed key (push_event libs m r) (pushed_batch libs ascii m r)
          (push_event-pushed_batch libs ascii m r) (pushed_batch-BatchOk libs ascii m key r)
          (length-pushed_batch libs ascii m r) (ready acc r) ok there in
      (after, unfold push ready in run, changed.ok_after, omega (arith, changed.one_more, same))

  push_all-steps :
      (acc : LogBatchAccumulator) (records : List LogRecordView)
      → AccumulatorOk acc
      → (after : LogBatchAccumulator) × (push_all libs m acc records ≡ some after)
        × AccumulatorOk after
        × (total_events after ≡ total_events acc + length records)
  unfolding push_all
  push_all-steps acc [] h = (acc, refl, h, omega arith)
  push_all-steps acc (r ∷ records) h =
      let (mid, first, mid_ok, one) = push-AccumulatorOk acc r h in
      let (after, run, ok, more) = push_all-steps mid records mid_ok in
      (after, rw first run, ok, omega (arith, one, more))

  -- Where hex writes ASCII, accumulating any records from the start panics on none of them. In the
  -- end no event name has two batches, the schemas of a batch are numbered from 1 and distinct,
  -- every event's schema is in its batch with the names and types of its row's values, and there
  -- is one event for each record.
  pub push_all-AccumulatorOk :
      (records : List LogRecordView)
      → (after : LogBatchAccumulator) × (push_all libs m [] records ≡ some after)
        × AccumulatorOk after
        × (total_events after ≡ length records)
  push_all-AccumulatorOk records =
      let (after, run, ok, count) = push_all-steps [] records tt in
      (after, run, ok, count ∙ unfold total_events in omega arith)
