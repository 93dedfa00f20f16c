-- ===== src/Geneva/Batch/Grouping.antt =====
-- `push` and the loop over the records against a plain description: the records grouped by the event
-- name that routes them, each group with its rows, its earliest and its latest time.
use opentelemetry_rust_contr.Common.{
  ℕ, ◌<◌, ◌^◌, min, max, List, [], ◌∷◌, ◌++◌, false, ◌≡◌, refl, sym, ◌∙◌, Option, none, some, inl,
  inr, length, length-append, append-nil, append_assoc, All, map, ◌==◌, if◌then◌else◌, Bool-cases,
  arith,
}
use mathlib.Core.List.{map-append}
use mathlib.Core.Option
use opentelemetry_rust_contr.Common.Bytes.{Bytes}
use opentelemetry_rust_contr.Common.Text.{Str, str_eq, str_eq_iff}
use opentelemetry_rust_contr.Geneva.Blob.{CentralEventEntry}
use opentelemetry_rust_contr.Geneva.Value.{write_values}
use opentelemetry_rust_contr.Geneva.Encoder.{Libraries, MetadataFields}
use opentelemetry_rust_contr.Geneva.Encoder.Numbering.{HexIsAscii}
use opentelemetry_rust_contr.Geneva.Log.{LogRecordView, record_timestamp}
use opentelemetry_rust_contr.Geneva.Log.Spec.{record_values}
use opentelemetry_rust_contr.Geneva.Batch.{
  BatchData, LogBatchAccumulator, u64_max, contains_key, new_batch, note_time, routing_event_name,
  push_event, push, push_all,
}
use opentelemetry_rust_contr.Geneva.Batch.Invariant.{
  pushed_event, pushed_batch, push_event-pushed_batch,
}
use opentelemetry_rust_contr.Geneva.Batch.Lookup.{
  lookup, lookup-contains_key, lookup_there, lookup_added, lookup_beside, with_batch-lookup,
}

-- The records that an event name routes, in their order.
unfoldable pub group : Str → List LogRecordView → List LogRecordView
group k [] = []
group k (r ∷ rs) =
    let rest = group k rs in if str_eq (routing_event_name r) k then r ∷ rest else rest

-- The earliest time but 0, and the latest one.
unfoldable pub earliest : List LogRecordView → ℕ
earliest [] = u64_max
earliest (r ∷ rs) =
    let rest = earliest rs in
    if record_timestamp r == 0 then rest else min (record_timestamp r) rest

unfoldable pub latest : List LogRecordView → ℕ
latest [] = 0
latest (r ∷ rs) = max (record_timestamp r) (latest rs)

group-append :
    (k : Str) (rs : List LogRecordView) (r : LogRecordView)
    → group k (rs ++ r ∷ [])
      ≡ (if str_eq (routing_event_name r) k then group k rs ++ r ∷ [] else group k rs)
unfolding group
group-append k [] r = ground arith
group-append k (q ∷ rs) r = ground (arith, group-append k rs r)

earliest-append :
    (rs : List LogRecordView) (r : LogRecordView)
    → record_timestamp r < 2 ^ 64
    → earliest (rs ++ r ∷ [])
      ≡ (if record_timestamp r == 0 then earliest rs else min (earliest rs) (record_timestamp r))
unfolding earliest
earliest-append [] r h = ground arith
earliest-append (q ∷ rs) r h = ground (arith, earliest-append rs r h)

latest-append :
    (rs : List LogRecordView) (r : LogRecordView)
    → latest (rs ++ r ∷ []) ≡ max (latest rs) (record_timestamp r)
unfolding latest
latest-append [] r = omega arith
latest-append (q ∷ rs) r = omega (arith, latest-append rs r)

-- The batch of a group of records: none for no record, or else their rows in order, and their times.
pub record Batched (rows : List Bytes) (rs : List LogRecordView) (b : BatchData) : Type 0 where
  pub some_record : 0 < length rs
  pub rows_of : map (λ (e : CentralEventEntry). e.row) b.events ≡ rows
  pub starts : b.metadata.start_time ≡ earliest rs
  pub ends : b.metadata.end_time ≡ latest rs

module _ (libs : Libraries) (ascii : HexIsAscii libs) (m : MetadataFields) where
  abbrev pub row_of : LogRecordView → Bytes
  row_of r = write_values [] (record_values libs m r)

  abbrev pub BatchFor : List LogRecordView → Option BatchData → Type 0
  BatchFor rs none = rs ≡ []
  BatchFor rs (some b) = Batched (map row_of rs) rs b

  -- The batch to which a record is added.
  current : LogBatchAccumulator → LogRecordView → BatchData
  current acc r =
      Option.get_or (lookup (routing_event_name r) acc)
        (new_batch (routing_event_name r) (record_timestamp r))

  push-lookup :
      (acc : LogBatchAccumulator) (r : LogRecordView)
      → (after : LogBatchAccumulator) × (push libs m acc r ≡ some after)
        × (lookup (routing_event_name r) after ≡ some (pushed_batch libs ascii m r (current acc r)))
        × ((k : Str) → str_eq (routing_event_name r) k ≡ false → lookup k after ≡ lookup k acc)
  push-lookup acc r =
      let key = routing_event_name r in
      let change = push_event libs m r in
      let next = pushed_batch libs ascii m r in
      let runs = push_event-pushed_batch libs ascii m r in
      elim (Bool-cases (contains_key key acc)) [
        | inl there ↦
            let (b, e) = lookup_there key acc there in
            let (after, run, new, old) = with_batch-lookup key change next runs acc b e in
            (after, unfold push in rw there run, unfold current in rw e new, old)
        | inr absent ↦
            let b = new_batch key (record_timestamp r) in
            let none_yet = lookup-contains_key key acc absent in
            let (after, run, new, old) =
              with_batch-lookup key change next runs (acc ++ (key, b) ∷ []) b
                (lookup_added key b acc absent) in
            (
              after,
              unfold push in rw absent run,
              unfold current in rw none_yet new,
              λ k apart. old k apart ∙ lookup_beside k key b acc apart,
            )
      ]

  first-Batched :
      (key : Str) (r : LogRecordView)
      → record_timestamp r < 2 ^ 64
      → Batched
          (row_of r ∷ [])
          (r ∷ [])
          (pushed_batch libs ascii m r (new_batch key (record_timestamp r)))
  unfolding pushed_batch pushed_event new_batch note_time earliest latest
  first-Batched key r small = record {
    some_record = omega arith;
    rows_of = refl;
    starts = ground arith;
    ends = ground arith;
  }

  next-Batched :
      (rs : List LogRecordView) (r : LogRecordView) (b : BatchData)
      → record_timestamp r < 2 ^ 64
      → Batched (map row_of rs) rs b
      → Batched (map row_of (rs ++ r ∷ [])) (rs ++ r ∷ []) (pushed_batch libs ascii m r b)
  unfolding pushed_batch pushed_event note_time
  next-Batched rs r b small h = record {
    some_record = rw (length-append rs (r ∷ [])) (omega arith);
    rows_of = simp (map-append, h.rows_of);
    starts = ground (arith, earliest-append rs r small, h.starts);
    ends = ground (arith, latest-append rs r, h.ends);
  }

  pushed_batch-Batched :
      (rs : List LogRecordView) (r : LogRecordView) (key : Str) (o : Option BatchData)
      → record_timestamp r < 2 ^ 64
      → BatchFor rs o
      → Batched
          (map row_of (rs ++ r ∷ []))
          (rs ++ r ∷ [])
          (pushed_batch libs ascii m r (Option.get_or o (new_batch key (record_timestamp r))))
  pushed_batch-Batched rs r key none small h = rw h (first-Batched key r small)
  pushed_batch-Batched rs r key (some b) small h = next-Batched rs r b small h

  -- Every event name's batch is that of the records so far which the name routes.
  abbrev Grouped : List LogRecordView → LogBatchAccumulator → Type 0
  Grouped rs acc = (k : Str) → BatchFor (group k rs) (lookup k acc)

  push-Grouped :
      (rs : List LogRecordView) (acc : LogBatchAccumulator) (r : LogRecordView)
      → record_timestamp r < 2 ^ 64
      → Grouped rs acc
      → (after : LogBatchAccumulator) × (push libs m acc r ≡ some after)
        × Grouped (rs ++ r ∷ []) after
  push-Grouped rs acc r small h =
      let key = routing_event_name r in
      let (after, run, new, old) = push-lookup acc r in
      (
        after,
        run,
        λ k. elim (Bool-cases (str_eq key k)) [
          | inl here ↦
              let same : k ≡ key = sym ((str_eq_iff key k).0 here) in
              rw (group-append k rs r, here)
                (rw same (
                  rw new (
                    unfold current in
                    pushed_batch-Batched (group key rs) r key (lookup key acc) small (h key))))
          | inr apart ↦ rw (group-append k rs r, apart) (rw (old k apart) (h k))
        ],
      )

  push_all-steps :
      (done : List LogRecordView) (acc : LogBatchAccumulator) (records : List LogRecordView)
      → All (λ (r : LogRecordView). record_timestamp r < 2 ^ 64) records
      → Grouped done acc
      → (after : LogBatchAccumulator) × (push_all libs m acc records ≡ some after)
        × Grouped (done ++ records) after
  unfolding push_all
  push_all-steps done acc [] small h = (acc, refl, rw (append-nil done) h)
  push_all-steps done acc (r ∷ records) small h =
      let (mid, first, grouped) = push-Grouped done acc r small.0 h in
      let (after, run, all) = push_all-steps (done ++ r ∷ []) mid records small.1 grouped in
      (after, rw first run, λ k. rw (← append_assoc done (r ∷ []) records) (all k))

  -- Where hex writes ASCII and the times are 64-bit numbers, accumulating records groups them by
  -- the event name that routes each: a name has a batch exactly where it routes a record, the
  -- batch's rows are the rows of the records that it routes, in their order, and its start and end
  -- are the earliest of their times that are not 0 and the latest.
  pub push_all-Grouped :
      (records : List LogRecordView)
      → All (λ (r : LogRecordView). record_timestamp r < 2 ^ 64) records
      → (after : LogBatchAccumulator) × (push_all libs m [] records ≡ some after)
        × ((k : Str) → BatchFor (group k records) (lookup k after))
  push_all-Grouped records small =
      push_all-steps [] [] records small (λ k. unfold group lookup in refl)
