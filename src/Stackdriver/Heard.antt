-- ===== src/Stackdriver/Heard.antt =====
-- The events of a batch, as the requests of an export tell them.
use opentelemetry_rust_contr.Common.{
  ℕ, List, [], ◌∷◌, ◌++◌, append-nil, append_assoc, map, true, none, some, ◌≡◌, refl, ap, ◌∙◌,
  Option-cases, inl, inr,
}
use opentelemetry_rust_contr.Common.Text.{Str}
use opentelemetry_rust_contr.Stackdriver.{
  Sdk, InternalLogContext, Event, SpanData, TimeEvent, Span, LogEntry, Sent, batch_write_spans,
  write_log_entries,
}
use opentelemetry_rust_contr.Stackdriver.Export.{
  Context, time_event, log_entry, time_events, log_entries, convert_span, convert_batch,
  send_entries, send_spans, export_batch,
}

module _ (sdk : Sdk) where
  -- When, in the span with which id, and what.
  abbrev pub Told : Type 0
  Told = sdk.Timestamp × Str × Str

  unfoldable pub told_events : SpanData sdk → List (Event sdk) → List Told
  told_events span [] = []
  told_events span (event ∷ events) =
      (sdk.into_timestamp event.timestamp, sdk.hex_encode span.span_id, event.name)
      ∷ told_events span events

  unfoldable pub told : List (SpanData sdk) → List Told
  told [] = []
  told (span ∷ batch) = told_events span span.events ++ told batch

  unfoldable pub heard_times : Str → List (TimeEvent sdk) → List Told
  heard_times span_id [] = []
  heard_times span_id (event ∷ events) =
      (event.time, span_id, event.description) ∷ heard_times span_id events

  unfoldable pub heard_spans : List (Span sdk) → List Told
  heard_spans [] = []
  heard_spans (span ∷ spans) = heard_times span.span_id span.time_events ++ heard_spans spans

  unfoldable pub heard_entries : List (LogEntry sdk) → List Told
  heard_entries [] = []
  heard_entries (entry ∷ entries) =
      (entry.timestamp, entry.span_id, entry.text_payload) ∷ heard_entries entries

  unfoldable pub heard : List (Sent sdk) → List Told
  heard [] = []
  heard (batch_write_spans name spans ∷ sent) = heard_spans spans ++ heard sent
  heard (write_log_entries name entries ∷ sent) = heard_entries entries ++ heard sent

  heard_entries-append :
      (xs ys : List (LogEntry sdk))
      → heard_entries (xs ++ ys) ≡ heard_entries xs ++ heard_entries ys
  unfolding heard_entries
  heard_entries-append [] ys = refl
  heard_entries-append (x ∷ xs) ys = rw (heard_entries-append xs ys) refl

  heard_spans-append :
      (xs ys : List (Span sdk)) → heard_spans (xs ++ ys) ≡ heard_spans xs ++ heard_spans ys
  unfolding heard_spans
  heard_spans-append [] ys = refl
  heard_spans-append (x ∷ xs) ys = rw (heard_spans-append xs ys, append_assoc) refl

  module _ (context : Context sdk) where
    heard-time_event :
        (span : SpanData sdk) (events : List (Event sdk))
        → heard_times (sdk.hex_encode span.span_id) (map (time_event sdk) events)
          ≡ told_events span events
    unfolding heard_times told_events time_event
    heard-time_event span [] = refl
    heard-time_event span (event ∷ events) = rw (heard-time_event span events) refl

    heard-log_entry :
        (log : InternalLogContext) (span : SpanData sdk) (events : List (Event sdk))
        → heard_entries (map (log_entry sdk context log span) events) ≡ told_events span events
    unfolding heard_entries told_events log_entry
    heard-log_entry log span [] = refl
    heard-log_entry log span (event ∷ events) = rw (heard-log_entry log span events) refl

    -- Without a log client the spans carry the events.
    convert_batch-plain :
        context.log_client ≡ none
        → (batch : List (SpanData sdk)) (entries : List (LogEntry sdk)) (spans : List (Span sdk))
        → heard_spans (convert_batch sdk context batch entries spans).1
          ≡ heard_spans spans ++ told batch
    unfolding convert_batch convert_span time_events heard_spans told
    convert_batch-plain h [] entries spans = rw (append-nil) refl
    convert_batch-plain h (span ∷ batch) entries spans =
        rw
          (
            convert_batch-plain h batch (entries ++ log_entries sdk context context.log_client span)
                (spans ++ convert_span sdk context span ∷ []),
            heard_spans-append,
            h,
            heard-time_event,
            append-nil,
            append_assoc,
          )
          refl

    heard-log_entries :
        (log : InternalLogContext)
        → context.log_client ≡ some log
        → (span : SpanData sdk)
        → heard_entries (log_entries sdk context context.log_client span)
          ≡ told_events span span.events
    unfolding log_entries
    heard-log_entries log h span =
        ap (λ o. heard_entries (log_entries sdk context o span)) h
        ∙ heard-log_entry log span span.events

    convert_batch-logged :
        (log : InternalLogContext)
        → context.log_client ≡ some log
        → (batch : List (SpanData sdk)) (entries : List (LogEntry sdk)) (spans : List (Span sdk))
        → (heard_entries (convert_batch sdk context batch entries spans).0
            ≡ heard_entries entries ++ told batch)
          × (heard_spans (convert_batch sdk context batch entries spans).1 ≡ heard_spans spans)
    unfolding convert_batch convert_span time_events heard_spans heard_times told
    convert_batch-logged log h [] entries spans = (rw (append-nil) refl, refl)
    convert_batch-logged log h (span ∷ batch) entries spans =
        let (entries_told, spans_silent) =
          convert_batch-logged log h batch
            (entries ++ log_entries sdk context context.log_client span)
            (spans ++ convert_span sdk context span ∷ []) in
        (
          rw (entries_told, heard_entries-append, heard-log_entries log h, append_assoc) refl,
          rw (spans_silent, heard_spans-append, h, append-nil) refl,
        )

    -- Where the authorizer agrees to both requests, what is sent tells every event of the batch
    -- once and in order, with its time, its name and the id of its span, whether as the
    -- annotations of the spans or, with a log client, as log entries.
    pub export_batch-told :
        (pending : ℕ) (batch : List (SpanData sdk))
        → heard (export_batch sdk context true true pending batch).1 ≡ told batch
    unfolding export_batch send_spans send_entries heard heard_spans heard_entries
    export_batch-told pending batch = elim (Option-cases context.log_client) [
      | inl h ↦ simp (h, convert_batch-plain h batch [] [], append-nil) refl
      | inr (log, h) ↦
          let (entries_told, spans_silent) = convert_batch-logged log h batch [] [] in
          simp (h, entries_told, spans_silent, append-nil) refl
    ]
