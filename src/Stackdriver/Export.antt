-- ===== src/Stackdriver/Export.antt =====
-- lib.rs: `ExporterContext::export`, from a batch of spans to the requests that are sent.
use opentelemetry_rust_contr.Common.{
  ℕ, ◌+◌, ◌-◌, ◌%◌, ◌^◌, List, [], ◌∷◌, ◌++◌, map, replicate, Bool, true, false, ◌||◌, Option, none,
  some, if◌then◌else◌,
}
use opentelemetry_rust_contr.Common.Text.{Str, codes, str_eq}
use opentelemetry_rust_contr.Stackdriver.{
  Sdk, Status, ok, unset, error, SpanKind, client, server, producer, consumer, internal, Link,
  Links, InternalLogContext, insert, Value, Event, SpanData, TimeEvent, Span, LogEntry, Sent,
  batch_write_spans, write_log_entries,
}
use opentelemetry_rust_contr.Stackdriver.Attributes.{SemConv, attributes_new}

-- The numbers of the protobuf enumeration.
unfoldable pub kind_number : SpanKind → ℕ
kind_number client = 3
kind_number server = 2
kind_number producer = 4
kind_number consumer = 5
kind_number internal = 1

unfoldable pub status : Status → Option (ℕ × Str)
status ok = some (0, [])
status unset = none
status (error description) = some (2, description)

unfoldable pub level_of : Str → ℕ
level_of s =
    if str_eq s (codes "DEBUG") || str_eq s (codes "TRACE")
    then 100
    else if str_eq s (codes "INFO")
    then 200
    else if str_eq s (codes "WARN")
    then 400
    else if str_eq s (codes "ERROR")
    then 500
    else 0

-- What is read of the attributes of an event: severity, target and labels.
pub record Read : Type 0 where
  pub severity : ℕ
  pub target : Option Str
  pub labels : List (Str × Str)

module _ (sdk : Sdk) where
  unfoldable pub hex_link : Link → Link
  hex_link l = record { trace_id = sdk.hex_encode l.trace_id; span_id = sdk.hex_encode l.span_id }

  unfoldable pub transform_links : ℕ → List Link → Option Links
  transform_links dropped [] = none
  transform_links dropped (l ∷ links) =
      some (record { dropped_links_count = dropped % 2 ^ 32; link = map hex_link (l ∷ links) })

  unfoldable pub time_event : Event sdk → TimeEvent sdk
  time_event event = record { time = sdk.into_timestamp event.timestamp; description = event.name }

  -- `as_str` of a value, the project of the authorizer, the shared log client and resource; the
  -- last is `none` where its lock is poisoned or no resource was set.
  pub record Context : Type 0 where
    pub semconv : SemConv
    pub as_str : Value sdk → Str
    pub project_id : Str
    pub log_client : Option InternalLogContext
    pub resource : Option (List (Str × Value sdk))

  module _ (context : Context) where
    unfoldable pub read_attribute : Str → Value sdk → Read → Read
    read_attribute key value r =
        if str_eq key (codes "level")
        then record r { severity = level_of (context.as_str value) }
        else if str_eq key (codes "target")
        then record r { target = some (context.as_str value) }
        else record r { labels = insert key (context.as_str value) r.labels }

    unfoldable pub read_attributes : List (Str × Value sdk) → Read → Read
    read_attributes [] r = r
    read_attributes ((key, value) ∷ more) r = read_attributes more (read_attribute key value r)

    unfoldable pub log_entry : InternalLogContext → SpanData sdk → Event sdk → LogEntry sdk
    log_entry log span event =
        let r =
          read_attributes event.attributes (record { severity = 0; target = none; labels = [] }) in
        record {
          log_name = codes "projects/" ++ (context.project_id ++ (codes "/logs/" ++ log.log_id));
          resource = log.resource;
          severity = r.severity;
          timestamp = sdk.into_timestamp event.timestamp;
          labels = r.labels;
          trace =
              codes "projects/"
              ++ (context.project_id ++ (codes "/traces/" ++ sdk.hex_encode span.trace_id));
          span_id = sdk.hex_encode span.span_id;
          source_function = r.target;
          text_payload = event.name;
        }

    unfoldable pub time_events : Option InternalLogContext → SpanData sdk → List (TimeEvent sdk)
    time_events none span = map time_event span.events
    time_events (some log) span = []

    unfoldable pub log_entries : Option InternalLogContext → SpanData sdk → List (LogEntry sdk)
    log_entries none span = []
    log_entries (some log) span = map (log_entry log span) span.events

    unfoldable pub convert_span : SpanData sdk → Span sdk
    convert_span span = record {
      name =
          codes "projects/"
          ++ (context.project_id
              ++ (codes "/traces/"
                  ++ (sdk.hex_encode span.trace_id
                      ++ (codes "/spans/" ++ sdk.hex_encode span.span_id))));
      display_name = span.name;
      span_id = sdk.hex_encode span.span_id;
      parent_span_id =
          if str_eq span.parent_span_id (replicate 8 0)
          then []
          else sdk.hex_encode span.parent_span_id;
      start_time = sdk.into_timestamp span.start_time;
      end_time = sdk.into_timestamp span.end_time;
      attributes = attributes_new sdk context.semconv span.attributes context.resource;
      time_events = time_events context.log_client span;
      links = transform_links span.links_dropped_count span.links;
      status = status span.status;
      span_kind = kind_number span.span_kind;
    }

    unfoldable pub convert_batch :
        List (SpanData sdk)
        → List (LogEntry sdk)
        → List (Span sdk)
        → List (LogEntry sdk) × List (Span sdk)
    convert_batch [] entries spans = (entries, spans)
    convert_batch (span ∷ batch) entries spans =
        convert_batch batch (entries ++ log_entries context.log_client span)
          (spans ++ convert_span span ∷ [])

    -- The second request, if there is a log client and the authorizer agrees.
    unfoldable pub send_entries :
        Option InternalLogContext → Bool → List (LogEntry sdk) → List (Sent sdk)
    send_entries none authorized entries = []
    send_entries (some log) false entries = []
    send_entries (some log) true entries =
        write_log_entries
          (codes "projects/" ++ (context.project_id ++ (codes "/logs/" ++ log.log_id))) entries
        ∷ []

    unfoldable pub send_spans : Bool → List (Span sdk) → List (Sent sdk)
    send_spans false spans = []
    send_spans true spans = batch_write_spans (codes "projects/" ++ context.project_id) spans ∷ []

    -- What the authorizer answers to each of the two requests, the count of pending batches, and the
    -- batch; the new count and what is sent. Whether the sending fails changes nothing more.
    unfoldable pub export_batch : Bool → Bool → ℕ → List (SpanData sdk) → ℕ × List (Sent sdk)
    export_batch spans_authorized entries_authorized pending batch =
        let (entries, spans) = convert_batch batch [] [] in
        (
          (pending + (2 ^ 64 - 1)) % 2 ^ 64,
          send_spans spans_authorized spans
              ++ send_entries context.log_client entries_authorized entries,
        )
