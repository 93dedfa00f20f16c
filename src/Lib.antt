-- ===== src/Lib.antt =====
-- A model of the core of opentelemetry-rust-contrib: the payload encoder of the Geneva exporter,
-- from log records and spans to the compressed batches, the client of its configuration service with
-- the cache of tokens, and the uploads of the batches, up to the exporters' results; the exporters
-- of metrics and of logs to Linux user_events, from the data to the events of a tracepoint; the
-- exporter to the agent of Datadog, from batches of spans to requests; the exporter to Google Cloud,
-- from spans to the requests; and the propagators of span contexts; with the theorems that make them
-- correct.
--
-- Parts and files. Definitions have the names of the functions they model, in this library's spelling.
-- Of opentelemetry-exporter-geneva/geneva-uploader/src/payload_encoder:
--   - bond_encoder.rs, the Simple Binary writers and the Bond schema encoder: Geneva/Bond. Bond/Reader
--     describes the format on its own, as a reader; Bond/Size and Bond/RoundTrip compare.
--   - central_blob.rs, the container of schemas and events: Geneva/Blob, with Blob/Reader, Blob/Size and
--     Blob/RoundTrip in the same roles.
--   - lz4_chunked_compression.rs: Geneva/Lz4. Lz4/Frames and Lz4/RoundTrip say what the in-place work
--     on the buffer amounts to.
--   - otlp_encoder.rs: Geneva/Encoder has what logs and spans share (`MetadataFields`, the numbering of
--     fields, the schemas of a batch, ids and timestamps); Geneva/Log has `determine_fields` and
--     `write_row_data`; Geneva/Batch has `LogBatchAccumulator` with `push`, `finalize` and
--     `encode_logs_from_view`, which Batch/Lookup and Batch/Grouping compare with a plain grouping of the
--     records by name; Geneva/Span has `determine_span_fields`, `write_span_row_data` and
--     `serialize_links`, and Span/Batch has `encode_span_batch`, with Span/Expected for what is to come of it; Span/Collisions is about attributes with
--     the key of a fixed field. Log/Spec and Span/Spec give the named
--     values that a record's or span's row is to hold, and Geneva/Value the reader of rows: a row has no
--     names or types of its own, so it means something only by the schema beside it.
-- Of opentelemetry-exporter-geneva/geneva-uploader/src/config_service:
--   - client.rs, the answers of the configuration service, the endpoint of a token and the cache of
--     tokens: Geneva/Config. Config/Cache has the calls that share the cache as a step relation, in any
--     interleaving; Config/Token is about what is read of an answer.
-- Of the rest of opentelemetry-exporter-geneva:
--   - geneva-uploader/src/ingestion_service/uploader.rs: Geneva/Upload, with the request of an upload and
--     the reading of its answer. Upload/Query is a reader of the URL, Query/Gateway compares. The times of
--     a batch are of payload_encoder/central_blob.rs.
--   - geneva-uploader/src/client.rs: Geneva/Upload/Client. Upload/Reported says what follows from the
--     result of `upload_batch`.
--   - opentelemetry-exporter-geneva/src/logs/exporter.rs and trace/exporter.rs: Geneva/Export, with the
--     concurrent uploads as a step relation, about which Export/Uploading and Export/Delivered are.
--     Export/Records has the view of log records; Export/Logs and Export/Spans put the parts together,
--     from the records to the answers of the gateway.
-- Of opentelemetry-user-events-metrics/src:
--   - exporter/mod.rs: UserEvents has the data, UserEvents/Points the loop over the points of a metric,
--     UserEvents/Export the loops over metrics and scopes. The request is shared by all points and changed
--     in place, and so is the byte array; Spec has the requests that are to be emitted, Refinement
--     compares, and Delivery is about the events.
--   - tracepoint/mod.rs: UserEvents/Tracepoint, with `encode_and_emit_metric`.
-- Of opentelemetry-user-events-logs/src:
--   - logs/exporter.rs: UserLogs has the data and the builder of events as the list of its calls,
--     UserLogs/Export the parts A, C and B of an event and the choice of its event set. UserLogs/Reader
--     reads such calls, and UserLogs/Told says what they are to tell; Parts, PartC and Written compare.
-- Of opentelemetry-datadog/src/exporter:
--   - intern.rs, the texts of values and the string interner: Datadog/Value and Datadog/Interner.
--   - model/unified_tags.rs: Datadog/Tags. model/mod.rs: Datadog/Model and Datadog/Payload, which has the
--     choice of the version and `build_request` of mod.rs.
--   - model/v05.rs and model/v03.rs, the two payloads: Datadog/V05 and Datadog/V03. The writers of V05
--     share an interner, which is passed from one to the next; V05/Sends says what it means that such a
--     writer is read back, and V05/Reader and V03/RoundTrip have the readers.
--   - mod.rs, the grouping of spans into traces: Datadog/Group.
-- Of opentelemetry-stackdriver/src:
--   - lib.rs: Stackdriver has the data, Stackdriver/Attributes the attributes of a span with their
--     limits and Google Cloud's keys, Stackdriver/Monitored the resource of log entries, and
--     Stackdriver/Export the conversion of a batch and the two requests. Lookup has the attributes as a
--     map, and Heard the events as the requests tell them.
-- Of opentelemetry-contrib/src/trace/propagator/binary:
--   - binary_propagator.rs and base64_format.rs, a span context as 29 bytes: Propagator/Binary.
-- The propagators of span contexts in text headers, over the interface Propagator/Api:
--   - opentelemetry-contrib/src/trace/propagator/trace_context_response.rs: Propagator/Response.
--   - opentelemetry-stackdriver/src/google_trace_context_propagator.rs: Propagator/Google.
--   - opentelemetry-datadog/src/lib.rs: Propagator/Datadog.
--   - opentelemetry-aws/src/trace/xray_propagator.rs and id_generator.rs: Propagator/Xray.
-- Each has a child RoundTrip that compares what is injected with what is extracted. Common/Chars and
-- Common/Numerals are the string functions of Rust that they use, on lists of characters. The parts
-- meet where a record or span is encoded. An event of a blob refers to its schema by number, `push`
-- and `encode_span` find or add that schema and write the row by the same fields, the blob is
-- compressed chunk by chunk, and one encoded batch comes of each batch.
--
-- Conventions. Bytes and texts are lists of numbers; a `str` is its UTF-8 bytes. Numbers are bit
-- patterns, with the wrap of each cast written out. A `HashMap` is the list of its entries, and the
-- order in which it gives them up is a parameter. `none` stands for a panic where a function's own
-- comment says so. lz4_flex, md5, hex, chrono and the status codes of opentelemetry_proto are the
-- parameters `Lz4` and `Libraries`; what is assumed of them is named (`Lz4Laws`, `HexIsAscii`) and
-- holds of the concrete libraries of Geneva/Tests, as do `ConfigLibraries` and `Base64Laws` for the
-- configuration client; `SpanContexts` and `SpanContextLaws` are the same for span contexts of the
-- binary propagator, and `Api`, `TraceStates`, `ApiLaws` and `TraceStateLaws` for those of the
-- headers, with the concrete libraries of Propagator/Tests. A carrier is a function from names to
-- values when it is read, and the list of the headers that are set when it is written; a feature of
-- the build that changes the code, agent-sampling, is a Boolean parameter.
--
-- A MessagePack payload is the list of the values that rmp::encode is given, in order
-- (Datadog/Tokens). What the build and the libraries decide for the exporter is the record `Build`
-- of Datadog/V05: the printers of numbers, the lookup of an `IndexSet` with `IndexLaw`, the epoch,
-- the options of the build; `as_str` of a value, the sort and the environment of the process are
-- parameters of what uses them.
--
-- For an upload, what the configuration client returns, the UUID and what comes of the request are
-- parameters, and so are the libraries of `UploadLibraries`, with `SerializeLaws`; an upload that
-- ends in the step relation of an export can meet anything. The relation is an assumption on the
-- crate futures, as its documentation has `buffer_unordered`. `IsPlainUpload` says that names that are
-- put into a URL as they are hold none of its separators. For the metrics and the exporter to Google
-- Cloud, the types and conversions of the SDK are `Sdk`, and prost and the kernel are `Outside`.
--
-- Bounds. The loop of the compression runs on fuel, which is the length of its input: each round
-- takes a byte at least, since a chunk has 64 KiB. All other loops are over lists. The counts of the
-- fields of a struct of user_events are bytes. The conditions `Fits`, `SchemaFits` and `BlobFits` say that
-- lengths fit the width of their length fields.
--
-- Not modelled: log output and estimated capacities, which have no effect on a result; the HTTP
-- clients of the uploader and of the Datadog exporter, with the tokens of managed identities, TLS,
-- and the URLs of the latter and of the configuration service; the pipeline builder of the Datadog
-- exporter; the queue, the builder and the authorizer of the exporter to Google Cloud; the
-- registration of the tracepoints with the kernel; what the builder of events does with its calls; the C interface of the uploader; the other exporters of the repository; in the
-- propagators, the lists of header names that `fields` returns.
pub mod Common
pub mod Datadog
pub mod Geneva
pub mod Propagator
pub mod Stackdriver
pub mod UserEvents
pub mod UserLogs
