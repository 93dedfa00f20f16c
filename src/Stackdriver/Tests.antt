-- ===== src/Stackdriver/Tests.antt =====
-- Spans of two names for one thing, and events with and without a log client.
use opentelemetry_rust_contr.Common.{ℕ, ◌≤◌, List, [], ◌∷◌, length, true, ◌≡◌, none, some}
use opentelemetry_rust_contr.Common.Text.{Str, codes}
use opentelemetry_rust_contr.Stackdriver.{
  Sdk, unset, server, InternalLogContext, Value, text, i64, Event, SpanData,
}
use opentelemetry_rust_contr.Stackdriver.Attributes.{SemConv, attributes_new}
use opentelemetry_rust_contr.Stackdriver.Monitored.{kubernetes_engine, log_context_from}
use opentelemetry_rust_contr.Stackdriver.Export.{Context, export_batch}
use opentelemetry_rust_contr.Stackdriver.Lookup.{attributes_new-bound}
use opentelemetry_rust_contr.Stackdriver.Heard.{heard, told, told_events, export_batch-told}

abbrev sdk : Sdk
sdk = record {
  Array = ℕ;
  Time = ℕ;
  Timestamp = ℕ;
  f64_to_string = λ n. n ∷ [];
  array_to_string = λ n. n ∷ [];
  hex_encode = λ s. s;
  into_timestamp = λ t. t;
}

abbrev semconv : SemConv
semconv = record {
  http_host = codes "http.host";
  http_method = codes "http.method";
  http_request_method = codes "http.request.method";
  http_target = codes "http.target";
  url_path = codes "url.path";
  http_url = codes "http.url";
  url_full = codes "url.full";
  http_user_agent = codes "http.user_agent";
  user_agent_original = codes "user_agent.original";
  http_status_code = codes "http.status_code";
  http_response_status_code = codes "http.response.status_code";
  k8s_cluster_name = codes "k8s.cluster.name";
  k8s_namespace_name = codes "k8s.namespace.name";
  k8s_pod_name = codes "k8s.pod.name";
  k8s_container_name = codes "k8s.container.name";
  http_route = codes "http.route";
}

abbrev spans_attributes : List (Str × Value sdk)
spans_attributes = (codes "url.path", text (codes "/b")) ∷ (codes "answer", i64 42) ∷ []

abbrev resource : List (Str × Value sdk)
resource = (codes "http.path", text (codes "/a")) ∷ []

attributes_new-bound_example :
    length (attributes_new sdk semconv spans_attributes (some resource)).attribute_map ≤ 32
attributes_new-bound_example = attributes_new-bound sdk semconv spans_attributes (some resource)

abbrev log : InternalLogContext
log = log_context_from (record {
  log_id = codes "log";
  resource = kubernetes_engine (codes "p") (some (codes "c")) none none none none;
})

abbrev event : Event sdk
event = record {
  name = codes "started";
  timestamp = 7;
  attributes = (codes "level", text (codes "WARN")) ∷ (codes "k", text (codes "v")) ∷ [];
}

abbrev span : SpanData sdk
span = record {
  trace_id = 1 ∷ [];
  span_id = 2 ∷ [];
  parent_span_id = 0 ∷ [];
  span_kind = server;
  name = codes "s";
  start_time = 3;
  end_time = 4;
  attributes = spans_attributes;
  events = event ∷ [];
  links = [];
  links_dropped_count = 0;
  status = unset;
}

abbrev context : Context sdk
context = record {
  semconv = semconv;
  as_str = λ v. codes "WARN";
  project_id = codes "p";
  log_client = some log;
  resource = some resource;
}

export_batch-told_example :
    heard sdk (export_batch sdk context true true 1 (span ∷ [])).1
    ≡ (7, 2 ∷ [], codes "started") ∷ []
unfolding told told_events
export_batch-told_example = export_batch-told sdk context 1 (span ∷ [])
