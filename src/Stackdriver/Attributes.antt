-- ===== src/Stackdriver/Attributes.antt =====
-- lib.rs: `Attributes::new`, with the keys that Google Cloud names otherwise.
use opentelemetry_rust_contr.Common.{
  ℕ, ◌+◌, ◌%◌, ◌^◌, List, [], ◌∷◌, length, ltb, leb, Option, none, some, if◌then◌else◌,
}
use opentelemetry_rust_contr.Common.Text.{Str, codes, str_eq}
use opentelemetry_rust_contr.Stackdriver.{
  Sdk, AttributeValue, bool_value, int_value, string_value, SpanAttributes, Value, truth, f64, i64,
  text, array, other, insert,
}

-- The names of the crate opentelemetry_semantic_conventions.
pub record SemConv : Type 0 where
  pub http_host : Str
  pub http_method : Str
  pub http_request_method : Str
  pub http_target : Str
  pub url_path : Str
  pub http_url : Str
  pub url_full : Str
  pub http_user_agent : Str
  pub user_agent_original : Str
  pub http_status_code : Str
  pub http_response_status_code : Str
  pub k8s_cluster_name : Str
  pub k8s_namespace_name : Str
  pub k8s_pod_name : Str
  pub k8s_container_name : Str
  pub http_route : Str

abbrev pub max_attributes_per_span : ℕ
max_attributes_per_span = 32

unfoldable pub key_map : SemConv → List (Str × Str)
key_map semconv =
    (codes "http.path", codes "/http/path")
    ∷ (semconv.http_host, codes "/http/host")
    ∷ (codes "http.request.header.host", codes "/http/host")
    ∷ (semconv.http_method, codes "/http/method")
    ∷ (semconv.http_request_method, codes "/http/method")
    ∷ (semconv.http_target, codes "/http/path")
    ∷ (semconv.url_path, codes "/http/path")
    ∷ (semconv.http_url, codes "/http/url")
    ∷ (semconv.url_full, codes "/http/url")
    ∷ (semconv.http_user_agent, codes "/http/user_agent")
    ∷ (semconv.user_agent_original, codes "/http/user_agent")
    ∷ (semconv.http_status_code, codes "/http/status_code")
    ∷ (semconv.http_response_status_code, codes "/http/status_code")
    ∷ (semconv.k8s_cluster_name, codes "g.co/r/k8s_container/cluster_name")
    ∷ (semconv.k8s_namespace_name, codes "g.co/r/k8s_container/namespace")
    ∷ (semconv.k8s_pod_name, codes "g.co/r/k8s_container/pod_name")
    ∷ (semconv.k8s_container_name, codes "g.co/r/k8s_container/container_name")
    ∷ (semconv.http_route, codes "/http/route")
    ∷ (codes "http.path", codes "/http/path")
    ∷ []

-- The loop over the pairs: the name of the first whose key fits, and the key itself if there is none.
unfoldable pub gcp_key : List (Str × Str) → Str → Str
gcp_key [] key_str = key_str
gcp_key ((otel_key, gcp) ∷ pairs) key_str =
    if str_eq otel_key key_str then gcp else gcp_key pairs key_str

module _ (sdk : Sdk) where
  unfoldable pub value_from : Value sdk → AttributeValue
  value_from (truth b) = bool_value b
  value_from (f64 n) = string_value (sdk.f64_to_string n)
  value_from (i64 n) = int_value n
  value_from (text s) = string_value s
  value_from (array vs) = string_value (sdk.array_to_string vs)
  value_from other = string_value []

  module _ (semconv : SemConv) where
    unfoldable pub dropped : SpanAttributes → SpanAttributes
    dropped attrs = record attrs {
      dropped_attributes_count = (attrs.dropped_attributes_count + 1) % 2 ^ 32;
    }

    unfoldable pub push_attribute : Str → Value sdk → SpanAttributes → SpanAttributes
    push_attribute key value attrs =
        if leb max_attributes_per_span (length attrs.attribute_map)
        then dropped attrs
        else if ltb 128 (length key)
        then dropped attrs
        else record attrs {
          attribute_map =
              insert (gcp_key (key_map semconv) key) (value_from value) attrs.attribute_map;
        }

    unfoldable pub push_all : List (Str × Value sdk) → SpanAttributes → SpanAttributes
    push_all [] attrs = attrs
    push_all ((key, value) ∷ more) attrs = push_all more (push_attribute key value attrs)

    -- The resource is the list of the pairs that its iterator gives.
    unfoldable pub attributes_new :
        List (Str × Value sdk) → Option (List (Str × Value sdk)) → SpanAttributes
    attributes_new attributes none =
        push_all attributes (record { attribute_map = []; dropped_attributes_count = 0 })
    attributes_new attributes (some resource) =
        push_all attributes
          (push_all resource (record { attribute_map = []; dropped_attributes_count = 0 }))
