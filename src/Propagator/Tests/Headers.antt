-- ===== src/Propagator/Tests/Headers.antt =====
-- Span contexts with hexadecimal ids, and the headers of the propagators at one of them.
use opentelemetry_rust_contr.Common.{
  ℕ, ◌%◌, List, [], ◌∷◌, ◌++◌, ◌≡◌, refl, map, Bool, true, false, not, ◌&&◌, Option, none, some,
  ◌==◌, ◌>>=◌, if◌then◌else◌, arith,
}
use opentelemetry_rust_contr.Common.Text.{codes, str_eq}
use opentelemetry_rust_contr.Common.Chars.{
  Chars, join, to_lowercase_ascii, is_ascii_uppercase, to_uppercase_ascii, is_ascii_lowercase,
}
use opentelemetry_rust_contr.Propagator.Api.{Api, ApiLaws, TraceStates, get, is_deferred}
use opentelemetry_rust_contr.Propagator.Tests.Ids.{
  HexId, make, make_same, to_hex, length-to_hex, to_hex-IsHex, from_hex, from_hex-to_hex,
}
use opentelemetry_rust_contr.Propagator.Google
use opentelemetry_rust_contr.Propagator.Google.RoundTrip.{google-extract-inject}
use opentelemetry_rust_contr.Propagator.Response
use opentelemetry_rust_contr.Propagator.Response.RoundTrip.{response-extract-inject}
use opentelemetry_rust_contr.Propagator.Datadog
use opentelemetry_rust_contr.Propagator.Datadog.RoundTrip.{
  TraceStateLaws, datadog-extract-inject_plain, datadog-extract-inject_sampling,
}
use opentelemetry_rust_contr.Propagator.Xray
use opentelemetry_rust_contr.Propagator.Xray.RoundTrip.{EntryOk, try_from-xray_from}
use opentelemetry_rust_contr.Propagator.Xray.Header.{xray-read-print}

abbrev pub Entries : Type 0
Entries = List (Chars × Chars)

pub record Remote : Type 0 where
  pub trace : HexId 32
  pub span : HexId 16
  pub flags : ℕ
  pub remote : Bool
  pub state : Entries

abbrev pub is_valid_ids : HexId 32 → HexId 16 → Bool
is_valid_ids t s = not (t.number == 0) && not (s.number == 0)

abbrev pub hex_api : Api (HexId 32) (HexId 16) Entries Remote
hex_api = record {
  trace_id_from_hex = from_hex 32;
  trace_id_to_hex = to_hex 32;
  trace_id_from_u128 = make 32;
  trace_id_to_u128 = λ t. t.number;
  span_id_from_hex = from_hex 16;
  span_id_to_hex = to_hex 16;
  span_id_from_u64 = make 16;
  span_id_to_u64 = λ s. s.number;
  invalid_span_id = make 16 0;
  invalid_trace_id = make 32 0;
  is_invalid_trace_id = λ t. t.number == 0;
  default_trace_state = [];
  new = λ t s f remote state. record {
    trace = t;
    span = s;
    flags = f;
    remote = remote;
    state = state;
  };
  trace_id = λ c. c.trace;
  span_id = λ c. c.span;
  trace_flags = λ c. c.flags % 256;
  trace_state = λ c. c.state;
  is_valid = λ c. is_valid_ids c.trace c.span;
}

hex_api-ApiLaws : ApiLaws hex_api
hex_api-ApiLaws = record {
  trace_id_read = from_hex-to_hex 32;
  trace_id_hex = to_hex-IsHex 32;
  trace_id_length = length-to_hex 32;
  trace_id_number = make_same 32;
  trace_id_small = λ t. t.small;
  span_id_read = from_hex-to_hex 16;
  span_id_hex = to_hex-IsHex 16;
  span_id_length = length-to_hex 16;
  span_id_number = make_same 16;
  span_id_small = λ s. s.small;
  flags_small = λ c. omega arith;
  valid_ids = λ c f remote state. refl;
  valid_trace_id = λ c h. ground arith;
}

unfoldable pub lookup : Entries → Chars → Option Chars
lookup [] key = none
lookup ((k, value) ∷ entries) key = if str_eq k key then some value else lookup entries key

unfoldable pub without_key : Entries → Chars → Entries
without_key [] key = []
without_key ((k, value) ∷ entries) key =
    let rest = without_key entries key in if str_eq k key then rest else (k, value) ∷ rest

abbrev pub entry_states : TraceStates Entries
entry_states = record {
  insert = λ state key value. some ((key, value) ∷ without_key state key);
  get = lookup;
  from_key_value = λ entries. some entries;
  header_delimited = λ state eq delimiter.
      join delimiter (map (λ (entry : Chars × Chars). entry.0 ++ (eq ++ entry.1)) state);
}

entry_states-TraceStateLaws : TraceStateLaws entry_states
unfolding lookup str_eq
entry_states-TraceStateLaws = record {
  built = λ measure priority.
      (Datadog.trace_state_measure, Datadog.boolean_to_trace_state_flag measure)
      ∷ (Datadog.trace_state_priority_sampling, Datadog.boolean_to_trace_state_flag priority)
      ∷ [];
  from_key_value_lem = λ measure priority. refl;
  get_priority = λ measure priority. refl;
}

abbrev pub sent : Remote
sent = record {
  trace = make 32 0x4bf92f3577b34da6a3ce929d0e0e4736;
  span = make 16 0x00f067aa0ba902b7;
  flags = 1;
  remote = false;
  state = (codes "self", codes "1-67891234-12456789abcdef012345678") ∷ [];
}

google-extract-inject_example :
    Google.extract_span_context hex_api (get (Google.inject_context hex_api sent))
    ≡ some (record { trace = sent.trace; span = sent.span; flags = 1; remote = true; state = [] })
unfolding make
google-extract-inject_example = google-extract-inject hex_api hex_api-ApiLaws sent refl

response-extract-inject_example :
    Response.extract_span_context hex_api (get (Response.inject_context hex_api sent))
    ≡ some (record { trace = sent.trace; span = sent.span; flags = 1; remote = true; state = [] })
unfolding make
response-extract-inject_example = response-extract-inject hex_api hex_api-ApiLaws sent refl

datadog-extract-inject_plain_example :
    Datadog.extract_span_context hex_api entry_states false
      (get (Datadog.inject_context hex_api entry_states false sent))
    ≡ some (record {
      trace = make 32 0xa3ce929d0e0e4736;
      span = sent.span;
      flags = 1;
      remote = true;
      state = [];
    })
unfolding make is_deferred
datadog-extract-inject_plain_example =
    datadog-extract-inject_plain hex_api hex_api-ApiLaws entry_states sent refl

abbrev read_back : Remote
read_back = record { trace = sent.trace; span = sent.span; flags = 1; remote = true; state = [] }

datadog-extract-inject_sampling_example :
    (state : Entries) × (Datadog.extract_span_context hex_api entry_states true
        (get (Datadog.inject_context hex_api entry_states true sent))
      ≡ some (record {
        trace = make 32 0xa3ce929d0e0e4736;
        span = sent.span;
        flags = 1;
        remote = true;
        state = state;
      }))
    × (Datadog.priority_sampling_enabled hex_api entry_states true state
        ≡ Datadog.priority_sampling_enabled hex_api entry_states true sent.state)
unfolding make is_deferred
datadog-extract-inject_sampling_example =
    datadog-extract-inject_sampling hex_api hex_api-ApiLaws entry_states entry_states-TraceStateLaws
      sent refl refl

abbrev entry : Chars × Chars
entry = (codes "self", codes "1-67891234-12456789abcdef012345678")

entry-EntryOk : EntryOk entry
unfolding Xray.title_case str_eq Xray.trim_start_matches to_lowercase_ascii is_ascii_uppercase
    to_uppercase_ascii is_ascii_lowercase
entry-EntryOk = record {
  key_without_eq = ground arith;
  without_semicolon = ground arith;
  lowercase = refl;
  not_root = refl;
  not_parent = refl;
  not_sampled = refl;
  value_start = refl;
}

try_from-xray_from_example :
    Xray.try_from_xray hex_api entry_states (Xray.xray_from hex_api entry_states sent.trace)
    ≡ some sent.trace
unfolding make
try_from-xray_from_example = try_from-xray_from hex_api hex_api-ApiLaws entry_states sent.trace refl

xray-read-print_example :
    (do
      text ← Xray.span_context_to_string hex_api entry_states sent
      Xray.span_context_from_str hex_api entry_states text)
    ≡ some (record {
      trace = sent.trace;
      span = sent.span;
      flags = 1;
      remote = true;
      state = entry ∷ [];
    })
unfolding make is_deferred
xray-read-print_example =
    xray-read-print hex_api hex_api-ApiLaws entry_states sent (entry ∷ []) (entry ∷ []) refl
      (entry-EntryOk, tt) refl refl
