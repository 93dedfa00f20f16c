-- ===== src/UserEvents/Tracepoint.antt =====
-- The tracepoint (opentelemetry-user-events-metrics/src/tracepoint/mod.rs) and the encoding and writing of one request
-- (encode_and_emit_metric of exporter/mod.rs).
-- The kernel answers each event by an errno code, which may depend on the events before it, so the state
-- keeps every event with its answer. A code is the bit pattern of an i32.
use opentelemetry_rust_contr.Common.{
  ℕ, ◌-◌, ◌*◌, ◌%◌, ◌^◌, ltb, ◌==◌, not, List, [], ◌∷◌, ◌++◌, length, Bool, false, Option, none,
  some, if◌then◌else◌,
}
use opentelemetry_rust_contr.Common.Bytes.{Bytes}
use opentelemetry_rust_contr.Common.Text.{codes}
use opentelemetry_rust_contr.UserEvents.{Sdk, Request}

abbrev pub max_event_size : ℕ
max_event_size = 65360

abbrev pub protocol_field_value : ℕ
protocol_field_value = 0

abbrev pub protobuf_version : Bytes
protobuf_version = codes "v0.19.00"

-- The data descriptors of an event, after the first.
pub record Event : Type 0 where
  pub protocol : ℕ
  pub version : Bytes
  pub buffer_rel_loc : ℕ
  pub buffer : Bytes

abbrev pub Log : Type 0
Log = List (Event × ℕ)

-- What prost and the kernel do. `encode` gives the bytes that it appends to a buffer.
pub record Outside (sdk : Sdk) : Type 0 where
  pub prost_encode : Request sdk → Option Bytes
  pub answer : Log → Event → ℕ

abbrev pub minus_one : ℕ
minus_one = 2 ^ 32 - 1

unfoldable pub event_of : Bytes → Event
event_of buffer = record {
  protocol = protocol_field_value;
  version = protobuf_version;
  buffer_rel_loc = (length buffer % 2 ^ 32) * 2 ^ 16 % 2 ^ 32;
  buffer = buffer;
}

module _ {sdk : Sdk} (outside : Outside sdk) where
  -- The code returned, and the log.
  unfoldable pub write_event_data : Bytes → Log → ℕ × Log
  write_event_data buffer log =
      if ltb (2 ^ 16 - 1) (length buffer)
      then (minus_one, log)
      else if not (length protobuf_version == 8)
      then (minus_one, log)
      else let code = outside.answer log (event_of buffer) in
        (code, log ++ (event_of buffer, code) ∷ [])

  -- Whether it succeeds, the byte array, and the log.
  unfoldable pub encode_and_emit_metric : Request sdk → Bytes → Log → Bool × (Bytes × Log)
  encode_and_emit_metric request byte_array log = elim (outside.prost_encode request) [
    | none ↦ (false, (byte_array, log))
    | some encoded ↦
        let bytes = byte_array ++ encoded in
        if ltb max_event_size (length bytes)
        then (false, (bytes, log))
        else let written = write_event_data bytes log in (written.0 == 0, (bytes, written.1))
  ]
