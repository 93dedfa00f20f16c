-- ===== src/UserLogs.antt =====
-- opentelemetry-user-events-logs/src/logs/exporter.rs: one log record becomes one event of user_events.
-- The builder of events, of the crate eventheader_dynamic, is the list of the calls that are made of it; a
-- bookmark is the number of the structs that were begun before. A number is its bit pattern. A count
-- of fields has the type of the builder's argument for it, which is a byte; it wraps, as in a build without
-- overflow checks.
pub mod Export
pub mod Reader
pub mod Told
pub mod Parts
pub mod PartC
pub mod Written
mod Tests
use opentelemetry_rust_contr.Common.{
  ℕ, suc, ◌+◌, ◌%◌, ◌^◌, ◌==◌, List, [], ◌∷◌, ◌++◌, Bool, true, false, ◌&&◌, Option, none, some,
  if◌then◌else◌,
}
use mathlib.Core.Option
use opentelemetry_rust_contr.Common.Text.{Str, codes, str_eq}

pub data AnyValue : Type 0 where
  boolean : Bool → AnyValue
  int double : ℕ → AnyValue
  string : Str → AnyValue
  other : AnyValue

pub data FieldFormat : Type 0 where
  default_format boolean_format signed_int unsigned_int float : FieldFormat

pub data FieldValue : Type 0 where
  text : Str → FieldValue
  number : ℕ → FieldValue
  truth : Bool → FieldValue

pub record Field : Type 0 where
  pub name : Str
  pub value : FieldValue
  pub format : FieldFormat

pub data Call : Type 0 where
  add : Field → Call
  add_struct : Str → ℕ → Call
  set_struct_field_count : ℕ → ℕ → Call

-- After `reset`, with the name of the event and its calls.
pub record EventBuilder : Type 0 where
  pub event_name : Str
  pub calls : List Call
  pub structs : ℕ

abbrev pub str_field : Str → Str → Field
str_field name s = record { name = name; value = text s; format = default_format }

abbrev pub int_field : Str → ℕ → Field
int_field name n = record { name = name; value = number n; format = signed_int }

unfoldable pub put : Field → EventBuilder → EventBuilder
put field eb = record eb { calls = eb.calls ++ add field ∷ [] }

-- The bookmark, and the builder.
unfoldable pub add_struct_with_bookmark : Str → ℕ → EventBuilder → ℕ × EventBuilder
add_struct_with_bookmark name field_count eb = (
  eb.structs,
  record eb { calls = eb.calls ++ add_struct name field_count ∷ []; structs = suc eb.structs },
)

unfoldable pub set_count : ℕ → ℕ → EventBuilder → EventBuilder
set_count bookmark field_count eb = record eb {
  calls = eb.calls ++ set_struct_field_count bookmark field_count ∷ [];
}

-- The same for an attribute and for the body.
unfoldable pub value_field : Str → AnyValue → Field
value_field field_name (boolean b) = record {
  name = field_name;
  value = truth b;
  format = boolean_format;
}
value_field field_name (int i) = int_field field_name i
value_field field_name (double f) = record { name = field_name; value = number f; format = float }
value_field field_name (string s) = str_field field_name s
value_field field_name other = str_field field_name []

pub data Severity : Type 0 where
  trace trace2 trace3 trace4 debug debug2 debug3 debug4 info info2 info3 info4 : Severity
  warn warn2 warn3 warn4 error error2 error3 error4 fatal fatal2 fatal3 fatal4 : Severity

-- The record, with its ids as the texts that `to_string` gives.
pub record SdkLogRecord : Type 0 where
  pub timestamp : Option ℕ
  pub observed_timestamp : Option ℕ
  pub trace_context : Option (Str × Str)
  pub severity_number : Option Severity
  pub severity_text : Option Str
  pub body : Option AnyValue
  pub attributes : List (Str × AnyValue)
  pub event_name : Option Str

pub record UserEventsExporter : Type 0 where
  pub cloud_role : Option Str
  pub cloud_role_instance : Option Str
  pub attributes_from_resource : List (Str × AnyValue)
  pub resource_attribute_keys : List Str

-- A builder with the count of the fields of the struct that is being filled.
pub record Counting : Type 0 where
  pub eb : EventBuilder
  pub count : ℕ

unfoldable pub count_more : ℕ → Counting → Counting
count_more n st = record st { count = (st.count + n) % 2 ^ 8 }

unfoldable pub put_in : Field → Counting → Counting
put_in field st = record st { eb = put field st.eb }

-- `if let Some`.
unfoldable pub when_some : {A S : Type 0} → Option A → (A → S → S) → S → S
when_some none change st = st
when_some (some a) change st = change a st
