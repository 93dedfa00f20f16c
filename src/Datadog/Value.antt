-- ===== src/Datadog/Value.antt =====
-- The values of attributes, and how they are written as texts
-- (opentelemetry-datadog/src/exporter/intern.rs).
pub mod Written
use opentelemetry_rust_contr.Common.{
  ℕ, ◌%◌, ◌^◌, ◌<◌, List, [], ◌∷◌, ◌++◌, append_assoc, ◌≡◌, refl, ap, ◌∙◌, map, Bool, true, false,
  Option, none, some, length, All, if◌then◌else◌, arith,
}
use native.Mathlib.Nat.{mod-eq_of_lt}
use opentelemetry_rust_contr.Common.Text.{Str, codes}
use opentelemetry_rust_contr.Common.Chars.{join}
use opentelemetry_rust_contr.Datadog.Tokens.{
  Token, write_str_len, write_str, write_bytes, Reads, read_str,
}

-- `opentelemetry::Array` and `opentelemetry::Value`, with the variants that the code matches on and one
-- for all others; floats are their bits, integers their two's complement, texts their bytes.
pub data Array : Type 0 where
  bools : List Bool → Array
  i64s f64s : List ℕ → Array
  strings : List Str → Array
  other_array : Array

pub data Value : Type 0 where
  bool : Bool → Value
  i64 f64 : ℕ → Value
  string : Str → Value
  array : Array → Value
  other_value : Value

pub data InternValue : Type 0 where
  regular_string : Str → InternValue
  opentelemetry_value : Value → InternValue

-- The decimal printers of itoa and ryu.
pub record Printers : Type 0 where
  pub itoa : ℕ → Str
  pub ryu : ℕ → Str

abbrev pub boolean_true : Str
boolean_true = codes "true"

abbrev pub boolean_false : Str
boolean_false = codes "false"

abbrev pub empty_array : Str
empty_array = codes "[]"

-- `WriteAsLiteral::write_to`: the buffer after it.
unfoldable pub write_bool_to : Bool → Str → Str
write_bool_to b buffer = buffer ++ (if b then boolean_true else boolean_false)

unfoldable pub write_string_to : Str → Str → Str
write_string_to s buffer = ((buffer ++ b'"' ∷ []) ++ s) ++ b'"' ∷ []

unfoldable pub write_printed_to : (ℕ → Str) → ℕ → Str → Str
write_printed_to format n buffer = buffer ++ format n

unfoldable pub write_buffer_as_string : Str → List Token
write_buffer_as_string reusable_buffer =
    write_str_len (length reusable_buffer % 2 ^ 32) ∷ write_bytes reusable_buffer ∷ []

-- The loop over the elements after the first.
unfoldable pub write_rest : {T : Type 0} → (T → Str → Str) → List T → Str → Str
write_rest write_to [] buffer = buffer
write_rest write_to (value ∷ values) buffer =
    write_rest write_to values (write_to value (buffer ++ b',' ∷ []))

unfoldable pub write_generic_array : {T : Type 0} → (T → Str → Str) → List T → List Token
write_generic_array write_to [] = write_str empty_array ∷ []
write_generic_array write_to (first ∷ values) =
    write_buffer_as_string (write_rest write_to values (write_to first (b'[' ∷ [])) ++ b']' ∷ [])

module _ (printers : Printers) where
  unfoldable pub write_array : Array → List Token
  write_array (bools x) = write_generic_array write_bool_to x
  write_array (i64s x) = write_generic_array (write_printed_to printers.itoa) x
  write_array (f64s x) = write_generic_array (write_printed_to printers.ryu) x
  write_array (strings x) = write_generic_array write_string_to x
  write_array other_array = write_str empty_array ∷ []

  unfoldable pub write_value : Value → List Token
  write_value (bool x) = write_str (if x then boolean_true else boolean_false) ∷ []
  write_value (i64 x) = write_str (printers.itoa x) ∷ []
  write_value (f64 x) = write_str (printers.ryu x) ∷ []
  write_value (string x) = write_str x ∷ []
  write_value (array x) = write_array x
  write_value other_value = write_str empty_array ∷ []

  unfoldable pub write_as_str : InternValue → List Token
  write_as_str (regular_string x) = write_str x ∷ []
  write_as_str (opentelemetry_value v) = write_value v
