-- ===== src/Datadog/Interner.antt =====
-- The string interner (opentelemetry-datadog/src/exporter/intern.rs). An `IndexSet` is the list of its
-- elements in their order, which is that of their insertion.
pub mod Resolve
use opentelemetry_rust_contr.Common.{
  ℕ, suc, ◌%◌, ◌^◌, ◌+◌, ◌==◌, List, [], ◌∷◌, ◌++◌, Bool, true, false, ◌&&◌, Option, none, some,
  length, if◌then◌else◌,
}
use mathlib.Core.Option
use opentelemetry_rust_contr.Common.Text.{Str, str_eq}
use opentelemetry_rust_contr.Datadog.Tokens.{Token, write_array_len, concat}
use opentelemetry_rust_contr.Datadog.Value.{
  Array, bools, i64s, f64s, strings, other_array, Value, bool, i64, f64, string, array, other_value,
  InternValue, regular_string, opentelemetry_value, Printers, write_as_str,
}

abbrev pub StringInterner : Type 0
StringInterner = List InternValue

-- `IndexSet::get_index_of` of the crate indexmap.
module _ (get_index_of : StringInterner → InternValue → Option ℕ) where
  -- `intern` and `intern_value`: the number of the element, as a `u32`, and the interner after it.
  unfoldable pub intern_full : InternValue → StringInterner → ℕ × StringInterner
  intern_full x data' = elim (get_index_of data' x) [
    | some idx ↦ (idx % 2 ^ 32, data')
    | none ↦ (length data' % 2 ^ 32, data' ++ x ∷ [])
  ]

  unfoldable pub intern : Str → StringInterner → ℕ × StringInterner
  intern s data' = intern_full (regular_string s) data'

  unfoldable pub intern_value : Value → StringInterner → ℕ × StringInterner
  intern_value v data' = intern_full (opentelemetry_value v) data'

unfoldable pub write_dictionary : Printers → StringInterner → List Token
write_dictionary printers data' =
    write_array_len (length data' % 2 ^ 32) ∷ concat (write_as_str printers) data'
