-- ===== src/Datadog/Value/Written.antt =====
-- The text of a value, and that it is what is written.
use opentelemetry_rust_contr.Common.{
  ℕ, ◌^◌, ◌<◌, List, [], ◌∷◌, ◌++◌, append_assoc, ◌≡◌, refl, ◌∙◌, map, Bool, ==-refl, length,
  if◌then◌else◌,
}
use native.Mathlib.Nat.{mod-eq_of_lt}
use opentelemetry_rust_contr.Common.Text.{Str, codes}
use opentelemetry_rust_contr.Common.Chars.{join}
use opentelemetry_rust_contr.Datadog.Tokens.{Reads, read_str}
use opentelemetry_rust_contr.Datadog.Value.{
  Array, bools, i64s, f64s, strings, other_array, Value, bool, i64, f64, string, array, other_value,
  InternValue, regular_string, opentelemetry_value, Printers, boolean_true, boolean_false,
  empty_array, write_bool_to, write_string_to, write_printed_to, write_buffer_as_string, write_rest,
  write_generic_array, write_array, write_value, write_as_str,
}

-- The text that a value is to have: an array in brackets, its elements separated by commas and strings
-- among them in quotes.
unfoldable pub bracketed : List Str → Str
bracketed items = b'[' ∷ (join (codes ",") items ++ b']' ∷ [])

unfoldable pub quoted : Str → Str
quoted s = b'"' ∷ (s ++ b'"' ∷ [])

module _ (printers : Printers) where
  unfoldable pub array_text : Array → Str
  array_text (bools x) = bracketed (map (λ b. if b then boolean_true else boolean_false) x)
  array_text (i64s x) = bracketed (map printers.itoa x)
  array_text (f64s x) = bracketed (map printers.ryu x)
  array_text (strings x) = bracketed (map quoted x)
  array_text other_array = empty_array

  unfoldable pub value_text : Value → Str
  value_text (bool x) = if x then boolean_true else boolean_false
  value_text (i64 x) = printers.itoa x
  value_text (f64 x) = printers.ryu x
  value_text (string x) = x
  value_text (array x) = array_text x
  value_text other_value = empty_array

  unfoldable pub text : InternValue → Str
  text (regular_string x) = x
  text (opentelemetry_value v) = value_text v

write_rest-join :
    {T : Type 0} (write_to : T → Str → Str) (item : T → Str)
    → ((x : T) (buffer : Str) → write_to x buffer ≡ buffer ++ item x)
    → (first : T) (values : List T) (buffer : Str)
    → write_rest write_to values (write_to first buffer)
      ≡ buffer ++ join (codes ",") (map item (first ∷ values))
unfolding write_rest join
write_rest-join write_to item h first [] buffer = h first buffer
write_rest-join write_to item h first (next ∷ values) buffer =
    rw (write_rest-join write_to item h next values (write_to first buffer ++ b',' ∷ [])) (
      rw (h first buffer) (
        rw
          (append_assoc (buffer ++ item first) (b',' ∷ [])
            (join (codes ",") (map item (next ∷ values))))
          (append_assoc buffer (item first) (b',' ∷ join (codes ",") (map item (next ∷ values))))))

write_generic_array-bracketed :
    {T : Type 0} (write_to : T → Str → Str) (item : T → Str)
    → ((x : T) (buffer : Str) → write_to x buffer ≡ buffer ++ item x)
    → (values : List T) → length (bracketed (map item values)) < 2 ^ 32
    → Reads read_str (write_generic_array write_to values) (bracketed (map item values))
unfolding write_generic_array write_buffer_as_string read_str bracketed
write_generic_array-bracketed write_to item h [] small rest = unfold join in refl
write_generic_array-bracketed write_to item h (first ∷ values) small rest =
    rw (write_rest-join write_to item h first values (b'[' ∷ []))
      (rw (mod-eq_of_lt small) (rw (==-refl (length (bracketed (map item (first ∷ values)))))))

-- The texts of arrays fit a length of 32 bits.
abbrev pub TextFits : Printers → InternValue → Type 0
TextFits printers x = length (text printers x) < 2 ^ 32

bool_written :
    (x : Bool) (buffer : Str)
    → write_bool_to x buffer ≡ buffer ++ (if x then boolean_true else boolean_false)
unfolding write_bool_to
bool_written x buffer = refl

string_written : (x buffer : Str) → write_string_to x buffer ≡ buffer ++ quoted x
unfolding write_string_to quoted
string_written x buffer =
    append_assoc (buffer ++ b'"' ∷ []) x (b'"' ∷ [])
    ∙ append_assoc buffer (b'"' ∷ []) (x ++ b'"' ∷ [])

number_written :
    (format : ℕ → Str) (x : ℕ) (buffer : Str)
    → write_printed_to format x buffer ≡ buffer ++ format x
unfolding write_printed_to
number_written format x buffer = refl

module _ (printers : Printers) where
  write_array-text :
      (x : Array)
      → length (array_text printers x) < 2 ^ 32
      → Reads read_str (write_array printers x) (array_text printers x)
  unfolding write_array array_text read_str
  write_array-text (bools x) small =
      write_generic_array-bracketed write_bool_to (λ b. if b then boolean_true else boolean_false)
        bool_written x small
  write_array-text (i64s x) small =
      write_generic_array-bracketed (write_printed_to printers.itoa) printers.itoa
        (number_written printers.itoa) x small
  write_array-text (f64s x) small =
      write_generic_array-bracketed (write_printed_to printers.ryu) printers.ryu
        (number_written printers.ryu) x small
  write_array-text (strings x) small =
      write_generic_array-bracketed write_string_to quoted string_written x small
  write_array-text other_array small = λ rest. refl

  write_value-text :
      (v : Value)
      → length (value_text printers v) < 2 ^ 32
      → Reads read_str (write_value printers v) (value_text printers v)
  unfolding write_value value_text read_str
  write_value-text (bool x) small rest = refl
  write_value-text (i64 x) small rest = refl
  write_value-text (f64 x) small rest = refl
  write_value-text (string x) small rest = refl
  write_value-text (array x) small rest = write_array-text x small rest
  write_value-text other_value small rest = refl

  -- What is written for a value is read as its text, if the text fits a length of 32 bits: an
  -- array as its elements in brackets, with commas between them and strings among them in quotes.
  pub write_as_str-text :
      (x : InternValue)
      → TextFits printers x
      → Reads read_str (write_as_str printers x) (text printers x)
  unfolding write_as_str text read_str
  write_as_str-text (regular_string x) small rest = refl
  write_as_str-text (opentelemetry_value v) small rest = write_value-text v small rest
