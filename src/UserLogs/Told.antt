-- ===== src/UserLogs/Told.antt =====
-- What an event is to tell of a record, described apart from the exporter: the value and the format of a
-- field, the level of a severity by its number in the data model of logs, the event id and the name.
use opentelemetry_rust_contr.Common.{
  ℕ, [], ◌∷◌, leb, Bool, true, false, ◌≡◌, refl, Option, none, some, Option-cases, inl, inr,
  if◌then◌else◌,
}
use opentelemetry_rust_contr.Common.Text.{Str, codes, str_eq}
use opentelemetry_rust_contr.UserLogs.{
  Severity, trace, trace2, trace3, trace4, debug, debug2, debug3, debug4, info, info2, info3, info4,
  warn, warn2, warn3, warn4, error, error2, error3, error4, fatal, fatal2, fatal3, fatal4, AnyValue,
  boolean, int, double, string, other, FieldFormat, default_format, boolean_format, signed_int,
  float, FieldValue, text, number, truth, Field, value_field, SdkLogRecord, UserEventsExporter,
}
use opentelemetry_rust_contr.UserLogs.Export.{
  Outside, Level, critical_error, error_level, warning, informational, verbose, get_severity_level,
  event_id_of, part_b_name,
}

unfoldable pub told_value : AnyValue → FieldValue
told_value (boolean b) = truth b
told_value (int n) = number n
told_value (double n) = number n
told_value (string s) = text s
told_value other = text []

unfoldable pub told_format : AnyValue → FieldFormat
told_format (boolean b) = boolean_format
told_format (int n) = signed_int
told_format (double n) = float
told_format (string s) = default_format
told_format other = default_format

unfoldable pub told_field : Str → AnyValue → Field
told_field name v = record { name = name; value = told_value v; format = told_format v }

pub value_field-told : (name : Str) (v : AnyValue) → value_field name v ≡ told_field name v
unfolding value_field told_field told_value told_format
value_field-told name (boolean b) = refl
value_field-told name (int n) = refl
value_field-told name (double n) = refl
value_field-told name (string s) = refl
value_field-told name other = refl

-- The number of a severity, from 1 to 24.
unfoldable pub number_of : Severity → ℕ
number_of trace = 1
number_of trace2 = 2
number_of trace3 = 3
number_of trace4 = 4
number_of debug = 5
number_of debug2 = 6
number_of debug3 = 7
number_of debug4 = 8
number_of info = 9
number_of info2 = 10
number_of info3 = 11
number_of info4 = 12
number_of warn = 13
number_of warn2 = 14
number_of warn3 = 15
number_of warn4 = 16
number_of error = 17
number_of error2 = 18
number_of error3 = 19
number_of error4 = 20
number_of fatal = 21
number_of fatal2 = 22
number_of fatal3 = 23
number_of fatal4 = 24

-- TRACE and DEBUG are verbose, then come INFO, WARN, ERROR and FATAL.
unfoldable pub told_level : Severity → Level
told_level severity =
    if leb (number_of severity) 8
    then verbose
    else if leb (number_of severity) 12
    then informational
    else if leb (number_of severity) 16
    then warning
    else if leb (number_of severity) 20
    then error_level
    else critical_error

pub get_severity_level-told :
    (severity : Severity) → get_severity_level severity ≡ told_level severity
unfolding get_severity_level told_level number_of
get_severity_level-told trace = refl
get_severity_level-told trace2 = refl
get_severity_level-told trace3 = refl
get_severity_level-told trace4 = refl
get_severity_level-told debug = refl
get_severity_level-told debug2 = refl
get_severity_level-told debug3 = refl
get_severity_level-told debug4 = refl
get_severity_level-told info = refl
get_severity_level-told info2 = refl
get_severity_level-told info3 = refl
get_severity_level-told info4 = refl
get_severity_level-told warn = refl
get_severity_level-told warn2 = refl
get_severity_level-told warn3 = refl
get_severity_level-told warn4 = refl
get_severity_level-told error = refl
get_severity_level-told error2 = refl
get_severity_level-told error3 = refl
get_severity_level-told error4 = refl
get_severity_level-told fatal = refl
get_severity_level-told fatal2 = refl
get_severity_level-told fatal3 = refl
get_severity_level-told fatal4 = refl

unfoldable pub told_int : AnyValue → Option ℕ
told_int (int n) = some n
told_int v = none

no_id : (b : Bool) → Path (Option ℕ) (if b then none else none) none
no_id true = refl
no_id false = refl

module _ (outside : Outside) (exporter : UserEventsExporter) where
  -- An attribute is the event id if it has that key and an integer.
  unfoldable pub told_event_id : Str × AnyValue → Option ℕ
  told_event_id (key, v) = if str_eq key (codes "event_id") then told_int v else none

  pub event_id_of-told :
      (attribute : Str × AnyValue)
      → told_event_id attribute ≡ event_id_of outside exporter attribute
  unfolding told_event_id event_id_of told_int
  event_id_of-told (key, int n) = refl
  event_id_of-told (key, boolean b) = no_id (str_eq key (codes "event_id"))
  event_id_of-told (key, double n) = no_id (str_eq key (codes "event_id"))
  event_id_of-told (key, string s) = no_id (str_eq key (codes "event_id"))
  event_id_of-told (key, other) = no_id (str_eq key (codes "event_id"))

  -- The event's name, unless nothing is left of it by `trim`.
  unfoldable pub told_name : Option Str → Option Str
  told_name none = none
  told_name (some s) = if str_eq (outside.trim s) [] then none else some s

  name_by_trim :
      (s t : Str)
      → (elim t [ [] ↦ none | c ∷ rest ↦ some s ]) ≡ (if str_eq t [] then none else some s)
  unfolding str_eq
  name_by_trim s [] = refl
  name_by_trim s (c ∷ t) = refl

  pub part_b_name-told :
      (r : SdkLogRecord) → part_b_name outside exporter r ≡ told_name r.event_name
  unfolding part_b_name told_name
  part_b_name-told r = elim (Option-cases r.event_name) [
    | inl e ↦ rw (e, part_b_name) refl
    | inr (s, e) ↦ rw (e, part_b_name) (name_by_trim s (outside.trim s))
  ]
