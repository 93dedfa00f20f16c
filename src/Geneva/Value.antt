-- ===== src/Geneva/Value.antt =====
-- Bond values: the specification of a row. A row of Simple Binary has one value for each field of the
-- schema, in the schema's order, and nothing between them; a reader takes the types from the schema.
use opentelemetry_rust_contr.Common.{
  ℕ, ◌%◌, ◌^◌, ◌<◌, List, [], ◌∷◌, ◌++◌, Bool, true, false, ◌≡◌, refl, sym, ap, ◌∙◌, Option, none,
  some, length, All, ◌==◌, ◌>>=◌, map, if◌then◌else◌, append_assoc, append-nil, arith,
}
use opentelemetry_rust_contr.Common.Bytes.{
  Bytes, to_le_bytes, read_le, read_le-to_le_bytes, read_prefixed, read_prefixed_lem,
}
use opentelemetry_rust_contr.Common.Text.{Str}
use opentelemetry_rust_contr.Geneva.Bond.{
  BondDataType, bt_bool, bt_string, bt_int32, bt_uint32, bt_int64, bt_double, FieldDef,
  write_numeric, write_string, write_bool,
}
use native.Mathlib.Nat.{mod-eq_of_lt}

-- Numbers are bit patterns.
pub data BondValue : Type 0 where
  text : Str → BondValue
  int32 : ℕ → BondValue
  uint32 : ℕ → BondValue
  int64 : ℕ → BondValue
  double : ℕ → BondValue
  boolean : Bool → BondValue

abbrev pub type_of : BondValue → BondDataType
type_of (text s) = bt_string
type_of (int32 n) = bt_int32
type_of (uint32 n) = bt_uint32
type_of (int64 n) = bt_int64
type_of (double n) = bt_double
type_of (boolean b) = bt_bool

-- A named value, and its name with its type.
abbrev pub Named : Type 0
Named = Str × BondValue

abbrev pub named_type : Named → Str × BondDataType
named_type (name, value) = (name, type_of value)

abbrev pub field_type : FieldDef → Str × BondDataType
field_type f = (f.name, f.type_id)

abbrev pub Fits : BondValue → Type 0
Fits (text s) = length s < 2 ^ 32
Fits (int32 n) = n < 2 ^ 32
Fits (uint32 n) = n < 2 ^ 32
Fits (int64 n) = n < 2 ^ 64
Fits (double n) = n < 2 ^ 64
Fits (boolean b) = Unit {0}

-- A value as its writer of bond_encoder.rs writes it.
unfoldable pub write_value : Bytes → BondValue → Bytes
write_value buffer (text s) = write_string buffer s
write_value buffer (int32 n) = write_numeric 4 buffer n
write_value buffer (uint32 n) = write_numeric 4 buffer n
write_value buffer (int64 n) = write_numeric 8 buffer n
write_value buffer (double n) = write_numeric 8 buffer n
write_value buffer (boolean b) = write_bool buffer b

unfoldable pub write_values : Bytes → List Named → Bytes
write_values buffer [] = buffer
write_values buffer ((name, value) ∷ values) = write_values (write_value buffer value) values

pub write_values-append :
    (buffer : Bytes) (vs ws : List Named)
    → write_values buffer (vs ++ ws) ≡ write_values (write_values buffer vs) ws
unfolding write_values
write_values-append buffer [] ws = refl
write_values-append buffer ((name, value) ∷ vs) ws =
    write_values-append (write_value buffer value) vs ws

unfoldable pub read_bool : ℕ → Option Bool
read_bool b = if b == 0 then some false else if b == 1 then some true else none

unfoldable pub read_value : BondDataType → Bytes → Option (BondValue × Bytes)
read_value bt_string s = do (t, s) ← read_prefixed 4 s; some (text t, s)
read_value bt_int32 s = do (n, s) ← read_le 4 s; some (int32 n, s)
read_value bt_uint32 s = do (n, s) ← read_le 4 s; some (uint32 n, s)
read_value bt_int64 s = do (n, s) ← read_le 8 s; some (int64 n, s)
read_value bt_double s = do (n, s) ← read_le 8 s; some (double n, s)
read_value bt_bool s = do (n, s) ← read_le 1 s; b ← read_bool n; some (boolean b, s)
read_value _ s = none

-- The values of a row, under the names of the schema; nothing may be left over.
unfoldable pub read_row : List FieldDef → Bytes → Option (List Named)
read_row [] [] = some []
read_row [] (b ∷ s) = none
read_row (f ∷ fs) s = do
  (value, s) ← read_value f.type_id s
  values ← read_row fs s
  some ((f.name, value) ∷ values)

value_image : BondValue → Bytes
value_image v = write_value [] v

write_value-image :
    (buffer : Bytes) (v : BondValue) → write_value buffer v ≡ buffer ++ value_image v
unfolding value_image write_value write_string write_numeric write_bool
write_value-image buffer (text s) = simp append_assoc
write_value-image buffer (int32 n) = refl
write_value-image buffer (uint32 n) = refl
write_value-image buffer (int64 n) = refl
write_value-image buffer (double n) = refl
write_value-image buffer (boolean b) = refl

values_image : List Named → Bytes
values_image [] = []
values_image ((name, value) ∷ values) = value_image value ++ values_image values

write_values-image :
    (buffer : Bytes) (vs : List Named) → write_values buffer vs ≡ buffer ++ values_image vs
unfolding write_values values_image
write_values-image buffer [] = sym (append-nil buffer)
write_values-image buffer ((name, value) ∷ vs) =
    write_values-image (write_value buffer value) vs
    ∙ rw (write_value-image buffer value)
        (append_assoc buffer (value_image value) (values_image vs))

read_value-image :
    (v : BondValue) (rest : Bytes)
    → Fits v
    → read_value (type_of v) (value_image v ++ rest) ≡ some (v, rest)
unfolding read_value value_image write_value write_string write_numeric write_bool
read_value-image (text s) rest h =
    rw (append_assoc (to_le_bytes 4 (length s % 2 ^ 32)) s rest, mod-eq_of_lt h)
      (rw (read_prefixed_lem 4 (length s) s rest refl (omega arith)))
read_value-image (int32 n) rest h = rw (read_le-to_le_bytes 4 n rest (omega arith))
read_value-image (uint32 n) rest h = rw (read_le-to_le_bytes 4 n rest (omega arith))
read_value-image (int64 n) rest h = rw (read_le-to_le_bytes 8 n rest (omega arith))
read_value-image (double n) rest h = rw (read_le-to_le_bytes 8 n rest (omega arith))
read_value-image (boolean true) rest h = unfold read_le read_bool in refl
read_value-image (boolean false) rest h = unfold read_le read_bool in refl

named_injective :
    (f : FieldDef) (fs : List FieldDef) (name : Str) (value : BondValue) (vs : List Named)
    → map field_type (f ∷ fs) ≡ map named_type ((name, value) ∷ vs)
    → (f.name ≡ name) × (f.type_id ≡ type_of value) × (map field_type fs ≡ map named_type vs)
named_injective f fs name value vs e =
    let head : ◌≡◌ {A = Str × BondDataType} (f.name, f.type_id) (name, type_of value) = cc in
    (ap (λ (p : Str × BondDataType). p.0) head, ap (λ (p : Str × BondDataType). p.1) head, cc)

read_row-image :
    (fs : List FieldDef) (vs : List Named)
    → map field_type fs ≡ map named_type vs
    → All (λ v. Fits v.1) vs
    → read_row fs (values_image vs) ≡ some vs
unfolding read_row values_image
read_row-image [] [] e h = refl
read_row-image [] (v ∷ vs) e h = cc
read_row-image (f ∷ fs) [] e h = cc
read_row-image (f ∷ fs) ((name, value) ∷ vs) e h =
    let (same_name, same_type, rest) = named_injective f fs name value vs e in
    rw same_type (
      rw (read_value-image value (values_image vs) h.0)
        (rw (read_row-image fs vs rest h.1) (rw same_name)))

-- A row of values that fit is read back, by any fields of the values' names and types.
pub read_row-write_values :
    (fs : List FieldDef) (vs : List Named)
    → map field_type fs ≡ map named_type vs
    → All (λ v. Fits v.1) vs
    → read_row fs (write_values [] vs) ≡ some vs
read_row-write_values fs vs e h = rw (write_values-image [] vs) (read_row-image fs vs e h)

read_row-image_short :
    (fs : List FieldDef) (vs : List Named) (f : FieldDef) (tail : Bytes)
    → map field_type fs ≡ map named_type vs
    → All (λ v. Fits v.1) vs
    → read_value f.type_id tail ≡ none
    → read_row (fs ++ f ∷ []) (values_image vs ++ tail) ≡ none
unfolding read_row values_image
read_row-image_short [] [] f tail e h short = rw short
read_row-image_short [] (v ∷ vs) f tail e h short = cc
read_row-image_short (g ∷ fs) [] f tail e h short = cc
read_row-image_short (g ∷ fs) ((name, value) ∷ vs) f tail e h short =
    let (same_name, same_type, rest) = named_injective g fs name value vs e in
    rw (append_assoc (value_image value) (values_image vs) tail, same_type)
      (rw (read_value-image value (values_image vs ++ tail) h.0)
        (rw (read_row-image_short fs vs f tail rest h.1 short)))

-- A row with one more value at its end than is of its fields' types is not read, where the last field
-- cannot be read from that value.
pub read_row_mistyped :
    (fs : List FieldDef) (vs : List Named) (f : FieldDef) (name : Str) (value : BondValue)
    → map field_type fs ≡ map named_type vs
    → All (λ v. Fits v.1) vs
    → read_value f.type_id (write_value [] value) ≡ none
    → read_row (fs ++ f ∷ []) (write_values [] (vs ++ (name, value) ∷ [])) ≡ none
read_row_mistyped fs vs f name value e h short =
    rw (write_values-append [] vs ((name, value) ∷ [])) (
      unfold write_values in
      rw (write_value-image (write_values [] vs) value, write_values-image [] vs)
        (read_row-image_short fs vs f (value_image value) e h (unfold value_image in short)))
