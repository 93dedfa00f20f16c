-- ===== src/Geneva/Bond/RoundTrip.antt =====
-- The schema reader on what `encode` writes.
use opentelemetry_rust_contr.Common.{
  ℕ, zero, suc, ◌+◌, ◌*◌, ◌%◌, ◌^◌, ◌<◌, List, [], ◌∷◌, ◌++◌, Bool, true, false, ◌≡◌, refl, sym, ap,
  ◌∙◌, some, length, All, ==-refl, append-nil, append_assoc, arith,
}
use opentelemetry_rust_contr.Common.Bytes.{
  Bytes, to_le_bytes, read_le, read_prefixed, read_prefixed_lem, read_le-to_le_bytes, fill,
  skip_fill-fill,
}
use opentelemetry_rust_contr.Common.Text.{Str}
use opentelemetry_rust_contr.Geneva.Bond.{
  bt_struct, discriminant, FieldDef, DynamicSchema, write_bond_string, write_defaults,
  write_field_def, write_field_defs, encode,
}
use opentelemetry_rust_contr.Geneva.Bond.Reader.{
  type_of_number-discriminant, read_field_def, read_field_defs, read_schema, FieldFits, SchemaFits,
}
use native.Mathlib.Nat.{mod-eq_of_lt}

-- The image of a text, of a field and of all fields, in front of what follows.
string_image : Str → Bytes → Bytes
string_image s rest = to_le_bytes 4 (length s % 2 ^ 32) ++ (s ++ rest)

field_image : FieldDef → Bool → Bytes → Bytes
field_image f is_last rest = string_image f.name (
    fill 45 0 (
      to_le_bytes 2 f.field_id
      ++ (discriminant f.type_id ∷ fill (elim is_last [ true ↦ 6 | false ↦ 14 ]) 0 rest)))

write_bond_string-image :
    (w : Bytes) (s rest : Bytes) → write_bond_string w s ++ rest ≡ w ++ string_image s rest
unfolding write_bond_string string_image
write_bond_string-image w s rest = simp append_assoc

write_defaults-image : (w rest : Bytes) → write_defaults w ++ rest ≡ w ++ fill 33 0 rest
unfolding write_defaults fill to_le_bytes
write_defaults-image w rest = simp append_assoc

string_image-append : (s t r : Bytes) → string_image s t ++ r ≡ string_image s (t ++ r)
unfolding string_image
string_image-append s t r = simp append_assoc

fill-append : (n b : ℕ) (t r : Bytes) → fill n b t ++ r ≡ fill n b (t ++ r)
unfolding fill
fill-append zero b t r = refl
fill-append (suc n) b t r = ap (λ u. b ∷ u) (fill-append n b t r)

ruleset images =
    (append_assoc, write_defaults-image, write_bond_string-image, string_image-append, fill-append)

write_field_def-image :
    (w : Bytes) (f : FieldDef) (is_last : Bool) (rest : Bytes)
    → write_field_def w f is_last ++ rest ≡ w ++ field_image f is_last rest
write_field_def-image w f true rest =
    unfold write_field_def field_image in simp images (unfold string_image fill to_le_bytes in refl)
write_field_def-image w f false rest =
    unfold write_field_def field_image in simp images (unfold string_image fill to_le_bytes in refl)

fields_image : List FieldDef → Bytes → Bytes
fields_image [] rest = rest
fields_image (f ∷ []) rest = field_image f true rest
fields_image (f ∷ g ∷ fs) rest = field_image f false (fields_image (g ∷ fs) rest)

write_field_defs-image :
    (w : Bytes) (fs : List FieldDef) (rest : Bytes)
    → write_field_defs w fs ++ rest ≡ w ++ fields_image fs rest
unfolding write_field_defs fields_image
write_field_defs-image w [] rest = refl
write_field_defs-image w (f ∷ []) rest = write_field_def-image w f true rest
write_field_defs-image w (f ∷ g ∷ fs) rest =
    write_field_defs-image (write_field_def w f false) (g ∷ fs) rest
    ∙ write_field_def-image w f false (fields_image (g ∷ fs) rest)

fields_image-append :
    (fs : List FieldDef) (t r : Bytes) → fields_image fs t ++ r ≡ fields_image fs (t ++ r)
unfolding fields_image field_image
fields_image-append [] t r = refl
fields_image-append (f ∷ []) t r = simp images
fields_image-append (f ∷ g ∷ fs) t r = simp (images, fields_image-append (g ∷ fs))

schema_image : DynamicSchema → Bytes → Bytes
schema_image s rest =
    to_le_bytes 4 0x1_5053
    ++ (to_le_bytes 4 1
        ++ string_image s.struct_name (
            string_image s.qualified_name (
              fill 45 0 (
                to_le_bytes 4 (length s.fields % 2 ^ 32)
                ++ fields_image s.fields (fill 8 0 (discriminant bt_struct ∷ fill 14 0 rest))))))

encode-image : (s : DynamicSchema) → encode s ≡ schema_image s []
encode-image s =
    sym (append-nil (encode s))
    ∙ (unfold encode schema_image in
        simp (images, write_field_defs-image, fields_image-append)
          (unfold string_image fill to_le_bytes discriminant in refl))

read_string :
    (s rest : Bytes) → length s < 2 ^ 32 → read_prefixed 4 (string_image s rest) ≡ some (s, rest)
unfolding string_image
read_string s rest h =
    rw (mod-eq_of_lt h) (read_prefixed_lem 4 (length s) s rest refl (omega arith))

read_one : (b : ℕ) (rest : Bytes) → read_le 1 (b ∷ rest) ≡ some (b, rest)
unfolding read_le
read_one b rest = let e : b + 256 * 0 ≡ b = omega arith in rw e

read_field_def-image :
    (f : FieldDef) (is_last : Bool) (rest : Bytes)
    → FieldFits f
    → read_field_def is_last (field_image f is_last rest) ≡ some (f, rest)
unfolding read_field_def field_image
read_field_def-image f is_last rest h = rw (
  read_string f.name _ h.name_fits,
  skip_fill-fill,
  read_le-to_le_bytes 2 f.field_id _ (omega arith),
  read_one,
  type_of_number-discriminant f.type_id,
  skip_fill-fill,
)

read_field_defs-image :
    (fs : List FieldDef) (rest : Bytes)
    → All FieldFits fs
    → read_field_defs (length fs) (fields_image fs rest) ≡ some (fs, rest)
unfolding read_field_defs fields_image
read_field_defs-image [] rest h = refl
read_field_defs-image (f ∷ []) rest h = rw (read_field_def-image f true rest h.0)
read_field_defs-image (f ∷ g ∷ fs) rest h = rw (
  read_field_def-image f false (fields_image (g ∷ fs) rest) h.0,
  read_field_defs-image (g ∷ fs) rest h.1,
)

-- The reader of the schema format gives back the whole schema that `encode` wrote, names, field
-- ids and types included, and nothing is left over, for every schema whose text lengths and field
-- count fit 32 bits and whose field ids fit 16.
pub read_schema-encode : (s : DynamicSchema) → SchemaFits s → read_schema (encode s) ≡ some s
read_schema-encode s h = rw (encode-image s) (
    unfold read_schema schema_image in
    rw (
      read_le-to_le_bytes 4 0x1_5053 _ (omega arith),
      read_le-to_le_bytes 4 1 _ (omega arith),
      read_string s.struct_name _ h.struct_fits,
      read_string s.qualified_name _ h.qualified_fits,
      skip_fill-fill,
      mod-eq_of_lt h.count_fits,
      read_le-to_le_bytes 4 (length s.fields) _ (omega arith),
      read_field_defs-image s.fields _ h.fields_fit,
      skip_fill-fill,
      read_one,
      ==-refl,
      skip_fill-fill,
    ))
