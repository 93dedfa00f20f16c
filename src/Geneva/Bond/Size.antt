-- ===== src/Geneva/Bond/Size.antt =====
-- The size that `calculate_exact_encoded_size` predicts, against what `encode` writes.
use opentelemetry_rust_contr.Common.{
  ℕ, ◌+◌, List, [], ◌∷◌, Bool, true, false, ◌≡◌, length, length-append, arith,
}
use opentelemetry_rust_contr.Common.Bytes.{Bytes, length-to_le_bytes}
use opentelemetry_rust_contr.Common.Text.{Str}
use opentelemetry_rust_contr.Geneva.Bond.{
  FieldDef, DynamicSchema, write_bond_string, write_defaults, write_field_def, write_field_defs,
  encode, calculate_fixed_overhead, calculate_per_field_fixed_overhead, add_field_sizes,
  calculate_exact_encoded_size,
}

ruleset lengths = (length-append, length-to_le_bytes)

length-write_bond_string :
    (w : Bytes) (s : Str) → length (write_bond_string w s) ≡ length w + 4 + length s
unfolding write_bond_string
length-write_bond_string w s = simp lengths

length-write_defaults : (w : Bytes) → length (write_defaults w) ≡ length w + 33
unfolding write_defaults
length-write_defaults w = simp lengths (omega arith)

length-write_field_def :
    (w : Bytes) (f : FieldDef) (is_last : Bool)
    → length (write_field_def w f is_last) + (elim is_last [ true ↦ 8 | false ↦ 0 ])
      ≡ length w + calculate_per_field_fixed_overhead + (4 + length f.name) + 8
unfolding write_field_def calculate_per_field_fixed_overhead
length-write_field_def w f true =
    simp (lengths, length-write_bond_string, length-write_defaults) (omega arith)
length-write_field_def w f false =
    simp (lengths, length-write_bond_string, length-write_defaults) (omega arith)

add_field_sizes-add :
    (size : ℕ) (fs : List FieldDef) → add_field_sizes size fs ≡ size + add_field_sizes 0 fs
unfolding add_field_sizes
add_field_sizes-add size [] = omega arith
add_field_sizes-add size (f ∷ []) = omega arith
add_field_sizes-add size (f ∷ g ∷ fs) = omega (
  arith,
  add_field_sizes-add (size + calculate_per_field_fixed_overhead + (4 + length f.name) + 8)
      (g ∷ fs),
  add_field_sizes-add (0 + calculate_per_field_fixed_overhead + (4 + length f.name) + 8) (g ∷ fs),
)

length-write_field_defs :
    (w : Bytes) (fs : List FieldDef)
    → length (write_field_defs w fs) ≡ length w + add_field_sizes 0 fs
unfolding write_field_defs add_field_sizes
length-write_field_defs w [] = omega arith
length-write_field_defs w (f ∷ []) = omega (arith, length-write_field_def w f true)
length-write_field_defs w (f ∷ g ∷ fs) = omega (
  arith,
  length-write_field_def w f false,
  length-write_field_defs (write_field_def w f false) (g ∷ fs),
  add_field_sizes-add (0 + calculate_per_field_fixed_overhead + (4 + length f.name) + 8) (g ∷ fs),
)

-- `encode` writes exactly the number of bytes that `calculate_exact_encoded_size` gives, for every
-- schema.
pub length-encode : (s : DynamicSchema) → length (encode s) ≡ calculate_exact_encoded_size s
unfolding encode calculate_exact_encoded_size calculate_fixed_overhead
length-encode s =
    simp (lengths, length-write_field_defs, length-write_bond_string, length-write_defaults)
      (omega (
        arith,
        add_field_sizes-add (80 + (4 + length s.struct_name) + (4 + length s.qualified_name))
            s.fields,
      ))
