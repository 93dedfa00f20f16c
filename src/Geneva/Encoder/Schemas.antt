-- ===== src/Geneva/Encoder/Schemas.antt =====
-- The schemas of a batch: how one is found again, and their invariant.
use opentelemetry_rust_contr.Common.{
  ℕ, zero, suc, ◌+◌, ◌%◌, ◌^◌, List, [], ◌∷◌, ◌++◌, true, false, ◌&&◌, ◌≡◌, refl, sym, ap, ◌∙◌,
  none, some, inl, inr, length, get_elem?, All, map, arith, Bool-cases, Option-cases,
}
use mathlib.Core.List.{reverse, reverse-cons}
use opentelemetry_rust_contr.Common.Text.{Str, str_eq, str_eq_iff}
use opentelemetry_rust_contr.Geneva.Bond.{BondDataType, discriminant, FieldDef}
use opentelemetry_rust_contr.Geneva.Bond.Reader.{type_of_number, type_of_number-discriminant}
use opentelemetry_rust_contr.Geneva.Blob.{CentralSchemaEntry}
use opentelemetry_rust_contr.Geneva.Value.{field_type}
use opentelemetry_rust_contr.Geneva.Encoder.{
  Libraries, same_field, zip_fields, all_same, matches_schema, position, create_schema,
  find_or_create_schema,
}

-- Two Bond types of one number are one type.
discriminant_injective : (t u : BondDataType) → discriminant t ≡ discriminant u → t ≡ u
discriminant_injective t u e =
    cc (type_of_number-discriminant t, type_of_number-discriminant u, ap type_of_number e)

same_field-eq : (a b : FieldDef) → same_field a b ≡ true → field_type a ≡ field_type b
unfolding same_field
same_field-eq a b h =
    let t : a.type_id ≡ b.type_id = discriminant_injective a.type_id b.type_id (ground arith) in
    let n : a.name ≡ b.name = (str_eq_iff a.name b.name).0 (ground arith) in cc

same_field_self : (a b : FieldDef) → field_type a ≡ field_type b → same_field a b ≡ true
unfolding same_field
same_field_self a b h =
    let t : a.type_id ≡ b.type_id = ap (λ (p : Str × BondDataType). p.1) h in
    let n : a.name ≡ b.name = ap (λ (p : Str × BondDataType). p.0) h in
    let m : str_eq a.name b.name ≡ true = (str_eq_iff a.name b.name).1 n in rw (t, m) (ground arith)

all_same-append :
    (ps qs : List (FieldDef × FieldDef)) → all_same (ps ++ qs) ≡ (all_same ps && all_same qs)
unfolding all_same
all_same-append [] qs = refl
all_same-append ((a, b) ∷ ps) qs = ground (arith, all_same-append ps qs)

-- The test runs from the back, and that changes nothing.
all_same-reverse : (ps : List (FieldDef × FieldDef)) → all_same (reverse ps) ≡ all_same ps
all_same-reverse [] = unfold all_same in refl
all_same-reverse (p ∷ ps) =
    ap all_same (reverse-cons p ps)
    ∙ all_same-append (reverse ps) (p ∷ [])
    ∙ rw (all_same-reverse ps) (unfold all_same in ground arith)

all_same-zip :
    (as_fields bs : List FieldDef)
    → length as_fields ≡ length bs
    → all_same (zip_fields as_fields bs) ≡ true
    → map field_type as_fields ≡ map field_type bs
unfolding all_same zip_fields
all_same-zip [] [] e h = refl
all_same-zip [] (b ∷ bs) e h = absurd (omega arith)
all_same-zip (a ∷ as_fields) [] e h = absurd (omega arith)
all_same-zip (a ∷ as_fields) (b ∷ bs) e h =
    let same : same_field a b ≡ true = ground arith in
    let rest : all_same (zip_fields as_fields bs) ≡ true = ground arith in
    cc (same_field-eq a b same, all_same-zip as_fields bs (omega arith) rest)

-- A schema that the test finds has the fields asked for, by name and type and in order.
pub matches_schema-eq :
    (field_info : List FieldDef) (s : CentralSchemaEntry)
    → matches_schema field_info s ≡ true
    → map field_type s.fields ≡ map field_type field_info
unfolding matches_schema
matches_schema-eq field_info s h =
    let n : length s.fields ≡ length field_info = ground arith in
    let same : all_same (reverse (zip_fields s.fields field_info)) ≡ true = ground arith in
    all_same-zip s.fields field_info n
      (sym (all_same-reverse (zip_fields s.fields field_info)) ∙ same)

-- The schemas are numbered from `k + 1` in their order.
abbrev pub Numbered : ℕ → List CentralSchemaEntry → Type 0
Numbered k [] = Unit {0}
Numbered k (s ∷ ss) = (s.id ≡ (k + 1) % 2 ^ 64) × Numbered (k + 1) ss

-- The fields of a schema do not find any schema before it.
abbrev pub Distinct : List CentralSchemaEntry → Type 0
Distinct [] = Unit {0}
Distinct (s ∷ ss) =
    All (λ (t : CentralSchemaEntry). matches_schema t.fields s ≡ false) ss × Distinct ss

-- The schema of an id has these fields.
abbrev pub Resolves : List CentralSchemaEntry → ℕ → List FieldDef → Type 0
Resolves ss id fields =
    (i : ℕ) × (s : CentralSchemaEntry) × (get_elem? ss i ≡ some s)
    × (s.id ≡ id)
    × (map field_type s.fields ≡ map field_type fields)

position_lem :
    (field_info : List FieldDef) (k j : ℕ) (ss : List CentralSchemaEntry)
    → Numbered k ss
    → position field_info k ss ≡ some j
    → Resolves ss ((j + 1) % 2 ^ 64) field_info
unfolding position
position_lem field_info k j [] numbered e = cc
position_lem field_info k j (s ∷ ss) numbered e = elim (Bool-cases (matches_schema field_info s)) [
  | inl found ↦
      let here : k ≡ j = ground arith in
      (zero, s, refl, rw (← here) numbered.0, matches_schema-eq field_info s found)
  | inr other ↦
      let (i, t, at_i, id, same) = position_lem field_info (k + 1) j ss numbered.1 (ground arith) in
      (suc i, t, at_i, id, same)
]

position-none :
    (field_info : List FieldDef) (k : ℕ) (ss : List CentralSchemaEntry)
    → position field_info k ss ≡ none
    → All (λ s. matches_schema field_info s ≡ false) ss
unfolding position
position-none field_info k [] e = tt
position-none field_info k (s ∷ ss) e =
    (ground arith, position-none field_info (k + 1) ss (ground arith))

Numbered-append :
    (k : ℕ) (ss : List CentralSchemaEntry) (s : CentralSchemaEntry)
    → Numbered k ss
    → s.id ≡ (k + length ss + 1) % 2 ^ 64
    → Numbered k (ss ++ s ∷ [])
Numbered-append k [] s h e =
    (let z : k + 0 + 1 ≡ k + 1 = omega arith in e ∙ ap (λ n. n % 2 ^ 64) z, tt)
Numbered-append k (t ∷ ss) s h e =
    let z : k + suc (length ss) + 1 ≡ k + 1 + length ss + 1 = omega arith in
    (h.0, Numbered-append (k + 1) ss s h.1 (e ∙ ap (λ n. n % 2 ^ 64) z))

All-snoc :
    (P : CentralSchemaEntry → Type 0) (ss : List CentralSchemaEntry) (s : CentralSchemaEntry)
    → All P ss
    → P s
    → All P (ss ++ s ∷ [])
All-snoc P [] s h p = (p, tt)
All-snoc P (t ∷ ss) s h p = (h.0, All-snoc P ss s h.1 p)

Distinct-append :
    (ss : List CentralSchemaEntry) (s : CentralSchemaEntry)
    → Distinct ss
    → All (λ (t : CentralSchemaEntry). matches_schema s.fields t ≡ false) ss
    → Distinct (ss ++ s ∷ [])
Distinct-append [] s h fresh = (tt, tt)
Distinct-append (t ∷ ss) s h fresh = (
  All-snoc (λ (u : CentralSchemaEntry). matches_schema u.fields t ≡ false) ss s h.0 fresh.0,
  Distinct-append ss s h.1 fresh.1,
)

pub get_elem?-append :
    (ss ts : List CentralSchemaEntry) (i : ℕ) {s : CentralSchemaEntry}
    → get_elem? ss i ≡ some s
    → get_elem? (ss ++ ts) i ≡ some s
get_elem?-append [] ts i e = cc
get_elem?-append (s ∷ ss) ts zero e = e
get_elem?-append (s ∷ ss) ts (suc i) e = get_elem?-append ss ts i e

get_elem?_last :
    (ss : List CentralSchemaEntry) (s : CentralSchemaEntry)
    → get_elem? (ss ++ s ∷ []) (length ss) ≡ some s
get_elem?_last [] s = refl
get_elem?_last (t ∷ ss) s = get_elem?_last ss s

-- What the schemas of a batch satisfy.
pub record SchemasOk (ss : List CentralSchemaEntry) : Type 0 where
  pub numbered : Numbered 0 ss
  pub distinct : Distinct ss

-- A later list of schemas keeps what an earlier one resolved.
abbrev pub Extends : List CentralSchemaEntry → List CentralSchemaEntry → Type 0
Extends ss ts = (i : ℕ) (s : CentralSchemaEntry) → get_elem? ss i ≡ some s → get_elem? ts i ≡ some s

pub record Found (field_info : List FieldDef) (before : List CentralSchemaEntry) (id : ℕ)
    (after : List CentralSchemaEntry) : Type 0 where
  pub well_formed : SchemasOk after
  pub extends : Extends before after
  pub resolves : Resolves after id field_info

module _ (libs : Libraries) (struct_name : Str) (field_info : List FieldDef) where
  Found-new :
      (ss : List CentralSchemaEntry)
      → SchemasOk ss
      → position field_info 0 ss ≡ none
      → Found field_info ss
          ((length ss + 1) % 2 ^ 64)
          (ss ++ create_schema libs struct_name ((length ss + 1) % 2 ^ 64) field_info ∷ [])
  unfolding create_schema
  Found-new ss h e =
      let entry = create_schema libs struct_name ((length ss + 1) % 2 ^ 64) field_info in
      let z : 0 + length ss + 1 ≡ length ss + 1 = omega arith in
      record {
        well_formed = record {
          numbered = Numbered-append 0 ss entry h.numbered (ap (λ n. n % 2 ^ 64) (sym z));
          distinct = Distinct-append ss entry h.distinct (position-none field_info 0 ss e);
        };
        extends = λ i s at. get_elem?-append ss (entry ∷ []) i at;
        resolves = (length ss, entry, get_elem?_last ss entry, refl, refl);
      }

  pub find_or_create_schema-Found :
      (ss : List CentralSchemaEntry)
      → SchemasOk ss
      → Found field_info ss
          (find_or_create_schema libs struct_name field_info ss).0
          (find_or_create_schema libs struct_name field_info ss).1
  find_or_create_schema-Found ss h = elim (Option-cases (position field_info 0 ss)) [
    | inl e ↦ unfold find_or_create_schema in rw (e, find_or_create_schema) (Found-new ss h e)
    | inr (j, e) ↦
        unfold find_or_create_schema in
        rw (e, find_or_create_schema)
          (record {
            well_formed = h;
            extends = λ i s at. at;
            resolves = position_lem field_info 0 j ss h.numbered e;
          })
  ]
