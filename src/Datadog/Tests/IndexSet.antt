-- ===== src/Datadog/Tests/IndexSet.antt =====
-- An `IndexSet` of interned values as a list that is searched.
use opentelemetry_rust_contr.Common.{
  ℕ, suc, ◌==◌, ==_iff, List, [], ◌∷◌, Bool, true, false, ◌&&◌, ◌≡◌, refl, ap, Option, none, some,
  get_elem?, if◌then◌else◌, Bool-cases, Option-cases, inl, inr, arith,
}
use mathlib.Core.Option
use opentelemetry_rust_contr.Common.Text.{str_eq, str_eq_iff}
use opentelemetry_rust_contr.Datadog.Value.{
  Array, bools, i64s, f64s, strings, Value, bool, i64, f64, string, array, InternValue,
  regular_string, opentelemetry_value,
}
use opentelemetry_rust_contr.Datadog.Interner.{StringInterner}

unfoldable pub bool_eq : Bool → Bool → Bool
bool_eq true b = b
bool_eq false true = false
bool_eq false false = true

unfoldable pub list_eq : {A : Type 0} → (A → A → Bool) → List A → List A → Bool
list_eq same [] [] = true
list_eq same (x ∷ xs) (y ∷ ys) = same x y && list_eq same xs ys
list_eq same _ _ = false

-- Equality, for a test of floats.
module _ (float_eq : ℕ → ℕ → Bool) where
  unfoldable pub array_eq : Array → Array → Bool
  array_eq (bools x) (bools y) = list_eq bool_eq x y
  array_eq (i64s x) (i64s y) = list_eq ◌==◌ x y
  array_eq (f64s x) (f64s y) = list_eq float_eq x y
  array_eq (strings x) (strings y) = list_eq str_eq x y
  array_eq _ _ = false

  unfoldable pub value_eq : Value → Value → Bool
  value_eq (bool x) (bool y) = bool_eq x y
  value_eq (i64 x) (i64 y) = x == y
  value_eq (f64 x) (f64 y) = float_eq x y
  value_eq (string x) (string y) = str_eq x y
  value_eq (array x) (array y) = array_eq x y
  value_eq _ _ = false

  unfoldable pub intern_eq : InternValue → InternValue → Bool
  intern_eq (regular_string x) (regular_string y) = str_eq x y
  intern_eq (opentelemetry_value x) (opentelemetry_value y) = value_eq x y
  intern_eq _ _ = false

module _ (float_eq : ℕ → ℕ → Bool) where
  unfoldable pub get_index_of : StringInterner → InternValue → Option ℕ
  get_index_of [] x = none
  get_index_of (y ∷ data') x =
      let rest = get_index_of data' x in
      if intern_eq float_eq y x then some 0 else Option.map suc rest

bool_eq→≡ : (x y : Bool) → bool_eq x y ≡ true → x ≡ y
unfolding bool_eq
bool_eq→≡ true true h = refl
bool_eq→≡ true false h = cc
bool_eq→≡ false true h = cc
bool_eq→≡ false false h = refl

list_eq→≡ :
    {A : Type 0} (same : A → A → Bool)
    → ((x y : A) → same x y ≡ true → x ≡ y)
    → (xs ys : List A) → list_eq same xs ys ≡ true
    → xs ≡ ys
unfolding list_eq
list_eq→≡ same h [] [] e = refl
list_eq→≡ same h [] (y ∷ ys) e = cc
list_eq→≡ same h (x ∷ xs) [] e = cc
list_eq→≡ same h (x ∷ xs) (y ∷ ys) e =
    let head = h x y in let tail = list_eq→≡ same h xs ys in ground arith

abbrev FloatEqLaw : (ℕ → ℕ → Bool) → Type 0
FloatEqLaw float_eq = (x y : ℕ) → float_eq x y ≡ true → x ≡ y

module _ (float_eq : ℕ → ℕ → Bool) (law : FloatEqLaw float_eq) where
  array_eq→≡ : (x y : Array) → array_eq float_eq x y ≡ true → x ≡ y
  unfolding array_eq
  array_eq→≡ (bools x) (bools y) h = ap bools (list_eq→≡ bool_eq bool_eq→≡ x y h)
  array_eq→≡ (i64s x) (i64s y) h = ap i64s (list_eq→≡ ◌==◌ (λ a b. (==_iff a b).0) x y h)
  array_eq→≡ (f64s x) (f64s y) h = ap f64s (list_eq→≡ float_eq law x y h)
  array_eq→≡ (strings x) (strings y) h =
      ap strings (list_eq→≡ str_eq (λ a b. (str_eq_iff a b).0) x y h)
  array_eq→≡ _ _ h = cc

  value_eq→≡ : (x y : Value) → value_eq float_eq x y ≡ true → x ≡ y
  unfolding value_eq
  value_eq→≡ (bool x) (bool y) h = ap bool (bool_eq→≡ x y h)
  value_eq→≡ (i64 x) (i64 y) h = ap i64 ((==_iff x y).0 h)
  value_eq→≡ (f64 x) (f64 y) h = ap f64 (law x y h)
  value_eq→≡ (string x) (string y) h = ap string ((str_eq_iff x y).0 h)
  value_eq→≡ (array x) (array y) h = ap array (array_eq→≡ x y h)
  value_eq→≡ _ _ h = cc

  intern_eq→≡ : (x y : InternValue) → intern_eq float_eq x y ≡ true → x ≡ y
  unfolding intern_eq
  intern_eq→≡ (regular_string x) (regular_string y) h = ap regular_string ((str_eq_iff x y).0 h)
  intern_eq→≡ (opentelemetry_value x) (opentelemetry_value y) h =
      ap opentelemetry_value (value_eq→≡ x y h)
  intern_eq→≡ _ _ h = cc

  pub get_index_of_lem :
      (data' : StringInterner) (x : InternValue) (idx : ℕ)
      → get_index_of float_eq data' x ≡ some idx
      → get_elem? data' idx ≡ some x
  unfolding get_index_of
  get_index_of_lem [] x idx h = cc
  get_index_of_lem (y ∷ data') x idx h = elim (Bool-cases (intern_eq float_eq y x)) [
    | inl same ↦
        let e = intern_eq→≡ y x same in
        let zero_idx : 0 ≡ idx = ground arith in rw (← zero_idx) (ap some e)
    | inr differs ↦ elim (Option-cases (get_index_of float_eq data' x)) [
      | inl missing ↦ ground arith
      | inr (i, found) ↦
          let next : suc i ≡ idx = ground arith in rw (← next) (get_index_of_lem data' x i found)
    ]
  ]
