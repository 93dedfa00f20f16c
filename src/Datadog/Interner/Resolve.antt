-- ===== src/Datadog/Interner/Resolve.antt =====
-- What the number of an interned text stands for.
use opentelemetry_rust_contr.Common.{
  Option, ℕ, zero, suc, ◌%◌, ◌^◌, ◌<◌, List, [], ◌∷◌, ◌++◌, append-nil, ◌≡◌, refl, some, length,
  get_elem?, Option-cases, inl, inr, arith,
}
use opentelemetry_rust_contr.Datadog.Value.{InternValue}
use opentelemetry_rust_contr.Datadog.Interner.{StringInterner, intern_full}

-- What indexmap says of the number of an element: the element is there. Floats of different bits are
-- different elements.
abbrev pub IndexLaw : (StringInterner → InternValue → Option ℕ) → Type 0
IndexLaw get_index_of =
    (data' : StringInterner) (x : InternValue) (idx : ℕ)
    → get_index_of data' x ≡ some idx
    → get_elem? data' idx ≡ some x

pub get_elem?-append :
    {A : Type 0} (xs ys : List A) (i : ℕ) (x : A)
    → get_elem? xs i ≡ some x
    → get_elem? (xs ++ ys) i ≡ some x
get_elem?-append [] ys i x h = cc
get_elem?-append (y ∷ xs) ys zero x h = h
get_elem?-append (y ∷ xs) ys (suc i) x h = get_elem?-append xs ys i x h

pub get_elem?_last :
    {A : Type 0} (xs : List A) (x : A) → get_elem? (xs ++ x ∷ []) (length xs) ≡ some x
get_elem?_last [] x = refl
get_elem?_last (y ∷ xs) x = get_elem?_last xs x

pub get_elem?_inside :
    {A : Type 0} (xs : List A) (i : ℕ) (x : A) → get_elem? xs i ≡ some x → i < length xs
get_elem?_inside [] i x h = cc
get_elem?_inside (y ∷ xs) zero x h = omega arith
get_elem?_inside (y ∷ xs) (suc i) x h = omega (arith, get_elem?_inside xs i x h)

-- An element was interned: the interner only grew, and the number, cut to 32 bits, is the place of the
-- element.
pub record Interned (x : InternValue) (before : StringInterner) (result : ℕ × StringInterner)
    : Type 0 where
  pub more : StringInterner
  pub grew : result.1 ≡ before ++ more
  pub place : ℕ
  pub number : result.0 ≡ place % 2 ^ 32
  pub found : get_elem? result.1 place ≡ some x

-- Where indexmap keeps its word, to intern a value keeps all elements of the interner at their
-- places, and gives the place of the value itself, cut to 32 bits.
pub intern_full-Interned :
    (get_index_of : StringInterner → InternValue → Option ℕ) (x : InternValue)
    (data' : StringInterner)
    → IndexLaw get_index_of
    → Interned x data' (intern_full get_index_of x data')
unfolding intern_full
intern_full-Interned get_index_of x data' law = elim (Option-cases (get_index_of data' x)) [
  | inl missing ↦
      rw (missing, intern_full)
        (record {
          more = x ∷ [];
          grew = refl;
          place = length data';
          number = refl;
          found = get_elem?_last data' x;
        })
  | inr (idx, present) ↦
      rw (present, intern_full)
        (record {
          more = [];
          grew = rw (append-nil data');
          place = idx;
          number = refl;
          found = law data' x idx present;
        })
]
