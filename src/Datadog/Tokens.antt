-- ===== src/Datadog/Tokens.antt =====
-- MessagePack payloads as the values that rmp::encode writes, in order, and readers of them. Tokens are
-- right where a reader takes exactly them off any payload that begins with them.
use opentelemetry_rust_contr.Common.{
  ℕ, zero, suc, ◌+◌, ◌%◌, ◌^◌, ◌<◌, List, [], ◌∷◌, ◌++◌, append_assoc, ◌≡◌, refl, map, Option, none,
  some, length, All, Option-cases, inl, inr, ◌==◌, ◌>>=◌, ◌>>◌, guard, arith,
}
use native.Mathlib.Nat.{mod-eq_of_lt, suc-add}
use opentelemetry_rust_contr.Common.Text.{Str, str_eq, str_eq_refl}

-- The writers of rmp::encode that the exporter calls, and `write_bytes` of what they write to. A float
-- is its bits, an integer that can be negative its two's complement.
pub data Token : Type 0 where
  write_array_len write_map_len write_u32 write_u64 write_i32 write_i64 write_f64 write_str_len :
      ℕ → Token
  write_str write_bytes : Str → Token

abbrev pub Reader : Type 0 → Type 0
Reader A = List Token → Option (A × List Token)

-- The tokens are read as the value, whatever follows them.
abbrev pub Reads : {A : Type 0} → Reader A → List Token → A → Type 0
Reads r tokens v = (rest : List Token) → r (tokens ++ rest) ≡ some (v, rest)

unfoldable pub both : {A B : Type 0} → Reader A → Reader B → Reader (A × B)
both r s tokens = do (a, tokens) ← r tokens; (b, tokens) ← s tokens; some ((a, b), tokens)

unfoldable pub many : {A : Type 0} → Reader A → ℕ → Reader (List A)
many r zero tokens = some ([], tokens)
many r (suc n) tokens = do
  (x, tokens) ← r tokens
  (xs, tokens) ← many r n tokens
  some (x ∷ xs, tokens)

unfoldable pub read_array_len : Reader ℕ
read_array_len (write_array_len n ∷ tokens) = some (n, tokens)
read_array_len _ = none

unfoldable pub read_map_len : Reader ℕ
read_map_len (write_map_len n ∷ tokens) = some (n, tokens)
read_map_len _ = none

unfoldable pub read_u64 : Reader ℕ
read_u64 (write_u64 n ∷ tokens) = some (n, tokens)
read_u64 _ = none

unfoldable pub read_i64 : Reader ℕ
read_i64 (write_i64 n ∷ tokens) = some (n, tokens)
read_i64 _ = none

unfoldable pub read_i32 : Reader ℕ
read_i32 (write_i32 n ∷ tokens) = some (n, tokens)
read_i32 _ = none

unfoldable pub read_f64 : Reader ℕ
read_f64 (write_f64 n ∷ tokens) = some (n, tokens)
read_f64 _ = none

-- A text, also as its length and its bytes.
unfoldable pub read_str : Reader Str
read_str (write_str s ∷ tokens) = some (s, tokens)
read_str (write_str_len n ∷ write_bytes s ∷ tokens) = do guard (n == length s); some (s, tokens)
read_str _ = none

-- A text that is a name in the format.
unfoldable pub name : Str → Reader (Unit {0})
name s tokens = do (t, tokens) ← read_str tokens; guard (str_eq t s); some (tt, tokens)

unfoldable pub array : {A : Type 0} → Reader A → Reader (List A)
array r tokens = do (n, tokens) ← read_array_len tokens; many r n tokens

unfoldable pub map_of : {A : Type 0} → Reader A → Reader (List A)
map_of r tokens = do (n, tokens) ← read_map_len tokens; many r n tokens

-- The tokens of the elements, one after the other.
unfoldable pub concat : {A : Type 0} → (A → List Token) → List A → List Token
concat w [] = []
concat w (x ∷ xs) = w x ++ concat w xs

module _ {A B : Type 0} (r : Reader A) (s : Reader B) where
  pub both-Reads :
      (t u : List Token) (v : A) (w : B)
      → Reads r t v
      → Reads s u w
      → Reads (both r s) (t ++ u) (v, w)
  unfolding both
  both-Reads t u v w hr hs rest = rw (append_assoc t u rest) (rw (hr (u ++ rest)) (rw (hs rest)))

module _ {A : Type 0} (r : Reader A) where
  many_add :
      (m n : ℕ) (tokens middle after : List Token) (xs ys : List A)
      → many r m tokens ≡ some (xs, middle)
      → many r n middle ≡ some (ys, after)
      → many r (m + n) tokens ≡ some (xs ++ ys, after)
  unfolding many
  many_add zero n tokens middle after xs ys hm hn = ground arith
  many_add (suc m) n tokens middle after xs ys hm hn = elim (Option-cases (r tokens)) [
    | inl e ↦ ground arith
    | inr ((x, next), e) ↦ elim (Option-cases (many r m next)) [
      | inl e' ↦ ground arith
      | inr ((more, last), e') ↦
          let ih = many_add m n next last after more ys e' in
          rw (suc-add m n) (rw (e, many) (ground arith))
    ]
  ]

  -- Elements of two kinds of writers, one after the other.
  pub many_append :
      (m n : ℕ) (t u : List Token) (xs ys : List A)
      → Reads (many r m) t xs
      → Reads (many r n) u ys
      → Reads (many r (m + n)) (t ++ u) (xs ++ ys)
  many_append m n t u xs ys hr hs rest =
      rw (append_assoc t u rest)
        (many_add m n (t ++ (u ++ rest)) (u ++ rest) rest xs ys (hr (u ++ rest)) (hs rest))

  pub many_next :
      (n : ℕ) (t u : List Token) (x : A) (xs : List A)
      → Reads r t x
      → Reads (many r n) u xs
      → Reads (many r (suc n)) (t ++ u) (x ∷ xs)
  unfolding many
  many_next n t u x xs hr hs rest =
      rw (append_assoc t u rest) (rw (hr (u ++ rest), many) (rw (hs rest)))

  pub many-Reads :
      {X : Type 0} (P : X → Type 0) (w : X → List Token) (f : X → A)
      → ((x : X) → P x → Reads r (w x) (f x))
      → (xs : List X) → All P xs
      → Reads (many r (length xs)) (concat w xs) (map f xs)
  unfolding many concat
  many-Reads P w f h [] ok = λ rest. refl
  many-Reads P w f h (x ∷ xs) ok =
      many_next (length xs) (w x) (concat w xs) (f x) (map f xs) (h x ok.0)
        (many-Reads P w f h xs ok.1)

  pub array-Reads :
      (n : ℕ) (t : List Token) (xs : List A)
      → n < 2 ^ 32
      → Reads (many r n) t xs
      → Reads (array r) (write_array_len (n % 2 ^ 32) ∷ t) xs
  unfolding array read_array_len
  array-Reads n t xs h hr rest = rw (mod-eq_of_lt h) (hr rest)

  pub map_of-Reads :
      (n m : ℕ) (t : List Token) (xs : List A)
      → m ≡ n
      → Reads (many r n) t xs
      → Reads (map_of r) (write_map_len m ∷ t) xs
  unfolding map_of read_map_len
  map_of-Reads n m t xs h hr rest = rw h (hr rest)

pub name-Reads : (s : Str) → Reads (name s) (write_str s ∷ []) tt
unfolding name read_str
name-Reads s rest = rw (str_eq_refl s)
