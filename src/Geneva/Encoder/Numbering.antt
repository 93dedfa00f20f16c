-- ===== src/Geneva/Encoder/Numbering.antt =====
-- The numbering of schema fields and ids in hex: the facts that logs and spans share.
use opentelemetry_rust_contr.Common.{
  ℕ, zero, suc, ◌+◌, ◌<◌, List, [], ◌∷◌, ◌++◌, ◌≡◌, refl, ap, some, inl, inr, length, take,
  replicate, All, map, Option-cases, arith,
}
use mathlib.Core.Path.{subst}
use opentelemetry_rust_contr.Common.Bytes.{Bytes}
use opentelemetry_rust_contr.Common.Text.{Str, from_utf8, from_utf8_ascii}
use opentelemetry_rust_contr.Geneva.Bond.{BondDataType, FieldDef}
use opentelemetry_rust_contr.Geneva.Value.{field_type}
use opentelemetry_rust_contr.Geneva.Encoder.{Libraries, number_fields, encode_id_to_hex}

pub field_type-number_fields :
    (i : ℕ) (fs : List (Str × BondDataType)) → map field_type (number_fields i fs) ≡ fs
unfolding number_fields
field_type-number_fields i [] = refl
field_type-number_fields i ((name, type_id) ∷ fs) =
    ap (λ t. (name, type_id) ∷ t) (field_type-number_fields (i + 1) fs)

-- `hex::encode_to_slice` writes ASCII.
abbrev pub HexIsAscii : Libraries → Type 0
HexIsAscii libs =
    (id : Bytes) (n : ℕ) (s : Bytes) → libs.encode_to_slice id n ≡ some s → All (λ b. b < 128) s

zeros_ascii : (n : ℕ) → All (λ b. b < 128) (replicate {A = ℕ} n 0)
zeros_ascii zero = tt
zeros_ascii (suc n) = (omega arith, zeros_ascii n)

pub encode_id_to_hex-utf8 :
    (libs : Libraries) (n : ℕ) (id : Bytes)
    → HexIsAscii libs
    → from_utf8 (encode_id_to_hex libs n id) ≡ some (encode_id_to_hex libs n id)
encode_id_to_hex-utf8 libs n id ascii = elim (Option-cases (libs.encode_to_slice id n)) [
  | inl e ↦
      unfold encode_id_to_hex in
      rw (e, encode_id_to_hex) (from_utf8_ascii (replicate n 0) (zeros_ascii n))
  | inr (s, e) ↦
      unfold encode_id_to_hex in rw (e, encode_id_to_hex) (from_utf8_ascii s (ascii id n s e))
]

pub length-number_fields :
    (k : ℕ) (fs : List (Str × BondDataType)) → length (number_fields k fs) ≡ length fs
unfolding number_fields
length-number_fields k [] = refl
length-number_fields k ((name, t) ∷ fs) = ap suc (length-number_fields (k + 1) fs)

pub number_fields-append :
    (k : ℕ) (fs gs : List (Str × BondDataType))
    → number_fields k (fs ++ gs) ≡ number_fields k fs ++ number_fields (k + length fs) gs
unfolding number_fields
number_fields-append k [] gs = let e : k + 0 ≡ k = omega arith in rw e
number_fields-append k ((name, t) ∷ fs) gs =
    let e : k + suc (length fs) ≡ k + 1 + length fs = omega arith in
    rw (e, number_fields-append (k + 1) fs gs)

pub take_front : (n : ℕ) (fs gs : List FieldDef) → length fs ≡ n → take n (fs ++ gs) ≡ fs
take_front n fs gs e = subst (λ m. take m (fs ++ gs) ≡ fs) e (go fs)
  where
    go : (hs : List FieldDef) → take (length hs) (hs ++ gs) ≡ hs
    go [] = refl
    go (h ∷ hs) = ap (λ t. h ∷ t) (go hs)
