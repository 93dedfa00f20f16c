-- ===== src/UserLogs/Reader.antt =====
-- A reader of the calls of a builder. A struct's fields are as many as its count says, so the count that is set
-- has to be that of the fields which were added since the struct was begun.
use opentelemetry_rust_contr.Common.{
  ℕ, suc, ◌%◌, ◌^◌, ◌<◌, ◌==◌, List, [], ◌∷◌, ◌++◌, map, length, append-nil, append_assoc, ◌&&◌,
  ◌≡◌, refl, Option, none, some, if◌then◌else◌, ==-refl, arith,
}
use mathlib.Core.Option
use opentelemetry_rust_contr.Common.Text.{Str}
use opentelemetry_rust_contr.UserLogs.{Field, Call, add, add_struct, set_struct_field_count}

pub data Part : Type 0 where
  single : Field → Part
  struct : Str → List Field → Part

-- With the number of the structs that were begun, and the one that is open.
unfoldable pub read_calls : ℕ → Option (Str × List Field) → List Call → Option (List Part)
read_calls n none [] = some []
read_calls n (some (name, fields)) [] = none
read_calls n none (add field ∷ calls) =
    Option.map (λ parts. single field ∷ parts) (read_calls n none calls)
read_calls n (some (name, fields)) (add field ∷ calls) =
    read_calls n (some (name, fields ++ field ∷ [])) calls
read_calls n none (add_struct name field_count ∷ calls) = read_calls (suc n) (some (name, [])) calls
read_calls n (some open_struct) (add_struct name field_count ∷ calls) = none
read_calls n none (set_struct_field_count bookmark field_count ∷ calls) = none
read_calls n (some (name, fields)) (set_struct_field_count bookmark field_count ∷ calls) =
    let parts = read_calls n none calls in
    if (suc bookmark == n) && (field_count == length fields)
    then Option.map (λ rest. struct name fields ∷ rest) parts
    else none

-- The calls for a struct.
abbrev pub struct_calls : ℕ → Str → ℕ → List Field → List Call
struct_calls bookmark name initial fields =
    add_struct name initial
    ∷ (map add fields ++ set_struct_field_count bookmark (length fields % 2 ^ 8) ∷ [])

read_calls-fields :
    (n : ℕ) (name : Str) (before fields : List Field) (rest : List Call)
    → read_calls n (some (name, before)) (map add fields ++ rest)
      ≡ read_calls n (some (name, before ++ fields)) rest
unfolding read_calls
read_calls-fields n name before [] rest = rw (append-nil before)
read_calls-fields n name before (field ∷ fields) rest = rw (
  read_calls-fields n name (before ++ field ∷ []) fields rest,
  append_assoc before (field ∷ []) fields,
)

pub read_calls-struct_calls :
    (n : ℕ) (name : Str) (initial : ℕ) (fields : List Field) (rest : List Call)
    → length fields < 2 ^ 7
    → read_calls n none (struct_calls n name initial fields ++ rest)
      ≡ Option.map (λ parts. struct name fields ∷ parts) (read_calls (suc n) none rest)
unfolding read_calls
read_calls-struct_calls n name initial fields rest small =
    let whole : length fields % 2 ^ 8 ≡ length fields = omega arith in
    rw (whole, append_assoc (map add fields) (set_struct_field_count n (length fields) ∷ []) rest)
      (rw
        (
          read_calls-fields (suc n) name [] fields
              (set_struct_field_count n (length fields) ∷ rest),
          ==-refl (suc n),
          ==-refl (length fields),
        )
        refl)
