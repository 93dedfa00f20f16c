-- ===== src/Geneva/Batch/Lookup.antt =====
-- The accumulator as a map: what lookups see of a change of one batch and of a new batch.
use opentelemetry_rust_contr.Common.{
  [], ◌∷◌, ◌++◌, true, false, ◌≡◌, refl, Option, none, some, inl, inr, if◌then◌else◌, Bool-cases,
  arith,
}
use opentelemetry_rust_contr.Common.Text.{Str, str_eq, str_eq_iff, str_eq_refl}
use opentelemetry_rust_contr.Geneva.Batch.{BatchData, LogBatchAccumulator, contains_key, with_batch}

unfoldable pub lookup : Str → LogBatchAccumulator → Option BatchData
lookup k [] = none
lookup k ((j, b) ∷ acc) = if str_eq j k then some b else lookup k acc

pub lookup-contains_key :
    (k : Str) (acc : LogBatchAccumulator) → contains_key k acc ≡ false → lookup k acc ≡ none
unfolding lookup contains_key
lookup-contains_key k [] h = refl
lookup-contains_key k ((j, b) ∷ acc) h = ground (arith, lookup-contains_key k acc)

pub lookup_there :
    (k : Str) (acc : LogBatchAccumulator)
    → contains_key k acc ≡ true
    → (b : BatchData) × (lookup k acc ≡ some b)
unfolding lookup contains_key
lookup_there k [] h = cc
lookup_there k ((j, b) ∷ acc) h = elim (Bool-cases (str_eq j k)) [
  | inl here ↦ (b, rw here)
  | inr other ↦ let (c, e) = lookup_there k acc (ground arith) in (c, rw other e)
]

pub lookup_added :
    (key : Str) (b : BatchData) (acc : LogBatchAccumulator)
    → contains_key key acc ≡ false
    → lookup key (acc ++ (key, b) ∷ []) ≡ some b
unfolding lookup contains_key
lookup_added key b [] h = rw (str_eq_refl key)
lookup_added key b ((j, c) ∷ acc) h = ground (arith, lookup_added key b acc)

pub lookup_beside :
    (k key : Str) (b : BatchData) (acc : LogBatchAccumulator)
    → str_eq key k ≡ false
    → lookup k (acc ++ (key, b) ∷ []) ≡ lookup k acc
unfolding lookup
lookup_beside k key b [] h = rw h
lookup_beside k key b ((j, c) ∷ acc) h = ground (arith, lookup_beside k key b acc h)

module _ (key : Str) (change : BatchData → Option BatchData) (next : BatchData → BatchData)
    (runs : (b : BatchData) → change b ≡ some (next b)) where
  -- A change of the batch under a key, seen by lookups.
  pub with_batch-lookup :
      (acc : LogBatchAccumulator) (b : BatchData)
      → lookup key acc ≡ some b
      → (after : LogBatchAccumulator) × (with_batch key change acc ≡ some after)
        × (lookup key after ≡ some (next b))
        × ((k : Str) → str_eq key k ≡ false → lookup k after ≡ lookup k acc)
  unfolding with_batch lookup
  with_batch-lookup [] b h = cc
  with_batch-lookup ((j, c) ∷ acc) b h = elim (Bool-cases (str_eq j key)) [
    | inl here ↦
        let same : j ≡ key = (str_eq_iff j key).0 here in
        let this : c ≡ b = ground arith in
        (
          (j, next c) ∷ acc,
          rw (here, with_batch) (rw (runs c)),
          rw here (rw this),
          λ k apart. let miss : str_eq j k ≡ false = rw same apart in rw miss,
        )
    | inr other ↦
        let (after, run, new, old) = with_batch-lookup acc b (ground arith) in
        ((j, c) ∷ after, rw (other, with_batch) (rw run), rw other new, λ k apart. rw (old k apart))
  ]
