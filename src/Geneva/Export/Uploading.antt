-- ===== src/Geneva/Export/Uploading.antt =====
-- Every batch is pending, in flight or has ended once, at every step.
use opentelemetry_rust_contr.Common.{
  ℕ, List, [], ◌∷◌, ◌++◌, map, append_assoc, append-nil, ◌≡◌, refl, ap,
}
use mathlib.Core.List.{Perm, perm_middle}
use mathlib.Core.List.Perm
use opentelemetry_rust_contr.Geneva.Batch.{EncodedBatch}
use opentelemetry_rust_contr.Geneva.Export.{Attempt, Stream, Step, begin, finish, Steps, here, next}

abbrev pub batches_of : List Attempt → List EncodedBatch
batches_of attempts = map (λ attempt. attempt.batch) attempts

-- The batches of a stream, wherever they are.
abbrev pub all_of : Stream → List EncodedBatch
all_of s = s.pending ++ (s.in_flight ++ batches_of s.ended)

batches_of-append : (xs ys : List Attempt) → batches_of (xs ++ ys) ≡ batches_of xs ++ batches_of ys
batches_of-append [] ys = refl
batches_of-append (x ∷ xs) ys = ap (λ rest. x.batch ∷ rest) (batches_of-append xs ys)

Step-all_of : {m : ℕ} {s t : Stream} → Step m s t → Perm (all_of t) (all_of s)
Step-all_of (begin batch pending in_flight ended h) =
    rw (append_assoc in_flight (batch ∷ []) (batches_of ended)) (
      Perm.trans (Perm.append_left pending (perm_middle in_flight (batches_of ended)))
        (perm_middle pending (in_flight ++ batches_of ended)))
Step-all_of (finish attempt pending before after ended) = Perm.append_left pending (
    rw
      (
        batches_of-append ended (attempt ∷ []),
        ← append_assoc (before ++ after) (batches_of ended) (attempt.batch ∷ []),
      )
      (Perm.trans (perm_middle ((before ++ after) ++ batches_of ended) []) (
        rw (append-nil)
          (Perm.symm (Perm.append_right (batches_of ended) (perm_middle before after))))))

pub Steps-all_of : {m n : ℕ} {s t : Stream} → Steps m n s t → Perm (all_of t) (all_of s)
Steps-all_of here = Perm.rfl
Steps-all_of (next steps step) = Perm.trans (Step-all_of step) (Steps-all_of steps)
