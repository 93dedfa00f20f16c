-- ===== src/Datadog/Group/Sorted.antt =====
-- What the grouping of sorted spans gives.
use opentelemetry_rust_contr.Common.{
  ℕ, suc, ◌+◌, ◌-◌, ◌<◌, ◌≤◌, ◌==◌, List, [], ◌∷◌, ◌++◌, append_assoc, append-nil, ◌≡◌, refl, sym,
  ap, ◌∙◌, true, false, drop, take_append, drop_append, length, length-append, All, All-append,
  Bool-cases, ==_iff, ==-refl, inl, inr, arith,
}
use mathlib.Core.List.{Perm}
use mathlib.Core.List.Perm
use opentelemetry_rust_contr.Datadog.Group.{
  Grouping, slice, turn, turns, group_sorted, group_into_traces,
}

unfoldable pub flatten : {A : Type 0} → List (List A) → List A
flatten [] = []
flatten (xs ∷ xss) = xs ++ flatten xss

module _ {Span : Type 0} (trace_id : Span → ℕ) where
  -- The groups, without indices: `current` is the group that is being made, of the id `id`.
  unfoldable pub runs : ℕ → List Span → List Span → List (List Span)
  runs id current [] = current ∷ []
  runs id current (span ∷ later) = elim (id == trace_id span) [
    | true ↦ runs id (current ++ span ∷ []) later
    | false ↦ current ∷ runs (trace_id span) (span ∷ []) later
  ]

  slice_lem :
      (done current later : List Span)
      → slice (length done) (length done + length current) (done ++ (current ++ later)) ≡ current
  unfolding slice
  slice_lem done current later =
      let n : length done + length current - length done ≡ length current = omega arith in
      rw (n, drop_append done (current ++ later)) (take_append current later)

  finish : List Span → Grouping Span → List (List Span)
  finish spans state = state.traces ++ drop state.start spans ∷ []

  -- The loop, at a state that has made the groups of `done`.
  turns-runs :
      (groups : List (List Span)) (id : ℕ) (spans done current later : List Span) (idx from : ℕ)
      → done ++ (current ++ later) ≡ spans
      → from ≡ length done
      → idx ≡ length done + length current
      → finish spans (
          turns trace_id spans idx later
            (record { traces = groups; start = from; start_trace_id = id }))
        ≡ groups ++ runs id current later
  unfolding turns turn runs finish
  turns-runs groups id spans done current [] idx from e f g =
      rw (f, ← e) (rw (drop_append done (current ++ [])) (rw (append-nil current)))
  turns-runs groups id spans done current (span ∷ later) idx from e f g =
      elim (Bool-cases (id == trace_id span)) [
        | inl same ↦
            let ih =
              turns-runs groups id spans done (current ++ span ∷ []) later (suc idx) from
                (ap (λ x. done ++ x) (append_assoc current (span ∷ []) later) ∙ e) f
                (omega (arith, length-append current (span ∷ []))) in
            rw (same, turns, turn, runs) ih
        | inr differs ↦
            let cut : slice from idx spans ≡ current =
              rw (f, g, ← e) (slice_lem done current (span ∷ later)) in
            let ih =
              turns-runs (groups ++ current ∷ []) (trace_id span) spans (done ++ current)
                (span ∷ []) later (suc idx) idx (append_assoc done current (span ∷ later) ∙ e)
                (omega (arith, length-append done current))
                (omega (arith, length-append done current)) in
            rw (differs, turns, turn, runs)
              (rw cut
                (ih ∙ append_assoc groups (current ∷ []) (runs (trace_id span) (span ∷ []) later)))
      ]

  flatten-runs :
      (id : ℕ) (current later : List Span) → flatten (runs id current later) ≡ current ++ later
  unfolding flatten runs
  flatten-runs id current [] = refl
  flatten-runs id current (span ∷ later) = elim (Bool-cases (id == trace_id span)) [
    | inl same ↦
        rw (same, runs)
          (flatten-runs id (current ++ span ∷ []) later ∙ append_assoc current (span ∷ []) later)
    | inr differs ↦
        rw (differs, runs) (ap (λ x. current ++ x) (flatten-runs (trace_id span) (span ∷ []) later))
  ]

  -- A trace: spans of one id, at least one.
  abbrev pub IsTrace : List Span → Type 0
  IsTrace group = (id : ℕ) × All (λ span. trace_id span ≡ id) group × (0 < length group)

  runs-IsTrace :
      (id : ℕ) (current later : List Span)
      → All (λ span. trace_id span ≡ id) current
      → 0 < length current
      → All IsTrace (runs id current later)
  unfolding runs
  runs-IsTrace id current [] h pos = ((id, h, pos), tt)
  runs-IsTrace id current (span ∷ later) h pos = elim (Bool-cases (id == trace_id span)) [
    | inl same ↦
        let e : trace_id span ≡ id = sym ((==_iff id (trace_id span)).0 same) in
        rw (same, runs)
          (runs-IsTrace id (current ++ span ∷ []) later
            (All-append (λ s. trace_id s ≡ id) current (span ∷ []) h (e, tt))
            (omega (arith, length-append current (span ∷ []))))
    | inr differs ↦
        rw (differs, runs)
          ((id, h, pos), runs-IsTrace (trace_id span) (span ∷ []) later (refl, tt) (omega arith))
  ]

  runs-All :
      (P : Span → Type 0) (id : ℕ) (current later : List Span)
      → All P current
      → All P later
      → All (All P) (runs id current later)
  unfolding runs
  runs-All P id current [] h h' = (h, tt)
  runs-All P id current (span ∷ later) h h' = elim (Bool-cases (id == trace_id span)) [
    | inl same ↦
        rw (same, runs)
          (runs-All P id (current ++ span ∷ []) later
            (All-append P current (span ∷ []) h (h'.0, tt)) h'.1)
    | inr differs ↦
        rw (differs, runs) (h, runs-All P (trace_id span) (span ∷ []) later (h'.0, tt) h'.1)
  ]

  abbrev pub Sorted : List Span → Type 0
  Sorted [] = Unit {0}
  Sorted (span ∷ later) = All (λ t. trace_id span ≤ trace_id t) later × Sorted later

  -- Every trace has smaller ids than all later ones, so that no id is in two of them.
  abbrev pub Apart : List (List Span) → Type 0
  Apart [] = Unit {0}
  Apart (group ∷ groups) =
      All (λ s. All (All (λ t. trace_id s < trace_id t)) groups) group × Apart groups

  All-map :
      {A : Type 0} {P Q : A → Type 0} (xs : List A) → ((x : A) → P x → Q x) → All P xs → All Q xs
  All-map [] f h = tt
  All-map (x ∷ xs) f h = (f x h.0, All-map xs f h.1)

  runs-Apart :
      (id : ℕ) (current later : List Span)
      → All (λ span. trace_id span ≡ id) current
      → All (λ span. id ≤ trace_id span) later
      → Sorted later
      → Apart (runs id current later)
  unfolding runs
  runs-Apart id current [] h low sorted = (All-map current (λ s e. tt) h, tt)
  runs-Apart id current (span ∷ later) h low sorted = elim (Bool-cases (id == trace_id span)) [
    | inl same ↦
        let e : trace_id span ≡ id = sym ((==_iff id (trace_id span)).0 same) in
        rw (same, runs)
          (runs-Apart id (current ++ span ∷ []) later
            (All-append (λ s. trace_id s ≡ id) current (span ∷ []) h (e, tt)) low.1 sorted.1)
    | inr differs ↦
        let above : id < trace_id span = ground (arith, low.0) in
        rw (differs, runs)
          (
            All-map current
                (λ s (e : trace_id s ≡ id).
                  runs-All (λ t. trace_id s < trace_id t) (trace_id span) (span ∷ []) later
                    (omega arith, tt)
                    (All-map later (λ t (le : trace_id span ≤ trace_id t). omega arith) sorted.0))
                h,
            runs-Apart (trace_id span) (span ∷ []) later (refl, tt) sorted.0 sorted.1,
          )
  ]

  group_sorted-runs :
      (first : Span) (later : List Span)
      → group_sorted trace_id (first ∷ later) ≡ runs (trace_id first) (first ∷ []) later
  unfolding group_sorted finish runs
  group_sorted-runs first later =
      turns-runs [] (trace_id first) (first ∷ later) [] [] (first ∷ later) 0 0 refl refl refl
      ∙ rw (==-refl (trace_id first), runs)

  -- The traces of spans: the spans themselves, in some order, of one id each, and no id twice.
  pub record TracesOf (spans : List Span) (groups : List (List Span)) : Type 0 where
    pub whole : Perm (flatten groups) spans
    pub traces : All IsTrace groups
    pub apart : Apart groups

  group_sorted-TracesOf :
      (sorted spans : List Span)
      → Perm sorted spans
      → Sorted sorted
      → TracesOf spans (group_sorted trace_id sorted)
  unfolding flatten group_sorted
  group_sorted-TracesOf [] spans p s = record { whole = p; traces = tt; apart = tt }
  group_sorted-TracesOf (first ∷ later) spans p s = rw (group_sorted-runs first later) (record {
    whole = rw (flatten-runs (trace_id first) (first ∷ []) later) p;
    traces = runs-IsTrace (trace_id first) (first ∷ []) later (refl, tt) (omega arith);
    apart = runs-Apart (trace_id first) (first ∷ []) later (refl, tt) s.0 s.1;
  })

  -- Where the sort gives the spans in an order of their trace ids, they are grouped into traces:
  -- every span is in one of them, each trace has a span and one id, and no two traces have the
  -- same id.
  pub group_into_traces-TracesOf :
      (sort : List Span → List Span) (spans : List Span)
      → Perm (sort spans) spans
      → Sorted (sort spans)
      → TracesOf spans (group_into_traces trace_id sort spans)
  unfolding group_into_traces flatten
  group_into_traces-TracesOf sort [] p s = record { whole = Perm.refl []; traces = tt; apart = tt }
  group_into_traces-TracesOf sort (first ∷ later) p s =
      group_sorted-TracesOf (sort (first ∷ later)) (first ∷ later) p s
