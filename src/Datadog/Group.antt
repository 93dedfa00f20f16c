-- ===== src/Datadog/Group.antt =====
-- The grouping of spans into traces (opentelemetry-datadog/src/exporter/mod.rs).
pub mod Sorted
use opentelemetry_rust_contr.Common.{
  ℕ, suc, ◌-◌, ◌==◌, List, [], ◌∷◌, ◌++◌, Bool, true, false, not, take, drop, if◌then◌else◌,
}

-- The state of the loop: the traces so far, the start of the current one and its id.
pub record Grouping (Span : Type 0) : Type 0 where
  pub traces : List (List Span)
  pub start : ℕ
  pub start_trace_id : ℕ

-- `spans[start..stop]`.
unfoldable pub slice : {A : Type 0} → ℕ → ℕ → List A → List A
slice start stop spans = take (stop - start) (drop start spans)

-- `trace_id` is the number of the id's bytes, by which the spans are sorted and compared.
module _ {Span : Type 0} (trace_id : Span → ℕ) where
  -- One turn of the loop, at the span `span` of the index `idx`.
  unfoldable pub turn : List Span → ℕ → Span → Grouping Span → Grouping Span
  turn spans idx span state = if state.start_trace_id == trace_id span then state else record {
    traces = state.traces ++ slice state.start idx spans ∷ [];
    start = idx;
    start_trace_id = trace_id span;
  }

  unfoldable pub turns : List Span → ℕ → List Span → Grouping Span → Grouping Span
  turns spans idx [] state = state
  turns spans idx (span ∷ later) state = turns spans (suc idx) later (turn spans idx span state)

  -- After the sort.
  unfoldable pub group_sorted : List Span → List (List Span)
  group_sorted [] = []
  group_sorted (first ∷ later) =
      let spans = first ∷ later in
      let state =
        turns spans 0 spans (record { traces = []; start = 0; start_trace_id = trace_id first }) in
      state.traces ++ drop state.start spans ∷ []

  -- `sort` is `sort_unstable_by_key` by the trace id.
  unfoldable pub group_into_traces : (List Span → List Span) → List Span → List (List Span)
  group_into_traces sort [] = []
  group_into_traces sort (first ∷ later) = group_sorted (sort (first ∷ later))
