-- ===== src/UserEvents/Delivery.antt =====
-- What reaches the kernel: the events that an export writes.
use opentelemetry_rust_contr.Common.{
  ℕ, suc, ◌+◌, ◌-◌, ◌/◌, ◌%◌, ◌^◌, ◌≤◌, ltb, ◌==◌, length, List, [], ◌∷◌, ◌++◌, map, All,
  append-nil, append_assoc, true, false, ◌≡◌, ◌↔◌, ◌⊎◌, refl, sym, ◌∙◌, some, if◌then◌else◌, arith,
  inl, inr, Bool-cases, Option-cases,
}
use opentelemetry_rust_contr.Common.Bytes.{Bytes}
use opentelemetry_rust_contr.UserEvents.{Sdk, ResourceMetrics, Request}
use opentelemetry_rust_contr.UserEvents.Tracepoint.{
  Outside, Event, Log, event_of, max_event_size, write_event_data, encode_and_emit_metric,
}
use opentelemetry_rust_contr.UserEvents.Spec.{point_requests, emit_requests}
use opentelemetry_rust_contr.UserEvents.Export.{
  ExportResult, exported, internal_failure, export_resource_metrics, export_all,
}
use opentelemetry_rust_contr.UserEvents.Refinement.{export_resource_metrics-point_requests}

-- An event whose buffer is within the limit, with a location from which a reader gets its size.
abbrev pub Readable : Event × ℕ → Type 0
Readable (event, code) =
    (length event.buffer ≤ max_event_size)
    × (event.buffer_rel_loc / 2 ^ 16 ≡ length event.buffer)
    × (event.buffer_rel_loc % 2 ^ 16 ≡ 0)

event_of-Readable :
    (buffer : Bytes) (code : ℕ) → length buffer ≤ max_event_size → Readable (event_of buffer, code)
unfolding event_of
event_of-Readable buffer code h =
    let whole : length buffer % 2 ^ 32 ≡ length buffer = omega arith in
    (h, rw (whole) (omega arith), rw (whole) (omega arith))

-- The number of events that the kernel took.
abbrev pub accepted : Log → ℕ
accepted [] = 0
accepted ((event, code) ∷ log) = if code == 0 then suc (accepted log) else accepted log

module _ {sdk : Sdk} (outside : Outside sdk) where
  -- One request: no event, or an event that holds its encoding.
  pub emit-cases :
      (request : Request sdk) (log : Log)
      → let (done, (bytes, after)) = encode_and_emit_metric outside request [] log in
        ((done ≡ false) × (after ≡ log))
        ⊎ ((encoded : Bytes) × (outside.prost_encode request ≡ some encoded)
            × (length encoded ≤ max_event_size)
            × (done ≡ (outside.answer log (event_of encoded) == 0))
            × (after ≡ log ++ (event_of encoded, outside.answer log (event_of encoded)) ∷ []))
  unfolding encode_and_emit_metric write_event_data
  emit-cases request log = elim (Option-cases (outside.prost_encode request)) [
    | inl e ↦ inl (rw (e, encode_and_emit_metric) refl, rw (e, encode_and_emit_metric) refl)
    | inr (encoded, e) ↦ elim (Bool-cases (ltb max_event_size (length encoded))) [
      | inl long ↦
          inl (rw (e, encode_and_emit_metric, long) refl, rw (e, encode_and_emit_metric, long) refl)
      | inr short ↦
          let fits : length encoded ≤ max_event_size = ground arith in
          let small : ltb (2 ^ 16 - 1) (length encoded) ≡ false = ground arith in
          inr (
            encoded,
            e,
            fits,
            rw (e, encode_and_emit_metric, short, write_event_data, small) refl,
            rw (e, encode_and_emit_metric, short, write_event_data, small) refl,
          )
    ]
  ]

  -- The events that a list of requests leaves, and what is known of them.
  abbrev Emitted : List (Request sdk) → Log → ℕ × Log → Type 0
  Emitted requests log (failures, after) =
      (new : Log) × (after ≡ log ++ new)
      × All Readable new
      × (failures + accepted new ≡ length requests)
      × (failures ≡ 0
          → (map (λ entry. some entry.0.buffer) new ≡ map outside.prost_encode requests)
            × All (λ entry. entry.1 ≡ 0) new)

  Emitted-failed :
      (request : Request sdk) (requests : List (Request sdk)) (log : Log) (rest : ℕ × Log)
      → Emitted requests log rest
      → Emitted (request ∷ requests) log (suc rest.0, rest.1)
  Emitted-failed request requests log rest (new, more, readable, count, sent) =
      (new, more, readable, omega arith, λ none_failed. absurd (omega arith))

  Emitted-written :
      (request : Request sdk) (requests : List (Request sdk)) (log : Log) (rest : ℕ × Log)
      (encoded : Bytes) (code : ℕ)
      → outside.prost_encode request ≡ some encoded
      → length encoded ≤ max_event_size
      → Emitted requests (log ++ (event_of encoded, code) ∷ []) rest
      → Emitted (request ∷ requests) log ((if code == 0 then rest.0 else suc rest.0), rest.1)
  unfolding event_of
  Emitted-written request requests log rest encoded code e fits (new, more, readable, count, sent) =
      (
        (event_of encoded, code) ∷ new,
        more ∙ append_assoc log ((event_of encoded, code) ∷ []) new,
        (event_of-Readable encoded code fits, readable),
        ground arith,
        λ none_failed.
            let taken : code ≡ 0 = ground arith in
            let (same, accepted_all) = sent (ground arith) in
            (rw (e, same) refl, (taken, accepted_all)),
      )

  pub emit_requests-Emitted :
      (requests : List (Request sdk)) (log : Log)
      → Emitted requests log (emit_requests outside requests log)
  unfolding emit_requests
  emit_requests-Emitted [] log = ([], sym (append-nil log), tt, refl, λ none_failed. (refl, tt))
  emit_requests-Emitted (request ∷ requests) log = elim (emit-cases request log) [
    | inl (failed, same) ↦
        rw (failed, same)
          (Emitted-failed request requests log _ (emit_requests-Emitted requests log))
    | inr (encoded, e, fits, done, after) ↦
        rw (done, after)
          (Emitted-written request requests log _ encoded _ e fits
            (emit_requests-Emitted requests _))
  ]

  -- An export that returns Ok with the tracepoint enabled has written one event for every data
  -- point, in order, with the encoding of its request in the buffer, and the kernel took them all.
  pub export_all-delivers :
      (resource_metrics : ResourceMetrics sdk) (log after : Log)
      → export_all outside true resource_metrics log ≡ some (exported, after)
      → (new : Log) × (after ≡ log ++ new)
        × (map (λ entry. some entry.0.buffer) new
            ≡ map outside.prost_encode (point_requests resource_metrics))
        × All (λ entry. entry.1 ≡ 0) new
  unfolding export_all
  export_all-delivers resource_metrics log after h =
      let whole = export_resource_metrics-point_requests outside resource_metrics log in
      let (new, more, readable, count, sent) =
        emit_requests-Emitted (point_requests resource_metrics) log in
      let none_failed : (emit_requests outside (point_requests resource_metrics) log).0 ≡ 0 =
        ground arith in
      let same : (emit_requests outside (point_requests resource_metrics) log).1 ≡ after =
        ground arith in
      let (buffers, taken) = sent none_failed in (new, rw (← same) more, buffers, taken)

  -- An export never panics. Every event that it writes is within the limit and a reader can get
  -- the buffer's size from its location, and the export returns Ok exactly where the kernel took
  -- as many events as there are data points.
  pub export_resource_metrics-Readable :
      (resource_metrics : ResourceMetrics sdk) (log : Log)
      → (result : ExportResult) × (new : Log) × (export_resource_metrics outside resource_metrics
            log
          ≡ some (result, log ++ new))
        × All Readable new
        × ((result ≡ exported) ↔ (accepted new ≡ length (point_requests resource_metrics)))
  export_resource_metrics-Readable resource_metrics log =
      let whole = export_resource_metrics-point_requests outside resource_metrics log in
      let (new, more, readable, count, sent) =
        emit_requests-Emitted (point_requests resource_metrics) log in
      let failures = (emit_requests outside (point_requests resource_metrics) log).0 in
      (
        if ltb 0 failures then internal_failure else exported,
        new,
        whole ∙ rw (more) refl,
        readable,
        (λ done. ground arith, λ all_taken. ground arith),
      )
