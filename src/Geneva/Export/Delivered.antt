-- ===== src/Geneva/Export/Delivered.antt =====
-- What the result of an export says of its batches.
use opentelemetry_rust_contr.Common.{
  ℕ, List, [], ◌∷◌, All, ◌≡◌, ◌↔◌, refl, none, Option-cases, inl, inr, arith, append-nil,
}
use mathlib.Core.List.{Perm}
use opentelemetry_rust_contr.Geneva.Config.{okay, CachedAuthData}
use opentelemetry_rust_contr.Geneva.Batch.{EncodedBatch, Outcome, ok}
use opentelemetry_rust_contr.Geneva.Upload.{UploadLibraries, GenevaUploaderConfig, post_of}
use opentelemetry_rust_contr.Geneva.Upload.Reported.{IsAccepted, upload_batch-answer}
use opentelemetry_rust_contr.Geneva.Export.{
  SdkResult, exported, Attempt, result_of_attempt, upload_errors, result_of_errors, Export,
  encoding_failed, uploaded,
}
use opentelemetry_rust_contr.Geneva.Export.Uploading.{batches_of, Steps-all_of}

module _ (libs : UploadLibraries) (config : GenevaUploaderConfig) where
  -- The gateway took the batch of an attempt: it answered its request with 202.
  abbrev pub IsTaken : Attempt → Type 0
  IsTaken attempt =
      (info : CachedAuthData) × (attempt.info ≡ okay info)
      × IsAccepted libs (
          attempt.send (
            post_of libs config attempt.unique_id info attempt.batch.data_bytes
              attempt.batch.event_name attempt.batch.metadata attempt.batch.row_count))

  IsTaken-iff :
      (attempt : Attempt) → (result_of_attempt libs config attempt ≡ none) ↔ IsTaken attempt
  unfolding result_of_attempt
  IsTaken-iff attempt =
      (upload_batch-answer libs config attempt.unique_id attempt.info attempt.send attempt.batch 0
        none []).0

  exported_iff :
      (ended : List Attempt)
      → (result_of_errors libs config (upload_errors libs config ended) ≡ exported)
        ↔ All IsTaken ended
  unfolding result_of_errors upload_errors
  exported_iff [] = (λ h. tt, λ h. refl)
  exported_iff (attempt ∷ ended) = elim (Option-cases (result_of_attempt libs config attempt)) [
    | inl taken ↦
        rw (taken, upload_errors)
          (
            λ h. ((IsTaken-iff attempt).0 taken, (exported_iff ended).0 h),
            λ h. (exported_iff ended).1 h.1,
          )
    | inr (e, failed) ↦
        rw (failed, upload_errors)
          (
            λ h. absurd (ground arith),
            λ h.
                let succeeded : result_of_attempt libs config attempt ≡ none =
                  (IsTaken-iff attempt).1 h.0 in
                absurd (ground arith),
          )
  ]

  -- When an export ends, each batch of the encoder has been uploaded exactly once, and the export
  -- returns Ok exactly where the gateway took every one of them; whatever the order in which they
  -- ended.
  pub Export-delivered :
      (m : ℕ) (encoded : Outcome (List EncodedBatch)) (result : SdkResult) (ended : List Attempt)
      (batches : List EncodedBatch)
      → Export libs config m encoded result ended
      → encoded ≡ ok batches
      → Perm (batches_of ended) batches × ((result ≡ exported) ↔ All IsTaken ended)
  Export-delivered m encoded result ended batches (encoding_failed e failed) h =
      absurd (ground arith)
  Export-delivered m encoded result ended batches (uploaded given n _ e steps) h =
      let same : given ≡ batches = ground arith in
      (rw (← same) (rw (append-nil given) at (Steps-all_of steps)), exported_iff ended)
