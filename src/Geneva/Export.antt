-- ===== src/Geneva/Export.antt =====
-- The exporters of logs and spans
-- (opentelemetry-exporter-geneva/opentelemetry-exporter-geneva/src/logs/exporter.rs and trace/exporter.rs): the
-- encoded batches are uploaded, several at a time.
-- `buffer_unordered` is of the crate futures: `Step` states what its documentation says, as an assumption on
-- that crate. An upload begins while fewer than the limit are in flight, any of those in flight may end
-- next, and each gives one result. What the configuration client gives and what
-- comes of the request is given for each upload.
pub mod Uploading
pub mod Delivered
pub mod Records
pub mod Logs
pub mod Spans
use opentelemetry_rust_contr.Common.{
  ℕ, ◌+◌, ◌*◌, ◌<◌, List, [], ◌∷◌, ◌++◌, map, length, Option, none, some, All, ◌≡◌,
}
use opentelemetry_rust_contr.Common.Text.{Str, codes}
use opentelemetry_rust_contr.Common.Chars.{join}
use opentelemetry_rust_contr.Geneva.Config.{ConfigResult, CachedAuthData}
use opentelemetry_rust_contr.Geneva.Batch.{EncodedBatch, Outcome, ok, err}
use opentelemetry_rust_contr.Geneva.Upload.{UploadLibraries, GenevaUploaderConfig, Post, Sent}
use opentelemetry_rust_contr.Geneva.Upload.Client.{UploadError, upload_error_text, upload_batch}

-- `OTelSdkResult`, with the text of an internal failure.
pub data SdkResult : Type 0 where
  exported : SdkResult
  internal_failure : Str → SdkResult

-- An upload that has ended: its batch, and what it met.
pub record Attempt : Type 0 where
  pub batch : EncodedBatch
  pub unique_id : Str
  pub info : ConfigResult CachedAuthData
  pub send : Post → Sent

-- The stream of uploads: those not begun, those in flight, and those that ended, in that order.
pub record Stream : Type 0 where
  pub pending : List EncodedBatch
  pub in_flight : List EncodedBatch
  pub ended : List Attempt

abbrev pub stream_of : List EncodedBatch → Stream
stream_of batches = record { pending = batches; in_flight = []; ended = [] }

pub data Step (max_concurrent_uploads : ℕ) : Stream → Stream → Type 0 where
  begin :
      (batch : EncodedBatch) (pending in_flight : List EncodedBatch) (ended : List Attempt)
      → length in_flight < max_concurrent_uploads
      → Step max_concurrent_uploads
          (record { pending = batch ∷ pending; in_flight = in_flight; ended = ended })
          (record { pending = pending; in_flight = in_flight ++ batch ∷ []; ended = ended })
  finish :
      (attempt : Attempt) (pending before after : List EncodedBatch) (ended : List Attempt)
      → Step max_concurrent_uploads
          (record { pending = pending; in_flight = before ++ attempt.batch ∷ after; ended = ended })
          (record { pending = pending; in_flight = before ++ after; ended = ended ++ attempt ∷ [] })

-- That many steps from one stream to another.
pub data Steps (max_concurrent_uploads : ℕ) : ℕ → Stream → Stream → Type 0 where
  here : {s : Stream} → Steps max_concurrent_uploads 0 s s
  next :
      {n : ℕ} {s t u : Stream}
      → Steps max_concurrent_uploads n s t
      → Step max_concurrent_uploads t u
      → Steps max_concurrent_uploads (n + 1) s u

module _ (libs : UploadLibraries) (config : GenevaUploaderConfig) where
  unfoldable pub result_of_attempt : Attempt → Option UploadError
  result_of_attempt attempt =
      upload_batch libs config attempt.unique_id attempt.info attempt.send attempt.batch

  -- `filter_map` and `collect`.
  unfoldable pub upload_errors : List Attempt → List Str
  upload_errors [] = []
  upload_errors (attempt ∷ attempts) =
      let more = upload_errors attempts in
      elim (result_of_attempt attempt) [ none ↦ more | some e ↦ upload_error_text e ∷ more ]

  unfoldable pub result_of_errors : List Str → SdkResult
  result_of_errors [] = exported
  result_of_errors (e ∷ errors) =
      internal_failure (codes "Upload failures: " ++ join (codes "; ") (e ∷ errors))

  -- An export with what the encoder gives, and the text of its error: its result, and the uploads. The
  -- exporters of logs and of spans have the same code from there on.
  pub data Export (max_concurrent_uploads : ℕ) (encoded : Outcome (List EncodedBatch))
      : SdkResult → List Attempt → Type 0 where
    encoding_failed :
        (e : Str) → encoded ≡ err → Export max_concurrent_uploads encoded (internal_failure e) []
    uploaded :
        (batches : List EncodedBatch) (n : ℕ) (ended : List Attempt)
        → encoded ≡ ok batches
        → Steps max_concurrent_uploads n
            (stream_of batches)
            (record { pending = []; in_flight = []; ended = ended })
        → Export max_concurrent_uploads encoded (result_of_errors (upload_errors ended)) ended
