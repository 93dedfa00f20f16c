-- ===== src/Geneva/Upload/Reported.antt =====
-- What a caller of `upload_batch` may conclude from its result.
use opentelemetry_rust_contr.Common.{
  ℕ, ◌==◌, ◌≡◌, ◌≢◌, ◌↔◌, ◌⊎◌, refl, inl, inr, false, Option, none, some, arith,
}
use opentelemetry_rust_contr.Common.Text.{Str}
use opentelemetry_rust_contr.Geneva.Config.{ConfigResult, okay, fail, CachedAuthData}
use opentelemetry_rust_contr.Geneva.Batch.{EncodedBatch}
use opentelemetry_rust_contr.Geneva.Upload.{
  UploadLibraries, GenevaUploaderConfig, GenevaUploaderError, http, serde_json, config_client,
  internal_error, upload_failed, IngestionResponse, Post, Sent, send_failed, answered,
  from_reqwest_error, read_answer, retry_after_of, post_of, upload,
}
use opentelemetry_rust_contr.Geneva.Upload.Client.{
  http_status, upload_error_of, result_of, upload_batch,
}

module _ (libs : UploadLibraries) where
  -- What an answer is worth, by the answer alone.
  unfoldable pub IsAccepted : Sent → Type 0
  IsAccepted sent =
      (retry_after : Option Str) × (body : Str) × (response : IngestionResponse) × (sent
        ≡ answered 202 retry_after (inl body))
      × (libs.response_from_str body ≡ inl response)

  unfoldable pub IsRefused : Sent → ℕ → Option ℕ → Str → Type 0
  IsRefused sent status delay message =
      (retry_after : Option Str) × (sent ≡ answered status retry_after (inl message))
      × (status ≢ 202)
      × (delay ≡ retry_after_of libs retry_after)

  read_answer-IsAccepted :
      (sent : Sent) (response : IngestionResponse)
      → read_answer libs sent ≡ inl response
      → IsAccepted sent
  unfolding read_answer IsAccepted
  read_answer-IsAccepted (send_failed err) response h = absurd (ground arith)
  read_answer-IsAccepted (answered status retry_after (inr err)) response h = absurd (ground arith)
  read_answer-IsAccepted (answered status retry_after (inl body)) response h =
      let is_accepted : status ≡ 202 = ground arith in
      let parsed : libs.response_from_str body ≡ inl response = ground arith in
      (retry_after, body, response, rw (is_accepted) refl, parsed)

  read_answer-IsRefused :
      (sent : Sent) (status : ℕ) (delay : Option ℕ) (message : Str)
      → read_answer libs sent ≡ inr (upload_failed status delay message)
      → IsRefused sent status delay message
  unfolding read_answer from_reqwest_error IsRefused
  read_answer-IsRefused (send_failed err) status delay message h = absurd (ground arith)
  read_answer-IsRefused (answered s retry_after (inr err)) status delay message h =
      absurd (ground arith)
  read_answer-IsRefused (answered s retry_after (inl body)) status delay message h =
      (retry_after, ground arith, ground arith, ground arith)

  IsAccepted-read_answer :
      (sent : Sent)
      → IsAccepted sent
      → (response : IngestionResponse) × (read_answer libs sent ≡ inl response)
  unfolding read_answer IsAccepted
  IsAccepted-read_answer sent (retry_after, body, response, e, parsed) =
      (response, rw (e, read_answer, parsed) refl)

  IsRefused-read_answer :
      (sent : Sent) (status : ℕ) (delay : Option ℕ) (message : Str)
      → IsRefused sent status delay message
      → read_answer libs sent ≡ inr (upload_failed status delay message)
  unfolding read_answer IsRefused
  IsRefused-read_answer sent status delay message (retry_after, e, not_accepted, same) =
      let miss : (status == 202) ≡ false = ground arith in rw (e, read_answer, miss, same) refl

  result_of-none :
      (r : IngestionResponse ⊎ GenevaUploaderError)
      → result_of r ≡ none
      → (response : IngestionResponse) × (r ≡ inl response)
  unfolding result_of
  result_of-none (inl response) h = (response, refl)
  result_of-none (inr e) h = absurd (ground arith)

  result_of-http_status :
      (r : IngestionResponse ⊎ GenevaUploaderError) (status : ℕ) (delay : Option ℕ) (message : Str)
      → result_of r ≡ some (http_status status delay message)
      → r ≡ inr (upload_failed status delay message)
  unfolding result_of upload_error_of
  result_of-http_status (inl response) status delay message h = absurd (ground arith)
  result_of-http_status (inr (http msg)) status delay message h = absurd (ground arith)
  result_of-http_status (inr (serde_json msg)) status delay message h = absurd (ground arith)
  result_of-http_status (inr (config_client msg)) status delay message h = absurd (ground arith)
  result_of-http_status (inr (internal_error msg)) status delay message h = absurd (ground arith)
  result_of-http_status (inr (upload_failed s d m)) status delay message h = ground arith

  -- `upload_batch` returns Ok exactly where the gateway's data was got and it answered the request
  -- with 202 and a body that can be parsed, and HttpStatus with a status, delay and message
  -- exactly where the gateway answered so, with another status than 202.
  pub upload_batch-answer :
      (config : GenevaUploaderConfig) (source_unique_id : Str) (info : ConfigResult CachedAuthData)
      (send : Post → Sent) (batch : EncodedBatch) (status : ℕ) (delay : Option ℕ) (message : Str)
      → let result = upload_batch libs config source_unique_id info send batch in
        let answer : CachedAuthData → Sent = λ data'. send (
          post_of libs config source_unique_id data' batch.data_bytes batch.event_name
            batch.metadata batch.row_count) in
        ((result ≡ none)
          ↔ ((data' : CachedAuthData) × (info ≡ okay data') × IsAccepted (answer data')))
        × ((result ≡ some (http_status status delay message)) ↔ (
            (data' : CachedAuthData) × (info ≡ okay data')
            × IsRefused (answer data') status delay message))
  unfolding upload_batch upload result_of upload_error_of
  upload_batch-answer config source_unique_id (fail err) send batch status delay message = (
    (λ h. absurd (ground arith), λ h. absurd (ground arith)),
    (λ h. absurd (ground arith), λ h. absurd (ground arith)),
  )
  upload_batch-answer config source_unique_id (okay data') send batch status delay message =
      let sent = send (
        post_of libs config source_unique_id data' batch.data_bytes batch.event_name batch.metadata
          batch.row_count) in
      (
        (
          λ h.
              let (response, e) = result_of-none (read_answer libs sent) h in
              (data', refl, read_answer-IsAccepted sent response e),
          λ (other_data, same, accepted).
              let eq : data' ≡ other_data = ground arith in
              let (response, e) = IsAccepted-read_answer _ accepted in rw (eq) (rw (e) refl),
        ),
        (
          λ h. (
            data',
            refl,
            read_answer-IsRefused sent status delay message
                (result_of-http_status (read_answer libs sent) status delay message h),
          ),
          λ (other_data, same, refused).
              let eq : data' ≡ other_data = ground arith in
              rw (eq) (rw (IsRefused-read_answer _ status delay message refused) refl),
        ),
      )
