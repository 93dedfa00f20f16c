-- ===== src/Geneva/Upload.antt =====
-- The client of the ingestion gateway
-- (opentelemetry-exporter-geneva/geneva-uploader/src/ingestion_service/uploader.rs) and the formats of the
-- timestamps of a batch (payload_encoder/central_blob.rs).
-- Texts are UTF-8 bytes; those that come from the configuration client are characters. A duration is its
-- number of seconds.
pub mod Query
pub mod Client
pub mod Reported
use opentelemetry_rust_contr.Common.{
  ℕ, suc, ◌+◌, ◌-◌, ◌/◌, ◌^◌, ◌==◌, List, [], ◌∷◌, ◌++◌, length, replicate, Bool, true, false, ◌⊎◌,
  inl, inr, Option, none, some, if◌then◌else◌, ◌>>=◌,
}
use mathlib.Core.Option
use opentelemetry_rust_contr.Common.Bytes.{Bytes}
use opentelemetry_rust_contr.Common.Text.{Str, codes}
use opentelemetry_rust_contr.Common.Chars.{Chars}
use opentelemetry_rust_contr.Common.Numerals.{to_string, from_str_radix}
use opentelemetry_rust_contr.Geneva.Blob.{BatchMetadata}
use opentelemetry_rust_contr.Geneva.Config.{
  GenevaConfigClientError, ConfigResult, okay, fail, CachedAuthData,
}

-- What reqwest says of an error: its texts, the tests of its kind, and its sources, each with the kind of
-- an I/O error where it is one.
pub record ReqwestError : Type 0 where
  pub text : Str
  pub url : Option Str
  pub status : Option Str
  pub is_timeout : Bool
  pub is_connect : Bool
  pub is_body : Bool
  pub is_decode : Bool
  pub is_request : Bool
  pub sources : List (Str × Option Str)

pub data GenevaUploaderError : Type 0 where
  http : Str → GenevaUploaderError
  serde_json : Str → GenevaUploaderError
  config_client : Str → GenevaUploaderError
  upload_failed : ℕ → Option ℕ → Str → GenevaUploaderError
  internal_error : Str → GenevaUploaderError

pub record IngestionResponse : Type 0 where
  pub ticket : Str

pub record GenevaUploaderConfig : Type 0 where
  pub namespace : Str
  pub source_identity : Str
  pub environment : Str
  pub config_version : Str

-- A date and time of chrono. The nanoseconds that an i64 holds are of the years 1677 to 2262.
pub record DateTime : Type 0 where
  pub year : ℕ
  pub month : ℕ
  pub day : ℕ
  pub hour : ℕ
  pub minute : ℕ
  pub second : ℕ
  pub nanosecond : ℕ

-- What comes of a request: no answer, or a status with the text of the header Retry-After, if it has one
-- of visible ASCII, and what comes of reading the body.
pub data Sent : Type 0 where
  send_failed : ReqwestError → Sent
  answered : ℕ → Option Str → Str ⊎ ReqwestError → Sent

pub record Post : Type 0 where
  pub full_url : Str
  pub authorization : Str
  pub body : Bytes

-- What the libraries do. `from_timestamp_nanos` takes the bit pattern of an i64; `from_str` of serde_json
-- gives the response or the text of its error; `config_error_text` is the text of an error of the
-- configuration client, whose message its model leaves out.
pub record UploadLibraries : Type 0 where
  pub as_bytes : Chars → Str
  pub byte_serialize : Str → Str
  pub from_timestamp_nanos : ℕ → DateTime
  pub response_from_str : Str → IngestionResponse ⊎ Str
  pub config_error_text : GenevaConfigClientError → Str

abbrev named_text : Str → Option Str → Str
named_text name none = []
named_text name (some s) = name ++ s

-- The chain of sources, with the index of the first of them, and whether one was an I/O error.
unfoldable pub causes : ℕ → Bool → List (Str × Option Str) → Str × Bool
causes idx found_io [] = ([], found_io)
causes idx found_io ((s, io) ∷ sources) =
    let cause = codes ", cause[" ++ to_string idx ++ codes "]: " ++ s in
    let (rest, found) = causes (suc idx) (elim io [ none ↦ found_io | some kind ↦ true ]) sources in
    (
      cause
          ++ elim io [ none ↦ [] | some kind ↦ codes " (io::ErrorKind::" ++ kind ++ codes ")" ]
          ++ rest,
      found,
    )

unfoldable pub kind_text : ReqwestError → Str
kind_text err =
    if err.is_timeout
    then codes ", kind: timeout"
    else if err.is_connect
    then codes ", kind: connect"
    else if err.is_body
    then codes ", kind: body"
    else if err.is_decode
    then codes ", kind: decode"
    else if err.is_request
    then codes ", kind: request"
    else []

unfoldable pub from_reqwest_error : ReqwestError → GenevaUploaderError
from_reqwest_error err =
    let (chain, found_io) = causes 0 false err.sources in
    http (
      err.text
      ++ named_text (codes ", url: ") err.url
      ++ named_text (codes ", status: ") err.status
      ++ kind_text err
      ++ chain
      ++ (if found_io then [] else codes ", (no io::Error in source chain)"))

-- A number with zeros in front up to a width.
unfoldable pub padded : ℕ → ℕ → Str
padded width n = replicate (width - length (to_string n)) b'0' ++ to_string n

unfoldable pub format_datetime : DateTime → Str
format_datetime datetime =
    padded 4 datetime.year
    ++ (codes "-"
        ++ (padded 2 datetime.month
            ++ (codes "-"
                ++ (padded 2 datetime.day
                    ++ (codes "T"
                        ++ (padded 2 datetime.hour
                            ++ (codes ":"
                                ++ (padded 2 datetime.minute
                                    ++ (codes ":"
                                        ++ (padded 2 datetime.second
                                            ++ (codes "."
                                                ++ (padded 7 (datetime.nanosecond / 100)
                                                    ++ codes "Z"))))))))))))

-- `str::trim_end_matches` with a character.
unfoldable pub trim_end_matches : ℕ → Chars → Chars
trim_end_matches c [] = []
trim_end_matches c (d ∷ s) =
    let rest = trim_end_matches c s in
    elim rest [ [] ↦ if d == c then [] else d ∷ [] | e ∷ more ↦ d ∷ e ∷ more ]

module _ (libs : UploadLibraries) where
  unfoldable pub format_timestamp_nanos : ℕ → Str
  format_timestamp_nanos timestamp_nanos =
      format_datetime (libs.from_timestamp_nanos timestamp_nanos)

  -- The query has its parts in the order of the format string; the UUID is a parameter.
  unfoldable pub create_upload_uri :
      GenevaUploaderConfig → Str → Chars → Chars → ℕ → Str → BatchMetadata → ℕ → Str
  create_upload_uri config source_unique_id monitoring_endpoint moniker data_size event_name
        metadata row_count =
      codes "api/v1/ingestion/ingest?endpoint="
      ++ (libs.byte_serialize (libs.as_bytes monitoring_endpoint)
          ++ (codes "&moniker="
              ++ (libs.as_bytes moniker
                  ++ (codes "&namespace="
                      ++ (config.namespace
                          ++ (codes "&event="
                              ++ (event_name
                                  ++ (codes "&version="
                                      ++ (config.config_version
                                          ++ (codes "&sourceUniqueId="
                                              ++ (source_unique_id
                                                  ++ (codes "&sourceIdentity="
                                                      ++ (libs.byte_serialize config.source_identity
                                                          ++ (codes "&startTime="
                                                            ++ (format_timestamp_nanos
                                                            metadata.start_time
                                                            ++ (codes "&endTime="
                                                            ++ (format_timestamp_nanos
                                                            metadata.end_time
                                                            ++ (codes
                                                            "&format=centralbond/lz4hc&dataSize="
                                                            ++ (to_string data_size
                                                            ++ (codes "&minLevel="
                                                            ++ (to_string 2
                                                            ++ (codes "&schemaIds="
                                                            ++ (metadata.schema_ids
                                                            ++ (codes "&rowCount="
                                                            ++ to_string
                                                            row_count))))))))))))))))))))))))

  -- The request of an upload.
  unfoldable pub post_of :
      GenevaUploaderConfig → Str → CachedAuthData → Bytes → Str → BatchMetadata → ℕ → Post
  post_of config source_unique_id info data_bytes event_name metadata row_count =
      let (auth_info, moniker_info) = info.auth_info in
      let upload_uri =
        create_upload_uri config source_unique_id info.token_endpoint moniker_info.name
          (length data_bytes) event_name metadata row_count in
      record {
        full_url =
            libs.as_bytes (trim_end_matches b'/' auth_info.endpoint) ++ (codes "/" ++ upload_uri);
        authorization = codes "Bearer " ++ libs.as_bytes auth_info.auth_token;
        body = data_bytes;
      }

  -- The delay in seconds of Retry-After; a date is ignored.
  unfoldable pub retry_after_of : Option Str → Option ℕ
  retry_after_of header = header >>= from_str_radix 10 (2 ^ 64)

  -- From the answer on.
  unfoldable pub read_answer : Sent → IngestionResponse ⊎ GenevaUploaderError
  read_answer (send_failed err) = inr (from_reqwest_error err)
  read_answer (answered status retry_after (inr err)) = inr (from_reqwest_error err)
  read_answer (answered status retry_after (inl body)) =
      if status == 202
      then elim (libs.response_from_str body) [
        | inl ingest_response ↦ inl ingest_response
        | inr e ↦ inr (serde_json e)
      ]
      else inr (upload_failed status (retry_after_of retry_after) body)

  -- An upload, by what the configuration client gives and what comes of the request.
  unfoldable pub upload :
      GenevaUploaderConfig
      → Str
      → ConfigResult CachedAuthData
      → (Post → Sent)
      → Bytes
      → Str
      → BatchMetadata
      → ℕ
      → IngestionResponse ⊎ GenevaUploaderError
  upload config source_unique_id (fail err) send data_bytes event_name metadata row_count =
      inr (config_client (codes "GenevaConfigClient error: " ++ libs.config_error_text err))
  upload config source_unique_id (okay info) send data_bytes event_name metadata row_count =
      read_answer
        (send (post_of config source_unique_id info data_bytes event_name metadata row_count))
