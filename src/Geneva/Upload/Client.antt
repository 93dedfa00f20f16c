-- ===== src/Geneva/Upload/Client.antt =====
-- opentelemetry-exporter-geneva/geneva-uploader/src/client.rs: the client that users of the crate call.
use opentelemetry_rust_contr.Common.{
  ℕ, ◌++◌, Bool, true, false, ◌⊎◌, inl, inr, Option, none, some, if◌then◌else◌, ◌&&◌,
}
use opentelemetry_rust_contr.Common.Text.{Str, codes}
use opentelemetry_rust_contr.Common.Numerals.{to_string}
use opentelemetry_rust_contr.Geneva.Config.{ConfigResult, CachedAuthData}
use opentelemetry_rust_contr.Geneva.Encoder.{MetadataFields, new_metadata_fields}
use opentelemetry_rust_contr.Geneva.Batch.{EncodedBatch}
use opentelemetry_rust_contr.Geneva.Upload.{
  UploadLibraries, GenevaUploaderConfig, GenevaUploaderError, IngestionResponse, http, serde_json,
  config_client, upload_failed, internal_error, Post, Sent, upload,
}

pub data UploadError : Type 0 where
  http_status : ℕ → Option ℕ → Str → UploadError
  transport : Str → UploadError
  other : Str → UploadError

unfoldable pub upload_error_text : UploadError → Str
upload_error_text (http_status status retry_after message) =
    codes "upload failed with status " ++ to_string status ++ codes ": " ++ message
upload_error_text (transport msg) = codes "transport error: " ++ msg
upload_error_text (other msg) = msg

-- The text of an error of the uploader.
unfoldable pub uploader_error_text : GenevaUploaderError → Str
uploader_error_text (http msg) = codes "HTTP error: " ++ msg
uploader_error_text (serde_json msg) = codes "JSON error: " ++ msg
uploader_error_text (config_client msg) = codes "Config service error: " ++ msg
uploader_error_text (upload_failed status retry_after message) =
    codes "Upload failed with status " ++ to_string status ++ codes ": " ++ message
uploader_error_text (internal_error msg) = codes "Internal error: " ++ msg

unfoldable pub upload_error_of : GenevaUploaderError → UploadError
upload_error_of (upload_failed status retry_after message) = http_status status retry_after message
upload_error_of (http msg) = transport msg
upload_error_of err = other (uploader_error_text err)

-- What `upload_batch` makes of the uploader's result: `none` is Ok.
unfoldable pub result_of : IngestionResponse ⊎ GenevaUploaderError → Option UploadError
result_of (inl response) = none
result_of (inr e) = some (upload_error_of e)

unfoldable pub upload_batch :
    UploadLibraries
    → GenevaUploaderConfig
    → Str
    → ConfigResult CachedAuthData
    → (Post → Sent)
    → EncodedBatch
    → Option UploadError
upload_batch libs config source_unique_id info send batch = result_of (
    upload libs config source_unique_id info send batch.data_bytes batch.event_name batch.metadata
      batch.row_count)

-- The ways to authenticate, with what they hold. `mock_auth` is behind a feature.
pub data AuthMethod : Type 0 where
  certificate : Str → Str → AuthMethod
  system_managed_identity : AuthMethod
  user_managed_identity : Str → AuthMethod
  user_managed_identity_by_object_id : Str → AuthMethod
  user_managed_identity_by_resource_id : Str → AuthMethod
  workload_identity : Str → AuthMethod
  mock_auth : AuthMethod

pub record GenevaClientConfig : Type 0 where
  pub endpoint : Str
  pub environment : Str
  pub account : Str
  pub namespace : Str
  pub region : Str
  pub config_major_version : ℕ
  pub auth_method : AuthMethod
  pub tenant : Str
  pub role_name : Str
  pub role_instance : Str
  pub msi_resource : Option Str

-- The parts of a client that its operations read.
pub record GenevaClient : Type 0 where
  pub uploader_config : GenevaUploaderConfig
  pub metadata_fields : MetadataFields

unfoldable pub is_managed_identity : AuthMethod → Bool
is_managed_identity system_managed_identity = true
is_managed_identity (user_managed_identity client_id) = true
is_managed_identity (user_managed_identity_by_object_id object_id) = true
is_managed_identity (user_managed_identity_by_resource_id resource_id) = true
is_managed_identity _ = false

abbrev is_none : Option Str → Bool
is_none none = true
is_none (some s) = false

-- The client, or the text of an error. What comes of GenevaConfigClient::new and of the HTTP client is
-- given: the text of an error, or `none`.
unfoldable pub new_client : Option Str → Option Str → GenevaClientConfig → GenevaClient ⊎ Str
new_client config_failure http_failure cfg =
    if is_managed_identity cfg.auth_method && is_none cfg.msi_resource
    then inr (codes "msi_resource must be provided for managed identity auth")
    else elim config_failure [
      | some e ↦ inr (codes "GenevaConfigClient init failed: " ++ e)
      | none ↦
          let source_identity =
            codes "Tenant="
            ++ cfg.tenant
            ++ codes "/Role="
            ++ cfg.role_name
            ++ codes "/RoleInstance="
            ++ cfg.role_instance in
          let config_version = codes "Ver" ++ to_string cfg.config_major_version ++ codes "v0" in
          let metadata_fields =
            new_metadata_fields cfg.environment config_version cfg.tenant cfg.role_name
              cfg.role_instance cfg.namespace config_version in
          let uploader_config : GenevaUploaderConfig = record {
            namespace = metadata_fields.namespace;
            source_identity = source_identity;
            environment = metadata_fields.env_name;
            config_version = metadata_fields.event_version;
          } in
          elim http_failure [
            | some e ↦ inr (codes "GenevaUploader init failed: " ++ e)
            | none ↦
                inl
                  (record { uploader_config = uploader_config; metadata_fields = metadata_fields })
          ]
    ]
