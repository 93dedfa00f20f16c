-- ===== src/Geneva/Upload/Query/Gateway.antt =====
-- The gateway can read everything back from the URL of an upload.
use opentelemetry_rust_contr.Common.{ℕ, List, [], ◌∷◌, ◌++◌}
use opentelemetry_rust_contr.Common.Bytes.{Bytes}
use opentelemetry_rust_contr.Common.Text.{Str, codes}
use opentelemetry_rust_contr.Common.Numerals.{to_string}
use opentelemetry_rust_contr.Geneva.Blob.{BatchMetadata}
use opentelemetry_rust_contr.Geneva.Config.{CachedAuthData}
use opentelemetry_rust_contr.Geneva.Upload.{
  UploadLibraries, GenevaUploaderConfig, format_timestamp_nanos, trim_end_matches,
}
use opentelemetry_rust_contr.Geneva.Upload.Query.{SerializeLaws, IsPlainUpload}

module _ (libs : UploadLibraries) (laws : SerializeLaws libs) (config : GenevaUploaderConfig)
    (source_unique_id : Str) (info : CachedAuthData) (event_name : Str) (metadata : BatchMetadata)
    (plain : IsPlainUpload libs config source_unique_id info event_name metadata) where
  abbrev address : Str
  address =
      libs.as_bytes (trim_end_matches b'/' info.auth_info.0.endpoint)
      ++ codes "/api/v1/ingestion/ingest"

  abbrev pairs : ℕ → ℕ → List (Str × Str)
  pairs data_size row_count =
      (codes "endpoint", libs.byte_serialize (libs.as_bytes info.token_endpoint))
      ∷ (codes "moniker", libs.as_bytes info.auth_info.1.name)
      ∷ (codes "namespace", config.namespace)
      ∷ (codes "event", event_name)
      ∷ (codes "version", config.config_version)
      ∷ (codes "sourceUniqueId", source_unique_id)
      ∷ (codes "sourceIdentity", libs.byte_serialize config.source_identity)
      ∷ (codes "startTime", format_timestamp_nanos libs metadata.start_time)
      ∷ (codes "endTime", format_timestamp_nanos libs metadata.end_time)
      ∷ (codes "format", codes "centralbond/lz4hc")
      ∷ (codes "dataSize", to_string data_size)
      ∷ (codes "minLevel", to_string 2)
      ∷ (codes "schemaIds", metadata.schema_ids)
      ∷ (codes "rowCount", to_string row_count)
      ∷ []
