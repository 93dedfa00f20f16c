-- ===== src/Geneva/Upload/Query.antt =====
-- A reader of the URL that an upload posts to.
pub mod Gateway
use opentelemetry_rust_contr.Common.{
  ℕ, ◌+◌, if◌then◌else◌, ◌<◌, ◌^◌, ◌==◌, List, [], ◌∷◌, ◌++◌, append_assoc, Bool, true, false, ◌≡◌,
  Option, none, some, ◌>>=◌,
}
use mathlib.Core.Option
use opentelemetry_rust_contr.Common.Bytes.{Bytes}
use opentelemetry_rust_contr.Common.Text.{Str, codes, str_eq}
use opentelemetry_rust_contr.Common.Chars.{Chars, Without, split_once, split_parts}
use opentelemetry_rust_contr.Common.Numerals.{from_str_radix, from_str_radix-to_string}
use opentelemetry_rust_contr.Geneva.Blob.{BatchMetadata}
use opentelemetry_rust_contr.Geneva.Config.{CachedAuthData}
use opentelemetry_rust_contr.Geneva.Upload.{
  UploadLibraries, GenevaUploaderConfig, Post, format_timestamp_nanos, create_upload_uri, post_of,
  trim_end_matches,
}

-- The parts of a query, each a name and a value.
unfoldable pub read_parts : List Str → Option (List (Str × Str))
read_parts [] = some []
read_parts (part ∷ parts) = do
  pair ← split_once (codes "=") part
  more ← read_parts parts
  some (pair ∷ more)

-- The address of a URL, and its query.
unfoldable pub read_url : Str → Option (Str × List (Str × Str))
read_url url = do
  (address, query) ← split_once (codes "?") url
  let (first, more) = split_parts b'&' query
  pairs ← read_parts (first ∷ more)
  some (address, pairs)

abbrev part_text : Str × Str → Str
part_text (name, value) = name ++ (codes "=" ++ value)

abbrev parts_text : List (Str × Str) → List Str
parts_text [] = []
parts_text (pair ∷ pairs) = part_text pair ∷ parts_text pairs

-- What a gateway reads of the URL.
pub record Ingest : Type 0 where
  pub address : Str
  pub endpoint : Str
  pub moniker : Str
  pub namespace : Str
  pub event : Str
  pub version : Str
  pub source_identity : Str
  pub start_time : Str
  pub end_time : Str
  pub data_size : ℕ
  pub schema_ids : Str
  pub row_count : ℕ

unfoldable pub value_of : Str → List (Str × Str) → Option Str
value_of name [] = none
value_of name ((key, value) ∷ pairs) =
    let later = value_of name pairs in if str_eq key name then some value else later

-- `parse` undoes the encoding of a value.
unfoldable pub ingest_of : (Str → Option Str) → Str → List (Str × Str) → Option Ingest
ingest_of parse address pairs = do
  endpoint ← value_of (codes "endpoint") pairs >>= parse
  moniker ← value_of (codes "moniker") pairs
  namespace ← value_of (codes "namespace") pairs
  event ← value_of (codes "event") pairs
  version ← value_of (codes "version") pairs
  source_identity ← value_of (codes "sourceIdentity") pairs >>= parse
  start_time ← value_of (codes "startTime") pairs
  end_time ← value_of (codes "endTime") pairs
  data_size ← value_of (codes "dataSize") pairs >>= from_str_radix 10 (2 ^ 64)
  schema_ids ← value_of (codes "schemaIds") pairs
  row_count ← value_of (codes "rowCount") pairs >>= from_str_radix 10 (2 ^ 64)
  some (record {
    address = address;
    endpoint = endpoint;
    moniker = moniker;
    namespace = namespace;
    event = event;
    version = version;
    source_identity = source_identity;
    start_time = start_time;
    end_time = end_time;
    data_size = data_size;
    schema_ids = schema_ids;
    row_count = row_count;
  })

unfoldable pub read_ingest : (Str → Option Str) → Str → Option Ingest
read_ingest parse url = do (address, pairs) ← read_url url; ingest_of parse address pairs

-- What `byte_serialize` promises: its output can stand in a query and is decoded to its input.
pub record SerializeLaws (libs : UploadLibraries) : Type 0 where
  pub parse : Str → Option Str
  pub without_separator : (s : Str) → Without b'&' (libs.byte_serialize s)
  pub parse_serialized : (s : Str) → parse (libs.byte_serialize s) ≡ some s

-- The names and ids that are put into the URL as they are hold none of its separators.
pub record IsPlainUpload (libs : UploadLibraries) (config : GenevaUploaderConfig)
    (source_unique_id : Str) (info : CachedAuthData) (event_name : Str) (metadata : BatchMetadata)
    : Type 0 where
  pub gateway : Without b'?' (libs.as_bytes (trim_end_matches b'/' info.auth_info.0.endpoint))
  pub moniker : Without b'&' (libs.as_bytes info.auth_info.1.name)
  pub namespace : Without b'&' config.namespace
  pub event : Without b'&' event_name
  pub version : Without b'&' config.config_version
  pub unique_id : Without b'&' source_unique_id
  pub schema_ids : Without b'&' metadata.schema_ids
