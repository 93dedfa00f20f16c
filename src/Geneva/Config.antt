-- ===== src/Geneva/Config.antt =====
-- The configuration client and its cache of tokens
-- (opentelemetry-exporter-geneva/geneva-uploader/src/config_service/client.rs). Texts are characters.
pub mod Cache
pub mod Token
use opentelemetry_rust_contr.Common.{
  ℕ, ◌+◌, ◌*◌, ◌%◌, ◌==◌, ltb, leb, List, [], ◌∷◌, ◌++◌, Bool, true, false, not, ◌&&◌, Option, none,
  some, length, if◌then◌else◌,
}
use opentelemetry_rust_contr.Common.Bytes.{Bytes}
use opentelemetry_rust_contr.Common.Text.{codes}
use opentelemetry_rust_contr.Common.Chars.{Chars, utf8_length, split_parts, strip_prefix}

-- The errors that these functions return, without their messages.
pub data GenevaConfigClientError : Type 0 where
  auth_info_not_found jwt_token_error http serde_json moniker_not_found internal_error
        authentication :
      GenevaConfigClientError
  request_failed : ℕ → GenevaConfigClientError

pub data ConfigResult (A : Type 0) : Type 0 where
  okay : A → ConfigResult A
  fail : GenevaConfigClientError → ConfigResult A

pub record IngestionGatewayInfo : Type 0 where
  pub endpoint : Chars
  pub auth_token : Chars
  pub auth_token_expiry_time : Chars

pub record MonikerInfo : Type 0 where
  pub name : Chars
  pub account_group : Chars

pub record StorageAccountKey : Type 0 where
  pub account_moniker_name : Chars
  pub account_group_name : Chars
  pub is_primary_moniker : Bool

pub record GenevaResponse : Type 0 where
  pub ingestion_gateway_info : IngestionGatewayInfo
  pub storage_account_keys : List StorageAccountKey

pub record CachedAuthData : Type 0 where
  pub auth_info : IngestionGatewayInfo × MonikerInfo
  pub token_endpoint : Chars
  pub token_expiry : ℕ

-- What the libraries do: chrono, which gives a time as nanoseconds from the earliest one; serde_json,
-- for the response and for the claim Endpoint of a token (`none` for a text that is no JSON, and inside it
-- where the claim is missing); and base64 and UTF-8.
pub record ConfigLibraries : Type 0 where
  pub parse_from_rfc3339 : Chars → Option ℕ
  pub parse_response : Chars → Option GenevaResponse
  pub endpoint_claim : Chars → Option (Option Chars)
  pub url_safe_no_pad : Chars → Option Bytes
  pub url_safe : Chars → Option Bytes
  pub standard : Chars → Option Bytes
  pub from_utf8 : Bytes → Option Chars

-- What came of the request: no token for it, no answer that could be read, or a status and a body.
pub data Fetched : Type 0 where
  no_token : Fetched
  send_error : Fetched
  response : ℕ → Chars → Fetched

-- `str::contains`.
unfoldable pub contains : Chars → Chars → Bool
contains needle [] = elim (strip_prefix needle []) [ none ↦ false | some rest ↦ true ]
contains needle (c ∷ s) =
    let later = contains needle s in
    elim (strip_prefix needle (c ∷ s)) [ none ↦ later | some rest ↦ true ]

-- The loop over the accounts.
unfoldable pub find_moniker : List StorageAccountKey → Option MonikerInfo
find_moniker [] = none
find_moniker (account ∷ accounts) =
    let rest = find_moniker accounts in
    if account.is_primary_moniker && contains (codes "diag") account.account_moniker_name
    then some
        (record { name = account.account_moniker_name; account_group = account.account_group_name })
    else rest

-- The endings that restore the padding of a text of that length; `none` for a length that no text has.
unfoldable pub padding : ℕ → Option Chars
padding n =
    if n % 4 == 1
    then none
    else if n % 4 == 2
    then some (codes "==")
    else if n % 4 == 3
    then some (codes "=")
    else some []

abbrev pub five_minutes : ℕ
five_minutes = 300 * 1000000000

unfoldable pub read_cache : ℕ → Option CachedAuthData → Option CachedAuthData
read_cache now none = none
read_cache now (some cached_data) =
    if ltb (now + five_minutes) cached_data.token_expiry then some cached_data else none

-- The double check under the write lock: what the call returns, and the cache after it.
unfoldable pub store : CachedAuthData → Option CachedAuthData → CachedAuthData × CachedAuthData
store fresh none = (fresh, fresh)
store fresh (some existing) =
    if leb fresh.token_expiry existing.token_expiry then (existing, existing) else (fresh, fresh)

module _ (libs : ConfigLibraries) where
  unfoldable pub fetch_ingestion_info : Fetched → ConfigResult (IngestionGatewayInfo × MonikerInfo)
  fetch_ingestion_info no_token = fail authentication
  fetch_ingestion_info send_error = fail http
  fetch_ingestion_info (response status body) =
      if leb 200 status && ltb status 300
      then elim (libs.parse_response body) [
        | none ↦ fail auth_info_not_found
        | some parsed ↦ elim (find_moniker parsed.storage_account_keys) [
          | none ↦ fail moniker_not_found
          | some moniker_info ↦ okay (parsed.ingestion_gateway_info, moniker_info)
        ]
      ]
      else fail (request_failed status)

  unfoldable pub decode_payload : Chars → Option Bytes
  decode_payload payload = elim (libs.url_safe_no_pad payload) [
    | some b ↦ some b
    | none ↦ elim (libs.url_safe payload) [ some b ↦ some b | none ↦ libs.standard payload ]
  ]

  -- From the decoded payload on.
  unfoldable pub endpoint_of_payload : Bytes → ConfigResult Chars
  endpoint_of_payload decoded = elim (libs.from_utf8 decoded) [
    | none ↦ fail jwt_token_error
    | some decoded_str ↦ elim (libs.endpoint_claim decoded_str) [
      | none ↦ fail serde_json
      | some claim ↦ elim claim [ none ↦ fail jwt_token_error | some ep ↦ okay ep ]
    ]
  ]

  unfoldable pub endpoint_of_parts : List Chars → ConfigResult Chars
  endpoint_of_parts (header ∷ payload ∷ signature ∷ []) = elim (padding (utf8_length payload)) [
    | none ↦ fail jwt_token_error
    | some ending ↦ elim (decode_payload (payload ++ ending)) [
      | none ↦ fail jwt_token_error
      | some decoded ↦ endpoint_of_payload decoded
    ]
  ]
  endpoint_of_parts _ = fail jwt_token_error

  unfoldable pub extract_endpoint_from_token : Chars → ConfigResult Chars
  extract_endpoint_from_token token =
      let (first, more) = split_parts b'.' token in endpoint_of_parts (first ∷ more)

  -- What is to be cached of an answer: with the endpoint of the token, or else that of the server.
  unfoldable pub renew : IngestionGatewayInfo × MonikerInfo → ConfigResult CachedAuthData
  renew auth_info = elim (libs.parse_from_rfc3339 auth_info.0.auth_token_expiry_time) [
    | none ↦ fail internal_error
    | some token_expiry ↦ okay (record {
      auth_info = auth_info;
      token_endpoint = elim (extract_endpoint_from_token auth_info.0.auth_token) [
        | okay ep ↦ ep
        | fail err ↦ auth_info.0.endpoint
      ];
      token_expiry = token_expiry;
    })
  ]

  unfoldable pub fetch_fresh : Fetched → ConfigResult CachedAuthData
  fetch_fresh fetched = elim (fetch_ingestion_info fetched) [
    | fail e ↦ fail e
    | okay auth_info ↦ renew auth_info
  ]

  -- One call alone: its result, and the cache after it. The lock is not poisoned, since nothing that is
  -- done while it is held can panic.
  unfoldable pub get_ingestion_info :
      ℕ → Fetched → Option CachedAuthData → ConfigResult CachedAuthData × Option CachedAuthData
  get_ingestion_info now fetched cache = elim (read_cache now cache) [
    | some cached_data ↦ (okay cached_data, cache)
    | none ↦ elim (fetch_fresh fetched) [
      | fail e ↦ (fail e, cache)
      | okay fresh ↦ (okay (store fresh cache).0, some (store fresh cache).1)
    ]
  ]
