-- ===== src/Geneva/Config/Token.antt =====
-- Tokens and accounts of the configuration service, as they are read.
use opentelemetry_rust_contr.Common.{
  ℕ, ◌+◌, ◌%◌, ◌≤◌, ◌<◌, ltb, leb, ◌==◌, List, [], ◌∷◌, ◌++◌, ◌≡◌, refl, ap, ◌∙◌, Bool, true, false,
  ◌&&◌, some, All, replicate, Bool-cases, Option-cases, inl, inr, arith,
}
use opentelemetry_rust_contr.Common.Bytes.{Bytes}
use opentelemetry_rust_contr.Common.Text.{codes}
use opentelemetry_rust_contr.Common.Chars.{
  Chars, Without, utf8_length, split_parts, split_parts-append, split_parts_one,
}
use opentelemetry_rust_contr.Geneva.Config.{
  ConfigLibraries, okay, response, GenevaResponse, fetch_ingestion_info, StorageAccountKey,
  contains, find_moniker, padding, decode_payload, endpoint_of_payload, endpoint_of_parts,
  extract_endpoint_from_token,
}

-- What base64 says of the URL-safe alphabet: `encode`, without padding, gives a text without dots whose
-- length is not 1 beyond a multiple of 4, and which is decoded when it is filled up to a multiple of 4
-- with `=`; and the decoder that wants no padding, where it takes a text, gives what the one gives that
-- wants it.
pub record Base64Laws (libs : ConfigLibraries) : Type 0 where
  pub encode : Bytes → Chars
  pub without_dot : (b : Bytes) → Without b'.' (encode b)
  pub possible_length : (b : Bytes) → (utf8_length (encode b) % 4 == 1) ≡ false
  pub decode_padded :
      (b : Bytes) (n : ℕ)
      → (utf8_length (encode b) + n) % 4 ≡ 0
      → n < 4
      → libs.url_safe (encode b ++ replicate n b'=') ≡ some b
  pub same_alphabet :
      (s : Chars) (a b : Bytes) → libs.url_safe_no_pad s ≡ some a → libs.url_safe s ≡ some b → a ≡ b

-- `padding` fills a length that there is up to a multiple of 4, with less than 4 signs.
padding-fills :
    (len : ℕ)
    → (len % 4 == 1) ≡ false
    → (n : ℕ) × (padding len ≡ some (replicate n b'=')) × ((len + n) % 4 ≡ 0) × (n < 4)
unfolding padding
padding-fills len h = rw h (elim (Bool-cases (len % 4 == 2)) [
  | inl two ↦ rw two (2, refl, ground arith, omega arith)
  | inr more ↦ elim (Bool-cases (len % 4 == 3)) [
    | inl three ↦ rw (more, three) (1, refl, ground arith, omega arith)
    | inr four ↦ rw (more, four) (0, refl, ground arith, omega arith)
  ]
])

module _ (libs : ConfigLibraries) (laws : Base64Laws libs) where
  decode_payload-encode :
      (b : Bytes) (n : ℕ)
      → (utf8_length (laws.encode b) + n) % 4 ≡ 0
      → n < 4
      → decode_payload libs (laws.encode b ++ replicate n b'=') ≡ some b
  unfolding decode_payload
  decode_payload-encode b n whole small =
      let s = laws.encode b ++ replicate n b'=' in
      let padded = laws.decode_padded b n whole small in
      elim (Option-cases (libs.url_safe_no_pad s)) [
        | inl e ↦ rw (e, decode_payload) (rw padded)
        | inr (a, e) ↦ rw (e, decode_payload) (ap some (laws.same_alphabet s a b e padded))
      ]

  -- Where base64 decodes what it encodes once that is filled up with `=` to a multiple of 4: the
  -- endpoint of a token is the claim Endpoint of its payload, for every payload, whatever padding
  -- its length asks for, and every header and signature without dots.
  pub extract_endpoint_from_token-claim :
      (header signature : Chars) (payload : Bytes) (claims endpoint : Chars)
      → Without b'.' header
      → Without b'.' signature
      → libs.from_utf8 payload ≡ some claims
      → libs.endpoint_claim claims ≡ some (some endpoint)
      → extract_endpoint_from_token libs
          (header ++ (codes "." ++ (laws.encode payload ++ (codes "." ++ signature))))
        ≡ okay endpoint
  unfolding extract_endpoint_from_token endpoint_of_parts endpoint_of_payload
  extract_endpoint_from_token-claim header signature payload claims endpoint h s text claim =
      let (n, e, whole, small) =
        padding-fills (utf8_length (laws.encode payload)) (laws.possible_length payload) in
      let rest = laws.encode payload ++ b'.' ∷ signature in
      let parts : split_parts b'.' (header ++ b'.' ∷ rest)
          ≡ (header, laws.encode payload ∷ signature ∷ []) =
        split_parts-append b'.' header rest h
        ∙ rw (
          split_parts-append b'.' (laws.encode payload) signature (laws.without_dot payload),
          split_parts_one b'.' signature s,
        ) in
      rw parts (
        rw (e, endpoint_of_parts)
          (rw (decode_payload-encode payload n whole small)
            (rw (text, endpoint_of_payload) (rw claim))))

-- The account is primary and its name has `diag` in it.
abbrev pub is_diag : StorageAccountKey → Bool
is_diag account = account.is_primary_moniker && contains (codes "diag") account.account_moniker_name

-- The account that is chosen is the first one that is primary and has `diag` in its name.
pub find_moniker-first :
    (before after : List StorageAccountKey) (account : StorageAccountKey)
    → All (λ a. is_diag a ≡ false) before
    → is_diag account ≡ true
    → find_moniker (before ++ account ∷ after)
      ≡ some (record {
        name = account.account_moniker_name;
        account_group = account.account_group_name;
      })
unfolding find_moniker
find_moniker-first [] after account h diag = rw diag
find_moniker-first (a ∷ before) after account h diag =
    rw (h.0) (find_moniker-first before after account h.1 diag)

-- Where an answer is a success that can be parsed, the call has the moniker of the first account
-- that is primary and has `diag` in its name, where there is one.
pub fetch_ingestion_info-moniker :
    (libs : ConfigLibraries) (status : ℕ) (body : Chars) (parsed : GenevaResponse)
    → 200 ≤ status
    → status < 300
    → libs.parse_response body ≡ some parsed
    → (account : StorageAccountKey) (before after : List StorageAccountKey)
    → All (λ a. is_diag a ≡ false) before
    → is_diag account ≡ true
    → parsed.storage_account_keys ≡ before ++ account ∷ after
    → fetch_ingestion_info libs (response status body)
      ≡ okay (
        parsed.ingestion_gateway_info,
        record { name = account.account_moniker_name; account_group = account.account_group_name },
      )
unfolding fetch_ingestion_info
fetch_ingestion_info-moniker libs status body parsed low high e account before after h diag keys =
    let success : (leb 200 status && ltb status 300) ≡ true = ground arith in
    let found : find_moniker parsed.storage_account_keys
        ≡ some (record {
          name = account.account_moniker_name;
          account_group = account.account_group_name;
        }) =
      rw keys (find_moniker-first before after account h diag) in
    rw success (rw e (rw found))
