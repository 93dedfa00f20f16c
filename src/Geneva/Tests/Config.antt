-- ===== src/Geneva/Tests/Config.antt =====
-- The configuration client with concrete libraries.
use opentelemetry_rust_contr.Common.{
  ℕ, zero, suc, ◌+◌, ◌%◌, ◌<◌, ◌==◌, replicate, if◌then◌else◌, [], ◌∷◌, ◌++◌, ◌≤◌, ◌≡◌, refl, ◌∙◌,
  true, false, Option, none, some, arith,
}
use mathlib.Core.Option
use opentelemetry_rust_contr.Common.Bytes.{Bytes}
use opentelemetry_rust_contr.Common.Text.{codes}
use opentelemetry_rust_contr.Common.Chars.{
  Chars, any, Without, utf8_length, split_parts, strip_prefix,
}
use opentelemetry_rust_contr.Geneva.Config.{
  ConfigLibraries, IngestionGatewayInfo, StorageAccountKey, GenevaResponse, CachedAuthData,
  response, okay, contains, padding, renew, endpoint_of_parts, read_cache, store, fetch_fresh,
  fetch_ingestion_info, get_ingestion_info, extract_endpoint_from_token, find_moniker,
}
use opentelemetry_rust_contr.Geneva.Config.Cache.{
  System, Reach, here, next, tick, miss, commit, hit, expiry_of, IsNewest, Reach-IsNewest, Served,
  get_ingestion_info-Served,
}
use opentelemetry_rust_contr.Geneva.Config.Token.{
  Base64Laws, extract_endpoint_from_token-claim, fetch_ingestion_info-moniker,
}

-- A byte as that many groups of A, and a group of B; at the end, as base64 has it, nothing, two or three
-- signs, by the number of bytes.
group_of : ℕ → Chars → Chars
group_of c s = c ∷ c ∷ c ∷ c ∷ s

encode_byte : ℕ → Chars → Chars
encode_byte zero s = group_of b'B' s
encode_byte (suc n) s = group_of b'A' (encode_byte n s)

encode_before : Chars → Bytes → Chars
encode_before last [] = last
encode_before last (b ∷ bytes) = encode_byte b (encode_before last bytes)

last_signs : Bytes → Chars
last_signs [] = []
last_signs (a ∷ []) = codes "CC"
last_signs (a ∷ b ∷ []) = codes "CCC"
last_signs (a ∷ b ∷ c ∷ bytes) = last_signs bytes

encode : Bytes → Chars
encode bytes = encode_before (last_signs bytes) bytes

decode : ℕ → Chars → Option Bytes
decode acc (c0 ∷ c1 ∷ c2 ∷ c3 ∷ s) =
    let more = decode (suc acc) s in
    let rest = Option.map (λ bytes. acc ∷ bytes) (decode 0 s) in
    if c0 == b'A' then more else if c0 == b'B' then rest else some []
decode acc s = some []

decode-encode_byte :
    (n acc total : ℕ) (s : Chars)
    → acc + n ≡ total
    → decode acc (encode_byte n s) ≡ Option.map (λ bytes. total ∷ bytes) (decode 0 s)
unfolding decode encode_byte group_of
decode-encode_byte zero acc total s e = let same : acc ≡ total = omega arith in rw same refl
decode-encode_byte (suc n) acc total s e = decode-encode_byte n (suc acc) total s (omega arith)

encode_byte-append : (n : ℕ) (s pad : Chars) → encode_byte n s ++ pad ≡ encode_byte n (s ++ pad)
unfolding encode_byte group_of
encode_byte-append zero s pad = refl
encode_byte-append (suc n) s pad = rw (encode_byte-append n s pad)

decode-encode_before :
    (last pad : Chars) (bytes : Bytes)
    → decode 0 (last ++ pad) ≡ some []
    → decode 0 (encode_before last bytes ++ pad) ≡ some bytes
unfolding encode_before
decode-encode_before last pad [] h = h
decode-encode_before last pad (b ∷ bytes) h =
    rw (encode_byte-append b (encode_before last bytes) pad) (
      decode-encode_byte b 0 b (encode_before last bytes ++ pad) (omega arith)
      ∙ rw (decode-encode_before last pad bytes h))

decode_last :
    (bytes : Bytes) (n : ℕ) → n < 4 → decode 0 (last_signs bytes ++ replicate n b'=') ≡ some []
unfolding decode last_signs
decode_last [] zero small = refl
decode_last [] (suc zero) small = refl
decode_last [] (suc (suc zero)) small = refl
decode_last [] (suc (suc (suc zero))) small = refl
decode_last [] (suc (suc (suc (suc n)))) small = absurd (omega arith)
decode_last (a ∷ []) zero small = refl
decode_last (a ∷ []) (suc zero) small = refl
decode_last (a ∷ []) (suc (suc n)) small = refl
decode_last (a ∷ b ∷ []) zero small = refl
decode_last (a ∷ b ∷ []) (suc n) small = refl
decode_last (a ∷ b ∷ c ∷ bytes) n small = decode_last bytes n small

Without-encode_byte : (n : ℕ) (s : Chars) → Without b'.' s → Without b'.' (encode_byte n s)
unfolding encode_byte group_of
Without-encode_byte zero s h = (refl, (refl, (refl, (refl, h))))
Without-encode_byte (suc n) s h = (refl, (refl, (refl, (refl, Without-encode_byte n s h))))

Without-encode_before :
    (last : Chars) (bytes : Bytes) → Without b'.' last → Without b'.' (encode_before last bytes)
unfolding encode_before
Without-encode_before last [] h = h
Without-encode_before last (b ∷ bytes) h =
    Without-encode_byte b (encode_before last bytes) (Without-encode_before last bytes h)

Without-last_signs : (bytes : Bytes) → Without b'.' (last_signs bytes)
unfolding last_signs
Without-last_signs [] = tt
Without-last_signs (a ∷ []) = (refl, (refl, tt))
Without-last_signs (a ∷ b ∷ []) = (refl, (refl, (refl, tt)))
Without-last_signs (a ∷ b ∷ c ∷ bytes) = Without-last_signs bytes

length_byte : (n : ℕ) (s : Chars) → utf8_length (encode_byte n s) % 4 ≡ utf8_length s % 4
unfolding encode_byte group_of utf8_length
length_byte zero s = ground arith
length_byte (suc n) s = let ih = length_byte n s in ground arith

length_before :
    (last : Chars) (bytes : Bytes)
    → utf8_length (encode_before last bytes) % 4 ≡ utf8_length last % 4
unfolding encode_before
length_before last [] = refl
length_before last (b ∷ bytes) = length_byte b (encode_before last bytes) ∙ length_before last bytes

length_last : (bytes : Bytes) → (utf8_length (last_signs bytes) % 4 == 1) ≡ false
unfolding last_signs utf8_length
length_last [] = refl
length_last (a ∷ []) = refl
length_last (a ∷ b ∷ []) = refl
length_last (a ∷ b ∷ c ∷ bytes) = length_last bytes

length_padded : (s : Chars) (n : ℕ) → utf8_length (s ++ replicate n b'=') ≡ utf8_length s + n
unfolding utf8_length
length_padded [] zero = refl
length_padded [] (suc n) = omega (arith, length_padded [] n)
length_padded (c ∷ s) n = omega (arith, length_padded s n)

abbrev account : StorageAccountKey
account = record {
  account_moniker_name = codes "testdiagaccount";
  account_group_name = codes "group";
  is_primary_moniker = true;
}

abbrev other : StorageAccountKey
other = record account { is_primary_moniker = false }

abbrev gateway : IngestionGatewayInfo
gateway = record {
  endpoint = codes "https://gateway";
  auth_token = codes "opaque";
  auth_token_expiry_time = codes "T";
}

abbrev parsed : GenevaResponse
parsed = record {
  ingestion_gateway_info = gateway;
  storage_account_keys = other ∷ account ∷ other ∷ [];
}

abbrev libs : ConfigLibraries
libs = record {
  parse_from_rfc3339 = λ s. some 900000000000;
  parse_response = λ s. some parsed;
  endpoint_claim = λ s. some (some s);
  url_safe_no_pad = λ s. if any (λ c. c == b'=') s then none else decode 0 s;
  url_safe = λ s. if utf8_length s % 4 == 0 then decode 0 s else none;
  standard = λ s. none;
  from_utf8 = λ b. some b;
}

decode_padded_lem :
    (b : Bytes) (n : ℕ)
    → (utf8_length (encode b) + n) % 4 ≡ 0
    → n < 4
    → libs.url_safe (encode b ++ replicate n b'=') ≡ some b
unfolding encode
decode_padded_lem b n whole small =
    let filled : (utf8_length (encode b ++ replicate n b'=') % 4 == 0) ≡ true =
      rw (length_padded (encode b) n) (rw (whole) refl) in
    rw (filled) (decode-encode_before (last_signs b) (replicate n b'=') b (decode_last b n small))

same_alphabet_lem :
    (s : Chars) (a b : Bytes) → libs.url_safe_no_pad s ≡ some a → libs.url_safe s ≡ some b → a ≡ b
same_alphabet_lem s a b e f = ground arith

libs-Base64Laws : Base64Laws libs
libs-Base64Laws = record {
  encode = encode;
  without_dot = λ b. unfold encode in Without-encode_before (last_signs b) b (Without-last_signs b);
  possible_length = λ b. unfold encode in rw (length_before (last_signs b) b) (length_last b);
  decode_padded = decode_padded_lem;
  same_alphabet = same_alphabet_lem;
}

-- The lengths of encoded texts are of each kind that there is.
encode-lengths :
    (padding (utf8_length (encode (2 ∷ []))) ≡ some (codes "=="))
    × (padding (utf8_length (encode (3 ∷ 0 ∷ []))) ≡ some (codes "="))
    × (padding (utf8_length (encode (1 ∷ 2 ∷ 3 ∷ []))) ≡ some [])
unfolding padding utf8_length encode encode_before encode_byte group_of last_signs
encode-lengths = (refl, refl, refl)

extract_endpoint_from_token-claim_example :
    extract_endpoint_from_token libs
      (codes "eyJ" ++ (codes "." ++ (encode (3 ∷ 0 ∷ []) ++ (codes "." ++ codes "c2ln"))))
    ≡ okay (3 ∷ 0 ∷ [])
unfolding libs-Base64Laws
extract_endpoint_from_token-claim_example =
    extract_endpoint_from_token-claim libs libs-Base64Laws (codes "eyJ") (codes "c2ln") (3 ∷ 0 ∷ [])
      (3 ∷ 0 ∷ []) (3 ∷ 0 ∷ []) (refl, (refl, (refl, tt))) (refl, (refl, (refl, (refl, tt)))) refl
      refl

fetch_ingestion_info-moniker_example :
    fetch_ingestion_info libs (response 200 (codes "{}"))
    ≡ okay (gateway, record { name = codes "testdiagaccount"; account_group = codes "group" })
unfolding contains strip_prefix
fetch_ingestion_info-moniker_example =
    fetch_ingestion_info-moniker libs 200 (codes "{}") parsed (omega arith) (omega arith) refl
      account (other ∷ []) (other ∷ []) (refl, tt) refl refl

abbrev cached : CachedAuthData
cached = record {
  auth_info = (gateway, record { name = codes "testdiagaccount"; account_group = codes "group" });
  token_endpoint = codes "https://gateway";
  token_expiry = 400000000000;
}

get_ingestion_info-Served_example :
    Served libs 200000000000
      (response 200 (codes "{}"))
      (some cached)
      (get_ingestion_info libs 200000000000 (response 200 (codes "{}")) (some cached))
get_ingestion_info-Served_example =
    get_ingestion_info-Served libs 200000000000 (response 200 (codes "{}")) (some cached)

abbrev fresh : CachedAuthData
fresh = record cached { token_expiry = 900000000000 }

fetched : fetch_fresh libs (response 200 (codes "{}")) ≡ okay fresh
unfolding fetch_fresh fetch_ingestion_info find_moniker contains strip_prefix renew
    extract_endpoint_from_token split_parts endpoint_of_parts
fetched = refl

abbrev start : System
start = record { cache = none; now = 0; fetching = 0; returned = [] }

-- Two calls miss and one of them renews the token, which a third one is given at once.
renewed :
    Reach libs start
      (record { cache = some fresh; now = 1000; fetching = 1; returned = fresh ∷ fresh ∷ [] })
unfolding read_cache store
renewed =
    next
      (next
        (next (next (next here (miss refl)) (miss refl))
          (commit 1 (response 200 (codes "{}")) fresh refl fetched))
        (tick 1000 (omega arith)))
      (hit fresh refl)

Reach-IsNewest_example :
    (0 ≤ 900000000000)
    × IsNewest
        (record { cache = some fresh; now = 1000; fetching = 1; returned = fresh ∷ fresh ∷ [] })
unfolding expiry_of
Reach-IsNewest_example = Reach-IsNewest renewed tt
