-- ===== src/Geneva/Tests/Upload.antt =====
-- Uploads and exports with concrete libraries.
use opentelemetry_rust_contr.Common.{
  ℕ, ◌==◌, List, [], ◌∷◌, All, false, ◌≡◌, ◌↔◌, refl, Option, none, some, inl, inr, if◌then◌else◌,
  Bool-cases, arith,
}
use mathlib.Core.Option
use mathlib.Core.List.{Perm}
use opentelemetry_rust_contr.Common.Text.{Str, codes}
use opentelemetry_rust_contr.Common.Chars.{Without}
use opentelemetry_rust_contr.Geneva.Config.{CachedAuthData, okay}
use opentelemetry_rust_contr.Geneva.Batch.{EncodedBatch, Outcome}
use opentelemetry_rust_contr.Geneva.Upload.{
  UploadLibraries, GenevaUploaderConfig, Post, Sent, answered, post_of,
}
use opentelemetry_rust_contr.Geneva.Upload.Query.{SerializeLaws}
use opentelemetry_rust_contr.Geneva.Upload.Client.{http_status, upload_batch}
use opentelemetry_rust_contr.Geneva.Upload.Reported.{IsAccepted, IsRefused, upload_batch-answer}
use opentelemetry_rust_contr.Geneva.Export.{
  Attempt, stream_of, begin, finish, Steps, here, next, uploaded, exported, result_of_errors,
  upload_errors,
}
use opentelemetry_rust_contr.Geneva.Export.Uploading.{batches_of}
use opentelemetry_rust_contr.Geneva.Export.Delivered.{IsTaken, Export-delivered}

-- An encoding of query values that escapes the separator and its own escape.
unfoldable pub escape : Str → Str
escape [] = []
escape (b ∷ s) =
    let rest = escape s in
    if b == b'&' then b'%' ∷ b'a' ∷ rest else if b == b'%' then b'%' ∷ b'b' ∷ rest else b ∷ rest

unescape : Str → Option Str
unescape [] = some []
unescape (b ∷ []) = if b == b'%' then none else some (b ∷ [])
unescape (b ∷ c ∷ s) =
    let skipped = unescape s in
    let rest = unescape (c ∷ s) in
    if b == b'%'
    then if c == b'a'
      then Option.map (λ t. b'&' ∷ t) skipped
      else if c == b'b'
      then Option.map (λ t. b'%' ∷ t) skipped
      else none
    else Option.map (λ t. b ∷ t) rest

unescape_plain :
    (b : ℕ) (s : Str)
    → (b == b'%') ≡ false
    → unescape (b ∷ s) ≡ Option.map (λ t. b ∷ t) (unescape s)
unfolding unescape
unescape_plain b [] h = rw (h)
unescape_plain b (c ∷ s) h = rw (h)

unescape-escape : (s : Str) → unescape (escape s) ≡ some s
unfolding escape unescape
unescape-escape [] = refl
unescape-escape (b ∷ s) = elim (Bool-cases (b == b'&')) [
  | inl amp ↦ let is : b ≡ b'&' = ground arith in rw (is) (rw (unescape-escape s))
  | inr e ↦ elim (Bool-cases (b == b'%')) [
    | inl percent ↦ let is : b ≡ b'%' = ground arith in rw (is) (rw (unescape-escape s))
    | inr plain ↦ rw (e, plain) (rw (unescape_plain b (escape s) plain, unescape-escape s))
  ]
]

Without-escape : (s : Str) → Without b'&' (escape s)
unfolding escape
Without-escape [] = tt
Without-escape (b ∷ s) = let ih = Without-escape s in ground arith

abbrev pub upload_libs : UploadLibraries
upload_libs = record {
  as_bytes = λ s. s;
  byte_serialize = escape;
  from_timestamp_nanos = λ n. record {
    year = 2024;
    month = 6;
    day = 15;
    hour = 12;
    minute = 0;
    second = 7;
    nanosecond = n;
  };
  response_from_str = λ s. inl (record { ticket = s });
  config_error_text = λ e. [];
}

upload_libs-SerializeLaws : SerializeLaws upload_libs
upload_libs-SerializeLaws = record {
  parse = unescape;
  without_separator = Without-escape;
  parse_serialized = unescape-escape;
}

abbrev pub config : GenevaUploaderConfig
config = record {
  namespace = codes "ns";
  source_identity = codes "Tenant=t/Role=r&d";
  environment = codes "env";
  config_version = codes "Ver2v0";
}

abbrev cached : CachedAuthData
cached = record {
  auth_info = (
    record {
      endpoint = codes "https://gateway//";
      auth_token = codes "token";
      auth_token_expiry_time = codes "T";
    },
    record { name = codes "diag"; account_group = codes "group" },
  );
  token_endpoint = codes "https://monitor&ing";
  token_expiry = 400000000000;
}

abbrev batch_of : ℕ → EncodedBatch
batch_of n = record {
  event_name = codes "Log";
  data_bytes = n ∷ 2 ∷ [];
  metadata = record { start_time = 5; end_time = 700; schema_ids = codes "ab;cd" };
  row_count = n;
}

-- A gateway that takes every post, and one that is overloaded.
abbrev pub taking : Post → Sent
taking post = answered 202 none (inl (codes "{}"))

abbrev overloaded : Post → Sent
overloaded post = answered 429 (some (codes "30")) (inl (codes "later"))

upload_batch-answer_example :
    let result =
      upload_batch upload_libs config (codes "0-1") (okay cached) overloaded (batch_of 3) in
    let answer : CachedAuthData → Sent = λ info. overloaded (
      post_of upload_libs config
        (codes "0-1")
        info
        (3 ∷ 2 ∷ [])
        (codes "Log")
        (batch_of 3).metadata
        3) in
    ((result ≡ none) ↔ (
      (info : CachedAuthData) × (okay cached ≡ okay info) × IsAccepted upload_libs (answer info)))
    × ((result ≡ some (http_status 429 (some 30) (codes "later"))) ↔ (
        (info : CachedAuthData) × (okay cached ≡ okay info)
        × IsRefused upload_libs (answer info) 429 (some 30) (codes "later")))
upload_batch-answer_example =
    upload_batch-answer upload_libs config (codes "0-1") (okay cached) overloaded (batch_of 3) 429
      (some 30) (codes "later")

abbrev pub attempt_with : (Post → Sent) → EncodedBatch → Attempt
attempt_with send batch = record {
  batch = batch;
  unique_id = codes "0-1";
  info = okay cached;
  send = send;
}

-- Two uploads at a time, of which the second ends first and is refused.
abbrev two : List EncodedBatch
two = batch_of 1 ∷ batch_of 2 ∷ []

abbrev two_ended : List Attempt
two_ended = attempt_with overloaded (batch_of 2) ∷ attempt_with taking (batch_of 1) ∷ []

two_uploads : Steps 2 4 (stream_of two) (record { pending = []; in_flight = []; ended = two_ended })
two_uploads =
    next
      (next
        (next (next here (begin (batch_of 1) (batch_of 2 ∷ []) [] [] (omega arith)))
          (begin (batch_of 2) [] (batch_of 1 ∷ []) [] (omega arith)))
        (finish (attempt_with overloaded (batch_of 2)) [] (batch_of 1 ∷ []) [] []))
      (finish (attempt_with taking (batch_of 1)) [] [] []
        (attempt_with overloaded (batch_of 2) ∷ []))

Export-delivered_example :
    Perm (batches_of two_ended) two
    × ((result_of_errors upload_libs config (upload_errors upload_libs config two_ended) ≡ exported)
        ↔ All (IsTaken upload_libs config) two_ended)
Export-delivered_example =
    Export-delivered upload_libs config 2 (Outcome.ok two) _ two_ended two
      (uploaded two 4 two_ended refl two_uploads) refl
