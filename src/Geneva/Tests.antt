-- ===== src/Geneva/Tests.antt =====
-- Concrete libraries, schemas, blobs and records, and the theorems at them.
mod Formats
mod Logs
mod Spans
mod Config
mod Upload
mod Exports
use opentelemetry_rust_contr.Common.{
  ℕ, zero, suc, ◌+◌, ◌-◌, ◌*◌, ◌/◌, ◌%◌, ◌^◌, ◌<◌, ◌≤◌, List, [], ◌∷◌, ◌++◌, Bool, true, false, ◌≡◌,
  refl, Option, none, some, inl, inr, length, All, leb, ltb, ◌==◌, if◌then◌else◌, Bool-cases, arith,
}
use opentelemetry_rust_contr.Common.Bytes.{Bytes}
use opentelemetry_rust_contr.Common.Text.{Str, codes}
use opentelemetry_rust_contr.Geneva.Lz4.{Lz4}
use opentelemetry_rust_contr.Geneva.Lz4.RoundTrip.{Lz4Laws}
use opentelemetry_rust_contr.Geneva.Encoder.{StatusCode, Libraries, MetadataFields, hex_digit}
use opentelemetry_rust_contr.Geneva.Encoder.Numbering.{HexIsAscii}

-- A compressor that stores the chunk as it is.
abbrev pub stored : Lz4
stored = record {
  get_maximum_output_size = λ n. n;
  compress_into = λ chunk room. if leb (length chunk) room then some chunk else none;
}

abbrev pub stored_back : Bytes → Option Bytes
stored_back chunk = some chunk

stored_fits :
    (chunk : Bytes) (n : ℕ)
    → length chunk ≤ n
    → (if leb (length chunk) n then some chunk else none) ≡ some chunk
stored_fits chunk n h = ground arith

pub stored-Lz4Laws : (n : ℕ) → n < 2 ^ 32 → Lz4Laws stored stored_back n
stored-Lz4Laws n small = record {
  room_fits = small;
  compress = λ chunk h. chunk;
  succeeds = λ chunk h. stored_fits chunk n h;
  in_room = λ chunk h. h;
  undone = λ chunk h. refl;
}

unfoldable pub hex_pairs : Bytes → Bytes
hex_pairs [] = []
hex_pairs (b ∷ s) = hex_digit (b / 16 % 16) ∷ hex_digit (b % 16) ∷ hex_pairs s

hex_pairs_ascii : (s : Bytes) → All (λ b. b < 128) (hex_pairs s)
unfolding hex_pairs hex_digit
hex_pairs_ascii [] = tt
hex_pairs_ascii (b ∷ s) = (ground arith, (ground arith, hex_pairs_ascii s))

abbrev pub libraries : Libraries
libraries = record {
  lz4 = stored;
  md5_digest = λ s. 1 ∷ 2 ∷ 3 ∷ 4 ∷ 5 ∷ 6 ∷ 7 ∷ 8 ∷ 9 ∷ 10 ∷ 11 ∷ 12 ∷ 13 ∷ 14 ∷ 15 ∷ 16 ∷ [];
  encode_to_slice = λ id n. if length id * 2 == n then some (hex_pairs id) else none;
  timestamp_rfc3339 = λ secs nsec. some (codes "2024-06-15T12:00:00+00:00");
  status_code = λ code.
      if code == 0
      then some StatusCode.unset
      else if code == 1
      then some StatusCode.ok
      else if code == 2
      then some StatusCode.error
      else none;
}

pub libraries-HexIsAscii : HexIsAscii libraries
libraries-HexIsAscii id n s e = elim (Bool-cases (length id * 2 == n)) [
  | inl fits ↦ let same : s ≡ hex_pairs id = ground arith in rw same (hex_pairs_ascii id)
  | inr other ↦ ground arith
]

abbrev pub metadata : MetadataFields
metadata = record {
  env_name = codes "env";
  env_ver = codes "4.0";
  tenant = codes "T";
  role = codes "R";
  role_instance = codes "I";
  namespace = codes "ns";
  event_version = codes "Ver1v0";
  metadata_string = codes "namespace=ns/eventVersion=Ver1v0/tenant=T/role=R/roleinstance=I";
}
