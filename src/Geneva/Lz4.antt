-- ===== src/Geneva/Lz4.antt =====
-- lz4_chunked_compression.rs: the input in chunks, each compressed behind its length.
-- `compress_into` and `get_maximum_output_size` are functions of the crate lz4_flex.
pub mod Frames
pub mod RoundTrip
use opentelemetry_rust_contr.Common.{
  ℕ, zero, suc, ◌+◌, ◌-◌, ◌*◌, ◌%◌, ◌^◌, ◌<◌, ◌≤◌, min, List, [], ◌∷◌, ◌++◌, ◌≡◌, refl, Option,
  none, some, true, false, length, take, drop, replicate, ltb, if◌then◌else◌,
}
use opentelemetry_rust_contr.Common.Bytes.{Bytes, to_le_bytes}

-- lz4_flex::block: `compress_into chunk room` is what it writes to the front of a slice of `room`
-- bytes, with `none` for a `CompressError`.
pub record Lz4 : Type 0 where
  pub get_maximum_output_size : ℕ → ℕ
  pub compress_into : Bytes → ℕ → Option Bytes

-- The `Result` of the compression; `stuck` is no value of it: the loop ran out of rounds.
pub data Compression : Type 0 where
  ok : Bytes → Compression
  err : Compression
  stuck : Compression

-- The bytes of a slice that starts at `offset` are written over; the buffer has room for them.
unfoldable pub overwrite : Bytes → ℕ → Bytes → Bytes
overwrite buffer offset slice = take offset buffer ++ (slice ++ drop (offset + length slice) buffer)

-- `Vec::resize` to a longer length, with zeros.
unfoldable pub resize : Bytes → ℕ → Bytes
resize buffer n = take n buffer ++ replicate (n - length buffer) 0

module _ (lz4 : Lz4) (chunk_size : ℕ) where
  -- One round: the header's place, room for the worst case, the compressed bytes, the header, and the
  -- cut to the bytes that are used.
  unfoldable pub compress_chunk : Bytes → Bytes → Option Bytes
  compress_chunk chunk output =
      let max_chunk_compressed = lz4.get_maximum_output_size chunk_size in
      let header_offset = length output in
      let output = output ++ replicate 4 0 in
      let data_offset = length output in
      let output = resize output (data_offset + max_chunk_compressed) in
      elim (lz4.compress_into chunk max_chunk_compressed) [
        | none ↦ none
        | some compressed ↦
            let compressed_size = length compressed in
            let output = overwrite output data_offset compressed in
            let output =
              overwrite output header_offset (to_le_bytes 4 (compressed_size % 2 ^ 32)) in
            some (take (data_offset + compressed_size) output)
      ]

  -- `while offset < input.len()`, on fuel.
  unfoldable pub compress_loop : ℕ → Bytes → ℕ → Bytes → Compression
  compress_loop zero input offset output = if ltb offset (length input) then stuck else ok output
  compress_loop (suc fuel) input offset output = elim (ltb offset (length input)) [
    | false ↦ ok output
    | true ↦
        let end = min (offset + chunk_size) (length input) in
        let chunk = take (end - offset) (drop offset input) in
        elim (compress_chunk chunk output) [
          | none ↦ err
          | some output ↦ compress_loop fuel input end output
        ]
  ]

  -- A round takes a byte at least where `chunk_size` is positive, so the input's length is enough.
  unfoldable pub lz4_chunked_compression_custom : Bytes → Compression
  lz4_chunked_compression_custom input = compress_loop (length input) input 0 []

unfoldable pub lz4_chunked_compression : Lz4 → Bytes → Compression
lz4_chunked_compression lz4 = lz4_chunked_compression_custom lz4 (64 * 1024)
