-- ===== src/Geneva/Lz4/RoundTrip.antt =====
-- The chunked compression as a whole, against a reader of its frames.
use opentelemetry_rust_contr.Common.{
  ℕ, zero, suc, ◌+◌, ◌-◌, ◌%◌, ◌^◌, ◌<◌, ◌≤◌, min, [], ◌∷◌, ◌++◌, ◌≡◌, refl, ap, ◌∙◌, ◌≢◌, inl, inr,
  true, false, Option, none, some, length, take, drop, length-take, take-append-drop, ltb,
  Bool-cases, Option-cases, ◌>>=◌, append_assoc, append-nil, arith,
}
use opentelemetry_rust_contr.Common.Bytes.{Bytes, to_le_bytes, read_prefixed, read_prefixed_lem}
use opentelemetry_rust_contr.Geneva.Lz4.{
  Lz4, ok, err, stuck, compress_chunk, compress_loop, lz4_chunked_compression_custom,
}
use opentelemetry_rust_contr.Geneva.Lz4.Frames.{frame, compress_chunk_lem, drop-drop}
use native.Mathlib.Nat.{mod-eq_of_lt}

-- The chunked format is read by a length, that many bytes, and so on; `n` chunks at most.
unfoldable pub decompress_chunked : (Bytes → Option Bytes) → ℕ → Bytes → Option Bytes
decompress_chunked decompress n [] = some []
decompress_chunked decompress zero (b ∷ s) = none
decompress_chunked decompress (suc n) (b ∷ s) = do
  (compressed, rest) ← read_prefixed 4 (b ∷ s)
  chunk ← decompress compressed
  chunks ← decompress_chunked decompress n rest
  some (chunk ++ chunks)

decompress_chunked-nil :
    (decompress : Bytes → Option Bytes) (n : ℕ) → decompress_chunked decompress n [] ≡ some []
unfolding decompress_chunked
decompress_chunked-nil decompress zero = refl
decompress_chunked-nil decompress (suc n) = refl

decompress_chunked_step :
    (decompress : Bytes → Option Bytes) (n : ℕ) (s c rest chunk chunks : Bytes) {b : ℕ} {t : Bytes}
    → s ≡ b ∷ t
    → read_prefixed 4 s ≡ some (c, rest)
    → decompress c ≡ some chunk
    → decompress_chunked decompress n rest ≡ some chunks
    → decompress_chunked decompress (suc n) s ≡ some (chunk ++ chunks)
decompress_chunked_step decompress n [] c rest chunk chunks shape front one more = cc
decompress_chunked_step decompress n (x ∷ s) c rest chunk chunks shape front one more =
    unfold decompress_chunked in rw front (rw one (rw more))

frame_cons : (c rest : Bytes) → (b : ℕ) × (t : Bytes) × (frame c ++ rest ≡ b ∷ t)
unfolding frame to_le_bytes
frame_cons c rest = (_, _, refl)

read_frame :
    (c rest : Bytes) → length c < 2 ^ 32 → read_prefixed 4 (frame c ++ rest) ≡ some (c, rest)
unfolding frame
read_frame c rest h =
    rw (append_assoc (to_le_bytes 4 (length c % 2 ^ 32)) c rest, mod-eq_of_lt h)
      (read_prefixed_lem 4 (length c) c rest refl (omega arith))

drop_all : (n : ℕ) (xs : Bytes) → length xs ≤ n → drop n xs ≡ []
drop_all zero [] h = refl
drop_all zero (x ∷ xs) h = absurd (omega arith)
drop_all (suc n) [] h = refl
drop_all (suc n) (x ∷ xs) h = drop_all n xs (omega arith)

-- What the documentation of lz4_flex says of a chunk that is not longer than `n`: in a slice of
-- `get_maximum_output_size n` bytes compression succeeds, and decompression undoes it.
pub record Lz4Laws (lz4 : Lz4) (decompress : Bytes → Option Bytes) (n : ℕ) : Type 0 where
  pub room_fits : lz4.get_maximum_output_size n < 2 ^ 32
  pub compress : (chunk : Bytes) → length chunk ≤ n → Bytes
  pub succeeds :
      (chunk : Bytes) (h : length chunk ≤ n)
      → lz4.compress_into chunk (lz4.get_maximum_output_size n) ≡ some (compress chunk h)
  pub in_room :
      (chunk : Bytes) (h : length chunk ≤ n)
      → length (compress chunk h) ≤ lz4.get_maximum_output_size n
  pub undone : (chunk : Bytes) (h : length chunk ≤ n) → decompress (compress chunk h) ≡ some chunk

module _ (lz4 : Lz4) (chunk_size : ℕ) where
  -- Where a round ends, and its chunk.
  abbrev round_end : Bytes → ℕ → ℕ
  round_end input offset = min (offset + chunk_size) (length input)

  abbrev round_chunk : Bytes → ℕ → Bytes
  round_chunk input offset = take (round_end input offset - offset) (drop offset input)

  loop_next :
      (fuel : ℕ) (input : Bytes) (offset : ℕ) (output out : Bytes)
      → ltb offset (length input) ≡ true
      → compress_chunk lz4 chunk_size (round_chunk input offset) output ≡ some out
      → compress_loop lz4 chunk_size (suc fuel) input offset output
        ≡ compress_loop lz4 chunk_size fuel input (round_end input offset) out
  loop_next fuel input offset output out more e =
      unfold compress_loop in rw (more, compress_loop) (rw (e, compress_loop))

  loop_failed :
      (fuel : ℕ) (input : Bytes) (offset : ℕ) (output : Bytes)
      → ltb offset (length input) ≡ true
      → compress_chunk lz4 chunk_size (round_chunk input offset) output ≡ none
      → compress_loop lz4 chunk_size (suc fuel) input offset output ≡ err
  loop_failed fuel input offset output more e =
      unfold compress_loop in rw (more, compress_loop) (rw (e, compress_loop))

  loop_done :
      (fuel : ℕ) (input : Bytes) (offset : ℕ) (output : Bytes)
      → ltb offset (length input) ≡ false
      → compress_loop lz4 chunk_size fuel input offset output ≡ ok output
  loop_done zero input offset output done = unfold compress_loop in rw (done, compress_loop)
  loop_done (suc fuel) input offset output done = unfold compress_loop in rw (done, compress_loop)

  compress_loop-ne-stuck :
      (fuel : ℕ) (input : Bytes) (offset : ℕ) (output : Bytes)
      → 0 < chunk_size
      → length input ≤ offset + fuel
      → compress_loop lz4 chunk_size fuel input offset output ≢ stuck
  compress_loop-ne-stuck zero input offset output pos h =
      rw (loop_done zero input offset output (ground arith)) (λ e. cc)
  compress_loop-ne-stuck (suc fuel) input offset output pos h =
      elim (Bool-cases (ltb offset (length input))) [
        | inr done ↦ rw (loop_done (suc fuel) input offset output done) (λ e. cc)
        | inl more ↦
            elim (Option-cases (compress_chunk lz4 chunk_size (round_chunk input offset) output)) [
              | inl e ↦ rw (loop_failed fuel input offset output more e) (λ p. cc)
              | inr (out, e) ↦ rw (loop_next fuel input offset output out more e) (
                  compress_loop-ne-stuck fuel input (round_end input offset) out pos (ground arith))
            ]
      ]

  -- The compression ends on every input with bytes or with an error of lz4_flex, where a chunk has
  -- a byte at least: the loop takes no more rounds than the input has bytes.
  pub compression-ne-stuck :
      (input : Bytes) → 0 < chunk_size → lz4_chunked_compression_custom lz4 chunk_size input ≢ stuck
  compression-ne-stuck input pos =
      unfold lz4_chunked_compression_custom in
      compress_loop-ne-stuck (length input) input 0 [] pos (omega arith)

  module _ (decompress : Bytes → Option Bytes) (laws : Lz4Laws lz4 decompress chunk_size) where
    round-le : (input : Bytes) (offset : ℕ) → length (round_chunk input offset) ≤ chunk_size
    round-le input offset =
        omega (arith, length-take (round_end input offset - offset) (drop offset input))

    -- The chunk of a round and the input behind it are the input that was left.
    chunk_and_rest :
        (input : Bytes) (offset : ℕ)
        → offset < length input
        → round_chunk input offset ++ drop (round_end input offset) input ≡ drop offset input
    chunk_and_rest input offset h =
        let k = round_end input offset - offset in
        let e : round_end input offset ≡ offset + k = omega arith in
        ap (λ n. round_chunk input offset ++ drop n input) e
        ∙ rw (drop-drop offset k input) (take-append-drop k (drop offset input))

    compress_loop_end :
        (fuel : ℕ) (input : Bytes) (offset : ℕ) (output : Bytes)
        → ltb offset (length input) ≡ false
        → (frames : Bytes) × (compress_loop lz4 chunk_size fuel input offset output
            ≡ ok (output ++ frames))
          × (decompress_chunked decompress fuel frames ≡ some (drop offset input))
    compress_loop_end fuel input offset output done = (
      [],
      rw (append-nil output) (loop_done fuel input offset output done),
      rw (drop_all offset input (ground arith)) (decompress_chunked-nil decompress fuel),
    )

    -- The loop appends frames that decompress to the input that is left.
    compress_loop-frames :
        (fuel : ℕ) (input : Bytes) (offset : ℕ) (output : Bytes)
        → 0 < chunk_size
        → length input ≤ offset + fuel
        → (frames : Bytes) × (compress_loop lz4 chunk_size fuel input offset output
            ≡ ok (output ++ frames))
          × (decompress_chunked decompress fuel frames ≡ some (drop offset input))
    compress_loop-frames zero input offset output pos h =
        compress_loop_end zero input offset output (ground arith)
    compress_loop-frames (suc fuel) input offset output pos h =
        elim (Bool-cases (ltb offset (length input))) [
          | inr done ↦ compress_loop_end (suc fuel) input offset output done
          | inl more ↦
              let chunk = round_chunk input offset in
              let small = round-le input offset in
              let c = laws.compress chunk small in
              let fits : length c < 2 ^ 32 =
                omega (arith, laws.in_room chunk small, laws.room_fits) in
              let (frames, run, back) =
                compress_loop-frames fuel input (round_end input offset) (output ++ frame c) pos
                  (ground arith) in
              let (b, t, shape) = frame_cons c frames in
              (
                frame c ++ frames,
                loop_next fuel input offset output (output ++ frame c) more (
                      compress_chunk_lem lz4 chunk_size chunk output c (laws.succeeds chunk small)
                        (laws.in_room chunk small))
                    ∙ run
                    ∙ ap ok (append_assoc output (frame c) frames),
                decompress_chunked_step decompress fuel (frame c ++ frames) c frames chunk _ shape
                      (read_frame c frames fits) (laws.undone chunk small) back
                    ∙ ap some (chunk_and_rest input offset (ground arith)),
              )
        ]

    -- Where lz4_flex keeps its documented word on chunks of the size, the compression succeeds on
    -- every input, and reading its output chunk by chunk gives the input back.
    pub decompress_chunked-compression :
        (input : Bytes)
        → 0 < chunk_size
        → (output : Bytes) × (lz4_chunked_compression_custom lz4 chunk_size input ≡ ok output)
          × (decompress_chunked decompress (length input) output ≡ some input)
    decompress_chunked-compression input pos =
        unfold lz4_chunked_compression_custom in
        compress_loop-frames (length input) input 0 [] pos (omega arith)
