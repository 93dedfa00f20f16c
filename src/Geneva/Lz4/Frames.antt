-- ===== src/Geneva/Lz4/Frames.antt =====
-- One round of the compression, against its plain effect on the output.
use opentelemetry_rust_contr.Common.{
  ℕ, zero, suc, ◌+◌, ◌-◌, ◌%◌, ◌^◌, ◌≤◌, [], ◌∷◌, ◌++◌, ◌≡◌, refl, ap, ◌∙◌, some, length, take,
  drop, replicate, length-append, length-replicate, take_append, drop_append, append_assoc, arith,
}
use native.Mathlib.Nat.{zero-add}
use mathlib.Core.Path.{subst}
use opentelemetry_rust_contr.Common.Bytes.{Bytes, to_le_bytes, length-to_le_bytes}
use opentelemetry_rust_contr.Geneva.Lz4.{Lz4, overwrite, resize, compress_chunk}

-- A chunk behind its length.
unfoldable pub frame : Bytes → Bytes
frame compressed = to_le_bytes 4 (length compressed % 2 ^ 32) ++ compressed

take_front : (n : ℕ) (xs ys : Bytes) → length xs ≡ n → take n (xs ++ ys) ≡ xs
take_front n xs ys e = subst (λ m. take m (xs ++ ys) ≡ xs) e (take_append xs ys)

drop_front : (n : ℕ) (xs ys : Bytes) → length xs ≡ n → drop n (xs ++ ys) ≡ ys
drop_front n xs ys e = subst (λ m. drop m (xs ++ ys) ≡ ys) e (drop_append xs ys)

pub drop-drop : (m n : ℕ) (xs : Bytes) → drop (m + n) xs ≡ drop n (drop m xs)
drop-drop zero n xs = rw zero-add
drop-drop (suc m) zero [] = let e : suc m + 0 ≡ suc m = omega arith in rw e
drop-drop (suc m) (suc n) [] = let e : suc m + suc n ≡ suc (m + suc n) = omega arith in rw e
drop-drop (suc m) n (x ∷ xs) =
    let e : suc m + n ≡ suc (m + n) = omega arith in rw e (drop-drop m n xs)

-- Writing over the part of a buffer behind `front`.
overwrite_lem :
    (n : ℕ) (front old new tail : Bytes)
    → length front ≡ n
    → length old ≡ length new
    → overwrite (front ++ (old ++ tail)) n new ≡ front ++ (new ++ tail)
unfolding overwrite
overwrite_lem n front old new tail e same = rw (
  take_front n front (old ++ tail) e,
  drop-drop n (length new) (front ++ (old ++ tail)),
  drop_front n front (old ++ tail) e,
  drop_front (length new) old tail same,
)

pub take_all : (n : ℕ) (xs : Bytes) → length xs ≤ n → take n xs ≡ xs
take_all zero [] h = refl
take_all zero (x ∷ xs) h = absurd (omega arith)
take_all (suc n) [] h = refl
take_all (suc n) (x ∷ xs) h = ap (λ t. x ∷ t) (take_all n xs (omega arith))

resize_lem : (xs : Bytes) (m : ℕ) → resize xs (length xs + m) ≡ xs ++ replicate m 0
unfolding resize
resize_lem xs m =
    let e : length xs + m - length xs ≡ m = omega arith in
    rw (take_all (length xs + m) xs (omega arith), e)

replicate_split : (m k : ℕ) → k ≤ m → replicate {A = ℕ} m 0 ≡ replicate k 0 ++ replicate (m - k) 0
replicate_split m zero h = let e : m - 0 ≡ m = omega arith in rw e
replicate_split zero (suc k) h = absurd (omega arith)
replicate_split (suc m) (suc k) h =
    let e : suc m - suc k ≡ m - k = omega arith in
    rw e (ap (λ t. 0 ∷ t) (replicate_split m k (omega arith)))

-- The buffer work of a round, on bytes that fit the room: the frame stands behind the output.
buffers :
    (output c : Bytes) (room : ℕ)
    → length c ≤ room
    → take (length (output ++ replicate 4 0) + length c) (
        overwrite
          (overwrite
            (resize (output ++ replicate 4 0) (length (output ++ replicate 4 0) + room))
            (length (output ++ replicate 4 0))
            c)
          (length output)
          (to_le_bytes 4 (length c % 2 ^ 32)))
      ≡ output ++ frame c
buffers output c room h =
    let front : Bytes = output ++ replicate 4 0 in
    let head : Bytes = to_le_bytes 4 (length c % 2 ^ 32) in
    let tail : Bytes = replicate (room - length c) 0 in
    let sized : resize front (length front + room) ≡ front ++ (replicate (length c) 0 ++ tail) =
      resize_lem front room ∙ rw (replicate_split room (length c) h) in
    let filled : overwrite (front ++ (replicate (length c) 0 ++ tail)) (length front) c
        ≡ front ++ (c ++ tail) =
      overwrite_lem (length front) front (replicate (length c) 0) c tail refl
        (length-replicate (length c) 0) in
    let headed : overwrite (output ++ (replicate 4 0 ++ (c ++ tail))) (length output) head
        ≡ output ++ (head ++ (c ++ tail)) =
      overwrite_lem (length output) output (replicate 4 0) head (c ++ tail) refl
        (rw (length-to_le_bytes 4 (length c % 2 ^ 32))) in
    let regroup : output ++ (head ++ (c ++ tail)) ≡ (output ++ frame c) ++ tail =
      unfold frame in simp append_assoc in
    let size : length (output ++ frame c) ≡ length front + length c =
      unfold frame in simp (length-append, length-to_le_bytes) (omega arith) in
    rw (sized, filled, append_assoc output (replicate 4 0) (c ++ tail))
      (rw headed (rw regroup (take_front _ (output ++ frame c) tail size)))

module _ (lz4 : Lz4) (chunk_size : ℕ) where
  -- A round appends the frame of the compressed chunk to the output, where lz4_flex stays within
  -- the room that it asked for, and fails where lz4_flex does.
  pub compress_chunk_lem :
      (chunk output c : Bytes)
      → lz4.compress_into chunk (lz4.get_maximum_output_size chunk_size) ≡ some c
      → length c ≤ lz4.get_maximum_output_size chunk_size
      → compress_chunk lz4 chunk_size chunk output ≡ some (output ++ frame c)
  compress_chunk_lem chunk output c e h =
      unfold compress_chunk in rw (e, compress_chunk) (ap some (buffers output c _ h))
