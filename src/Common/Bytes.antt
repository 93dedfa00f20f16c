-- ===== src/Common/Bytes.antt =====
-- Byte strings: fixed-width little-endian integers as Rust's `to_le_bytes` writes them, and readers
-- that take a field from the front of the input.
use opentelemetry_rust_contr.Common.Tests.{◌>>=◌, ◌>>◌, guard, ◌==◌, ==-refl}
use opentelemetry_rust_contr.Common.Lists.{length, replicate, All}
use Prim.Native.Nat.{ℕ, zero, suc, ◌+◌, ◌*◌, ◌/◌, ◌%◌, ◌^◌, ◌<◌}
use mathlib.Core.Path.{◌≡◌, refl, ap}
use mathlib.Core.Option.{Option, none, some}
use mathlib.Core.List.{List, [], ◌∷◌, ◌++◌}
use native.Mathlib.Omega.{arith}
use native.Mathlib.Nat.{pow-suc}

abbrev pub Bytes : Type 0
Bytes = List ℕ

abbrev pub IsByte : ℕ → Type 0
IsByte b = b < 256

-- The `w` bytes of the low `8 * w` bits of `n`, lowest first.
unfoldable pub to_le_bytes : ℕ → ℕ → Bytes
to_le_bytes zero n = []
to_le_bytes (suc w) n = (n % 256) ∷ to_le_bytes w (n / 256)

unfoldable pub from_le_bytes : Bytes → ℕ
from_le_bytes [] = 0
from_le_bytes (b ∷ bs) = b + 256 * from_le_bytes bs

pub length-to_le_bytes : (w n : ℕ) → length (to_le_bytes w n) ≡ w
unfolding to_le_bytes
length-to_le_bytes zero n = refl
length-to_le_bytes (suc w) n = ap suc (length-to_le_bytes w (n / 256))

pub to_le_bytes-IsByte : (w n : ℕ) → All IsByte (to_le_bytes w n)
unfolding to_le_bytes
to_le_bytes-IsByte zero n = tt
to_le_bytes-IsByte (suc w) n = (omega arith, to_le_bytes-IsByte w (n / 256))

pub from_le_bytes-to_le_bytes : (w n : ℕ) → n < 256 ^ w → from_le_bytes (to_le_bytes w n) ≡ n
unfolding to_le_bytes from_le_bytes
from_le_bytes-to_le_bytes zero n h = omega arith
from_le_bytes-to_le_bytes (suc w) n h =
    omega (arith, from_le_bytes-to_le_bytes w (n / 256) (omega (arith, pow-suc 256 w)))

-- `n` bytes from the front of the input, with what follows them.
unfoldable pub read_bytes : ℕ → Bytes → Option (Bytes × Bytes)
read_bytes zero s = some ([], s)
read_bytes (suc n) [] = none
read_bytes (suc n) (b ∷ s) = do (front, rest) ← read_bytes n s; some (b ∷ front, rest)

-- A `w`-byte little-endian integer from the front of the input.
unfoldable pub read_le : ℕ → Bytes → Option (ℕ × Bytes)
read_le zero s = some (0, s)
read_le (suc w) [] = none
read_le (suc w) (b ∷ s) = do (n, rest) ← read_le w s; some (b + 256 * n, rest)

-- `n` bytes of the value `b` in front of the input.
unfoldable pub fill : ℕ → ℕ → Bytes → Bytes
fill zero b rest = rest
fill (suc n) b rest = b ∷ fill n b rest

pub fill-replicate : (n b : ℕ) (rest : Bytes) → replicate n b ++ rest ≡ fill n b rest
unfolding fill
fill-replicate zero b rest = refl
fill-replicate (suc n) b rest = ap (λ t. b ∷ t) (fill-replicate n b rest)

-- The input without `n` bytes of the value `b` at its front, which must be there.
unfoldable pub skip_fill : ℕ → ℕ → Bytes → Option Bytes
skip_fill zero b s = some s
skip_fill (suc n) b [] = none
skip_fill (suc n) b (c ∷ s) = do guard (c == b); skip_fill n b s

pub skip_fill-fill : (n b : ℕ) (rest : Bytes) → skip_fill n b (fill n b rest) ≡ some rest
unfolding fill skip_fill
skip_fill-fill zero b rest = refl
skip_fill-fill (suc n) b rest = rw (==-refl b) (skip_fill-fill n b rest)

pub read_bytes-append : (s rest : Bytes) → read_bytes (length s) (s ++ rest) ≡ some (s, rest)
unfolding read_bytes
read_bytes-append [] rest = refl
read_bytes-append (b ∷ s) rest = rw (read_bytes-append s rest)

pub read_bytes_front :
    (n : ℕ) (s rest : Bytes) → length s ≡ n → read_bytes n (s ++ rest) ≡ some (s, rest)
read_bytes_front n s rest e = rw (← e) (read_bytes-append s rest)

pub read_le-to_le_bytes :
    (w n : ℕ) (rest : Bytes) → n < 256 ^ w → read_le w (to_le_bytes w n ++ rest) ≡ some (n, rest)
unfolding read_le to_le_bytes
read_le-to_le_bytes zero n rest h = let e : 0 ≡ n = omega arith in rw (← e)
read_le-to_le_bytes (suc w) n rest h =
    let ih = read_le-to_le_bytes w (n / 256) rest (omega (arith, pow-suc 256 w)) in
    let e : n % 256 + 256 * (n / 256) ≡ n = omega arith in rw (ih, e)

-- A text behind its length in `w` bytes.
unfoldable pub read_prefixed : ℕ → Bytes → Option (Bytes × Bytes)
read_prefixed w s = do (n, rest) ← read_le w s; read_bytes n rest

pub read_prefixed_lem :
    (w n : ℕ) (s rest : Bytes)
    → length s ≡ n
    → n < 256 ^ w
    → read_prefixed w (to_le_bytes w n ++ (s ++ rest)) ≡ some (s, rest)
unfolding read_prefixed
read_prefixed_lem w n s rest e h =
    rw (read_le-to_le_bytes w n (s ++ rest) h) (read_bytes_front n s rest e)
