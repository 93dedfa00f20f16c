-- ===== src/Common/Numerals.antt =====
-- Numbers in text, as Rust's `Display`, `LowerHex`, `from_str` and `from_str_radix` write and read them.
use opentelemetry_rust_contr.Common.Tests.{
  ◌>>=◌, ltb, leb, ◌==◌, if◌then◌else◌, ltb→lt, Bool-cases, Option-cases,
}
use opentelemetry_rust_contr.Common.Lists.{All, All-append, length, length-append}
use opentelemetry_rust_contr.Common.Chars.{Chars, IsPlain, Without}
use Prim.Native.Nat.{ℕ, zero, suc, ◌+◌, ◌-◌, ◌*◌, ◌/◌, ◌%◌, ◌^◌, ◌<◌, ◌≤◌}
use mathlib.Core.Path.{◌≡◌, refl, ap, ◌∙◌}
use mathlib.Core.Logic.{inl, inr}
use native.Mathlib.Nat.{pow-suc}
use mathlib.Core.Bool.{Bool, true, false, ◌&&◌, ◌||◌}
use mathlib.Core.Option.{Option, none, some}
use mathlib.Core.List.{[], ◌∷◌, ◌++◌}
use native.Mathlib.Omega.{arith}

-- `char::to_digit`.
unfoldable pub to_digit : ℕ → ℕ → Option ℕ
to_digit radix c =
    let d =
      if leb b'0' c && leb c b'9'
      then c - b'0'
      else if leb b'a' c && leb c b'z'
      then c - b'a' + 10
      else if leb b'A' c && leb c b'Z'
      then c - b'A' + 10
      else 36 in
    if ltb d radix then some d else none

-- The digits of a number below `limit`, behind those read so far; `none` for another character or a
-- number that is too large.
unfoldable pub parse_digits : ℕ → ℕ → ℕ → Chars → Option ℕ
parse_digits radix limit acc [] = some acc
parse_digits radix limit acc (c ∷ s) = do
  d ← to_digit radix c
  let n = acc * radix + d
  if ltb n limit then parse_digits radix limit n s else none

unfoldable pub parse_nonempty : ℕ → ℕ → Chars → Option ℕ
parse_nonempty radix limit [] = none
parse_nonempty radix limit (c ∷ s) = parse_digits radix limit 0 (c ∷ s)

-- `from_str_radix` of an unsigned type whose numbers are below `limit`: one `+` may stand in front.
unfoldable pub from_str_radix : ℕ → ℕ → Chars → Option ℕ
from_str_radix radix limit [] = none
from_str_radix radix limit (c ∷ s) =
    if c == b'+' then parse_nonempty radix limit s else parse_digits radix limit 0 (c ∷ s)

-- Decimal digits, `fuel + 1` at most.
unfoldable pub print_digits : ℕ → ℕ → Chars
print_digits zero n = (b'0' + n % 10) ∷ []
print_digits (suc fuel) n = elim (ltb n 10) [
  | true ↦ (b'0' + n) ∷ []
  | false ↦ print_digits fuel (n / 10) ++ (b'0' + n % 10) ∷ []
]

-- `to_string` of a number of 64 bits, which has 20 digits at most.
unfoldable pub to_string : ℕ → Chars
to_string n = print_digits 19 n

unfoldable pub hex_digit_of : ℕ → ℕ
hex_digit_of d = if leb d 9 then b'0' + d else b'a' + (d - 10)

-- `{:02x}` of a byte.
unfoldable pub hex_byte : ℕ → Chars
hex_byte b = hex_digit_of (b / 16 % 16) ∷ hex_digit_of (b % 16) ∷ []

abbrev pub IsDecimal : ℕ → Type 0
IsDecimal c = (b'0' ≤ c) × (c ≤ b'9')

pub parse_digits-append :
    (radix limit acc : ℕ) (s t : Chars)
    → parse_digits radix limit acc (s ++ t)
      ≡ (parse_digits radix limit acc s >>= λ n. parse_digits radix limit n t)
unfolding parse_digits
parse_digits-append radix limit acc [] t = refl
parse_digits-append radix limit acc (c ∷ s) t = elim (Option-cases (to_digit radix c)) [
  | inl e ↦ rw e
  | inr (d, e) ↦ elim (Bool-cases (ltb (acc * radix + d) limit)) [
    | inl small ↦ rw e (rw small (parse_digits-append radix limit (acc * radix + d) s t))
    | inr large ↦ rw e (rw large)
  ]
]

to_digit_decimal : (d : ℕ) → d < 10 → to_digit 10 (b'0' + d) ≡ some d
unfolding to_digit
to_digit_decimal d h = ground arith

parse_digit :
    (limit acc d : ℕ)
    → d < 10
    → acc * 10 + d < limit
    → parse_digits 10 limit acc ((b'0' + d) ∷ []) ≡ some (acc * 10 + d)
unfolding parse_digits
parse_digit limit acc d h small = rw (to_digit_decimal d h) (ground arith)

parse_digits-print_digits :
    (limit fuel n : ℕ)
    → n < limit
    → n < 10 ^ suc fuel
    → parse_digits 10 limit 0 (print_digits fuel n) ≡ some n
unfolding print_digits
parse_digits-print_digits limit zero n small h =
    let e : n % 10 ≡ n = omega arith in
    let z : 0 * 10 + n ≡ n = omega arith in
    rw e (parse_digit limit 0 n (omega arith) (omega arith) ∙ ap some z)
parse_digits-print_digits limit (suc fuel) n small h = elim (Bool-cases (ltb n 10)) [
  | inl one ↦
      let z : 0 * 10 + n ≡ n = omega arith in
      rw (one, print_digits) (parse_digit limit 0 n (ltb→lt n 10 one) (omega arith) ∙ ap some z)
  | inr more ↦
      let front =
        parse_digits-print_digits limit fuel (n / 10) (omega arith)
          (omega (arith, pow-suc 10 (suc fuel))) in
      let e : n / 10 * 10 + n % 10 ≡ n = omega arith in
      rw (more, print_digits)
        (parse_digits-append 10 limit 0 (print_digits fuel (n / 10)) ((b'0' + n % 10) ∷ [])
          ∙ rw front (parse_digit limit (n / 10) (n % 10) (omega arith) (omega arith) ∙ ap some e))
]

print_digits-IsDecimal : (fuel n : ℕ) → All IsDecimal (print_digits fuel n)
unfolding print_digits
print_digits-IsDecimal zero n = omega arith
print_digits-IsDecimal (suc fuel) n = elim (Bool-cases (ltb n 10)) [
  | inl one ↦ rw (one, print_digits) (omega (arith, ltb→lt n 10 one))
  | inr more ↦
      rw (more, print_digits)
        (All-append IsDecimal (print_digits fuel (n / 10)) ((b'0' + n % 10) ∷ [])
          (print_digits-IsDecimal fuel (n / 10)) (omega arith))
]

pub to_string-IsDecimal : (n : ℕ) → All IsDecimal (to_string n)
unfolding to_string
to_string-IsDecimal n = print_digits-IsDecimal 19 n

length-print_digits : (fuel n : ℕ) → 0 < length (print_digits fuel n)
unfolding print_digits
length-print_digits zero n = omega arith
length-print_digits (suc fuel) n = elim (Bool-cases (ltb n 10)) [
  | inl one ↦ rw (one, print_digits) (omega arith)
  | inr more ↦
      rw (more, print_digits)
        (omega (arith, length-append (print_digits fuel (n / 10)) ((b'0' + n % 10) ∷ [])))
]

from_str_radix_plain :
    (radix limit n : ℕ) (s : Chars)
    → 0 < length s
    → All IsDecimal s
    → parse_digits radix limit 0 s ≡ some n
    → from_str_radix radix limit s ≡ some n
unfolding from_str_radix
from_str_radix_plain radix limit n [] pos dec e = absurd (omega arith)
from_str_radix_plain radix limit n (c ∷ s) pos dec e =
    let sign : (c == b'+') ≡ false = ground arith in rw sign e

-- A printed number is read back, where it is below the limit and has 64 bits.
pub from_str_radix-to_string :
    (limit n : ℕ) → n < limit → n < 2 ^ 64 → from_str_radix 10 limit (to_string n) ≡ some n
unfolding to_string
from_str_radix-to_string limit n small h =
    from_str_radix_plain 10 limit n (print_digits 19 n) (length-print_digits 19 n)
      (print_digits-IsDecimal 19 n) (parse_digits-print_digits limit 19 n small (omega arith))

pub to_digit-hex_digit_of : (d : ℕ) → d < 16 → to_digit 16 (hex_digit_of d) ≡ some d
unfolding to_digit hex_digit_of
to_digit-hex_digit_of d h = ground arith

hex_digit_of_sign : (d : ℕ) → (hex_digit_of d == b'+') ≡ false
unfolding hex_digit_of
hex_digit_of_sign d = ground arith

pub from_str_radix-hex_byte : (b : ℕ) → b < 256 → from_str_radix 16 256 (hex_byte b) ≡ some b
unfolding from_str_radix hex_byte parse_digits
from_str_radix-hex_byte b h =
    let high = to_digit-hex_digit_of (b / 16 % 16) (omega arith) in
    let low = to_digit-hex_digit_of (b % 16) (omega arith) in
    let small : ltb (0 * 16 + b / 16 % 16) 256 ≡ true = ground arith in
    let whole : (0 * 16 + b / 16 % 16) * 16 + b % 16 ≡ b = omega arith in
    let fits : ltb b 256 ≡ true = ground arith in
    rw (hex_digit_of_sign (b / 16 % 16)) (rw (high, low) (rw (small, whole) (rw fits)))

-- The digits that hexadecimal ids are printed with.
abbrev pub is_hex : ℕ → Bool
is_hex c = leb b'0' c && leb c b'9' || leb b'a' c && leb c b'f'

abbrev pub IsHex : ℕ → Type 0
IsHex c = is_hex c ≡ true

pub hex_digit_of-IsHex : (d : ℕ) → d < 16 → IsHex (hex_digit_of d)
unfolding hex_digit_of
hex_digit_of-IsHex d h = ground arith

pub hex_byte-IsHex : (b : ℕ) → All IsHex (hex_byte b)
unfolding hex_byte
hex_byte-IsHex b = (
  hex_digit_of-IsHex (b / 16 % 16) (omega arith),
  (hex_digit_of-IsHex (b % 16) (omega arith), tt),
)

pub IsHex-Without : (c : ℕ) (s : Chars) → is_hex c ≡ false → All IsHex s → Without c s
IsHex-Without c [] h hex = tt
IsHex-Without c (d ∷ s) h hex = (ground arith, IsHex-Without c s h hex.1)

pub IsHex-IsPlain : (s : Chars) → All IsHex s → All IsPlain s
IsHex-IsPlain [] hex = tt
IsHex-IsPlain (d ∷ s) hex = (ground arith, IsHex-IsPlain s hex.1)

pub IsDecimal-IsHex : (s : Chars) → All IsDecimal s → All IsHex s
IsDecimal-IsHex [] dec = tt
IsDecimal-IsHex (d ∷ s) dec = (ground arith, IsDecimal-IsHex s dec.1)
