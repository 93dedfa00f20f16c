-- ===== src/Propagator/Tests/Ids.antt =====
-- Ids of a fixed number of hexadecimal digits.
use opentelemetry_rust_contr.Common.{
  ℕ, zero, suc, ◌^◌, ◌%◌, ◌/◌, ◌+◌, ◌*◌, ◌<◌, [], ◌∷◌, ◌++◌, ◌≡◌, refl, ap, ◌∙◌, Option, none, some,
  length, length-append, All, All-append, ◌==◌, true, if◌then◌else◌, arith,
}
use opentelemetry_rust_contr.Common.Chars.{Chars}
use opentelemetry_rust_contr.Common.Numerals.{
  hex_digit_of, hex_digit_of-IsHex, IsHex, parse_digits, parse_digits-append, to_digit-hex_digit_of,
}
use mathlib.Core.Option
use native.Mathlib.Nat.{pow-suc, mod-lt, mod-eq_of_lt, one-le-pow}
use native.Mathlib.Bridge.{le_prop}
use std.HLevel.{prop→path_p}

pub record HexId (digits : ℕ) : Type 0 where
  pub number : ℕ
  pub small : number < 16 ^ digits

unfoldable pub print_hex : ℕ → ℕ → Chars
print_hex zero n = []
print_hex (suc w) n = print_hex w (n / 16) ++ hex_digit_of (n % 16) ∷ []

length-print_hex : (w n : ℕ) → length (print_hex w n) ≡ w
unfolding print_hex
length-print_hex zero n = refl
length-print_hex (suc w) n = omega (
  arith,
  length-append (print_hex w (n / 16)) (hex_digit_of (n % 16) ∷ []),
  length-print_hex w (n / 16),
)

print_hex-IsHex : (w n : ℕ) → All IsHex (print_hex w n)
unfolding print_hex
print_hex-IsHex zero n = tt
print_hex-IsHex (suc w) n =
    All-append IsHex (print_hex w (n / 16)) (hex_digit_of (n % 16) ∷ [])
      (print_hex-IsHex w (n / 16)) (hex_digit_of-IsHex (n % 16) (omega arith), tt)

parse-print_hex :
    (limit w n : ℕ) → n < limit → n < 16 ^ w → parse_digits 16 limit 0 (print_hex w n) ≡ some n
unfolding print_hex parse_digits
parse-print_hex limit zero n small h = ap some (omega arith)
parse-print_hex limit (suc w) n small h =
    let front = parse-print_hex limit w (n / 16) (omega arith) (omega (arith, pow-suc 16 w)) in
    let e : n / 16 * 16 + n % 16 ≡ n = omega arith in
    parse_digits-append 16 limit 0 (print_hex w (n / 16)) (hex_digit_of (n % 16) ∷ [])
    ∙ rw front (rw (to_digit-hex_digit_of (n % 16) (omega arith)) (rw e (ground arith)))

unfoldable pub make : (w : ℕ) → ℕ → HexId w
make w n = record { number = n % 16 ^ w; small = mod-lt n (one-le-pow w 16 (omega arith)) }

same_number : (w : ℕ) (a b : HexId w) → a.number ≡ b.number → a ≡ b
same_number w a b e =
    λ i. record { number = e i; small = prop→path_p (λ j. e j < 16 ^ w) le_prop a.small b.small i }

pub make_same : (w : ℕ) (i : HexId w) → make w i.number ≡ i
unfolding make
make_same w i = same_number w (make w i.number) i (mod-eq_of_lt i.small)

unfoldable pub to_hex : (w : ℕ) → HexId w → Chars
to_hex w i = print_hex w i.number

pub length-to_hex : (w : ℕ) (i : HexId w) → length (to_hex w i) ≡ w
unfolding to_hex
length-to_hex w i = length-print_hex w i.number

pub to_hex-IsHex : (w : ℕ) (i : HexId w) → All IsHex (to_hex w i)
unfolding to_hex
to_hex-IsHex w i = print_hex-IsHex w i.number

pub from_hex : (w : ℕ) → Chars → Option (HexId w)
from_hex w s = if length s == w then Option.map (make w) (parse_digits 16 (16 ^ w) 0 s) else none

pub from_hex-to_hex : (w : ℕ) (i : HexId w) → from_hex w (to_hex w i) ≡ some i
unfolding from_hex to_hex
from_hex-to_hex w i =
    let size : (length (print_hex w i.number) == w) ≡ true =
      ground (arith, length-print_hex w i.number) in
    rw size (rw (parse-print_hex (16 ^ w) w i.number i.small i.small) (ap some (make_same w i)))
