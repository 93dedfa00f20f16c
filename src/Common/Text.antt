-- ===== src/Common/Text.antt =====
-- Text. A Rust `str` is its UTF-8 bytes; its characters are what `chars` decodes.
use opentelemetry_rust_contr.Common.Tests.{◌>>=◌, ltb, leb, ◌==◌, if◌then◌else◌}
use opentelemetry_rust_contr.Common.Lists.{All}
use opentelemetry_rust_contr.Common.Bytes.{Bytes}
use Prim.Native.Nat.{ℕ, ◌+◌, ◌-◌, ◌*◌, ◌/◌, ◌%◌, ◌<◌}
use Prim.Native.Char.{code}
use Prim.Native.String.{String}
use mathlib.Core.Path.{◌≡◌, refl}
use mathlib.Core.Logic.{◌↔◌}
use mathlib.Core.Bool.{Bool, true, false, ◌&&◌, ◌||◌}
use mathlib.Core.Option
use mathlib.Core.Option.{Option, none, some}
use mathlib.Core.List.{List, [], ◌∷◌, ◌++◌}
use native.Mathlib.Omega.{arith}

abbrev pub Str : Type 0
Str = Bytes

-- The bytes of an ASCII literal.
abbrev pub codes : String → Bytes
codes String.[] = []
codes (String.◌∷◌ c s) = code c ∷ codes s

unfoldable pub str_eq : Str → Str → Bool
str_eq [] [] = true
str_eq [] (b ∷ t) = false
str_eq (a ∷ s) [] = false
str_eq (a ∷ s) (b ∷ t) = a == b && str_eq s t

pub str_eq_iff : (s t : Str) → (str_eq s t ≡ true) ↔ (s ≡ t)
unfolding str_eq
str_eq_iff [] [] = (λ _. refl, λ _. refl)
str_eq_iff [] (b ∷ t) = (λ h. cc, λ h. cc)
str_eq_iff (a ∷ s) [] = (λ h. cc, λ h. cc)
str_eq_iff (a ∷ s) (b ∷ t) = ground (arith, str_eq_iff s t)

pub str_eq_refl : (s : Str) → str_eq s s ≡ true
str_eq_refl s = (str_eq_iff s s).1 refl

-- The state of a UTF-8 decoder: the continuation bytes still wanted, the value so far, and the range
-- of the next continuation byte.
pub record Decoder : Type 0 where
  pub want : ℕ
  pub acc : ℕ
  pub lo : ℕ
  pub hi : ℕ

abbrev pub ready : Decoder
ready = record { want = 0; acc = 0; lo = 0x80; hi = 0xbf }

-- The first byte of a character: the character if it is ASCII, and the next state.
unfoldable pub lead : ℕ → Option (List ℕ × Decoder)
lead b =
    if ltb b 0x80
    then some (b ∷ [], ready)
    else if ltb b 0xc2
    then none
    else if ltb b 0xe0
    then some ([], record { want = 1; acc = b - 0xc0; lo = 0x80; hi = 0xbf })
    else if b == 0xe0
    then some ([], record { want = 2; acc = 0; lo = 0xa0; hi = 0xbf })
    else if b == 0xed
    then some ([], record { want = 2; acc = 13; lo = 0x80; hi = 0x9f })
    else if ltb b 0xf0
    then some ([], record { want = 2; acc = b - 0xe0; lo = 0x80; hi = 0xbf })
    else if b == 0xf0
    then some ([], record { want = 3; acc = 0; lo = 0x90; hi = 0xbf })
    else if ltb b 0xf4
    then some ([], record { want = 3; acc = b - 0xf0; lo = 0x80; hi = 0xbf })
    else if b == 0xf4
    then some ([], record { want = 3; acc = 4; lo = 0x80; hi = 0x8f })
    else none

-- A continuation byte, where `n` more follow it.
unfoldable pub continuation : ℕ → Decoder → ℕ → Option (List ℕ × Decoder)
continuation n d b =
    if leb d.lo b && leb b d.hi
    then (if n == 0
        then some ((d.acc * 64 + (b - 0x80)) ∷ [], ready)
        else some ([], record { want = n; acc = d.acc * 64 + (b - 0x80); lo = 0x80; hi = 0xbf }))
    else none

unfoldable pub decode_byte : Decoder → ℕ → Option (List ℕ × Decoder)
unfolding lead continuation
decode_byte d b = if d.want == 0 then lead b else continuation (d.want - 1) d b

unfoldable pub decode : Decoder → Bytes → Option (List ℕ)
unfolding decode_byte
decode d [] = if d.want == 0 then some [] else none
decode d (b ∷ s) = do (out, d') ← decode_byte d b; rest ← decode d' s; some (out ++ rest)

-- The characters of a byte string; `none` where it is not UTF-8.
unfoldable pub chars : Bytes → Option (List ℕ)
unfolding decode
chars s = decode ready s

-- `std::str::from_utf8(s).ok()`.
unfoldable pub from_utf8 : Bytes → Option Str
unfolding chars
from_utf8 s = do _ ← chars s; some s

-- The property White_Space of Unicode, by which `str::trim` goes.
unfoldable pub is_whitespace : ℕ → Bool
is_whitespace c =
    leb 9 c && leb c 13
    || c == 0x20
    || c == 0x85
    || c == 0xa0
    || c == 0x1680
    || leb 0x2000 c && leb c 0x200a
    || c == 0x2028
    || c == 0x2029
    || c == 0x202f
    || c == 0x205f
    || c == 0x3000

unfoldable pub is_blank : List ℕ → Bool
unfolding is_whitespace
is_blank [] = true
is_blank (c ∷ s) = is_whitespace c && is_blank s

-- The UTF-16 code units of a character.
unfoldable pub utf16_units : ℕ → List ℕ
utf16_units c =
    if ltb c 0x10000
    then c ∷ []
    else (0xd800 + (c - 0x10000) / 1024) ∷ (0xdc00 + (c - 0x10000) % 1024) ∷ []

unfoldable pub utf16_of : List ℕ → List ℕ
unfolding utf16_units
utf16_of [] = []
utf16_of (c ∷ s) = utf16_units c ++ utf16_of s

-- `s.encode_utf16()`; a `str` is always UTF-8, so the empty list is never taken for a bad one.
unfoldable pub encode_utf16 : Str → List ℕ
unfolding utf16_of chars
encode_utf16 s = utf16_of (Option.get_or (chars s) [])

pub chars_ascii : (s : Bytes) → All (λ b. b < 128) s → chars s ≡ some s
unfolding chars lead decode_byte decode
chars_ascii [] h = refl
chars_ascii (b ∷ s) h = ground (arith, chars_ascii s h.1)

pub from_utf8_ascii : (s : Bytes) → All (λ b. b < 128) s → from_utf8 s ≡ some s
unfolding from_utf8
from_utf8_ascii s h = rw (chars_ascii s h)

-- A text that `from_utf8` returns is the bytes that it was given.
pub from_utf8_same : (s : Bytes) {t : Str} → from_utf8 s ≡ some t → t ≡ s
unfolding from_utf8
from_utf8_same s h = ground arith
