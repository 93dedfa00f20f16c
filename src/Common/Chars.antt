-- ===== src/Common/Chars.antt =====
-- Texts as lists of characters (code points), with what the parsers of headers use of `str`.
use opentelemetry_rust_contr.Common.Tests.{◌>>=◌, ltb, leb, ◌==◌, if◌then◌else◌, ==-refl}
use opentelemetry_rust_contr.Common.Lists.{All, length}
use opentelemetry_rust_contr.Common.Text.{is_whitespace}
use Prim.Native.Nat.{ℕ, ◌+◌, ◌-◌, ◌<◌}
use mathlib.Core.Path.{◌≡◌, refl}
use mathlib.Core.Bool.{Bool, false, ◌&&◌, ◌||◌}
use mathlib.Core.Option.{Option, none, some}
use mathlib.Core.List.{List, [], ◌∷◌, ◌++◌, reverse, reverse_aux, reverse-reverse}
use native.Mathlib.Omega.{arith}

abbrev pub Chars : Type 0
Chars = List ℕ

-- `str::len`: the bytes of the UTF-8 form.
unfoldable pub utf8_length : Chars → ℕ
utf8_length [] = 0
utf8_length (c ∷ s) =
    (if ltb c 0x80 then 1 else if ltb c 0x800 then 2 else if ltb c 0x10000 then 3 else 4)
    + utf8_length s

unfoldable pub trim_start : Chars → Chars
trim_start [] = []
trim_start (c ∷ s) = if is_whitespace c then trim_start s else c ∷ s

-- `str::trim`.
unfoldable pub trim : Chars → Chars
trim s = reverse (trim_start (reverse (trim_start s)))

-- `str::strip_prefix`.
unfoldable pub strip_prefix : Chars → Chars → Option Chars
strip_prefix [] s = some s
strip_prefix (c ∷ p) [] = none
strip_prefix (c ∷ p) (d ∷ s) = if c == d then strip_prefix p s else none

-- `str::split_once`: the text before the first place of the delimiter and the text behind it.
unfoldable pub split_once : Chars → Chars → Option (Chars × Chars)
split_once p [] = elim (strip_prefix p []) [ none ↦ none | some rest ↦ some ([], rest) ]
split_once p (d ∷ s) = elim (strip_prefix p (d ∷ s)) [
  | some rest ↦ some ([], rest)
  | none ↦ do (front, rest) ← split_once p s; some (d ∷ front, rest)
]

-- `str::split` by a character: the first part, and those behind it.
unfoldable pub split_parts : ℕ → Chars → Chars × List Chars
split_parts c [] = ([], [])
split_parts c (d ∷ s) =
    let (part, parts) = split_parts c s in if d == c then ([], part ∷ parts) else (d ∷ part, parts)

-- A last part that is empty is left out.
unfoldable pub last_part : Chars → List Chars
last_part [] = []
last_part (c ∷ s) = (c ∷ s) ∷ []

unfoldable pub terminated : Chars → List Chars → List Chars
unfolding last_part
terminated part [] = last_part part
terminated part (next ∷ parts) = part ∷ terminated next parts

-- `str::split_terminator`.
unfoldable pub split_terminator : ℕ → Chars → List Chars
split_terminator c s = let (part, parts) = split_parts c s in terminated part parts

-- `join`.
unfoldable pub join : Chars → List Chars → Chars
join sep [] = []
join sep (part ∷ []) = part
join sep (part ∷ next ∷ parts) = part ++ (sep ++ join sep (next ∷ parts))

unfoldable pub is_ascii_uppercase : ℕ → Bool
is_ascii_uppercase c = leb b'A' c && leb c b'Z'

unfoldable pub is_ascii_lowercase : ℕ → Bool
is_ascii_lowercase c = leb b'a' c && leb c b'z'

unfoldable pub to_lowercase_ascii : ℕ → ℕ
to_lowercase_ascii c = if is_ascii_uppercase c then c + 32 else c

unfoldable pub to_uppercase_ascii : ℕ → ℕ
to_uppercase_ascii c = if is_ascii_lowercase c then c - 32 else c

unfoldable pub any {ℓ} : {A : Type ℓ} → (A → Bool) → List A → Bool
any test [] = false
any test (c ∷ s) = test c || any test s

-- Characters of ids and numbers: letters, digits and what is above the blank.
abbrev pub IsPlain : ℕ → Type 0
IsPlain c = (0x20 < c) × (c < 0x7f)

trim_start-IsPlain : (s : Chars) → All IsPlain s → trim_start s ≡ s
unfolding trim_start is_whitespace
trim_start-IsPlain [] h = refl
trim_start-IsPlain (c ∷ s) h = ground arith

All-reverse_aux : (P : ℕ → Type 0) (s t : Chars) → All P s → All P t → All P (reverse_aux s t)
All-reverse_aux P [] t hs ht = ht
All-reverse_aux P (c ∷ s) t hs ht = All-reverse_aux P s (c ∷ t) hs.1 (hs.0, ht)

pub trim-IsPlain : (s : Chars) → All IsPlain s → trim s ≡ s
unfolding trim
trim-IsPlain s h =
    rw (trim_start-IsPlain s h)
      (rw (trim_start-IsPlain (reverse s) (All-reverse_aux IsPlain s [] h tt)) (reverse-reverse s))

-- A text without the character.
abbrev pub Without : ℕ → Chars → Type 0
Without c s = All (λ d. (d == c) ≡ false) s

pub All-map {ℓ κ} :
    {A : Type ℓ} {P Q : A → Type κ} (imp : (a : A) → P a → Q a) (s : List A) → All P s → All Q s
All-map imp [] h = tt
All-map imp (a ∷ s) h = (imp a h.0, All-map imp s h.1)

-- The delimiter is found at its first place, where its first character does not stand before it.
strip_prefix-append : (p s : Chars) → strip_prefix p (p ++ s) ≡ some s
unfolding strip_prefix
strip_prefix-append [] s = refl
strip_prefix-append (c ∷ p) s = rw (==-refl c) (strip_prefix-append p s)

pub split_once-append :
    (c : ℕ) (p front rest : Chars)
    → Without c front
    → split_once (c ∷ p) (front ++ ((c ∷ p) ++ rest)) ≡ some (front, rest)
split_once-append c p [] rest h =
    unfold split_once in rw (strip_prefix-append (c ∷ p) rest, split_once)
split_once-append c p (d ∷ front) rest h =
    let other : (c == d) ≡ false = ground arith in
    let miss : strip_prefix (c ∷ p) (d ∷ (front ++ ((c ∷ p) ++ rest))) ≡ none =
      unfold strip_prefix in rw other in
    let found = split_once-append c p front rest h.1 in
    split_once_miss c p d (front ++ ((c ∷ p) ++ rest)) front rest miss found
  where
    split_once_miss :
        (c : ℕ) (p : Chars) (d : ℕ) (s front rest : Chars)
        → strip_prefix (c ∷ p) (d ∷ s) ≡ none
        → split_once (c ∷ p) s ≡ some (front, rest)
        → split_once (c ∷ p) (d ∷ s) ≡ some (d ∷ front, rest)
    split_once_miss c p d s front rest miss found =
        unfold split_once in rw (miss, split_once) (rw found)

pub split_parts_one : (c : ℕ) (s : Chars) → Without c s → split_parts c s ≡ (s, [])
unfolding split_parts
split_parts_one c [] h = refl
split_parts_one c (d ∷ s) h = rw (split_parts_one c s h.1, h.0)

pub split_parts-append :
    (c : ℕ) (s rest : Chars)
    → Without c s
    → split_parts c (s ++ c ∷ rest) ≡ (s, (split_parts c rest).0 ∷ (split_parts c rest).1)
unfolding split_parts
split_parts-append c [] rest h = rw (==-refl c)
split_parts-append c (d ∷ s) rest h = rw (split_parts-append c s rest h.1, h.0)

pub split_terminator-append :
    (c : ℕ) (s rest : Chars)
    → Without c s
    → split_terminator c (s ++ c ∷ rest) ≡ s ∷ split_terminator c rest
unfolding split_terminator
split_terminator-append c s rest h = rw (split_parts-append c s rest h) (unfold terminated in refl)

pub split_terminator_last :
    (c : ℕ) (s : Chars) → 0 < length s → Without c s → split_terminator c s ≡ s ∷ []
unfolding split_terminator
split_terminator_last c [] pos h = absurd (omega arith)
split_terminator_last c (d ∷ s) pos h = rw (split_parts_one c (d ∷ s) h) (unfold terminated in refl)

pub any-false {ℓ} :
    {A : Type ℓ} (test : A → Bool) (s : List A) → All (λ a. test a ≡ false) s → any test s ≡ false
unfolding any
any-false test [] h = refl
any-false test (c ∷ s) h = rw (h.0) (any-false test s h.1)

pub utf8_length-IsPlain : (s : Chars) → All IsPlain s → utf8_length s ≡ length s
unfolding utf8_length
utf8_length-IsPlain [] h = refl
utf8_length-IsPlain (c ∷ s) h = ground (arith, utf8_length-IsPlain s h.1)
