-- ===== src/Base/Decimal/RoundTrip.antt =====
-- A printed number reads back.
use Prim.Native.Nat.{ℕ, zero, suc, ◌+◌, ◌-◌, ◌/◌, ◌%◌, ◌^◌, ◌≤◌, ◌<◌}
use mathlib.Core.Path.{◌≡◌, refl, sym, ◌∙◌, ap}
use mathlib.Core.Logic.{inl, inr}
use mathlib.Core.Bool.{false, ◌||◌}
use mathlib.Core.List.{[], ◌∷◌}
use mathlib.Core.Option
use mathlib.Core.Option.{Option, none, some}
use native.Mathlib.Omega.{arith}
use blocxxi.Base.Tests.{ltb, ◌==◌, Bool-cases}
use blocxxi.Base.Text.{Bytes}
use blocxxi.Base.Lists.{All}
use blocxxi.Base.Int.{ℤ, pos, negsuc}
use blocxxi.Base.Decimal.{
  digits, to_string, to_string_ℤ, scan, IsDigit, parse_unsigned, parse_int64, negative,
}

suc-ne-zero : (n : ℕ) → (suc n == 0) ≡ false
suc-ne-zero n = ground arith

scan_digit : (n : ℕ) (rest : Bytes) → scan ((b'0' + n % 10) ∷ rest) (n / 10) ≡ scan rest n
unfolding scan
scan_digit n rest = elim (Bool-cases (ltb (b'0' + n % 10) b'0' || ltb b'9' (b'0' + n % 10))) [
  | inl e ↦ absurd (ground arith)
  | inr e ↦ rw e (ap (scan rest) (omega arith))
]

-- Reading the digits of `n` and what follows them is reading what follows after `n`.
scan-digits :
    (rounds n : ℕ) (rest : Bytes) → n ≤ rounds → scan (digits rounds n rest) 0 ≡ scan rest n
unfolding digits
scan-digits zero zero rest h = refl
scan-digits zero (suc n) rest h = absurd (omega arith)
scan-digits (suc rounds) zero rest h = refl
scan-digits (suc rounds) (suc n) rest h = rw (suc-ne-zero n) (
    scan-digits rounds (suc n / 10) ((b'0' + suc n % 10) ∷ rest) (omega arith)
    ∙ scan_digit (suc n) rest)

digits-IsDigit :
    (rounds n : ℕ) (rest : Bytes) → All IsDigit rest → All IsDigit (digits rounds n rest)
unfolding digits
digits-IsDigit zero n rest h = h
digits-IsDigit (suc rounds) n rest h = elim (Bool-cases (n == 0)) [
  | inl e ↦ rw e h
  | inr e ↦
      rw e (digits-IsDigit rounds (n / 10) ((b'0' + n % 10) ∷ rest) ((omega arith, omega arith), h))
]

-- Digits in front of a text that is not empty.
digits_some :
    (rounds n c : ℕ) (rest : Bytes) → (d : ℕ) × (s : Bytes) × (digits rounds n (c ∷ rest) ≡ d ∷ s)
unfolding digits
digits_some zero n c rest = (c, rest, refl)
digits_some (suc rounds) n c rest = elim (Bool-cases (n == 0)) [
  | inl e ↦ rw e (c, rest, refl)
  | inr e ↦ rw e (digits_some rounds (n / 10) (b'0' + n % 10) (c ∷ rest))
]

to_string-suc : (n : ℕ) → to_string (suc n) ≡ digits (suc n) (suc n) []
unfolding to_string
to_string-suc n = rw (suc-ne-zero n)

to_string_zero : to_string 0 ≡ b'0' ∷ []
unfolding to_string
to_string_zero = refl

pub to_string-IsDigit : (n : ℕ) → All IsDigit (to_string n)
to_string-IsDigit zero = rw to_string_zero (omega arith)
to_string-IsDigit (suc n) = rw (to_string-suc n) (digits-IsDigit (suc n) (suc n) [] tt)

digits-suc : (n : ℕ) → (d : ℕ) × (s : Bytes) × (digits (suc n) (suc n) [] ≡ d ∷ s)
unfolding digits
digits-suc n = rw (suc-ne-zero n) (digits_some n (suc n / 10) (b'0' + suc n % 10) [])

pub to_string_some : (n : ℕ) → (c : ℕ) × (s : Bytes) × (to_string n ≡ c ∷ s)
to_string_some zero = (b'0', [], to_string_zero)
to_string_some (suc n) = rw (to_string-suc n) (digits-suc n)

pub scan-to_string : (n : ℕ) → scan (to_string n) 0 ≡ some n
scan-to_string zero = rw to_string_zero (unfold scan in refl)
scan-to_string (suc n) =
    rw (to_string-suc n) (scan-digits (suc n) (suc n) [] (omega arith) ∙ (unfold scan in refl))

parse_unsigned-scan :
    (limit c : ℕ) (s : Bytes) (n : ℕ)
    → scan (c ∷ s) 0 ≡ some n
    → n ≤ limit
    → parse_unsigned limit (c ∷ s) ≡ some n
unfolding parse_unsigned
parse_unsigned-scan limit c s n e h = ground (arith, e)

-- A printed number reads back as itself, if it is within the limit.
pub parse_unsigned-to_string :
    (limit n : ℕ) → n ≤ limit → parse_unsigned limit (to_string n) ≡ some n
parse_unsigned-to_string limit n h =
    let (c, s, e) = to_string_some n in
    ap (parse_unsigned limit) e
    ∙ parse_unsigned-scan limit c s n (ap (λ t. scan t 0) (sym e) ∙ scan-to_string n) h

head_IsDigit : (c : ℕ) (s t : Bytes) → All IsDigit t → t ≡ c ∷ s → IsDigit c
head_IsDigit c s t h e = (rw e at h).0

-- The same for a std::int64_t.
abbrev pub IsInt64 : ℤ → Type 0
IsInt64 (pos n) = n < 2 ^ 63
IsInt64 (negsuc n) = n < 2 ^ 63

parse_int64-pos :
    (c : ℕ) (s : Bytes)
    → IsDigit c
    → parse_int64 (c ∷ s) ≡ Option.map pos (parse_unsigned (2 ^ 63 - 1) (c ∷ s))
unfolding parse_int64
parse_int64-pos c s h = ground arith

pub parse_int64-to_string_ℤ : (i : ℤ) → IsInt64 i → parse_int64 (to_string_ℤ i) ≡ some i
unfolding to_string_ℤ parse_int64
parse_int64-to_string_ℤ (pos n) h =
    let (c, s, e) = to_string_some n in
    ap parse_int64 e
    ∙ parse_int64-pos c s (head_IsDigit c s (to_string n) (to_string-IsDigit n) e)
    ∙ ap (λ t. Option.map pos (parse_unsigned (2 ^ 63 - 1) t)) (sym e)
    ∙ ap (Option.map pos) (parse_unsigned-to_string (2 ^ 63 - 1) n (omega arith))
parse_int64-to_string_ℤ (negsuc n) h =
    ap (Option.map negative) (parse_unsigned-to_string (2 ^ 63) (suc n) (omega arith))
