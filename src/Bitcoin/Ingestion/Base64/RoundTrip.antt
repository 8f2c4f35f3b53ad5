-- ===== src/Bitcoin/Ingestion/Base64/RoundTrip.antt =====
-- Base64Encode is the Base64 encoding.
use blocxxi.Base.{
  sym, zero, Bool, true, ◌&&◌, ltb, ◌==◌, if◌then◌else◌, Bool-cases, inl, inr, subst, ℕ, suc, ◌+◌,
  ◌-◌, ◌*◌, ◌/◌, ◌%◌, ◌^◌, ◌<◌, ◌≡◌, refl, ap, ◌∙◌, ◌++◌, [], ◌∷◌, Bytes, IsByte, All, length,
  replicate, arith,
}
use blocxxi.Bitcoin.Ingestion.Base64.{symbol, flush, encode_bits, base64_encode}

-- The symbol of six bits: the capital letters, the small letters, the digits, '+' and '/'.
unfoldable pub base64_digit : ℕ → ℕ
base64_digit n =
    if ltb n 26
    then b'A' + n
    else if ltb n 52
    then b'a' + (n - 26)
    else if ltb n 62
    then b'0' + (n - 52)
    else if n == 62
    then b'+'
    else b'/'

-- Three bytes are four symbols of six bits each; one or two bytes in the end are filled up by '='.
unfoldable pub base64 : Bytes → Bytes
unfolding base64_digit
base64 [] = []
base64 (a ∷ []) = base64_digit (a / 4) ∷ base64_digit (a % 4 * 16) ∷ b'=' ∷ b'=' ∷ []
base64 (a ∷ b ∷ []) =
    base64_digit (a / 4)
    ∷ base64_digit (a % 4 * 16 + b / 16)
    ∷ base64_digit (b % 16 * 4)
    ∷ b'='
    ∷ []
base64 (a ∷ b ∷ c ∷ value) =
    base64_digit (a / 4)
    ∷ base64_digit (a % 4 * 16 + b / 16)
    ∷ base64_digit (b % 16 * 4 + c / 64)
    ∷ base64_digit (c % 64)
    ∷ base64 value

-- The test, at each number below `n`.
all_below : ℕ → (ℕ → Bool) → Bool
all_below zero test = true
all_below (suc n) test = test n && all_below n test

below : (n i : ℕ) (test : ℕ → Bool) → all_below n test ≡ true → i < n → test i ≡ true
unfolding all_below
below zero i test h less = absurd (omega (arith, less))
below (suc n) i test h less = elim (Bool-cases (i == n)) [
  | inl e ↦ subst (λ m. test m ≡ true) (sym (same e)) (ground (arith, h))
  | inr e ↦ below n i test (ground (arith, h)) (ground (arith, e, less))
]
  where
    same : i == n ≡ true → i ≡ n
    same e = ground (arith, e)

symbol-base64_digit : (i : ℕ) → i < 64 → symbol i ≡ base64_digit i
symbol-base64_digit i less = ground (arith, below 64 i (λ n. symbol n == base64_digit n) each less)
  where
    each : all_below 64 (λ n. symbol n == base64_digit n) ≡ true
    each = unfold all_below symbol base64_digit in refl

-- The same over the symbols of the code.
unfoldable by_symbols : Bytes → Bytes
by_symbols [] = []
by_symbols (a ∷ []) = symbol (a / 4) ∷ symbol (a % 4 * 16) ∷ b'=' ∷ b'=' ∷ []
by_symbols (a ∷ b ∷ []) =
    symbol (a / 4) ∷ symbol (a % 4 * 16 + b / 16) ∷ symbol (b % 16 * 4) ∷ b'=' ∷ []
by_symbols (a ∷ b ∷ c ∷ value) =
    symbol (a / 4)
    ∷ symbol (a % 4 * 16 + b / 16)
    ∷ symbol (b % 16 * 4 + c / 64)
    ∷ symbol (c % 64)
    ∷ by_symbols value

abbrev pad : ℕ → Bytes
pad n = replicate ((4 - n % 4) % 4) b'='

-- The loops, from an accumulator with no bits left.
padded : Bytes → ℕ → Bytes
padded value accumulator =
    encode_bits value accumulator 0 ++ pad (length (encode_bits value accumulator 0))

one : (a x : ℕ) → a < 256 → padded (a ∷ []) x ≡ by_symbols (a ∷ [])
unfolding padded encode_bits flush by_symbols
one a x h = (λ i. symbol (first i) ∷ symbol (second i) ∷ b'=' ∷ b'=' ∷ [])
  where
    first : (x * 256 + a) % 2 ^ 32 / 4 % 64 ≡ a / 4
    first = omega (arith, h)

    second : (x * 256 + a) % 2 ^ 32 * 16 % 2 ^ 32 % 64 ≡ a % 4 * 16
    second = omega (arith, h)

two : (a b x : ℕ) → a < 256 → b < 256 → padded (a ∷ b ∷ []) x ≡ by_symbols (a ∷ b ∷ [])
unfolding padded encode_bits flush by_symbols
two a b x h k = (λ i. symbol (first i) ∷ symbol (second i) ∷ symbol (third i) ∷ b'=' ∷ [])
  where
    first : (x * 256 + a) % 2 ^ 32 / 4 % 64 ≡ a / 4
    first = omega (arith, h)

    second : ((x * 256 + a) % 2 ^ 32 * 256 + b) % 2 ^ 32 / 16 % 64 ≡ a % 4 * 16 + b / 16
    second = omega (arith, h, k)

    third : ((x * 256 + a) % 2 ^ 32 * 256 + b) % 2 ^ 32 * 4 % 2 ^ 32 % 64 ≡ b % 16 * 4
    third = omega (arith, h, k)

module _ (a b c x : ℕ) (value : Bytes) (ha : a < 256) (hb : b < 256) (hc : c < 256) where
  behind : ℕ
  behind = (((x * 256 + a) % 2 ^ 32 * 256 + b) % 2 ^ 32 * 256 + c) % 2 ^ 32

  group :
      encode_bits (a ∷ b ∷ c ∷ value) x 0
      ≡ symbol (a / 4)
        ∷ symbol (a % 4 * 16 + b / 16)
        ∷ symbol (b % 16 * 4 + c / 64)
        ∷ symbol (c % 64)
        ∷ encode_bits value behind 0
  unfolding encode_bits flush behind
  group = (λ i.
      symbol (first i)
      ∷ symbol (second i)
      ∷ symbol (third i)
      ∷ symbol (fourth i)
      ∷ encode_bits value ((((x * 256 + a) % 2 ^ 32 * 256 + b) % 2 ^ 32 * 256 + c) % 2 ^ 32) 0)
    where
      first : (x * 256 + a) % 2 ^ 32 / 4 % 64 ≡ a / 4
      first = omega (arith, ha)

      second : ((x * 256 + a) % 2 ^ 32 * 256 + b) % 2 ^ 32 / 16 % 64 ≡ a % 4 * 16 + b / 16
      second = omega (arith, ha, hb)

      third :
          (((x * 256 + a) % 2 ^ 32 * 256 + b) % 2 ^ 32 * 256 + c) % 2 ^ 32 / 64 % 64
          ≡ b % 16 * 4 + c / 64
      third = omega (arith, hb, hc)

      fourth : (((x * 256 + a) % 2 ^ 32 * 256 + b) % 2 ^ 32 * 256 + c) % 2 ^ 32 / 1 % 64 ≡ c % 64
      fourth = omega (arith, hc)

pad_four : (n : ℕ) → pad (suc (suc (suc (suc n)))) ≡ pad n
pad_four n = ap (λ k. replicate k b'=') (omega arith)

next :
    (a b c x : ℕ) (value : Bytes) (ha : a < 256) (hb : b < 256) (hc : c < 256)
    → padded value (behind a b c x value ha hb hc) ≡ by_symbols value
    → padded (a ∷ b ∷ c ∷ value) x ≡ by_symbols (a ∷ b ∷ c ∷ value)
unfolding padded by_symbols
next a b c x value ha hb hc ih =
    let rest = encode_bits value (behind a b c x value ha hb hc) 0 in
    ap (λ s. s ++ pad (length s)) (group a b c x value ha hb hc)
    ∙ ap
        (λ s.
          symbol (a / 4)
          ∷ symbol (a % 4 * 16 + b / 16)
          ∷ symbol (b % 16 * 4 + c / 64)
          ∷ symbol (c % 64)
          ∷ s)
        (ap (λ s. rest ++ s) (pad_four (length rest)) ∙ ih)

padded-eq-by_symbols :
    (value : Bytes) (x : ℕ) → All IsByte value → padded value x ≡ by_symbols value
padded-eq-by_symbols [] x h = unfold padded encode_bits by_symbols in refl
padded-eq-by_symbols (a ∷ []) x h = one a x h.0
padded-eq-by_symbols (a ∷ b ∷ []) x h = two a b x h.0 h.1.0
padded-eq-by_symbols (a ∷ b ∷ c ∷ value) x h =
    next a b c x value h.0 h.1.0 h.1.1.0
      (padded-eq-by_symbols value (behind a b c x value h.0 h.1.0 h.1.1.0) h.1.1.1)

by_symbols-eq-base64 : (value : Bytes) → All IsByte value → by_symbols value ≡ base64 value
unfolding by_symbols base64
by_symbols-eq-base64 [] h = refl
by_symbols-eq-base64 (a ∷ []) h = simp (
  symbol-base64_digit (a / 4) (omega (arith, h.0)),
  symbol-base64_digit (a % 4 * 16) (omega (arith, h.0)),
)
by_symbols-eq-base64 (a ∷ b ∷ []) h = simp (
  symbol-base64_digit (a / 4) (omega (arith, h.0)),
  symbol-base64_digit (a % 4 * 16 + b / 16) (omega (arith, h.0, h.1.0)),
  symbol-base64_digit (b % 16 * 4) (omega (arith, h.1.0)),
)
by_symbols-eq-base64 (a ∷ b ∷ c ∷ value) h = simp (
  symbol-base64_digit (a / 4) (omega (arith, h.0)),
  symbol-base64_digit (a % 4 * 16 + b / 16) (omega (arith, h.0, h.1.0)),
  symbol-base64_digit (b % 16 * 4 + c / 64) (omega (arith, h.1.0, h.1.1.0)),
  symbol-base64_digit (c % 64) (omega arith),
  by_symbols-eq-base64 value h.1.1.1,
)

-- Base64Encode, whose accumulator is a std::uint32_t that overflows, gives for any bytes their
-- Base64 encoding: three bytes are four symbols of six bits each, from the capital letters, the small
-- letters, the digits, '+' and '/', and the end is filled up by '='.
pub base64_encode-eq-base64 :
    (value : Bytes) → All IsByte value → base64_encode value ≡ base64 value
unfolding base64_encode padded
base64_encode-eq-base64 value h = padded-eq-by_symbols value 0 h ∙ by_symbols-eq-base64 value h
