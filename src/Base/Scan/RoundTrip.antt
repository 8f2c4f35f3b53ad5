-- ===== src/Base/Scan/RoundTrip.antt =====
-- What was written line by line, or piece by piece, or as a number, is read back.
use Prim.Native.Nat.{ℕ, suc, ◌+◌, ◌-◌, ◌*◌, ◌^◌, ◌≤◌, ◌<◌}
use mathlib.Core.Path.{◌≡◌, ◌∙◌, refl, ap, sym, subst}
use mathlib.Core.Logic.{◌≢◌, inl, inr}
use mathlib.Core.List.{[], ◌∷◌, ◌++◌}
use mathlib.Core.Option.{some}
use native.Mathlib.Omega.{arith}
use blocxxi.Base.Tests.{◌==◌, Bool-cases}
use blocxxi.Base.Text.{Bytes}
use blocxxi.Base.Lists.{All}
use blocxxi.Base.Int.{ℤ, pos, negsuc}
use blocxxi.Base.Outcomes.{ok, ◌>>=◌}
use blocxxi.Base.Decimal.{to_string, to_string_ℤ, scan, IsDigit, negative}
use blocxxi.Base.Decimal.RoundTrip.{to_string-IsDigit, to_string_some, scan-to_string, IsInt64}
use blocxxi.Base.Scan.{
  lines, split, skip_space, scan_front, magnitude, unsigned_text, stoull, signed_text, stol,
}

-- A line that was ended, in front of others.
pub lines-append :
    (line rest : Bytes)
    → All (λ c. c ≢ b'\n') line
    → lines (line ++ b'\n' ∷ rest) ≡ line ∷ lines rest
unfolding lines
lines-append [] rest h = refl
lines-append (c ∷ line) rest h = ground (arith, lines-append line rest h.1, h.0)

-- A piece in front of a separator.
pub split-append :
    (separator : ℕ) (piece rest : Bytes)
    → All (λ c. c ≢ separator) piece
    → split separator (piece ++ separator ∷ rest) ≡ piece ∷ split separator rest
unfolding split
split-append separator [] rest h = ground arith
split-append separator (c ∷ piece) rest h =
    ground (arith, split-append separator piece rest h.1, h.0)

-- The last piece.
pub split_last :
    (separator : ℕ) (piece : Bytes)
    → All (λ c. c ≢ separator) piece
    → split separator piece ≡ piece ∷ []
unfolding split
split_last separator [] h = refl
split_last separator (c ∷ piece) h = ground (arith, split_last separator piece h.1, h.0)

scan_front-scan : (s : Bytes) (m n : ℕ) → All IsDigit s → scan s m ≡ some n → scan_front s m ≡ n
unfolding scan scan_front
scan_front-scan [] m n digits h = cc
scan_front-scan (c ∷ s) m n digits h =
    ground (arith, scan_front-scan s (m * 10 + (c - b'0')) n digits.1, digits.0)

-- A text of digits.
module _ (c n limit : ℕ) (s : Bytes) (digits : All IsDigit (c ∷ s))
    (spells : scan (c ∷ s) 0 ≡ some n) (small : n ≤ limit) where
  first : IsDigit c
  first = digits.0

  pub magnitude_digits : magnitude limit (c ∷ s) ≡ ok n
  unfolding magnitude
  magnitude_digits = ground (arith, scan_front-scan (c ∷ s) 0 n digits spells, small, first)

  skip_digits : skip_space (c ∷ s) ≡ c ∷ s
  unfolding skip_space
  skip_digits = ground (arith, first)

  unsigned_digits : limit ≡ 2 ^ 64 - 1 → unsigned_text (c ∷ s) ≡ ok n
  unfolding unsigned_text
  unsigned_digits e = elim (Bool-cases (c == b'-')) [
    | inl f ↦ absurd (ground (arith, first))
    | inr f ↦ elim (Bool-cases (c == b'+')) [
      | inl g ↦ absurd (ground (arith, first))
      | inr g ↦ rw f (rw g (ap (λ l. magnitude l (c ∷ s)) (sym e) ∙ magnitude_digits))
    ]
  ]

  signed_digits : (bound : ℕ) → limit ≡ bound - 1 → signed_text bound (c ∷ s) ≡ ok (pos n)
  unfolding signed_text
  signed_digits bound e = elim (Bool-cases (c == b'-')) [
    | inl f ↦ absurd (ground (arith, first))
    | inr f ↦ elim (Bool-cases (c == b'+')) [
      | inl g ↦ absurd (ground (arith, first))
      | inr g ↦ rw f (
          rw g (
            ap (λ m. m >>= λ k. ok (pos k))
              (ap (λ l. magnitude l (c ∷ s)) (sym e) ∙ magnitude_digits)))
    ]
  ]

stoull-to_string_at :
    (n c : ℕ) (s : Bytes) → to_string n ≡ c ∷ s → n < 2 ^ 64 → stoull (to_string n) ≡ ok n
unfolding stoull
stoull-to_string_at n c s e small =
    let digits = subst (λ t. All IsDigit t) e (to_string-IsDigit n) in
    let spells = subst (λ t. scan t 0 ≡ some n) e (scan-to_string n) in
    ap stoull e
    ∙ ap unsigned_text (skip_digits c n (2 ^ 64 - 1) s digits spells (omega arith))
    ∙ unsigned_digits c n (2 ^ 64 - 1) s digits spells (omega arith) refl

-- A printed number is read back.
pub stoull-to_string : (n : ℕ) → n < 2 ^ 64 → stoull (to_string n) ≡ ok n
stoull-to_string n small = let (c, s, e) = to_string_some n in stoull-to_string_at n c s e small

stol-to_string_at :
    (n c : ℕ) (s : Bytes)
    → to_string n ≡ c ∷ s
    → n < 2 ^ 63
    → stol (2 ^ 63) (to_string n) ≡ ok (pos n)
unfolding stol
stol-to_string_at n c s e small =
    let digits = subst (λ t. All IsDigit t) e (to_string-IsDigit n) in
    let spells = subst (λ t. scan t 0 ≡ some n) e (scan-to_string n) in
    ap (stol (2 ^ 63)) e
    ∙ ap (signed_text (2 ^ 63)) (skip_digits c n (2 ^ 63 - 1) s digits spells (omega arith))
    ∙ signed_digits c n (2 ^ 63 - 1) s digits spells (omega arith) (2 ^ 63) refl

magnitude-to_string_at :
    (n c : ℕ) (s : Bytes)
    → to_string n ≡ c ∷ s
    → n ≤ 2 ^ 63
    → magnitude (2 ^ 63) (to_string n) ≡ ok n
magnitude-to_string_at n c s e small =
    let digits = subst (λ t. All IsDigit t) e (to_string-IsDigit n) in
    let spells = subst (λ t. scan t 0 ≡ some n) e (scan-to_string n) in
    ap (magnitude (2 ^ 63)) e ∙ magnitude_digits c n (2 ^ 63) s digits spells small

-- A printed std::int64_t is read back.
pub stol-to_string_ℤ : (i : ℤ) → IsInt64 i → stol (2 ^ 63) (to_string_ℤ i) ≡ ok i
unfolding to_string_ℤ
stol-to_string_ℤ (pos n) small = let (c, s, e) = to_string_some n in stol-to_string_at n c s e small
stol-to_string_ℤ (negsuc n) small =
    let (c, s, e) = to_string_some (suc n) in
    unfold stol skip_space signed_text in
    ap (λ m. m >>= λ k. ok (negative k)) (magnitude-to_string_at (suc n) c s e (omega arith))
