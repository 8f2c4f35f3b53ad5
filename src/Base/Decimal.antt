-- ===== src/Base/Decimal.antt =====
-- std::to_string of an unsigned or signed integer, and std::from_chars over a whole text.
pub mod RoundTrip
use Prim.Native.Nat.{ℕ, zero, suc, ◌+◌, ◌-◌, ◌*◌, ◌/◌, ◌%◌, ◌^◌, ◌≤◌, ◌<◌}
use mathlib.Core.Path.{◌≡◌, refl}
use mathlib.Core.Bool.{◌&&◌, ◌||◌}
use mathlib.Core.List.{[], ◌∷◌, ◌++◌, append_assoc}
use mathlib.Core.Option
use mathlib.Core.Option.{Option, none, some}
use native.Mathlib.Omega.{arith}
use blocxxi.Base.Tests.{leb, ltb, ◌==◌, if◌then◌else◌}
use blocxxi.Base.Text.{Bytes}
use blocxxi.Base.Lists.{All}
use blocxxi.Base.Int.{ℤ, pos, negsuc}

-- The digits in front of `tail`, least significant one first. `n` rounds are enough for `n`.
unfoldable pub digits : ℕ → ℕ → Bytes → Bytes
digits zero n rest = rest
digits (suc rounds) n rest =
    let more = digits rounds (n / 10) ((b'0' + n % 10) ∷ rest) in if n == 0 then rest else more

unfoldable pub to_string : ℕ → Bytes
unfolding digits
to_string n = if n == 0 then b'0' ∷ [] else digits n n []

unfoldable pub to_string_ℤ : ℤ → Bytes
unfolding to_string
to_string_ℤ (pos n) = to_string n
to_string_ℤ (negsuc n) = b'-' ∷ to_string (suc n)

-- The value of a text of digits, after those that make up `n`.
unfoldable pub scan : Bytes → ℕ → Option ℕ
scan [] n = some n
scan (c ∷ s) n = if ltb c b'0' || ltb b'9' c then none else scan s (n * 10 + (c - b'0'))

abbrev pub IsDigit : ℕ → Type 0
IsDigit c = (b'0' ≤ c) × (c ≤ b'9')

-- std::from_chars of an unsigned number that has to take the whole text: digits only, at least one,
-- and a value of at most `limit`.
unfoldable pub parse_unsigned : ℕ → Bytes → Option ℕ
unfolding scan
parse_unsigned limit [] = none
parse_unsigned limit (c ∷ s) = elim (scan (c ∷ s) 0) [
  | none ↦ none
  | some n ↦ if leb n limit then some n else none
]

-- -n
abbrev pub negative : ℕ → ℤ
negative zero = pos 0
negative (suc n) = negsuc n

-- std::from_chars of a std::int64_t that has to take the whole text: a minus sign is allowed.
unfoldable pub parse_int64 : Bytes → Option ℤ
unfolding parse_unsigned
parse_int64 [] = none
parse_int64 (c ∷ s) =
    if c == b'-'
    then Option.map negative (parse_unsigned (2 ^ 63) s)
    else Option.map pos (parse_unsigned (2 ^ 63 - 1) (c ∷ s))
