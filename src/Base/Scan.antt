-- ===== src/Base/Scan.antt =====
-- std::getline over a whole file, and std::stoull, std::stoll and std::stoi.
pub mod RoundTrip
use Prim.Native.Nat.{ℕ, zero, suc, ◌+◌, ◌-◌, ◌*◌, ◌%◌, ◌^◌}
use mathlib.Core.Bool.{Bool, true, false, ◌&&◌, ◌||◌}
use mathlib.Core.List.{List, [], ◌∷◌}
use blocxxi.Base.Tests.{leb, ltb, ◌==◌, if◌then◌else◌}
use blocxxi.Base.Text.{Bytes}
use blocxxi.Base.Int.{ℤ, pos}
use blocxxi.Base.Decimal.{negative}
use blocxxi.Base.Outcomes.{Outcome, ok, err, invalid_argument, out_of_range, ◌>>=◌}

-- A character in front of the first of some pieces.
abbrev pub put_front : ℕ → List Bytes → List Bytes
put_front c [] = (c ∷ []) ∷ []
put_front c (piece ∷ pieces) = (c ∷ piece) ∷ pieces

-- What std::getline reads until it fails: a last line may lack its newline, but is not empty then.
unfoldable pub lines : Bytes → List Bytes
lines [] = []
lines (c ∷ s) = let rest = lines s in if c == b'\n' then [] ∷ rest else put_front c rest

-- The pieces between the separators, at least one.
unfoldable pub split : ℕ → Bytes → List Bytes
split separator [] = [] ∷ []
split separator (c ∷ s) =
    let rest = split separator s in if c == separator then [] ∷ rest else put_front c rest

-- std::isspace in the C locale
abbrev pub is_space : ℕ → Bool
is_space c = c == b' ' || (leb 9 c && leb c 13)

unfoldable pub skip_space : Bytes → Bytes
skip_space [] = []
skip_space (c ∷ s) = if is_space c then skip_space s else c ∷ s

abbrev pub is_digit : ℕ → Bool
is_digit c = leb b'0' c && leb c b'9'

-- The number that the digits in front spell, behind those that make up `n`.
unfoldable pub scan_front : Bytes → ℕ → ℕ
scan_front [] n = n
scan_front (c ∷ s) n = if is_digit c then scan_front s (n * 10 + (c - b'0')) else n

unfoldable pub magnitude : ℕ → Bytes → Outcome ℕ
unfolding scan_front
magnitude limit [] = err (invalid_argument "no conversion")
magnitude limit (c ∷ s) =
    if is_digit c
    then if ltb limit (scan_front (c ∷ s) 0)
      then err (out_of_range "out of range")
      else ok (scan_front (c ∷ s) 0)
    else err (invalid_argument "no conversion")

-- std::stoull behind the white space: a minus sign negates modulo 2^64.
unfoldable pub unsigned_text : Bytes → Outcome ℕ
unfolding magnitude
unsigned_text [] = err (invalid_argument "no conversion")
unsigned_text (c ∷ s) =
    if c == b'-'
    then (magnitude (2 ^ 64 - 1) s >>= λ n. ok ((2 ^ 64 - n) % 2 ^ 64))
    else if c == b'+'
    then magnitude (2 ^ 64 - 1) s
    else magnitude (2 ^ 64 - 1) (c ∷ s)

-- std::stoull and std::stoul. What follows the digits is ignored.
unfoldable pub stoull : Bytes → Outcome ℕ
unfolding skip_space unsigned_text
stoull s = unsigned_text (skip_space s)

unfoldable pub signed_text : ℕ → Bytes → Outcome ℤ
unfolding magnitude
signed_text limit [] = err (invalid_argument "no conversion")
signed_text limit (c ∷ s) =
    if c == b'-'
    then (magnitude limit s >>= λ n. ok (negative n))
    else if c == b'+'
    then (magnitude (limit - 1) s >>= λ n. ok (pos n))
    else magnitude (limit - 1) (c ∷ s) >>= λ n. ok (pos n)

-- std::stoll and std::stoi, with `limit` for the 2^63 and the 2^31 of their types.
unfoldable pub stol : ℕ → Bytes → Outcome ℤ
unfolding skip_space signed_text
stol limit s = signed_text limit (skip_space s)
