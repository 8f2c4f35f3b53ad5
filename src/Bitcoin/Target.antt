-- ===== src/Bitcoin/Target.antt =====
-- The proof-of-work target in src/Blocxxi/Bitcoin/adapter.cpp: TargetFromCompact.
pub mod Value
use blocxxi.Base.{
  ℕ, zero, suc, ◌+◌, ◌-◌, ◌*◌, ◌/◌, ◌%◌, ◌^◌, ◌≡◌, refl, ◌∙◌, ap, ◌≤◌, ◌<◌, ◌++◌, [], ◌∷◌, Bytes,
  text, Bool, true, false, Option, none, some, not, ◌||◌, if◌then◌else◌, leb, ltb, ◌==◌, replicate,
  bytes_lt, length, length-append, length-replicate, arith, Bool-cases, inl, inr, Option-cases,
}
use blocxxi.Bitcoin.Wire.{Outside, hash_bytes_from_hex}

-- kSignetPowLimitHex
unfoldable pub signet_pow_limit_hex : Bytes
unfolding text
signet_pow_limit_hex = text "00000377ae000000000000000000000000000000000000000000000000000000"

-- The three bytes that are written of a number.
unfoldable pub three_bytes : ℕ → Bytes
three_bytes m = (m / 65536 % 256) ∷ (m / 256 % 256) ∷ (m % 256) ∷ []

-- The array of 32 bytes, where the exponent is in range.
unfoldable pub place_mantissa : ℕ → ℕ → Option Bytes
unfolding three_bytes
place_mantissa exponent mantissa =
    if leb exponent 3
    then some (replicate 29 0 ++ three_bytes (mantissa / 256 ^ (3 - exponent)))
    else if ltb 29 (exponent - 3)
    then none
    else some
        (replicate (29 - (exponent - 3)) 0 ++ (three_bytes mantissa ++ replicate (exponent - 3) 0))

-- The test against the limit: arrays are compared as texts of bytes.
unfoldable pub check_limit : Option Bytes → Bytes → Option Bytes
unfolding bytes_lt
check_limit none target = none
check_limit (some pow_limit) target = if bytes_lt pow_limit target then none else some target

unfoldable pub with_limit : Outside → Bytes → Option Bytes → Option Bytes
unfolding check_limit hash_bytes_from_hex
with_limit o pow_limit_hex none = none
with_limit o pow_limit_hex (some target) = check_limit (hash_bytes_from_hex o pow_limit_hex) target

-- TargetFromCompact. Bit 23 is the sign, the 23 bits below it are the mantissa.
unfoldable pub target_from_compact : Outside → ℕ → Bytes → Option Bytes
unfolding place_mantissa with_limit
target_from_compact o bits pow_limit_hex =
    let mantissa = bits % 2 ^ 23 in
    if bits / 2 ^ 23 % 2 == 1 || mantissa == 0
    then none
    else with_limit o pow_limit_hex (place_mantissa (bits / 2 ^ 24 % 256) mantissa)
