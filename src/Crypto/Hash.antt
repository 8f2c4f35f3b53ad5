-- ===== src/Crypto/Hash.antt =====
-- src/Blocxxi/Crypto/hash.h: Hash<BITS>, as the BITS / 8 bytes that its storage holds in memory.
pub mod Hex
use blocxxi.Base.{
  ℕ, ◌-◌, ◌++◌, Bytes, IsByte, Bool, true, false, length, replicate, leb, if◌then◌else◌, bytes_eq,
  ◌==◌, [], ◌∷◌, bytes_eq_iff, ◌↔◌, Outcome, ok, err, check_failed, All, ◌≡◌,
}
use blocxxi.Codec.Hex.{encode, decode}

abbrev pub Hash : Type 0
Hash = Bytes

-- `h` is a hash of `n` bytes.
pub record IsHash (n : ℕ) (h : Hash) : Type 0 where
  pub size : length h ≡ n
  pub in_range : All IsByte h

-- Hash(), Min(): all bits are 0.
abbrev pub zero_hash : ℕ → Hash
zero_hash n = replicate n 0

-- Max(): all bits are 1.
unfoldable pub max_hash : ℕ → Hash
max_hash n = replicate n 0xff

-- Hash(buf): zeros in front of a shorter sequence, an abort on a longer one.
unfoldable pub of_span : ℕ → Bytes → Outcome Hash
of_span n buf =
    if leb (length buf) n
    then ok (replicate (n - length buf) 0 ++ buf)
    else err (check_failed "source span exceeds hash size")

unfoldable pub from_hex : ℕ → Bytes → Bool → Outcome Hash
unfolding decode
from_hex n src reversed = decode src (zero_hash n) reversed

unfoldable pub to_hex : Hash → Bytes
unfolding encode
to_hex h = encode h false true

unfoldable pub is_all_zero : Hash → Bool
is_all_zero [] = true
is_all_zero (byte ∷ rest) = if byte == 0 then is_all_zero rest else false

-- operator==
unfoldable pub hash_eq : Hash → Hash → Bool
unfolding bytes_eq
hash_eq a b = bytes_eq a b

pub hash_eq_iff : (a b : Hash) → (hash_eq a b ≡ true) ↔ (a ≡ b)
unfolding hash_eq
hash_eq_iff a b = bytes_eq_iff a b
