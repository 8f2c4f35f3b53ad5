-- ===== src/Crypto/Hash/Hex.antt =====
-- The hexadecimal form of a hash.
use blocxxi.Base.{
  ℕ, ◌<◌, ◌≡◌, ap, ◌∙◌, true, false, length, length-replicate, replicate, ok, arith, ◌++◌,
  append-nil, ◌-◌,
}
use blocxxi.Codec.Hex.RoundTrip.{decode-encode}
use blocxxi.Crypto.Hash.{Hash, IsHash, to_hex, from_hex, zero_hash}

-- FromHex reads back what ToHex printed, for a hash of any size that is not 0.
pub from_hex-to_hex : (n : ℕ) (h : Hash) → 0 < n → IsHash n h → from_hex n (to_hex h) false ≡ ok h
unfolding from_hex to_hex
from_hex-to_hex n h pos is =
    decode-encode h (zero_hash n) false true is.in_range (omega (arith, is.size))
      (omega (arith, is.size, length-replicate {A = ℕ} n 0))
    ∙ ap (λ m. ok (h ++ replicate m 0)) no_room
    ∙ ap ok (append-nil h)
  where
    no_room : length (zero_hash n) - length h ≡ 0
    no_room = omega (arith, is.size, length-replicate {A = ℕ} n 0)

-- Hashes of one size, not 0, that print alike are equal.
pub to_hex-injective :
    (n : ℕ) (a b : Hash) → 0 < n → IsHash n a → IsHash n b → to_hex a ≡ to_hex b → a ≡ b
to_hex-injective n a b pos ha hb e = cc (from_hex-to_hex n a pos ha, from_hex-to_hex n b pos hb, e)
