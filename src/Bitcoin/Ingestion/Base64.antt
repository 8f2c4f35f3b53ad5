-- ===== src/Bitcoin/Ingestion/Base64.antt =====
-- Base64Encode in src/Blocxxi/Bitcoin/ingestion.cpp.
pub mod RoundTrip
use mathlib.Core.List.{reverse}
use blocxxi.Base.{
  ℕ, zero, suc, ◌+◌, ◌-◌, ◌*◌, ◌/◌, ◌%◌, ◌^◌, ◌++◌, [], ◌∷◌, Bytes, text, Option, none, some,
  length, leb, ltb, ◌==◌, if◌then◌else◌, get_elem?, replicate,
}

-- kBase64Alphabet
unfoldable pub base64_alphabet : Bytes
unfolding text
base64_alphabet = text "ABCDEFGHIJKLMNOPQRSTUVWXYZabcdefghijklmnopqrstuvwxyz0123456789+/"

-- kBase64Alphabet[i]; the callers mask the index to six bits.
unfoldable pub symbol : ℕ → ℕ
unfolding base64_alphabet
symbol i = elim (get_elem? base64_alphabet i) [ none ↦ 0 | some c ↦ c ]

-- The inner loop: what it appends, and the bits that it leaves. It runs at most twice, since fewer
-- than six bits are left before a byte is added.
unfoldable pub flush : ℕ → ℕ → ℕ → Bytes × ℕ
unfolding symbol
flush zero accumulator bits = ([], bits)
flush (suc rounds) accumulator bits =
    let rest = flush rounds accumulator (bits - 6) in
    if leb 6 bits then (symbol (accumulator / 2 ^ (bits - 6) % 64) ∷ rest.0, rest.1) else ([], bits)

-- The outer loop and the last symbol. The accumulator is a std::uint32_t.
unfoldable pub encode_bits : Bytes → ℕ → ℕ → Bytes
unfolding flush symbol
encode_bits [] accumulator bits =
    if ltb 0 bits then symbol (accumulator * 2 ^ (6 - bits) % 2 ^ 32 % 64) ∷ [] else []
encode_bits (ch ∷ value) accumulator bits =
    let shifted = (accumulator * 256 + ch) % 2 ^ 32 in
    let flushed = flush 2 shifted (bits + 8) in flushed.0 ++ encode_bits value shifted flushed.1

-- The padding of the last loop.
unfoldable pub base64_encode : Bytes → Bytes
unfolding encode_bits
base64_encode value =
    let output = encode_bits value 0 0 in output ++ replicate ((4 - length output % 4) % 4) b'='
