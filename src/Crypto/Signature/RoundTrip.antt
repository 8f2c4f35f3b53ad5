-- ===== src/Crypto/Signature/RoundTrip.antt =====
-- Public keys and signatures through their text.
use blocxxi.Base.{
  ℕ, ◌≡◌, refl, ◌∙◌, ap, Bytes, [], ◌∷◌, ◌++◌, append-nil, true, false, some, ok, IsByte, All,
  length, length-replicate, replicate, ◌-◌, ◌<◌, ◌/◌, ◌*◌, arith,
}
use blocxxi.Codec.Hex.{encode, encode_forward, decode}
use blocxxi.Codec.Hex.RoundTrip.{decode-encode, length-encode}
use blocxxi.Crypto.Hash.{Hash, IsHash}
use blocxxi.Crypto.Hash.Hex.{from_hex-to_hex}
use blocxxi.Crypto.Signature.{
  Ecdsa, of_secret, decode_hex, public_key_to_hex, public_key_from_hex, sign_message_hex,
  make_public_key, verify_message, verify_message_hex,
}

-- What ECDSA promises of a secret exponent that is in range: its public key is a point of the
-- curve, under which every message verifies with each of its signatures.
pub record IsSecret {Point : Type 0} (ecdsa : Ecdsa Point) (secret : Hash) : Type 0 where
  pub public_size : IsHash 64 (ecdsa.make_public secret)
  pub point : Point
  pub decodes : ecdsa.decode_point (0x04 ∷ ecdsa.make_public secret) ≡ some point
  pub validates : ecdsa.validate point ≡ true
  pub in_range :
      (nonce : ℕ) (message : Bytes) → All IsByte (ecdsa.sign_message nonce secret message)
  pub verifies :
      (nonce : ℕ) (message : Bytes)
      → ecdsa.verify_message point message (ecdsa.sign_message nonce secret message) ≡ ok true

pub public_key_from_hex-to_hex :
    (key : Hash) → IsHash 64 key → public_key_from_hex (public_key_to_hex key) ≡ some key
unfolding public_key_from_hex public_key_to_hex
public_key_from_hex-to_hex key is =
    ground (arith, is.size, length-encode key false true, from_hex-to_hex 64 key (omega arith) is)

-- A text of some digits, evenly many, is left to the decoder.
decode_hex-eq-decode :
    (digits : Bytes) (n : ℕ)
    → 0 < n
    → length digits ≡ 2 * n
    → decode_hex digits ≡ decode digits (replicate n 0) false
unfolding decode_hex
decode_hex-eq-decode [] n pos size = absurd (omega arith)
decode_hex-eq-decode (c ∷ digits) n pos size =
    let half : length (c ∷ digits) / 2 ≡ n = omega arith in rw half (ground arith)

pub decode_hex-encode : (b : Bytes) → All IsByte b → decode_hex (encode b false true) ≡ ok b
decode_hex-encode [] h = unfold decode_hex encode encode_forward in refl
decode_hex-encode (x ∷ b) h =
    let src : Bytes = x ∷ b in
    decode_hex-eq-decode (encode src false true) (length src) (omega arith)
      (length-encode src false true)
    ∙ decode-encode src (replicate (length src) 0) false true h (omega arith)
        (omega (arith, length-replicate {A = ℕ} (length src) 0))
    ∙ no_rest
  where
    no_room : length (replicate {A = ℕ} (length (x ∷ b)) 0) - length (x ∷ b) ≡ 0
    no_room = omega (arith, length-replicate {A = ℕ} (length (x ∷ b)) 0)

    no_rest :
        ok (
          x ∷ b
          ++ replicate {A = ℕ} (length (replicate {A = ℕ} (length (x ∷ b)) 0) - length (x ∷ b)) 0)
        ≡ ok (x ∷ b)
    no_rest = rw no_room (ap ok (append-nil (x ∷ b)))

module _ {Point : Type 0} (ecdsa : Ecdsa Point) (secret : Hash) (key : IsSecret ecdsa secret) where
  verify_message-sign :
      (nonce : ℕ) (message : Bytes)
      → verify_message ecdsa
          (ecdsa.make_public secret)
          message
          (ecdsa.sign_message nonce secret message)
        ≡ true
  unfolding verify_message make_public_key
  verify_message-sign nonce message =
      ground (arith, key.decodes, key.validates, key.verifies nonce message)

  -- A message that was signed verifies under the public key, both of them taken from their text.
  pub verify_message_hex-sign :
      (nonce : ℕ) (message : Bytes)
      → verify_message_hex ecdsa
          (ecdsa.make_public secret)
          message
          (sign_message_hex ecdsa nonce (of_secret ecdsa secret) message)
        ≡ true
  unfolding verify_message_hex sign_message_hex of_secret
  verify_message_hex-sign nonce message = simp (
    decode_hex-encode (ecdsa.sign_message nonce secret message) (key.in_range nonce message),
    verify_message-sign nonce message,
  )
