-- ===== src/Crypto/Signature.antt =====
-- src/Blocxxi/Crypto/keypair.cpp, signature.cpp: key pairs, and signatures as hexadecimal text.
pub mod RoundTrip
use blocxxi.Base.{
  ℕ, ◌/◌, ◌%◌, Bytes, [], ◌∷◌, Bool, true, false, Option, none, some, Outcome, ok, err, out_of_fuel,
  ◌>>=◌, invalid_argument, if◌then◌else◌, ◌==◌, length, is_empty, replicate, not,
}
use blocxxi.Codec.Hex.{encode, decode}
use blocxxi.Crypto.Hash.{Hash, from_hex, to_hex}

-- The ECDSA of the external library over secp256k1. A signature depends on the random `nonce`.
-- `Point` is a public key as the library keeps it; `verify` may throw.
pub record Ecdsa (Point : Type 0) : Type 0 where
  pub decode_point : Bytes → Option Point
  pub validate : Point → Bool
  pub make_public : Hash → Hash
  pub sign_message : ℕ → Hash → Bytes → Bytes
  pub verify_message : Point → Bytes → Bytes → Outcome Bool

pub record KeyPair : Type 0 where
  pub secret : Hash
  pub public : Hash

-- catch (std::exception const&): the value for any exception. The calls below cannot abort, since
-- the sizes are checked first, and none of them runs on fuel.
abbrev pub caught {ℓ} : {A : Type ℓ} → A → Outcome A → A
caught fallback (ok a) = a
caught fallback (err thrown) = fallback
caught fallback out_of_fuel = fallback

-- DecodeHex
unfoldable pub decode_hex : Bytes → Outcome Bytes
unfolding decode
decode_hex value =
    if is_empty value
    then ok []
    else if not (length value % 2 == 0)
    then err (invalid_argument "signature hex must have an even number of digits")
    else decode value (replicate (length value / 2) 0) false

unfoldable pub public_key_to_hex : Hash → Bytes
unfolding to_hex
public_key_to_hex public_key = to_hex public_key

unfoldable pub public_key_from_hex : Bytes → Option Hash
unfolding from_hex
public_key_from_hex digits =
    if not (length digits == 128)
    then none
    else caught none (do key ← from_hex 64 digits false; ok (some key))

module _ {Point : Type 0} (ecdsa : Ecdsa Point) where
  -- KeyPair(secret)
  unfoldable pub of_secret : Hash → KeyPair
  of_secret secret = record { secret = secret; public = ecdsa.make_public secret }

  -- MakePublicKey
  unfoldable pub make_public_key : Hash → Outcome Point
  make_public_key key = elim (ecdsa.decode_point (0x04 ∷ key)) [
    | none ↦ err (invalid_argument "invalid secp256k1 public point encoding")
    | some point ↦
        if ecdsa.validate point
        then ok point
        else err (invalid_argument "invalid secp256k1 public key")
  ]

  -- SignMessageHex
  unfoldable pub sign_message_hex : ℕ → KeyPair → Bytes → Bytes
  unfolding encode
  sign_message_hex nonce key_pair message =
      encode (ecdsa.sign_message nonce key_pair.secret message) false true

  -- VerifyMessage
  unfoldable pub verify_message : Hash → Bytes → Bytes → Bool
  unfolding make_public_key
  verify_message public_key message signature =
      caught false
        (do point ← make_public_key public_key; ecdsa.verify_message point message signature)

  -- VerifyMessageHex
  unfoldable pub verify_message_hex : Hash → Bytes → Bytes → Bool
  unfolding decode_hex verify_message
  verify_message_hex public_key message signature_hex =
      caught false
        (do signature ← decode_hex signature_hex; ok (verify_message public_key message signature))
