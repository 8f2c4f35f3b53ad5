-- ===== src/Core/Tests.antt =====
-- The ids and the events of the core at concrete inputs.

use blocxxi.Base.{
  ℕ, pos, ◌≡◌, refl, Bytes, [], ◌∷◌, true, some, ok, replicate, length, bytes_lt, bytes_eq,
  bytes_eq_refl, ◌%◌, arith, length-replicate, All-replicate, ap, IsByte,
}
use blocxxi.Crypto.Signature.{Ecdsa, of_secret}
use blocxxi.Crypto.Signature.RoundTrip.{IsSecret}
use blocxxi.Core.EventRecord.{
  EventEnvelope, SignedEventRecord, sign_event_record, verify_event_record,
}
use blocxxi.Core.EventRecord.Signed.{verify_event_record-sign, verify_event_record_pair}

-- A scheme that keeps nothing secret: a signature is the length of the message.
abbrev pub toy : Ecdsa Bytes
toy = record {
  decode_point = λ encoded. some encoded;
  validate = λ point. true;
  make_public = λ secret. replicate 64 0;
  sign_message = λ nonce secret message. length message % 256 ∷ [];
  verify_message = λ point message signature. ok (bytes_eq signature (length message % 256 ∷ []));
}

pub toy-IsSecret : IsSecret toy (replicate 32 1)
toy-IsSecret = record {
  public_size = record {
    size = length-replicate {A = ℕ} 64 0;
    in_range = All-replicate IsByte 64 0 (omega arith);
  };
  point = 4 ∷ replicate 64 0;
  decodes = refl;
  validates = refl;
  in_range = λ nonce message. (omega arith, tt);
  verifies = λ nonce message. ap ok (bytes_eq_refl (length message % 256 ∷ []));
}

abbrev pub price : EventEnvelope
price = record {
  schema = b'v' ∷ [];
  event_type = b'p' ∷ [];
  taxonomy = [];
  source = b's' ∷ [];
  producer = [];
  window = record { start_utc = pos 10; end_utc = pos 20 };
  observed_at_utc = pos 0;
  published_at_utc = pos 0;
  identifiers = (b'b' ∷ []) ∷ (b'a' ∷ []) ∷ [];
  attributes = record { key = b'k' ∷ []; value = b'1' ∷ [] } ∷ [];
  summary = [];
  payload = 0 ∷ 0xa5 ∷ [];
}

verify_event_record-sign_example :
    verify_event_record toy
      (sign_event_record toy (pos 15) 3 price (of_secret toy (replicate 32 1)) (b'n' ∷ []))
    ≡ true
verify_event_record-sign_example =
    verify_event_record-sign toy (replicate 32 1) (pos 15) 3 price (b'n' ∷ []) toy-IsSecret

abbrev pub signed : SignedEventRecord
signed = record {
  envelope = price;
  signer_name = [];
  signer_public_key_hex = [];
  signature_hex = [];
}

verify_event_record_pair_example :
    verify_event_record toy
      (record signed { envelope = record price { identifiers = (b'a' ∷ b',' ∷ b'b' ∷ []) ∷ [] } })
    ≡ verify_event_record toy
        (record signed { envelope = record price { identifiers = (b'a' ∷ []) ∷ (b'b' ∷ []) ∷ [] } })
unfolding bytes_lt
verify_event_record_pair_example =
    verify_event_record_pair toy signed price (b'a' ∷ []) (b'b' ∷ []) refl
