-- ===== src/Core/EventRecord/Signed.antt =====
-- Signed event records: what verifies.
use mathlib.Core.List.{Perm}
use blocxxi.Base.{ℕ, ℤ, ◌≡◌, ap, Bytes, [], ◌∷◌, ◌++◌, List, true, false, bytes_lt, arith}
use blocxxi.Crypto.Hash.{Hash}
use blocxxi.Crypto.Signature.{Ecdsa, of_secret}
use blocxxi.Crypto.Signature.RoundTrip.{
  IsSecret, public_key_from_hex-to_hex, verify_message_hex-sign,
}
use blocxxi.Core.EventRecord.{
  EventAttribute, EventEnvelope, SignedEventRecord, canonical_text, stamp, sign_event_record,
  verify_text, verify_event_record,
}
use blocxxi.Core.EventRecord.Canonical.{canonical_text-Perm, canonical_text_pair}

module _ {Point : Type 0} (ecdsa : Ecdsa Point) where
  -- A record that SignEventRecord makes of any event, under a secret for which the signature scheme
  -- keeps its promise, passes VerifyEventRecord.
  pub verify_event_record-sign :
      (secret : Hash) (now : ℤ) (nonce : ℕ) (e : EventEnvelope) (name : Bytes)
      → IsSecret ecdsa secret
      → verify_event_record ecdsa
          (sign_event_record ecdsa now nonce e (of_secret ecdsa secret) name)
        ≡ true
  unfolding verify_event_record verify_text sign_event_record of_secret
  verify_event_record-sign secret now nonce e name key = ground (
    arith,
    public_key_from_hex-to_hex (of_secret ecdsa secret).public key.public_size,
    verify_message_hex-sign ecdsa secret key nonce (canonical_text (stamp now e)),
  )

  -- Only the canonical text of the event is looked at.
  verify_event_record_text :
      (r : SignedEventRecord) (e e' : EventEnvelope)
      → canonical_text e ≡ canonical_text e'
      → verify_event_record ecdsa (record r { envelope = e })
        ≡ verify_event_record ecdsa (record r { envelope = e' })
  unfolding verify_event_record
  verify_event_record_text r e e' h =
      ap (λ text. verify_text ecdsa r.signer_public_key_hex text r.signature_hex) h

  -- Whether a record verifies does not depend on the order of its identifiers and attributes.
  pub verify_event_record-Perm :
      (r : SignedEventRecord) (e : EventEnvelope) (ids : List Bytes) (attrs : List EventAttribute)
      → Perm e.identifiers ids
      → Perm e.attributes attrs
      → verify_event_record ecdsa
          (record r { envelope = record e { identifiers = ids; attributes = attrs } })
        ≡ verify_event_record ecdsa (record r { envelope = e })
  verify_event_record-Perm r e ids attrs p q =
      verify_event_record_text r (record e { identifiers = ids; attributes = attrs }) e
        (canonical_text-Perm e ids attrs p q)

  -- A signature of an event with two identifiers in their order is as good for the event that has,
  -- in their place, the one identifier that joins them by a comma.
  pub verify_event_record_pair :
      (r : SignedEventRecord) (e : EventEnvelope) (x y : Bytes)
      → bytes_lt y x ≡ false
      → verify_event_record ecdsa
          (record r { envelope = record e { identifiers = (x ++ (b',' ∷ y)) ∷ [] } })
        ≡ verify_event_record ecdsa (record r { envelope = record e { identifiers = x ∷ y ∷ [] } })
  verify_event_record_pair r e x y h =
      verify_event_record_text r (record e { identifiers = (x ++ (b',' ∷ y)) ∷ [] })
        (record e { identifiers = x ∷ y ∷ [] }) (canonical_text_pair e x y h)
