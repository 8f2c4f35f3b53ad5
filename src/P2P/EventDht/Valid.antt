-- ===== src/P2P/EventDht/Valid.antt =====
-- The state of the event store that its operations keep.
use blocxxi.Base.{
  ◌≡◌, sym, subst, Bool-cases, inl, inr, [], ◌∷◌, List, Bytes, true, false, All, bytes_eq,
  bytes_eq_iff, arith,
}
use blocxxi.Crypto.Hash.{Hash}
use blocxxi.Crypto.Signature.{Ecdsa}
use blocxxi.Core.EventRecord.{
  SignedEventRecord, derive_deterministic_event_key, verify_event_record,
}
use blocxxi.P2P.EventDht.{
  PublishedEvent, Bucket, derive_info_hash, same_signature, find_bucket, put_bucket,
}

-- What an event keeps when it is published again.
pub record Content : Type 0 where
  pub dht_key : Bytes
  pub info_hash : Hash
  pub record_ : SignedEventRecord

abbrev pub content : PublishedEvent → Content
content p = record { dht_key = p.dht_key; info_hash = p.info_hash; record_ = p.record_ }

abbrev pub contents : List PublishedEvent → List Content
contents [] = []
contents (p ∷ events) = content p ∷ contents events

-- No two events have both signature and public key in common.
abbrev pub Distinct : List Content → Type 0
Distinct [] = Unit
Distinct (c ∷ cs) = All (λ d. same_signature c.record_ d.record_ ≡ false) cs × Distinct cs

-- No bucket has the key.
abbrev pub IsFree : Bytes → List Bucket → Type 0
IsFree key entries = All (λ b. bytes_eq b.key key ≡ false) entries

module _ {Point : Type 0} (ecdsa : Ecdsa Point) where
  -- The event verifies, and stands under the key and the info hash of its envelope.
  pub record IsGenuine (key : Bytes) (c : Content) : Type 0 where
    pub verifies : verify_event_record ecdsa c.record_ ≡ true
    pub derives : derive_deterministic_event_key c.record_.envelope ≡ key
    pub keyed : c.dht_key ≡ key
    pub hashed : c.info_hash ≡ derive_info_hash key

  -- Genuine events under the key, all of them distinct.
  abbrev pub IsBucket : Bytes → List Content → Type 0
  IsBucket key cs = All (IsGenuine key) cs × Distinct cs

  -- Each key has one bucket.
  abbrev pub IsValid : List Bucket → Type 0
  IsValid [] = Unit
  IsValid (b ∷ entries) =
      IsFree b.key entries × IsBucket b.key (contents b.events) × IsValid entries

  pub find_bucket-IsBucket :
      (key : Bytes) (entries : List Bucket)
      → IsValid entries
      → IsBucket key (contents (find_bucket key entries))
  unfolding find_bucket
  find_bucket-IsBucket key [] v = (tt, tt)
  find_bucket-IsBucket key (b ∷ entries) v = elim (Bool-cases (bytes_eq b.key key)) [
    | inl e ↦ rw e (subst (λ k. IsBucket k (contents b.events)) ((bytes_eq_iff b.key key).0 e) v.1)
    | inr e ↦ rw e (find_bucket-IsBucket key entries v.2)
  ]

  put_bucket-IsFree :
      (other key : Bytes) (events : List PublishedEvent) (entries : List Bucket)
      → bytes_eq key other ≡ false
      → IsFree other entries
      → IsFree other (put_bucket key events entries)
  unfolding put_bucket
  put_bucket-IsFree other key events [] ne free = (ne, tt)
  put_bucket-IsFree other key events (b ∷ entries) ne free =
      elim (Bool-cases (bytes_eq b.key key)) [
        | inl e ↦ rw e free
        | inr e ↦ rw e (free.0, put_bucket-IsFree other key events entries ne free.1)
      ]

  pub put_bucket-IsValid :
      (key : Bytes) (events : List PublishedEvent) (entries : List Bucket)
      → IsBucket key (contents events)
      → IsValid entries
      → IsValid (put_bucket key events entries)
  unfolding put_bucket
  put_bucket-IsValid key events [] g v = (tt, g, tt)
  put_bucket-IsValid key events (b ∷ entries) g v = elim (Bool-cases (bytes_eq b.key key)) [
    | inl e ↦
        rw e (
          v.0,
          subst (λ k. IsBucket k (contents events)) (sym ((bytes_eq_iff b.key key).0 e)) g,
          v.2,
        )
    | inr e ↦ rw e (
      put_bucket-IsFree b.key key events entries
          (ground (arith, bytes_eq_iff b.key key, bytes_eq_iff key b.key)) v.0,
      v.1,
      put_bucket-IsValid key events entries g v.2,
    )
  ]
