-- ===== src/P2P/EventDht/Twice.antt =====
-- A record that is published again.
use blocxxi.Base.{
  ℤ, ◌≡◌, refl, sym, ap, subst, text, ◌∙◌, ◌++◌, [], ◌∷◌, List, Bytes, Bool, true, false, none,
  some, Option-cases, inl, inr, arith, bytes_eq_refl, if◌then◌else◌,
}
use blocxxi.Crypto.Hash.{Hash}
use blocxxi.Crypto.Signature.{Ecdsa}
use blocxxi.Core.Status.{Status, success}
use blocxxi.Core.EventRecord.{SignedEventRecord, deterministic_key, verify_event_record}
use blocxxi.P2P.EventDht.{
  PublishedEvent, Bucket, MemoryEventDht, derive_info_hash, same_signature, refresh_duplicate,
  find_bucket, put_bucket, store_duplicate, store_new, publish,
}
use blocxxi.P2P.EventDht.Valid.{Content, content, contents}
use blocxxi.P2P.EventDht.Publish.{
  contents-refresh_duplicate, contents-append, store_record_found, store_record_new,
  publish-eq-store_record,
}

-- An event with the signature is there.
abbrev found_in : SignedEventRecord → List Content → Bool
found_in r [] = false
found_in r (c ∷ cs) = if same_signature c.record_ r then true else found_in r cs

refresh_duplicate-found_in :
    (now : ℤ) (r : SignedEventRecord) (events : List PublishedEvent)
    → refresh_duplicate now r events ≡ none
    → found_in r (contents events) ≡ false
unfolding refresh_duplicate
refresh_duplicate-found_in now r [] e = refl
refresh_duplicate-found_in now r (p ∷ events) e =
    ground (arith, refresh_duplicate-found_in now r events)

found_in-refresh_duplicate :
    (now : ℤ) (r : SignedEventRecord) (events after : List PublishedEvent)
    → refresh_duplicate now r events ≡ some after
    → found_in r (contents events) ≡ true
unfolding refresh_duplicate
found_in-refresh_duplicate now r [] after e = cc
found_in-refresh_duplicate now r (p ∷ events) after e =
    elim (Option-cases (refresh_duplicate now r events)) [
      | inl gone ↦ ground arith
      | inr (rest, found) ↦ ground (arith, found_in-refresh_duplicate now r events rest found)
    ]

found_in-append :
    (r : SignedEventRecord) (cs : List Content) (c : Content)
    → same_signature c.record_ r ≡ true
    → found_in r (cs ++ c ∷ []) ≡ true
found_in-append r [] c h = ground arith
found_in-append r (d ∷ cs) c h = ground (arith, found_in-append r cs c h)

same_signature_refl : (r : SignedEventRecord) → same_signature r r ≡ true
unfolding same_signature
same_signature_refl r =
    ground (arith, bytes_eq_refl r.signature_hex, bytes_eq_refl r.signer_public_key_hex)

find_bucket-put_bucket :
    (key : Bytes) (events : List PublishedEvent) (entries : List Bucket)
    → find_bucket key (put_bucket key events entries) ≡ events
unfolding find_bucket put_bucket
find_bucket-put_bucket key events [] = ground (arith, bytes_eq_refl key)
find_bucket-put_bucket key events (b ∷ entries) =
    ground (arith, find_bucket-put_bucket key events entries)

-- What Publish leaves in its branch for a duplicate.
duplicate_reported :
    (key : Bytes) (info : Hash) (after : List PublishedEvent) (dht : MemoryEventDht)
    (done : Status × MemoryEventDht)
    → done ≡ store_duplicate key info after dht
    → (done.0 ≡ success (text "duplicate publish collapsed"))
      × (done.1.last_publish
          ≡ some (record { dht_key = key; info_hash = info; inserted = false; duplicate = true }))
      × (contents (find_bucket key done.1.entries) ≡ contents after)
unfolding store_duplicate
duplicate_reported key info after dht done e = (
  ap (λ (m : Status × MemoryEventDht). m.0) e,
  ap (λ (m : Status × MemoryEventDht). m.1.last_publish) e,
  ap (λ (m : Status × MemoryEventDht). contents (find_bucket key m.1.entries)) e
      ∙ ap contents (find_bucket-put_bucket key after dht.entries),
)

module _ (now later : ℤ) (r : SignedEventRecord) where
  -- The bucket in which a record was found, or to which it was appended, refreshes it.
  refreshes_again :
      (bucket : List PublishedEvent)
      → found_in r (contents bucket) ≡ true
      → (after : List PublishedEvent) × (refresh_duplicate later r bucket ≡ some after)
  refreshes_again bucket h = elim (Option-cases (refresh_duplicate later r bucket)) [
    | inl gone ↦ absurd (ground (arith, refresh_duplicate-found_in later r bucket gone))
    | inr found ↦ found
  ]

  module _ {Point : Type 0} (ecdsa : Ecdsa Point) (dht : MemoryEventDht) where
    -- After a Publish that passed the verification, the bucket of the key has the record.
    found_in-publish :
        verify_event_record ecdsa r ≡ true
        → found_in r
            (contents (find_bucket (deterministic_key r) (publish ecdsa now r dht).1.entries))
          ≡ true
    unfolding store_duplicate store_new
    found_in-publish verified = elim (Option-cases (refresh_duplicate now r bucket)) [
      | inl gone ↦
          subst HasRecord
            (sym (
              publish-eq-store_record ecdsa now r dht verified
              ∙ store_record_new ecdsa now r dht gone))
            (put_bucket-HasRecord (bucket ++ published ∷ []) (
              subst (λ cs. found_in r cs ≡ true) (sym (contents-append bucket published))
                (found_in-append r (contents bucket) (content published) (same_signature_refl r))))
      | inr (after, found) ↦
          subst HasRecord
            (sym (
              publish-eq-store_record ecdsa now r dht verified
              ∙ store_record_found ecdsa now r dht after found))
            (put_bucket-HasRecord after (
              subst (λ cs. found_in r cs ≡ true)
                (sym (contents-refresh_duplicate now r bucket after found))
                (found_in-refresh_duplicate now r bucket after found)))
    ]
      where
        bucket : List PublishedEvent
        bucket = find_bucket (deterministic_key r) dht.entries

        published : PublishedEvent
        published = record {
          dht_key = deterministic_key r;
          info_hash = derive_info_hash (deterministic_key r);
          record_ = r;
          published_at_utc = now;
          publish_count = 1;
        }

        HasRecord : Status × MemoryEventDht → Type 0
        HasRecord s = found_in r (contents (find_bucket (deterministic_key r) s.1.entries)) ≡ true

        put_bucket-HasRecord :
            (events : List PublishedEvent)
            → found_in r (contents events) ≡ true
            → found_in r (
                contents (
                  find_bucket
                    (deterministic_key r)
                    (put_bucket (deterministic_key r) events dht.entries)))
              ≡ true
        put_bucket-HasRecord events h =
            subst (λ es. found_in r (contents es) ≡ true)
              (sym (find_bucket-put_bucket (deterministic_key r) events dht.entries)) h

    -- A record that verifies, and is published twice, is stored once: the second Publish succeeds with
    -- the message that a duplicate was collapsed, records that nothing was inserted and that the key had
    -- a duplicate, and the bucket of the key has the events that it had before, with the same records,
    -- keys and info hashes.
    pub publish_twice :
        verify_event_record ecdsa r ≡ true
        → let once = (publish ecdsa now r dht).1 in
          let twice = publish ecdsa later r once in
          let key = deterministic_key r in
          (twice.0 ≡ success (text "duplicate publish collapsed"))
          × (twice.1.last_publish
              ≡ some (record {
                dht_key = key;
                info_hash = derive_info_hash key;
                inserted = false;
                duplicate = true;
              }))
          × (contents (find_bucket key twice.1.entries) ≡ contents (find_bucket key once.entries))
    publish_twice verified =
        let once = (publish ecdsa now r dht).1 in
        let bucket = find_bucket (deterministic_key r) once.entries in
        let (after, found) = refreshes_again bucket (found_in-publish verified) in
        let (message, result, kept) =
          duplicate_reported (deterministic_key r) (derive_info_hash (deterministic_key r)) after
            once (publish ecdsa later r once)
            (publish-eq-store_record ecdsa later r once verified
              ∙ store_record_found ecdsa later r once after found) in
        (message, result, kept ∙ contents-refresh_duplicate later r bucket after found)
