-- ===== src/P2P/EventDht/Publish.antt =====
-- Publish and RepublishRecent keep the store valid, and what they do to it.
use blocxxi.Base.{
  ℤ, ◌≡◌, refl, sym, subst, ap, ◌++◌, [], ◌∷◌, List, Bytes, Bool, true, false, All, All-append,
  Option, none, some, Bool-cases, Option-cases, inl, inr, arith, ◌∙◌, text, if◌then◌else◌, not,
  ltb_ℤ, ◌-ℤ◌,
}
use blocxxi.Crypto.Signature.{Ecdsa}
use blocxxi.Core.Status.{Status, StatusCode, failure}
use blocxxi.Core.EventRecord.{SignedEventRecord, deterministic_key, verify_event_record}
use blocxxi.P2P.EventDht.{
  PublishedEvent, Bucket, MemoryEventDht, derive_info_hash, same_signature, refreshed,
  refresh_duplicate, find_bucket, store_record, store_duplicate, store_new, store_bucket, publish,
  republish_events, republish_entries,
}
use blocxxi.P2P.EventDht.Valid.{
  Content, content, contents, Distinct, IsFree, IsGenuine, IsBucket, IsValid, find_bucket-IsBucket,
  put_bucket-IsValid,
}

contents_or_none : Option (List PublishedEvent) → List Content
contents_or_none none = []
contents_or_none (some events) = contents events

pub contents-refresh_duplicate :
    (now : ℤ) (r : SignedEventRecord) (events after : List PublishedEvent)
    → refresh_duplicate now r events ≡ some after
    → contents after ≡ contents events
unfolding refresh_duplicate refreshed contents_or_none
contents-refresh_duplicate now r [] after e = cc
contents-refresh_duplicate now r (p ∷ events) after e =
    elim (Bool-cases (same_signature p.record_ r)) [
      | inl same ↦ ap contents_or_none (sym e) ∙ rw same refl
      | inr other ↦ elim (Option-cases (refresh_duplicate now r events)) [
        | inl gone ↦ cc
        | inr (rest, found) ↦
            ap contents_or_none (sym e)
            ∙ rw other (
                rw found
                  (ap (λ cs. content p ∷ cs) (contents-refresh_duplicate now r events rest found)))
      ]
    ]

-- Where nothing was refreshed, no event has the signature.
refresh_duplicate_distinct :
    (now : ℤ) (r : SignedEventRecord) (events : List PublishedEvent)
    → refresh_duplicate now r events ≡ none
    → All (λ c. same_signature c.record_ r ≡ false) (contents events)
unfolding refresh_duplicate
refresh_duplicate_distinct now r [] e = tt
refresh_duplicate_distinct now r (p ∷ events) e =
    ground (arith, refresh_duplicate_distinct now r events)

-- An event that differs from those that are there stands behind them.
Distinct-append :
    (cs : List Content) (c : Content)
    → Distinct cs
    → All (λ d. same_signature d.record_ c.record_ ≡ false) cs
    → Distinct (cs ++ c ∷ [])
Distinct-append [] c d new = (tt, tt)
Distinct-append (b ∷ cs) c d new = (
  All-append (λ x. same_signature b.record_ x.record_ ≡ false) cs (c ∷ []) d.0 (new.0, tt),
  Distinct-append cs c d.1 new.1,
)

pub contents-append :
    (events : List PublishedEvent) (p : PublishedEvent)
    → contents (events ++ p ∷ []) ≡ contents events ++ content p ∷ []
contents-append [] p = refl
contents-append (q ∷ events) p = ap (λ cs. content q ∷ cs) (contents-append events p)

contents-republish_events :
    (now window : ℤ) (events : List PublishedEvent)
    → contents (republish_events now window events).0 ≡ contents events
unfolding republish_events refreshed
contents-republish_events now window [] = refl
contents-republish_events now window (p ∷ events) =
    elim (Bool-cases (ltb_ℤ window (now -ℤ p.published_at_utc))) [
      | inl old ↦ rw old (ap (λ cs. content p ∷ cs) (contents-republish_events now window events))
      | inr fresh ↦
          rw fresh (ap (λ cs. content p ∷ cs) (contents-republish_events now window events))
    ]

republish_entries-IsFree :
    (now window : ℤ) (key : Bytes) (entries : List Bucket)
    → IsFree key entries
    → IsFree key (republish_entries now window entries).0
unfolding republish_entries
republish_entries-IsFree now window key [] free = tt
republish_entries-IsFree now window key (b ∷ entries) free =
    (free.0, republish_entries-IsFree now window key entries free.1)

module _ {Point : Type 0} (ecdsa : Ecdsa Point) where
  -- RepublishRecent keeps the store valid.
  pub republish_entries-IsValid :
      (now window : ℤ) (entries : List Bucket)
      → IsValid ecdsa entries
      → IsValid ecdsa (republish_entries now window entries).0
  unfolding republish_entries
  republish_entries-IsValid now window [] v = tt
  republish_entries-IsValid now window (b ∷ entries) v = (
    republish_entries-IsFree now window b.key entries v.0,
    subst (IsBucket ecdsa b.key) (sym (contents-republish_events now window b.events)) v.1,
    republish_entries-IsValid now window entries v.2,
  )

  module _ (now : ℤ) (r : SignedEventRecord) (dht : MemoryEventDht) where
    pub store_record_found :
        (after : List PublishedEvent)
        → refresh_duplicate now r (find_bucket (deterministic_key r) dht.entries) ≡ some after
        → store_record now r (deterministic_key r) (derive_info_hash (deterministic_key r)) dht
          ≡ store_duplicate (deterministic_key r) (derive_info_hash (deterministic_key r)) after dht
    unfolding store_record store_bucket
    store_record_found after found =
        ap
          (store_bucket now r (deterministic_key r) (derive_info_hash (deterministic_key r))
            (find_bucket (deterministic_key r) dht.entries) dht)
          found

    pub store_record_new :
        refresh_duplicate now r (find_bucket (deterministic_key r) dht.entries) ≡ none
        → store_record now r (deterministic_key r) (derive_info_hash (deterministic_key r)) dht
          ≡ store_new now r
              (deterministic_key r)
              (derive_info_hash (deterministic_key r))
              (find_bucket (deterministic_key r) dht.entries)
              dht
    unfolding store_record store_bucket
    store_record_new gone =
        ap
          (store_bucket now r (deterministic_key r) (derive_info_hash (deterministic_key r))
            (find_bucket (deterministic_key r) dht.entries) dht)
          gone

    store_duplicate-IsValid :
        (after : List PublishedEvent)
        → refresh_duplicate now r (find_bucket (deterministic_key r) dht.entries) ≡ some after
        → IsValid ecdsa dht.entries
        → IsValid ecdsa
            (store_duplicate
              (deterministic_key r)
              (derive_info_hash (deterministic_key r))
              after
              dht).1.entries
    unfolding store_duplicate
    store_duplicate-IsValid after found v =
        put_bucket-IsValid ecdsa (deterministic_key r) after dht.entries
          (subst (IsBucket ecdsa (deterministic_key r))
            (sym (
              contents-refresh_duplicate now r (find_bucket (deterministic_key r) dht.entries) after
                found))
            (find_bucket-IsBucket ecdsa (deterministic_key r) dht.entries v))
          v

    store_new-IsValid :
        refresh_duplicate now r (find_bucket (deterministic_key r) dht.entries) ≡ none
        → verify_event_record ecdsa r ≡ true
        → IsValid ecdsa dht.entries
        → let stored =
            store_new now r
              (deterministic_key r)
              (derive_info_hash (deterministic_key r))
              (find_bucket (deterministic_key r) dht.entries)
              dht in
          IsValid ecdsa stored.1.entries
    unfolding store_new
    store_new-IsValid gone verified v =
        put_bucket-IsValid ecdsa (deterministic_key r) (bucket ++ published ∷ []) dht.entries
          (subst (IsBucket ecdsa (deterministic_key r)) (sym (contents-append bucket published)) (
            All-append (IsGenuine ecdsa (deterministic_key r)) (contents bucket)
                (content published ∷ [])
                (find_bucket-IsBucket ecdsa (deterministic_key r) dht.entries v).0
                (record { verifies = verified; derives = refl; keyed = refl; hashed = refl }, tt),
            Distinct-append (contents bucket) (content published)
                (find_bucket-IsBucket ecdsa (deterministic_key r) dht.entries v).1
                (refresh_duplicate_distinct now r bucket gone),
          ))
          v
      where
        bucket : List PublishedEvent
        bucket = find_bucket (deterministic_key r) dht.entries

        published : PublishedEvent
        published = record {
          dht_key = deterministic_key r;
          info_hash = derive_info_hash (deterministic_key r);
          record_ = r;
          published_at_utc = now;
          publish_count = 1;
        }

    store_record-IsValid :
        verify_event_record ecdsa r ≡ true
        → IsValid ecdsa dht.entries
        → IsValid ecdsa
            (store_record now r
              (deterministic_key r)
              (derive_info_hash (deterministic_key r))
              dht).1.entries
    store_record-IsValid verified v =
        elim (Option-cases
          (refresh_duplicate now r (find_bucket (deterministic_key r) dht.entries))) [
            | inl gone ↦
                subst (λ (s : Status × MemoryEventDht). IsValid ecdsa s.1.entries)
                  (sym (store_record_new gone)) (store_new-IsValid gone verified v)
            | inr (after, found) ↦
                subst (λ (s : Status × MemoryEventDht). IsValid ecdsa s.1.entries)
                  (sym (store_record_found after found)) (store_duplicate-IsValid after found v)
          ]

    -- Publish, by the outcome of the verification.
    decided : Bool → Status × MemoryEventDht
    decided verifies =
        if not verifies
        then (failure StatusCode.rejected (text "signed event record failed verification"), dht)
        else store_record now r (deterministic_key r) (derive_info_hash (deterministic_key r)) dht

    pub publish-eq-store_record :
        verify_event_record ecdsa r ≡ true
        → publish ecdsa now r dht
          ≡ store_record now r (deterministic_key r) (derive_info_hash (deterministic_key r)) dht
    unfolding publish decided
    publish-eq-store_record verified = ap decided verified

    -- A record that does not verify is refused, and the store stays as it is.
    pub publish_refused :
        verify_event_record ecdsa r ≡ false
        → publish ecdsa now r dht
          ≡ (failure StatusCode.rejected (text "signed event record failed verification"), dht)
    unfolding publish decided
    publish_refused refused = ap decided refused

    -- Publish keeps the store valid, whatever the record.
    pub publish-IsValid :
        IsValid ecdsa dht.entries → IsValid ecdsa (publish ecdsa now r dht).1.entries
    publish-IsValid v = elim (Bool-cases (verify_event_record ecdsa r)) [
      | inl verified ↦
          subst (λ (s : Status × MemoryEventDht). IsValid ecdsa s.1.entries)
            (sym (publish-eq-store_record verified)) (store_record-IsValid verified v)
      | inr refused ↦
          subst (λ (s : Status × MemoryEventDht). IsValid ecdsa s.1.entries)
            (sym (publish_refused refused)) v
    ]
