-- ===== src/P2P/EventDht/Query.antt =====
-- What Query returns.
use mathlib.Core.List.{Perm}
use blocxxi.Base.{
  ℤ, pos, negsuc, Bool, drop, ◌++◌, ◌⊎◌, ℕ, zero, suc, ◌≤◌, ◌≡◌, refl, sym, subst, ap, [], ◌∷◌,
  List, Bytes, true, false, All, All-append, take, length, Bool-cases, inl, inr, arith, ltb_ℤ,
  All-Perm,
}
use blocxxi.Crypto.Signature.{Ecdsa}
use blocxxi.P2P.EventDht.{
  EventQuery, PublishedEvent, Bucket, MemoryEventDht, Arrange, matches_query, matching, all_events,
  later_first, query,
}
use blocxxi.P2P.EventDht.Matches.{IsSelection, stored, stored_all, matching-IsSelection}
use blocxxi.P2P.EventDht.Valid.{content, contents, IsGenuine, IsValid}

-- The later an event was published, the earlier it stands.
abbrev pub IsDescending : List PublishedEvent → Type 0
IsDescending [] = Unit
IsDescending (p ∷ events) =
    All (λ q. ltb_ℤ p.published_at_utc q.published_at_utc ≡ false) events × IsDescending events

-- A strict weak order, as std::sort demands of its comparator.
pub record IsStrictWeak (less : PublishedEvent → PublishedEvent → Bool) : Type 0 where
  pub asymmetric : (p q : PublishedEvent) → less p q ≡ true → less q p ≡ false
  pub transitive : (p q r : PublishedEvent) → less q p ≡ false → less r q ≡ false → less r p ≡ false

-- No event stands behind one that it is to precede.
abbrev pub IsSorted : (PublishedEvent → PublishedEvent → Bool) → List PublishedEvent → Type 0
IsSorted less [] = Unit
IsSorted less (p ∷ events) = All (λ q. less q p ≡ false) events × IsSorted less events

-- std::sort, which permutes the elements so that they are sorted by the comparator.
pub record IsArrange (arrange : Arrange) : Type 0 where
  pub permutes :
      (less : PublishedEvent → PublishedEvent → Bool) (events : List PublishedEvent)
      → IsStrictWeak less
      → Perm events (arrange less events)
  pub sorts :
      (less : PublishedEvent → PublishedEvent → Bool) (events : List PublishedEvent)
      → IsStrictWeak less
      → IsSorted less (arrange less events)

ltb_trans : (a b c : ℤ) → ltb_ℤ a b ≡ false → ltb_ℤ b c ≡ false → ltb_ℤ a c ≡ false
ltb_trans (pos a) (pos b) (pos c) h k = ground arith
ltb_trans (pos a) (pos b) (negsuc c) h k = ground arith
ltb_trans (pos a) (negsuc b) (pos c) h k = ground arith
ltb_trans (pos a) (negsuc b) (negsuc c) h k = ground arith
ltb_trans (negsuc a) (pos b) (pos c) h k = ground arith
ltb_trans (negsuc a) (pos b) (negsuc c) h k = ground arith
ltb_trans (negsuc a) (negsuc b) (pos c) h k = ground arith
ltb_trans (negsuc a) (negsuc b) (negsuc c) h k = ground arith

ltb_asym : (a b : ℤ) → ltb_ℤ a b ≡ true → ltb_ℤ b a ≡ false
ltb_asym (pos a) (pos b) h = ground arith
ltb_asym (pos a) (negsuc b) h = ground arith
ltb_asym (negsuc a) (pos b) h = ground arith
ltb_asym (negsuc a) (negsuc b) h = ground arith

later_first-IsStrictWeak : IsStrictWeak later_first
unfolding later_first
later_first-IsStrictWeak = record {
  asymmetric = λ p q h. ltb_asym q.published_at_utc p.published_at_utc h;
  transitive = λ p q r h k. ltb_trans p.published_at_utc q.published_at_utc r.published_at_utc h k;
}

later_first-IsDescending :
    (events : List PublishedEvent) → IsSorted later_first events → IsDescending events
unfolding later_first
later_first-IsDescending [] h = tt
later_first-IsDescending (p ∷ events) h = (h.0, later_first-IsDescending events h.1)

module _ {ℓ κ} {A : Type ℓ} (P : A → Type κ) where
  All-take : (n : ℕ) (xs : List A) → All P xs → All P (take n xs)
  All-take zero xs h = tt
  All-take (suc n) [] h = tt
  All-take (suc n) (x ∷ xs) h = (h.0, All-take n xs h.1)

take-IsDescending :
    (n : ℕ) (events : List PublishedEvent) → IsDescending events → IsDescending (take n events)
take-IsDescending zero events h = tt
take-IsDescending (suc n) [] h = tt
take-IsDescending (suc n) (p ∷ events) h = (
  All-take (λ q. ltb_ℤ p.published_at_utc q.published_at_utc ≡ false) n events h.0,
  take-IsDescending n events h.1,
)

length-take_le : {A : Type 0} (n : ℕ) (xs : List A) → length (take n xs) ≤ n
length-take_le zero xs = omega arith
length-take_le (suc n) [] = omega arith
length-take_le (suc n) (x ∷ xs) = omega (arith, length-take_le n xs)

take-drop : {A : Type 0} (n : ℕ) (xs : List A) → take n xs ++ drop n xs ≡ xs
take-drop zero xs = refl
take-drop (suc n) [] = refl
take-drop (suc n) (x ∷ xs) = ap (λ ys. x ∷ ys) (take-drop n xs)

-- Either all are taken, or as many as were asked for.
take_whole : {A : Type 0} (n : ℕ) (xs : List A) → (drop n xs ≡ []) ⊎ (length (take n xs) ≡ n)
take_whole zero xs = inr refl
take_whole (suc n) [] = inl refl
take_whole (suc n) (x ∷ xs) = elim (take_whole n xs) [
  | inl e ↦ inl e
  | inr e ↦ inr (omega (arith, e))
]

-- What comes behind the first events is not later than any of them.
abbrev pub AreBehind : List PublishedEvent → List PublishedEvent → Type 0
AreBehind events rest =
    All (λ p. All (λ q. ltb_ℤ p.published_at_utc q.published_at_utc ≡ false) rest) events

All-drop : {A : Type 0} (P : A → Type 0) (n : ℕ) (xs : List A) → All P xs → All P (drop n xs)
All-drop P zero xs h = h
All-drop P (suc n) [] h = tt
All-drop P (suc n) (x ∷ xs) h = All-drop P n xs h.1

take-AreBehind :
    (n : ℕ) (events : List PublishedEvent)
    → IsDescending events
    → AreBehind (take n events) (drop n events)
take-AreBehind zero events h = tt
take-AreBehind (suc n) [] h = tt
take-AreBehind (suc n) (p ∷ events) h = (
  All-drop (λ q. ltb_ℤ p.published_at_utc q.published_at_utc ≡ false) n events h.0,
  take-AreBehind n events h.1,
)

module _ {Point : Type 0} (ecdsa : Ecdsa Point) (q : EventQuery) where
  -- The event verifies, and stands under the key and the hash of its envelope.
  abbrev pub IsOwn : PublishedEvent → Type 0
  IsOwn p = IsGenuine ecdsa p.dht_key (content p)

  own_key :
      (key : Bytes) (events : List PublishedEvent)
      → All (IsGenuine ecdsa key) (contents events)
      → All (λ p. IsGenuine ecdsa p.dht_key (content p)) events
  own_key key [] h = tt
  own_key key (p ∷ events) h =
      (subst (λ k. IsGenuine ecdsa k (content p)) (sym h.0.keyed) h.0, own_key key events h.1)

  all_events-All :
      (entries : List Bucket)
      → IsValid ecdsa entries
      → All (λ p. IsGenuine ecdsa p.dht_key (content p)) (all_events entries)
  unfolding all_events
  all_events-All [] v = tt
  all_events-All (b ∷ entries) v =
      All-append (λ p. IsGenuine ecdsa p.dht_key (content p)) b.events (all_events entries)
        (own_key b.key b.events v.1.0) (all_events-All entries v.2)

  matching-All :
      (events : List PublishedEvent)
      → All (λ p. IsGenuine ecdsa p.dht_key (content p)) events
      → All IsOwn (matching q events)
  unfolding matching
  matching-All [] h = tt
  matching-All (p ∷ events) h = elim (Bool-cases (matches_query p q)) [
    | inl passes ↦ rw passes (h.0, matching-All events h.1)
    | inr fails ↦ rw fails (matching-All events h.1)
  ]

  -- Query, over a std::sort that permutes and sorts by its comparator, returns from a valid store the
  -- latest `limit` of the events that match, or all of them, if they are fewer, the later ones first;
  -- each of them verifies and stands under the key of its envelope. An event matches that has the key,
  -- the type and the taxonomy that are asked for, whose window meets the one that is asked for, and that
  -- has each of the identifiers.
  pub query_outcome :
      (arrange : Arrange) (dht : MemoryEventDht)
      → IsArrange arrange
      → IsValid ecdsa dht.entries
      → (found : List PublishedEvent) × (rest : List PublishedEvent) × IsSelection q
          (stored dht.entries)
          found
        × Perm found (query arrange dht q ++ rest)
        × IsDescending (query arrange dht q)
        × AreBehind (query arrange dht q) rest
        × (length (query arrange dht q) ≤ q.limit)
        × ((rest ≡ []) ⊎ (length (query arrange dht q) ≡ q.limit))
        × All IsOwn (query arrange dht q)
  unfolding query
  query_outcome arrange dht sorting v =
      let found = matching q (all_events dht.entries) in
      let ordered = arrange later_first found in
      let descending =
        later_first-IsDescending ordered
          (sorting.sorts later_first found later_first-IsStrictWeak) in
      let permuted = sorting.permutes later_first found later_first-IsStrictWeak in
      (
        found,
        drop q.limit ordered,
        subst (λ events. IsSelection q events found) (stored_all dht.entries)
            (matching-IsSelection q (all_events dht.entries)),
        subst (Perm found) (sym (take-drop q.limit ordered)) permuted,
        take-IsDescending q.limit ordered descending,
        take-AreBehind q.limit ordered descending,
        length-take_le q.limit ordered,
        take_whole q.limit ordered,
        All-take IsOwn q.limit ordered (
            All-Perm IsOwn (λ p. hlevel) permuted
              (matching-All (all_events dht.entries) (all_events-All dht.entries v))),
      )
