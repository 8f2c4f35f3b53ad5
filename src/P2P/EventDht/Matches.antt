-- ===== src/P2P/EventDht/Matches.antt =====
-- Which events Query is to return.
use blocxxi.Base.{
  ◌≡◌, ◌↔◌, ◌⊎◌, refl, sym, ap, subst, [], ◌∷◌, ◌++◌, List, Bytes, Bool, true, false, not, ◌&&◌,
  Option, none, some, All, ltb_ℤ, bytes_eq, bytes_eq_iff, Bool-cases, inl, inr, if◌then◌else◌,
}
use blocxxi.P2P.EventDht.{
  EventQuery, PublishedEvent, Bucket, has_identifier, matches_identifiers, absent_or, matches_query,
  matching, all_events,
}

-- What is asked for, if something is.
abbrev pub Wanted : {A : Type 0} → Option A → (A → Type 0) → Type 0
Wanted {A} o P = (a : A) → o ≡ some a → P a

abbrev pub IsOneOf : Bytes → List Bytes → Type 0
IsOneOf x [] = ⊥
IsOneOf x (y ∷ ys) = (y ≡ x) ⊎ IsOneOf x ys

-- The event has the key, the type and the taxonomy that are asked for, its window meets the window that
-- is asked for, and it has each of the identifiers.
abbrev pub Matches : PublishedEvent → EventQuery → Type 0
Matches p q =
    Wanted q.deterministic_key (λ key. p.dht_key ≡ key)
    × (Wanted q.event_type (λ type. p.record_.envelope.event_type ≡ type)
        × (Wanted q.taxonomy (λ taxonomy. p.record_.envelope.taxonomy ≡ taxonomy)
            × (Wanted q.window_start_utc
                  (λ start. ltb_ℤ p.record_.envelope.window.end_utc start ≡ false)
                × (Wanted q.window_end_utc
                      (λ end. ltb_ℤ end p.record_.envelope.window.start_utc ≡ false)
                    × All (λ x. IsOneOf x p.record_.envelope.identifiers) q.identifiers))))

-- The events of all buckets.
abbrev pub stored : List Bucket → List PublishedEvent
stored [] = []
stored (b ∷ entries) = b.events ++ stored entries

-- The second list is what of the first matches, in its order.
abbrev pub IsSelection : EventQuery → List PublishedEvent → List PublishedEvent → Type 0
IsSelection q [] found = found ≡ []
IsSelection q (p ∷ events) found =
    (Matches p q × ((rest : List PublishedEvent) × (found ≡ p ∷ rest) × IsSelection q events rest))
    ⊎ (¬ Matches p q × IsSelection q events found)

guard_iff :
    {P R : Type 0} (b rest : Bool)
    → (b ≡ true) ↔ P
    → (rest ≡ true) ↔ R
    → ((if not b then false else rest) ≡ true) ↔ (P × R)
guard_iff true rest h k = ((λ e. (h.0 refl, k.0 e)), (λ x. k.1 x.1))
guard_iff false rest h k = ((λ e. absurd (cc e)), (λ x. absurd (cc (h.1 x.0))))

Wanted_iff :
    {A : Type 0} (o : Option A) (test : A → Bool) (P : A → Type 0)
    → ((a : A) → (test a ≡ true) ↔ P a)
    → (absent_or o test ≡ true) ↔ Wanted o P
unfolding absent_or
Wanted_iff none test P h = ((λ e a f. absurd (cc f)), (λ w. refl))
Wanted_iff (some b) test P h =
    ((λ e a f. (h a).0 (subst (λ x. test x ≡ true) (cc f) e)), (λ w. (h b).1 (w b refl)))

not_iff : (b : Bool) → (not b ≡ true) ↔ (b ≡ false)
not_iff true = ((λ e. sym e), (λ e. sym e))
not_iff false = ((λ e. refl), (λ e. refl))

has_identifier_iff : (x : Bytes) (ys : List Bytes) → (has_identifier x ys ≡ true) ↔ IsOneOf x ys
unfolding has_identifier
has_identifier_iff x [] = ((λ e. absurd (cc e)), (λ h. absurd h))
has_identifier_iff x (y ∷ ys) =
    let rest = has_identifier_iff x ys in
    elim (Bool-cases (bytes_eq y x)) [
      | inl e ↦ rw e ((λ h. inl ((bytes_eq_iff y x).0 e)), (λ h. refl))
      | inr e ↦ rw e (
        (λ h. inr (rest.0 h)),
        (λ h. elim h [ inl same ↦ absurd (cc (e, (bytes_eq_iff y x).1 same)) | inr k ↦ rest.1 k ]),
      )
    ]

both_iff :
    {P R : Type 0} (b c : Bool) → (b ≡ true) ↔ P → (c ≡ true) ↔ R → ((b && c) ≡ true) ↔ (P × R)
both_iff true c h k = ((λ e. (h.0 refl, k.0 e)), (λ x. k.1 x.1))
both_iff false c h k = ((λ e. absurd (cc e)), (λ x. absurd (cc (h.1 x.0))))

identifiers_iff :
    (p : PublishedEvent) (xs : List Bytes)
    → (matches_identifiers p.record_ xs ≡ true)
      ↔ All (λ x. IsOneOf x p.record_.envelope.identifiers) xs
unfolding matches_identifiers
identifiers_iff p [] = ((λ e. tt), (λ h. refl))
identifiers_iff p (x ∷ xs) =
    both_iff _ _ (has_identifier_iff x p.record_.envelope.identifiers) (identifiers_iff p xs)

pub matches_query_iff :
    (p : PublishedEvent) (q : EventQuery) → (matches_query p q ≡ true) ↔ Matches p q
unfolding matches_query
matches_query_iff p q =
    guard_iff _ _ (Wanted_iff q.deterministic_key _ _ (λ key. bytes_eq_iff p.dht_key key)) (
      guard_iff _ _
        (Wanted_iff q.event_type _ _ (λ type. bytes_eq_iff p.record_.envelope.event_type type))
        (guard_iff _ _
          (Wanted_iff q.taxonomy _ _
            (λ taxonomy. bytes_eq_iff p.record_.envelope.taxonomy taxonomy))
          (guard_iff _ _
            (Wanted_iff q.window_start_utc _ _
              (λ start. not_iff (ltb_ℤ p.record_.envelope.window.end_utc start)))
            (guard_iff _ _
              (Wanted_iff q.window_end_utc _ _
                (λ end. not_iff (ltb_ℤ end p.record_.envelope.window.start_utc)))
              (identifiers_iff p q.identifiers)))))

pub matching-IsSelection :
    (q : EventQuery) (events : List PublishedEvent) → IsSelection q events (matching q events)
unfolding matching
matching-IsSelection q [] = refl
matching-IsSelection q (p ∷ events) = elim (Bool-cases (matches_query p q)) [
  | inl e ↦
      rw e (
        inl ((matches_query_iff p q).0 e, (matching q events, refl, matching-IsSelection q events)))
  | inr e ↦
      rw e
        (inr ((λ m. absurd (cc (e, (matches_query_iff p q).1 m))), matching-IsSelection q events))
]

pub stored_all : (entries : List Bucket) → all_events entries ≡ stored entries
unfolding all_events
stored_all [] = refl
stored_all (b ∷ entries) = ap (λ events. b.events ++ events) (stored_all entries)
