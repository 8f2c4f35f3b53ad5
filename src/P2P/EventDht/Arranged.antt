-- ===== src/P2P/EventDht/Arranged.antt =====
-- An insertion sort, which is one way to do what Query asks of std::sort.
use mathlib.Core.List.{Perm}
use mathlib.Core.List.Perm
use blocxxi.Base.{◌≡◌, [], ◌∷◌, List, Bool, false, All, sort, insert, Bool-cases, inl, inr}
use blocxxi.P2P.EventDht.{PublishedEvent, Arrange}
use blocxxi.P2P.EventDht.Query.{IsStrictWeak, IsSorted, IsArrange}

unfoldable pub arranged : Arrange
unfolding sort
arranged less events = sort less events

module _ (less : PublishedEvent → PublishedEvent → Bool) where
  insert-Perm :
      (p : PublishedEvent) (events : List PublishedEvent) → Perm (p ∷ events) (insert less p events)
  unfolding insert
  insert-Perm p [] = Perm.refl (p ∷ [])
  insert-Perm p (q ∷ events) = elim (Bool-cases (less q p)) [
    | inl before ↦
        rw before (Perm.trans (Perm.swap q p events) (Perm.cons q (insert-Perm p events)))
    | inr behind ↦ rw behind (Perm.refl (p ∷ q ∷ events))
  ]

  sort-permutes : (events : List PublishedEvent) → Perm events (sort less events)
  unfolding sort
  sort-permutes [] = Perm.refl []
  sort-permutes (p ∷ events) =
      Perm.trans (Perm.cons p (sort-permutes events)) (insert-Perm p (sort less events))

  module _ (law : IsStrictWeak less) where
    later-All :
        (p q : PublishedEvent) (events : List PublishedEvent)
        → less q p ≡ false
        → All (λ r. less r q ≡ false) events
        → All (λ r. less r p ≡ false) events
    later-All p q [] h k = tt
    later-All p q (r ∷ events) h k = (law.transitive p q r h k.0, later-All p q events h k.1)

    insert-All :
        (q p : PublishedEvent) (events : List PublishedEvent)
        → less p q ≡ false
        → All (λ r. less r q ≡ false) events
        → All (λ r. less r q ≡ false) (insert less p events)
    unfolding insert
    insert-All q p [] h k = (h, tt)
    insert-All q p (r ∷ events) h k = elim (Bool-cases (less r p)) [
      | inl before ↦ rw before (k.0, insert-All q p events h k.1)
      | inr behind ↦ rw behind (h, k)
    ]

    insert-IsSorted :
        (p : PublishedEvent) (events : List PublishedEvent)
        → IsSorted less events
        → IsSorted less (insert less p events)
    unfolding insert
    insert-IsSorted p [] h = (tt, tt)
    insert-IsSorted p (q ∷ events) h = elim (Bool-cases (less q p)) [
      | inl before ↦
          rw before
            (insert-All q p events (law.asymmetric q p before) h.0, insert-IsSorted p events h.1)
      | inr behind ↦ rw behind ((behind, later-All p q events behind h.0), h)
    ]

    sort-IsSorted : (events : List PublishedEvent) → IsSorted less (sort less events)
    unfolding sort
    sort-IsSorted [] = tt
    sort-IsSorted (p ∷ events) = insert-IsSorted p (sort less events) (sort-IsSorted events)

pub arranged-IsArrange : IsArrange arranged
unfolding arranged
arranged-IsArrange = record {
  permutes = λ less events law. sort-permutes less events;
  sorts = λ less events law. sort-IsSorted less law events;
}
