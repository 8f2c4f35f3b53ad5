-- ===== src/Chain/Kernel/History.antt =====
-- Membership of a transaction id, and what a commit does with it.
use blocxxi.Base.{◌≡◌, List, [], ◌∷◌, ◌++◌, true, arith, ◌⊎◌, inl, inr, Bool-cases, bytes_eq_iff}
use blocxxi.Core.Primitives.{Transaction, TransactionId}
use blocxxi.Chain.Kernel.{has_id, remove_committed}

-- A transaction with the id is in the list.
abbrev pub HasTransaction : TransactionId → List Transaction → Type 0
HasTransaction id [] = ⊥
HasTransaction id (t ∷ ts) = (t.id ≡ id) ⊎ HasTransaction id ts

pub HasTransaction-left :
    (id : TransactionId) (ts us : List Transaction)
    → HasTransaction id ts
    → HasTransaction id (ts ++ us)
HasTransaction-left id [] us h = absurd h
HasTransaction-left id (t ∷ ts) us h = elim h [
  | inl e ↦ inl e
  | inr r ↦ inr (HasTransaction-left id ts us r)
]

pub HasTransaction-right :
    (id : TransactionId) (ts us : List Transaction)
    → HasTransaction id us
    → HasTransaction id (ts ++ us)
HasTransaction-right id [] us h = h
HasTransaction-right id (t ∷ ts) us h = inr (HasTransaction-right id ts us h)

has_id-split :
    (t u : Transaction) (us : List Transaction)
    → has_id t (u ∷ us) ≡ true
    → (u.id ≡ t.id) ⊎ (has_id t us ≡ true)
unfolding has_id
has_id-split t u us h = ground (arith, bytes_eq_iff u.id t.id)

has_id→HasTransaction :
    (t : Transaction) (us : List Transaction) → has_id t us ≡ true → HasTransaction t.id us
has_id→HasTransaction t [] h = unfold has_id in cc
has_id→HasTransaction t (u ∷ us) h = elim (has_id-split t u us h) [
  | inl e ↦ inl e
  | inr r ↦ inr (has_id→HasTransaction t us r)
]

-- What a commit drops from the pending transactions is in the block.
pub remove_committed_keeps :
    (id : TransactionId) (committed pending : List Transaction)
    → HasTransaction id pending
    → HasTransaction id (remove_committed committed pending) ⊎ HasTransaction id committed
unfolding remove_committed
remove_committed_keeps id committed [] h = absurd h
remove_committed_keeps id committed (p ∷ ps) h = elim (Bool-cases (has_id p committed)) [
  | inl e ↦ rw e (elim h [
    | inl q ↦ inr (rw q at (has_id→HasTransaction p committed e))
    | inr r ↦ remove_committed_keeps id committed ps r
  ])
  | inr e ↦ rw e (elim h [
    | inl q ↦ inl (inl q)
    | inr r ↦ elim (remove_committed_keeps id committed ps r) [
      | inl kept ↦ inl (inr kept)
      | inr gone ↦ inr gone
    ]
  ])
]
