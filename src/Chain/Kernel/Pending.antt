-- ===== src/Chain/Kernel/Pending.antt =====
-- The pending transactions: `SubmitTransaction` keeps their ids distinct, and a commit removes those
-- of the block and no other.
use blocxxi.Base.{
  ◌≡◌, ◌≢◌, ◌↔◌, ◌⊎◌, refl, sym, List, [], ◌∷◌, ◌++◌, true, false, All, All-append, arith,
  bytes_eq_iff, Bool-cases, inl, inr,
}
use blocxxi.Core.Primitives.{Transaction}
use blocxxi.Chain.Kernel.{has_id, remove_committed}

-- No transaction of the list has the id of `t`.
abbrev pub IsFresh : Transaction → List Transaction → Type 0
IsFresh t = All (λ u. u.id ≢ t.id)

-- The ids are pairwise different.
abbrev pub HasDistinctIds : List Transaction → Type 0
HasDistinctIds [] = Unit
HasDistinctIds (t ∷ ts) = IsFresh t ts × HasDistinctIds ts

-- `t` is one of the list.
abbrev pub IsIn : Transaction → List Transaction → Type 0
IsIn t [] = ⊥
IsIn t (u ∷ us) = (t ≡ u) ⊎ IsIn t us

has_id-cons :
    (t u : Transaction) (us : List Transaction)
    → has_id t (u ∷ us) ≡ false
    → (u.id ≢ t.id) × (has_id t us ≡ false)
unfolding has_id
has_id-cons t u us h = (λ p. ground (arith, bytes_eq_iff u.id t.id), ground arith)

pub has_id→IsFresh : (t : Transaction) (us : List Transaction) → has_id t us ≡ false → IsFresh t us
has_id→IsFresh t [] h = tt
has_id→IsFresh t (u ∷ us) h = let p = has_id-cons t u us h in (p.0, has_id→IsFresh t us p.1)

pub IsFresh→has_id : (t : Transaction) (us : List Transaction) → IsFresh t us → has_id t us ≡ false
unfolding has_id
IsFresh→has_id t [] h = refl
IsFresh→has_id t (u ∷ us) h = ground (arith, h.0, bytes_eq_iff u.id t.id, IsFresh→has_id t us h.1)

has_id_head : (t : Transaction) (us : List Transaction) → has_id t (t ∷ us) ≡ true
unfolding has_id
has_id_head t us = ground (arith, bytes_eq_iff t.id t.id)

has_id_tail :
    (t u : Transaction) (us : List Transaction) → has_id t us ≡ true → has_id t (u ∷ us) ≡ true
unfolding has_id
has_id_tail t u us h = ground arith

IsFresh-remove_committed :
    (t : Transaction) (committed pending : List Transaction)
    → IsFresh t pending
    → IsFresh t (remove_committed committed pending)
unfolding remove_committed
IsFresh-remove_committed t committed [] h = tt
IsFresh-remove_committed t committed (p ∷ ps) h =
    let rest = IsFresh-remove_committed t committed ps h.1 in
    elim (Bool-cases (has_id p committed)) [ inl e ↦ rw e rest | inr e ↦ rw e (h.0, rest) ]

pub HasDistinctIds-remove_committed :
    (committed pending : List Transaction)
    → HasDistinctIds pending
    → HasDistinctIds (remove_committed committed pending)
unfolding remove_committed
HasDistinctIds-remove_committed committed [] h = tt
HasDistinctIds-remove_committed committed (p ∷ ps) h =
    let rest = HasDistinctIds-remove_committed committed ps h.1 in
    elim (Bool-cases (has_id p committed)) [
      | inl e ↦ rw e rest
      | inr e ↦ rw e (IsFresh-remove_committed p committed ps h.0, rest)
    ]

pub HasDistinctIds-append :
    (ts : List Transaction) (t : Transaction)
    → HasDistinctIds ts
    → IsFresh t ts
    → HasDistinctIds (ts ++ t ∷ [])
HasDistinctIds-append [] t h fresh = (tt, tt)
HasDistinctIds-append (u ∷ us) t h fresh = (
  All-append (λ v. v.id ≢ u.id) us (t ∷ []) h.0 ((λ p. fresh.0 (sym p)), tt),
  HasDistinctIds-append us t h.1 fresh.1,
)

-- A commit keeps, of the pending transactions, exactly those that no committed transaction shares
-- its id with.
pub IsIn-remove_committed :
    (t : Transaction) (committed pending : List Transaction)
    → IsIn t (remove_committed committed pending) ↔ (IsIn t pending × IsFresh t committed)
unfolding remove_committed
IsIn-remove_committed t committed [] = (λ m. absurd m, λ m. m.0)
IsIn-remove_committed t committed (p ∷ ps) =
    let rest = IsIn-remove_committed t committed ps in
    elim (Bool-cases (has_id p committed)) [
      | inl e ↦ rw e (
        (λ m. (inr (rest.0 m).0, (rest.0 m).1)),
        (λ m. elim m.0 [ inl q ↦ absurd (committed_elsewhere e q m.1) | inr r ↦ rest.1 (r, m.1) ]),
      )
      | inr e ↦ rw e (
        (λ m. elim m [
          | inl q ↦ (inl q, rw q (has_id→IsFresh p committed e))
          | inr r ↦ (inr (rest.0 r).0, (rest.0 r).1)
        ]),
        (λ m. elim m.0 [ inl q ↦ inl q | inr r ↦ inr (rest.1 (r, m.1)) ]),
      )
    ]
  where
    committed_elsewhere : has_id p committed ≡ true → t ≡ p → IsFresh t committed → ⊥
    committed_elsewhere e q fresh = cc (e, IsFresh→has_id p committed (rw q at fresh))

AreCommitted : List Transaction → List Transaction → Type 0
AreCommitted [] committed = Unit
AreCommitted (p ∷ ps) committed = (has_id p committed ≡ true) × AreCommitted ps committed

AreCommitted-cons :
    (ps committed : List Transaction) (u : Transaction)
    → AreCommitted ps committed
    → AreCommitted ps (u ∷ committed)
unfolding AreCommitted
AreCommitted-cons [] committed u h = tt
AreCommitted-cons (p ∷ ps) committed u h =
    (has_id_tail p u committed h.0, AreCommitted-cons ps committed u h.1)

AreCommitted-self : (ps : List Transaction) → AreCommitted ps ps
unfolding AreCommitted
AreCommitted-self [] = tt
AreCommitted-self (p ∷ ps) = (has_id_head p ps, AreCommitted-cons ps ps p (AreCommitted-self ps))

remove_committed_all :
    (ps committed : List Transaction)
    → AreCommitted ps committed
    → remove_committed committed ps ≡ []
unfolding AreCommitted remove_committed
remove_committed_all [] committed h = refl
remove_committed_all (p ∷ ps) committed h = rw h.0 (remove_committed_all ps committed h.1)

-- Committing all that is pending leaves nothing pending.
pub remove_committed_self : (ps : List Transaction) → remove_committed ps ps ≡ []
remove_committed_self ps = remove_committed_all ps ps (AreCommitted-self ps)
