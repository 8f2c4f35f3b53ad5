-- ===== src/Chain/Ports/Lookup.antt =====
-- Looking a block up by its id, in a list of blocks whose ids differ.
use blocxxi.Base.{
  ◌≡◌, ◌≢◌, refl, sym, none, some, List, [], ◌∷◌, ◌++◌, All, All-append, arith, ◌⊎◌, inl, inr,
  bytes_eq_iff,
}
use blocxxi.Core.Primitives.{Block, BlockId}
use blocxxi.Chain.Ports.{find_block}

-- No block of the list has the id.
abbrev pub IsNew : BlockId → List Block → Type 0
IsNew id = All (λ b. b.header.id ≢ id)

abbrev pub HaveDistinctIds : List Block → Type 0
HaveDistinctIds [] = Unit
HaveDistinctIds (b ∷ bs) = IsNew b.header.id bs × HaveDistinctIds bs

-- `b` is one of the list.
abbrev pub IsIn : Block → List Block → Type 0
IsIn b [] = ⊥
IsIn b (c ∷ cs) = (b ≡ c) ⊎ IsIn b cs

find_block-cons :
    (id : BlockId) (b : Block) (bs : List Block)
    → find_block id (b ∷ bs) ≡ none
    → (b.header.id ≢ id) × (find_block id bs ≡ none)
unfolding find_block
find_block-cons id b bs h = (λ p. ground (arith, bytes_eq_iff b.header.id id), ground arith)

pub find_block→IsNew : (id : BlockId) (bs : List Block) → find_block id bs ≡ none → IsNew id bs
find_block→IsNew id [] h = tt
find_block→IsNew id (b ∷ bs) h =
    let p = find_block-cons id b bs h in (p.0, find_block→IsNew id bs p.1)

pub IsNew→find_block : (id : BlockId) (bs : List Block) → IsNew id bs → find_block id bs ≡ none
unfolding find_block
IsNew→find_block id [] h = refl
IsNew→find_block id (b ∷ bs) h =
    ground (arith, h.0, bytes_eq_iff b.header.id id, IsNew→find_block id bs h.1)

pub HaveDistinctIds-append :
    (bs : List Block) (b : Block)
    → HaveDistinctIds bs
    → IsNew b.header.id bs
    → HaveDistinctIds (bs ++ b ∷ [])
HaveDistinctIds-append [] b h new = (tt, tt)
HaveDistinctIds-append (c ∷ cs) b h new = (
  All-append (λ d. d.header.id ≢ c.header.id) cs (b ∷ []) h.0 ((λ p. new.0 (sym p)), tt),
  HaveDistinctIds-append cs b h.1 new.1,
)

find_block_head : (b : Block) (bs : List Block) → find_block b.header.id (b ∷ bs) ≡ some b
unfolding find_block
find_block_head b bs = ground (arith, bytes_eq_iff b.header.id b.header.id)

find_block_tail :
    (id : BlockId) (b : Block) (bs : List Block)
    → b.header.id ≢ id
    → find_block id (b ∷ bs) ≡ find_block id bs
unfolding find_block
find_block_tail id b bs h = ground (arith, h, bytes_eq_iff b.header.id id)

IsNew-ne : (id : BlockId) (b : Block) (bs : List Block) → IsNew id bs → IsIn b bs → b.header.id ≢ id
IsNew-ne id b [] h m = absurd m
IsNew-ne id b (c ∷ cs) h m = elim m [ inl e ↦ rw e h.0 | inr r ↦ IsNew-ne id b cs h.1 r ]

-- A block of the list is found by its id.
pub find_block-IsIn :
    (b : Block) (bs : List Block)
    → HaveDistinctIds bs
    → IsIn b bs
    → find_block b.header.id bs ≡ some b
find_block-IsIn b [] h m = absurd m
find_block-IsIn b (c ∷ cs) h m = elim m [
  | inl e ↦ rw e (find_block_head c cs)
  | inr r ↦
      rw (find_block_tail b.header.id c cs (λ p. IsNew-ne c.header.id b cs h.0 r (sym p)))
        (find_block-IsIn b cs h.1 r)
]
