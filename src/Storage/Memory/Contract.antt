-- ===== src/Storage/Memory/Contract.antt =====
-- The in-memory stores keep the contracts that the kernel asks of its stores.
use blocxxi.Base.{
  ◌≡◌, ◌≢◌, refl, sym, ap, ◌∙◌, List, [], ◌∷◌, ◌++◌, Bytes, none, some, arith, Bool-cases, inl, inr,
  Option-cases, false, bytes_eq_iff, text, if◌then◌else◌,
}
use blocxxi.Crypto.Hash.{IsHash, to_hex, hash_eq, hash_eq_iff}
use blocxxi.Crypto.Hash.Hex.{to_hex-injective}
use blocxxi.Core.Status.{success, failure, duplicate}
use blocxxi.Core.Primitives.{Block, BlockId}
use blocxxi.Chain.Ports.{IsBlockStore, IsSnapshotStore, find_block}
use blocxxi.Storage.Memory.{
  MemoryBlocks, find, put_block, get_block, blocks_at, get_chain, memory_blocks, memory_snapshots,
  save, load,
}

abbrev Entries : Type 0
Entries = List (Bytes × Block)

-- Every entry stands under the text of its block's id, and no key stands twice.
abbrev IsKeyed : Entries → Type 0
IsKeyed [] = Unit
IsKeyed ((k, b) ∷ es) =
    (k ≡ to_hex b.header.id) × IsHash 32 b.header.id × (find k es ≡ none) × IsKeyed es

abbrev keys_of : Entries → List Bytes
keys_of [] = []
keys_of ((k, b) ∷ es) = keys_of es ++ k ∷ []

abbrev blocks_of : Entries → List Block
blocks_of [] = []
blocks_of ((k, b) ∷ es) = blocks_of es ++ b ∷ []

abbrev pub IsValid : MemoryBlocks → Type 0
IsValid s = IsKeyed s.blocks × (s.order ≡ keys_of s.blocks)

find_head : (k : Bytes) (b : Block) (es : Entries) → find k ((k, b) ∷ es) ≡ some b
unfolding find
find_head k b es = ground (arith, bytes_eq_iff k k)

find_tail :
    (key k : Bytes) (b : Block) (es : Entries) → k ≢ key → find key ((k, b) ∷ es) ≡ find key es
unfolding find
find_tail key k b es h = ground (arith, h, bytes_eq_iff k key)

blocks_at_split :
    (es : Entries) (key : Bytes) (order : List Bytes) {chain : List Block}
    → blocks_at es (key ∷ order) ≡ some chain
    → (b : Block) × (rest : List Block) × (find key es ≡ some b)
      × (blocks_at es order ≡ some rest)
      × (chain ≡ b ∷ rest)
unfolding blocks_at
blocks_at_split es key order h = elim (Option-cases (find key es)) [
  | inl e ↦ absurd (ground (arith, e))
  | inr (b, e) ↦ elim (Option-cases (blocks_at es order)) [
    | inl f ↦ absurd (ground (arith, e, f))
    | inr (rest, f) ↦ (b, rest, e, f, ground (arith, e, f))
  ]
]

blocks_at_join :
    (es : Entries) (key : Bytes) (order : List Bytes) (b : Block) (rest : List Block)
    → find key es ≡ some b
    → blocks_at es order ≡ some rest
    → blocks_at es (key ∷ order) ≡ some (b ∷ rest)
unfolding blocks_at
blocks_at_join es key order b rest e f = ground (arith, e, f)

-- A new key in front changes no walk along keys that are found behind it.
blocks_at-cons :
    (k : Bytes) (b : Block) (es : Entries) (order : List Bytes) (chain : List Block)
    → find k es ≡ none
    → blocks_at es order ≡ some chain
    → blocks_at ((k, b) ∷ es) order ≡ some chain
blocks_at-cons k b es [] chain new h = unfold blocks_at in h
blocks_at-cons k b es (key ∷ order) chain new h =
    let (c, rest, e, f, g) = blocks_at_split es key order h in
    rw g (
      blocks_at_join ((k, b) ∷ es) key order c rest
        (find_tail key k b es (λ p. cc (ap (λ q. find q es) p)) ∙ e)
        (blocks_at-cons k b es order rest new f))

blocks_at_nil : (es : Entries) {chain : List Block} → blocks_at es [] ≡ some chain → chain ≡ []
unfolding blocks_at
blocks_at_nil es h = cc

blocks_at-append :
    (es : Entries) (order : List Bytes) (key : Bytes) (chain : List Block) (b : Block)
    → blocks_at es order ≡ some chain
    → find key es ≡ some b
    → blocks_at es (order ++ key ∷ []) ≡ some (chain ++ b ∷ [])
blocks_at-append es [] key chain b h found =
    rw (blocks_at_nil es h) (blocks_at_join es key [] b [] found (unfold blocks_at in refl))
blocks_at-append es (k ∷ order) key chain b h found =
    let (c, rest, e, f, g) = blocks_at_split es k order h in
    rw g (
      blocks_at_join es k (order ++ key ∷ []) c (rest ++ b ∷ []) e
        (blocks_at-append es order key rest b f found))

blocks_at-keys_of : (es : Entries) → IsKeyed es → blocks_at es (keys_of es) ≡ some (blocks_of es)
blocks_at-keys_of [] h = unfold blocks_at in refl
blocks_at-keys_of ((k, b) ∷ es) h =
    blocks_at-append ((k, b) ∷ es) (keys_of es) k (blocks_of es) b
      (blocks_at-cons k b es (keys_of es) (blocks_of es) h.2 (blocks_at-keys_of es h.3))
      (find_head k b es)

-- `find_block` at the end of a list.
find_block-append :
    (id : BlockId) (bs : List Block) (b : Block)
    → find_block id (bs ++ b ∷ []) ≡ (elim (find_block id bs) [
      | some c ↦ some c
      | none ↦ if hash_eq b.header.id id then some b else none
    ])
unfolding find_block
find_block-append id [] b = refl
find_block-append id (c ∷ cs) b = ground (arith, find_block-append id cs b)

find_block-append_other :
    (id : BlockId) (bs : List Block) (b : Block)
    → hash_eq b.header.id id ≡ false
    → find_block id (bs ++ b ∷ []) ≡ find_block id bs
find_block-append_other id bs b other = ground (arith, find_block-append id bs b, other)

-- Looking up the text of an id among the entries is looking up the id among the blocks.
find-eq-find_block :
    (es : Entries) (id : BlockId)
    → IsKeyed es
    → IsHash 32 id
    → find (to_hex id) es ≡ find_block id (blocks_of es)
find-eq-find_block [] id h is = unfold find find_block in refl
find-eq-find_block ((k, b) ∷ es) id h is = elim (Bool-cases (hash_eq b.header.id id)) [
  | inl same ↦
      let key : k ≡ to_hex id = h.0 ∙ ap to_hex ((hash_eq_iff b.header.id id).0 same) in
      let new : find_block id (blocks_of es) ≡ none =
        sym (find-eq-find_block es id h.3 is) ∙ ap (λ q. find q es) (sym key) ∙ h.2 in
      ap (λ q. find q ((k, b) ∷ es)) (sym key)
      ∙ find_head k b es
      ∙ ground (arith, find_block-append id (blocks_of es) b, new, same)
  | inr other ↦
      find_tail (to_hex id) k b es (λ p. other_key (h.0, p) other)
      ∙ find-eq-find_block es id h.3 is
      ∙ sym (find_block-append_other id (blocks_of es) b other)
]
  where
    other_key : (k ≡ to_hex b.header.id) × (k ≡ to_hex id) → hash_eq b.header.id id ≡ false → ⊥
    other_key (p, q) other = cc (
      other,
      (hash_eq_iff b.header.id id).1
          (to_hex-injective 32 b.header.id id (omega arith) h.1 is (sym p ∙ q)),
    )

put_block-new :
    (s : MemoryBlocks) (b : Block)
    → IsValid s
    → IsHash 32 b.header.id
    → find_block b.header.id (blocks_of s.blocks) ≡ none
    → (s' : MemoryBlocks) × (put_block s b ≡ (success [], s'))
      × IsValid s'
      × (blocks_of s'.blocks ≡ blocks_of s.blocks ++ b ∷ [])
unfolding put_block
put_block-new s b valid is new =
    let missing = find-eq-find_block s.blocks b.header.id valid.0 is ∙ new in
    (
      record {
        blocks = (to_hex b.header.id, b) ∷ s.blocks;
        order = s.order ++ to_hex b.header.id ∷ [];
      },
      ground (arith, missing),
      ((refl, is, missing, valid.0), ap (λ o. o ++ to_hex b.header.id ∷ []) valid.1),
      refl,
    )

put_block-duplicate :
    (s : MemoryBlocks) (b c : Block)
    → IsValid s
    → IsHash 32 b.header.id
    → find_block b.header.id (blocks_of s.blocks) ≡ some c
    → (message : Bytes) × (put_block s b ≡ (failure duplicate message, s))
unfolding put_block
put_block-duplicate s b c valid is found =
    let present = find-eq-find_block s.blocks b.header.id valid.0 is ∙ found in
    (text "block already exists in memory store", ground (arith, present))

-- The blocks in the order in which they were put.
abbrev pub memory_chain : MemoryBlocks → List Block
memory_chain s = blocks_of s.blocks

-- The in-memory block store behaves as the list of the blocks that were put, in their order: it
-- returns that list as the chain, finds a block by its id, appends a block with a new id, and
-- refuses a block whose id it has, without a change.
pub memory_blocks-IsBlockStore : IsBlockStore IsValid memory_chain memory_blocks
unfolding get_block get_chain
memory_blocks-IsBlockStore = record {
  get_chain_lem = λ s h. rw h.1 (blocks_at-keys_of s.blocks h.0);
  get_block_lem = λ s id h is. find-eq-find_block s.blocks id h.0 is;
  put_block_new = put_block-new;
  put_block_duplicate = put_block-duplicate;
}

pub memory_snapshots-IsSnapshotStore : IsSnapshotStore memory_snapshots
unfolding save load
memory_snapshots-IsSnapshotStore = record { save_lem = λ t s. (some s, refl, refl) }
