-- ===== src/Storage/File/Stores/Chain.antt =====
-- GetChain, in a directory of block files.
use mathlib.Core.List.{map, Perm}
use blocxxi.Base.{
  ◌≡◌, refl, sym, ap, ◌∙◌, [], ◌∷◌, List, Bytes, Bool, true, All, some, bytes_lt, insert, sort,
  sort-Perm, bytes_lt-IsOrder, ok, Bool-cases, inl, inr,
}
use blocxxi.Core.Primitives.{Block}
use blocxxi.Storage.File.Blocks.{block_text}
use blocxxi.Storage.File.Blocks.RoundTrip.{IsStorableBlock, read_block-block_text}
use blocxxi.Storage.File.Stores.{
  FileSystem, blocks_directory, block_path, read_found, read_files, get_chain,
}

module _ {ℓ κ} {A : Type ℓ} {B : Type κ} (f : A → B) (less : B → B → Bool) where
  abbrev pub by_image : A → A → Bool
  by_image x y = less (f x) (f y)

  map-insert : (x : A) (l : List A) → map f (insert by_image x l) ≡ insert less (f x) (map f l)
  unfolding insert
  map-insert x [] = refl
  map-insert x (y ∷ l) = elim (Bool-cases (less (f y) (f x))) [
    | inl e ↦ rw e (ap (λ t. f y ∷ t) (map-insert x l))
    | inr e ↦ rw e refl
  ]

  -- Sorting by an image, and the images sorted.
  map-sort : (l : List A) → map f (sort by_image l) ≡ sort less (map f l)
  unfolding sort
  map-sort [] = refl
  map-sort (x ∷ l) = map-insert x (sort by_image l) ∙ ap (insert less (f x)) (map-sort l)

  module _ {μ} (P : A → Type μ) where
    All-insert : (x : A) (l : List A) → P x → All P l → All P (insert by_image x l)
    unfolding insert
    All-insert x [] h k = (h, tt)
    All-insert x (y ∷ l) h k = elim (Bool-cases (by_image y x)) [
      | inl e ↦ rw e (k.0, All-insert x l h k.1)
      | inr e ↦ rw e (h, k)
    ]

    All-sort : (l : List A) → All P l → All P (sort by_image l)
    unfolding sort
    All-sort [] h = tt
    All-sort (x ∷ l) h = All-insert x (sort by_image l) h.0 (All-sort l h.1)

bytes_set : IsSet Bytes
bytes_set = hlevel

module _ {F : Type 0} (fs : FileSystem F) (root : Bytes) where
  -- The directory has a file for each of the blocks, and no other.
  pub record Holds (f : F) (bs : List Block) : Type 0 where
    pub present : fs.exists f (blocks_directory fs root) ≡ true
    pub files : Perm (fs.list_files f (blocks_directory fs root)) (map (block_path fs root) bs)
    pub texts : All (λ b. fs.read_file f (block_path fs root b) ≡ some (block_text b)) bs
    pub storable : All IsStorableBlock bs

  -- The order of GetChain.
  abbrev pub earlier : Block → Block → Bool
  earlier = by_image (block_path fs root) bytes_lt

  read_files-map :
      (f : F) (bs : List Block)
      → All (λ b. fs.read_file f (block_path fs root b) ≡ some (block_text b)) bs
      → All IsStorableBlock bs
      → read_files fs root f (map (block_path fs root) bs) ≡ ok bs
  unfolding read_files read_found
  read_files-map f [] h k = refl
  read_files-map f (b ∷ bs) h k =
      simp (h.0, read_block-block_text b k.0, read_files-map f bs h.1 k.1)

  -- GetChain, over a directory that has the file of each of some blocks and no other file, returns
  -- these blocks, sorted by the paths of their files.
  pub get_chain_sorted :
      (f : F) (bs : List Block) → Holds f bs → get_chain fs root f ≡ ok (sort earlier bs)
  unfolding get_chain
  get_chain_sorted f bs h = rw h.present (
      ap (read_files fs root f) (
        sort-Perm bytes_lt bytes_lt-IsOrder bytes_set h.files
        ∙ sym (map-sort (block_path fs root) bytes_lt bs))
      ∙ read_files-map f (sort earlier bs)
          (All-sort (block_path fs root) bytes_lt
            (λ b. fs.read_file f (block_path fs root b) ≡ some (block_text b)) bs h.texts)
          (All-sort (block_path fs root) bytes_lt IsStorableBlock bs h.storable))
