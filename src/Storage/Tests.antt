-- ===== src/Storage/Tests.antt =====
-- The file stores at concrete inputs, over a file system with one directory.
use mathlib.Core.List.Perm
use blocxxi.Base.{
  ◌↔◌, ℕ, ◌≡◌, ◌≢◌, ◌∙◌, bytes_lt, refl, [], ◌∷◌, ◌++◌, List, Bytes, true, false, Option, none,
  some, bytes_eq, bytes_eq_iff, if◌then◌else◌, replicate, pos, arith, ok, sort,
}
use blocxxi.Core.Primitives.{Block, empty_snapshot}
use blocxxi.Crypto.Hash.{IsHash}
use blocxxi.Storage.File.Blocks.{block_text, read_block}
use blocxxi.Storage.File.Blocks.RoundTrip.{IsStorableBlock, read_block-block_text}
use blocxxi.Storage.File.Snapshots.{IsStorableSnapshot}
use blocxxi.Storage.File.Stores.{FileSystem, good, get_chain, save, block_path}
use blocxxi.Storage.File.Stores.Chain.{Holds, earlier, get_chain_sorted}
use blocxxi.Core.Status.{status_ok}
use blocxxi.Storage.File.Stores.Kept.{IsCopy, load-save}

abbrev pub Files : Type 0
Files = List (Bytes × Bytes)

abbrev find_text : Files → Bytes → Option Bytes
find_text [] path = none
find_text ((p, s) ∷ files) path = if bytes_eq p path then some s else find_text files path

abbrev paths_of : Files → List Bytes
paths_of [] = []
paths_of ((p, s) ∷ files) = p ∷ paths_of files

abbrev pub disk : FileSystem Files
disk = record {
  join = λ d name. d ++ b'/' ∷ name;
  create_directories = λ f d. (true, f);
  write_file = λ f p s. (good, (p, s) ∷ f);
  read_file = find_text;
  exists = λ f d. true;
  list_files = λ f d. paths_of f;
}

find_text_self : (p s : Bytes) (f : Files) → find_text ((p, s) ∷ f) p ≡ some s
find_text_self p s f = ground (arith, bytes_eq_iff p p)

find_text_other : (p q s : Bytes) (f : Files) → q ≢ p → find_text ((p, s) ∷ f) q ≡ find_text f q
find_text_other p q s f h = ground (arith, bytes_eq_iff p q, h)

abbrev block_at : ℕ → Block
block_at height = record {
  header = record {
    id = replicate 32 7;
    previous_id = replicate 32 0;
    height = height;
    timestamp_utc = pos 5;
    source = b'a' ∷ [];
  };
  transactions =
      record { id = replicate 32 1; type = []; payload = 255 ∷ []; metadata = b'|' ∷ [] } ∷ [];
}

ids_IsHash : IsHash 32 (replicate 32 7) × IsHash 32 (replicate 32 0) × IsHash 32 (replicate 32 1)
ids_IsHash = (
  record { size = refl; in_range = omega arith },
  record { size = refl; in_range = omega arith },
  record { size = refl; in_range = omega arith },
)

two_storable : IsStorableBlock (block_at 2)
two_storable = record {
  id = ids_IsHash.0;
  previous_id = ids_IsHash.1;
  height = omega arith;
  timestamp = omega arith;
  source = omega arith;
  transactions =
      (record { id = ids_IsHash.2; type = tt; payload = omega arith; metadata = omega arith }, tt);
}

ten_storable : IsStorableBlock (block_at 10)
ten_storable = record {
  id = ids_IsHash.0;
  previous_id = ids_IsHash.1;
  height = omega arith;
  timestamp = omega arith;
  source = omega arith;
  transactions = two_storable.transactions;
}

read_block-block_text_example : read_block (block_text (block_at 10)) ≡ ok (block_at 10)
read_block-block_text_example = read_block-block_text (block_at 10) ten_storable

abbrev root : Bytes
root = b'r' ∷ []

abbrev two_files : Files
two_files =
    (block_path disk root (block_at 10), block_text (block_at 10))
    ∷ (block_path disk root (block_at 2), block_text (block_at 2))
    ∷ []

paths_test :
    bytes_eq (block_path disk root (block_at 2)) (block_path disk root (block_at 10)) ≡ false
unfolding bytes_eq block_path
paths_test = refl

paths_apart : block_path disk root (block_at 2) ≢ block_path disk root (block_at 10)
paths_apart e = cc (
  paths_test,
  (bytes_eq_iff (block_path disk root (block_at 2)) (block_path disk root (block_at 10))).1 e,
)

two_found :
    (find_text two_files (block_path disk root (block_at 10)) ≡ some (block_text (block_at 10)))
    × (find_text two_files (block_path disk root (block_at 2)) ≡ some (block_text (block_at 2)))
two_found =
    let ten = block_path disk root (block_at 10) in
    let two = block_path disk root (block_at 2) in
    let two_text = block_text (block_at 2) in
    let rest : Files = (two, two_text) ∷ [] in
    (
      find_text_self ten (block_text (block_at 10)) rest,
      find_text_other ten two (block_text (block_at 10)) rest paths_apart
          ∙ find_text_self two two_text [],
    )

two_held : Holds disk root two_files (block_at 10 ∷ block_at 2 ∷ [])
two_held = record {
  present = refl;
  files = Perm.refl _;
  texts = (two_found.0, (two_found.1, tt));
  storable = (ten_storable, (two_storable, tt));
}

get_chain_sorted_example :
    get_chain disk root two_files ≡ ok (sort (earlier disk root) (block_at 10 ∷ block_at 2 ∷ []))
get_chain_sorted_example =
    get_chain_sorted disk root two_files (block_at 10 ∷ block_at 2 ∷ []) two_held

-- Block 10 comes before block 2.
ten_first : sort (earlier disk root) (block_at 2 ∷ block_at 10 ∷ []) ≡ block_at 10 ∷ block_at 2 ∷ []
unfolding sort block_path bytes_lt
ten_first = refl

empty_storable : IsStorableSnapshot empty_snapshot
empty_storable = record {
  height = omega arith;
  head_id = ids_IsHash.1;
  block_count = omega arith;
  accepted_transactions = omega arith;
}

load-save_example :
    (path : Bytes) × (copy : Bytes) × IsCopy disk root [] empty_snapshot path copy
    × ((status_ok (save disk root [] empty_snapshot).0 ≡ true) ↔ (
        ((disk.create_directories [] root).0 ≡ true)
        × ((disk.write_file (disk.create_directories [] root).1 path copy).0 ≡ good)))
    × ((disk.create_directories [] root).0 ≡ true
        → (save disk root [] empty_snapshot).1
          ≡ (disk.write_file (disk.create_directories [] root).1 path copy).1)
load-save_example = load-save disk root [] empty_snapshot empty_storable
