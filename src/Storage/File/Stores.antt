-- ===== src/Storage/File/Stores.antt =====
-- FileBlockStore and FileSnapshotStore of src/Blocxxi/Storage/file_store.cpp. The file system is a
-- parameter; a read or a walk of a directory does not fail halfway.
pub mod Chain
pub mod Kept
use blocxxi.Base.{
  ℕ, [], ◌∷◌, List, ◌++◌, Bytes, text, Bool, Option, none, some, not, bytes_lt, sort, if◌then◌else◌,
  Outcome, ok, ◌>>=◌,
}
use blocxxi.Crypto.Hash.{hash_eq}
use blocxxi.Core.Status.{Status, StatusCode, success, failure, io_error}
use blocxxi.Core.Primitives.{Block, BlockId, ChainSnapshot}
use blocxxi.Storage.File.{block_file_name}
use blocxxi.Storage.File.Blocks.{block_text, read_block}
use blocxxi.Storage.File.Snapshots.{snapshot_text, read_snapshot}

-- How writing a whole file ends.
pub data Written : Type 0 where
  not_opened not_good good : Written

-- What the code calls of the file system. `join` is operator/ of paths, `create_directories` says
-- whether there was no error, `list_files` is the regular files of a directory.
pub record FileSystem (F : Type 0) : Type 0 where
  pub join : Bytes → Bytes → Bytes
  pub create_directories : F → Bytes → Bool × F
  pub write_file : F → Bytes → Bytes → Written × F
  pub read_file : F → Bytes → Option Bytes
  pub exists : F → Bytes → Bool
  pub list_files : F → Bytes → List Bytes

-- The status of Save and PutBlock from the writing on.
unfoldable pub written_status : Bytes → Bytes → Written → Status
written_status unopened unwritten not_opened = failure io_error unopened
written_status unopened unwritten not_good = failure io_error unwritten
written_status unopened unwritten good = success []

module _ {F : Type 0} (fs : FileSystem F) (root : Bytes) where
  unfoldable pub blocks_directory : Bytes
  unfolding text
  blocks_directory = fs.join root (text "blocks")

  -- BlockPath
  unfoldable pub block_path : Block → Bytes
  unfolding text block_file_name
  block_path b = fs.join (fs.join root (text "blocks")) (block_file_name b)

  unfoldable pub put_block : F → Block → Status × F
  unfolding text blocks_directory block_path block_text written_status
  put_block f b =
      let created = fs.create_directories f blocks_directory in
      let output = fs.write_file created.1 (block_path b) (block_text b) in
      if not created.0
      then (failure io_error (text "failed to create block store directory"), created.1)
      else (
        written_status (text "failed to open block file for writing")
            (text "failed to persist block contents") output.0,
        output.1,
      )

  -- ReadBlock, from the file's text on.
  unfoldable pub read_found : Option Bytes → Outcome (Option Block)
  unfolding read_block
  read_found none = ok none
  read_found (some s) = read_block s >>= λ b. ok (some b)

  -- A round of the loop of GetBlock, with the rest of it.
  unfoldable pub match_block :
      BlockId → Option Block → Outcome (Option Block) → Outcome (Option Block)
  unfolding hash_eq
  match_block id none rest = rest
  match_block id (some b) rest = if hash_eq b.header.id id then ok (some b) else rest

  unfoldable pub find_file : F → BlockId → List Bytes → Outcome (Option Block)
  unfolding read_found match_block
  find_file f id [] = ok none
  find_file f id (path ∷ paths) =
      read_found (fs.read_file f path) >>= λ found. match_block id found (find_file f id paths)

  unfoldable pub get_block : F → BlockId → Outcome (Option Block)
  unfolding blocks_directory find_file
  get_block f id =
      let found = find_file f id (fs.list_files f blocks_directory) in
      if not (fs.exists f blocks_directory) then ok none else found

  abbrev pub cons_found : Option Block → List Block → List Block
  cons_found none chain = chain
  cons_found (some b) chain = b ∷ chain

  -- The last loop of GetChain.
  unfoldable pub read_files : F → List Bytes → Outcome (List Block)
  unfolding read_found
  read_files f [] = ok []
  read_files f (path ∷ paths) = read_found (fs.read_file f path) >>= λ found.
      read_files f paths >>= λ rest. ok (cons_found found rest)

  -- GetChain. The paths of one directory are compared as texts.
  unfoldable pub get_chain : F → Outcome (List Block)
  unfolding blocks_directory read_files bytes_lt
  get_chain f =
      let chain = read_files f (sort bytes_lt (fs.list_files f blocks_directory)) in
      if not (fs.exists f blocks_directory) then ok [] else chain

  unfoldable pub snapshot_path : Bytes
  unfolding text
  snapshot_path = fs.join root (text "snapshot.txt")

  unfoldable pub save : F → ChainSnapshot → Status × F
  unfolding text snapshot_path snapshot_text written_status
  save f s =
      let created = fs.create_directories f root in
      let output = fs.write_file created.1 snapshot_path (snapshot_text s) in
      if not created.0
      then (failure io_error (text "failed to create snapshot directory"), created.1)
      else (
        written_status (text "failed to open snapshot file for writing")
            (text "failed to persist snapshot contents") output.0,
        output.1,
      )

  -- Load, from the file's text on.
  unfoldable pub load_found : Option Bytes → Outcome (Option ChainSnapshot)
  unfolding read_snapshot
  load_found none = ok none
  load_found (some s) = read_snapshot s >>= λ t. ok (some t)

  unfoldable pub load : F → Outcome (Option ChainSnapshot)
  unfolding load_found snapshot_path
  load f = load_found (fs.read_file f snapshot_path)
