-- ===== src/Bitcoin/Import.antt =====
-- ImportLiveSignetHeaders of src/Blocxxi/Bitcoin/adapter.cpp, and how its progress is saved and found
-- again.
pub mod Resume
pub mod Outcomes
mod Tests
use blocxxi.Base.{
  ℕ, ◌%◌, ◌^◌, [], ◌∷◌, ◌++◌, List, Bytes, text, to_string, Bool, not, ◌&&◌, Option, none, some,
  take, drop, bytes_eq, is_empty, if◌then◌else◌, Outcome, ok, ◌>>=◌,
}
use blocxxi.Base.Scan.{lines, stoull}
use blocxxi.Core.Status.{Status, StatusCode, status_ok, failure, rejected}
use blocxxi.Core.Primitives.{ChainConfig}
use blocxxi.Storage.File.Blocks.{put_line}
use blocxxi.Storage.File.Stores.{FileSystem}
use blocxxi.Node.Lifecycle.{NodeOptions, StorageMode, in_memory, file_system}
use blocxxi.Bitcoin.Wire.{Outside}
use blocxxi.Bitcoin.Peer.{HostAddress}
use blocxxi.Bitcoin.Headers.{Header, HeaderSyncAdapter, NodeCalls, last_of, submit_headers}
use blocxxi.Bitcoin.Fetch.{
  SignetLiveOptions, Endpoint, SignetHeadersResult, no_headers, fetch_headers,
}

-- LoadImportState, from the lines on: the height and the hash.
unfoldable pub import_state : List Bytes → Outcome (Option (ℕ × Bytes))
unfolding text bytes_eq stoull
import_state (height_line ∷ hash_line ∷ _) =
    if bytes_eq (take 7 height_line) (text "height=") && bytes_eq (take 5 hash_line) (text "hash=")
    then (stoull (drop 7 height_line) >>= λ n. ok (some (n % 2 ^ 32, drop 5 hash_line)))
    else ok none
import_state _ = ok none

-- What PersistImportProgress writes.
unfoldable pub progress_text : Header → Bytes
unfolding text to_string
progress_text header =
    put_line "height=" (to_string header.height) (put_line "hash=" header.hash_hex [])

-- The root that a node with these options has, for options without one.
unfoldable pub default_root : NodeOptions → ChainConfig → Bytes
default_root options chain = elim options.storage_mode [
  | in_memory ↦ []
  | file_system ↦
      if is_empty options.storage_root then chain.data_directory else options.storage_root
]

-- The options with the state that was found.
unfoldable pub set_locator : SignetLiveOptions → Option (ℕ × Bytes) → SignetLiveOptions
set_locator options none = options
set_locator options (some (height, hash)) = record options {
  locator_height = height;
  locator_hash_hex = hash;
}

module _ {F : Type 0} (fs : FileSystem F) where
  unfoldable pub import_state_path : Bytes → Bytes
  unfolding text
  import_state_path root = fs.join root (text "bitcoin-signet-import.txt")

  -- LoadImportState, from the file's text on.
  unfoldable pub state_found : Option Bytes → Outcome (Option (ℕ × Bytes))
  unfolding lines import_state
  state_found none = ok none
  state_found (some s) = import_state (lines s)

  unfoldable pub load_import_state : F → Bytes → Outcome (Option (ℕ × Bytes))
  unfolding import_state_path state_found
  load_import_state f root =
      let found = state_found (fs.read_file f (import_state_path root)) in
      if not (fs.exists f (import_state_path root)) then ok none else found

  -- ResolveImportOptions of an adapter that is bound.
  unfoldable pub resolve_import_options :
      F → NodeOptions → ChainConfig → SignetLiveOptions → Outcome SignetLiveOptions
  unfolding default_root load_import_state set_locator
  resolve_import_options f node_options chain options =
      let rooted : SignetLiveOptions =
        if is_empty options.state_root
        then record options { state_root = default_root node_options chain }
        else options in
      let found =
        load_import_state f rooted.state_root >>= λ state. ok (set_locator rooted state) in
      if is_empty rooted.state_root then ok rooted else found

  unfoldable pub persist_import_progress : F → Bytes → List Header → F
  unfolding import_state_path progress_text
  persist_import_progress f root [] = f
  persist_import_progress f root (header ∷ headers) =
      let created = fs.create_directories f root in
      let output =
        fs.write_file created.1 (import_state_path root) (progress_text (last_of header headers)) in
      if is_empty root then f else if not created.0 then created.1 else output.1

  module _ {S : Type 0} (node : NodeCalls S) (o : Outside) (fuel : ℕ) (now : ℕ)
      (local : HostAddress) where
    -- What a call leaves: the adapter, the node, the files, and the result that the caller gets, if
    -- there is one.
    abbrev pub Imported : Type 0
    Imported = Status × HeaderSyncAdapter × S × F × Option SignetHeadersResult

    -- From the status of SubmitHeaders on.
    unfoldable pub after_submit :
        F → Bytes → SignetHeadersResult → Status × HeaderSyncAdapter × S → Imported
    unfolding persist_import_progress
    after_submit f root r (status, adapter, s) =
        if status_ok status
        then (status, adapter, s, persist_import_progress f root r.headers, some r)
        else (status, adapter, s, f, none)

    -- From the answer of FetchHeaders on.
    unfoldable pub after_fetch :
        HeaderSyncAdapter → S → F → Bytes → Status × SignetHeadersResult → Imported
    unfolding text submit_headers after_submit
    after_fetch adapter s f root (status, r) =
        if not (status_ok status)
        then (status, adapter, s, f, none)
        else if is_empty r.headers
        then (failure rejected (text "live signet fetch returned no headers"), adapter, s, f, none)
        else after_submit f root r (submit_headers node o adapter s r.headers)

    unfoldable pub import_live_signet_headers :
        HeaderSyncAdapter
        → S
        → F
        → NodeOptions
        → ChainConfig
        → SignetLiveOptions
        → Option (List Endpoint)
        → Outcome Imported
    unfolding text resolve_import_options fetch_headers after_fetch
    import_live_signet_headers adapter s f node_options chain options endpoints =
        let called = resolve_import_options f node_options chain options >>= λ resolved.
        fetch_headers o fuel now local resolved endpoints no_headers >>= λ result.
        ok (after_fetch adapter s f resolved.state_root result) in
        if not adapter.bound
        then ok
            (failure rejected (text "adapter must be bound to a node first"), adapter, s, f, none)
        else called
