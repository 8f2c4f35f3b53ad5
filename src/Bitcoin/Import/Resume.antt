-- ===== src/Bitcoin/Import/Resume.antt =====
-- An import goes on where the last one ended.
use blocxxi.Base.{
  ℕ, ◌%◌, ◌^◌, ◌<◌, ◌≡◌, ◌≢◌, refl, sym, ap, ◌∙◌, [], ◌∷◌, ◌++◌, List, Bytes, text, to_string, true,
  false, some, All-append, append_assoc, bytes_eq, is_empty, ok, ◌>>=◌, arith,
}
use blocxxi.Base.Scan.{lines}
use blocxxi.Base.Scan.RoundTrip.{lines-append, stoull-to_string}
use blocxxi.Core.Primitives.{ChainConfig}
use blocxxi.Storage.File.Blocks.RoundTrip.{IsLine, plain-IsLine, to_string-IsPlain}
use blocxxi.Storage.File.Stores.{FileSystem}
use blocxxi.Node.Lifecycle.{NodeOptions}
use blocxxi.Bitcoin.Headers.{Header, last_of}
use blocxxi.Bitcoin.Fetch.{SignetLiveOptions}
use blocxxi.Bitcoin.Import.{
  import_state, progress_text, import_state_path, state_found, load_import_state, set_locator,
  resolve_import_options, persist_import_progress,
}

lines-put_line :
    (prefix : Bytes) (value rest : Bytes)
    → IsLine prefix
    → IsLine value
    → lines (prefix ++ (value ++ b'\n' ∷ rest)) ≡ (prefix ++ value) ∷ lines rest
lines-put_line prefix value rest h k =
    ap lines (sym (append_assoc prefix value (b'\n' ∷ rest)))
    ∙ lines-append (prefix ++ value) rest (All-append (λ c. c ≢ b'\n') prefix value h k)

import_state_read :
    (height : ℕ) (hash : Bytes) (rest : List Bytes)
    → height < 2 ^ 32
    → import_state ((text "height=" ++ to_string height) ∷ (text "hash=" ++ hash) ∷ rest)
      ≡ ok (some (height, hash))
unfolding import_state text bytes_eq
import_state_read height hash rest small =
    ap (λ m. m >>= λ n. ok (some (n % 2 ^ 32, hash)))
      (stoull-to_string height (omega (arith, small)))
    ∙ ap (λ n. ok (some (n, hash))) (omega (arith, small))

-- The state that is read is the one that was written.
state_found-progress_text :
    {F : Type 0} (fs : FileSystem F) (header : Header)
    → header.height < 2 ^ 32
    → IsLine header.hash_hex
    → state_found fs (some (progress_text header)) ≡ ok (some (header.height, header.hash_hex))
unfolding state_found progress_text
state_found-progress_text fs header small clean =
    ap import_state (
      lines-put_line (text "height=") (to_string header.height) _ (unfold text in omega arith)
        (plain-IsLine _ (to_string-IsPlain header.height))
      ∙ ap (λ ls. (text "height=" ++ to_string header.height) ∷ ls)
          (lines-put_line (text "hash=") header.hash_hex [] (unfold text in omega arith) clean))
    ∙ import_state_read header.height header.hash_hex (lines []) small

module _ {F : Type 0} (fs : FileSystem F) (f : F) (options : SignetLiveOptions) where
  load_import_state-read :
      (g : F) (header : Header)
      → fs.exists g (import_state_path fs options.state_root) ≡ true
      → fs.read_file g (import_state_path fs options.state_root) ≡ some (progress_text header)
      → header.height < 2 ^ 32
      → IsLine header.hash_hex
      → load_import_state fs g options.state_root ≡ ok (some (header.height, header.hash_hex))
  unfolding load_import_state
  load_import_state-read g header there read small clean =
      rw there (ap (state_found fs) read ∙ state_found-progress_text fs header small clean)

  resolve_import_options_rooted :
      (g : F) (node_options : NodeOptions) (chain : ChainConfig)
      → is_empty options.state_root ≡ false
      → resolve_import_options fs g node_options chain options
        ≡ (load_import_state fs g options.state_root >>= λ state. ok (set_locator options state))
  unfolding resolve_import_options
  resolve_import_options_rooted g node_options chain rooted = simp rooted

  -- The text in the file makes the header the locator of a later import, wherever the file has it.
  abbrev pub IsResumed : Header → Bytes → Bytes → Type 0
  IsResumed last path saved =
      (g : F) (node_options : NodeOptions) (chain : ChainConfig)
      → fs.exists g path ≡ true
      → fs.read_file g path ≡ some saved
      → resolve_import_options fs g node_options chain options
        ≡ ok (record options { locator_height = last.height; locator_hash_hex = last.hash_hex })

  -- PersistImportProgress of some headers, at least one, the last of which has a height of 32 bits and
  -- a hash without a newline, with a root that it can create, leaves what the file system makes of
  -- writing a text; and ResolveImportOptions, wherever the file is and has that text, makes that last
  -- header the locator.
  pub resolve_import_options-persist :
      (headers : List Header) (last : Header)
      → is_empty options.state_root ≡ false
      → (fs.create_directories f options.state_root).0 ≡ true
      → last.height < 2 ^ 32
      → IsLine last.hash_hex
      → (path : Bytes) × (saved : Bytes) × IsResumed last path saved
        × (persist_import_progress fs f options.state_root (headers ++ last ∷ [])
            ≡ (fs.write_file (fs.create_directories f options.state_root).1 path saved).1)
  unfolding persist_import_progress
  resolve_import_options-persist headers last rooted created small clean = (
    import_state_path fs options.state_root,
    progress_text last,
    (λ g node_options chain there read.
        resolve_import_options_rooted g node_options chain rooted
        ∙ ap (λ m. m >>= λ state. ok (set_locator options state))
            (load_import_state-read g last there read small clean)
        ∙ located),
    persisted headers,
  )
    where
      located :
          (ok (some (last.height, last.hash_hex)) >>= λ state. ok (set_locator options state))
          ≡ ok (record options { locator_height = last.height; locator_hash_hex = last.hash_hex })
      located = unfold set_locator in refl

      after : (header : Header) (rest : List Header) → last_of header (rest ++ last ∷ []) ≡ last
      after header [] = refl
      after header (next ∷ rest) = after next rest

      persisted :
          (before : List Header)
          → persist_import_progress fs f options.state_root (before ++ last ∷ [])
            ≡ (fs.write_file
                (fs.create_directories f options.state_root).1
                (import_state_path fs options.state_root)
                (progress_text last)).1
      persisted [] = simp (rooted, created)
      persisted (header ∷ before) = simp (rooted, created, after header before)
