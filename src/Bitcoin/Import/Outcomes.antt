-- ===== src/Bitcoin/Import/Outcomes.antt =====
-- ImportLiveSignetHeaders returns, and what a success means.
use blocxxi.Base.{
  ℕ, ◌≡◌, refl, [], ◌∷◌, List, Bool, true, false, not, none, some, is_empty, All, to_string, length,
  ◌++◌, ◌<◌, Outcome, ok, Returns, Returns_bind, Bool-cases, inl, inr, ◌⊎◌, if◌then◌else◌, text,
  arith,
}
use blocxxi.Core.Status.{Status, status_ok}
use blocxxi.Core.Primitives.{ChainConfig}
use blocxxi.Storage.File.Stores.{FileSystem}
use blocxxi.Node.Lifecycle.{NodeOptions}
use blocxxi.Bitcoin.Wire.{Outside}
use blocxxi.Bitcoin.Peer.{HostAddress}
use blocxxi.Bitcoin.Headers.{last_of, Header, HeaderSyncAdapter, NodeCalls, submit_headers}
use blocxxi.Bitcoin.Headers.Chained.{
  HasFailed, HasImported, IsLast, last_of-IsLast, submit_headers_outcome,
}
use blocxxi.Bitcoin.Fetch.{
  SignetLiveOptions, Endpoint, SignetHeadersResult, no_headers, fetch_headers,
}
use blocxxi.Bitcoin.Fetch.Outcomes.{IsBounded, IsFetched, FetchedIfFine, fetch_headers_outcome}
use blocxxi.Bitcoin.Import.{
  Imported, resolve_import_options, persist_import_progress, import_state_path, progress_text,
  after_submit, after_fetch, import_live_signet_headers,
}

otherwise-Returns :
    {A : Type 0} (P : A → Type 0) (b : Bool) (x y : Outcome A)
    → b ≡ true
    → Returns P y
    → Returns P (if not b then x else y)
otherwise-Returns P b x y e h = rw e h

module _ {F : Type 0} (fs : FileSystem F) {S : Type 0} (node : NodeCalls S) (o : Outside) (fuel : ℕ)
    (now : ℕ) (local : HostAddress) (adapter : HeaderSyncAdapter) (s : S) (f : F)
    (resolved : SignetLiveOptions) where
  -- What a call leaves that succeeds.
  pub record HasLanded (landed : Imported fs node o fuel now local) (r : SignetHeadersResult)
      : Type 0 where
    pub fetched : IsFetched resolved r
    pub imported : HasImported node o adapter s r.headers (landed.0, landed.1, landed.2)
    pub saved :
        (last : Header) × IsLast last r.headers
        × (is_empty resolved.state_root ≡ false
            → (fs.create_directories f resolved.state_root).0 ≡ true
            → landed.3
              ≡ (fs.write_file
                  (fs.create_directories f resolved.state_root).1
                  (fs.join resolved.state_root (text "bitcoin-signet-import.txt"))
                  (text "height="
                    ++ (to_string last.height
                        ++ b'\n' ∷ (text "hash=" ++ (last.hash_hex ++ b'\n' ∷ []))))).1)
    pub told : landed.4 ≡ some r

  -- What a call leaves that fails: the adapter and the files as they were, and no result.
  pub record HasMissed (landed : Imported fs node o fuel now local) : Type 0 where
    pub failed : status_ok landed.0 ≡ false
    pub same_adapter : landed.1 ≡ adapter
    pub same_files : landed.3 ≡ f
    pub untold : landed.4 ≡ none

  abbrev pub Settled : Imported fs node o fuel now local → Type 0
  Settled landed = HasMissed landed ⊎ ((r : SignetHeadersResult) × HasLanded landed r)

  persist_import_progress_written :
      (headers : List Header)
      → 0 < length headers
      → (last : Header) × IsLast last headers
        × (is_empty resolved.state_root ≡ false
            → (fs.create_directories f resolved.state_root).0 ≡ true
            → persist_import_progress fs f resolved.state_root headers
              ≡ (fs.write_file
                  (fs.create_directories f resolved.state_root).1
                  (fs.join resolved.state_root (text "bitcoin-signet-import.txt"))
                  (text "height="
                    ++ (to_string last.height
                        ++ b'\n' ∷ (text "hash=" ++ (last.hash_hex ++ b'\n' ∷ []))))).1)
  unfolding persist_import_progress import_state_path progress_text
  persist_import_progress_written [] some_header = absurd (omega (arith, some_header))
  persist_import_progress_written (header ∷ headers) some_header = (
    last_of header headers,
    last_of-IsLast header headers,
    (λ rooted created. simp (rooted, created)),
  )

  after_submit-Settled :
      (r : SignetHeadersResult) (submitted : Status × HeaderSyncAdapter × S)
      → IsFetched resolved r
      → HasFailed node o adapter s submitted ⊎ HasImported node o adapter s r.headers submitted
      → Settled (after_submit fs node o fuel now local f resolved.state_root r submitted)
  unfolding after_submit
  after_submit-Settled r (status, a, t) fetched (inl (bad, same)) =
      rw bad (inl (record { failed = bad; same_adapter = same; same_files = refl; untold = refl }))
  after_submit-Settled r (status, a, t) fetched (inr h) = rw h.0 (
      inr (
        r,
        record {
          fetched = fetched;
          imported = h;
          saved = persist_import_progress_written r.headers fetched.some_header;
          told = refl;
        },
      ))

  after_fetch-Settled :
      (result : Status × SignetHeadersResult)
      → FetchedIfFine resolved result
      → Settled (after_fetch fs node o fuel now local adapter s f resolved.state_root result)
  unfolding after_fetch
  after_fetch-Settled (status, r) h = elim (Bool-cases (status_ok status)) [
    | inr e ↦
        rw e (inl (record { failed = e; same_adapter = refl; same_files = refl; untold = refl }))
    | inl e ↦ elim (Bool-cases (is_empty r.headers)) [
      | inl g ↦ rw e (
          rw g
            (inl (record { failed = refl; same_adapter = refl; same_files = refl; untold = refl })))
      | inr g ↦ rw e (
          rw g (
            after_submit-Settled r (submit_headers node o adapter s r.headers) (h e)
              (submit_headers_outcome node o adapter s r.headers)))
    ]
  ]

  -- ImportLiveSignetHeaders of an adapter that is bound, where the saved state can be read and the
  -- fuel is more than the bytes that each endpoint sends, returns. It fails, and the adapter and the
  -- files are as before, or it succeeds: then the headers that were fetched, at the heights after the
  -- resolved locator's, follow each other, the node took each of them in turn, the height and the hash
  -- of the last are written to the file of the import, if there is a root that can be created, and the
  -- caller gets what was fetched.
  pub import_live_signet_headers_outcome :
      (node_options : NodeOptions) (chain : ChainConfig) (options : SignetLiveOptions)
      (endpoints : List Endpoint)
      → adapter.bound ≡ true
      → resolve_import_options fs f node_options chain options ≡ ok resolved
      → All (IsBounded fuel) endpoints
      → Returns Settled (
          import_live_signet_headers fs node o fuel now local adapter s f node_options chain options
            (some endpoints))
  unfolding import_live_signet_headers
  import_live_signet_headers_outcome node_options chain options endpoints bound found bounded =
      otherwise-Returns Settled adapter.bound _ _ bound (
        rw found (
          Returns_bind Settled (FetchedIfFine resolved)
            (fetch_headers o fuel now local resolved (some endpoints) no_headers) _
            (fetch_headers_outcome o fuel now local resolved endpoints no_headers bounded)
            (λ result h. after_fetch-Settled result h)))
