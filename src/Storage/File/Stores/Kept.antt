-- ===== src/Storage/File/Stores/Kept.antt =====
-- What Save writes is what Load reads.
use blocxxi.Base.{
  ◌≡◌, ◌↔◌, refl, ap, ◌∙◌, Bytes, true, some, ok, ◌>>=◌, Bool-cases, inl, inr, arith,
}
use blocxxi.Core.Status.{status_ok}
use blocxxi.Core.Primitives.{ChainSnapshot}
use blocxxi.Storage.File.Snapshots.{IsStorableSnapshot, snapshot_text, read_snapshot-snapshot_text}
use blocxxi.Storage.File.Stores.{
  FileSystem, Written, not_opened, not_good, good, written_status, snapshot_path, save, load,
  load_found,
}

-- Only a good write is a success.
status_good :
    (unopened unwritten : Bytes) (w : Written)
    → status_ok (written_status unopened unwritten w) ≡ true
    → w ≡ good
unfolding written_status
status_good unopened unwritten not_opened h = cc
status_good unopened unwritten not_good h = cc
status_good unopened unwritten good h = refl

module _ {F : Type 0} (fs : FileSystem F) (root : Bytes) (f : F) (s : ChainSnapshot) where
  -- A text is a good copy of the snapshot at a path, if Load, wherever that file has that text, gives
  -- the snapshot back.
  abbrev pub IsCopy : Bytes → Bytes → Type 0
  IsCopy path copy = (g : F) → fs.read_file g path ≡ some copy → load fs root g ≡ ok (some s)

  -- Save, of a snapshot whose head has 32 bytes and whose numbers have 64 bits, succeeds exactly if it
  -- could create the root and the stream was good after it had put out a text; what it leaves, if it
  -- could create the root, is what the file system makes of writing that text; and Load, wherever the
  -- file has that text, gives the snapshot back.
  pub load-save :
      IsStorableSnapshot s
      → (path : Bytes) × (copy : Bytes) × IsCopy path copy
        × ((status_ok (save fs root f s).0 ≡ true) ↔ (
            ((fs.create_directories f root).0 ≡ true)
            × ((fs.write_file (fs.create_directories f root).1 path copy).0 ≡ good)))
        × ((fs.create_directories f root).0 ≡ true
            → (save fs root f s).1 ≡ (fs.write_file (fs.create_directories f root).1 path copy).1)
  unfolding save
  load-save h = (
    snapshot_path fs root,
    snapshot_text s,
    (λ g e.
        unfold load load_found in
        ap (load_found fs root) e
        ∙ ap (λ m. m >>= λ t. ok (some t)) (read_snapshot-snapshot_text s h)),
    (
      (λ fine. elim (Bool-cases (fs.create_directories f root).0) [
        | inr e ↦ absurd (ground (arith, rw e at fine))
        | inl e ↦ (e, status_good _ _ _ (rw e at fine))
      ]),
      (λ h. simp (h.0, h.1, written_status) refl),
    ),
    (λ e. simp e refl),
  )
