-- ===== src/Bitcoin/Headers/Chained.antt =====
-- What SubmitHeaders does.
use blocxxi.Base.{
  ◌+◌, ◌%◌, ◌^◌, ◌≡◌, refl, sym, subst, ◌++◌, [], ◌∷◌, List, Bool, true, false, Option, none, some,
  not, Bool-cases, inl, inr, ◌⊎◌, arith, bytes_eq_iff, is_empty, ltb, if◌then◌else◌, ◌&&◌, text,
  Bytes, to_string, ap,
}
use mathlib.Core.List.{map}
use blocxxi.Core.Primitives.{Transaction, from_text}
use blocxxi.Core.Status.{Status, StatusCode, success, failure, status_ok}
use blocxxi.Bitcoin.Wire.{Outside}
use blocxxi.Bitcoin.Headers.{
  Header, HeaderSyncAdapter, NodeCalls, validate_link, validate_header, validate_all, heights,
  last_of, import_header, import_all, header_transaction, header_payload, network_name,
  record_import, submit_headers,
}

-- The header is the next one after the previous one, if there is one.
abbrev pub IsNext : Header → Option Header → Type 0
IsNext header none = Unit
IsNext header (some previous) =
    (header.height ≡ (previous.height + 1) % 2 ^ 32)
    × (header.previous_hash_hex ≡ previous.hash_hex)

-- Each header is next to the one before it, and has a hash.
abbrev pub IsChained : Option Header → List Header → Type 0
IsChained previous [] = Unit
IsChained previous (header ∷ headers) =
    IsNext header previous × (is_empty header.hash_hex ≡ false) × IsChained (some header) headers

validate_link-IsNext :
    (header : Header) (previous : Option Header)
    → status_ok (validate_link header previous) ≡ true
    → IsNext header previous
unfolding validate_link
validate_link-IsNext header none h = tt
validate_link-IsNext header (some previous) h =
    ground (arith, bytes_eq_iff header.previous_hash_hex previous.hash_hex)

-- A chain of tests that succeeds passed the first of them.
guard_ok :
    (bad : Bool) (s rest : Status)
    → status_ok s ≡ false
    → status_ok (if bad then s else rest) ≡ true
    → (bad ≡ false) × (status_ok rest ≡ true)
guard_ok true s rest fails h = absurd (cc)
guard_ok false s rest fails h = (refl, h)

chain_ok :
    (s rest : Status)
    → status_ok (if not (status_ok s) then s else rest) ≡ true
    → (status_ok s ≡ true) × (status_ok rest ≡ true)
chain_ok s rest h = elim (Bool-cases (status_ok s)) [
  | inl good ↦ (good, subst (λ b. status_ok (if not b then s else rest) ≡ true) good h)
  | inr bad ↦ absurd (cc (subst (λ b. status_ok (if not b then s else rest) ≡ true) bad h, bad))
]

validate_header-IsNext :
    (o : Outside) (header : Header) (previous : Option Header)
    → status_ok (validate_header o header previous) ≡ true
    → IsNext header previous × (is_empty header.hash_hex ≡ false)
unfolding validate_header
validate_header-IsNext o header previous h =
    let hashed = guard_ok (is_empty header.hash_hex) _ _ refl h in
    let linked =
      guard_ok (ltb 0 header.height && is_empty header.previous_hash_hex) _ _ refl hashed.1 in
    let link = chain_ok (validate_link header previous) _ linked.1 in
    (validate_link-IsNext header previous link.0, hashed.0)

validate_all-IsChained :
    (o : Outside) (previous : Option Header) (headers : List Header)
    → status_ok (validate_all o previous headers) ≡ true
    → IsChained previous headers
unfolding validate_all
validate_all-IsChained o previous [] h = tt
validate_all-IsChained o previous (header ∷ headers) h =
    let both =
      chain_ok (validate_header o header previous) (validate_all o (some header) headers) h in
    let next = validate_header-IsNext o header previous both.0 in
    (next.0, next.1, validate_all-IsChained o (some header) headers both.1)

-- The header is the last of the list.
abbrev pub IsLast : Header → List Header → Type 0
IsLast last headers = (before : List Header) × (headers ≡ before ++ last ∷ [])

pub last_of-IsLast :
    (header : Header) (headers : List Header) → IsLast (last_of header headers) (header ∷ headers)
last_of-IsLast header [] = ([], refl)
last_of-IsLast header (next ∷ headers) =
    let (before, e) = last_of-IsLast next headers in (header ∷ before, ap (λ hs. header ∷ hs) e)

module _ {S : Type 0} (node : NodeCalls S) (o : Outside) (adapter : HeaderSyncAdapter) (s : S) where
  -- The call failed, and the adapter is as before.
  abbrev pub HasFailed : Status × HeaderSyncAdapter × S → Type 0
  HasFailed result = (status_ok result.0 ≡ false) × (result.1 ≡ adapter)

  -- The transaction that tells the node of a header.
  abbrev pub Announces : Header → Transaction → Type 0
  Announces header transaction =
      (transaction.type ≡ text "bitcoin.header")
      × (transaction.payload
          ≡ text "height="
            ++ to_string header.height
            ++ text ";hash="
            ++ header.hash_hex
            ++ text ";previous="
            ++ header.previous_hash_hex
            ++ text ";version="
            ++ to_string header.version)

  -- The node took each of the headers in turn: it accepted a transaction that announces the header, and
  -- committed what was pending.
  abbrev pub Took : S → List Header → S → Type 0
  Took t [] u = u ≡ t
  Took t (header ∷ headers) u =
      (transaction : Transaction) × (source : Bytes) × Announces header transaction
      × (status_ok (node.submit_transaction t transaction).0 ≡ true)
      × (status_ok (node.commit_pending (node.submit_transaction t transaction).1 source).0 ≡ true)
      × Took (node.commit_pending (node.submit_transaction t transaction).1 source).1 headers u

  -- The call succeeded: the headers follow the last one and each other, the node took each of them
  -- in turn, and the adapter knows them.
  abbrev pub HasImported : List Header → Status × HeaderSyncAdapter × S → Type 0
  HasImported headers result =
      (status_ok result.0 ≡ true)
      × IsChained adapter.last_header headers
      × Took s headers result.2
      × (result.1.imported_heights
          ≡ adapter.imported_heights ++ map (λ (header : Header). header.height) headers)
      × ((last : Header) × IsLast last headers × (result.1.last_header ≡ some last))

  heights-map :
      (headers : List Header) → heights headers ≡ map (λ (header : Header). header.height) headers
  heights-map [] = refl
  heights-map (header ∷ headers) = ap (λ hs. header.height ∷ hs) (heights-map headers)

  -- Of two steps, the second of which is taken if the first succeeds.
  second_step :
      (x y : Status × S)
      → status_ok (if not (status_ok x.0) then x else y).0 ≡ true
      → (status_ok x.0 ≡ true) × ((if not (status_ok x.0) then x else y) ≡ y)
  second_step x y h = elim (Bool-cases (status_ok x.0)) [
    | inl e ↦ (e, rw e refl)
    | inr e ↦ absurd (cc (e, h))
  ]

  import_all-Took :
      (t : S) (headers : List Header)
      → status_ok (import_all node adapter.options t headers).0 ≡ true
      → Took t headers (import_all node adapter.options t headers).1
  unfolding import_all import_header header_transaction header_payload from_text
  import_all-Took t [] h = refl
  import_all-Took t (header ∷ headers) h =
      let transaction = header_transaction adapter.options header in
      let source = text "bitcoin:" ++ network_name adapter.options.network in
      let submitted = node.submit_transaction t transaction in
      let committed = node.commit_pending submitted.1 source in
      let imported = import_header node adapter.options t header in
      let rest = import_all node adapter.options imported.1 headers in
      let (imported_fine, is_rest) = second_step imported rest h in
      let (sent, is_committed) = second_step submitted committed imported_fine in
      (
        transaction,
        source,
        (refl, refl),
        sent,
        subst (λ (m : Status × S). status_ok m.0 ≡ true) is_committed imported_fine,
        subst
            (λ (m : Status × S).
              Took m.1 headers (import_all node adapter.options t (header ∷ headers)).1)
            is_committed
            (subst (λ (m : Status × S). Took imported.1 headers m.1) (sym is_rest)
              (import_all-Took imported.1 headers
                (subst (λ (m : Status × S). status_ok m.0 ≡ true) is_rest h))),
      )

  import_all-success :
      (t : S) (headers : List Header)
      → status_ok (import_all node adapter.options t headers).0 ≡ true
      → (import_all node adapter.options t headers).0 ≡ success []
  unfolding import_all
  import_all-success t [] h = refl
  import_all-success t (header ∷ headers) h =
      picked (import_all-success imported.1 headers) (status_ok imported.0) refl h
    where
      imported : Status × S
      imported = import_header node adapter.options t header

      rest : Status × S
      rest = import_all node adapter.options imported.1 headers

      picked :
          (status_ok rest.0 ≡ true → rest.0 ≡ success [])
          → (good : Bool) → status_ok imported.0 ≡ good
          → status_ok (if not good then imported else rest).0 ≡ true
          → (if not good then imported else rest).0 ≡ success []
      picked again true g k = again k
      picked again false g k = absurd (cc (g, k))

  record_import_outcome :
      (header : Header) (headers : List Header) (imported : Status × S)
      → (status_ok imported.0 ≡ true → imported.0 ≡ success [])
      → (status_ok imported.0 ≡ true → Took s (header ∷ headers) imported.1)
      → IsChained adapter.last_header (header ∷ headers)
      → HasFailed (record_import node adapter header headers imported)
        ⊎ HasImported (header ∷ headers) (record_import node adapter header headers imported)
  unfolding record_import
  record_import_outcome header headers (status, t) good took chained =
      elim (Bool-cases (status_ok status)) [
        | inl fine ↦ inr (
            rw fine (
              refl,
              chained,
              took fine,
              ap (λ hs. adapter.imported_heights ++ hs) (heights-map (header ∷ headers)),
              (last_of header headers, last_of-IsLast header headers, refl),
            ))
        | inr bad ↦ inl (rw bad (bad, refl))
      ]

  -- SubmitHeaders either fails, and the adapter is as before, or succeeds: then the headers, at
  -- least one of them, follow the last header that was imported and each other by height, modulo
  -- 2^32, and by hash, the node accepted for each of them in turn a transaction that announces it and
  -- committed it, without a failure, and the adapter records their heights and the last of them.
  pub submit_headers_outcome :
      (headers : List Header)
      → HasFailed (submit_headers node o adapter s headers)
        ⊎ HasImported headers (submit_headers node o adapter s headers)
  unfolding submit_headers
  submit_headers_outcome [] = elim (Bool-cases adapter.bound) [
    | inl yes_bound ↦ inl (rw yes_bound (refl, refl))
    | inr unbound ↦ inl (rw unbound (refl, refl))
  ]
  submit_headers_outcome (header ∷ headers) = decided adapter.bound (status_ok valid) refl
    where
      valid : Status
      valid = validate_all o adapter.last_header (header ∷ headers)

      imported : Status × S
      imported = import_all node adapter.options s (header ∷ headers)

      result : Bool → Bool → Status × HeaderSyncAdapter × S
      result bound good =
          if not bound
          then (
            failure StatusCode.rejected (text "adapter must be bound to a node first"),
            adapter,
            s,
          )
          else if not good
          then (valid, adapter, s)
          else record_import node adapter header headers imported

      decided :
          (bound good : Bool)
          → status_ok valid ≡ good
          → HasFailed (result bound good) ⊎ HasImported (header ∷ headers) (result bound good)
      decided false good g = inl (refl, refl)
      decided true false g = inl (g, refl)
      decided true true g =
          record_import_outcome header headers imported (import_all-success s (header ∷ headers))
            (import_all-Took s (header ∷ headers))
            (validate_all-IsChained o adapter.last_header (header ∷ headers) g)
