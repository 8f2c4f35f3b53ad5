-- ===== src/Bitcoin/Sync.antt =====
-- ParseHeadersPayload in src/Blocxxi/Bitcoin/adapter.cpp.
use blocxxi.Base.{
  ℕ, zero, suc, ◌+◌, ◌%◌, ◌^◌, ◌≡◌, refl, ap, [], ◌∷◌, List, Bytes, text, Bool, true, false, Option,
  none, some, if◌then◌else◌, not, ltb, ◌==◌, length,
}
use blocxxi.Core.Status.{Status, StatusCode, success, failure, status_ok}
use blocxxi.Bitcoin.Wire.{Outside, wire_hash_to_hex, double_sha256, read_compact_size}
use blocxxi.Bitcoin.Headers.{Header}
use blocxxi.Bitcoin.Block.{read_number, range}

-- A header from its 80 bytes.
unfoldable pub make_header : Outside → ℕ → Bytes → Header
unfolding wire_hash_to_hex double_sha256 read_number range
make_header o height bytes = record {
  height = height;
  hash_hex = wire_hash_to_hex (double_sha256 o bytes);
  previous_hash_hex = wire_hash_to_hex (range bytes 4 36);
  merkle_root_hex = wire_hash_to_hex (range bytes 36 68);
  version = read_number bytes 0 4;
  timestamp = read_number bytes 68 4;
  bits = read_number bytes 72 4;
  nonce = read_number bytes 76 4;
}

-- The offset behind the transaction count, which is 0.
unfoldable pub no_transactions : Option (ℕ × ℕ) → Option ℕ
no_transactions none = none
no_transactions (some (count, offset)) = if not (count == 0) then none else some offset

unfoldable pub cons_header : Header → Status × List Header → Status × List Header
cons_header header (status, headers) = (status, header ∷ headers)

-- A round from the transaction count on, where `rest` is the rest of the loop.
unfoldable pub next_header : Header → (ℕ → Status × List Header) → Option ℕ → Status × List Header
unfolding cons_header text
next_header header rest none =
    (failure StatusCode.rejected (text "headers payload contains invalid txn count"), [])
next_header header rest (some next) = cons_header header (rest next)

-- The loop over the headers, with what it pushed into `headers`; `header_hashes` are their hashes.
unfoldable pub parse_headers : Outside → Bytes → ℕ → ℕ → ℕ → Status × List Header
unfolding no_transactions next_header make_header range read_compact_size text
parse_headers o payload height zero offset = (success [], [])
parse_headers o payload height (suc count) offset =
    let rest =
      next_header (make_header o height (range payload offset (offset + 80)))
        (λ next. parse_headers o payload ((height + 1) % 2 ^ 32) count next)
        (no_transactions (read_compact_size payload (offset + 80))) in
    if ltb (length payload) (offset + 80)
    then (failure StatusCode.rejected (text "headers payload is truncated"), [])
    else rest

-- The count of the headers, which is not 0.
unfoldable pub with_count : Outside → Bytes → ℕ → Option (ℕ × ℕ) → Status × List Header
unfolding parse_headers text
with_count o payload locator_height none =
    (failure StatusCode.rejected (text "headers response is empty"), [])
with_count o payload locator_height (some (zero, offset)) =
    (failure StatusCode.rejected (text "headers response is empty"), [])
with_count o payload locator_height (some (suc count, offset)) =
    parse_headers o payload ((locator_height + 1) % 2 ^ 32) (suc count) offset

unfoldable pub parse_headers_payload : Outside → Bytes → ℕ → Status × List Header
unfolding with_count read_compact_size
parse_headers_payload o payload locator_height =
    with_count o payload locator_height (read_compact_size payload 0)

-- Heights from `height` on, each one more than the one before, modulo 2^32.
abbrev pub AreNumbered : ℕ → List Header → Type 0
AreNumbered height [] = Unit
AreNumbered height (header ∷ headers) =
    (header.height ≡ height) × AreNumbered ((height + 1) % 2 ^ 32) headers

-- The headers that were parsed are numbered, and all of them are there if the status is a success.
record IsParsed (height count : ℕ) (result : Status × List Header) : Type 0 where
  numbered : AreNumbered height result.1
  complete : status_ok result.0 ≡ true → length result.1 ≡ count

next_header-IsParsed :
    (height count : ℕ) (header : Header) (rest : ℕ → Status × List Header) (found : Option ℕ)
    → header.height ≡ height
    → ((next : ℕ) → IsParsed ((height + 1) % 2 ^ 32) count (rest next))
    → IsParsed height (suc count) (next_header header rest found)
unfolding next_header cons_header
next_header-IsParsed height count header rest none h r = record {
  numbered = tt;
  complete = λ fine. absurd (cc fine);
}
next_header-IsParsed height count header rest (some next) h r = record {
  numbered = (h, (r next).numbered);
  complete = λ fine. ap suc ((r next).complete fine);
}

if-IsParsed :
    (height count : ℕ) (b : Bool) (x y : Status × List Header)
    → IsParsed height count x
    → IsParsed height count y
    → IsParsed height count (if b then x else y)
if-IsParsed height count true x y h k = h
if-IsParsed height count false x y h k = k

parse_headers-IsParsed :
    (o : Outside) (payload : Bytes) (height count offset : ℕ)
    → IsParsed height count (parse_headers o payload height count offset)
unfolding parse_headers make_header
parse_headers-IsParsed o payload height zero offset = record {
  numbered = tt;
  complete = λ fine. refl;
}
parse_headers-IsParsed o payload height (suc count) offset =
    if-IsParsed height (suc count) (ltb (length payload) (offset + 80)) _ _
      (record { numbered = tt; complete = λ fine. absurd (cc fine) })
      (next_header-IsParsed height count (make_header o height (range payload offset (offset + 80)))
        (λ next. parse_headers o payload ((height + 1) % 2 ^ 32) count next)
        (no_transactions (read_compact_size payload (offset + 80))) refl
        (λ next. parse_headers-IsParsed o payload ((height + 1) % 2 ^ 32) count next))

-- A headers payload that is accepted begins with the number of its headers, which is not 0; that
-- many headers are returned, at the heights after the locator's, modulo 2^32.
pub parse_headers_payload_outcome :
    (o : Outside) (payload : Bytes) (locator_height : ℕ)
    → status_ok (parse_headers_payload o payload locator_height).0 ≡ true
    → (count : ℕ) × (offset : ℕ) × (read_compact_size payload 0 ≡ some (suc count, offset))
      × (length (parse_headers_payload o payload locator_height).1 ≡ suc count)
      × AreNumbered
          ((locator_height + 1) % 2 ^ 32)
          (parse_headers_payload o payload locator_height).1
unfolding parse_headers_payload
parse_headers_payload_outcome o payload locator_height = counted (read_compact_size payload 0)
  where
    counted :
        (found : Option (ℕ × ℕ))
        → status_ok (with_count o payload locator_height found).0 ≡ true
        → (count : ℕ) × (offset : ℕ) × (found ≡ some (suc count, offset))
          × (length (with_count o payload locator_height found).1 ≡ suc count)
          × AreNumbered
              ((locator_height + 1) % 2 ^ 32)
              (with_count o payload locator_height found).1
    counted none h = unfold with_count in absurd (cc h)
    counted (some (zero, offset)) h = unfold with_count in absurd (cc h)
    counted (some (suc count, offset)) h =
        unfold with_count in
        let parsed =
          parse_headers-IsParsed o payload ((locator_height + 1) % 2 ^ 32) (suc count) offset in
        (count, offset, refl, parsed.complete h, parsed.numbered)
