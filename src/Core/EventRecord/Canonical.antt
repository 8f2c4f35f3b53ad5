-- ===== src/Core/EventRecord/Canonical.antt =====
-- The canonical text of an event: what it does not depend on, and what it confuses.
use mathlib.Core.List.{Perm}
use blocxxi.Base.{
  ℕ, ◌≡◌, refl, sym, ◌∙◌, ap, Bytes, [], ◌∷◌, ◌++◌, List, Bool, true, false, bytes_lt, bytes_eq,
  bytes_eq_iff, IsOrder, bytes_lt-IsOrder, sort-Perm, sort, insert, IsByte, All, passes_below,
  passes_below-at, arith, append-nil, length, ◌<◌,
}
use blocxxi.Codec.Hex.{encode, encode_forward, make_hi, make_lo, alphabet, char_at}
use blocxxi.Codec.Hex.RoundTrip.{length-encode}
use blocxxi.Crypto.Hash.{to_hex}
use blocxxi.Core.Primitives.{make_id}
use blocxxi.Core.Primitives.Ids.{make_id-IsHash}
use blocxxi.Core.EventRecord.{
  EventAttribute, EventEnvelope, attribute_less, sorted_identifiers, sorted_attributes,
  canonical_text, content_id, key_seed, derive_deterministic_event_key, encode_hex, append_all,
  append_rest,
}

bytes_set : IsSet Bytes
bytes_set = hlevel

attribute_set : IsSet EventAttribute
attribute_set = hlevel

attribute_ext : (x y : EventAttribute) → x.key ≡ y.key → x.value ≡ y.value → x ≡ y
attribute_ext x y h k i = record { key = h i; value = k i }

attribute_less-IsOrder : IsOrder attribute_less
unfolding attribute_less
attribute_less-IsOrder =
    let o : IsOrder bytes_lt = bytes_lt-IsOrder in
    record {
      asym = λ x y. ground (
        arith,
        o.asym x.key y.key,
        o.asym x.value y.value,
        bytes_eq_iff x.key y.key,
        bytes_eq_iff y.key x.key,
      );
      total = λ x y. ground (
        arith,
        o.total x.key y.key,
        o.total x.value y.value,
        bytes_eq_iff x.key y.key,
        bytes_eq_iff y.key x.key,
        attribute_ext x y,
      );
      trans = λ x y z. ground (
        arith,
        o.trans x.key y.key z.key,
        o.trans x.value y.value z.value,
        o.asym x.key y.key,
        bytes_eq_iff x.key y.key,
        bytes_eq_iff y.key z.key,
        bytes_eq_iff x.key z.key,
      );
    }

sorted_identifiers-Perm :
    {xs ys : List Bytes} → Perm xs ys → sorted_identifiers xs ≡ sorted_identifiers ys
unfolding sorted_identifiers
sorted_identifiers-Perm p = sort-Perm bytes_lt bytes_lt-IsOrder bytes_set p

sorted_attributes-Perm :
    {xs ys : List EventAttribute} → Perm xs ys → sorted_attributes xs ≡ sorted_attributes ys
unfolding sorted_attributes
sorted_attributes-Perm p = sort-Perm attribute_less attribute_less-IsOrder attribute_set p

module _ (e : EventEnvelope) (ids : List Bytes) (attrs : List EventAttribute)
    (p : Perm e.identifiers ids) (q : Perm e.attributes attrs) where
  pub canonical_text-Perm :
      canonical_text (record e { identifiers = ids; attributes = attrs }) ≡ canonical_text e
  unfolding canonical_text
  canonical_text-Perm = rw (sorted_identifiers-Perm p) (rw (sorted_attributes-Perm q) refl)

  pub content_id-Perm :
      content_id (record e { identifiers = ids; attributes = attrs }) ≡ content_id e
  unfolding content_id
  content_id-Perm = ap make_id canonical_text-Perm

  -- The key of an event does not depend on the order in which its identifiers and its attributes
  -- are listed.
  pub derive_deterministic_event_key-Perm :
      derive_deterministic_event_key (record e { identifiers = ids; attributes = attrs })
      ≡ derive_deterministic_event_key e
  unfolding derive_deterministic_event_key key_seed
  derive_deterministic_event_key-Perm i =
      to_hex (make_id (key_seed e (sym (sorted_identifiers-Perm p) i) (content_id-Perm i)))

-- Two identifiers in their order, and the one that joins them by a comma.
pub sorted_identifiers_pair :
    (x y : Bytes)
    → bytes_lt y x ≡ false
    → append_all b',' (sorted_identifiers (x ∷ y ∷ []))
      ≡ append_all b',' (sorted_identifiers ((x ++ (b',' ∷ y)) ∷ []))
unfolding append_all append_rest sorted_identifiers sort insert
sorted_identifiers_pair x y h = rw h (rw (append-nil y) (rw (append-nil (x ++ (b',' ∷ y))) refl))

pub canonical_text_pair :
    (e : EventEnvelope) (x y : Bytes)
    → bytes_lt y x ≡ false
    → canonical_text (record e { identifiers = (x ++ (b',' ∷ y)) ∷ [] })
      ≡ canonical_text (record e { identifiers = x ∷ y ∷ [] })
unfolding canonical_text
canonical_text_pair e x y h = rw (sorted_identifiers_pair x y h) refl

-- Both digits of every byte are the codec's.
digit_tests : ℕ → Bool
digit_tests b = bytes_eq (encode_hex (b ∷ [])) (encode (b ∷ []) false true)

digit_table : passes_below digit_tests 256 ≡ true
unfolding passes_below digit_tests encode_hex encode encode_forward make_hi make_lo alphabet char_at
    bytes_eq
digit_table = refl

encode_hex_byte : (x : ℕ) → x < 256 → encode_hex (x ∷ []) ≡ encode (x ∷ []) false true
unfolding digit_tests
encode_hex_byte x h =
    (bytes_eq_iff (encode_hex (x ∷ [])) (encode (x ∷ []) false true)).0
      (passes_below-at digit_tests 256 x h digit_table)

encode_hex_cons : (x : ℕ) (b : Bytes) → encode_hex (x ∷ b) ≡ encode_hex (x ∷ []) ++ encode_hex b
unfolding encode_hex
encode_hex_cons x b = refl

encode_cons :
    (x : ℕ) (b : Bytes)
    → encode (x ∷ b) false true ≡ encode (x ∷ []) false true ++ encode b false true
unfolding encode encode_forward
encode_cons x b = refl

-- EncodeHex prints bytes as the hexadecimal codec does, from the front and in lower case.
pub encode_hex-eq : (b : Bytes) → All IsByte b → encode_hex b ≡ encode b false true
encode_hex-eq [] h = unfold encode_hex encode encode_forward in refl
encode_hex-eq (x ∷ b) h =
    encode_hex_cons x b
    ∙ (λ i. encode_hex_byte x h.0 i ++ encode_hex-eq b h.1 i)
    ∙ sym (encode_cons x b)

-- The deterministic key of an event has 64 digits.
pub length-derive_deterministic_event_key :
    (e : EventEnvelope) → length (derive_deterministic_event_key e) ≡ 64
unfolding derive_deterministic_event_key to_hex
length-derive_deterministic_event_key e =
    let id : Bytes = make_id (key_seed e (sorted_identifiers e.identifiers) (content_id e)) in
    omega (
      arith,
      length-encode id false true,
      (make_id-IsHash (key_seed e (sorted_identifiers e.identifiers) (content_id e))).size,
    )
