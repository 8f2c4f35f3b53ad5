-- ===== src/Codec/Bencode/Decode/Steps.antt =====
-- One step of the decoder at a known token, with the loops behind it shut.
use blocxxi.Base.{
  ℕ, suc, ◌+◌, ◌<◌, ◌≡◌, refl, ap, ◌∷◌, ◌++◌, Bytes, All, some, length, arith, ok, subst, false,
  ◌==◌, get_elem?,
}
use blocxxi.Base.Decimal.{IsDigit}
use blocxxi.Base.Decimal.RoundTrip.{to_string-IsDigit, to_string_some}
use blocxxi.Codec.Bencode.{
  Value, Items, Entries, integer, string, list, dictionary, no_items, item, no_entries,
  append_encoded_string, append_encoded, emplace,
}
use blocxxi.Codec.Bencode.Decode.{
  decode_integer, decode_string, decode_value, decode_items, decode_entries,
}

pub string_token :
    (s : Bytes) → (c : ℕ) × (t : Bytes) × (append_encoded_string s ≡ c ∷ t) × IsDigit c
unfolding append_encoded_string
string_token s =
    let (c, t, e) = to_string_some (length s) in
    (
      c,
      t ++ (b':' ∷ s),
      ap (λ p. p ++ (b':' ∷ s)) e,
      (subst (All IsDigit) e (to_string-IsDigit (length s))).0,
    )

-- An encoded value is not empty, and does not begin with the mark of an end.
pub value_token :
    (v : Value) → (c : ℕ) × (t : Bytes) × (append_encoded v ≡ c ∷ t) × ((c == b'e') ≡ false)
unfolding append_encoded
value_token (integer i) = (b'i', _, refl, refl)
value_token (string s) = let (c, t, e, digit) = string_token s in (c, t, e, ground arith)
value_token (list xs) = (b'l', _, refl, refl)
value_token (dictionary es) = (b'd', _, refl, refl)

pub length-append_encoded_pos : (v : Value) → 0 < length (append_encoded v)
length-append_encoded_pos v = let (c, t, e, _) = value_token v in omega (arith, ap length e)

module _ (f : ℕ) (encoded : Bytes) (offset : ℕ) where
  pub decode_value_integer :
      get_elem? encoded offset ≡ some b'i'
      → decode_value (suc f) encoded offset ≡ decode_integer encoded (offset + 1)
  unfolding decode_value
  decode_value_integer h = ground (arith, h)

  pub decode_value_string :
      (c : ℕ)
      → get_elem? encoded offset ≡ some c
      → IsDigit c
      → decode_value (suc f) encoded offset ≡ decode_string encoded offset
  unfolding decode_value
  decode_value_string c h digit = ground (arith, h)

  pub decode_value_list :
      (xs : Items) (next : ℕ)
      → get_elem? encoded offset ≡ some b'l'
      → decode_items f encoded (offset + 1) ≡ ok (xs, next)
      → decode_value (suc f) encoded offset ≡ ok (list xs, next)
  unfolding decode_value
  decode_value_list xs next h e = ground (arith, h, e)

  pub decode_value_dictionary :
      (es : Entries) (next : ℕ)
      → get_elem? encoded offset ≡ some b'd'
      → decode_entries f no_entries encoded (offset + 1) ≡ ok (es, next)
      → decode_value (suc f) encoded offset ≡ ok (dictionary es, next)
  unfolding decode_value
  decode_value_dictionary es next h e = ground (arith, h, e)

  pub decode_items_end :
      get_elem? encoded offset ≡ some b'e'
      → decode_items (suc f) encoded offset ≡ ok (no_items, offset + 1)
  unfolding decode_value
  decode_items_end h = ground (arith, h)

  pub decode_items_more :
      (c : ℕ) (v : Value) (xs : Items) (next after : ℕ)
      → get_elem? encoded offset ≡ some c
      → (c == b'e') ≡ false
      → decode_value f encoded offset ≡ ok (v, next)
      → decode_items f encoded next ≡ ok (xs, after)
      → decode_items (suc f) encoded offset ≡ ok (item v xs, after)
  unfolding decode_value
  decode_items_more c v xs next after h other e g = ground (arith, h, other, e, g)

  pub decode_entries_end :
      (found : Entries)
      → get_elem? encoded offset ≡ some b'e'
      → decode_entries (suc f) found encoded offset ≡ ok (found, offset + 1)
  unfolding decode_value
  decode_entries_end found h = ground (arith, h)

  pub decode_entries_more :
      (found : Entries) (c : ℕ) (k : Bytes) (v : Value) (next after : ℕ)
      → get_elem? encoded offset ≡ some c
      → (c == b'e') ≡ false
      → decode_value f encoded offset ≡ ok (string k, next)
      → decode_value f encoded next ≡ ok (v, after)
      → decode_entries (suc f) found encoded offset
        ≡ decode_entries f (emplace k v found) encoded after
  unfolding decode_value
  decode_entries_more found c k v next after h other e g = ground (arith, h, other, e, g)
