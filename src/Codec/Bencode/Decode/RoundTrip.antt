-- ===== src/Codec/Bencode/Decode/RoundTrip.antt =====
-- What the encoder printed, the decoder reads back.
use blocxxi.Base.{
  ℕ, zero, suc, ◌+◌, ◌*◌, ◌<◌, ◌≡◌, sym, ap, ◌∙◌, [], ◌∷◌, ◌++◌, Bytes, some, length, length-append,
  append_assoc, arith, to_string_ℤ, ok, subst, Outcome, false, ◌==◌, append-nil, get_elem?,
}
use blocxxi.Codec.Bencode.{
  Value, Items, Entries, integer, string, list, dictionary, no_items, item, no_entries, entry,
  append_encoded_string, append_encoded, append_items, append_entries, encode,
}
use blocxxi.Codec.Bencode.Order.{
  IsWellFormed, AreWellFormed, AreOrdered, Separated, append_all, emplace_last, Separated-Below,
  Separated-shift, append_all_shift, append_all_none,
}
use blocxxi.Codec.Bencode.Decode.{decode_value, decode_items, decode_entries, decode, size_mod}
use blocxxi.Codec.Bencode.Decode.Cursor.{At, At-get, At-suc, At-advance}
use blocxxi.Codec.Bencode.Decode.Scalars.{decode_integer-At, decode_string-At}
use blocxxi.Codec.Bencode.Decode.Steps.{
  string_token, value_token, length-append_encoded_pos, decode_value_integer, decode_value_string,
  decode_value_list, decode_value_dictionary, decode_items_end, decode_items_more,
  decode_entries_end, decode_entries_more,
}

module _ (encoded : Bytes) (small : length encoded < size_mod) where
  -- A token is there, and so is what stands behind it.
  At-token :
      (offset c : ℕ) (t xs ys : Bytes)
      → At encoded offset (xs ++ ys)
      → xs ≡ c ∷ t
      → get_elem? encoded offset ≡ some c
  At-token offset c t xs ys at_xs e =
      At-get encoded offset c (t ++ ys) (subst (λ s. At encoded offset (s ++ ys)) e at_xs)

  read_string :
      (f offset : ℕ) (s rest : Bytes)
      → 0 < f
      → At encoded offset (append_encoded_string s ++ rest)
      → decode_value f encoded offset ≡ ok (string s, offset + length (append_encoded_string s))
  read_string zero offset s rest fuel at_s = absurd (omega arith)
  read_string (suc f) offset s rest fuel at_s =
      let (c, t, e, digit) = string_token s in
      decode_value_string f encoded offset c
        (At-token offset c t (append_encoded_string s) rest at_s e) digit
      ∙ decode_string-At encoded offset s rest small at_s

  -- What stands between a mark and the 'e' of its end.
  At-body :
      (offset c : ℕ) (xs rest : Bytes)
      → At encoded offset ((c ∷ (xs ++ (b'e' ∷ []))) ++ rest)
      → At encoded (offset + 1) (xs ++ b'e' ∷ rest)
  At-body offset c xs rest at_c =
      subst (At encoded (offset + 1)) (append_assoc xs (b'e' ∷ []) rest)
        (At-suc encoded offset c ((xs ++ (b'e' ∷ [])) ++ rest) at_c)

  At-assoc :
      (offset : ℕ) (xs ys zs : Bytes)
      → At encoded offset ((xs ++ ys) ++ zs)
      → At encoded offset (xs ++ (ys ++ zs))
  At-assoc offset xs ys zs = subst (At encoded offset) (append_assoc xs ys zs)

  end_of :
      (offset c : ℕ) (xs : Bytes)
      → offset + 1 + length xs + 1 ≡ offset + length (c ∷ (xs ++ (b'e' ∷ [])))
  end_of offset c xs = omega (arith, length-append xs (b'e' ∷ []))

  ok_at :
      {A : Type 0} → (v : A) (m n : ℕ) → m ≡ n → ◌≡◌ {A = Outcome (A × ℕ)} (ok (v, m)) (ok (v, n))
  ok_at v m n e = ap (λ o. ok (v, o)) e

  mutual
    unfolding append_encoded

    read_value :
        (v : Value) (f offset : ℕ) (rest : Bytes)
        → IsWellFormed v
        → 2 * length (append_encoded v) < f
        → At encoded offset (append_encoded v ++ rest)
        → decode_value f encoded offset ≡ ok (v, offset + length (append_encoded v))
    read_value v zero offset rest wf fuel at_v = absurd (omega arith)
    read_value (integer i) (suc f) offset rest wf fuel at_v =
        decode_value_integer f encoded offset
          (At-get encoded offset b'i' ((to_string_ℤ i ++ (b'e' ∷ [])) ++ rest) at_v)
        ∙ decode_integer-At encoded (offset + 1) i rest wf
            (At-body offset b'i' (to_string_ℤ i) rest at_v)
        ∙ ok_at (integer i) _ _ (end_of offset b'i' (to_string_ℤ i))
    read_value (string s) (suc f) offset rest wf fuel at_v =
        read_string (suc f) offset s rest (omega arith) at_v
    read_value (list xs) (suc f) offset rest wf fuel at_v =
        decode_value_list f encoded offset xs _
          (At-get encoded offset b'l' ((append_items xs ++ (b'e' ∷ [])) ++ rest) at_v)
          (read_items xs f (offset + 1) rest wf
            (omega (arith, fuel, length-append (append_items xs) (b'e' ∷ [])))
            (At-body offset b'l' (append_items xs) rest at_v))
        ∙ ok_at (list xs) _ _ (end_of offset b'l' (append_items xs))
    read_value (dictionary es) (suc f) offset rest wf fuel at_v =
        decode_value_dictionary f encoded offset es _
          (At-get encoded offset b'd' ((append_entries es ++ (b'e' ∷ [])) ++ rest) at_v)
          (read_entries es no_entries f (offset + 1) rest wf tt
            (omega (arith, fuel, length-append (append_entries es) (b'e' ∷ [])))
            (At-body offset b'd' (append_entries es) rest at_v))
        ∙ ok_at (dictionary es) _ _ (end_of offset b'd' (append_entries es))

    read_items :
        (xs : Items) (f offset : ℕ) (rest : Bytes)
        → AreWellFormed xs
        → suc (2 * length (append_items xs)) < f
        → At encoded offset (append_items xs ++ b'e' ∷ rest)
        → decode_items f encoded offset ≡ ok (xs, offset + length (append_items xs) + 1)
    read_items xs zero offset rest wf fuel at_xs = absurd (omega arith)
    read_items no_items (suc f) offset rest wf fuel at_xs =
        decode_items_end f encoded offset (At-get encoded offset b'e' rest at_xs)
        ∙ ok_at no_items _ _ (omega arith)
    read_items (item v xs) (suc f) offset rest wf fuel at_xs =
        let (c, t, e, other) = value_token v in
        let at_v = At-assoc offset (append_encoded v) (append_items xs) (b'e' ∷ rest) at_xs in
        let both = length-append (append_encoded v) (append_items xs) in
        let first =
          read_value v f offset (append_items xs ++ b'e' ∷ rest) wf.0
            (omega (arith, fuel, both, length-append_encoded_pos v)) at_v in
        let others =
          read_items xs f (offset + length (append_encoded v)) rest wf.1
            (omega (arith, fuel, both, length-append_encoded_pos v))
            (At-advance encoded offset (append_encoded v) (append_items xs ++ b'e' ∷ rest) at_v) in
        decode_items_more f encoded offset c v xs _ _
          (At-token offset c t (append_encoded v) (append_items xs ++ b'e' ∷ rest) at_v e) other
          first others
        ∙ ok_at (item v xs) _ _ (omega (arith, both))

    read_entries :
        (es found : Entries) (f offset : ℕ) (rest : Bytes)
        → AreOrdered es
        → Separated found es
        → suc (2 * length (append_entries es)) < f
        → At encoded offset (append_entries es ++ b'e' ∷ rest)
        → decode_entries f found encoded offset
          ≡ ok (append_all found es, offset + length (append_entries es) + 1)
    read_entries es found zero offset rest wf apart fuel at_es = absurd (omega arith)
    read_entries no_entries found (suc f) offset rest wf apart fuel at_es =
        decode_entries_end f encoded offset found (At-get encoded offset b'e' rest at_es)
        ∙ ok_at found _ _ (omega arith)
        ∙ ap (λ es. ok (es, offset + 0 + 1)) (sym (append_all_none found))
    read_entries (entry k v es) found (suc f) offset rest wf apart fuel at_es =
        let key_text = append_encoded_string k in
        let value_text = append_encoded v in
        let behind_value = append_entries es ++ b'e' ∷ rest in
        let behind_key = value_text ++ behind_value in
        let at_key : At encoded offset (key_text ++ behind_key) =
          subst (λ s. At encoded offset (key_text ++ s))
            (append_assoc value_text (append_entries es) (b'e' ∷ rest))
            (At-assoc offset key_text (value_text ++ append_entries es) (b'e' ∷ rest) at_es) in
        let (c, t, e, digit) = string_token k in
        let after_key = offset + length key_text in
        let after_value = after_key + length value_text in
        let at_value = At-advance encoded offset key_text behind_key at_key in
        let key_size = length-append key_text (value_text ++ append_entries es) in
        let value_size = length-append value_text (append_entries es) in
        let sizes = key_size ∙ ap (λ n. length key_text + n) value_size in
        let key_pos : 0 < length key_text = omega (arith, ap length e) in
        let value_pos = length-append_encoded_pos v in
        let token = At-token offset c t key_text behind_key at_key e in
        let other : (c == b'e') ≡ false = ground (arith, digit) in
        let read_key = read_string f offset k behind_key (omega (arith, fuel)) at_key in
        let read_v =
          read_value v f after_key behind_value wf.1 (omega (arith, fuel, sizes, key_pos))
            at_value in
        let others =
          read_entries es (append_all found (entry k v no_entries)) f after_value rest wf.2
            (Separated-shift found es k v wf.0 apart) (omega (arith, fuel, sizes, key_pos))
            (At-advance encoded after_key value_text behind_value at_value) in
        let put = emplace_last k v found (Separated-Below found es k v apart) in
        decode_entries_more f encoded offset found c k v after_key after_value token other read_key
          read_v
        ∙ ap (λ es. decode_entries f es encoded after_value) put
        ∙ others
        ∙ ap (λ all. ok (all, after_value + length (append_entries es) + 1))
            (append_all_shift found es k v)
        ∙ ok_at (append_all found (entry k v es)) _ _ (omega (arith, sizes))

-- A value of the C++ types, encoded, is decoded to that value: `decode` does not refuse it, does
-- not run out of fuel and leaves nothing behind it. The encoded text is shorter than 2^64 bytes,
-- and twice its length is fuel enough.
pub decode-encode_value :
    (v : Value) (fuel : ℕ)
    → IsWellFormed v
    → length (encode v) < size_mod
    → 2 * length (encode v) < fuel
    → decode fuel (encode v) ≡ ok v
unfolding encode decode
decode-encode_value v fuel wf small enough =
    let at_v : At (append_encoded v) 0 (append_encoded v ++ []) = record {
      rest = sym (append-nil (append_encoded v));
      size = omega (arith, length-append (append_encoded v) []);
    } in
    ground (arith, read_value (append_encoded v) small v fuel 0 [] wf enough at_v)

-- Two values of the C++ types with the same encoding are the same value, where the encoding is
-- shorter than 2^64 bytes.
pub encode-injective :
    (v w : Value)
    → IsWellFormed v
    → IsWellFormed w
    → length (encode v) < size_mod
    → encode v ≡ encode w
    → v ≡ w
encode-injective v w wf_v wf_w small e =
    let fuel = suc (2 * length (encode v)) in
    cc (
      decode-encode_value v fuel wf_v small (omega arith),
      decode-encode_value w fuel wf_w (omega (arith, ap length e, small))
          (omega (arith, ap length e)),
      e,
    )
