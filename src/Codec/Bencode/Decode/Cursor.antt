-- ===== src/Codec/Bencode/Decode/Cursor.antt =====
-- Reading at an offset: what stands there, and what the searches of the decoder find.
use mathlib.Core.Option
use blocxxi.Base.{
  ℕ, zero, suc, ◌+◌, ◌-◌, ◌≡◌, ◌≢◌, refl, sym, ap, ◌∙◌, [], ◌∷◌, ◌++◌, Bytes, All, some, length,
  length-append, take, drop, get_elem?, index_of, arith, ==_iff,
}
use blocxxi.Codec.Bencode.Decode.{find_from, substr}

-- The text from `offset` on is `s`.
pub record At (encoded : Bytes) (offset : ℕ) (s : Bytes) : Type 0 where
  pub rest : drop offset encoded ≡ s
  pub size : offset + length s ≡ length encoded

drop-nil : (n : ℕ) → drop {A = ℕ} n [] ≡ []
drop-nil zero = refl
drop-nil (suc n) = refl

zero_add : (m : ℕ) → 0 + m ≡ m
zero_add m = omega arith

suc_add : (n m : ℕ) → suc n + m ≡ suc (n + m)
suc_add n m = omega arith

drop-drop : (n m : ℕ) (s : Bytes) → drop (n + m) s ≡ drop m (drop n s)
drop-drop zero m s = ap (λ k. drop k s) (zero_add m)
drop-drop (suc n) m [] = ap (λ k. drop {A = ℕ} k []) (suc_add n m) ∙ sym (drop-nil m)
drop-drop (suc n) m (c ∷ s) = ap (λ k. drop k (c ∷ s)) (suc_add n m) ∙ drop-drop n m s

pub drop-append : (xs ys : Bytes) → drop (length xs) (xs ++ ys) ≡ ys
drop-append [] ys = refl
drop-append (x ∷ xs) ys = drop-append xs ys

pub take-append : (xs ys : Bytes) → take (length xs) (xs ++ ys) ≡ xs
take-append [] ys = refl
take-append (x ∷ xs) ys = ap (λ t. x ∷ t) (take-append xs ys)

get_elem?-drop : (n c : ℕ) (s rest : Bytes) → drop n s ≡ c ∷ rest → get_elem? s n ≡ some c
get_elem?-drop zero c [] rest h = cc
get_elem?-drop zero c (x ∷ s) rest h = cc
get_elem?-drop (suc n) c [] rest h = cc
get_elem?-drop (suc n) c (x ∷ s) rest h = get_elem?-drop n c s rest h

module _ (encoded : Bytes) (offset : ℕ) where
  -- The token at the offset.
  pub At-get : (c : ℕ) (s : Bytes) → At encoded offset (c ∷ s) → get_elem? encoded offset ≡ some c
  At-get c s at_c = get_elem?-drop offset c encoded s at_c.rest

  -- What stands behind a part that was read.
  pub At-advance :
      (xs ys : Bytes) → At encoded offset (xs ++ ys) → At encoded (offset + length xs) ys
  At-advance xs ys at_xs = record {
    rest =
        drop-drop offset (length xs) encoded ∙ ap (drop (length xs)) at_xs.rest ∙ drop-append xs ys;
    size = omega (arith, at_xs.size, length-append xs ys);
  }

  pub At-suc : (c : ℕ) (s : Bytes) → At encoded offset (c ∷ s) → At encoded (offset + 1) s
  At-suc c s at_c = At-advance (c ∷ []) s at_c

  -- A part of a known length is what `substr` returns.
  pub substr-At :
      (xs ys : Bytes) → At encoded offset (xs ++ ys) → substr encoded offset (length xs) ≡ xs
  unfolding substr
  substr-At xs ys at_xs = ap (take (length xs)) at_xs.rest ∙ take-append xs ys

index_of-append :
    (c : ℕ) (xs ys : Bytes) → All (λ x. x ≢ c) xs → index_of c (xs ++ c ∷ ys) ≡ some (length xs)
unfolding index_of
index_of-append c [] ys h = ground (arith, ==_iff c c)
index_of-append c (x ∷ xs) ys h = ground (arith, h.0, ==_iff x c, index_of-append c xs ys h.1)

-- A search for the character behind a part that does not contain it, and the part itself.
pub find_from-At :
    (encoded : Bytes) (offset c : ℕ) (xs ys : Bytes)
    → All (λ x. x ≢ c) xs
    → At encoded offset (xs ++ c ∷ ys)
    → (find_from encoded c offset ≡ some (offset + length xs))
      × (substr encoded offset (offset + length xs - offset) ≡ xs)
unfolding find_from
find_from-At encoded offset c xs ys absent at_xs = (
  ap (λ s. Option.map (λ i. offset + i) (index_of c s)) at_xs.rest
      ∙ ap (Option.map (λ i. offset + i)) (index_of-append c xs ys absent),
  ap (substr encoded offset) (omega arith) ∙ substr-At encoded offset xs (c ∷ ys) at_xs,
)
