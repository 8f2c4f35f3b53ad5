-- ===== src/Bitcoin/Wire/RoundTrip.antt =====
-- Numbers and compact sizes, read back.
use blocxxi.Base.{
  ℕ, zero, suc, ◌+◌, ◌/◌, ◌^◌, ◌≡◌, refl, ◌∙◌, ap, ◌<◌, ◌++◌, ◌∷◌, Bytes, length-append, false,
  some, length, take, drop, arith, ltb, leb, Bool-cases, inl, inr,
}
use blocxxi.Codec.Bencode.Decode.Cursor.{drop-append, take-append}
use blocxxi.Bitcoin.Wire.{
  append_little_endian, append_compact_size, little_endian, compact_width, read_compact_at,
  read_compact_size,
}

pub length-append_little_endian :
    (value width : ℕ) → length (append_little_endian value width) ≡ width
unfolding append_little_endian
length-append_little_endian value zero = refl
length-append_little_endian value (suc width) =
    ap suc (length-append_little_endian (value / 256) width)

-- The bytes of a number that fits their width give the number back.
pub little_endian-append_little_endian :
    (value width : ℕ)
    → value < 256 ^ width
    → little_endian (append_little_endian value width) ≡ value
unfolding little_endian append_little_endian
little_endian-append_little_endian value zero h = omega arith
little_endian-append_little_endian value (suc width) h =
    let rest = little_endian-append_little_endian (value / 256) width (omega (arith, h)) in
    omega (arith, rest)

-- `take` and `drop` at the end of the first part.
pub take_at : (n : ℕ) (xs ys : Bytes) → length xs ≡ n → take n (xs ++ ys) ≡ xs
take_at n xs ys h = rw (← h) (take-append xs ys)

pub drop_at : (n : ℕ) (xs ys : Bytes) → length xs ≡ n → drop n (xs ++ ys) ≡ ys
drop_at n xs ys h = rw (← h) (drop-append xs ys)

-- A compact size of one width behind its first byte, read from the front.
read_compact_wide :
    (first value width : ℕ) (rest : Bytes) (offset : ℕ)
    → ltb first 253 ≡ false
    → compact_width first ≡ width
    → value < 256 ^ width
    → read_compact_at (first ∷ (append_little_endian value width ++ rest)) offset
      ≡ some (value, offset + length (first ∷ append_little_endian value width))
unfolding read_compact_at
read_compact_wide first value width rest offset wide w small = rw wide (
    rw w (
      rw (fits) (
        rw
          (take_at width (append_little_endian value width) rest
            (length-append_little_endian value width))
          (rw (little_endian-append_little_endian value width small) (
            ap (λ next. some (value, next))
              (omega (arith, length-append_little_endian value width)))))))
  where
    fits : ltb (length (append_little_endian value width ++ rest)) width ≡ false
    fits = ground (
      arith,
      length-append (append_little_endian value width) rest,
      length-append_little_endian value width,
    )

-- ReadCompactSize reads what AppendCompactSize wrote, wherever it stands and whatever follows, and
-- moves the offset behind it. The value is a std::uint64_t.
pub read_compact_size-append_compact_size :
    (before rest : Bytes) (value : ℕ)
    → value < 2 ^ 64
    → read_compact_size (before ++ (append_compact_size value ++ rest)) (length before)
      ≡ some (value, length before + length (append_compact_size value))
unfolding read_compact_size append_compact_size compact_width read_compact_at
read_compact_size-append_compact_size before rest value small =
    ap (λ s. read_compact_at s (length before))
      (drop-append before (append_compact_size value ++ rest))
    ∙ read (length before)
  where
    read :
        (offset : ℕ)
        → read_compact_at (append_compact_size value ++ rest) offset
          ≡ some (value, offset + length (append_compact_size value))
    read offset = elim (Bool-cases (ltb value 253)) [
      | inl one ↦ rw one (rw one refl)
      | inr wide ↦ elim (Bool-cases (leb value 0xFFFF)) [
        | inl two ↦
            rw wide (rw two (read_compact_wide 0xFD value 2 rest offset refl refl (ground arith)))
        | inr wider ↦ elim (Bool-cases (leb value 0xFFFFFFFF)) [
          | inl four ↦ rw wide (
              rw wider
                (rw four (read_compact_wide 0xFE value 4 rest offset refl refl (ground arith))))
          | inr eight ↦ rw wide (
              rw wider (
                rw eight
                  (read_compact_wide 0xFF value 8 rest offset refl refl (omega (arith, small)))))
        ]
      ]
    ]
