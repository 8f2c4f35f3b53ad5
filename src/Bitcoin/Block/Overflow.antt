-- ===== src/Bitcoin/Block/Overflow.antt =====
-- The offset of read_bytes wraps.
use mathlib.Core.List.{append_assoc}
use blocxxi.Base.{
  ℕ, zero, suc, ◌+◌, ◌-◌, ◌*◌, ◌%◌, ◌^◌, ◌≡◌, refl, sym, ◌∙◌, ap, ◌<◌, ◌++◌, Bytes, false, Option,
  none, some, length, length-append, ltb, drop, take, arith,
}
use blocxxi.Bitcoin.Wire.{
  append_little_endian, append_compact_size, little_endian, read_compact_size,
}
use blocxxi.Bitcoin.Wire.RoundTrip.{
  read_compact_size-append_compact_size, length-append_little_endian,
  little_endian-append_little_endian, take_at, drop_at,
}
use blocxxi.Bitcoin.Block.{word, read_number, read_bytes, read_sized, read_output, read_outputs}

-- A length that moves an offset 17 bytes back.
abbrev pub wrapping_size : ℕ
wrapping_size = 2 ^ 64 - 17

-- An output of a value, whose script has the length 2^64 - 17.
unfoldable pub looping_output : ℕ → Bytes
unfolding append_little_endian append_compact_size
looping_output value = append_little_endian value 8 ++ append_compact_size wrapping_size

length-wrapping_size : length (append_compact_size wrapping_size) ≡ 9
unfolding append_compact_size
length-wrapping_size = refl

-- A round of the loop, by what it reads.
read_outputs_round :
    (payload : Bytes) (count offset total value next : ℕ)
    → read_output payload offset ≡ some (value, next)
    → read_outputs payload (suc count) offset total
      ≡ read_outputs payload count next ((total + value) % word)
unfolding read_outputs
read_outputs_round payload count offset total value next h = ap go h
  where
    go : Option (ℕ × ℕ) → Option (ℕ × ℕ)
    go read = elim read [
      | none ↦ none
      | some found ↦ read_outputs payload count found.1 ((total + found.0) % word)
    ]

-- A block that holds the output behind some bytes, and in front of some others.
abbrev pub looping_payload : Bytes → ℕ → Bytes → Bytes
looping_payload before value rest = before ++ (looping_output value ++ rest)

module _ (before rest : Bytes) (value : ℕ) (fits : value < 2 ^ 64) where
  value_bytes : Bytes
  value_bytes = append_little_endian value 8

  -- The payload, split in front of the length of the script.
  payload_split :
      (looping_payload before value rest)
      ≡ (before ++ value_bytes) ++ (append_compact_size wrapping_size ++ rest)
  unfolding value_bytes looping_output
  payload_split =
      ap (λ s. before ++ s)
        (append_assoc (append_little_endian value 8) (append_compact_size wrapping_size) rest)
      ∙ sym (
          append_assoc before (append_little_endian value 8)
            (append_compact_size wrapping_size ++ rest))

  length-looping_payload :
      length (looping_payload before value rest) ≡ (length before) + 17 + length rest
  unfolding value_bytes
  length-looping_payload =
      ap length payload_split
      ∙ omega (
        arith,
        length-append (before ++ append_little_endian value 8)
            (append_compact_size wrapping_size ++ rest),
        length-append before (append_little_endian value 8),
        length-append (append_compact_size wrapping_size) rest,
        length-append_little_endian value 8,
        length-wrapping_size,
      )

  read_number_value : read_number (looping_payload before value rest) (length before) 8 ≡ value
  unfolding read_number value_bytes
  read_number_value =
      ap (λ s. little_endian (take 8 (drop (length before) s)))
        (payload_split
          ∙ append_assoc before (append_little_endian value 8)
              (append_compact_size wrapping_size ++ rest))
      ∙ ap (λ s. little_endian (take 8 s))
          (drop_at (length before) before
            (append_little_endian value 8 ++ (append_compact_size wrapping_size ++ rest)) refl)
      ∙ ap little_endian (
          take_at 8 (append_little_endian value 8) (append_compact_size wrapping_size ++ rest)
            (length-append_little_endian value 8))
      ∙ little_endian-append_little_endian value 8 (omega (arith, fits))

  read_script_size :
      read_compact_size (looping_payload before value rest) ((length before) + 8)
      ≡ some (wrapping_size, (length before) + 8 + 9)
  unfolding value_bytes
  read_script_size =
      (λ i. read_compact_size (payload_split i) (behind i))
      ∙ read_compact_size-append_compact_size (before ++ append_little_endian value 8) rest
          wrapping_size (omega arith)
      ∙ ap (λ n. some (wrapping_size, n))
          (omega (
            arith,
            length-wrapping_size,
            length-append before (append_little_endian value 8),
            length-append_little_endian value 8,
          ))
    where
      behind : length before + 8 ≡ length (before ++ append_little_endian value 8)
      behind = omega (
        arith,
        length-append before (append_little_endian value 8),
        length-append_little_endian value 8,
      )

  module _ (small : length (looping_payload before value rest) < 2 ^ 64) where
    read_bytes_back :
        read_bytes (looping_payload before value rest) ((length before) + 8 + 9) wrapping_size
        ≡ some (length before)
    unfolding read_bytes
    read_bytes_back = rw back (rw within refl)
      where
        back : ((length before) + 8 + 9 + wrapping_size) % word ≡ (length before)
        back = omega (arith, length-looping_payload, small)

        within : ltb (length (looping_payload before value rest)) (length before) ≡ false
        within = ground (arith, length-looping_payload)

    read_output_loops :
        read_output (looping_payload before value rest) (length before)
        ≡ some (value, (length before))
    unfolding read_output read_sized
    read_output_loops =
        rw within (rw read_script_size (rw read_bytes_back (rw read_number_value refl)))
      where
        within : ltb (length (looping_payload before value rest)) ((length before) + 8) ≡ false
        within = ground (arith, length-looping_payload)

    -- The loop over the outputs of a block shorter than 2^64 bytes, at an output whose script has the
    -- length 2^64 - 17, runs as many rounds as the block says, however short the block is: it adds the
    -- value of the output to the total that many times, modulo 2^64, and ends where it began.
    pub read_outputs_loops :
        (count total : ℕ)
        → total < 2 ^ 64
        → read_outputs (looping_payload before value rest) count (length before) total
          ≡ some ((total + count * value) % 2 ^ 64, (length before))
    unfolding read_outputs
    read_outputs_loops zero total small = ap (λ n. some (n, length before)) (omega (arith, small))
    read_outputs_loops (suc count) total small =
        read_outputs_round (looping_payload before value rest) count (length before) total value
          (length before) read_output_loops
        ∙ read_outputs_loops count ((total + value) % word) (omega arith)
        ∙ ap (λ n. some (n, length before)) (added count total)
      where
        added :
            (n t : ℕ) → ((t + value) % 2 ^ 64 + n * value) % 2 ^ 64 ≡ (t + suc n * value) % 2 ^ 64
        added n t = omega arith
