-- ===== src/Bitcoin/Message/RoundTrip.antt =====
-- A message that was sent, read back.
use mathlib.Core.List.{append_assoc}
use blocxxi.Base.{
  ℕ, zero, suc, ◌-◌, ◌^◌, ◌≡◌, ◌≢◌, ◌<◌, ◌≤◌, refl, sym, ◌∙◌, ap, ◌++◌, [], ◌∷◌, Bytes, true, false,
  All, length-take, append-nil, none, length-take, append-nil, none, some, not, if◌then◌else◌, ltb,
  length, length-append, length-replicate, take, drop, replicate, bytes_eq, bytes_eq_refl, arith,
}
use blocxxi.Bitcoin.Wire.{Outside, IsOutside, double_sha256, append_little_endian, little_endian}
use blocxxi.Bitcoin.Wire.RoundTrip.{
  take_at, drop_at, length-append_little_endian, little_endian-append_little_endian,
}
use blocxxi.Bitcoin.Message.{
  signet_magic, padded_command, encode_message, read_exact, until_zero, check_payload, check_header,
  read_message,
}

read_exact-append :
    (n : ℕ) (xs ys : Bytes) → length xs ≡ n → read_exact n (xs ++ ys) ≡ some (xs, ys)
unfolding read_exact
read_exact-append n xs ys h = rw fits (λ i. some (take_at n xs ys h i, drop_at n xs ys h i))
  where
    fits : ltb (length (xs ++ ys)) n ≡ false
    fits = ground (arith, length-append xs ys)

-- A command that fits, without zeros.
pub record IsCommand (command : Bytes) : Type 0 where
  pub size : length command ≤ 12
  pub nonzero : All (λ b. b ≢ 0) command

until_zero-replicate : (n : ℕ) → until_zero (replicate n 0) ≡ []
unfolding until_zero
until_zero-replicate zero = refl
until_zero-replicate (suc n) = refl

until_zero-append :
    (command : Bytes) (n : ℕ)
    → All (λ b. b ≢ 0) command
    → until_zero (command ++ replicate n 0) ≡ command
unfolding until_zero
until_zero-append [] n h = until_zero-replicate n
until_zero-append (b ∷ command) n h = ground (arith, until_zero-append command n h.1, h.0)

length-padded_command :
    (command : Bytes) → length command ≤ 12 → length (padded_command command) ≡ 12
unfolding padded_command
length-padded_command command h = omega (
  arith,
  length-append command (replicate (12 - length command) 0),
  length-replicate {A = ℕ} (12 - length command) 0,
)

module _ (o : Outside) (outside : IsOutside o) (command payload : Bytes) (fits : IsCommand command)
    (small : length payload < 2 ^ 32) where
  checksum : Bytes
  checksum = take 4 (double_sha256 o payload)

  length-checksum : length checksum ≡ 4
  unfolding checksum double_sha256
  length-checksum =
      length-take 4 (double_sha256 o payload)
        (omega (arith, (outside.sha256-IsHash (o.sha256 payload)).size))

  magic : Bytes
  magic = signet_magic ++ padded_command command

  tail : Bytes
  tail = append_little_endian (length payload) 4 ++ checksum

  header : Bytes
  header = magic ++ tail

  length-magic : length magic ≡ 16
  unfolding magic
  length-magic = omega (arith, length-padded_command command fits.size)

  length-header : length header ≡ 24
  unfolding header tail
  length-header = omega (
    arith,
    length-append magic tail,
    length-append (append_little_endian (length payload) 4) checksum,
    length-append_little_endian (length payload) 4,
    length-magic,
    length-checksum,
  )

  header_size : little_endian (take 4 (drop 16 header)) ≡ length payload
  unfolding header tail
  header_size =
      ap (λ s. little_endian (take 4 s)) (drop_at 16 magic tail length-magic)
      ∙ ap little_endian (
          take_at 4 (append_little_endian (length payload) 4) checksum
            (length-append_little_endian (length payload) 4))
      ∙ little_endian-append_little_endian (length payload) 4 small

  header_checksum : take 4 (drop 20 header) ≡ checksum
  unfolding header tail
  header_checksum =
      ap (λ s. take 4 (drop 20 s)) (sym (append_assoc magic size_bytes checksum))
      ∙ ap (take 4) (
          drop_at 20 (magic ++ size_bytes) checksum (
            omega (
              arith,
              length-append magic size_bytes,
              length-magic,
              length-append_little_endian (length payload) 4,
            )))
      ∙ ap (take 4) (sym (append-nil checksum))
      ∙ take_at 4 checksum [] length-checksum
    where
      size_bytes : Bytes
      size_bytes = append_little_endian (length payload) 4

  header_command : until_zero (take 12 (drop 4 header)) ≡ command
  unfolding header magic
  header_command =
      ap until_zero
        (take_at 12 (padded_command command) tail (length-padded_command command fits.size))
      ∙ unfold padded_command in until_zero-append command (12 - length command) fits.nonzero

  framed : (rest : Bytes) → encode_message o command payload ++ rest ≡ header ++ (payload ++ rest)
  unfolding encode_message header magic tail checksum
  framed rest =
      append_assoc magic (tail ++ payload) rest
      ∙ ap (λ s. magic ++ s) (append_assoc tail payload rest)
      ∙ sym (append_assoc magic tail (payload ++ rest))

  check_payload_lem :
      (rest : Bytes)
      → check_payload o header (some (payload, rest))
        ≡ some (record { command = command; payload = payload }, rest)
  unfolding check_payload
  check_payload_lem rest =
      rw header_checksum (rw header_command (unfold checksum in rw (bytes_eq_refl checksum) refl))

  check_header_lem :
      (rest : Bytes)
      → check_header o (some (header, payload ++ rest))
        ≡ check_payload o header (some (payload, rest))
  unfolding check_header
  check_header_lem rest =
      ap
        (λ same.
          if not same
          then none
          else check_payload o header
              (read_exact (little_endian (take 4 (drop 16 header))) (payload ++ rest)))
        same_magic
      ∙ ap (λ size. check_payload o header (read_exact size (payload ++ rest))) header_size
      ∙ ap (check_payload o header) (read_exact-append (length payload) payload rest refl)
    where
      same_magic : bytes_eq signet_magic (take 4 header) ≡ true
      same_magic = unfold header magic in bytes_eq_refl signet_magic

  -- ReadMessage, at a message that EncodeMessage made of a command of at most twelve bytes without
  -- zeros and of a payload shorter than 2^32 bytes, returns that command and payload, and leaves what
  -- follows the message.
  pub read_message-encode_message :
      (rest : Bytes)
      → read_message o (encode_message o command payload ++ rest)
        ≡ some (record { command = command; payload = payload }, rest)
  unfolding read_message
  read_message-encode_message rest =
      ap (λ s. check_header o (read_exact 24 s)) (framed rest)
      ∙ ap (check_header o) (read_exact-append 24 header (payload ++ rest) length-header)
      ∙ check_header_lem rest
      ∙ check_payload_lem rest
