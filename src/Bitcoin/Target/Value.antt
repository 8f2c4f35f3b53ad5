-- ===== src/Bitcoin/Target/Value.antt =====
-- The value of a compact target.
use native.Mathlib.Nat.{mul_assoc}
use native.Mathlib.Omega.{pow_step}
use blocxxi.Base.{
  ℕ, zero, suc, ◌+◌, ◌-◌, ◌*◌, ◌/◌, ◌%◌, ◌^◌, ◌≡◌, refl, sym, subst, ◌∙◌, ap, ◌≤◌, ◌<◌, ◌++◌, [],
  ◌∷◌, Bytes, Bool, true, false, Option, none, some, ◌||◌, if◌then◌else◌, leb, ltb, ◌==◌, replicate,
  bytes_lt, length, length-append, length-replicate, arith, Bool-cases, inl, inr,
}
use blocxxi.Bitcoin.Wire.{Outside, hash_bytes_from_hex}
use blocxxi.Bitcoin.Target.{
  three_bytes, place_mantissa, check_limit, with_limit, target_from_compact,
}

-- A number from its bytes, the most significant one first, behind those that make up `n`.
abbrev pub big_endian : ℕ → Bytes → ℕ
big_endian n [] = n
big_endian n (b ∷ bytes) = big_endian (n * 256 + b) bytes

big_endian-append :
    (n : ℕ) (xs ys : Bytes) → big_endian n (xs ++ ys) ≡ big_endian (big_endian n xs) ys
big_endian-append n [] ys = refl
big_endian-append n (x ∷ xs) ys = big_endian-append (n * 256 + x) xs ys

big_endian_zeros : (k : ℕ) → big_endian 0 (replicate k 0) ≡ 0
big_endian_zeros zero = refl
big_endian_zeros (suc k) = big_endian_zeros k

big_endian_shift : (n k : ℕ) → big_endian n (replicate k 0) ≡ n * 256 ^ k
big_endian_shift n zero = omega arith
big_endian_shift n (suc k) =
    big_endian_shift (n * 256 + 0) k
    ∙ ap (λ m. m * 256 ^ k) same
    ∙ mul_assoc n 256 (256 ^ k)
    ∙ ap (λ p. n * p) (sym (pow_step 256 k))
  where
    same : n * 256 + 0 ≡ n * 256
    same = omega arith

-- The number that a compact target stands for.
abbrev pub compact_value : ℕ → ℕ → ℕ
compact_value exponent mantissa =
    if leb exponent 3 then mantissa / 256 ^ (3 - exponent) else mantissa * 256 ^ (exponent - 3)

length_high :
    (k m : ℕ) → k ≤ 29 → length (replicate (29 - k) 0 ++ (three_bytes m ++ replicate k 0)) ≡ 32
unfolding three_bytes
length_high k m h = omega (
  arith,
  length-append (replicate {A = ℕ} (29 - k) 0) (three_bytes m ++ replicate k 0),
  length-replicate {A = ℕ} (29 - k) 0,
  length-replicate {A = ℕ} k 0,
  h,
)

big_endian-three_bytes : (m : ℕ) → m < 2 ^ 24 → big_endian 0 (three_bytes m) ≡ m
unfolding three_bytes
big_endian-three_bytes m h = omega arith

big_endian-place_low : (m : ℕ) → m < 2 ^ 24 → big_endian 0 (replicate 29 0 ++ three_bytes m) ≡ m
big_endian-place_low m h = big_endian-three_bytes m h

big_endian-place_high :
    (j k m : ℕ)
    → m < 2 ^ 24
    → big_endian 0 (replicate j 0 ++ (three_bytes m ++ replicate k 0)) ≡ m * 256 ^ k
big_endian-place_high j k m h =
    big_endian-append 0 (replicate j 0) (three_bytes m ++ replicate k 0)
    ∙ ap (λ n. big_endian n (three_bytes m ++ replicate k 0)) (big_endian_zeros j)
    ∙ big_endian-append 0 (three_bytes m) (replicate k 0)
    ∙ ap (λ n. big_endian n (replicate k 0)) (big_endian-three_bytes m h)
    ∙ big_endian_shift m k

-- A target, if there is one, has the value, in 32 bytes.
abbrev pub HasValue : ℕ → Option Bytes → Type 0
HasValue value none = Unit
HasValue value (some target) = (big_endian 0 target ≡ value) × (length target ≡ 32)

divided_small : (e m : ℕ) → m < 2 ^ 23 → m / 256 ^ (3 - e) < 2 ^ 24
divided_small zero m h = omega arith
divided_small (suc zero) m h = omega arith
divided_small (suc (suc zero)) m h = omega arith
divided_small (suc (suc (suc e))) m h =
    let low : 3 - suc (suc (suc e)) ≡ 0 = omega arith in rw low (omega arith)

place_mantissa-HasValue :
    (exponent mantissa : ℕ)
    → mantissa < 2 ^ 23
    → HasValue (compact_value exponent mantissa) (place_mantissa exponent mantissa)
unfolding place_mantissa
place_mantissa-HasValue exponent mantissa small = elim (Bool-cases (leb exponent 3)) [
  | inl low ↦ rw low (
    big_endian-place_low (mantissa / 256 ^ (3 - exponent)) (divided_small exponent mantissa small),
    unfold three_bytes in refl,
  )
  | inr high ↦ elim (Bool-cases (ltb 29 (exponent - 3))) [
    | inl beyond ↦ rw high (rw beyond tt)
    | inr within ↦ rw high (
        rw within (
          big_endian-place_high (29 - (exponent - 3)) (exponent - 3) mantissa
              (omega (arith, small)),
          length_high (exponent - 3) mantissa (ground arith),
        ))
  ]
]

-- A target, if there is one, has the value and is not above the limit.
HasLimit : ℕ → Bytes → Option Bytes → Type 0
HasLimit value limit none = Unit
HasLimit value limit (some target) =
    (big_endian 0 target ≡ value) × (length target ≡ 32) × (bytes_lt limit target ≡ false)

check_limit-HasLimit :
    (value : ℕ) (limit target : Bytes)
    → HasValue value (some target)
    → HasLimit value limit (check_limit (some limit) target)
unfolding check_limit HasLimit
check_limit-HasLimit value limit target h = elim (Bool-cases (bytes_lt limit target)) [
  | inl above ↦ rw above tt
  | inr within ↦ rw within (h.0, h.1, within)
]

with_limit-HasLimit :
    (o : Outside) (value : ℕ) (limit_hex limit : Bytes) (placed : Option Bytes)
    → hash_bytes_from_hex o limit_hex ≡ some limit
    → HasValue value placed
    → HasLimit value limit (with_limit o limit_hex placed)
unfolding with_limit HasLimit
with_limit-HasLimit o value limit_hex limit none known h = tt
with_limit-HasLimit o value limit_hex limit (some target) known h =
    subst (λ found. HasLimit value limit (check_limit found target)) (sym known)
      (check_limit-HasLimit value limit target h)

-- The tests of TargetFromCompact before the array.
is_refused : ℕ → Bool
is_refused bits = bits / 2 ^ 23 % 2 == 1 || bits % 2 ^ 23 == 0

target_from_compact_refused :
    (o : Outside) (bits : ℕ) (limit_hex : Bytes) (refused : Bool)
    → is_refused bits ≡ refused
    → target_from_compact o bits limit_hex ≡ (
        if refused
        then none
        else with_limit o limit_hex (place_mantissa (bits / 2 ^ 24 % 256) (bits % 2 ^ 23)))
unfolding target_from_compact is_refused
target_from_compact_refused o bits limit_hex refused h =
    ap
      (λ refuses.
        if refuses
        then none
        else with_limit o limit_hex (place_mantissa (bits / 2 ^ 24 % 256) (bits % 2 ^ 23)))
      h

-- A target that TargetFromCompact derives has 32 bytes, is not above the limit, and is the number
-- that the exponent and the mantissa of the bits stand for; the bits have no sign, and their
-- mantissa is not 0.
pub target_from_compact_value :
    (o : Outside) (bits : ℕ) (limit_hex limit target : Bytes)
    → hash_bytes_from_hex o limit_hex ≡ some limit
    → target_from_compact o bits limit_hex ≡ some target
    → (big_endian 0 target ≡ compact_value (bits / 2 ^ 24 % 256) (bits % 2 ^ 23))
      × (length target ≡ 32)
      × (bytes_lt limit target ≡ false)
      × (bits / 2 ^ 23 % 2 ≡ 0)
      × (0 < bits % 2 ^ 23)
unfolding HasLimit
target_from_compact_value o bits limit_hex limit target known e =
    elim (Bool-cases (is_refused bits)) [
      | inl refused ↦ absurd (cc (target_from_compact_refused o bits limit_hex true refused, e))
      | inr passed ↦
          let derived : HasLimit (compact_value (bits / 2 ^ 24 % 256) (bits % 2 ^ 23)) limit
              (some target) =
            subst (HasLimit (compact_value (bits / 2 ^ 24 % 256) (bits % 2 ^ 23)) limit)
              (sym (target_from_compact_refused o bits limit_hex false passed) ∙ e)
              (with_limit-HasLimit o (compact_value (bits / 2 ^ 24 % 256) (bits % 2 ^ 23)) limit_hex
                limit (place_mantissa (bits / 2 ^ 24 % 256) (bits % 2 ^ 23)) known
                (place_mantissa-HasValue (bits / 2 ^ 24 % 256) (bits % 2 ^ 23) (omega arith))) in
          (derived.0, derived.1, derived.2, unsigned passed, positive passed)
    ]
  where
    unsigned : is_refused bits ≡ false → bits / 2 ^ 23 % 2 ≡ 0
    unsigned h = unfold is_refused in ground arith

    positive : is_refused bits ≡ false → 0 < bits % 2 ^ 23
    positive h = unfold is_refused in ground arith
