-- ===== src/Bitcoin/Ingestion/Json/Ends.antt =====
-- The loops over the members of an object end: each round takes a character at least.
use mathlib.Core.Option
use blocxxi.Base.{
  ℕ, zero, suc, ◌≡◌, refl, ◌≤◌, ◌<◌, [], ◌∷◌, Bytes, Bool, true, false, ◌||◌, Option, none, some,
  length, take, drop, length-drop, leb, ◌==◌, if◌then◌else◌, Outcome, ok, Bool-cases, inl, inr,
  arith,
}
use blocxxi.Base.Scan.{skip_space}
use blocxxi.Bitcoin.Ingestion.Json.{
  trim, starts_with, encloses, string_end, consume_string, consume_json_value, Member, malformed,
  finished, member, skip_comma, with_value, with_key, next_member, is_key, find_in, find_loop,
  find_object_value, parse_string,
}

-- The position of a member is behind `n` characters or more of the text.
abbrev pub Leaves : ℕ → Member → Type 0
Leaves n malformed = Unit
Leaves n finished = Unit
Leaves n (member key value rest) = length rest < n

pub length-skip_space : (s : Bytes) → length (skip_space s) ≤ length s
unfolding skip_space
length-skip_space [] = omega arith
length-skip_space (c ∷ s) = ground (arith, length-skip_space s)

length-skip_comma : (s : Bytes) → length (skip_comma s) ≤ length s
unfolding skip_comma
length-skip_comma s = elim (Bool-cases (starts_with b',' (skip_space s))) [
  | inl e ↦ rw e (omega (arith, length-skip_space s, length-drop 1 (skip_space s)))
  | inr e ↦ rw e (length-skip_space s)
]

AtLeastOne : Option ℕ → Type 0
AtLeastOne none = Unit
AtLeastOne (some n) = 1 ≤ n

consume_string-AtLeastOne : (s : Bytes) → AtLeastOne (consume_string s)
unfolding consume_string AtLeastOne
consume_string-AtLeastOne [] = tt
consume_string-AtLeastOne (c ∷ s) = elim (Bool-cases (c == b'"')) [
  | inr e ↦ rw e tt
  | inl e ↦ rw e (counted (string_end s false))
]
  where
    counted : (o : Option ℕ) → AtLeastOne (Option.map suc o)
    counted none = tt
    counted (some n) = omega arith

with_value-Leaves :
    (key s : Bytes) (n : ℕ) (o : Option ℕ) → length s < n → Leaves n (with_value key s o)
unfolding with_value
with_value-Leaves key s n none h = tt
with_value-Leaves key s n (some m) h =
    omega (arith, h, length-skip_comma (drop m s), length-drop m s)

if-Leaves :
    (b : Bool) (n : ℕ) (m k : Member) → Leaves n m → Leaves n k → Leaves n (if b then m else k)
if-Leaves true n m k h g = h
if-Leaves false n m k h g = g

with_key-Leaves :
    (s : Bytes) (n : ℕ) (o : Option ℕ)
    → AtLeastOne o
    → length s ≤ n
    → 0 < n
    → Leaves n (with_key s o)
unfolding with_key AtLeastOne
with_key-Leaves s n none one h pos = tt
with_key-Leaves s n (some m) one h pos =
    let colon = skip_space (drop m s) in
    let value = skip_space (drop 1 colon) in
    if-Leaves (starts_with b':' colon) n _ _
      (with_value-Leaves (take m s) value n (consume_json_value value) (
        omega (
          arith,
          length-skip_space (drop 1 colon),
          length-drop 1 colon,
          length-skip_space (drop m s),
          length-drop m s,
          one,
          h,
          pos,
        )))
      tt

-- The next member begins behind one character or more.
pub next_member-Leaves : (s : Bytes) → 0 < length s → Leaves (length s) (next_member s)
unfolding next_member
next_member-Leaves s pos =
    let t = skip_space s in
    let rest = with_key t (consume_string t) in
    if-Leaves (leb (length s) 1) (length s) finished
      (if leb (length t) 0 || starts_with b'}' t then finished else rest) tt
      (if-Leaves (leb (length t) 0 || starts_with b'}' t) (length s) finished rest tt (
        with_key-Leaves t (length s) (consume_string t) (consume_string-AtLeastOne t)
          (length-skip_space s) pos))

abbrev pub Ends : {A : Type 0} → Outcome A → Type 0
Ends {A} o = (a : A) × (o ≡ ok a)

find_in-Ends :
    (rest : Bytes → Outcome (Option Bytes)) (key : Bytes) (n : ℕ) (m : Member)
    → Leaves n m
    → ((s : Bytes) → length s < n → Ends (rest s))
    → Ends (find_in rest key m)
unfolding find_in
find_in-Ends rest key n malformed h ends = (none, refl)
find_in-Ends rest key n finished h ends = (none, refl)
find_in-Ends rest key n (member name value s) h ends =
    elim (Bool-cases (is_key key (parse_string name))) [
      | inl e ↦ rw e (some (trim value), refl)
      | inr e ↦ rw e (ends s h)
    ]

find_loop-Ends : (fuel : ℕ) (key s : Bytes) → length s < fuel → Ends (find_loop fuel key s)
unfolding find_loop
find_loop-Ends zero key s h = absurd (omega arith)
find_loop-Ends (suc fuel) key [] h = (none, refl)
find_loop-Ends (suc fuel) key (c ∷ s) h =
    find_in-Ends (λ t. find_loop fuel key t) key (length (c ∷ s)) (next_member (c ∷ s))
      (next_member-Leaves (c ∷ s) (omega arith))
      (λ t k. find_loop-Ends fuel key t (omega (arith, k, h)))

-- FindObjectValue ends on every text.
pub find_object_value-Ends : (raw key : Bytes) → Ends (find_object_value raw key)
unfolding find_object_value
find_object_value-Ends raw key = elim (Bool-cases (encloses b'{' b'}' (trim raw))) [
  | inr e ↦ rw e (none, refl)
  | inl e ↦ rw e (find_loop-Ends (length (trim raw)) key (drop 1 (trim raw)) (shorter (trim raw) e))
]
  where
    shorter : (s : Bytes) → encloses b'{' b'}' s ≡ true → length (drop 1 s) < length s
    shorter [] h = absurd (ground (arith, h))
    shorter (c ∷ s) h = omega arith
