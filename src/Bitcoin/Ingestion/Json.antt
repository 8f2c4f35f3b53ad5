-- ===== src/Bitcoin/Ingestion/Json.antt =====
-- The scan of JSON text in src/Blocxxi/Bitcoin/ingestion.cpp. A position in a text is the rest of the
-- text from there; the functions that consume return the number of characters.
pub mod Ends
use mathlib.Core.List.{reverse}
use mathlib.Core.Option
use blocxxi.Base.{
  ℕ, zero, suc, ◌+◌, ◌-◌, [], ◌∷◌, Bytes, text, Bool, true, false, not, ◌&&◌, ◌||◌, Option, none,
  some, length, take, drop, leb, ltb, ◌==◌, bytes_eq, if◌then◌else◌, Outcome, ok, out_of_fuel,
  ◌>>=◌, parse_unsigned, ◌^◌,
}
use blocxxi.Base.Scan.{skip_space}

-- Trim
unfoldable pub trim : Bytes → Bytes
unfolding skip_space
trim s = reverse (skip_space (reverse (skip_space s)))

abbrev pub starts_with : ℕ → Bytes → Bool
starts_with c [] = false
starts_with c (x ∷ s) = x == c

-- The tests of the first and the last character, which are two.
abbrev pub encloses : ℕ → ℕ → Bytes → Bool
encloses first last s = leb 2 (length s) && starts_with first s && starts_with last (reverse s)

-- The loop of ConsumeString.
unfoldable pub string_end : Bytes → Bool → Option ℕ
string_end [] escaped = none
string_end (c ∷ s) escaped =
    let rest = Option.map suc (string_end s (not escaped && c == b'\\')) in
    if not escaped && c == b'"' then some 1 else rest

unfoldable pub consume_string : Bytes → Option ℕ
unfolding string_end
consume_string [] = none
consume_string (c ∷ s) = if c == b'"' then Option.map suc (string_end s false) else none

abbrev pub opens : ℕ → Bool
opens c = c == b'{' || c == b'['

abbrev pub closes : ℕ → Bool
closes c = c == b'}' || c == b']'

-- The loop of ConsumeJsonValue, inside of a string and outside.
unfoldable pub value_end : Bytes → ℕ → Bool → Bool → ℕ
value_end [] depth in_string escaped = 0
value_end (c ∷ s) depth true escaped =
    suc (value_end s depth (escaped || not (c == b'"')) (not escaped && c == b'\\'))
value_end (c ∷ s) depth false escaped =
    let deeper = if opens c then depth + 1 else if closes c then depth - 1 else depth in
    let rest = value_end s deeper (c == b'"') escaped in
    if closes c && leb depth 1 then depth else if depth == 0 && c == b',' then 0 else suc rest

-- ConsumeJsonValue from its own white space on.
unfoldable pub consume_value : Bytes → Option ℕ
unfolding consume_string value_end
consume_value [] = none
consume_value (c ∷ s) =
    if c == b'"' then consume_string (c ∷ s) else some (value_end (c ∷ s) 0 false false)

unfoldable pub consume_json_value : Bytes → Option ℕ
unfolding skip_space consume_value
consume_json_value s =
    let t = skip_space s in Option.map (λ n. length s - length t + n) (consume_value t)

-- The loop of ParseString.
unfoldable pub unescape : Bytes → Bool → Bytes
unescape [] escaped = []
unescape (c ∷ s) escaped =
    let rest = unescape s (not escaped && c == b'\\') in
    if not escaped && c == b'\\' then rest else c ∷ rest

unfoldable pub parse_string : Bytes → Option Bytes
unfolding trim unescape
parse_string raw =
    let s = trim raw in
    if encloses b'"' b'"' s then some (unescape (take (length s - 2) (drop 1 s)) false) else none

-- ParseInteger<std::uint64_t>
unfoldable pub parse_integer : Bytes → Option ℕ
unfolding trim parse_unsigned
parse_integer raw = parse_unsigned (2 ^ 64 - 1) (trim raw)

unfoldable pub parse_bool : Bytes → Option Bool
unfolding trim text bytes_eq
parse_bool raw =
    if bytes_eq (trim raw) (text "true")
    then some true
    else if bytes_eq (trim raw) (text "false")
    then some false
    else none

-- What a round of the loops over the members of an object finds at a position: an error, the end, or
-- a member with its key and value as they stand, and the next position.
pub data Member : Type 0 where
  malformed : Member
  finished : Member
  member : Bytes → Bytes → Bytes → Member

-- Behind a value: white space, and a comma.
unfoldable pub skip_comma : Bytes → Bytes
unfolding skip_space
skip_comma s = let t = skip_space s in if starts_with b',' t then drop 1 t else t

unfoldable pub with_value : Bytes → Bytes → Option ℕ → Member
unfolding skip_comma
with_value key s none = malformed
with_value key s (some n) = member key (take n s) (skip_comma (drop n s))

-- From the key on.
unfoldable pub with_key : Bytes → Option ℕ → Member
unfolding skip_space consume_json_value with_value
with_key s none = malformed
with_key s (some n) =
    let colon = skip_space (drop n s) in
    let value = skip_space (drop 1 colon) in
    if starts_with b':' colon
    then with_value (take n s) value (consume_json_value value)
    else malformed

-- A position at or behind the last character ends the loop, and so does a brace.
unfoldable pub next_member : Bytes → Member
unfolding skip_space consume_string with_key
next_member s =
    let t = skip_space s in
    if leb (length s) 1
    then finished
    else if leb (length t) 0 || starts_with b'}' t
    then finished
    else with_key t (consume_string t)

-- *current_key == key
abbrev pub is_key : Bytes → Option Bytes → Bool
is_key key none = false
is_key key (some current) = bytes_eq current key

-- The loop of FindObjectValue, on fuel for its rounds; `rest` is the rest of the loop.
unfoldable pub find_in : (Bytes → Outcome (Option Bytes)) → Bytes → Member → Outcome (Option Bytes)
unfolding parse_string trim bytes_eq
find_in rest key malformed = ok none
find_in rest key finished = ok none
find_in rest key (member name value s) =
    if is_key key (parse_string name) then ok (some (trim value)) else rest s

unfoldable pub find_loop : ℕ → Bytes → Bytes → Outcome (Option Bytes)
unfolding find_in next_member
find_loop zero key s = out_of_fuel
find_loop (suc fuel) key s = find_in (λ t. find_loop fuel key t) key (next_member s)

-- FindObjectValue. Each round takes a character at least.
unfoldable pub find_object_value : Bytes → Bytes → Outcome (Option Bytes)
unfolding trim find_loop
find_object_value raw key =
    let object = trim raw in
    let found = find_loop (length object) key (drop 1 object) in
    if encloses b'{' b'}' object then found else ok none

-- ExtractResultValue
unfoldable pub extract_result_value : Bytes → Outcome (Option Bytes)
unfolding find_object_value text
extract_result_value response_json = find_object_value response_json (text "result")
