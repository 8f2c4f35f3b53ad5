-- ===== src/Codec/Bencode.antt =====
-- src/Blocxxi/Codec/bencode.h and bencode.cpp: the values, and the encoder.
pub mod Order
pub mod Emplace
pub mod Decode
use blocxxi.Base.{
  ℕ, ◌++◌, [], ◌∷◌, Bytes, Bool, true, false, ◌&&◌, ◌||◌, ℤ, to_string, to_string_ℤ, length,
  bytes_eq, bytes_lt, if◌then◌else◌, Outcome, ok, err, logic_error,
}

-- A Value, by its type; `Items` is the ListType and `Entries` the DictionaryType, a std::map whose
-- entries stand in the order of their keys.
mutual
  pub data Value : Type 0 where
    integer : ℤ → Value
    string : Bytes → Value
    list : Items → Value
    dictionary : Entries → Value

  pub data Items : Type 0 where
    no_items : Items
    item : Value → Items → Items

  pub data Entries : Type 0 where
    no_entries : Entries
    entry : Bytes → Value → Entries → Entries

-- std::map::emplace: an entry that has the key already stays as it is.
unfoldable pub emplace : Bytes → Value → Entries → Entries
unfolding bytes_eq bytes_lt
emplace k v no_entries = entry k v no_entries
emplace k v (entry j w es) =
    let after = entry j w (emplace k v es) in
    if bytes_eq k j then entry j w es else if bytes_lt k j then entry k v (entry j w es) else after

-- AppendEncodedString
unfoldable pub append_encoded_string : Bytes → Bytes
unfolding to_string
append_encoded_string s = to_string (length s) ++ (b':' ∷ s)

-- What AppendEncoded appends.
unfoldable mutual
  unfolding append_encoded_string to_string_ℤ

  pub append_encoded : Value → Bytes
  append_encoded (integer i) = b'i' ∷ (to_string_ℤ i ++ (b'e' ∷ []))
  append_encoded (string s) = append_encoded_string s
  append_encoded (list xs) = b'l' ∷ (append_items xs ++ (b'e' ∷ []))
  append_encoded (dictionary es) = b'd' ∷ (append_entries es ++ (b'e' ∷ []))

  pub append_items : Items → Bytes
  append_items no_items = []
  append_items (item v xs) = append_encoded v ++ append_items xs

  pub append_entries : Entries → Bytes
  append_entries no_entries = []
  append_entries (entry k v es) = append_encoded_string k ++ (append_encoded v ++ append_entries es)

unfoldable pub encode : Value → Bytes
unfolding append_encoded
encode v = append_encoded v

-- AsInteger, AsString, AsList, AsDictionary
abbrev pub as_integer : Value → Outcome ℤ
as_integer (integer i) = ok i
as_integer _ = err (logic_error "bencode value is not an integer")

abbrev pub as_string : Value → Outcome Bytes
as_string (string s) = ok s
as_string _ = err (logic_error "bencode value is not a string")

abbrev pub as_list : Value → Outcome Items
as_list (list xs) = ok xs
as_list _ = err (logic_error "bencode value is not a list")

abbrev pub as_dictionary : Value → Outcome Entries
as_dictionary (dictionary es) = ok es
as_dictionary _ = err (logic_error "bencode value is not a dictionary")
