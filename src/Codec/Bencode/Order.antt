-- ===== src/Codec/Bencode/Order.antt =====
-- Dictionaries in key order, which is what a std::map holds, and `emplace` on them.
use blocxxi.Base.{
  ◌≡◌, refl, ap, true, false, Bytes, bytes_eq, bytes_lt, bytes_eq_iff, arith, [], ◌∷◌,
}
use blocxxi.Base.Decimal.RoundTrip.{IsInt64}
use blocxxi.Codec.Bencode.{
  Value, Items, Entries, integer, string, list, dictionary, no_items, item, no_entries, entry,
  emplace,
}

-- Every key comes behind `k`.
abbrev pub Above : Bytes → Entries → Type 0
Above k no_entries = Unit
Above k (entry j v es) = (bytes_lt k j ≡ true) × Above k es

-- Every key comes before `k`.
abbrev pub Below : Bytes → Entries → Type 0
Below k no_entries = Unit
Below k (entry j v es) = (bytes_lt j k ≡ true) × Below k es

-- Values that the C++ types can hold: integers of 64 bits, and dictionaries in key order.
abbrev mutual
  pub IsWellFormed : Value → Type 0
  IsWellFormed (integer i) = IsInt64 i
  IsWellFormed (string s) = Unit
  IsWellFormed (list xs) = AreWellFormed xs
  IsWellFormed (dictionary es) = AreOrdered es

  pub AreWellFormed : Items → Type 0
  AreWellFormed no_items = Unit
  AreWellFormed (item v xs) = IsWellFormed v × AreWellFormed xs

  pub AreOrdered : Entries → Type 0
  AreOrdered no_entries = Unit
  AreOrdered (entry k v es) = Above k es × IsWellFormed v × AreOrdered es

-- The entries of the first before those of the second.
abbrev pub append_all : Entries → Entries → Entries
append_all no_entries fs = fs
append_all (entry k v es) fs = entry k v (append_all es fs)

-- Every key of the first comes before every key of the second.
abbrev pub Separated : Entries → Entries → Type 0
Separated no_entries fs = Unit
Separated (entry k v es) fs = Above k fs × Separated es fs

pub bytes_lt_irrefl : (k : Bytes) → bytes_lt k k ≡ false
unfolding bytes_lt
bytes_lt_irrefl [] = refl
bytes_lt_irrefl (c ∷ k) = ground (arith, bytes_lt_irrefl k)

bytes_lt_asym : (j k : Bytes) → bytes_lt j k ≡ true → bytes_lt k j ≡ false
unfolding bytes_lt
bytes_lt_asym [] [] h = cc
bytes_lt_asym [] (d ∷ k) h = refl
bytes_lt_asym (c ∷ j) [] h = cc
bytes_lt_asym (c ∷ j) (d ∷ k) h = ground (arith, bytes_lt_asym j k)

bytes_lt→ne : (j k : Bytes) → bytes_lt j k ≡ true → bytes_eq k j ≡ false
bytes_lt→ne j k h = ground (arith, bytes_eq_iff k j, bytes_lt_irrefl j)

-- A key behind all others is appended.
pub emplace_last :
    (k : Bytes) (v : Value) (es : Entries)
    → Below k es
    → emplace k v es ≡ append_all es (entry k v no_entries)
unfolding emplace
emplace_last k v no_entries h = refl
emplace_last k v (entry j w es) h =
    ground (arith, bytes_lt→ne j k h.0, bytes_lt_asym j k h.0, emplace_last k v es h.1)

pub Separated-Below :
    (es fs : Entries) (k : Bytes) (v : Value) → Separated es (entry k v fs) → Below k es
Separated-Below no_entries fs k v h = tt
Separated-Below (entry j w es) fs k v h = (h.0.0, Separated-Below es fs k v h.1)

-- Moving the first entry of the second part to the end of the first part.
pub Separated-shift :
    (es fs : Entries) (k : Bytes) (v : Value)
    → Above k fs
    → Separated es (entry k v fs)
    → Separated (append_all es (entry k v no_entries)) fs
Separated-shift no_entries fs k v above h = (above, tt)
Separated-shift (entry j w es) fs k v above h = (h.0.1, Separated-shift es fs k v above h.1)

pub append_all_shift :
    (es fs : Entries) (k : Bytes) (v : Value)
    → append_all (append_all es (entry k v no_entries)) fs ≡ append_all es (entry k v fs)
append_all_shift no_entries fs k v = refl
append_all_shift (entry j w es) fs k v = ap (entry j w) (append_all_shift es fs k v)

pub append_all_none : (es : Entries) → append_all es no_entries ≡ es
append_all_none no_entries = refl
append_all_none (entry k v es) = ap (entry k v) (append_all_none es)
