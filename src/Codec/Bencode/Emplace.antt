-- ===== src/Codec/Bencode/Emplace.antt =====
-- What std::map::emplace keeps: the order of the keys.
use blocxxi.Base.{
  ◌≡◌, Bytes, true, bytes_eq, bytes_eq_iff, bytes_lt, bytes_lt-IsOrder, IsOrder, Bool-cases, inl,
  inr, arith,
}
use blocxxi.Codec.Bencode.{Value, Entries, no_entries, entry, emplace}
use blocxxi.Codec.Bencode.Order.{Above, AreOrdered, IsWellFormed}

order : IsOrder bytes_lt
order = bytes_lt-IsOrder

Above-trans : (k j : Bytes) (es : Entries) → bytes_lt k j ≡ true → Above j es → Above k es
Above-trans k j no_entries h a = tt
Above-trans k j (entry i v es) h a = (order.trans k j i h a.0, Above-trans k j es h a.1)

emplace-Above :
    (j k : Bytes) (v : Value) (es : Entries)
    → bytes_lt j k ≡ true
    → Above j es
    → Above j (emplace k v es)
unfolding emplace
emplace-Above j k v no_entries h a = (h, tt)
emplace-Above j k v (entry i w es) h a = elim (Bool-cases (bytes_eq k i)) [
  | inl same ↦ rw same a
  | inr other ↦ elim (Bool-cases (bytes_lt k i)) [
    | inl before ↦ rw other (rw before (h, a))
    | inr behind ↦ rw other (rw behind (a.0, emplace-Above j k v es h a.1))
  ]
]

-- A dictionary in key order stays one.
pub emplace-AreOrdered :
    (k : Bytes) (v : Value) (es : Entries)
    → IsWellFormed v
    → AreOrdered es
    → AreOrdered (emplace k v es)
unfolding emplace
emplace-AreOrdered k v no_entries w o = (tt, w, tt)
emplace-AreOrdered k v (entry i u es) w o = elim (Bool-cases (bytes_eq k i)) [
  | inl same ↦ rw same o
  | inr other ↦ elim (Bool-cases (bytes_lt k i)) [
    | inl before ↦ rw other (rw before ((before, Above-trans k i es before o.0), w, o))
    | inr behind ↦ rw other (
        rw behind (
          emplace-Above i k v es
              (ground (arith, order.total k i, bytes_eq_iff k i, Bool-cases (bytes_lt i k))) o.0,
          o.1,
          emplace-AreOrdered k v es w o.2,
        ))
  ]
]
