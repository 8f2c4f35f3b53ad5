-- ===== src/P2P/EventDht/Mainline/Unverified.antt =====
-- The records of peers, which Query does not verify.
use blocxxi.Base.{[], ◌∷◌, Bytes, text}
use blocxxi.Codec.Bencode.{Entries, string, list, no_items, item}
use blocxxi.P2P.EventDht.Wire.{make_dictionary}

-- The values of a response with one peer.
abbrev pub with_peer : Bytes → Entries
with_peer s = make_dictionary ((text "values", list (item (string s) no_items)) ∷ [])
