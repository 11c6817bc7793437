-- ===== src/Peers/Samples.antt =====
-- A small table of peers, for the tests.
use owl.Base.{
  ℕ, zero, suc, ◌≤◌, ◌≡◌, refl, subst, leb, leb→le, Bool, true, none, some, List, [], ◌∷◌, get_or,
  arith,
}
use owl.Base.Order.{memcmp}
use owl.Hashmap.{Hashmap}
use owl.Hashmap.Ops.{at, lookup, find}
use owl.Hashmap.Valid.{IsValid}
use owl.Peers.Map.{Sound, peer_map}
use owl.Peers.Table.{PeerMap}
use owl.Peers.{Peer}
use owl.Rx.Samples.{addr, peer}

-- The hash of an address is its last byte, and there is memory for eight slots.
abbrev pub last_byte : List ℕ → ℕ
last_byte k = get_or k 5 0

abbrev pub eight_slots : ℕ → Bool
eight_slots n = leb n 8

pub limited : (n : ℕ) → eight_slots n ≡ true → n ≤ 8
limited n h = leb→le n 8 h

abbrev pub SampleSound : Hashmap Peer → Type 0
SampleSound = Sound last_byte eight_slots 8 limited

abbrev pub sample_map : PeerMap (Hashmap Peer) SampleSound
sample_map = peer_map last_byte eight_slots 8 limited

-- The peer of the samples, which is to turn valid at the next update.
abbrev pub ready : Peer
ready = record peer { sent_mif = true; devclass = 1; version = 0x34 }

abbrev pub table : Hashmap Peer
table = record { table_size = 2; size = 1; key_size = 6; slots = some (addr 2, ready) ∷ none ∷ [] }

table-found :
    (i : ℕ) (k : List ℕ) (v : Peer)
    → at table i ≡ some (k, v)
    → lookup last_byte table k ≡ some (i, v)
unfolding find memcmp
table-found zero k v e =
    subst (λ o. elim o [ none ↦ Unit {0} | some (k, v) ↦ lookup last_byte table k ≡ some (0, v) ]) e
      refl
table-found (suc zero) k v e = cc
table-found (suc (suc i)) k v e = cc

pub table-IsValid : IsValid last_byte table
table-IsValid = record {
  positive = omega arith;
  width = refl;
  counted = omega arith;
  found = table-found;
}

pub table-Sound : SampleSound table
table-Sound = record { valid = table-IsValid; six = refl }
