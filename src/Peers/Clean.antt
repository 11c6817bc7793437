-- ===== src/Peers/Clean.antt =====
-- src/peers.c: the walk over the peers that removes the old ones, and the iterator for clients.
use owl.Base.{
  ℕ, zero, suc, ◌+◌, ltb, if◌then◌else◌, Bool, true, false, Option, none, some, List, [], ◌∷◌, ◌++◌,
  ◌&&◌,
}
use owl.Hashmap.{Hashmap, ok}
use owl.Hashmap.Ops.{HashmapIt, it_new, it_next, it_remove}
use owl.Peers.{Peer}
use owl.Peers.Table.{PeersStatus}

unfoldable pub peers_it_next : HashmapIt Peer → HashmapIt Peer × PeersStatus × Option Peer
unfolding it_next
peers_it_next it =
    let (it', e) = it_next it in
    elim e [ some (_, p) ↦ (it', PeersStatus.ok, some p) | none ↦ (it', PeersStatus.missing, none) ]

unfoldable pub peers_it_remove : HashmapIt Peer → HashmapIt Peer × PeersStatus
unfolding it_remove
peers_it_remove it =
    let (it', s) = it_remove it in
    elim s [ ok ↦ (it', PeersStatus.ok) | _ ↦ (it', PeersStatus.missing) ]

abbrev pub old : ℕ → Peer → Bool
old before p = ltb p.last_update before

-- The callback is called for a peer that is marked as valid; `cb` is whether there is a callback.
abbrev pub called : Bool → Peer → List Peer
called cb p = if p.is_valid && cb then p ∷ [] else []

-- What the loop of `awdl_peers_remove` does with the result of `hashmap_it_next`, by how it goes on.
unfoldable pub round :
    Bool
    → (HashmapIt Peer → Hashmap Peer × List Peer)
    → ℕ
    → HashmapIt Peer × Option (List ℕ × Peer)
    → Hashmap Peer × List Peer
round cb rest before (it, none) = (it.map, [])
round cb rest before (it, some (_, p)) = elim (old before p) as (λ _. Hashmap Peer × List Peer) [
  | false ↦ rest it
  | true ↦ let (m, calls) = rest (it_remove it).0 in (m, called cb p ++ calls)
]

-- The loop, on fuel: the map and the calls of the callback.
unfoldable pub remove_from : Bool → ℕ → ℕ → HashmapIt Peer → Hashmap Peer × List Peer
unfolding round
remove_from cb zero before it = (it.map, [])
remove_from cb (suc fuel) before it = round cb (remove_from cb fuel before) before (it_next it)

-- Each round passes a slot, so one round more than there are slots is enough.
unfoldable pub peers_remove : Hashmap Peer → ℕ → Bool → Hashmap Peer × List Peer
unfolding it_new remove_from
peers_remove m before cb = remove_from cb (m.table_size + 1) before (it_new m)
