-- ===== src/Peers/Tests.antt =====
-- Tests of the peer table, and its theorems at concrete inputs, over the hash map.
use owl.Base.{◌&&◌, ◌≡◌, ◌⊎◌, refl, true, if◌then◌else◌, none, some, List, [], ◌∷◌}
use owl.Hashmap.Ops.{it_new, it_next, it_remove}
use owl.Hashmap.{Hashmap}
use owl.Peers.Clean.{peers_remove, peers_it_next, peers_it_remove}
use owl.Peers.Laws.{Added, peer_add_lem, peer_remove_lem}
use owl.Peers.Samples.{last_byte, SampleSound, sample_map, ready, table, table-IsValid, table-Sound}
use owl.Peers.Table.{
  same_addr, PeersStatus, ok, missing, reported, turns_valid, peer_add, peer_remove,
}
use owl.Peers.Removal.{Cleans, peers_remove_lem}
use owl.Peers.{Peer, peer_is_valid}
use owl.Rx.Samples.{addr, peer}

reported-ready : reported true ready ≡ record ready { is_valid = true } ∷ []
unfolding reported turns_valid peer_is_valid
reported-ready = refl

-- The peer was last updated at 7.
peers_remove-old :
    peers_remove table 8 true ≡ (record table { size = 0; slots = none ∷ none ∷ [] }, [])
unfolding peers_remove it_next it_remove
peers_remove-old = refl

peers_remove-young : peers_remove table 7 true ≡ (table, [])
unfolding peers_remove it_next
peers_remove-young = refl

peers_it-first : (peers_it_next (it_new table)).2 ≡ some ready
unfolding peers_it_next it_new
peers_it-first = refl

peers_it-removed :
    (peers_it_remove (peers_it_remove (peers_it_next (it_new table)).0).0).1 ≡ missing
unfolding peers_it_next it_new peers_it_remove
peers_it-removed = refl

peer_add_lem_example :
    Added sample_map peer table
      (addr 2)
      table-Sound
      true
      99
      (peer_add sample_map peer table (addr 2) 99 true)
peer_add_lem_example = peer_add_lem sample_map peer table (addr 2) table-Sound true 99

abbrev removed : Hashmap Peer × PeersStatus × List Peer
removed = peer_remove sample_map table (addr 2) true

peer_remove_lem_example :
    ((sample_map.get table (addr 2) ≡ none)
      × (removed.1 ≡ missing)
      × (removed.0 ≡ table)
      × (removed.2 ≡ []))
    ⊎ ((p : Peer) × (sample_map.get table (addr 2) ≡ some p)
        × (removed.1 ≡ ok)
        × (removed.2 ≡ (if p.is_valid && true then p ∷ [] else []))
        × SampleSound removed.0
        × (sample_map.get removed.0 (addr 3)
            ≡ (if same_addr (addr 2) (addr 3) then none else sample_map.get table (addr 3))))
peer_remove_lem_example = peer_remove_lem sample_map peer table (addr 2) table-Sound true (addr 3)

peers_remove_lem_example : Cleans last_byte 8 true 2 table 0 (peers_remove table 8 true)
peers_remove_lem_example = peers_remove_lem last_byte 8 true table table-IsValid
