-- ===== src/Peers/Table.antt =====
-- The table of peers of src/peers.c, over the operations of the hash map that it calls.
use owl.Base.{
  take, false, ◌⊎◌, ℕ, ◌≡◌, Bool, true, not, ◌&&◌, if◌then◌else◌, Option, none, some, List, [], ◌∷◌,
}
use owl.Base.Order.{memcmp, is_eq}
use owl.Election.{EtherAddr}
use owl.Peers.{Peer, peer_is_valid, peer_new}

-- The map compares the six bytes of an address.
abbrev pub same_addr : EtherAddr → EtherAddr → Bool
same_addr a b = is_eq (memcmp (take 6 a) (take 6 b))

-- The map from addresses to peers, with what its clients rely on for the maps that `Sound` describes.
-- `store` writes through the pointer to a peer that the map has. `put` may fail for want of memory,
-- and its second result is whether it has not; the map may then have lost peers.
pub record PeerMap (M : Type 0) (Sound : M → Type 0) : Type 0 where
  pub get : M → EtherAddr → Option Peer
  pub store : M → EtherAddr → Peer → M
  pub put : M → EtherAddr → Peer → M × Bool
  pub remove : M → EtherAddr → M
  pub store-Sound :
      (m : M) (a : EtherAddr) (p q : Peer) → Sound m → get m a ≡ some q → Sound (store m a p)
  pub get-store :
      (m : M) (a b : EtherAddr) (p q : Peer)
      → Sound m
      → get m a ≡ some q
      → get (store m a p) b ≡ (if same_addr a b then some p else get m b)
  pub put-Sound :
      (m : M) (a : EtherAddr) (p : Peer) → Sound m → get m a ≡ none → Sound (put m a p).0
  pub get-put :
      (m : M) (a b : EtherAddr) (p : Peer)
      → Sound m
      → get m a ≡ none
      → (put m a p).1 ≡ true
      → get (put m a p).0 b ≡ (if same_addr a b then some p else get m b)
  pub get-put_failed :
      (m : M) (a b : EtherAddr) (p : Peer)
      → Sound m
      → get m a ≡ none
      → (put m a p).1 ≡ false
      → (get (put m a p).0 b ≡ none) ⊎ (get (put m a p).0 b ≡ get m b)
  pub remove-Sound : (m : M) (a : EtherAddr) → Sound m → Sound (remove m a)
  pub get-remove :
      (m : M) (a b : EtherAddr)
      → Sound m
      → get (remove m a) b ≡ (if same_addr a b then none else get m b)

pub data PeersStatus : Type 0 where
  ok update missing internal : PeersStatus

-- What the last part of `awdl_peer_add` tests and does, and the calls of the callback.
unfoldable pub turns_valid : Peer → Bool
turns_valid p = not p.is_valid && peer_is_valid p

unfoldable pub mark : Peer → Peer
unfolding turns_valid
mark p = if turns_valid p then record p { is_valid = true } else p

-- `cb` is whether there is a callback.
unfoldable pub reported : Bool → Peer → List Peer
unfolding turns_valid
reported cb p = if turns_valid p && cb then record p { is_valid = true } ∷ [] else []

module _ {M : Type 0} {Sound : M → Type 0} (map : PeerMap M Sound) where
  -- `fresh` is what `malloc` returns for a new peer. The list has the calls of the callback.
  unfoldable pub peer_add : Peer → M → EtherAddr → ℕ → Bool → M × PeersStatus × List Peer
  unfolding mark reported
  peer_add fresh m addr now cb = elim (map.get m addr) [
    | some p ↦
        let p' = record p { last_update = now } in
        (map.store m addr (mark p'), update, reported cb p')
    | none ↦
        let p' = record (peer_new fresh addr) { last_update = now } in
        let (m', done) = map.put m addr p' in
        if done then (map.store m' addr (mark p'), ok, reported cb p') else (m', internal, [])
  ]

  unfoldable pub peer_remove : M → EtherAddr → Bool → M × PeersStatus × List Peer
  peer_remove m addr cb = elim (map.get m addr) [
    | none ↦ (m, missing, [])
    | some p ↦ (map.remove m addr, ok, if p.is_valid && cb then p ∷ [] else [])
  ]

  unfoldable peer_get : M → EtherAddr → PeersStatus × Option Peer
  peer_get m addr = elim (map.get m addr) [ none ↦ (missing, none) | some p ↦ (ok, some p) ]
