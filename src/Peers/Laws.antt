-- ===== src/Peers/Laws.antt =====
-- What adding and removing a peer does to the table.
use owl.Base.{
  take, ℕ, ◌≡◌, refl, ap, ◌∙◌, Bool, true, false, Bool-cases, Option-cases, ◌⊎◌, inl, inr,
  if◌then◌else◌, ◌&&◌, Option, none, some, List, [], ◌∷◌,
}
use owl.Base.Order.{memcmp_refl}
use owl.Election.{EtherAddr}
use owl.Peers.{Peer, peer_new}
use owl.Peers.Table.{
  PeerMap, same_addr, PeersStatus, ok, update, missing, internal, mark, reported, peer_add,
  peer_remove,
}

-- The peer of an address before it is updated: that of the map, or a new one.
abbrev pub known : Peer → EtherAddr → Option Peer → Peer
known fresh addr none = peer_new fresh addr
known fresh addr (some p) = p

pub if_if {ℓ} :
    {A : Type ℓ} (b : Bool) (x y z : A)
    → (if b then x else if b then y else z) ≡ (if b then x else z)
if_if true x y z = refl
if_if false x y z = refl

-- The put of a new peer finds no memory.
abbrev pub NoMemory :
    {M : Type 0} → {Sound : M → Type 0} → PeerMap M Sound → Peer → M → EtherAddr → ℕ → Type 0
NoMemory map fresh m addr now =
    (map.put m addr (record (peer_new fresh addr) { last_update = now })).1 ≡ false

module _ {M : Type 0} {Sound : M → Type 0} (map : PeerMap M Sound) (fresh : Peer) (m : M)
    (addr : EtherAddr) (sound : Sound m) where
  -- The peers after one has been written, by those before.
  abbrev Writes : M → Peer → Type 0
  Writes m' p =
      Sound m'
      × ((b : EtherAddr) → map.get m' b ≡ (if same_addr addr b then some p else map.get m b))

  abbrev pub Added : Bool → ℕ → M × PeersStatus × List Peer → Type 0
  Added cb now (m', status, calls) =
      let p = record (known fresh addr (map.get m addr)) { last_update = now } in
      ((map.get m addr ≡ none)
        × NoMemory map fresh m addr now
        × (status ≡ internal)
        × (calls ≡ [])
        × Sound m'
        × ((b : EtherAddr) → (map.get m' b ≡ none) ⊎ (map.get m' b ≡ map.get m b)))
      ⊎ ((status ≡ elim (map.get m addr) [ none ↦ ok | some _ ↦ update ])
          × (calls ≡ reported cb p)
          × Writes m' (mark p))

  pub same_addr_refl : same_addr addr addr ≡ true
  same_addr_refl = rw (memcmp_refl (take 6 addr)) refl

  -- A store after the put of the same peer.
  put-store :
      (p q : Peer)
      → map.get m addr ≡ none
      → (map.put m addr p).1 ≡ true
      → Writes (map.store (map.put m addr p).0 addr q) q
  put-store p q absent done =
      let m' = (map.put m addr p).0 in
      let there =
        map.get-put m addr addr p sound absent done
        ∙ ap (λ o. if o then some p else map.get m addr) same_addr_refl in
      let sound' = map.put-Sound m addr p sound absent in
      (
        map.store-Sound m' addr q p sound' there,
        λ b.
            map.get-store m' addr b q p sound' there
            ∙ ap (λ o. if same_addr addr b then some q else o)
                (map.get-put m addr b p sound absent done)
            ∙ if_if (same_addr addr b) _ _ _,
      )

  -- Adding a peer at a time reports an update if the address has one, and else that it is new,
  -- unless the put of the new peer fails for want of memory. Then the peer of that address is the
  -- one known, or a new one, with the time of its last update, and marked if it has turned valid; the
  -- callback is called for it exactly if it has and there is a callback; and the peers of all other
  -- addresses are as before. Without memory nothing is reported, and each address has its peer as
  -- before, or none.
  pub peer_add_lem : (cb : Bool) (now : ℕ) → Added cb now (peer_add map fresh m addr now cb)
  unfolding peer_add
  peer_add_lem cb now = elim (Option-cases (map.get m addr)) [
    | inr (p, e) ↦
        rw (peer_add, e)
          (inr (
            refl,
            refl,
            (map.store-Sound m addr _ p sound e, λ b. map.get-store m addr b _ p sound e),
          ))
    | inl e ↦
        let p = record (peer_new fresh addr) { last_update = now } in
        elim (Bool-cases (map.put m addr p).1) [
          | inr failed ↦
              rw (peer_add, e, failed)
                (inl (
                  refl,
                  refl,
                  refl,
                  refl,
                  map.put-Sound m addr p sound e,
                  λ b. map.get-put_failed m addr b p sound e failed,
                ))
          | inl done ↦ rw (peer_add, e, done) (inr (refl, refl, put-store p (mark p) e done))
        ]
  ]

  -- Removing a peer reports that it is missing, and changes nothing, if the address has none. Else
  -- the address has none afterwards, the peers of all other addresses are as before, and the
  -- callback is called for the peer exactly if it is marked as valid and there is a
  -- callback.
  pub peer_remove_lem :
      (cb : Bool) (b : EtherAddr)
      → let (m', status, calls) = peer_remove map m addr cb in
        ((map.get m addr ≡ none) × (status ≡ missing) × (m' ≡ m) × (calls ≡ []))
        ⊎ ((p : Peer) × (map.get m addr ≡ some p)
            × (status ≡ ok)
            × (calls ≡ (if p.is_valid && cb then p ∷ [] else []))
            × Sound m'
            × (map.get m' b ≡ (if same_addr addr b then none else map.get m b)))
  unfolding peer_remove
  peer_remove_lem cb b = elim (Option-cases (map.get m addr)) [
    | inl e ↦ rw (peer_remove, e) (inl (refl, refl, refl, refl))
    | inr (p, e) ↦
        rw (peer_remove, e)
          (inr (p, refl, refl, refl, map.remove-Sound m addr sound, map.get-remove m addr b sound))
  ]
