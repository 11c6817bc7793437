-- ===== src/Peers/Map.antt =====
-- The hash map of src/hashmap.c as the peer table uses it, and that it keeps what the table relies on.
use owl.Base.{
  ℕ, ◌+◌, ◌≡◌, ◌≤◌, refl, sym, ap, subst, ◌∙◌, ◌⊎◌, inl, inr, Bool, true, false, if◌then◌else◌,
  Option, none, some, Option-cases, List, arith,
}
use owl.Election.{EtherAddr}
use owl.Hashmap.{Hashmap, MapStatus, ok}
use owl.Hashmap.Get.{get_lem, get-key_size}
use owl.Hashmap.Ops.{same_key, at, get, put, lookup}
use owl.Hashmap.Put.{put_lem}
use owl.Hashmap.Update.{store_lem}
use owl.Hashmap.Valid.{IsValid, value, none-ne_some, view, lookup-at}
use owl.Hashmap.Write.{write}
use owl.Peers.{Peer}
use owl.Peers.Table.{PeerMap, same_addr}

-- A write through the pointer to a peer: the slot keeps its key.
unfoldable store_at : Hashmap Peer → Option (ℕ × Peer) → Peer → Hashmap Peer
store_at m none p = m
store_at m (some (i, _)) p = elim (at m i) [
  | none ↦ m
  | some (k, _) ↦ write m i (some (k, p)) m.size
]

is_ok : MapStatus → Bool
is_ok ok = true
is_ok _ = false

-- `put` always returns, by the bound on the memory.
unfoldable put_result : Hashmap Peer → Option (Hashmap Peer × MapStatus) → Hashmap Peer × Bool
unfolding is_ok
put_result m none = (m, false)
put_result m (some (m', s)) = (m', is_ok s)

module _ (hash : List ℕ → ℕ) (can_alloc : ℕ → Bool) (bound : ℕ)
    (limited : (n : ℕ) → can_alloc n ≡ true → n ≤ bound) where
  -- A sound table with keys of six bytes.
  pub record Sound (m : Hashmap Peer) : Type 0 where
    pub valid : IsValid hash m
    pub six : m.key_size ≡ 6

  abbrev get_peer : Hashmap Peer → EtherAddr → Option Peer
  get_peer m a = view hash m a

  abbrev store_peer : Hashmap Peer → EtherAddr → Peer → Hashmap Peer
  store_peer m a p = store_at m (lookup hash m a) p

  abbrev put_peer : Hashmap Peer → EtherAddr → Peer → Hashmap Peer × Bool
  put_peer m a p = put_result m (put hash can_alloc (bound + 1) m a p)

  abbrev remove_peer : Hashmap Peer → EtherAddr → Hashmap Peer
  remove_peer m a = (get hash m a true).0

  abbrev Stored : Hashmap Peer → EtherAddr → Peer → Hashmap Peer → Type 0
  Stored m a p m' =
      Sound m'
      × ((b : EtherAddr) → get_peer m' b ≡ (if same_addr a b then some p else get_peer m b))

  store_at-some :
      (m : Hashmap Peer) (i : ℕ) (k : List ℕ) (q v p : Peer)
      → at m i ≡ some (k, v)
      → store_at m (some (i, q)) p ≡ write m i (some (k, p)) m.size
  unfolding store_at
  store_at-some m i k q v p e = rw (store_at, e) refl

  six_key :
      (m m' : Hashmap Peer) (a b : EtherAddr) (o : Option Peer)
      → Sound m
      → get_peer m' b ≡ (if same_key m.key_size a b then o else get_peer m b)
      → get_peer m' b ≡ (if same_addr a b then o else get_peer m b)
  six_key m m' a b o sound e = e ∙ ap (λ n. if same_key n a b then o else get_peer m b) sound.six

  store_lem-peer :
      (m : Hashmap Peer) (a : EtherAddr) (p q : Peer)
      → Sound m
      → get_peer m a ≡ some q
      → Stored m a p (store_peer m a p)
  store_lem-peer m a p q sound there = elim (Option-cases (lookup hash m a)) [
    | inl e ↦ absurd (none-ne_some (sym (ap value e) ∙ there))
    | inr ((i, v), e) ↦
        let (below, k, at_i, same) = lookup-at hash m a i v sound.valid.positive e in
        let (valid, stored) = store_lem hash m i a k v p sound.valid e at_i same in
        subst (Stored m a p) (sym (ap (λ o. store_at m o p) e ∙ store_at-some m i k v v p at_i)) (
          record { valid = valid; six = sound.six },
          λ b. six_key m (write m i (some (k, p)) m.size) a b (some p) sound (stored b),
        )
  ]

  abbrev PutDone : Hashmap Peer → EtherAddr → Peer → Hashmap Peer × Bool → Type 0
  PutDone m a p (m', done) =
      Sound m'
      × (((done ≡ true)
            × ((b : EtherAddr) → get_peer m' b ≡ (if same_addr a b then some p else get_peer m b)))
          ⊎ ((done ≡ false)
              × ((b : EtherAddr) → (get_peer m' b ≡ none) ⊎ (get_peer m' b ≡ get_peer m b))))

  put_peer-PutDone :
      (m : Hashmap Peer) (a : EtherAddr) (p : Peer)
      → Sound m
      → get_peer m a ≡ none
      → PutDone m a p (put_peer m a p)
  unfolding put_result
  put_peer-PutDone m a p sound absent =
      let (m', s, run, f, r) =
        put_lem hash can_alloc bound limited (bound + 1) m a p (omega arith)
          (omega (arith, sound.valid.positive)) sound.valid absent in
      subst (PutDone m a p) (sym (ap (put_result m) run)) (
        record { valid = f.valid; six = f.sized ∙ sound.six },
        elim r [
          | inl (good, entry) ↦ inl (ap is_ok good, λ b. six_key m m' a b (some p) sound (entry b))
          | inr (failed, kept) ↦ inr (ap is_ok failed, kept)
        ],
      )

  put_peer-done :
      (m : Hashmap Peer) (a b : EtherAddr) (p : Peer) (r : Hashmap Peer × Bool)
      → PutDone m a p r
      → r.1 ≡ true
      → get_peer r.0 b ≡ (if same_addr a b then some p else get_peer m b)
  put_peer-done m a b p (m', done) (_, inl (_, entry)) e = entry b
  put_peer-done m a b p (m', done) (_, inr (failed, _)) e = cc

  put_peer-failed :
      (m : Hashmap Peer) (a b : EtherAddr) (p : Peer) (r : Hashmap Peer × Bool)
      → PutDone m a p r
      → r.1 ≡ false
      → (get_peer r.0 b ≡ none) ⊎ (get_peer r.0 b ≡ get_peer m b)
  put_peer-failed m a b p (m', done) (_, inr (_, kept)) e = kept b
  put_peer-failed m a b p (m', done) (_, inl (done', _)) e = cc

  remove_lem-peer :
      (m : Hashmap Peer) (a : EtherAddr)
      → Sound m
      → Sound (remove_peer m a)
        × ((b : EtherAddr)
            → get_peer (remove_peer m a) b ≡ (if same_addr a b then none else get_peer m b))
  remove_lem-peer m a sound =
      let (valid, _, _, gone, _) = get_lem hash m a true sound.valid in
      (
        record { valid = valid; six = get-key_size hash m a true ∙ sound.six },
        λ b. six_key m (remove_peer m a) a b none sound (gone b),
      )

  -- The hash map is a map from addresses to peers, as the peer table needs it, if the memory is
  -- bounded.
  pub peer_map : PeerMap (Hashmap Peer) Sound
  peer_map = record {
    get = get_peer;
    store = store_peer;
    put = put_peer;
    remove = remove_peer;
    store-Sound = λ m a p q s e. (store_lem-peer m a p q s e).0;
    get-store = λ m a b p q s e. (store_lem-peer m a p q s e).1 b;
    put-Sound = λ m a p s e. (put_peer-PutDone m a p s e).0;
    get-put = λ m a b p s e done.
        put_peer-done m a b p (put_peer m a p) (put_peer-PutDone m a p s e) done;
    get-put_failed = λ m a b p s e failed.
        put_peer-failed m a b p (put_peer m a p) (put_peer-PutDone m a p s e) failed;
    remove-Sound = λ m a s. (remove_lem-peer m a s).0;
    get-remove = λ m a b s. (remove_lem-peer m a s).1 b;
  }

  pub get-peer_map : (m : Hashmap Peer) (a : EtherAddr) → peer_map.get m a ≡ view hash m a
  unfolding peer_map
  get-peer_map m a = refl
