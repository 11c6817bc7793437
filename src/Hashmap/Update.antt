-- ===== src/Hashmap/Update.antt =====
-- What putting, removing and storing do to the hash map's invariant and to its lookups.
use owl.Base.{
  ℕ, ◌+◌, ◌-◌, ◌<◌, ◌≡◌, refl, sym, subst, ◌∙◌, inl, inr, ◌==◌, if◌then◌else◌, true, Bool-cases,
  Option, none, some, Option-cases, List, length, arith,
}
use owl.Hashmap.{Hashmap}
use owl.Hashmap.Ops.{
  max_chain_length, same_key, at, held, fits, probe, place, blank, hash_int, lookup,
}
use owl.Hashmap.Probe.{
  same_key_refl, same_key-left, same_key_comm, held-some, find-none, probe-fits,
}
use owl.Hashmap.Write.{
  write, held-write, find-put, find-store, used-set-some, used-set-none, used-set_same,
}
use owl.Hashmap.Valid.{
  IsValid, none-ne_some, value-none, view, Updates, updates, start-lt, lookup-same, found-apart,
  write-other, write-IsValid, lookup-at,
}

module _ {V : Type 0} (hash : List ℕ → ℕ) where
  -- A key that is there is found with the new data after a write of them.
  slot_own :
      (m : Hashmap V) (i : ℕ) (k : List ℕ) (v : V)
      → lookup hash m k ≡ some (i, v)
      → (k' : List ℕ) (v' : V) → ◌≡◌ {A = Option (List ℕ × V)} (some (k, v)) (some (k', v'))
      → lookup hash m k' ≡ some (i, v')
  slot_own m i k v own k' v' e =
      subst (λ o. elim o [ none ↦ Unit {0} | some (k, v) ↦ lookup hash m k ≡ some (i, v) ]) e own

  pub place_lem :
      (m : Hashmap V) (i : ℕ) (key : List ℕ) (v : V)
      → IsValid hash m
      → view hash m key ≡ none
      → probe max_chain_length m key (hash_int hash m key) ≡ some i
      → IsValid hash (place m i key v) × Updates hash m (place m i key v) key (some v)
  unfolding place
  place_lem m i key v valid absent p =
      let (fit, below) =
        probe-fits max_chain_length m key (hash_int hash m key) i p
          (start-lt hash m key valid.positive) in
      let l : i < length m.slots = omega (arith, valid.width) in
      let after : same_key m.key_size key key ≡ true = same_key_refl m.key_size key in
      let own =
        find-put m i (m.size + 1) (some (key, v)) key v l (rw after) max_chain_length
          (hash_int hash m key) (start-lt hash m key valid.positive) p in
      (
        write-IsValid hash m i (m.size + 1) (some (key, v)) key l fit after valid
            (omega (arith, used-set-some m.slots i (key, v), valid.counted))
            (slot_own (place m i key v) i key v own)
            (λ j k w _ e. elim (Bool-cases (same_key m.key_size key k)) [
              | inr differ ↦ differ
              | inl same ↦ absurd (
                  none-ne_some (
                    sym (value-none (lookup hash m key) absent)
                    ∙ lookup-same hash m key k same
                    ∙ valid.found j k w e))
            ]),
        updates hash m (place m i key v) key (some (i, v)) (some v) refl own refl
            (write-other hash m i (m.size + 1) (some (key, v)) key l fit after),
      )

  gone :
      (m : Hashmap V) (i j : ℕ) (key k : List ℕ) (v : V)
      → IsValid hash m
      → at m i ≡ some (k, v)
      → same_key m.key_size k key ≡ true
      → (if i == j then none else held m.key_size key (at m j)) ≡ none
  gone m i j key k v valid e same = elim (Bool-cases (i == j)) [
    | inl p ↦ rw p
    | inr p ↦ rw p (elim (Option-cases (held m.key_size key (at m j))) [
      | inl q ↦ q
      | inr (w, q) ↦
          let (k', e', same') = held-some m.key_size key (at m j) w q in
          let apart = found-apart hash valid i j k k' v w e e' (λ (h : i ≡ j). ground (arith, p)) in
          let alike =
            same_key-left m.key_size k key k' same ∙ same_key_comm m.key_size k' key same' in
          cc
    ])
  ]

  pub blank_lem :
      (m : Hashmap V) (i : ℕ) (key : List ℕ) (v : V)
      → IsValid hash m
      → lookup hash m key ≡ some (i, v)
      → IsValid hash (blank m i)
        × Updates hash m (blank m i) key none
        × ((blank m i).size + 1 ≡ m.size)
  unfolding blank
  blank_lem m i key v valid p =
      let (below, k, e, same) = lookup-at hash m key i v valid.positive p in
      let l : i < length m.slots = omega (arith, valid.width) in
      let fit : fits m.key_size k (at m i) ≡ true = rw e (same_key_refl m.key_size k) in
      (
        write-IsValid hash m i (m.size - 1) none k l fit refl valid
            (omega (arith, valid.counted, used-set-none m.slots i (k, v) e))
            (λ _ _ h. absurd (none-ne_some h))
            (λ j k' w n e'. found-apart hash valid i j k k' v w e e' n),
        updates hash m (blank m i) key none none refl
            (find-none max_chain_length (blank m i) key (hash_int hash m key)
              λ j. held-write m i j (m.size - 1) none key l ∙ gone m i j key k v valid e same)
            refl
            (λ key' h.
              write-other hash m i (m.size - 1) none k l fit refl key'
                (same_key-left m.key_size k key key' same ∙ h)),
        omega (arith, valid.counted, used-set-none m.slots i (k, v) e),
      )

  pub store_lem :
      (m : Hashmap V) (i : ℕ) (key k : List ℕ) (v w : V)
      → IsValid hash m
      → lookup hash m key ≡ some (i, v)
      → at m i ≡ some (k, v)
      → same_key m.key_size k key ≡ true
      → let m' = write m i (some (k, w)) m.size in IsValid hash m' × Updates hash m m' key (some w)
  store_lem m i key k v w valid p e same =
      let below = (lookup-at hash m key i v valid.positive p).0 in
      let l : i < length m.slots = omega (arith, valid.width) in
      let fit : fits m.key_size k (at m i) ≡ true = rw e (same_key_refl m.key_size k) in
      let after : same_key m.key_size k k ≡ true = same_key_refl m.key_size k in
      let own =
        find-store m i m.size (some (k, w)) k w l (rw after) max_chain_length (hash_int hash m k) v
          (start-lt hash m k valid.positive) (valid.found i k v e) in
      let m' = write m i (some (k, w)) m.size in
      (
        write-IsValid hash m i m.size (some (k, w)) k l fit after valid
            (omega (arith, valid.counted, used-set_same m.slots i (k, v) (k, w) e))
            (slot_own m' i k w own) (λ j k' w n e'. found-apart hash valid i j k k' v w e e' n),
        updates hash m m' key (some (i, w)) (some w) refl
            (sym (lookup-same hash m' k key same) ∙ own) refl
            (λ key' h.
              write-other hash m i m.size (some (k, w)) k l fit after key'
                (same_key-left m.key_size k key key' same ∙ h)),
      )
