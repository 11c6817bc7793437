-- ===== src/Hashmap/Put.antt =====
-- `hashmap_put`: its loop ends, and the new key gets into the table beside the others.
use owl.Base.{
  ℕ, zero, suc, ◌+◌, ◌*◌, ◌/◌, ◌≡◌, ◌≤◌, ◌<◌, refl, ap, ◌∙◌, inl, inr, if◌then◌else◌, leb, Bool,
  true, false, Bool-cases, Option, none, some, Option-cases, List, arith,
}
use owl.Hashmap.{Hashmap, MapStatus, ok, omem}
use owl.Hashmap.Ops.{
  max_chain_length, same_key, probe, place, granted, doubled, hash_int, hash_index, put,
  rehash_from,
}
use owl.Hashmap.Empty.{empty-IsValid, view-empty}
use owl.Hashmap.Rehash.{
  Follows, Returns, Returns-after, Puts, with_entry, with_slots, rehash_from_lem,
}
use owl.Hashmap.Scan.{or_else, scan, slots-Apart, scan-view}
use owl.Hashmap.Update.{place_lem}
use owl.Hashmap.Valid.{IsValid, view}

granted-can_alloc : (can_alloc : ℕ → Bool) (n : ℕ) → granted can_alloc n ≡ true → can_alloc n ≡ true
unfolding granted
granted-can_alloc can_alloc n h = ground arith

or_else-none_right : {V : Type 0} (o : Option V) → or_else o none ≡ o
or_else-none_right none = refl
or_else-none_right (some v) = refl

module _ {V : Type 0} (hash : List ℕ → ℕ) where
  index-probe :
      (m : Hashmap V) (key : List ℕ) (i : ℕ)
      → hash_index hash m key ≡ some i
      → probe max_chain_length m key (hash_int hash m key) ≡ some i
  unfolding hash_index
  index-probe m key i h = elim (Bool-cases (leb (m.table_size / 2) m.size)) [
    | inl full ↦ cc (rw full at h)
    | inr room ↦ rw room at h
  ]

  module _ (can_alloc : ℕ → Bool) where
    put-index :
        (fuel : ℕ) (m : Hashmap V) (key : List ℕ) (v : V) (i : ℕ)
        → hash_index hash m key ≡ some i
        → put hash can_alloc (suc fuel) m key v ≡ some (place m i key v, ok)
    unfolding put
    put-index fuel m key v i e = rw (put, e) refl

    put-refused :
        (fuel : ℕ) (m : Hashmap V) (key : List ℕ) (v : V)
        → hash_index hash m key ≡ none
        → granted can_alloc (2 * m.table_size) ≡ false
        → put hash can_alloc (suc fuel) m key v ≡ some (m, omem)
    unfolding put
    put-refused fuel m key v e c = rw (put, e, c) refl

    put-omem :
        (fuel : ℕ) (m m' : Hashmap V) (key : List ℕ) (v : V)
        → hash_index hash m key ≡ none
        → granted can_alloc (2 * m.table_size) ≡ true
        → rehash_from (put hash can_alloc fuel) m.slots (doubled m) ≡ some (m', omem)
        → put hash can_alloc (suc fuel) m key v ≡ some (m', omem)
    unfolding put
    put-omem fuel m m' key v e c r = rw (put, e, c, r) refl

    put-again :
        (fuel : ℕ) (m m' : Hashmap V) (key : List ℕ) (v : V)
        → hash_index hash m key ≡ none
        → granted can_alloc (2 * m.table_size) ≡ true
        → rehash_from (put hash can_alloc fuel) m.slots (doubled m) ≡ some (m', ok)
        → put hash can_alloc (suc fuel) m key v ≡ put hash can_alloc fuel m' key v
    unfolding put
    put-again fuel m m' key v e c r = rw (put, e, c, r) refl

    slots-view :
        (m : Hashmap V) (key : List ℕ)
        → IsValid hash m
        → with_slots hash m.key_size m.slots (doubled m) key ≡ view hash m key
    unfolding doubled
    slots-view m key valid =
        ap (or_else (scan m.key_size m.slots key))
          (view-empty V hash (2 * m.table_size) m.key_size key)
        ∙ or_else-none_right (scan m.key_size m.slots key)
        ∙ scan-view hash m key valid

    rehash_lem :
        (put' : Hashmap V → List ℕ → V → Option (Hashmap V × MapStatus)) (m : Hashmap V)
        → Puts hash put' (2 * m.table_size)
        → IsValid hash m
        → Returns hash
            (rehash_from put' m.slots (doubled m))
            (doubled m)
            (view hash m)
            (view hash m)
    unfolding doubled
    rehash_lem put' m puts valid =
        Returns-after hash
          (record {
            valid =
                empty-IsValid V hash (2 * m.table_size) m.key_size (omega (arith, valid.positive));
            grown = omega arith;
            sized = refl;
          })
          refl (λ key. slots-view m key valid) (λ key. slots-view m key valid)
          (rehash_from_lem hash put' (2 * m.table_size) puts m.key_size m.slots (doubled m)
            (omega arith) refl
            (empty-IsValid V hash (2 * m.table_size) m.key_size (omega (arith, valid.positive)))
            (slots-Apart hash m valid)
            (λ key. inr (view-empty V hash (2 * m.table_size) m.key_size key)))

    doubled-Follows : {m m1 : Hashmap V} → Follows hash (doubled m) m1 → Follows hash m m1
    unfolding doubled
    doubled-Follows f = record { valid = f.valid; grown = omega (arith, f.grown); sized = f.sized }

    doubled-large :
        (m m1 : Hashmap V) → Follows hash (doubled m) m1 → 2 * m.table_size ≤ m1.table_size
    unfolding doubled
    doubled-large m m1 f = f.grown

    same-entry :
        (m m1 : Hashmap V) (key : List ℕ) (v : V)
        → m1.key_size ≡ m.key_size
        → ((k : List ℕ) → view hash m1 k ≡ view hash m k)
        → (key' : List ℕ) → with_entry hash m1 key v key' ≡ with_entry hash m key v key'
    same-entry m m1 key v size same key' =
        ap (λ n. if same_key n key key' then some v else view hash m1 key') size
        ∙ ap (λ o. if same_key m.key_size key key' then some v else o) (same key')

    -- If no more than `bound` slots can be allocated, putting a key that is not there ends. With
    -- MAP_OK the key finds its data, and every other key what it found before. With MAP_OMEM every
    -- key finds what it found before or nothing. In both cases the table is sound.
    pub put_lem :
        (bound : ℕ) (limited : (n : ℕ) → can_alloc n ≡ true → n ≤ bound) (fuel : ℕ) (m : Hashmap V)
        (key : List ℕ) (v : V)
        → 0 < fuel
        → bound < fuel + m.table_size
        → IsValid hash m
        → view hash m key ≡ none
        → Returns hash (put hash can_alloc fuel m key v) m (with_entry hash m key v) (view hash m)
    unfolding place
    put_lem bound limited zero m key v pos enough valid absent = elim pos [ ]
    put_lem bound limited (suc fuel) m key v pos enough valid absent =
        elim (Option-cases (hash_index hash m key)) [
          | inr (i, e) ↦
              let (valid', entry) = place_lem hash m i key v valid absent (index-probe m key i e) in
              (
                place m i key v,
                ok,
                put-index fuel m key v i e,
                record { valid = valid'; grown = omega arith; sized = refl },
                inl (refl, entry),
              )
          | inl e ↦ elim (Bool-cases (granted can_alloc (2 * m.table_size))) [
            | inr c ↦ (
              m,
              omem,
              put-refused fuel m key v e c,
              record { valid = valid; grown = omega arith; sized = refl },
              inr (refl, λ _. inr refl),
            )
            | inl c ↦
                let fits =
                  limited (2 * m.table_size) (granted-can_alloc can_alloc (2 * m.table_size) c) in
                let puts =
                  λ (n : Hashmap V) (k : List ℕ) (w : V) (large : 2 * m.table_size ≤ n.table_size)
                      (sound : IsValid hash n) (new : view hash n k ≡ none).
                    put_lem bound limited fuel n k w (omega (arith, valid.positive))
                      (omega (arith, valid.positive)) sound new in
                let (m1, s, run, f, r) = rehash_lem (put hash can_alloc fuel) m puts valid in
                elim r [
                  | inr (failed, kept) ↦ (
                    m1,
                    omem,
                    put-omem fuel m m1 key v e c (rw failed at run),
                    doubled-Follows f,
                    inr (refl, kept),
                  )
                  | inl (good, same) ↦
                      Returns-after hash (doubled-Follows f)
                        (put-again fuel m m1 key v e c (rw good at run))
                        (same-entry m m1 key v (doubled-Follows f).sized same) same
                        (put_lem bound limited fuel m1 key v (omega (arith, valid.positive))
                          (omega (arith, doubled-large m m1 f, valid.positive)) f.valid
                          (same key ∙ absent))
                ]
          ]
        ]
