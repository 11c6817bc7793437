-- ===== src/Hashmap/Ops.antt =====
-- src/hashmap.c: the operations of the hash map.
use owl.Base.{
  ℕ, zero, suc, ◌+◌, ◌-◌, ◌*◌, ◌/◌, ◌%◌, ◌^◌, ◌&&◌, leb, ltb, if◌then◌else◌, Bool, true, false,
  Option, none, some, List, [], ◌∷◌, take, replicate, set, get_or,
}
use owl.Base.Int.{ℤ, pos, negsuc}
use owl.Base.Order.{memcmp, is_eq}
use owl.Hashmap.{Hashmap, MapStatus, ok, omem, missing}

abbrev pub max_chain_length : ℕ
max_chain_length = 8

abbrev pub same_key : ℕ → List ℕ → List ℕ → Bool
same_key n a b = is_eq (memcmp (take n a) (take n b))

pub record HashmapIt (V : Type 0) : Type 0 where
  pub map : Hashmap V
  -- -1 before the first step
  pub i : ℤ

-- `calloc` takes twice the number of slots, an `int`: from 2^31 on this is a negative number, which
-- as a `size_t` is more than it can grant.
unfoldable pub granted : (ℕ → Bool) → ℕ → Bool
granted can_alloc n = ltb n (2 ^ 31) && can_alloc n

abbrev pub after : ℤ → ℕ
after (pos i) = i + 1
after (negsuc _) = 0

module _ {V : Type 0} where
  abbrev pub at : Hashmap V → ℕ → Option (List ℕ × V)
  at m i = get_or m.slots i none

  -- The data of a slot, if it is in use with a key.
  abbrev pub held : ℕ → List ℕ → Option (List ℕ × V) → Option V
  held n key none = none
  held n key (some (k, v)) = if same_key n k key then some v else none

  -- The two tests at which `hashmap_hash` returns a slot.
  abbrev pub fits : ℕ → List ℕ → Option (List ℕ × V) → Bool
  fits n key none = true
  fits n key (some (k, v)) = same_key n k key

  -- The loop of `hashmap_hash`, by the rounds left.
  unfoldable pub probe : ℕ → Hashmap V → List ℕ → ℕ → Option ℕ
  probe zero m key curr = none
  probe (suc rounds) m key curr = elim (fits m.key_size key (at m curr)) [
    | true ↦ some curr
    | false ↦ probe rounds m key ((curr + 1) % m.table_size)
  ]

  -- The loop of `hashmap_get`: the slot of the key and its data.
  unfoldable pub find : ℕ → Hashmap V → List ℕ → ℕ → Option (ℕ × V)
  find zero m key curr = none
  find (suc rounds) m key curr = elim (held m.key_size key (at m curr)) [
    | some v ↦ some (curr, v)
    | none ↦ find rounds m key ((curr + 1) % m.table_size)
  ]

  -- What `hashmap_put` writes.
  unfoldable pub place : Hashmap V → ℕ → List ℕ → V → Hashmap V
  place m i key v = record m { slots = set m.slots i (some (key, v)); size = m.size + 1 }

  -- What `hashmap_get` and `hashmap_it_remove` do to a slot in use: `size` counts it.
  unfoldable pub blank : Hashmap V → ℕ → Hashmap V
  blank m i = record m { slots = set m.slots i none; size = m.size - 1 }

  -- The table that `hashmap_rehash` starts with: twice as many slots, zeroed by `calloc`.
  unfoldable pub doubled : Hashmap V → Hashmap V
  doubled m = record m {
    table_size = 2 * m.table_size;
    size = 0;
    slots = replicate (2 * m.table_size) none;
  }

  -- The loop of `hashmap_rehash` over the old slots, by the function that puts.
  unfoldable pub rehash_from :
      (Hashmap V → List ℕ → V → Option (Hashmap V × MapStatus))
      → List (Option (List ℕ × V))
      → Hashmap V
      → Option (Hashmap V × MapStatus)
  rehash_from put [] m = some (m, ok)
  rehash_from put (none ∷ curr) m = rehash_from put curr m
  rehash_from put (some (key, v) ∷ curr) m = elim (put m key v) [
    | none ↦ none
    | some (m', ok) ↦ rehash_from put curr m'
    | some (m', status) ↦ some (m', status)
  ]

  unfoldable pub it_new : Hashmap V → HashmapIt V
  it_new m = record { map = m; i = negsuc 0 }

  -- The loop of `hashmap_it_next`, by the slots left.
  unfoldable pub advance : ℕ → Hashmap V → ℕ → ℕ × Option (List ℕ × V)
  advance zero m i = (i, none)
  advance (suc left) m i = elim (at m i) [ some e ↦ (i, some e) | none ↦ advance left m (i + 1) ]

  -- The key and the value where the code returns MAP_OK.
  unfoldable pub it_next : HashmapIt V → HashmapIt V × Option (List ℕ × V)
  unfolding advance
  it_next it =
      let (i, e) = advance (it.map.table_size - after it.i) it.map (after it.i) in
      (record it { i = pos i }, e)

  unfoldable pub it_remove : HashmapIt V → HashmapIt V × MapStatus
  unfolding blank
  it_remove it = elim it.i [
    | negsuc _ ↦ (it, missing)
    | pos i ↦ if leb it.map.table_size i then (it, missing) else elim (at it.map i) [
      | none ↦ (it, missing)
      | some _ ↦ (record it { map = blank it.map i }, ok)
    ]
  ]

-- `hash` is siphash24 with the zero seed.
module _ {V : Type 0} (hash : List ℕ → ℕ) where
  abbrev pub hash_int : Hashmap V → List ℕ → ℕ
  hash_int m key = hash (take m.key_size key) % m.table_size

  -- `hashmap_hash`: `none` is MAP_FULL.
  unfoldable pub hash_index : Hashmap V → List ℕ → Option ℕ
  unfolding probe
  hash_index m key =
      if leb (m.table_size / 2) m.size then none else probe max_chain_length m key (hash_int m key)

  abbrev pub lookup : Hashmap V → List ℕ → Option (ℕ × V)
  lookup m key = find max_chain_length m key (hash_int m key)

  unfoldable pub get : Hashmap V → List ℕ → Bool → Hashmap V × MapStatus × Option V
  unfolding find blank
  get m key remove = elim (lookup m key) [
    | none ↦ (m, missing, none)
    | some (i, v) ↦ (if remove then blank m i else m, ok, some v)
  ]

  -- `hashmap_put` with its loop, and `hashmap_rehash`, on fuel: each round makes the table larger.
  -- `none` means that the fuel ran out. `can_alloc` says for how many slots `calloc` finds memory.
  unfoldable pub put : (ℕ → Bool) → ℕ → Hashmap V → List ℕ → V → Option (Hashmap V × MapStatus)
  unfolding hash_index place doubled rehash_from
  put can_alloc zero m key v = none
  put can_alloc (suc fuel) m key v = elim (hash_index m key) [
    | some i ↦ some (place m i key v, ok)
    | none ↦ elim (granted can_alloc (2 * m.table_size)) [
      | false ↦ some (m, omem)
      | true ↦ elim (rehash_from (put can_alloc fuel) m.slots (doubled m)) [
        | none ↦ none
        | some (m', omem) ↦ some (m', omem)
        | some (m', _) ↦ put can_alloc fuel m' key v
      ]
    ]
  ]
