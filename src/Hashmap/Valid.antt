-- ===== src/Hashmap/Valid.antt =====
-- The invariant of the hash map, that each slot in use is what a search for its key finds, and what a
-- write to a slot must meet to keep it.
use owl.Base.{
  ℕ, ◌%◌, ◌<◌, ◌≤◌, ◌≡◌, ◌≢◌, refl, sym, ap, subst, ◌∙◌, ◌⊎◌, inl, inr, ◌==◌, if◌then◌else◌, true,
  false, Bool-cases, Option, none, some, List, length, set, length-set, arith,
}
use owl.Hashmap.{Hashmap}
use owl.Hashmap.Ops.{max_chain_length, same_key, at, held, fits, find, hash_int, lookup}
use owl.Hashmap.Probe.{same_key-left, hash-same, held-same, held-some, find-agree, find-held}
use owl.Hashmap.Write.{write, at-write, held-write, used}

pub none-ne_some : {A : Type 0} {a : A} → none ≢ some a
none-ne_some e = cc

abbrev pub value : {V : Type 0} → Option (ℕ × V) → Option V
value none = none
value (some (_, v)) = some v

pub value-none : {V : Type 0} (r : Option (ℕ × V)) → value r ≡ none → r ≡ none
value-none none h = refl
value-none (some _) h = cc

module _ {V : Type 0} (hash : List ℕ → ℕ) where
  pub record IsValid (m : Hashmap V) : Type 0 where
    pub positive : 0 < m.table_size
    pub width : length m.slots ≡ m.table_size
    pub counted : used m.slots ≤ m.size
    pub found : (i : ℕ) (k : List ℕ) (v : V) → at m i ≡ some (k, v) → lookup hash m k ≡ some (i, v)

  pub start-lt :
      (m : Hashmap V) (key : List ℕ) → 0 < m.table_size → hash_int hash m key < m.table_size
  start-lt m key h = grind arith

  pub lookup-same :
      (m : Hashmap V) (a b : List ℕ)
      → same_key m.key_size a b ≡ true
      → lookup hash m a ≡ lookup hash m b
  lookup-same m a b h =
      ap (λ c. find max_chain_length m a (c % m.table_size)) (hash-same hash m.key_size a b h)
      ∙ find-agree max_chain_length m m b a (hash_int hash m b) refl
          (λ j. held-same m.key_size a b (at m j) h)

  -- Two slots in use have different keys.
  pub found-apart :
      {m : Hashmap V} (valid : IsValid m) (i j : ℕ) (k k' : List ℕ) (v v' : V)
      → at m i ≡ some (k, v)
      → at m j ≡ some (k', v')
      → i ≢ j
      → same_key m.key_size k k' ≡ false
  found-apart {m} valid i j k k' v v' p q n = elim (Bool-cases (same_key m.key_size k k')) [
    | inr e ↦ e
    | inl e ↦
        let one = valid.found i k v p in
        let two = valid.found j k' v' q in
        let eq = lookup-same m k k' e in
        absurd (n (ap (λ o. elim o [ none ↦ i | some r ↦ r.0 ]) (sym one ∙ eq ∙ two)))
  ]

  module _ (m : Hashmap V) (i n : ℕ) (s : Option (List ℕ × V)) (key : List ℕ)
      (l : i < length m.slots) (before : fits m.key_size key (at m i) ≡ true)
      (after : fits m.key_size key s ≡ true) where
    held-other :
        (key' : List ℕ) (o : Option (List ℕ × V))
        → fits m.key_size key o ≡ true
        → same_key m.key_size key key' ≡ false
        → held m.key_size key' o ≡ none
    held-other key' none f h = refl
    held-other key' (some (k, v)) f h = rw (same_key-left m.key_size k key key' f, h)

    pub write-other :
        (key' : List ℕ)
        → same_key m.key_size key key' ≡ false
        → lookup hash (write m i s n) key' ≡ lookup hash m key'
    write-other key' h =
        find-agree max_chain_length m (write m i s n) key' key' (hash_int hash m key') refl
          λ j. held-write m i j n s key' l ∙ agree j (Bool-cases (i == j))
      where
        agree :
            (j : ℕ)
            → ((i == j) ≡ true) ⊎ ((i == j) ≡ false)
            → (if i == j then held m.key_size key' s else held m.key_size key' (at m j))
              ≡ held m.key_size key' (at m j)
        agree j (inr p) = rw p
        agree j (inl p) =
            let e : j ≡ i = ground arith in
            rw (p, held-other key' s after h, e, held-other key' (at m i) before h)

    pub write-IsValid :
        IsValid m
        → used (set m.slots i s) ≤ n
        → ((k : List ℕ) (v : V) → s ≡ some (k, v) → lookup hash (write m i s n) k ≡ some (i, v))
        → ((j : ℕ) (k : List ℕ) (v : V)
            → i ≢ j
            → at m j ≡ some (k, v)
            → same_key m.key_size key k ≡ false)
        → IsValid (write m i s n)
    write-IsValid valid count here apart = record {
      positive = valid.positive;
      width = length-set m.slots i s ∙ valid.width;
      counted = count;
      found = λ j k v e. elim (Bool-cases (i == j)) [
        | inl p ↦
            let same : i ≡ j = ground arith in
            subst (λ c. lookup hash (write m i s n) k ≡ some (c, v)) same
              (here k v (sym (rw p at (at-write m i j n s l)) ∙ e))
        | inr p ↦
            let old = sym (rw p at (at-write m i j n s l)) ∙ e in
            write-other k (apart j k v (λ q. ground (arith, p)) old) ∙ valid.found j k v old
      ];
    }

  abbrev pub view : Hashmap V → List ℕ → Option V
  view m key = value (lookup hash m key)

  -- The lookups after a write for a key, by those before.
  abbrev pub Updates : Hashmap V → Hashmap V → List ℕ → Option V → Type 0
  Updates m m' key v =
      (key' : List ℕ) → view m' key' ≡ (if same_key m.key_size key key' then v else view m key')

  pub updates :
      (m m' : Hashmap V) (key : List ℕ) (r : Option (ℕ × V)) (v : Option V)
      → m'.key_size ≡ m.key_size
      → lookup hash m' key ≡ r
      → value r ≡ v
      → ((key' : List ℕ)
          → same_key m.key_size key key' ≡ false
          → lookup hash m' key' ≡ lookup hash m key')
      → Updates m m' key v
  updates m m' key r v size own p other key' = elim (Bool-cases (same_key m.key_size key key')) [
    | inr e ↦ rw (e, other key' e)
    | inl e ↦ rw e (
        ap value (sym (lookup-same m' key key' (ap (λ n. same_key n key key') size ∙ e)) ∙ own) ∙ p)
  ]

  -- What a search finds: a slot of the table, in use with the key.
  pub lookup-at :
      (m : Hashmap V) (key : List ℕ) (i : ℕ) (v : V)
      → 0 < m.table_size
      → lookup hash m key ≡ some (i, v)
      → (i < m.table_size)
        × (k : List ℕ) × (at m i ≡ some (k, v))
        × (same_key m.key_size k key ≡ true)
  lookup-at m key i v pos h =
      let (holds, l) =
        find-held max_chain_length m key (hash_int hash m key) i v h (start-lt m key pos) in
      let (k, e, same) = held-some m.key_size key (at m i) v holds in (l, k, e, same)
