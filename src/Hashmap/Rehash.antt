-- ===== src/Hashmap/Rehash.antt =====
-- Rehashing: by a function that puts as it should, every entry of the old slots gets into the new.
use owl.Base.{
  ℕ, ◌≡◌, ◌≤◌, refl, sym, ap, ◌∙◌, ◌⊎◌, inl, inr, if◌then◌else◌, Bool-cases, Option, none, some,
  List, [], ◌∷◌, arith,
}
use owl.Hashmap.{Hashmap, MapStatus, ok, omem}
use owl.Hashmap.Ops.{same_key, rehash_from}
use owl.Hashmap.Probe.{same_key_refl}
use owl.Hashmap.Scan.{or_else, scan, Apart}
use owl.Hashmap.Valid.{IsValid, view, none-ne_some}

module _ {V : Type 0} (hash : List ℕ → ℕ) where
  -- A table in place of another: sound, and not smaller.
  pub record Follows (m m' : Hashmap V) : Type 0 where
    pub valid : IsValid hash m'
    pub grown : m.table_size ≤ m'.table_size
    pub sized : m'.key_size ≡ m.key_size

  -- The operation returns. With MAP_OK the lookups are those of `good`. With MAP_OMEM each is that of
  -- `old`, or finds nothing.
  abbrev pub Returns :
      Option (Hashmap V × MapStatus)
      → Hashmap V
      → (List ℕ → Option V)
      → (List ℕ → Option V)
      → Type 0
  Returns r m good old =
      (m' : Hashmap V) × (s : MapStatus) × (r ≡ some (m', s))
      × Follows m m'
      × (((s ≡ ok) × ((key : List ℕ) → view hash m' key ≡ good key))
          ⊎ ((s ≡ omem)
              × ((key : List ℕ) → (view hash m' key ≡ none) ⊎ (view hash m' key ≡ old key))))

  abbrev pub with_entry : Hashmap V → List ℕ → V → List ℕ → Option V
  with_entry m key v key' = if same_key m.key_size key key' then some v else view hash m key'

  -- What putting a new key should do, in a table of at least `t` slots.
  abbrev pub Puts : (Hashmap V → List ℕ → V → Option (Hashmap V × MapStatus)) → ℕ → Type 0
  Puts put t =
      (m : Hashmap V) (key : List ℕ) (v : V)
      → t ≤ m.table_size
      → IsValid hash m
      → view hash m key ≡ none
      → Returns (put m key v) m (with_entry m key v) (view hash m)

  abbrev pub with_slots : ℕ → List (Option (List ℕ × V)) → Hashmap V → List ℕ → Option V
  with_slots n l m key = or_else (scan n l key) (view hash m key)

  -- No key of the slots is in the table.
  abbrev New : ℕ → List (Option (List ℕ × V)) → Hashmap V → Type 0
  New n l m = (key : List ℕ) → (scan n l key ≡ none) ⊎ (view hash m key ≡ none)

  Follows-trans : {m m' m'' : Hashmap V} → Follows m m' → Follows m' m'' → Follows m m''
  Follows-trans f g = record {
    valid = g.valid;
    grown = omega (arith, f.grown, g.grown);
    sized = g.sized ∙ f.sized;
  }

  -- What an operation returns from a later table, seen from an earlier one.
  pub Returns-after :
      {m m1 : Hashmap V} {r r' : Option (Hashmap V × MapStatus)}
      {good good' old old' : List ℕ → Option V}
      → Follows m m1
      → r' ≡ r
      → ((key : List ℕ) → good key ≡ good' key)
      → ((key : List ℕ) → old key ≡ old' key)
      → Returns r m1 good old
      → Returns r' m good' old'
  Returns-after f same g o (m2, s, e, f2, inl (done, all)) =
      (m2, s, same ∙ e, Follows-trans f f2, inl (done, λ key. all key ∙ g key))
  Returns-after {old'} f same g o (m2, s, e, f2, inr (failed, all)) = (
    m2,
    s,
    same ∙ e,
    Follows-trans f f2,
    inr (
      failed,
      λ key. elim (all key) as (λ _. (view hash m2 key ≡ none) ⊎ (view hash m2 key ≡ old' key)) [
        | inl gone ↦ inl gone
        | inr kept ↦ inr (kept ∙ o key)
      ],
    ),
  )

  module _ (n : ℕ) (m m1 : Hashmap V) (k : List ℕ) (v : V) (l : List (Option (List ℕ × V))) where
    -- After the first entry is in the table, the others are still to come.
    entry-slots :
        (key : List ℕ)
        → Apart n (some (k, v) ∷ l)
        → view hash m1 key ≡ (if same_key n k key then some v else view hash m key)
        → with_slots n l m1 key ≡ with_slots n (some (k, v) ∷ l) m key
    entry-slots key apart entry = elim (Bool-cases (same_key n k key)) [
      | inl same ↦ rw (apart.0 key same, entry, same) refl
      | inr differ ↦ rw (entry, differ) refl
    ]

    entry-New :
        (key : List ℕ)
        → Apart n (some (k, v) ∷ l)
        → view hash m1 key ≡ (if same_key n k key then some v else view hash m key)
        → (scan n (some (k, v) ∷ l) key ≡ none) ⊎ (view hash m key ≡ none)
        → (scan n l key ≡ none) ⊎ (view hash m1 key ≡ none)
    entry-New key apart entry new = elim (Bool-cases (same_key n k key)) [
      | inl same ↦ inl (apart.0 key same)
      | inr differ ↦ rw (entry, differ) (rw differ at new)
    ]

    kept-slots :
        (key : List ℕ)
        → (scan n (some (k, v) ∷ l) key ≡ none) ⊎ (view hash m key ≡ none)
        → (view hash m1 key ≡ none) ⊎ (view hash m1 key ≡ view hash m key)
        → (view hash m1 key ≡ none) ⊎ (view hash m1 key ≡ with_slots n (some (k, v) ∷ l) m key)
    kept-slots key new (inl gone) = inl gone
    kept-slots key (inr absent) (inr same) = inl (same ∙ absent)
    kept-slots key (inl first) (inr same) =
        inr (same ∙ sym (ap (λ o. or_else o (view hash m key)) first))

    first-absent : New n (some (k, v) ∷ l) m → view hash m k ≡ none
    first-absent new = elim (new k) [
      | inr absent ↦ absent
      | inl h ↦ absurd (none-ne_some (sym (rw (same_key_refl n k) at h)))
    ]

  module _ (put : Hashmap V → List ℕ → V → Option (Hashmap V × MapStatus)) (t : ℕ)
      (puts : Puts put t) where
    rehash_from-omem :
        (l : List (Option (List ℕ × V))) (m m1 : Hashmap V) (k : List ℕ) (v : V)
        → put m k v ≡ some (m1, omem)
        → rehash_from put (some (k, v) ∷ l) m ≡ some (m1, omem)
    unfolding rehash_from
    rehash_from-omem l m m1 k v e = rw (rehash_from, e) refl

    rehash_from-ok :
        (l : List (Option (List ℕ × V))) (m m1 : Hashmap V) (k : List ℕ) (v : V)
        → put m k v ≡ some (m1, ok)
        → rehash_from put (some (k, v) ∷ l) m ≡ rehash_from put l m1
    unfolding rehash_from
    rehash_from-ok l m m1 k v e = rw (rehash_from, e) refl

    pub rehash_from_lem :
        (n : ℕ) (l : List (Option (List ℕ × V))) (m : Hashmap V)
        → t ≤ m.table_size
        → m.key_size ≡ n
        → IsValid hash m
        → Apart n l
        → New n l m
        → Returns (rehash_from put l m) m (with_slots n l m) (with_slots n l m)
    unfolding rehash_from
    rehash_from_lem n [] m large size valid apart new = (
      m,
      ok,
      refl,
      record { valid = valid; grown = omega arith; sized = refl },
      inl (refl, λ key. refl),
    )
    rehash_from_lem n (none ∷ l) m large size valid apart new =
        rehash_from_lem n l m large size valid apart new
    rehash_from_lem n (some (k, v) ∷ l) m large size valid apart new =
        let (m1, s, e, f, r) = puts m k v large valid (first-absent n m m k v l new) in
        elim r [
          | inr (failed, kept) ↦ (
            m1,
            omem,
            rehash_from-omem l m m1 k v (rw failed at e),
            f,
            inr (refl, λ key. kept-slots n m m1 k v l key (new key) (kept key)),
          )
          | inl (good, entry) ↦
              let entry' = λ (key : List ℕ).
                entry key ∙ ap (λ c. if same_key c k key then some v else view hash m key) size in
              Returns-after f (rehash_from-ok l m m1 k v (rw good at e))
                (λ key. entry-slots n m m1 k v l key apart (entry' key))
                (λ key. entry-slots n m m1 k v l key apart (entry' key))
                (rehash_from_lem n l m1 (omega (arith, f.grown)) (f.sized ∙ size) f.valid apart.1
                  (λ key. entry-New n m m1 k v l key apart (entry' key) (new key)))
        ]
