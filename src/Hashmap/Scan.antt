-- ===== src/Hashmap/Scan.antt =====
-- The lookups of a hash map, by its slots from the first on: what rehashing goes through.
use owl.Base.{
  ℕ, zero, suc, ◌≡◌, ◌≢◌, refl, sym, ap, ◌∙◌, inl, inr, true, false, Option, none, some,
  Option-cases, List, [], ◌∷◌, get_or, arith,
}
use owl.Hashmap.{Hashmap}
use owl.Hashmap.Ops.{max_chain_length, same_key, held, hash_int}
use owl.Hashmap.Probe.{same_key-left, same_key_comm, held-some, find-none}
use owl.Hashmap.Valid.{IsValid, value, view, lookup-same, found-apart}

module _ {V : Type 0} where
  abbrev pub or_else : Option V → Option V → Option V
  or_else none o = o
  or_else (some v) o = some v

  or_else-none : (a b : Option V) → or_else a b ≡ none → (a ≡ none) × (b ≡ none)
  or_else-none none b h = (refl, h)
  or_else-none (some _) b h = cc

  -- The data of the first slot with a key.
  abbrev pub scan : ℕ → List (Option (List ℕ × V)) → List ℕ → Option V
  scan n [] key = none
  scan n (s ∷ l) key = or_else (held n key s) (scan n l key)

  -- No key stands in two slots.
  abbrev pub Apart : ℕ → List (Option (List ℕ × V)) → Type 0
  Apart n [] = Unit
  Apart n (none ∷ l) = Apart n l
  Apart n (some (k, _) ∷ l) =
      ((key : List ℕ) → same_key n k key ≡ true → scan n l key ≡ none) × Apart n l

  scan-some :
      (n : ℕ) (l : List (Option (List ℕ × V))) (key : List ℕ) (v : V)
      → scan n l key ≡ some v
      → (j : ℕ) × (k : List ℕ) × (get_or l j none ≡ some (k, v)) × (same_key n k key ≡ true)
  scan-some n [] key v h = cc
  scan-some n (s ∷ l) key v h = elim (Option-cases (held n key s)) [
    | inl p ↦ let (j, k, e, same) = scan-some n l key v (rw p at h) in (suc j, k, e, same)
    | inr (w, p) ↦ let (k, e, same) = held-some n key s v (p ∙ rw p at h) in (0, k, e, same)
  ]

  scan-none :
      (n : ℕ) (l : List (Option (List ℕ × V))) (key : List ℕ)
      → scan n l key ≡ none
      → (j : ℕ) → held n key (get_or l j none) ≡ none
  scan-none n [] key h j = refl
  scan-none n (s ∷ l) key h zero = (or_else-none (held n key s) (scan n l key) h).0
  scan-none n (s ∷ l) key h (suc j) =
      scan-none n l key (or_else-none (held n key s) (scan n l key) h).1 j

  Unique : ℕ → List (Option (List ℕ × V)) → Type 0
  Unique n l =
      (i j : ℕ) (k k' : List ℕ) (v v' : V)
      → get_or l i none ≡ some (k, v)
      → get_or l j none ≡ some (k', v')
      → i ≢ j
      → same_key n k k' ≡ false

  Unique-Apart : (n : ℕ) (l : List (Option (List ℕ × V))) → Unique n l → Apart n l
  unfolding Unique
  Unique-Apart n [] u = tt
  Unique-Apart n (none ∷ l) u =
      Unique-Apart n l
        (λ i j k k' v v' p q d. u (suc i) (suc j) k k' v v' p q (λ e. d (omega arith)))
  Unique-Apart n (some (k, v) ∷ l) u = (
    λ key same. elim (Option-cases (scan n l key)) [
      | inl e ↦ e
      | inr (w, e) ↦
          let (j, k', at_j, same') = scan-some n l key w e in
          let differ = u 0 (suc j) k k' v w refl at_j (λ (h : 0 ≡ suc j). omega arith) in
          let alike = same_key-left n k key k' same ∙ same_key_comm n k' key same' in cc
    ],
    Unique-Apart n l
        (λ i j k k' v v' p q d. u (suc i) (suc j) k k' v v' p q (λ e. d (omega arith))),
  )

  pub slots-Apart : (hash : List ℕ → ℕ) (m : Hashmap V) → IsValid hash m → Apart m.key_size m.slots
  unfolding Unique
  slots-Apart hash m valid =
      Unique-Apart m.key_size m.slots (λ i j k k' v v'. found-apart hash valid i j k k' v v')

  -- The lookups are those of the slots in their order.
  pub scan-view :
      (hash : List ℕ → ℕ) (m : Hashmap V) (key : List ℕ)
      → IsValid hash m
      → scan m.key_size m.slots key ≡ view hash m key
  scan-view hash m key valid = elim (Option-cases (scan m.key_size m.slots key)) [
    | inr (v, e) ↦
        let (j, k, at_j, same) = scan-some m.key_size m.slots key v e in
        e ∙ sym (ap value (sym (lookup-same hash m k key same) ∙ valid.found j k v at_j))
    | inl e ↦
        e
        ∙ sym (
            ap value (
              find-none max_chain_length m key (hash_int hash m key)
                (scan-none m.key_size m.slots key e)))
  ]
