-- ===== src/Hashmap/Probe.antt =====
-- What the probes of the hash map find, before and after a write to a slot.
use owl.Base.{
  ℕ, zero, suc, ◌+◌, ◌%◌, ◌<◌, ◌≡◌, refl, sym, ap, ◌∙◌, inl, inr, true, false, Bool-cases, Option,
  none, some, Option-cases, List, take, arith,
}
use owl.Base.Order.{memcmp, memcmp-Order, memcmp_refl, is_eq}
use owl.Hashmap.{Hashmap}
use owl.Hashmap.Ops.{same_key, at, held, fits, probe, find}

is_eq-true : (n : ℕ) (a b : List ℕ) → same_key n a b ≡ true → take n a ≡ take n b
is_eq-true n a b h = memcmp-Order.same (take n a) (take n b) (ground (arith))

pub same_key_refl : (n : ℕ) (a : List ℕ) → same_key n a a ≡ true
same_key_refl n a = rw (memcmp_refl (take n a))

-- Keys that are the same are the same to every test.
pub same_key-left :
    (n : ℕ) (a b c : List ℕ) → same_key n a b ≡ true → same_key n a c ≡ same_key n b c
same_key-left n a b c h = ap (λ k. is_eq (memcmp k (take n c))) (is_eq-true n a b h)

same_key-right : (n : ℕ) (a b c : List ℕ) → same_key n a b ≡ true → same_key n c a ≡ same_key n c b
same_key-right n a b c h = ap (λ k. is_eq (memcmp (take n c) k)) (is_eq-true n a b h)

pub same_key_comm : (n : ℕ) (a b : List ℕ) → same_key n a b ≡ true → same_key n b a ≡ true
same_key_comm n a b h = sym (same_key-left n a b a h) ∙ same_key_refl n a

pub hash-same :
    (hash : List ℕ → ℕ) (n : ℕ) (a b : List ℕ)
    → same_key n a b ≡ true
    → hash (take n a) ≡ hash (take n b)
hash-same hash n a b h = ap hash (is_eq-true n a b h)

pub next-lt : {curr n : ℕ} → curr < n → (curr + 1) % n < n
next-lt l = grind arith

module _ {V : Type 0} where
  pub pair-injective :
      {i j : ℕ} {v w : V}
      → ◌≡◌ {A = Option (ℕ × V)} (some (i, v)) (some (j, w))
      → (i ≡ j) × (some v ≡ some w)
  pair-injective {i} e = (
    ap (λ o. elim o [ none ↦ i | some p ↦ p.0 ]) e,
    ap (λ o. elim o as (λ _. Option V) [ none ↦ none | some p ↦ some p.1 ]) e,
  )

  pub held-same :
      (n : ℕ) (a b : List ℕ) (s : Option (List ℕ × V))
      → same_key n a b ≡ true
      → held n a s ≡ held n b s
  held-same n a b none h = refl
  held-same n a b (some (k, v)) h = rw (same_key-right n a b k h)

  pub find-hit :
      (rounds : ℕ) (m : Hashmap V) (key : List ℕ) (curr : ℕ) {v : V}
      → held m.key_size key (at m curr) ≡ some v
      → find (suc rounds) m key curr ≡ some (curr, v)
  unfolding find
  find-hit rounds m key curr e = rw (find, e) refl

  pub find-miss :
      (rounds : ℕ) (m : Hashmap V) (key : List ℕ) (curr : ℕ)
      → held m.key_size key (at m curr) ≡ none
      → find (suc rounds) m key curr ≡ find rounds m key ((curr + 1) % m.table_size)
  unfolding find
  find-miss rounds m key curr e = rw (find, e) refl

  pub probe-hit :
      (rounds : ℕ) (m : Hashmap V) (key : List ℕ) (curr : ℕ)
      → fits m.key_size key (at m curr) ≡ true
      → probe (suc rounds) m key curr ≡ some curr
  unfolding probe
  probe-hit rounds m key curr e = rw (probe, e) refl

  pub probe-miss :
      (rounds : ℕ) (m : Hashmap V) (key : List ℕ) (curr : ℕ)
      → fits m.key_size key (at m curr) ≡ false
      → probe (suc rounds) m key curr ≡ probe rounds m key ((curr + 1) % m.table_size)
  unfolding probe
  probe-miss rounds m key curr e = rw (probe, e) refl

  -- Searches agree where the slots hold the same.
  pub find-agree :
      (rounds : ℕ) (m m' : Hashmap V) (a b : List ℕ) (curr : ℕ)
      → m'.table_size ≡ m.table_size
      → ((j : ℕ) → held m'.key_size b (at m' j) ≡ held m.key_size a (at m j))
      → find rounds m' b curr ≡ find rounds m a curr
  unfolding find
  find-agree zero m m' a b curr e h = refl
  find-agree (suc rounds) m m' a b curr e h = elim (Option-cases (held m.key_size a (at m curr))) [
    | inr (v, p) ↦ find-hit rounds m' b curr (h curr ∙ p) ∙ sym (find-hit rounds m a curr p)
    | inl p ↦
        find-miss rounds m' b curr (h curr ∙ p)
        ∙ ap (λ n. find rounds m' b ((curr + 1) % n)) e
        ∙ find-agree rounds m m' a b ((curr + 1) % m.table_size) e h
        ∙ sym (find-miss rounds m a curr p)
  ]

  pub find-none :
      (rounds : ℕ) (m : Hashmap V) (key : List ℕ) (curr : ℕ)
      → ((j : ℕ) → held m.key_size key (at m j) ≡ none)
      → find rounds m key curr ≡ none
  unfolding find
  find-none zero m key curr h = refl
  find-none (suc rounds) m key curr h =
      find-miss rounds m key curr (h curr) ∙ find-none rounds m key ((curr + 1) % m.table_size) h

  -- What a search finds, its slot holds.
  pub find-held :
      (rounds : ℕ) (m : Hashmap V) (key : List ℕ) (curr i : ℕ) (v : V)
      → find rounds m key curr ≡ some (i, v)
      → curr < m.table_size
      → (held m.key_size key (at m i) ≡ some v) × (i < m.table_size)
  unfolding find
  find-held zero m key curr i v h l = cc
  find-held (suc rounds) m key curr i v h l =
      elim (Option-cases (held m.key_size key (at m curr))) [
        | inr (w, p) ↦
            let e = sym (find-hit rounds m key curr p) ∙ h in
            (
              rw (← (pair-injective e).0) (p ∙ (pair-injective e).1),
              omega (arith, (pair-injective e).0),
            )
        | inl p ↦
            find-held rounds m key ((curr + 1) % m.table_size) i v
              (sym (find-miss rounds m key curr p) ∙ h) (next-lt l)
      ]

  pub held-some :
      (n : ℕ) (key : List ℕ) (s : Option (List ℕ × V)) (v : V)
      → held n key s ≡ some v
      → (k : List ℕ) × (s ≡ some (k, v)) × (same_key n k key ≡ true)
  held-some n key none v h = cc
  held-some n key (some (k, w)) v h = elim (Bool-cases (same_key n k key)) [
    | inl p ↦ (k, ap (λ o. elim o [ none ↦ some (k, w) | some x ↦ some (k, x) ]) (rw p at h), p)
    | inr p ↦ cc (rw p at h)
  ]

  pub probe-fits :
      (rounds : ℕ) (m : Hashmap V) (key : List ℕ) (curr i : ℕ)
      → probe rounds m key curr ≡ some i
      → curr < m.table_size
      → (fits m.key_size key (at m i) ≡ true) × (i < m.table_size)
  unfolding probe
  probe-fits zero m key curr i h l = cc
  probe-fits (suc rounds) m key curr i h l = elim (Bool-cases (fits m.key_size key (at m curr))) [
    | inl p ↦
        let e = sym (probe-hit rounds m key curr p) ∙ h in
        let same : curr ≡ i = cc in (rw (← same) p, omega arith)
    | inr p ↦
        probe-fits rounds m key ((curr + 1) % m.table_size) i
          (sym (probe-miss rounds m key curr p) ∙ h) (next-lt l)
  ]
