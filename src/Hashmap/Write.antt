-- ===== src/Hashmap/Write.antt =====
-- What a write to one slot of the hash map changes for the searches.
use owl.Base.{
  ℕ, zero, suc, ◌+◌, ◌%◌, ◌<◌, ◌≤◌, ◌≡◌, refl, sym, ap, ◌∙◌, inl, inr, ◌==◌, if◌then◌else◌, false,
  Bool-cases, ==_true, ==_false, Option, none, some, Option-cases, List, [], ◌∷◌, length, get_or,
  set, get_or-set_self, get_or-set_ne, arith,
}
use owl.Hashmap.{Hashmap}
use owl.Hashmap.Ops.{at, held, fits, probe, find}
use owl.Hashmap.Probe.{
  find-hit, find-miss, find-held, probe-fits, probe-hit, probe-miss, next-lt, pair-injective,
}

module _ {V : Type 0} where
  abbrev pub write : Hashmap V → ℕ → Option (List ℕ × V) → ℕ → Hashmap V
  write m i s n = record m { slots = set m.slots i s; size = n }

  pub at-write :
      (m : Hashmap V) (i j n : ℕ) (s : Option (List ℕ × V))
      → i < length m.slots
      → at (write m i s n) j ≡ (if i == j then s else at m j)
  at-write m i j n s l = elim (Bool-cases (i == j)) [
    | inl p ↦ let e : j ≡ i = ground arith in rw (p, e) (get_or-set_self m.slots i s none l)
    | inr p ↦ rw p (get_or-set_ne m.slots i j s none (ground arith))
  ]

  pub held-write :
      (m : Hashmap V) (i j n : ℕ) (s : Option (List ℕ × V)) (key : List ℕ)
      → i < length m.slots
      → held m.key_size key (at (write m i s n) j)
        ≡ (if i == j then held m.key_size key s else held m.key_size key (at m j))
  held-write m i j n s key l = elim (Bool-cases (i == j)) [
    | inl p ↦ rw (at-write m i j n s l, p) refl
    | inr p ↦ rw (at-write m i j n s l, p) refl
  ]

  held-of-fits :
      (n : ℕ) (key : List ℕ) (s : Option (List ℕ × V)) → fits n key s ≡ false → held n key s ≡ none
  held-of-fits n key none h = refl
  held-of-fits n key (some (k, v)) h = rw h

  module _ (m : Hashmap V) (i n : ℕ) (s : Option (List ℕ × V)) (key : List ℕ) (v : V)
      (l : i < length m.slots) (e : held m.key_size key s ≡ some v) where
    hit : held m.key_size key (at (write m i s n) i) ≡ some v
    hit = held-write m i i n s key l ∙ rw (==_true i i refl) e

    -- A key is found where it has been put.
    pub find-put :
        (rounds curr : ℕ)
        → curr < m.table_size
        → probe rounds m key curr ≡ some i
        → find rounds (write m i s n) key curr ≡ some (i, v)
    unfolding probe
    find-put zero curr c h = cc
    find-put (suc rounds) curr c h = elim (Bool-cases (fits m.key_size key (at m curr))) [
      | inl p ↦
          let first = sym (probe-hit rounds m key curr p) ∙ h in
          let same : curr ≡ i = cc in rw same (find-hit rounds (write m i s n) key i hit)
      | inr p ↦
          let later = sym (probe-miss rounds m key curr p) ∙ h in
          let (fit, _) = probe-fits rounds m key ((curr + 1) % m.table_size) i later (next-lt c) in
          find-miss rounds (write m i s n) key curr (
            held-write m i curr n s key l
            ∙ rw (==_false i curr (λ q. cc)) (held-of-fits m.key_size key (at m curr) p))
          ∙ find-put rounds ((curr + 1) % m.table_size) (next-lt c) later
    ]

    -- A key that is found is found in the same slot after new data for it.
    pub find-store :
        (rounds curr : ℕ) (w : V)
        → curr < m.table_size
        → find rounds m key curr ≡ some (i, w)
        → find rounds (write m i s n) key curr ≡ some (i, v)
    unfolding find
    find-store zero curr w c h = cc
    find-store (suc rounds) curr w c h = elim (Option-cases (held m.key_size key (at m curr))) [
      | inr (x, p) ↦
          let same = (pair-injective (sym (find-hit rounds m key curr p) ∙ h)).0 in
          rw same (find-hit rounds (write m i s n) key i hit)
      | inl p ↦
          let later = sym (find-miss rounds m key curr p) ∙ h in
          let (at_i, _) =
            find-held rounds m key ((curr + 1) % m.table_size) i w later (next-lt c) in
          find-miss rounds (write m i s n) key curr
            (held-write m i curr n s key l ∙ rw (==_false i curr (λ q. cc)) p)
          ∙ find-store rounds ((curr + 1) % m.table_size) w (next-lt c) later
    ]

  -- The number of slots in use.
  abbrev pub used : List (Option (List ℕ × V)) → ℕ
  used [] = 0
  used (none ∷ l) = used l
  used (some _ ∷ l) = suc (used l)

  pub used-set-some :
      (l : List (Option (List ℕ × V))) (i : ℕ) (e : List ℕ × V)
      → used (set l i (some e)) ≤ used l + 1
  used-set-some [] i e = omega arith
  used-set-some (none ∷ l) zero e = omega arith
  used-set-some (some _ ∷ l) zero e = omega arith
  used-set-some (none ∷ l) (suc i) e = omega (arith, used-set-some l i e)
  used-set-some (some _ ∷ l) (suc i) e = omega (arith, used-set-some l i e)

  pub used-set-none :
      (l : List (Option (List ℕ × V))) (i : ℕ) (e : List ℕ × V)
      → get_or l i none ≡ some e
      → used (set l i none) + 1 ≡ used l
  used-set-none [] i e h = cc
  used-set-none (none ∷ l) zero e h = cc
  used-set-none (some _ ∷ l) zero e h = omega arith
  used-set-none (none ∷ l) (suc i) e h = omega (arith, used-set-none l i e h)
  used-set-none (some _ ∷ l) (suc i) e h = omega (arith, used-set-none l i e h)

  pub used-set_same :
      (l : List (Option (List ℕ × V))) (i : ℕ) (e f : List ℕ × V)
      → get_or l i none ≡ some e
      → used (set l i (some f)) ≡ used l
  used-set_same [] i e f h = cc
  used-set_same (none ∷ l) zero e f h = cc
  used-set_same (some _ ∷ l) zero e f h = refl
  used-set_same (none ∷ l) (suc i) e f h = used-set_same l i e f h
  used-set_same (some _ ∷ l) (suc i) e f h = ap suc (used-set_same l i e f h)
