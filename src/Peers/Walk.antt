-- ===== src/Peers/Walk.antt =====
-- The steps of the walk over the peers that removes the old ones.
use owl.Base.{
  ℕ, zero, suc, ◌+◌, ◌-◌, ◌≡◌, ◌≤◌, ◌<◌, refl, ap, ◌∙◌, inl, inr, leb, if◌then◌else◌, Bool, true,
  false, Bool-cases, Option, none, some, List, [], ◌++◌, arith,
}
use owl.Base.Int.{ℤ, pos}
use owl.Hashmap.{Hashmap}
use owl.Hashmap.Ops.{at, HashmapIt, after, blank, it_next, it_remove, advance}
use owl.Peers.Clean.{old, called, round, remove_from}
use owl.Peers.{Peer}

abbrev pub walk_at : Hashmap Peer → ℤ → HashmapIt Peer
walk_at m z = record { map = m; i = z }

-- A peer that is not old.
abbrev pub keep : ℕ → Option Peer → Option Peer
keep before none = none
keep before (some p) = if old before p then none else some p

abbrev pub expired_slot : Bool → ℕ → Option (List ℕ × Peer) → List Peer
expired_slot cb before none = []
expired_slot cb before (some (_, p)) = if old before p then called cb p else []

-- The peers that the callback is called for, in `left` slots from `i` on.
abbrev pub expired : Bool → ℕ → ℕ → Hashmap Peer → ℕ → List Peer
expired cb before zero m i = []
expired cb before (suc left) m i =
    expired_slot cb before (at m i) ++ expired cb before left m (i + 1)

module _ (m : Hashmap Peer) (z : ℤ) where
  pub next-end : m.table_size ≤ after z → it_next (walk_at m z) ≡ (walk_at m (pos (after z)), none)
  unfolding it_next advance
  next-end h =
      let e : m.table_size - after z ≡ 0 = omega arith in
      ap (λ n. let (i, e) = advance n m (after z) in (walk_at m (pos i), e)) e

  rounds : after z < m.table_size → m.table_size - after z ≡ suc (m.table_size - (after z + 1))
  rounds h = omega arith

  pub next-used :
      {e : List ℕ × Peer}
      → after z < m.table_size
      → at m (after z) ≡ some e
      → it_next (walk_at m z) ≡ (walk_at m (pos (after z)), some e)
  unfolding it_next advance
  next-used h used = rw (it_next, rounds h, advance, used) refl

  pub next-free :
      after z < m.table_size
      → at m (after z) ≡ none
      → it_next (walk_at m z) ≡ it_next (walk_at m (pos (after z)))
  unfolding it_next advance
  next-free h free = rw (it_next, rounds h, advance, free) refl

  pub remove-used :
      {e : List ℕ × Peer} (i : ℕ)
      → i < m.table_size
      → at m i ≡ some e
      → (it_remove (walk_at m (pos i))).0 ≡ walk_at (blank m i) (pos i)
  unfolding it_remove
  remove-used i h used = elim (Bool-cases (leb m.table_size i)) [
    | inl p ↦ absurd (ground (arith, p))
    | inr p ↦ rw (it_remove, p, used) refl
  ]

pub blank-table_size : (m : Hashmap Peer) (i : ℕ) → (blank m i).table_size ≡ m.table_size
unfolding blank
blank-table_size m i = refl

pub blank-key_size : (m : Hashmap Peer) (i : ℕ) → (blank m i).key_size ≡ m.key_size
unfolding blank
blank-key_size m i = refl

module _ (cb : Bool) (before fuel : ℕ) (it it' : HashmapIt Peer) where
  pub from-end : it_next it ≡ (it', none) → remove_from cb (suc fuel) before it ≡ (it'.map, [])
  unfolding remove_from
  from-end e = ap (round cb (remove_from cb fuel before) before) e

  pub from-young :
      (k : List ℕ) (p : Peer)
      → it_next it ≡ (it', some (k, p))
      → old before p ≡ false
      → remove_from cb (suc fuel) before it ≡ remove_from cb fuel before it'
  unfolding remove_from
  from-young k p e y = ap (round cb (remove_from cb fuel before) before) e ∙ rw (round, y) refl

  pub from-old :
      (k : List ℕ) (p : Peer)
      → it_next it ≡ (it', some (k, p))
      → old before p ≡ true
      → remove_from cb (suc fuel) before it ≡ (
          let (m, calls) = remove_from cb fuel before (it_remove it').0 in
          (m, called cb p ++ calls))
  unfolding remove_from
  from-old k p e y = ap (round cb (remove_from cb fuel before) before) e ∙ rw (round, y) refl

  pub from-same :
      it_next it ≡ it_next it'
      → remove_from cb (suc fuel) before it ≡ remove_from cb (suc fuel) before it'
  unfolding remove_from
  from-same e = ap (round cb (remove_from cb fuel before) before) e
