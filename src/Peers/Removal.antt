-- ===== src/Peers/Removal.antt =====
-- What removing the old peers leaves, and for which peers it calls back.
use owl.Base.{
  ℕ, zero, suc, ◌+◌, ◌-◌, ◌≡◌, ◌≢◌, ◌≤◌, ◌<◌, refl, sym, ap, subst, ◌∙◌, inl, inr, ◌==◌, ==_true,
  ==_false, if◌then◌else◌, Bool, true, false, Bool-cases, Option, none, some, Option-cases, List,
  [], ◌++◌, arith, length,
}
use owl.Base.Int.{ℤ, pos, negsuc}
use owl.Hashmap.{Hashmap}
use owl.Hashmap.Ops.{at, lookup, same_key, after, blank}
use owl.Hashmap.Update.{blank_lem}
use owl.Hashmap.Valid.{IsValid, value, none-ne_some, view, lookup-at, lookup-same}
use owl.Hashmap.Write.{at-write}
use owl.Peers.Clean.{old, called, remove_from, peers_remove}
use owl.Peers.{Peer}
use owl.Peers.Walk.{
  walk_at, keep, expired_slot, expired, next-end, next-used, next-free, remove-used, from-end,
  from-young, from-old, from-same, blank-table_size, blank-key_size,
}

module _ (hash : List ℕ → ℕ) (before : ℕ) (cb : Bool) where
  -- What has been removed and reported once the walk has come from slot `i` to the end.
  abbrev pub Cleans : ℕ → Hashmap Peer → ℕ → Hashmap Peer × List Peer → Type 0
  Cleans left m i (m', calls) =
      IsValid hash m'
      × (m'.key_size ≡ m.key_size)
      × ((key : List ℕ) → view hash m' key ≡ keep before (view hash m key))
      × (calls ≡ expired cb before left m i)

  -- The slots that the walk has passed have no old peer.
  abbrev Passed : Hashmap Peer → ℕ → Type 0
  Passed m i = (j : ℕ) (k : List ℕ) (p : Peer) → j < i → at m j ≡ some (k, p) → old before p ≡ false

  all-Passed :
      (m : Hashmap Peer) (i : ℕ) (key : List ℕ)
      → IsValid hash m
      → m.table_size ≤ i
      → Passed m i
      → view hash m key ≡ keep before (view hash m key)
  all-Passed m i key valid end passed = elim (Option-cases (lookup hash m key)) [
    | inl e ↦ rw e refl
    | inr ((j, p), e) ↦
        let (below, k, at_j, _) = lookup-at hash m key j p valid.positive e in
        rw (e, passed j k p (omega arith) at_j) refl
  ]

  Passed-suc :
      (m : Hashmap Peer) (i : ℕ)
      → Passed m i
      → ((k : List ℕ) (p : Peer) → at m i ≡ some (k, p) → old before p ≡ false)
      → Passed m (i + 1)
  Passed-suc m i passed here j k p below e = elim (Bool-cases (i == j)) [
    | inl same ↦
        let same' : j ≡ i = ground (arith, same) in
        here k p (subst (λ c. at m c ≡ some (k, p)) same' e)
    | inr other ↦ passed j k p (ground (arith, other)) e
  ]

  module _ (m : Hashmap Peer) (i : ℕ) (l : i < length m.slots) where
    at-blank_other : (j : ℕ) → i ≢ j → at (blank m i) j ≡ at m j
    unfolding blank
    at-blank_other j n = at-write m i j (m.size - 1) none l ∙ rw (==_false i j n) refl

    at-blank_self : at (blank m i) i ≡ none
    unfolding blank
    at-blank_self = at-write m i i (m.size - 1) none l ∙ rw (==_true i i refl) refl

    expired-blank :
        (left j : ℕ) → i < j → expired cb before left (blank m i) j ≡ expired cb before left m j
    expired-blank zero j h = refl
    expired-blank (suc left) j h =
        ap (λ o. expired_slot cb before o ++ expired cb before left (blank m i) (j + 1))
          (at-blank_other j (λ e. omega arith))
        ∙ ap (λ r. expired_slot cb before (at m j) ++ r) (expired-blank left (j + 1) (omega arith))

    Passed-blank : Passed m i → Passed (blank m i) (i + 1)
    Passed-blank passed j k p below e = elim (Bool-cases (i == j)) [
      | inl same ↦
          let same' : j ≡ i = ground (arith, same) in
          absurd
            (none-ne_some (sym at-blank_self ∙ subst (λ c. at (blank m i) c ≡ some (k, p)) same' e))
      | inr other ↦
          passed j k p (ground (arith, other))
            (sym (at-blank_other j (λ q. ground (arith, other))) ∙ e)
    ]

  keep-blank :
      (m : Hashmap Peer) (i : ℕ) (k : List ℕ) (p : Peer) (key : List ℕ) (v : Option Peer)
      → lookup hash m k ≡ some (i, p)
      → old before p ≡ true
      → v ≡ (if same_key m.key_size k key then none else view hash m key)
      → keep before v ≡ keep before (view hash m key)
  keep-blank m i k p key v found o e = elim (Bool-cases (same_key m.key_size k key)) [
    | inr differ ↦ rw (e, differ) refl
    | inl same ↦ rw (e, same, ← ap value (sym found ∙ lookup-same hash m k key same), o) refl
  ]

  expired-used :
      (left : ℕ) (m : Hashmap Peer) (i : ℕ) (k : List ℕ) (p : Peer) (b : Bool)
      → at m i ≡ some (k, p)
      → old before p ≡ b
      → expired cb before (suc left) m i
        ≡ (if b then called cb p else []) ++ expired cb before left m (i + 1)
  expired-used left m i k p b used o = rw (used, o) refl

  -- The table and the callbacks once the old peer of slot `i` has been removed.
  old-Cleans :
      (left : ℕ) (m : Hashmap Peer) (i : ℕ) (k : List ℕ) (p : Peer) (r : Hashmap Peer × List Peer)
      → IsValid hash m
      → i < length m.slots
      → at m i ≡ some (k, p)
      → old before p ≡ true
      → Cleans left (blank m i) (i + 1) r
      → Cleans (suc left) m i (r.0, called cb p ++ r.1)
  old-Cleans left m i k p r valid l used o (v, s, w, c) =
      let found = valid.found i k p used in
      let (_, gone, _) = blank_lem hash m i k p valid found in
      (
        v,
        s ∙ blank-key_size m i,
        λ key. w key ∙ keep-blank m i k p key (view hash (blank m i) key) found o (gone key),
        ap (λ r. called cb p ++ r) (c ∙ expired-blank m i l left (i + 1) (omega arith))
            ∙ sym (expired-used left m i k p true used o),
      )

  -- The walk from the slot after `z`.
  walk :
      (left fuel : ℕ) (m : Hashmap Peer) (z : ℤ)
      → IsValid hash m
      → after z + left ≡ m.table_size
      → left < fuel
      → Passed m (after z)
      → Cleans left m (after z) (remove_from cb fuel before (walk_at m z))
  walk left zero m z valid sum enough passed = absurd (omega arith)
  walk zero (suc fuel) m z valid sum enough passed =
      subst (Cleans zero m (after z))
        (sym (from-end cb before fuel (walk_at m z) _ (next-end m z (omega arith))))
        (valid, refl, λ key. all-Passed m (after z) key valid (omega arith) passed, refl)
  walk (suc left) (suc fuel) m z valid sum enough passed = elim (Option-cases (at m (after z))) [
    | inl free ↦
        let (v, s, w, c) =
          walk left (suc fuel) m (pos (after z)) valid (omega arith) (omega arith)
            (Passed-suc m (after z) passed (λ k p e. absurd (none-ne_some (sym free ∙ e)))) in
        subst (Cleans (suc left) m (after z))
          (sym (from-same cb before fuel (walk_at m z) _ (next-free m z (omega arith) free)))
          (
            v,
            s,
            w,
            c
                ∙ sym (
                    ap (λ o. expired_slot cb before o ++ expired cb before left m (after z + 1))
                      free),
          )
    | inr ((k, p), used) ↦ elim (Bool-cases (old before p)) [
      | inr young ↦
          let (v, s, w, c) = walk left fuel m (pos (after z)) valid (omega arith) (omega arith) (
            Passed-suc m (after z) passed (λ k' q e.
              subst (λ o. elim o [ none ↦ Unit {0} | some (_, x) ↦ old before x ≡ false ])
                (sym used ∙ e) young)) in
          subst (Cleans (suc left) m (after z))
            (sym (
              from-young cb before fuel (walk_at m z) _ k p (next-used m z (omega arith) used)
                young))
            (v, s, w, c ∙ sym (expired-used left m (after z) k p false used young))
      | inl o ↦
          let l : after z < length m.slots = omega (arith, valid.width) in
          let (valid', _, _) =
            blank_lem hash m (after z) k p valid (valid.found (after z) k p used) in
          let rest =
            walk left fuel (blank m (after z)) (pos (after z)) valid'
              (omega (arith, blank-table_size m (after z))) (omega arith)
              (Passed-blank m (after z) l passed) in
          subst (Cleans (suc left) m (after z))
            (sym (
              from-old cb before fuel (walk_at m z) _ k p (next-used m z (omega arith) used) o
              ∙ ap
                  (λ it.
                    let (m', calls) = remove_from cb fuel before it in (m', called cb p ++ calls))
                  (remove-used m z (after z) (omega arith) used)))
            (old-Cleans left m (after z) k p _ valid l used o rest)
    ]
  ]

  -- Removing the old peers of a sound table leaves a sound table in which each address finds the peer
  -- it found before if that is not old, and else none; and, if there is a callback, calls it once for each
  -- old peer that is marked as valid, in the order of the slots, and for no other.
  pub peers_remove_lem :
      (m : Hashmap Peer) → IsValid hash m → Cleans m.table_size m 0 (peers_remove m before cb)
  unfolding peers_remove
  peers_remove_lem m valid =
      walk m.table_size (m.table_size + 1) m (negsuc 0) valid (omega arith) (omega arith)
        (λ j k p below. absurd (omega arith))
