-- ===== src/Election/Permute.antt =====
-- The election of src/election.c does not depend on the order in which the hash map yields peers.
use mathlib.Core.List.{Perm, Permᴰ}
use mathlib.Core.Logic.{∥∥₁_elim}
use owl.Base.{
  ◌^◌, ◌-◌, ◌<◌, ◌≡◌, refl, sym, ap, ap₂, subst, ◌∙◌, inl, inr, arith, true, false, Option, none,
  some, Option-cases, List, [], ◌∷◌, All,
}
use owl.Base.Order.{is_gt, gt_irrefl}
use owl.Election.{EtherAddr, ElectionState, reset_self, is_sync_master, compare_master}
use owl.Election.Run.{eligible, master_state, consider, beats, elect, adopt, run}
use owl.Election.Rank.{
  Rank, rank, compare_rank, rank-Order, best_rank, rank-elect, best_rank_swap, consider_rank,
}
use owl.Election.Laws.{candidate, elected_from}
use owl.Peers.{Peer}

best_rank_perm :
    (s : ElectionState) {ps qs : List Peer}
    → Permᴰ ps qs
    → (k : Rank) → best_rank s k ps ≡ best_rank s k qs
unfolding best_rank
best_rank_perm s Permᴰ.nil k = refl
best_rank_perm s (Permᴰ.cons {a = p} {b = q} {l₁ = ps} {l₂ = qs} e d) k =
    ap (λ p. best_rank s (consider_rank (eligible s p) k (rank p.election)) ps) e
    ∙ best_rank_perm s d (consider_rank (eligible s q) k (rank q.election))
best_rank_perm s (Permᴰ.swap {a = p} {b = q} {a' = q'} {b' = p'} {l = l} e f) k =
    best_rank_swap s k p q l ∙ ap₂ (λ x y. best_rank s k (x ∷ y ∷ l)) f e
best_rank_perm s (Permᴰ.trans d d') k = best_rank_perm s d k ∙ best_rank_perm s d' k

All-perm {ℓ κ} : {A : Type ℓ} (P : A → Type κ) {xs ys : List A} → Permᴰ xs ys → All P xs → All P ys
All-perm P Permᴰ.nil all = tt
All-perm P (Permᴰ.cons e d) all = (subst P e all.0, All-perm P d all.1)
All-perm P (Permᴰ.swap e f) all = (subst P f all.1.0, (subst P e all.0, all.1.1))
All-perm P (Permᴰ.trans d d') all = All-perm P d' (All-perm P d all)

adopt_congr :
    (s e e' : ElectionState)
    → rank e ≡ rank e'
    → e.master_addr ≡ e'.master_addr
    → adopt s (some e) ≡ adopt s (some e')
unfolding adopt
adopt_congr s e e' r m = ground arith

ElectionState-set : IsSet ElectionState
ElectionState-set = hlevel

abbrev Agrees : (EtherAddr → EtherAddr) → Peer → Type 0
Agrees master_of p = p.election.master_addr ≡ master_of p.election.self_addr

-- The rank that the loop ends at, by whether it ends at a peer.
rank_of :
    (s : ElectionState) (ps : List Peer) (m : Option ElectionState)
    → elect s none ps ≡ m
    → rank (master_state s m) ≡ best_rank s (rank s) ps
rank_of s ps m h = ap (λ m. rank (master_state s m)) (sym h) ∙ rank-elect s none ps

-- A peer that is elected outranks the node, which is not the best candidate then.
none_or_some :
    (s : ElectionState) (ps qs : List Peer) {e : ElectionState}
    → best_rank s (rank s) ps ≡ best_rank s (rank s) qs
    → elect s none ps ≡ none
    → elect s none qs ≡ some e
    → ⊥
none_or_some s ps qs {e} best n h =
    let same : rank e ≡ rank s = rank_of s qs (some e) h ∙ sym best ∙ sym (rank_of s ps none n) in
    let above = (candidate s qs h).4 in
    cc (
      above,
      gt_irrefl compare_rank rank-Order (rank s),
      ap (λ r. is_gt (compare_rank r (rank s))) same,
    )

module _ (s : ElectionState) (master_of : EtherAddr → EtherAddr) where
  master-candidate :
      (ps : List Peer) {e : ElectionState}
      → All (Agrees master_of) ps
      → elect s none ps ≡ some e
      → e.master_addr ≡ master_of e.self_addr
  master-candidate ps all h =
      let (p, agrees, _, is, _) = elected_from (Agrees master_of) s ps none all (λ e n. cc) h in
      subst (λ (e : ElectionState). e.master_addr ≡ master_of e.self_addr) is agrees

  elect_perm :
      (ps qs : List Peer)
      → best_rank s (rank s) ps ≡ best_rank s (rank s) qs
      → All (Agrees master_of) ps
      → All (Agrees master_of) qs
      → adopt s (elect s none ps) ≡ adopt s (elect s none qs)
  elect_perm ps qs best ps-all qs-all = elim (Option-cases (elect s none ps)) [
    | inl n ↦ elim (Option-cases (elect s none qs)) [
      | inl n' ↦ rw (n, n')
      | inr (e', h') ↦ absurd (none_or_some s ps qs best n h')
    ]
    | inr (e, h) ↦ elim (Option-cases (elect s none qs)) [
      | inl n' ↦ absurd (none_or_some s qs ps (sym best) n' h)
      | inr (e', h') ↦
          let same : rank e ≡ rank e' =
            rank_of s ps (some e) h ∙ best ∙ sym (rank_of s qs (some e') h') in
          let masters : e.master_addr ≡ e'.master_addr =
            master-candidate ps ps-all h
            ∙ ap (λ (r : Rank). master_of r.1.1.1) same
            ∙ sym (master-candidate qs qs-all h') in
          rw (h, h') (adopt_congr s e e' same masters)
    ]
  ]

-- If the master that each peer reports is a function of the peer's address, as it is where the
-- addresses differ, the whole result of a run is the same for every order of the peers.
pub run_perm :
    (s : ElectionState) (master_of : EtherAddr → EtherAddr) (ps qs : List Peer)
    → Perm ps qs
    → All (Agrees master_of) ps
    → run s ps ≡ run s qs
unfolding run
run_perm s master_of ps qs perm all = ∥∥₁_elim perm (ElectionState-set _ _) λ d.
    elect_perm (reset_self s) master_of ps qs
      (best_rank_perm (reset_self s) d (rank (reset_self s))) all
      (All-perm (Agrees master_of) d all)

-- A valid peer that reports the largest height a `uint32_t` holds, and a master whose counter is
-- above the node's, is adopted in spite of the limit on the height, and the node then reports
-- the height 0, which is that of a top master.
pub run_height_wraps :
    (s : ElectionState) (p : Peer)
    → p.is_valid ≡ true
    → is_sync_master p.election s.self_addr ≡ false
    → p.election.height ≡ 2 ^ 32 - 1
    → s.self_counter < p.election.master_counter
    → ((run s (p ∷ [])).sync_addr ≡ p.election.self_addr) × ((run s (p ∷ [])).height ≡ 0)
unfolding run reset_self elect consider eligible beats adopt compare_master
run_height_wraps s p valid apart high above = ground arith
