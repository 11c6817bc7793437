-- ===== src/Election/Laws.antt =====
-- What `awdl_election_run` of src/election.c guarantees.
use mathlib.Core.List.{Memᴰ}
use owl.Base.{
  ◌+◌, ◌%◌, ◌^◌, ◌≤◌, ◌≡◌, refl, sym, ap, subst, ◌∙◌, ◌⊎◌, inl, inr, arith, true, false, Bool-cases,
  Option, none, some, Option-cases, List, [], ◌∷◌, All,
}
use owl.Base.Order.{is_gt, gt_irrefl, gt_asymm, gt_trans_ge}
use owl.Election.{ElectionState, tree_max_height, is_sync_master, reset_self}
use owl.Election.Run.{eligible, beats, master_state, consider, elect, adopt, run}
use owl.Election.Rank.{
  rank, compare_rank, rank-Order, beats-eq-gt, rank-elect, NotAbove, best_rank_ge,
  best_rank_ge_start,
}
use owl.Peers.{Peer}

-- One round keeps the candidate, or takes the peer, which is eligible and beats it.
consider_cases :
    (s : ElectionState) (m : Option ElectionState) (p : Peer) {e : ElectionState}
    → consider s m p ≡ some e
    → (m ≡ some e)
      ⊎ ((eligible s p ≡ true) × (p.election ≡ e) × (beats p.election (master_state s m) ≡ true))
unfolding consider
consider_cases s m p h = elim (Bool-cases (eligible s p)) [
  | inr f ↦ inl (rw f at h)
  | inl el ↦ elim (Bool-cases (beats p.election (master_state s m))) [
    | inr f ↦ inl (rw (el, f) at h)
    | inl b ↦ inr (el, cc (rw (el, b) at h), b)
  ]
]

-- A candidate of the loop that begins without one: from the list, eligible, and above the node.
module _ {ℓ} (P : Peer → Type ℓ) (s : ElectionState) where
  abbrev IsCandidate : ElectionState → Type ℓ
  IsCandidate e =
      (p : Peer) × P p
      × (eligible s p ≡ true)
      × (p.election ≡ e)
      × (is_gt (compare_rank (rank e) (rank s)) ≡ true)

  start_ge :
      (m : Option ElectionState)
      → ((e : ElectionState) → m ≡ some e → IsCandidate e)
      → NotAbove (rank s) (rank (master_state s m))
  start_ge none start = gt_irrefl compare_rank rank-Order (rank s)
  start_ge (some e) start = gt_asymm compare_rank rank-Order (rank e) (rank s) (start e refl).4

  pub elected_from :
      (ps : List Peer) (m : Option ElectionState) {e : ElectionState}
      → All P ps
      → ((e : ElectionState) → m ≡ some e → IsCandidate e)
      → elect s m ps ≡ some e
      → IsCandidate e
  unfolding elect
  elected_from [] m {e} all start h = start e h
  elected_from (p ∷ ps) m all start h =
      elected_from ps (consider s m p) all.1 (λ e c. step e (consider_cases s m p c)) h
    where
      step :
          (e : ElectionState)
          → (m ≡ some e)
            ⊎ ((eligible s p ≡ true)
                × (p.election ≡ e)
                × (beats p.election (master_state s m) ≡ true))
          → IsCandidate e
      step e (inl same) = start e same
      step e (inr (el, is, b)) = (
        p,
        all.0,
        el,
        is,
        gt_trans_ge compare_rank rank-Order (rank e) (rank (master_state s m)) (rank s)
            (sym (ap (λ e. is_gt (compare_rank (rank e) (rank (master_state s m)))) is)
              ∙ sym (beats-eq-gt p.election (master_state s m))
              ∙ b)
            (start_ge m start),
      )

-- The state that the loop of a run ends at: the node's own, reset, or a peer's.
abbrev pub elected : ElectionState → List Peer → ElectionState
elected s ps = master_state (reset_self s) (elect (reset_self s) none ps)

All-imp {ℓ κ λ'} :
    {A : Type ℓ} {P : A → Type κ} {Q : A → Type λ'} (xs : List A)
    → ((a : A) → P a → Q a)
    → All P xs
    → All Q xs
All-imp [] f all = tt
All-imp (x ∷ xs) f all = (f x all.0, All-imp xs f all.1)

All-Memᴰ {ℓ} : {A : Type ℓ} (xs : List A) → All (λ x. Memᴰ x xs) xs
All-Memᴰ [] = tt
All-Memᴰ (x ∷ xs) = (Memᴰ.head refl, All-imp xs (λ a m. Memᴰ.tail m) (All-Memᴰ xs))

pub candidate :
    (s : ElectionState) (ps : List Peer) {e : ElectionState}
    → elect s none ps ≡ some e
    → IsCandidate (λ p. Memᴰ p ps) s e
candidate s ps h = elected_from (λ p. Memᴰ p ps) s ps none (All-Memᴰ ps) (λ e n. cc) h

-- The state that the loop ends at is best: its rank (counter of the master, then metric, then
-- lower height, then address) is not below the node's own, and not below that of any eligible
-- peer.
pub elected_best :
    (s : ElectionState) (ps : List Peer)
    → NotAbove (rank (reset_self s)) (rank (elected s ps))
      × All
          (λ p. eligible (reset_self s) p ≡ true → NotAbove (rank p.election) (rank (elected s ps)))
          ps
elected_best s ps =
    let s' = reset_self s in
    subst
      (λ r.
        NotAbove (rank s') r × All (λ p. eligible s' p ≡ true → NotAbove (rank p.election) r) ps)
      (sym (rank-elect s' none ps))
      (best_rank_ge_start s' ps (rank s'), best_rank_ge s' ps (rank s'))

eligible_facts :
    (s : ElectionState) (p : Peer)
    → eligible s p ≡ true
    → (p.is_valid ≡ true)
      × ((p.election.height + 1) % 2 ^ 32 ≤ tree_max_height)
      × (is_sync_master p.election s.self_addr ≡ false)
unfolding eligible
eligible_facts s p h = ground arith

-- What a run that follows peer `p` takes from it.
pub record Follows (s' : ElectionState) (p : Peer) : Type 0 where
  pub sync_addr : s'.sync_addr ≡ p.election.self_addr
  pub master_addr : s'.master_addr ≡ p.election.master_addr
  pub master_metric : s'.master_metric ≡ p.election.master_metric
  pub master_counter : s'.master_counter ≡ p.election.master_counter
  pub height : s'.height ≡ (p.election.height + 1) % 2 ^ 32

-- A run ends with the node as its own master, or follows a peer of the list that is valid, does
-- not have the node for its own synchronization master, and outranks the node.
pub run-Follows :
    (s : ElectionState) (ps : List Peer)
    → (run s ps ≡ reset_self s)
      ⊎ ((p : Peer) × Memᴰ p ps
          × Follows (run s ps) p
          × (p.is_valid ≡ true)
          × (is_sync_master p.election s.self_addr ≡ false)
          × (is_gt (compare_rank (rank p.election) (rank (reset_self s))) ≡ true))
unfolding run adopt
run-Follows s ps = elim (Option-cases (elect (reset_self s) none ps)) [
  | inl n ↦ inl (rw n)
  | inr (e, h) ↦
      let (p, mem, el, is, above) = candidate (reset_self s) ps h in
      let (valid, _, apart) = eligible_facts (reset_self s) p el in
      inr (p, mem, rw h (copied e p is), valid, unfold reset_self in apart, rw is above)
]
  where
    copied :
        (e : ElectionState) (p : Peer) → p.election ≡ e → Follows (adopt (reset_self s) (some e)) p
    copied e p is = record {
      sync_addr = ap (λ (e : ElectionState). e.self_addr) (sym is);
      master_addr = ap (λ (e : ElectionState). e.master_addr) (sym is);
      master_metric = ap (λ (e : ElectionState). e.master_metric) (sym is);
      master_counter = ap (λ (e : ElectionState). e.master_counter) (sym is);
      height = ap (λ (e : ElectionState). (e.height + 1) % 2 ^ 32) (sym is);
    }

-- A run leaves the node's address, metric and counter as they are, and its height is at most 10,
-- whatever the peers have sent.
pub run_keeps :
    (s : ElectionState) (ps : List Peer)
    → ((run s ps).self_addr ≡ s.self_addr)
      × ((run s ps).self_metric ≡ s.self_metric)
      × ((run s ps).self_counter ≡ s.self_counter)
      × ((run s ps).height ≤ tree_max_height)
unfolding run reset_self adopt
run_keeps s ps = elim (Option-cases (elect (reset_self s) none ps)) [
  | inl n ↦ rw n (refl, refl, refl, omega arith)
  | inr (e, h) ↦
      let (p, _, el, is, _) = candidate (reset_self s) ps h in
      let (_, low, _) = eligible_facts (reset_self s) p el in
      let same = ap (λ (e : ElectionState). (e.height + 1) % 2 ^ 32) is in
      rw h (refl, refl, refl, omega arith)
]
