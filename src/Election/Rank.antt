-- ===== src/Election/Rank.antt =====
-- The order that the election of src/election.c maximises: the counter of the master, then its
-- metric, then the lower height, then the address.
use Prim.Native.Nat.{compare, Ordering}
use owl.Base.{
  All, ℕ, ◌≡◌, refl, ap, ◌∙◌, arith, if◌then◌else◌, Bool, true, false, Option, List, [], ◌∷◌,
}
use owl.Base.Order.{
  Order, is_gt, lex, reversed, larger, memcmp, lex-Order, reversed-Order, compare-Order,
  memcmp-Order, larger_comm, larger_ge, larger_ge_right, ge_trans, gt_irrefl,
}
use owl.Election.{EtherAddr, ElectionState, compare_ether_addr, compare_master}
use owl.Election.Run.{eligible, beats, master_state, consider, elect}
use owl.Peers.{Peer}

abbrev pub Rank : Type 0
Rank = ℕ × (ℕ × (ℕ × EtherAddr))

abbrev pub rank : ElectionState → Rank
rank e = (e.master_counter, (e.master_metric, (e.height, e.self_addr)))

abbrev pub compare_rank : Rank → Rank → Ordering
compare_rank = lex compare (lex compare (lex (reversed compare) memcmp))

pub rank-Order : Order compare_rank
rank-Order = lex-Order compare _ compare-Order (
    lex-Order compare _ compare-Order
      (lex-Order (reversed compare) memcmp (reversed-Order compare compare-Order) memcmp-Order))

-- The nested tests of the loop body are one comparison of ranks.
pub beats-eq-gt : (e m : ElectionState) → beats e m ≡ is_gt (compare_rank (rank e) (rank m))
unfolding beats compare_master compare_ether_addr
beats-eq-gt e m = ground arith

abbrev pub consider_rank : Bool → Rank → Rank → Rank
consider_rank b k r = if b then larger compare_rank k r else k

-- The best rank among a start value and the eligible peers.
unfoldable pub best_rank : ElectionState → Rank → List Peer → Rank
best_rank s k [] = k
best_rank s k (p ∷ ps) = best_rank s (consider_rank (eligible s p) k (rank p.election)) ps

rank-consider :
    (s : ElectionState) (m : Option ElectionState) (p : Peer)
    → rank (master_state s (consider s m p))
      ≡ consider_rank (eligible s p) (rank (master_state s m)) (rank p.election)
unfolding consider
rank-consider s m p = ground (arith, beats-eq-gt p.election (master_state s m))

pub rank-elect :
    (s : ElectionState) (m : Option ElectionState) (ps : List Peer)
    → rank (master_state s (elect s m ps)) ≡ best_rank s (rank (master_state s m)) ps
unfolding elect best_rank
rank-elect s m [] = refl
rank-elect s m (p ∷ ps) =
    rank-elect s (consider s m p) ps ∙ ap (λ k. best_rank s k ps) (rank-consider s m p)

consider_rank_comm :
    (b c : Bool) (k x y : Rank)
    → consider_rank c (consider_rank b k x) y ≡ consider_rank b (consider_rank c k y) x
consider_rank_comm true true k x y = larger_comm compare_rank rank-Order k x y
consider_rank_comm true false k x y = refl
consider_rank_comm false true k x y = refl
consider_rank_comm false false k x y = refl

-- Two neighbours may be asked in either order.
pub best_rank_swap :
    (s : ElectionState) (k : Rank) (p q : Peer) (ps : List Peer)
    → best_rank s k (p ∷ q ∷ ps) ≡ best_rank s k (q ∷ p ∷ ps)
unfolding best_rank
best_rank_swap s k p q ps =
    ap (λ k. best_rank s k ps)
      (consider_rank_comm (eligible s p) (eligible s q) k (rank p.election) (rank q.election))

abbrev pub NotAbove : Rank → Rank → Type 0
NotAbove a b = is_gt (compare_rank a b) ≡ false

consider_rank_ge : (b : Bool) (k x : Rank) → NotAbove k (consider_rank b k x)
consider_rank_ge true k x = larger_ge compare_rank rank-Order k x
consider_rank_ge false k x = gt_irrefl compare_rank rank-Order k

consider_rank_ge_right : (b : Bool) (k x : Rank) → b ≡ true → NotAbove x (consider_rank b k x)
consider_rank_ge_right true k x e = larger_ge_right compare_rank rank-Order k x
consider_rank_ge_right false k x e = cc

pub best_rank_ge_start :
    (s : ElectionState) (ps : List Peer) (k : Rank) → NotAbove k (best_rank s k ps)
unfolding best_rank
best_rank_ge_start s [] k = gt_irrefl compare_rank rank-Order k
best_rank_ge_start s (p ∷ ps) k =
    let k' = consider_rank (eligible s p) k (rank p.election) in
    ge_trans compare_rank rank-Order k k' (best_rank s k' ps)
      (consider_rank_ge (eligible s p) k (rank p.election)) (best_rank_ge_start s ps k')

pub best_rank_ge :
    (s : ElectionState) (ps : List Peer) (k : Rank)
    → All (λ p. eligible s p ≡ true → NotAbove (rank p.election) (best_rank s k ps)) ps
unfolding best_rank
best_rank_ge s [] k = tt
best_rank_ge s (p ∷ ps) k =
    let k' = consider_rank (eligible s p) k (rank p.election) in
    (
      λ e.
          ge_trans compare_rank rank-Order (rank p.election) k' (best_rank s k' ps)
            (consider_rank_ge_right (eligible s p) k (rank p.election) e)
            (best_rank_ge_start s ps k'),
      best_rank_ge s ps k',
    )
