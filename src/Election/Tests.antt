-- ===== src/Election/Tests.antt =====
-- Tests of the election, and its theorems at concrete inputs.
use mathlib.Core.List.Perm
use mathlib.Core.List.{Memᴰ}
use owl.Base.{ℕ, ◌≤◌, ◌≡◌, refl, ◌⊎◌, arith, true, false, [], ◌∷◌, All}
use owl.Base.Order.{is_gt, memcmp}
use owl.Election.{
  EtherAddr, ElectionState, reset_self, is_sync_master, compare_master, compare_ether_addr,
}
use owl.Election.Laws.{elected, elected_best, run-Follows, run_keeps, Follows}
use owl.Election.Permute.{run_perm, run_height_wraps}
use owl.Election.Rank.{rank, compare_rank, NotAbove}
use owl.Election.Run.{run, eligible, elect, consider, beats, adopt}
use owl.Peers.{Peer}

abbrev addr : ℕ → EtherAddr
addr n = 0 ∷ 0 ∷ 0 ∷ 0 ∷ 0 ∷ n ∷ []

-- A state with its own address, master, height, and metric and counter of the master.
abbrev state_of : ℕ → ℕ → ℕ → ℕ → ℕ → ElectionState
state_of self master height metric counter = record {
  master_addr = addr master;
  sync_addr = addr master;
  self_addr = addr self;
  height = height;
  master_metric = metric;
  self_metric = 60;
  master_counter = counter;
  self_counter = 0;
}

abbrev peer_of : ElectionState → Peer
peer_of e = record {
  addr = e.self_addr;
  last_update = 0;
  election = e;
  sequence = [];
  sync_offset = 0;
  name = [];
  country_code = [];
  infra_addr = [];
  version = 1;
  devclass = 1;
  supports_v2 = true;
  sent_mif = true;
  is_valid = true;
}

abbrev node : ElectionState
node = state_of 1 1 0 60 0

-- Two peers below the same master; the second is nearer to it.
abbrev far : Peer
far = peer_of (state_of 2 9 3 100 5)

abbrev near : Peer
near = peer_of (state_of 3 9 1 100 5)

abbrev liar : Peer
liar = peer_of (state_of 4 9 0xffff_ffff 100 5)

run-near : run node (far ∷ near ∷ []) ≡ record node {
  master_addr = addr 9;
  sync_addr = addr 3;
  height = 2;
  master_metric = 100;
  master_counter = 5;
}
unfolding run reset_self elect consider eligible beats adopt is_sync_master compare_master
    compare_ether_addr memcmp
run-near = refl

elected_best_example :
    NotAbove (rank (reset_self node)) (rank (elected node (far ∷ near ∷ [])))
    × All
        (λ p.
          eligible (reset_self node) p ≡ true
          → NotAbove (rank p.election) (rank (elected node (far ∷ near ∷ []))))
        (far ∷ near ∷ [])
elected_best_example = elected_best node (far ∷ near ∷ [])

run-Follows_example :
    (run node (near ∷ []) ≡ reset_self node)
    ⊎ ((p : Peer) × Memᴰ p (near ∷ [])
        × Follows (run node (near ∷ [])) p
        × (p.is_valid ≡ true)
        × (is_sync_master p.election (addr 1) ≡ false)
        × (is_gt (compare_rank (rank p.election) (rank (reset_self node))) ≡ true))
run-Follows_example = run-Follows node (near ∷ [])

run_keeps_example :
    ((run node (liar ∷ [])).self_addr ≡ addr 1)
    × ((run node (liar ∷ [])).self_metric ≡ 60)
    × ((run node (liar ∷ [])).self_counter ≡ 0)
    × ((run node (liar ∷ [])).height ≤ 10)
run_keeps_example = run_keeps node (liar ∷ [])

run_perm_example : run node (far ∷ near ∷ []) ≡ run node (near ∷ far ∷ [])
run_perm_example =
    run_perm node (λ _. addr 9) (far ∷ near ∷ []) (near ∷ far ∷ []) (Perm.swap near far [])
      (refl, (refl, tt))

run_height_wraps_example :
    ((run node (liar ∷ [])).sync_addr ≡ addr 4) × ((run node (liar ∷ [])).height ≡ 0)
run_height_wraps_example =
    run_height_wraps node liar refl (unfold is_sync_master compare_ether_addr memcmp in refl) refl
      (omega arith)
