-- ===== src/Election/Run.antt =====
-- `awdl_election_run` of src/election.c. The peers are given in the order of the iteration.
use Prim.Native.Nat.{lt, eq, gt}
use owl.Base.{
  ◌+◌, ◌%◌, ◌^◌, ltb, ◌==◌, if◌then◌else◌, Bool, true, false, not, Option, none, some, List, [],
  ◌∷◌,
}
use owl.Base.Order.{is_gt}
use owl.Election.{
  ElectionState, tree_max_height, compare_ether_addr, is_sync_master, reset_self, compare_master,
}
use owl.Peers.{Peer}

-- The first three tests of the loop body. The height is a `uint32_t`.
unfoldable pub eligible : ElectionState → Peer → Bool
eligible s p =
    if not p.is_valid
    then false
    else if ltb tree_max_height ((p.election.height + 1) % 2 ^ 32)
    then false
    else not (is_sync_master p.election s.self_addr)

-- The comparison with the best candidate so far.
unfoldable pub beats : ElectionState → ElectionState → Bool
beats e master = elim (compare_master e master) [
  | lt ↦ false
  | eq ↦
      if ltb master.height e.height
      then false
      else if e.height == master.height
      then is_gt (compare_ether_addr e.self_addr master.self_addr)
      else true
  | gt ↦ true
]

-- The pointer `master_state`: `none` is the node's own state.
abbrev pub master_state : ElectionState → Option ElectionState → ElectionState
master_state s none = s
master_state s (some e) = e

-- One round of the loop, and the loop.
unfoldable pub consider : ElectionState → Option ElectionState → Peer → Option ElectionState
consider s m p =
    if eligible s p then if beats p.election (master_state s m) then some p.election else m else m

unfoldable pub elect : ElectionState → Option ElectionState → List Peer → Option ElectionState
elect s m [] = m
elect s m (p ∷ ps) = elect s (consider s m p) ps

unfoldable pub adopt : ElectionState → Option ElectionState → ElectionState
adopt s none = s
adopt s (some e) = record s {
  master_addr = e.master_addr;
  sync_addr = e.self_addr;
  master_metric = e.master_metric;
  master_counter = e.master_counter;
  height = (e.height + 1) % 2 ^ 32;
}

-- What follows in the code only logs the new tree.
unfoldable pub run : ElectionState → List Peer → ElectionState
run s peers = let s' = reset_self s in adopt s' (elect s' none peers)
