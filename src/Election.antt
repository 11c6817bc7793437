-- ===== src/Election.antt =====
-- src/election.h and src/election.c: the election of a synchronization master. A node's own state
-- and what it has heard of each peer's state have one type.
mod Tests
pub mod Run
pub mod Rank
pub mod Laws
pub mod Permute
use Prim.Native.Nat.{compare, Ordering}
use owl.Base.{ℕ, Bool, List}
use owl.Base.Order.{memcmp, then_by, is_eq}

-- `struct ether_addr`: its octets.
abbrev pub EtherAddr : Type 0
EtherAddr = List ℕ

pub record ElectionState : Type 0 where
  pub master_addr : EtherAddr
  pub sync_addr : EtherAddr
  pub self_addr : EtherAddr
  pub height : ℕ
  pub master_metric : ℕ
  pub self_metric : ℕ
  pub master_counter : ℕ
  pub self_counter : ℕ

abbrev pub tree_max_height : ℕ
tree_max_height = 10

abbrev metric_init : ℕ
metric_init = 60

abbrev counter_init : ℕ
counter_init = 0

unfoldable pub compare_ether_addr : EtherAddr → EtherAddr → Ordering
compare_ether_addr a b = memcmp a b

unfoldable pub is_sync_master : ElectionState → EtherAddr → Bool
is_sync_master s addr = is_eq (compare_ether_addr s.sync_addr addr)

unfoldable reset_metric : ElectionState → ElectionState
reset_metric s = record s { self_counter = counter_init; self_metric = metric_init }

unfoldable pub reset_self : ElectionState → ElectionState
reset_self s = record s {
  height = 0;
  master_addr = s.self_addr;
  sync_addr = s.self_addr;
  master_metric = s.self_metric;
  master_counter = s.self_counter;
}

-- The code fills in a state whose old fields it does not read: `s` stands for these.
unfoldable pub state_init : ElectionState → EtherAddr → ElectionState
unfolding reset_metric reset_self
state_init s self =
    reset_self (reset_metric (record s { master_addr = self; sync_addr = self; self_addr = self }))

-- The C function's `compare` is the library's comparison of numbers.
unfoldable pub compare_master : ElectionState → ElectionState → Ordering
compare_master a b =
    then_by (compare a.master_counter b.master_counter) (compare a.master_metric b.master_metric)
