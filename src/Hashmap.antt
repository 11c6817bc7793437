-- ===== src/Hashmap.antt =====
-- src/hashmap.h and src/hashmap.c: the open-addressing hash map that holds the peers.
mod Tests
pub mod Ops
pub mod Probe
pub mod Write
pub mod Valid
pub mod Update
pub mod Scan
pub mod Rehash
pub mod Empty
pub mod Put
pub mod Get
use owl.Base.{ℕ, Option, none, List, replicate}

-- `data` has a slot for each index below `table_size`: `none` where `in_use` is 0. A key is the
-- bytes that its pointer points to.
pub record Hashmap (V : Type 0) : Type 0 where
  pub table_size : ℕ
  pub size : ℕ
  pub key_size : ℕ
  pub slots : List (Option (List ℕ × V))

-- `hashmap_put` returns one of the first two. MAP_FULL is no result, but an index.
pub data MapStatus : Type 0 where
  ok omem missing : MapStatus

abbrev initial_size : ℕ
initial_size = 256

-- `calloc` zeroes the slots, so that none is in use. It is taken to succeed.
unfoldable pub new : {V : Type 0} → ℕ → Hashmap V
new key_size = record {
  table_size = initial_size;
  size = 0;
  key_size = key_size;
  slots = replicate initial_size none;
}
