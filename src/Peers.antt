-- ===== src/Peers.antt =====
-- src/peers.h and src/peers.c: what a node keeps of a peer.
mod Tests
pub mod Samples
pub mod Table
pub mod Laws
pub mod Map
pub mod Clean
pub mod Walk
pub mod Removal
use owl.Base.{ℕ, Bool, false, List, [], ◌∷◌, ◌&&◌, ◌==◌, not, set}
use owl.Channel.{Chan, chan_null, chanseq_init_static}
use owl.Election.{EtherAddr, ElectionState}
use owl.Election
use owl.Hashmap.{Hashmap}
use owl.Hashmap

abbrev pub host_name_length_max : ℕ
host_name_length_max = 64

-- `name` and `country_code` are the bytes of the two character arrays.
pub record Peer : Type 0 where
  pub addr : EtherAddr
  pub last_update : ℕ
  pub election : ElectionState
  pub sequence : List Chan
  pub sync_offset : ℕ
  pub name : List ℕ
  pub country_code : List ℕ
  pub infra_addr : EtherAddr
  pub version : ℕ
  pub devclass : ℕ
  pub supports_v2 : Bool
  pub sent_mif : Bool
  pub is_valid : Bool

pub record PeerState : Type 0 where
  pub peers : Hashmap Peer
  pub timeout : ℕ
  pub clean_interval : ℕ

-- In microseconds, as all times that they are compared with.
abbrev default_timeout : ℕ
default_timeout = 2000000

abbrev default_clean_interval : ℕ
default_clean_interval = 1000000

unfoldable pub state_init : PeerState
state_init = record {
  peers = Hashmap.new 6;
  timeout = default_timeout;
  clean_interval = default_clean_interval;
}

-- The checks that `awdl_peer_add` makes before it reports a peer.
unfoldable pub peer_is_valid : Peer → Bool
peer_is_valid p = p.sent_mif && not (p.devclass == 0) && not (p.version == 0)

-- `malloc` leaves fields that the code does not set with any contents, those of `p`.
unfoldable pub peer_new : Peer → EtherAddr → Peer
peer_new p addr = record p {
  addr = addr;
  last_update = 0;
  election = Election.state_init p.election addr;
  sequence = chanseq_init_static chan_null;
  sync_offset = 0;
  devclass = 0;
  version = 0;
  supports_v2 = false;
  sent_mif = false;
  name = set p.name 0 0;
  country_code = 0x4e ∷ 0x41 ∷ 0 ∷ [];
  is_valid = false;
}
