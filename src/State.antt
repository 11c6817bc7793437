-- ===== src/State.antt =====
-- src/state.h and src/state.c: the whole state of a node, and its counters.
mod Tests
pub mod Laws
use owl.Base.{
  ℕ, ◌+◌, ◌-◌, ◌%◌, ◌^◌, Bool, true, false, ltb, if◌then◌else◌, List, [], ◌∷◌, ◌++◌, length, take,
  drop, replicate,
}
use owl.Base.Int.{ℤ, pos, negsuc}
use owl.Channel.{ChannelState, Chan, opclass, chan_null, chanseq_init_static}
use owl.Election.{EtherAddr, ElectionState}
use owl.Election
use owl.Hashmap.{Hashmap}
use owl.Peers.{Peer, PeerState, host_name_length_max}
use owl.Peers
use owl.Sync.{SyncState}
use owl.Sync
use owl.Version.{version}

pub record Stats : Type 0 where
  pub tx_action : ℕ
  pub tx_data : ℕ
  pub tx_data_unicast : ℕ
  pub tx_data_multicast : ℕ
  pub rx_action : ℕ
  pub rx_data : ℕ
  pub rx_unknown : ℕ

-- The callbacks are functions outside the library: here, whether they are set.
pub record AwdlState : Type 0 where
  pub self_address : EtherAddr
  pub name : List ℕ
  pub version : ℕ
  pub dev_class : ℕ
  pub sequence_number : ℕ
  pub psf_interval : ℕ
  pub dst : EtherAddr
  pub tlv_cb : Bool
  pub peer_cb : Bool
  pub peer_remove_cb : Bool
  pub filter_rssi : Bool
  pub rssi_threshold : ℤ
  pub rssi_grace : ℤ
  pub election : ElectionState
  pub sync : SyncState
  pub channel : ChannelState
  pub peers : PeerState
  pub stats : Stats

abbrev devclass_macos : ℕ
devclass_macos = 1

abbrev ether_broadcast : EtherAddr
ether_broadcast = replicate 6 0xff

abbrev psf_interval_master_tu : ℕ
psf_interval_master_tu = 110

unfoldable stats_init : Stats
stats_init = record {
  tx_action = 0;
  tx_data = 0;
  tx_data_unicast = 0;
  tx_data_multicast = 0;
  rx_action = 0;
  rx_data = 0;
  rx_unknown = 0;
}

-- `strncpy` of at most `n` characters into an array: zeros follow a shorter text, and the rest of
-- the array stays.
unfoldable strncpy : List ℕ → List ℕ → ℕ → List ℕ
strncpy array text n = take n (text ++ replicate n 0) ++ drop n array

-- The code fills in a state whose old contents `s` it does not read. `hostname` is the characters
-- of the C string.
unfoldable pub init_state : AwdlState → List ℕ → EtherAddr → Chan → ℕ → AwdlState
unfolding stats_init strncpy
init_state s hostname self chan now = record {
  self_address = self;
  name = strncpy s.name hostname host_name_length_max;
  version = version 3 4;
  dev_class = devclass_macos;
  sequence_number = 0;
  psf_interval = psf_interval_master_tu;
  dst = ether_broadcast;
  tlv_cb = false;
  peer_cb = false;
  peer_remove_cb = false;
  filter_rssi = true;
  rssi_threshold = negsuc 64;
  rssi_grace = negsuc 4;
  sync = Sync.state_init now;
  channel = record {
    enc = opclass;
    sequence = chanseq_init_static chan;
    master = chan;
    current = chan_null;
  };
  election = Election.state_init s.election self;
  peers = Peers.state_init;
  stats = stats_init;
}

-- `uint16_t` post-increment: the number that is used, and the state after it.
unfoldable pub next_sequence_number : AwdlState → ℕ × AwdlState
next_sequence_number s =
    (s.sequence_number, record s { sequence_number = (s.sequence_number + 1) % 2 ^ 16 })

pub record Ieee80211State : Type 0 where
  pub sequence_number : ℕ
  pub fcs : Bool

unfoldable pub ieee80211_init_state : Ieee80211State
ieee80211_init_state = record { sequence_number = 0; fcs = false }

-- The mask `0x0fff` is a remainder.
unfoldable pub ieee80211_next_sequence_number : Ieee80211State → ℕ × Ieee80211State
ieee80211_next_sequence_number s =
    (s.sequence_number, record s { sequence_number = (s.sequence_number + 1) % 2 ^ 16 % 2 ^ 12 })
