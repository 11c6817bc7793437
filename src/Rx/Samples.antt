-- ===== src/Rx/Samples.antt =====
-- A node and a peer, for the tests.
use owl.Base.{ℕ, false, true, List, [], ◌∷◌, replicate}
use owl.Base.Int.{pos}
use owl.Channel.{chan_null, chan_opclass_6, chan_opclass_44, opclass}
use owl.Election.{EtherAddr, ElectionState}
use owl.Hashmap
use owl.Peers.{Peer}
use owl.Rx.{Session}
use owl.State.{AwdlState}
use owl.Wire.{Buf}

abbrev pub addr : ℕ → EtherAddr
addr n = 0 ∷ 0 ∷ 0 ∷ 0 ∷ 0 ∷ n ∷ []

abbrev election_of : ℕ → ElectionState
election_of n = record {
  master_addr = addr n;
  sync_addr = addr n;
  self_addr = addr n;
  height = 0;
  master_metric = 60;
  self_metric = 60;
  master_counter = 0;
  self_counter = 0;
}

abbrev pub peer : Peer
peer = record {
  addr = addr 2;
  last_update = 7;
  election = election_of 2;
  sequence = replicate 16 chan_null;
  sync_offset = 0;
  name = replicate 65 0;
  country_code = 0x4e ∷ 0x41 ∷ 0 ∷ [];
  infra_addr = addr 0;
  version = 0;
  devclass = 0;
  supports_v2 = false;
  sent_mif = false;
  is_valid = false;
}

abbrev pub node : AwdlState
node = record {
  self_address = addr 1;
  name = replicate 65 0;
  version = 0x34;
  dev_class = 1;
  sequence_number = 0;
  psf_interval = 110;
  dst = replicate 6 255;
  tlv_cb = false;
  peer_cb = false;
  peer_remove_cb = false;
  filter_rssi = true;
  rssi_threshold = pos 0;
  rssi_grace = pos 0;
  election = record (election_of 1) { sync_addr = addr 2 };
  sync = record {
    aw_counter = 0;
    last_update = 0;
    aw_period = 16;
    presence_mode = 4;
    meas_err = 0;
    meas_total = 0;
  };
  channel = record {
    enc = opclass;
    sequence = replicate 16 chan_opclass_6;
    master = chan_opclass_44;
    current = chan_null;
  };
  peers = record { peers = Hashmap.new 6; timeout = 2000000; clean_interval = 1000000 };
  stats = record {
    tx_action = 0;
    tx_data = 0;
    tx_data_unicast = 0;
    tx_data_multicast = 0;
    rx_action = 0;
    rx_data = 0;
    rx_unknown = 0;
  };
}

abbrev pub start : Session
start = record { peer = peer; state = node }

abbrev pub value : List ℕ → ℕ → Buf
value bytes len = record { orig = bytes; data_at = 0; len = len; owned = false }
