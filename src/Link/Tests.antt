-- ===== src/Link/Tests.antt =====
-- Tests of two nodes, and the theorems about them at concrete inputs.
use owl.Base.{
  ℕ, ◌≡◌, refl, false, true, some, none, inl, inr, List, [], ◌∷◌, ◌++◌, replicate, arith,
}
use owl.Base.Int.{pos}
use owl.Base.Order.{memcmp, is_eq}
use owl.Hashmap.Ops.{find}
use owl.Channel.{chan_null}
use owl.Daemon.{DaemonState}
use owl.Link.Action.{Hears}
use owl.Link.Beacon.{action_frame-heard}
use owl.Link.Clocks.{clocks-agree}
use owl.Election.{is_sync_master, compare_ether_addr}
use owl.Sync.{next_aw_tu, current_aw, current_eaw, error_tu}
use owl.Link.Delivery.{Arrives, data_frame-delivered}
use owl.Link.Ethernet.{ethernet}
use owl.Link.Receive.{Tap}
use owl.Link.Tlvs.{IsSendable}
use owl.Link.View.{whole-View}
use owl.Link.{on_air}
use owl.Peers.Map.{get-peer_map}
use owl.Peers.Samples.{last_byte, eight_slots, limited, sample_map, table, table-Sound, ready}
use owl.Rx.Receive.{Radiotap, Received, radiotap_parse, rx, with_peers, too_weak}
use owl.Rx.Samples.{addr, peer, node}
use owl.Rx.{ok, Session}
use owl.State.{AwdlState, Ieee80211State}
use owl.Tx.Frame.{mif, init_full_action_frame}
use owl.Tx.Parse.{whole}
use owl.Tx.{c_string}
use owl.Wire.{Buf}

on_air-nine : on_air (0 ∷ 0 ∷ 9 ∷ 0 ∷ 4 ∷ 0 ∷ 0 ∷ 0 ∷ 24 ∷ 8 ∷ []) ≡ 8 ∷ []
on_air-nine = refl

abbrev fresh : Buf
fresh = record { orig = replicate 32 0; data_at = 0; len = 32; owned = true }

abbrev no_callback : ℕ → Buf → Session → Session
no_callback type val h = h

-- A device without flags, and its radiotap header of eight bytes.
abbrev plain : Radiotap
plain = record { iterate = λ _. some ([], true); bad_fcs = 0x40; fcs = 0x10 }

abbrev tap : List ℕ
tap = 0 ∷ 0 ∷ 8 ∷ 0 ∷ 0 ∷ 0 ∷ 0 ∷ 0 ∷ []

tap-Tap : Tap tap
tap-Tap = record {
  version = 0;
  pad = 0;
  low = 8;
  high = 0;
  more = 0 ∷ 0 ∷ 0 ∷ 0 ∷ [];
  bytes = refl;
  size = refl;
}

-- The node at the first address, which knows the one at the second, and that one.
abbrev receiver : AwdlState
receiver = record (with_peers node table) { filter_rssi = false }

abbrev sender : AwdlState
sender = record node { self_address = addr 2 }

abbrev no_fcs : Ieee80211State
no_fcs = record { sequence_number = 7; fcs = false }

abbrev daemon_of : AwdlState → DaemonState
daemon_of s = record {
  awdl_state = s;
  ieee80211_state = no_fcs;
  next = none;
  tx_queue_multicast = record { buffer = 0 ∷ 0 ∷ []; head = 0; tail = 0; max = 2; full = false };
  heap = [];
  wlan_is_file = false;
}

abbrev no_crc : List ℕ → ℕ
no_crc l = 0

abbrev payload : List ℕ
payload = 65 ∷ 66 ∷ []

abbrev sent_frame : Buf
sent_frame = whole (ethernet (addr 1) (addr 2) 0x0800 payload)

parsed : (rest : List ℕ) → radiotap_parse plain (whole (tap ++ rest)) (pos 0, 0) ≡ some (pos 0, 0)
unfolding radiotap_parse
parsed rest = refl

others : is_eq (memcmp (addr 2) (addr 1)) ≡ false
unfolding memcmp
others = refl

is_known : sample_map.get table (addr 2) ≡ some ready
unfolding find memcmp
is_known = get-peer_map last_byte eight_slots 8 limited table (addr 2)

data_frame-delivered_example :
    Arrives sample_map peer fresh no_callback [] plain no_crc 2 sent_frame
      (ethernet (addr 1) (addr 2) 0x86dd payload)
      16
      (daemon_of sender)
      tap
      []
      (pos 0, 0)
      0
      (daemon_of receiver)
data_frame-delivered_example =
    data_frame-delivered sample_map peer fresh no_callback [] plain no_crc 2 sent_frame (addr 1)
      (addr 2) 0x0800 payload (daemon_of sender) tap [] (pos 0, 0) (pos 0) 0 0 ready
      (daemon_of receiver) (whole-View (ethernet (addr 1) (addr 2) 0x0800 payload)) refl refl refl
      tap-Tap parsed refl (inl (refl, refl)) others is_known (omega arith) (omega arith)

sender-IsSendable : IsSendable sender
unfolding c_string
sender-IsSendable = record {
  clock = record {
    counter = omega arith;
    updated = omega arith;
    lasts = omega arith;
    fits = omega arith;
  };
  election = record {
    master_addr = refl;
    sync_addr = refl;
    height = omega arith;
    master_metric = omega arith;
    self_metric = omega arith;
    master_counter = omega arith;
    self_counter = omega arith;
  };
  height = omega arith;
  version = omega arith;
  dev_class = omega arith;
  address = refl;
  sequence = refl;
  encoding = inr refl;
  name = omega arith;
}

strong : too_weak receiver (sample_map.get table (addr 2)) (pos 0) ≡ false
unfolding too_weak
strong = rw is_known refl

-- What the receiver holds after the frame of the sender.
abbrev heard : Received
heard =
    let frame = (init_full_action_frame no_crc 2 sender no_fcs mif 5 9).0 in
    rx sample_map peer fresh no_callback (replicate 16 chan_null) plain
      (whole (tap ++ (on_air frame ++ []))) (pos 0, 0) 11 receiver

action_frame-heard_example :
    Hears sample_map peer fresh no_callback
      (replicate 16 chan_null)
      plain
      sender
      mif
      9
      11
      receiver
      (heard.0, heard.1)
    × (heard.2 ≡ [])
action_frame-heard_example =
    action_frame-heard sample_map peer fresh no_callback (replicate 16 chan_null) plain sender
      no_fcs mif 5 9 11 no_crc 2 tap [] (pos 0, 0) (pos 0) 0 receiver sender-IsSendable refl refl
      tap-Tap parsed refl (inl (refl, refl)) refl table-Sound others refl refl strong

-- The receiver follows the sender.
follows : is_sync_master receiver.election (addr 2) ≡ true
unfolding is_sync_master compare_ether_addr memcmp
follows = refl

abbrev followed : Received
followed =
    let frame = (init_full_action_frame no_crc 2 sender no_fcs mif 5 1500000).0 in
    rx sample_map peer fresh no_callback (replicate 16 chan_null) plain
      (whole (tap ++ (on_air frame ++ []))) (pos 0, 0) 900000 receiver

clocks-agree_example :
    (followed.1 ≡ ok)
    × (next_aw_tu 900000 followed.0.sync ≡ next_aw_tu 1500000 sender.sync)
    × (current_eaw 900000 followed.0.sync ≡ current_eaw 1500000 sender.sync)
    × (error_tu 900000
          (next_aw_tu 1500000 sender.sync)
          (current_aw 1500000 sender.sync)
          followed.0.sync
        ≡ pos 0)
clocks-agree_example =
    clocks-agree sample_map peer fresh no_callback (replicate 16 chan_null) plain sender no_fcs mif
      5 1500000 900000 no_crc 2 tap [] (pos 0, 0) (pos 0) 0 receiver ready sender-IsSendable refl
      refl tap-Tap parsed refl (inl (refl, refl)) refl table-Sound others refl refl strong is_known
      follows sender-IsSendable.clock refl refl (omega arith) (omega arith)
