-- ===== src/Devices/Tests.antt =====
-- Tests of the devices, and the theorems about them at concrete inputs.
use owl.Base.{replicate, List, ◌≡◌, refl, true, false, none, some, [], ◌∷◌, ◌||◌, arith}
use owl.Base.Int.{ℤ, pos, negsuc, ◌≤ℤ◌}
use owl.Channel.{channel_to_frequency}
use owl.Devices.Address.{rfc4291_addr, rfc4291_addr-injective}
use owl.Devices.Available.{any_can_send, reply_freqs, answered-any}
use owl.Devices.Band.{BandAttrs, channel_args, answered}
use owl.Devices.Errors.{io_state_init-NotPositive}
use owl.Devices.Held.{role, gets, is_null, here, Held, nothing, got, Leaves}
use owl.Devices.Io.{IoState, io_state_init}
use owl.Devices.Messages.{set_monitor_mode-Held, set_channel-Held}
use owl.Devices.Neighbours.{neighbor_add-Leaves}
use owl.Devices.Netlink.{NlrouteState, Nl80211State, netutils_init, set_monitor_mode, set_channel}
use owl.Devices.Routes.{neighbor_add}
use owl.Devices.Sockets.{Ready, netutils_init-Ready}
use owl.Devices.{
  Call, pcap_open_offline, if_nametoindex, System, History, nl_socket_alloc, nlmsg_free,
}
use owl.Rx.Samples.{addr, peer, node}
use owl.Daemon.{DaemonState}
use owl.Daemon.Runs.{Reach}
use owl.Devices.Loop.{NewNode, start_daemon-Reach}
use owl.Devices.Start.{Opt, opt_no_filter, opt_wlan, Running, start_daemon}
use owl.Peers.Samples.{last_byte, sample_map}
use owl.Wire.{Buf}

-- Every call succeeds.
abbrev ones : System
ones = record { answer = λ t c. pos 1; stored = λ t. addr 3; link = λ t. pos 1 }

-- Every call that allocates succeeds, and the others return 0.
abbrev zeros : System
zeros = record {
  answer = λ t c. elim (role c) [ gets ↦ pos 7 | _ ↦ pos 0 ];
  stored = λ t. addr 3;
  link = λ t. pos 1;
}

abbrev wifi : Nl80211State
wifi = record { socket = pos 5; nl80211_id = pos 20 }

abbrev route : NlrouteState
route = record { socket = pos 5 }

-- A socket is open.
abbrev opened : History
opened = (nl_socket_alloc, pos 5) ∷ []

opened-Held : Held opened (pos 5 ∷ [])
unfolding role is_null
opened-Held = got refl refl nothing

set_monitor_mode-result : (set_monitor_mode ones wifi (pos 3) opened).0 ≡ pos 1
unfolding set_monitor_mode
set_monitor_mode-result = refl

set_monitor_mode-Held_example : Leaves (pos 5 ∷ []) (set_monitor_mode ones wifi (pos 3) opened)
set_monitor_mode-Held_example =
    set_monitor_mode-Held ones wifi (pos 5 ∷ []) [] here (pos 3) opened opened-Held

-- There is no channel 0: what the variable holds is freed.
set_channel-unset :
    set_channel ones wifi (pos 9) (pos 3) (pos 0) opened
    ≡ (negsuc 21, (nlmsg_free (pos 9), pos 1) ∷ opened)
unfolding set_channel channel_to_frequency
set_channel-unset = refl

six-valid : is_null (channel_to_frequency (pos 6)) ≡ false
unfolding channel_to_frequency is_null
six-valid = refl

set_channel-Held_example :
    Leaves (pos 5 ∷ []) (set_channel ones wifi (pos 9) (pos 3) (pos 6) opened)
set_channel-Held_example =
    set_channel-Held ones wifi (pos 5 ∷ []) [] here (pos 9) (pos 3) (pos 6) opened six-valid
      opened-Held

zero-null : is_null (pos 0) ≡ true
unfolding is_null
zero-null = refl

neighbor_add-Leaves_example :
    Leaves
      (pos 5 ∷ [])
      (neighbor_add ones (pos 5) (pos 0) (pos 0) (pos 4) (addr 2) (rfc4291_addr (addr 2)) opened)
neighbor_add-Leaves_example =
    neighbor_add-Leaves ones (pos 5) (pos 5 ∷ []) [] here (pos 0) (pos 0) (pos 4) (addr 2)
      (rfc4291_addr (addr 2)) opened zero-null zero-null opened-Held

netutils_init-result : (netutils_init zeros []).0 ≡ pos 0
unfolding netutils_init role
netutils_init-result = refl

netutils_init-Ready_example : Ready zeros [] (netutils_init zeros [])
netutils_init-Ready_example = netutils_init-Ready zeros [] [] nothing

rfc4291_addr-injective_example : addr 2 ≡ addr 2
rfc4291_addr-injective_example =
    rfc4291_addr-injective (addr 2) (addr 2) refl refl (omega arith) (omega arith) refl

-- A band with channel 6, which is open, and channel 14, which is not.
abbrev band : BandAttrs
band = record {
  nla_type = 0;
  freqs = some (
      record { freq = some 2437; disabled = false; no_ir = false }
      ∷ record { freq = some 2484; disabled = true; no_ir = false }
      ∷ []);
}

answered-six : (answered (pos 2437) (some (band ∷ []) ∷ none ∷ []) channel_args).is_available ≡ true
unfolding answered
answered-six = refl

-- Channel 14 is said to be available if channel 6 has been asked for before.
answered-again :
    (answered
      (pos 2484)
      (some (band ∷ []) ∷ [])
      (answered (pos 2437) (some (band ∷ []) ∷ []) channel_args)).is_available
    ≡ true
unfolding answered
answered-again = refl

answered-any_example :
    (answered (pos 2484) (some (band ∷ []) ∷ none ∷ []) channel_args).is_available ≡ (
      channel_args.is_available
      || any_can_send (pos 2484) (reply_freqs (some (band ∷ []) ∷ none ∷ [])))
answered-any_example = answered-any (pos 2484) (some (band ∷ []) ∷ none ∷ []) channel_args

abbrev io : IoState
io = record {
  wlan_handle = pos 0;
  wlan_ifname = [];
  wlan_ifindex = pos 0;
  host_ifname = [];
  host_ifindex = pos 0;
  if_ether_addr = addr 0;
  wlan_fd = pos 0;
  host_fd = pos 0;
  wlan_no_monitor_mode = false;
  wlan_is_file = false;
}

io_state_init-file :
    (io_state_init ones route wifi (97 ∷ []) [] (addr 9) io []).1.wlan_is_file ≡ true
unfolding io_state_init
io_state_init-file = refl

io_state_init-NotPositive_example :
    (io_state_init ones route wifi (97 ∷ []) (98 ∷ []) (addr 9) io []).0 ≤ℤ pos 0
io_state_init-NotPositive_example =
    io_state_init-NotPositive ones route wifi (97 ∷ []) (98 ∷ []) (addr 9) io []

-- The name of a file is given, and the device for the host opens.
answer_file : Call → ℤ
answer_file (pcap_open_offline name) = pos 1
answer_file (if_nametoindex name) = pos 3
answer_file c = elim (role c) [ gets ↦ pos 7 | _ ↦ pos 0 ]

abbrev from_file : System
from_file = record { answer = λ t c. answer_file c; stored = λ t. addr 3; link = λ t. pos 1 }

abbrev unset_state : DaemonState
unset_state = record {
  awdl_state = node;
  ieee80211_state = record { sequence_number = 0; fcs = false };
  next = none;
  tx_queue_multicast = record { buffer = []; head = 0; tail = 0; max = 0; full = false };
  heap = [];
  wlan_is_file = false;
}

abbrev no_filter : List Opt
no_filter = opt_no_filter ∷ opt_wlan (97 ∷ []) ∷ []

abbrev launched : Running
launched =
    elim (start_daemon from_file no_filter (replicate 16 0) unset_state io 5 []) as (λ _. Running) [
      | none ↦ (unset_state, io, (route, wifi), [])
      | some x ↦ x
    ]

launched-some :
    start_daemon from_file no_filter (replicate 16 0) unset_state io 5 [] ≡ some launched
unfolding start_daemon answer_file role
launched-some = refl

abbrev no_frame : Buf
no_frame = record { orig = []; data_at = 0; len = 0; owned = false }

start_daemon-Reach_example :
    Reach no_frame no_frame
      (λ l. 0)
      2
      sample_map
      peer
      (λ type val h. h)
      []
      (record { iterate = λ l. none; bad_fcs = 0x40; fcs = 0x10 })
      []
      launched.0
    × (launched.0.next ≡ none)
    × NewNode last_byte 5 launched.1.if_ether_addr launched.0.awdl_state
start_daemon-Reach_example =
    start_daemon-Reach sample_map no_frame no_frame (λ l. 0) 2 peer (λ type val h. h) []
      (record { iterate = λ l. none; bad_fcs = 0x40; fcs = 0x10 }) from_file last_byte no_filter
      (replicate 16 0) unset_state io 5 [] launched (omega arith, tt) (omega arith) refl
      launched-some
