-- ===== src/Daemon/Tests.antt =====
-- Tests of the daemon, and its theorems at concrete inputs.
use owl.Base.{ℕ, ◌≡◌, refl, false, true, some, none, List, [], ◌∷◌, ◌++◌, replicate, arith}
use owl.Base.Int.{pos, negsuc}
use owl.Daemon.Runs.{Reach, start, later, host_device, multicast_timer, Behind, Reach-Behind}
use owl.Rx.{Session}
use owl.Daemon.Poll.{host_device_ready, nothing_new, poll_host_device}
use owl.Daemon.Queue.{IsSound, Takes, poll_host_device-Takes}
use owl.Daemon.Send.{past_guard, send_unicast, send_multicast}
use owl.Daemon.Unicast.{Settles, send_unicast-Settles}
use owl.Daemon.{DaemonState}
use owl.Peers.Samples.{sample_map, table}
use owl.Ring
use owl.Rx.Receive.{with_peers, Radiotap}
use owl.Rx.Samples.{addr, peer, node, value}
use owl.Sync.{tu_to_usec}
use owl.Wire
use owl.Wire.{Buf}

abbrev fresh : Buf
fresh = record { orig = replicate 32 0; data_at = 0; len = 32; owned = true }

-- Room for two multicast frames.
abbrev idle : DaemonState
idle = record {
  awdl_state = with_peers node table;
  ieee80211_state = record { sequence_number = 0; fcs = false };
  next = none;
  tx_queue_multicast = record { buffer = 0 ∷ 0 ∷ []; head = 0; tail = 0; max = 2; full = false };
  heap = [];
  wlan_is_file = false;
}

idle-IsSound : IsSound idle
unfolding Ring.size
idle-IsSound = record {
  ring = record {
    storage = omega arith;
    small = omega arith;
    head_in = omega arith;
    tail_in = omega arith;
    meet = λ h. cc;
  };
  live = tt;
}

-- A frame to all, one to the peer, and one that is left.
abbrev to_all : List ℕ
to_all = replicate 6 255 ++ addr 1 ++ 0x86 ∷ 0xdd ∷ 65 ∷ []

abbrev to_peer : List ℕ
to_peer = addr 2 ++ addr 1 ++ 0x86 ∷ 0xdd ∷ 66 ∷ []

abbrev inputs : List (List ℕ)
inputs = to_all ∷ to_peer ∷ to_all ∷ []

poll-three : (poll_host_device fresh inputs idle nothing_new).1 ≡ to_all ∷ []
unfolding poll_host_device Ring.put Ring.full Wire.read_ether_addr Wire.within Wire.load_all
    Wire.load
poll-three = refl

past_guard-late : past_guard (negsuc 4) 3 ≡ pos 3077
unfolding past_guard tu_to_usec
past_guard-late = refl

poll_host_device-Takes_example :
    Takes fresh fresh inputs idle (poll_host_device fresh inputs idle nothing_new)
poll_host_device-Takes_example =
    poll_host_device-Takes fresh fresh inputs idle nothing_new idle-IsSound

abbrev no_crc : List ℕ → ℕ
no_crc l = 0

-- One frame waits in the queue.
abbrev waiting : DaemonState
waiting = record idle {
  tx_queue_multicast = record { buffer = 0 ∷ 0 ∷ []; head = 1; tail = 0; max = 2; full = false };
  heap = value to_all 15 ∷ [];
}

abbrev holding : DaemonState
holding = record idle { next = some (value to_peer 15) }

send_unicast-Settles_example :
    Settles no_crc 2 sample_map 32768 holding
      (value to_peer 15)
      (send_unicast no_crc 2 sample_map 32768 holding)
send_unicast-Settles_example =
    send_unicast-Settles no_crc 2 sample_map 32768 holding (value to_peer 15) refl

-- A run from the state after `awdl_init`: a frame is read, and the multicast timer ends.
abbrev begun : DaemonState
begun = record idle {
  tx_queue_multicast = record {
    buffer = replicate 16 0;
    head = 0;
    tail = 0;
    max = 16;
    full = false;
  };
}

abbrev polled : DaemonState
polled = (host_device_ready no_crc 2 sample_map fresh fresh (to_all ∷ []) 100 200 begun).0

abbrev settled : DaemonState
settled = (send_multicast no_crc 2 fresh 32768 polled).0

abbrev no_callback : ℕ → Buf → Session → Session
no_callback type val h = h

abbrev plain : Radiotap
plain = record { iterate = λ _. some ([], true); bad_fcs = 0x40; fcs = 0x10 }

short_run : Reach fresh fresh no_crc 2 sample_map peer no_callback [] plain (to_all ∷ []) settled
unfolding Ring.init host_device_ready poll_host_device Ring.put Ring.full Wire.read_ether_addr
    Wire.within Wire.load_all Wire.load
short_run =
    later
      (later (start begun (replicate 16 0) refl refl refl)
        (host_device (to_all ∷ []) [] 100 200 refl))
      (multicast_timer 32768)

Reach-Behind_example : Behind fresh fresh (to_all ∷ []) settled
Reach-Behind_example =
    Reach-Behind fresh fresh no_crc 2 sample_map peer no_callback [] plain short_run
