-- ===== src/Daemon/Poll.antt =====
-- src/daemon/core.c: taking frames from the host and from the WLAN device.
use owl.Base.{
  ◌^◌, ℕ, ◌+◌, ◌%◌, ◌==◌, if◌then◌else◌, Bool, true, false, none, some, List, [], ◌∷◌, ◌++◌, get_or,
  drop, length,
}
use owl.Base.Int.{ℤ, pos}
use owl.Channel.{Chan}
use owl.Daemon.{DaemonState, Effect, host_send}
use owl.Daemon.Send.{send_unicast, send_multicast}
use owl.Hashmap.{Hashmap}
use owl.Peers.Table.{PeerMap}
use owl.Peers.{Peer}
use owl.Ring
use owl.Rx.Frame.{is_error}
use owl.Rx.Receive.{Radiotap, Received, rx}
use owl.Rx.{ok, Session}
use owl.State.{AwdlState}
use owl.Wire.{Buf, bytes_of, read_ether_addr}

-- The bits of the result of `poll_host_device`.
pub record Polled : Type 0 where
  pub new_unicast : Bool
  pub new_multicast : Bool

abbrev pub nothing_new : Polled
nothing_new = record { new_unicast = false; new_multicast = false }

-- `buf_new_owned`, the read into it, and `buf_take` of what was not read. `fresh` is the new buffer.
unfoldable pub received : Buf → List ℕ → Buf
received fresh bytes = record fresh {
  orig = bytes ++ drop (length bytes) fresh.orig;
  len = length bytes;
}

-- The test of the loop fails.
abbrev pub has_enough : DaemonState → Bool
has_enough s = elim s.next [ some _ ↦ true | none ↦ Ring.full s.tx_queue_multicast ]

-- `circular_buf_put` of the pointer to a new buffer.
unfoldable pub enqueue : DaemonState → Buf → DaemonState
enqueue s buf = record s {
  tx_queue_multicast = Ring.put s.tx_queue_multicast (length s.heap);
  heap = s.heap ++ buf ∷ [];
}

-- The loop of `poll_host_device` over the frames that the host device has; with none left the read
-- fails. What is left of them, and the result. A frame too short for an address ends the loop.
unfoldable pub poll_host_device :
    Buf → List (List ℕ) → DaemonState → Polled → DaemonState × List (List ℕ) × Polled
unfolding received enqueue
poll_host_device fresh [] s r = (s, [], r)
poll_host_device fresh (bytes ∷ input) s r =
    let buf = received fresh bytes in
    let with_multicast =
      poll_host_device fresh input (enqueue s buf) (record r { new_multicast = true }) in
    let with_unicast =
      poll_host_device fresh input (record s { next = some buf })
        (record r { new_unicast = true }) in
    elim (has_enough s) as (λ _. DaemonState × List (List ℕ) × Polled) [
      | true ↦ (s, bytes ∷ input, r)
      | false ↦ elim (read_ether_addr buf (pos 0)) [
        | none ↦ (s, input, r)
        | some (_, dst) ↦ if get_or dst 0 0 % 2 == 1 then with_multicast else with_unicast
      ]
    ]

module _ (crc32 : List ℕ → ℕ) (rate_type : ℕ) {Sound : Hashmap Peer → Type 0}
    (map : PeerMap (Hashmap Peer) Sound) (fresh d : Buf) where
  -- `now` and `now'` are the times of the clock in the two calls.
  unfoldable pub host_device_ready :
      List (List ℕ) → ℕ → ℕ → DaemonState → DaemonState × List (List ℕ) × List Effect
  unfolding poll_host_device send_multicast send_unicast
  host_device_ready input now now' s =
      let (s1, left, r) = poll_host_device fresh input s nothing_new in
      let (s2, sent) =
        if r.new_multicast then send_multicast crc32 rate_type d now s1 else (s1, []) in
      let (s3, sent') =
        if r.new_unicast then send_unicast crc32 rate_type map now' s2 else (s2, []) in
      (s3, left, sent ++ sent')

abbrev count_unknown : AwdlState → AwdlState
count_unknown s = record s {
  stats = record s.stats { rx_unknown = (s.stats.rx_unknown + 1) % 2 ^ 64 };
}

abbrev host_sends : List Buf → List Effect
host_sends [] = []
host_sends (b ∷ out) = host_send (bytes_of b) ∷ host_sends out

-- What `awdl_receive_frame` does with the result of `awdl_rx`.
unfoldable pub deliver : DaemonState → Received → DaemonState × List Effect × List Peer
unfolding is_error
deliver s (awdl, r, out, calls) = elim r [
  | ok ↦ (record s { awdl_state = awdl }, host_sends out, calls)
  | other ↦
      let awdl' = if is_error other then count_unknown awdl else awdl in
      (record s { awdl_state = awdl' }, [], calls)
]

-- A captured frame, as it comes from the WLAN device.
abbrev pub captured : List ℕ → Buf
captured bytes = record { orig = bytes; data_at = 0; len = length bytes; owned = false }

module _ {Sound : Hashmap Peer → Type 0} (map : PeerMap (Hashmap Peer) Sound) (fresh_peer : Peer)
    (fresh : Buf) (tlv_cb : ℕ → Buf → Session → Session) (list : List Chan) (lib : Radiotap) where
  -- The array of the code has 16 places for the buffers; here there is no bound on their number.
  unfoldable pub receive_frame :
      List ℕ → ℤ × ℕ → ℕ → DaemonState → DaemonState × List Effect × List Peer
  unfolding deliver rx
  receive_frame bytes unset now s =
      deliver s (rx map fresh_peer fresh tlv_cb list lib (captured bytes) unset now s.awdl_state)
