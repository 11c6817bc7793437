-- ===== src/Rx/Receive.antt =====
-- src/rx.c: the reception of action frames, and of frames as they come from the WLAN device.
use owl.Base.{
  ◌^◌, ◌%◌, ℕ, ◌+◌, ◌*◌, ◌==◌, ◌&&◌, not, bit_and, if◌then◌else◌, Bool, true, false, Option, none,
  some, List, [], ◌∷◌, ◌++◌,
}
use owl.Base.Int.{ℤ, pos, ◌+ℤ◌, ltb_ℤ}
use owl.Base.Order.{memcmp, is_eq}
use owl.Channel.{Chan}
use owl.Election.{EtherAddr}
use owl.Hashmap.{Hashmap}
use owl.Peers.Table.{PeerMap, PeersStatus, peer_add}
use owl.Peers.{Peer}
use owl.Rx.Data.{rx_data, rx_data_amsdu}
use owl.Rx.Frame.{parse_action_hdr, handle_body, stripped}
use owl.Rx.{
  RxResult, ok, ignore, ignore_rssi, ignore_failed_crc, ignore_from_self, unexpected_format,
  unexpected_type, too_short, Session, Outcome, next, stop, run,
}
use owl.State.{AwdlState}
use owl.Wire.{Buf, bytes_of, strip, take_end, load, load_all, read_le16}

-- The argument that the radiotap iterator is at, with the byte that `this_arg` points to.
pub data RadiotapArg : Type 0 where
  arg_tsft arg_other : RadiotapArg
  arg_flags : ℕ → RadiotapArg
  arg_antsignal : ℤ → RadiotapArg

-- The loop of `radiotap_parse`: the RSSI and the flags after the arguments, each with
-- `is_radiotap_ns`.
unfoldable pub radiotap_loop : List (Bool × RadiotapArg) → ℤ × ℕ → ℤ × ℕ
radiotap_loop [] r = r
radiotap_loop ((true, arg_flags f) ∷ l) (rssi, _) = radiotap_loop l (rssi, f)
radiotap_loop ((true, arg_antsignal v) ∷ l) (_, f) = radiotap_loop l (v, f)
radiotap_loop ((true, arg_tsft) ∷ l) r = radiotap_loop l r
radiotap_loop ((true, arg_other) ∷ l) r = radiotap_loop l r
radiotap_loop ((false, _) ∷ l) r = radiotap_loop l r

-- The radiotap library: the arguments of a header, and whether the iteration ends with -ENOENT;
-- `none` if the header is refused. Two masks of flags.
pub record Radiotap : Type 0 where
  pub iterate : List ℕ → Option (List (Bool × RadiotapArg) × Bool)
  pub bad_fcs : ℕ
  pub fcs : ℕ

-- The result where the caller goes on: `none` is RX_UNEXPECTED_FORMAT. `unset` is what the two
-- variables hold before, which the caller does not set.
unfoldable pub radiotap_parse : Radiotap → Buf → ℤ × ℕ → Option (ℤ × ℕ)
unfolding radiotap_loop
radiotap_parse lib frame unset = elim (lib.iterate (bytes_of frame)) [
  | none ↦ none
  | some (args, complete) ↦ if complete then some (radiotap_loop args unset) else none
]

-- The frame without its checksum; `none` is a result other than 0.
unfoldable pub check_fcs : Radiotap → Buf → ℕ → Option Buf
check_fcs lib frame flags =
    if not (bit_and flags lib.bad_fcs == 0)
    then none
    else if not (bit_and flags lib.fcs == 0)
    then elim (take_end frame (pos 4)) [ none ↦ none | some (_, b) ↦ some b ]
    else some frame

-- The state, the result, the buffers for the host, and the calls of the callback for peers.
abbrev pub Received : Type 0
Received = AwdlState × RxResult × List Buf × List Peer

abbrev with_calls : AwdlState × RxResult × List Peer → Received
with_calls (s, r, calls) = (s, r, [], calls)

abbrev with_buffers : AwdlState × RxResult × List Buf → Received
with_buffers (s, r, out) = (s, r, out, [])

abbrev pub with_peers : AwdlState → Hashmap Peer → AwdlState
with_peers s m = record s { peers = record s.peers { peers = m } }

abbrev pub count_rx_action : AwdlState → AwdlState
count_rx_action s = record s {
  stats = record s.stats { rx_action = (s.stats.rx_action + 1) % 2 ^ 64 };
}

-- The frames that are too weak, from a peer or from others.
unfoldable pub too_weak : AwdlState → Option Peer → ℤ → Bool
unfolding ◌+ℤ◌
too_weak s (some _) rssi = s.filter_rssi && ltb_ℤ rssi (s.rssi_threshold +ℤ s.rssi_grace)
too_weak s none rssi = s.filter_rssi && ltb_ℤ rssi s.rssi_threshold

-- The receiver and the source of a frame, in its IEEE 802.11 header.
unfoldable pub addr1 : Buf → EtherAddr
addr1 frame = load_all frame 4 6

unfoldable pub addr2 : Buf → EtherAddr
addr2 frame = load_all frame 10 6

-- `frame_control & (FTYPE | STYPE)`.
unfoldable pub frame_type : Buf → ℕ
frame_type frame = bit_and (load frame 0 + 256 * load frame 1) 0xfc

module _ {Sound : Hashmap Peer → Type 0} (map : PeerMap (Hashmap Peer) Sound) (fresh_peer : Peer)
    (fresh : Buf) (tlv_cb : ℕ → Buf → Session → Session) (list : List Chan) (lib : Radiotap) where
  -- The end of `awdl_rx_action`: what the handlers have written through the pointer to the peer is
  -- in the table, and the peer is updated once more if they have succeeded.
  unfoldable pub finish_action :
      EtherAddr → ℕ → List Peer → Session × Outcome (Unit {0}) → AwdlState × RxResult × List Peer
  finish_action src tsft calls (h, o) =
      let peers = map.store h.state.peers.peers src h.peer in
      let s = with_peers h.state peers in
      let updated = peer_add map fresh_peer peers src tsft s.peer_cb in
      elim o [
        | stop ok ↦ (with_peers s updated.0, ok, calls ++ updated.2)
        | stop r ↦ (s, r, calls)
        | next _ ↦ (s, ok, calls)
      ]

  unfoldable pub rx_action : Buf → ℤ → ℕ → EtherAddr → AwdlState → AwdlState × RxResult × List Peer
  unfolding too_weak finish_action handle_body parse_action_hdr stripped run peer_add
  rx_action frame rssi tsft src s = elim (parse_action_hdr frame) [
    | none ↦ (s, ignore, [])
    | some subtype ↦
        let body = stripped frame 16 in
        elim (too_weak s (map.get s.peers.peers src) rssi)
          as (λ _. AwdlState × RxResult × List Peer) [
            | true ↦ (s, ignore_rssi, [])
            | false ↦
                let s' = count_rx_action s in
                let (peers, status, calls) =
                  peer_add map fresh_peer s'.peers.peers src tsft s'.peer_cb in
                let s'' = with_peers s' peers in
                elim status as (λ _. AwdlState × RxResult × List Peer) [
                  | PeersStatus.internal ↦ (s'', ignore, calls)
                  | PeersStatus.missing ↦ (s'', ignore, calls)
                  | _ ↦ elim (map.get peers src) [
                    | none ↦ (s'', ignore, calls)
                    | some peer ↦ finish_action src tsft calls (
                        run (handle_body tlv_cb list body subtype tsft)
                          (record { peer = peer; state = s'' }))
                  ]
                ]
          ]
  ]

  -- A data frame, which may have a QoS field and hold several.
  unfoldable pub rx_qos : Buf → EtherAddr → EtherAddr → AwdlState → AwdlState × RxResult × List Buf
  unfolding rx_data rx_data_amsdu
  rx_qos frame src dst s = elim (read_le16 frame (pos 0)) [
    | none ↦ (s, too_short, [])
    | some (_, qosc) ↦ elim (strip frame (pos 2)) [
      | none ↦ (s, too_short, [])
      | some (_, body) ↦ elim (bit_and qosc 0x80 == 0) as (λ _. AwdlState × RxResult × List Buf) [
        | false ↦ rx_data_amsdu map fresh (body.len + 1) body s
        | true ↦ rx_data map fresh body src dst s
      ]
    ]
  ]

  -- The `switch` over the type of a frame, behind the IEEE 802.11 header.
  unfoldable pub dispatch : ℕ → Buf → ℤ → ℕ → EtherAddr → EtherAddr → AwdlState → Received
  unfolding rx_action rx_qos rx_data
  dispatch type frame rssi now src dst s =
      if type == 0xd0
      then with_calls (rx_action frame rssi now src s)
      else if type == 0x88
      then with_buffers (rx_qos frame src dst s)
      else if type == 0x08
      then with_buffers (rx_data map fresh frame src dst s)
      else (s, unexpected_type, [], [])

  -- Behind the radiotap header and without the checksum.
  unfoldable pub rx_frame : Buf → ℤ → ℕ → AwdlState → Received
  unfolding dispatch addr1 addr2 frame_type
  rx_frame frame rssi now s = elim (strip frame (pos 24)) [
    | none ↦ (s, too_short, [], [])
    | some (_, body) ↦
        if is_eq (memcmp (addr2 frame) s.self_address)
        then (s, ignore_from_self, [], [])
        else dispatch (frame_type frame) body rssi now (addr2 frame) (addr1 frame) s
  ]

  -- `now` is the time of the clock. The length of the radiotap header stands at its bytes 2 and 3.
  unfoldable pub rx : Buf → ℤ × ℕ → ℕ → AwdlState → Received
  unfolding radiotap_parse check_fcs rx_frame
  rx frame unset now s = elim (radiotap_parse lib frame unset) [
    | none ↦ (s, unexpected_format, [], [])
    | some (rssi, flags) ↦ elim (strip frame (pos (load frame 2 + 256 * load frame 3))) [
      | none ↦ (s, too_short, [], [])
      | some (_, frame') ↦ elim (check_fcs lib frame' flags) [
        | none ↦ (s, ignore_failed_crc, [], [])
        | some body ↦ rx_frame body rssi now s
      ]
    ]
  ]
