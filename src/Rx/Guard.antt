-- ===== src/Rx/Guard.antt =====
-- What reaches the host, whatever frame the WLAN device receives.
use owl.Base.{ℕ, ◌+◌, ◌*◌, inl, inr, ◌==◌, bit_and, Bool-cases, Option-cases, List, All}
use owl.Base.Int.{ℤ, pos}
use owl.Base.Order.{memcmp, is_eq}
use owl.Channel.{Chan}
use owl.Election.{EtherAddr}
use owl.Hashmap.{Hashmap}
use owl.Peers.Table.{PeerMap}
use owl.Peers.{Peer}
use owl.Rx.Deliver.{FromPeer, rx_data-Delivers, rx_data_amsdu-Delivers}
use owl.Rx.Receive.{
  Radiotap, Received, rx_qos, dispatch, rx_frame, rx, radiotap_parse, check_fcs, addr1, addr2,
  frame_type,
}
use owl.Rx.{Session}
use owl.State.{AwdlState}
use owl.Wire.{Buf, strip, load, read_le16}

module _ {Sound : Hashmap Peer → Type 0} (map : PeerMap (Hashmap Peer) Sound) (fresh_peer : Peer)
    (fresh : Buf) (tlv_cb : ℕ → Buf → Session → Session) (list : List Chan) (lib : Radiotap)
    (now : ℕ) (s : AwdlState) where
  -- Every buffer for the host is an Ethernet frame from a peer of the table before.
  abbrev pub OnlyPeers : Received → Type 0
  OnlyPeers r = All (FromPeer map fresh s.peers.peers) r.2

  rx_qos-OnlyPeers :
      (frame : Buf) (src dst : EtherAddr)
      → All
          (FromPeer map fresh s.peers.peers)
          (rx_qos map fresh_peer fresh tlv_cb list lib frame src dst s).2
  unfolding rx_qos
  rx_qos-OnlyPeers frame src dst = elim (Option-cases (read_le16 frame (pos 0))) [
    | inl e ↦ rw (rx_qos, e) tt
    | inr ((_, qosc), e) ↦ elim (Option-cases (strip frame (pos 2))) [
      | inl f ↦ rw (rx_qos, e, f) tt
      | inr ((_, body), f) ↦ elim (Bool-cases (bit_and qosc 0x80 == 0)) [
        | inl one ↦ rw (rx_qos, e, f, one) (rx_data-Delivers map fresh body src dst s).3
        | inr many ↦
            rw (rx_qos, e, f, many) (rx_data_amsdu-Delivers map fresh (body.len + 1) body s).3
      ]
    ]
  ]

  dispatch-OnlyPeers :
      (type : ℕ) (frame : Buf) (rssi : ℤ) (src dst : EtherAddr)
      → OnlyPeers (dispatch map fresh_peer fresh tlv_cb list lib type frame rssi now src dst s)
  unfolding dispatch
  dispatch-OnlyPeers type frame rssi src dst = elim (Bool-cases (type == 0xd0)) [
    | inl action ↦ rw (dispatch, action) tt
    | inr e ↦ elim (Bool-cases (type == 0x88)) [
      | inl qos ↦ rw (dispatch, e, qos) (rx_qos-OnlyPeers frame src dst)
      | inr f ↦ elim (Bool-cases (type == 0x08)) [
        | inl one ↦ rw (dispatch, e, f, one) (rx_data-Delivers map fresh frame src dst s).3
        | inr none_of ↦ rw (dispatch, e, f, none_of) tt
      ]
    ]
  ]

  rx_frame-OnlyPeers :
      (frame : Buf) (rssi : ℤ)
      → OnlyPeers (rx_frame map fresh_peer fresh tlv_cb list lib frame rssi now s)
  unfolding rx_frame
  rx_frame-OnlyPeers frame rssi = elim (Option-cases (strip frame (pos 24))) [
    | inl e ↦ rw (rx_frame, e) tt
    | inr ((_, body), e) ↦ elim (Bool-cases (is_eq (memcmp (addr2 frame) s.self_address))) [
      | inl self ↦ rw (rx_frame, e, self) tt
      | inr other ↦
          rw (rx_frame, e, other)
            (dispatch-OnlyPeers (frame_type frame) body rssi (addr2 frame) (addr1 frame))
    ]
  ]

  -- Whatever bytes are received, every buffer for the host is an Ethernet frame whose source is in the
  -- table of peers at that time.
  pub rx-OnlyPeers :
      (frame : Buf) (unset : ℤ × ℕ)
      → OnlyPeers (rx map fresh_peer fresh tlv_cb list lib frame unset now s)
  unfolding rx
  rx-OnlyPeers frame unset = elim (Option-cases (radiotap_parse lib frame unset)) [
    | inl e ↦ rw (rx, e) tt
    | inr ((rssi, flags), e) ↦
        elim (Option-cases (strip frame (pos (load frame 2 + 256 * load frame 3)))) [
          | inl f ↦ rw (rx, e, f) tt
          | inr ((_, frame'), f) ↦ elim (Option-cases (check_fcs lib frame' flags)) [
            | inl g ↦ rw (rx, e, f, g) tt
            | inr (body, g) ↦ rw (rx, e, f, g) (rx_frame-OnlyPeers body rssi)
          ]
        ]
  ]
