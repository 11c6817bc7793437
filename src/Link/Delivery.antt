-- ===== src/Link/Delivery.antt =====
-- A frame of the host, from the daemon of one node to the host of another.
use mathlib.Core.List.{append_assoc}
use owl.Base.{
  subst, ℕ, ◌+◌, ◌/◌, ◌%◌, ◌≤◌, ◌≡◌, refl, ap, ◌∙◌, ◌==◌, bit_and, true, false, some, List, [], ◌∷◌,
  ◌++◌, length, length-append, take, arith,
}
use owl.Base.Int.{ℤ}
use owl.Base.Order.{memcmp, is_eq}
use owl.Channel.{Chan}
use owl.Election.{EtherAddr}
use owl.Hashmap.{Hashmap}
use owl.Link.{on_air}
use owl.Link.Data.{llc_with, data_with, on_air-data, rx_data-View}
use owl.Link.Receive.{frame_with, Tap, Trailer, rx_frame-View, rx-View}
use owl.Link.View.{View, behind, strip-View, bytes_of-View, load_all-View}
use owl.Peers.Table.{PeerMap}
use owl.Peers.{Peer}
use owl.Rx.Data.{count_rx_data, ethernet_frame, rx_data}
use owl.Rx.Frame.{stripped}
use owl.Rx.Receive.{Radiotap, Received, radiotap_parse, dispatch, rx}
use owl.Rx.{RxResult, Session, ok}
use owl.Daemon.{DaemonState, wlan_send, host_send}
use owl.Daemon.Poll.{deliver, receive_frame}
use owl.Daemon.Send.{read_header, send_data}
use owl.Link.Ethernet.{ethernet, ethernet_frame-bytes}
use owl.State.{AwdlState}
use owl.Tx.Frame.{init_full_data_frame}
use owl.Tx.Parse.{whole}
use owl.Wire.Bounds.{IsValid, within_pos}
use owl.Wire.{Buf, bytes_of, read_be16, read_ether_addr}

module _ {Sound : Hashmap Peer → Type 0} (map : PeerMap (Hashmap Peer) Sound) (fresh_peer : Peer)
    (fresh : Buf) (tlv_cb : ℕ → Buf → Session → Session) (list : List Chan) (lib : Radiotap) where
  dispatch-data :
      (b : Buf) (rssi : ℤ) (now : ℕ) (src dst : EtherAddr) (r : AwdlState)
      → dispatch map fresh_peer fresh tlv_cb list lib (bit_and 8 0xfc) b rssi now src dst r
        ≡ (let d = rx_data map fresh b src dst r in (d.0, d.1, d.2, []))
  unfolding dispatch
  dispatch-data b rssi now src dst r = refl

  -- A frame on the air, as `awdl_rx` gets it: it hands on the Ethernet frame that it was made from.
  rx-data :
      (tap trail payload : List ℕ) (unset : ℤ × ℕ) (rssi : ℤ) (flags now seq seq' : ℕ)
      (src dst : EtherAddr) (q : Peer) (r : AwdlState)
      → Tap tap
      → ((rest : List ℕ) → radiotap_parse lib (whole (tap ++ rest)) unset ≡ some (rssi, flags))
      → (bit_and flags lib.bad_fcs == 0) ≡ true
      → Trailer lib flags trail
      → length dst ≡ 6
      → length src ≡ 6
      → is_eq (memcmp src r.self_address) ≡ false
      → map.get r.peers.peers src ≡ some q
      → let frame = frame_with 0x0008 dst src seq (llc_with (data_with seq' payload)) in
        rx map fresh_peer fresh tlv_cb list lib (whole (tap ++ (frame ++ trail))) unset now r
        ≡ (count_rx_data r, ok, ethernet_frame fresh dst src 0x86dd payload ∷ [], [])
  rx-data tap trail payload unset rssi flags now seq seq' src dst q r header parsed good trailer
        dst_six src_six other known =
      let body = llc_with (data_with seq' payload) in
      let frame = frame_with 0x0008 dst src seq body in
      let (b, v, first) =
        rx-View map fresh_peer fresh tlv_cb list lib tap frame trail unset rssi flags now r header
          (parsed (frame ++ trail)) good trailer in
      let (second, v') =
        rx_frame-View map fresh_peer fresh tlv_cb list lib 0x0008 seq dst src body b rssi now r v
          dst_six src_six other in
      first
      ∙ second
      ∙ dispatch-data (behind b 24) rssi now src dst r
      ∙ ap (λ (d : AwdlState × RxResult × List Buf). (d.0, d.1, d.2, []))
          (rx_data-View map fresh (behind b 24) seq' payload src dst q r v' known)

  deliver-ok :
      (s : DaemonState) (r : AwdlState) (out : Buf)
      → (deliver s (r, ok, out ∷ [], [])).1 ≡ host_send (bytes_of out) ∷ []
  unfolding deliver
  deliver-ok s r out = refl

  received_by :
      (bytes : List ℕ) (unset : ℤ × ℕ) (now : ℕ) (s : DaemonState) (r : Received)
      → rx map fresh_peer fresh tlv_cb list lib (whole bytes) unset now s.awdl_state ≡ r
      → (receive_frame map fresh_peer fresh tlv_cb list lib bytes unset now s).1 ≡ (deliver s r).1
  unfolding receive_frame
  received_by bytes unset now s r e = ap (λ x. (deliver s x).1) e

  module _ (crc32 : List ℕ → ℕ) (rate_type : ℕ) where
    read_header-View :
        (b : Buf) (dst src : EtherAddr) (type : ℕ) (payload : List ℕ)
        → View b (ethernet dst src type payload)
        → length dst ≡ 6
        → length src ≡ 6
        → read_header b ≡ some (dst, src)
    unfolding read_header read_be16 read_ether_addr
    read_header-View b dst src type payload v dst_six src_six =
        let rest = type / 256 ∷ type % 256 ∷ payload in
        let long : 14 ≤ b.len = omega (
          arith,
          v.len,
          length-append dst (src ++ rest),
          length-append src rest,
          dst_six,
          src_six,
        ) in
        rw
          (
            within_pos b 12 2 (omega arith),
            within_pos b 0 6 (omega arith),
            within_pos b 6 6 (omega arith),
            load_all-View b 0 6 [] dst (src ++ rest) v refl dst_six,
            load_all-View b 6 6 dst src rest v dst_six src_six,
          )
          refl

    -- The payload is behind the first 14 bytes.
    payload-View :
        (b : Buf) (dst src : EtherAddr) (type : ℕ) (payload : List ℕ)
        → View b (ethernet dst src type payload)
        → length dst ≡ 6
        → length src ≡ 6
        → bytes_of (stripped b 14) ≡ payload
    unfolding stripped
    payload-View b dst src type payload v dst_six src_six =
        let two = type / 256 ∷ type % 256 ∷ [] in
        let (cut, v') =
          strip-View b 14 (dst ++ (src ++ two)) payload (subst (View b) (simp append_assoc refl) v)
            (omega
              (arith, length-append dst (src ++ two), length-append src two, dst_six, src_six)) in
        rw (stripped, cut) (bytes_of-View (behind b 14) payload v')

    sends :
        (b : Buf) (dst src : EtherAddr) (s : DaemonState)
        → read_header b ≡ some (dst, src)
        → (send_data crc32 rate_type b s).1
          ≡ wlan_send
              (init_full_data_frame crc32 rate_type src dst
                (bytes_of (stripped b 14))
                s.awdl_state
                s.ieee80211_state).0
            ∷ []
    unfolding send_data
    sends b dst src s e = rw (send_data, e) refl

    -- The daemon sends one frame, and the other daemon hands one to its host, which begins so.
    abbrev pub Arrives :
        Buf → List ℕ → ℕ → DaemonState → List ℕ → List ℕ → ℤ × ℕ → ℕ → DaemonState → Type 0
    Arrives b eth n s tap trail unset now r =
        (frame : List ℕ) × ((send_data crc32 rate_type b s).1 ≡ wlan_send frame ∷ [])
        × (out : List ℕ) × ((receive_frame map fresh_peer fresh tlv_cb list lib
              (tap ++ (on_air frame ++ trail)) unset now r).1
            ≡ host_send out ∷ [])
        × (take n out ≡ eth)

    -- An Ethernet frame that the daemon of one node sends over the air, behind the radiotap header of
    -- the receiving device and before a checksum if the device leaves one, arrives at the daemon of
    -- another node as one frame for its host, which begins with the same addresses and the same
    -- payload. Its type is that of IPv6, whatever it was. The addresses have six octets, the sender
    -- is a peer of the receiver and not the receiver itself and adds no checksum of its own, the
    -- radiotap library accepts the header whatever follows it, the flags do not say that the checksum
    -- is bad, and the buffer for the host is valid and has room for the frame.
    pub data_frame-delivered :
        (b : Buf) (dst src : EtherAddr) (type : ℕ) (payload : List ℕ) (s : DaemonState)
        (tap trail : List ℕ) (unset : ℤ × ℕ) (rssi : ℤ) (flags now : ℕ) (q : Peer) (r : DaemonState)
        → View b (ethernet dst src type payload)
        → length dst ≡ 6
        → length src ≡ 6
        → s.ieee80211_state.fcs ≡ false
        → Tap tap
        → ((rest : List ℕ) → radiotap_parse lib (whole (tap ++ rest)) unset ≡ some (rssi, flags))
        → (bit_and flags lib.bad_fcs == 0) ≡ true
        → Trailer lib flags trail
        → is_eq (memcmp src r.awdl_state.self_address) ≡ false
        → map.get r.awdl_state.peers.peers src ≡ some q
        → IsValid fresh
        → 14 + length payload ≤ fresh.len
        → Arrives b (ethernet dst src 0x86dd payload) (14 + length payload) s tap trail unset now r
    data_frame-delivered b dst src type payload s tap trail unset rssi flags now q r v dst_six
          src_six no_fcs header parsed good trailer other known valid room =
        let sent =
          init_full_data_frame crc32 rate_type src dst payload s.awdl_state s.ieee80211_state in
        let out = ethernet_frame fresh dst src 0x86dd payload in
        (
          sent.0,
          sends b dst src s (read_header-View b dst src type payload v dst_six src_six)
              ∙ ap
                  (λ l.
                    wlan_send
                      (init_full_data_frame crc32 rate_type src dst l s.awdl_state
                        s.ieee80211_state).0
                    ∷ [])
                  (payload-View b dst src type payload v dst_six src_six),
          bytes_of out,
          ap
                (λ l.
                  (receive_frame map fresh_peer fresh tlv_cb list lib (tap ++ (l ++ trail)) unset
                    now r).1)
                (on_air-data crc32 rate_type src dst payload s.awdl_state s.ieee80211_state no_fcs)
              ∙ received_by _ unset now r _ (
                  rx-data tap trail payload unset rssi flags now s.ieee80211_state.sequence_number
                    s.awdl_state.sequence_number src dst q r.awdl_state header parsed good trailer
                    dst_six src_six other known)
              ∙ deliver-ok r (count_rx_data r.awdl_state) out,
          ethernet_frame-bytes fresh dst src 0x86dd payload valid dst_six src_six room,
        )
