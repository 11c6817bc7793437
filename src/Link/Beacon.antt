-- ===== src/Link/Beacon.antt =====
-- An action frame of src/tx.c, over the air to `awdl_rx` of another node.
use mathlib.Core.List.{append_assoc}
use owl.Base.{
  ℕ, ◌≡◌, refl, sym, ap, subst, ◌∙◌, ◌==◌, bit_and, true, false, some, List, [], ◌++◌, length,
}
use owl.Base.Int.{ℤ}
use owl.Base.Order.{memcmp, is_eq}
use owl.Channel.{Chan}
use owl.Election.{EtherAddr}
use owl.Hashmap.{Hashmap}
use owl.Link.Action.{Hears, rx_action-Hears}
use owl.Link.Receive.{frame_with, init_awdl_hdr-bytes, Tap, Trailer, rx_frame-View, rx-View}
use owl.Link.Tlvs.{IsSendable}
use owl.Link.View.{behind}
use owl.Link.{on_air}
use owl.Peers.Table.{PeerMap}
use owl.Peers.{Peer}
use owl.Rx.Receive.{Radiotap, Received, radiotap_parse, too_weak, rx_action, dispatch, rx}
use owl.Rx.{Session}
use owl.State.{AwdlState, Ieee80211State}
use owl.Tx.Frame.{
  ActionType, init_action, init_awdl_action_hdr, init_radiotap_header, action_tlvs, add_fcs,
  init_full_action_frame,
}
use owl.Tx.Parse.{whole}
use owl.Wire.{Buf}

on_air-action :
    (crc32 : List ℕ → ℕ) (rate_type : ℕ) (s : AwdlState) (state : Ieee80211State)
    (type : ActionType) (clock sent : ℕ)
    → state.fcs ≡ false
    → on_air (init_full_action_frame crc32 rate_type s state type clock sent).0
      ≡ frame_with 0x00d0 s.dst s.self_address state.sequence_number
          (init_action type clock ++ action_tlvs crc32 rate_type s type sent)
unfolding init_full_action_frame add_fcs init_radiotap_header init_awdl_action_hdr
on_air-action crc32 rate_type s state type clock sent no_fcs =
    let tlvs = action_tlvs crc32 rate_type s type sent in
    rw no_fcs (
      append_assoc (init_awdl_action_hdr s.self_address s.dst state).0 (init_action type clock) tlvs
      ∙ init_awdl_hdr-bytes s.self_address s.dst state 0x00d0 (init_action type clock ++ tlvs))

module _ {Sound : Hashmap Peer → Type 0} (map : PeerMap (Hashmap Peer) Sound) (fresh_peer : Peer)
    (fresh : Buf) (tlv_cb : ℕ → Buf → Session → Session) (list : List Chan) (lib : Radiotap) where
  dispatch-action :
      (b : Buf) (rssi : ℤ) (now : ℕ) (src dst : EtherAddr) (r : AwdlState)
      → dispatch map fresh_peer fresh tlv_cb list lib (bit_and 0xd0 0xfc) b rssi now src dst r ≡ (
          let x = rx_action map fresh_peer fresh tlv_cb list lib b rssi now src r in
          (x.0, x.1, [], x.2))
  unfolding dispatch
  dispatch-action b rssi now src dst r = refl

  -- An action frame that a node sends over the air, behind the radiotap header of the receiving
  -- device and before a checksum if the device leaves one, is accepted by another node, unless the
  -- sender is new to it and putting it into the table fails for want of memory. The table of peers is sound afterwards and
  -- has the sender with the election state, the channel sequence, the version, the device class and
  -- the country code that it has sent, and after a MIF with its name and the mark. The peers of other
  -- addresses are as before, the clock is as the handler of the synchronization parameters makes it,
  -- and nothing goes to the host. What the sender sends fits its fields, it is not the receiver, is
  -- not too weak and adds no checksum of its own, the destination has six octets, the radiotap
  -- library accepts the header whatever follows it, the flags do not say that the checksum is bad,
  -- the receiver's array of channels has 16 of them, its table is sound, it has no callback for
  -- TLVs, and its presence mode is 4.
  pub action_frame-heard :
      (s : AwdlState) (state : Ieee80211State) (type : ActionType) (clock sent now : ℕ)
      (crc32 : List ℕ → ℕ) (rate_type : ℕ) (tap trail : List ℕ) (unset : ℤ × ℕ) (rssi : ℤ)
      (flags : ℕ) (r : AwdlState)
      → IsSendable s
      → length s.dst ≡ 6
      → state.fcs ≡ false
      → Tap tap
      → ((rest : List ℕ) → radiotap_parse lib (whole (tap ++ rest)) unset ≡ some (rssi, flags))
      → (bit_and flags lib.bad_fcs == 0) ≡ true
      → Trailer lib flags trail
      → length list ≡ 16
      → Sound r.peers.peers
      → is_eq (memcmp s.self_address r.self_address) ≡ false
      → r.tlv_cb ≡ false
      → r.sync.presence_mode ≡ 4
      → too_weak r (map.get r.peers.peers s.self_address) rssi ≡ false
      → let frame = (init_full_action_frame crc32 rate_type s state type clock sent).0 in
        let x =
          rx map fresh_peer fresh tlv_cb list lib
            (whole (tap ++ (on_air frame ++ trail)))
            unset
            now
            r in
        Hears map fresh_peer fresh tlv_cb list lib s type sent now r (x.0, x.1) × (x.2 ≡ [])
  action_frame-heard s state type clock sent now crc32 rate_type tap trail unset rssi flags r ready
        dst_six no_fcs header parsed good trailer long sound other quiet mode strong =
      let tlvs = init_action type clock ++ action_tlvs crc32 rate_type s type sent in
      let frame = frame_with 0x00d0 s.dst s.self_address state.sequence_number tlvs in
      let (b, v, first) =
        rx-View map fresh_peer fresh tlv_cb list lib tap frame trail unset rssi flags now r header
          (parsed (frame ++ trail)) good trailer in
      let (second, v') =
        rx_frame-View map fresh_peer fresh tlv_cb list lib 0x00d0 state.sequence_number s.dst
          s.self_address tlvs b rssi now r v dst_six ready.address other in
      let through =
        ap (λ l. rx map fresh_peer fresh tlv_cb list lib (whole (tap ++ (l ++ trail))) unset now r)
          (on_air-action crc32 rate_type s state type clock sent no_fcs)
        ∙ first
        ∙ second
        ∙ dispatch-action (behind b 24) rssi now s.self_address s.dst r in
      subst
        (λ (x : Received).
          Hears map fresh_peer fresh tlv_cb list lib s type sent now r (x.0, x.1) × (x.2 ≡ []))
        (sym through)
        (
          rx_action-Hears map fresh_peer fresh tlv_cb list lib s type clock sent now crc32 rate_type
              (behind b 24) rssi r v' ready long sound quiet mode strong,
          refl,
        )
