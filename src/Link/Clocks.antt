-- ===== src/Link/Clocks.antt =====
-- The clock of a node after it has heard an action frame of its master.
use owl.Base.{
  ℕ, ◌*◌, ◌/◌, ◌^◌, ◌≤◌, ◌<◌, ◌≡◌, refl, ap, sym, subst, ◌∙◌, ◌==◌, bit_and, inl, inr, Bool-cases,
  true, false, some, List, ◌++◌, length,
}
use owl.Base.Int.{ℤ, pos}
use owl.Base.Order.{memcmp, is_eq}
use owl.Channel.{Chan}
use owl.Election.{is_sync_master}
use owl.Hashmap.{Hashmap}
use owl.Link.Action.{met}
use owl.Link.Beacon.{action_frame-heard}
use owl.Link.Receive.{Tap, Trailer}
use owl.Link.Tlvs.{IsSendable}
use owl.Link.{on_air}
use owl.Peers.Laws.{known}
use owl.Peers.Table.{PeerMap, mark, turns_valid}
use owl.Peers.{Peer}
use owl.Rx.Receive.{Radiotap, radiotap_parse, too_weak, rx}
use owl.Rx.{Session, ok}
use owl.State.{AwdlState, Ieee80211State}
use owl.Sync.Laws.{IsValid}
use owl.Sync.{eaw_period, next_aw_tu, current_aw, current_eaw, error_tu}
use owl.Tx.Clock.{sync_params-heard}
use owl.Tx.Frame.{ActionType, init_full_action_frame}
use owl.Tx.Parse.{whole}
use owl.Wire.{Buf}

mark-addr : (p : Peer) → (mark p).addr ≡ p.addr
unfolding mark
mark-addr p = elim (Bool-cases (turns_valid p)) [
  | inl e ↦ rw (mark, e) refl
  | inr e ↦ rw (mark, e) refl
]

module _ {Sound : Hashmap Peer → Type 0} (map : PeerMap (Hashmap Peer) Sound) (fresh_peer : Peer)
    (fresh : Buf) (tlv_cb : ℕ → Buf → Session → Session) (list : List Chan) (lib : Radiotap) where
  -- A node that hears an action frame of the peer that it follows as its master, behind the radiotap
  -- header of its device and before a checksum if the device leaves one, accepts it, and its clock then
  -- agrees with the clock of the sender: at the time of the reception the next availability window is
  -- as far away as it was at the time of the sending, the extended window is the same, and no error is
  -- left. What the sender sends fits its fields, it is not the receiver, is not too weak and adds no
  -- checksum of its own, the destination has six octets, the radiotap library accepts the header
  -- whatever follows it, and the flags do not say that the checksum is bad. The receiver's array of
  -- channels has 16 of them, its table is sound and its clock valid, it has no callback for TLVs, and
  -- its presence mode is 4, as is that of the sender. Both have extended windows of the same length, and the time of the
  -- reception is at least one of them and below 2^64.
  pub clocks-agree :
      (s : AwdlState) (state : Ieee80211State) (type : ActionType) (clock sent now : ℕ)
      (crc32 : List ℕ → ℕ) (rate_type : ℕ) (tap trail : List ℕ) (unset : ℤ × ℕ) (rssi : ℤ)
      (flags : ℕ) (r : AwdlState) (q : Peer)
      → IsSendable s
      → length s.dst ≡ 6
      → state.fcs ≡ false
      → Tap tap
      → ((rest : List ℕ) → radiotap_parse lib (whole (tap ++ rest)) unset ≡ some (rssi, flags))
      → (bit_and flags lib.bad_fcs == 0) ≡ true
      → Trailer lib flags trail
      → length list ≡ 16
      → Sound r.peers.peers
      → is_eq (memcmp s.self_address r.self_address) ≡ false
      → r.tlv_cb ≡ false
      → r.sync.presence_mode ≡ 4
      → too_weak r (map.get r.peers.peers s.self_address) rssi ≡ false
      → map.get r.peers.peers s.self_address ≡ some q
      → is_sync_master r.election q.addr ≡ true
      → IsValid r.sync
      → s.sync.presence_mode ≡ 4
      → eaw_period s.sync ≡ eaw_period r.sync
      → 1024 * eaw_period r.sync ≤ now
      → now < 2 ^ 64
      → let frame = (init_full_action_frame crc32 rate_type s state type clock sent).0 in
        let x =
          rx map fresh_peer fresh tlv_cb list lib
            (whole (tap ++ (on_air frame ++ trail)))
            unset
            now
            r in
        (x.1 ≡ ok)
        × (next_aw_tu now x.0.sync ≡ next_aw_tu sent s.sync)
        × (current_eaw now x.0.sync ≡ current_eaw sent s.sync)
        × (error_tu now (next_aw_tu sent s.sync) (current_aw sent s.sync) x.0.sync ≡ pos 0)
  unfolding current_eaw
  clocks-agree s state type clock sent now crc32 rate_type tap trail unset rssi flags r q ready
        dst_six no_fcs header parsed good trailer long sound other quiet mode strong there master
        valid sends_four same up fits =
      let (hears, _) =
        action_frame-heard map fresh_peer fresh tlv_cb list lib s state type clock sent now crc32
          rate_type tap trail unset rssi flags r ready dst_six no_fcs header parsed good trailer
          long sound other quiet mode strong in
      let h = met map fresh_peer fresh tlv_cb list lib s.self_address now r in
      elim hears [
        | inl (absent, _, _) ↦ cc (absent, there)
        | inr (accepted, _, _, after) ↦
            let (_, _, tu, eaw, err) =
              sync_params-heard s h sent now ready.clock valid ready.election.master_addr
                (subst (λ a. is_sync_master r.election a ≡ true)
                  (sym (mark-addr _ ∙ ap (λ o. (known fresh_peer s.self_address o).addr) there))
                  master)
                mode same up fits in
            (
              accepted,
              ap (next_aw_tu now) after ∙ tu,
              ap (current_eaw now) after
                  ∙ eaw
                  ∙ ap (λ m. current_aw sent s.sync / m) (sym sends_four),
              ap (error_tu now (next_aw_tu sent s.sync) (current_aw sent s.sync)) after ∙ err,
            )
      ]
