-- ===== src/Link/Receive.antt =====
-- The way of a frame through `awdl_rx` of src/rx.c, up to the handler for its type.
use mathlib.Core.List.{append_assoc, append-nil}
use owl.Base.{
  subst, ℕ, ◌+◌, ◌*◌, ◌/◌, ◌%◌, ◌≡◌, refl, sym, ap, ◌∙◌, ◌⊎◌, inl, inr, ◌==◌, bit_and, true, false,
  some, List, [], ◌∷◌, ◌++◌, length, length-append, arith,
}
use owl.Base.Int.{ℤ, pos}
use owl.Base.Order.{memcmp, is_eq}
use owl.Channel.{Chan}
use owl.Election.{EtherAddr}
use owl.Hashmap.{Hashmap}
use owl.Link.View.{View, whole-View, behind, strip-View, take_end-View, load_all-View, load-View}
use owl.Peers.Table.{PeerMap}
use owl.Peers.{Peer}
use owl.Rx.Receive.{
  Radiotap, radiotap_parse, check_fcs, addr1, addr2, frame_type, dispatch, rx_frame, rx,
}
use owl.Rx.{Session}
use owl.State.{AwdlState, Ieee80211State, ieee80211_next_sequence_number}
use owl.Tx.Frame.{awdl_bssid, init_awdl_hdr}
use owl.Tx.Parse.{whole}
use owl.Tx.{le16}
use owl.Wire.{Buf, strip, load}

-- An IEEE 802.11 header of src/tx.c, by its fields, and what follows it.
abbrev pub frame_with : ℕ → EtherAddr → EtherAddr → ℕ → List ℕ → List ℕ
frame_with type dst src seq rest =
    le16 type ++ (le16 0 ++ (dst ++ (src ++ (awdl_bssid ++ (le16 (seq * 16) ++ rest)))))

pub init_awdl_hdr-bytes :
    (src dst : EtherAddr) (s : Ieee80211State) (type : ℕ) (rest : List ℕ)
    → (init_awdl_hdr src dst s type).0 ++ rest ≡ frame_with type dst src s.sequence_number rest
unfolding init_awdl_hdr ieee80211_next_sequence_number
init_awdl_hdr-bytes src dst s type rest = simp (append_assoc) refl

-- A radiotap header, whose bytes 2 and 3 have its length.
pub record Tap (tap : List ℕ) : Type 0 where
  pub version : ℕ
  pub pad : ℕ
  pub low : ℕ
  pub high : ℕ
  pub more : List ℕ
  pub bytes : tap ≡ version ∷ pad ∷ low ∷ high ∷ more
  pub size : length tap ≡ low + 256 * high

length-Tap :
    {tap : List ℕ} (h : Tap tap) (rest : List ℕ)
    → load (whole (tap ++ rest)) 2 + 256 * load (whole (tap ++ rest)) 3 ≡ length tap
length-Tap {tap} h rest =
    let v =
      subst (λ l. View (whole (tap ++ rest)) (l ++ rest)) h.bytes (whole-View (tap ++ rest)) in
    let front = h.version ∷ h.pad ∷ [] in
    rw
      (
        load-View _ 2 h.low front (h.high ∷ (h.more ++ rest)) v refl,
        load-View _ 3 h.high (front ++ h.low ∷ []) (h.more ++ rest) v refl,
      )
      (sym h.size)

-- The flags say whether the four bytes of a checksum follow.
abbrev pub Trailer : Radiotap → ℕ → List ℕ → Type 0
Trailer lib flags trail =
    ((bit_and flags lib.fcs == 0) ≡ true × (trail ≡ []))
    ⊎ ((bit_and flags lib.fcs == 0) ≡ false × (length trail ≡ 4))

module _ (type seq : ℕ) (dst src : EtherAddr) (rest : List ℕ) (b : Buf)
    (v : View b (frame_with type dst src seq rest)) (dst_six : length dst ≡ 6)
    (src_six : length src ≡ 6) where
  addr1-View : addr1 b ≡ dst
  unfolding addr1
  addr1-View = load_all-View b 4 6 (le16 type ++ le16 0) dst _ v refl dst_six

  addr2-View : addr2 b ≡ src
  unfolding addr2
  addr2-View =
      load_all-View b 10 6 (le16 type ++ (le16 0 ++ dst)) src
        (awdl_bssid ++ (le16 (seq * 16) ++ rest)) v (omega (arith, dst_six)) src_six

  frame_type-View : frame_type b ≡ bit_and (type % 256 + 256 * (type / 256 % 256)) 0xfc
  unfolding frame_type
  frame_type-View =
      rw
        (
          load-View b 0 (type % 256) [] _ v refl,
          load-View b 1 (type / 256 % 256) (type % 256 ∷ []) _ v refl,
        )
        refl

  body-View : (strip b (pos 24) ≡ some (24, behind b 24)) × View (behind b 24) rest
  body-View =
      strip-View b 24 (frame_with type dst src seq []) rest
        (subst (View b) (simp append_assoc refl) v)
        (simp length-append (omega (arith, dst_six, src_six)))

module _ {Sound : Hashmap Peer → Type 0} (map : PeerMap (Hashmap Peer) Sound) (fresh_peer : Peer)
    (fresh : Buf) (tlv_cb : ℕ → Buf → Session → Session) (list : List Chan) (lib : Radiotap) where
  -- The header of a frame is taken off, and its type and its addresses are those that it was made with.
  pub rx_frame-View :
      (type seq : ℕ) (dst src : EtherAddr) (rest : List ℕ) (b : Buf) (rssi : ℤ) (now : ℕ)
      (r : AwdlState)
      → View b (frame_with type dst src seq rest)
      → length dst ≡ 6
      → length src ≡ 6
      → is_eq (memcmp src r.self_address) ≡ false
      → (rx_frame map fresh_peer fresh tlv_cb list lib b rssi now r
          ≡ dispatch map fresh_peer fresh tlv_cb list lib
              (bit_and (type % 256 + 256 * (type / 256 % 256)) 0xfc)
              (behind b 24)
              rssi
              now
              src
              dst
              r)
        × View (behind b 24) rest
  unfolding rx_frame
  rx_frame-View type seq dst src rest b rssi now r v dst_six src_six other =
      let (cut, body) = body-View type seq dst src rest b v dst_six src_six in
      (
        rw
            (
              rx_frame,
              cut,
              addr2-View type seq dst src rest b v dst_six src_six,
              addr1-View type seq dst src rest b v dst_six src_six,
              frame_type-View type seq dst src rest b v dst_six src_six,
              other,
            )
            refl,
        body,
      )

  rx-steps :
      (frame frame' body : Buf) (unset : ℤ × ℕ) (rssi : ℤ) (n k flags now : ℕ) (r : AwdlState)
      → radiotap_parse lib frame unset ≡ some (rssi, flags)
      → load frame 2 + 256 * load frame 3 ≡ n
      → strip frame (pos n) ≡ some (k, frame')
      → check_fcs lib frame' flags ≡ some body
      → rx map fresh_peer fresh tlv_cb list lib frame unset now r
        ≡ rx_frame map fresh_peer fresh tlv_cb list lib body rssi now r
  unfolding rx
  rx-steps frame frame' body unset rssi n k flags now r parsed size cut checked =
      rw (rx, parsed, size, cut, checked) refl

  check_fcs-View :
      (b : Buf) (body trail : List ℕ) (flags : ℕ)
      → View b (body ++ trail)
      → (bit_and flags lib.bad_fcs == 0) ≡ true
      → Trailer lib flags trail
      → (b' : Buf) × (check_fcs lib b flags ≡ some b') × View b' body
  unfolding check_fcs
  check_fcs-View b body trail flags v good (inl (no_fcs, empty)) = (
    b,
    rw (check_fcs, good, no_fcs) refl,
    subst (View b) (ap (λ l. body ++ l) empty ∙ append-nil body) v,
  )
  check_fcs-View b body trail flags v good (inr (fcs, four)) =
      let (cut, v') = take_end-View b 4 body trail v four in
      (_, rw (check_fcs, good, fcs, cut) refl, v')

  -- The radiotap header and the checksum are taken off.
  pub rx-View :
      (tap body trail : List ℕ) (unset : ℤ × ℕ) (rssi : ℤ) (flags now : ℕ) (r : AwdlState)
      → Tap tap
      → radiotap_parse lib (whole (tap ++ (body ++ trail))) unset ≡ some (rssi, flags)
      → (bit_and flags lib.bad_fcs == 0) ≡ true
      → Trailer lib flags trail
      → (b : Buf) × View b body
        × (rx map fresh_peer fresh tlv_cb list lib (whole (tap ++ (body ++ trail))) unset now r
            ≡ rx_frame map fresh_peer fresh tlv_cb list lib b rssi now r)
  rx-View tap body trail unset rssi flags now r header parsed good trailer =
      let frame = whole (tap ++ (body ++ trail)) in
      let (cut, v) = strip-View frame (length tap) tap (body ++ trail) (whole-View _) refl in
      let (b, checked, v') = check_fcs-View _ body trail flags v good trailer in
      (
        b,
        v',
        rx-steps frame _ b unset rssi (length tap) _ flags now r parsed
            (length-Tap header (body ++ trail)) cut checked,
      )
