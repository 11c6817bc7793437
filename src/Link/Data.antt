-- ===== src/Link/Data.antt =====
-- A data frame of src/tx.c is what the data handler of src/rx.c delivers to the host.
use mathlib.Core.List.{append_assoc}
use owl.Base.{ℕ, ◌≡◌, refl, true, false, ltb, some, List, [], ◌∷◌, ◌++◌, length, arith}
use owl.Election.{EtherAddr}
use owl.Hashmap.{Hashmap}
use owl.Link.{on_air}
use owl.Link.Receive.{frame_with}
use owl.Link.View.{View, behind, strip-View, bytes_of-View, load-View, load_all-View}
use owl.Peers.Table.{PeerMap}
use owl.Peers.{Peer}
use owl.Rx.Data.{count_rx_data, ethernet_frame, ether_type_at, rx_data}
use owl.Rx.Frame.{stripped}
use owl.Rx.Llc.{LlcHdr, valid_llc_header}
use owl.Rx.{ok}
use owl.State.{AwdlState, Ieee80211State, next_sequence_number}
use owl.Tx.Frame.{
  init_data, init_awdl_data_hdr, init_radiotap_header, llc_init_awdl_hdr, init_full_data_frame,
  add_fcs,
}
use owl.Tx.Headers.{llc_parse-bytes}
use owl.Tx.Parse.{read_u8-load, read_be16-load, read_bytes_copy-load}
use owl.Tx.{le16, be16}
use owl.Wire.{Buf}

-- The sender's LLC header, and what follows it.
abbrev pub llc_with : List ℕ → List ℕ
llc_with rest = 0xaa ∷ 0xaa ∷ 0x03 ∷ 0x00 ∷ 0x17 ∷ 0xf2 ∷ 0x08 ∷ 0x00 ∷ rest

-- The header of an AWDL data frame, and what follows it.
abbrev pub data_with : ℕ → List ℕ → List ℕ
data_with seq rest = le16 0x0403 ++ (le16 seq ++ (le16 0 ++ (be16 0x86dd ++ rest)))

valid_llc-View : (b : Buf) (rest : List ℕ) → View b (llc_with rest) → valid_llc_header b ≡ true
unfolding valid_llc_header
valid_llc-View b rest v =
    let llc : LlcHdr = record {
      dsap = 0xaa;
      ssap = 0xaa;
      control = 0x03;
      oui = 0x00 ∷ 0x17 ∷ 0xf2 ∷ [];
      pid = 0x0800;
    } in
    let size = v.len in
    rw
      (
        valid_llc_header,
        llc_parse-bytes b llc (read_u8-load b 0 0xaa (load-View b 0 _ [] _ v refl) (omega arith))
            (read_u8-load b 1 0xaa (load-View b 1 _ (0xaa ∷ []) _ v refl) (omega arith))
            (read_u8-load b 2 0x03 (load-View b 2 _ (0xaa ∷ 0xaa ∷ []) _ v refl) (omega arith))
            (read_bytes_copy-load b 3 (0x00 ∷ 0x17 ∷ 0xf2 ∷ [])
              (load_all-View b 3 3 (0xaa ∷ 0xaa ∷ 0x03 ∷ []) _ (0x08 ∷ 0x00 ∷ rest) v refl refl)
              (omega arith))
            (read_be16-load b 6 0x0800 (omega arith)
              (load-View b 6 _ (0xaa ∷ 0xaa ∷ 0x03 ∷ 0x00 ∷ 0x17 ∷ 0xf2 ∷ []) _ v refl)
              (load-View b 7 _ (0xaa ∷ 0xaa ∷ 0x03 ∷ 0x00 ∷ 0x17 ∷ 0xf2 ∷ 0x08 ∷ []) _ v refl)
              (omega arith)),
      )
      refl

pub stripped-View :
    (b : Buf) (head tail : List ℕ)
    → View b (head ++ tail)
    → (stripped b (length head) ≡ behind b (length head)) × View (behind b (length head)) tail
unfolding stripped
stripped-View b head tail v =
    let (cut, v') = strip-View b (length head) head tail v refl in (rw (stripped, cut) refl, v')

ether_type-View :
    (b : Buf) (seq : ℕ) (rest : List ℕ) → View b (data_with seq rest) → ether_type_at b ≡ 0x86dd
unfolding ether_type_at
ether_type-View b seq rest v =
    let size = v.len in
    let front = le16 0x0403 ++ (le16 seq ++ le16 0) in
    rw
      (
        ether_type_at,
        read_be16-load b 6 0x86dd (omega arith) (load-View b 6 _ front _ v refl)
            (load-View b 7 _ (front ++ 0x86 ∷ []) _ v refl) (omega arith),
      )
      refl

module _ {Sound : Hashmap Peer → Type 0} (map : PeerMap (Hashmap Peer) Sound) (fresh : Buf) where
  pub rx_data-View :
      (b : Buf) (seq : ℕ) (payload : List ℕ) (src dst : EtherAddr) (q : Peer) (r : AwdlState)
      → View b (llc_with (data_with seq payload))
      → map.get r.peers.peers src ≡ some q
      → rx_data map fresh b src dst r
        ≡ (count_rx_data r, ok, ethernet_frame fresh dst src 0x86dd payload ∷ [])
  unfolding rx_data count_rx_data
  rx_data-View b seq payload src dst q r v known =
      let (cut, v1) = stripped-View b (llc_with []) (data_with seq payload) v in
      let (cut2, v2) = stripped-View (behind b 8) (data_with seq []) payload v1 in
      let size = v1.len in
      let long : ltb (behind b 8).len 8 ≡ false = ground arith in
      rw
        (
          rx_data,
          known,
          valid_llc-View b _ v,
          cut,
          long,
          ether_type-View (behind b 8) seq payload v1,
          cut2,
          bytes_of-View (behind (behind b 8) 8) payload v2,
        )
        refl

pub on_air-data :
    (crc32 : List ℕ → ℕ) (rate_type : ℕ) (src dst : EtherAddr) (payload : List ℕ) (s : AwdlState)
    (state : Ieee80211State)
    → state.fcs ≡ false
    → on_air (init_full_data_frame crc32 rate_type src dst payload s state).0
      ≡ frame_with 0x0008 dst src state.sequence_number
          (llc_with (data_with s.sequence_number payload))
unfolding init_full_data_frame add_fcs init_radiotap_header init_awdl_data_hdr init_data
    llc_init_awdl_hdr next_sequence_number
on_air-data crc32 rate_type src dst payload s state no_fcs = rw (no_fcs) (simp append_assoc refl)
