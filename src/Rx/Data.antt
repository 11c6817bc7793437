-- ===== src/Rx/Data.antt =====
-- src/rx.c: the reception of data frames, alone or several in one frame.
use owl.Base.{
  ◌^◌, ℕ, zero, suc, ◌+◌, ◌-◌, ◌%◌, ◌==◌, ltb, if◌then◌else◌, true, false, Option, none, some, List,
  [], ◌∷◌, ◌++◌,
}
use owl.Base.Int.{ℤ, pos, negsuc, ◌+ℤ◌}
use owl.Base.Maybe.{◌>>=◌}
use owl.Election.{EtherAddr}
use owl.Hashmap.{Hashmap}
use owl.Peers.Table.{PeerMap}
use owl.Peers.{Peer}
use owl.Rx.Frame.{is_error, stripped}
use owl.Rx.Llc.{valid_llc_header}
use owl.Rx.{RxResult, ok, ignore_peer, unexpected_format, too_short}
use owl.State.{AwdlState}
use owl.Wire.{
  Buf, bytes_of, strip, read_be16, read_ether_addr, write_ether_addr, write_be16, write_bytes,
}

unfoldable pub count_rx_data : AwdlState → AwdlState
count_rx_data s = record s { stats = record s.stats { rx_data = (s.stats.rx_data + 1) % 2 ^ 64 } }

-- `offset += write_…(buf, offset, …)`: a failed write returns -1.
unfoldable pub write_next : (Buf → ℤ → Option (ℕ × Buf)) → Buf × ℤ → Buf × ℤ
write_next write (b, offset) = elim (write b offset) [
  | none ↦ (b, offset +ℤ negsuc 0)
  | some (n, b') ↦ (b', offset +ℤ pos n)
]

-- The Ethernet frame for the host, in a new buffer `out`.
unfoldable pub ethernet_frame : Buf → EtherAddr → EtherAddr → ℕ → List ℕ → Buf
unfolding write_next ◌+ℤ◌
ethernet_frame out dst src ether_type payload =
    let head = write_next (λ b o. write_ether_addr b o dst) (out, pos 0) in
    let head2 = write_next (λ b o. write_ether_addr b o src) head in
    let head3 = write_next (λ b o. write_be16 b o ether_type) head2 in
    (write_next (λ b o. write_bytes b o payload) head3).0

-- The read is in bounds: the caller has tested the length.
unfoldable pub ether_type_at : Buf → ℕ
ether_type_at frame = elim (read_be16 frame (pos 6)) [ none ↦ 0 | some (_, type) ↦ type ]

-- The addresses and the length of a subframe, and the frame behind its header.
abbrev pub Subframe : Type 0
Subframe = EtherAddr × EtherAddr × ℕ × Buf

unfoldable pub read_subframe : Buf → Option Subframe
read_subframe frame = do
  (_, dst) ← read_ether_addr frame (pos 0)
  (_, src) ← read_ether_addr frame (pos 6)
  (_, len) ← read_be16 frame (pos 12)
  (_, rest) ← strip frame (pos 14)
  some (dst, src, len, rest)

unfoldable pub skip_padding : Buf → ℕ → Option Buf
skip_padding frame len = do (_, behind) ← strip frame (pos ((4 - (14 + len) % 4) % 4)); some behind

-- The frame behind a subframe of a length, and behind its padding unless the frame has ended.
unfoldable pub skip_subframe : Buf → ℕ → Option Buf
unfolding skip_padding
skip_subframe frame len = do
  (_, rest) ← strip frame (pos len)
  if rest.len == 0 then some rest else skip_padding rest len

-- A subframe shares the bytes of the frame.
abbrev pub subframe_of : Buf → ℕ → Buf
subframe_of frame len = record frame { len = len; owned = false }

-- `fresh` is what `buf_new_owned` returns for ETHER_MAX_LEN of the system's headers.
module _ {Sound : Hashmap Peer → Type 0} (map : PeerMap (Hashmap Peer) Sound) (fresh : Buf) where
  -- The buffers are those that are stored through `out`.
  unfoldable pub rx_data : Buf → EtherAddr → EtherAddr → AwdlState → AwdlState × RxResult × List Buf
  unfolding count_rx_data valid_llc_header stripped ether_type_at ethernet_frame
  rx_data frame src dst s =
      let s' = count_rx_data s in
      elim (map.get s'.peers.peers src) [
        | none ↦ (s', ignore_peer, [])
        | some _ ↦ elim (valid_llc_header frame) as (λ _. AwdlState × RxResult × List Buf) [
          | false ↦ (s', unexpected_format, [])
          | true ↦
              let body = stripped frame 8 in
              if ltb body.len 8
              then (s', too_short, [])
              else let payload = bytes_of (stripped body 8) in
                (s', ok, ethernet_frame fresh dst src (ether_type_at body) payload ∷ [])
        ]
      ]

  -- The loop over the subframes, on fuel.
  unfoldable pub rx_data_amsdu : ℕ → Buf → AwdlState → AwdlState × RxResult × List Buf
  unfolding rx_data read_subframe skip_subframe is_error
  rx_data_amsdu zero frame s = (s, ok, [])
  rx_data_amsdu (suc fuel) frame s =
      elim (frame.len == 0) as (λ _. AwdlState × RxResult × List Buf) [
        | true ↦ (s, ok, [])
        | false ↦ elim (read_subframe frame) [
          | none ↦ (s, too_short, [])
          | some (dst, src, len, rest) ↦
              elim (ltb rest.len len) as (λ _. AwdlState × RxResult × List Buf) [
                | true ↦ (s, too_short, [])
                | false ↦
                    let (s', r, out) = rx_data (subframe_of rest len) src dst s in
                    elim (is_error r) as (λ _. AwdlState × RxResult × List Buf) [
                      | true ↦ (s', r, out)
                      | false ↦ elim (skip_subframe rest len) [
                        | none ↦ (s', too_short, out)
                        | some behind ↦
                            let (s'', r', out') = rx_data_amsdu fuel behind s' in
                            (s'', r', out ++ out')
                      ]
                    ]
              ]
        ]
      ]
