-- ===== src/Rx/DataTests.antt =====
-- Tests of the reception of data frames, and its theorems at concrete inputs.
use owl.Base.{ℕ, ◌≡◌, refl, false, true, some, none, List, [], ◌∷◌, ◌++◌, length, replicate, arith}
use owl.Base.Int.{pos}
use owl.Peers.Samples.{sample_map, table}
use owl.Rx.Data.{rx_data_amsdu}
use owl.Rx.Deliver.{Delivers, rx_data_amsdu_enough, rx_data_amsdu-Delivers}
use owl.Rx.Guard.{OnlyPeers, rx-OnlyPeers}
use owl.Rx.Receive.{
  Radiotap, with_peers, rx, frame_type, too_weak, radiotap_loop, check_fcs, arg_flags,
  arg_antsignal,
}
use owl.Rx.Samples.{addr, peer, node, value}
use owl.Rx.{Session}
use owl.State.{AwdlState}
use owl.Wire.{Buf, load}

abbrev with_table : AwdlState
with_table = with_peers node table

-- A buffer of 32 bytes for the host.
abbrev fresh : Buf
fresh = record { orig = replicate 32 0; data_at = 0; len = 32; owned = true }

abbrev llc : List ℕ
llc = 0xaa ∷ 0xaa ∷ 0x03 ∷ 0x00 ∷ 0x17 ∷ 0xf2 ∷ 0x08 ∷ 0x00 ∷ []

-- The AWDL header of a data frame, and two bytes of data.
abbrev content : List ℕ
content = llc ++ 3 ∷ 4 ∷ 0 ∷ 0 ∷ 0 ∷ 0 ∷ 0x86 ∷ 0xdd ∷ 65 ∷ 66 ∷ []

-- A subframe from the peer, one from another node, and padding between them.
abbrev amsdu : List ℕ
amsdu = addr 1 ++ addr 2 ++ 0 ∷ 18 ∷ content ++ addr 1 ++ addr 3 ++ 0 ∷ 18 ∷ content

abbrev sample_frame : Buf
sample_frame = value amsdu (length amsdu)

frame_type-data : frame_type (value (0x88 ∷ 0x02 ∷ []) 2) ≡ 0x88
unfolding frame_type load
frame_type-data = refl

too_weak-peer :
    too_weak (record node { rssi_threshold = pos 9; rssi_grace = pos 1 }) (some peer) (pos 9) ≡ true
unfolding too_weak
too_weak-peer = refl

too_weak-stranger :
    too_weak (record node { rssi_threshold = pos 9; rssi_grace = pos 1 }) none (pos 9) ≡ false
unfolding too_weak
too_weak-stranger = refl

radiotap_loop-last :
    radiotap_loop
      ((true, arg_flags 16) ∷ (false, arg_flags 1) ∷ (true, arg_antsignal (pos 3)) ∷ [])
      (pos 0, 0)
    ≡ (pos 3, 16)
unfolding radiotap_loop
radiotap_loop-last = refl

abbrev plain : Radiotap
plain = record { iterate = λ _. some ([], true); bad_fcs = 0x40; fcs = 0x10 }

check_fcs-bad : check_fcs plain sample_frame 0x50 ≡ none
unfolding check_fcs
check_fcs-bad = refl

rx_data_amsdu_enough_example :
    rx_data_amsdu sample_map fresh 90 sample_frame with_table
    ≡ rx_data_amsdu sample_map fresh 100 sample_frame with_table
rx_data_amsdu_enough_example =
    rx_data_amsdu_enough sample_map fresh 90 100 sample_frame with_table (omega arith) (omega arith)

rx_data_amsdu-Delivers_example :
    Delivers sample_map fresh 30 0 64 with_table
      (rx_data_amsdu sample_map fresh 90 sample_frame with_table)
rx_data_amsdu-Delivers_example = rx_data_amsdu-Delivers sample_map fresh 90 sample_frame with_table

-- A radiotap header of eight bytes, the IEEE 802.11 header of a data frame from the peer, and data.
abbrev captured : List ℕ
captured =
    0 ∷ 0 ∷ 8 ∷ 0 ∷ 0 ∷ 0 ∷ 0 ∷ 0 ∷ 0x08 ∷ 0 ∷ 0 ∷ 0 ∷ addr 1 ++ addr 2 ++ addr 9 ++ 0 ∷ 0 ∷ content

abbrev no_callback : ℕ → Buf → Session → Session
no_callback type val h = h

rx-OnlyPeers_example : OnlyPeers sample_map peer fresh no_callback [] plain 0 with_table (
    rx sample_map peer fresh no_callback [] plain
      (value captured (length captured))
      (pos 0, 0)
      0
      with_table)
rx-OnlyPeers_example =
    rx-OnlyPeers sample_map peer fresh no_callback [] plain 0 with_table
      (value captured (length captured)) (pos 0, 0)
