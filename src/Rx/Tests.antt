-- ===== src/Rx/Tests.antt =====
-- Tests of the TLV handlers, and their theorems at concrete inputs.
use owl.Base.{ℕ, ◌≡◌, refl, arith, false, List, [], ◌∷◌, replicate}
use owl.Rx.{Session, stop, ok, too_short, ◌>>=◌, ◌>>◌, checked, change_peer, finish}
use owl.Rx.Frame.{handle_tlvs}
use owl.Rx.Loop.{Ended, handle_each, handle_tlvs_enough, handle_tlvs-each}
use owl.Rx.Keeps.{Kept, handle_tlv-Kept}
use owl.Rx.Samples.{peer, start, value}
use owl.Rx.Tlv.{handle_tlv, handle_version}
use owl.Wire.{Buf, read_u8, within, load}

version_tlv :
    handle_version (value (0x34 ∷ 1 ∷ []) 2) start
    ≡ (record start { peer = record peer { version = 0x34; devclass = 1 } }, stop ok)
unfolding handle_version ◌>>=◌ ◌>>◌ checked change_peer finish read_u8 within load
version_tlv = refl

-- A value that is too short changes nothing.
short_version_tlv : handle_version (value (0x34 ∷ []) 1) start ≡ (start, stop too_short)
unfolding handle_version ◌>>=◌ ◌>>◌ checked change_peer finish read_u8 within load
short_version_tlv = refl

handle_tlv-Kept_example : Kept start (handle_tlv [] 4 (value (replicate 31 9) 31) 5000 start).0
handle_tlv-Kept_example = handle_tlv-Kept [] 4 (value (replicate 31 9) 31) 5000 start

-- A node without a callback, as it is set up.
abbrev no_callback : ℕ → Buf → Session → Session
no_callback type val h = h

-- A version, and a TLV of a type that is not handled.
abbrev two_tlvs : List (ℕ × List ℕ)
two_tlvs = (21, 0x34 ∷ 1 ∷ []) ∷ (99, 7 ∷ []) ∷ []

abbrev frame : Buf
frame = record {
  orig = 5 ∷ 21 ∷ 2 ∷ 0 ∷ 0x34 ∷ 1 ∷ 99 ∷ 1 ∷ 0 ∷ 7 ∷ [];
  data_at = 1;
  len = 9;
  owned = false;
}

handle_tlvs_enough_example :
    handle_tlvs no_callback 10 [] frame 0 start ≡ handle_tlvs no_callback 50 [] frame 0 start
handle_tlvs_enough_example =
    handle_tlvs_enough no_callback [] 0 10 50 frame start (omega arith) (omega arith)

handle_tlvs-each_example :
    Ended no_callback [] 0
      (handle_each no_callback [] 0 two_tlvs start)
      (handle_tlvs no_callback 10 [] frame 0 start)
handle_tlvs-each_example =
    handle_tlvs-each no_callback [] 0 two_tlvs 10 frame (5 ∷ []) [] start
      (omega arith, (omega arith, tt)) refl refl refl (omega arith)
