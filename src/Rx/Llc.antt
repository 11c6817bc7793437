-- ===== src/Rx/Llc.antt =====
-- src/rx.c: the LLC header of a data frame.
use owl.Base.{ℕ, ◌==◌, ◌&&◌, Bool, false, Option, none, some, List}
use owl.Base.Int.{pos}
use owl.Base.Maybe.{◌>>=◌}
use owl.Wire.{Buf, read_u8, read_be16, read_bytes_copy}

pub record LlcHdr : Type 0 where
  pub dsap : ℕ
  pub ssap : ℕ
  pub control : ℕ
  pub oui : List ℕ
  pub pid : ℕ

-- `none` is RX_TOO_SHORT.
unfoldable pub llc_parse : Buf → Option LlcHdr
llc_parse frame = do
  (_, dsap) ← read_u8 frame (pos 0)
  (_, ssap) ← read_u8 frame (pos 1)
  (_, control) ← read_u8 frame (pos 2)
  (_, oui) ← read_bytes_copy frame (pos 3) 3
  (_, pid) ← read_be16 frame (pos 6)
  some (record { dsap = dsap; ssap = ssap; control = control; oui = oui; pid = pid })

unfoldable pub valid_llc_header : Buf → Bool
unfolding llc_parse
valid_llc_header frame = elim (llc_parse frame) [
  | none ↦ false
  | some llc ↦ llc.dsap == 0xaa && llc.ssap == 0xaa && llc.control == 0x03 && llc.pid == 0x0800
]
