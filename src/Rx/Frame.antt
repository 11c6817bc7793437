-- ===== src/Rx/Frame.antt =====
-- src/rx.c: the parts of `awdl_rx_action` that read the frame.
use owl.Base.{
  ℕ, zero, suc, ◌+◌, ◌==◌, ◌&&◌, ◌||◌, if◌then◌else◌, Bool, true, false, Option, none, some, List,
  ◌∷◌,
}
use owl.Base.Int.{pos}
use owl.Channel.{Chan}
use owl.Rx.{
  RxResult, ok, unexpected_format, unexpected_type, unexpected_value, too_short, Session, Outcome,
  next, stop, Handler, ◌>>=◌, ◌>>◌, finish, require, change_peer,
}
use owl.Rx.Tlv.{handle_tlv}
use owl.Version.{version}
use owl.Wire.{Buf, strip, read_bytes, read_tlv}

-- The test `result < 0`.
unfoldable pub is_error : RxResult → Bool
is_error unexpected_format = true
is_error unexpected_type = true
is_error unexpected_value = true
is_error too_short = true
is_error _ = false

-- A handler of a TLV ends with a result.
unfoldable pub result_of : Outcome (Unit {0}) → RxResult
result_of (next _) = ok
result_of (stop r) = r

-- The buffer that the loop makes for a value.
abbrev pub tlv_buf : List ℕ → ℕ → Buf
tlv_buf val len = record { orig = val; data_at = 0; len = len; owned = false }

-- `buf_strip`, whose result the loop ignores: it leaves the buffer as it is if there are too few
-- bytes.
unfoldable pub stripped : Buf → ℕ → Buf
unfolding strip
stripped frame len = elim (strip frame (pos len)) [ none ↦ frame | some r ↦ r.1 ]

-- The sizes of the header and the values of its fields; `some` is the subtype.
unfoldable pub parse_action_hdr : Buf → Option ℕ
unfolding version
parse_action_hdr frame = elim (read_bytes frame (pos 0) 16) [
  | none ↦ none
  | some (_, category ∷ o ∷ u ∷ i ∷ type ∷ ver ∷ subtype ∷ _) ↦
      if category == 127
        && (o == 0x00 && u == 0x17 && i == 0xf2)
        && type == 8
        && ver == version 1 0
        && (subtype == 0 || subtype == 3)
      then some subtype
      else none
  | some (_, _) ↦ none
]

-- The callback for TLVs comes from outside of the library.
module _ (tlv_cb : ℕ → Buf → Session → Session) where
  unfoldable pub call_back : ℕ → Buf → Session → Session
  call_back type val h = if h.state.tlv_cb then tlv_cb type val h else h

  -- The loop over the TLVs, on fuel: `next` is the frame that is left when it ends.
  unfoldable pub handle_tlvs : ℕ → List Chan → Buf → ℕ → Handler Buf
  unfolding is_error result_of call_back stripped
  handle_tlvs zero list frame tsft h = (h, next frame)
  handle_tlvs (suc fuel) list frame tsft h = elim (read_tlv frame (pos 0)) [
    | none ↦ (h, next frame)
    | some (len, (type, tlv_len, val)) ↦
        let handled = handle_tlv list type (tlv_buf val tlv_len) tsft h in
        let h' = call_back type (tlv_buf val tlv_len) handled.0 in
        elim (is_error (result_of handled.1)) as (λ _. Session × Outcome Buf) [
          | true ↦ (h', stop unexpected_format)
          | false ↦ handle_tlvs fuel list (stripped frame len) tsft h'
        ]
  ]

  -- From the loop to the mark for a master indication frame, and the result of the function, which
  -- updates the peer table in between. Each round takes bytes off the frame, so its length is fuel
  -- enough.
  unfoldable pub handle_body : List Chan → Buf → ℕ → ℕ → Handler (Unit {0})
  unfolding handle_tlvs
  handle_body list frame subtype tsft = do
    rest ← handle_tlvs (frame.len + 1) list frame tsft
    require (rest.len == 0) unexpected_format
    change_peer (λ p. if subtype == 3 then record p { sent_mif = true } else p)
    finish ok
