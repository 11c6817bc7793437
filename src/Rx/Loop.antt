-- ===== src/Rx/Loop.antt =====
-- The loop over the TLVs of an action frame: it ends, and it handles the TLVs of a well-formed frame
-- one by one.
use mathlib.Core.List.{append_assoc}
use owl.Base.{
  ℕ, zero, suc, ◌+◌, ◌-◌, ◌^◌, ◌<◌, ◌≤◌, ◌≡◌, refl, sym, ap, ◌∙◌, arith, Bool, true, false,
  Bool-cases, Option-cases, inl, inr, none, List, [], ◌∷◌, ◌++◌, length, length-append, All,
}
use owl.Base.Int.{pos}
use owl.Channel.{Chan}
use owl.Rx.{unexpected_format, Session, Outcome, next, stop}
use owl.Rx.Frame.{is_error, result_of, tlv_buf, call_back, handle_tlvs, stripped}
use owl.Rx.Tlv.{handle_tlv}
use owl.Tx.{tlv}
use owl.Tx.Parse.{read_tlv-tlv}
use owl.Wire.{Buf, strip, within, read_u8, read_tlv}
use owl.Wire.Bounds.{read_tlv_fits}

-- What a TLV takes off the frame.
stripped-fields :
    (frame : Buf) (n : ℕ)
    → n ≤ frame.len
    → ((stripped frame n).orig ≡ frame.orig)
      × ((stripped frame n).data_at ≡ frame.data_at + n)
      × ((stripped frame n).len ≡ frame.len - n)
unfolding stripped strip
stripped-fields frame n h = (ground arith, ground arith, ground arith)

read_tlv-empty : (frame : Buf) → frame.len ≡ 0 → read_tlv frame (pos 0) ≡ none
unfolding read_tlv read_u8 within
read_tlv-empty frame e = rw e refl

-- A value whose length fits the field of a TLV.
abbrev pub Fits : ℕ × List ℕ → Type 0
Fits t = length t.1 < 2 ^ 16

module _ (tlv_cb : ℕ → Buf → Session → Session) (list : List Chan) (tsft : ℕ) where
  -- The loop over the TLVs does not depend on the fuel as soon as that is above the length of the
  -- frame: it has ended by then.
  pub handle_tlvs_enough :
      (n m : ℕ) (frame : Buf) (h : Session)
      → frame.len < n
      → frame.len < m
      → handle_tlvs tlv_cb n list frame tsft h ≡ handle_tlvs tlv_cb m list frame tsft h
  unfolding handle_tlvs
  handle_tlvs_enough zero m frame h p q = absurd (omega arith)
  handle_tlvs_enough (suc n) zero frame h p q = absurd (omega arith)
  handle_tlvs_enough (suc n) (suc m) frame h p q = elim (Option-cases (read_tlv frame (pos 0))) [
    | inl e ↦ rw (handle_tlvs, e) refl
    | inr ((len, (type, tlv_len, val)), e) ↦
        let (r, _, o, at, fits) = read_tlv_fits frame (pos 0) (omega arith) e in
        let (_, _, shorter) = stripped-fields frame len (omega arith) in
        elim (Bool-cases
          (is_error (result_of (handle_tlv list type (tlv_buf val tlv_len) tsft h).1))) [
            | inl bad ↦ rw (handle_tlvs, e, bad) refl
            | inr good ↦
                rw (handle_tlvs, e, good)
                  (handle_tlvs_enough n m (stripped frame len) _ (omega arith) (omega arith))
          ]
  ]

  -- What the loop should do with a list of TLVs, types and values: one after the other, up to the
  -- first whose handler returns an error.
  abbrev pub handle_each : List (ℕ × List ℕ) → Session → Session × Bool
  handle_each [] h = (h, true)
  handle_each ((type, val) ∷ ts) h =
      let handled = handle_tlv list type (tlv_buf val (length val)) tsft h in
      let h' = call_back tlv_cb type (tlv_buf val (length val)) handled.0 in
      elim (is_error (result_of handled.1)) as (λ _. Session × Bool) [
        | true ↦ (h', false)
        | false ↦ handle_each ts h'
      ]

  -- The bytes of the TLVs in a row.
  abbrev pub tlv_bytes : List (ℕ × List ℕ) → List ℕ
  tlv_bytes [] = []
  tlv_bytes ((type, val) ∷ ts) = tlv type val ++ tlv_bytes ts

  -- How the loop ends: with a frame of which nothing is left, or with the error.
  abbrev pub Ended : Session × Bool → Session × Outcome Buf → Type 0
  Ended (h, true) (h', o) = (h' ≡ h) × (rest : Buf) × (o ≡ next rest) × (rest.len ≡ 0)
  Ended (h, false) (h', o) = (h' ≡ h) × (o ≡ stop unexpected_format)

  -- On a frame of TLVs of fewer than 2^16 bytes each and nothing else, wherever it lies in its
  -- allocation, the loop with fuel above the length of the frame handles all of them, in order, up
  -- to the first whose handler returns an error, and no other. If there is none, nothing is left
  -- of the frame, and otherwise the result is the error of an unexpected format.
  pub handle_tlvs-each :
      (ts : List (ℕ × List ℕ)) (n : ℕ) (frame : Buf) (pre post : List ℕ) (h : Session)
      → All Fits ts
      → frame.orig ≡ pre ++ (tlv_bytes ts ++ post)
      → frame.data_at ≡ length pre
      → frame.len ≡ length (tlv_bytes ts)
      → frame.len < n
      → Ended (handle_each ts h) (handle_tlvs tlv_cb n list frame tsft h)
  unfolding handle_tlvs
  handle_tlvs-each ts zero frame pre post h all is at fits enough = absurd (omega arith)
  handle_tlvs-each [] (suc n) frame pre post h all is at fits enough =
      rw (handle_tlvs, read_tlv-empty frame fits) (refl, frame, refl, fits)
  handle_tlvs-each ((type, val) ∷ ts) (suc n) frame pre post h (small, all) is at fits enough =
      let split = is ∙ ap (λ l. pre ++ l) (append_assoc (tlv type val) (tlv_bytes ts) post) in
      let long = length-append (tlv type val) (tlv_bytes ts) in
      let e = read_tlv-tlv frame pre (tlv_bytes ts ++ post) type val split at (omega arith) small in
      let (same, later, shorter) = stripped-fields frame (length val + 3) (omega arith) in
      elim (Bool-cases
        (is_error (result_of (handle_tlv list type (tlv_buf val (length val)) tsft h).1))) [
          | inl bad ↦ rw (handle_tlvs, handle_each, e, bad) (refl, refl)
          | inr good ↦
              rw (handle_tlvs, handle_each, e, good)
                (handle_tlvs-each ts n (stripped frame (length val + 3)) (pre ++ tlv type val) post
                  _ all
                  (same ∙ split ∙ sym (append_assoc pre (tlv type val) (tlv_bytes ts ++ post)))
                  (omega (arith, length-append pre (tlv type val))) (omega arith) (omega arith))
        ]
