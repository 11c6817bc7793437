-- ===== src/Link/Body.antt =====
-- The TLVs of a whole action frame, through the loop of src/rx.c.
use owl.Base.{
  ℕ, ◌+◌, ◌*◌, ◌<◌, ◌^◌, ◌≡◌, refl, sym, ap, ap₂, subst, ◌∙◌, ◌==◌, if◌then◌else◌, true, false,
  List, [], ◌∷◌, length, length-append, drop, All, arith,
}
use owl.Channel.{Chan}
use owl.Link.Handlers.{tlvs-each}
use owl.Link.Passes.{clock_after, with_clock, known_peer}
use owl.Link.Tlvs.{IsSendable, tlvs, tlv_bytes-tlvs, last_tlvs}
use owl.Link.View.{View}
use owl.Peers.{Peer}
use owl.Rx.Frame.{handle_tlvs, handle_body}
use owl.Rx.Loop.{Fits, Ended, handle_tlvs-each}
use owl.Rx.{
  Session, Outcome, Handler, next, stop, ok, ◌>>=◌, ◌>>◌, require, change_peer, finish,
  unexpected_format,
}
use owl.Rx.Steps.{bind-next, require-next}
use owl.State.{AwdlState}
use owl.Tx.Frame.{ActionType, psf, mif, action_tlvs, subtype_of}
use owl.Tx.RoundTrip.{six_octets}
use owl.Tx.Sequence.{two_bytes}
use owl.Tx.{
  sequence_bytes, chan_encoding_length, init_chanseq, init_sync_params_tlv,
  init_election_params_tlv, init_chanseq_tlv, init_election_params_v2_tlv, init_service_params_tlv,
  init_ht_capabilities_tlv, init_arpa_tlv, init_data_path_state_tlv, init_version_tlv, c_string,
}
use owl.Wire.{Buf}

length-sequence_bytes : (cs : List Chan) → length (sequence_bytes cs 2) ≡ 2 * length cs
unfolding sequence_bytes
length-sequence_bytes [] = refl
length-sequence_bytes (c ∷ cs) = omega (arith, length-sequence_bytes cs)

module _ (s : AwdlState) (sent : ℕ) (ready : IsSendable s) where
  sequence-len :
      length (sequence_bytes s.channel.sequence (chan_encoding_length s.channel.enc)) ≡ 32
  sequence-len =
      let (_, two) = two_bytes s.channel.enc ready.encoding in
      let sixteen = ready.sequence in
      rw two (omega (arith, length-sequence_bytes s.channel.sequence, sixteen))

  chanseq-Fits : length (drop 3 (init_chanseq_tlv s)) < 2 ^ 16
  unfolding init_chanseq_tlv init_chanseq
  chanseq-Fits =
      let cs = sequence_bytes s.channel.sequence (chan_encoding_length s.channel.enc) in
      omega (arith, length-append cs (0 ∷ 0 ∷ 0 ∷ []), sequence-len)

  sync-Fits : length (drop 3 (init_sync_params_tlv s sent)) < 2 ^ 16
  unfolding init_sync_params_tlv init_chanseq
  sync-Fits =
      let (_, _, _, _, _, _, m) = six_octets s.election.master_addr ready.election.master_addr in
      let cs = sequence_bytes s.channel.sequence (chan_encoding_length s.channel.enc) in
      rw m (omega (arith, length-append cs (0 ∷ 0 ∷ []), sequence-len))

  election-Fits : length (drop 3 (init_election_params_tlv s)) < 2 ^ 16
  unfolding init_election_params_tlv
  election-Fits =
      let (_, _, _, _, _, _, m) = six_octets s.election.master_addr ready.election.master_addr in
      rw m (omega arith)

  election_v2-Fits : length (drop 3 (init_election_params_v2_tlv s)) < 2 ^ 16
  unfolding init_election_params_v2_tlv
  election_v2-Fits =
      let (_, _, _, _, _, _, m) = six_octets s.election.master_addr ready.election.master_addr in
      let (_, _, _, _, _, _, y) = six_octets s.election.sync_addr ready.election.sync_addr in
      rw (m, y) (omega arith)

  arpa-Fits : length (drop 3 (init_arpa_tlv s)) < 2 ^ 16
  unfolding init_arpa_tlv
  arpa-Fits =
      let short = ready.name in
      omega (arith, length-append (c_string s.name) (0xc0 ∷ 0x0c ∷ []), short)

  path-Fits : length (drop 3 (init_data_path_state_tlv s)) < 2 ^ 16
  unfolding init_data_path_state_tlv
  path-Fits =
      let (_, _, _, _, _, _, m) = six_octets s.self_address ready.address in rw m (omega arith)

  last-Fits : All Fits (last_tlvs s)
  unfolding init_version_tlv
  last-Fits = (path-Fits, (omega arith, tt))

  tlvs-Fits : (type : ActionType) → All Fits (tlvs s type sent)
  unfolding init_service_params_tlv init_ht_capabilities_tlv
  tlvs-Fits psf =
      (sync-Fits, (election-Fits, (chanseq-Fits, (election_v2-Fits, (omega arith, last-Fits)))))
  tlvs-Fits mif = (
    sync-Fits,
    (
      election-Fits,
      (chanseq-Fits, (election_v2-Fits, (omega arith, (omega arith, (arpa-Fits, last-Fits))))),
    ),
  )

-- A peer that has sent a frame of a type.
abbrev pub sender : AwdlState → ActionType → Peer → Peer
sender s psf p = known_peer s psf p
sender s mif p = record (known_peer s mif p) { sent_mif = true }

module _ (tlv_cb : ℕ → Buf → Session → Session) (list : List Chan) where
  -- The handlers behind the loop.
  marks : ActionType → Handler (Unit {0})
  marks type =
      change_peer (λ p. if subtype_of type == 3 then record p { sent_mif = true } else p)
      >> finish ok

  body-end :
      (body rest : Buf) (type : ActionType) (now : ℕ) (h h' : Session)
      → handle_tlvs tlv_cb (body.len + 1) list body now h ≡ (h', next rest)
      → rest.len ≡ 0
      → handle_body tlv_cb list body (subtype_of type) now h ≡ marks type h'
  unfolding handle_body marks
  body-end body rest type now h h' e done =
      bind-next (handle_tlvs tlv_cb (body.len + 1) list body now)
        (λ rest. require (rest.len == 0) unexpected_format >> marks type) h e
      ∙ require-next unexpected_format (marks type) h' (ap (λ n. n == 0) done)

  body_ends :
      (body : Buf) (type : ActionType) (now : ℕ) (h h' : Session) (r : Session × Outcome Buf)
      → handle_tlvs tlv_cb (body.len + 1) list body now h ≡ r
      → Ended tlv_cb list now (h', true) r
      → handle_body tlv_cb list body (subtype_of type) now h ≡ marks type h'
  body_ends body type now h h' (h'', o) e (same, rest, ends, empty) =
      body-end body rest type now h h' (e ∙ ap₂ (λ x y. (x, y)) same ends) empty

  marks-sender :
      (s : AwdlState) (type : ActionType) (p : Peer) (state : AwdlState)
      → marks type (record { peer = known_peer s type p; state = state })
        ≡ (record { peer = sender s type p; state = state }, stop ok)
  unfolding marks ◌>>=◌ ◌>>◌ change_peer finish
  marks-sender s psf p state = refl
  marks-sender s mif p state = refl

  -- The body of a whole frame is handled up to its end, and the peer and the clock are as it tells.
  pub body-View :
      (s : AwdlState) (sent now : ℕ) (crc32 : List ℕ → ℕ) (rate_type : ℕ) (type : ActionType)
      (body : Buf) (h : Session)
      → IsSendable s
      → length list ≡ 16
      → View body (action_tlvs crc32 rate_type s type sent)
      → h.state.tlv_cb ≡ false
      → h.state.sync.presence_mode ≡ 4
      → handle_body tlv_cb list body (subtype_of type) now h ≡ (
        record (with_clock h (clock_after s sent now h)) { peer = sender s type h.peer },
        stop ok,
      )
  body-View s sent now crc32 rate_type type body h ready long v quiet mode =
      let v' =
        subst (View body) (sym (tlv_bytes-tlvs s sent tlv_cb list now crc32 rate_type type)) v in
      let ended =
        handle_tlvs-each tlv_cb list now (tlvs s type sent) (body.len + 1) body v'.front v'.back h
          (tlvs-Fits s sent ready type) v'.orig v'.at v'.len (omega arith) in
      let all = tlvs-each s sent now ready tlv_cb list long type h quiet mode in
      body_ends body type now h _ _ refl (
        subst (λ r. Ended tlv_cb list now r (handle_tlvs tlv_cb (body.len + 1) list body now h)) all
          ended)
      ∙ marks-sender s type h.peer _
