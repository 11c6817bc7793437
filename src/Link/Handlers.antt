-- ===== src/Link/Handlers.antt =====
-- What the handlers of src/rx.c make of the TLVs of an action frame of src/tx.c, in their order.
use owl.Base.{
  ℕ, ◌≡◌, refl, sym, ap, ◌∙◌, inl, inr, if◌then◌else◌, Bool, true, false, Bool-cases, List, [], ◌∷◌,
  length, drop,
}
use owl.Channel.{Chan}
use owl.Election.{EtherAddr}
use owl.Link.Passes.{
  clock_after, with_clock, known_election, known_path, known_name, known_peer, Passes, sync-Passes,
  election_ignored, arpa-Passes, either_election, first_election, either_own,
}
use owl.Link.Tlvs.{IsSendable, tlvs, middle_tlvs, last_tlvs}
use owl.Rx.Frame.{is_error, result_of, call_back}
use owl.Rx.Keeps.{handle_tlv-Kept}
use owl.Rx.Loop.{handle_each}
use owl.Rx.Tlv.{handle_tlv}
use owl.Rx.{Session, Outcome, ok, ignore, finish}
use owl.State.{AwdlState}
use owl.Tx.Frame.{ActionType, psf, mif}
use owl.Tx.Parse.{whole}
use owl.Tx.RoundTrip.{election_params-heard, election_params_v2-heard, version_and_path-heard}
use owl.Tx.Sequence.{chanseq-heard}
use owl.Tx.{
  init_sync_params_tlv, init_election_params_tlv, init_chanseq_tlv, init_election_params_v2_tlv,
  init_service_params_tlv, init_ht_capabilities_tlv, init_arpa_tlv, init_data_path_state_tlv,
  init_version_tlv,
}
use owl.Wire.{Buf}

module _ (s : AwdlState) (sent now : ℕ) (ready : IsSendable s) where
  module _ (tlv_cb : ℕ → Buf → Session → Session) (list : List Chan) (long : length list ≡ 16) where
    abbrev each : List (ℕ × List ℕ) → Session → Session × Bool
    each = handle_each tlv_cb list now

    quiet_call :
        (type : ℕ) (val : Buf) (h : Session)
        → h.state.tlv_cb ≡ false
        → call_back tlv_cb type val h ≡ h
    unfolding call_back
    quiet_call type val h quiet = ap (λ b. if b then tlv_cb type val h else h) quiet

    each-next :
        (type : ℕ) (val : List ℕ) (ts : List (ℕ × List ℕ)) (h h' : Session)
        → Passes (handle_tlv list type (whole val) now h) h'
        → h'.state.tlv_cb ≡ false
        → each ((type, val) ∷ ts) h ≡ each ts h'
    unfolding result_of
    each-next type val ts h h' (o, e, good) quiet =
        let goes_on = λ (r : Session) (b : Bool). elim b as (λ _. Session × Bool) [
          | true ↦ (call_back tlv_cb type (whole val) r, false)
          | false ↦ each ts (call_back tlv_cb type (whole val) r)
        ] in
        ap (λ (r : Session × Outcome (Unit {0})). goes_on r.0 (is_error (result_of r.1))) e
        ∙ ap (goes_on h') good
        ∙ ap (each ts) (quiet_call type (whole val) h' quiet)

    module _ (ts : List (ℕ × List ℕ)) (h : Session) (quiet : h.state.tlv_cb ≡ false) where
      sync-next :
          each ((4, drop 3 (init_sync_params_tlv s sent)) ∷ ts) h
          ≡ each ts (with_clock h (clock_after s sent now h))
      unfolding handle_tlv
      sync-next = each-next 4 _ ts h _ (sync-Passes s sent now ready h) quiet

      election-next :
          each ((5, drop 3 (init_election_params_tlv s)) ∷ ts) h
          ≡ each ts (record h {
            peer = record h.peer { election = first_election s sent now ready h.peer };
          })
      unfolding handle_tlv is_error
      election-next =
          let pick = λ (b : Bool). record h {
            peer = record h.peer { election = either_election s sent now ready b h.peer };
          } in
          elim (Bool-cases h.peer.supports_v2) [
            | inl v2 ↦
                each-next 5 _ ts h h (ok, election_ignored s sent now ready _ h v2, refl) quiet
                ∙ ap (λ b. each ts (pick b)) (sym v2)
            | inr v1 ↦
                each-next 5 _ ts h (pick false)
                  (ok, election_params-heard s h ready.election ready.height v1, refl) quiet
                ∙ ap (λ b. each ts (pick b)) (sym v1)
          ]

      chanseq-next :
          h.state.sync.presence_mode ≡ 4
          → each ((18, drop 3 (init_chanseq_tlv s)) ∷ ts) h
            ≡ each ts (record h { peer = record h.peer { sequence = s.channel.sequence } })
      unfolding handle_tlv is_error
      chanseq-next mode =
          each-next 18 _ ts h _
            (ok, chanseq-heard s h list long ready.sequence ready.encoding mode, refl) quiet

      election_v2-next :
          each ((24, drop 3 (init_election_params_v2_tlv s)) ∷ ts) h
          ≡ each ts (record h {
            peer = record h.peer {
              election = known_election s h.peer.election;
              supports_v2 = true;
            };
          })
      unfolding handle_tlv is_error
      election_v2-next =
          each-next 24 _ ts h _ (ok, election_params_v2-heard s h ready.election, refl) quiet

      service-next : each ((6, drop 3 init_service_params_tlv) ∷ ts) h ≡ each ts h
      unfolding handle_tlv finish is_error
      service-next = each-next 6 _ ts h _ (ignore, refl, refl) quiet

      ht-next : each ((7, drop 3 init_ht_capabilities_tlv) ∷ ts) h ≡ each ts h
      unfolding handle_tlv finish is_error
      ht-next = each-next 7 _ ts h _ (ignore, refl, refl) quiet

      arpa-next :
          each ((16, drop 3 (init_arpa_tlv s)) ∷ ts) h
          ≡ each ts (record h { peer = known_name s mif h.peer })
      unfolding handle_tlv is_error
      arpa-next = each-next 16 _ ts h _ (ok, arpa-Passes s sent now ready h, refl) quiet

      path-next :
          each ((12, drop 3 (init_data_path_state_tlv s)) ∷ ts) h
          ≡ each ts (record h { peer = known_path h.peer })
      unfolding handle_tlv is_error
      path-next =
          let (_, e) = version_and_path-heard s h ready.version ready.dev_class ready.address in
          each-next 12 _ ts h _ (ok, e, refl) quiet

      version-next :
          each ((21, drop 3 (init_version_tlv s)) ∷ ts) h
          ≡ each ts
              (record h { peer = record h.peer { version = s.version; devclass = s.dev_class } })
      unfolding handle_tlv is_error
      version-next =
          let (e, _) = version_and_path-heard s h ready.version ready.dev_class ready.address in
          each-next 21 _ ts h _ (ok, e, refl) quiet

    last-each :
        (h : Session) (quiet : h.state.tlv_cb ≡ false)
        → each
            ((12, drop 3 (init_data_path_state_tlv s)) ∷ (21, drop 3 (init_version_tlv s)) ∷ [])
            h
          ≡ (
            record h {
              peer = record (known_path h.peer) { version = s.version; devclass = s.dev_class };
            },
            true,
          )
    last-each h quiet =
        path-next ((21, drop 3 (init_version_tlv s)) ∷ []) h quiet
        ∙ version-next [] (record h { peer = known_path h.peer }) quiet

    middle-each :
        (h : Session) (quiet : h.state.tlv_cb ≡ false) (type : ActionType)
        → each (middle_tlvs s type) h ≡ (
          record h {
            peer = record (known_path (known_name s type h.peer)) {
              version = s.version;
              devclass = s.dev_class;
            };
          },
          true,
        )
    middle-each h quiet psf = last-each h quiet
    middle-each h quiet mif =
        ht-next ((16, drop 3 (init_arpa_tlv s)) ∷ last_tlvs s) h quiet
        ∙ arpa-next (last_tlvs s) h quiet
        ∙ last-each (record h { peer = known_name s mif h.peer }) quiet

    clock_mode :
        (h : Session) → (clock_after s sent now h).presence_mode ≡ h.state.sync.presence_mode
    unfolding handle_tlv
    clock_mode h =
        (handle_tlv-Kept list 4 (whole (drop 3 (init_sync_params_tlv s sent))) now
          h).sync.presence_mode

    -- All of the TLVs of a frame are handled, and the peer and the clock are as they tell.
    pub tlvs-each :
        (type : ActionType) (h : Session)
        → h.state.tlv_cb ≡ false
        → h.state.sync.presence_mode ≡ 4
        → handle_each tlv_cb list now (tlvs s type sent) h ≡ (
          record (with_clock h (clock_after s sent now h)) { peer = known_peer s type h.peer },
          true,
        )
    tlvs-each type h quiet mode =
        let t5 = middle_tlvs s type in
        let t4 = (6, drop 3 init_service_params_tlv) ∷ t5 in
        let t3 = (24, drop 3 (init_election_params_v2_tlv s)) ∷ t4 in
        let t2 = (18, drop 3 (init_chanseq_tlv s)) ∷ t3 in
        let t1 = (5, drop 3 (init_election_params_tlv s)) ∷ t2 in
        let h1 = with_clock h (clock_after s sent now h) in
        let h2 : Session = record h1 {
          peer = record h.peer { election = first_election s sent now ready h.peer };
        } in
        let h3 : Session = record h2 { peer = record h2.peer { sequence = s.channel.sequence } } in
        let knows = λ (own : EtherAddr). record h3 {
          peer = record h3.peer {
            election = record s.election { self_addr = own };
            supports_v2 = true;
          };
        } in
        let h4 = knows h.peer.election.self_addr in
        sync-next t1 h quiet
        ∙ election-next t2 h1 quiet
        ∙ chanseq-next t3 h2 quiet (clock_mode h ∙ mode)
        ∙ election_v2-next t4 h3 quiet
        ∙ ap (λ own. each t4 (knows own)) (either_own s sent now ready h.peer.supports_v2 h.peer)
        ∙ service-next t5 h4 quiet
        ∙ middle-each h4 quiet type
